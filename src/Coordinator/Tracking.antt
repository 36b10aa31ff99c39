-- ===== src/Coordinator/Tracking.antt =====
-- The workers that a new EXECUTE request tracks: the loops of `initializeExecuteProgress`.
use cmpe275_enterprise_apps.Common.{
  ℕ, ◌+◌, String, str_eq, eq_iff, ◌&&◌, List, [], ◌∷◌, ◌++◌, Option, none, some, ◌≡◌, refl, sym, ap,
  ◌∙◌, subst, arith, if◌then◌else◌, Bool-cases, inl, inr, length, length-append, append_assoc,
  append-nil,
}
use cmpe275_enterprise_apps.Common.Dict.{find-try_emplace}
use cmpe275_enterprise_apps.Model.Request.{QueryRequest, has_id, has_id-concat, has_visited_node}
use cmpe275_enterprise_apps.RequestState.{
  RequestState, new_progress, initialize_worker, find_worker_progress,
}
use cmpe275_enterprise_apps.Coordinator.{
  Coordinator, Worker, initialize_execute_progress, initialize_children, initialize_local,
  local_worker, own_children, has_overlay,
}

-- The children that the request has not visited.
unfoldable pub unvisited : QueryRequest → List String → List String
unvisited r [] = []
unvisited r (child ∷ children) =
    let rest = unvisited r children in if has_visited_node r child then rest else child ∷ rest

abbrev own_id : Option Worker → List String
own_id none = []
own_id (some w) = w.node_id ∷ []

-- The own worker, and the children where the request goes on to them.
abbrev pub tracked : QueryRequest → Coordinator → List String
tracked r c =
    own_id (local_worker r c)
    ++ (if r.distributed_allowed && has_overlay c.overlay && c.has_remote_client
        then unvisited r (own_children c)
        else [])

-- These workers stand in the state, each at its start, and no others.
abbrev pub Tracks : List String → RequestState → Type 0
Tracks ids s =
    (j : String) → find_worker_progress j s ≡ (if has_id j ids then some new_progress else none)

Tracks-initialize_worker :
    (ids : List String) (id : String) (s : RequestState)
    → Tracks ids s
    → Tracks (ids ++ id ∷ []) (initialize_worker id s)
unfolding initialize_worker find_worker_progress
Tracks-initialize_worker ids id s h j =
    find-try_emplace id j new_progress s.worker_progress ∙ elim (Bool-cases (str_eq id j)) [
      | inl same ↦
          let e = (eq_iff id j).0 same in
          elim (Bool-cases (has_id id ids)) [
            | inl old ↦ rw (same, h id, old, has_id-concat j id ids, sym e, old) refl
            | inr new ↦ rw (same, h id, new, has_id-concat j id ids, same) (ground arith)
          ]
      | inr other ↦ rw (other, h j, has_id-concat j id ids, other) (ground arith)
    ]

initialize_children-Tracks :
    (r : QueryRequest) (children ids : List String) (s : RequestState) (n : ℕ)
    → Tracks ids s
    → let (s', n') = initialize_children r children s n in
      Tracks (ids ++ unvisited r children) s' × (n' ≡ n + length (unvisited r children))
unfolding initialize_children unvisited
initialize_children-Tracks r [] ids s n h =
    (subst (λ (js : List String). Tracks js s) (sym (append-nil ids)) h, omega arith)
initialize_children-Tracks r (child ∷ children) ids s n h =
    elim (Bool-cases (has_visited_node r child)) [
      | inl visited ↦ rw visited (initialize_children-Tracks r children ids s n h)
      | inr fresh ↦
          let (all, count) =
            initialize_children-Tracks r children (ids ++ child ∷ []) (initialize_worker child s)
              (n + 1) (Tracks-initialize_worker ids child s h) in
          rw fresh
            (rw (append_assoc ids (child ∷ []) (unvisited r children)) at all, omega (arith, count))
    ]

initialize_local-Tracks :
    (w : Option Worker) (s : RequestState)
    → Tracks [] s
    → let (s', n) = initialize_local w s in Tracks (own_id w) s' × (n ≡ length (own_id w))
initialize_local-Tracks none s h = (h, refl)
initialize_local-Tracks (some w) s h = (Tracks-initialize_worker [] w.node_id s h, refl)

pub initialize_execute_progress-Tracks :
    (s : RequestState) (r : QueryRequest) (c : Coordinator)
    → Tracks [] s
    → let s' = initialize_execute_progress s r c in
      Tracks (tracked r c) s' × (s'.expected_workers ≡ length (tracked r c))
unfolding initialize_execute_progress find_worker_progress
initialize_execute_progress-Tracks s r c h =
    let (s1, n1) = initialize_local (local_worker r c) s in
    let (own, one) = initialize_local-Tracks (local_worker r c) s h in
    elim (Bool-cases (r.distributed_allowed && has_overlay c.overlay && c.has_remote_client)) [
      | inl on ↦
          let (all, count) =
            initialize_children-Tracks r (own_children c) (own_id (local_worker r c)) s1 n1 own in
          rw on (
            unfold find_worker_progress in all,
            count
                ∙ ap (λ (n : ℕ). n + length (unvisited r (own_children c))) one
                ∙ sym (length-append (own_id (local_worker r c)) (unvisited r (own_children c))),
          )
      | inr off ↦
          rw (off, append-nil (own_id (local_worker r c))) (unfold find_worker_progress in own, one)
    ]
