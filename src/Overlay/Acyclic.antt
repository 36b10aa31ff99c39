-- ===== src/Overlay/Acyclic.antt =====
-- `hasCycle` ends and decides whether a cycle can be reached, and so does `validate`.
use cmpe275_enterprise_apps.Common.{
  ℕ, zero, suc, ◌<◌, ◌==◌, String, eq_iff, true, false, not, List, [], ◌∷◌, some, ◌≡◌, refl, sym,
  ◌↔◌, arith, Bool-cases, inl, inr, subst, some_inj, length,
}
use cmpe275_enterprise_apps.Model.Request.{has_id}
use cmpe275_enterprise_apps.Overlay.{OverlayConfig, NodeInfo, get_children}
use cmpe275_enterprise_apps.Overlay.Traversal.{
  visit_all, has_cycle, CycleState, unless_found, leave, validate_walks, collect_reachable,
}
use cmpe275_enterprise_apps.Overlay.Reachable.{Reaches, has_id-one, self_id}
use cmpe275_enterprise_apps.Overlay.Termination.{
  child_ids, get_children-child_ids, unseen, unseen-nil, unseen_le, unseen-cons,
  collect_reachable_lem,
}
use cmpe275_enterprise_apps.Overlay.Cycles.{
  Cyclic, Calm, Stacked, Checked, true_ne_false, visit_found, has_cycle-Checked, Stacked-more,
  Calm-more,
}

leave_total : (id : String) (r : CycleState) → (s : CycleState) × (leave id r ≡ some s)
leave_total id (true, v, a) = (_, refl)
leave_total id (false, v, a) = (_, refl)

module _ (o : OverlayConfig) (us : List String)
    (known : (x y : String) → has_id y (get_children o x) ≡ true → has_id y us ≡ true) where
  -- A loop goes on after a check that ends.
  goes_on :
      (fuel : ℕ) (id : String) (ids v active : List String) (r : CycleState)
      → Checked o (id ∷ []) v active r
      → ((v1 : List String)
          → ((x : String) → has_id x v ≡ true → has_id x v1 ≡ true)
          → Calm o v1 active
          → (s : CycleState) × (visit_all (unless_found (has_cycle fuel o)) ids (false, v1, active)
              ≡ some s))
      → (s : CycleState) × (visit_all (unless_found (has_cycle fuel o)) ids r ≡ some s)
  goes_on fuel id ids v active (true, v1, a1) p rest =
      ((true, v1, a1), visit_found (has_cycle fuel o) ids v1 a1)
  goes_on fuel id ids v active (false, v1, a1) p rest = elim p.outcome [
    | inl (t, a, k, c) ↦ absurd (true_ne_false t refl)
    | inr (t, same, calm, all) ↦ let (s, e) = rest v1 p.grows calm in (s, rw same e)
  ]

  visit_total :
      (fuel : ℕ)
      → ((id : String) (v active : List String)
          → has_id id us ≡ true
          → unseen v us < fuel
          → Stacked o active id
          → Calm o v active
          → (s : CycleState) × (has_cycle fuel o id (false, v, active) ≡ some s))
      → (ids v active : List String) → ((x : String) → has_id x ids ≡ true → has_id x us ≡ true)
      → ((x : String) → has_id x ids ≡ true → Stacked o active x)
      → unseen v us < fuel
      → Calm o v active
      → (s : CycleState) × (visit_all (unless_found (has_cycle fuel o)) ids (false, v, active)
          ≡ some s)
  unfolding visit_all has_id
  visit_total fuel total [] v active k stacked h calm = ((false, v, active), refl)
  visit_total fuel total (id ∷ ids) v active k stacked h calm =
      let self : has_id id (id ∷ ids) ≡ true = ground (arith, eq_iff id id) in
      let (r, e) = total id v active (k id self) h (stacked id self) calm in
      let p = has_cycle-Checked o fuel id v active r (stacked id self) calm e in
      let (s, f) = goes_on fuel id ids v active r p (λ v1 grows calm1.
        visit_total fuel total ids v1 active (λ x m. k x (ground (arith, m)))
          (λ x m. stacked x (ground (arith, m))) (let le = unseen_le v v1 us grows in omega arith)
          calm1) in
      (s, rw e f)

  has_cycle_total :
      (fuel : ℕ) (id : String) (v active : List String)
      → has_id id us ≡ true
      → unseen v us < fuel
      → Stacked o active id
      → Calm o v active
      → (s : CycleState) × (has_cycle fuel o id (false, v, active) ≡ some s)
  unfolding has_cycle
  has_cycle_total zero id v active k h stacked calm = elim h [ ]
  has_cycle_total (suc fuel) id v active k h stacked calm = elim (Bool-cases (has_id id active)) [
    | inl again ↦ ((true, v, active), rw (again, has_cycle) refl)
    | inr new ↦ elim (Bool-cases (has_id id v)) [
      | inl seen ↦ ((false, v, active), rw (new, seen, has_cycle) refl)
      | inr fresh ↦
          let (r, e) =
            visit_total fuel (has_cycle_total fuel) (get_children o id) (id ∷ v) (id ∷ active)
              (known id) (Stacked-more o id active stacked)
              (let lt = unseen-cons id v us fresh k in omega arith)
              (Calm-more o id v active calm) in
          let (s, f) = leave_total id r in (s, rw (new, fresh, has_cycle) (rw e f))
    ]
  ]

Checked-iff :
    (o : OverlayConfig) (id : String) (s : CycleState)
    → Checked o (id ∷ []) [] [] s
    → (s.0 ≡ true) ↔ Cyclic o id
Checked-iff o id s p = (
  (λ found. elim p.outcome [
    | inl (t, a, k, c) ↦ subst (λ (x : String). Cyclic o x) (sym (has_id-one k)) c
    | inr (t, same, calm, all) ↦ absurd (true_ne_false found t)
  ]),
  (λ c. elim p.outcome [
    | inl (t, a, k, d) ↦ t
    | inr (t, same, calm, all) ↦
        let (seen, off) = all id (self_id id) in absurd (calm id seen off c)
  ]),
)

-- `hasCycle`, started with no visited nodes and an empty stack, ends on every overlay: one step of
-- fuel more than there are edges and start node is enough. It finds a cycle exactly if a walk along
-- outgoing edges from the given node comes to a node from which a walk leads back to it.
pub has_cycle_lem :
    (o : OverlayConfig) (id : String) (fuel : ℕ)
    → length (id ∷ child_ids o.children) < fuel
    → (s : CycleState) × (has_cycle fuel o id (false, [], []) ≡ some s)
      × ((s.0 ≡ true) ↔ Cyclic o id)
unfolding get_children has_id
has_cycle_lem o id fuel h =
    let us = id ∷ child_ids o.children in
    let no_stack : Stacked o [] id = λ x k. cc in
    let none_seen : Calm o [] [] = λ x k. cc in
    let (s, e) =
      has_cycle_total o us (λ x y m. ground (arith, get_children-child_ids y x o.children m)) fuel
        id [] [] (ground (arith, eq_iff id id)) (let size = unseen-nil us in omega arith) no_stack
        none_seen in
    let p = has_cycle-Checked o fuel id [] [] s no_stack none_seen e in (s, e, Checked-iff o id s p)

-- The walks of `validate`, where they accept.
pub walks_accept :
    (fuel : ℕ) (o : OverlayConfig) (entry : NodeInfo)
    → length (entry.node_id ∷ child_ids o.children) < fuel
    → validate_walks fuel o entry ≡ some true
    → (¬ Cyclic o entry.node_id)
      × (v : List String) × (length v ≡ length o.nodes)
      × (collect_reachable fuel o entry.node_id [] ≡ some v)
      × ((x : String) → (has_id x v ≡ true) ↔ Reaches o entry.node_id x)
unfolding validate_walks
walks_accept fuel o entry h accepted =
    let (v, e, reach) = collect_reachable_lem o entry.node_id fuel h in
    let (s, f, cyclic) = has_cycle_lem o entry.node_id fuel h in
    let step1 = rw (e, f) at accepted in
    elim (Bool-cases (length v == length o.nodes)) [
      | inr other ↦ absurd (true_ne_false refl (sym (some_inj (rw other at step1))))
      | inl same ↦
          let quiet : not s.0 ≡ true = some_inj (rw same at step1) in
          (
            (λ c. let t = cyclic.1 c in absurd (true_ne_false quiet (rw t refl))),
            v,
            ground (arith, same),
            e,
            reach,
          )
    ]
