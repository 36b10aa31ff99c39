-- ===== src/Coordinator/Starting.antt =====
-- The state of a client's EXECUTE request that has just entered the table.
use cmpe275_enterprise_apps.Common.{
  ℕ, ◌+◌, String, str_eq, ◌&&◌, ◌||◌, subst, length, List, [], ◌∷◌, Option, none, some, ◌≡◌, refl,
  ap, ◌∙◌, sym, arith, if_intro,
}
use cmpe275_enterprise_apps.Model.Request.{
  QueryRequest, mark_visited_node, has_visited_node, has_id, has_visited_node-mark_visited_node,
}
use cmpe275_enterprise_apps.RequestState.{
  RequestState, new_state, set_state, in_progress, initialize_worker, find_worker_progress,
}
use cmpe275_enterprise_apps.Common.Dict.{find}
use cmpe275_enterprise_apps.Model.Result.{empty_result}
use cmpe275_enterprise_apps.Coordinator.Tracking.{
  Tracks, tracked, initialize_execute_progress-Tracks,
}
use cmpe275_enterprise_apps.Coordinator.{
  Coordinator, Worker, query_name, initialize_execute_progress, initialize_children,
  initialize_local, local_worker, own_children, has_overlay,
}

-- The state that a new EXECUTE request starts with.
abbrev pub started : QueryRequest → Coordinator → RequestState
started r c = initialize_execute_progress (set_state in_progress (new_state r.query_id r)) r c

initialize_children-query_id :
    (r : QueryRequest) (children : List String) (s : RequestState) (n : ℕ)
    → (initialize_children r children s n).0.query_id ≡ s.query_id
unfolding initialize_children initialize_worker
initialize_children-query_id r [] s n = refl
initialize_children-query_id r (child ∷ children) s n = ground (
  arith,
  initialize_children-query_id r children s n,
  initialize_children-query_id r children (initialize_worker child s) (n + 1),
)

pub initialize_execute_progress-query_id :
    (s : RequestState) (r : QueryRequest) (c : Coordinator)
    → (initialize_execute_progress s r c).query_id ≡ s.query_id
unfolding initialize_execute_progress initialize_worker
initialize_execute_progress-query_id s r c =
    if_intro (λ (p : RequestState × ℕ). p.0.query_id ≡ s.query_id)
      (r.distributed_allowed && has_overlay c.overlay && c.has_remote_client)
      (λ _. initialize_children-query_id r (own_children c) _ _ ∙ local (local_worker r c))
      (λ _. local (local_worker r c))
  where
    local : (w : Option Worker) → (initialize_local w s).0.query_id ≡ s.query_id
    local none = refl
    local (some w) = refl

pub mark_visited_node-query_id :
    (r : QueryRequest) (id : String) → (mark_visited_node r id).query_id ≡ r.query_id
unfolding mark_visited_node
mark_visited_node-query_id r id = ground arith

pub mark_visited_node-query_type :
    (r : QueryRequest) (id : String) → (mark_visited_node r id).query_type ≡ r.query_type
unfolding mark_visited_node
mark_visited_node-query_type r id = ground arith

-- The request as it enters the table.
abbrev pub named : QueryRequest → Coordinator → QueryRequest
named request c =
    mark_visited_node (record request { query_id = query_name c.next_query_seq }) c.self_node_id

-- The state of a client's request that has just entered the table.
pub record HasStarted (request : QueryRequest) (c : Coordinator) (s : RequestState) : Type 0 where
  pub query_id : s.query_id ≡ query_name c.next_query_seq
  pub same_request : s.request ≡ record request {
    query_id = query_name c.next_query_seq;
    visited_node_ids = s.request.visited_node_ids;
  }
  pub visited :
      (j : String)
      → has_visited_node s.request j ≡ (has_visited_node request j || str_eq c.self_node_id j)
  pub state : s.state ≡ in_progress
  pub no_rows : s.aggregated_result ≡ empty_result
  pub unread_from : s.next_unread_index ≡ 0
  pub first_round : s.fetch_round ≡ 0
  pub tracks : Tracks (tracked s.request c) s
  pub expected : s.expected_workers ≡ length (tracked s.request c)

-- What `initializeExecuteProgress` leaves alone.
abbrev Kept : RequestState → RequestState → Type 0
Kept s s' =
    (s'.request ≡ s.request)
    × (s'.state ≡ s.state)
    × (s'.aggregated_result ≡ s.aggregated_result)
    × (s'.next_unread_index ≡ s.next_unread_index)
    × (s'.fetch_round ≡ s.fetch_round)

initialize_children-Kept :
    (r : QueryRequest) (children : List String) (s : RequestState) (n : ℕ)
    → Kept s (initialize_children r children s n).0
unfolding initialize_children initialize_worker
initialize_children-Kept r [] s n = (refl, refl, refl, refl, refl)
initialize_children-Kept r (child ∷ children) s n =
    if_intro (λ (p : RequestState × ℕ). Kept s p.0) (has_visited_node r child)
      (λ _. initialize_children-Kept r children s n)
      (λ _. initialize_children-Kept r children (initialize_worker child s) (n + 1))

initialize_execute_progress-Kept :
    (s : RequestState) (r : QueryRequest) (c : Coordinator)
    → Kept s (initialize_execute_progress s r c)
unfolding initialize_execute_progress initialize_worker
initialize_execute_progress-Kept s r c =
    if_intro (λ (p : RequestState × ℕ). Kept s p.0)
      (r.distributed_allowed && has_overlay c.overlay && c.has_remote_client)
      (λ _. children (local_worker r c)) (λ _. local (local_worker r c))
  where
    local : (w : Option Worker) → Kept s (initialize_local w s).0
    local none = (refl, refl, refl, refl, refl)
    local (some w) = (refl, refl, refl, refl, refl)

    children :
        (w : Option Worker)
        → Kept s
            (initialize_children r
              (own_children c)
              (initialize_local w s).0
              (initialize_local w s).1).0
    children none = initialize_children-Kept r (own_children c) s 0
    children (some w) =
        initialize_children-Kept r (own_children c) (initialize_worker w.node_id s) 1

mark_visited_node-same :
    (r : QueryRequest) (id : String)
    → mark_visited_node r id
      ≡ record r { visited_node_ids = (mark_visited_node r id).visited_node_ids }
unfolding mark_visited_node
mark_visited_node-same r id =
    if_intro (λ (q : QueryRequest). q ≡ record r { visited_node_ids = q.visited_node_ids })
      (has_visited_node r id) (λ _. refl) (λ _. refl)

no_worker : (r : QueryRequest) → Tracks [] (set_state in_progress (new_state r.query_id r))
unfolding find_worker_progress find has_id
no_worker r j = refl

pub started-HasStarted :
    (request : QueryRequest) (c : Coordinator) → HasStarted request c (started (named request c) c)
unfolding has_visited_node
started-HasStarted request c =
    let base = record request { query_id = query_name c.next_query_seq } in
    let r = named request c in
    let s0 = set_state in_progress (new_state r.query_id r) in
    let (req, state, rows, unread, round) = initialize_execute_progress-Kept s0 r c in
    let (tracks, expected) = initialize_execute_progress-Tracks s0 r c (no_worker r) in
    record {
      query_id =
          initialize_execute_progress-query_id s0 r c
          ∙ mark_visited_node-query_id base c.self_node_id;
      same_request =
          subst (λ (q : QueryRequest). q ≡ record base { visited_node_ids = q.visited_node_ids })
            (sym req) (mark_visited_node-same base c.self_node_id);
      visited = λ j.
          ap (λ (q : QueryRequest). has_visited_node q j) req
          ∙ has_visited_node-mark_visited_node base c.self_node_id j;
      state = state;
      no_rows = rows;
      unread_from = unread;
      first_round = round;
      tracks = subst (λ (q : QueryRequest). Tracks (tracked q c) (started r c)) (sym req) tracks;
      expected =
          subst (λ (q : QueryRequest). (started r c).expected_workers ≡ length (tracked q c))
            (sym req) expected;
    }
