-- ===== src/Coordinator/Naming.antt =====
-- Query IDs that the coordinator gives out itself.
use text.Mathlib.TextLemmas.{append_cancel_left}
use cmpe275_enterprise_apps.Common.{
  ℕ, ◌+◌, ◌<◌, str_eq, eq_iff, true, List, [], ◌∷◌, ◌++◌, none, ◌≡◌, refl, ap, ◌∙◌, sym, arith, All,
  All-append, Bool-cases, inl, inr,
}
use cmpe275_enterprise_apps.Common.Decimal.{decimal-injective}
use cmpe275_enterprise_apps.Model.Request.{QueryRequest, QueryType, count, execute}
use cmpe275_enterprise_apps.RequestState.{RequestState, new_state}
use cmpe275_enterprise_apps.Coordinator.Rpc.{submit_client_query, start_execute, run_or_start}
use cmpe275_enterprise_apps.Coordinator.Fetch.{RemoteClient}
use cmpe275_enterprise_apps.Coordinator.Starting.{
  started, named, HasStarted, started-HasStarted, initialize_execute_progress-query_id,
  mark_visited_node-query_id,
}
use cmpe275_enterprise_apps.Coordinator.{
  Coordinator, find_state, replace_state, find_request_state, create_request_state,
  found_or_created, query_name, ensure_query_id, initialize_execute_progress,
}

-- Two numbers give two names.
query_name-injective : (m n : ℕ) → query_name m ≡ query_name n → m ≡ n
unfolding query_name
query_name-injective m n e = decimal-injective m n (append_cancel_left "q-" _ _ e)

-- Every query ID in the table was given out by this coordinator.
abbrev IsNamed : ℕ → RequestState → Type 0
IsNamed next s = (k : ℕ) × (k < next) × (s.query_id ≡ query_name k)

abbrev pub IsNumbered : Coordinator → Type 0
IsNumbered c = All (IsNamed c.next_query_seq) c.query_states

pub IsNumbered-fresh :
    (n : ℕ) (states : List RequestState)
    → All (IsNamed n) states
    → find_state (query_name n) states ≡ none
unfolding find_state
IsNumbered-fresh n [] a = refl
IsNumbered-fresh n (s ∷ states) a = elim (Bool-cases (str_eq s.query_id (query_name n))) [
  | inl h ↦
      let (k, lt, e) = a.0 in
      let same = query_name-injective k n (sym e ∙ (eq_iff s.query_id (query_name n)).0 h) in
      absurd (omega arith)
  | inr h ↦ rw h (IsNumbered-fresh n states a.1)
]

replace_state-concat :
    (s t : RequestState) (states : List RequestState)
    → find_state s.query_id states ≡ none
    → t.query_id ≡ s.query_id
    → replace_state t (states ++ s ∷ []) ≡ states ++ t ∷ []
unfolding find_state replace_state
replace_state-concat s t [] f e = ground (arith, eq_iff s.query_id t.query_id)
replace_state-concat s t (u ∷ states) f e = ground (
  arith,
  eq_iff u.query_id t.query_id,
  eq_iff u.query_id s.query_id,
  replace_state-concat s t states,
)

-- A state that is added under the next name keeps the table numbered.
IsNamed-suc :
    (n : ℕ) (states : List RequestState) → All (IsNamed n) states → All (IsNamed (n + 1)) states
IsNamed-suc n [] a = tt
IsNamed-suc n (s ∷ states) a =
    let (k, lt, e) = a.0 in ((k, omega arith, e), IsNamed-suc n states a.1)

pub start_execute_fresh :
    (r : QueryRequest) (c : Coordinator)
    → find_request_state r.query_id c ≡ none
    → start_execute r c ≡ record c { query_states = c.query_states ++ started r c ∷ [] }
unfolding start_execute create_request_state
start_execute_fresh r c e =
    rw (e, found_or_created)
      (ap (λ (states : List RequestState). record c { query_states = states })
        (replace_state-concat (new_state r.query_id r) _ c.query_states e
            (initialize_execute_progress-query_id _ r _)
          ∙ ap (λ (s : RequestState). c.query_states ++ s ∷ [])
              (unfold initialize_execute_progress in refl)))

module _ {W : Type 0} (client : RemoteClient W) where
  run_or_start-execute :
      (t : QueryType) (r : QueryRequest) (c : Coordinator) (w : W)
      → t ≡ execute
      → run_or_start client t r c w ≡ (r.query_id, start_execute r c, w)
  run_or_start-execute execute r c w e = refl
  run_or_start-execute count r c w e = cc

  pub submit_unnamed :
      (request : QueryRequest) (c : Coordinator) (w : W)
      → request.query_id ≡ ""
      → request.query_type ≡ execute
      → submit_client_query client request c w ≡ (
        (named request c).query_id,
        start_execute (named request c) (record c { next_query_seq = c.next_query_seq + 1 }),
        w,
      )
  unfolding submit_client_query ensure_query_id
  submit_unnamed request c w e x =
      let unnamed : str_eq request.query_id "" ≡ true = (eq_iff request.query_id "").1 e in
      rw unnamed (
        run_or_start-execute request.query_type (named request c)
          (record c { next_query_seq = c.next_query_seq + 1 }) w x)

  submit_client_query_enters :
      (request : QueryRequest) (c : Coordinator) (w : W)
      → request.query_id ≡ ""
      → request.query_type ≡ execute
      → IsNumbered c
      → let (id, c', w') = submit_client_query client request c w in
        (id ≡ query_name c.next_query_seq)
        × (find_request_state id c ≡ none)
        × (c'.query_states ≡ c.query_states ++ started (named request c) c ∷ [])
        × (w' ≡ w)
        × IsNumbered c'
  submit_client_query_enters request c w e x a =
      let name =
        mark_visited_node-query_id (record request { query_id = query_name c.next_query_seq })
          c.self_node_id in
      let fresh : find_request_state (named request c).query_id c ≡ none =
        rw name (IsNumbered-fresh c.next_query_seq c.query_states a) in
      let c1 = record c { next_query_seq = c.next_query_seq + 1 } in
      let grown = start_execute_fresh (named request c) c1 fresh in
      rw (submit_unnamed request c w e x, grown)
        (
          name,
          fresh,
          unfold initialize_execute_progress in refl,
          refl,
          All-append (IsNamed (c.next_query_seq + 1)) c.query_states _
              (IsNamed-suc c.next_query_seq c.query_states a)
              (
                (
                  c.next_query_seq,
                  omega arith,
                  initialize_execute_progress-query_id _ (named request c) c1 ∙ name,
                ),
                tt,
              ),
        )

  -- A client's EXECUTE query without an ID gets one that no request of the table has, and one
  -- state enters the table behind the others, which stay as they are. The state has the client's
  -- request with that ID, visited by this node and those that it came from, and is in progress. It
  -- holds no rows, and tracks this node's own worker and, where the request goes on, the children that
  -- it has not visited, all of them at their start. No other node is called, and every ID in the table
  -- is again one that this coordinator gave out.
  pub submit_client_query_new :
      (request : QueryRequest) (c : Coordinator) (w : W)
      → request.query_id ≡ ""
      → request.query_type ≡ execute
      → IsNumbered c
      → let (id, c', w') = submit_client_query client request c w in
        (id ≡ query_name c.next_query_seq)
        × (find_request_state id c ≡ none)
        × (s : RequestState) × (c'.query_states ≡ c.query_states ++ s ∷ [])
        × HasStarted request c s
        × (w' ≡ w)
        × IsNumbered c'
  submit_client_query_new request c w e x a =
      let (id, fresh, entered, quiet, numbered) = submit_client_query_enters request c w e x a in
      (
        id,
        fresh,
        started (named request c) c,
        entered,
        started-HasStarted request c,
        quiet,
        numbered,
      )
