-- ===== src/Coordinator/Submitting.antt =====
-- `submitClientQuery` on a node without children, and the chunks that the client fetches then.
use cmpe275_enterprise_apps.Common.{
  ℕ, ◌+◌, ◌*◌, ◌<◌, String, eq_iff, ◌&&◌, List, [], ◌∷◌, ◌++◌, none, some, ◌≡◌, refl, ap, ◌∙◌, inl,
  arith, if_intro, length,
}
use cmpe275_enterprise_apps.Model.Request.{
  QueryRequest, execute, mark_visited_node, has_visited_node,
}
use cmpe275_enterprise_apps.RequestState.{
  RequestState, in_progress, new_state, new_progress, set_state, set_expected_workers,
  initialize_worker,
}
use cmpe275_enterprise_apps.RequestState.Invariant.{
  new_state-IsValid, set_state-IsValid, initialize_worker-IsValid,
}
use cmpe275_enterprise_apps.Common.Dict.{try_emplace}
use cmpe275_enterprise_apps.Coordinator.Naming.{
  IsNumbered, IsNumbered-fresh, submit_unnamed, start_execute_fresh,
}
use cmpe275_enterprise_apps.Coordinator.Starting.{
  started, named, mark_visited_node-query_id, mark_visited_node-query_type,
}
use cmpe275_enterprise_apps.Engine.Rows.{Row, trips_of, trips_of-same}
use cmpe275_enterprise_apps.Engine.{matches_row}
use cmpe275_enterprise_apps.Coordinator.Fetch.{RemoteClient}
use cmpe275_enterprise_apps.Coordinator.Rpc.{submit_client_query}
use cmpe275_enterprise_apps.Coordinator.Single.{IsPaged, IsRunning, left, work}
use cmpe275_enterprise_apps.Coordinator.Draining.{drain_rpc, drain_rpc-left}
use cmpe275_enterprise_apps.Coordinator.{
  Coordinator, Worker, own_children, local_worker, find_request_state, find_state, has_overlay,
  initialize_execute_progress, initialize_children, query_name,
}

-- The state that a new request starts with, where its one worker is `w`.
started-leaf :
    (base : QueryRequest) (w : Worker) (c : Coordinator)
    → own_children c ≡ []
    → local_worker base c ≡ some w
    → started base c
      ≡ set_expected_workers 1
          (initialize_worker w.node_id (set_state in_progress (new_state base.query_id base)))
unfolding initialize_execute_progress initialize_children
started-leaf base w c leaf own =
    rw (own, leaf)
      (if_intro
        (λ (r : RequestState × ℕ).
          set_expected_workers r.1 r.0
          ≡ set_expected_workers 1
              (initialize_worker w.node_id (set_state in_progress (new_state base.query_id base))))
        (base.distributed_allowed && has_overlay c.overlay && c.has_remote_client) (λ _. refl)
        (λ _. refl))

started-IsRunning :
    (base : QueryRequest) (rows : List Row) (w : Worker) (c : Coordinator)
    → own_children c ≡ []
    → local_worker base c ≡ some w
    → IsRunning base rows w base.query_id (started base c) new_progress
      × (left base rows w (started base c) new_progress ≡ trips_of base rows)
      × (work base rows w (started base c) new_progress ≡ 2 * length rows + 1)
unfolding initialize_worker try_emplace
started-IsRunning base rows w c leaf own =
    let s = set_state in_progress (new_state base.query_id base) in
    let valid =
      initialize_worker-IsValid w.node_id
        (set_state-IsValid in_progress (new_state-IsValid base.query_id base)) in
    rw (started-leaf base w c leaf own) (
      record {
        request = refl;
        query_id = refl;
        progress = refl;
        within = omega arith;
        finished = inl refl;
        live = record { not_cancelled = λ e. cc; not_timed_out = λ e. cc };
        valid = record {
          aligned = valid.aligned;
          cursor = valid.cursor;
          distinct = valid.distinct;
          consistent = valid.consistent;
        };
      },
      refl,
      omega arith,
    )

find_state-concat :
    (id : String) (s : RequestState) (states : List RequestState)
    → find_state id states ≡ none
    → s.query_id ≡ id
    → find_state id (states ++ s ∷ []) ≡ some s
unfolding find_state
find_state-concat id s [] f e = ground (arith, eq_iff s.query_id id)
find_state-concat id s (t ∷ states) f e = ground (arith, find_state-concat id s states)

-- The filter of a request is what its row search looks at.
trips_of-named :
    (request : QueryRequest) (c : Coordinator) (rows : List Row)
    → trips_of (named request c) rows ≡ trips_of request rows
unfolding mark_visited_node matches_row
trips_of-named request c rows =
    let r = record request { query_id = query_name c.next_query_seq } in
    trips_of-same (named request c) request rows (λ row.
      if_intro (λ (q : QueryRequest). matches_row row q ≡ matches_row row request)
        (has_visited_node r c.self_node_id) (λ _. refl) (λ _. refl))

module _ {World : Type 0} (client : RemoteClient World) where
  -- Where a node has no children and its worker pages through `rows`, a client that submits an
  -- unnamed EXECUTE query and then fetches chunks of any size until one is done gets the matching
  -- rows, all of them, once each and in order, within two calls for each row and two more.
  pub submit-drain_rpc :
      (request : QueryRequest) (rows : List Row) (w : Worker) (fuel n : ℕ) (c : Coordinator)
      (x : World)
      → request.query_id ≡ ""
      → request.query_type ≡ execute
      → IsNumbered c
      → own_children c ≡ []
      → local_worker (named request c) c ≡ some w
      → IsPaged (named request c) rows w
      → 2 * length rows + 1 < fuel
      → let (id, c', x') = submit_client_query client request c x in
        drain_rpc client fuel id n c' x' ≡ some (trips_of request rows)
  submit-drain_rpc request rows w fuel n c x e t a leaf own paged h =
      let base = named request c in
      let c1 = record c { next_query_seq = c.next_query_seq + 1 } in
      let fresh : find_request_state base.query_id c1 ≡ none =
        rw
          (mark_visited_node-query_id (record request { query_id = query_name c.next_query_seq })
            c.self_node_id)
          (IsNumbered-fresh c.next_query_seq c.query_states a) in
      let type =
        mark_visited_node-query_type (record request { query_id = query_name c.next_query_seq })
          c.self_node_id in
      let (v, all, steps) = started-IsRunning base rows w c1 leaf own in
      let c2 = record c1 { query_states = c.query_states ++ started base c1 ∷ [] } in
      let found : find_request_state base.query_id c2 ≡ some (started base c1) =
        find_state-concat base.query_id (started base c1) c.query_states fresh v.query_id in
      rw (submit_unnamed client request c x e t, start_execute_fresh base c1 fresh)
        (drain_rpc-left client fuel base rows w base.query_id n c2 x (type ∙ t) leaf own paged found
            v (omega (arith, steps, h))
          ∙ ap some (all ∙ trips_of-named request c rows))
