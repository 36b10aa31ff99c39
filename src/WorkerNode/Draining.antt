-- ===== src/WorkerNode/Draining.antt =====
-- One node from end to end: its coordinator answers a client from its worker's store.
use cmpe275_enterprise_apps.Common.{
  ℕ, ◌+◌, ◌*◌, ◌<◌, true, false, List, [], ◌++◌, some, ◌≡◌, refl, ap, ◌∙◌, sym, inl, inr, arith,
  length, drop, take, length-drop, length-take, Bool-cases,
}
use cmpe275_enterprise_apps.Model.Trip.{TaxiTrip}
use cmpe275_enterprise_apps.Model.Request.{QueryRequest, execute}
use cmpe275_enterprise_apps.Store.{is_valid}
use cmpe275_enterprise_apps.Engine.{FileSystem, RowParser, matches_row}
use cmpe275_enterprise_apps.Engine
use cmpe275_enterprise_apps.Engine.Rows.{Row, trips_of, length-trips_of, trips_of-same}
use cmpe275_enterprise_apps.Engine.Paging.{
  stored_rows, execute-IsWindow, window-remaining, window_pos,
}
use cmpe275_enterprise_apps.Coordinator.{Coordinator, own_children, local_worker}
use cmpe275_enterprise_apps.Coordinator.Fetch.{RemoteClient}
use cmpe275_enterprise_apps.Coordinator.Rpc.{submit_client_query}
use cmpe275_enterprise_apps.Coordinator.Naming.{IsNumbered}
use cmpe275_enterprise_apps.Coordinator.Starting.{named}
use cmpe275_enterprise_apps.Coordinator.Single.{IsPaged}
use cmpe275_enterprise_apps.Coordinator.Draining.{drain_rpc}
use cmpe275_enterprise_apps.Coordinator.Submitting.{submit-drain_rpc}
use cmpe275_enterprise_apps.WorkerNode.{WorkerNode, as_worker}
use cmpe275_enterprise_apps.WorkerNode.Results.{run_execute_lem, run_execute-IsAligned}

module _ (parser : RowParser) (fs : FileSystem) (w : WorkerNode) where
  as_worker-IsPaged :
      (base : QueryRequest)
      → is_valid w.store ≡ true
      → IsPaged base (stored_rows parser fs w.store) (as_worker parser fs w)
  unfolding matches_row
  as_worker-IsPaged base v start chunk h =
      let rows = stored_rows parser fs w.store in
      let r = record base {
        distributed_allowed = false;
        start_row = start;
        chunk_size = chunk;
        scan_row_budget = 50000;
      } in
      let q = execute-IsWindow parser fs w.store r v h in
      let (trips, sources, refs, next, more) = run_execute_lem parser fs w r in
      let local = Engine.execute parser fs w.store r in
      let all = window-remaining parser fs w.store r start q in
      let filter : (rs : List Row) → trips_of r rs ≡ trips_of base rs =
        λ rs. trips_of-same r base rs (λ row. refl) in
      let given : local.matched_trips ++ trips_of base (drop local.next_start_row rows)
          ≡ trips_of base (drop start rows) =
        ap (◌++◌ local.matched_trips) (sym (filter (drop local.next_start_row rows)))
        ∙ ap (λ (p : List ℕ × List TaxiTrip). p.1) all
        ∙ filter (drop start rows) in
      record {
        trips = (λ i. trips i ++ trips_of base (drop (next i) rows)) ∙ given;
        aligned = run_execute-IsAligned parser fs w r;
        bound =
            let seen : List Row = take q.size (drop start rows) in
            let n = ap length trips in
            let m = ap length q.trips in
            omega (
              arith,
              n,
              m,
              next,
              q.cursor,
              q.size_le,
              length-trips_of r seen,
              length-take q.size (drop start rows),
            );
        within = omega (arith, next, q.cursor, q.size_le, length-drop start rows);
        ends = elim (Bool-cases local.has_more) [
          | inl e ↦
              inr
                (more ∙ e, omega (arith, next, q.cursor, window_pos parser fs w.store r start q e))
          | inr e ↦
              inl (more ∙ e, ground (arith, q.ends, e, next, q.cursor, length-drop start rows))
        ];
      }

module _ (parser : RowParser) (fs : FileSystem) {World : Type 0} (client : RemoteClient World) where
  -- Take a node without children, whose coordinator sends a request to a worker with a valid store,
  -- and whose query IDs are all its own. A client that submits an EXECUTE query without an ID
  -- and fetches chunks of any size until one is done gets the rows of the store that match, all of
  -- them, once each and in order; two calls for each row and two more are enough.
  pub drain_rpc-trips_of :
      (request : QueryRequest) (w : WorkerNode) (fuel n : ℕ) (c : Coordinator) (x : World)
      → request.query_id ≡ ""
      → request.query_type ≡ execute
      → IsNumbered c
      → own_children c ≡ []
      → local_worker (named request c) c ≡ some (as_worker parser fs w)
      → is_valid w.store ≡ true
      → 2 * length (stored_rows parser fs w.store) + 1 < fuel
      → let (id, c', x') = submit_client_query client request c x in
        drain_rpc client fuel id n c' x' ≡ some (trips_of request (stored_rows parser fs w.store))
  drain_rpc-trips_of request w fuel n c x e t a leaf own v h =
      submit-drain_rpc client request (stored_rows parser fs w.store) (as_worker parser fs w) fuel n
        c x e t a leaf own (as_worker-IsPaged parser fs w (named request c) v) h
