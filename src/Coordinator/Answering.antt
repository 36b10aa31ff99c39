-- ===== src/Coordinator/Answering.antt =====
-- One call of `fetchChunkForRpc` on a node without children, for a request that runs.
use cmpe275_enterprise_apps.Common.{
  ℕ, ◌+◌, ◌-◌, ◌<◌, min, String, true, false, not, ◌&&◌, List, [], ◌++◌, some, ◌≡◌, refl, ap, ◌∙◌,
  sym, ◌⊎◌, inl, inr, arith, leb, leb→le, if◌then◌else◌, if_intro, length, drop, length-append,
  length-drop, length-take, append_assoc, Bool-cases,
}
use cmpe275_enterprise_apps.Model.Trip.{TaxiTrip}
use cmpe275_enterprise_apps.Model.Request.{QueryRequest}
use cmpe275_enterprise_apps.RequestState.{
  RequestState, WorkerProgress, all_workers_completed, all_completed,
}
use cmpe275_enterprise_apps.Engine.Rows.{Row, trips_of}
use cmpe275_enterprise_apps.Coordinator.Delivery.{unread, drop_all, deliver-Delivers}
use cmpe275_enterprise_apps.Coordinator.Fetch.{RemoteClient, fetch_next_execute_chunks}
use cmpe275_enterprise_apps.Coordinator.Rpc.{
  RpcChunkResult, deliver, fetch_execute, has_unread, is_finished,
}
use cmpe275_enterprise_apps.Coordinator.Single.{
  IsPaged, IsLive, completed-IsLive, IsRunning, IsRunning-same, left, work,
}
use cmpe275_enterprise_apps.Coordinator.{
  Coordinator, Worker, own_children, local_worker, choose_adaptive_chunk_size, save,
}
use cmpe275_enterprise_apps.Coordinator.Rounds.{fetch_next_execute_chunks-Runs, not_completed}

choose_adaptive_chunk_size_pos : (n : ℕ) (c : Coordinator) → 0 < choose_adaptive_chunk_size n c
unfolding choose_adaptive_chunk_size
choose_adaptive_chunk_size_pos n c = ground arith

-- What delivery leaves alone, and that it gives a row where there is one.
deliver_progress :
    (n : ℕ) (self id : String) (s : RequestState)
    → (deliver n self id s).1.worker_progress ≡ s.worker_progress
unfolding deliver
deliver_progress n self id s = ground arith

deliver_request :
    (n : ℕ) (self id : String) (s : RequestState) → (deliver n self id s).1.request ≡ s.request
unfolding deliver
deliver_request n self id s = ground arith

deliver-IsLive :
    (n : ℕ) (self id : String) (s : RequestState)
    → IsLive s.state
    → IsLive (deliver n self id s).1.state
unfolding deliver
deliver-IsLive n self id s l =
    let P = λ (x : RpcChunkResult × RequestState). IsLive x.1.state in
    if_intro P (leb (length s.aggregated_result.matched_trips) s.next_unread_index) (λ _. l)
      (λ _. if_intro (λ (t : RequestState). IsLive t.state) _ (λ _. completed-IsLive) (λ _. l))

deliver_some :
    (n : ℕ) (self id : String) (s : RequestState)
    → 0 < n
    → has_unread s ≡ true
    → 0 < length (deliver n self id s).0.trips
unfolding deliver
deliver_some n self id s h u =
    let trips = s.aggregated_result.matched_trips in
    let start = s.next_unread_index in
    let size = min n (length trips - start) in
    let some_left : leb (length trips) start ≡ false = ground (arith, u) in
    rw some_left
      (ground (arith, length-take size (drop start trips), length-drop start trips, some_left))

deliver_finished :
    (n : ℕ) (self id : String) (s : RequestState)
    → is_finished s ≡ true
    → (deliver n self id s).0.done ≡ true
unfolding deliver
deliver_finished n self id s h = ground (arith, h)

module _ {World : Type 0} (client : RemoteClient World) (base : QueryRequest) (rows : List Row)
    (w : Worker) (c : Coordinator) (leaf : own_children c ≡ []) (own : local_worker base c ≡ some w)
    (paged : IsPaged base rows w) where
  -- One call serves the request: it gives the next of the rows that are left, and unless it is
  -- done there is less to do.
  pub record Served (id : String) (s : RequestState) (p : WorkerProgress) (out : RpcChunkResult)
      (s' : RequestState) : Type 0 where
    pub after : WorkerProgress
    pub running : IsRunning base rows w id s' after
    pub rows_left : out.trips ++ left base rows w s' after ≡ left base rows w s p
    pub done : out.done ≡ is_finished s'
    pub less : (out.done ≡ true) ⊎ (work base rows w s' after < work base rows w s p)

  -- What delivery does, before it is known whether something was fetched.
  record Delivered (id : String) (s : RequestState) (p : WorkerProgress) (out : RpcChunkResult)
      (s' : RequestState) : Type 0 where
    running : IsRunning base rows w id s' p
    rows_left : out.trips ++ left base rows w s' p ≡ left base rows w s p
    done : out.done ≡ is_finished s'
    spent : work base rows w s' p + length out.trips ≡ work base rows w s p

  deliver-Delivered :
      (n : ℕ) (id : String) {s : RequestState} {p : WorkerProgress}
      → IsRunning base rows w id s p
      → Delivered id s p (deliver n c.self_node_id id s).0 (deliver n c.self_node_id id s).1
  deliver-Delivered n id {s} {p} v =
      let (out, s') = deliver n c.self_node_id id s in
      let d = deliver-Delivers n c.self_node_id id s v.valid in
      record {
        running =
            IsRunning-same base rows w s' (deliver_request n c.self_node_id id s) d.query_id
              (deliver_progress n c.self_node_id id s) (deliver-IsLive n c.self_node_id id s v.live)
              d.valid v;
        rows_left =
            sym (append_assoc out.trips (unread s') (trips_of base (drop p.next_start_row rows)))
            ∙ ap (λ (u : List TaxiTrip). u ++ trips_of base (drop p.next_start_row rows)) d.trips;
        done = d.done;
        spent =
            let all = ap length d.trips in omega (arith, all, length-append out.trips (unread s'));
      }

  -- `fetchChunkForRpc` on a request that runs.
  pub record Answers (id : String) (s : RequestState) (p : WorkerProgress)
      (r : RpcChunkResult × Coordinator × World) : Type 0 where
    pub state : RequestState
    pub saved : r.1 ≡ save state c
    pub served : Served id s p r.0 state

  pub fetch_execute-Answers :
      (n : ℕ) (id : String) {s : RequestState} {p : WorkerProgress} (x : World)
      → IsRunning base rows w id s p
      → Answers id s p (fetch_execute client id n s c x)
  unfolding fetch_execute
  fetch_execute-Answers n id {s} {p} x v =
      let m = choose_adaptive_chunk_size n c in
      let h = choose_adaptive_chunk_size_pos n c in
      let (fetched, s1, x1) = fetch_next_execute_chunks client m c (s, x) in
      let more = not (has_unread s) && not (all_workers_completed s) in
      let picked : RequestState × World = if more then (s1, x1) else (s, x) in
      let served : Served id s p (deliver m c.self_node_id id picked.0).0
          (deliver m c.self_node_id id picked.0).1 =
        if_intro
          (λ (t : RequestState × World).
            Served id s p (deliver m c.self_node_id id t.0).0 (deliver m c.self_node_id id t.0).1)
          more
          (λ e.
            let r =
              fetch_next_execute_chunks-Runs client base rows w c leaf own paged m x v
                (not_completed client base rows w c leaf own paged v (ground (arith, e))) in
            let d = deliver-Delivered m id r.running in
            record {
              after = r.after;
              running = d.running;
              rows_left = d.rows_left ∙ r.rows_left;
              done = d.done;
              less = inr (omega (arith, d.spent, r.less));
            })
          (λ e.
            let d = deliver-Delivered m id v in
            record {
              after = p;
              running = d.running;
              rows_left = d.rows_left;
              done = d.done;
              less = elim (Bool-cases (has_unread s)) [
                | inl u ↦
                    let k = deliver_some m c.self_node_id id s h u in
                    inr (omega (arith, d.spent, k))
                | inr u ↦ inl (deliver_finished m c.self_node_id id s (ground (arith, e, u)))
              ];
            }) in
      record { state = (deliver m c.self_node_id id picked.0).1; saved = refl; served = served }

  pub finished_left :
      {id : String} {s : RequestState} {p : WorkerProgress}
      → IsRunning base rows w id s p
      → is_finished s ≡ true
      → left base rows w s p ≡ []
  unfolding all_workers_completed all_completed
  finished_left {id} {s} {p} v h =
      let read : leb (length s.aggregated_result.matched_trips) s.next_unread_index ≡ true =
        ground (arith, h) in
      let all : all_workers_completed s ≡ true = ground (arith, h) in
      let k : (p.completed && true) ≡ true = rw v.progress at all in
      let at_end : p.next_start_row ≡ length rows = ground (arith, k, v.finished) in
      let no_unread =
        drop_all s.next_unread_index s.aggregated_result.matched_trips (leb→le _ _ read) in
      let no_rows = drop_all p.next_start_row rows (omega arith) in
      λ i. no_unread i ++ trips_of base (no_rows i)
