-- ===== src/Coordinator/Rounds.antt =====
-- One round of fetching on a node without children, for a request that runs.
use cmpe275_enterprise_apps.Common.{
  ℕ, String, Bool, true, false, ◌&&◌, List, [], ◌++◌, some, ◌≡◌, refl, ap, ◌∙◌, sym, arith, leb,
  leb→le, if◌then◌else◌, if_intro, length, drop,
}
use cmpe275_enterprise_apps.Model.Trip.{TaxiTrip}
use cmpe275_enterprise_apps.Model.Request.{QueryRequest}
use cmpe275_enterprise_apps.RequestState.{
  RequestState, WorkerProgress, completed, clear_aggregated_rows, all_workers_completed,
  all_completed, should_fetch_remote_first, advance_fetch_round,
}
use cmpe275_enterprise_apps.RequestState.Invariant.{
  set_state-IsValid, advance_fetch_round-IsValid, clear_aggregated_rows-IsValid,
}
use cmpe275_enterprise_apps.Engine.Rows.{Row, trips_of}
use cmpe275_enterprise_apps.Coordinator.Delivery.{unread, drop_all}
use cmpe275_enterprise_apps.Coordinator.Fetch.{
  RemoteClient, fetch_from, fetch_local_execute_chunk, fetch_remote_execute_chunks, fetch_children,
  fetch_next_execute_chunks, drop_read_rows, complete_if_done, remote_first, local_first,
}
use cmpe275_enterprise_apps.Coordinator.Single.{
  IsPaged, completed-IsLive, IsRunning, IsRunning-same, Runs, fetch_from_worker-Runs,
}
use cmpe275_enterprise_apps.Coordinator.{Coordinator, Worker, own_children, local_worker}

module _ {World : Type 0} (client : RemoteClient World) (base : QueryRequest) (rows : List Row)
    (w : Worker) (c : Coordinator) (leaf : own_children c ≡ []) (own : local_worker base c ≡ some w)
    (paged : IsPaged base rows w) where
  fetch_remote_none :
      (n : ℕ) (s : RequestState) (x : World)
      → fetch_remote_execute_chunks client n c (s, x) ≡ (false, s, x)
  unfolding fetch_remote_execute_chunks fetch_children
  fetch_remote_none n s x = rw leaf (ground arith)

  fetch_local-Runs :
      (n : ℕ) {id : String} {s : RequestState} {p : WorkerProgress}
      → IsRunning base rows w id s p
      → p.completed ≡ false
      → Runs base rows w id [] s p (fetch_local_execute_chunk n c s).1
  unfolding fetch_local_execute_chunk
  fetch_local-Runs n {s = s} v h =
      let chosen : local_worker s.request c ≡ some w =
        ap (λ (r : QueryRequest). local_worker r c) v.request ∙ own in
      rw (chosen, fetch_from) (fetch_from_worker-Runs base rows w n c paged v h)

  pub not_completed :
      {id : String} {s : RequestState} {p : WorkerProgress}
      → IsRunning base rows w id s p
      → all_workers_completed s ≡ false
      → p.completed ≡ false
  unfolding all_workers_completed all_completed
  not_completed {p = p} v h =
      let k : (p.completed && true) ≡ false = rw v.progress at h in ground (arith, k)

  -- Dropping the rows that were read, where all of them were.
  drop_read_rows-IsRunning :
      {id : String} {s : RequestState} {p : WorkerProgress}
      → IsRunning base rows w id s p
      → IsRunning base rows w id (drop_read_rows s) p × (unread (drop_read_rows s) ≡ unread s)
  unfolding clear_aggregated_rows
  drop_read_rows-IsRunning {id} {s} {p} v =
      if_intro (λ t. IsRunning base rows w id t p × (unread t ≡ unread s))
        (leb (length s.aggregated_result.matched_trips) s.next_unread_index)
        (λ read. (
          IsRunning-same base rows w _ refl refl refl v.live (clear_aggregated_rows-IsValid v.valid)
              v,
          sym (drop_all s.next_unread_index s.aggregated_result.matched_trips (leb→le _ _ read)),
        ))
        (λ _. (v, refl))

  finish_round-Runs :
      {id : String} {s s' : RequestState} {p : WorkerProgress}
      → Runs base rows w id [] s p s'
      → Runs base rows w id [] s p (complete_if_done (advance_fetch_round s'))
  finish_round-Runs {id} {s} {s'} {p} r =
      let v = r.running in
      let t = advance_fetch_round s' in
      if_intro (Runs base rows w id [] s p) (all_workers_completed t)
        (λ _. record {
          after = r.after;
          running =
              IsRunning-same base rows w _ refl refl refl completed-IsLive
                (set_state-IsValid completed (advance_fetch_round-IsValid v.valid)) v;
          rows_left = r.rows_left;
          less = r.less;
        })
        (λ _. record {
          after = r.after;
          running =
              IsRunning-same base rows w _ refl refl refl v.live
                (advance_fetch_round-IsValid v.valid) v;
          rows_left = r.rows_left;
          less = r.less;
        })

  -- A round of fetching, in either order.
  pub fetch_next_execute_chunks-Runs :
      (n : ℕ) {id : String} {s : RequestState} {p : WorkerProgress} (x : World)
      → IsRunning base rows w id s p
      → p.completed ≡ false
      → Runs base rows w id [] s p (fetch_next_execute_chunks client n c (s, x)).1
  unfolding fetch_next_execute_chunks
  fetch_next_execute_chunks-Runs n {id} {s} {p} x v h =
      let s0 = drop_read_rows s in
      let (v0, same) = drop_read_rows-IsRunning v in
      let r = fetch_local-Runs n v0 h in
      let round =
        if should_fetch_remote_first s0
        then remote_first client n c (s0, x)
        else local_first client n c (s0, x) in
      let P = λ (y : Bool × RequestState × World). Runs base rows w id [] s0 p y.1 in
      let fetched : Runs base rows w id [] s0 p round.1 =
        if_intro P (should_fetch_remote_first s0) (λ _. rw (fetch_remote_none n s0 x) r)
          (λ _. rw (fetch_remote_none n (fetch_local_execute_chunk n c s0).1 x) r) in
      finish_round-Runs (record {
        after = fetched.after;
        running = fetched.running;
        rows_left =
            fetched.rows_left
            ∙ ap (λ (u : List TaxiTrip). u ++ trips_of base (drop p.next_start_row rows)) same;
        less = let e = ap length same in omega (arith, fetched.less, e);
      })
