-- ===== src/Coordinator/Single.antt =====
-- One EXECUTE request of a node without children: its rows come from one worker, window by window.
use cmpe275_enterprise_apps.Common.{
  ℕ, ◌+◌, ◌-◌, ◌*◌, ◌≤◌, ◌<◌, String, eq_iff, Bool, true, false, not, List, [], ◌∷◌, ◌++◌, some,
  ◌≡◌, ◌≢◌, refl, ap, ◌∙◌, sym, subst, ◌⊎◌, arith, if◌then◌else◌, if_intro, length, drop,
  length-append, append_assoc,
}
use cmpe275_enterprise_apps.Common.Dict.{find, put, try_emplace}
use cmpe275_enterprise_apps.Model.Trip.{TaxiTrip}
use cmpe275_enterprise_apps.Model.Request.{QueryRequest}
use cmpe275_enterprise_apps.Model.Result.{QueryResult, merge}
use cmpe275_enterprise_apps.RequestState.{
  RequestState, QueryState, WorkerProgress, completed, cancelled, timed_out, get_worker_progress,
  set_worker_progress, update_worker_progress, merge_partial_result, new_progress, or_new,
}
use cmpe275_enterprise_apps.RequestState.Invariant.{IsValid, IsAligned}
use cmpe275_enterprise_apps.Engine.Rows.{Row, trips_of}
use cmpe275_enterprise_apps.Coordinator.Delivery.{unread}
use cmpe275_enterprise_apps.Coordinator.Updates.{take_in-Adds, drop-append}
use cmpe275_enterprise_apps.Coordinator.Fetch.{fetch_from_worker}
use cmpe275_enterprise_apps.Coordinator.{Coordinator, Worker, choose_adaptive_chunk_size, save}

-- A window of `rows` from position `start` on, as a worker returns it: the trips that match, and
-- behind it those of the rows that are left. Unless it says that there is no more, it moves on.
pub record IsPage (base : QueryRequest) (rows : List Row) (start : ℕ) (r : QueryResult)
    : Type 0 where
  pub trips :
      r.matched_trips ++ trips_of base (drop r.next_start_row rows)
      ≡ trips_of base (drop start rows)
  pub aligned : IsAligned r
  pub bound : start + length r.matched_trips ≤ r.next_start_row
  pub within : r.next_start_row ≤ length rows
  pub ends :
      ((r.has_more ≡ false) × (r.next_start_row ≡ length rows))
      ⊎ ((r.has_more ≡ true) × (start < r.next_start_row))

-- What the coordinator relies on: the worker pages through `rows`, from any position and in chunks
-- of any size.
abbrev pub IsPaged : QueryRequest → List Row → Worker → Type 0
IsPaged base rows w =
    (start chunk : ℕ)
    → start ≤ length rows
    → IsPage base rows start (
        w.run_execute (record base {
          distributed_allowed = false;
          start_row = start;
          chunk_size = chunk;
          scan_row_budget = 50000;
        }))

pub record IsLive (q : QueryState) : Type 0 where
  pub not_cancelled : q ≢ cancelled
  pub not_timed_out : q ≢ timed_out

pub completed-IsLive : IsLive completed
completed-IsLive = record { not_cancelled = λ e. cc; not_timed_out = λ e. cc }

true_or_false : {b : Bool} → b ≡ true → b ≡ false → ⊥
true_or_false p q = cc

module _ (base : QueryRequest) (rows : List Row) (w : Worker) where
  -- The request runs: its one worker has come to row `p.next_start_row`.
  pub record IsRunning (id : String) (s : RequestState) (p : WorkerProgress) : Type 0 where
    pub request : s.request ≡ base
    pub query_id : s.query_id ≡ id
    pub progress : s.worker_progress ≡ (w.node_id, p) ∷ []
    pub within : p.next_start_row ≤ length rows
    pub finished : (p.completed ≡ false) ⊎ (p.next_start_row ≡ length rows)
    pub live : IsLive s.state
    pub valid : IsValid s

  -- The rows that are still to be delivered, and a bound on the calls that this takes.
  abbrev pub left : RequestState → WorkerProgress → List TaxiTrip
  left s p = unread s ++ trips_of base (drop p.next_start_row rows)

  abbrev pub work : RequestState → WorkerProgress → ℕ
  work s p =
      2 * (length rows - p.next_start_row) + length (unread s) + (if p.completed then 0 else 1)

  -- A change that leaves all of this alone.
  pub IsRunning-same :
      {id : String} {s : RequestState} {p : WorkerProgress} (t : RequestState)
      → t.request ≡ s.request
      → t.query_id ≡ s.query_id
      → t.worker_progress ≡ s.worker_progress
      → IsLive t.state
      → IsValid t
      → IsRunning id s p
      → IsRunning id t p
  IsRunning-same t r q m l valid v = record {
    request = r ∙ v.request;
    query_id = q ∙ v.query_id;
    progress = m ∙ v.progress;
    within = v.within;
    finished = v.finished;
    live = l;
    valid = valid;
  }

  get_worker_progress-IsRunning :
      {id : String} {s : RequestState} {p : WorkerProgress}
      → IsRunning id s p
      → get_worker_progress w.node_id s ≡ (p, s)
  unfolding get_worker_progress find try_emplace
  get_worker_progress-IsRunning {s = s} {p} v =
      let found : find w.node_id s.worker_progress ≡ some p =
        rw v.progress (ground (arith, eq_iff w.node_id w.node_id)) in
      let kept : try_emplace w.node_id new_progress s.worker_progress ≡ s.worker_progress =
        rw v.progress (ground (arith, eq_iff w.node_id w.node_id)) in
      λ i. (or_new (found i), record s { worker_progress = kept i })

  -- The worker's progress behind a window.
  abbrev moved : WorkerProgress → QueryResult → WorkerProgress
  moved p r = record p {
    next_start_row = r.next_start_row;
    has_more = r.has_more;
    completed = not r.has_more;
  }

  update_worker_progress-IsRunning :
      {id : String} {s : RequestState} {p : WorkerProgress} (r : QueryResult)
      → IsRunning id s p
      → update_worker_progress w.node_id r.next_start_row r.has_more (merge_partial_result r s)
        ≡ record (merge_partial_result r s) { worker_progress = (w.node_id, moved p r) ∷ [] }
  unfolding update_worker_progress get_worker_progress set_worker_progress find try_emplace put
  update_worker_progress-IsRunning {s = s} {p} r v =
      let t = merge_partial_result r s in
      let stored = λ (q : WorkerProgress). record q {
        next_start_row = r.next_start_row;
        has_more = r.has_more;
        completed = not r.has_more;
      } in
      let same : put w.node_id (stored (or_new (find w.node_id s.worker_progress)))
            (try_emplace w.node_id new_progress s.worker_progress)
          ≡ (w.node_id, moved p r) ∷ [] =
        rw v.progress (ground (arith, eq_iff w.node_id w.node_id)) in
      λ i. record t { worker_progress = same i }

  -- A step keeps the request running, gives the rows `out`, and takes `spent` of the work.
  pub record Runs (id : String) (out : List TaxiTrip) (s : RequestState) (p : WorkerProgress)
      (s' : RequestState) : Type 0 where
    pub after : WorkerProgress
    pub running : IsRunning id s' after
    pub rows_left : out ++ left s' after ≡ left s p
    pub less : work s' after < work s p

  page_done :
      {start : ℕ} {r : QueryResult}
      → IsPage base rows start r
      → (not r.has_more ≡ false) ⊎ (r.next_start_row ≡ length rows)
  page_done g = ground (arith, g.ends)

  page_work :
      {start : ℕ} {r : QueryResult}
      → IsPage base rows start r
      → 2 * (length rows - r.next_start_row)
          + length r.matched_trips
          + (if not r.has_more then 0 else 1)
        < 2 * (length rows - start) + 1
  page_work g = ground (arith, g.ends, g.bound, g.within)

  pub fetch_from_worker-Runs :
      (n : ℕ) (c : Coordinator) {id : String} {s : RequestState} {p : WorkerProgress}
      → IsPaged base rows w
      → IsRunning id s p
      → p.completed ≡ false
      → Runs id [] s p (fetch_from_worker w n c s).1
  unfolding fetch_from_worker merge
  fetch_from_worker-Runs n c {id} {s} {p} paged v h =
      let chunk = choose_adaptive_chunk_size n (save s c) in
      let request = λ (b : QueryRequest). record b {
        distributed_allowed = false;
        start_row = p.next_start_row;
        chunk_size = chunk;
        scan_row_budget = 50000;
      } in
      let r = w.run_execute (request s.request) in
      let g : IsPage base rows p.next_start_row r =
        subst (λ (b : QueryRequest). IsPage base rows p.next_start_row (w.run_execute (request b)))
          (sym v.request) (paged p.next_start_row chunk v.within) in
      let t = record (merge_partial_result r s) { worker_progress = (w.node_id, moved p r) ∷ [] } in
      let e = update_worker_progress-IsRunning r v in
      let grown : unread t ≡ unread s ++ r.matched_trips =
        drop-append s.next_unread_index s.aggregated_result.matched_trips r.matched_trips
          v.valid.cursor in
      let done : Runs id [] s p t = record {
        after = moved p r;
        running = record {
          request = v.request;
          query_id = v.query_id;
          progress = refl;
          within = g.within;
          finished = page_done g;
          live = v.live;
          valid =
              subst IsValid e
                (take_in-Adds r w.node_id r.next_start_row r.has_more g.aligned v.valid).valid;
        };
        rows_left =
            ap (λ (ts : List TaxiTrip). ts ++ trips_of base (drop r.next_start_row rows)) grown
            ∙ append_assoc (unread s) r.matched_trips _
            ∙ ap (◌++◌ (unread s)) g.trips;
        less =
            let size = length-append (unread s) r.matched_trips in
            let all : length (unread t) ≡ length (unread s) + length r.matched_trips =
              ap length grown ∙ size in
            ground (arith, page_work g, all, h);
      } in
      rw (get_worker_progress-IsRunning v) (
        if_intro (λ (x : Bool × RequestState). Runs id [] s p x.1) p.completed
          (λ over. absurd (true_or_false over h)) (λ _. subst (Runs id [] s p) (sym e) done))
