-- ===== src/Coordinator/Count.antt =====
-- The COUNT path of the coordinator.
use cmpe275_enterprise_apps.Common.{
  ℕ, zero, suc, String, str_eq, true, not, ◌&&◌, List, [], ◌∷◌, ◌++◌, Option, none, some,
  if◌then◌else◌, length,
}
use cmpe275_enterprise_apps.Model.Request.{QueryRequest, count}
use cmpe275_enterprise_apps.Model.Result.{QueryResult, empty_result}
use cmpe275_enterprise_apps.RequestState.{
  in_progress, completed, RequestState, set_state, set_expected_workers,
  increment_completed_workers,
}
use cmpe275_enterprise_apps.Coordinator.Fetch.{RemoteClient}
use cmpe275_enterprise_apps.Coordinator.{
  Coordinator, Worker, save, find_request_state, create_request_state, can_process_locally,
  determine_target_workers, own_children, has_overlay, aggregate_count_results,
  choose_adaptive_chunk_size,
}

-- `workers_[i]`.
unfoldable pub worker_at : List Worker → ℕ → Option Worker
worker_at [] i = none
worker_at (w ∷ workers) zero = some w
worker_at (w ∷ workers) (suc i) = worker_at workers i

abbrev first_target : List ℕ → List Worker → Option Worker
first_target [] workers = none
first_target (i ∷ targets) workers = worker_at workers i

-- `findRequestState`, and a change to the state where there is one.
abbrev pub change : (RequestState → RequestState) → Option RequestState → Coordinator → Coordinator
change f none c = c
change f (some s) c = save (f s) c

abbrev change_state : String → (RequestState → RequestState) → Coordinator → Coordinator
change_state query_id f c = change f (find_request_state query_id c) c

abbrev run_first :
    (Worker → QueryResult) → String → Option Worker → Coordinator → QueryResult × Coordinator
run_first run query_id none c = (empty_result, c)
run_first run query_id (some w) c = (
  run w,
  change_state query_id increment_completed_workers
      (change_state query_id (set_expected_workers 1) c),
)

unfoldable pub process_local_count : QueryRequest → Coordinator → QueryResult × Coordinator
process_local_count request c =
    run_first (λ w. w.run_count request) request.query_id
      (first_target (determine_target_workers request c) c.workers) c

-- The chunk size of the request is chosen once the state expects its one worker.
unfoldable process_local_execute : QueryRequest → Coordinator → QueryResult × Coordinator
process_local_execute request c =
    run_first
      (λ w. w.run_execute (record request {
        chunk_size =
            choose_adaptive_chunk_size request.chunk_size
              (change_state request.query_id (set_expected_workers 1) c);
      }))
      request.query_id (first_target (determine_target_workers request c) c.workers) c

-- The first loop of `processDistributedCount`: this node's own worker.
unfoldable pub own_count : QueryRequest → String → List Worker → List QueryResult
own_count request self [] = []
own_count request self (w ∷ workers) =
    if str_eq w.node_id self then w.run_count request ∷ [] else own_count request self workers

abbrev pub count_request : QueryRequest → QueryRequest
count_request request = record request { query_type = count; distributed_allowed = true }

abbrev pub rows_counted : ℕ → QueryResult
rows_counted n = record empty_result { rows_scanned = n; rows_matched = n }

-- A state that is still in progress becomes completed.
abbrev pub complete : RequestState → RequestState
complete s = record s { state = elim s.state [ in_progress ↦ completed | other ↦ other ] }

module _ {W : Type 0} (client : RemoteClient W) where
  open client use {submit_sub_query, fetch_sub_chunk}

  -- What one child adds to the partial results: the rows of one chunk.
  unfoldable pub count_child : QueryRequest → String → W → List QueryResult × W
  count_child request child_id w =
      let (r, w1) = submit_sub_query child_id (count_request request) request.query_id w in
      let (f, w2) = fetch_sub_chunk child_id r.remote_request_id 0 w1 in
      if not r.accepted
      then ([], w1)
      else if not f.received
      then ([], w2)
      else (rows_counted (length f.trips) ∷ [], w2)

  unfoldable pub count_children :
      QueryRequest → List String → List QueryResult → W → List QueryResult × W
  count_children request [] partials w = (partials, w)
  count_children request (child_id ∷ children) partials w =
      let (ps, w1) = count_child request child_id w in
      count_children request children (partials ++ ps) w1

  unfoldable pub process_distributed_count : QueryRequest → Coordinator → W → QueryResult × W
  process_distributed_count request c w =
      let local = own_count request c.self_node_id c.workers in
      let (partials, w1) = count_children request (own_children c) local w in
      if has_overlay c.overlay && c.has_remote_client
      then (aggregate_count_results partials, w1)
      else (aggregate_count_results local, w)

  unfoldable pub run_count : QueryRequest → Coordinator → W → QueryResult × Coordinator × W
  run_count request c w =
      let (s, c1) = create_request_state request c in
      let c2 = save (set_state in_progress s) c1 in
      let (local, c3) = process_local_count request c2 in
      let targets = determine_target_workers request c2 in
      let c4 = change_state request.query_id (set_expected_workers (length targets)) c2 in
      let (distributed, w1) = process_distributed_count request c4 w in
      if can_process_locally request c2
      then (
        local,
        change_state request.query_id (λ s'. complete (record s' { aggregated_result = local })) c3,
        w,
      )
      else (
        distributed,
        change_state request.query_id
            (λ s'. complete (record s' { aggregated_result = distributed })) c4,
        w1,
      )
