-- ===== src/Coordinator/Rpc.antt =====
-- The RPC-facing operations of the coordinator.
use cmpe275_enterprise_apps.Common.{
  ℕ, ◌+◌, ◌-◌, min, String, Bool, true, false, not, ◌&&◌, List, [], Option, none, some, leb,
  if◌then◌else◌, length, take, drop, replicate,
}
use cmpe275_enterprise_apps.Model.Trip.{TaxiTrip}
use cmpe275_enterprise_apps.Model.Request.{
  QueryRequest, QueryType, count, execute, mark_visited_node,
}
use cmpe275_enterprise_apps.Model.Result.{QueryResult}
use cmpe275_enterprise_apps.RequestState.{
  QueryState, in_progress, completed, cancelled, timed_out, RequestState, set_state,
  set_next_unread_index, all_workers_completed,
}
use cmpe275_enterprise_apps.Coordinator.Fetch.{RemoteClient, fetch_next_execute_chunks}
use cmpe275_enterprise_apps.Coordinator.Count.{run_count}
use cmpe275_enterprise_apps.Coordinator.{
  Coordinator, save, find_request_state, create_request_state, ensure_query_id,
  initialize_execute_progress, choose_adaptive_chunk_size,
}

pub record RpcChunkResult : Type 0 where
  pub found : Bool
  pub done : Bool
  pub request_id : String
  pub message : String
  pub trips : List TaxiTrip
  pub sources : List String

-- A reply with no rows.
abbrev no_rows : String → Bool → Bool → String → RpcChunkResult
no_rows id found done message = record {
  found = found;
  done = done;
  request_id = id;
  message = message;
  trips = [];
  sources = [];
}

abbrev pub has_unread : RequestState → Bool
has_unread s = not (leb (length s.aggregated_result.matched_trips) s.next_unread_index)

abbrev pub is_finished : RequestState → Bool
is_finished s = not (has_unread s) && all_workers_completed s

-- The last part of `fetchChunkForRpc`: the next rows of the cache, and the cursor behind them.
unfoldable pub deliver : ℕ → String → String → RequestState → RpcChunkResult × RequestState
deliver max_rows self id s =
    let agg = s.aggregated_result in
    let start = s.next_unread_index in
    let available = length agg.matched_trips in
    let size = min max_rows (available - start) in
    let s1 = set_next_unread_index (start + size) s in
    let done = is_finished s1 in
    if leb available start
    then (
      no_rows id true (all_workers_completed s)
          (if all_workers_completed s then "done" else "no rows available yet"),
      s,
    )
    else (
      record {
        found = true;
        done = done;
        request_id = id;
        message = if done then "done" else "more";
        trips = take size (drop start agg.matched_trips);
        sources =
            if leb (start + size) (length agg.matched_trip_sources)
            then take size (drop start agg.matched_trip_sources)
            else replicate size self;
      },
      if done then set_state completed s1 else s1,
    )

-- An EXECUTE request enters the table and learns its workers; no row is fetched yet.
unfoldable pub start_execute : QueryRequest → Coordinator → Coordinator
start_execute request c =
    let (s, c1) = create_request_state request c in
    save (initialize_execute_progress (set_state in_progress s) request c1) c1

module _ {W : Type 0} (client : RemoteClient W) where
  -- An EXECUTE request that has not been stopped.
  unfoldable pub fetch_execute :
      String → ℕ → RequestState → Coordinator → W → RpcChunkResult × Coordinator × W
  fetch_execute id max_rows s c w =
      let n = choose_adaptive_chunk_size max_rows c in
      let (fetched, s1, w1) = fetch_next_execute_chunks client n c (s, w) in
      let (s2, w2) =
        if not (has_unread s) && not (all_workers_completed s) then (s1, w1) else (s, w) in
      let (out, s3) = deliver n c.self_node_id id s2 in (out, save s3 c, w2)

  -- The answer by the state and the type of the request.
  abbrev pub answer :
      QueryState
      → QueryType
      → String
      → ℕ
      → RequestState
      → Coordinator
      → W
      → RpcChunkResult × Coordinator × W
  answer cancelled t id max_rows s c w = (no_rows id true true "request cancelled", c, w)
  answer timed_out t id max_rows s c w = (no_rows id true true "request timed out", c, w)
  answer _ count id max_rows s c w = (no_rows id true true "count complete", c, w)
  answer _ execute id max_rows s c w = fetch_execute id max_rows s c w

  abbrev pub answer_found :
      Option RequestState → String → ℕ → Coordinator → W → RpcChunkResult × Coordinator × W
  answer_found none id max_rows c w = (no_rows id false true "request not found", c, w)
  answer_found (some s) id max_rows c w = answer s.state s.request.query_type id max_rows s c w

  unfoldable pub fetch_chunk_for_rpc :
      String → ℕ → Coordinator → W → RpcChunkResult × Coordinator × W
  fetch_chunk_for_rpc id max_rows c w = answer_found (find_request_state id c) id max_rows c w

  abbrev pub run_or_start : QueryType → QueryRequest → Coordinator → W → String × Coordinator × W
  run_or_start count request c w =
      let (result, c1, w1) = run_count client request c w in (request.query_id, c1, w1)
  run_or_start execute request c w = (request.query_id, start_execute request c, w)

  unfoldable pub submit_client_query : QueryRequest → Coordinator → W → String × Coordinator × W
  submit_client_query request c w =
      let (r, c1) = ensure_query_id request c in
      run_or_start r.query_type (mark_visited_node r c1.self_node_id) c1 w

  -- The ID of the parent request is not used.
  unfoldable pub submit_sub_query : QueryRequest → Coordinator → W → String × Coordinator × W
  submit_sub_query request c w =
      let (r, c1) = ensure_query_id request c in
      run_or_start r.query_type
        (mark_visited_node (record r { distributed_allowed = true }) c1.self_node_id) c1 w

  -- `runExecute`, and `processDistributedExecute` without the last test.
  unfoldable pub process_distributed_execute :
      QueryRequest → Coordinator → W → RequestState × Coordinator × W
  process_distributed_execute request c w =
      let (s, c1) = create_request_state request c in
      let s1 = initialize_execute_progress (set_state in_progress s) request c1 in
      let (fetched, s2, w1) = fetch_next_execute_chunks client request.chunk_size c1 (s1, w) in
      (s2, save s2 c1, w1)

  unfoldable pub run_execute : QueryRequest → Coordinator → W → QueryResult × Coordinator × W
  run_execute request c w =
      let (s, c1, w1) = process_distributed_execute request c w in
      let s1 = if is_finished s then set_state completed s else s in
      (s1.aggregated_result, save s1 c1, w1)
