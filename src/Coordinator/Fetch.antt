-- ===== src/Coordinator/Fetch.antt =====
-- The EXECUTE path of the coordinator: windows of rows pulled from the local worker and from the
-- child nodes.
use cmpe275_enterprise_apps.Common.{
  ℕ, String, Bool, true, false, not, ◌&&◌, ◌||◌, List, [], ◌∷◌, Option, none, some, leb, ◌==◌,
  if◌then◌else◌, length, replicate,
}
use cmpe275_enterprise_apps.Model.Trip.{TaxiTrip}
use cmpe275_enterprise_apps.Model.Request.{QueryRequest, has_visited_node, mark_visited_node}
use cmpe275_enterprise_apps.Model.Result.{QueryResult, empty_result}
use cmpe275_enterprise_apps.RequestState.{
  completed, RequestState, WorkerProgress, set_state, merge_partial_result, clear_aggregated_rows,
  advance_fetch_round, should_fetch_remote_first, all_workers_completed, get_worker_progress,
  set_worker_progress, update_worker_progress,
}
use cmpe275_enterprise_apps.Coordinator.{
  Coordinator, Worker, save, choose_adaptive_chunk_size, own_children, has_overlay, local_worker,
  is_nil,
}

-- What `submitSubQuery` of the remote client leaves in its out-parameters.
pub record Submitted : Type 0 where
  pub accepted : Bool
  pub remote_request_id : String
  pub message : String

pub record Fetched : Type 0 where
  pub received : Bool
  pub trips : List TaxiTrip
  pub sources : List String
  pub done : Bool
  pub message : String

-- The remote client, over the state `W` of all other nodes and the network. A call names the node;
-- any reply may come, failures included.
pub record RemoteClient (W : Type 0) : Type 0 where
  pub submit_sub_query : String → QueryRequest → String → W → Submitted × W
  pub fetch_sub_chunk : String → String → ℕ → W → Fetched × W

-- One scan window of a local worker.
abbrev local_scan_budget : ℕ
local_scan_budget = 50000

abbrev pub local_request : WorkerProgress → ℕ → QueryRequest → QueryRequest
local_request p chunk base = record base {
  distributed_allowed = false;
  start_row = p.next_start_row;
  chunk_size = chunk;
  scan_row_budget = local_scan_budget;
}

-- One window of worker `w` is appended, and its cursor moved.
unfoldable pub fetch_from_worker : Worker → ℕ → Coordinator → RequestState → Bool × RequestState
fetch_from_worker w max_rows c s =
    let (p, s1) = get_worker_progress w.node_id s in
    let local =
      w.run_execute
        (local_request p (choose_adaptive_chunk_size max_rows (save s1 c)) s1.request) in
    if p.completed then (false, s1) else (
      not (is_nil local.matched_trips),
      update_worker_progress w.node_id local.next_start_row local.has_more
          (merge_partial_result local s1),
    )

abbrev pub fetch_from : Option Worker → ℕ → Coordinator → RequestState → Bool × RequestState
fetch_from none max_rows c s = (false, s)
fetch_from (some w) max_rows c s = fetch_from_worker w max_rows c s

unfoldable pub fetch_local_execute_chunk : ℕ → Coordinator → RequestState → Bool × RequestState
fetch_local_execute_chunk max_rows c s = fetch_from (local_worker s.request c) max_rows c s

abbrev mark_all : List String → QueryRequest → QueryRequest
mark_all [] r = r
mark_all (id ∷ ids) r = mark_all ids (mark_visited_node r id)

-- The request that a child is sent: it carries the visited path.
unfoldable pub child_request : ℕ → Coordinator → QueryRequest → QueryRequest
child_request chunk c base = mark_all (own_children c) (
    mark_visited_node (record base { distributed_allowed = true; chunk_size = chunk })
      c.self_node_id)

abbrev pub gave_up : WorkerProgress → WorkerProgress
gave_up p = record p { completed = true; has_more = false }

-- The rows of a child, each with its source. Without one source for each row, all come from the
-- child.
unfoldable pub remote_result : String → Fetched → QueryResult
remote_result child_id f = record empty_result {
  rows_scanned = length f.trips;
  rows_matched = length f.trips;
  rows_emitted = length f.trips;
  matched_trips = f.trips;
  matched_trip_sources =
      if length f.sources == length f.trips then f.sources else replicate (length f.trips) child_id;
  has_more = not f.done;
}

-- The test before the fetch: rows that were all read are dropped.
abbrev pub drop_read_rows : RequestState → RequestState
drop_read_rows s =
    if leb (length s.aggregated_result.matched_trips) s.next_unread_index
    then clear_aggregated_rows s
    else s

abbrev pub complete_if_done : RequestState → RequestState
complete_if_done s = if all_workers_completed s then set_state completed s else s

module _ {W : Type 0} (client : RemoteClient W) where
  open client use {submit_sub_query, fetch_sub_chunk}

  -- The second half of the loop body: one chunk of a child whose subquery runs.
  unfoldable pub fetch_submitted :
      String → WorkerProgress → ℕ → Coordinator → RequestState × W → Bool × RequestState × W
  fetch_submitted child_id p max_rows c (s, w) =
      let (f, w1) =
        fetch_sub_chunk child_id p.remote_request_id
          (choose_adaptive_chunk_size max_rows (save s c)) w in
      if not f.received then (false, set_worker_progress child_id (gave_up p) s, w1) else (
        not (is_nil f.trips),
        update_worker_progress child_id p.next_start_row (not f.done)
            (merge_partial_result (remote_result child_id f) s),
        w1,
      )

  -- The loop body for a child that is not completed.
  unfoldable pub fetch_active :
      String → WorkerProgress → ℕ → Coordinator → RequestState × W → Bool × RequestState × W
  fetch_active child_id p max_rows c (s, w) =
      if p.submitted
      then fetch_submitted child_id p max_rows c (s, w)
      else let (r, w1) =
          submit_sub_query child_id
            (child_request (choose_adaptive_chunk_size max_rows (save s c)) c s.request) s.query_id
            w in
        let p1 = record p { remote_request_id = r.remote_request_id } in
        let p2 = record p1 { submitted = true } in
        if not r.accepted
        then (false, set_worker_progress child_id (gave_up p1) s, w1)
        else fetch_submitted child_id p2 max_rows c (set_worker_progress child_id p2 s, w1)

  unfoldable pub fetch_child : String → ℕ → Coordinator → RequestState × W → Bool × RequestState × W
  fetch_child child_id max_rows c (s, w) =
      let (p, s1) = get_worker_progress child_id s in
      if has_visited_node s.request child_id
      then (false, s, w)
      else if p.completed
      then (false, s1, w)
      else fetch_active child_id p max_rows c (s1, w)

  -- The loop over the children; the flag is `fetchedAnyRows`.
  unfoldable pub fetch_children :
      List String → ℕ → Coordinator → Bool → RequestState × W → Bool × RequestState × W
  fetch_children [] max_rows c any (s, w) = (any, s, w)
  fetch_children (child_id ∷ children) max_rows c any (s, w) =
      let (some_rows, s1, w1) = fetch_child child_id max_rows c (s, w) in
      fetch_children children max_rows c (any || some_rows) (s1, w1)

  unfoldable pub fetch_remote_execute_chunks :
      ℕ → Coordinator → RequestState × W → Bool × RequestState × W
  fetch_remote_execute_chunks max_rows c (s, w) =
      if has_overlay c.overlay && c.has_remote_client
      then fetch_children (own_children c) max_rows c false (s, w)
      else (false, s, w)

  abbrev pub remote_first : ℕ → Coordinator → RequestState × W → Bool × RequestState × W
  remote_first max_rows c (s, w) =
      let (r, s1, w1) = fetch_remote_execute_chunks max_rows c (s, w) in
      let (l, s2) = fetch_local_execute_chunk max_rows c s1 in (l || r, s2, w1)

  abbrev pub local_first : ℕ → Coordinator → RequestState × W → Bool × RequestState × W
  local_first max_rows c (s, w) =
      let (l, s1) = fetch_local_execute_chunk max_rows c s in
      let (r, s2, w1) = fetch_remote_execute_chunks max_rows c (s1, w) in (l || r, s2, w1)

  unfoldable pub fetch_next_execute_chunks :
      ℕ → Coordinator → RequestState × W → Bool × RequestState × W
  fetch_next_execute_chunks max_rows c (s, w) =
      let s0 = drop_read_rows s in
      let (fetched, s1, w1) =
        if should_fetch_remote_first s0
        then remote_first max_rows c (s0, w)
        else local_first max_rows c (s0, w) in
      (fetched, complete_if_done (advance_fetch_round s1), w1)
