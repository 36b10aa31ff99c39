-- ===== src/RequestState.antt =====
-- basic/src/querycoordination/RequestState.hpp and RequestState.cpp: the coordinator's cache entry
-- for one query. A reference that the code hands out is a value here, written back by the caller.
pub mod Progress
pub mod Invariant
use cmpe275_enterprise_apps.Common.{
  ℕ, ◌+◌, ◌%◌, String, Bool, true, false, not, ◌&&◌, List, [], ◌∷◌, Option, none, some, ◌==◌, leb,
  if◌then◌else◌,
}
use cmpe275_enterprise_apps.Common.Dict.{find, has_key, put, try_emplace}
use cmpe275_enterprise_apps.Model.Request.{QueryRequest}
use cmpe275_enterprise_apps.Model.Result.{QueryResult, empty_result, merge}

pub data QueryState : Type 0 where
  pending in_progress completed cancelled timed_out : QueryState

pub record WorkerProgress : Type 0 where
  pub next_start_row : ℕ
  pub has_more : Bool
  pub completed : Bool
  pub remote_request_id : String
  pub submitted : Bool

abbrev pub new_progress : WorkerProgress
new_progress = record {
  next_start_row = 0;
  has_more = true;
  completed = false;
  remote_request_id = "";
  submitted = false;
}

pub record RequestState : Type 0 where
  pub query_id : String
  pub request : QueryRequest
  pub state : QueryState
  pub aggregated_result : QueryResult
  pub next_unread_index : ℕ
  pub fetch_round : ℕ
  pub expected_workers : ℕ
  pub completed_workers : ℕ
  pub worker_progress : List (String × WorkerProgress)

abbrev pub new_state : String → QueryRequest → RequestState
new_state query_id request = record {
  query_id = query_id;
  request = request;
  state = pending;
  aggregated_result = empty_result;
  next_unread_index = 0;
  fetch_round = 0;
  expected_workers = 0;
  completed_workers = 0;
  worker_progress = [];
}

abbrev is_terminal_state : QueryState → Bool
is_terminal_state completed = true
is_terminal_state cancelled = true
is_terminal_state timed_out = true
is_terminal_state _ = false

abbrev pub is_terminal : RequestState → Bool
is_terminal s = is_terminal_state s.state

abbrev pub set_state : QueryState → RequestState → RequestState
set_state q s = record s { state = q }

abbrev pub merge_partial_result : QueryResult → RequestState → RequestState
merge_partial_result partial s = record s { aggregated_result = merge s.aggregated_result partial }

abbrev clear_rows : QueryResult → QueryResult
clear_rows r = record r {
  matched_rows = [];
  matched_trips = [];
  matched_trip_sources = [];
  rows_skipped = 0;
  rows_emitted = 0;
}

unfoldable pub clear_aggregated_rows : RequestState → RequestState
clear_aggregated_rows s = record s {
  aggregated_result = clear_rows s.aggregated_result;
  next_unread_index = 0;
}

abbrev pub set_next_unread_index : ℕ → RequestState → RequestState
set_next_unread_index i s = record s { next_unread_index = i }

abbrev pub advance_fetch_round : RequestState → RequestState
advance_fetch_round s = record s { fetch_round = s.fetch_round + 1 }

unfoldable pub should_fetch_remote_first : RequestState → Bool
should_fetch_remote_first s = s.fetch_round % 2 == 1

abbrev pub set_expected_workers : ℕ → RequestState → RequestState
set_expected_workers n s = record s { expected_workers = n }

abbrev pub increment_completed_workers : RequestState → RequestState
increment_completed_workers s = record s { completed_workers = s.completed_workers + 1 }

abbrev reset_completed_workers : RequestState → RequestState
reset_completed_workers s = record s { completed_workers = 0 }

-- The loop over `workerProgress_`.
unfoldable pub all_completed : List (String × WorkerProgress) → Bool
all_completed [] = true
all_completed ((id, p) ∷ m) = p.completed && all_completed m

-- The test on `workerProgress_`, with the counter where nothing is tracked.
abbrev completed_or : Bool → List (String × WorkerProgress) → Bool
completed_or counter [] = counter
completed_or counter (e ∷ m) = all_completed (e ∷ m)

unfoldable pub all_workers_completed : RequestState → Bool
all_workers_completed s =
    completed_or (leb s.expected_workers s.completed_workers) s.worker_progress

unfoldable pub initialize_worker : String → RequestState → RequestState
initialize_worker node_id s = record s {
  worker_progress = try_emplace node_id new_progress s.worker_progress;
}

unfoldable has_worker_progress : String → RequestState → Bool
has_worker_progress node_id s = has_key node_id s.worker_progress

unfoldable pub find_worker_progress : String → RequestState → Option WorkerProgress
find_worker_progress node_id s = find node_id s.worker_progress

abbrev pub or_new : Option WorkerProgress → WorkerProgress
or_new none = new_progress
or_new (some p) = p

-- `workerProgress_[nodeId]` enters a new record for a worker that is not tracked yet.
unfoldable pub get_worker_progress : String → RequestState → WorkerProgress × RequestState
get_worker_progress node_id s = (
  or_new (find node_id s.worker_progress),
  record s { worker_progress = try_emplace node_id new_progress s.worker_progress },
)

-- A write through the reference that `getWorkerProgress` returned.
unfoldable pub set_worker_progress : String → WorkerProgress → RequestState → RequestState
set_worker_progress node_id p s = record s { worker_progress = put node_id p s.worker_progress }

unfoldable pub update_worker_progress : String → ℕ → Bool → RequestState → RequestState
unfolding get_worker_progress set_worker_progress
update_worker_progress node_id next_start_row has_more s =
    let (p, s') = get_worker_progress node_id s in
    set_worker_progress node_id
      (record p { next_start_row = next_start_row; has_more = has_more; completed = not has_more })
      s'

-- The loop of `countWorkersWithMore`.
unfoldable pub count_more : List (String × WorkerProgress) → ℕ
count_more [] = 0
count_more ((id, p) ∷ m) = (if p.has_more && not p.completed then 1 else 0) + count_more m

unfoldable pub count_workers_with_more : RequestState → ℕ
count_workers_with_more s = count_more s.worker_progress
