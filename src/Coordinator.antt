-- ===== src/Coordinator.antt =====
-- basic/src/querycoordination/QueryCoordinator.hpp and QueryCoordinator.cpp: one node's coordinator.
-- A pointer or reference to a `RequestState` is a copy here that `save` writes back under its
-- query ID; the pressure is always computed with the current copy in place. Calls on one
-- coordinator run one after the other. The other nodes are reached through `RemoteClient`.
pub mod Fetch
pub mod Count
pub mod Rpc
pub mod Table
pub mod Delivery
pub mod Updates
pub mod Extension
pub mod Serving
pub mod Single
pub mod Rounds
pub mod Answering
pub mod Draining
pub mod Submitting
pub mod Tracking
pub mod Starting
pub mod Naming
pub mod Totals
use cmpe275_enterprise_apps.Common.{
  ℕ, ◌+◌, ◌*◌, min, max, String, str_eq, Bool, true, false, not, ◌&&◌, ◌||◌, List, [], ◌∷◌, ◌++◌,
  Option, none, some, ltb, leb, ◌==◌, if◌then◌else◌, length, take, drop, replicate, add64,
}
use cmpe275_enterprise_apps.Common.Decimal.{decimal}
use cmpe275_enterprise_apps.Model.Trip.{TaxiTrip}
use cmpe275_enterprise_apps.Model.Request.{
  QueryRequest, is_count, has_visited_node, mark_visited_node,
}
use cmpe275_enterprise_apps.Model.Result.{QueryResult, empty_result, merge}
use cmpe275_enterprise_apps.Overlay.{OverlayConfig, get_children}
use cmpe275_enterprise_apps.RequestState.{
  QueryState, in_progress, completed, cancelled, timed_out, RequestState, new_state, is_terminal,
  set_state, merge_partial_result, set_expected_workers, increment_completed_workers,
  initialize_worker,
}

-- What the coordinator needs of a worker.
pub record Worker : Type 0 where
  pub node_id : String
  pub run_count : QueryRequest → QueryResult
  pub run_execute : QueryRequest → QueryResult

pub record Coordinator : Type 0 where
  pub workers : List Worker
  pub query_states : List RequestState
  pub next_query_seq : ℕ
  pub has_remote_client : Bool
  pub overlay : Option OverlayConfig
  pub self_node_id : String

abbrev small_chunk_size : ℕ
small_chunk_size = 500

abbrev default_chunk_size : ℕ
default_chunk_size = 1000

abbrev large_chunk_size : ℕ
large_chunk_size = 5000

abbrev pressure_row_limit : ℕ
pressure_row_limit = 10000

abbrev pressure_request_limit : ℕ
pressure_request_limit = 10

abbrev add_worker : Worker → Coordinator → Coordinator
add_worker worker c = record c { workers = c.workers ++ worker ∷ [] }

-- The loop of `findRequestState`.
unfoldable pub find_state : String → List RequestState → Option RequestState
find_state query_id [] = none
find_state query_id (s ∷ states) =
    if str_eq s.query_id query_id then some s else find_state query_id states

abbrev pub find_request_state : String → Coordinator → Option RequestState
find_request_state query_id c = find_state query_id c.query_states

-- A write through the reference to the state with this query ID.
unfoldable pub replace_state : RequestState → List RequestState → List RequestState
replace_state s [] = []
replace_state s (t ∷ states) =
    if str_eq t.query_id s.query_id then s ∷ states else t ∷ replace_state s states

abbrev pub save : RequestState → Coordinator → Coordinator
save s c = record c { query_states = replace_state s c.query_states }

abbrev found_or_created :
    QueryRequest → Coordinator → Option RequestState → RequestState × Coordinator
found_or_created request c (some s) = (s, c)
found_or_created request c none =
    let s = new_state request.query_id request in
    (s, record c { query_states = c.query_states ++ s ∷ [] })

unfoldable pub create_request_state : QueryRequest → Coordinator → RequestState × Coordinator
create_request_state request c = found_or_created request c (find_request_state request.query_id c)

abbrev updated : QueryState → Option RequestState → Coordinator → Coordinator
updated q none c = c
updated q (some s) c = save (set_state q s) c

unfoldable pub update_query_state : String → QueryState → Coordinator → Coordinator
update_query_state query_id q c = updated q (find_request_state query_id c) c

abbrev handle_timeout : String → Coordinator → Coordinator
handle_timeout query_id = update_query_state query_id timed_out

abbrev cancel_query : String → Coordinator → Coordinator
cancel_query query_id = update_query_state query_id cancelled

-- `cancel`: whether the request was found, and the message.
abbrev cancel_found : Option RequestState → Coordinator → Bool × String × Coordinator
cancel_found none c = (false, "request not found", c)
cancel_found (some s) c = (true, "cancelled", save (set_state cancelled s) c)

unfoldable pub cancel : String → Coordinator → Bool × String × Coordinator
cancel query_id c = cancel_found (find_request_state query_id c) c

unfoldable pub query_name : ℕ → String
query_name n = Prim.Native.String.◌++◌ "q-" (decimal n)

unfoldable pub ensure_query_id : QueryRequest → Coordinator → QueryRequest × Coordinator
ensure_query_id request c = if not (str_eq request.query_id "") then (request, c) else (
  record request { query_id = query_name c.next_query_seq },
  record c { next_query_seq = c.next_query_seq + 1 },
)

-- The loop of `getCoordinatorPressureRatio`: requests that have not ended, and cached rows.
unfoldable pub active_requests : List RequestState → ℕ
active_requests [] = 0
active_requests (s ∷ states) = (if not (is_terminal s) then 1 else 0) + active_requests states

unfoldable pub cached_rows : List RequestState → ℕ
cached_rows [] = 0
cached_rows (s ∷ states) = length s.aggregated_result.matched_trips + cached_rows states

-- The ratio in units of 1 / `pressure_row_limit`. Division of doubles is monotone and correctly
-- rounded, so the comparisons with 0.80 and 0.20 below come out as on exact fractions.
unfoldable pub get_coordinator_pressure_ratio : Coordinator → ℕ
get_coordinator_pressure_ratio c =
    min pressure_row_limit
      (max (active_requests c.query_states * 1000) (cached_rows c.query_states))

unfoldable pub choose_adaptive_chunk_size : ℕ → Coordinator → ℕ
choose_adaptive_chunk_size requested_max_rows c =
    let pressure = get_coordinator_pressure_ratio c in
    let recommended =
      if leb 8000 pressure
      then small_chunk_size
      else if leb pressure 2000
      then large_chunk_size
      else default_chunk_size in
    if requested_max_rows == 0 then recommended else min requested_max_rows recommended

-- `overlay_->getChildren(selfNodeId_)`, where there is an overlay.
abbrev children_in : Option OverlayConfig → String → List String
children_in none self = []
children_in (some o) self = get_children o self

abbrev pub own_children : Coordinator → List String
own_children c = children_in c.overlay c.self_node_id

abbrev pub has_overlay : Option OverlayConfig → Bool
has_overlay none = false
has_overlay (some o) = true

abbrev is_some : Option String → Bool
is_some none = false
is_some (some x) = true

abbrev pub is_nil {ℓ} : {A : Type ℓ} → List A → Bool
is_nil [] = true
is_nil (x ∷ xs) = false

unfoldable pub can_process_locally : QueryRequest → Coordinator → Bool
can_process_locally request c =
    if is_some request.target_node_id
    then true
    else if not request.distributed_allowed
    then true
    else if has_overlay c.overlay
    then is_nil (own_children c)
    else true

-- The loops of `determineTargetWorkers`, from index `i` on.
unfoldable pub targets_named : String → ℕ → List Worker → List ℕ
targets_named target i [] = []
targets_named target i (w ∷ workers) =
    if str_eq w.node_id target then i ∷ [] else targets_named target (i + 1) workers

unfoldable pub targets_all : ℕ → List Worker → List ℕ
targets_all i [] = []
targets_all i (w ∷ workers) = i ∷ targets_all (i + 1) workers

abbrev targets_of : Option String → List Worker → List ℕ
targets_of none workers = targets_all 0 workers
targets_of (some target) workers = targets_named target 0 workers

unfoldable pub determine_target_workers : QueryRequest → Coordinator → List ℕ
determine_target_workers request c =
    if is_nil c.workers then [] else targets_of request.target_node_id c.workers

-- The worker that the local loops of the EXECUTE path stop at.
abbrev pub is_selected : Option String → String → Worker → Bool
is_selected (some target) self w = str_eq w.node_id target
is_selected none self w = str_eq self "" || str_eq w.node_id self

unfoldable pub first_selected : Option String → String → List Worker → Option Worker
first_selected target self [] = none
first_selected target self (w ∷ workers) =
    if is_selected target self w then some w else first_selected target self workers

abbrev pub local_worker : QueryRequest → Coordinator → Option Worker
local_worker request c = first_selected request.target_node_id c.self_node_id c.workers

-- The loop over children of `initializeExecuteProgress`.
unfoldable pub initialize_children :
    QueryRequest → List String → RequestState → ℕ → RequestState × ℕ
initialize_children request [] s expected = (s, expected)
initialize_children request (child ∷ children) s expected =
    if has_visited_node request child
    then initialize_children request children s expected
    else initialize_children request children (initialize_worker child s) (expected + 1)

abbrev pub initialize_local : Option Worker → RequestState → RequestState × ℕ
initialize_local none s = (s, 0)
initialize_local (some w) s = (initialize_worker w.node_id s, 1)

unfoldable pub initialize_execute_progress :
    RequestState → QueryRequest → Coordinator → RequestState
initialize_execute_progress s request c =
    let (s1, n1) = initialize_local (local_worker request c) s in
    let (s2, n2) =
      if request.distributed_allowed && has_overlay c.overlay && c.has_remote_client
      then initialize_children request (own_children c) s1 n1
      else (s1, n1) in
    set_expected_workers n2 s2

-- The loop of `aggregateCountResults`.
unfoldable pub add_counts : QueryResult → List QueryResult → QueryResult
add_counts r [] = r
add_counts r (p ∷ partials) =
    add_counts
      (record r {
        rows_scanned = add64 r.rows_scanned p.rows_scanned;
        rows_matched = add64 r.rows_matched p.rows_matched;
      })
      partials

abbrev pub aggregate_count_results : List QueryResult → QueryResult
aggregate_count_results = add_counts empty_result

unfoldable merge_all : QueryResult → List QueryResult → QueryResult
merge_all r [] = r
merge_all r (p ∷ partials) = merge_all (merge r p) partials

unfoldable aggregate_execute_results : List QueryResult → QueryResult
aggregate_execute_results partials =
    let r = merge_all empty_result partials in record r { rows_emitted = length r.matched_trips }
