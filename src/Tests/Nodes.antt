-- ===== src/Tests/Nodes.antt =====
-- Three nodes whose edges form a cycle, and the coordinator of one of them with a request under way.
use cmpe275_enterprise_apps.Common.{
  ℕ, ◌≤◌, ◌+◌, ◌*◌, String, str_eq, if◌then◌else◌, ◌⊎◌, true, false, List, [], ◌∷◌, none, some, ◌≡◌,
  ◌↔◌, refl, arith, length, All,
}
use cmpe275_enterprise_apps.Model.Trip.{empty_trip}
use cmpe275_enterprise_apps.Model.Request.{new_request, execute, count, has_id}
use cmpe275_enterprise_apps.Model.Result.{empty_result}
use cmpe275_enterprise_apps.Overlay.{OverlayConfig, empty_overlay, set_children, get_children}
use cmpe275_enterprise_apps.Overlay.Parents.{
  IsIndexed, empty_overlay-IsIndexed, set_children-IsIndexed,
}
use cmpe275_enterprise_apps.Overlay.Traversal.{collect_reachable}
use cmpe275_enterprise_apps.Overlay.Reachable.{Reaches}
use cmpe275_enterprise_apps.Overlay.Termination.{collect_reachable_lem}
use cmpe275_enterprise_apps.RequestState.{
  RequestState, in_progress, WorkerProgress, new_progress, new_state, update_worker_progress,
  find_worker_progress, all_workers_completed, all_completed,
}
use cmpe275_enterprise_apps.RequestState.Invariant.{IsValid}
use cmpe275_enterprise_apps.Common.Dict.{has_key, try_emplace, put, find}
use cmpe275_enterprise_apps.Common.Decimal.{decimal}
use cmpe275_enterprise_apps.Coordinator.{
  active_requests, cached_rows, Coordinator, choose_adaptive_chunk_size, create_request_state,
  find_request_state, find_state, own_children, query_name,
}
use cmpe275_enterprise_apps.Coordinator.Count.{process_distributed_count, own_count}
use cmpe275_enterprise_apps.Coordinator.Fetch.{RemoteClient, fetch_next_execute_chunks}
use cmpe275_enterprise_apps.Coordinator.Rpc.{deliver, fetch_chunk_for_rpc, submit_client_query}
use cmpe275_enterprise_apps.Coordinator.Table.{IsWellFormed, create_request_state-IsWellFormed}
use cmpe275_enterprise_apps.Coordinator.Delivery.{Delivers, deliver-Delivers}
use cmpe275_enterprise_apps.Coordinator.Updates.{Extends, WorkerIsAligned}
use cmpe275_enterprise_apps.Coordinator.Extension.{fetch_next_execute_chunks-Extends}
use cmpe275_enterprise_apps.Coordinator.Serving.{
  choose_adaptive_chunk_size_lem, IsServed, fetch_chunk_for_rpc_stopped,
}
use cmpe275_enterprise_apps.Coordinator.Naming.{IsNumbered, submit_client_query_new}
use cmpe275_enterprise_apps.Coordinator.Starting.{HasStarted}
use cmpe275_enterprise_apps.Coordinator.Totals.{process_distributed_count_le, sum_matched}
use cmpe275_enterprise_apps.WorkerNode.{as_worker}
use cmpe275_enterprise_apps.WorkerNode.Results.{run_execute-IsAligned}
use cmpe275_enterprise_apps.Tests.Queries.{parser, fs, node, paged}

abbrev pair : OverlayConfig
pair = set_children "A" ("B" ∷ []) empty_overlay

abbrev ring : OverlayConfig
ring = set_children "B" ("A" ∷ "C" ∷ []) pair

pair-IsIndexed : IsIndexed pair
pair-IsIndexed = (set_children-IsIndexed "A" ("B" ∷ []) empty_overlay empty_overlay-IsIndexed).2

set_children-IsIndexed_example :
    let o = set_children "B" ("A" ∷ "C" ∷ []) pair in
    ((p : String)
      → get_children o p ≡ (if str_eq "B" p then "A" ∷ "C" ∷ [] else get_children pair p))
    × (o.nodes ≡ pair.nodes)
    × IsIndexed o
set_children-IsIndexed_example = set_children-IsIndexed "B" ("A" ∷ "C" ∷ []) pair pair-IsIndexed

collect_reachable_lem_example :
    (v : List String) × (collect_reachable 9 ring "A" [] ≡ some v)
    × ((x : String) → (has_id x v ≡ true) ↔ Reaches ring "A" x)
collect_reachable_lem_example =
    collect_reachable_lem ring "A" 9 (unfold set_children put find in omega arith)

-- A remote node that answers each call with one row, and counts the calls.
abbrev pub client : RemoteClient ℕ
client = record {
  submit_sub_query = λ id request parent calls.
      (record { accepted = true; remote_request_id = "q-9"; message = "" }, calls + 1);
  fetch_sub_chunk = λ id remote n calls. (
    record {
      received = true;
      trips = empty_trip ∷ [];
      sources = "B" ∷ [];
      done = false;
      message = "";
    },
    calls + 1,
  );
}

-- A request with two rows in its cache, one of them read.
abbrev under_way : RequestState
under_way = record (new_state "q-0" paged) {
  state = in_progress;
  aggregated_result = record empty_result {
    matched_trips = empty_trip ∷ record empty_trip { vendor_id = 2 } ∷ [];
    matched_trip_sources = "A" ∷ "B" ∷ [];
  };
  next_unread_index = 1;
  worker_progress =
      ("A", new_progress) ∷ ("B", record new_progress { has_more = false; completed = true }) ∷ [];
}

abbrev entry : Coordinator
entry = record {
  workers = as_worker parser fs node ∷ [];
  query_states = under_way ∷ [];
  next_query_seq = 1;
  has_remote_client = true;
  overlay = some ring;
  self_node_id = "A";
}

entry-WorkerIsAligned : All WorkerIsAligned entry.workers
entry-WorkerIsAligned = (run_execute-IsAligned parser fs node, tt)

under_way-IsValid : IsValid under_way
unfolding has_key
under_way-IsValid = record {
  aligned = refl;
  cursor = omega arith;
  distinct = (refl, (refl, tt));
  consistent = (refl, (refl, tt));
}

entry-IsWellFormed : IsWellFormed entry
unfolding has_id
entry-IsWellFormed = record { states = (under_way-IsValid, tt); distinct = (refl, tt) }

-- The same request once its rows are read, so that a call fetches.
abbrev read_out : RequestState
read_out = record under_way { next_unread_index = 2 }

abbrev waiting : Coordinator
waiting = record entry { query_states = read_out ∷ [] }

not_tracked : (s : RequestState) → find_request_state "q-7" entry ≡ some s → ¬ IsServed s
unfolding find_state
not_tracked s e h = cc

fetch_chunk_for_rpc_stopped_example :
    let (out, c', calls) = fetch_chunk_for_rpc client "q-7" 10 entry 0 in
    (out.trips ≡ [])
    × (out.done ≡ true)
    × (c' ≡ entry)
    × (calls ≡ 0)
    × ((out.found ≡ false) ↔ (find_request_state "q-7" entry ≡ none))
fetch_chunk_for_rpc_stopped_example =
    fetch_chunk_for_rpc_stopped client "q-7" 10 entry 0 not_tracked

choose_adaptive_chunk_size_lem_example : choose_adaptive_chunk_size 800 entry ≡ 800
unfolding active_requests cached_rows
choose_adaptive_chunk_size_lem_example = choose_adaptive_chunk_size_lem 800 entry

deliver-Delivers_example :
    Delivers 5 under_way (deliver 5 "A" "q-0" under_way).0 (deliver 5 "A" "q-0" under_way).1
deliver-Delivers_example = deliver-Delivers 5 "A" "q-0" under_way under_way-IsValid

fetch_next_execute_chunks-Extends_example :
    Extends under_way (fetch_next_execute_chunks client 5 entry (under_way, 0)).1
fetch_next_execute_chunks-Extends_example =
    fetch_next_execute_chunks-Extends client 5 entry 0 entry-WorkerIsAligned under_way-IsValid

entry-IsNumbered : IsNumbered entry
unfolding query_name decimal
entry-IsNumbered = ((0, omega arith, refl), tt)

submit_client_query_new_example :
    let request = new_request "" execute in
    let (id, c', calls) = submit_client_query client request entry 0 in
    (id ≡ query_name 1)
    × (find_request_state id entry ≡ none)
    × (s : RequestState) × (c'.query_states ≡ under_way ∷ s ∷ [])
    × HasStarted request entry s
    × (calls ≡ 0)
    × IsNumbered c'
submit_client_query_new_example =
    submit_client_query_new client (new_request "" execute) entry 0 refl refl entry-IsNumbered

process_distributed_count_le_example :
    (process_distributed_count client (new_request "q-0" count) entry 0).0.rows_matched
    ≤ sum_matched (own_count (new_request "q-0" count) "A" entry.workers)
      + 1 * length (own_children entry)
process_distributed_count_le_example =
    process_distributed_count_le client 1 (λ id rid calls. omega arith) (new_request "q-0" count)
      entry 0

create_request_state-IsWellFormed_example :
    let (s, c') = create_request_state (new_request "q-1" execute) entry in
    IsValid s
    × (((find_request_state "q-1" entry ≡ some s) × (c' ≡ entry))
        ⊎ ((find_request_state "q-1" entry ≡ none)
            × (s ≡ new_state "q-1" (new_request "q-1" execute))))
    × ((j : String)
        → find_request_state j c' ≡ (if str_eq "q-1" j then some s else find_request_state j entry))
    × IsWellFormed c'
create_request_state-IsWellFormed_example =
    create_request_state-IsWellFormed (new_request "q-1" execute) entry-IsWellFormed

-- The same request once the worker has no more rows.
abbrev fetched : RequestState
fetched = update_worker_progress "A" 6 false under_way

fetched_completed : all_workers_completed fetched ≡ true
unfolding all_workers_completed update_worker_progress all_completed try_emplace put find
fetched_completed = refl

abbrev finished : WorkerProgress
finished = record new_progress { next_start_row = 6; has_more = false; completed = true }

fetched_progress : find_worker_progress "A" fetched ≡ some finished
unfolding find_worker_progress update_worker_progress try_emplace put find
fetched_progress = refl
