-- ===== src/Ingest.antt =====
-- basic/src/ingest/IngestQueue.hpp, IngestDispatcher.hpp and model/ShardAssignment.hpp: the queue of
-- shards, and their assignment to the worker with the least load.
pub mod Balance
use cmpe275_enterprise_apps.Common.{
  ℕ, ◌-◌, ◌^◌, ◌==◌, String, str_eq, Bool, true, false, not, ◌&&◌, ◌||◌, List, [], ◌∷◌, ◌++◌,
  Option, none, some, ltb, if◌then◌else◌, length, add64,
}
use cmpe275_enterprise_apps.Common.Dict.{find, put}

pub record ShardAssignment : Type 0 where
  pub shard_id : ℕ
  pub source_file : String
  pub node_id : String
  pub trip_count : ℕ
  pub file_size_bytes : ℕ

abbrev is_valid : ShardAssignment → Bool
is_valid s = not (str_eq s.source_file "") && not (str_eq s.node_id "") && ltb 0 s.trip_count

-- `jobs_`, the next one first.
pub record IngestQueue : Type 0 where
  pub jobs : List ShardAssignment

abbrev empty : IngestQueue → Bool
empty q = elim q.jobs [ [] ↦ true | job ∷ jobs ↦ false ]

abbrev size : IngestQueue → ℕ
size q = length q.jobs

abbrev clear : IngestQueue → IngestQueue
clear q = record q { jobs = [] }

abbrev push : ShardAssignment → IngestQueue → IngestQueue
push job q = record q { jobs = q.jobs ++ job ∷ [] }

unfoldable push_all : List ShardAssignment → IngestQueue → IngestQueue
push_all [] q = q
push_all (job ∷ jobs) q = push_all jobs (push job q)

abbrev popped : List ShardAssignment → Option ShardAssignment × IngestQueue
popped [] = (none, record { jobs = [] })
popped (job ∷ jobs) = (some job, record { jobs = jobs })

abbrev pub pop_next : IngestQueue → Option ShardAssignment × IngestQueue
pop_next q = popped q.jobs

pub record IngestDispatcher : Type 0 where
  pub worker_node_ids : List String
  pub worker_assigned_bytes : List (String × ℕ)
  pub worker_assigned_trips : List (String × ℕ)

-- The loop of `setWorkers`.
unfoldable reset_loads : List String → IngestDispatcher → IngestDispatcher
reset_loads [] d = d
reset_loads (id ∷ ids) d = reset_loads ids (record d {
  worker_assigned_bytes = put id 0 d.worker_assigned_bytes;
  worker_assigned_trips = put id 0 d.worker_assigned_trips;
})

abbrev set_workers : List String → IngestDispatcher → IngestDispatcher
set_workers ids d =
    reset_loads ids
      (record { worker_node_ids = ids; worker_assigned_bytes = []; worker_assigned_trips = [] })

abbrev has_workers : IngestDispatcher → Bool
has_workers d = elim d.worker_node_ids [ [] ↦ false | id ∷ ids ↦ true ]

abbrev pub or_zero : Option ℕ → ℕ
or_zero none = 0
or_zero (some n) = n

unfoldable pub get_assigned_bytes : String → IngestDispatcher → ℕ
get_assigned_bytes id d = or_zero (find id d.worker_assigned_bytes)

unfoldable pub get_assigned_trips : String → IngestDispatcher → ℕ
get_assigned_trips id d = or_zero (find id d.worker_assigned_trips)

-- The loop of `selectLeastLoadedWorker`, with the best worker so far and the lowest loads.
unfoldable pub select_from : IngestDispatcher → List String → String → ℕ → ℕ → String
select_from d [] best lowest_bytes lowest_trips = best
select_from d (id ∷ ids) best lowest_bytes lowest_trips =
    let bytes = get_assigned_bytes id d in
    let trips = get_assigned_trips id d in
    let chosen = select_from d ids id bytes trips in
    let kept = select_from d ids best lowest_bytes lowest_trips in
    if ltb bytes lowest_bytes || bytes == lowest_bytes && ltb trips lowest_trips
    then chosen
    else kept

abbrev pub max_size : ℕ
max_size = 2 ^ 64 - 1

-- `front` of the workers, and the loop over all of them.
abbrev pub select_least_loaded_worker : String → List String → IngestDispatcher → String
select_least_loaded_worker front workers d = select_from d workers front max_size max_size

-- `+=` on the loads of a worker.
abbrev pub add_load : String → ShardAssignment → IngestDispatcher → IngestDispatcher
add_load id job d = record d {
  worker_assigned_bytes =
      put id (add64 (or_zero (find id d.worker_assigned_bytes)) job.file_size_bytes)
        d.worker_assigned_bytes;
  worker_assigned_trips =
      put id (add64 (or_zero (find id d.worker_assigned_trips)) job.trip_count)
        d.worker_assigned_trips;
}

abbrev assign_to :
    String
    → IngestDispatcher
    → Option ShardAssignment × IngestQueue
    → Option ShardAssignment × IngestDispatcher × IngestQueue
assign_to front d (none, q) = (none, d, q)
assign_to front d (some job, q) =
    let id = select_least_loaded_worker front d.worker_node_ids d in
    (some (record job { node_id = id }), add_load id job d, q)

abbrev pub assign_with :
    List String
    → IngestDispatcher
    → IngestQueue
    → Option ShardAssignment × IngestDispatcher × IngestQueue
assign_with [] d q = (none, d, q)
assign_with (front ∷ workers) d q = assign_to front d (pop_next q)

unfoldable pub assign_next :
    IngestDispatcher → IngestQueue → Option ShardAssignment × IngestDispatcher × IngestQueue
assign_next d q = assign_with d.worker_node_ids d q
