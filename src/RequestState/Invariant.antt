-- ===== src/RequestState/Invariant.antt =====
-- What every operation on a request's state keeps.
use cmpe275_enterprise_apps.Common.{
  ℕ, ◌≤◌, String, Bool, ◌≡◌, refl, arith, length, length-append, Option-cases, inl, inr,
}
use cmpe275_enterprise_apps.Common.Dict.{
  NodupKeys, put-NodupKeys, try_emplace-NodupKeys, AllValues-put, AllValues-try_emplace, find,
  find-AllValues,
}
use cmpe275_enterprise_apps.Model.Request.{QueryRequest}
use cmpe275_enterprise_apps.Model.Result.{QueryResult, merge}
use cmpe275_enterprise_apps.RequestState.Progress.{IsConsistent, AllConsistent}
use cmpe275_enterprise_apps.RequestState.{
  RequestState, WorkerProgress, QueryState, new_progress, or_new, new_state, set_state,
  merge_partial_result, clear_aggregated_rows, advance_fetch_round, set_worker_progress,
  initialize_worker, update_worker_progress, get_worker_progress,
}

-- Each trip has its source node beside it.
abbrev pub IsAligned : QueryResult → Type 0
IsAligned r = length r.matched_trip_sources ≡ length r.matched_trips

-- The read cursor lies within the cached rows, each cached trip has a source, and every worker has
-- one entry, in which `completed` and `hasMore` agree.
pub record IsValid (s : RequestState) : Type 0 where
  pub aligned : IsAligned s.aggregated_result
  pub cursor : s.next_unread_index ≤ length s.aggregated_result.matched_trips
  pub distinct : NodupKeys s.worker_progress
  pub consistent : AllConsistent s

pub new_state-IsValid : (id : String) (r : QueryRequest) → IsValid (new_state id r)
new_state-IsValid id r = record {
  aligned = refl;
  cursor = omega arith;
  distinct = tt;
  consistent = tt;
}

pub set_state-IsValid : {s : RequestState} (q : QueryState) → IsValid s → IsValid (set_state q s)
set_state-IsValid q v = record {
  aligned = v.aligned;
  cursor = v.cursor;
  distinct = v.distinct;
  consistent = v.consistent;
}

merge-IsAligned : (r p : QueryResult) → IsAligned r → IsAligned p → IsAligned (merge r p)
unfolding merge
merge-IsAligned r p hr hp = omega (
  arith,
  length-append r.matched_trip_sources p.matched_trip_sources,
  length-append r.matched_trips p.matched_trips,
)

pub merge_partial_result-IsValid :
    {s : RequestState} (p : QueryResult)
    → IsAligned p
    → IsValid s
    → IsValid (merge_partial_result p s)
merge_partial_result-IsValid {s} p a v = record {
  aligned = merge-IsAligned s.aggregated_result p v.aligned a;
  cursor =
      unfold merge in
      omega (arith, v.cursor, length-append s.aggregated_result.matched_trips p.matched_trips);
  distinct = v.distinct;
  consistent = v.consistent;
}

pub clear_aggregated_rows-IsValid :
    {s : RequestState} → IsValid s → IsValid (clear_aggregated_rows s)
unfolding clear_aggregated_rows
clear_aggregated_rows-IsValid v = record {
  aligned = refl;
  cursor = omega arith;
  distinct = v.distinct;
  consistent = v.consistent;
}

pub advance_fetch_round-IsValid : {s : RequestState} → IsValid s → IsValid (advance_fetch_round s)
advance_fetch_round-IsValid v = record {
  aligned = v.aligned;
  cursor = v.cursor;
  distinct = v.distinct;
  consistent = v.consistent;
}

pub initialize_worker-IsValid :
    {s : RequestState} (id : String) → IsValid s → IsValid (initialize_worker id s)
unfolding initialize_worker
initialize_worker-IsValid {s} id v = record {
  aligned = v.aligned;
  cursor = v.cursor;
  distinct = try_emplace-NodupKeys id new_progress s.worker_progress v.distinct;
  consistent =
      AllValues-try_emplace IsConsistent id new_progress s.worker_progress refl v.consistent;
}

pub get_worker_progress-IsValid :
    {s : RequestState} (id : String) → IsValid s → IsValid (get_worker_progress id s).1
unfolding get_worker_progress
get_worker_progress-IsValid id v = unfold initialize_worker in initialize_worker-IsValid id v

pub set_worker_progress-IsValid :
    {s : RequestState} (id : String) (p : WorkerProgress)
    → IsConsistent p
    → IsValid s
    → IsValid (set_worker_progress id p s)
unfolding set_worker_progress
set_worker_progress-IsValid {s} id p h v = record {
  aligned = v.aligned;
  cursor = v.cursor;
  distinct = put-NodupKeys id p s.worker_progress v.distinct;
  consistent = AllValues-put IsConsistent id p s.worker_progress h v.consistent;
}

pub update_worker_progress-IsValid :
    {s : RequestState} (id : String) (row : ℕ) (more : Bool)
    → IsValid s
    → IsValid (update_worker_progress id row more s)
unfolding update_worker_progress
update_worker_progress-IsValid id row more v =
    set_worker_progress-IsValid id _ refl (get_worker_progress-IsValid id v)

-- The progress that is handed out is that of a consistent entry.
pub get_worker_progress-IsConsistent :
    {s : RequestState} (id : String) → IsValid s → IsConsistent (get_worker_progress id s).0
unfolding get_worker_progress
get_worker_progress-IsConsistent {s} id v = elim (Option-cases (find id s.worker_progress)) [
  | inl e ↦ rw (e, or_new) refl
  | inr (p, e) ↦ rw (e, or_new) (find-AllValues IsConsistent id s.worker_progress v.consistent e)
]
