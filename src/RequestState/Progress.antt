-- ===== src/RequestState/Progress.antt =====
-- The bookkeeping of workers in a request's state.
use cmpe275_enterprise_apps.Common.{
  ℕ, String, str_eq, Bool, true, not, List, [], ◌∷◌, none, some, ◌==◌, ◌≡◌, ◌≢◌, refl, arith,
  if◌then◌else◌,
}
use cmpe275_enterprise_apps.Common.Dict.{find, find-put, find-try_emplace, AllValues}
use cmpe275_enterprise_apps.RequestState.{
  RequestState, WorkerProgress, new_progress, or_new, all_completed, all_workers_completed,
  count_more, count_workers_with_more, find_worker_progress, initialize_worker,
  update_worker_progress,
}

-- A worker has more rows exactly if it is not completed.
abbrev pub IsConsistent : WorkerProgress → Type 0
IsConsistent p = p.completed ≡ not p.has_more

abbrev pub AllConsistent : RequestState → Type 0
AllConsistent s = AllValues IsConsistent s.worker_progress

all_completed-count_more :
    (m : List (String × WorkerProgress))
    → AllValues IsConsistent m
    → all_completed m ≡ (count_more m == 0)
unfolding all_completed count_more
all_completed-count_more [] h = refl
all_completed-count_more ((id, p) ∷ m) h = ground (arith, all_completed-count_more m h.1)

-- Once workers are tracked, with `hasMore` and `completed` opposite for each, all of them are
-- completed exactly if none is counted as having more rows.
pub all_workers_completed-count_workers_with_more :
    (s : RequestState)
    → AllConsistent s
    → s.worker_progress ≢ []
    → all_workers_completed s ≡ (count_workers_with_more s == 0)
unfolding all_workers_completed count_workers_with_more
all_workers_completed-count_workers_with_more s h n =
    ground (arith, all_completed-count_more s.worker_progress h)

all_completed-find :
    (id : String) (p : WorkerProgress) (m : List (String × WorkerProgress))
    → all_completed m ≡ true
    → find id m ≡ some p
    → p.completed ≡ true
unfolding all_completed find
all_completed-find id p [] h e = cc
all_completed-find id p ((j, q) ∷ m) h e = ground (arith, all_completed-find id p m)

-- When all workers are completed, each tracked worker is.
pub all_workers_completed-find :
    (s : RequestState) (id : String) (p : WorkerProgress)
    → all_workers_completed s ≡ true
    → find_worker_progress id s ≡ some p
    → p.completed ≡ true
unfolding all_workers_completed find_worker_progress find
all_workers_completed-find s id p h e = go s.worker_progress refl e
  where
    go :
        (m : List (String × WorkerProgress))
        → s.worker_progress ≡ m
        → find id m ≡ some p
        → p.completed ≡ true
    go [] q e' = cc
    go (x ∷ m) q e' = all_completed-find id p (x ∷ m) (ground arith) e'

-- `initializeWorker` tracks a worker that was not tracked, from its first row on, and leaves the
-- progress of every worker that was tracked as it is.
pub find-initialize_worker :
    (s : RequestState) (id j : String)
    → find_worker_progress j (initialize_worker id s) ≡ (
        if str_eq id j
        then elim (find_worker_progress id s) [ none ↦ some new_progress | some p ↦ some p ]
        else find_worker_progress j s)
unfolding find_worker_progress initialize_worker
find-initialize_worker s id j = find-try_emplace id j new_progress s.worker_progress

-- `updateWorkerProgress` moves one worker's cursor, marks it completed exactly if no rows are
-- left, keeps its remote request, and changes no other worker. A worker that was not tracked is
-- entered.
pub find-update_worker_progress :
    (s : RequestState) (id j : String) (row : ℕ) (more : Bool)
    → find_worker_progress j (update_worker_progress id row more s) ≡ (
        if str_eq id j
        then some (record (or_new (find_worker_progress id s)) {
          next_start_row = row;
          has_more = more;
          completed = not more;
        })
        else find_worker_progress j s)
unfolding find_worker_progress update_worker_progress
find-update_worker_progress s id j row more =
    rw (find-put id j) (ground (arith, find-try_emplace id j new_progress s.worker_progress))
