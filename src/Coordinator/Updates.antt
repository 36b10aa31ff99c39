-- ===== src/Coordinator/Updates.antt =====
-- What one step of fetching does to a request's state: rows are only added behind those that are
-- unread. The steps on the state itself, and the local worker.
use cmpe275_enterprise_apps.Common.{
  ℕ, zero, suc, ◌≤◌, String, Bool, not, List, [], ◌∷◌, ◌++◌, Option, none, some, ◌≡◌, refl, ap, ◌∙◌,
  sym, if◌then◌else◌, arith, length, drop, append-nil, append_assoc, All, Bool-cases, Option-cases,
  subst, some_inj, inl, inr,
}
use cmpe275_enterprise_apps.Model.Trip.{TaxiTrip}
use cmpe275_enterprise_apps.Model.Request.{QueryRequest}
use cmpe275_enterprise_apps.Model.Result.{QueryResult, merge}
use cmpe275_enterprise_apps.RequestState.{
  RequestState, WorkerProgress, merge_partial_result, get_worker_progress, set_worker_progress,
  update_worker_progress,
}
use cmpe275_enterprise_apps.RequestState.Invariant.{
  IsValid, IsAligned, merge_partial_result-IsValid, get_worker_progress-IsValid,
  set_worker_progress-IsValid, update_worker_progress-IsValid,
}
use cmpe275_enterprise_apps.Coordinator.Delivery.{unread}
use cmpe275_enterprise_apps.Coordinator.Fetch.{
  fetch_from_worker, fetch_local_execute_chunk, fetch_from, local_request,
}
use cmpe275_enterprise_apps.Coordinator.{
  Coordinator, Worker, first_selected, is_selected, local_worker, save, choose_adaptive_chunk_size,
}

-- `s'` is a valid state of the same request, with `xs` added behind the unread rows of `s`.
pub record Adds (xs : List TaxiTrip) (s s' : RequestState) : Type 0 where
  pub rows : unread s' ≡ unread s ++ xs
  pub query_id : s'.query_id ≡ s.query_id
  pub request : s'.request ≡ s.request
  pub valid : IsValid s'

-- The same, with any rows added.
pub record Extends (s s' : RequestState) : Type 0 where
  pub new_rows : List TaxiTrip
  pub rows : unread s' ≡ unread s ++ new_rows
  pub query_id : s'.query_id ≡ s.query_id
  pub request : s'.request ≡ s.request
  pub valid : IsValid s'

pub Adds-Extends : {xs : List TaxiTrip} {s s' : RequestState} → Adds xs s s' → Extends s s'
Adds-Extends {xs} a = record {
  new_rows = xs;
  rows = a.rows;
  query_id = a.query_id;
  request = a.request;
  valid = a.valid;
}

pub Adds-refl : {s : RequestState} → IsValid s → Adds [] s s
Adds-refl v = record { rows = sym (append-nil _); query_id = refl; request = refl; valid = v }

pub Adds-trans :
    {xs ys : List TaxiTrip} {s t u : RequestState} → Adds xs s t → Adds ys t u → Adds (xs ++ ys) s u
Adds-trans {xs} {ys} {s} {t} {u} p q = record {
  rows = q.rows ∙ ap (λ (r : List TaxiTrip). r ++ ys) p.rows ∙ append_assoc (unread s) xs ys;
  query_id = q.query_id ∙ p.query_id;
  request = q.request ∙ p.request;
  valid = q.valid;
}

-- A step that adds nothing, behind one that does.
pub Adds-after :
    {xs : List TaxiTrip} {s t u : RequestState} → Adds xs s t → Adds [] t u → Adds xs s u
Adds-after {xs} {s} {t} {u} p q =
    subst (λ (r : List TaxiTrip). Adds r s u) (append-nil xs) (Adds-trans p q)

pub drop-append {ℓ} :
    {A : Type ℓ} (n : ℕ) (xs ys : List A) → n ≤ length xs → drop n (xs ++ ys) ≡ drop n xs ++ ys
drop-append zero xs ys h = refl
drop-append (suc n) [] ys h = elim h [ ]
drop-append (suc n) (x ∷ xs) ys h = drop-append n xs ys (omega arith)

merge_partial_result-Adds :
    {s : RequestState} (p : QueryResult)
    → IsAligned p
    → IsValid s
    → Adds p.matched_trips s (merge_partial_result p s)
unfolding merge
merge_partial_result-Adds {s} p a v = record {
  rows = drop-append s.next_unread_index s.aggregated_result.matched_trips p.matched_trips v.cursor;
  query_id = refl;
  request = refl;
  valid = merge_partial_result-IsValid p a v;
}

-- A change that leaves the rows, the cursor and the request alone.
pub Adds-same :
    {s t : RequestState}
    → unread t ≡ unread s
    → t.query_id ≡ s.query_id
    → t.request ≡ s.request
    → IsValid t
    → Adds [] s t
Adds-same e q r v = record { rows = e ∙ sym (append-nil _); query_id = q; request = r; valid = v }

pub get_worker_progress-Adds :
    {s : RequestState} (id : String) → IsValid s → Adds [] s (get_worker_progress id s).1
unfolding get_worker_progress
get_worker_progress-Adds id v = Adds-same refl refl refl (get_worker_progress-IsValid id v)

pub set_worker_progress-Adds :
    {s : RequestState} (id : String) (p : WorkerProgress)
    → p.completed ≡ not p.has_more
    → IsValid s
    → Adds [] s (set_worker_progress id p s)
unfolding set_worker_progress
set_worker_progress-Adds id p h v = Adds-same refl refl refl (set_worker_progress-IsValid id p h v)

update_worker_progress-Adds :
    {s : RequestState} (id : String) (row : ℕ) (more : Bool)
    → IsValid s
    → Adds [] s (update_worker_progress id row more s)
unfolding update_worker_progress
update_worker_progress-Adds id row more v =
    Adds-same refl refl refl (update_worker_progress-IsValid id row more v)

-- A partial result is merged, and the worker's cursor moved.
pub take_in-Adds :
    {s : RequestState} (p : QueryResult) (id : String) (row : ℕ) (more : Bool)
    → IsAligned p
    → IsValid s
    → Adds p.matched_trips s (update_worker_progress id row more (merge_partial_result p s))
take_in-Adds p id row more a v =
    let merged = merge_partial_result-Adds p a v in
    Adds-after merged (update_worker_progress-Adds id row more merged.valid)

abbrev pub WorkerIsAligned : Worker → Type 0
WorkerIsAligned w = (r : QueryRequest) → IsAligned (w.run_execute r)

-- The rows of the next window of a worker, as `fetchLocalExecuteChunk` asks for it in state `s`:
-- none if it is completed.
abbrev window_rows : Worker → ℕ → Coordinator → RequestState → List TaxiTrip
window_rows w n c s =
    let (p, s1) = get_worker_progress w.node_id s in
    let local =
      w.run_execute (local_request p (choose_adaptive_chunk_size n (save s1 c)) s1.request) in
    if p.completed then [] else local.matched_trips

abbrev rows_from : Option Worker → ℕ → Coordinator → RequestState → List TaxiTrip
rows_from none n c s = []
rows_from (some w) n c s = window_rows w n c s

-- The rows of the next window of this node's own worker.
unfoldable pub own_rows : ℕ → Coordinator → RequestState → List TaxiTrip
own_rows n c s = rows_from (local_worker s.request c) n c s

fetch_from_worker-Adds :
    (w : Worker) (n : ℕ) (c : Coordinator) {s : RequestState}
    → WorkerIsAligned w
    → IsValid s
    → Adds (window_rows w n c s) s (fetch_from_worker w n c s).1
unfolding fetch_from_worker
fetch_from_worker-Adds w n c {s} a v =
    let opened = get_worker_progress-Adds w.node_id v in
    elim (Bool-cases (get_worker_progress w.node_id s).0.completed) [
      | inl over ↦ rw over opened
      | inr ahead ↦ rw ahead (Adds-trans opened (take_in-Adds _ w.node_id _ _ (a _) opened.valid))
    ]

first_selected-All {κ} :
    (P : Worker → Type κ) (target : Option String) (self : String) (workers : List Worker)
    {w : Worker}
    → All P workers
    → first_selected target self workers ≡ some w
    → P w
unfolding first_selected
first_selected-All P target self [] a e = cc
first_selected-All P target self (x ∷ workers) a e = elim (Bool-cases (is_selected target self x)) [
  | inl h ↦ subst P (some_inj (rw h at e)) a.0
  | inr h ↦ first_selected-All P target self workers a.1 (rw h at e)
]

pub fetch_local_execute_chunk-Adds :
    (n : ℕ) (c : Coordinator) {s : RequestState}
    → All WorkerIsAligned c.workers
    → IsValid s
    → Adds (own_rows n c s) s (fetch_local_execute_chunk n c s).1
unfolding fetch_local_execute_chunk own_rows
fetch_local_execute_chunk-Adds n c {s} a v = elim (Option-cases (local_worker s.request c)) [
  | inl e ↦ rw (e, fetch_from) (Adds-refl v)
  | inr (w, e) ↦
      rw (e, fetch_from)
        (fetch_from_worker-Adds w n c
          (first_selected-All WorkerIsAligned s.request.target_node_id c.self_node_id c.workers a e)
          v)
]
