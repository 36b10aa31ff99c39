-- ===== src/Coordinator/Serving.antt =====
-- `fetchChunkForRpc` as a whole: the chunk size, and one request served out of the table.
use cmpe275_enterprise_apps.Common.{
  ℕ, leb, min, ◌==◌, ◌||◌, ◌≤◌, String, str_eq, Bool, true, false, not, ◌&&◌, List, [], ◌++◌, none,
  some, ◌≡◌, ◌≢◌, refl, ◌↔◌, arith, if◌then◌else◌, length, Option-cases, inl, inr, ◌⊎◌,
}
use cmpe275_enterprise_apps.Model.Trip.{TaxiTrip}
use cmpe275_enterprise_apps.Model.Request.{QueryType, count, execute}
use cmpe275_enterprise_apps.RequestState.{
  RequestState, QueryState, pending, in_progress, completed, cancelled, timed_out,
  all_workers_completed,
}
use cmpe275_enterprise_apps.Coordinator.Fetch.{RemoteClient, fetch_next_execute_chunks}
use cmpe275_enterprise_apps.Coordinator.Rpc.{
  RpcChunkResult, fetch_execute, fetch_chunk_for_rpc, answer, answer_found, has_unread, is_finished,
}
use cmpe275_enterprise_apps.Coordinator.Table.{IsWellFormed}
use cmpe275_enterprise_apps.Coordinator.Delivery.{unread}
use cmpe275_enterprise_apps.Coordinator.Extension.{IsRound}
use cmpe275_enterprise_apps.Coordinator.{
  Coordinator, find_request_state, choose_adaptive_chunk_size, get_coordinator_pressure_ratio,
  active_requests, cached_rows,
}

-- The chunk size goes with the load: 500 rows from eight running requests or 8000 cached rows on,
-- 5000 rows up to two running requests and 2000 cached rows, and 1000 rows in between; and it is
-- at most what the caller asks for, if the caller asks for a number of rows.
pub choose_adaptive_chunk_size_lem :
    (n : ℕ) (c : Coordinator)
    → let active = active_requests c.query_states in
      let rows = cached_rows c.query_states in
      let most : ℕ =
        if leb 8 active || leb 8000 rows
        then 500
        else if leb active 2 && leb rows 2000
        then 5000
        else 1000 in
      choose_adaptive_chunk_size n c ≡ (if n == 0 then most else min n most)
unfolding choose_adaptive_chunk_size get_coordinator_pressure_ratio
choose_adaptive_chunk_size_lem n c = ground arith

-- A request that can still be served: an EXECUTE query that was neither cancelled nor timed out.
pub record IsServed (s : RequestState) : Type 0 where
  pub is_execute : s.request.query_type ≡ execute
  pub not_cancelled : s.state ≢ cancelled
  pub not_timed_out : s.state ≢ timed_out

pub true_or_false : {b : Bool} → b ≡ true → b ≡ false → ⊥
true_or_false p q = cc

-- Where the rows come from that a call adds: there are none, and no other node is called, if rows
-- are unread or every worker is completed; else they are those of one round of fetching.
abbrev pub IsFetched :
    {W : Type 0} → RemoteClient W → ℕ → Coordinator → RequestState → W → List TaxiTrip → W → Type 0
IsFetched client n c s w new_rows w' =
    (((has_unread s || all_workers_completed s) ≡ true) × (new_rows ≡ []) × (w' ≡ w))
    ⊎ (((has_unread s || all_workers_completed s) ≡ false) × IsRound client n c s w new_rows w')

-- One call serves request `id`, in state `s`, out of `c` and world `w`, and leaves `c'` and `w'`.
pub record Serves {W : Type 0} (client : RemoteClient W) (id : String) (n : ℕ) (s : RequestState)
    (c : Coordinator) (w : W) (out : RpcChunkResult) (c' : Coordinator) (w' : W) : Type 0 where
  pub after : RequestState
  pub new_rows : List TaxiTrip
  pub table :
      (j : String)
      → find_request_state j c' ≡ (if str_eq id j then some after else find_request_state j c)
  pub rows : out.trips ++ unread after ≡ unread s ++ new_rows
  pub fetched : IsFetched client (choose_adaptive_chunk_size n c) c s w new_rows w'
  pub bound : length out.trips ≤ choose_adaptive_chunk_size n c
  pub labelled : length out.sources ≡ length out.trips
  pub done : out.done ≡ is_finished after
  pub well_formed : IsWellFormed c'

module _ {W : Type 0} (client : RemoteClient W) where
  -- The state that is served from, after a round if there is to be one.
  abbrev picked : ℕ → RequestState → Coordinator → W → RequestState × W
  picked n s c w =
      let (any, s1, w1) = fetch_next_execute_chunks client n c (s, w) in
      if not (has_unread s) && not (all_workers_completed s) then (s1, w1) else (s, w)

  pub answer_served :
      (q : QueryState) (t : QueryType) (id : String) (n : ℕ) (s : RequestState) (c : Coordinator)
      (w : W)
      → q ≢ cancelled
      → q ≢ timed_out
      → t ≡ execute
      → answer client q t id n s c w ≡ fetch_execute client id n s c w
  answer_served cancelled t id n s c w x y e = absurd (x refl)
  answer_served timed_out t id n s c w x y e = absurd (y refl)
  answer_served pending execute id n s c w x y e = refl
  answer_served in_progress execute id n s c w x y e = refl
  answer_served completed execute id n s c w x y e = refl
  answer_served _ count id n s c w x y e = cc

  answer_stopped :
      (q : QueryState) (t : QueryType) (id : String) (n : ℕ) (s : RequestState) (c : Coordinator)
      (w : W)
      → (q ≢ cancelled → q ≢ timed_out → t ≡ execute → ⊥)
      → let (out, c', w') = answer client q t id n s c w in
        (out.trips ≡ []) × (out.done ≡ true) × (c' ≡ c) × (w' ≡ w) × (out.found ≡ true)
  answer_stopped cancelled t id n s c w h = (refl, refl, refl, refl, refl)
  answer_stopped timed_out t id n s c w h = (refl, refl, refl, refl, refl)
  answer_stopped pending count id n s c w h = (refl, refl, refl, refl, refl)
  answer_stopped in_progress count id n s c w h = (refl, refl, refl, refl, refl)
  answer_stopped completed count id n s c w h = (refl, refl, refl, refl, refl)
  answer_stopped _ execute id n s c w h = absurd (h (λ x. cc) (λ x. cc) refl)

  -- A request that is not in the table, was cancelled, timed out, or is a COUNT is answered with no
  -- rows and `done`, and nothing changes: neither this coordinator nor the other nodes. Only the
  -- first is said not to be found.
  pub fetch_chunk_for_rpc_stopped :
      (id : String) (n : ℕ) (c : Coordinator) (w : W)
      → ((s : RequestState) → find_request_state id c ≡ some s → ¬ IsServed s)
      → let (out, c', w') = fetch_chunk_for_rpc client id n c w in
        (out.trips ≡ [])
        × (out.done ≡ true)
        × (c' ≡ c)
        × (w' ≡ w)
        × ((out.found ≡ false) ↔ (find_request_state id c ≡ none))
  unfolding fetch_chunk_for_rpc
  fetch_chunk_for_rpc_stopped id n c w h = elim (Option-cases (find_request_state id c)) [
    | inl e ↦ rw (e, answer_found) (refl, refl, refl, refl, ((λ _. refl), λ _. refl))
    | inr (s, e) ↦
        let (trips, done, same, quiet, found) =
          answer_stopped s.state s.request.query_type id n s c w
            (λ x y z. h s e (record { is_execute = z; not_cancelled = x; not_timed_out = y })) in
        rw (e, answer_found)
          (trips, done, same, quiet, ((λ x. absurd (true_or_false found x)), λ x. cc))
  ]
