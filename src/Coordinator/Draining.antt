-- ===== src/Coordinator/Draining.antt =====
-- A client of one node without children: calls of `fetchChunkForRpc` until one is done.
use mathlib.Core.Option
use cmpe275_enterprise_apps.Common.{
  ℕ, zero, suc, ◌<◌, String, str_eq, eq_iff, Bool, true, List, [], ◌++◌, Option, none, some, ◌≡◌,
  ap, ◌∙◌, sym, inl, inr, arith, if◌then◌else◌, append-nil, Bool-cases,
}
use cmpe275_enterprise_apps.Model.Trip.{TaxiTrip}
use cmpe275_enterprise_apps.Model.Request.{QueryRequest, execute, has_id}
use cmpe275_enterprise_apps.RequestState.{RequestState, WorkerProgress}
use cmpe275_enterprise_apps.Engine.Rows.{Row}
use cmpe275_enterprise_apps.Coordinator.Fetch.{RemoteClient}
use cmpe275_enterprise_apps.Coordinator.Rpc.{fetch_execute, fetch_chunk_for_rpc, answer_found}
use cmpe275_enterprise_apps.Coordinator.Table.{ids, find_state-some, find_state-replace_state}
use cmpe275_enterprise_apps.Coordinator.Serving.{answer_served}
use cmpe275_enterprise_apps.Coordinator.Single.{IsPaged, IsRunning, left, work}
use cmpe275_enterprise_apps.Coordinator.Answering.{fetch_execute-Answers, finished_left}
use cmpe275_enterprise_apps.Coordinator.{
  Coordinator, Worker, own_children, local_worker, find_request_state, save,
}

module _ {World : Type 0} (client : RemoteClient World) where
  -- A client that fetches chunks until one is done; `none` if `fuel` calls do not do.
  unfoldable pub drain_rpc : ℕ → String → ℕ → Coordinator → World → Option (List TaxiTrip)
  drain_rpc zero id n c x = none
  drain_rpc (suc fuel) id n c x =
      let (out, c', x') = fetch_chunk_for_rpc client id n c x in
      let rest = drain_rpc fuel id n c' x' in
      if out.done then some out.trips else Option.map (λ ts. out.trips ++ ts) rest

  fetch_chunk_for_rpc_running :
      (base : QueryRequest) (rows : List Row) (w : Worker) (id : String) (n : ℕ) (c : Coordinator)
      (x : World) {s : RequestState} {p : WorkerProgress}
      → base.query_type ≡ execute
      → find_request_state id c ≡ some s
      → IsRunning base rows w id s p
      → fetch_chunk_for_rpc client id n c x ≡ fetch_execute client id n s c x
  unfolding fetch_chunk_for_rpc
  fetch_chunk_for_rpc_running base rows w id n c x {s} t e v =
      let same = ap (λ (r : QueryRequest). r.query_type) v.request ∙ t in
      ap (λ (o : Option RequestState). answer_found client o id n c x) e
      ∙ answer_served client s.state s.request.query_type id n s c x v.live.not_cancelled
          v.live.not_timed_out same

  -- The state that a call leaves is that of the table from then on.
  find_state-saved :
      (id : String) (c : Coordinator) {s s' : RequestState}
      → find_request_state id c ≡ some s
      → s'.query_id ≡ id
      → find_request_state id (save s' c) ≡ some s'
  find_state-saved id c {s} {s'} e same =
      let present : has_id s'.query_id (ids c.query_states) ≡ true =
        rw same (find_state-some id c.query_states e) in
      let found = find_state-replace_state s' id c.query_states present in
      let own : str_eq s'.query_id id ≡ true = (eq_iff s'.query_id id).1 same in
      found ∙ ap (λ (b : Bool). if b then some s' else find_request_state id c) own

  pub drain_rpc-left :
      (fuel : ℕ) (base : QueryRequest) (rows : List Row) (w : Worker) (id : String) (n : ℕ)
      (c : Coordinator) (x : World) {s : RequestState} {p : WorkerProgress}
      → base.query_type ≡ execute
      → own_children c ≡ []
      → local_worker base c ≡ some w
      → IsPaged base rows w
      → find_request_state id c ≡ some s
      → IsRunning base rows w id s p
      → work base rows w s p < fuel
      → drain_rpc fuel id n c x ≡ some (left base rows w s p)
  unfolding drain_rpc
  drain_rpc-left zero base rows w id n c x t leaf own paged e v h = elim h [ ]
  drain_rpc-left (suc fuel) base rows w id n c x {s} {p} t leaf own paged e v h =
      let (out, c', x') = fetch_execute client id n s c x in
      let a = fetch_execute-Answers client base rows w c leaf own paged n id x v in
      let q = a.served in
      rw (fetch_chunk_for_rpc_running base rows w id n c x t e v) (elim (Bool-cases out.done) [
        | inl d ↦
            let nothing =
              finished_left client base rows w c leaf own paged q.running (sym q.done ∙ d) in
            let all : out.trips ≡ left base rows w s p =
              sym (append-nil out.trips) ∙ ap (◌++◌ out.trips) (sym nothing) ∙ q.rows_left in
            rw d (ap some all)
        | inr d ↦
            let smaller : work base rows w a.state q.after < fuel = ground (arith, q.less, d, h) in
            let found = find_state-saved id c e q.running.query_id in
            let rest =
              drain_rpc-left fuel base rows w id n (save a.state c) x' t leaf own paged found
                q.running smaller in
            let same : drain_rpc fuel id n c' x' ≡ some (left base rows w a.state q.after) =
              ap (λ (k : Coordinator). drain_rpc fuel id n k x') a.saved ∙ rest in
            rw (d, same) (ap some q.rows_left)
      ])
