-- ===== src/Coordinator/Extension.antt =====
-- What a round of fetching does to a request's state, with the child nodes: rows are only added
-- behind those that are unread.
use cmpe275_enterprise_apps.Common.{
  ℕ, String, Bool, true, false, not, ◌&&◌, ◌||◌, List, [], ◌∷◌, ◌≡◌, refl, sym, arith, leb, leb→le,
  if◌then◌else◌, if_intro, ◌++◌, ◌∙◌, ◌⊎◌, inl, inr, subst, append-nil, append_assoc, length,
  length-replicate, All,
}
use cmpe275_enterprise_apps.Model.Trip.{TaxiTrip}
use cmpe275_enterprise_apps.Model.Request.{has_visited_node, QueryRequest}
use cmpe275_enterprise_apps.RequestState.{
  RequestState, WorkerProgress, get_worker_progress, clear_aggregated_rows, advance_fetch_round,
  should_fetch_remote_first, all_workers_completed, completed, update_worker_progress,
  merge_partial_result,
}
use cmpe275_enterprise_apps.RequestState.Invariant.{
  advance_fetch_round-IsValid, IsValid, IsAligned, get_worker_progress-IsConsistent,
  clear_aggregated_rows-IsValid, set_state-IsValid,
}
use cmpe275_enterprise_apps.Coordinator.Delivery.{drop_all}
use cmpe275_enterprise_apps.Coordinator.Fetch.{
  RemoteClient, Fetched, child_request, gave_up, remote_result, fetch_submitted, fetch_active,
  fetch_child, fetch_children, fetch_remote_execute_chunks, fetch_next_execute_chunks, remote_first,
  local_first, drop_read_rows, complete_if_done,
}
use cmpe275_enterprise_apps.Coordinator.{
  Coordinator, own_children, has_overlay, save, choose_adaptive_chunk_size,
}
use cmpe275_enterprise_apps.Coordinator.Updates.{
  Adds, Adds-refl, Adds-trans, Adds-after, Adds-same, Adds-Extends, own_rows, Extends,
  WorkerIsAligned, get_worker_progress-Adds, set_worker_progress-Adds, take_in-Adds,
  fetch_local_execute_chunk-Adds,
}

remote_result-IsAligned : (id : String) (f : Fetched) → IsAligned (remote_result id f)
unfolding remote_result
remote_result-IsAligned id f = ground (arith, length-replicate (length f.trips) id)

-- The rows of a reply, if there is one.
abbrev pub handed : Fetched → List TaxiTrip
handed f = if f.received then f.trips else []

handed_nothing : (f : Fetched) → not f.received ≡ true → handed f ≡ []
handed_nothing f e = ground arith

handed_trips : (f : Fetched) → not f.received ≡ false → handed f ≡ f.trips
handed_trips f e = ground arith

Adds-remote_result :
    (id : String) (f : Fetched) (row : ℕ) (more : Bool) {s : RequestState}
    → IsValid s
    → Adds f.trips s
        (update_worker_progress id row more (merge_partial_result (remote_result id f) s))
unfolding remote_result
Adds-remote_result id f row more v =
    take_in-Adds (remote_result id f) id row more
      (unfold remote_result in remote_result-IsAligned id f) v

-- Calls of a remote client that lead from world `w` to another one; the index is what the child
-- nodes hand over on the way.
pub data Calls {W : Type 0} (client : RemoteClient W) (w : W) : List TaxiTrip → W → Type 0 where
  no_call : Calls client w [] w
  submitting :
      {xs : List TaxiTrip} {w' : W} (id : String) (r : QueryRequest) (parent : String)
      → Calls client w xs w'
      → Calls client w xs (client.submit_sub_query id r parent w').1
  fetching :
      {xs : List TaxiTrip} {w' : W} (id request_id : String) (n : ℕ)
      → Calls client w xs w'
      → Calls client w
          (xs ++ handed (client.fetch_sub_chunk id request_id n w').0)
          (client.fetch_sub_chunk id request_id n w').1

Calls-trans :
    {W : Type 0} {client : RemoteClient W} {w w1 w2 : W} {xs ys : List TaxiTrip}
    → Calls client w xs w1
    → Calls client w1 ys w2
    → Calls client w (xs ++ ys) w2
Calls-trans {client} {w} {w1} {xs = xs} p no_call =
    subst (λ (zs : List TaxiTrip). Calls client w zs w1) (sym (append-nil xs)) p
Calls-trans p (submitting id r parent q) = submitting id r parent (Calls-trans p q)
Calls-trans {client} {w} {xs = xs} p (fetching {xs = ys} {w'} id request_id n q) =
    subst (λ (zs : List TaxiTrip). Calls client w zs (client.fetch_sub_chunk id request_id n w').1)
      (append_assoc xs ys (handed (client.fetch_sub_chunk id request_id n w').0))
      (fetching id request_id n (Calls-trans p q))

-- A round of fetching from state `s` and world `w`: what the children hand over in the calls of the
-- round, and the window of this node's own worker, in either order.
pub record IsRound {W : Type 0} (client : RemoteClient W) (n : ℕ) (c : Coordinator)
    (s : RequestState) (w : W) (new_rows : List TaxiTrip) (w' : W) : Type 0 where
  pub from_children : List TaxiTrip
  pub calls : Calls client w from_children w'
  -- The state in which the own worker is asked.
  pub turn : RequestState
  pub turn_request : turn.request ≡ s.request
  pub order :
      (new_rows ≡ from_children ++ own_rows n c turn)
      ⊎ (new_rows ≡ own_rows n c turn ++ from_children)

module _ {W : Type 0} (client : RemoteClient W) (n : ℕ) (c : Coordinator) where
  -- What the fetch functions return from state `s` and world `w`: the rows that the children hand
  -- over are added to the state.
  abbrev Fetches : RequestState → W → Bool × RequestState × W → Type 0
  Fetches s w r = (xs : List TaxiTrip) × Adds xs s r.1 × Calls client w xs r.2

  fetch_submitted-Fetches :
      (id : String) (p : WorkerProgress) {s : RequestState} (w : W)
      → IsValid s
      → Fetches s w (fetch_submitted client id p n c (s, w))
  unfolding fetch_submitted
  fetch_submitted-Fetches id p {s} w v =
      let size = choose_adaptive_chunk_size n (save s c) in
      let (f, w1) = client.fetch_sub_chunk id p.remote_request_id size w in
      let called : Calls client w (handed f) w1 = fetching id p.remote_request_id size no_call in
      let counted = λ (xs : List TaxiTrip).
        λ (e : handed f ≡ xs). subst (λ (ys : List TaxiTrip). Calls client w ys w1) e called in
      if_intro (Fetches s w) (not f.received)
        (λ lost.
          ([], set_worker_progress-Adds id (gave_up p) refl v, counted [] (handed_nothing f lost)))
        (λ come. (f.trips, Adds-remote_result id f _ _ v, counted f.trips (handed_trips f come)))

  fetch_active-Fetches :
      (id : String) (p : WorkerProgress) {s : RequestState} (w : W)
      → p.completed ≡ not p.has_more
      → IsValid s
      → Fetches s w (fetch_active client id p n c (s, w))
  unfolding fetch_active
  fetch_active-Fetches id p {s} w k v =
      let child = child_request (choose_adaptive_chunk_size n (save s c)) c s.request in
      let (r, w1) = client.submit_sub_query id child s.query_id w in
      let called : Calls client w [] w1 = submitting id child s.query_id no_call in
      let p1 = record p { remote_request_id = r.remote_request_id } in
      let p2 = record p1 { submitted = true } in
      let opened = set_worker_progress-Adds id p2 k v in
      if_intro (Fetches s w) p.submitted (λ _. fetch_submitted-Fetches id p w v)
        λ _.
          if_intro (Fetches s w) (not r.accepted)
            (λ _. ([], set_worker_progress-Adds id (gave_up p1) refl v, called))
            (λ _.
              let (xs, added, calls) = fetch_submitted-Fetches id p2 w1 opened.valid in
              (xs, Adds-trans opened added, Calls-trans called calls))

  fetch_child-Fetches :
      (id : String) {s : RequestState} (w : W)
      → IsValid s
      → Fetches s w (fetch_child client id n c (s, w))
  unfolding fetch_child
  fetch_child-Fetches id {s} w v =
      let opened = get_worker_progress-Adds id v in
      let p = (get_worker_progress id s).0 in
      if_intro (Fetches s w) (has_visited_node s.request id) (λ _. ([], Adds-refl v, no_call))
        λ _.
          if_intro (Fetches s w) p.completed (λ _. ([], opened, no_call))
            λ _.
              let (xs, added, calls) =
                fetch_active-Fetches id p w (get_worker_progress-IsConsistent id v) opened.valid in
              (xs, Adds-trans opened added, calls)

  fetch_children-Fetches :
      (children : List String) (any : Bool) {s : RequestState} (w : W)
      → IsValid s
      → Fetches s w (fetch_children client children n c any (s, w))
  unfolding fetch_children
  fetch_children-Fetches [] any w v = ([], Adds-refl v, no_call)
  fetch_children-Fetches (id ∷ children) any {s} w v =
      let (rows, s1, w1) = fetch_child client id n c (s, w) in
      let (xs, first, called) = fetch_child-Fetches id w v in
      let (ys, more, calls) = fetch_children-Fetches children (any || rows) w1 first.valid in
      (xs ++ ys, Adds-trans first more, Calls-trans called calls)

  fetch_remote_execute_chunks-Fetches :
      {s : RequestState} (w : W)
      → IsValid s
      → Fetches s w (fetch_remote_execute_chunks client n c (s, w))
  unfolding fetch_remote_execute_chunks
  fetch_remote_execute_chunks-Fetches {s} w v =
      if_intro (Fetches s w) (has_overlay c.overlay && c.has_remote_client)
        (λ _. fetch_children-Fetches (own_children c) false w v) (λ _. ([], Adds-refl v, no_call))

  drop_read_rows-Adds : {s : RequestState} → IsValid s → Adds [] s (drop_read_rows s)
  unfolding clear_aggregated_rows
  drop_read_rows-Adds {s} v =
      if_intro (Adds [] s) (leb (length s.aggregated_result.matched_trips) s.next_unread_index)
        (λ read.
          Adds-same
            (sym (drop_all s.next_unread_index s.aggregated_result.matched_trips (leb→le _ _ read)))
            refl refl (clear_aggregated_rows-IsValid v))
        (λ _. Adds-refl v)

  finish_round-Adds :
      {s : RequestState} → IsValid s → Adds [] s (complete_if_done (advance_fetch_round s))
  finish_round-Adds {s} v =
      if_intro (Adds [] s) (all_workers_completed (advance_fetch_round s))
        (λ _.
          Adds-same refl refl refl (set_state-IsValid completed (advance_fetch_round-IsValid v)))
        (λ _. Adds-same refl refl refl (advance_fetch_round-IsValid v))

  -- What both orders return from state `s` and world `w`.
  abbrev Rounds : RequestState → W → Bool × RequestState × W → Type 0
  Rounds s w r = (xs : List TaxiTrip) × Adds xs s r.1 × IsRound client n c s w xs r.2

  remote_first-Rounds :
      {s : RequestState} (w : W)
      → All WorkerIsAligned c.workers
      → IsValid s
      → Rounds s w (remote_first client n c (s, w))
  remote_first-Rounds {s} w a v =
      let (xs, remote, calls) = fetch_remote_execute_chunks-Fetches w v in
      let s1 = (fetch_remote_execute_chunks client n c (s, w)).1 in
      (
        xs ++ own_rows n c s1,
        Adds-trans remote (fetch_local_execute_chunk-Adds n c a remote.valid),
        record {
          from_children = xs;
          calls = calls;
          turn = s1;
          turn_request = remote.request;
          order = inl refl;
        },
      )

  local_first-Rounds :
      {s : RequestState} (w : W)
      → All WorkerIsAligned c.workers
      → IsValid s
      → Rounds s w (local_first client n c (s, w))
  local_first-Rounds {s} w a v =
      let own = fetch_local_execute_chunk-Adds n c a v in
      let (xs, remote, calls) = fetch_remote_execute_chunks-Fetches w own.valid in
      (
        own_rows n c s ++ xs,
        Adds-trans own remote,
        record {
          from_children = xs;
          calls = calls;
          turn = s;
          turn_request = refl;
          order = inr refl;
        },
      )

  pub fetch_next_execute_chunks-Rounds :
      {s : RequestState} (w : W)
      → All WorkerIsAligned c.workers
      → IsValid s
      → Rounds s w (fetch_next_execute_chunks client n c (s, w))
  unfolding fetch_next_execute_chunks
  fetch_next_execute_chunks-Rounds {s} w a v =
      let s0 = drop_read_rows s in
      let dropped = drop_read_rows-Adds v in
      let round =
        if should_fetch_remote_first s0
        then remote_first client n c (s0, w)
        else local_first client n c (s0, w) in
      let fetched : Rounds s0 w round =
        if_intro (Rounds s0 w) (should_fetch_remote_first s0)
          (λ _. remote_first-Rounds w a dropped.valid)
          (λ _. local_first-Rounds w a dropped.valid) in
      let (xs, added, r) = fetched in
      (
        xs,
        Adds-trans dropped (Adds-after added (finish_round-Adds added.valid)),
        record {
          from_children = r.from_children;
          calls = r.calls;
          turn = r.turn;
          turn_request = r.turn_request ∙ dropped.request;
          order = r.order;
        },
      )

  -- One round of fetching, in either order: whatever the children reply, failures included, the
  -- state stays valid and the unread rows stay in front of the new ones.
  pub fetch_next_execute_chunks-Extends :
      {s : RequestState} (w : W)
      → All WorkerIsAligned c.workers
      → IsValid s
      → Extends s (fetch_next_execute_chunks client n c (s, w)).1
  fetch_next_execute_chunks-Extends w a v = Adds-Extends (fetch_next_execute_chunks-Rounds w a v).1
