-- ===== src/Ingest/Balance.antt =====
-- Which worker gets the next shard.
use cmpe275_enterprise_apps.Common.{
  ℕ, ◌≤◌, ◌<◌, ◌==◌, String, str_eq, eq_iff, true, ◌&&◌, ◌||◌, List, [], ◌∷◌, Option, some, ◌≡◌,
  refl, ap, sym, ◌⊎◌, inl, inr, arith, ltb, if◌then◌else◌, add64, All, if_intro, subst, Bool-cases,
}
use cmpe275_enterprise_apps.Common.Dict.{find, put, find-put}
use cmpe275_enterprise_apps.Model.Request.{has_id}
use cmpe275_enterprise_apps.Ingest.{
  ShardAssignment, IngestQueue, IngestDispatcher, get_assigned_bytes, get_assigned_trips,
  select_from, max_size, select_least_loaded_worker, assign_next, assign_with, or_zero,
}

-- Worker `a` has at most the load of `b`: fewer bytes, or as many and no more trips.
abbrev pub IsLighter : IngestDispatcher → String → String → Type 0
IsLighter d a b =
    (get_assigned_bytes a d < get_assigned_bytes b d)
    ⊎ ((get_assigned_bytes a d ≡ get_assigned_bytes b d)
        × (get_assigned_trips a d ≤ get_assigned_trips b d))

IsLighter-refl : (d : IngestDispatcher) (a : String) → IsLighter d a a
IsLighter-refl d a = inr (refl, omega arith)

IsLighter-trans :
    (d : IngestDispatcher) (a b c : String) → IsLighter d a b → IsLighter d b c → IsLighter d a c
IsLighter-trans d a b c h k = ground (arith, h, k)

-- The loop keeps the best worker so far, or finds one at least as light.
record Selects (d : IngestDispatcher) (best : String) (ids : List String) (r : String)
    : Type 0 where
  member : (r ≡ best) ⊎ (has_id r ids ≡ true)
  lighter_best : IsLighter d r best
  lighter_all : All (IsLighter d r) ids

select_from-Selects :
    (d : IngestDispatcher) (ids : List String) (best : String)
    → Selects d best ids
        (select_from d ids best (get_assigned_bytes best d) (get_assigned_trips best d))
unfolding select_from has_id
select_from-Selects d [] best = record {
  member = inl refl;
  lighter_best = IsLighter-refl d best;
  lighter_all = tt;
}
select_from-Selects d (id ∷ ids) best =
    let lower =
      ltb (get_assigned_bytes id d) (get_assigned_bytes best d)
      || get_assigned_bytes id d == get_assigned_bytes best d
        && ltb (get_assigned_trips id d) (get_assigned_trips best d) in
    if_intro (Selects d best (id ∷ ids)) lower
      (λ is_lower.
        let v = select_from-Selects d ids id in
        let lighter : IsLighter d id best = ground (arith, is_lower) in
        let r = select_from d ids id (get_assigned_bytes id d) (get_assigned_trips id d) in
        record {
          member = inr (ground (arith, v.member, eq_iff id r));
          lighter_best = IsLighter-trans d r id best v.lighter_best lighter;
          lighter_all = (v.lighter_best, v.lighter_all);
        })
      (λ is_kept.
        let v = select_from-Selects d ids best in
        let lighter : IsLighter d best id = ground (arith, is_kept) in
        let r = select_from d ids best (get_assigned_bytes best d) (get_assigned_trips best d) in
        record {
          member = ground (arith, v.member, eq_iff id r);
          lighter_best = v.lighter_best;
          lighter_all = (IsLighter-trans d r best id v.lighter_best lighter, v.lighter_all);
        })

-- The loads are numbers of 64 bits.
abbrev pub HasLoad : IngestDispatcher → String → Type 0
HasLoad d id = (get_assigned_bytes id d ≤ max_size) × (get_assigned_trips id d ≤ max_size)

select_least_loaded_worker-Selects :
    (d : IngestDispatcher) (front : String) (workers : List String)
    → HasLoad d front
    → let r = select_least_loaded_worker front (front ∷ workers) d in
      (has_id r (front ∷ workers) ≡ true) × All (IsLighter d r) (front ∷ workers)
unfolding select_from has_id
select_least_loaded_worker-Selects d front workers h =
    let b = get_assigned_bytes front d in
    let t = get_assigned_trips front d in
    let v = select_from-Selects d workers front in
    let r = select_from d workers front b t in
    let found : (has_id r (front ∷ workers) ≡ true) × All (IsLighter d r) (front ∷ workers) =
      (ground (arith, v.member, eq_iff front r), (v.lighter_best, v.lighter_all)) in
    if_intro
      (λ (w : String). (has_id w (front ∷ workers) ≡ true) × All (IsLighter d w) (front ∷ workers))
      (ltb b max_size || b == max_size && ltb t max_size) (λ _. found)
      (λ is_max.
        let bytes : b ≡ max_size = ground (arith, is_max, h) in
        let trips : t ≡ max_size = ground (arith, is_max, h, bytes) in
        subst
          (λ (x : ℕ × ℕ).
            let w = select_from d workers front x.0 x.1 in
            (has_id w (front ∷ workers) ≡ true) × All (IsLighter d w) (front ∷ workers))
          (λ i. (bytes i, trips i)) found)

-- What the next shard of a queue comes to.
pub record Assigns (d : IngestDispatcher) (job : ShardAssignment) (jobs : List ShardAssignment)
    (r : Option ShardAssignment × IngestDispatcher × IngestQueue) : Type 0 where
  pub worker : String
  pub is_worker : has_id worker d.worker_node_ids ≡ true
  pub lightest : All (IsLighter d worker) d.worker_node_ids
  pub assigned : r.0 ≡ some (record job { node_id = worker })
  pub bytes :
      (id : String)
      → get_assigned_bytes id r.1 ≡ (
          if str_eq worker id
          then add64 (get_assigned_bytes id d) job.file_size_bytes
          else get_assigned_bytes id d)
  pub trips :
      (id : String)
      → get_assigned_trips id r.1 ≡ (
          if str_eq worker id
          then add64 (get_assigned_trips id d) job.trip_count
          else get_assigned_trips id d)
  pub rest : r.2.jobs ≡ jobs

put_load :
    (worker id : String) (n : ℕ) (loads : List (String × ℕ))
    → or_zero (find id (put worker (add64 (or_zero (find worker loads)) n) loads))
      ≡ (if str_eq worker id then add64 (or_zero (find id loads)) n else or_zero (find id loads))
put_load worker id n loads =
    rw (find-put worker id (add64 (or_zero (find worker loads)) n) loads)
      (elim (Bool-cases (str_eq worker id)) [
        | inr other ↦ rw other refl
        | inl same ↦
            rw same
              (ap (λ (w : String). add64 (or_zero (find w loads)) n) ((eq_iff worker id).0 same))
      ])

-- A dispatcher with workers, whose loads are numbers of 64 bits, gives the first shard of the queue to
-- a worker that has the fewest bytes, and among those with as many the fewest trips. The bytes and
-- trips of the shard go to the load of that worker and of no other, on 64 bits, and the shard
-- leaves the queue; the others stay in their order.
pub assign_next-Assigns :
    (d : IngestDispatcher) (front : String) (workers : List String) (job : ShardAssignment)
    (jobs : List ShardAssignment)
    → d.worker_node_ids ≡ front ∷ workers
    → All (HasLoad d) d.worker_node_ids
    → Assigns d job jobs (assign_next d (record { jobs = job ∷ jobs }))
unfolding assign_next get_assigned_bytes get_assigned_trips
assign_next-Assigns d front workers job jobs e h =
    let r = select_least_loaded_worker front d.worker_node_ids d in
    let (is_worker, lightest) : (has_id r d.worker_node_ids ≡ true)
        × All (IsLighter d r) d.worker_node_ids =
      subst
        (λ (ws : List String).
          let w = select_least_loaded_worker front ws d in
          (has_id w ws ≡ true) × All (IsLighter d w) ws)
        (sym e)
        (select_least_loaded_worker-Selects d front workers (subst (All (HasLoad d)) e h).0) in
    subst
      (λ (ws : List String). Assigns d job jobs (assign_with ws d (record { jobs = job ∷ jobs })))
      (sym e)
      (record {
        worker = r;
        is_worker = is_worker;
        lightest = lightest;
        assigned = refl;
        bytes = λ id. put_load r id job.file_size_bytes d.worker_assigned_bytes;
        trips = λ id. put_load r id job.trip_count d.worker_assigned_trips;
        rest = refl;
      })
