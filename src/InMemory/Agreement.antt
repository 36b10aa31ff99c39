-- ===== src/InMemory/Agreement.antt =====
-- The queries on columns and those on several threads against the serial queries on records.
use cmpe275_enterprise_apps.Common.{
  ℕ, zero, suc, ◌+◌, ◌%◌, ◌≤◌, ◌^◌, Bool, List, [], ◌∷◌, ◌++◌, none, some, ◌≡◌, refl, sym, ap, ◌∙◌,
  fun_ext, arith, Bool-cases, inl, inr, length, length-append, length-map, map, append_assoc,
}
use cmpe275_enterprise_apps.InMemory.Record.{TaxiTripRecord, TaxiTripStore, Pointer, zero_record}
use cmpe275_enterprise_apps.InMemory.Columns.{TaxiTripStoreSoa, size}
use cmpe275_enterprise_apps.InMemory.Representation.{Represents}
use cmpe275_enterprise_apps.InMemory.Query.{
  TaxiTripQuerySpec, matches, matches_row, at, row_id, count_loop, count_serial, execute_loop,
  execute_serial, count_rows, count_serial_soa, execute_rows, execute_serial_soa,
}
use cmpe275_enterprise_apps.InMemory.Threads.{
  count_openmp, matches_at, count_openmp_records, execute_openmp_records, count_openmp_soa,
  execute_openmp_soa,
}
use cmpe275_enterprise_apps.InMemory.Filling.{found, found-append, length-found}
use cmpe275_enterprise_apps.InMemory.Interleaving.{
  concat, HasSameCounts, HasTurns, execute_openmp-found, length-execute_openmp,
}

-- The places from `i` on, `n` of them.
unfoldable pub places : ℕ → ℕ → List ℕ
places i zero = []
places i (suc n) = i ∷ places (i + 1) n

-- The row ID that stands for a pointer.
abbrev pub pointer_id : Pointer → ℕ
pointer_id none = 0
pointer_id (some i) = row_id i

at-append :
    (pre : TaxiTripStore) (r : TaxiTripRecord) (suf : TaxiTripStore)
    → at zero_record (pre ++ r ∷ suf) (length pre) ≡ r
at-append [] r suf = refl
at-append (x ∷ pre) r suf = at-append pre r suf

at-map :
    {B : Type 0} (f : TaxiTripRecord → B) (records : TaxiTripStore) (i : ℕ)
    → at (f zero_record) (map f records) i ≡ f (at zero_record records i)
at-map f [] i = refl
at-map f (r ∷ records) zero = refl
at-map f (r ∷ records) (suc i) = at-map f records i

found-map : (p : ℕ → Bool) (is : List ℕ) → found row_id p is ≡ map pointer_id (found some p is)
unfolding found
found-map p [] = refl
found-map p (i ∷ is) = elim (Bool-cases (p i)) [
  | inl hit ↦ rw hit (ap (◌∷◌ (row_id i)) (found-map p is))
  | inr miss ↦ rw miss (found-map p is)
]

-- Records.
module _ (q : TaxiTripQuerySpec) where
  execute_loop-found :
      (pre suf : TaxiTripStore)
      → execute_loop q (length pre) suf
        ≡ found some (matches_at (pre ++ suf) q) (places (length pre) (length suf))
  unfolding execute_loop found places
  execute_loop-found pre [] = refl
  execute_loop-found pre (r ∷ suf) =
      let here = at-append pre r suf in
      let more : length (pre ++ r ∷ []) ≡ length pre + 1 = length-append pre (r ∷ []) in
      let same = append_assoc pre (r ∷ []) suf in
      let rest : execute_loop q (length pre + 1) suf
          ≡ found some (matches_at (pre ++ r ∷ suf) q) (places (length pre + 1) (length suf)) =
        rw (more, same) at (execute_loop-found (pre ++ r ∷ []) suf) in
      elim (Bool-cases (matches r q)) [
        | inl hit ↦ rw (here, hit) (ap (◌∷◌ (some (length pre))) rest)
        | inr miss ↦ rw (here, miss) rest
      ]

  execute_serial-found :
      (store : TaxiTripStore)
      → execute_serial store q ≡ found some (matches_at store q) (places 0 (length store))
  unfolding execute_serial
  execute_serial-found store = execute_loop-found [] store

  count_loop-execute_loop :
      (c i : ℕ) (records : TaxiTripStore)
      → count_loop q c records ≡ c + length (execute_loop q i records)
  unfolding count_loop execute_loop
  count_loop-execute_loop c i [] = omega arith
  count_loop-execute_loop c i (r ∷ records) = elim (Bool-cases (matches r q)) [
    | inl hit ↦ rw hit (omega (arith, count_loop-execute_loop (c + 1) (i + 1) records))
    | inr miss ↦ rw miss (count_loop-execute_loop c (i + 1) records)
  ]

  pub count_serial-execute_serial :
      (records : TaxiTripStore) → count_serial records q ≡ length (execute_serial records q)
  unfolding count_serial execute_serial
  count_serial-execute_serial records = omega (arith, count_loop-execute_loop 0 0 records)

  count_loop-le : (c : ℕ) (records : TaxiTripStore) → count_loop q c records ≤ c + length records
  unfolding count_loop
  count_loop-le c [] = omega arith
  count_loop-le c (r ∷ records) = elim (Bool-cases (matches r q)) [
    | inl hit ↦ rw hit (omega (arith, count_loop-le (c + 1) records))
    | inr miss ↦ rw miss (omega (arith, count_loop-le c records))
  ]

  pub count_serial-le : (records : TaxiTripStore) → count_serial records q ≤ length records
  unfolding count_serial
  count_serial-le records = omega (arith, count_loop-le 0 records)

  count_rows-execute_rows :
      (s : TaxiTripStoreSoa) (c i n : ℕ) → count_rows s q c i n ≡ c + length (execute_rows s q i n)
  unfolding count_rows execute_rows
  count_rows-execute_rows s c i zero = omega arith
  count_rows-execute_rows s c i (suc n) = elim (Bool-cases (matches_row s i q)) [
    | inl hit ↦ rw hit (omega (arith, count_rows-execute_rows s (c + 1) (i + 1) n))
    | inr miss ↦ rw miss (count_rows-execute_rows s c (i + 1) n)
  ]

  execute_rows-found :
      (s : TaxiTripStoreSoa) (i n : ℕ)
      → execute_rows s q i n ≡ found row_id (λ k. matches_row s k q) (places i n)
  unfolding execute_rows found places
  execute_rows-found s i zero = refl
  execute_rows-found s i (suc n) = elim (Bool-cases (matches_row s i q)) [
    | inl hit ↦ rw hit (ap (◌∷◌ (row_id i)) (execute_rows-found s (i + 1) n))
    | inr miss ↦ rw miss (execute_rows-found s (i + 1) n)
  ]

  matches_row-matches_at :
      {s : TaxiTripStoreSoa} {records : TaxiTripStore}
      → Represents s records
      → (i : ℕ) → matches_row s i q ≡ matches_at records q i
  unfolding matches_row matches
  matches_row-matches_at {s} {records} h i =
      let pickup = at-map (λ r. r.pickup_datetime) records i in
      let dropoff = at-map (λ r. r.dropoff_datetime) records i in
      let distance = at-map (λ r. r.trip_distance) records i in
      let total = at-map (λ r. r.total_amount) records i in
      let tip = at-map (λ r. r.tip_amount) records i in
      let payment = at-map (λ r. r.payment_type) records i in
      rw
        (
          h.pickup_datetime, h.dropoff_datetime, h.trip_distance, h.total_amount, h.tip_amount,
          h.payment_type, pickup, dropoff, distance, total, tip, payment,
        )
        refl

  pub size-length :
      {s : TaxiTripStoreSoa} {records : TaxiTripStore}
      → Represents s records
      → size s ≡ length records
  size-length {records} h =
      ap length h.pickup_datetime ∙ length-map (λ (r : TaxiTripRecord). r.pickup_datetime) records

  found_rows :
      {s : TaxiTripStoreSoa} {records : TaxiTripStore}
      → Represents s records
      → (is : List ℕ)
      → found row_id (λ i. matches_row s i q) is
        ≡ map pointer_id (found some (matches_at records q) is)
  found_rows {records} h is =
      ap (λ (p : ℕ → Bool). found row_id p is) (fun_ext (matches_row-matches_at h))
      ∙ found-map (matches_at records q) is

  count_openmp-found :
      {A : Type 0} (val : ℕ → A) (p : ℕ → Bool) (parts : List (List ℕ))
      → count_openmp p parts ≡ length (found val p (concat parts)) % 2 ^ 64
  unfolding count_openmp concat found
  count_openmp-found val p [] = refl
  count_openmp-found val p (part ∷ parts) =
      let both = ap length (found-append val p part (concat parts)) in
      let n = length-append (found val p part) (found val p (concat parts)) in
      omega (arith, both, n, length-found val p part, count_openmp-found val p parts)

  -- On a store of columns that stands for records, the query on columns counts and finds the same
  -- as the query on records: the row IDs are the places of the records, on 32 bits.
  pub serial_soa-serial :
      (s : TaxiTripStoreSoa) (records : TaxiTripStore)
      → Represents s records
      → (count_serial_soa s q ≡ count_serial records q)
        × (execute_serial_soa s q ≡ map pointer_id (execute_serial records q))
  unfolding count_serial_soa execute_serial_soa
  serial_soa-serial s records h =
      let same : execute_rows s q 0 (size s) ≡ map pointer_id (execute_serial records q) =
        execute_rows-found s 0 (size s)
        ∙ ap (λ (n : ℕ). found row_id (λ k. matches_row s k q) (places 0 n)) (size-length h)
        ∙ found_rows h (places 0 (length records))
        ∙ ap (map pointer_id) (sym (execute_serial-found records)) in
      let counted : count_rows s q 0 0 (size s) ≡ count_serial records q = omega (
        arith,
        ap length same,
        count_rows-execute_rows s 0 0 (size s),
        length-map pointer_id (execute_serial records q),
        count_serial-execute_serial records,
      ) in
      (counted, same)

  -- Where each thread finds as many places in the pass that counts as in the pass that fills, OpenMP
  -- hands out the places of the store in their order in the pass that fills, and every thread comes
  -- to its end there, `executeOpenMP` finds what `executeSerial` finds, in the same order, whatever
  -- the order in which the threads run.
  pub execute_openmp_records-execute_serial :
      (store : TaxiTripStore) (parts filling : List (List ℕ)) (schedule : List ℕ)
      → HasSameCounts (matches_at store q) parts filling
      → concat filling ≡ places 0 (length store)
      → HasTurns 0 filling schedule
      → execute_openmp_records store q parts filling schedule ≡ execute_serial store q
  execute_openmp_records-execute_serial store parts filling schedule same all h =
      execute_openmp-found none some (matches_at store q) parts filling schedule same h
      ∙ ap (found some (matches_at store q)) all
      ∙ sym (execute_serial-found store)

  -- Where each thread finds as many places in the pass that counts as in the pass that fills, OpenMP
  -- hands out the places of a store of columns in their order in the pass that fills, and every
  -- thread comes to its end there, `executeOpenMP_SoA` returns the places, on 32 bits, of the records
  -- that `executeSerial` finds among those that the columns stand for, whatever the order in which
  -- the threads run.
  pub execute_openmp_soa-execute_serial :
      (s : TaxiTripStoreSoa) (records : TaxiTripStore) (parts filling : List (List ℕ))
      (schedule : List ℕ)
      → Represents s records
      → HasSameCounts (λ i. matches_row s i q) parts filling
      → concat filling ≡ places 0 (size s)
      → HasTurns 0 filling schedule
      → execute_openmp_soa s q parts filling schedule ≡ map pointer_id (execute_serial records q)
  unfolding execute_serial_soa
  execute_openmp_soa-execute_serial s records parts filling schedule r same all h =
      execute_openmp-found 0 row_id (λ i. matches_row s i q) parts filling schedule same h
      ∙ ap (found row_id (λ i. matches_row s i q)) all
      ∙ sym (execute_rows-found s 0 (size s))
      ∙ (serial_soa-serial s records r).1

  -- The counts over several threads are the serial count, on 64 bits.
  pub count_openmp_soa-count_serial :
      (s : TaxiTripStoreSoa) (records : TaxiTripStore) (parts : List (List ℕ))
      → Represents s records
      → concat parts ≡ places 0 (size s)
      → (count_openmp_soa s q parts ≡ count_serial records q % 2 ^ 64)
        × (count_openmp_records records q parts ≡ count_serial records q % 2 ^ 64)
  count_openmp_soa-count_serial s records parts r all =
      let kept = found some (matches_at records q) (concat parts) in
      let whole : length kept ≡ count_serial records q =
        ap (λ (is : List ℕ). length (found some (matches_at records q) is))
          (all ∙ ap (places 0) (size-length r))
        ∙ ap length (sym (execute_serial-found records))
        ∙ sym (count_serial-execute_serial records) in
      (
        count_openmp-found row_id (λ i. matches_row s i q) parts
            ∙ ap (λ (is : List ℕ). length is % 2 ^ 64) (found_rows r (concat parts))
            ∙ ap (λ (n : ℕ). n % 2 ^ 64) (length-map pointer_id kept ∙ whole),
        count_openmp-found some (matches_at records q) parts ∙ ap (λ (n : ℕ). n % 2 ^ 64) whole,
      )

  -- The vector over several threads is as long as that of the serial query.
  pub length-execute_openmp_soa :
      (s : TaxiTripStoreSoa) (parts filling : List (List ℕ)) (schedule : List ℕ)
      → concat parts ≡ places 0 (size s)
      → length (execute_openmp_soa s q parts filling schedule) ≡ length (execute_serial_soa s q)
  unfolding execute_serial_soa
  length-execute_openmp_soa s parts filling schedule all =
      length-execute_openmp 0 row_id (λ i. matches_row s i q) parts filling schedule
      ∙ ap (λ (is : List ℕ). length (found row_id (λ i. matches_row s i q) is)) all
      ∙ ap length (sym (execute_rows-found s 0 (size s)))
