-- ===== src/InMemory/Query.antt =====
-- taxiTripQuerySpec.hpp and .cpp, phase2/query.cpp, phase3/query_soa.cpp: queries with one thread.
use cmpe275_enterprise_apps.Common.{
  ℕ, zero, suc, ◌+◌, ◌%◌, ◌^◌, Bool, true, false, not, ◌&&◌, List, [], ◌∷◌, Option, none, some, ℤ,
  pos, ltb_ℤ, Float32, is_nan, ltb_float, if◌then◌else◌,
}
use cmpe275_enterprise_apps.InMemory.Record.{TaxiTripRecord, TaxiTripStore, Pointer}
use cmpe275_enterprise_apps.InMemory.Columns.{TaxiTripStoreSoa, size}

-- `RangeI64`, `RangeI32` and `RangeF`.
pub record Range (A : Type 0) : Type 0 where
  pub lo : A
  pub hi : A

pub record TaxiTripQuerySpec : Type 0 where
  pub pickup_range : Option (Range ℤ)
  pub dropoff_range : Option (Range ℤ)
  pub distance_range : Option (Range Float32)
  pub total_cents_range : Option (Range ℤ)
  pub tip_cents_range : Option (Range ℤ)
  pub payment_type : Option ℤ

abbrev pub leb_ℤ : ℤ → ℤ → Bool
leb_ℤ a b = not (ltb_ℤ b a)

abbrev pub in_range_i64 : ℤ → Range ℤ → Bool
in_range_i64 v r = leb_ℤ r.lo v && ltb_ℤ v r.hi

abbrev pub in_range_i32 : ℤ → Range ℤ → Bool
in_range_i32 v r = leb_ℤ r.lo v && leb_ℤ v r.hi

-- a <= b; false if either is no number.
abbrev leb_float : Float32 → Float32 → Bool
leb_float a b = not (is_nan a) && not (is_nan b) && not (ltb_float b a)

abbrev pub in_range_f : Float32 → Range Float32 → Bool
in_range_f v r = leb_float r.lo v && leb_float v r.hi

abbrev pub is_payment_type : ℤ → ℤ → Bool
is_payment_type v p = leb_ℤ v p && leb_ℤ p v

-- A constraint that is not there holds.
abbrev pub meets : {A R : Type 0} → (A → R → Bool) → A → Option R → Bool
meets test v none = true
meets test v (some r) = test v r

-- `matches`, the same text in phase 2 and in `TaxiTripQueryEngine`.
unfoldable pub matches : TaxiTripRecord → TaxiTripQuerySpec → Bool
matches r q =
    if not (meets in_range_i64 r.pickup_datetime q.pickup_range)
    then false
    else if not (meets in_range_i64 r.dropoff_datetime q.dropoff_range)
    then false
    else if not (meets in_range_f r.trip_distance q.distance_range)
    then false
    else if not (meets in_range_i32 r.total_amount q.total_cents_range)
    then false
    else if not (meets in_range_i32 r.tip_amount q.tip_cents_range)
    then false
    else if not (meets is_payment_type r.payment_type q.payment_type)
    then false
    else true

unfoldable pub count_loop : TaxiTripQuerySpec → ℕ → TaxiTripStore → ℕ
count_loop q c [] = c
count_loop q c (r ∷ records) = count_loop q (if matches r q then c + 1 else c) records

unfoldable pub count_serial : TaxiTripStore → TaxiTripQuerySpec → ℕ
count_serial store q = count_loop q 0 store

-- The loop of `executeSerial`, at place `i`.
unfoldable pub execute_loop : TaxiTripQuerySpec → ℕ → TaxiTripStore → List Pointer
execute_loop q i [] = []
execute_loop q i (r ∷ records) =
    let rest = execute_loop q (i + 1) records in if matches r q then some i ∷ rest else rest

unfoldable pub execute_serial : TaxiTripStore → TaxiTripQuerySpec → List Pointer
execute_serial store q = execute_loop q 0 store

-- A column at a place. The code looks only where the column goes; further on, this gives `d`.
abbrev pub at {ℓ} : {A : Type ℓ} → A → List A → ℕ → A
at d [] i = d
at d (x ∷ xs) zero = x
at d (x ∷ xs) (suc i) = at d xs i

unfoldable pub matches_row : TaxiTripStoreSoa → ℕ → TaxiTripQuerySpec → Bool
matches_row s i q =
    if not (meets in_range_i64 (at (pos 0) s.pickup_datetime i) q.pickup_range)
    then false
    else if not (meets in_range_i64 (at (pos 0) s.dropoff_datetime i) q.dropoff_range)
    then false
    else if not (meets in_range_f (at 0 s.trip_distance i) q.distance_range)
    then false
    else if not (meets in_range_i32 (at (pos 0) s.total_amount i) q.total_cents_range)
    then false
    else if not (meets in_range_i32 (at (pos 0) s.tip_amount i) q.tip_cents_range)
    then false
    else if not (meets is_payment_type (at (pos 0) s.payment_type i) q.payment_type)
    then false
    else true

-- The loops over the places from `i` on, `left` of them.
unfoldable pub count_rows : TaxiTripStoreSoa → TaxiTripQuerySpec → ℕ → ℕ → ℕ → ℕ
count_rows s q c i zero = c
count_rows s q c i (suc left) = count_rows s q (if matches_row s i q then c + 1 else c) (i + 1) left

unfoldable pub count_serial_soa : TaxiTripStoreSoa → TaxiTripQuerySpec → ℕ
count_serial_soa s q = count_rows s q 0 0 (size s)

-- A row ID is a `uint32_t`.
abbrev pub row_id : ℕ → ℕ
row_id i = i % 2 ^ 32

unfoldable pub execute_rows : TaxiTripStoreSoa → TaxiTripQuerySpec → ℕ → ℕ → List ℕ
execute_rows s q i zero = []
execute_rows s q i (suc left) =
    let rest = execute_rows s q (i + 1) left in if matches_row s i q then row_id i ∷ rest else rest

unfoldable pub execute_serial_soa : TaxiTripStoreSoa → TaxiTripQuerySpec → List ℕ
execute_serial_soa s q = execute_rows s q 0 (size s)

-- `queryPickupRange`, with both ends in the range.
unfoldable pub query_pickup_loop : ℤ → ℤ → ℕ → TaxiTripStore → List Pointer
query_pickup_loop start end i [] = []
query_pickup_loop start end i (r ∷ records) =
    let rest = query_pickup_loop start end (i + 1) records in
    if leb_ℤ start r.pickup_datetime && leb_ℤ r.pickup_datetime end then some i ∷ rest else rest

unfoldable pub query_pickup_range : ℤ → ℤ → TaxiTripStore → List Pointer
query_pickup_range start end store = query_pickup_loop start end 0 store
