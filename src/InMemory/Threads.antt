-- ===== src/InMemory/Threads.antt =====
-- `countOpenMP` and `executeOpenMP` of phase2/query.cpp and phase3/query_soa.cpp, which are one
-- algorithm over the places of a store: `p` is the test of a place, `val` what is kept of it, and
-- `z` what a new vector holds. OpenMP hands each thread its places (`parts`, one list for each of
-- `omp_get_max_threads()`). `executeOpenMP` has two parallel regions, and the places of a thread
-- need not be the same in both: it counts in `parts` and fills from `filling`. The second pass runs
-- the threads in any order, one place at a time (`schedule`). A write behind the end of the vector,
-- which C++ leaves undefined, is dropped.
use cmpe275_enterprise_apps.Common.{
  ℕ, zero, suc, ◌+◌, Bool, List, [], ◌∷◌, none, some, if◌then◌else◌, add64, replicate,
}
use cmpe275_enterprise_apps.InMemory.Record.{TaxiTripStore, Pointer, zero_record}
use cmpe275_enterprise_apps.InMemory.Columns.{TaxiTripStoreSoa}
use cmpe275_enterprise_apps.InMemory.Query.{TaxiTripQuerySpec, matches, matches_row, at, row_id}

-- What a thread has left to do, and where it writes next.
pub record Thread : Type 0 where
  pub rest : List ℕ
  pub pos : ℕ

abbrev pub set {ℓ} : {A : Type ℓ} → List A → ℕ → A → List A
set [] i v = []
set (x ∷ xs) zero v = v ∷ xs
set (x ∷ xs) (suc i) v = x ∷ set xs i v

-- The places of one thread that match.
unfoldable pub count_part : (ℕ → Bool) → List ℕ → ℕ
count_part p [] = 0
count_part p (i ∷ is) = let rest = count_part p is in if p i then rest + 1 else rest

-- The reduction over the threads.
unfoldable pub count_openmp : (ℕ → Bool) → List (List ℕ) → ℕ
count_openmp p [] = 0
count_openmp p (part ∷ parts) = add64 (count_part p part) (count_openmp p parts)

-- The threads at the start of the second pass: the prefix sums, from `total` on, of the counts of
-- the first pass.
unfoldable pub offsets : (ℕ → Bool) → ℕ → List (List ℕ) → List (List ℕ) → List Thread
offsets p total [] filling = []
offsets p total (part ∷ parts) [] = []
offsets p total (part ∷ parts) (share ∷ filling) =
    record { rest = share; pos = total } ∷ offsets p (total + count_part p part) parts filling

unfoldable pub total_of : (ℕ → Bool) → List (List ℕ) → ℕ
total_of p [] = 0
total_of p (part ∷ parts) = count_part p part + total_of p parts

module _ {A : Type 0} (z : A) (val : ℕ → A) (p : ℕ → Bool) where
  -- One place of one thread.
  abbrev pub fill : List ℕ → ℕ → List A → Thread × List A
  fill [] pos out = (record { rest = []; pos = pos }, out)
  fill (i ∷ is) pos out =
      if p i
      then (record { rest = is; pos = pos + 1 }, set out pos (val i))
      else (record { rest = is; pos = pos }, out)

  unfoldable pub turn : List Thread → List A → ℕ → List Thread × List A
  turn [] out tid = ([], out)
  turn (t ∷ ts) out zero = let (t', out') = fill t.rest t.pos out in (t' ∷ ts, out')
  turn (t ∷ ts) out (suc tid) = let (ts', out') = turn ts out tid in (t ∷ ts', out')

  unfoldable pub run : List Thread → List A → List ℕ → List Thread × List A
  run ts out [] = (ts, out)
  run ts out (tid ∷ schedule) = let (ts', out') = turn ts out tid in run ts' out' schedule

  unfoldable pub execute_openmp : List (List ℕ) → List (List ℕ) → List ℕ → List A
  execute_openmp parts filling schedule =
      (run (offsets p 0 parts filling) (replicate (total_of p parts) z) schedule).1

-- Phase 2.
abbrev pub matches_at : TaxiTripStore → TaxiTripQuerySpec → ℕ → Bool
matches_at store q i = matches (at zero_record store i) q

abbrev pub count_openmp_records : TaxiTripStore → TaxiTripQuerySpec → List (List ℕ) → ℕ
count_openmp_records store q parts = count_openmp (matches_at store q) parts

abbrev pub execute_openmp_records :
    TaxiTripStore → TaxiTripQuerySpec → List (List ℕ) → List (List ℕ) → List ℕ → List Pointer
execute_openmp_records store q parts filling schedule =
    execute_openmp none some (matches_at store q) parts filling schedule

-- Phase 3.
abbrev pub count_openmp_soa : TaxiTripStoreSoa → TaxiTripQuerySpec → List (List ℕ) → ℕ
count_openmp_soa s q parts = count_openmp (λ i. matches_row s i q) parts

abbrev pub execute_openmp_soa :
    TaxiTripStoreSoa → TaxiTripQuerySpec → List (List ℕ) → List (List ℕ) → List ℕ → List ℕ
execute_openmp_soa s q parts filling schedule =
    execute_openmp 0 row_id (λ i. matches_row s i q) parts filling schedule
