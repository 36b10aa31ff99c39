-- ===== src/Dataset/Batches.antt =====
-- `queryFileBatchParallelOMP`: one thread fills a batch of lines, and all threads go through it. The
-- threads' sums do not depend on who takes which line, so that one thread stands for all. The flag
-- is never set here.
use cmpe275_enterprise_apps.Common.{
  ℕ, zero, suc, ◌+◌, ◌%◌, ◌^◌, ◌<◌, ◌≤◌, ltb, ◌==◌, String, Bool, true, false, List, [], ◌∷◌,
  Option, none, some, ◌≡◌, refl, ap, ◌∙◌, arith, if◌then◌else◌, length, All,
}
use cmpe275_enterprise_apps.Engine.{Bytes, is_empty}
use cmpe275_enterprise_apps.Csv.Row.{Conversions}
use cmpe275_enterprise_apps.TripCsv.Columns.{ColumnIndex, init_from_header}
use cmpe275_enterprise_apps.TripCsv.{parse}
use cmpe275_enterprise_apps.Dataset.Predicates.{Predicate}
use cmpe275_enterprise_apps.Dataset.Schedule.{query_lines-never}
use cmpe275_enterprise_apps.Dataset.{
  QueryResult, no_result, Files, never, counted, open_file, query_line, query_lines, query_content,
  query_file,
}

-- The loop that fills the batch: what it keeps, and the lines that are left. Each empty line takes
-- one of the `size` places, and is not kept.
unfoldable pub fill_batch : ℕ → List Bytes → List Bytes × List Bytes
fill_batch zero lines = ([], lines)
fill_batch (suc size) [] = ([], [])
fill_batch (suc size) (line ∷ lines) =
    let (batch, rest) = fill_batch size lines in
    if is_empty line then (batch, rest) else (line ∷ batch, rest)

length-fill_batch :
    (size : ℕ) (lines : List Bytes) → length (fill_batch size lines).1 ≤ length lines
unfolding fill_batch
length-fill_batch zero lines = omega arith
length-fill_batch (suc size) [] = omega arith
length-fill_batch (suc size) ([] ∷ lines) = omega (arith, length-fill_batch size lines)
length-fill_batch (suc size) ((x ∷ xs) ∷ lines) = omega (arith, length-fill_batch size lines)

All-fill_batch :
    (size : ℕ) (lines : List Bytes)
    → All (λ line. is_empty line ≡ false) lines
    → All (λ line. is_empty line ≡ false) (fill_batch size lines).1
unfolding fill_batch
All-fill_batch zero lines a = a
All-fill_batch (suc size) [] a = tt
All-fill_batch (suc size) ([] ∷ lines) a = All-fill_batch size lines a.1
All-fill_batch (suc size) ((x ∷ xs) ∷ lines) a = All-fill_batch size lines a.1

length-fill_batch_size : (size : ℕ) (lines : List Bytes) → length (fill_batch size lines).0 ≤ size
unfolding fill_batch
length-fill_batch_size zero lines = omega arith
length-fill_batch_size (suc size) [] = omega arith
length-fill_batch_size (suc size) ([] ∷ lines) = omega (arith, length-fill_batch_size size lines)
length-fill_batch_size (suc size) ((x ∷ xs) ∷ lines) =
    omega (arith, length-fill_batch_size size lines)

-- The places below `(int)n`, which keeps 32 bits and may be negative.
abbrev pub places_of : ℕ → ℕ
places_of n = let low = n % 2 ^ 32 in if ltb low (2 ^ 31) then low else 0

places_of_lem : (n : ℕ) → n < 2 ^ 31 → places_of n ≡ n
places_of_lem n small =
    let same : n % 2 ^ 32 ≡ n = omega arith in
    let positive : ltb n (2 ^ 31) ≡ true = ground arith in rw (same, positive) refl

module _ (lib : Conversions) (files : Files) (predicate : Predicate) where
  -- The loop over a batch, up to place `n`.
  unfoldable pub query_places : ℕ → Option ColumnIndex → List Bytes → QueryResult → QueryResult
  query_places zero idx batch r = r
  query_places (suc n) idx [] r = r
  query_places (suc n) idx (line ∷ batch) r =
      query_places n idx batch (counted lib files predicate (parse lib idx line) r)

  unfoldable pub query_batch : Option ColumnIndex → List Bytes → QueryResult → QueryResult
  query_batch idx batch r = query_places (places_of (length batch)) idx batch r

  abbrev is_nil : List Bytes → Bool
  is_nil [] = true
  is_nil (line ∷ lines) = false

  -- The loop over batches, which ends at the first one that is empty; `none` if `fuel` rounds do
  -- not do.
  unfoldable pub query_batches :
      ℕ → Option ColumnIndex → ℕ → List Bytes → QueryResult → Option QueryResult
  query_batches zero idx size lines r = none
  query_batches (suc fuel) idx size lines r =
      let (batch, lines') = fill_batch size lines in
      let rest = query_batches fuel idx size lines' (query_batch idx batch r) in
      if is_nil batch then some r else rest

  abbrev pub query_content_batches : ℕ → ℕ → Option (List Bytes) → Option QueryResult
  query_content_batches fuel size none = some no_result
  query_content_batches fuel size (some []) = some no_result
  query_content_batches fuel size (some (header ∷ lines)) =
      query_batches fuel (init_from_header header) size lines no_result

  abbrev pub batch_size_of : ℕ → ℕ
  batch_size_of size = if size == 0 then 50000 else size

  unfoldable pub query_file_batch_parallel : ℕ → String → ℕ → Option QueryResult
  query_file_batch_parallel fuel path size =
      query_content_batches fuel (batch_size_of size) (open_file lib files predicate path)

  -- The lines behind the header.
  abbrev pub body : Option (List Bytes) → List Bytes
  body none = []
  body (some []) = []
  body (some (header ∷ lines)) = lines

  -- Filling a batch and going through it is going through that many lines.
  fill_batch-query_lines :
      (idx : Option ColumnIndex) (k size : ℕ) (lines : List Bytes) (r : QueryResult)
      → let (batch, rest) = fill_batch size lines in
        (query_lines lib files predicate idx never k rest
          (query_places (length batch) idx batch r)).0
        ≡ (query_lines lib files predicate idx never k lines r).0
  unfolding fill_batch query_places query_lines query_line
  fill_batch-query_lines idx k zero lines r = refl
  fill_batch-query_lines idx k (suc size) [] r = refl
  fill_batch-query_lines idx k (suc size) ([] ∷ lines) r =
      fill_batch-query_lines idx k size lines r
      ∙ query_lines-never lib files predicate idx k (k + 1) lines r
  fill_batch-query_lines idx k (suc size) ((x ∷ xs) ∷ lines) r =
      let r' = counted lib files predicate (parse lib idx (x ∷ xs)) r in
      fill_batch-query_lines idx k size lines r'
      ∙ query_lines-never lib files predicate idx k (k + 1) lines r'

  query_batch-query_places :
      (idx : Option ColumnIndex) (batch : List Bytes) (r : QueryResult)
      → length batch < 2 ^ 31
      → query_batch idx batch r ≡ query_places (length batch) idx batch r
  unfolding query_batch
  query_batch-query_places idx batch r small =
      ap (λ (n : ℕ). query_places n idx batch r) (places_of_lem (length batch) small)

  query_batches-query_lines :
      (fuel : ℕ) (idx : Option ColumnIndex) (size k : ℕ) (lines : List Bytes) (r : QueryResult)
      → 0 < size
      → size < 2 ^ 31
      → All (λ line. is_empty line ≡ false) lines
      → length lines < fuel
      → query_batches fuel idx size lines r
        ≡ some (query_lines lib files predicate idx never k lines r).0
  unfolding query_batches fill_batch query_lines
  query_batches-query_lines zero idx size k lines r pos small a h = elim h [ ]
  query_batches-query_lines (suc fuel) idx zero k lines r pos small a h = absurd (omega arith)
  query_batches-query_lines (suc fuel) idx (suc size) k [] r pos small a h = refl
  query_batches-query_lines (suc fuel) idx (suc size) k ([] ∷ lines) r pos small a h = cc
  query_batches-query_lines (suc fuel) idx (suc size) k ((x ∷ xs) ∷ lines) r pos small a h =
      let (batch, rest) = fill_batch size lines in
      let short : suc (length batch) < 2 ^ 31 =
        omega (arith, small, length-fill_batch_size size lines) in
      query_batches-query_lines fuel idx (suc size) k rest (query_batch idx ((x ∷ xs) ∷ batch) r)
        pos small (All-fill_batch size lines a.1) (omega (arith, h, length-fill_batch size lines))
      ∙ ap (λ (r' : QueryResult). some (query_lines lib files predicate idx never k rest r').0)
          (query_batch-query_places idx ((x ∷ xs) ∷ batch) r short)
      ∙ ap some (fill_batch-query_lines idx k (suc size) ((x ∷ xs) ∷ lines) r)

  -- Where nothing stops it and no line behind the header is empty, the query by batches ends, within
  -- one batch more than there are lines, and counts what `queryFile` counts, whatever the size of
  -- the batches is below 2 ^ 31.
  pub query_file_batch_parallel-query_file :
      (fuel : ℕ) (path : String) (size k : ℕ)
      → size < 2 ^ 31
      → All (λ line. is_empty line ≡ false) (body (open_file lib files predicate path))
      → length (body (open_file lib files predicate path)) < fuel
      → query_file_batch_parallel fuel path size
        ≡ some (query_file lib files predicate never k path).0
  unfolding query_file_batch_parallel query_file
  query_file_batch_parallel-query_file fuel path size k small a h =
      content (open_file lib files predicate path) a h
    where
      content :
          (lines : Option (List Bytes))
          → All (λ line. is_empty line ≡ false) (body lines)
          → length (body lines) < fuel
          → query_content_batches fuel (batch_size_of size) lines
            ≡ some (query_content lib files predicate never (k + 1) lines).0
      content none a h = refl
      content (some []) a h = refl
      content (some (header ∷ lines)) a h =
          query_batches-query_lines fuel (init_from_header header) (batch_size_of size) (k + 1)
            lines no_result (ground arith) (ground arith) a h
