-- ===== src/Engine/Rows.antt =====
-- The rows that a query sees, in order, and the loops of the engine as one loop over them.
use cmpe275_enterprise_apps.Common.{
  ℕ, List, [], ◌∷◌, ◌++◌, Option, none, some, ◌≡◌, refl, ap, ◌∙◌, sym, arith, if◌then◌else◌, ◌+◌,
  ◌≤◌, suc, length,
}
use cmpe275_enterprise_apps.Model.Trip.{TaxiTrip, ParsedPartitionRow, to_taxi_trip}
use cmpe275_enterprise_apps.Model.Request.{QueryRequest}
use cmpe275_enterprise_apps.Store.{FileMetadata}
use cmpe275_enterprise_apps.Engine.{
  Bytes, FileSystem, RowParser, Scan, Outcome, going, returned, ◌>>=◌, scan_row, matches_row,
  is_empty, scan_lines, scan_file, scan_files, Counts, count_row, count_lines, count_file,
  count_files, scan_header, count_header,
}

-- What a line parses to, or `none` for a line that is refused.
abbrev pub Row : Type 0
Row = Option ParsedPartitionRow

-- The trips that match, in row order.
abbrev pub trips_of : QueryRequest → List Row → List TaxiTrip
trips_of request [] = []
trips_of request (none ∷ rows) = trips_of request rows
trips_of request (some row ∷ rows) =
    if matches_row row request
    then to_taxi_trip row ∷ trips_of request rows
    else trips_of request rows

-- The positions of the rows that match, counted from `first`.
abbrev pub ids_of : QueryRequest → ℕ → List Row → List ℕ
ids_of request first [] = []
ids_of request first (none ∷ rows) = ids_of request (first + 1) rows
ids_of request first (some row ∷ rows) =
    if matches_row row request
    then first ∷ ids_of request (first + 1) rows
    else ids_of request (first + 1) rows

pub trips_of-append :
    (request : QueryRequest) (xs ys : List Row)
    → trips_of request (xs ++ ys) ≡ trips_of request xs ++ trips_of request ys
trips_of-append request [] ys = refl
trips_of-append request (none ∷ xs) ys = trips_of-append request xs ys
trips_of-append request (some row ∷ xs) ys = ground (arith, trips_of-append request xs ys)

pub ids_of-append :
    (request : QueryRequest) (first : ℕ) (xs ys : List Row)
    → ids_of request first (xs ++ ys)
      ≡ ids_of request first xs ++ ids_of request (first + length xs) ys
ids_of-append request first [] ys = let e : first + 0 ≡ first = omega arith in rw e
ids_of-append request first (none ∷ xs) ys =
    let e : first + suc (length xs) ≡ first + 1 + length xs = omega arith in
    rw e (ids_of-append request (first + 1) xs ys)
ids_of-append request first (some row ∷ xs) ys =
    let e : first + suc (length xs) ≡ first + 1 + length xs = omega arith in
    rw e (ground (arith, ids_of-append request (first + 1) xs ys))

pub length-trips_of :
    (request : QueryRequest) (rows : List Row) → length (trips_of request rows) ≤ length rows
length-trips_of request [] = omega arith
length-trips_of request (none ∷ rows) = omega (arith, length-trips_of request rows)
length-trips_of request (some row ∷ rows) = ground (arith, length-trips_of request rows)

-- Two requests with the same filter.
pub trips_of-same :
    (r q : QueryRequest) (rows : List Row)
    → ((row : ParsedPartitionRow) → matches_row row r ≡ matches_row row q)
    → trips_of r rows ≡ trips_of q rows
trips_of-same r q [] h = refl
trips_of-same r q (none ∷ rows) h = trips_of-same r q rows h
trips_of-same r q (some row ∷ rows) h = λ i.
    if h row i then to_taxi_trip row ∷ trips_of-same r q rows h i else trips_of-same r q rows h i

-- The row that a call starts at is no part of the filter.
pub trips_of-start_row :
    (request : QueryRequest) (k : ℕ) (rows : List Row)
    → trips_of (record request { start_row = k }) rows ≡ trips_of request rows
unfolding matches_row
trips_of-start_row request k rows =
    trips_of-same (record request { start_row = k }) request rows (λ row. refl)

pub ids_of-start_row :
    (request : QueryRequest) (k first : ℕ) (rows : List Row)
    → ids_of (record request { start_row = k }) first rows ≡ ids_of request first rows
unfolding matches_row
ids_of-start_row request k first [] = refl
ids_of-start_row request k first (none ∷ rows) = ids_of-start_row request k (first + 1) rows
ids_of-start_row request k first (some row ∷ rows) =
    ap (λ (is : List ℕ). if matches_row row request then first ∷ is else is)
      (ids_of-start_row request k (first + 1) rows)

-- One loop over rows.
abbrev pub scan_rows : QueryRequest → List Row → Scan → Outcome
scan_rows request [] s = going s
scan_rows request (row ∷ rows) s = scan_row request row s >>= λ s'. scan_rows request rows s'

>>=-assoc : (o : Outcome) (f g : Scan → Outcome) → (o >>= f >>= g) ≡ (o >>= λ s. f s >>= g)
>>=-assoc (going s) f g = refl
>>=-assoc (returned r) f g = refl

scan_rows-append :
    (request : QueryRequest) (xs ys : List Row) (s : Scan)
    → scan_rows request (xs ++ ys) s ≡ (scan_rows request xs s >>= λ s'. scan_rows request ys s')
scan_rows-append request [] ys s = refl
scan_rows-append request (row ∷ xs) ys s =
    ap (λ (f : Scan → Outcome). scan_row request row s >>= f)
      (λ i s'. scan_rows-append request xs ys s' i)
    ∙ sym (>>=-assoc (scan_row request row s) _ _)

abbrev pub count_rows : QueryRequest → List Row → Counts → Counts
count_rows request [] c = c
count_rows request (row ∷ rows) c = count_rows request rows (count_row request row c)

count_rows-append :
    (request : QueryRequest) (xs ys : List Row) (c : Counts)
    → count_rows request (xs ++ ys) c ≡ count_rows request ys (count_rows request xs c)
count_rows-append request [] ys c = refl
count_rows-append request (row ∷ xs) ys c =
    count_rows-append request xs ys (count_row request row c)

module _ (parser : RowParser) (fs : FileSystem) where
  open parser use {Header, init_from_header, parse_row}

  abbrev rows_of_lines : Header → List Bytes → List Row
  rows_of_lines h [] = []
  rows_of_lines h (line ∷ lines) =
      if is_empty line then rows_of_lines h lines else parse_row h line ∷ rows_of_lines h lines

  abbrev rows_of_header : Option Header → List Bytes → List Row
  rows_of_header none lines = []
  rows_of_header (some h) lines = rows_of_lines h lines

  abbrev rows_of_file : Option (List Bytes) → List Row
  rows_of_file none = []
  rows_of_file (some []) = []
  rows_of_file (some (header ∷ lines)) = rows_of_header (init_from_header header) lines

  -- Every row of the files that open and have a good header. Empty lines are no rows.
  abbrev pub rows_of : List FileMetadata → List Row
  rows_of [] = []
  rows_of (f ∷ files) = rows_of_file (fs f.file_path) ++ rows_of files

  scan_lines-scan_rows :
      (request : QueryRequest) (h : Header) (lines : List Bytes) (s : Scan)
      → scan_lines parser fs request h lines s ≡ scan_rows request (rows_of_lines h lines) s
  unfolding scan_lines
  scan_lines-scan_rows request h [] s = refl
  scan_lines-scan_rows request h ([] ∷ lines) s = scan_lines-scan_rows request h lines s
  scan_lines-scan_rows request h ((c ∷ cs) ∷ lines) s =
      ap (λ (f : Scan → Outcome). scan_row request (parse_row h (c ∷ cs)) s >>= f)
        (λ i s'. scan_lines-scan_rows request h lines s' i)

  scan_header-scan_rows :
      (request : QueryRequest) (header : Option Header) (lines : List Bytes) (s : Scan)
      → scan_header parser fs request header lines s
        ≡ scan_rows request (rows_of_header header lines) s
  scan_header-scan_rows request none lines s = refl
  scan_header-scan_rows request (some h) lines s = scan_lines-scan_rows request h lines s

  scan_file-scan_rows :
      (request : QueryRequest) (content : Option (List Bytes)) (s : Scan)
      → scan_file parser fs request content s ≡ scan_rows request (rows_of_file content) s
  scan_file-scan_rows request none s = refl
  scan_file-scan_rows request (some []) s = refl
  scan_file-scan_rows request (some (header ∷ lines)) s =
      scan_header-scan_rows request (init_from_header header) lines s

  -- The loops over files and lines are one loop over the rows.
  pub scan_files-scan_rows :
      (request : QueryRequest) (files : List FileMetadata) (s : Scan)
      → scan_files parser fs request files s ≡ scan_rows request (rows_of files) s
  unfolding scan_files
  scan_files-scan_rows request [] s = refl
  scan_files-scan_rows request (f ∷ files) s =
      ap (λ (o : Outcome). o >>= λ s'. scan_files parser fs request files s')
        (scan_file-scan_rows request (fs f.file_path) s)
      ∙ ap (λ (g : Scan → Outcome). scan_rows request (rows_of_file (fs f.file_path)) s >>= g)
          (λ i s'. scan_files-scan_rows request files s' i)
      ∙ sym (scan_rows-append request (rows_of_file (fs f.file_path)) (rows_of files) s)

  count_lines-count_rows :
      (request : QueryRequest) (h : Header) (lines : List Bytes) (c : Counts)
      → count_lines parser fs request h lines c ≡ count_rows request (rows_of_lines h lines) c
  unfolding count_lines
  count_lines-count_rows request h [] c = refl
  count_lines-count_rows request h ([] ∷ lines) c = count_lines-count_rows request h lines c
  count_lines-count_rows request h ((b ∷ bs) ∷ lines) c =
      count_lines-count_rows request h lines (count_row request (parse_row h (b ∷ bs)) c)

  count_header-count_rows :
      (request : QueryRequest) (header : Option Header) (lines : List Bytes) (c : Counts)
      → count_header parser fs request header lines c
        ≡ count_rows request (rows_of_header header lines) c
  count_header-count_rows request none lines c = refl
  count_header-count_rows request (some h) lines c = count_lines-count_rows request h lines c

  count_file-count_rows :
      (request : QueryRequest) (content : Option (List Bytes)) (c : Counts)
      → count_file parser fs request content c ≡ count_rows request (rows_of_file content) c
  count_file-count_rows request none c = refl
  count_file-count_rows request (some []) c = refl
  count_file-count_rows request (some (header ∷ lines)) c =
      count_header-count_rows request (init_from_header header) lines c

  pub count_files-count_rows :
      (request : QueryRequest) (files : List FileMetadata) (c : Counts)
      → count_files parser fs request files c ≡ count_rows request (rows_of files) c
  unfolding count_files
  count_files-count_rows request [] c = refl
  count_files-count_rows request (f ∷ files) c =
      count_files-count_rows request files (count_file parser fs request (fs f.file_path) c)
      ∙ ap (count_rows request (rows_of files)) (count_file-count_rows request (fs f.file_path) c)
      ∙ sym (count_rows-append request (rows_of_file (fs f.file_path)) (rows_of files) c)
