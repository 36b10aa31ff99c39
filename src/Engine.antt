-- ===== src/Engine.antt =====
-- basic/src/query/LocalQueryEngine.cpp. The engine reads files line by line and parses each line
-- with a `RowParser`. What is only printed is left out.
pub mod Rows
pub mod Window
pub mod Paging
pub mod Counting
use cmpe275_enterprise_apps.Common.{
  ℕ, ◌+◌, ◌-◌, ◌^◌, String, Bool, true, false, not, ◌||◌, ◌&&◌, List, [], ◌∷◌, ◌++◌, Option, none,
  some, ltb, leb, ◌==◌, if◌then◌else◌, ℤ, pos_part, neg_part, ltb_ℤ, Float32, ltb_float, add64,
}
use cmpe275_enterprise_apps.Model.Trip.{TaxiTrip, ParsedPartitionRow, to_taxi_trip}
use cmpe275_enterprise_apps.Model.Request.{Range, QueryRequest}
use cmpe275_enterprise_apps.Model.Result.{LocalQueryResult, empty_local_result}
use cmpe275_enterprise_apps.Store.{FileMetadata, PartitionStore, is_valid}

abbrev pub Bytes : Type 0
Bytes = List ℕ

-- The file system: `none` where a file cannot be opened, else the lines that `std::getline` yields.
abbrev pub FileSystem : Type 0
FileSystem = String → Option (List Bytes)

-- What the engine needs of a parser: a header is accepted or refused, and so is each row under it.
pub record RowParser : Type 1 where
  pub Header : Type 0
  pub init_from_header : Bytes → Option Header
  pub parse_row : Header → Bytes → Option ParsedPartitionRow

-- Whether a value misses a range that is asked for.
abbrev outside : {A : Type 0} → (A → A → Bool) → Option (Range A) → A → Bool
outside lt none v = false
outside lt (some r) v = lt v r.lo || lt r.hi v

abbrev differs : Option ℤ → ℤ → Bool
differs none v = false
differs (some w) v = not (pos_part v == pos_part w && neg_part v == neg_part w)

unfoldable pub matches_row : ParsedPartitionRow → QueryRequest → Bool
matches_row row request =
    if outside ltb_ℤ request.pickup_range row.pickup_datetime
    then false
    else if outside ltb_ℤ request.dropoff_range row.dropoff_datetime
    then false
    else if outside ltb_float request.trip_distance_range row.trip_distance
    then false
    else if outside ltb_ℤ request.tip_amount_range row.tip_amount_cents
    then false
    else if outside ltb_ℤ request.total_amount_range row.total_amount_cents
    then false
    else if differs request.payment_type row.payment_type
    then false
    else true

-- The local variables of `execute`.
pub record Scan : Type 0 where
  pub local_row_id : ℕ
  pub scanned_this_chunk : ℕ
  pub emitted : ℕ
  pub result : LocalQueryResult

abbrev pub new_scan : Scan
new_scan = record {
  local_row_id = 0;
  scanned_this_chunk = 0;
  emitted = 0;
  result = empty_local_result;
}

-- The loops go on, or `execute` returns from within them.
pub data Outcome : Type 0 where
  going : Scan → Outcome
  returned : LocalQueryResult → Outcome

infixl 5 ◌>>=◌
abbrev pub ◌>>=◌ : Outcome → (Scan → Outcome) → Outcome
going s >>= f = f s
returned r >>= f = returned r

abbrev pub chunk_size_of : QueryRequest → ℕ
chunk_size_of request = if request.chunk_size == 0 then 2 ^ 64 - 1 else request.chunk_size

abbrev pub scan_row_budget_of : QueryRequest → ℕ
scan_row_budget_of request = if request.scan_row_budget == 0 then 50000 else request.scan_row_budget

abbrev pub next_row : Scan → Scan
next_row s = record s { local_row_id = s.local_row_id + 1 }

-- The result at a return from within the loops (`true`) or behind them (`false`).
abbrev pub close : Bool → Scan → LocalQueryResult
close has_more s = record (s.result) {
  rows_emitted = s.emitted;
  next_start_row = s.local_row_id;
  has_more = has_more;
}

-- `++scannedThisChunk; ++result.rowsScanned`.
abbrev pub scanned : Scan → Scan
scanned s = record s {
  scanned_this_chunk = s.scanned_this_chunk + 1;
  result = record (s.result) { rows_scanned = add64 s.result.rows_scanned 1 };
}

-- A row that matches: it is emitted, and the call returns where the chunk is full.
unfoldable pub emit : QueryRequest → ParsedPartitionRow → Scan → Outcome
emit request row s =
    let s' = record s {
      local_row_id = s.local_row_id + 1;
      emitted = s.emitted + 1;
      result = record (s.result) {
        rows_matched = add64 s.result.rows_matched 1;
        matched_local_row_ids = s.result.matched_local_row_ids ++ s.local_row_id ∷ [];
        matched_trips = s.result.matched_trips ++ to_taxi_trip row ∷ [];
      };
    } in
    if leb (chunk_size_of request) s'.emitted then returned (close true s') else going s'

unfoldable pub take_row : QueryRequest → Option ParsedPartitionRow → Scan → Outcome
take_row request none s = going (next_row s)
take_row request (some row) s =
    if not (matches_row row request) then going (next_row s) else emit request row s

-- The body of the loop over lines, behind the test for an empty line.
unfoldable pub scan_row : QueryRequest → Option ParsedPartitionRow → Scan → Outcome
scan_row request row s =
    if ltb s.local_row_id request.start_row
    then going (next_row s)
    else if leb (scan_row_budget_of request) s.scanned_this_chunk
    then returned (close true s)
    else take_row request row (scanned s)

abbrev pub is_empty : Bytes → Bool
is_empty [] = true
is_empty (c ∷ cs) = false

-- Behind the loops: `execute` returns what the loops returned, or the last chunk.
abbrev pub finish : Outcome → LocalQueryResult
finish (returned r) = r
finish (going s) = close false s

pub record Counts : Type 0 where
  pub rows_scanned : ℕ
  pub rows_matched : ℕ

-- `count` on one row behind the test for an empty line.
unfoldable pub count_row : QueryRequest → Option ParsedPartitionRow → Counts → Counts
count_row request none c = record c { rows_scanned = add64 c.rows_scanned 1 }
count_row request (some row) c =
    if not (matches_row row request)
    then record c { rows_scanned = add64 c.rows_scanned 1 }
    else record { rows_scanned = add64 c.rows_scanned 1; rows_matched = add64 c.rows_matched 1 }

module _ (parser : RowParser) (fs : FileSystem) where
  open parser use {Header, init_from_header, parse_row}

  unfoldable pub scan_lines : QueryRequest → Header → List Bytes → Scan → Outcome
  scan_lines request h [] s = going s
  scan_lines request h (line ∷ lines) s =
      (if is_empty line then going s else scan_row request (parse_row h line) s) >>= λ s'.
      scan_lines request h lines s'

  abbrev pub scan_header : QueryRequest → Option Header → List Bytes → Scan → Outcome
  scan_header request none lines s = going s
  scan_header request (some h) lines s = scan_lines request h lines s

  abbrev pub scan_file : QueryRequest → Option (List Bytes) → Scan → Outcome
  scan_file request none s = going s
  scan_file request (some []) s = going s
  scan_file request (some (header ∷ lines)) s =
      scan_header request (init_from_header header) lines s

  unfoldable pub scan_files : QueryRequest → List FileMetadata → Scan → Outcome
  scan_files request [] s = going s
  scan_files request (f ∷ files) s =
      scan_file request (fs f.file_path) s >>= λ s'. scan_files request files s'

  unfoldable pub execute : PartitionStore → QueryRequest → LocalQueryResult
  execute store request =
      if not (is_valid store)
      then empty_local_result
      else finish (scan_files request store.files new_scan)

  unfoldable pub count_lines : QueryRequest → Header → List Bytes → Counts → Counts
  count_lines request h [] c = c
  count_lines request h (line ∷ lines) c =
      count_lines request h lines
        (if is_empty line then c else count_row request (parse_row h line) c)

  abbrev pub count_header : QueryRequest → Option Header → List Bytes → Counts → Counts
  count_header request none lines c = c
  count_header request (some h) lines c = count_lines request h lines c

  abbrev pub count_file : QueryRequest → Option (List Bytes) → Counts → Counts
  count_file request none c = c
  count_file request (some []) c = c
  count_file request (some (header ∷ lines)) c =
      count_header request (init_from_header header) lines c

  unfoldable pub count_files : QueryRequest → List FileMetadata → Counts → Counts
  count_files request [] c = c
  count_files request (f ∷ files) c =
      count_files request files (count_file request (fs f.file_path) c)

  unfoldable pub count : PartitionStore → QueryRequest → LocalQueryResult
  count store request =
      if not (is_valid store)
      then empty_local_result
      else let c =
          count_files request store.files (record { rows_scanned = 0; rows_matched = 0 }) in
        record empty_local_result { rows_scanned = c.rows_scanned; rows_matched = c.rows_matched }
