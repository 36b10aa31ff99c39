-- ===== src/Dataset.antt =====
-- basic/src/dataset/TaxiTripDataset.cpp with taxi/BufferedFileReader.cpp and the predicates of
-- query/: queries over CSV files that keep no rows. The file system and `std::sort` are parameters.
-- Profiling counters, which stay 0, are left out, and files raise no exceptions.
pub mod Predicates
pub mod Serial
pub mod Schedule
pub mod Collecting
pub mod Keeping
pub mod Batches
use cmpe275_enterprise_apps.Common.{
  ℕ, zero, suc, ◌+◌, ◌==◌, String, Bool, true, false, not, ◌&&◌, ◌||◌, List, [], ◌∷◌, ◌++◌, Option,
  none, some, leb, ltb, if◌then◌else◌, length, add64, map,
}
use cmpe275_enterprise_apps.Model.Trip.{TaxiTrip}
use cmpe275_enterprise_apps.Engine.{Bytes, is_empty}
use cmpe275_enterprise_apps.Csv.Row.{Conversions}
use cmpe275_enterprise_apps.TripCsv.Columns.{ColumnIndex, init_from_header}
use cmpe275_enterprise_apps.TripCsv.{parse}
use cmpe275_enterprise_apps.Dataset.Predicates.{Predicate}

pub record QueryResult : Type 0 where
  pub rows_scanned : ℕ
  pub rows_matched : ℕ
  pub rows_parse_failed : ℕ
  pub matched_trips : Option (List TaxiTrip)

abbrev pub no_result : QueryResult
no_result = record {
  rows_scanned = 0;
  rows_matched = 0;
  rows_parse_failed = 0;
  matched_trips = none;
}

-- An entry of a directory: its path, whether it is a regular file, and whether it ends in `.csv`.
pub record Entry : Type 0 where
  pub path : String
  pub is_regular_file : Bool
  pub is_csv : Bool

-- What `std::filesystem` and `std::ifstream` give: whether a path is a regular file, the lines of a
-- file that opens, cut by `std::getline`, and the entries of a directory.
pub record Files : Type 0 where
  pub is_regular_file : String → Bool
  pub lines : String → Option (List Bytes)
  pub directory : String → Option (List Entry)

-- What the loads of the stop flag give, by their number; a missing flag is never set.
abbrev pub StopFlag : Type 0
StopFlag = ℕ → Bool

abbrev pub never : StopFlag
never k = false

-- The trailing carriage return that `nextLine` drops.
unfoldable pub drop_return : Bytes → Bytes
drop_return [] = []
drop_return (c ∷ []) = if c == 13 then [] else c ∷ []
drop_return (c ∷ d ∷ cs) = c ∷ drop_return (d ∷ cs)

-- The lines that calls of `nextLine` give.
abbrev read_lines : Option (List Bytes) → Option (List Bytes)
read_lines none = none
read_lines (some lines) = some (map drop_return lines)

-- The sums over files.
abbrev pub add_result : QueryResult → QueryResult → QueryResult
add_result total r = record total {
  rows_scanned = add64 total.rows_scanned r.rows_scanned;
  rows_matched = add64 total.rows_matched r.rows_matched;
  rows_parse_failed = add64 total.rows_parse_failed r.rows_parse_failed;
}

module _ (lib : Conversions) (files : Files) (predicate : Predicate) where
  abbrev pub open_file : String → Option (List Bytes)
  open_file path = read_lines (files.lines path)

  -- A row that parses, or none, counted.
  abbrev pub counted : Option TaxiTrip → QueryResult → QueryResult
  counted none r = record r {
    rows_scanned = add64 r.rows_scanned 1;
    rows_parse_failed = add64 r.rows_parse_failed 1;
  }
  counted (some trip) r = record r {
    rows_scanned = add64 r.rows_scanned 1;
    rows_matched = if predicate trip then add64 r.rows_matched 1 else r.rows_matched;
  }

  -- One line of a file.
  unfoldable pub query_line : Option ColumnIndex → Bytes → QueryResult → QueryResult
  query_line idx line r = if is_empty line then r else counted (parse lib idx line) r

  -- The loop of `queryFile`: the result, and the number of loads of the flag.
  unfoldable pub query_lines :
      Option ColumnIndex → StopFlag → ℕ → List Bytes → QueryResult → QueryResult × ℕ
  query_lines idx stop k [] r = (r, k + 1)
  query_lines idx stop k (line ∷ lines) r =
      let rest = query_lines idx stop (k + 1) lines (query_line idx line r) in
      if stop k then (r, k + 1) else rest

  abbrev pub query_content : StopFlag → ℕ → Option (List Bytes) → QueryResult × ℕ
  query_content stop k none = (no_result, k)
  query_content stop k (some []) = (no_result, k)
  query_content stop k (some (header ∷ lines)) =
      query_lines (init_from_header header) stop k lines no_result

  unfoldable pub query_file : StopFlag → ℕ → String → QueryResult × ℕ
  query_file stop k path =
      if stop k then (no_result, k + 1) else query_content stop (k + 1) (open_file path)

  -- The loop of `queryFiles`.
  unfoldable pub query_each : StopFlag → ℕ → List String → QueryResult → QueryResult
  query_each stop k [] total = total
  query_each stop k (path ∷ paths) total =
      let (r, k') = query_file stop (k + 1) path in
      let skipped = query_each stop (k + 1) paths total in
      let rest = query_each stop k' paths (add_result total r) in
      if stop k then total else if not (files.is_regular_file path) then skipped else rest

  unfoldable pub query_files : StopFlag → List String → QueryResult
  query_files stop paths = query_each stop 0 paths no_result

  -- `queryFilesParallel` sums over the files in the order in which the threads come to them; each
  -- file has its own view of the flag.
  unfoldable pub query_parallel : List (StopFlag × String) → QueryResult → QueryResult
  query_parallel [] total = total
  query_parallel ((stop, path) ∷ schedule) total =
      let rest = query_parallel schedule (add_result total (query_file stop 1 path).0) in
      let skipped = query_parallel schedule total in if stop 0 then skipped else rest

  unfoldable pub query_files_parallel : List (StopFlag × String) → QueryResult
  query_files_parallel schedule = query_parallel schedule no_result

  -- The paths of a directory that the queries go through.
  unfoldable pub csv_files : List Entry → List String
  csv_files [] = []
  csv_files (e ∷ entries) =
      if not e.is_regular_file
      then csv_files entries
      else if e.is_csv
      then e.path ∷ csv_files entries
      else csv_files entries

  module _ (sort : List String → List String) where
    abbrev listed : (List String → QueryResult) → Option (List Entry) → QueryResult
    listed run none = no_result
    listed run (some entries) = run (sort (csv_files entries))

    abbrev query_dir : StopFlag → String → QueryResult
    query_dir stop path = listed (query_files stop) (files.directory path)

    -- `schedule` gives the files in the order of the threads.
    abbrev query_dir_parallel : (List String → List (StopFlag × String)) → String → QueryResult
    query_dir_parallel schedule path =
        listed (λ paths. query_files_parallel (schedule paths)) (files.directory path)
