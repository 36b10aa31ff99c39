-- ===== src/Tests/Memory.antt =====
-- The in-memory program on two files: four rows, of which one is not valid.
use cmpe275_enterprise_apps.Common.{
  ℕ, ◌+◌, ◌*◌, ◌==◌, String, str_eq, true, false, List, [], ◌∷◌, ◌++◌, none, some, ◌≡◌, refl, arith,
  if◌then◌else◌, pos, negsuc, length, map, replicate,
}
use cmpe275_enterprise_apps.Engine.{Bytes}
use cmpe275_enterprise_apps.Csv.Row.{is_name}
use cmpe275_enterprise_apps.Dataset.{Entry, Files}
use cmpe275_enterprise_apps.InMemory.Record.{TaxiTripRecord, TaxiTripStore, zero_record}
use cmpe275_enterprise_apps.InMemory.Columns.{TaxiTripStoreSoa, new_store, push}
use cmpe275_enterprise_apps.InMemory.Representation.{new_store-Represents, push-Represents}
use cmpe275_enterprise_apps.InMemory.Query.{
  TaxiTripQuerySpec, matches, matches_row, execute_serial, execute_loop, at,
}
use cmpe275_enterprise_apps.InMemory.Threads.{
  count_part, execute_openmp_records, execute_openmp_soa,
}
use cmpe275_enterprise_apps.InMemory.Interleaving.{concat, turns}
use cmpe275_enterprise_apps.InMemory.Agreement.{
  places, pointer_id, execute_openmp_records-execute_serial, execute_openmp_soa-execute_serial,
}
use cmpe275_enterprise_apps.InMemory.Parser.{
  Library, split_csv, split_loop, lower, is_null_or_empty, get_if, parse_row, to_float, to_int16,
  to_int32, parse_date_time, build_header_map, header_loop, build_column_index, get_column,
  month_from_abbrev, month_loop,
}
use cmpe275_enterprise_apps.InMemory.Reader.{each_row}
use cmpe275_enterprise_apps.InMemory.Reading.{filled, after, do_each, each_row-do_each}
use cmpe275_enterprise_apps.InMemory.Quoting.{quoted_line, split_csv-quoted_line}
use cmpe275_enterprise_apps.InMemory.Carried.{parse_row-flag}
use cmpe275_enterprise_apps.InMemory.Ingest.{csv_files, header_index}
use cmpe275_enterprise_apps.InMemory.Phases.{records_of, rows_of, rows_of_lines}
use cmpe275_enterprise_apps.InMemory.Runner.{OpenMp}
use cmpe275_enterprise_apps.Tests.Csv.{bytes}

-- 3.0 and -1.0 as `float`.
abbrev library : Library
library = record {
  stof = λ s. if is_name "-1" s then some 3212836864 else some 1077936128;
  to_int16 = λ x. if x == 3212836864 then negsuc 0 else pos 3;
  stod = λ s. some (length s);
  times_100 = λ x. x * 100;
  llround = λ x. pos x;
  scan_date = λ s. some (record {
    year = pos 2020;
    mon = bytes "Jan";
    day = pos 1;
    hours = pos 12;
    minutes = pos 28;
    seconds = pos 15;
    am_pm = bytes "AM";
  });
  timegm = λ t. some (pos (t.month * 86400 + t.hour * 3600 + 1));
}

abbrev header : Bytes
header =
    bytes "trip_distance,\"Store_and_fwd_flag\",tip_amount,passenger_count,tpep_pickup_datetime"

abbrev entry : String → Entry
entry path = record { path = path; is_regular_file = true; is_csv = true }

abbrev entries : List Entry
entries =
    entry "b.csv"
    ∷ record { path = "c.txt"; is_regular_file = true; is_csv = false }
    ∷ entry "a.csv"
    ∷ []

abbrev files : Files
files = record {
  is_regular_file = λ path. true;
  lines = λ path.
      if str_eq path "a.csv"
      then some (header ∷ bytes "3,Y,12,1,x" ∷ [] ∷ bytes "-1,,1,1,x" ∷ [])
      else if str_eq path "b.csv"
      then some (header ∷ bytes "3,N,1.5,na,x" ∷ bytes "3,null,123,,x" ∷ [])
      else none;
  directory = λ dir. some entries;
}

abbrev sort : List String → List String
sort [] = []
sort (x ∷ []) = x ∷ []
sort (x ∷ y ∷ paths) = y ∷ x ∷ paths

abbrev query : TaxiTripQuerySpec
query = record {
  pickup_range = none;
  dropoff_range = none;
  distance_range = none;
  total_cents_range = none;
  tip_cents_range = some (record { lo = pos 250; hi = pos 400 });
  payment_type = none;
}

sorted : sort (csv_files entries) ≡ "a.csv" ∷ "b.csv" ∷ []
unfolding csv_files
sorted = refl

-- The flag of the last row is the one of the row before it, and so is the invalid row's.
flags :
    map
      (λ (r : TaxiTripRecord). r.store_and_fwd_flag)
      (records_of (rows_of library zero_record files ("a.csv" ∷ "b.csv" ∷ [])))
    ≡ b'Y' ∷ b'Y' ∷ b'N' ∷ b'N' ∷ []
unfolding rows_of rows_of_lines parse_row split_csv split_loop lower is_null_or_empty get_if
    to_float to_int16 to_int32 parse_date_time build_header_map header_loop build_column_index
    get_column is_name month_from_abbrev month_loop
flags = refl

-- All rows for one of two threads.
abbrev openmp : OpenMp
openmp = record {
  order = 1 ∷ 0 ∷ [];
  parts = λ n. places 0 n ∷ [] ∷ [];
  filling = λ n. [] ∷ places 0 n ∷ [];
  schedule = λ n. 1 ∷ replicate n 0;
}

abbrev tipped : ℕ → TaxiTripRecord
tipped cents = record zero_record { tip_amount = pos cents }

abbrev records : TaxiTripStore
records = tipped 300 ∷ tipped 100 ∷ tipped 250 ∷ tipped 400 ∷ tipped 401 ∷ []

abbrev two_threads : List (List ℕ)
two_threads = (0 ∷ []) ∷ (1 ∷ 2 ∷ 3 ∷ 4 ∷ []) ∷ []

abbrev uneven : List (List ℕ)
uneven = (0 ∷ 1 ∷ []) ∷ (2 ∷ 3 ∷ 4 ∷ []) ∷ []

abbrev turns_taken : List ℕ
turns_taken = 1 ∷ 0 ∷ 1 ∷ 0 ∷ 1 ∷ []

execute_openmp_records-execute_serial_example :
    execute_openmp_records records query two_threads uneven turns_taken
    ≡ execute_serial records query
unfolding concat places turns matches count_part
execute_openmp_records-execute_serial_example =
    execute_openmp_records-execute_serial query records two_threads uneven turns_taken refl refl
      (omega arith, (omega arith, tt))

found : execute_serial records query ≡ some 0 ∷ some 2 ∷ some 3 ∷ []
unfolding execute_serial execute_loop matches
found = refl

abbrev columns : TaxiTripStoreSoa
columns = push (tipped 300) (push (tipped 100) new_store)

execute_openmp_soa-execute_serial_example :
    execute_openmp_soa columns query
      ((0 ∷ []) ∷ (1 ∷ []) ∷ [])
      ((0 ∷ []) ∷ (1 ∷ []) ∷ [])
      (1 ∷ 0 ∷ [])
    ≡ map pointer_id (execute_serial (tipped 100 ∷ tipped 300 ∷ []) query)
unfolding concat places turns push new_store matches_row count_part
execute_openmp_soa-execute_serial_example =
    execute_openmp_soa-execute_serial query columns (tipped 100 ∷ tipped 300 ∷ [])
      ((0 ∷ []) ∷ (1 ∷ []) ∷ []) ((0 ∷ []) ∷ (1 ∷ []) ∷ []) (1 ∷ 0 ∷ [])
      (push-Represents (tipped 300) (push-Represents (tipped 100) new_store-Represents)) refl refl
      (omega arith, (omega arith, tt))

split_csv-quoted_line_example :
    split_csv (quoted_line (bytes "a,\"b") ([] ∷ [])) ≡ bytes "a,\"b" ∷ [] ∷ []
split_csv-quoted_line_example = split_csv-quoted_line (bytes "a,\"b") ([] ∷ [])

parse_row-flag_example :
    let idx = header_index header in
    let cols = bytes "3" ∷ bytes "NA" ∷ [] in
    let old = record zero_record { store_and_fwd_flag = b'Y' } in
    parse_row library cols idx old ≡ (
      record (parse_row library cols idx zero_record).0 {
        store_and_fwd_flag =
            if is_null_or_empty (get_if cols idx.store_and_fwd_flag)
            then b'Y'
            else at 0 (get_if cols idx.store_and_fwd_flag) 0;
      },
      (parse_row library cols idx zero_record).1,
    )
parse_row-flag_example =
    parse_row-flag library (bytes "3" ∷ bytes "NA" ∷ []) (header_index header)
      (record zero_record { store_and_fwd_flag = b'Y' })

each_row-do_each_example :
    each_row 9
      (λ cols rows. rows ++ cols ∷ [])
      (record {
        file = some (bytes "a,b" ∷ [] ∷ []);
        later = some [] ∷ some (bytes "x" ∷ bytes "c" ∷ []) ∷ none ∷ [];
        header_map = [];
      })
      []
    ≡ some (
        do_each
          (λ cols rows. rows ++ cols ∷ [])
          (filled (bytes "a,b" ∷ [] ∷ [])
            ++ after (some [] ∷ some (bytes "x" ∷ bytes "c" ∷ []) ∷ none ∷ []))
          [])
unfolding filled after
each_row-do_each_example =
    each_row-do_each 9 (λ cols rows. rows ++ cols ∷ []) [] (bytes "a,b" ∷ [] ∷ [])
      (some [] ∷ some (bytes "x" ∷ bytes "c" ∷ []) ∷ none ∷ []) [] (omega arith)

rows_given :
    do_each (λ cols rows. rows ++ cols ∷ []) (bytes "a,b" ∷ bytes "c" ∷ []) []
    ≡ (bytes "a" ∷ bytes "b" ∷ []) ∷ (bytes "c" ∷ []) ∷ []
unfolding do_each split_csv split_loop
rows_given = refl
