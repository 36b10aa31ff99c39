-- ===== src/InMemory/Ingest.antt =====
-- phase2/ingest.cpp and phase3/ingest_soa.cpp over phase1/csvReader.cpp: the files of a directory
-- enter a store. A reader has one file here, as both make it. The file system and `std::sort` are
-- parameters. OpenMP hands the files to its threads in any order (`order`, by their numbers); each
-- fills its own slot. `fresh` is what an uninitialised record holds. Printing is left out.
use cmpe275_enterprise_apps.Common.{
  ℕ, ◌+◌, String, Bool, not, ◌&&◌, List, [], ◌∷◌, ◌++◌, Option, none, some, if◌then◌else◌, length,
  replicate,
}
use cmpe275_enterprise_apps.Engine.{Bytes}
use cmpe275_enterprise_apps.Csv.Fields.{is_nil}
use cmpe275_enterprise_apps.Dataset.{Entry, Files}
use cmpe275_enterprise_apps.InMemory.Record.{TaxiTripRecord, TaxiTripStore, add_record}
use cmpe275_enterprise_apps.InMemory.Record
use cmpe275_enterprise_apps.InMemory.Columns.{TaxiTripStoreSoa, new_store, clear, push, append_all}
use cmpe275_enterprise_apps.InMemory.Query.{at}
use cmpe275_enterprise_apps.InMemory.Threads.{set}
use cmpe275_enterprise_apps.InMemory.Parser.{
  Library, ColumnIndex, split_csv, build_header_map, build_column_index, parse_row,
}

-- `IngestStats` and `IngestStatsSoA`.
pub record IngestStats : Type 0 where
  pub rows_read : ℕ
  pub parse_failures : ℕ

abbrev pub no_stats : IngestStats
no_stats = record { rows_read = 0; parse_failures = 0 }

abbrev pub counted : Bool → IngestStats → IngestStats
counted ok st = record {
  rows_read = st.rows_read + 1;
  parse_failures = if not ok then st.parse_failures + 1 else st.parse_failures;
}

abbrev pub add_stats : IngestStats → IngestStats → IngestStats
add_stats total st = record {
  rows_read = total.rows_read + st.rows_read;
  parse_failures = total.parse_failures + st.parse_failures;
}

-- `listCSVFiles`.
unfoldable pub csv_files : List Entry → List String
csv_files [] = []
csv_files (e ∷ entries) =
    let rest = csv_files entries in if e.is_regular_file && e.is_csv then e.path ∷ rest else rest

abbrev pub header_index : Bytes → ColumnIndex
header_index header = build_column_index (build_header_map header)

-- The loop over the files, each into its slot.
unfoldable pub fill_slots : {R : Type 0} → (String → R) → List String → List R → List ℕ → List R
fill_slots ingest files slots [] = slots
fill_slots ingest files slots (i ∷ order) =
    fill_slots ingest files (set slots i (ingest (at "" files i))) order

module _ (lib : Library) (fresh : TaxiTripRecord) where
  -- The loop over the rows; empty lines are passed over by `readRow`.
  unfoldable pub ingest_rows :
      ColumnIndex
      → TaxiTripRecord
      → List Bytes
      → IngestStats
      → List TaxiTripRecord
      → IngestStats × List TaxiTripRecord
  ingest_rows idx r [] st out = (st, out)
  ingest_rows idx r (line ∷ lines) st out =
      let skipped = ingest_rows idx r lines st out in
      let (r', ok) = parse_row lib (split_csv line) idx r in
      let rest = ingest_rows idx r' lines (counted ok st) (out ++ r' ∷ []) in
      if is_nil line then skipped else rest

  abbrev pub ingest_content :
      Option (List Bytes) → List TaxiTripRecord → IngestStats × List TaxiTripRecord
  ingest_content none out = (no_stats, out)
  ingest_content (some []) out = (no_stats, out)
  ingest_content (some (header ∷ lines)) out =
      ingest_rows (header_index header) fresh lines no_stats out

  unfoldable pub ingest_rows_soa :
      ColumnIndex
      → TaxiTripRecord
      → List Bytes
      → IngestStats
      → TaxiTripStoreSoa
      → IngestStats × TaxiTripStoreSoa
  ingest_rows_soa idx r [] st out = (st, out)
  ingest_rows_soa idx r (line ∷ lines) st out =
      let skipped = ingest_rows_soa idx r lines st out in
      let (r', ok) = parse_row lib (split_csv line) idx r in
      let rest = ingest_rows_soa idx r' lines (counted ok st) (if ok then push r' out else out) in
      if is_nil line then skipped else rest

  abbrev pub ingest_content_soa :
      Option (List Bytes) → TaxiTripStoreSoa → IngestStats × TaxiTripStoreSoa
  ingest_content_soa none out = (no_stats, out)
  ingest_content_soa (some []) out = (no_stats, out)
  ingest_content_soa (some (header ∷ lines)) out =
      ingest_rows_soa (header_index header) fresh lines no_stats out

  module _ (files : Files) where
    abbrev pub ingest_one_file : String → List TaxiTripRecord → IngestStats × List TaxiTripRecord
    ingest_one_file path out = ingest_content (files.lines path) out

    abbrev pub ingest_one_file_to_soa : String → TaxiTripStoreSoa → IngestStats × TaxiTripStoreSoa
    ingest_one_file_to_soa path out = ingest_content_soa (files.lines path) out

    unfoldable pub add_all : List TaxiTripRecord → TaxiTripStore → TaxiTripStore
    add_all [] store = store
    add_all (r ∷ tmp) store = add_all tmp (add_record r store)

    unfoldable pub ingest_each :
        List String → IngestStats → TaxiTripStore → IngestStats × TaxiTripStore
    ingest_each [] total store = (total, store)
    ingest_each (path ∷ paths) total store =
        let (st, tmp) = ingest_one_file path [] in
        ingest_each paths (add_stats total st) (add_all tmp store)

    unfoldable pub merge_slots :
        List (IngestStats × List TaxiTripRecord)
        → IngestStats
        → TaxiTripStore
        → IngestStats × TaxiTripStore
    merge_slots [] total store = (total, store)
    merge_slots ((st, batch) ∷ slots) total store =
        merge_slots slots (add_stats total st) (Record.append_all batch store)

    unfoldable pub ingest_parallel :
        List ℕ → List String → TaxiTripStore → IngestStats × TaxiTripStore
    ingest_parallel order paths store =
        merge_slots
          (fill_slots (λ path. ingest_one_file path []) paths
            (replicate (length paths) (no_stats, [])) order)
          no_stats store

    unfoldable pub ingest_each_soa :
        List String
        → IngestStats
        → TaxiTripStoreSoa
        → TaxiTripStoreSoa
        → IngestStats × TaxiTripStoreSoa
    ingest_each_soa [] total local store = (total, store)
    ingest_each_soa (path ∷ paths) total local store =
        let (st, local') = ingest_one_file_to_soa path (clear local) in
        ingest_each_soa paths (add_stats total st) new_store (append_all local' store).0

    unfoldable pub merge_slots_soa :
        List (IngestStats × TaxiTripStoreSoa)
        → IngestStats
        → TaxiTripStoreSoa
        → IngestStats × TaxiTripStoreSoa
    merge_slots_soa [] total store = (total, store)
    merge_slots_soa ((st, local) ∷ slots) total store =
        merge_slots_soa slots (add_stats total st) (append_all local store).0

    unfoldable pub ingest_parallel_soa :
        List ℕ → List String → TaxiTripStoreSoa → IngestStats × TaxiTripStoreSoa
    ingest_parallel_soa order paths store =
        merge_slots_soa
          (fill_slots (λ path. ingest_one_file_to_soa path new_store) paths
            (replicate (length paths) (no_stats, new_store)) order)
          no_stats store

    -- The files of a directory; `none` stands for the exception of `directory_iterator`.
    module _ (sort : List String → List String) where
      abbrev pub listed : {R : Type 0} → (List String → R) → Option (List Entry) → Option R
      listed run none = none
      listed run (some entries) = some (run (sort (csv_files entries)))

      unfoldable pub ingest_serial_directory :
          String → TaxiTripStore → Option (IngestStats × TaxiTripStore)
      ingest_serial_directory dir store =
          listed (λ paths. ingest_each paths no_stats store) (files.directory dir)

      unfoldable pub ingest_parallel_directory :
          List ℕ → String → TaxiTripStore → Option (IngestStats × TaxiTripStore)
      ingest_parallel_directory order dir store =
          listed (λ paths. ingest_parallel order paths store) (files.directory dir)

      unfoldable pub ingest_serial_directory_soa :
          String → TaxiTripStoreSoa → Option (IngestStats × TaxiTripStoreSoa)
      ingest_serial_directory_soa dir store =
          listed (λ paths. ingest_each_soa paths no_stats new_store store) (files.directory dir)

      unfoldable pub ingest_parallel_directory_soa :
          List ℕ → String → TaxiTripStoreSoa → Option (IngestStats × TaxiTripStoreSoa)
      ingest_parallel_directory_soa order dir store =
          listed (λ paths. ingest_parallel_soa order paths store) (files.directory dir)
