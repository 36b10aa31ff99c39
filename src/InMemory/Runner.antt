-- ===== src/InMemory/Runner.antt =====
-- `BenchmarkRunner::run` of benchmarkRunner.cpp, without its times and the rates computed from them:
-- each run reads the directory into a store of columns, counts the rows that match, and finds them.
use cmpe275_enterprise_apps.Common.{
  ℕ, ◌==◌, String, Bool, false, not, ◌||◌, List, [], ◌∷◌, Option, none, some, ◌≡◌, length,
}
use cmpe275_enterprise_apps.Dataset.{Entry, Files}
use cmpe275_enterprise_apps.InMemory.Record.{TaxiTripRecord}
use cmpe275_enterprise_apps.InMemory.Columns.{TaxiTripStoreSoa, new_store, size}
use cmpe275_enterprise_apps.InMemory.Query.{
  TaxiTripQuerySpec, count_serial, count_serial_soa, execute_serial_soa,
}
use cmpe275_enterprise_apps.InMemory.Threads.{count_openmp_soa, execute_openmp_soa}
use cmpe275_enterprise_apps.InMemory.Interleaving.{concat}
use cmpe275_enterprise_apps.InMemory.Agreement.{places}
use cmpe275_enterprise_apps.InMemory.Parser.{Library}
use cmpe275_enterprise_apps.InMemory.Ingest.{
  IngestStats, csv_files, ingest_serial_directory_soa, ingest_parallel_directory_soa,
}
use cmpe275_enterprise_apps.InMemory.Slots.{Covers}
use cmpe275_enterprise_apps.InMemory.Phases.{Row, valid_of, stats_of, rows_of}

pub data IngestMode : Type 0 where
  serial : IngestMode
  parallel_files : IngestMode

pub data QueryMode : Type 0 where
  serial : QueryMode
  openmp : QueryMode

-- What OpenMP chooses in a run: the order of the files, and for a number of rows the rows of each
-- thread where it counts and where it fills, and the order in which the threads run.
pub record OpenMp : Type 0 where
  pub order : List ℕ
  pub parts : ℕ → List (List ℕ)
  pub filling : ℕ → List (List ℕ)
  pub schedule : ℕ → List ℕ

-- The counts of a `BenchmarkResult`, and whether a run has warned that they differ.
pub record BenchmarkResult : Type 0 where
  pub rows_read : ℕ
  pub parse_failures : ℕ
  pub rows_scanned : ℕ
  pub matches : ℕ
  pub warned : Bool

abbrev pub no_run : BenchmarkResult
no_run = record { rows_read = 0; parse_failures = 0; rows_scanned = 0; matches = 0; warned = false }

abbrev pub next_run :
    {A : Type 0} → Option A → (A → Option BenchmarkResult) → Option BenchmarkResult
next_run none f = none
next_run (some a) f = f a

module _ (lib : Library) (fresh : TaxiTripRecord) (files : Files) (sort : List String → List String)
    (dir : String) (q : TaxiTripQuerySpec) where
  abbrev pub ingest_by : IngestMode → OpenMp → Option (IngestStats × TaxiTripStoreSoa)
  ingest_by IngestMode.serial o = ingest_serial_directory_soa lib fresh files sort dir new_store
  ingest_by parallel_files o =
      ingest_parallel_directory_soa lib fresh files sort o.order dir new_store

  abbrev pub count_by : QueryMode → OpenMp → TaxiTripStoreSoa → ℕ
  count_by QueryMode.serial o s = count_serial_soa s q
  count_by openmp o s = count_openmp_soa s q (o.parts (size s))

  abbrev pub execute_by : QueryMode → OpenMp → TaxiTripStoreSoa → List ℕ
  execute_by QueryMode.serial o s = execute_serial_soa s q
  execute_by openmp o s =
      execute_openmp_soa s q (o.parts (size s)) (o.filling (size s)) (o.schedule (size s))

  abbrev pub measured :
      QueryMode → OpenMp → BenchmarkResult → IngestStats × TaxiTripStoreSoa → Option BenchmarkResult
  measured query_mode o out (istats, store) =
      let matches_count = count_by query_mode o store in
      let results = execute_by query_mode o store in
      some (record {
        rows_read = istats.rows_read;
        parse_failures = istats.parse_failures;
        rows_scanned = size store;
        matches = matches_count;
        warned = out.warned || not (length results == matches_count);
      })

  unfoldable pub run_once :
      IngestMode → QueryMode → OpenMp → BenchmarkResult → Option BenchmarkResult
  run_once ingest_mode query_mode o out =
      next_run (ingest_by ingest_mode o) (measured query_mode o out)

  -- The loop over the runs, one after the other.
  unfoldable pub run :
      IngestMode → QueryMode → List OpenMp → BenchmarkResult → Option BenchmarkResult
  run ingest_mode query_mode [] out = some out
  run ingest_mode query_mode (o ∷ runs) out =
      next_run (run_once ingest_mode query_mode o out) (run ingest_mode query_mode runs)

  -- OpenMP takes every file, and hands out all rows in their order where it counts.
  pub record IsFair (paths : List String) (o : OpenMp) : Type 0 where
    pub all_files : Covers 0 paths o.order
    pub all_rows : (n : ℕ) → concat (o.parts n) ≡ places 0 n

  -- The counts of a run over given rows.
  abbrev pub result_of : List Row → BenchmarkResult
  result_of rows = record {
    rows_read = (stats_of rows).rows_read;
    parse_failures = (stats_of rows).parse_failures;
    rows_scanned = length (valid_of rows);
    matches = count_serial (valid_of rows) q;
    warned = false;
  }

  module _ (entries : List Entry) (opens : files.directory dir ≡ some entries) where
    abbrev paths : List String
    paths = sort (csv_files entries)

    abbrev rows : List Row
    rows = rows_of lib fresh files paths
