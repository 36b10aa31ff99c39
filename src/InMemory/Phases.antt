-- ===== src/InMemory/Phases.antt =====
-- The two phases read the same files: what enters the records and what enters the columns.
use cmpe275_enterprise_apps.Common.{
  ℕ, ◌+◌, String, Bool, true, false, List, [], ◌∷◌, ◌++◌, Option, none, some, ◌≡◌, arith,
  if◌then◌else◌, length,
}
use cmpe275_enterprise_apps.Engine.{Bytes}
use cmpe275_enterprise_apps.Csv.Fields.{is_nil}
use cmpe275_enterprise_apps.Dataset.{Files}
use cmpe275_enterprise_apps.InMemory.Record.{TaxiTripRecord}
use cmpe275_enterprise_apps.InMemory.Columns.{TaxiTripStoreSoa}
use cmpe275_enterprise_apps.InMemory.Representation.{Represents}
use cmpe275_enterprise_apps.InMemory.Parser.{Library, ColumnIndex, split_csv, parse_row}
use cmpe275_enterprise_apps.InMemory.Ingest.{IngestStats, add_stats, header_index}

-- A row as it was read, and whether it is valid.
abbrev pub Row : Type 0
Row = TaxiTripRecord × Bool

abbrev pub records_of : List Row → List TaxiTripRecord
records_of [] = []
records_of ((r, ok) ∷ rows) = r ∷ records_of rows

abbrev pub valid_of : List Row → List TaxiTripRecord
valid_of [] = []
valid_of ((r, ok) ∷ rows) = let rest = valid_of rows in if ok then r ∷ rest else rest

abbrev pub failures_of : List Row → ℕ
failures_of [] = 0
failures_of ((r, ok) ∷ rows) = (if ok then 0 else 1) + failures_of rows

abbrev pub stats_of : List Row → IngestStats
stats_of rows = record { rows_read = length rows; parse_failures = failures_of rows }

failures_of-append : (xs ys : List Row) → failures_of (xs ++ ys) ≡ failures_of xs + failures_of ys
failures_of-append [] ys = omega arith
failures_of-append ((r, true) ∷ xs) ys = omega (arith, failures_of-append xs ys)
failures_of-append ((r, false) ∷ xs) ys = omega (arith, failures_of-append xs ys)

module _ (lib : Library) (fresh : TaxiTripRecord) where
  -- The rows of the lines under a header; each is read over the record of the row before it.
  unfoldable pub rows_of_lines : ColumnIndex → TaxiTripRecord → List Bytes → List Row
  rows_of_lines idx r [] = []
  rows_of_lines idx r (line ∷ lines) =
      let skipped = rows_of_lines idx r lines in
      let row = parse_row lib (split_csv line) idx r in
      let rest = rows_of_lines idx row.0 lines in if is_nil line then skipped else row ∷ rest

  abbrev pub rows_of_content : Option (List Bytes) → List Row
  rows_of_content none = []
  rows_of_content (some []) = []
  rows_of_content (some (header ∷ lines)) = rows_of_lines (header_index header) fresh lines

  -- Statistics and columns for the rows of which the valid ones have been pushed.
  abbrev pub HoldsRows :
      IngestStats × TaxiTripStoreSoa → IngestStats → List TaxiTripRecord → List Row → Type 0
  HoldsRows (st', s) st records rows =
      (st' ≡ add_stats st (stats_of rows)) × Represents s (records ++ valid_of rows)

  module _ (files : Files) where
    unfoldable pub rows_of : List String → List Row
    rows_of [] = []
    rows_of (path ∷ paths) = rows_of_content (files.lines path) ++ rows_of paths
