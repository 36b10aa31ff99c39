-- ===== src/InMemory/Reading.antt =====
-- The rows that a reader gives, up to the last.
use cmpe275_enterprise_apps.Common.{
  ℕ, zero, suc, ◌<◌, List, [], ◌∷◌, ◌++◌, Option, none, some, ◌≡◌, refl, ap, ◌⊎◌, inl, inr, arith,
  if◌then◌else◌, length,
}
use cmpe275_enterprise_apps.Engine.{Bytes}
use cmpe275_enterprise_apps.Csv.Fields.{is_nil}
use cmpe275_enterprise_apps.InMemory.Parser.{ColMap, ColumnIndex, Library, split_csv, parse_row}
use cmpe275_enterprise_apps.InMemory.Record.{TaxiTripRecord}
use cmpe275_enterprise_apps.InMemory.Ingest.{IngestStats, counted, ingest_rows}
use cmpe275_enterprise_apps.InMemory.Reader.{
  Read, next_line, found_or, read_from, read_row, each_row,
}

-- The lines that are not empty.
unfoldable pub filled : List Bytes → List Bytes
filled [] = []
filled (line ∷ lines) = let rest = filled lines in if is_nil line then rest else line ∷ rest

-- Those of the later files, without their headers, up to one that does not open.
unfoldable pub after : List (Option (List Bytes)) → List Bytes
after [] = []
after (none ∷ later) = []
after (some [] ∷ later) = after later
after (some (header ∷ body) ∷ later) = filled body ++ after later

-- What is done with the rows, one after the other.
unfoldable pub do_each : {S : Type 0} → (List Bytes → S → S) → List Bytes → S → S
do_each body [] s = s
do_each body (line ∷ lines) s = do_each body lines (body (split_csv line) s)

-- A read gives the first of the lines `all`, and leaves the others.
abbrev Reads : List Bytes → Read → Type 0
Reads all (row, file, later) =
    ((all ≡ []) × (row ≡ none))
    ⊎ ((line : Bytes) × (lines : List Bytes) × (row ≡ some (split_csv line))
        × (file ≡ some lines)
        × (all ≡ line ∷ (filled lines ++ after later)))

next_line-filled :
    (lines : List Bytes)
    → ((next_line lines ≡ none) × (filled lines ≡ []))
      ⊎ ((line : Bytes) × (rest : List Bytes) × (next_line lines ≡ some (line, rest))
          × (filled lines ≡ line ∷ filled rest))
unfolding next_line filled
next_line-filled [] = inl (refl, refl)
next_line-filled ([] ∷ lines) = next_line-filled lines
next_line-filled ((c ∷ cs) ∷ lines) = inr (c ∷ cs, lines, refl, refl)

found_or-Reads :
    (lines : List Bytes) (later : List (Option (List Bytes))) (next : Read)
    → Reads (after later) next
    → Reads (filled lines ++ after later) (found_or (next_line lines) later next)
found_or-Reads lines later next n = elim (next_line-filled lines) [
  | inl (e, f) ↦ rw (e, f) n
  | inr (line, rest, e, f) ↦ rw (e, f) (inr (line, rest, refl, refl, refl))
]

read_from-Reads :
    (lines : List Bytes) (later : List (Option (List Bytes)))
    → Reads (filled lines ++ after later) (read_from lines later)
unfolding read_from after filled
read_from-Reads lines [] = found_or-Reads lines [] (none, none, []) (inl (refl, refl))
read_from-Reads lines (none ∷ later) =
    found_or-Reads lines (none ∷ later) (none, none, later) (inl (refl, refl))
read_from-Reads lines (some [] ∷ later) =
    found_or-Reads lines (some [] ∷ later) (read_from [] later) (read_from-Reads [] later)
read_from-Reads lines (some (header ∷ body) ∷ later) =
    found_or-Reads lines (some (header ∷ body) ∷ later) (read_from body later)
      (read_from-Reads body later)

-- A loop over `readRow` ends, within one round more than there are rows, and goes through the lines
-- that are not empty, of the open file and then, without their headers, of the later files up to one
-- that does not open, cut into columns, in their order.
pub each_row-do_each :
    {S : Type 0} (fuel : ℕ) (body : List Bytes → S → S) (header_map : ColMap) (lines : List Bytes)
    (later : List (Option (List Bytes))) (s : S)
    → length (filled lines ++ after later) < fuel
    → each_row fuel body (record { file = some lines; later = later; header_map = header_map }) s
      ≡ some (do_each body (filled lines ++ after later) s)
unfolding each_row read_row do_each
each_row-do_each zero body header_map lines later s h = elim h [ ]
each_row-do_each (suc fuel) body header_map lines later s h = elim (read_from-Reads lines later) [
  | inl (e, row) ↦ rw (row, each_row) (rw e refl)
  | inr (line, rest, row, file, e) ↦
      rw (row, each_row)
        (rw (file, e)
          (each_row-do_each fuel body header_map rest (read_from lines later).2
            (body (split_csv line) s) (omega (arith, h, ap length e))))
]

-- The loop of `ingestOneFile` over `readRow`, as InMemory/Ingest has it over the lines.
module _ (lib : Library) (fresh : TaxiTripRecord) (idx : ColumnIndex) where
  abbrev Ingested : Type 0
  Ingested = TaxiTripRecord × IngestStats × List TaxiTripRecord

  abbrev ingest_row : List Bytes → Ingested → Ingested
  ingest_row cols (r, st, out) =
      let (r', ok) = parse_row lib cols idx r in (r', counted ok st, out ++ r' ∷ [])

  do_each-ingest_rows :
      (r : TaxiTripRecord) (lines : List Bytes) (st : IngestStats) (out : List TaxiTripRecord)
      → let s = do_each ingest_row (filled lines) (r, st, out) in
        (s.1, s.2) ≡ ingest_rows lib fresh idx r lines st out
  unfolding do_each filled ingest_rows
  do_each-ingest_rows r [] st out = refl
  do_each-ingest_rows r ([] ∷ lines) st out = do_each-ingest_rows r lines st out
  do_each-ingest_rows r ((c ∷ cs) ∷ lines) st out =
      let (r', ok) = parse_row lib (split_csv (c ∷ cs)) idx r in
      do_each-ingest_rows r' lines (counted ok st) (out ++ r' ∷ [])
