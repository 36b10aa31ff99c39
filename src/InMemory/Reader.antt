-- ===== src/InMemory/Reader.antt =====
-- phase1/csvReader.hpp and csvReader.cpp: a reader over several files, each the list of its lines,
-- or `none` where it does not open. Where a file after the first does not open, or there is none,
-- the reader is left without an open file.
use cmpe275_enterprise_apps.Common.{
  ℕ, zero, suc, Bool, true, false, List, [], ◌∷◌, Option, none, some, if◌then◌else◌,
}
use cmpe275_enterprise_apps.Engine.{Bytes}
use cmpe275_enterprise_apps.Csv.Fields.{is_nil}
use cmpe275_enterprise_apps.InMemory.Parser.{ColMap, split_csv, build_header_map}

-- What is left of the open file, and the files after it.
pub record CsvReader : Type 0 where
  pub file : Option (List Bytes)
  pub later : List (Option (List Bytes))
  pub header_map : ColMap

abbrev new_reader : Option (List Bytes) → CsvReader
new_reader file = record { file = file; later = []; header_map = [] }

-- `fromDirectory`, of the sorted files.
abbrev pub from_directory : List (Option (List Bytes)) → CsvReader
from_directory [] = record { file = none; later = []; header_map = [] }
from_directory (file ∷ later) = record { file = file; later = later; header_map = [] }

abbrev header_of : CsvReader → Option (List Bytes) → CsvReader × Bool
header_of reader none = (reader, false)
header_of reader (some []) = (reader, false)
header_of reader (some (line ∷ lines)) =
    (record reader { file = some lines; header_map = build_header_map line }, true)

unfoldable pub read_header : CsvReader → CsvReader × Bool
read_header reader = header_of reader reader.file

-- The next line that is not empty, and the lines behind it.
unfoldable pub next_line : List Bytes → Option (Bytes × List Bytes)
next_line [] = none
next_line (line ∷ lines) = if is_nil line then next_line lines else some (line, lines)

-- The columns of the next row, if there is one, and the files that are left.
abbrev pub Read : Type 0
Read = Option (List Bytes) × Option (List Bytes) × List (Option (List Bytes))

abbrev pub found_or : Option (Bytes × List Bytes) → List (Option (List Bytes)) → Read → Read
found_or none later next = next
found_or (some (line, lines)) later next = (some (split_csv line), some lines, later)

-- The loop of `readRow`; where a file ends, the next one is opened and its header passed over.
unfoldable pub read_from : List Bytes → List (Option (List Bytes)) → Read
read_from lines [] = found_or (next_line lines) [] (none, none, [])
read_from lines (none ∷ later) = found_or (next_line lines) (none ∷ later) (none, none, later)
read_from lines (some [] ∷ later) =
    let next = read_from [] later in found_or (next_line lines) (some [] ∷ later) next
read_from lines (some (header ∷ body) ∷ later) =
    let next = read_from body later in
    found_or (next_line lines) (some (header ∷ body) ∷ later) next

unfoldable pub read_row : CsvReader → Option (List Bytes) × CsvReader
read_row reader = elim reader.file [
  | none ↦ (none, reader)
  | some lines ↦
      let (row, file, later) = read_from lines reader.later in
      (row, record reader { file = file; later = later })
]

-- `while (reader.readRow(cols))`, with what is done with each row; `none` if `fuel` rounds do not do.
unfoldable pub each_row : {S : Type 0} → ℕ → (List Bytes → S → S) → CsvReader → S → Option S
each_row zero body reader s = none
each_row (suc fuel) body reader s =
    let (row, reader') = read_row reader in
    elim row [ none ↦ some s | some cols ↦ each_row fuel body reader' (body cols s) ]
