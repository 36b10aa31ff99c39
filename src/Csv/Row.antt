-- ===== src/Csv/Row.antt =====
-- `initFromHeader` and `parseRow`, as the row parser that the engine takes.
pub mod Columns
use Prim.Native.Char.{code}
use cmpe275_enterprise_apps.Common.{
  ℕ, ◌+◌, String, Bool, true, false, not, ◌&&◌, ◌||◌, List, [], ◌∷◌, Option, none, some, ℤ, pos,
  negsuc, leb, ltb, ◌==◌, if◌then◌else◌, length, take, ltb_ℤ, Float32, map,
}
use cmpe275_enterprise_apps.Model.Trip.{ParsedPartitionRow, empty_row}
use cmpe275_enterprise_apps.Engine.{Bytes, RowParser}
use cmpe275_enterprise_apps.Csv.Fields.{trim_spaces, strip_quotes, split_fields, is_nil}
use cmpe275_enterprise_apps.Csv.Money.{parse_money_cents}
use cmpe275_enterprise_apps.Csv.Dates.{CalendarTime, parse_epoch_ms, is_zero}

-- What the parser uses of the C++ library: `std::from_chars` for `int` with the text that it leaves,
-- `std::strtof`, `none` where it reads nothing, and `timegm`.
pub record Conversions : Type 0 where
  pub from_chars : Bytes → Option (ℤ × Bytes)
  pub strtof : Bytes → Option Float32
  pub timegm : CalendarTime → Option ℤ

-- The columns; `none` for -1.
pub record ColumnIndex : Type 0 where
  pub pickup_datetime : Option ℕ
  pub dropoff_datetime : Option ℕ
  pub trip_distance : Option ℕ
  pub payment_type : Option ℕ
  pub tip_amount : Option ℕ
  pub total_amount : Option ℕ

abbrev pub no_columns : ColumnIndex
no_columns = record {
  pickup_datetime = none;
  dropoff_datetime = none;
  trip_distance = none;
  payment_type = none;
  tip_amount = none;
  total_amount = none;
}

-- `std::tolower` in the "C" locale.
abbrev pub to_lower : ℕ → ℕ
to_lower c = if leb b'A' c && leb c b'Z' then c + 32 else c

unfoldable pub split_header_field_normalize : Bytes → Bytes
split_header_field_normalize field = map to_lower (strip_quotes (trim_spaces field))

unfoldable pub is_name : String → Bytes → Bool
is_name String.[] [] = true
is_name String.[] (b ∷ bs) = false
is_name (String.◌∷◌ c s) [] = false
is_name (String.◌∷◌ c s) (b ∷ bs) = code c == b && is_name s bs

unfoldable pub apply_header_field_to_index : Bytes → ℕ → ColumnIndex → ColumnIndex
apply_header_field_to_index key col idx =
    if is_name "tpep_pickup_datetime" key
    then record idx { pickup_datetime = some col }
    else if is_name "tpep_dropoff_datetime" key
    then record idx { dropoff_datetime = some col }
    else if is_name "trip_distance" key
    then record idx { trip_distance = some col }
    else if is_name "payment_type" key
    then record idx { payment_type = some col }
    else if is_name "tip_amount" key
    then record idx { tip_amount = some col }
    else if is_name "total_amount" key
    then record idx { total_amount = some col }
    else idx

unfoldable pub index_fields : ℕ → List Bytes → ColumnIndex → ColumnIndex
index_fields col [] idx = idx
index_fields col (field ∷ fields) idx =
    index_fields (col + 1) fields
      (apply_header_field_to_index (split_header_field_normalize field) col idx)

abbrev is_found : Option ℕ → Bool
is_found none = false
is_found (some col) = true

abbrev pub all_found : ColumnIndex → Bool
all_found idx =
    is_found idx.pickup_datetime
    && is_found idx.dropoff_datetime
    && is_found idx.trip_distance
    && is_found idx.payment_type
    && is_found idx.tip_amount
    && is_found idx.total_amount

abbrev pub checked : Option (List Bytes) → Option ColumnIndex
checked none = none
checked (some fields) =
    let idx = index_fields 0 fields no_columns in if all_found idx then some idx else none

-- `none` where the header is refused, and then every row under it.
unfoldable pub init_from_header : Bytes → Option ColumnIndex
init_from_header line = checked (split_fields false [] line)

abbrev is_column : Option ℕ → ℕ → Bool
is_column none col = false
is_column (some i) col = col == i

module _ (lib : Conversions) where
  abbrev i16_of : Option (ℤ × Bytes) → ℤ
  i16_of none = pos 0
  i16_of (some (value, rest)) =
      if not (is_nil rest)
      then pos 0
      else if ltb_ℤ value (negsuc 32767) || ltb_ℤ (pos 32767) value
      then pos 0
      else value

  unfoldable pub parse_i16 : Bytes → ℤ
  parse_i16 field = if is_nil field then pos 0 else i16_of (lib.from_chars field)

  abbrev or_zero : Option Float32 → Float32
  or_zero none = 0
  or_zero (some x) = x

  unfoldable pub parse_float : Bytes → Float32
  parse_float field = if is_nil field then 0 else or_zero (lib.strtof (take 63 field))

  unfoldable pub handle_field : ColumnIndex → ℕ → Bytes → ParsedPartitionRow → ParsedPartitionRow
  handle_field idx col text row =
      let field = strip_quotes (trim_spaces text) in
      if is_column idx.pickup_datetime col
      then record row { pickup_datetime = parse_epoch_ms lib.timegm field }
      else if is_column idx.dropoff_datetime col
      then record row { dropoff_datetime = parse_epoch_ms lib.timegm field }
      else if is_column idx.trip_distance col
      then record row { trip_distance = parse_float field }
      else if is_column idx.payment_type col
      then record row { payment_type = parse_i16 field }
      else if is_column idx.tip_amount col
      then record row { tip_amount_cents = parse_money_cents field }
      else if is_column idx.total_amount col
      then record row { total_amount_cents = parse_money_cents field }
      else row

  unfoldable pub handle_fields :
      ColumnIndex → ℕ → List Bytes → ParsedPartitionRow → ParsedPartitionRow
  handle_fields idx col [] row = row
  handle_fields idx col (field ∷ fields) row =
      handle_fields idx (col + 1) fields (handle_field idx col field row)

  -- A row without a pickup time is refused.
  abbrev accepted : ColumnIndex → Option (List Bytes) → Option ParsedPartitionRow
  accepted idx none = none
  accepted idx (some fields) =
      let row = handle_fields idx 0 fields empty_row in
      if is_zero row.pickup_datetime then none else some row

  unfoldable pub parse_row : ColumnIndex → Bytes → Option ParsedPartitionRow
  parse_row idx line =
      let row = accepted idx (split_fields false [] line) in if is_nil line then none else row

  abbrev pub partition_csv_parser : RowParser
  partition_csv_parser = record {
    Header = ColumnIndex;
    init_from_header = init_from_header;
    parse_row = parse_row;
  }
