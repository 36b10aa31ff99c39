-- ===== src/TripCsv.antt =====
-- basic/src/taxi_implementation/TaxiTripCSVParser.hpp and TaxiTripCSVParser.cpp: the CSV reader of
-- whole trips. A range of characters is the list of its bytes; the cutting of a line into fields is
-- the one of Csv/Fields. What `parse` leaves in its trip when it returns false is not read.
pub mod Money
pub mod Columns
pub mod Values
pub mod Order
pub mod Agreement
use Prim.Native.Char.{code}
use cmpe275_enterprise_apps.Common.{
  String, ℕ, ◌+◌, ◌-◌, ◌*◌, Bool, true, false, not, ◌&&◌, ◌||◌, List, [], ◌∷◌, Option, none, some,
  ℤ, pos, negsuc, leb, ltb, ◌==◌, if◌then◌else◌, length, take, Float32, map,
}
use cmpe275_enterprise_apps.Model.Trip.{TaxiTrip, empty_trip}
use cmpe275_enterprise_apps.Engine.{Bytes}
use cmpe275_enterprise_apps.Csv.Fields.{split_fields, is_nil}
use cmpe275_enterprise_apps.Csv.Money.{is_digit}
use cmpe275_enterprise_apps.Csv.Dates.{CalendarTime, char_at, ms_or_zero, is_zero}
use cmpe275_enterprise_apps.Csv.Row.{Conversions, is_name, to_lower}
use cmpe275_enterprise_apps.TripCsv.Money.{unquoted, parse_money_cents}
use cmpe275_enterprise_apps.TripCsv.Columns.{ColumnIndex, column_at}
use cmpe275_enterprise_apps.TripCsv.Values.{set_column}

-- `std::string_view::find`, as a test.
unfoldable is_prefix : String → Bytes → Bool
is_prefix String.[] cs = true
is_prefix (String.◌∷◌ c s) [] = false
is_prefix (String.◌∷◌ c s) (b ∷ cs) = code c == b && is_prefix s cs

unfoldable occurs : String → Bytes → Bool
occurs s [] = is_prefix s []
occurs s (b ∷ cs) = is_prefix s (b ∷ cs) || occurs s cs

abbrev is_header_line : Bytes → Bool
is_header_line line = occurs "VendorID" line || occurs "vendorid" line

module _ (lib : Conversions) where
  unfoldable pub handle_fields : Option ColumnIndex → ℕ → List Bytes → TaxiTrip → TaxiTrip
  handle_fields idx col [] out = out
  handle_fields idx col (field ∷ fields) out =
      handle_fields idx (col + 1) fields (set_column lib (column_at idx col) (unquoted field) out)

  abbrev pub accepted : Option ColumnIndex → Option (List Bytes) → Option TaxiTrip
  accepted idx none = none
  accepted idx (some fields) =
      let out = handle_fields idx 0 fields empty_trip in
      if is_zero out.pickup_epoch_ms then none else some out

  -- The trip of a line, or `none` where it is refused.
  unfoldable pub parse : Option ColumnIndex → Bytes → Option TaxiTrip
  parse idx line = if is_nil line then none else accepted idx (split_fields false [] line)
