-- ===== src/Tests/Csv.antt =====
-- The CSV parser on a header, a row and amounts.
use Prim.Native.Char.{code}
use cmpe275_enterprise_apps.Common.{
  arith, ◌+◌, ◌*◌, String, true, false, List, [], ◌∷◌, none, some, ◌≡◌, ◌⊎◌, refl, pos, negsuc,
}
use cmpe275_enterprise_apps.Model.Trip.{empty_row}
use cmpe275_enterprise_apps.Engine.{Bytes}
use cmpe275_enterprise_apps.Csv.Fields.{
  split_fields, ends_open, join_fields, trim_spaces, trim_front, trim_back, strip_quotes,
  ends_in_quote, without_last, split_fields_lem, AreWhole,
}
use cmpe275_enterprise_apps.Csv.Money.{
  parse_money_cents, parse_unsigned, read_dollars, with_fraction, read_cents, skip_digits, rounded,
  amount, clamp, clamp_total,
}
use cmpe275_enterprise_apps.Csv.Money.Amounts.{parse_money_cents_lem}
use cmpe275_enterprise_apps.Csv.Row.{
  ColumnIndex, Conversions, init_from_header, parse_row, index_fields, apply_header_field_to_index,
  is_name, split_header_field_normalize, all_found, handle_fields, handle_field, parse_i16,
  parse_float,
}
use cmpe275_enterprise_apps.Csv.Dates.{
  parse_epoch_ms, parse_iso, parse_am_pm, char_at, are_digits, digit_at, two_digits, four_digits,
  find_month, hour_of,
}
use cmpe275_enterprise_apps.Csv.Row.Columns.{IsIndexOf, init_from_header-IsIndexOf}

abbrev pub bytes : String → Bytes
bytes String.[] = []
bytes (String.◌∷◌ c s) = code c ∷ bytes s

abbrev header_line : Bytes
header_line =
    bytes
      "VendorID,tpep_pickup_datetime, \"Tpep_Dropoff_Datetime\",trip_distance,payment_type,tip_amount,Total_Amount"

abbrev columns : ColumnIndex
columns = record {
  pickup_datetime = some 1;
  dropoff_datetime = some 2;
  trip_distance = some 3;
  payment_type = some 4;
  tip_amount = some 5;
  total_amount = some 6;
}

header_accepted : init_from_header header_line ≡ some columns
unfolding init_from_header split_fields index_fields apply_header_field_to_index is_name
    split_header_field_normalize trim_spaces trim_front trim_back strip_quotes ends_in_quote
    without_last
header_accepted = refl

init_from_header-IsIndexOf_example :
    (fields : List Bytes) × (split_fields false [] header_line ≡ some fields)
    × (all_found columns ≡ true)
    × IsIndexOf fields columns
init_from_header-IsIndexOf_example = init_from_header-IsIndexOf header_line columns header_accepted

split_fields_lem_example :
    let line = bytes "1,\"a,b\",2" in
    ((ends_open false line ≡ true) × (split_fields false [] line ≡ none))
    ⊎ ((ends_open false line ≡ false)
        × (f : Bytes) × (fs : List Bytes) × (split_fields false [] line ≡ some (f ∷ fs))
        × (join_fields (f ∷ fs) ≡ line)
        × AreWhole (f ∷ fs))
split_fields_lem_example = split_fields_lem (bytes "1,\"a,b\",2")

quoted_comma :
    split_fields false [] (bytes "1,\"a,b\",2")
    ≡ some (bytes "1" ∷ bytes "\"a,b\"" ∷ bytes "2" ∷ [])
unfolding split_fields
quoted_comma = refl

-- -12.995
parse_money_cents_lem_example : parse_money_cents (bytes "-12.995") ≡ negsuc 1299
unfolding clamp
parse_money_cents_lem_example =
    parse_money_cents_lem true b'1' (b'2' ∷ []) b'9' b'9' (b'5' ∷ []) (refl, (refl, tt))
      (refl, (refl, (refl, tt))) (omega arith)

padded_amount : parse_money_cents (bytes " \"+7.5 \"") ≡ pos 750
unfolding parse_money_cents trim_spaces trim_front trim_back strip_quotes ends_in_quote without_last
    parse_unsigned read_dollars with_fraction read_cents skip_digits rounded amount clamp_total
    clamp
padded_amount = refl

-- Conversions that are enough for the row below.
abbrev pub conversions : Conversions
conversions = record {
  from_chars = λ field. some (pos 2, []);
  strtof = λ field. some 1077936128;
  timegm = λ t. some (pos (t.day * 86400 + t.hour * 3600 + t.minute * 60 + t.second));
}

-- The dropoff time is in the second format; the last amount is too large.
row_parsed :
    parse_row conversions columns
      (bytes "1,2020-01-01 00:28:15,2020 Jan 01 12:33:03 AM,3.0, 2 ,2.455,99999999999")
    ≡ some (record empty_row {
      pickup_datetime = pos 88095000;
      dropoff_datetime = pos 88383000;
      trip_distance = 1077936128;
      payment_type = pos 2;
      tip_amount_cents = pos 246;
      total_amount_cents = pos 2147483647;
    })
unfolding parse_row split_fields handle_fields handle_field trim_spaces trim_front trim_back
    strip_quotes ends_in_quote without_last parse_money_cents parse_unsigned read_dollars
    with_fraction read_cents skip_digits rounded amount clamp_total clamp parse_epoch_ms parse_iso
    parse_am_pm char_at are_digits digit_at two_digits four_digits find_month hour_of parse_i16
    parse_float
row_parsed = refl
