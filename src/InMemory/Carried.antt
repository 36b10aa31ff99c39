-- ===== src/InMemory/Carried.antt =====
-- What a row takes from the row before it: both ingests read into one record over and over.
use cmpe275_enterprise_apps.Common.{ℕ, List, [], ◌∷◌, ◌≡◌, refl, if◌then◌else◌}
use cmpe275_enterprise_apps.Engine.{Bytes}
use cmpe275_enterprise_apps.InMemory.Record.{TaxiTripRecord, zero_record}
use cmpe275_enterprise_apps.InMemory.Query.{at}
use cmpe275_enterprise_apps.InMemory.Parser.{
  Library, ColumnIndex, get_if, is_null_or_empty, lower, flag_or, parse_row,
}

flag_or_lem :
    (old : ℕ) (field : Bytes)
    → flag_or old field ≡ (if is_null_or_empty field then old else at 0 field 0)
unfolding is_null_or_empty lower
flag_or_lem old [] = refl
flag_or_lem old (c ∷ cs) = refl

-- The record of a row depends on the record before it in its flag alone, which stays where the
-- column has no value, and is the first character of the column else; whether the row is valid does
-- not depend on the record before.
pub parse_row-flag :
    (lib : Library) (cols : List Bytes) (idx : ColumnIndex) (r : TaxiTripRecord)
    → let field = get_if cols idx.store_and_fwd_flag in
      parse_row lib cols idx r ≡ (
        record (parse_row lib cols idx zero_record).0 {
          store_and_fwd_flag =
              if is_null_or_empty field then r.store_and_fwd_flag else at 0 field 0;
        },
        (parse_row lib cols idx zero_record).1,
      )
unfolding parse_row
parse_row-flag lib cols idx r =
    let field = get_if cols idx.store_and_fwd_flag in
    rw (flag_or_lem r.store_and_fwd_flag field) refl
