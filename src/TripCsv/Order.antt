-- ===== src/TripCsv/Order.antt =====
-- The order of the columns by a header, and the fixed order.
use Prim.Native.Char.{code}
use cmpe275_enterprise_apps.Common.{
  ℕ, ◌+◌, String, false, List, [], ◌∷◌, Option, none, some, ◌≡◌, refl, ap, ◌∙◌, map, if◌then◌else◌,
}
use cmpe275_enterprise_apps.Model.Trip.{TaxiTrip, empty_trip}
use cmpe275_enterprise_apps.Engine.{Bytes}
use cmpe275_enterprise_apps.Csv.Fields.{split_fields, is_nil}
use cmpe275_enterprise_apps.Csv.Dates.{is_zero}
use cmpe275_enterprise_apps.Csv.Row.{Conversions, is_name}
use cmpe275_enterprise_apps.TripCsv.Columns.{
  Column, ColumnIndex, no_columns, split_header_field_normalize, apply_header_field_to_index,
  index_fields, checked, init_from_header, column_by_fixed_order, column_by_header_index,
}
use cmpe275_enterprise_apps.TripCsv.Values.{set_column}
use cmpe275_enterprise_apps.TripCsv.{accepted, handle_fields, parse}
use cmpe275_enterprise_apps.TripCsv.Money.{unquoted}

unfoldable pub bytes_of : String → Bytes
bytes_of String.[] = []
bytes_of (String.◌∷◌ c s) = code c ∷ bytes_of s

-- The columns of the published yellow taxi files, in lower case.
abbrev pub tlc_columns : List Bytes
tlc_columns = map bytes_of (
    "vendorid" ∷ "tpep_pickup_datetime" ∷ "tpep_dropoff_datetime" ∷ "passenger_count"
    ∷ "trip_distance" ∷ "ratecodeid" ∷ "store_and_fwd_flag" ∷ "pulocationid" ∷ "dolocationid"
    ∷ "payment_type" ∷ "fare_amount" ∷ "extra" ∷ "mta_tax" ∷ "tip_amount" ∷ "tolls_amount"
    ∷ "improvement_surcharge" ∷ "total_amount" ∷ "congestion_surcharge" ∷ "airport_fee" ∷ [])

-- The index of columns by their normalized names.
index_keys : ℕ → List Bytes → ColumnIndex → ColumnIndex
index_keys col [] idx = idx
index_keys col (key ∷ keys) idx =
    index_keys (col + 1) keys (apply_header_field_to_index key col idx)

index_fields-index_keys :
    (col : ℕ) (fields : List Bytes) (idx : ColumnIndex)
    → index_fields col fields idx ≡ index_keys col (map split_header_field_normalize fields) idx
unfolding index_fields index_keys
index_fields-index_keys col [] idx = refl
index_fields-index_keys col (field ∷ fields) idx =
    index_fields-index_keys (col + 1) fields
      (apply_header_field_to_index (split_header_field_normalize field) col idx)

abbrev tlc_index : ColumnIndex
tlc_index = index_keys 0 tlc_columns no_columns

column_at-tlc : (col : ℕ) → column_by_header_index tlc_index col ≡ column_by_fixed_order col
unfolding column_by_header_index column_by_fixed_order index_keys apply_header_field_to_index
    is_name bytes_of
column_at-tlc col = refl

init_from_header-tlc :
    (header : Bytes) (fields : List Bytes)
    → split_fields false [] header ≡ some fields
    → map split_header_field_normalize fields ≡ tlc_columns
    → init_from_header header ≡ some tlc_index
unfolding init_from_header index_keys apply_header_field_to_index is_name bytes_of
init_from_header-tlc header fields e names =
    let same : index_fields 0 fields no_columns ≡ tlc_index =
      index_fields-index_keys 0 fields no_columns
      ∙ ap (λ (keys : List Bytes). index_keys 0 keys no_columns) names in
    rw (e, checked, same) refl

module _ (lib : Conversions) where
  handle_fields-tlc :
      (col : ℕ) (fields : List Bytes) (out : TaxiTrip)
      → handle_fields lib (some tlc_index) col fields out ≡ handle_fields lib none col fields out
  unfolding handle_fields
  handle_fields-tlc col [] out = refl
  handle_fields-tlc col (field ∷ fields) out =
      handle_fields-tlc (col + 1) fields
        (set_column lib (column_by_header_index tlc_index col) (unquoted field) out)
      ∙ ap
          (λ (c : Option Column).
            handle_fields lib none (col + 1) fields (set_column lib c (unquoted field) out))
          (column_at-tlc col)

  accepted-tlc :
      (fields : Option (List Bytes))
      → accepted lib (some tlc_index) fields ≡ accepted lib none fields
  accepted-tlc none = refl
  accepted-tlc (some fields) =
      ap (λ (out : TaxiTrip). if is_zero out.pickup_epoch_ms then none else some out)
        (handle_fields-tlc 0 fields empty_trip)

  -- Under a header that names the columns of the published files in their order, whatever the case
  -- of the names and the spaces and quotes around them, every line is read as it is by the fixed
  -- order, which holds where no header was given or it was refused.
  pub parse-tlc :
      (header : Bytes) (fields : List Bytes) (line : Bytes)
      → split_fields false [] header ≡ some fields
      → map split_header_field_normalize fields ≡ tlc_columns
      → parse lib (init_from_header header) line ≡ parse lib none line
  unfolding parse
  parse-tlc header fields line e names = rw (init_from_header-tlc header fields e names) (
      ap (λ (r : Option TaxiTrip). if is_nil line then none else r)
        (accepted-tlc (split_fields false [] line)))
