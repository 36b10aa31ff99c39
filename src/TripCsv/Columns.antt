-- ===== src/TripCsv/Columns.antt =====
-- The columns of a trip file: by its header, and by the fixed order. `idx_` counts only with
-- `hasHeaderIndex_`, so that both together are an optional index here.
use cmpe275_enterprise_apps.Common.{
  ℕ, ◌+◌, Bool, true, false, not, ◌&&◌, List, [], ◌∷◌, Option, none, some, ◌==◌, if◌then◌else◌, map,
}
use cmpe275_enterprise_apps.Engine.{Bytes}
use cmpe275_enterprise_apps.Csv.Fields.{split_fields}
use cmpe275_enterprise_apps.Csv.Row.{is_name, to_lower}
use cmpe275_enterprise_apps.TripCsv.Money.{unquoted}

-- A column that the reader knows.
pub data Column : Type 0 where
  vendor_id : Column
  pickup_datetime : Column
  dropoff_datetime : Column
  passenger_count : Column
  trip_distance : Column
  rate_code_id : Column
  store_and_fwd_flag : Column
  pickup_location_id : Column
  drop_location_id : Column
  payment_type : Column
  fare_amount : Column
  extra : Column
  mta_tax : Column
  tip_amount : Column
  tolls_amount : Column
  improvement_surcharge : Column
  total_amount : Column
  congestion_surcharge : Column
  airport_fee : Column

-- The columns of a header; `none` for -1.
pub record ColumnIndex : Type 0 where
  pub vendor_id_at : Option ℕ
  pub pickup_datetime_at : Option ℕ
  pub dropoff_datetime_at : Option ℕ
  pub passenger_count_at : Option ℕ
  pub trip_distance_at : Option ℕ
  pub rate_code_id_at : Option ℕ
  pub store_and_fwd_flag_at : Option ℕ
  pub pickup_location_id_at : Option ℕ
  pub drop_location_id_at : Option ℕ
  pub payment_type_at : Option ℕ
  pub fare_amount_at : Option ℕ
  pub extra_at : Option ℕ
  pub mta_tax_at : Option ℕ
  pub tip_amount_at : Option ℕ
  pub tolls_amount_at : Option ℕ
  pub improvement_surcharge_at : Option ℕ
  pub total_amount_at : Option ℕ
  pub congestion_surcharge_at : Option ℕ
  pub airport_fee_at : Option ℕ

abbrev pub no_columns : ColumnIndex
no_columns = record {
  vendor_id_at = none;
  pickup_datetime_at = none;
  dropoff_datetime_at = none;
  passenger_count_at = none;
  trip_distance_at = none;
  rate_code_id_at = none;
  store_and_fwd_flag_at = none;
  pickup_location_id_at = none;
  drop_location_id_at = none;
  payment_type_at = none;
  fare_amount_at = none;
  extra_at = none;
  mta_tax_at = none;
  tip_amount_at = none;
  tolls_amount_at = none;
  improvement_surcharge_at = none;
  total_amount_at = none;
  congestion_surcharge_at = none;
  airport_fee_at = none;
}

unfoldable pub split_header_field_normalize : Bytes → Bytes
split_header_field_normalize field = map to_lower (unquoted field)

unfoldable pub apply_header_field_to_index : Bytes → ℕ → ColumnIndex → ColumnIndex
apply_header_field_to_index key col idx =
    if is_name "vendorid" key
    then record idx { vendor_id_at = some col }
    else if is_name "tpep_pickup_datetime" key
    then record idx { pickup_datetime_at = some col }
    else if is_name "tpep_dropoff_datetime" key
    then record idx { dropoff_datetime_at = some col }
    else if is_name "passenger_count" key
    then record idx { passenger_count_at = some col }
    else if is_name "trip_distance" key
    then record idx { trip_distance_at = some col }
    else if is_name "ratecodeid" key
    then record idx { rate_code_id_at = some col }
    else if is_name "store_and_fwd_flag" key
    then record idx { store_and_fwd_flag_at = some col }
    else if is_name "pulocationid" key
    then record idx { pickup_location_id_at = some col }
    else if is_name "dolocationid" key
    then record idx { drop_location_id_at = some col }
    else if is_name "payment_type" key
    then record idx { payment_type_at = some col }
    else if is_name "fare_amount" key
    then record idx { fare_amount_at = some col }
    else if is_name "extra" key
    then record idx { extra_at = some col }
    else if is_name "mta_tax" key
    then record idx { mta_tax_at = some col }
    else if is_name "tip_amount" key
    then record idx { tip_amount_at = some col }
    else if is_name "tolls_amount" key
    then record idx { tolls_amount_at = some col }
    else if is_name "improvement_surcharge" key
    then record idx { improvement_surcharge_at = some col }
    else if is_name "total_amount" key
    then record idx { total_amount_at = some col }
    else if is_name "congestion_surcharge" key
    then record idx { congestion_surcharge_at = some col }
    else if is_name "airport_fee" key
    then record idx { airport_fee_at = some col }
    else idx

unfoldable pub index_fields : ℕ → List Bytes → ColumnIndex → ColumnIndex
index_fields col [] idx = idx
index_fields col (field ∷ fields) idx =
    index_fields (col + 1) fields
      (apply_header_field_to_index (split_header_field_normalize field) col idx)

abbrev is_found : Option ℕ → Bool
is_found none = false
is_found (some col) = true

abbrev pub checked : Option (List Bytes) → Option ColumnIndex
checked none = none
checked (some fields) =
    let idx = index_fields 0 fields no_columns in
    if not (
      is_found idx.vendor_id_at
      && is_found idx.pickup_datetime_at
      && is_found idx.dropoff_datetime_at)
    then none
    else some idx

-- The columns of a header, or `none` where it is refused.
unfoldable pub init_from_header : Bytes → Option ColumnIndex
init_from_header line = checked (split_fields false [] line)

abbrev is_at : Option ℕ → ℕ → Bool
is_at none col = false
is_at (some i) col = col == i

-- The `switch` of the fixed order.
unfoldable pub column_by_fixed_order : ℕ → Option Column
column_by_fixed_order col =
    if col == 0
    then some vendor_id
    else if col == 1
    then some pickup_datetime
    else if col == 2
    then some dropoff_datetime
    else if col == 3
    then some passenger_count
    else if col == 4
    then some trip_distance
    else if col == 5
    then some rate_code_id
    else if col == 6
    then some store_and_fwd_flag
    else if col == 7
    then some pickup_location_id
    else if col == 8
    then some drop_location_id
    else if col == 9
    then some payment_type
    else if col == 10
    then some fare_amount
    else if col == 11
    then some extra
    else if col == 12
    then some mta_tax
    else if col == 13
    then some tip_amount
    else if col == 14
    then some tolls_amount
    else if col == 15
    then some improvement_surcharge
    else if col == 16
    then some total_amount
    else if col == 17
    then some congestion_surcharge
    else if col == 18
    then some airport_fee
    else none

-- The chain of tests of the header's order.
unfoldable pub column_by_header_index : ColumnIndex → ℕ → Option Column
column_by_header_index idx col =
    if is_at idx.vendor_id_at col
    then some vendor_id
    else if is_at idx.pickup_datetime_at col
    then some pickup_datetime
    else if is_at idx.dropoff_datetime_at col
    then some dropoff_datetime
    else if is_at idx.passenger_count_at col
    then some passenger_count
    else if is_at idx.trip_distance_at col
    then some trip_distance
    else if is_at idx.rate_code_id_at col
    then some rate_code_id
    else if is_at idx.store_and_fwd_flag_at col
    then some store_and_fwd_flag
    else if is_at idx.pickup_location_id_at col
    then some pickup_location_id
    else if is_at idx.drop_location_id_at col
    then some drop_location_id
    else if is_at idx.payment_type_at col
    then some payment_type
    else if is_at idx.fare_amount_at col
    then some fare_amount
    else if is_at idx.extra_at col
    then some extra
    else if is_at idx.mta_tax_at col
    then some mta_tax
    else if is_at idx.tip_amount_at col
    then some tip_amount
    else if is_at idx.tolls_amount_at col
    then some tolls_amount
    else if is_at idx.improvement_surcharge_at col
    then some improvement_surcharge
    else if is_at idx.total_amount_at col
    then some total_amount
    else if is_at idx.congestion_surcharge_at col
    then some congestion_surcharge
    else if is_at idx.airport_fee_at col
    then some airport_fee
    else none

abbrev pub column_at : Option ColumnIndex → ℕ → Option Column
column_at none col = column_by_fixed_order col
column_at (some idx) col = column_by_header_index idx col
