-- ===== src/InMemory/Parser.antt =====
-- taxiTripParser.hpp and taxiTripParser.cpp: the CSV parser of the records. A text is the list of
-- its bytes. `trim`, which nothing calls, is left out.
use cmpe275_enterprise_apps.Common.{
  ℕ, ◌+◌, ◌-◌, ◌%◌, ◌^◌, String, Bool, true, false, not, ◌&&◌, ◌||◌, List, [], ◌∷◌, ◌++◌, Option,
  none, some, ℤ, pos, negsuc, ltb, ◌==◌, if◌then◌else◌, take, map, Float32, ltb_ℤ, ltb_float,
}
use cmpe275_enterprise_apps.Engine.{Bytes}
use cmpe275_enterprise_apps.Csv.Fields.{is_nil}
use cmpe275_enterprise_apps.Csv.Dates.{ms_or_zero}
use cmpe275_enterprise_apps.Csv.Row.{is_name, to_lower}
use cmpe275_enterprise_apps.InMemory.Record.{TaxiTripRecord}
use cmpe275_enterprise_apps.InMemory.Query.{at}

-- The seven values that the `sscanf` of `parseDateTimeToEpochMsUTC` reads.
pub record ScannedDate : Type 0 where
  pub year : ℤ
  pub mon : Bytes
  pub day : ℤ
  pub hours : ℤ
  pub minutes : ℤ
  pub seconds : ℤ
  pub am_pm : Bytes

-- The `std::tm` that it makes, there with the year from 1900 on; months count from 0.
pub record Tm : Type 0 where
  pub year : ℤ
  pub month : ℕ
  pub day : ℤ
  pub hour : ℕ
  pub minute : ℤ
  pub second : ℤ

-- What the parser uses of the C++ library: `std::stof` and `std::stod`, `none` where they throw, the
-- conversion of a `float` to `int16_t`, the product of a `double` by 100, `std::llround`, the scan
-- of a date, `none` where it reads fewer than seven values, and `timegm`, `none` for -1. A `double`
-- is its 64 bits.
pub record Library : Type 0 where
  pub stof : Bytes → Option Float32
  pub to_int16 : Float32 → ℤ
  pub stod : Bytes → Option ℕ
  pub times_100 : ℕ → ℕ
  pub llround : ℕ → ℤ
  pub scan_date : Bytes → Option ScannedDate
  pub timegm : Tm → Option ℤ

-- `static_cast<int32_t>` of a 64-bit integer.
abbrev signed32 : ℕ → ℤ
signed32 n = if ltb n (2 ^ 31) then pos n else negsuc (2 ^ 32 - 1 - n)

abbrev to_i32 : ℤ → ℤ
to_i32 (pos n) = signed32 (n % 2 ^ 32)
to_i32 (negsuc n) = signed32 (2 ^ 32 - 1 - n % 2 ^ 32)

unfoldable pub lower : Bytes → Bytes
lower s = map to_lower s

unfoldable pub is_null_or_empty : Bytes → Bool
is_null_or_empty s =
    let temp = lower s in
    is_nil temp || is_name "null" temp || is_name "na" temp || is_name "n/a" temp

unfoldable pub get_if : List Bytes → Option ℕ → Bytes
get_if cols none = []
get_if cols (some i) = at [] cols i

abbrev months : List String
months =
    "jan" ∷ "feb" ∷ "mar" ∷ "apr" ∷ "may" ∷ "jun" ∷ "jul" ∷ "aug" ∷ "sep" ∷ "oct" ∷ "nov" ∷ "dec"
    ∷ []

unfoldable pub month_loop : ℕ → List String → Bytes → Option ℕ
month_loop i [] m = none
month_loop i (name ∷ names) m = if is_name name m then some i else month_loop (i + 1) names m

unfoldable pub month_from_abbrev : Bytes → Option ℕ
month_from_abbrev mon = month_loop 0 months (lower (take 3 mon))

abbrev pub starts_with : ℕ → ℕ → Bytes → Bool
starts_with a b [] = false
starts_with a b (c ∷ cs) = c == a || c == b

-- The hour of the day.
abbrev hour_24 : Bool → ℤ → Option ℕ
hour_24 is_pm (negsuc h) = none
hour_24 is_pm (pos h) =
    if ltb h 1 || ltb 12 h
    then none
    else some ((if h == 12 then 0 else h) + (if is_pm then 12 else 0))

-- `inQuotes`, the column that is open, and whether the next character is one that `++i` passes over.
unfoldable pub split_loop : Bool → Bool → Bytes → Bytes → List Bytes
split_loop skip in_quotes curr [] = curr ∷ []
split_loop true in_quotes curr (c ∷ cs) = split_loop false in_quotes curr cs
split_loop false in_quotes curr (c ∷ cs) =
    let escaped = split_loop true in_quotes (curr ++ b'"' ∷ []) cs in
    let toggled = split_loop false (not in_quotes) curr cs in
    let next = split_loop false in_quotes [] cs in
    let longer = split_loop false in_quotes (curr ++ c ∷ []) cs in
    if c == b'"'
    then (if in_quotes && starts_with b'"' b'"' cs then escaped else toggled)
    else if c == b',' && not in_quotes
    then curr ∷ next
    else longer

unfoldable pub split_csv : Bytes → List Bytes
split_csv line = split_loop false false [] line

-- The header map, the newest entry of a name first.
abbrev pub ColMap : Type 0
ColMap = List (Bytes × ℕ)

unfoldable pub header_loop : ℕ → List Bytes → ColMap → ColMap
header_loop i [] header_map = header_map
header_loop i (col ∷ cols) header_map = header_loop (i + 1) cols ((lower col, i) ∷ header_map)

unfoldable pub build_header_map : Bytes → ColMap
build_header_map header_line = header_loop 0 (split_csv header_line) []

-- `none` for -1.
unfoldable pub get_column : ColMap → String → Option ℕ
get_column [] key = none
get_column ((name, i) ∷ header_map) key =
    if is_name key name then some i else get_column header_map key

pub record ColumnIndex : Type 0 where
  pub vendor_id : Option ℕ
  pub pickup_datetime : Option ℕ
  pub dropoff_datetime : Option ℕ
  pub passenger_count : Option ℕ
  pub trip_distance : Option ℕ
  pub rate_code_id : Option ℕ
  pub store_and_fwd_flag : Option ℕ
  pub pu_location_id : Option ℕ
  pub do_location_id : Option ℕ
  pub payment_type : Option ℕ
  pub fare_amount : Option ℕ
  pub extra : Option ℕ
  pub mta_tax : Option ℕ
  pub tip_amount : Option ℕ
  pub tolls_amount : Option ℕ
  pub improvement_surcharge : Option ℕ
  pub total_amount : Option ℕ
  pub congestion_surcharge : Option ℕ

unfoldable pub build_column_index : ColMap → ColumnIndex
build_column_index m = record {
  vendor_id = get_column m "vendorid";
  pickup_datetime = get_column m "tpep_pickup_datetime";
  dropoff_datetime = get_column m "tpep_dropoff_datetime";
  passenger_count = get_column m "passenger_count";
  trip_distance = get_column m "trip_distance";
  rate_code_id = get_column m "ratecodeid";
  store_and_fwd_flag = get_column m "store_and_fwd_flag";
  pu_location_id = get_column m "pulocationid";
  do_location_id = get_column m "dolocationid";
  payment_type = get_column m "payment_type";
  fare_amount = get_column m "fare_amount";
  extra = get_column m "extra";
  mta_tax = get_column m "mta_tax";
  tip_amount = get_column m "tip_amount";
  tolls_amount = get_column m "tolls_amount";
  improvement_surcharge = get_column m "improvement_surcharge";
  total_amount = get_column m "total_amount";
  congestion_surcharge = get_column m "congestion_surcharge";
}

-- The flag of a record stays as it was where its column has no value.
abbrev pub flag_or : ℕ → Bytes → ℕ
flag_or old [] = old
flag_or old (c ∷ cs) = if is_null_or_empty (c ∷ cs) then old else c

module _ (lib : Library) where
  abbrev float_or_zero : Option Float32 → Float32
  float_or_zero none = 0
  float_or_zero (some x) = x

  unfoldable pub to_float : Bytes → Float32
  to_float s = if is_null_or_empty s then 0 else float_or_zero (lib.stof s)

  abbrev int16_or_zero : Option Float32 → ℤ
  int16_or_zero none = pos 0
  int16_or_zero (some x) = lib.to_int16 x

  unfoldable pub to_int16 : Bytes → ℤ
  to_int16 s = if is_null_or_empty s then pos 0 else int16_or_zero (lib.stof s)

  abbrev cents_or_zero : Option ℕ → ℤ
  cents_or_zero none = pos 0
  cents_or_zero (some x) = to_i32 (lib.llround (lib.times_100 x))

  unfoldable pub to_int32 : Bytes → ℤ
  to_int32 s = if is_null_or_empty s then pos 0 else cents_or_zero (lib.stod s)

  abbrev at_hour : ScannedDate → ℕ → Option ℕ → ℤ
  at_hour d month none = pos 0
  at_hour d month (some hour) = ms_or_zero (
      lib.timegm (record {
        year = d.year;
        month = month;
        day = d.day;
        hour = hour;
        minute = d.minutes;
        second = d.seconds;
      }))

  abbrev in_month : ScannedDate → Option ℕ → ℤ
  in_month d none = pos 0
  in_month d (some month) =
      let is_pm = starts_with b'P' b'p' d.am_pm in
      let is_am = starts_with b'A' b'a' d.am_pm in
      if not is_am && not is_pm then pos 0 else at_hour d month (hour_24 is_pm d.hours)

  abbrev scanned : Option ScannedDate → ℤ
  scanned none = pos 0
  scanned (some d) = in_month d (month_from_abbrev d.mon)

  unfoldable pub parse_date_time : Bytes → ℤ
  parse_date_time s = if is_nil s then pos 0 else scanned (lib.scan_date s)

  -- The record, and whether it is valid.
  unfoldable pub parse_row : List Bytes → ColumnIndex → TaxiTripRecord → TaxiTripRecord × Bool
  parse_row cols idx r =
      let distance = to_float (get_if cols idx.trip_distance) in
      let passengers = to_int16 (get_if cols idx.passenger_count) in
      (
        record {
          vendor_id = to_int16 (get_if cols idx.vendor_id);
          pickup_datetime = parse_date_time (get_if cols idx.pickup_datetime);
          dropoff_datetime = parse_date_time (get_if cols idx.dropoff_datetime);
          passenger_count = passengers;
          trip_distance = distance;
          rate_code_id = to_int16 (get_if cols idx.rate_code_id);
          store_and_fwd_flag = flag_or r.store_and_fwd_flag (get_if cols idx.store_and_fwd_flag);
          pu_location_id = to_int16 (get_if cols idx.pu_location_id);
          do_location_id = to_int16 (get_if cols idx.do_location_id);
          payment_type = to_int16 (get_if cols idx.payment_type);
          fare_amount = to_int32 (get_if cols idx.fare_amount);
          extra = to_int32 (get_if cols idx.extra);
          mta_tax = to_int32 (get_if cols idx.mta_tax);
          tip_amount = to_int32 (get_if cols idx.tip_amount);
          tolls_amount = to_int32 (get_if cols idx.tolls_amount);
          improvement_surcharge = to_int32 (get_if cols idx.improvement_surcharge);
          total_amount = to_int32 (get_if cols idx.total_amount);
          congestion_surcharge = to_int32 (get_if cols idx.congestion_surcharge);
        },
        not (ltb_float distance 0 || ltb_ℤ passengers (pos 0)),
      )
