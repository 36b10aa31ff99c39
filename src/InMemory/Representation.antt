-- ===== src/InMemory/Representation.antt =====
-- The columns stand for a list of records.
use cmpe275_enterprise_apps.Common.{◌≡◌, refl, sym, List, [], ◌∷◌, ◌++◌, map}
use mathlib.Core.List.{map-append}
use cmpe275_enterprise_apps.InMemory.Record.{TaxiTripRecord}
use cmpe275_enterprise_apps.InMemory.Columns.{TaxiTripStoreSoa, new_store, clear, push, append_all}

-- Every column holds its field of the records, in their order; so all columns are equally long.
pub record Represents (s : TaxiTripStoreSoa) (records : List TaxiTripRecord) : Type 0 where
  pub vendor_id : s.vendor_id ≡ map (λ (r : TaxiTripRecord). r.vendor_id) records
  pub pickup_datetime : s.pickup_datetime ≡ map (λ (r : TaxiTripRecord). r.pickup_datetime) records
  pub dropoff_datetime :
      s.dropoff_datetime ≡ map (λ (r : TaxiTripRecord). r.dropoff_datetime) records
  pub passenger_count : s.passenger_count ≡ map (λ (r : TaxiTripRecord). r.passenger_count) records
  pub trip_distance : s.trip_distance ≡ map (λ (r : TaxiTripRecord). r.trip_distance) records
  pub rate_code_id : s.rate_code_id ≡ map (λ (r : TaxiTripRecord). r.rate_code_id) records
  pub store_and_fwd_flag :
      s.store_and_fwd_flag ≡ map (λ (r : TaxiTripRecord). r.store_and_fwd_flag) records
  pub pu_location_id : s.pu_location_id ≡ map (λ (r : TaxiTripRecord). r.pu_location_id) records
  pub do_location_id : s.do_location_id ≡ map (λ (r : TaxiTripRecord). r.do_location_id) records
  pub payment_type : s.payment_type ≡ map (λ (r : TaxiTripRecord). r.payment_type) records
  pub fare_amount : s.fare_amount ≡ map (λ (r : TaxiTripRecord). r.fare_amount) records
  pub extra : s.extra ≡ map (λ (r : TaxiTripRecord). r.extra) records
  pub mta_tax : s.mta_tax ≡ map (λ (r : TaxiTripRecord). r.mta_tax) records
  pub tip_amount : s.tip_amount ≡ map (λ (r : TaxiTripRecord). r.tip_amount) records
  pub tolls_amount : s.tolls_amount ≡ map (λ (r : TaxiTripRecord). r.tolls_amount) records
  pub improvement_surcharge :
      s.improvement_surcharge ≡ map (λ (r : TaxiTripRecord). r.improvement_surcharge) records
  pub total_amount : s.total_amount ≡ map (λ (r : TaxiTripRecord). r.total_amount) records
  pub congestion_surcharge :
      s.congestion_surcharge ≡ map (λ (r : TaxiTripRecord). r.congestion_surcharge) records

joined :
    {B : Type 0} (f : TaxiTripRecord → B) {xs ys : List B} (records others : List TaxiTripRecord)
    → xs ≡ map f records
    → ys ≡ map f others
    → xs ++ ys ≡ map f (records ++ others)
joined f records others p q = rw (p, q) (sym (map-append f records others))

pub new_store-Represents : Represents new_store []
unfolding new_store
new_store-Represents = record {
  vendor_id = refl;
  pickup_datetime = refl;
  dropoff_datetime = refl;
  passenger_count = refl;
  trip_distance = refl;
  rate_code_id = refl;
  store_and_fwd_flag = refl;
  pu_location_id = refl;
  do_location_id = refl;
  payment_type = refl;
  fare_amount = refl;
  extra = refl;
  mta_tax = refl;
  tip_amount = refl;
  tolls_amount = refl;
  improvement_surcharge = refl;
  total_amount = refl;
  congestion_surcharge = refl;
}

pub clear-new_store : (s : TaxiTripStoreSoa) → clear s ≡ new_store
unfolding clear new_store
clear-new_store s = refl

-- The columns of a store are appended to those of another.
pub append_all-Represents :
    {s t : TaxiTripStoreSoa} {records others : List TaxiTripRecord}
    → Represents s records
    → Represents t others
    → Represents (append_all t s).0 (records ++ others)
unfolding append_all
append_all-Represents {records} {others} h k = record {
  vendor_id = joined (λ r. r.vendor_id) records others h.vendor_id k.vendor_id;
  pickup_datetime =
      joined (λ r. r.pickup_datetime) records others h.pickup_datetime k.pickup_datetime;
  dropoff_datetime =
      joined (λ r. r.dropoff_datetime) records others h.dropoff_datetime k.dropoff_datetime;
  passenger_count =
      joined (λ r. r.passenger_count) records others h.passenger_count k.passenger_count;
  trip_distance = joined (λ r. r.trip_distance) records others h.trip_distance k.trip_distance;
  rate_code_id = joined (λ r. r.rate_code_id) records others h.rate_code_id k.rate_code_id;
  store_and_fwd_flag =
      joined (λ r. r.store_and_fwd_flag) records others h.store_and_fwd_flag k.store_and_fwd_flag;
  pu_location_id = joined (λ r. r.pu_location_id) records others h.pu_location_id k.pu_location_id;
  do_location_id = joined (λ r. r.do_location_id) records others h.do_location_id k.do_location_id;
  payment_type = joined (λ r. r.payment_type) records others h.payment_type k.payment_type;
  fare_amount = joined (λ r. r.fare_amount) records others h.fare_amount k.fare_amount;
  extra = joined (λ r. r.extra) records others h.extra k.extra;
  mta_tax = joined (λ r. r.mta_tax) records others h.mta_tax k.mta_tax;
  tip_amount = joined (λ r. r.tip_amount) records others h.tip_amount k.tip_amount;
  tolls_amount = joined (λ r. r.tolls_amount) records others h.tolls_amount k.tolls_amount;
  improvement_surcharge =
      joined (λ r. r.improvement_surcharge) records others h.improvement_surcharge
        k.improvement_surcharge;
  total_amount = joined (λ r. r.total_amount) records others h.total_amount k.total_amount;
  congestion_surcharge =
      joined (λ r. r.congestion_surcharge) records others h.congestion_surcharge
        k.congestion_surcharge;
}

pub push-Represents :
    (r : TaxiTripRecord) {s : TaxiTripStoreSoa} {records : List TaxiTripRecord}
    → Represents s records
    → Represents (push r s) (records ++ r ∷ [])
unfolding push
push-Represents r {records} h = record {
  vendor_id = joined (λ r. r.vendor_id) records (r ∷ []) h.vendor_id refl;
  pickup_datetime = joined (λ r. r.pickup_datetime) records (r ∷ []) h.pickup_datetime refl;
  dropoff_datetime = joined (λ r. r.dropoff_datetime) records (r ∷ []) h.dropoff_datetime refl;
  passenger_count = joined (λ r. r.passenger_count) records (r ∷ []) h.passenger_count refl;
  trip_distance = joined (λ r. r.trip_distance) records (r ∷ []) h.trip_distance refl;
  rate_code_id = joined (λ r. r.rate_code_id) records (r ∷ []) h.rate_code_id refl;
  store_and_fwd_flag =
      joined (λ r. r.store_and_fwd_flag) records (r ∷ []) h.store_and_fwd_flag refl;
  pu_location_id = joined (λ r. r.pu_location_id) records (r ∷ []) h.pu_location_id refl;
  do_location_id = joined (λ r. r.do_location_id) records (r ∷ []) h.do_location_id refl;
  payment_type = joined (λ r. r.payment_type) records (r ∷ []) h.payment_type refl;
  fare_amount = joined (λ r. r.fare_amount) records (r ∷ []) h.fare_amount refl;
  extra = joined (λ r. r.extra) records (r ∷ []) h.extra refl;
  mta_tax = joined (λ r. r.mta_tax) records (r ∷ []) h.mta_tax refl;
  tip_amount = joined (λ r. r.tip_amount) records (r ∷ []) h.tip_amount refl;
  tolls_amount = joined (λ r. r.tolls_amount) records (r ∷ []) h.tolls_amount refl;
  improvement_surcharge =
      joined (λ r. r.improvement_surcharge) records (r ∷ []) h.improvement_surcharge refl;
  total_amount = joined (λ r. r.total_amount) records (r ∷ []) h.total_amount refl;
  congestion_surcharge =
      joined (λ r. r.congestion_surcharge) records (r ∷ []) h.congestion_surcharge refl;
}
