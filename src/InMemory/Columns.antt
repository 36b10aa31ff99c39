-- ===== src/InMemory/Columns.antt =====
-- phase3/taxiTripStoreSoa.hpp: the store as 18 columns. Reserving is left out.
use cmpe275_enterprise_apps.Common.{ℕ, List, [], ◌∷◌, ◌++◌, ℤ, Float32, length}
use cmpe275_enterprise_apps.InMemory.Record.{TaxiTripRecord}

pub record TaxiTripStoreSoa : Type 0 where
  pub vendor_id : List ℤ
  pub pickup_datetime : List ℤ
  pub dropoff_datetime : List ℤ
  pub passenger_count : List ℤ
  pub trip_distance : List Float32
  pub rate_code_id : List ℤ
  pub store_and_fwd_flag : List ℕ
  pub pu_location_id : List ℤ
  pub do_location_id : List ℤ
  pub payment_type : List ℤ
  pub fare_amount : List ℤ
  pub extra : List ℤ
  pub mta_tax : List ℤ
  pub tip_amount : List ℤ
  pub tolls_amount : List ℤ
  pub improvement_surcharge : List ℤ
  pub total_amount : List ℤ
  pub congestion_surcharge : List ℤ

abbrev pub size : TaxiTripStoreSoa → ℕ
size s = length s.pickup_datetime

unfoldable pub clear : TaxiTripStoreSoa → TaxiTripStoreSoa
clear s = record {
  vendor_id = [];
  pickup_datetime = [];
  dropoff_datetime = [];
  passenger_count = [];
  trip_distance = [];
  rate_code_id = [];
  store_and_fwd_flag = [];
  pu_location_id = [];
  do_location_id = [];
  payment_type = [];
  fare_amount = [];
  extra = [];
  mta_tax = [];
  tip_amount = [];
  tolls_amount = [];
  improvement_surcharge = [];
  total_amount = [];
  congestion_surcharge = [];
}

-- A store as it is made.
unfoldable pub new_store : TaxiTripStoreSoa
new_store = record {
  vendor_id = [];
  pickup_datetime = [];
  dropoff_datetime = [];
  passenger_count = [];
  trip_distance = [];
  rate_code_id = [];
  store_and_fwd_flag = [];
  pu_location_id = [];
  do_location_id = [];
  payment_type = [];
  fare_amount = [];
  extra = [];
  mta_tax = [];
  tip_amount = [];
  tolls_amount = [];
  improvement_surcharge = [];
  total_amount = [];
  congestion_surcharge = [];
}

-- The arguments of `push` are the fields of the record that its callers take them from.
unfoldable pub push : TaxiTripRecord → TaxiTripStoreSoa → TaxiTripStoreSoa
push r s = record {
  vendor_id = s.vendor_id ++ r.vendor_id ∷ [];
  pickup_datetime = s.pickup_datetime ++ r.pickup_datetime ∷ [];
  dropoff_datetime = s.dropoff_datetime ++ r.dropoff_datetime ∷ [];
  passenger_count = s.passenger_count ++ r.passenger_count ∷ [];
  trip_distance = s.trip_distance ++ r.trip_distance ∷ [];
  rate_code_id = s.rate_code_id ++ r.rate_code_id ∷ [];
  store_and_fwd_flag = s.store_and_fwd_flag ++ r.store_and_fwd_flag ∷ [];
  pu_location_id = s.pu_location_id ++ r.pu_location_id ∷ [];
  do_location_id = s.do_location_id ++ r.do_location_id ∷ [];
  payment_type = s.payment_type ++ r.payment_type ∷ [];
  fare_amount = s.fare_amount ++ r.fare_amount ∷ [];
  extra = s.extra ++ r.extra ∷ [];
  mta_tax = s.mta_tax ++ r.mta_tax ∷ [];
  tip_amount = s.tip_amount ++ r.tip_amount ∷ [];
  tolls_amount = s.tolls_amount ++ r.tolls_amount ∷ [];
  improvement_surcharge = s.improvement_surcharge ++ r.improvement_surcharge ∷ [];
  total_amount = s.total_amount ++ r.total_amount ∷ [];
  congestion_surcharge = s.congestion_surcharge ++ r.congestion_surcharge ∷ [];
}

-- The columns of `other`, which is cleared, go behind those of `s`: both stores.
unfoldable pub append_all :
    TaxiTripStoreSoa → TaxiTripStoreSoa → TaxiTripStoreSoa × TaxiTripStoreSoa
append_all other s = (
  record {
    vendor_id = s.vendor_id ++ other.vendor_id;
    pickup_datetime = s.pickup_datetime ++ other.pickup_datetime;
    dropoff_datetime = s.dropoff_datetime ++ other.dropoff_datetime;
    passenger_count = s.passenger_count ++ other.passenger_count;
    trip_distance = s.trip_distance ++ other.trip_distance;
    rate_code_id = s.rate_code_id ++ other.rate_code_id;
    store_and_fwd_flag = s.store_and_fwd_flag ++ other.store_and_fwd_flag;
    pu_location_id = s.pu_location_id ++ other.pu_location_id;
    do_location_id = s.do_location_id ++ other.do_location_id;
    payment_type = s.payment_type ++ other.payment_type;
    fare_amount = s.fare_amount ++ other.fare_amount;
    extra = s.extra ++ other.extra;
    mta_tax = s.mta_tax ++ other.mta_tax;
    tip_amount = s.tip_amount ++ other.tip_amount;
    tolls_amount = s.tolls_amount ++ other.tolls_amount;
    improvement_surcharge = s.improvement_surcharge ++ other.improvement_surcharge;
    total_amount = s.total_amount ++ other.total_amount;
    congestion_surcharge = s.congestion_surcharge ++ other.congestion_surcharge;
  },
  clear other,
)
