-- ===== src/Tests/Trips.antt =====
-- Two files of trips, and the queries over them.
use mathlib.Core.List.{Permᴰ}
use cmpe275_enterprise_apps.Common.{
  String, true, List, [], ◌∷◌, none, some, ◌≡◌, refl, arith, ◌==◌, take, map,
}
use cmpe275_enterprise_apps.Engine.{Bytes}
use cmpe275_enterprise_apps.Csv.Fields.{split_fields}
use cmpe275_enterprise_apps.Csv.Money
use cmpe275_enterprise_apps.TripCsv.Columns.{init_from_header, split_header_field_normalize}
use cmpe275_enterprise_apps.TripCsv.{parse}
use cmpe275_enterprise_apps.TripCsv.Money.{
  trim_spaces, trim_front, trim_back, strip_quotes, parse_money_cents,
}
use cmpe275_enterprise_apps.TripCsv.Order.{bytes_of, parse-tlc}
use cmpe275_enterprise_apps.TripCsv.Agreement.{parse_money_cents-parse_money_cents}
use cmpe275_enterprise_apps.Dataset.Predicates.{Predicate}
use cmpe275_enterprise_apps.Dataset.Serial.{HasCounts, matching, rows_of, query_files-HasCounts}
use cmpe275_enterprise_apps.Dataset.Schedule.{unstopped, query_files_parallel-query_files}
use cmpe275_enterprise_apps.Dataset.Collecting.{query_files_collect}
use cmpe275_enterprise_apps.Dataset.Keeping.{Keeps, query_files_collect-Keeps}
use cmpe275_enterprise_apps.Dataset.Batches.{
  query_file_batch_parallel, query_file_batch_parallel-query_file,
}
use cmpe275_enterprise_apps.Dataset.{
  Files, never, query_files, query_files_parallel, query_file, drop_return,
}
use cmpe275_enterprise_apps.Tests.Csv.{bytes, conversions}

abbrev names : List String
names =
    "VendorID" ∷ "tpep_pickup_datetime" ∷ "tpep_dropoff_datetime" ∷ "passenger_count"
    ∷ "trip_distance" ∷ "RatecodeID" ∷ "store_and_fwd_flag" ∷ "PULocationID" ∷ "DOLocationID"
    ∷ "payment_type" ∷ "fare_amount" ∷ "extra" ∷ "mta_tax" ∷ "tip_amount" ∷ "tolls_amount"
    ∷ "improvement_surcharge" ∷ "total_amount" ∷ "congestion_surcharge" ∷ "Airport_fee" ∷ []

abbrev header : Bytes
header =
    bytes
      "VendorID,tpep_pickup_datetime,tpep_dropoff_datetime,passenger_count,trip_distance,RatecodeID,store_and_fwd_flag,PULocationID,DOLocationID,payment_type,fare_amount,extra,mta_tax,tip_amount,tolls_amount,improvement_surcharge,total_amount,congestion_surcharge,Airport_fee"

abbrev content : List Bytes
content =
    header
    ∷ bytes "1,2024-01-01 00:00:05,2024-01-01 00:10:00"
    ∷ (b'x' ∷ 13 ∷ [])
    ∷ bytes "2,2024-01-01 00:00:06,2024-01-01 00:10:00"
    ∷ []

abbrev files : Files
files = record {
  is_regular_file = λ path. true;
  lines = λ path. some content;
  directory = λ path. none;
}

abbrev second_vendor : Predicate
second_vendor trip = trip.vendor_id == 2

abbrev order : List String
order = "jan.csv" ∷ "feb.csv" ∷ []

parse-tlc_example :
    parse conversions (init_from_header header) (bytes "1,2024-01-01 00:00:05")
    ≡ parse conversions none (bytes "1,2024-01-01 00:00:05")
unfolding split_fields split_header_field_normalize strip_quotes trim_spaces trim_front trim_back
    bytes_of
parse-tlc_example =
    parse-tlc conversions header (map bytes names) (bytes "1,2024-01-01 00:00:05") refl refl

parse_money_cents-parse_money_cents_example :
    parse_money_cents (bytes "-1.5") ≡ Money.parse_money_cents (bytes "-1.5")
parse_money_cents-parse_money_cents_example =
    parse_money_cents-parse_money_cents (bytes "-1.5") (refl, (refl, (refl, (refl, tt))))

query_files-HasCounts_example :
    HasCounts second_vendor
      (rows_of conversions files second_vendor order)
      (query_files conversions files second_vendor never order)
query_files-HasCounts_example = query_files-HasCounts conversions files second_vendor order

query_files_parallel-query_files_example :
    query_files_parallel conversions files second_vendor (unstopped ("feb.csv" ∷ "jan.csv" ∷ []))
    ≡ query_files conversions files second_vendor never order
query_files_parallel-query_files_example =
    query_files_parallel-query_files conversions files second_vendor order
      ("feb.csv" ∷ "jan.csv" ∷ []) (Permᴰ.swap refl refl) (refl, (refl, tt))

query_files_collect-Keeps_example :
    Keeps conversions files second_vendor
      (take 1 (matching second_vendor (rows_of conversions files second_vendor order)))
      (query_files_collect conversions files second_vendor never 1 order)
query_files_collect-Keeps_example =
    query_files_collect-Keeps conversions files second_vendor 1 order (omega arith)

query_file_batch_parallel-query_file_example :
    query_file_batch_parallel conversions files second_vendor 4 "jan.csv" 2
    ≡ some (query_file conversions files second_vendor never 0 "jan.csv").0
unfolding drop_return
query_file_batch_parallel-query_file_example =
    query_file_batch_parallel-query_file conversions files second_vendor 4 "jan.csv" 2 0
      (omega arith) (refl, (refl, (refl, tt))) (omega arith)
