-- ===== src/Protocol.antt =====
-- basic/proto/query.proto: the messages of the query service, one record each. A field of a message
-- type and an `optional` one may be absent; every other field has a value. A string of arbitrary
-- bytes is the list of them.
use cmpe275_enterprise_apps.Common.{ℕ, String, Bool, List, Option, ℤ, Float32}
use cmpe275_enterprise_apps.Model.Request.{Range}
use cmpe275_enterprise_apps.Engine.{Bytes}

pub record QueryFilter : Type 0 where
  pub pickup_range : Option (Range ℤ)
  pub dropoff_range : Option (Range ℤ)
  pub distance_range : Option (Range Float32)
  pub total_cents_range : Option (Range ℤ)
  pub tip_cents_range : Option (Range ℤ)
  pub payment_type : Option ℤ

pub record SubmitQueryRequest : Type 0 where
  pub filter : QueryFilter
  pub preferred_chunk_size : ℕ
  pub client_tag : String
  pub visited_node_ids : List String
  pub scan_row_budget : ℕ

pub record SubmitQueryReply : Type 0 where
  pub accepted : Bool
  pub request_id : String
  pub node_id : String
  pub message : String

pub record FetchChunkRequest : Type 0 where
  pub request_id : String
  pub max_rows : ℕ

pub record TripRow : Type 0 where
  pub row_id : ℕ
  pub source_node_id : String
  pub vendor_id : ℤ
  pub pickup_datetime : ℤ
  pub dropoff_datetime : ℤ
  pub passenger_count : ℤ
  pub trip_distance : Float32
  pub rate_code_id : ℤ
  pub store_and_fwd_flag : Bytes
  pub pu_location_id : ℤ
  pub do_location_id : ℤ
  pub payment_type : ℤ
  pub fare_amount : ℤ
  pub extra : ℤ
  pub mta_tax : ℤ
  pub tip_amount : ℤ
  pub tolls_amount : ℤ
  pub improvement_surcharge : ℤ
  pub total_amount : ℤ
  pub congestion_surcharge : ℤ

pub record FetchChunkReply : Type 0 where
  pub found : Bool
  pub request_id : String
  pub node_id : String
  pub rows : List TripRow
  pub done : Bool
  pub rows_returned : ℕ
  pub message : String

pub record CancelQueryRequest : Type 0 where
  pub request_id : String

pub record CancelQueryReply : Type 0 where
  pub success : Bool
  pub request_id : String
  pub node_id : String
  pub message : String

pub record SubmitSubQueryRequest : Type 0 where
  pub parent_request_id : String
  pub origin_node_id : String
  pub filter : QueryFilter
  pub preferred_chunk_size : ℕ
  pub visited_node_ids : List String
  pub scan_row_budget : ℕ

pub record SubmitSubQueryReply : Type 0 where
  pub accepted : Bool
  pub request_id : String
  pub node_id : String
  pub message : String

pub record FetchSubChunkRequest : Type 0 where
  pub request_id : String
  pub max_rows : ℕ

pub record FetchSubChunkReply : Type 0 where
  pub found : Bool
  pub request_id : String
  pub node_id : String
  pub rows : List TripRow
  pub done : Bool
  pub rows_returned : ℕ
  pub message : String

pub record CancelSubQueryRequest : Type 0 where
  pub request_id : String

pub record CancelSubQueryReply : Type 0 where
  pub success : Bool
  pub request_id : String
  pub node_id : String
  pub message : String
