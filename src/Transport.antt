-- ===== src/Transport.antt =====
-- basic/src/transport/QueryProtoConverters.cpp: requests and trips to and from the messages of the
-- query service.
pub mod Client
pub mod RoundTrip
use cmpe275_enterprise_apps.Common.{
  ℕ, ◌%◌, ◌^◌, String, Bool, true, List, [], ◌∷◌, ◌++◌, Option, none, some, pos, ℤ,
}
use cmpe275_enterprise_apps.Model.Trip.{TaxiTrip}
use cmpe275_enterprise_apps.Model.Request.{QueryRequest, new_request, execute}
use cmpe275_enterprise_apps.Protocol.{
  QueryFilter, SubmitQueryRequest, SubmitQueryReply, TripRow, CancelQueryReply,
  SubmitSubQueryRequest, SubmitSubQueryReply, CancelSubQueryReply,
}

abbrev pub from_proto_filter : QueryFilter → QueryRequest
from_proto_filter in_ = record (new_request "" execute) {
  pickup_range = in_.pickup_range;
  dropoff_range = in_.dropoff_range;
  trip_distance_range = in_.distance_range;
  total_amount_range = in_.total_cents_range;
  tip_amount_range = in_.tip_cents_range;
  payment_type = in_.payment_type;
}

-- The loop over the visited nodes of a message.
unfoldable pub push_visited : List String → QueryRequest → QueryRequest
push_visited [] out = out
push_visited (id ∷ ids) out =
    push_visited ids (record out { visited_node_ids = out.visited_node_ids ++ id ∷ [] })

unfoldable pub from_proto_submit_query_request : SubmitQueryRequest → QueryRequest
from_proto_submit_query_request in_ =
    push_visited in_.visited_node_ids (record (from_proto_filter in_.filter) {
      query_type = execute;
      chunk_size = in_.preferred_chunk_size;
      scan_row_budget = in_.scan_row_budget;
      entry_node_id = "";
      origin_node_id = "";
      distributed_allowed = true;
    })

unfoldable pub from_proto_submit_sub_query_request : SubmitSubQueryRequest → QueryRequest
from_proto_submit_sub_query_request in_ =
    push_visited in_.visited_node_ids (record (from_proto_filter in_.filter) {
      query_type = execute;
      chunk_size = in_.preferred_chunk_size;
      scan_row_budget = in_.scan_row_budget;
      origin_node_id = in_.origin_node_id;
      distributed_allowed = true;
    })

abbrev pub fill_submit_query_reply : Bool → String → String → String → SubmitQueryReply
fill_submit_query_reply accepted request_id node_id message = record {
  accepted = accepted;
  request_id = request_id;
  node_id = node_id;
  message = message;
}

abbrev pub fill_submit_sub_query_reply : Bool → String → String → String → SubmitSubQueryReply
fill_submit_sub_query_reply accepted request_id node_id message = record {
  accepted = accepted;
  request_id = request_id;
  node_id = node_id;
  message = message;
}

abbrev pub fill_cancel_query_reply : Bool → String → String → String → CancelQueryReply
fill_cancel_query_reply success request_id node_id message = record {
  success = success;
  request_id = request_id;
  node_id = node_id;
  message = message;
}

abbrev pub fill_cancel_sub_query_reply : Bool → String → String → String → CancelSubQueryReply
fill_cancel_sub_query_reply success request_id node_id message = record {
  success = success;
  request_id = request_id;
  node_id = node_id;
  message = message;
}

-- The row ID stays at its default. A flag that is no ASCII character is not UTF-8, as `string` wants
-- it: such a message does not parse at the other end (`over_wire` of Transport/RoundTrip).
unfoldable pub to_proto_trip_row : TaxiTrip → String → TripRow
to_proto_trip_row trip source_node_id = record {
  row_id = 0;
  source_node_id = source_node_id;
  vendor_id = pos trip.vendor_id;
  pickup_datetime = trip.pickup_epoch_ms;
  dropoff_datetime = trip.dropoff_epoch_ms;
  passenger_count = pos trip.passenger_count;
  trip_distance = trip.trip_distance;
  rate_code_id = pos trip.rate_code_id;
  store_and_fwd_flag = trip.store_and_fwd ∷ [];
  pu_location_id = pos trip.pickup_location_id;
  do_location_id = pos trip.drop_location_id;
  payment_type = pos trip.payment_type;
  fare_amount = trip.fare_amount_cents;
  extra = trip.extra_cents;
  mta_tax = trip.mta_tax_cents;
  tip_amount = trip.tip_amount_cents;
  tolls_amount = trip.tolls_amount_cents;
  improvement_surcharge = trip.improvement_surcharge_cents;
  total_amount = trip.total_amount_cents;
  congestion_surcharge = trip.congestion_surcharge_cents;
}
