-- ===== src/Transport/RoundTrip.antt =====
-- What a trip and a request are after they have gone over the network.
use cmpe275_enterprise_apps.Common.{
  ℕ, ◌%◌, ◌<◌, String, List, [], ◌∷◌, ◌++◌, ◌≡◌, ap, ◌∙◌, sym, arith, pos, append_assoc, append-nil,
  none, some, true, Option, All,
}
use mathlib.Core.Option
use cmpe275_enterprise_apps.Engine.{Bytes}
use cmpe275_enterprise_apps.Protocol.{TripRow}
use cmpe275_enterprise_apps.Model.Trip.{TaxiTrip}
use cmpe275_enterprise_apps.Model.Request.{QueryRequest, execute}
use cmpe275_enterprise_apps.Transport.{
  to_proto_trip_row, from_proto_submit_sub_query_request, push_visited,
}
use cmpe275_enterprise_apps.Transport.Client.{from_trip_row, sub_query_message, to_u32}

-- The fields of a trip fit into the types of the code, and the flag is an ASCII character.
pub record IsInRange (t : TaxiTrip) : Type 0 where
  pub vendor_id : t.vendor_id < 256
  pub passenger_count : t.passenger_count < 256
  pub payment_type : t.payment_type < 256
  pub rate_code_id : t.rate_code_id < 256
  pub pickup_location_id : t.pickup_location_id < 65536
  pub drop_location_id : t.drop_location_id < 65536
  pub store_and_fwd : t.store_and_fwd < 128

pub u8_same : (n : ℕ) → n < 256 → n % 256 ≡ n
u8_same n h = omega arith

u16_same : (n : ℕ) → n < 65536 → n % 65536 ≡ n
u16_same n h = omega arith

-- Protocol Buffers, as far as rows use it: what is parsed of a `string` field that was written with
-- these bytes, or `none` where they are not UTF-8, and the message does not parse.
pub record Protobuf : Type 0 where
  pub string_field : Bytes → Option Bytes

-- ASCII is UTF-8, which comes through as it is.
pub record KeepsAscii (pb : Protobuf) : Type 0 where
  pub kept : (s : Bytes) → All (λ c. c < 128) s → pb.string_field s ≡ some s

-- A row that was written and parsed.
unfoldable pub over_wire : Protobuf → TripRow → Option TripRow
over_wire pb row =
    Option.map (λ s. record row { store_and_fwd_flag = s }) (pb.string_field row.store_and_fwd_flag)

from_trip_row-same :
    (t : TaxiTrip) (source : String)
    → IsInRange t
    → from_trip_row (to_proto_trip_row t source) ≡ record t { airport_fee_cents = pos 0 }
unfolding from_trip_row to_proto_trip_row
from_trip_row-same t source h = λ i. record t {
  vendor_id = u8_same t.vendor_id h.vendor_id i;
  passenger_count = u8_same t.passenger_count h.passenger_count i;
  payment_type = u8_same t.payment_type h.payment_type i;
  rate_code_id = u8_same t.rate_code_id h.rate_code_id i;
  pickup_location_id = u16_same t.pickup_location_id h.pickup_location_id i;
  drop_location_id = u16_same t.drop_location_id h.drop_location_id i;
  airport_fee_cents = pos 0;
}

-- Where Protocol Buffers keep ASCII: a trip whose numbers fit into their types, and whose
-- store-and-forward flag is an ASCII character, parses at the other end, and is as it was but for
-- the airport fee, which is lost.
pub from_trip_row-to_proto_trip_row :
    (pb : Protobuf) (t : TaxiTrip) (source : String)
    → KeepsAscii pb
    → IsInRange t
    → Option.map from_trip_row (over_wire pb (to_proto_trip_row t source))
      ≡ some (record t { airport_fee_cents = pos 0 })
unfolding over_wire to_proto_trip_row
from_trip_row-to_proto_trip_row pb t source k h =
    rw (k.kept (t.store_and_fwd ∷ []) (h.store_and_fwd, tt))
      (ap some (unfold to_proto_trip_row in from_trip_row-same t source h))

pub push_visited_lem :
    (ids : List String) (r : QueryRequest)
    → push_visited ids r ≡ record r { visited_node_ids = r.visited_node_ids ++ ids }
unfolding push_visited
push_visited_lem [] r =
    ap (λ (vs : List String). record r { visited_node_ids = vs })
      (sym (append-nil r.visited_node_ids))
push_visited_lem (id ∷ ids) r =
    push_visited_lem ids (record r { visited_node_ids = r.visited_node_ids ++ id ∷ [] })
    ∙ ap (λ (vs : List String). record r { visited_node_ids = vs })
        (append_assoc r.visited_node_ids (id ∷ []) ids)

-- A sub-query comes over the network as an EXECUTE query with the same filter and visited nodes.
-- It has no query ID, its origin is the node that sent it, it may be distributed on, and its
-- chunk size and scan budget are cut to 32 bits. The target node, the offset, the limit, the
-- start row and the type of the query are not carried.
pub from_proto_submit_sub_query_request-sub_query_message :
    (self parent : String) (r : QueryRequest)
    → from_proto_submit_sub_query_request (sub_query_message self r parent) ≡ record r {
      query_id = "";
      query_type = execute;
      origin_node_id = self;
      entry_node_id = "";
      target_node_id = none;
      distributed_allowed = true;
      offset = 0;
      limit = 0;
      start_row = 0;
      chunk_size = to_u32 r.chunk_size;
      scan_row_budget = to_u32 r.scan_row_budget;
    }
unfolding from_proto_submit_sub_query_request sub_query_message
from_proto_submit_sub_query_request-sub_query_message self parent r =
    push_visited_lem r.visited_node_ids _
