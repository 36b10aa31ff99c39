-- ===== src/Tests/Whole.antt =====
-- A node on its own, and a client that drains one query.
use mathlib.Core.Option
use cmpe275_enterprise_apps.Engine.{Bytes}
use cmpe275_enterprise_apps.Common.{
  true, false, [], ◌∷◌, none, some, ◌≡◌, refl, arith, Option, All, ltb, ◌<◌, if◌then◌else◌,
}
use cmpe275_enterprise_apps.Model.Trip.{TaxiTrip}
use cmpe275_enterprise_apps.Model.Request.{QueryRequest}
use cmpe275_enterprise_apps.Engine.{matches_row}
use cmpe275_enterprise_apps.Coordinator.{Coordinator, first_selected}
use cmpe275_enterprise_apps.Coordinator.Rpc.{submit_client_query}
use cmpe275_enterprise_apps.Coordinator.Draining.{drain_rpc}
use cmpe275_enterprise_apps.WorkerNode.{as_worker}
use cmpe275_enterprise_apps.WorkerNode.Draining.{drain_rpc-trips_of}
use cmpe275_enterprise_apps.Model.Request.{mark_visited_node, has_visited_node, has_id}
use cmpe275_enterprise_apps.Tests.Queries.{parser, fs, node, paged, shard_valid, matched}
use cmpe275_enterprise_apps.Tests.Nodes.{client}
use cmpe275_enterprise_apps.Common.{pos, ◌+◌, ◌^◌}
use cmpe275_enterprise_apps.Common.Dict.{find}
use cmpe275_enterprise_apps.Common.Decimal.{decimal}
use cmpe275_enterprise_apps.Model.Trip.{empty_trip}
use cmpe275_enterprise_apps.Overlay.{empty_overlay, endpoint_for}
use cmpe275_enterprise_apps.Transport.{
  to_proto_trip_row, from_proto_submit_sub_query_request, push_visited,
}
use cmpe275_enterprise_apps.Transport.Client.{
  GrpcRemoteQueryClient, from_trip_row, sub_query_message, as_remote_client,
}
use cmpe275_enterprise_apps.Transport.RoundTrip.{
  Protobuf, over_wire, from_trip_row-to_proto_trip_row,
  from_proto_submit_sub_query_request-sub_query_message,
}
use cmpe275_enterprise_apps.QueryService.Network.{direct, drain_remote}
use cmpe275_enterprise_apps.QueryService.Leaf.{drain_remote-trips_of}

abbrev lone : Coordinator
lone = record {
  workers = as_worker parser fs node ∷ [];
  query_states = [];
  next_query_seq = 0;
  has_remote_client = false;
  overlay = none;
  self_node_id = "A";
}

abbrev unnamed : QueryRequest
unnamed = record paged { query_id = "" }

-- Six rows, of which the third and the sixth match.
drain_rpc-trips_of_example :
    let (id, c', calls) = submit_client_query client unnamed lone 0 in
    drain_rpc client 14 id 1 c' calls ≡ some (matched 3 ∷ matched 3 ∷ [])
unfolding first_selected matches_row mark_visited_node has_visited_node has_id
drain_rpc-trips_of_example =
    drain_rpc-trips_of parser fs client unnamed node 14 1 lone 0 refl refl tt refl refl shard_valid
      (omega arith)

abbrev caller : GrpcRemoteQueryClient (Unit {0})
caller = record {
  self_node_id = "P";
  overlay = record empty_overlay { nodes = ("A", node.info) ∷ [] };
  stubs = [];
}

drain_remote-trips_of_example :
    let remote = as_remote_client (direct client "A") in
    let (s, y) = remote.submit_sub_query "A" unnamed "q-4" (caller, (lone, 0)) in
    (s.accepted ≡ true)
    × (drain_remote remote 14 "A" s.remote_request_id 1 y ≡ some (matched 3 ∷ matched 3 ∷ []))
unfolding first_selected matches_row mark_visited_node has_visited_node has_id endpoint_for find
    decimal from_proto_submit_sub_query_request sub_query_message push_visited
drain_remote-trips_of_example =
    drain_remote-trips_of parser fs client "A" unnamed "A" "q-4" node 14 1 caller lone 0 refl tt
      refl refl shard_valid (omega arith)

abbrev some_trip : TaxiTrip
some_trip = record empty_trip {
  vendor_id = 255;
  pickup_location_id = 264;
  airport_fee_cents = pos 125;
}

-- Strings of ASCII only.
abbrev ascii_field : Bytes → Option Bytes
ascii_field [] = some []
ascii_field (c ∷ cs) =
    let rest = ascii_field cs in if ltb c 128 then Option.map (◌∷◌ c) rest else none

ascii_field_lem : (s : Bytes) → All (λ c. c < 128) s → ascii_field s ≡ some s
ascii_field_lem [] a = refl
ascii_field_lem (c ∷ cs) (small, a) =
    let low : ltb c 128 ≡ true = ground arith in rw (low, ascii_field_lem cs a) refl

abbrev ascii_only : Protobuf
ascii_only = record { string_field = ascii_field }

from_trip_row-to_proto_trip_row_example :
    Option.map from_trip_row (over_wire ascii_only (to_proto_trip_row some_trip "A"))
    ≡ some (record some_trip { airport_fee_cents = pos 0 })
from_trip_row-to_proto_trip_row_example =
    from_trip_row-to_proto_trip_row ascii_only some_trip "A" (record { kept = ascii_field_lem })
      (record {
        vendor_id = omega arith;
        passenger_count = omega arith;
        payment_type = omega arith;
        rate_code_id = omega arith;
        pickup_location_id = omega arith;
        drop_location_id = omega arith;
        store_and_fwd = omega arith;
      })

abbrev wide : QueryRequest
wide = record unnamed { chunk_size = 2 ^ 32 + 5; visited_node_ids = "P" ∷ "A" ∷ [] }

from_proto_submit_sub_query_request-sub_query_message_example :
    from_proto_submit_sub_query_request (sub_query_message "P" wide "q-4") ≡ record unnamed {
      origin_node_id = "P";
      visited_node_ids = "P" ∷ "A" ∷ [];
      start_row = 0;
      chunk_size = 5;
    }
from_proto_submit_sub_query_request-sub_query_message_example =
    from_proto_submit_sub_query_request-sub_query_message "P" "q-4" wide
