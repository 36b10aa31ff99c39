-- ===== src/Transport/Client.antt =====
-- basic/src/transport/GrpcRemoteQueryClient.cpp: the client of the other nodes' query services, over
-- gRPC, which is a parameter.
use cmpe275_enterprise_apps.Common.{
  ℕ, ◌%◌, ◌^◌, String, str_eq, Bool, true, false, not, List, [], ◌∷◌, Option, none, some,
  if◌then◌else◌,
}
use cmpe275_enterprise_apps.Common.Dict.{find, put}
use cmpe275_enterprise_apps.Model.Trip.{TaxiTrip, empty_trip, to_u8, to_u16}
use cmpe275_enterprise_apps.Model.Request.{QueryRequest}
use cmpe275_enterprise_apps.Engine.{Bytes}
use cmpe275_enterprise_apps.Overlay.{OverlayConfig, endpoint_for}
use cmpe275_enterprise_apps.Protocol.{
  QueryFilter, TripRow, SubmitSubQueryRequest, SubmitSubQueryReply, FetchSubChunkRequest,
  FetchSubChunkReply, CancelSubQueryRequest, CancelSubQueryReply,
}
use cmpe275_enterprise_apps.Coordinator.Fetch.{RemoteClient, Submitted, Fetched}

-- A `grpc::Status` with the reply that comes with it.
pub data Status (A : Type 0) : Type 0 where
  ok : A → Status A
  failed : String → Status A

-- gRPC: `CreateChannel` with `NewStub` on an endpoint, and the calls on a stub, over the state `W`
-- of everything behind it. A call that misses its deadline fails, and
-- so does one whose reply does not parse.
pub record Grpc (Stub W : Type 0) : Type 0 where
  pub new_stub : String → Option Stub
  pub submit_sub_query : Stub → SubmitSubQueryRequest → W → Status SubmitSubQueryReply × W
  pub fetch_sub_chunk : Stub → FetchSubChunkRequest → W → Status FetchSubChunkReply × W
  pub cancel_sub_query : Stub → CancelSubQueryRequest → W → Status CancelSubQueryReply × W

pub record GrpcRemoteQueryClient (Stub : Type 0) : Type 0 where
  pub self_node_id : String
  pub overlay : OverlayConfig
  pub stubs : List (String × Stub)

-- `static_cast<uint32_t>`.
abbrev pub to_u32 : ℕ → ℕ
to_u32 n = n % 2 ^ 32

abbrev to_proto_filter : QueryRequest → QueryFilter
to_proto_filter r = record {
  pickup_range = r.pickup_range;
  dropoff_range = r.dropoff_range;
  distance_range = r.trip_distance_range;
  total_cents_range = r.total_amount_range;
  tip_cents_range = r.tip_amount_range;
  payment_type = r.payment_type;
}

-- The message of `submitSubQuery`.
unfoldable pub sub_query_message : String → QueryRequest → String → SubmitSubQueryRequest
sub_query_message self request parent_request_id = record {
  parent_request_id = parent_request_id;
  origin_node_id = self;
  filter = to_proto_filter request;
  preferred_chunk_size = to_u32 request.chunk_size;
  visited_node_ids = request.visited_node_ids;
  scan_row_budget = to_u32 request.scan_row_budget;
}

abbrev flag_of : Bytes → ℕ
flag_of [] = 0
flag_of (c ∷ cs) = c

-- A row of a reply that has been parsed, as a trip.
unfoldable pub from_trip_row : TripRow → TaxiTrip
from_trip_row row = record empty_trip {
  vendor_id = to_u8 row.vendor_id;
  pickup_epoch_ms = row.pickup_datetime;
  dropoff_epoch_ms = row.dropoff_datetime;
  passenger_count = to_u8 row.passenger_count;
  trip_distance = row.trip_distance;
  rate_code_id = to_u8 row.rate_code_id;
  store_and_fwd = flag_of row.store_and_fwd_flag;
  pickup_location_id = to_u16 row.pu_location_id;
  drop_location_id = to_u16 row.do_location_id;
  payment_type = to_u8 row.payment_type;
  fare_amount_cents = row.fare_amount;
  extra_cents = row.extra;
  mta_tax_cents = row.mta_tax;
  tip_amount_cents = row.tip_amount;
  tolls_amount_cents = row.tolls_amount;
  improvement_surcharge_cents = row.improvement_surcharge;
  total_amount_cents = row.total_amount;
  congestion_surcharge_cents = row.congestion_surcharge;
}

-- The loop over the rows of a reply.
unfoldable pub read_rows : String → List TripRow → List TaxiTrip × List String
read_rows target [] = ([], [])
read_rows target (row ∷ rows) =
    let (trips, sources) = read_rows target rows in
    let source = if not (str_eq row.source_node_id "") then row.source_node_id else target in
    (from_trip_row row ∷ trips, source ∷ sources)

module _ {Stub W : Type 0} (grpc : Grpc Stub W) where
  abbrev stub_for :
      String → GrpcRemoteQueryClient Stub → Option Stub → Option Stub × GrpcRemoteQueryClient Stub
  stub_for target c none = (none, c)
  stub_for target c (some stub) = (some stub, record c { stubs = put target stub c.stubs })

  abbrev found_or_connected :
      String → GrpcRemoteQueryClient Stub → Option Stub → Option Stub × GrpcRemoteQueryClient Stub
  found_or_connected target c (some stub) = (some stub, c)
  found_or_connected target c none =
      let endpoint = endpoint_for c.overlay target in
      if str_eq endpoint "" then (none, c) else stub_for target c (grpc.new_stub endpoint)

  unfoldable pub get_or_create_stub :
      String → GrpcRemoteQueryClient Stub → Option Stub × GrpcRemoteQueryClient Stub
  get_or_create_stub target c = found_or_connected target c (find target c.stubs)

  abbrev submitted : Status SubmitSubQueryReply → Submitted
  submitted (failed e) = record { accepted = false; remote_request_id = ""; message = e }
  submitted (ok resp) = record {
    accepted = resp.accepted;
    remote_request_id = resp.request_id;
    message = resp.message;
  }

  abbrev submit_on :
      Option Stub
      → QueryRequest
      → String
      → GrpcRemoteQueryClient Stub
      → W
      → Submitted × GrpcRemoteQueryClient Stub × W
  submit_on none request parent c w = (
    record { accepted = false; remote_request_id = ""; message = "no stub for target node" },
    c,
    w,
  )
  submit_on (some stub) request parent c w =
      let (status, w') =
        grpc.submit_sub_query stub (sub_query_message c.self_node_id request parent) w in
      (submitted status, c, w')

  unfoldable pub submit_sub_query :
      String
      → QueryRequest
      → String
      → GrpcRemoteQueryClient Stub
      → W
      → Submitted × GrpcRemoteQueryClient Stub × W
  submit_sub_query target request parent c w =
      let (stub, c') = get_or_create_stub target c in submit_on stub request parent c' w

  abbrev no_chunk : Bool → String → Fetched
  no_chunk done message = record {
    received = false;
    trips = [];
    sources = [];
    done = done;
    message = message;
  }

  abbrev pub fetched : String → Status FetchSubChunkReply → Fetched
  fetched target (failed e) = no_chunk false e
  fetched target (ok resp) =
      let (trips, sources) = read_rows target resp.rows in
      if not resp.found then no_chunk true resp.message else record {
        received = true;
        trips = trips;
        sources = sources;
        done = resp.done;
        message = resp.message;
      }

  abbrev fetch_on :
      String
      → Option Stub
      → String
      → ℕ
      → GrpcRemoteQueryClient Stub
      → W
      → Fetched × GrpcRemoteQueryClient Stub × W
  fetch_on target none id max_rows c w = (no_chunk false "no stub for target node", c, w)
  fetch_on target (some stub) id max_rows c w =
      let (status, w') =
        grpc.fetch_sub_chunk stub (record { request_id = id; max_rows = to_u32 max_rows }) w in
      (fetched target status, c, w')

  unfoldable pub fetch_sub_chunk :
      String
      → String
      → ℕ
      → GrpcRemoteQueryClient Stub
      → W
      → Fetched × GrpcRemoteQueryClient Stub × W
  fetch_sub_chunk target id max_rows c w =
      let (stub, c') = get_or_create_stub target c in fetch_on target stub id max_rows c' w

  -- Whether it was cancelled, and the message.
  abbrev cancelled_by : Status CancelSubQueryReply → Bool × String
  cancelled_by (failed e) = (false, e)
  cancelled_by (ok resp) = (resp.success, resp.message)

  abbrev cancel_on :
      Option Stub
      → String
      → GrpcRemoteQueryClient Stub
      → W
      → (Bool × String) × GrpcRemoteQueryClient Stub × W
  cancel_on none id c w = ((false, "no stub for target node"), c, w)
  cancel_on (some stub) id c w =
      let (status, w') = grpc.cancel_sub_query stub (record { request_id = id }) w in
      (cancelled_by status, c, w')

  unfoldable cancel_sub_query :
      String
      → String
      → GrpcRemoteQueryClient Stub
      → W
      → (Bool × String) × GrpcRemoteQueryClient Stub × W
  cancel_sub_query target id c w =
      let (stub, c') = get_or_create_stub target c in cancel_on stub id c' w

  -- The remote client that the coordinator takes.
  abbrev pub as_remote_client : RemoteClient (GrpcRemoteQueryClient Stub × W)
  as_remote_client = record {
    submit_sub_query = λ target request parent x.
        let (r, c, w) = submit_sub_query target request parent x.0 x.1 in (r, (c, w));
    fetch_sub_chunk =
        λ target id n x. let (r, c, w) = fetch_sub_chunk target id n x.0 x.1 in (r, (c, w));
  }
