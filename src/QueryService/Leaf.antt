-- ===== src/QueryService/Leaf.antt =====
-- An EXECUTE query that a node sends to a child without children of its own.
use mathlib.Core.Option
use cmpe275_enterprise_apps.Common.{
  ℕ, ◌+◌, ◌*◌, ◌<◌, String, str_eq, eq_iff, true, false, List, [], ◌∷◌, none, some, ◌≡◌, refl, ap,
  ◌∙◌, arith, ℤ, pos, negsuc, map, if◌then◌else◌, length,
}
use cmpe275_enterprise_apps.Model.Trip.{ParsedPartitionRow, to_taxi_trip, to_u8}
use cmpe275_enterprise_apps.Model.Request.{QueryRequest, execute}
use cmpe275_enterprise_apps.Store.{is_valid}
use cmpe275_enterprise_apps.Engine.{FileSystem, RowParser, matches_row}
use cmpe275_enterprise_apps.Engine.Rows.{Row, trips_of, trips_of-same}
use cmpe275_enterprise_apps.Engine.Paging.{stored_rows}
use cmpe275_enterprise_apps.Overlay.{OverlayConfig, endpoint_for}
use cmpe275_enterprise_apps.Coordinator.{Coordinator, own_children, local_worker, ensure_query_id}
use cmpe275_enterprise_apps.Coordinator.Fetch.{RemoteClient}
use cmpe275_enterprise_apps.Coordinator.Rpc.{submit_client_query, submit_sub_query}
use cmpe275_enterprise_apps.Coordinator.Naming.{IsNumbered}
use cmpe275_enterprise_apps.Coordinator.Starting.{named}
use cmpe275_enterprise_apps.WorkerNode.{WorkerNode, as_worker}
use cmpe275_enterprise_apps.WorkerNode.Draining.{drain_rpc-trips_of}
use cmpe275_enterprise_apps.Transport.{from_proto_submit_sub_query_request, to_proto_trip_row}
use cmpe275_enterprise_apps.Transport.Client.{
  GrpcRemoteQueryClient, sub_query_message, from_trip_row, to_u32, as_remote_client,
}
use cmpe275_enterprise_apps.Transport.Client
use cmpe275_enterprise_apps.Transport.RoundTrip.{
  from_proto_submit_sub_query_request-sub_query_message, u8_same,
}
use cmpe275_enterprise_apps.QueryService.Network.{
  direct, carried, drain_remote, drain_remote-drain_rpc, get_or_create_stub-direct,
}
use cmpe275_enterprise_apps.QueryService

to_u8-IsInRange : (z : ℤ) → to_u8 z < 256
to_u8-IsInRange (pos n) = omega arith
to_u8-IsInRange (negsuc n) = omega arith

-- The engine's trips come through unchanged.
carried-to_taxi_trip : (row : ParsedPartitionRow) → carried (to_taxi_trip row) ≡ to_taxi_trip row
unfolding from_trip_row to_proto_trip_row to_taxi_trip
carried-to_taxi_trip row = λ i. record (to_taxi_trip row) {
  payment_type = u8_same (to_u8 row.payment_type) (to_u8-IsInRange row.payment_type) i;
}

map-trips_of :
    (request : QueryRequest) (rows : List Row)
    → map carried (trips_of request rows) ≡ trips_of request rows
map-trips_of request [] = refl
map-trips_of request (none ∷ rows) = map-trips_of request rows
map-trips_of request (some row ∷ rows) =
    elim (matches_row row request)
      as (λ b.
        map carried (if b then to_taxi_trip row ∷ trips_of request rows else trips_of request rows)
        ≡ (if b then to_taxi_trip row ∷ trips_of request rows else trips_of request rows)) [
          | true ↦ λ i. carried-to_taxi_trip row i ∷ map-trips_of request rows i
          | false ↦ map-trips_of request rows
        ]

-- The request as the child gets it.
abbrev pub received : String → QueryRequest → String → QueryRequest
received self request parent =
    from_proto_submit_sub_query_request (sub_query_message self request parent)

trips_of-received :
    (self parent : String) (request : QueryRequest) (rows : List Row)
    → trips_of (received self request parent) rows ≡ trips_of request rows
unfolding matches_row
trips_of-received self parent request rows =
    let e = from_proto_submit_sub_query_request-sub_query_message self parent request in
    trips_of-same (received self request parent) request rows (λ row. ap (matches_row row) e)

module _ {W : Type 0} (client : RemoteClient W) where
  submit_sub_query-unnamed :
      (r : QueryRequest) (c : Coordinator) (w : W)
      → r.query_id ≡ ""
      → r.distributed_allowed ≡ true
      → submit_sub_query client r c w ≡ submit_client_query client r c w
  unfolding submit_sub_query submit_client_query ensure_query_id
  submit_sub_query-unnamed r c w e d =
      let unnamed : str_eq r.query_id "" ≡ true = (eq_iff r.query_id "").1 e in rw (unnamed, d) refl

module _ (parser : RowParser) (fs : FileSystem) {W : Type 0} (client : RemoteClient W)
    (self : String) where
  -- Take two nodes with a network between them that delivers every call. Where the target has an
  -- endpoint, has no children, gives the query to a worker with a valid store, and has only query
  -- IDs of its own, the remote client submits an EXECUTE query that is accepted. Fetching chunks of
  -- any size from then on until one is done gives the trips of the target's store that match the
  -- query, all of them, once each, in order and unchanged; two calls for each row of the store and
  -- two more are enough.
  pub drain_remote-trips_of :
      (request : QueryRequest) (target parent : String) (node : WorkerNode) (fuel n : ℕ)
      (g : GrpcRemoteQueryClient (Unit {0})) (c : Coordinator) (w : W)
      → str_eq (endpoint_for g.overlay target) "" ≡ false
      → IsNumbered c
      → own_children c ≡ []
      → local_worker (named (received g.self_node_id request parent) c) c
        ≡ some (as_worker parser fs node)
      → is_valid node.store ≡ true
      → 2 * length (stored_rows parser fs node.store) + 1 < fuel
      → let remote = as_remote_client (direct client self) in
        let (s, y) = remote.submit_sub_query target request parent (g, (c, w)) in
        (s.accepted ≡ true)
        × (drain_remote remote fuel target s.remote_request_id n y
            ≡ some (trips_of request (stored_rows parser fs node.store)))
  unfolding Client.submit_sub_query QueryService.submit_sub_query
  drain_remote-trips_of request target parent node fuel n g c w h a leaf own v steps =
      let (g', stub, same, self_id) = get_or_create_stub-direct client self target g h in
      let r = received g.self_node_id request parent in
      let e = from_proto_submit_sub_query_request-sub_query_message g.self_node_id parent request in
      let id : r.query_id ≡ "" = ap (λ (q : QueryRequest). q.query_id) e in
      let type : r.query_type ≡ execute = ap (λ (q : QueryRequest). q.query_type) e in
      let allowed : r.distributed_allowed ≡ true =
        ap (λ (q : QueryRequest). q.distributed_allowed) e in
      let (new, c', w') = submit_client_query client r c w in
      let rows = stored_rows parser fs node.store in
      let drained =
        drain_rpc-trips_of parser fs client r node fuel (to_u32 n) c w id type a leaf own v steps in
      let over =
        drain_remote-drain_rpc client self fuel target new n g' c' w'
          (ap (λ (o : OverlayConfig). str_eq (endpoint_for o target) "") same ∙ h) in
      let all =
        over
        ∙ ap (Option.map (map carried)) drained
        ∙ ap some (map-trips_of r rows ∙ trips_of-received g.self_node_id parent request rows) in
      rw (stub, self_id, submit_sub_query-unnamed client r c w id allowed) (refl, all)
