-- ===== src/QueryService/Network.antt =====
-- Two nodes with a network between them that delivers every call: the remote client of the one
-- drains an EXECUTE query out of the other. The flags of the engine's rows are all 0, so that every
-- reply with them parses.
use mathlib.Core.Option
use mathlib.Core.List.{map-append}
use cmpe275_enterprise_apps.Common.{
  ℕ, zero, suc, String, str_eq, Bool, true, false, List, [], ◌∷◌, ◌++◌, Option, none, some, ◌≡◌,
  refl, ap, ◌∙◌, sym, inl, inr, arith, ◌⊎◌, map, if◌then◌else◌, Bool-cases, Option-cases,
}
use cmpe275_enterprise_apps.Common.Dict.{find, put}
use cmpe275_enterprise_apps.Model.Trip.{TaxiTrip}
use cmpe275_enterprise_apps.Model.Request.{QueryType, count, execute}
use cmpe275_enterprise_apps.Overlay.{OverlayConfig, endpoint_for}
use cmpe275_enterprise_apps.RequestState.{
  RequestState, QueryState, pending, in_progress, completed, cancelled, timed_out,
}
use cmpe275_enterprise_apps.Coordinator.{Coordinator, find_request_state}
use cmpe275_enterprise_apps.Coordinator.Fetch.{RemoteClient}
use cmpe275_enterprise_apps.Coordinator.Rpc.{
  RpcChunkResult, fetch_chunk_for_rpc, fetch_execute, deliver, answer, answer_found,
}
use cmpe275_enterprise_apps.Coordinator.Draining.{drain_rpc}
use cmpe275_enterprise_apps.Transport.{to_proto_trip_row}
use cmpe275_enterprise_apps.Transport.Client.{
  Grpc, GrpcRemoteQueryClient, ok, from_trip_row, read_rows, fetch_sub_chunk, get_or_create_stub,
  fetched, to_u32, as_remote_client,
}
use cmpe275_enterprise_apps.QueryService.{add_rows}
use cmpe275_enterprise_apps.QueryService

module _ {W : Type 0} (client : RemoteClient W) (self : String) where
  -- gRPC that hands each call to the query service of a node with coordinator and world `x`.
  abbrev pub direct : Grpc (Unit {0}) (Coordinator × W)
  direct = record {
    new_stub = λ endpoint. some tt;
    submit_sub_query = λ stub m x.
        let (reply, c, w) = QueryService.submit_sub_query client self m x.0 x.1 in
        (ok reply, (c, w));
    fetch_sub_chunk = λ stub m x.
        let (reply, c, w) = QueryService.fetch_sub_chunk client self m x.0 x.1 in
        (ok reply, (c, w));
    cancel_sub_query = λ stub m x.
        let (reply, c) = QueryService.cancel_sub_query client self m x.0 in (ok reply, (c, x.1));
  }

-- A trip as it comes out at the other end.
abbrev pub carried : TaxiTrip → TaxiTrip
carried t = from_trip_row (to_proto_trip_row t "")

from_trip_row-carried :
    (t : TaxiTrip) (source : String) → from_trip_row (to_proto_trip_row t source) ≡ carried t
unfolding from_trip_row to_proto_trip_row
from_trip_row-carried t source = refl

read_rows-add_rows :
    (target self : String) (trips : List TaxiTrip) (sources : List String)
    → (read_rows target (add_rows self trips sources)).0 ≡ map carried trips
unfolding read_rows add_rows
read_rows-add_rows target self [] sources = refl
read_rows-add_rows target self (t ∷ trips) [] =
    λ i. from_trip_row-carried t self i ∷ read_rows-add_rows target self trips [] i
read_rows-add_rows target self (t ∷ trips) (s ∷ sources) =
    λ i. from_trip_row-carried t s i ∷ read_rows-add_rows target self trips sources i

deliver_found : (n : ℕ) (self id : String) (s : RequestState) → (deliver n self id s).0.found ≡ true
unfolding deliver
deliver_found n self id s = ground arith

-- Only a reply to a request that is in the table can hold rows, or leave some.
abbrev IsQuiet : RpcChunkResult → Type 0
IsQuiet r = (r.found ≡ true) ⊎ ((r.trips ≡ []) × (r.done ≡ true))

module _ {W : Type 0} (client : RemoteClient W) where
  answer-IsQuiet :
      (q : QueryState) (t : QueryType) (id : String) (n : ℕ) (s : RequestState) (c : Coordinator)
      (w : W)
      → IsQuiet (answer client q t id n s c w).0
  unfolding fetch_execute
  answer-IsQuiet cancelled t id n s c w = inl refl
  answer-IsQuiet timed_out t id n s c w = inl refl
  answer-IsQuiet pending count id n s c w = inl refl
  answer-IsQuiet in_progress count id n s c w = inl refl
  answer-IsQuiet completed count id n s c w = inl refl
  answer-IsQuiet _ execute id n s c w = inl (deliver_found _ c.self_node_id id _)

  fetch_chunk_for_rpc-IsQuiet :
      (id : String) (n : ℕ) (c : Coordinator) (w : W)
      → IsQuiet (fetch_chunk_for_rpc client id n c w).0
  unfolding fetch_chunk_for_rpc
  fetch_chunk_for_rpc-IsQuiet id n c w = elim (Option-cases (find_request_state id c)) [
    | inl e ↦ rw (e, answer_found) (inr (refl, refl))
    | inr (s, e) ↦ rw (e, answer_found) (answer-IsQuiet s.state s.request.query_type id n s c w)
  ]

-- A node that fetches from another one until it says that it is done; `none` if `fuel` calls do
-- not do.
unfoldable pub drain_remote :
    {X : Type 0} → RemoteClient X → ℕ → String → String → ℕ → X → Option (List TaxiTrip)
drain_remote client zero target id n x = none
drain_remote client (suc fuel) target id n x =
    let (out, x') = client.fetch_sub_chunk target id n x in
    let rest = drain_remote client fuel target id n x' in
    if out.done then some out.trips else Option.map (λ ts. out.trips ++ ts) rest

carried_out :
    (done : Bool) (trips : List TaxiTrip) (rest : Option (List TaxiTrip))
    → (if done
        then some (map carried trips)
        else Option.map (λ ts. map carried trips ++ ts) (Option.map (map carried) rest))
      ≡ Option.map (map carried) (if done then some trips else Option.map (λ ts. trips ++ ts) rest)
carried_out true trips rest = refl
carried_out false trips none = refl
carried_out false trips (some ts) = ap some (sym (map-append carried trips ts))

module _ {W : Type 0} (client : RemoteClient W) (self : String) where
  abbrev network : Grpc (Unit {0}) (Coordinator × W)
  network = direct client self

  -- A stub is there, or is made and kept.
  pub get_or_create_stub-direct :
      (target : String) (g : GrpcRemoteQueryClient (Unit {0}))
      → str_eq (endpoint_for g.overlay target) "" ≡ false
      → (g' : GrpcRemoteQueryClient (Unit {0})) × (get_or_create_stub network target g
          ≡ (some tt, g'))
        × (g'.overlay ≡ g.overlay)
        × (g'.self_node_id ≡ g.self_node_id)
  unfolding get_or_create_stub
  get_or_create_stub-direct target g h = elim (Option-cases (find target g.stubs)) [
    | inl e ↦ (record g { stubs = put target tt g.stubs }, rw (e, h) refl, refl, refl)
    | inr (stub, e) ↦ (g, rw e refl, refl, refl)
  ]

  fetched-direct :
      (target id : String) (n : ℕ) (c : Coordinator) (w : W)
      → let r = (fetch_chunk_for_rpc client id n c w).0 in
        let reply =
          (QueryService.fetch_sub_chunk client self
            (record { request_id = id; max_rows = n })
            c
            w).0 in
        ((fetched network target (ok reply)).trips ≡ map carried r.trips)
        × ((fetched network target (ok reply)).done ≡ r.done)
  unfolding QueryService.fetch_sub_chunk
  fetched-direct target id n c w =
      let r = (fetch_chunk_for_rpc client id n c w).0 in
      let rows = read_rows-add_rows target self r.trips r.sources in
      elim (Bool-cases r.found) [
        | inl f ↦ rw f (rows, refl)
        | inr f ↦ elim (fetch_chunk_for_rpc-IsQuiet client id n c w) [
          | inl t ↦ cc
          | inr (none_left, done) ↦ rw (f, none_left, done) (refl, refl)
        ]
      ]

  -- Draining over the network is draining at the node itself, with each trip carried.
  pub drain_remote-drain_rpc :
      (fuel : ℕ) (target id : String) (n : ℕ) (g : GrpcRemoteQueryClient (Unit {0}))
      (c : Coordinator) (w : W)
      → str_eq (endpoint_for g.overlay target) "" ≡ false
      → drain_remote (as_remote_client network) fuel target id n (g, (c, w))
        ≡ Option.map (map carried) (drain_rpc client fuel id (to_u32 n) c w)
  unfolding drain_remote drain_rpc fetch_sub_chunk QueryService.fetch_sub_chunk
  drain_remote-drain_rpc zero target id n g c w h = refl
  drain_remote-drain_rpc (suc fuel) target id n g c w h =
      let (g', stub, same, self_id) = get_or_create_stub-direct target g h in
      let (r, c', w') = fetch_chunk_for_rpc client id (to_u32 n) c w in
      let (trips, done) = fetched-direct target id (to_u32 n) c w in
      let rest =
        drain_remote-drain_rpc fuel target id n g' c' w'
          (ap (λ (o : OverlayConfig). str_eq (endpoint_for o target) "") same ∙ h) in
      rw (stub, done, trips, rest)
        (carried_out r.done r.trips (drain_rpc client fuel id (to_u32 n) c' w'))
