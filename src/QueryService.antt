-- ===== src/QueryService.antt =====
-- basic/src/server/QueryServiceImpl.cpp: the handlers of the query service, over the coordinator of
-- the node. The status is always OK. Printing and timing are left out.
pub mod Network
pub mod Leaf
use cmpe275_enterprise_apps.Common.{ℕ, ◌%◌, ◌^◌, String, Bool, true, List, [], ◌∷◌, Option, length}
use cmpe275_enterprise_apps.Model.Trip.{TaxiTrip}
use cmpe275_enterprise_apps.Protocol.{
  SubmitQueryRequest, SubmitQueryReply, FetchChunkRequest, FetchChunkReply, TripRow,
  CancelQueryRequest, CancelQueryReply, SubmitSubQueryRequest, SubmitSubQueryReply,
  FetchSubChunkRequest, FetchSubChunkReply, CancelSubQueryRequest, CancelSubQueryReply,
}
use cmpe275_enterprise_apps.Transport.{
  from_proto_submit_query_request, from_proto_submit_sub_query_request, fill_submit_query_reply,
  fill_submit_sub_query_reply, fill_cancel_query_reply, fill_cancel_sub_query_reply,
  to_proto_trip_row,
}
use cmpe275_enterprise_apps.Coordinator.{Coordinator, cancel}
use cmpe275_enterprise_apps.Coordinator.Fetch.{RemoteClient}
use cmpe275_enterprise_apps.Coordinator.Rpc.{
  fetch_chunk_for_rpc, submit_client_query, submit_sub_query as submit_sub,
}

-- The loop over the rows of a reply: a trip without a source gets this node.
unfoldable pub add_rows : String → List TaxiTrip → List String → List TripRow
add_rows self [] sources = []
add_rows self (trip ∷ trips) [] = to_proto_trip_row trip self ∷ add_rows self trips []
add_rows self (trip ∷ trips) (source ∷ sources) =
    to_proto_trip_row trip source ∷ add_rows self trips sources

module _ {W : Type 0} (client : RemoteClient W) (self : String) where
  unfoldable pub submit_query :
      SubmitQueryRequest → Coordinator → W → SubmitQueryReply × Coordinator × W
  submit_query request c w =
      let (id, c', w') = submit_client_query client (from_proto_submit_query_request request) c w in
      (fill_submit_query_reply true id self "accepted", c', w')

  unfoldable pub fetch_chunk :
      FetchChunkRequest → Coordinator → W → FetchChunkReply × Coordinator × W
  fetch_chunk request c w =
      let (r, c', w') = fetch_chunk_for_rpc client request.request_id request.max_rows c w in
      (
        record {
          found = r.found;
          request_id = r.request_id;
          node_id = self;
          rows = add_rows self r.trips r.sources;
          done = r.done;
          rows_returned = length r.trips % 2 ^ 32;
          message = r.message;
        },
        c',
        w',
      )

  unfoldable pub cancel_query : CancelQueryRequest → Coordinator → CancelQueryReply × Coordinator
  cancel_query request c =
      let (ok, message, c') = cancel request.request_id c in
      (fill_cancel_query_reply ok request.request_id self message, c')

  unfoldable pub submit_sub_query :
      SubmitSubQueryRequest → Coordinator → W → SubmitSubQueryReply × Coordinator × W
  submit_sub_query request c w =
      let (id, c', w') = submit_sub client (from_proto_submit_sub_query_request request) c w in
      (fill_submit_sub_query_reply true id self "accepted", c', w')

  unfoldable pub fetch_sub_chunk :
      FetchSubChunkRequest → Coordinator → W → FetchSubChunkReply × Coordinator × W
  fetch_sub_chunk request c w =
      let (r, c', w') = fetch_chunk_for_rpc client request.request_id request.max_rows c w in
      (
        record {
          found = r.found;
          request_id = r.request_id;
          node_id = self;
          rows = add_rows self r.trips r.sources;
          done = r.done;
          rows_returned = length r.trips % 2 ^ 32;
          message = r.message;
        },
        c',
        w',
      )

  unfoldable pub cancel_sub_query :
      CancelSubQueryRequest → Coordinator → CancelSubQueryReply × Coordinator
  cancel_sub_query request c =
      let (ok, message, c') = cancel request.request_id c in
      (fill_cancel_sub_query_reply ok request.request_id self message, c')
