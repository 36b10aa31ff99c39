-- ===== src/WorkerNode.antt =====
-- basic/src/querycoordination/WorkerNode.cpp: the engine's results under the worker's name. It
-- fills the coordinator's `Worker`.
pub mod Results
pub mod Draining
use cmpe275_enterprise_apps.Common.{ℕ, String, Bool, false, List, [], ◌∷◌, map, replicate, length}
use cmpe275_enterprise_apps.Model.Request.{QueryRequest}
use cmpe275_enterprise_apps.Model.Result.{
  QueryResult, LocalQueryResult, RowRef, empty_result, add_matched_row,
}
use cmpe275_enterprise_apps.Overlay.{NodeInfo}
use cmpe275_enterprise_apps.Store.{PartitionStore, new_store}
use cmpe275_enterprise_apps.Engine.{FileSystem, RowParser}
use cmpe275_enterprise_apps.Engine
use cmpe275_enterprise_apps.Coordinator.{Worker}

pub record WorkerNode : Type 0 where
  pub info : NodeInfo
  pub store : PartitionStore

abbrev new_worker : NodeInfo → WorkerNode
new_worker info = record { info = info; store = new_store info.node_id }

-- The loop over the positions of the matching rows.
unfoldable pub add_matched_rows : String → List ℕ → QueryResult → QueryResult
add_matched_rows node_id [] r = r
add_matched_rows node_id (id ∷ ids) r = add_matched_rows node_id ids (add_matched_row r node_id id)

unfoldable pub to_query_result : String → LocalQueryResult → QueryResult
to_query_result node_id local =
    add_matched_rows node_id local.matched_local_row_ids (record empty_result {
      rows_scanned = local.rows_scanned;
      rows_matched = local.rows_matched;
      rows_emitted = local.rows_emitted;
      next_start_row = local.next_start_row;
      has_more = local.has_more;
      matched_trips = local.matched_trips;
      matched_trip_sources = replicate (length local.matched_trips) node_id;
    })

module _ (parser : RowParser) (fs : FileSystem) where
  unfoldable pub run_count : WorkerNode → QueryRequest → QueryResult
  run_count w request =
      let local = Engine.count parser fs w.store request in
      record empty_result { rows_scanned = local.rows_scanned; rows_matched = local.rows_matched }

  unfoldable pub run_execute : WorkerNode → QueryRequest → QueryResult
  run_execute w request = to_query_result w.info.node_id (Engine.execute parser fs w.store request)

  abbrev pub as_worker : WorkerNode → Worker
  as_worker w = record {
    node_id = w.info.node_id;
    run_count = run_count w;
    run_execute = run_execute w;
  }
