-- ===== src/WorkerNode/Results.antt =====
-- What a worker adds to the engine's result, and what it keeps.
use cmpe275_enterprise_apps.Common.{
  ℕ, String, List, [], ◌∷◌, ◌++◌, map, ◌≡◌, ap, ◌∙◌, sym, length, replicate, length-replicate,
  append_assoc, append-nil,
}
use cmpe275_enterprise_apps.Model.Request.{QueryRequest}
use cmpe275_enterprise_apps.Model.Result.{QueryResult, RowRef, add_matched_row}
use cmpe275_enterprise_apps.RequestState.Invariant.{IsAligned}
use cmpe275_enterprise_apps.Engine.{FileSystem, RowParser, execute}
use cmpe275_enterprise_apps.WorkerNode.{WorkerNode, add_matched_rows, to_query_result, run_execute}

abbrev pub row_refs : String → List ℕ → List RowRef
row_refs node_id = map (λ id. record { node_id = node_id; local_row_id = id })

add_matched_rows_lem :
    (node_id : String) (ids : List ℕ) (r : QueryResult)
    → add_matched_rows node_id ids r
      ≡ record r { matched_rows = r.matched_rows ++ row_refs node_id ids }
unfolding add_matched_rows
add_matched_rows_lem node_id [] r =
    ap (λ (rows : List RowRef). record r { matched_rows = rows }) (sym (append-nil r.matched_rows))
add_matched_rows_lem node_id (id ∷ ids) r =
    add_matched_rows_lem node_id ids (add_matched_row r node_id id)
    ∙ ap (λ (rows : List RowRef). record r { matched_rows = rows })
        (append_assoc r.matched_rows _ (row_refs node_id ids))

module _ (parser : RowParser) (fs : FileSystem) (w : WorkerNode) where
  -- A worker's EXECUTE result has the engine's trips, each with the worker as its source, one row
  -- reference under the worker's name for each position, and the engine's cursor.
  pub run_execute_lem :
      (request : QueryRequest)
      → let local = execute parser fs w.store request in
        let r = run_execute parser fs w request in
        (r.matched_trips ≡ local.matched_trips)
        × (r.matched_trip_sources ≡ replicate (length local.matched_trips) w.info.node_id)
        × (r.matched_rows ≡ row_refs w.info.node_id local.matched_local_row_ids)
        × (r.next_start_row ≡ local.next_start_row)
        × (r.has_more ≡ local.has_more)
  unfolding run_execute to_query_result
  run_execute_lem request =
      let local = execute parser fs w.store request in
      let e = add_matched_rows_lem w.info.node_id local.matched_local_row_ids in
      (
        ap (λ (r : QueryResult). r.matched_trips) (e _),
        ap (λ (r : QueryResult). r.matched_trip_sources) (e _),
        ap (λ (r : QueryResult). r.matched_rows) (e _),
        ap (λ (r : QueryResult). r.next_start_row) (e _),
        ap (λ (r : QueryResult). r.has_more) (e _),
      )

  pub run_execute-IsAligned : (request : QueryRequest) → IsAligned (run_execute parser fs w request)
  run_execute-IsAligned request =
      let (trips, sources, rows, next, more) = run_execute_lem request in
      rw (trips, sources)
        (length-replicate (length (execute parser fs w.store request).matched_trips) w.info.node_id)
