-- ===== src/Coordinator/Totals.antt =====
-- What the coordinator's COUNT adds up.
use cmpe275_enterprise_apps.Common.{
  ℕ, ◌+◌, ◌*◌, ◌≤◌, ◌<◌, ◌%◌, ◌^◌, String, not, ◌&&◌, List, [], ◌∷◌, ◌++◌, ◌≡◌, refl, ◌∙◌, arith,
  if_intro, length, add64, add64_assoc,
}
use cmpe275_enterprise_apps.Model.Request.{QueryRequest}
use cmpe275_enterprise_apps.Model.Result.{QueryResult, empty_result}
use cmpe275_enterprise_apps.Coordinator.Fetch.{RemoteClient}
use cmpe275_enterprise_apps.Coordinator.Count.{
  own_count, count_request, count_child, count_children, process_distributed_count,
}
use cmpe275_enterprise_apps.Coordinator.{
  Coordinator, own_children, has_overlay, add_counts, aggregate_count_results,
}

abbrev pub sum_matched : List QueryResult → ℕ
sum_matched [] = 0
sum_matched (r ∷ rs) = r.rows_matched + sum_matched rs

abbrev sum_scanned : List QueryResult → ℕ
sum_scanned [] = 0
sum_scanned (r ∷ rs) = r.rows_scanned + sum_scanned rs

add_counts_lem :
    (r : QueryResult) (ps : List QueryResult)
    → (add64 (add_counts r ps).rows_matched 0 ≡ add64 r.rows_matched (sum_matched ps))
      × (add64 (add_counts r ps).rows_scanned 0 ≡ add64 r.rows_scanned (sum_scanned ps))
unfolding add_counts
add_counts_lem r [] = (refl, refl)
add_counts_lem r (p ∷ ps) =
    let r' = record r {
      rows_scanned = add64 r.rows_scanned p.rows_scanned;
      rows_matched = add64 r.rows_matched p.rows_matched;
    } in
    (
      (add_counts_lem r' ps).0 ∙ add64_assoc r.rows_matched p.rows_matched (sum_matched ps),
      (add_counts_lem r' ps).1 ∙ add64_assoc r.rows_scanned p.rows_scanned (sum_scanned ps),
    )

add_counts_small :
    (r : QueryResult) (ps : List QueryResult)
    → (r.rows_matched < 2 ^ 64) × (r.rows_scanned < 2 ^ 64)
    → ((add_counts r ps).rows_matched < 2 ^ 64) × ((add_counts r ps).rows_scanned < 2 ^ 64)
unfolding add_counts
add_counts_small r [] h = h
add_counts_small r (p ∷ ps) h =
    add_counts_small
      (record r {
        rows_scanned = add64 r.rows_scanned p.rows_scanned;
        rows_matched = add64 r.rows_matched p.rows_matched;
      })
      ps (omega arith)

-- The aggregated counts are the sums of the partial ones, on 64 bits.
pub aggregate_count_results_lem :
    (ps : List QueryResult)
    → ((aggregate_count_results ps).rows_matched ≡ sum_matched ps % 2 ^ 64)
      × ((aggregate_count_results ps).rows_scanned ≡ sum_scanned ps % 2 ^ 64)
aggregate_count_results_lem ps =
    omega (arith, add_counts_lem empty_result ps, add_counts_small empty_result ps (omega arith))

sum_matched-append :
    (ps qs : List QueryResult) → sum_matched (ps ++ qs) ≡ sum_matched ps + sum_matched qs
sum_matched-append [] qs = omega arith
sum_matched-append (p ∷ ps) qs = omega (arith, sum_matched-append ps qs)

module _ {W : Type 0} (client : RemoteClient W) (b : ℕ)
    (bounded : (id rid : String) (w : W)
      → length (client.fetch_sub_chunk id rid 0 w).0.trips ≤ b) where
  count_child_le :
      (request : QueryRequest) (id : String) (w : W)
      → sum_matched (count_child client request id w).0 ≤ b
  unfolding count_child
  count_child_le request id w =
      let (r, w1) = client.submit_sub_query id (count_request request) request.query_id w in
      let (f, w2) = client.fetch_sub_chunk id r.remote_request_id 0 w1 in
      let P = λ (x : List QueryResult × W). sum_matched x.0 ≤ b in
      if_intro P (not r.accepted) (λ _. omega arith)
        λ _.
          if_intro P (not f.received) (λ _. omega arith)
            (λ _. omega (arith, bounded id r.remote_request_id w1))

  count_children_le :
      (request : QueryRequest) (children : List String) (partials : List QueryResult) (w : W)
      → sum_matched (count_children client request children partials w).0
        ≤ sum_matched partials + b * length children
  unfolding count_children
  count_children_le request [] partials w = omega arith
  count_children_le request (id ∷ children) partials w =
      let (ps, w1) = count_child client request id w in
      omega (
        arith,
        count_children_le request children (partials ++ ps) w1,
        sum_matched-append partials ps,
        count_child_le request id w,
      )

  -- A distributed COUNT asks each child for one chunk only. So where no chunk has more than `b`
  -- rows, the count is at most that of this node's own worker and `b` for each child, however many
  -- rows the shards below the children hold.
  pub process_distributed_count_le :
      (request : QueryRequest) (c : Coordinator) (w : W)
      → (process_distributed_count client request c w).0.rows_matched
        ≤ sum_matched (own_count request c.self_node_id c.workers) + b * length (own_children c)
  unfolding process_distributed_count
  process_distributed_count_le request c w =
      let local = own_count request c.self_node_id c.workers in
      let (partials, w1) = count_children client request (own_children c) local w in
      if_intro
        (λ (x : QueryResult × W).
          x.0.rows_matched ≤ sum_matched local + b * length (own_children c))
        (has_overlay c.overlay && c.has_remote_client)
        (λ _. omega (
          arith,
          count_children_le request (own_children c) local w,
          aggregate_count_results_lem partials,
        ))
        (λ _. omega (arith, aggregate_count_results_lem local))
