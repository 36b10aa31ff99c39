-- ===== src/Engine/Counting.antt =====
-- `count` agrees with what `execute` returns by chunks.
use cmpe275_enterprise_apps.Common.{
  suc, ◌<◌, ◌+◌, ◌%◌, ◌^◌, true, List, [], ◌∷◌, none, some, ◌≡◌, refl, ◌∙◌, arith, length, add64,
  add64_assoc, Bool-cases, inl, inr,
}
use cmpe275_enterprise_apps.Model.Request.{QueryRequest}
use cmpe275_enterprise_apps.Store.{PartitionStore, is_valid}
use cmpe275_enterprise_apps.Engine.Rows.{Row, trips_of, rows_of, count_rows, count_files-count_rows}
use cmpe275_enterprise_apps.Engine.{FileSystem, RowParser, Counts, count_row, count, matches_row}

count_rows-scanned :
    (request : QueryRequest) (rows : List Row) (c : Counts)
    → add64 (count_rows request rows c).rows_scanned 0 ≡ add64 c.rows_scanned (length rows)
unfolding count_row
count_rows-scanned request [] c = refl
count_rows-scanned request (row ∷ rows) c =
    omega (arith, count_rows-scanned request rows (count_row request row c), scanned_once row)
  where
    scanned_once : (r : Row) → (count_row request r c).rows_scanned ≡ add64 c.rows_scanned 1
    scanned_once none = refl
    scanned_once (some x) = ground arith

count_row-matched :
    (request : QueryRequest) (row : Row) (rows : List Row) (c : Counts)
    → add64 (count_row request row c).rows_matched (length (trips_of request rows))
      ≡ add64 c.rows_matched (length (trips_of request (row ∷ rows)))
unfolding count_row
count_row-matched request none rows c = refl
count_row-matched request (some row) rows c = elim (Bool-cases (matches_row row request)) [
  | inl hit ↦ rw hit (add64_assoc c.rows_matched 1 (length (trips_of request rows)) ∙ one_more)
  | inr miss ↦ rw miss
]
  where
    one_more :
        add64 c.rows_matched (1 + length (trips_of request rows))
        ≡ add64 c.rows_matched (suc (length (trips_of request rows)))
    one_more = omega arith

count_rows-matched :
    (request : QueryRequest) (rows : List Row) (c : Counts)
    → add64 (count_rows request rows c).rows_matched 0
      ≡ add64 c.rows_matched (length (trips_of request rows))
count_rows-matched request [] c = refl
count_rows-matched request (row ∷ rows) c =
    count_rows-matched request rows (count_row request row c) ∙ count_row-matched request row rows c

-- A counter that starts at zero holds less than 2 ^ 64.
count_rows-small :
    (request : QueryRequest) (rows : List Row) (c : Counts)
    → (c.rows_scanned < 2 ^ 64) × (c.rows_matched < 2 ^ 64)
    → ((count_rows request rows c).rows_scanned < 2 ^ 64)
      × ((count_rows request rows c).rows_matched < 2 ^ 64)
count_rows-small request [] c h = h
count_rows-small request (row ∷ rows) c h =
    count_rows-small request rows (count_row request row c) (count_row_small row)
  where
    count_row_small :
        (r : Row)
        → ((count_row request r c).rows_scanned < 2 ^ 64)
          × ((count_row request r c).rows_matched < 2 ^ 64)
    count_row_small none = unfold count_row in omega (arith, h)
    count_row_small (some x) = unfold count_row in ground arith

module _ (parser : RowParser) (fs : FileSystem) (store : PartitionStore) where
  -- On a valid store `count` scans every row and counts, modulo 2 ^ 64, the trips that the query
  -- selects; it returns no trip itself.
  pub count_lem :
      (request : QueryRequest)
      → is_valid store ≡ true
      → let rows = rows_of parser fs store.files in
        let r = count parser fs store request in
        (r.rows_scanned ≡ length rows % 2 ^ 64)
        × (r.rows_matched ≡ length (trips_of request rows) % 2 ^ 64)
        × (r.matched_trips ≡ [])
  unfolding count
  count_lem request v =
      let rows = rows_of parser fs store.files in
      let zero_counts : Counts = record { rows_scanned = 0; rows_matched = 0 } in
      rw (v, count_files-count_rows parser fs request store.files zero_counts)
        (
          omega (
            arith,
            count_rows-scanned request rows zero_counts,
            (count_rows-small request rows zero_counts (omega arith)).0,
          ),
          omega (
            arith,
            count_rows-matched request rows zero_counts,
            (count_rows-small request rows zero_counts (omega arith)).1,
          ),
          refl,
        )
