-- ===== src/Engine/Paging.antt =====
-- A whole query by chunks: each call of `execute` starts at the row where the last one stopped.
use mathlib.Core.Option
use cmpe275_enterprise_apps.Common.{
  ℕ, zero, suc, ◌+◌, ◌-◌, ◌≤◌, ◌<◌, min, true, false, List, [], ◌∷◌, ◌++◌, Option, none, some, ◌≡◌,
  sym, ap, ◌∙◌, ◌⊎◌, inl, inr, arith, length, take, drop, if◌then◌else◌, ltb, Bool-cases, take_all,
  drop-drop, take-append-drop, length-drop, length-take,
}
use cmpe275_enterprise_apps.Model.Trip.{TaxiTrip}
use cmpe275_enterprise_apps.Model.Request.{QueryRequest}
use cmpe275_enterprise_apps.Model.Result.{LocalQueryResult}
use cmpe275_enterprise_apps.Store.{PartitionStore, is_valid}
use cmpe275_enterprise_apps.Engine.Rows.{
  Row, trips_of, ids_of, scan_rows, rows_of, scan_files-scan_rows, trips_of-append, ids_of-append,
  trips_of-start_row, ids_of-start_row,
}
use cmpe275_enterprise_apps.Engine.Window.{IsWindow, scan_rows-IsWindow}
use cmpe275_enterprise_apps.Engine.{
  FileSystem, RowParser, Scan, new_scan, scan_row, next_row, execute, chunk_size_of,
  scan_row_budget_of,
}

-- The rows in front of the first one asked for are skipped.
scan_rows_skip :
    (request : QueryRequest) (n i : ℕ) (rows : List Row) (s : Scan)
    → s.local_row_id + n ≡ request.start_row
    → i ≡ s.local_row_id + min n (length rows)
    → scan_rows request rows s ≡ scan_rows request (drop n rows) (record s { local_row_id = i })
unfolding scan_row
scan_rows_skip request zero i rows s e f =
    let same : i ≡ s.local_row_id = omega arith in
    ap (λ (k : ℕ). scan_rows request rows (record s { local_row_id = k })) (sym same)
scan_rows_skip request (suc n) i [] s e f =
    let same : i ≡ s.local_row_id = omega arith in
    ap (λ (k : ℕ). scan_rows request [] (record s { local_row_id = k })) (sym same)
scan_rows_skip request (suc n) i (row ∷ rows) s e f =
    let before : ltb s.local_row_id request.start_row ≡ true = ground arith in
    rw before (scan_rows_skip request n i rows (next_row s) (omega arith) (omega arith))

window_size_pos :
    (request : QueryRequest) (start size : ℕ) (window : List Row)
    → (scan_row_budget_of request ≤ 0 + size)
      ⊎ (chunk_size_of request
          ≤ 0 + length (trips_of (record request { start_row = start }) (take size window)))
    → 0 < size
window_size_pos request start zero window h = ground arith
window_size_pos request start (suc n) window h = omega arith

module _ (parser : RowParser) (fs : FileSystem) (store : PartitionStore) where
  abbrev pub stored_rows : List Row
  stored_rows = rows_of parser fs store.files

  -- One call on a valid store, from a row within the data: the result is a window of the rows from
  -- there on. It holds the matching trips of that window and their positions, in order, and the
  -- row behind the window; the window keeps to the scan budget and the chunk size; without
  -- `hasMore` it reaches the end, and with it one of the two limits was met.
  pub execute-IsWindow :
      (request : QueryRequest)
      → is_valid store ≡ true
      → request.start_row ≤ length stored_rows
      → IsWindow request
          (drop request.start_row stored_rows)
          (record new_scan { local_row_id = request.start_row })
          (execute parser fs store request)
  unfolding execute
  execute-IsWindow request v h =
      rw
        (
          v,
          scan_files-scan_rows parser fs request store.files new_scan,
          scan_rows_skip request request.start_row request.start_row stored_rows new_scan
              (omega arith) (omega arith),
        )
        (scan_rows-IsWindow request (drop request.start_row stored_rows)
          (record new_scan { local_row_id = request.start_row }) (omega arith) (omega arith)
          (ground arith))

  -- Calls of `execute` until one says that there is no more; `none` if `fuel` calls do not do.
  unfoldable pub drain : ℕ → QueryRequest → ℕ → Option (List ℕ × List TaxiTrip)
  drain zero request start = none
  drain (suc fuel) request start =
      let r = execute parser fs store (record request { start_row = start }) in
      let rest = drain fuel request r.next_start_row in
      if r.has_more
      then Option.map (λ q. (r.matched_local_row_ids ++ q.0, r.matched_trips ++ q.1)) rest
      else some (r.matched_local_row_ids, r.matched_trips)

  -- What is to come from row `start` on.
  abbrev pub remaining : QueryRequest → ℕ → List ℕ × List TaxiTrip
  remaining request start =
      (ids_of request start (drop start stored_rows), trips_of request (drop start stored_rows))

  module _ (request : QueryRequest) (start : ℕ) {r : LocalQueryResult}
      (w : IsWindow
        (record request { start_row = start })
        (drop start stored_rows)
        (record new_scan { local_row_id = start })
        r) where
    abbrev ahead : List Row
    ahead = drop start stored_rows

    ids-window : r.matched_local_row_ids ≡ ids_of request start (take w.size ahead)
    ids-window = w.ids ∙ ids_of-start_row request start start (take w.size ahead)

    trips-window : r.matched_trips ≡ trips_of request (take w.size ahead)
    trips-window = w.trips ∙ trips_of-start_row request start (take w.size ahead)

    drop-window : drop r.next_start_row stored_rows ≡ drop w.size ahead
    drop-window =
        sym (drop-drop start w.size r.next_start_row stored_rows (omega (arith, w.cursor)))

    cursor-window : r.next_start_row ≡ start + length (take w.size ahead)
    cursor-window = omega (arith, w.cursor, w.size_le, length-take w.size ahead)

    -- The window, and what is behind it.
    pub window-remaining :
        ◌≡◌ {A = List ℕ × List TaxiTrip}
          (
            r.matched_local_row_ids ++ (remaining request r.next_start_row).0,
            r.matched_trips ++ (remaining request r.next_start_row).1,
          )
          (remaining request start)
    window-remaining = λ i. (ids i, trips i)
      where
        ids :
            r.matched_local_row_ids
              ++ ids_of request r.next_start_row (drop r.next_start_row stored_rows)
            ≡ ids_of request start ahead
        ids =
            (λ i. ids-window i ++ ids_of request (cursor-window i) (drop-window i))
            ∙ sym (ids_of-append request start (take w.size ahead) (drop w.size ahead))
            ∙ ap (ids_of request start) (take-append-drop w.size ahead)

        trips :
            r.matched_trips ++ trips_of request (drop r.next_start_row stored_rows)
            ≡ trips_of request ahead
        trips =
            (λ i. trips-window i ++ trips_of request (drop-window i))
            ∙ sym (trips_of-append request (take w.size ahead) (drop w.size ahead))
            ∙ ap (trips_of request) (take-append-drop w.size ahead)

    last-window :
        r.has_more ≡ false
        → ◌≡◌ {A = List ℕ × List TaxiTrip}
            (r.matched_local_row_ids, r.matched_trips)
            (remaining request start)
    last-window e = λ i. (
      (ids-window ∙ ap (ids_of request start) all) i,
      (trips-window ∙ ap (trips_of request) all) i,
    )
      where
        all : take w.size ahead ≡ ahead
        all = take_all w.size ahead (ground (arith, w.ends))

    -- A window that is not the last one holds a row at least.
    pub window_pos : r.has_more ≡ true → 0 < w.size
    window_pos e = window_size_pos request start w.size ahead (ground (arith, w.ends))

  drain-remaining :
      (fuel : ℕ) (request : QueryRequest) (start : ℕ)
      → is_valid store ≡ true
      → start ≤ length stored_rows
      → length stored_rows - start < fuel
      → drain fuel request start ≡ some (remaining request start)
  unfolding drain
  drain-remaining zero request start v h f = elim f [ ]
  drain-remaining (suc fuel) request start v h f =
      let w = execute-IsWindow (record request { start_row = start }) v h in
      let r = execute parser fs store (record request { start_row = start }) in
      elim (Bool-cases r.has_more) [
        | inr last ↦ rw last (ap some (last-window request start w last))
        | inl more ↦
            let rest =
              drain-remaining fuel request r.next_start_row v
                (omega (arith, w.cursor, w.size_le, length-drop start stored_rows))
                (omega (
                  arith,
                  w.cursor,
                  w.size_le,
                  length-drop start stored_rows,
                  window_pos request start w more,
                )) in
            rw (more, rest) (ap some (window-remaining request start w))
      ]

  -- On a valid store, calls of `execute` that each start where the last one stopped come to an
  -- end, within one call more than there are rows, and together return every matching trip with
  -- its position exactly once and in order, whatever the chunk size and the scan budget are.
  pub drain_all :
      (request : QueryRequest) (fuel : ℕ)
      → is_valid store ≡ true
      → length stored_rows < fuel
      → drain fuel request 0 ≡ some (ids_of request 0 stored_rows, trips_of request stored_rows)
  drain_all request fuel v h = drain-remaining fuel request 0 v (omega arith) (omega arith)
