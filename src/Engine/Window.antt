-- ===== src/Engine/Window.antt =====
-- One call of `execute`: the window of rows that it scans, and what it returns of them.
use cmpe275_enterprise_apps.Common.{
  ℕ, suc, Bool, ◌+◌, ◌≤◌, ◌<◌, true, false, List, [], ◌∷◌, ◌++◌, none, some, ◌≡◌, refl, sym, ◌∙◌,
  ◌⊎◌, inl, inr, arith, length, take, ltb, leb, leb→le, add64, append_assoc, append-nil, Bool-cases,
}
use cmpe275_enterprise_apps.Model.Trip.{TaxiTrip, to_taxi_trip}
use cmpe275_enterprise_apps.Model.Request.{QueryRequest}
use cmpe275_enterprise_apps.Model.Result.{LocalQueryResult}
use cmpe275_enterprise_apps.Engine.Rows.{Row, trips_of, ids_of, scan_rows}
use cmpe275_enterprise_apps.Engine.{
  Scan, ◌>>=◌, scan_row, take_row, emit, matches_row, finish, close, next_row, scanned,
  chunk_size_of, scan_row_budget_of,
}

-- `r` is what the loop returns from state `s` with `rows` ahead: it scans `count` of them, returns
-- those that match behind what it had, and stops at the end or where a limit is met.
pub record IsWindow (request : QueryRequest) (rows : List Row) (s : Scan) (r : LocalQueryResult)
    : Type 0 where
  pub size : ℕ
  pub size_le : size ≤ length rows
  pub cursor : r.next_start_row ≡ s.local_row_id + size
  pub trips : r.matched_trips ≡ s.result.matched_trips ++ trips_of request (take size rows)
  pub ids :
      r.matched_local_row_ids
      ≡ s.result.matched_local_row_ids ++ ids_of request s.local_row_id (take size rows)
  pub emitted : r.rows_emitted ≡ s.emitted + length (trips_of request (take size rows))
  pub budget_ok : s.scanned_this_chunk + size ≤ scan_row_budget_of request
  pub chunk_ok : s.emitted + length (trips_of request (take size rows)) ≤ chunk_size_of request
  pub ends :
      ((r.has_more ≡ false) × (size ≡ length rows))
      ⊎ ((r.has_more ≡ true)
          × ((scan_row_budget_of request ≤ s.scanned_this_chunk + size)
              ⊎ (chunk_size_of request ≤ s.emitted + length (trips_of request (take size rows)))))

window_ends :
    {A B C D : Type 0} {b : Bool}
    → (A → C)
    → (B → D)
    → ((b ≡ false) × A) ⊎ ((b ≡ true) × B)
    → ((b ≡ false) × C) ⊎ ((b ≡ true) × D)
window_ends f g (inl (e, a)) = inl (e, f a)
window_ends f g (inr (e, c)) = inr (e, g c)

-- Behind the last row.
IsWindow-nil :
    (request : QueryRequest) (s : Scan)
    → s.scanned_this_chunk ≤ scan_row_budget_of request
    → s.emitted ≤ chunk_size_of request
    → IsWindow request [] s (close false s)
IsWindow-nil request s b e = record {
  size = 0;
  size_le = omega arith;
  cursor = omega arith;
  trips = sym (append-nil _);
  ids = sym (append-nil _);
  emitted = omega arith;
  budget_ok = omega arith;
  chunk_ok = omega arith;
  ends = inl (refl, refl);
}

IsWindow-stop :
    (request : QueryRequest) (rows : List Row) (s : Scan)
    → scan_row_budget_of request ≡ s.scanned_this_chunk
    → s.emitted ≤ chunk_size_of request
    → IsWindow request rows s (close true s)
IsWindow-stop request rows s b e = record {
  size = 0;
  size_le = omega arith;
  cursor = omega arith;
  trips = sym (append-nil _);
  ids = sym (append-nil _);
  emitted = omega arith;
  budget_ok = omega arith;
  chunk_ok = omega arith;
  ends = inr (refl, inl (omega arith));
}

-- A row that does not match.
IsWindow-skip :
    (request : QueryRequest) (row : Row) (rows : List Row) (s : Scan) {r : LocalQueryResult}
    → ((xs : List Row) → trips_of request (row ∷ xs) ≡ trips_of request xs)
    → ((i : ℕ) (xs : List Row) → ids_of request i (row ∷ xs) ≡ ids_of request (i + 1) xs)
    → IsWindow request rows (next_row (scanned s)) r
    → IsWindow request (row ∷ rows) s r
IsWindow-skip request row rows s t i w = record {
  size = suc w.size;
  size_le = omega (arith, w.size_le);
  cursor = omega (arith, w.cursor);
  trips = rw t w.trips;
  ids = rw i w.ids;
  emitted = rw t w.emitted;
  budget_ok = omega (arith, w.budget_ok);
  chunk_ok = rw t w.chunk_ok;
  ends = rw t (window_ends (λ x. omega arith) (λ x. omega arith) w.ends);
}

-- The state behind a row that is emitted.
abbrev emitted_row : TaxiTrip → Scan → Scan
emitted_row trip s = record s {
  local_row_id = s.local_row_id + 1;
  emitted = s.emitted + 1;
  result = record (s.result) {
    rows_matched = add64 s.result.rows_matched 1;
    matched_local_row_ids = s.result.matched_local_row_ids ++ s.local_row_id ∷ [];
    matched_trips = s.result.matched_trips ++ trip ∷ [];
  };
}

module _ (request : QueryRequest) (row : Row) (trip : TaxiTrip) (rows : List Row) (s : Scan)
    (t : (xs : List Row) → trips_of request (row ∷ xs) ≡ trip ∷ trips_of request xs)
    (i : (i : ℕ) (xs : List Row)
      → ids_of request i (row ∷ xs) ≡ i ∷ ids_of request (i + 1) xs) where
  IsWindow-emit :
      {r : LocalQueryResult}
      → IsWindow request rows (emitted_row trip (scanned s)) r
      → IsWindow request (row ∷ rows) s r
  IsWindow-emit w = record {
    size = suc w.size;
    size_le = omega (arith, w.size_le);
    cursor = omega (arith, w.cursor);
    trips = rw t (w.trips ∙ append_assoc s.result.matched_trips (trip ∷ []) _);
    ids = rw i (w.ids ∙ append_assoc s.result.matched_local_row_ids (s.local_row_id ∷ []) _);
    emitted = rw t (omega (arith, w.emitted));
    budget_ok = omega (arith, w.budget_ok);
    chunk_ok = rw t (omega (arith, w.chunk_ok));
    ends = rw t (window_ends (λ x. omega arith) (λ x. omega arith) w.ends);
  }

  -- The row that fills the chunk.
  IsWindow-fill :
      s.scanned_this_chunk < scan_row_budget_of request
      → s.emitted + 1 ≡ chunk_size_of request
      → IsWindow request (row ∷ rows) s (close true (emitted_row trip (scanned s)))
  IsWindow-fill b e = record {
    size = 1;
    size_le = omega arith;
    cursor = omega arith;
    trips = rw t;
    ids = rw i;
    emitted = rw t (omega arith);
    budget_ok = omega arith;
    chunk_ok = rw t (omega arith);
    ends = inr (refl, rw t (inr (omega arith)));
  }

-- A row that is not skipped is taken, unless the scan budget is used up.
IsWindow-first :
    (request : QueryRequest) (row : Row) (rows : List Row) (s : Scan)
    → request.start_row ≤ s.local_row_id
    → s.scanned_this_chunk ≤ scan_row_budget_of request
    → s.emitted < chunk_size_of request
    → (s.scanned_this_chunk < scan_row_budget_of request
        → IsWindow request
            (row ∷ rows)
            s
            (finish (take_row request row (scanned s) >>= λ s'. scan_rows request rows s')))
    → IsWindow request (row ∷ rows) s (finish (scan_rows request (row ∷ rows) s))
unfolding scan_row
IsWindow-first request row rows s h b e taken =
    let started : ltb s.local_row_id request.start_row ≡ false = ground arith in
    elim (Bool-cases (leb (scan_row_budget_of request) s.scanned_this_chunk)) [
      | inl over ↦
          rw (started, over)
            (IsWindow-stop request (row ∷ rows) s
              (let le = leb→le (scan_row_budget_of request) s.scanned_this_chunk over in
                omega arith)
              (omega arith))
      | inr within ↦ rw (started, within) (taken (ground (arith, b, within)))
    ]

pub scan_rows-IsWindow :
    (request : QueryRequest) (rows : List Row) (s : Scan)
    → request.start_row ≤ s.local_row_id
    → s.scanned_this_chunk ≤ scan_row_budget_of request
    → s.emitted < chunk_size_of request
    → IsWindow request rows s (finish (scan_rows request rows s))
unfolding take_row emit
scan_rows-IsWindow request [] s h b e = IsWindow-nil request s b (omega arith)
scan_rows-IsWindow request (none ∷ rows) s h b e =
    IsWindow-first request none rows s h b e λ within.
      IsWindow-skip request none rows s (λ xs. refl) (λ i xs. refl)
        (scan_rows-IsWindow request rows (next_row (scanned s)) (omega arith) (omega arith)
          (omega arith))
scan_rows-IsWindow request (some row ∷ rows) s h b e =
    IsWindow-first request (some row) rows s h b e λ within.
      elim (Bool-cases (matches_row row request)) [
        | inr miss ↦ rw miss (
            IsWindow-skip request (some row) rows s (λ xs. rw miss) (λ i xs. rw miss)
              (scan_rows-IsWindow request rows (next_row (scanned s)) (omega arith) (omega arith)
                (omega arith)))
        | inl hit ↦ elim (Bool-cases (leb (chunk_size_of request) (s.emitted + 1))) [
          | inl filled ↦
              rw (hit, filled)
                (IsWindow-fill request (some row) (to_taxi_trip row) rows s (λ xs. rw hit)
                  (λ i xs. rw hit) within
                  (let le = leb→le (chunk_size_of request) (s.emitted + 1) filled in omega arith))
          | inr open_chunk ↦
              rw (hit, open_chunk)
                (IsWindow-emit request (some row) (to_taxi_trip row) rows s (λ xs. rw hit)
                  (λ i xs. rw hit)
                  (scan_rows-IsWindow request rows (emitted_row (to_taxi_trip row) (scanned s))
                    (omega arith) (omega arith) (ground (arith, e, open_chunk))))
        ]
      ]
