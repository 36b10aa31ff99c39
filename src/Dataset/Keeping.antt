-- ===== src/Dataset/Keeping.antt =====
-- What the queries of Dataset/Collecting keep.
use cmpe275_enterprise_apps.Common.{
  ℕ, zero, suc, ◌+◌, ◌%◌, ◌^◌, ◌<◌, ◌≤◌, String, true, false, ◌&&◌, List, [], ◌∷◌, ◌++◌, Option,
  none, some, ◌≡◌, refl, ap, ◌∙◌, sym, subst, arith, ltb, leb, if◌then◌else◌, if_intro, length,
  take, take_all, length-take, length-append, append-nil, append_assoc, Bool-cases, inl, inr,
}
use cmpe275_enterprise_apps.Model.Trip.{TaxiTrip}
use cmpe275_enterprise_apps.Engine.{Bytes}
use cmpe275_enterprise_apps.Csv.Row.{Conversions}
use cmpe275_enterprise_apps.TripCsv.Columns.{ColumnIndex, init_from_header}
use cmpe275_enterprise_apps.TripCsv.{parse}
use cmpe275_enterprise_apps.Dataset.Predicates.{Predicate}
use cmpe275_enterprise_apps.Dataset.Serial.{
  Row, matching, matching-append, rows_of_lines, rows_of_content, rows_of,
}
use cmpe275_enterprise_apps.Dataset.{QueryResult, Files, never, open_file}
use cmpe275_enterprise_apps.Dataset.Collecting.{
  is_full, empty_total, collect_row, collect_lines, collect_content, collect_each,
  query_files_collect,
}

module _ (lib : Conversions) (files : Files) (predicate : Predicate) where
  -- The trips that are kept are those that were counted.
  pub record Keeps (trips : List TaxiTrip) (r : QueryResult) : Type 0 where
    pub matched_trips : r.matched_trips ≡ some trips
    pub rows_matched : r.rows_matched ≡ length trips % 2 ^ 64

  module _ (m : ℕ) (pos : 0 < m) where
    take-append : (n : ℕ) (xs ys : List TaxiTrip) → n ≤ length xs → take n (xs ++ ys) ≡ take n xs
    take-append zero xs ys h = refl
    take-append (suc n) [] ys h = absurd (omega arith)
    take-append (suc n) (x ∷ xs) ys h = ap (◌∷◌ x) (take-append n xs ys (omega arith))

    collect_row-Keeps :
        (ts : List TaxiTrip) (t : TaxiTrip) {r : QueryResult}
        → Keeps ts r
        → length ts < m
        → predicate t ≡ true
        → Keeps (ts ++ t ∷ []) (collect_row lib files predicate m (some t) r).0
          × ((collect_row lib files predicate m (some t) r).1 ≡ leb m (length ts + 1))
    unfolding collect_row
    collect_row-Keeps ts t {r} h l p =
        let n = length-append ts (t ∷ []) in
        let room : (ltb 0 m && ltb (length ts) m) ≡ true = ground arith in
        rw (p, h.matched_trips, room)
          (
            record { matched_trips = refl; rows_matched = omega (arith, h.rows_matched, n) },
            ground (arith, n),
          )

    -- A row, with room for a trip, and the loop behind it.
    step-Keeps :
        (row : Row) (rows : List Row) (next : QueryResult → QueryResult × ℕ) (j : ℕ)
        (ts : List TaxiTrip) {r : QueryResult}
        → ((us : List TaxiTrip) (q : QueryResult)
            → Keeps us q
            → length us < m
            → Keeps (take m (us ++ matching predicate rows)) (next q).0)
        → Keeps ts r
        → length ts < m
        → let (r', hit) = collect_row lib files predicate m row r in
          Keeps
            (take m (ts ++ matching predicate (row ∷ rows)))
            (if hit then (r', j) else next r').0
    unfolding collect_row
    step-Keeps none rows next j ts go h l =
        go ts _ (record { matched_trips = h.matched_trips; rows_matched = h.rows_matched }) l
    step-Keeps (some t) rows next j ts {r} go h l =
        let later = matching predicate rows in
        elim (Bool-cases (predicate t)) [
          | inr no_match ↦ rw no_match (
              go ts _ (record { matched_trips = h.matched_trips; rows_matched = h.rows_matched }) l)
          | inl match ↦
              let (kept, hit) = collect_row-Keeps ts t h l match in
              let n = length-append ts (t ∷ []) in
              let longer : take m (ts ++ matching predicate (some t ∷ rows))
                  ≡ take m ((ts ++ t ∷ []) ++ later) =
                rw (match, append_assoc ts (t ∷ []) later) refl in
              rw longer (
                if_intro (λ (x : QueryResult × ℕ). Keeps (take m ((ts ++ t ∷ []) ++ later)) x.0)
                  (collect_row lib files predicate m (some t) r).1
                  (λ e.
                    let full : leb m (length ts + 1) ≡ true = sym hit ∙ e in
                    let same : take m ((ts ++ t ∷ []) ++ later) ≡ ts ++ t ∷ [] =
                      take-append m (ts ++ t ∷ []) later (ground (arith, full, n))
                      ∙ take_all m (ts ++ t ∷ []) (omega (arith, n)) in
                    rw same kept)
                  (λ e.
                    let open_ : leb m (length ts + 1) ≡ false = sym hit ∙ e in
                    go (ts ++ t ∷ []) _ kept (ground (arith, open_, n))))
        ]

    -- One file, with room for a trip at its start.
    collect_lines-Keeps :
        (idx : Option ColumnIndex) (k : ℕ) (lines : List Bytes) (ts : List TaxiTrip)
        {r : QueryResult}
        → Keeps ts r
        → length ts < m
        → Keeps
            (take m (ts ++ matching predicate (rows_of_lines lib files predicate idx lines)))
            (collect_lines lib files predicate idx never m k lines r).0
    unfolding collect_lines collect_row
    collect_lines-Keeps idx k [] ts {r} h l =
        let all : take m (ts ++ []) ≡ ts =
          ap (take m) (append-nil ts) ∙ take_all m ts (omega arith) in
        rw all h
    collect_lines-Keeps idx k ([] ∷ lines) ts h l = collect_lines-Keeps idx (k + 1) lines ts h l
    collect_lines-Keeps idx k ((x ∷ xs) ∷ lines) ts {r} h l =
        step-Keeps (parse lib idx (x ∷ xs)) (rows_of_lines lib files predicate idx lines)
          (collect_lines lib files predicate idx never m (k + 1) lines) (k + 1) ts
          (λ us q g e. collect_lines-Keeps idx (k + 1) lines us g e) h l

    collect_content-Keeps :
        (k : ℕ) (content : Option (List Bytes)) (ts : List TaxiTrip) {r : QueryResult}
        → Keeps ts r
        → length ts < m
        → Keeps
            (take m (ts ++ matching predicate (rows_of_content lib files predicate content)))
            (collect_content lib files predicate never m k content r).0
    collect_content-Keeps k none ts h l =
        let all : take m (ts ++ []) ≡ ts =
          ap (take m) (append-nil ts) ∙ take_all m ts (omega arith) in
        rw all h
    collect_content-Keeps k (some []) ts h l =
        let all : take m (ts ++ []) ≡ ts =
          ap (take m) (append-nil ts) ∙ take_all m ts (omega arith) in
        rw all h
    collect_content-Keeps k (some (header ∷ lines)) ts h l =
        collect_lines-Keeps (init_from_header header) k lines ts h l

    collect_each-Keeps :
        (k : ℕ) (paths : List String) (ts : List TaxiTrip) {total : QueryResult}
        → Keeps (take m ts) total
        → Keeps
            (take m (ts ++ matching predicate (rows_of lib files predicate paths)))
            (collect_each lib files predicate never m k paths total)
    unfolding collect_each
    collect_each-Keeps k [] ts h = let same = ap (take m) (append-nil ts) in rw same h
    collect_each-Keeps k (path ∷ paths) ts {total} h =
        let here =
          matching predicate
            (rows_of_content lib files predicate (open_file lib files predicate path)) in
        let later = matching predicate (rows_of lib files predicate paths) in
        elim (Bool-cases (leb m (length (take m ts)))) [
          | inl full ↦
              let enough : m ≤ length ts = ground (arith, full, length-take m ts) in
              let same =
                take-append m ts (matching predicate (rows_of lib files predicate (path ∷ paths)))
                  enough in
              let test : is_full m total.matched_trips ≡ true =
                ap (is_full m) h.matched_trips ∙ ground (arith, full) in
              rw (test, same) h
          | inr open_ ↦
              let short : length ts < m = ground (arith, open_, length-take m ts) in
              let all = take_all m ts (omega arith) in
              let v : Keeps ts total = subst (λ (us : List TaxiTrip). Keeps us total) all h in
              let test : is_full m total.matched_trips ≡ false =
                ap (is_full m) v.matched_trips ∙ ground (arith, short) in
              elim (Bool-cases (files.is_regular_file path)) [
                | inr missing ↦ rw (test, missing) (collect_each-Keeps (k + 1) paths ts h)
                | inl there ↦
                    let content = open_file lib files predicate path in
                    let (r, k') =
                      collect_content lib files predicate never m (k + 1) content total in
                    let both =
                      matching-append predicate (rows_of_content lib files predicate content)
                        (rows_of lib files predicate paths) in
                    rw (test, there, both, sym (append_assoc ts here later))
                      (collect_each-Keeps k' paths (ts ++ here)
                        (collect_content-Keeps (k + 1) content ts v short))
              ]
        ]

  -- Where nothing stops it and trips are asked for, `queryFilesCollect` returns the first
  -- `maxMatches` of the trips that match, in the order of the files and their lines, or all of them
  -- if there are fewer; it counts as matched, modulo 2 ^ 64, the trips that it returns.
  pub query_files_collect-Keeps :
      (m : ℕ) (paths : List String)
      → 0 < m
      → Keeps
          (take m (matching predicate (rows_of lib files predicate paths)))
          (query_files_collect lib files predicate never m paths)
  unfolding query_files_collect
  query_files_collect-Keeps m paths pos =
      let some_asked : ltb 0 m ≡ true = ground arith in
      let start : Keeps (take m []) (empty_total m) = rw some_asked (
        let none_kept = take_all {A = TaxiTrip} m [] (omega arith) in
        rw none_kept (record { matched_trips = refl; rows_matched = refl })) in
      collect_each-Keeps m pos 0 paths [] start
