-- ===== src/Dataset/Serial.antt =====
-- What the serial queries count when nothing stops them.
use cmpe275_enterprise_apps.Common.{
  ℕ, suc, ◌+◌, ◌%◌, ◌^◌, String, List, [], ◌∷◌, ◌++◌, Option, none, some, ◌≡◌, refl, ap, sym, arith,
  if◌then◌else◌, length, length-append, Bool-cases, inl, inr, subst, append-nil, append_assoc,
}
use cmpe275_enterprise_apps.Model.Trip.{TaxiTrip}
use cmpe275_enterprise_apps.Engine.{Bytes, is_empty}
use cmpe275_enterprise_apps.Csv.Row.{Conversions}
use cmpe275_enterprise_apps.TripCsv.Columns.{ColumnIndex, init_from_header}
use cmpe275_enterprise_apps.TripCsv.{parse}
use cmpe275_enterprise_apps.Dataset.Predicates.{Predicate}
use cmpe275_enterprise_apps.Dataset.{
  QueryResult, no_result, Files, never, add_result, counted, open_file, query_line, query_lines,
  query_content, query_file, query_each, query_files,
}

-- What a line that is not empty parses to, or `none` where it is refused.
abbrev pub Row : Type 0
Row = Option TaxiTrip

abbrev pub matching : Predicate → List Row → List TaxiTrip
matching predicate [] = []
matching predicate (none ∷ rows) = matching predicate rows
matching predicate (some trip ∷ rows) =
    if predicate trip then trip ∷ matching predicate rows else matching predicate rows

abbrev pub refused : List Row → ℕ
refused [] = 0
refused (none ∷ rows) = suc (refused rows)
refused (some trip ∷ rows) = refused rows

pub matching-append :
    (predicate : Predicate) (xs ys : List Row)
    → matching predicate (xs ++ ys) ≡ matching predicate xs ++ matching predicate ys
matching-append predicate [] ys = refl
matching-append predicate (none ∷ xs) ys = matching-append predicate xs ys
matching-append predicate (some t ∷ xs) ys = ground (arith, matching-append predicate xs ys)

refused-append : (xs ys : List Row) → refused (xs ++ ys) ≡ refused xs + refused ys
refused-append [] ys = omega arith
refused-append (none ∷ xs) ys = omega (arith, refused-append xs ys)
refused-append (some t ∷ xs) ys = refused-append xs ys

-- The counters of a result that saw `rows`, as numbers of 64 bits.
pub record HasCounts (predicate : Predicate) (rows : List Row) (r : QueryResult) : Type 0 where
  pub rows_scanned : r.rows_scanned ≡ length rows % 2 ^ 64
  pub rows_matched : r.rows_matched ≡ length (matching predicate rows) % 2 ^ 64
  pub rows_parse_failed : r.rows_parse_failed ≡ refused rows % 2 ^ 64

no_result-HasCounts : (predicate : Predicate) → HasCounts predicate [] no_result
no_result-HasCounts predicate = record {
  rows_scanned = refl;
  rows_matched = refl;
  rows_parse_failed = refl;
}

add_result-HasCounts :
    (predicate : Predicate) (xs ys : List Row) {total r : QueryResult}
    → HasCounts predicate xs total
    → HasCounts predicate ys r
    → HasCounts predicate (xs ++ ys) (add_result total r)
add_result-HasCounts predicate xs ys h k =
    let l = length-append xs ys in
    let all = ap length (matching-append predicate xs ys) in
    let n = length-append (matching predicate xs) (matching predicate ys) in
    let m = refused-append xs ys in
    record {
      rows_scanned = omega (arith, h.rows_scanned, k.rows_scanned, l);
      rows_matched = omega (arith, h.rows_matched, k.rows_matched, all, n);
      rows_parse_failed = omega (arith, h.rows_parse_failed, k.rows_parse_failed, m);
    }

module _ (lib : Conversions) (files : Files) (predicate : Predicate) where
  abbrev pub rows_of_lines : Option ColumnIndex → List Bytes → List Row
  rows_of_lines idx [] = []
  rows_of_lines idx (line ∷ lines) =
      if is_empty line
      then rows_of_lines idx lines
      else parse lib idx line ∷ rows_of_lines idx lines

  abbrev pub rows_of_content : Option (List Bytes) → List Row
  rows_of_content none = []
  rows_of_content (some []) = []
  rows_of_content (some (header ∷ lines)) = rows_of_lines (init_from_header header) lines

  -- The rows of the files that are there, in order.
  abbrev pub rows_of : List String → List Row
  rows_of [] = []
  rows_of (path ∷ paths) =
      if files.is_regular_file path
      then rows_of_content (open_file lib files predicate path) ++ rows_of paths
      else rows_of paths

  counted-HasCounts :
      (rows : List Row) (row : Row) {r : QueryResult}
      → HasCounts predicate rows r
      → HasCounts predicate (rows ++ row ∷ []) (counted lib files predicate row r)
  counted-HasCounts rows none h = record {
    rows_scanned = omega (arith, h.rows_scanned, length-append rows (none ∷ []));
    rows_matched =
        let all = ap length (matching-append predicate rows (none ∷ [])) in
        omega (arith, h.rows_matched, all, length-append (matching predicate rows) []);
    rows_parse_failed = omega (arith, h.rows_parse_failed, refused-append rows (none ∷ []));
  }
  counted-HasCounts rows (some t) h = record {
    rows_scanned = omega (arith, h.rows_scanned, length-append rows (some t ∷ []));
    rows_matched =
        let all = ap length (matching-append predicate rows (some t ∷ [])) in
        let n = length-append (matching predicate rows) (matching predicate (some t ∷ [])) in
        ground (arith, h.rows_matched, all, n);
    rows_parse_failed = omega (arith, h.rows_parse_failed, refused-append rows (some t ∷ []));
  }

  query_lines-HasCounts :
      (seen : List Row) (idx : Option ColumnIndex) (k : ℕ) (lines : List Bytes) {r : QueryResult}
      → HasCounts predicate seen r
      → HasCounts predicate
          (seen ++ rows_of_lines idx lines)
          (query_lines lib files predicate idx never k lines r).0
  unfolding query_lines query_line
  query_lines-HasCounts seen idx k [] {r} h =
      subst (λ (rows : List Row). HasCounts predicate rows r) (sym (append-nil seen)) h
  query_lines-HasCounts seen idx k ([] ∷ lines) h = query_lines-HasCounts seen idx (k + 1) lines h
  query_lines-HasCounts seen idx k ((x ∷ xs) ∷ lines) {r} h =
      let row = parse lib idx (x ∷ xs) in
      let r' = counted lib files predicate row r in
      subst
        (λ (rows : List Row).
          HasCounts predicate rows (query_lines lib files predicate idx never (k + 1) lines r').0)
        (append_assoc seen (row ∷ []) (rows_of_lines idx lines))
        (query_lines-HasCounts (seen ++ row ∷ []) idx (k + 1) lines (counted-HasCounts seen row h))

  query_content-HasCounts :
      (k : ℕ) (lines : Option (List Bytes))
      → HasCounts predicate
          (rows_of_content lines)
          (query_content lib files predicate never k lines).0
  query_content-HasCounts k none = no_result-HasCounts predicate
  query_content-HasCounts k (some []) = no_result-HasCounts predicate
  query_content-HasCounts k (some (header ∷ lines)) =
      query_lines-HasCounts [] (init_from_header header) k lines (no_result-HasCounts predicate)

  query_file-HasCounts :
      (k : ℕ) (path : String)
      → HasCounts predicate
          (rows_of_content (open_file lib files predicate path))
          (query_file lib files predicate never k path).0
  unfolding query_file
  query_file-HasCounts k path = query_content-HasCounts (k + 1) (open_file lib files predicate path)

  query_each-HasCounts :
      (seen : List Row) (k : ℕ) (paths : List String) {total : QueryResult}
      → HasCounts predicate seen total
      → HasCounts predicate
          (seen ++ rows_of paths)
          (query_each lib files predicate never k paths total)
  unfolding query_each
  query_each-HasCounts seen k [] {total} h =
      subst (λ (rows : List Row). HasCounts predicate rows total) (sym (append-nil seen)) h
  query_each-HasCounts seen k (path ∷ paths) {total} h =
      elim (Bool-cases (files.is_regular_file path)) [
        | inr missing ↦ rw missing (query_each-HasCounts seen (k + 1) paths h)
        | inl there ↦
            let (r, k') = query_file lib files predicate never (k + 1) path in
            let here = rows_of_content (open_file lib files predicate path) in
            rw (there, sym (append_assoc seen here (rows_of paths)))
              (query_each-HasCounts (seen ++ here) k' paths
                (add_result-HasCounts predicate seen here h (query_file-HasCounts (k + 1) path)))
      ]

  -- Where nothing stops it, `queryFiles` counts the rows of the regular files, which are the lines
  -- under each header that are not empty, those of them that match, and those that do not parse,
  -- each modulo 2 ^ 64.
  pub query_files-HasCounts :
      (paths : List String)
      → HasCounts predicate (rows_of paths) (query_files lib files predicate never paths)
  unfolding query_files
  query_files-HasCounts paths = query_each-HasCounts [] 0 paths (no_result-HasCounts predicate)
