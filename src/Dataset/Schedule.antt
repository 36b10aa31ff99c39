-- ===== src/Dataset/Schedule.antt =====
-- The parallel query against the serial one.
use mathlib.Core.List.{Permᴰ}
use cmpe275_enterprise_apps.Common.{
  ℕ, ◌+◌, String, true, List, [], ◌∷◌, Option, none, some, ◌≡◌, refl, ap, ◌∙◌, sym, arith, add64,
  map, All,
}
use cmpe275_enterprise_apps.Engine.{Bytes}
use cmpe275_enterprise_apps.Csv.Row.{Conversions}
use cmpe275_enterprise_apps.TripCsv.Columns.{ColumnIndex, init_from_header}
use cmpe275_enterprise_apps.Dataset.Predicates.{Predicate}
use cmpe275_enterprise_apps.Dataset.{
  QueryResult, no_result, Files, StopFlag, never, add_result, open_file, query_line, query_lines,
  query_content, query_file, query_each, query_files, query_parallel, query_files_parallel,
}

-- Every thread gets its files, and a flag that is never set.
abbrev pub unstopped : List String → List (StopFlag × String)
unstopped = map (λ path. (never, path))

add_result-swap :
    (t r s : QueryResult) → add_result (add_result t r) s ≡ add_result (add_result t s) r
add_result-swap t r s = λ i. record t {
  rows_scanned = swapped t.rows_scanned r.rows_scanned s.rows_scanned i;
  rows_matched = swapped t.rows_matched r.rows_matched s.rows_matched i;
  rows_parse_failed = swapped t.rows_parse_failed r.rows_parse_failed s.rows_parse_failed i;
}
  where
    swapped : (a b c : ℕ) → add64 (add64 a b) c ≡ add64 (add64 a c) b
    swapped a b c = omega arith

module _ (lib : Conversions) (files : Files) (predicate : Predicate) where
  pub query_lines-never :
      (idx : Option ColumnIndex) (j k : ℕ) (lines : List Bytes) (r : QueryResult)
      → (query_lines lib files predicate idx never j lines r).0
        ≡ (query_lines lib files predicate idx never k lines r).0
  unfolding query_lines
  query_lines-never idx j k [] r = refl
  query_lines-never idx j k (line ∷ lines) r =
      query_lines-never idx (j + 1) (k + 1) lines (query_line lib files predicate idx line r)

  query_file-never :
      (j k : ℕ) (path : String)
      → (query_file lib files predicate never j path).0
        ≡ (query_file lib files predicate never k path).0
  unfolding query_file
  query_file-never j k path = content (open_file lib files predicate path)
    where
      content :
          (lines : Option (List Bytes))
          → (query_content lib files predicate never (j + 1) lines).0
            ≡ (query_content lib files predicate never (k + 1) lines).0
      content none = refl
      content (some []) = refl
      content (some (header ∷ lines)) =
          query_lines-never (init_from_header header) (j + 1) (k + 1) lines no_result

  query_each-query_parallel :
      (k : ℕ) (paths : List String) (total : QueryResult)
      → All (λ path. files.is_regular_file path ≡ true) paths
      → query_each lib files predicate never k paths total
        ≡ query_parallel lib files predicate (unstopped paths) total
  unfolding query_each query_parallel
  query_each-query_parallel k [] total a = refl
  query_each-query_parallel k (path ∷ paths) total a = rw a.0 (
      query_each-query_parallel (query_file lib files predicate never (k + 1) path).1 paths
        (add_result total (query_file lib files predicate never (k + 1) path).0) a.1
      ∙ ap
          (λ (r : QueryResult).
            query_parallel lib files predicate (unstopped paths) (add_result total r))
          (query_file-never (k + 1) 1 path))

  query_parallel-Perm :
      {paths order : List String}
      → Permᴰ paths order
      → (total : QueryResult)
      → query_parallel lib files predicate (unstopped paths) total
        ≡ query_parallel lib files predicate (unstopped order) total
  unfolding query_parallel
  query_parallel-Perm Permᴰ.nil total = refl
  query_parallel-Perm (Permᴰ.cons {a} {b} {l₁} {l₂} e p) total =
      query_parallel-Perm p (add_result total (query_file lib files predicate never 1 a).0)
      ∙ ap
          (λ (x : String).
            query_parallel lib files predicate (unstopped l₂)
              (add_result total (query_file lib files predicate never 1 x).0))
          e
  query_parallel-Perm (Permᴰ.swap {a} {b} {a'} {b'} {l} e f) total =
      let of = λ (x : String). (query_file lib files predicate never 1 x).0 in
      ap (query_parallel lib files predicate (unstopped l)) (add_result-swap total (of a) (of b))
      ∙ λ i.
          query_parallel lib files predicate (unstopped l)
            (add_result (add_result total (of (f i))) (of (e i)))
  query_parallel-Perm (Permᴰ.trans p q) total =
      query_parallel-Perm p total ∙ query_parallel-Perm q total

  -- The threads may come to the files in any order: where nothing stops them and every path is a
  -- regular file, `queryFilesParallel` counts what `queryFiles` counts.
  pub query_files_parallel-query_files :
      (paths order : List String)
      → Permᴰ paths order
      → All (λ path. files.is_regular_file path ≡ true) paths
      → query_files_parallel lib files predicate (unstopped order)
        ≡ query_files lib files predicate never paths
  unfolding query_files query_files_parallel
  query_files_parallel-query_files paths order p a =
      sym (query_each-query_parallel 0 paths no_result a ∙ query_parallel-Perm p no_result)
