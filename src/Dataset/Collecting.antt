-- ===== src/Dataset/Collecting.antt =====
-- `queryFilesCollect` and `queryDirCollect`: the queries that also keep the first trips that match.
use cmpe275_enterprise_apps.Common.{
  ℕ, ◌+◌, String, Bool, false, not, ◌&&◌, List, [], ◌∷◌, ◌++◌, Option, none, some, ltb, leb,
  if◌then◌else◌, length,
}
use cmpe275_enterprise_apps.Model.Trip.{TaxiTrip}
use cmpe275_enterprise_apps.Engine.{Bytes, is_empty}
use cmpe275_enterprise_apps.Csv.Row.{Conversions}
use cmpe275_enterprise_apps.TripCsv.Columns.{ColumnIndex, init_from_header}
use cmpe275_enterprise_apps.TripCsv.{parse}
use cmpe275_enterprise_apps.Dataset.Predicates.{Predicate}
use cmpe275_enterprise_apps.Dataset.{
  QueryResult, no_result, Files, StopFlag, counted, open_file, listed,
}

-- `matchedTrips->size() < maxMatches` and `>=`, where trips are kept.
abbrev pub has_room : ℕ → Option (List TaxiTrip) → Bool
has_room max_matches none = false
has_room max_matches (some trips) = ltb 0 max_matches && ltb (length trips) max_matches

abbrev pub is_full : ℕ → Option (List TaxiTrip) → Bool
is_full max_matches none = false
is_full max_matches (some trips) = ltb 0 max_matches && leb max_matches (length trips)

abbrev pub push : TaxiTrip → Option (List TaxiTrip) → Option (List TaxiTrip)
push trip none = none
push trip (some trips) = some (trips ++ trip ∷ [])

abbrev pub empty_total : ℕ → QueryResult
empty_total max_matches = record no_result {
  matched_trips = if ltb 0 max_matches then some [] else none;
}

module _ (lib : Conversions) (files : Files) (predicate : Predicate) where
  abbrev pub keep : ℕ → TaxiTrip → QueryResult → QueryResult
  keep max_matches trip r = record r {
    matched_trips =
        if has_room max_matches r.matched_trips then push trip r.matched_trips else r.matched_trips;
  }

  -- A row, and whether the loop over the file ends behind it.
  unfoldable pub collect_row : ℕ → Option TaxiTrip → QueryResult → QueryResult × Bool
  collect_row max_matches none r = (counted lib files predicate none r, false)
  collect_row max_matches (some trip) r =
      let r1 = counted lib files predicate (some trip) r in
      let r2 = keep max_matches trip r1 in
      if predicate trip then (r2, is_full max_matches r2.matched_trips) else (r1, false)

  unfoldable pub collect_lines :
      Option ColumnIndex → StopFlag → ℕ → ℕ → List Bytes → QueryResult → QueryResult × ℕ
  collect_lines idx stop max_matches k [] r = (r, k)
  collect_lines idx stop max_matches k (line ∷ lines) r =
      let (r', hit) = collect_row max_matches (parse lib idx line) r in
      let skipped = collect_lines idx stop max_matches (k + 1) lines r in
      let rest = collect_lines idx stop max_matches (k + 1) lines r' in
      if stop k
      then (r, k + 1)
      else if is_empty line
      then skipped
      else if hit
      then (r', k + 1)
      else rest

  abbrev pub collect_content :
      StopFlag → ℕ → ℕ → Option (List Bytes) → QueryResult → QueryResult × ℕ
  collect_content stop max_matches k none r = (r, k)
  collect_content stop max_matches k (some []) r = (r, k)
  collect_content stop max_matches k (some (header ∷ lines)) r =
      collect_lines (init_from_header header) stop max_matches k lines r

  -- The loop over the files.
  unfoldable pub collect_each : StopFlag → ℕ → ℕ → List String → QueryResult → QueryResult
  collect_each stop max_matches k [] total = total
  collect_each stop max_matches k (path ∷ paths) total =
      let (r, k') =
        collect_content stop max_matches (k + 1) (open_file lib files predicate path) total in
      let skipped = collect_each stop max_matches (k + 1) paths total in
      let rest = collect_each stop max_matches k' paths r in
      if stop k
      then total
      else if is_full max_matches total.matched_trips
      then total
      else if not (files.is_regular_file path)
      then skipped
      else rest

  unfoldable pub query_files_collect : StopFlag → ℕ → List String → QueryResult
  query_files_collect stop max_matches paths =
      collect_each stop max_matches 0 paths (empty_total max_matches)

  abbrev query_dir_collect : (List String → List String) → StopFlag → ℕ → String → QueryResult
  query_dir_collect sort stop max_matches path =
      listed lib files predicate sort (query_files_collect stop max_matches) (files.directory path)
