-- ===== src/Model/Result.antt =====
-- basic/src/model/QueryResult.hpp, LocalQueryResult.hpp and RowRef.hpp. The 64-bit counters wrap.
use cmpe275_enterprise_apps.Common.{
  ℕ, String, Bool, false, ◌||◌, List, [], ◌∷◌, ◌++◌, if◌then◌else◌, ltb, add64, length,
}
use cmpe275_enterprise_apps.Model.Trip.{TaxiTrip}

pub record RowRef : Type 0 where
  pub node_id : String
  pub local_row_id : ℕ

pub record QueryResult : Type 0 where
  pub rows_scanned : ℕ
  pub rows_matched : ℕ
  pub matched_rows : List RowRef
  pub matched_trips : List TaxiTrip
  pub matched_trip_sources : List String
  pub rows_skipped : ℕ
  pub rows_emitted : ℕ
  pub next_start_row : ℕ
  pub has_more : Bool

abbrev pub empty_result : QueryResult
empty_result = record {
  rows_scanned = 0;
  rows_matched = 0;
  matched_rows = [];
  matched_trips = [];
  matched_trip_sources = [];
  rows_skipped = 0;
  rows_emitted = 0;
  next_start_row = 0;
  has_more = false;
}

abbrev pub add_matched_row : QueryResult → String → ℕ → QueryResult
add_matched_row r node_id local_row_id = record r {
  matched_rows = r.matched_rows ++ record { node_id = node_id; local_row_id = local_row_id } ∷ [];
}

-- `QueryResult::merge`: `this` takes in `other`.
unfoldable pub merge : QueryResult → QueryResult → QueryResult
merge this other = record {
  rows_scanned = add64 this.rows_scanned other.rows_scanned;
  rows_matched = add64 this.rows_matched other.rows_matched;
  matched_rows = this.matched_rows ++ other.matched_rows;
  matched_trips = this.matched_trips ++ other.matched_trips;
  matched_trip_sources = this.matched_trip_sources ++ other.matched_trip_sources;
  rows_skipped = add64 this.rows_skipped other.rows_skipped;
  rows_emitted = add64 this.rows_emitted other.rows_emitted;
  next_start_row =
      if ltb this.next_start_row other.next_start_row
      then other.next_start_row
      else this.next_start_row;
  has_more = this.has_more || other.has_more;
}

pub record LocalQueryResult : Type 0 where
  pub rows_scanned : ℕ
  pub rows_matched : ℕ
  pub matched_local_row_ids : List ℕ
  pub matched_trips : List TaxiTrip
  pub rows_skipped : ℕ
  pub rows_emitted : ℕ
  pub next_start_row : ℕ
  pub has_more : Bool

abbrev pub empty_local_result : LocalQueryResult
empty_local_result = record {
  rows_scanned = 0;
  rows_matched = 0;
  matched_local_row_ids = [];
  matched_trips = [];
  rows_skipped = 0;
  rows_emitted = 0;
  next_start_row = 0;
  has_more = false;
}

-- `LocalQueryResult::merge`: `this` takes in `other`; where to go on and whether there is more stay.
abbrev merge_local : LocalQueryResult → LocalQueryResult → LocalQueryResult
merge_local this other = record this {
  rows_scanned = add64 this.rows_scanned other.rows_scanned;
  rows_matched = add64 this.rows_matched other.rows_matched;
  matched_local_row_ids = this.matched_local_row_ids ++ other.matched_local_row_ids;
  matched_trips = this.matched_trips ++ other.matched_trips;
  rows_emitted = length (this.matched_local_row_ids ++ other.matched_local_row_ids);
}
