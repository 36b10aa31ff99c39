-- ===== src/Tests/Queries.antt =====
-- A shard of two files, and the engine, the store and a worker on it.
use cmpe275_enterprise_apps.Common.{
  ℕ, String, true, false, List, [], ◌∷◌, Option, none, some, ◌≡◌, ◌↔◌, refl, arith, pos, negsuc,
  length, drop,
}
use cmpe275_enterprise_apps.Model.Trip.{TaxiTrip, ParsedPartitionRow, empty_row, to_taxi_trip}
use cmpe275_enterprise_apps.Model.Request.{QueryRequest, new_request, execute, has_id, NodupIds}
use cmpe275_enterprise_apps.Store.{
  FileMetadata, PartitionStore, is_valid_file, is_valid, validate, validate_files,
}
use cmpe275_enterprise_apps.Store.Validity.{AllValid, paths, validate_iff}
use cmpe275_enterprise_apps.Engine.{Bytes, FileSystem, RowParser, new_scan, matches_row}
use cmpe275_enterprise_apps.Engine.Window.{IsWindow}
use cmpe275_enterprise_apps.Engine.Paging.{stored_rows, execute-IsWindow, drain, drain_all}
use cmpe275_enterprise_apps.Engine.Counting.{count_lem}
use cmpe275_enterprise_apps.WorkerNode.{WorkerNode}
use cmpe275_enterprise_apps.Engine

-- A line of one byte is refused; any other is a trip whose total is its length.
abbrev parse_line : Bytes → Option ParsedPartitionRow
parse_line (b ∷ []) = none
parse_line line = some (record empty_row { total_amount_cents = pos (length line) })

abbrev pub parser : RowParser
parser = record {
  Header = Unit {0};
  init_from_header = λ h. some tt;
  parse_row = λ h line. parse_line line;
}

abbrev first_lines : List Bytes
first_lines = (1 ∷ []) ∷ (1 ∷ 2 ∷ []) ∷ (5 ∷ []) ∷ (1 ∷ 2 ∷ 3 ∷ []) ∷ []

abbrev pub fs : FileSystem
fs path = some first_lines

abbrev file_named : String → FileMetadata
file_named path = record {
  file_path = path;
  file_size_bytes = 20;
  trip_count = 3;
  estimated_rows = 0;
  global_file_order = 0;
  has_trip_distance_range = false;
  min_trip_distance = 0;
  max_trip_distance = 0;
  has_tip_amount_range = true;
  min_tip_amount_cents = negsuc 4;
  max_tip_amount_cents = pos 7;
  has_total_amount_range = false;
  min_total_amount_cents = pos 0;
  max_total_amount_cents = pos 0;
  payment_types_present = [];
}

abbrev pub shard : PartitionStore
shard = record { shard_id = "A"; files = file_named "jan.csv" ∷ file_named "feb.csv" ∷ [] }

pub shard_valid : is_valid shard ≡ true
unfolding validate validate_files is_valid_file has_id
shard_valid = refl

abbrev pub paged : QueryRequest
paged = record (new_request "q" execute) {
  total_amount_range = some (record { lo = pos 3; hi = pos 9 });
  start_row = 2;
  chunk_size = 1;
  scan_row_budget = 2;
}

execute-IsWindow_example :
    IsWindow paged
      (drop 2 (stored_rows parser fs shard))
      (record new_scan { local_row_id = 2 })
      (Engine.execute parser fs shard paged)
execute-IsWindow_example = execute-IsWindow parser fs shard paged shard_valid (omega arith)

abbrev pub matched : ℕ → TaxiTrip
matched cents = to_taxi_trip (record empty_row { total_amount_cents = pos cents })

-- Rows 2 and 5, the second row with two bytes of each file.
drain_all_example : drain parser fs shard 7 paged 0 ≡ some (2 ∷ 5 ∷ [], matched 3 ∷ matched 3 ∷ [])
unfolding matches_row
drain_all_example = drain_all parser fs shard paged 7 shard_valid (omega arith)

count_lem_example :
    let r = Engine.count parser fs shard paged in
    (r.rows_scanned ≡ 6) × (r.rows_matched ≡ 2) × (r.matched_trips ≡ [])
unfolding matches_row
count_lem_example = count_lem parser fs shard paged shard_valid

validate_iff_example :
    (validate shard ≡ true) ↔ (AllValid shard.files × NodupIds (paths shard.files))
validate_iff_example = validate_iff shard

abbrev pub node : WorkerNode
node = record {
  info = record {
    node_id = "A";
    host = "localhost";
    port = 50051;
    is_entry_node = true;
    owned_files = [];
  };
  store = shard;
}
