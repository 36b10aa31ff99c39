-- ===== src/Tests/Shards.antt =====
-- Two files on a disk, loaded into a store, and shards for two workers.
use cmpe275_enterprise_apps.Common.{true, [], ◌∷◌, none, some, ◌≡◌, refl, arith, add64, length}
use cmpe275_enterprise_apps.Common.Dict.{find}
use cmpe275_enterprise_apps.Model.Request.{has_id}
use cmpe275_enterprise_apps.Store.{new_store, validate, validate_files, total_trip_count}
use cmpe275_enterprise_apps.Loader.{Disk, load_files}
use cmpe275_enterprise_apps.Loader.Loading.{HasSizes, load_files-validate}
use cmpe275_enterprise_apps.Ingest.{
  ShardAssignment, IngestDispatcher, assign_next, get_assigned_bytes, get_assigned_trips,
}
use cmpe275_enterprise_apps.Ingest.Balance.{Assigns, assign_next-Assigns}

-- Every file has a header, a trip and a line of spaces.
abbrev disk : Disk
disk = record {
  has_csv_extension = λ path. true;
  exists = λ path. true;
  is_regular_file = λ path. true;
  file_size = λ path. some 7;
  lines = λ path. some ((b'h' ∷ []) ∷ (b'1' ∷ []) ∷ (b' ' ∷ []) ∷ []);
  directory = λ path. none;
}

disk-HasSizes : HasSizes disk
disk-HasSizes path e = cc

load_files-validate_example :
    let (stats, store) = load_files disk ("jan.csv" ∷ "feb.csv" ∷ []) (new_store "A") in
    (validate store ≡ true)
    × (add64 (length store.files) 0 ≡ add64 0 stats.files_assigned)
    × (add64 (total_trip_count store) 0
        ≡ add64 (total_trip_count (new_store "A")) stats.total_trips_assigned)
unfolding has_id validate validate_files
load_files-validate_example =
    load_files-validate disk disk-HasSizes ("jan.csv" ∷ "feb.csv" ∷ []) (new_store "A")
      ((λ e. cc), ((λ e. cc), tt)) (refl, (refl, tt)) (refl, (refl, tt)) refl

abbrev dispatcher : IngestDispatcher
dispatcher = record {
  worker_node_ids = "A" ∷ "B" ∷ [];
  worker_assigned_bytes = ("A", 9) ∷ ("B", 4) ∷ [];
  worker_assigned_trips = ("A", 1) ∷ ("B", 1) ∷ [];
}

abbrev shard : ShardAssignment
shard = record {
  shard_id = 3;
  source_file = "mar.csv";
  node_id = "";
  trip_count = 2;
  file_size_bytes = 8;
}

assign_next-Assigns_example :
    Assigns dispatcher shard [] (assign_next dispatcher (record { jobs = shard ∷ [] }))
unfolding get_assigned_bytes get_assigned_trips find
assign_next-Assigns_example =
    assign_next-Assigns dispatcher "A" ("B" ∷ []) shard [] refl
      ((omega arith, omega arith), ((omega arith, omega arith), tt))
