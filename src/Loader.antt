-- ===== src/Loader.antt =====
-- basic/src/dataset/PartitionLoader.hpp and PartitionLoader.cpp: the files of a shard, measured and
-- entered into its store. `std::filesystem`, `std::ifstream` and `std::sort` are parameters.
-- Printing and reserving are left out.
pub mod Loading
use cmpe275_enterprise_apps.Common.{
  ℕ, ◌+◌, String, Bool, true, false, not, ◌&&◌, ◌||◌, List, [], ◌∷◌, Option, none, some, pos, leb,
  ◌==◌, if◌then◌else◌, length, add64,
}
use cmpe275_enterprise_apps.Engine.{Bytes}
use cmpe275_enterprise_apps.Store.{FileMetadata, PartitionStore, add_file}

pub record LoadStats : Type 0 where
  pub files_discovered : ℕ
  pub files_opened : ℕ
  pub files_failed : ℕ
  pub files_assigned : ℕ
  pub total_bytes_assigned : ℕ
  pub total_trips_assigned : ℕ

abbrev pub no_stats : LoadStats
no_stats = record {
  files_discovered = 0;
  files_opened = 0;
  files_failed = 0;
  files_assigned = 0;
  total_bytes_assigned = 0;
  total_trips_assigned = 0;
}

unfoldable pub merge : LoadStats → LoadStats → LoadStats
merge s other = record {
  files_discovered = add64 s.files_discovered other.files_discovered;
  files_opened = add64 s.files_opened other.files_opened;
  files_failed = add64 s.files_failed other.files_failed;
  files_assigned = add64 s.files_assigned other.files_assigned;
  total_bytes_assigned = add64 s.total_bytes_assigned other.total_bytes_assigned;
  total_trips_assigned = add64 s.total_trips_assigned other.total_trips_assigned;
}

-- What the file system says of a path; `none` where a call reports an error. A directory gives its
-- regular files.
pub record Disk : Type 0 where
  pub has_csv_extension : String → Bool
  pub exists : String → Bool
  pub is_regular_file : String → Bool
  pub file_size : String → Option ℕ
  pub lines : String → Option (List Bytes)
  pub directory : String → Option (List String)

-- `std::isspace` in the "C" locale.
abbrev is_space : ℕ → Bool
is_space c = c == b' ' || leb 9 c && leb c 13

unfoldable pub has_non_whitespace_content : Bytes → Bool
has_non_whitespace_content [] = false
has_non_whitespace_content (c ∷ cs) = not (is_space c) || has_non_whitespace_content cs

-- The loop over the lines behind the header.
unfoldable pub count_trips : ℕ → List Bytes → ℕ
count_trips n [] = n
count_trips n (line ∷ lines) =
    count_trips (if has_non_whitespace_content line then add64 n 1 else n) lines

-- The metadata of a shard, otherwise at its default values.
abbrev pub shard_metadata : String → ℕ → ℕ → ℕ → FileMetadata
shard_metadata path size trips order = record {
  file_path = path;
  file_size_bytes = size;
  trip_count = trips;
  estimated_rows = 0;
  global_file_order = order;
  has_trip_distance_range = false;
  min_trip_distance = 0;
  max_trip_distance = 0;
  has_tip_amount_range = false;
  min_tip_amount_cents = pos 0;
  max_tip_amount_cents = pos 0;
  has_total_amount_range = false;
  min_total_amount_cents = pos 0;
  max_total_amount_cents = pos 0;
  payment_types_present = [];
}

abbrev register : String → ℕ → ℕ → ℕ → PartitionStore → LoadStats × PartitionStore
register path size order trips store =
    if trips == 0 then (record no_stats { files_opened = 1; files_failed = 1 }, store) else (
      record no_stats {
        files_opened = 1;
        files_assigned = 1;
        total_bytes_assigned = size;
        total_trips_assigned = trips;
      },
      add_file (shard_metadata path size trips order) store,
    )

abbrev pub load_content :
    String → ℕ → ℕ → Option (List Bytes) → PartitionStore → LoadStats × PartitionStore
load_content path size order none store = (record no_stats { files_failed = 1 }, store)
load_content path size order (some []) store =
    (record no_stats { files_opened = 1; files_failed = 1 }, store)
load_content path size order (some (header ∷ lines)) store =
    register path size order (count_trips 0 lines) store

module _ (disk : Disk) where
  abbrev pub load_sized : String → ℕ → Option ℕ → PartitionStore → LoadStats × PartitionStore
  load_sized path order none store = (record no_stats { files_failed = 1 }, store)
  load_sized path order (some size) store = load_content path size order (disk.lines path) store

  unfoldable pub load_file : String → PartitionStore → ℕ → LoadStats × PartitionStore
  load_file path store order =
      if not (disk.has_csv_extension path)
      then (record no_stats { files_failed = 1 }, store)
      else if not (disk.exists path)
      then (record no_stats { files_failed = 1 }, store)
      else if not (disk.is_regular_file path)
      then (record no_stats { files_failed = 1 }, store)
      else load_sized path order (disk.file_size path) store

  -- The loop of `loadFiles`, from position `i` on.
  unfoldable pub load_each :
      ℕ → List String → LoadStats → PartitionStore → LoadStats × PartitionStore
  load_each i [] total store = (total, store)
  load_each i (path ∷ paths) total store =
      let (one, store') = load_file path store i in load_each (i + 1) paths (merge total one) store'

  unfoldable pub load_files : List String → PartitionStore → LoadStats × PartitionStore
  load_files files store =
      load_each 0 files (record no_stats { files_discovered = length files }) store

  -- The loop over the entries of a directory.
  unfoldable csv_files : List String → List String
  csv_files [] = []
  csv_files (path ∷ paths) =
      if not (disk.has_csv_extension path) then csv_files paths else path ∷ csv_files paths

  module _ (sort : List String → List String) where
    abbrev load_listed : Option (List String) → PartitionStore → LoadStats × PartitionStore
    load_listed none store = (no_stats, store)
    load_listed (some paths) store = load_files (sort (csv_files paths)) store

    abbrev load_directory : String → PartitionStore → LoadStats × PartitionStore
    load_directory path store = load_listed (disk.directory path) store
