-- ===== src/Store.antt =====
-- basic/src/dataset/PartitionStore.hpp: the files that a worker owns, with their weights.
pub mod Validity
use cmpe275_enterprise_apps.Common.{
  ℕ, String, Bool, true, false, not, ◌&&◌, ◌||◌, List, [], ◌∷◌, ◌++◌, ltb, ◌==◌, if◌then◌else◌, ℤ,
  ltb_ℤ, Float32, ltb_float, str_eq, length, add64,
}
use cmpe275_enterprise_apps.Model.Request.{has_id}

pub record FileMetadata : Type 0 where
  pub file_path : String
  pub file_size_bytes : ℕ
  pub trip_count : ℕ
  pub estimated_rows : ℕ
  pub global_file_order : ℕ
  pub has_trip_distance_range : Bool
  pub min_trip_distance : Float32
  pub max_trip_distance : Float32
  pub has_tip_amount_range : Bool
  pub min_tip_amount_cents : ℤ
  pub max_tip_amount_cents : ℤ
  pub has_total_amount_range : Bool
  pub min_total_amount_cents : ℤ
  pub max_total_amount_cents : ℤ
  pub payment_types_present : List ℤ

unfoldable pub is_valid_file : FileMetadata → Bool
is_valid_file f =
    if str_eq f.file_path ""
    then false
    else if f.file_size_bytes == 0
    then false
    else if f.trip_count == 0
    then false
    else if f.has_trip_distance_range && ltb_float f.max_trip_distance f.min_trip_distance
    then false
    else if f.has_tip_amount_range && ltb_ℤ f.max_tip_amount_cents f.min_tip_amount_cents
    then false
    else if f.has_total_amount_range && ltb_ℤ f.max_total_amount_cents f.min_total_amount_cents
    then false
    else true

pub record PartitionStore : Type 0 where
  pub shard_id : String
  pub files : List FileMetadata

abbrev pub new_store : String → PartitionStore
new_store shard_id = record { shard_id = shard_id; files = [] }

abbrev set_shard_id : String → PartitionStore → PartitionStore
set_shard_id shard_id s = record s { shard_id = shard_id }

abbrev clear : PartitionStore → PartitionStore
clear s = record s { files = [] }

abbrev file_count : PartitionStore → ℕ
file_count s = length s.files

unfoldable pub add_file : FileMetadata → PartitionStore → PartitionStore
add_file file s =
    let copy =
      if file.estimated_rows == 0 && ltb 0 file.trip_count
      then record file { estimated_rows = file.trip_count }
      else file in
    record s { files = s.files ++ copy ∷ [] }

-- The loop of `totalEstimatedRows`, on `size_t`.
unfoldable sum_estimated_rows : ℕ → List FileMetadata → ℕ
sum_estimated_rows total [] = total
sum_estimated_rows total (f ∷ fs) =
    sum_estimated_rows
      (add64 total (if ltb 0 f.estimated_rows then f.estimated_rows else f.trip_count)) fs

unfoldable total_estimated_rows : PartitionStore → ℕ
total_estimated_rows s = sum_estimated_rows 0 s.files

unfoldable pub sum_trip_count : ℕ → List FileMetadata → ℕ
sum_trip_count total [] = total
sum_trip_count total (f ∷ fs) = sum_trip_count (add64 total f.trip_count) fs

unfoldable pub total_trip_count : PartitionStore → ℕ
total_trip_count s = sum_trip_count 0 s.files

unfoldable sum_file_bytes : ℕ → List FileMetadata → ℕ
sum_file_bytes total [] = total
sum_file_bytes total (f ∷ fs) = sum_file_bytes (add64 total f.file_size_bytes) fs

unfoldable total_assigned_bytes : PartitionStore → ℕ
total_assigned_bytes s = sum_file_bytes 0 s.files

-- The loop of `validate`, with the paths seen so far.
unfoldable pub validate_files : List String → List FileMetadata → Bool
validate_files seen [] = true
validate_files seen (f ∷ fs) =
    let rest = validate_files (f.file_path ∷ seen) fs in
    if not (is_valid_file f) then false else if has_id f.file_path seen then false else rest

unfoldable pub validate : PartitionStore → Bool
validate s = validate_files [] s.files

abbrev pub is_valid : PartitionStore → Bool
is_valid s = validate s
