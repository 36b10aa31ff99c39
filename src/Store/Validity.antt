-- ===== src/Store/Validity.antt =====
-- What `PartitionStore::validate` decides, and how the totals grow.
use cmpe275_enterprise_apps.Common.{
  ℕ, String, eq_iff, true, false, List, [], ◌∷◌, ◌++◌, ◌≡◌, ◌↔◌, refl, arith, All, map, add64,
}
use cmpe275_enterprise_apps.Model.Request.{has_id, NodupIds}
use cmpe275_enterprise_apps.Store.{
  FileMetadata, PartitionStore, is_valid_file, validate_files, validate, add_file, total_trip_count,
  sum_trip_count,
}

abbrev pub paths : List FileMetadata → List String
paths = map (λ f. f.file_path)

abbrev pub AllValid : List FileMetadata → Type 0
AllValid = All (λ f. is_valid_file f ≡ true)

-- None of the IDs in the second list stands in the first.
abbrev pub Apart : List String → List String → Type 0
Apart seen = All (λ x. has_id x seen ≡ false)

Apart-cons :
    (x : String) (seen xs : List String)
    → Apart (x ∷ seen) xs ↔ (Apart seen xs × (has_id x xs ≡ false))
unfolding has_id
Apart-cons x seen [] = (λ h. (tt, refl), λ h. tt)
Apart-cons x seen (y ∷ ys) = (
  λ h. ground (arith, (Apart-cons x seen ys).0 h.1, eq_iff x y, eq_iff y x),
  λ h. ground (arith, (Apart-cons x seen ys).1, eq_iff x y, eq_iff y x),
)

validate_files_iff :
    (seen : List String) (fs : List FileMetadata)
    → (validate_files seen fs ≡ true) ↔ (AllValid fs × NodupIds (paths fs) × Apart seen (paths fs))
unfolding validate_files
validate_files_iff seen [] = (λ h. (tt, tt, tt), λ h. refl)
validate_files_iff seen (f ∷ fs) =
    let ih = validate_files_iff (f.file_path ∷ seen) fs in
    let ap = Apart-cons f.file_path seen (paths fs) in
    (λ h. ground (arith, ih.0, ap.0), λ h. ground (arith, ih.1, ap.1))

Apart-nil : (xs : List String) → Apart [] xs
unfolding has_id
Apart-nil [] = tt
Apart-nil (x ∷ xs) = (refl, Apart-nil xs)

-- `validate` accepts a store exactly if each of its files is valid and no path stands in it twice.
pub validate_iff :
    (s : PartitionStore) → (validate s ≡ true) ↔ (AllValid s.files × NodupIds (paths s.files))
unfolding validate
validate_iff s =
    let e = validate_files_iff [] s.files in
    (λ h. ((e.0 h).0, (e.0 h).1), λ h. e.1 (h.0, h.1, Apart-nil (paths s.files)))

sum_trip_count-append :
    (total : ℕ) (fs gs : List FileMetadata)
    → sum_trip_count total (fs ++ gs) ≡ sum_trip_count (sum_trip_count total fs) gs
unfolding sum_trip_count
sum_trip_count-append total [] gs = refl
sum_trip_count-append total (f ∷ fs) gs = sum_trip_count-append (add64 total f.trip_count) fs gs

-- A file that is added adds its trips to the total, on 64 bits.
pub total_trip_count-add_file :
    (f : FileMetadata) (s : PartitionStore)
    → total_trip_count (add_file f s) ≡ add64 (total_trip_count s) f.trip_count
unfolding total_trip_count add_file
total_trip_count-add_file f s =
    rw (sum_trip_count-append 0 s.files) (unfold sum_trip_count in ground arith)
