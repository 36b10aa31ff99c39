-- ===== src/Loader/Loading.antt =====
-- What loading does to a store.
use mathlib.Core.List.{map-append}
use cmpe275_enterprise_apps.Common.{
  ◌&&◌, ltb, ℕ, ◌+◌, ◌==◌, String, str_eq, eq_iff, true, false, not, List, [], ◌∷◌, ◌++◌, Option,
  none, some, ◌≡◌, ◌≢◌, refl, ap, ◌∙◌, sym, inl, inr, arith, if_intro, All, All-append, length,
  length-append, add64, Bool-cases, subst,
}
use cmpe275_enterprise_apps.Engine.{Bytes}
use cmpe275_enterprise_apps.Model.Request.{has_id, has_id-concat, NodupIds, NodupIds-concat}
use cmpe275_enterprise_apps.Store.{
  FileMetadata, PartitionStore, is_valid_file, validate, add_file, total_trip_count,
}
use cmpe275_enterprise_apps.Store.Validity.{
  AllValid, paths, Apart, validate_iff, total_trip_count-add_file,
}
use cmpe275_enterprise_apps.Loader.{
  Disk, LoadStats, no_stats, merge, count_trips, shard_metadata, load_content, load_sized,
  load_file, load_each, load_files,
}

-- A file without bytes has no lines.
abbrev pub HasSizes : Disk → Type 0
HasSizes disk = (path : String) → disk.file_size path ≡ some 0 → disk.lines path ≡ some []

-- What a call of `loadFile` comes to: nothing is added, or one valid file under the path.
pub data IsLoaded (path : String) (store : PartitionStore)
    : LoadStats × PartitionStore → Type 0 where
  passed :
      {s : LoadStats}
      → s.files_assigned ≡ 0
      → s.total_trips_assigned ≡ 0
      → IsLoaded path store (s, store)
  added :
      {s : LoadStats} (m : FileMetadata)
      → m.file_path ≡ path
      → is_valid_file m ≡ true
      → s.files_assigned ≡ 1
      → s.total_trips_assigned ≡ m.trip_count
      → IsLoaded path store (s, add_file m store)

load_content-IsLoaded :
    (path : String) (size order : ℕ) (content : Option (List Bytes)) (store : PartitionStore)
    → path ≢ ""
    → (size ≡ 0 → content ≡ some [])
    → IsLoaded path store (load_content path size order content store)
unfolding is_valid_file
load_content-IsLoaded path size order none store named e = passed refl refl
load_content-IsLoaded path size order (some []) store named e = passed refl refl
load_content-IsLoaded path size order (some (header ∷ lines)) store named e =
    if_intro (IsLoaded path store) (count_trips 0 lines == 0) (λ _. passed refl refl)
      (λ some_trips.
        let has_name : str_eq path "" ≡ false = ground (arith, named, eq_iff path "") in
        let has_size : (size == 0) ≡ false = elim (Bool-cases (size == 0)) [
          | inl empty ↦ let same : size ≡ 0 = ground (arith, empty) in let x = e same in cc
          | inr full ↦ full
        ] in
        added (shard_metadata path size (count_trips 0 lines) order) refl
          (rw (has_name, has_size, some_trips) refl) refl refl)

module _ (disk : Disk) (sizes : HasSizes disk) where
  load_file-IsLoaded :
      (path : String) (order : ℕ) (store : PartitionStore)
      → path ≢ ""
      → IsLoaded path store (load_file disk path store order)
  unfolding load_file
  load_file-IsLoaded path order store named =
      if_intro (IsLoaded path store) (not (disk.has_csv_extension path)) (λ _. passed refl refl)
        (λ _.
          if_intro (IsLoaded path store) (not (disk.exists path)) (λ _. passed refl refl)
            (λ _.
              if_intro (IsLoaded path store) (not (disk.is_regular_file path))
                (λ _. passed refl refl) (λ _. sized (disk.file_size path) refl)))
    where
      sized :
          (size : Option ℕ)
          → disk.file_size path ≡ size
          → IsLoaded path store (load_sized disk path order size store)
      sized none e = passed refl refl
      sized (some size) e =
          load_content-IsLoaded path size order (disk.lines path) store named
            (λ z. sizes path (e ∙ ap some z))

-- A path that is new to a list of paths, at its end.
Apart-concat :
    (x : String) (seen xs : List String)
    → Apart seen xs
    → has_id x xs ≡ false
    → Apart (seen ++ x ∷ []) xs
unfolding has_id
Apart-concat x seen [] a h = tt
Apart-concat x seen (y ∷ ys) a h =
    ground (arith, has_id-concat y x seen, eq_iff x y, eq_iff y x, Apart-concat x seen ys, a)

paths-add_file :
    (m : FileMetadata) (store : PartitionStore)
    → paths (add_file m store).files ≡ paths store.files ++ m.file_path ∷ []
unfolding add_file
paths-add_file m store =
    map-append (λ (f : FileMetadata). f.file_path) store.files _
    ∙ ap (◌++◌ (paths store.files)) (
        if_intro (λ (f : FileMetadata). ◌≡◌ {A = List String} (f.file_path ∷ []) (m.file_path ∷ []))
          (m.estimated_rows == 0 && ltb 0 m.trip_count) (λ _. refl) (λ _. refl))

AllValid-add_file :
    (m : FileMetadata) (store : PartitionStore)
    → AllValid store.files
    → is_valid_file m ≡ true
    → AllValid (add_file m store).files
unfolding add_file is_valid_file
AllValid-add_file m store a v =
    All-append (λ f. is_valid_file f ≡ true) store.files _ a
      (
        if_intro (λ (f : FileMetadata). is_valid_file f ≡ true)
            (m.estimated_rows == 0 && ltb 0 m.trip_count) (λ _. v) (λ _. v),
        tt,
      )

-- The files of a store are valid, and their paths differ from each other and from those to come.
record IsReady (coming : List String) (store : PartitionStore) : Type 0 where
  valid : AllValid store.files
  distinct : NodupIds (paths store.files)
  apart : Apart (paths store.files) coming

IsReady-add_file :
    (m : FileMetadata) (coming : List String) (store : PartitionStore)
    → is_valid_file m ≡ true
    → has_id m.file_path coming ≡ false
    → IsReady (m.file_path ∷ coming) store
    → IsReady coming (add_file m store)
IsReady-add_file m coming store v new h = record {
  valid = AllValid-add_file m store h.valid v;
  distinct =
      subst NodupIds (sym (paths-add_file m store))
        (NodupIds-concat m.file_path (paths store.files) h.apart.0 h.distinct);
  apart =
      subst (λ (seen : List String). Apart seen coming) (sym (paths-add_file m store))
        (Apart-concat m.file_path (paths store.files) coming h.apart.1 new);
}

-- The store and the statistics have grown alike.
record GrowsWith (store : PartitionStore) (total : LoadStats) (store' : PartitionStore)
    (total' : LoadStats) : Type 0 where
  trips :
      add64 (total_trip_count store') total.total_trips_assigned
      ≡ add64 (total_trip_count store) total'.total_trips_assigned
  files :
      add64 (length store'.files) total.files_assigned
      ≡ add64 (length store.files) total'.files_assigned

GrowsWith-trans :
    {s s' s'' : PartitionStore} {t t' t'' : LoadStats}
    → GrowsWith s t s' t'
    → GrowsWith s' t' s'' t''
    → GrowsWith s t s'' t''
GrowsWith-trans g h = record {
  trips = omega (arith, g.trips, h.trips);
  files = omega (arith, g.files, h.files);
}

add_file-GrowsWith :
    (m : FileMetadata) (store : PartitionStore) (total one : LoadStats)
    → one.files_assigned ≡ 1
    → one.total_trips_assigned ≡ m.trip_count
    → GrowsWith store total (add_file m store) (merge total one)
unfolding merge
add_file-GrowsWith m store total one a t = record {
  trips = omega (arith, total_trip_count-add_file m store, t);
  files =
      let n : length (add_file m store).files ≡ length store.files + 1 =
        unfold add_file in length-append store.files _ in
      omega (arith, n, a);
}

load-IsReady :
    (path : String) (coming : List String) (total : LoadStats) (store : PartitionStore)
    (r : LoadStats × PartitionStore)
    → IsLoaded path store r
    → has_id path coming ≡ false
    → IsReady (path ∷ coming) store
    → IsReady coming r.1 × GrowsWith store total r.1 (merge total r.0)
unfolding merge
load-IsReady path coming total store r (passed a t) new h = (
  record { valid = h.valid; distinct = h.distinct; apart = h.apart.1 },
  record { trips = omega (arith, t); files = omega (arith, a) },
)
load-IsReady path coming total store r (added m e v a t) new h = (
  IsReady-add_file m coming store v (subst (λ (p : String). has_id p coming ≡ false) (sym e) new)
      (subst (λ (p : String). IsReady (p ∷ coming) store) (sym e) h),
  add_file-GrowsWith m store total r.0 a t,
)

module _ (disk : Disk) (sizes : HasSizes disk) where
  load_each-IsReady :
      (i : ℕ) (files : List String) (total : LoadStats) (store : PartitionStore)
      → All (λ path. path ≢ "") files
      → NodupIds files
      → IsReady files store
      → let (total', store') = load_each disk i files total store in
        IsReady [] store' × GrowsWith store total store' total'
  unfolding load_each
  load_each-IsReady i [] total store named d h = (h, record { trips = refl; files = refl })
  load_each-IsReady i (path ∷ files) total store named d h =
      let r = load_file disk path store i in
      let (ready, grown) =
        load-IsReady path files total store r (load_file-IsLoaded disk sizes path i store named.0)
          d.0 h in
      let (done, rest) = load_each-IsReady (i + 1) files (merge total r.0) r.1 named.1 d.1 ready in
      (done, GrowsWith-trans grown rest)

  -- On a disk where a file without bytes has no lines, `loadFiles` takes a valid store that has none of
  -- the paths to a valid store, if the paths are not empty and differ from each other. The number
  -- of its files has grown by `filesAssigned` and its trips by `totalTripsAssigned`, modulo
  -- 2 ^ 64, whatever paths fail to load.
  pub load_files-validate :
      (files : List String) (store : PartitionStore)
      → All (λ path. path ≢ "") files
      → NodupIds files
      → Apart (paths store.files) files
      → validate store ≡ true
      → let (stats, store') = load_files disk files store in
        (validate store' ≡ true)
        × (add64 (length store'.files) 0 ≡ add64 (length store.files) stats.files_assigned)
        × (add64 (total_trip_count store') 0
            ≡ add64 (total_trip_count store) stats.total_trips_assigned)
  unfolding load_files
  load_files-validate files store named d apart v =
      let (valid, distinct) = (validate_iff store).0 v in
      let (ready, grown) =
        load_each-IsReady 0 files (record no_stats { files_discovered = length files }) store named
          d (record { valid = valid; distinct = distinct; apart = apart }) in
      let (total', store') =
        load_each disk 0 files (record no_stats { files_discovered = length files }) store in
      ((validate_iff store').1 (ready.valid, ready.distinct), grown.files, grown.trips)
