-- ===== src/InMemory/Slots.antt =====
-- The parallel ingests against the serial ones, in whatever order the threads take the files.
use cmpe275_enterprise_apps.Common.{
  ℕ, suc, ◌<◌, String, List, [], ◌∷◌, ◌++◌, ◌≡◌, sym, ◌∙◌, ◌⊎◌, append_assoc, append-nil,
}
use cmpe275_enterprise_apps.Dataset.{Files}
use cmpe275_enterprise_apps.InMemory.Record
use cmpe275_enterprise_apps.InMemory.Record.{TaxiTripRecord, TaxiTripStore, add_record}
use cmpe275_enterprise_apps.InMemory.Interleaving.{turns}
use cmpe275_enterprise_apps.InMemory.Parser.{Library}
use cmpe275_enterprise_apps.InMemory.Ingest.{add_all}

-- Each file, from number `k` on, is taken by a thread.
abbrev pub Covers : ℕ → List String → List ℕ → Type 0
Covers k [] order = Unit
Covers k (path ∷ paths) order = (0 < turns k order) × Covers (suc k) paths order

module _ {R : Type 0} (ingest : String → R) (blank : R) where
  -- Each slot is filled, or its file is still to come.
  abbrev Slots : ℕ → List String → List R → List ℕ → Type 0
  Slots k [] [] order = Unit
  Slots k [] (s ∷ slots) order = ⊥
  Slots k (path ∷ paths) [] order = ⊥
  Slots k (path ∷ paths) (s ∷ slots) order =
      ((s ≡ ingest path) ⊎ (0 < turns k order)) × Slots (suc k) paths slots order

module _ (lib : Library) (fresh : TaxiTripRecord) (files : Files) where
  pub add_all-append :
      (tmp : List TaxiTripRecord) (store : TaxiTripStore)
      → add_all lib fresh files tmp store ≡ store ++ tmp
  unfolding add_all add_record
  add_all-append [] store = sym (append-nil store)
  add_all-append (r ∷ tmp) store =
      add_all-append tmp (store ++ r ∷ []) ∙ append_assoc store (r ∷ []) tmp
