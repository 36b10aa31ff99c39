-- ===== src/Common/Dict.antt =====
-- `std::unordered_map` with string keys, as a list of entries with distinct keys.
use Prim.Native.String.{String}
use text.Mathlib.Text.{◌==◌ as str_eq}
use text.Mathlib.TextEquality.{eq_iff}
use mathlib.Core.Path.{◌≡◌, refl, subst}
use mathlib.Core.Logic.{inl, inr}
use mathlib.Core.Bool.{Bool, true, false, ◌||◌}
use mathlib.Core.Option.{Option, none, some}
use mathlib.Core.List.{List, [], ◌∷◌}
use native.Mathlib.Omega.{arith}
use cmpe275_enterprise_apps.Common.Tests.{if◌then◌else◌, Bool-cases, some_inj}
use cmpe275_enterprise_apps.Common.Lists.{All}

module _ {ℓ} {V : Type ℓ} where
  unfoldable pub find : String → List (String × V) → Option V
  find k [] = none
  find k ((j, v) ∷ m) = if str_eq j k then some v else find k m

  unfoldable pub has_key : String → List (String × V) → Bool
  has_key k [] = false
  has_key k ((j, v) ∷ m) = str_eq j k || has_key k m

  -- `m[k] = v`.
  unfoldable pub put : String → V → List (String × V) → List (String × V)
  put k v [] = (k, v) ∷ []
  put k v ((j, w) ∷ m) = if str_eq j k then (j, v) ∷ m else (j, w) ∷ put k v m

  -- `m.try_emplace(k, v)`.
  unfoldable pub try_emplace : String → V → List (String × V) → List (String × V)
  try_emplace k v [] = (k, v) ∷ []
  try_emplace k v ((j, w) ∷ m) = if str_eq j k then (j, w) ∷ m else (j, w) ∷ try_emplace k v m

  -- `m.erase(it)` at the entry of a key.
  unfoldable pub erase : String → List (String × V) → List (String × V)
  erase k [] = []
  erase k ((j, w) ∷ m) = if str_eq j k then m else (j, w) ∷ erase k m

  abbrev pub NodupKeys : List (String × V) → Type 0
  NodupKeys [] = Unit {0}
  NodupKeys ((k, v) ∷ m) = (has_key k m ≡ false) × NodupKeys m

  pub find-put :
      (k j : String) (v : V) (m : List (String × V))
      → find j (put k v m) ≡ (if str_eq k j then some v else find j m)
  unfolding find put
  find-put k j v [] = refl
  find-put k j v ((i, w) ∷ m) = ground (arith, eq_iff k j, eq_iff i k, eq_iff i j, find-put k j v m)

  pub find-try_emplace :
      (k j : String) (v : V) (m : List (String × V))
      → find j (try_emplace k v m)
        ≡ (if str_eq k j then elim (find k m) [ none ↦ some v | some w ↦ some w ] else find j m)
  unfolding find try_emplace
  find-try_emplace k j v [] = refl
  find-try_emplace k j v ((i, w) ∷ m) =
      ground (arith, eq_iff k j, eq_iff i k, eq_iff i j, find-try_emplace k j v m)

  has_key-put :
      (k j : String) (v : V) (m : List (String × V))
      → has_key j (put k v m) ≡ (str_eq k j || has_key j m)
  unfolding has_key put
  has_key-put k j v [] = refl
  has_key-put k j v ((i, w) ∷ m) =
      ground (arith, eq_iff k j, eq_iff i k, eq_iff i j, has_key-put k j v m)

  has_key-try_emplace :
      (k j : String) (v : V) (m : List (String × V))
      → has_key j (try_emplace k v m) ≡ (str_eq k j || has_key j m)
  unfolding has_key try_emplace
  has_key-try_emplace k j v [] = refl
  has_key-try_emplace k j v ((i, w) ∷ m) =
      ground (arith, eq_iff k j, eq_iff i k, eq_iff i j, has_key-try_emplace k j v m)

  pub put-NodupKeys :
      (k : String) (v : V) (m : List (String × V)) → NodupKeys m → NodupKeys (put k v m)
  unfolding put has_key
  put-NodupKeys k v [] n = (refl, tt)
  put-NodupKeys k v ((i, w) ∷ m) n =
      ground (arith, eq_iff i k, eq_iff k i, has_key-put k i v m, put-NodupKeys k v m n.1)

  pub try_emplace-NodupKeys :
      (k : String) (v : V) (m : List (String × V)) → NodupKeys m → NodupKeys (try_emplace k v m)
  unfolding try_emplace has_key
  try_emplace-NodupKeys k v [] n = (refl, tt)
  try_emplace-NodupKeys k v ((i, w) ∷ m) n =
      ground (
        arith,
        eq_iff i k,
        eq_iff k i,
        has_key-try_emplace k i v m,
        try_emplace-NodupKeys k v m n.1,
      )

  pub has_key-find :
      (k : String) (m : List (String × V))
      → has_key k m ≡ elim (find k m) [ none ↦ false | some v ↦ true ]
  unfolding find has_key
  has_key-find k [] = refl
  has_key-find k ((i, w) ∷ m) = ground (arith, has_key-find k m)

  find_absent : (k : String) (m : List (String × V)) → has_key k m ≡ false → find k m ≡ none
  unfolding find has_key
  find_absent k [] h = refl
  find_absent k ((i, w) ∷ m) h = ground (arith, find_absent k m)

  pub find-erase :
      (k j : String) (m : List (String × V))
      → NodupKeys m
      → find j (erase k m) ≡ (if str_eq k j then none else find j m)
  unfolding find erase
  find-erase k j [] n = ground arith
  find-erase k j ((i, w) ∷ m) n = ground (
    arith,
    eq_iff k j,
    eq_iff i k,
    eq_iff i j,
    find-erase k j m n.1,
    find_absent i m n.0,
    find_absent j m,
  )

  has_key-erase :
      (k j : String) (m : List (String × V)) → has_key j m ≡ false → has_key j (erase k m) ≡ false
  unfolding has_key erase
  has_key-erase k j [] h = refl
  has_key-erase k j ((i, w) ∷ m) h = ground (arith, has_key-erase k j m)

  pub erase-NodupKeys : (k : String) (m : List (String × V)) → NodupKeys m → NodupKeys (erase k m)
  unfolding erase has_key
  erase-NodupKeys k [] n = tt
  erase-NodupKeys k ((i, w) ∷ m) n =
      ground (arith, has_key-erase k i m n.0, erase-NodupKeys k m n.1)

  -- Every value of the map, by its entries and by lookup.
  module _ {κ} (P : V → Type κ) where
    abbrev pub AllValues : List (String × V) → Type κ
    AllValues = All (λ (e : String × V). P e.1)

    pub AllValues-put :
        (k : String) (v : V) (m : List (String × V)) → P v → AllValues m → AllValues (put k v m)
    unfolding put
    AllValues-put k v [] h a = (h, tt)
    AllValues-put k v ((i, w) ∷ m) h a =
        elim (str_eq i k) as (λ b. AllValues (if b then (i, v) ∷ m else (i, w) ∷ put k v m)) [
          | true ↦ (h, a.1)
          | false ↦ (a.0, AllValues-put k v m h a.1)
        ]

    pub AllValues-try_emplace :
        (k : String) (v : V) (m : List (String × V))
        → P v
        → AllValues m
        → AllValues (try_emplace k v m)
    unfolding try_emplace
    AllValues-try_emplace k v [] h a = (h, tt)
    AllValues-try_emplace k v ((i, w) ∷ m) h a =
        elim (str_eq i k)
          as (λ b. AllValues (if b then (i, w) ∷ m else (i, w) ∷ try_emplace k v m)) [
            | true ↦ a
            | false ↦ (a.0, AllValues-try_emplace k v m h a.1)
          ]

    pub find-AllValues :
        (k : String) (m : List (String × V)) {v : V} → AllValues m → find k m ≡ some v → P v
    unfolding find
    find-AllValues k [] a e = cc
    find-AllValues k ((i, w) ∷ m) a e = elim (Bool-cases (str_eq i k)) [
      | inl h ↦ subst P (some_inj (rw h at e)) a.0
      | inr h ↦ find-AllValues k m a.1 (rw h at e)
    ]
