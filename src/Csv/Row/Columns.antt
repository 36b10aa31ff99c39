-- ===== src/Csv/Row/Columns.antt =====
-- The columns that a header gives.
use cmpe275_enterprise_apps.Common.{
  ℕ, zero, suc, ◌+◌, String, true, false, List, [], ◌∷◌, ◌++◌, Option, none, some, ◌≡◌, refl, ap,
  sym, ◌∙◌, arith, length, if_intro, append_assoc, Bool-cases, Option-cases, inl, inr, subst,
  some_inj,
}
use cmpe275_enterprise_apps.Engine.{Bytes}
use cmpe275_enterprise_apps.Csv.Fields.{split_fields}
use cmpe275_enterprise_apps.Csv.Row.{
  ColumnIndex, no_columns, is_name, split_header_field_normalize, apply_header_field_to_index,
  index_fields, all_found, init_from_header, checked,
}

abbrev field_at : ℕ → List Bytes → Option Bytes
field_at i [] = none
field_at zero (f ∷ fs) = some f
field_at (suc i) (f ∷ fs) = field_at i fs

-- A column that is set is one of the fields, and that field has the name.
abbrev HasName : List Bytes → String → Option ℕ → Type 0
HasName fields name none = Unit {0}
HasName fields name (some col) =
    (f : Bytes) × (field_at col fields ≡ some f)
    × (is_name name (split_header_field_normalize f) ≡ true)

pub record IsIndexOf (fields : List Bytes) (idx : ColumnIndex) : Type 0 where
  pub pickup : HasName fields "tpep_pickup_datetime" idx.pickup_datetime
  pub dropoff : HasName fields "tpep_dropoff_datetime" idx.dropoff_datetime
  pub distance : HasName fields "trip_distance" idx.trip_distance
  pub payment : HasName fields "payment_type" idx.payment_type
  pub tip : HasName fields "tip_amount" idx.tip_amount
  pub total : HasName fields "total_amount" idx.total_amount

of_columns :
    {fields : List Bytes} {idx : ColumnIndex}
    → HasName fields "tpep_pickup_datetime" idx.pickup_datetime
    → HasName fields "tpep_dropoff_datetime" idx.dropoff_datetime
    → HasName fields "trip_distance" idx.trip_distance
    → HasName fields "payment_type" idx.payment_type
    → HasName fields "tip_amount" idx.tip_amount
    → HasName fields "total_amount" idx.total_amount
    → IsIndexOf fields idx
of_columns p d t m a b = record {
  pickup = p;
  dropoff = d;
  distance = t;
  payment = m;
  tip = a;
  total = b;
}

field_at-append :
    (done : List Bytes) (f : Bytes) (fs : List Bytes)
    → field_at (length done) (done ++ f ∷ fs) ≡ some f
field_at-append [] f fs = refl
field_at-append (g ∷ done) f fs = field_at-append done f fs

apply_header_field_to_index-IsIndexOf :
    (fields : List Bytes) (f : Bytes) (col : ℕ) (idx : ColumnIndex)
    → field_at col fields ≡ some f
    → IsIndexOf fields idx
    → IsIndexOf fields (apply_header_field_to_index (split_header_field_normalize f) col idx)
unfolding apply_header_field_to_index
apply_header_field_to_index-IsIndexOf fields f col idx at v =
    let key = split_header_field_normalize f in
    if_intro (IsIndexOf fields) (is_name "tpep_pickup_datetime" key)
      (λ e. of_columns (f, at, e) v.dropoff v.distance v.payment v.tip v.total)
      λ _.
        if_intro (IsIndexOf fields) (is_name "tpep_dropoff_datetime" key)
          (λ e. of_columns v.pickup (f, at, e) v.distance v.payment v.tip v.total)
          λ _.
            if_intro (IsIndexOf fields) (is_name "trip_distance" key)
              (λ e. of_columns v.pickup v.dropoff (f, at, e) v.payment v.tip v.total)
              λ _.
                if_intro (IsIndexOf fields) (is_name "payment_type" key)
                  (λ e. of_columns v.pickup v.dropoff v.distance (f, at, e) v.tip v.total)
                  λ _.
                    if_intro (IsIndexOf fields) (is_name "tip_amount" key)
                      (λ e. of_columns v.pickup v.dropoff v.distance v.payment (f, at, e) v.total)
                      λ _.
                        if_intro (IsIndexOf fields) (is_name "total_amount" key)
                          (λ e. of_columns v.pickup v.dropoff v.distance v.payment v.tip (f, at, e))
                          (λ _. v)

length-concat : (xs : List Bytes) (x : Bytes) → length (xs ++ x ∷ []) ≡ length xs + 1
length-concat [] x = refl
length-concat (y ∷ xs) x = omega (arith, length-concat xs x)

index_fields-IsIndexOf :
    (done fields : List Bytes) (col : ℕ) (idx : ColumnIndex)
    → col ≡ length done
    → IsIndexOf (done ++ fields) idx
    → IsIndexOf (done ++ fields) (index_fields col fields idx)
unfolding index_fields
index_fields-IsIndexOf done [] col idx e v = v
index_fields-IsIndexOf done (f ∷ fs) col idx e v =
    let at : field_at col (done ++ f ∷ fs) ≡ some f =
      ap (λ (i : ℕ). field_at i (done ++ f ∷ fs)) e ∙ field_at-append done f fs in
    let all = append_assoc done (f ∷ []) fs in
    let idx' = apply_header_field_to_index (split_header_field_normalize f) col idx in
    let v' = apply_header_field_to_index-IsIndexOf (done ++ f ∷ fs) f col idx at v in
    subst (λ (xs : List Bytes). IsIndexOf xs (index_fields (col + 1) fs idx')) all
      (index_fields-IsIndexOf (done ++ f ∷ []) fs (col + 1) idx'
        (omega (arith, length-concat done f))
        (subst (λ (xs : List Bytes). IsIndexOf xs idx') (sym all) v'))

no_columns-IsIndexOf : (fields : List Bytes) → IsIndexOf fields no_columns
no_columns-IsIndexOf fields = of_columns tt tt tt tt tt tt

none_ne_some {ℓ} : {A : Type ℓ} {a : A} → none ≡ some a → ⊥
none_ne_some e = cc

-- A header is accepted only if it can be cut into fields; then each of the six columns is set, and
-- is a field of the header whose name, without spaces and quotes and in lower case, is the wanted
-- one.
pub init_from_header-IsIndexOf :
    (line : Bytes) (idx : ColumnIndex)
    → init_from_header line ≡ some idx
    → (fields : List Bytes) × (split_fields false [] line ≡ some fields)
      × (all_found idx ≡ true)
      × IsIndexOf fields idx
unfolding init_from_header
init_from_header-IsIndexOf line idx e = elim (Option-cases (split_fields false [] line)) [
  | inl x ↦ absurd (none_ne_some (rw (x, checked) at e))
  | inr (fields, x) ↦
      let idx' = index_fields 0 fields no_columns in
      let v = index_fields-IsIndexOf [] fields 0 no_columns refl (no_columns-IsIndexOf fields) in
      let P = λ (i : ColumnIndex). (all_found i ≡ true) × IsIndexOf fields i in
      elim (Bool-cases (all_found idx')) [
        | inr h ↦ absurd (none_ne_some (rw (x, checked, h) at e))
        | inl h ↦
            let (found, named) = subst P (some_inj (rw (x, checked, h) at e)) (h, v) in
            (fields, x, found, named)
      ]
]
