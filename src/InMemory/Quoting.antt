-- ===== src/InMemory/Quoting.antt =====
-- `splitCSV` reads what is written by the rules for quoted CSV fields.
use cmpe275_enterprise_apps.Common.{
  ◌==◌, true, false, not, ◌&&◌, List, [], ◌∷◌, ◌++◌, ◌≡◌, refl, ap, ◌∙◌, arith, if◌then◌else◌,
  Bool-cases, inl, inr, append_assoc, append-nil,
}
use cmpe275_enterprise_apps.Engine.{Bytes}
use cmpe275_enterprise_apps.InMemory.Parser.{split_loop, split_csv, starts_with}

-- A quote within a field is doubled.
unfoldable pub escape : Bytes → Bytes
escape [] = []
escape (c ∷ cs) = let rest = escape cs in if c == b'"' then b'"' ∷ b'"' ∷ rest else c ∷ rest

-- A line of quoted fields.
unfoldable pub quoted_line : Bytes → List Bytes → Bytes
quoted_line field [] = b'"' ∷ (escape field ++ b'"' ∷ [])
quoted_line field (next ∷ fields) = b'"' ∷ (escape field ++ b'"' ∷ b',' ∷ quoted_line next fields)

split_loop-escape :
    (curr field rest : Bytes)
    → starts_with b'"' b'"' rest ≡ false
    → split_loop false true curr (escape field ++ b'"' ∷ rest)
      ≡ split_loop false false (curr ++ field) rest
unfolding split_loop escape
split_loop-escape curr [] rest h = rw (h, append-nil curr) refl
split_loop-escape curr (c ∷ cs) rest h = elim (Bool-cases (c == b'"')) [
  | inl quote ↦
      let same : c ≡ b'"' = ground (arith, quote) in
      rw (quote, same)
        (split_loop-escape (curr ++ b'"' ∷ []) cs rest h
          ∙ ap (λ (f : Bytes). split_loop false false f rest) (append_assoc curr (b'"' ∷ []) cs))
  | inr plain ↦
      let inside : (c == b',' && not true) ≡ false = ground arith in
      rw (plain, plain, inside)
        (split_loop-escape (curr ++ c ∷ []) cs rest h
          ∙ ap (λ (f : Bytes). split_loop false false f rest) (append_assoc curr (c ∷ []) cs))
]

-- Every field comes back from a line of quoted fields, whatever commas and quotes are in it.
pub split_csv-quoted_line :
    (field : Bytes) (fields : List Bytes) → split_csv (quoted_line field fields) ≡ field ∷ fields
unfolding split_csv quoted_line split_loop
split_csv-quoted_line field [] = split_loop-escape [] field [] refl
split_csv-quoted_line field (next ∷ fields) =
    split_loop-escape [] field (b',' ∷ quoted_line next fields) refl
    ∙ ap (◌∷◌ field) (split_csv-quoted_line next fields)
