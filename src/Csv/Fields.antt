-- ===== src/Csv/Fields.antt =====
-- How the parser cuts a line into fields: commas outside quotes, spaces and quotes around a field.
-- A range of characters is the list of its bytes.
use cmpe275_enterprise_apps.Common.{
  ℕ, Bool, true, false, not, ◌&&◌, ◌||◌, List, [], ◌∷◌, ◌++◌, Option, none, some, ◌≡◌, ◌⊎◌, refl,
  ◌∙◌, inl, inr, ap, sym, arith, ◌==◌, if◌then◌else◌, Bool-cases, append_assoc, append-nil, All,
  subst, some_inj,
}
use mathlib.Core.Option
use cmpe275_enterprise_apps.Engine.{Bytes}

abbrev pub is_space : ℕ → Bool
is_space c = c == b' ' || c == 9 || c == 13

-- The two loops of `trimSpaces`.
unfoldable pub trim_front : Bytes → Bytes
trim_front [] = []
trim_front (c ∷ cs) = if is_space c then trim_front cs else c ∷ cs

abbrev pub is_nil : Bytes → Bool
is_nil [] = true
is_nil (c ∷ cs) = false

unfoldable pub trim_back : Bytes → Bytes
trim_back [] = []
trim_back (c ∷ cs) = let rest = trim_back cs in if is_space c && is_nil rest then [] else c ∷ rest

unfoldable pub trim_spaces : Bytes → Bytes
trim_spaces field = trim_back (trim_front field)

unfoldable pub ends_in_quote : Bytes → Bool
ends_in_quote [] = false
ends_in_quote (c ∷ []) = c == b'"'
ends_in_quote (c ∷ d ∷ cs) = ends_in_quote (d ∷ cs)

unfoldable pub without_last : Bytes → Bytes
without_last [] = []
without_last (c ∷ []) = []
without_last (c ∷ d ∷ cs) = c ∷ without_last (d ∷ cs)

-- Quotes around a trimmed field are dropped, and spaces within them. A field that is one quote
-- alone does not come up: the quotes of every field are balanced.
unfoldable pub strip_quotes : Bytes → Bytes
strip_quotes [] = []
strip_quotes (c ∷ cs) =
    if c == b'"' && ends_in_quote (c ∷ cs) then trim_spaces (without_last cs) else c ∷ cs

-- The loop over a line, with `inQuotes` and the field that is open: the fields, or `none` where the
-- line ends within quotes. The code handles a field once it is cut; nothing of that is kept when
-- the line is refused at its end.
unfoldable pub split_fields : Bool → Bytes → Bytes → Option (List Bytes)
split_fields in_quotes field [] = if in_quotes then none else some (field ∷ [])
split_fields in_quotes field (c ∷ cs) =
    let separates = c == b',' && not in_quotes in
    let rest =
      split_fields (if c == b'"' then not in_quotes else in_quotes)
        (if separates then [] else field ++ c ∷ []) cs in
    if separates then Option.map (◌∷◌ field) rest else rest

-- Whether the line, read from here on, ends within quotes.
unfoldable pub ends_open : Bool → Bytes → Bool
ends_open in_quotes [] = in_quotes
ends_open in_quotes (c ∷ cs) = ends_open (if c == b'"' then not in_quotes else in_quotes) cs

unfoldable pub join_fields : List Bytes → Bytes
join_fields [] = []
join_fields (f ∷ []) = f
join_fields (f ∷ g ∷ fs) = f ++ b',' ∷ join_fields (g ∷ fs)

-- What cutting a line from state `in_quotes`, with `field` open, comes to.
abbrev IsSplit : Bool → Bytes → Bytes → Option (List Bytes) → Type 0
IsSplit in_quotes field line r =
    ((ends_open in_quotes line ≡ true) × (r ≡ none))
    ⊎ ((ends_open in_quotes line ≡ false)
        × (f : Bytes) × (fs : List Bytes) × (r ≡ some (f ∷ fs))
        × (join_fields (f ∷ fs) ≡ field ++ line))

IsSplit-separate :
    (q : Bool) (field line : Bytes) (r : Option (List Bytes))
    → IsSplit q [] line r
    → ((ends_open q line ≡ true) × (Option.map (◌∷◌ field) r ≡ none))
      ⊎ ((ends_open q line ≡ false)
          × (f : Bytes) × (fs : List Bytes) × (Option.map (◌∷◌ field) r ≡ some (f ∷ fs))
          × (join_fields (f ∷ fs) ≡ field ++ b',' ∷ line))
unfolding join_fields
IsSplit-separate q field line r (inl (e, x)) = inl (e, rw x refl)
IsSplit-separate q field line r (inr (e, f, fs, x, j)) =
    inr (e, field, f ∷ fs, rw x refl, ap (λ (bs : Bytes). field ++ b',' ∷ bs) j)

split_fields-IsSplit :
    (q : Bool) (field line : Bytes) → IsSplit q field line (split_fields q field line)
unfolding split_fields ends_open join_fields
split_fields-IsSplit true field [] = inl (refl, refl)
split_fields-IsSplit false field [] = inr (refl, field, [], refl, sym (append-nil field))
split_fields-IsSplit q field (c ∷ cs) =
    let q' = if c == b'"' then not q else q in
    elim (Bool-cases (c == b',' && not q)) [
      | inl sep ↦
          let comma : c ≡ b',' = ground arith in
          let p = IsSplit-separate q' field cs _ (split_fields-IsSplit q' [] cs) in
          rw (sep, comma) (rw comma at p)
      | inr same ↦
          rw (same, sym (append_assoc field (c ∷ []) cs))
            (split_fields-IsSplit q' (field ++ c ∷ []) cs)
    ]

-- Whether a text, read from here on, is one field: it ends outside quotes, and each comma in it
-- stands within quotes.
unfoldable pub is_whole : Bool → Bytes → Bool
is_whole in_quotes [] = not in_quotes
is_whole in_quotes (c ∷ cs) =
    let rest = is_whole (if c == b'"' then not in_quotes else in_quotes) cs in
    if c == b',' && not in_quotes then false else rest

abbrev pub AreWhole : List Bytes → Type 0
AreWhole = All (λ f. is_whole false f ≡ true)

-- The field that is open, read so far, leads to state `in_quotes`.
abbrev LeadsTo : Bytes → Bool → Type 0
LeadsTo field in_quotes = (rest : Bytes) → is_whole false (field ++ rest) ≡ is_whole in_quotes rest

LeadsTo-whole : (field : Bytes) → LeadsTo field false → is_whole false field ≡ true
unfolding is_whole
LeadsTo-whole field h = ap (is_whole false) (sym (append-nil field)) ∙ h []

AreWhole-separate :
    (field : Bytes) (r : Option (List Bytes)) {fs : List Bytes}
    → is_whole false field ≡ true
    → ((gs : List Bytes) → r ≡ some gs → AreWhole gs)
    → Option.map (◌∷◌ field) r ≡ some fs
    → AreWhole fs
AreWhole-separate field none {fs} h a e = cc
AreWhole-separate field (some gs) {fs} h a e = subst AreWhole (some_inj e) (h, a gs refl)

split_fields-AreWhole :
    (q : Bool) (field line : Bytes) {fs : List Bytes}
    → LeadsTo field q
    → split_fields q field line ≡ some fs
    → AreWhole fs
unfolding split_fields is_whole
split_fields-AreWhole true field [] {fs} h e = cc
split_fields-AreWhole false field [] {fs} h e =
    subst AreWhole (some_inj e) (LeadsTo-whole field h, tt)
split_fields-AreWhole q field (c ∷ cs) {fs} h e =
    let q' = if c == b'"' then not q else q in
    elim (Bool-cases (c == b',' && not q)) [
      | inl sep ↦
          let outside : q ≡ false = ground arith in
          let after : q' ≡ false = ground arith in
          AreWhole-separate field (split_fields q' [] cs)
            (LeadsTo-whole field (subst (LeadsTo field) outside h))
            (λ gs x.
              split_fields-AreWhole q' [] cs
                (λ rest. ap (λ (b : Bool). is_whole b rest) (sym after)) x)
            (rw sep at e)
      | inr same ↦
          let longer = λ (rest : Bytes).
            ap (is_whole false) (append_assoc field (c ∷ []) rest) ∙ h (c ∷ rest) ∙ rw same refl in
          split_fields-AreWhole q' (field ++ c ∷ []) cs longer (rw same at e)
    ]

-- A line is refused exactly if it ends within quotes; else its fields, joined by commas, are the
-- line again, and each of them ends outside quotes and has commas within quotes only.
pub split_fields_lem :
    (line : Bytes)
    → ((ends_open false line ≡ true) × (split_fields false [] line ≡ none))
      ⊎ ((ends_open false line ≡ false)
          × (f : Bytes) × (fs : List Bytes) × (split_fields false [] line ≡ some (f ∷ fs))
          × (join_fields (f ∷ fs) ≡ line)
          × AreWhole (f ∷ fs))
split_fields_lem line = elim (split_fields-IsSplit false [] line) [
  | inl refused ↦ inl refused
  | inr (e, f, fs, x, j) ↦
      inr (e, f, fs, x, j, split_fields-AreWhole false [] line (λ rest. refl) x)
]
