-- ===== src/TripCsv/Agreement.antt =====
-- The two routines that read an amount.
use cmpe275_enterprise_apps.Common.{
  ℕ, zero, suc, ◌+◌, ◌-◌, ◌*◌, ◌%◌, ◌^◌, Bool, true, false, not, ◌&&◌, ◌||◌, [], ◌∷◌, ◌≡◌, refl, ap,
  ◌∙◌, ℤ, pos, arith, leb, ◌==◌, if◌then◌else◌, if_intro, All,
}
use cmpe275_enterprise_apps.Engine.{Bytes}
use cmpe275_enterprise_apps.Csv.Fields.{is_nil, ends_in_quote, without_last}
use cmpe275_enterprise_apps.Csv.Money.{
  is_digit, read_dollars, read_cents, skip_digits, first_is, without_first, clamp_total,
}
use cmpe275_enterprise_apps.TripCsv.Money.{
  is_space, trim_front, trim_back, trim_spaces, strip_quotes, unquoted, amount, rounded,
  with_fraction, parse_unsigned, signed, parse_money_cents,
}
use cmpe275_enterprise_apps.Csv.Fields
use cmpe275_enterprise_apps.Csv.Money

-- The parser of partitions also takes carriage returns for spaces.
abbrev pub HasNoReturn : Bytes → Type 0
HasNoReturn = All (λ c. (c == 13) ≡ false)

HasNoReturn-trim_front : (cs : Bytes) → HasNoReturn cs → HasNoReturn (trim_front cs)
unfolding trim_front
HasNoReturn-trim_front [] a = tt
HasNoReturn-trim_front (c ∷ cs) a =
    if_intro HasNoReturn (is_space c) (λ _. HasNoReturn-trim_front cs a.1) (λ _. a)

HasNoReturn-trim_back : (cs : Bytes) → HasNoReturn cs → HasNoReturn (trim_back cs)
unfolding trim_back
HasNoReturn-trim_back [] a = tt
HasNoReturn-trim_back (c ∷ cs) a =
    if_intro HasNoReturn (is_space c && is_nil (trim_back cs)) (λ _. tt)
      (λ _. (a.0, HasNoReturn-trim_back cs a.1))

HasNoReturn-without_last : (cs : Bytes) → HasNoReturn cs → HasNoReturn (without_last cs)
unfolding without_last
HasNoReturn-without_last [] a = tt
HasNoReturn-without_last (c ∷ []) a = tt
HasNoReturn-without_last (c ∷ d ∷ cs) a = (a.0, HasNoReturn-without_last (d ∷ cs) a.1)

HasNoReturn-read_dollars : (n : ℕ) (cs : Bytes) → HasNoReturn cs → HasNoReturn (read_dollars n cs).1
unfolding read_dollars
HasNoReturn-read_dollars n [] a = tt
HasNoReturn-read_dollars n (c ∷ cs) a =
    if_intro (λ (r : ℕ × Bytes). HasNoReturn r.1) (is_digit c)
      (λ _. HasNoReturn-read_dollars ((n * 10 + (c - b'0')) % 2 ^ 64) cs a.1) (λ _. a)

HasNoReturn-read_cents :
    (k cents digits : ℕ) (cs : Bytes)
    → HasNoReturn cs
    → HasNoReturn (read_cents k cents digits cs).2
unfolding read_cents
HasNoReturn-read_cents zero cents digits cs a = a
HasNoReturn-read_cents (suc k) cents digits [] a = tt
HasNoReturn-read_cents (suc k) cents digits (c ∷ cs) a =
    if_intro (λ (r : ℕ × ℕ × Bytes). HasNoReturn r.2) (is_digit c)
      (λ _. HasNoReturn-read_cents k (cents * 10 + (c - b'0')) (digits + 1) cs a.1) (λ _. a)

HasNoReturn-skip_digits : (cs : Bytes) → HasNoReturn cs → HasNoReturn (skip_digits cs)
unfolding skip_digits
HasNoReturn-skip_digits [] a = tt
HasNoReturn-skip_digits (c ∷ cs) a =
    if_intro HasNoReturn (is_digit c) (λ _. HasNoReturn-skip_digits cs a.1) (λ _. a)

HasNoReturn-without_first : (cs : Bytes) → HasNoReturn cs → HasNoReturn (without_first cs)
HasNoReturn-without_first [] a = tt
HasNoReturn-without_first (c ∷ cs) a = a.1

trim_front-same : (cs : Bytes) → HasNoReturn cs → trim_front cs ≡ Fields.trim_front cs
unfolding trim_front Fields.trim_front
trim_front-same [] a = refl
trim_front-same (c ∷ cs) a = ground (arith, trim_front-same cs a.1, a.0)

trim_back-same : (cs : Bytes) → HasNoReturn cs → trim_back cs ≡ Fields.trim_back cs
unfolding trim_back Fields.trim_back
trim_back-same [] a = refl
trim_back-same (c ∷ cs) a = ground (arith, trim_back-same cs a.1, a.0)

trim_spaces-same : (cs : Bytes) → HasNoReturn cs → trim_spaces cs ≡ Fields.trim_spaces cs
unfolding trim_spaces Fields.trim_spaces
trim_spaces-same cs a =
    trim_back-same (trim_front cs) (HasNoReturn-trim_front cs a)
    ∙ ap Fields.trim_back (trim_front-same cs a)

strip_quotes-same : (cs : Bytes) → HasNoReturn cs → strip_quotes cs ≡ Fields.strip_quotes cs
unfolding strip_quotes Fields.strip_quotes
strip_quotes-same [] a = refl
strip_quotes-same (c ∷ cs) a =
    ap (λ (r : Bytes). if c == b'"' && ends_in_quote (c ∷ cs) then r else c ∷ cs)
      (trim_spaces-same (without_last cs) (HasNoReturn-without_last cs a.1))

HasNoReturn-trim_spaces : (cs : Bytes) → HasNoReturn cs → HasNoReturn (trim_spaces cs)
unfolding trim_spaces
HasNoReturn-trim_spaces cs a = HasNoReturn-trim_back (trim_front cs) (HasNoReturn-trim_front cs a)

HasNoReturn-strip_quotes : (cs : Bytes) → HasNoReturn cs → HasNoReturn (strip_quotes cs)
unfolding strip_quotes
HasNoReturn-strip_quotes [] a = tt
HasNoReturn-strip_quotes (c ∷ cs) a =
    if_intro HasNoReturn (c == b'"' && ends_in_quote (c ∷ cs))
      (λ _. HasNoReturn-trim_spaces (without_last cs) (HasNoReturn-without_last cs a.1)) (λ _. a)

amount-same :
    (neg : Bool) (dollars cents : ℕ) (cs : Bytes)
    → HasNoReturn cs
    → amount neg dollars cents cs ≡ Money.amount neg dollars cents cs
unfolding amount Money.amount
amount-same neg dollars cents cs a =
    ap (λ (r : Bytes). if not (is_nil r) then pos 0 else clamp_total neg (dollars * 100 + cents))
      (trim_front-same cs a)

rounded-same :
    (neg up : Bool) (dollars cents : ℕ) (cs : Bytes)
    → HasNoReturn cs
    → rounded neg up dollars cents cs ≡ Money.rounded neg up dollars cents cs
unfolding rounded Money.rounded
rounded-same neg false dollars cents cs a = amount-same neg dollars cents cs a
rounded-same neg true dollars cents cs a = λ i.
    if leb 100 (cents + 1)
    then amount-same neg (dollars + 1) 0 cs a i
    else amount-same neg dollars (cents + 1) cs a i

with_fraction-same :
    (neg saw : Bool) (dollars : ℕ) (cs : Bytes)
    → HasNoReturn cs
    → with_fraction neg saw dollars cs ≡ Money.with_fraction neg saw dollars cs
unfolding with_fraction Money.with_fraction
with_fraction-same neg saw dollars cs a =
    let (read, digits, behind) = read_cents 2 0 0 cs in
    ap (λ (r : ℤ). if not saw && digits == 0 then pos 0 else r)
      (rounded-same neg (first_is is_digit behind && first_is (leb b'5') behind) dollars
        (if digits == 1 then read * 10 else read) (skip_digits behind)
        (HasNoReturn-skip_digits behind (HasNoReturn-read_cents 2 0 0 cs a)))

parse_unsigned-same :
    (neg : Bool) (cs : Bytes) → HasNoReturn cs → parse_unsigned neg cs ≡ Money.parse_unsigned neg cs
unfolding parse_unsigned Money.parse_unsigned
parse_unsigned-same neg cs a =
    let (dollars, behind) = read_dollars 0 cs in
    let rest = HasNoReturn-read_dollars 0 cs a in
    let saw = first_is is_digit cs in
    λ i.
      if first_is (λ c. c == b'.') behind
      then with_fraction-same neg saw dollars (without_first behind)
          (HasNoReturn-without_first behind rest) i
      else if not saw
      then pos 0
      else amount-same neg dollars 0 behind rest i

signed-same : (cs : Bytes) → HasNoReturn cs → signed cs ≡ Money.signed cs
signed-same [] a = refl
signed-same (c ∷ cs) a = λ i.
    if c == b'+' || c == b'-'
    then (if is_nil cs then pos 0 else parse_unsigned-same (c == b'-') cs a.1 i)
    else parse_unsigned-same false (c ∷ cs) a i

-- On a field without carriage returns, the trip reader and the parser of partitions read the same
-- amount, one without digits in front of the point (`.50`) included.
pub parse_money_cents-parse_money_cents :
    (field : Bytes) → HasNoReturn field → parse_money_cents field ≡ Money.parse_money_cents field
unfolding parse_money_cents Money.parse_money_cents
parse_money_cents-parse_money_cents field a =
    signed-same (unquoted field)
      (HasNoReturn-strip_quotes (trim_spaces field) (HasNoReturn-trim_spaces field a))
    ∙ ap Money.signed (
        strip_quotes-same (trim_spaces field) (HasNoReturn-trim_spaces field a)
        ∙ ap Fields.strip_quotes (trim_spaces-same field a))
