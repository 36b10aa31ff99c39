-- ===== src/Csv/Money/Amounts.antt =====
-- What `parseMoneyCents` makes of an amount, and the range of what it returns.
use cmpe275_enterprise_apps.Common.{
  ℕ, zero, suc, ◌+◌, ◌-◌, ◌*◌, ◌%◌, ◌^◌, ◌≤◌, ◌<◌, Bool, true, false, not, ◌&&◌, ◌||◌, [], ◌∷◌,
  ◌++◌, ◌≡◌, refl, ap, ◌∙◌, ℤ, pos, pos_part, neg_part, arith, leb, ltb, leb→le, inl, inr, ◌==◌,
  if◌then◌else◌, if_intro, All, All-append, Bool-cases,
}
use cmpe275_enterprise_apps.Engine.{Bytes}
use cmpe275_enterprise_apps.Csv.Fields.{
  trim_spaces, trim_front, trim_back, strip_quotes, is_space, is_nil,
}
use cmpe275_enterprise_apps.Csv.Money.{
  is_digit, read_dollars, read_cents, skip_digits, first_is, without_first, clamp, clamp_total,
  amount, rounded, with_fraction, parse_unsigned, signed, parse_money_cents,
}

pub record IsInt32 (n : ℤ) : Type 0 where
  pub upper : pos_part n < 2 ^ 31
  pub lower : neg_part n ≤ 2 ^ 31

clamp-IsInt32 : (neg : Bool) (n : ℕ) → IsInt32 (clamp neg n)
unfolding clamp
clamp-IsInt32 neg zero = record { upper = omega arith; lower = omega arith }
clamp-IsInt32 true (suc n) = record { upper = ground arith; lower = ground arith }
clamp-IsInt32 false (suc n) = record { upper = ground arith; lower = ground arith }

zero-IsInt32 : IsInt32 (pos 0)
zero-IsInt32 = record { upper = omega arith; lower = omega arith }

clamp_total-IsInt32 : (neg : Bool) (total : ℕ) → IsInt32 (clamp_total neg total)
unfolding clamp_total
clamp_total-IsInt32 neg total =
    let n = total % 2 ^ 64 in
    if_intro IsInt32 (ltb n (2 ^ 63)) (λ _. clamp-IsInt32 neg n)
      (λ _.
        if_intro IsInt32 (n == 2 ^ 63) (λ _. clamp-IsInt32 true n)
          (λ _. clamp-IsInt32 (not neg) (2 ^ 64 - n)))

amount-IsInt32 :
    (neg : Bool) (dollars cents : ℕ) (behind : Bytes) → IsInt32 (amount neg dollars cents behind)
unfolding amount
amount-IsInt32 neg dollars cents behind =
    if_intro IsInt32 (not (is_nil (trim_front behind))) (λ _. zero-IsInt32)
      (λ _. clamp_total-IsInt32 neg (dollars * 100 + cents))

rounded-IsInt32 :
    (neg up : Bool) (dollars cents : ℕ) (behind : Bytes)
    → IsInt32 (rounded neg up dollars cents behind)
unfolding rounded
rounded-IsInt32 neg false dollars cents behind = amount-IsInt32 neg dollars cents behind
rounded-IsInt32 neg true dollars cents behind =
    if_intro IsInt32 (leb 100 (cents + 1)) (λ _. amount-IsInt32 neg (dollars + 1) 0 behind)
      (λ _. amount-IsInt32 neg dollars (cents + 1) behind)

with_fraction-IsInt32 :
    (neg saw : Bool) (dollars : ℕ) (cs : Bytes) → IsInt32 (with_fraction neg saw dollars cs)
unfolding with_fraction
with_fraction-IsInt32 neg saw dollars cs =
    let (read, digits, behind) = read_cents 2 0 0 cs in
    if_intro IsInt32 (not saw && digits == 0) (λ _. zero-IsInt32)
      (λ _.
        rounded-IsInt32 neg (first_is is_digit behind && first_is (leb b'5') behind) dollars
          (if digits == 1 then read * 10 else read) (skip_digits behind))

parse_unsigned-IsInt32 : (neg : Bool) (cs : Bytes) → IsInt32 (parse_unsigned neg cs)
unfolding parse_unsigned
parse_unsigned-IsInt32 neg cs =
    let (dollars, behind) = read_dollars 0 cs in
    let saw_digit = first_is is_digit cs in
    if_intro IsInt32 (first_is (λ c. c == b'.') behind)
      (λ _. with_fraction-IsInt32 neg saw_digit dollars (without_first behind))
      (λ _.
        if_intro IsInt32 (not saw_digit) (λ _. zero-IsInt32)
          (λ _. amount-IsInt32 neg dollars 0 behind))

signed-IsInt32 : (cs : Bytes) → IsInt32 (signed cs)
signed-IsInt32 [] = zero-IsInt32
signed-IsInt32 (c ∷ cs) =
    if_intro IsInt32 (c == b'+' || c == b'-')
      (λ _.
        if_intro IsInt32 (is_nil cs) (λ _. zero-IsInt32)
          (λ _. parse_unsigned-IsInt32 (c == b'-') cs))
      (λ _. parse_unsigned-IsInt32 false (c ∷ cs))

-- Whatever the field holds, the amount fits into 32 bits.
pub parse_money_cents-IsInt32 : (field : Bytes) → IsInt32 (parse_money_cents field)
unfolding parse_money_cents
parse_money_cents-IsInt32 field = signed-IsInt32 (strip_quotes (trim_spaces field))

abbrev AllDigits : Bytes → Type 0
AllDigits = All (λ c. is_digit c ≡ true)

-- The number that digits stand for, behind those of `n`.
abbrev digits_value : ℕ → Bytes → ℕ
digits_value n [] = n
digits_value n (c ∷ cs) = digits_value (n * 10 + (c - b'0')) cs

digits_value-le : (n : ℕ) (ds : Bytes) → n ≤ digits_value n ds
digits_value-le n [] = omega arith
digits_value-le n (d ∷ ds) = omega (arith, digits_value-le (n * 10 + (d - b'0')) ds)

read_dollars-append :
    (n : ℕ) (ds rest : Bytes)
    → AllDigits ds
    → first_is is_digit rest ≡ false
    → digits_value n ds < 2 ^ 64
    → read_dollars n (ds ++ rest) ≡ (digits_value n ds, rest)
unfolding read_dollars
read_dollars-append n [] [] a h small = refl
read_dollars-append n [] (c ∷ rest) a h small = rw h refl
read_dollars-append n (d ∷ ds) rest a h small =
    let next = n * 10 + (d - b'0') in
    let fits : next % 2 ^ 64 ≡ next = omega (arith, small, digits_value-le next ds) in
    rw (a.0, fits) (read_dollars-append next ds rest a.1 h small)

clamp_total_lem :
    (neg : Bool) (total : ℕ) → total < 2 ^ 63 → clamp_total neg total ≡ clamp neg total
unfolding clamp_total
clamp_total_lem neg total small =
    let same : total % 2 ^ 64 ≡ total = omega arith in
    let positive : ltb total (2 ^ 63) ≡ true = ground arith in rw (same, positive) refl

skip_digits-All : (es : Bytes) → AllDigits es → skip_digits es ≡ []
unfolding skip_digits
skip_digits-All [] a = refl
skip_digits-All (e ∷ es) a = rw a.0 (skip_digits-All es a.1)

abbrev NoSpaces : Bytes → Type 0
NoSpaces = All (λ c. is_space c ≡ false)

digit_not_space : (c : ℕ) → is_digit c ≡ true → is_space c ≡ false
digit_not_space c h = ground arith

AllDigits-NoSpaces : (ds : Bytes) → AllDigits ds → NoSpaces ds
AllDigits-NoSpaces [] a = tt
AllDigits-NoSpaces (d ∷ ds) a = (digit_not_space d a.0, AllDigits-NoSpaces ds a.1)

trim_back-NoSpaces : (cs : Bytes) → NoSpaces cs → trim_back cs ≡ cs
unfolding trim_back
trim_back-NoSpaces [] a = refl
trim_back-NoSpaces (c ∷ cs) a = rw a.0 (ap (◌∷◌ c) (trim_back-NoSpaces cs a.1))

-- A text without spaces that does not begin with a quote is taken as it stands.
bare :
    (c : ℕ) (cs : Bytes)
    → NoSpaces (c ∷ cs)
    → (c == b'"') ≡ false
    → strip_quotes (trim_spaces (c ∷ cs)) ≡ c ∷ cs
unfolding strip_quotes trim_spaces trim_front
bare c cs a h = rw (a.0, trim_back-NoSpaces (c ∷ cs) a, h) refl

abbrev pub sign : Bool → Bytes
sign true = b'-' ∷ []
sign false = []

rounded_lem :
    (neg up : Bool) (dollars cents : ℕ)
    → cents < 100
    → dollars < 10 ^ 16
    → rounded neg up dollars cents [] ≡ clamp neg (dollars * 100 + cents + (if up then 1 else 0))
unfolding rounded amount trim_front
rounded_lem neg false dollars cents h small =
    clamp_total_lem neg (dollars * 100 + cents) (omega arith) ∙ ap (clamp neg) (omega arith)
rounded_lem neg true dollars cents h small = elim (Bool-cases (leb 100 (cents + 1))) [
  | inl full ↦ rw full (
      let le = leb→le 100 (cents + 1) full in
      clamp_total_lem neg ((dollars + 1) * 100 + 0) (omega arith) ∙ ap (clamp neg) (omega arith))
  | inr below ↦ rw below (
      clamp_total_lem neg (dollars * 100 + (cents + 1)) (omega arith)
      ∙ ap (clamp neg) (omega arith))
]

-- What decides on rounding.
next_digit :
    (es : Bytes)
    → AllDigits es
    → (first_is is_digit es && first_is (leb b'5') es) ≡ first_is (leb b'5') es
next_digit [] a = refl
next_digit (e ∷ es) a = rw a.0 refl

parse_unsigned_lem :
    (neg : Bool) (d : ℕ) (ds : Bytes) (c1 c2 : ℕ) (es : Bytes)
    → AllDigits (d ∷ ds)
    → AllDigits (c1 ∷ c2 ∷ es)
    → digits_value 0 (d ∷ ds) < 10 ^ 16
    → parse_unsigned neg ((d ∷ ds) ++ b'.' ∷ c1 ∷ c2 ∷ es)
      ≡ clamp neg (
          digits_value 0 (d ∷ ds) * 100
          + ((c1 - b'0') * 10 + (c2 - b'0'))
          + (if first_is (leb b'5') es then 1 else 0))
unfolding parse_unsigned with_fraction read_cents
parse_unsigned_lem neg d ds c1 c2 es a b bounded =
    let cents = (0 + (c1 - b'0')) * 10 + (c2 - b'0') in
    let small : cents < 100 = ground (arith, b.0, b.1.0) in
    rw
      (
        read_dollars-append 0 (d ∷ ds) (b'.' ∷ c1 ∷ c2 ∷ es) a refl (omega (arith, bounded)),
        a.0,
        b.0,
        b.1.0,
        skip_digits-All es b.1.1,
        next_digit es b.1.1,
      )
      (rounded_lem neg (first_is (leb b'5') es) (digits_value 0 (d ∷ ds)) cents small bounded
        ∙ ap (clamp neg) (omega arith))

amount-NoSpaces :
    (d : ℕ) (ds : Bytes) (c1 c2 : ℕ) (es : Bytes)
    → AllDigits (d ∷ ds)
    → AllDigits (c1 ∷ c2 ∷ es)
    → NoSpaces ((d ∷ ds) ++ b'.' ∷ c1 ∷ c2 ∷ es)
amount-NoSpaces d ds c1 c2 es a b =
    All-append (λ c. is_space c ≡ false) (d ∷ ds) (b'.' ∷ c1 ∷ c2 ∷ es)
      (AllDigits-NoSpaces (d ∷ ds) a) (refl, AllDigits-NoSpaces (c1 ∷ c2 ∷ es) b)

-- An amount with a minus sign or none, digits in front of the point that are a number below
-- 10 ^ 16, one at least, and at least two digits behind it is read as its number of cents, rounded half away from zero by the third digit behind the
-- point, carried into the dollars where the cents are full, and clamped to 32 bits.
pub parse_money_cents_lem :
    (neg : Bool) (d : ℕ) (ds : Bytes) (c1 c2 : ℕ) (es : Bytes)
    → AllDigits (d ∷ ds)
    → AllDigits (c1 ∷ c2 ∷ es)
    → digits_value 0 (d ∷ ds) < 10 ^ 16
    → parse_money_cents (sign neg ++ (d ∷ ds) ++ b'.' ∷ c1 ∷ c2 ∷ es)
      ≡ clamp neg (
          digits_value 0 (d ∷ ds) * 100
          + ((c1 - b'0') * 10 + (c2 - b'0'))
          + (if first_is (leb b'5') es then 1 else 0))
unfolding parse_money_cents
parse_money_cents_lem true d ds c1 c2 es a b bounded =
    rw (bare b'-' ((d ∷ ds) ++ b'.' ∷ c1 ∷ c2 ∷ es) (refl, amount-NoSpaces d ds c1 c2 es a b) refl)
      (parse_unsigned_lem true d ds c1 c2 es a b bounded)
parse_money_cents_lem false d ds c1 c2 es a b bounded =
    let not_quote : (d == b'"') ≡ false = ground (arith, a.0) in
    let not_sign : (d == b'+' || d == b'-') ≡ false = ground (arith, a.0) in
    rw (bare d (ds ++ b'.' ∷ c1 ∷ c2 ∷ es) (amount-NoSpaces d ds c1 c2 es a b) not_quote, not_sign)
      (parse_unsigned_lem false d ds c1 c2 es a b bounded)
