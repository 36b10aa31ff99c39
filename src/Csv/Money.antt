-- ===== src/Csv/Money.antt =====
-- `parseMoneyCents`: an amount in cents, rounded half up and clamped to 32 bits. The dollars and the
-- total are `int64_t`; where they overflow, which C++ leaves undefined, they wrap here, as two's
-- complement does. A number of 64 bits is kept as its residue.
pub mod Amounts
use cmpe275_enterprise_apps.Common.{
  ℕ, zero, suc, ◌+◌, ◌-◌, ◌*◌, ◌%◌, ◌^◌, ◌≤◌, ◌<◌, Bool, true, false, not, ◌&&◌, ◌||◌, List, [],
  ◌∷◌, ◌++◌, ◌≡◌, refl, ℤ, pos, negsuc, pos_part, neg_part, arith, leb, ltb, ◌==◌, if◌then◌else◌,
  All, Bool-cases, length,
}
use cmpe275_enterprise_apps.Engine.{Bytes}
use cmpe275_enterprise_apps.Csv.Fields.{
  trim_spaces, trim_front, trim_back, strip_quotes, is_space, is_nil, ends_in_quote,
}

abbrev pub is_digit : ℕ → Bool
is_digit c = leb b'0' c && leb c b'9'

-- The loop over the dollars' digits, from the value so far: the value and what is behind.
unfoldable pub read_dollars : ℕ → Bytes → ℕ × Bytes
read_dollars n [] = (n, [])
read_dollars n (c ∷ cs) =
    let rest = read_dollars ((n * 10 + (c - b'0')) % 2 ^ 64) cs in
    if is_digit c then rest else (n, c ∷ cs)

-- The loop over at most `k` digits of the cents: their value, their number, and what is behind.
unfoldable pub read_cents : ℕ → ℕ → ℕ → Bytes → ℕ × ℕ × Bytes
read_cents zero cents digits cs = (cents, digits, cs)
read_cents (suc k) cents digits [] = (cents, digits, [])
read_cents (suc k) cents digits (c ∷ cs) =
    let rest = read_cents k (cents * 10 + (c - b'0')) (digits + 1) cs in
    if is_digit c then rest else (cents, digits, c ∷ cs)

unfoldable pub skip_digits : Bytes → Bytes
skip_digits [] = []
skip_digits (c ∷ cs) = let rest = skip_digits cs in if is_digit c then rest else c ∷ cs

abbrev pub first_is : (ℕ → Bool) → Bytes → Bool
first_is test [] = false
first_is test (c ∷ cs) = test c

abbrev pub without_first : Bytes → Bytes
without_first [] = []
without_first (c ∷ cs) = cs

-- A number, negated and clamped.
unfoldable pub clamp : Bool → ℕ → ℤ
clamp neg zero = pos 0
clamp true (suc n) = if leb (2 ^ 31) n then negsuc (2 ^ 31 - 1) else negsuc n
clamp false n = if ltb (2 ^ 31 - 1) n then pos (2 ^ 31 - 1) else pos n

-- The total of 64 bits, as a number with a sign, negated and clamped. The least number is its own
-- negation.
unfoldable pub clamp_total : Bool → ℕ → ℤ
clamp_total neg total =
    let n = total % 2 ^ 64 in
    if ltb n (2 ^ 63)
    then clamp neg n
    else if n == 2 ^ 63
    then clamp true n
    else clamp (not neg) (2 ^ 64 - n)

-- The end of the routine: nothing but spaces may stand behind the number.
unfoldable pub amount : Bool → ℕ → ℕ → Bytes → ℤ
amount neg dollars cents behind =
    if not (is_nil (trim_front behind)) then pos 0 else clamp_total neg (dollars * 100 + cents)

-- The amount, rounded up or not.
unfoldable pub rounded : Bool → Bool → ℕ → ℕ → Bytes → ℤ
rounded neg false dollars cents behind = amount neg dollars cents behind
rounded neg true dollars cents behind =
    if leb 100 (cents + 1)
    then amount neg (dollars + 1) 0 behind
    else amount neg dollars (cents + 1) behind

-- Behind the point. Digits from the third on decide on rounding, and are skipped.
unfoldable pub with_fraction : Bool → Bool → ℕ → Bytes → ℤ
with_fraction neg saw_digit dollars cs =
    let (read, digits, behind) = read_cents 2 0 0 cs in
    let cents = if digits == 1 then read * 10 else read in
    let round_up = first_is is_digit behind && first_is (leb b'5') behind in
    if not saw_digit && digits == 0
    then pos 0
    else rounded neg round_up dollars cents (skip_digits behind)

-- Behind the sign.
unfoldable pub parse_unsigned : Bool → Bytes → ℤ
parse_unsigned neg cs =
    let (dollars, behind) = read_dollars 0 cs in
    let saw_digit = first_is is_digit cs in
    if first_is (λ c. c == b'.') behind
    then with_fraction neg saw_digit dollars (without_first behind)
    else if not saw_digit
    then pos 0
    else amount neg dollars 0 behind

abbrev pub signed : Bytes → ℤ
signed [] = pos 0
signed (c ∷ cs) =
    if c == b'+' || c == b'-'
    then (if is_nil cs then pos 0 else parse_unsigned (c == b'-') cs)
    else parse_unsigned false (c ∷ cs)

unfoldable pub parse_money_cents : Bytes → ℤ
parse_money_cents field = signed (strip_quotes (trim_spaces field))
