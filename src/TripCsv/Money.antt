-- ===== src/TripCsv/Money.antt =====
-- `trimSpaces` and `parseMoneyCents` of the trip reader. Numbers of 64 bits wrap as in
-- Csv/Money.
use cmpe275_enterprise_apps.Common.{
  ℕ, ◌+◌, ◌*◌, Bool, true, false, not, ◌&&◌, ◌||◌, [], ◌∷◌, ℤ, pos, leb, ◌==◌, if◌then◌else◌,
}
use cmpe275_enterprise_apps.Engine.{Bytes}
use cmpe275_enterprise_apps.Csv.Fields.{is_nil, ends_in_quote, without_last}
use cmpe275_enterprise_apps.Csv.Money.{
  is_digit, read_dollars, read_cents, skip_digits, first_is, without_first, clamp_total,
}

abbrev pub is_space : ℕ → Bool
is_space c = c == b' ' || c == 9

unfoldable pub trim_front : Bytes → Bytes
trim_front [] = []
trim_front (c ∷ cs) = if is_space c then trim_front cs else c ∷ cs

unfoldable pub trim_back : Bytes → Bytes
trim_back [] = []
trim_back (c ∷ cs) = let rest = trim_back cs in if is_space c && is_nil rest then [] else c ∷ rest

unfoldable pub trim_spaces : Bytes → Bytes
trim_spaces field = trim_back (trim_front field)

unfoldable pub strip_quotes : Bytes → Bytes
strip_quotes [] = []
strip_quotes (c ∷ cs) =
    if c == b'"' && ends_in_quote (c ∷ cs) then trim_spaces (without_last cs) else c ∷ cs

-- A field without spaces and quotes around it.
abbrev pub unquoted : Bytes → Bytes
unquoted field = strip_quotes (trim_spaces field)

-- The end of the routine: nothing but spaces may stand behind the number.
unfoldable pub amount : Bool → ℕ → ℕ → Bytes → ℤ
amount neg dollars cents behind =
    if not (is_nil (trim_front behind)) then pos 0 else clamp_total neg (dollars * 100 + cents)

unfoldable pub rounded : Bool → Bool → ℕ → ℕ → Bytes → ℤ
rounded neg false dollars cents behind = amount neg dollars cents behind
rounded neg true dollars cents behind =
    if leb 100 (cents + 1)
    then amount neg (dollars + 1) 0 behind
    else amount neg dollars (cents + 1) behind

-- Behind the point.
unfoldable pub with_fraction : Bool → Bool → ℕ → Bytes → ℤ
with_fraction neg saw_digit dollars cs =
    let (read, digits, behind) = read_cents 2 0 0 cs in
    let cents = if digits == 1 then read * 10 else read in
    let round_up = first_is is_digit behind && first_is (leb b'5') behind in
    if not saw_digit && digits == 0
    then pos 0
    else rounded neg round_up dollars cents (skip_digits behind)

-- Behind the sign.
unfoldable pub parse_unsigned : Bool → Bytes → ℤ
parse_unsigned neg cs =
    let (dollars, behind) = read_dollars 0 cs in
    let saw_digit = first_is is_digit cs in
    if first_is (λ c. c == b'.') behind
    then with_fraction neg saw_digit dollars (without_first behind)
    else if not saw_digit
    then pos 0
    else amount neg dollars 0 behind

abbrev pub signed : Bytes → ℤ
signed [] = pos 0
signed (c ∷ cs) =
    if c == b'+' || c == b'-'
    then (if is_nil cs then pos 0 else parse_unsigned (c == b'-') cs)
    else parse_unsigned false (c ∷ cs)

unfoldable pub parse_money_cents : Bytes → ℤ
parse_money_cents field = signed (unquoted field)
