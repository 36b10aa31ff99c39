-- ===== src/Csv/Dates.antt =====
-- `parseEpochMsFlexibleUTC`: the two date formats. A date that is refused counts as 0.
use cmpe275_enterprise_apps.Common.{
  ℕ, zero, suc, ◌+◌, ◌-◌, ◌*◌, Bool, true, false, not, ◌&&◌, ◌||◌, List, [], ◌∷◌, Option, none,
  some, ℤ, pos, negsuc, ltb, ◌==◌, if◌then◌else◌, length,
}
use cmpe275_enterprise_apps.Engine.{Bytes}
use cmpe275_enterprise_apps.Csv.Money.{is_digit}

-- What the code puts into a `std::tm`, there with the year from 1900 and the month from 0 on.
pub record CalendarTime : Type 0 where
  pub year : ℕ
  pub month : ℕ
  pub day : ℕ
  pub hour : ℕ
  pub minute : ℕ
  pub second : ℕ

-- The character at a position; the code looks only within the text.
unfoldable pub char_at : ℕ → Bytes → ℕ
char_at i [] = 0
char_at zero (c ∷ cs) = c
char_at (suc i) (c ∷ cs) = char_at i cs

unfoldable pub are_digits : List ℕ → Bytes → Bool
are_digits [] s = true
are_digits (i ∷ is) s = is_digit (char_at i s) && are_digits is s

unfoldable pub digit_at : ℕ → Bytes → ℕ
digit_at i s = char_at i s - b'0'

unfoldable pub two_digits : ℕ → Bytes → ℕ
two_digits i s = digit_at i s * 10 + digit_at (i + 1) s

unfoldable pub four_digits : Bytes → ℕ
four_digits s = digit_at 0 s * 1000 + digit_at 1 s * 100 + digit_at 2 s * 10 + digit_at 3 s

abbrev times_1000 : ℤ → ℤ
times_1000 (pos n) = pos (n * 1000)
times_1000 (negsuc n) = negsuc (n * 1000 + 999)

abbrev pub is_zero : ℤ → Bool
is_zero (pos n) = n == 0
is_zero (negsuc n) = false

abbrev pub ms_or_zero : Option ℤ → ℤ
ms_or_zero none = pos 0
ms_or_zero (some t) = times_1000 t

abbrev in_range : CalendarTime → Bool
in_range t =
    not (ltb t.day 1 || ltb 31 t.day || ltb 23 t.hour || ltb 59 t.minute || ltb 60 t.second)

abbrev month_names : List (ℕ × ℕ × ℕ)
month_names =
    (b'J', b'a', b'n')
    ∷ (b'F', b'e', b'b')
    ∷ (b'M', b'a', b'r')
    ∷ (b'A', b'p', b'r')
    ∷ (b'M', b'a', b'y')
    ∷ (b'J', b'u', b'n')
    ∷ (b'J', b'u', b'l')
    ∷ (b'A', b'u', b'g')
    ∷ (b'S', b'e', b'p')
    ∷ (b'O', b'c', b't')
    ∷ (b'N', b'o', b'v')
    ∷ (b'D', b'e', b'c')
    ∷ []

-- The number of the month whose name stands at position 5; 0 if there is none.
unfoldable pub find_month : ℕ → List (ℕ × ℕ × ℕ) → Bytes → ℕ
find_month i [] s = 0
find_month i ((a, b, c) ∷ names) s =
    if char_at 5 s == a && char_at 6 s == b && char_at 7 s == c
    then i
    else find_month (i + 1) names s

unfoldable pub hour_of : Bool → ℕ → ℕ
hour_of is_pm hour =
    if hour == 12 then (if is_pm then 12 else 0) else if is_pm then hour + 12 else hour

-- `timegm`, on times in range: seconds since 1970, `none` where it fails.
module _ (timegm : CalendarTime → Option ℤ) where
  -- YYYY-MM-DD HH:MM:SS
  unfoldable pub parse_iso : Bytes → ℤ
  parse_iso s =
      let t : CalendarTime = record {
        year = four_digits s;
        month = two_digits 5 s;
        day = two_digits 8 s;
        hour = two_digits 11 s;
        minute = two_digits 14 s;
        second = two_digits 17 s;
      } in
      if ltb (length s) 19
      then pos 0
      else if not (are_digits (0 ∷ 1 ∷ 2 ∷ 3 ∷ 5 ∷ 6 ∷ 8 ∷ 9 ∷ 11 ∷ 12 ∷ 14 ∷ 15 ∷ 17 ∷ 18 ∷ []) s)
      then pos 0
      else if not (
          char_at 4 s == b'-'
          && char_at 7 s == b'-'
          && char_at 10 s == b' '
          && char_at 13 s == b':'
          && char_at 16 s == b':')
      then pos 0
      else if ltb t.month 1 || ltb 12 t.month || not (in_range t)
      then pos 0
      else ms_or_zero (timegm t)

  -- YYYY Mon DD HH:MM:SS AM/PM
  unfoldable pub parse_am_pm : Bytes → ℤ
  parse_am_pm s =
      let month = find_month 1 month_names s in
      let hour = two_digits 12 s in
      let is_pm = char_at 21 s == b'P' in
      let t : CalendarTime = record {
        year = four_digits s;
        month = month;
        day = two_digits 9 s;
        hour = hour_of is_pm hour;
        minute = two_digits 15 s;
        second = two_digits 18 s;
      } in
      if ltb (length s) 23
      then pos 0
      else if not (are_digits (0 ∷ 1 ∷ 2 ∷ 3 ∷ 9 ∷ 10 ∷ 12 ∷ 13 ∷ 15 ∷ 16 ∷ 18 ∷ 19 ∷ []) s)
      then pos 0
      else if month == 0
      then pos 0
      else if not (
          char_at 4 s == b' '
          && char_at 8 s == b' '
          && char_at 11 s == b' '
          && char_at 14 s == b':'
          && char_at 17 s == b':'
          && char_at 20 s == b' ')
      then pos 0
      else if not ((char_at 21 s == b'A' || is_pm) && char_at 22 s == b'M')
      then pos 0
      else if ltb hour 1 || ltb 12 hour
      then pos 0
      else if not (in_range t)
      then pos 0
      else ms_or_zero (timegm t)

  unfoldable pub parse_epoch_ms : Bytes → ℤ
  parse_epoch_ms s = let ms = parse_iso s in if not (is_zero ms) then ms else parse_am_pm s
