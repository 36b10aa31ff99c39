-- ===== src/Dataset/Predicates.antt =====
-- basic/src/query/: the predicates on trips. A predicate is the function that its `matches` is.
use cmpe275_enterprise_apps.Common.{
  Bool, true, false, not, ◌&&◌, List, [], ◌∷◌, Option, none, some, ℤ, ltb_ℤ, if◌then◌else◌,
}
use cmpe275_enterprise_apps.Model.Trip.{TaxiTrip}

abbrev pub Predicate : Type 0
Predicate = TaxiTrip → Bool

abbrev true_predicate : Predicate
true_predicate trip = true

abbrev leb_ℤ : ℤ → ℤ → Bool
leb_ℤ a b = not (ltb_ℤ b a)

-- `startMs_` and `endMs_` of the constructor.
abbrev bounds : ℤ → ℤ → ℤ × ℤ
bounds start_ms end_ms = if leb_ℤ start_ms end_ms then (start_ms, end_ms) else (end_ms, start_ms)

unfoldable pickup_time_range_predicate : ℤ → ℤ → Predicate
pickup_time_range_predicate start_ms end_ms trip =
    let (lo, hi) = bounds start_ms end_ms in
    leb_ℤ lo trip.pickup_epoch_ms && leb_ℤ trip.pickup_epoch_ms hi

-- `le` is the `<=` of the value type.
unfoldable field_range_predicate :
    {V : Type 0} → (V → V → Bool) → V → V → (TaxiTrip → V) → Predicate
field_range_predicate le min_value max_value accessor trip =
    let v = accessor trip in le min_value v && le v max_value

-- The loop of `AndPredicate`; a null pointer is passed over.
unfoldable and_predicate : List (Option Predicate) → Predicate
and_predicate [] trip = true
and_predicate (none ∷ conditions) trip = and_predicate conditions trip
and_predicate (some p ∷ conditions) trip =
    if not (p trip) then false else and_predicate conditions trip
