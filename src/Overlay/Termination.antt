-- ===== src/Overlay/Termination.antt =====
-- The walk of `collectReachable` ends: fuel beyond the number of nodes is enough.
use cmpe275_enterprise_apps.Common.{
  ℕ, zero, suc, ◌+◌, ◌≤◌, ◌<◌, String, eq_iff, true, false, ◌||◌, List, [], ◌∷◌, ◌++◌, some, ◌≡◌,
  ◌↔◌, refl, arith, length, if◌then◌else◌, Bool-cases, inl, inr,
}
use cmpe275_enterprise_apps.Model.Request.{has_id}
use cmpe275_enterprise_apps.Common.Dict.{find}
use cmpe275_enterprise_apps.Overlay.{OverlayConfig, get_children, or_empty}
use cmpe275_enterprise_apps.Overlay.Traversal.{visit_all, collect_reachable}
use cmpe275_enterprise_apps.Overlay.Reachable.{
  Reaches, collect_reachable-Visits, collect_reachable_iff,
}

-- The nodes that some edge leads to.
abbrev pub child_ids : List (String × List String) → List String
child_ids [] = []
child_ids ((id, cs) ∷ m) = cs ++ child_ids m

has_id-append :
    (x : String) (xs ys : List String) → has_id x (xs ++ ys) ≡ (has_id x xs || has_id x ys)
unfolding has_id
has_id-append x [] ys = refl
has_id-append x (y ∷ xs) ys = ground (arith, has_id-append x xs ys)

pub get_children-child_ids :
    (x id : String) (m : List (String × List String))
    → has_id x (or_empty (find id m)) ≡ true
    → has_id x (child_ids m) ≡ true
unfolding find has_id
get_children-child_ids x id [] h = cc
get_children-child_ids x id ((j, cs) ∷ m) h =
    ground (arith, has_id-append x cs (child_ids m), get_children-child_ids x id m)

-- How many of the nodes are not in the set `v` yet.
abbrev pub unseen : List String → List String → ℕ
unseen v [] = 0
unseen v (u ∷ us) = (if has_id u v then 0 else 1) + unseen v us

pub unseen-nil : (us : List String) → unseen [] us ≡ length us
unfolding has_id
unseen-nil [] = refl
unseen-nil (u ∷ us) = omega (arith, unseen-nil us)

pub unseen_le :
    (v v' us : List String)
    → ((x : String) → has_id x v ≡ true → has_id x v' ≡ true)
    → unseen v' us ≤ unseen v us
unseen_le v v' [] h = omega arith
unseen_le v v' (u ∷ us) h = ground (arith, unseen_le v v' us h, h u)

-- A node that enters the set is seen.
pub unseen-cons :
    (id : String) (v us : List String)
    → has_id id v ≡ false
    → has_id id us ≡ true
    → unseen (id ∷ v) us < unseen v us
unfolding has_id
unseen-cons id v [] h k = cc
unseen-cons id v (u ∷ us) h k = ground (
  arith,
  eq_iff u id,
  eq_iff id u,
  unseen-cons id v us h,
  unseen_le v (id ∷ v) us (λ x e. ground (arith, e)),
)

module _ (o : OverlayConfig) (us : List String)
    (known : (x y : String) → has_id y (get_children o x) ≡ true → has_id y us ≡ true) where
  visit_all_total :
      (fuel : ℕ)
      → ((id : String) (v : List String)
          → has_id id us ≡ true
          → unseen v us < fuel
          → (v' : List String) × (collect_reachable fuel o id v ≡ some v'))
      → (ids v : List String) → ((x : String) → has_id x ids ≡ true → has_id x us ≡ true)
      → unseen v us < fuel
      → (v' : List String) × (visit_all (collect_reachable fuel o) ids v ≡ some v')
  unfolding visit_all has_id
  visit_all_total fuel total [] v k h = (v, refl)
  visit_all_total fuel total (id ∷ ids) v k h =
      let (v1, e) = total id v (k id (ground (arith, eq_iff id id))) h in
      let p = collect_reachable-Visits fuel o id v v1 e in
      let (v', rest) =
        visit_all_total fuel total ids v1 (λ x m. k x (ground (arith, m)))
          (let le = unseen_le v v1 us p.grows in omega arith) in
      (v', rw e rest)

  collect_reachable_total :
      (fuel : ℕ) (id : String) (v : List String)
      → has_id id us ≡ true
      → unseen v us < fuel
      → (v' : List String) × (collect_reachable fuel o id v ≡ some v')
  unfolding collect_reachable
  collect_reachable_total zero id v k h = elim h [ ]
  collect_reachable_total (suc fuel) id v k h = elim (Bool-cases (has_id id v)) [
    | inl seen ↦ (v, rw (seen, collect_reachable) refl)
    | inr new ↦
        let (v', e) =
          visit_all_total fuel (collect_reachable_total fuel) (get_children o id) (id ∷ v)
            (known id) (let lt = unseen-cons id v us new k in omega arith) in
        (v', rw (new, collect_reachable) e)
  ]

-- `collectReachable`, started from the empty set, ends on every overlay, cyclic ones included: one
-- step of fuel more than there are edges and start node is enough. The set that it returns holds
-- exactly the nodes that the given one reaches along outgoing edges.
pub collect_reachable_lem :
    (o : OverlayConfig) (id : String) (fuel : ℕ)
    → length (id ∷ child_ids o.children) < fuel
    → (v : List String) × (collect_reachable fuel o id [] ≡ some v)
      × ((x : String) → (has_id x v ≡ true) ↔ Reaches o id x)
unfolding get_children has_id
collect_reachable_lem o id fuel h =
    let us = id ∷ child_ids o.children in
    let (v, e) =
      collect_reachable_total o us
        (λ x y m. ground (arith, get_children-child_ids y x o.children m)) fuel id []
        (ground (arith, eq_iff id id)) (let size = unseen-nil us in omega arith) in
    (v, e, collect_reachable_iff fuel o id v e)
