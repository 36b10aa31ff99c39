-- ===== src/Overlay/Validation.antt =====
-- What holds of an overlay that `validate` accepts.
use cmpe275_enterprise_apps.Common.{
  ℕ, zero, suc, ◌<◌, ◌≤◌, String, str_eq, eq_iff, true, List, [], ◌∷◌, Option, some, ◌≡◌, refl, sym,
  ◌∙◌, ◌↔◌, arith, Bool-cases, Option-cases, inl, inr, subst, some_inj, length, map, length-map,
}
use cmpe275_enterprise_apps.Common.Dict.{find, has_key}
use cmpe275_enterprise_apps.Model.Request.{has_id, NodupIds}
use cmpe275_enterprise_apps.Overlay.{
  OverlayConfig, NodeInfo, get_children, get_entry_node, remove_id, or_empty,
}
use cmpe275_enterprise_apps.Overlay.Traversal.{
  visit_all, collect_reachable, validate, validate_walks, edges_known, children_known,
}
use cmpe275_enterprise_apps.Overlay.Parents.{has_id-remove_id}
use cmpe275_enterprise_apps.Overlay.Reachable.{Reaches, here, step, none_ne_some}
use cmpe275_enterprise_apps.Overlay.Termination.{child_ids}
use cmpe275_enterprise_apps.Overlay.Cycles.{Cyclic}
use cmpe275_enterprise_apps.Overlay.Acyclic.{walks_accept}

visit_all-NodupIds :
    (visit : String → List String → Option (List String))
    (one : (id : String) (v v' : List String) → visit id v ≡ some v' → NodupIds v → NodupIds v')
    (ids v v' : List String)
    → visit_all visit ids v ≡ some v'
    → NodupIds v
    → NodupIds v'
unfolding visit_all
visit_all-NodupIds visit one [] v v' e n = subst NodupIds (some_inj e) n
visit_all-NodupIds visit one (id ∷ ids) v v' e n = elim (Option-cases (visit id v)) [
  | inl f ↦ absurd (none_ne_some (rw f at e))
  | inr (v1, f) ↦ visit_all-NodupIds visit one ids v1 v' (rw f at e) (one id v v1 f n)
]

collect_reachable-NodupIds :
    (fuel : ℕ) (o : OverlayConfig) (id : String) (v v' : List String)
    → collect_reachable fuel o id v ≡ some v'
    → NodupIds v
    → NodupIds v'
unfolding collect_reachable
collect_reachable-NodupIds zero o id v v' e n = absurd (none_ne_some e)
collect_reachable-NodupIds (suc fuel) o id v v' e n = elim (Bool-cases (has_id id v)) [
  | inl h ↦ subst NodupIds (some_inj (rw (h, collect_reachable) at e)) n
  | inr h ↦
      visit_all-NodupIds (collect_reachable fuel o) (collect_reachable-NodupIds fuel o)
        (get_children o id) (id ∷ v) v' (rw (h, collect_reachable) at e) (h, n)
]

length-remove_id :
    (x : String) (ks : List String)
    → (length (remove_id x ks) ≤ length ks)
      × (has_id x ks ≡ true → length (remove_id x ks) < length ks)
unfolding remove_id has_id
length-remove_id x [] = (omega arith, λ h. cc)
length-remove_id x (k ∷ ks) =
    let (le, lt) = length-remove_id x ks in
    elim (Bool-cases (str_eq k x)) [
      | inl e ↦ rw e (omega arith, λ h. omega arith)
      | inr e ↦ rw e (omega arith, λ h. let more = lt h in omega arith)
    ]

-- Distinct IDs from a list are no more than it has.
length-NodupIds :
    (v ks : List String)
    → NodupIds v
    → ((x : String) → has_id x v ≡ true → has_id x ks ≡ true)
    → length v ≤ length ks
unfolding has_id
length-NodupIds [] ks n sub = omega arith
length-NodupIds (y ∷ v) ks (fresh, n) sub =
    let inside : has_id y ks ≡ true = sub y (ground (arith, eq_iff y y)) in
    let (le, lt) = length-remove_id y ks in
    let less = lt inside in
    let rest =
      length-NodupIds v (remove_id y ks) n
        (λ x h. ground (arith, has_id-remove_id x y ks, sub x, eq_iff y x, h, fresh)) in
    omega arith

-- As many distinct IDs from a list as it has are all of them.
NodupIds-full :
    (v ks : List String) (k : String)
    → NodupIds v
    → ((x : String) → has_id x v ≡ true → has_id x ks ≡ true)
    → length v ≡ length ks
    → has_id k ks ≡ true
    → has_id k v ≡ true
NodupIds-full v ks k n sub same inside = elim (Bool-cases (has_id k v)) [
  | inl h ↦ h
  | inr out ↦
      let (le, lt) = length-remove_id k ks in
      let less = lt inside in
      let few =
        length-NodupIds v (remove_id k ks) n
          (λ x h. ground (arith, has_id-remove_id x k ks, sub x, eq_iff k x, h, out)) in
      absurd (omega arith)
]

has_key-has_id :
    {V : Type 0} (k : String) (m : List (String × V)) → has_key k m ≡ has_id k (map (λ e. e.0) m)
unfolding has_key has_id
has_key-has_id k [] = refl
has_key-has_id k ((j, v) ∷ m) = ground (arith, has_key-has_id k m, eq_iff j k, eq_iff k j)

children_known-has_key :
    (o : OverlayConfig) (seen cs : List String) (y : String)
    → children_known o seen cs ≡ true
    → has_id y cs ≡ true
    → has_key y o.nodes ≡ true
unfolding children_known has_id
children_known-has_key o seen [] y h k = cc
children_known-has_key o seen (c ∷ cs) y h k =
    ground (arith, eq_iff c y, children_known-has_key o (c ∷ seen) cs y)

edges_known-has_key :
    (o : OverlayConfig) (edges : List (String × List String)) (x y : String)
    → edges_known o edges ≡ true
    → has_id y (or_empty (find x edges)) ≡ true
    → has_key y o.nodes ≡ true
unfolding edges_known find has_id
edges_known-has_key o [] x y h k = cc
edges_known-has_key o ((j, cs) ∷ edges) x y h k =
    ground (arith, children_known-has_key o [] cs y, edges_known-has_key o edges x y)

Reaches-has_key :
    (o : OverlayConfig) (a b : String)
    → edges_known o o.children ≡ true
    → has_key a o.nodes ≡ true
    → Reaches o a b
    → has_key b o.nodes ≡ true
unfolding get_children
Reaches-has_key o a c edges start here = start
Reaches-has_key o a c edges start (step {b} r e) = edges_known-has_key o o.children b c edges e

module _ (o : OverlayConfig) (a : String) (edges : edges_known o o.children ≡ true)
    (start : has_key a o.nodes ≡ true) (v : List String) (nodup : NodupIds v)
    (same : length v ≡ length o.nodes)
    (reach : (x : String) → (has_id x v ≡ true) ↔ Reaches o a x) where
  abbrev keys : List String
  keys = map (λ e. e.0) o.nodes

  v-keys : (x : String) → has_id x v ≡ true → has_id x keys ≡ true
  v-keys x m = sym (has_key-has_id x o.nodes) ∙ Reaches-has_key o a x edges start ((reach x).0 m)

  length-keys : length v ≡ length keys
  length-keys = same ∙ sym (length-map (λ e. e.0) o.nodes)

  -- A set of all that the entry node reaches, as large as the overlay, is the overlay.
  reached_all : (x : String) → (has_key x o.nodes ≡ true) ↔ Reaches o a x
  reached_all x = (
    (λ k.
        (reach x).0
          (NodupIds-full v keys x nodup v-keys length-keys (sym (has_key-has_id x o.nodes) ∙ k))),
    Reaches-has_key o a x edges start,
  )

-- The last tests that `validate` makes.
validate_passed :
    (fuel : ℕ) (o : OverlayConfig) (entry : NodeInfo)
    → get_entry_node o ≡ some entry
    → validate fuel o ≡ some true
    → (edges_known o o.children ≡ true) × (validate_walks fuel o entry ≡ some true)
unfolding validate
validate_passed fuel o entry e accepted =
    let tests = rw e at accepted in (ground (arith, tests), ground (arith, tests))

-- With fuel for the walks from the entry node, which is stored under its ID: in an overlay that
-- `validate` accepts no walk from the entry node comes to a cycle, and the nodes that it reaches are
-- exactly the nodes of the overlay.
pub validate-Reaches :
    (fuel : ℕ) (o : OverlayConfig) (entry : NodeInfo)
    → get_entry_node o ≡ some entry
    → has_key entry.node_id o.nodes ≡ true
    → length (entry.node_id ∷ child_ids o.children) < fuel
    → validate fuel o ≡ some true
    → (¬ Cyclic o entry.node_id)
      × ((x : String) → (has_key x o.nodes ≡ true) ↔ Reaches o entry.node_id x)
validate-Reaches fuel o entry at_entry start h accepted =
    let (edges, walks) = validate_passed fuel o entry at_entry accepted in
    let (acyclic, v, same, e, reach) = walks_accept fuel o entry h walks in
    let nodup = collect_reachable-NodupIds fuel o entry.node_id [] v e tt in
    (acyclic, reached_all o entry.node_id edges start v nodup same reach)
