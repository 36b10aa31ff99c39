-- ===== src/Overlay/Reachable.antt =====
-- `collectReachable` against the reachability relation of the overlay.
use cmpe275_enterprise_apps.Common.{
  ℕ, zero, suc, String, str_eq, eq_iff, true, false, List, [], ◌∷◌, Option, none, some, ◌≡◌, refl,
  sym, ◌⊎◌, inl, inr, ◌↔◌, arith, Bool-cases, Option-cases, subst, some_inj,
}
use cmpe275_enterprise_apps.Model.Request.{has_id}
use cmpe275_enterprise_apps.Overlay.Traversal.{visit_all, collect_reachable}
use cmpe275_enterprise_apps.Overlay.{OverlayConfig, get_children}

-- A walk along outgoing edges.
pub data Reaches (o : OverlayConfig) (a : String) : String → Type 0 where
  here : Reaches o a a
  step : {b c : String} → Reaches o a b → has_id c (get_children o b) ≡ true → Reaches o a c

pub Reaches-trans :
    {o : OverlayConfig} {a b c : String} → Reaches o a b → Reaches o b c → Reaches o a c
Reaches-trans p here = p
Reaches-trans p (step q e) = step (Reaches-trans p q) e

-- From the set `v` a visit of the nodes `ids` leads to the set `v'`: it keeps what was there, takes
-- in `ids`, adds only nodes that they reach, and with each node that it adds its children.
pub record Visits (o : OverlayConfig) (ids v v' : List String) : Type 0 where
  pub grows : (x : String) → has_id x v ≡ true → has_id x v' ≡ true
  entered : (x : String) → has_id x ids ≡ true → has_id x v' ≡ true
  closed :
      (x y : String)
      → has_id x v' ≡ true
      → has_id y (get_children o x) ≡ true
      → (has_id x v ≡ true) ⊎ (has_id y v' ≡ true)
  sound :
      (x : String)
      → has_id x v' ≡ true
      → (has_id x v ≡ true) ⊎ ((a : String) × (has_id a ids ≡ true) × Reaches o a x)

pub none_ne_some {ℓ} : {A : Type ℓ} {a : A} → none ≡ some a → ⊥
none_ne_some e = cc

pub false_ne_true : false ≡ true → ⊥
false_ne_true e = cc

pub self_id : (x : String) → has_id x (x ∷ []) ≡ true
unfolding has_id
self_id x = ground (arith, eq_iff x x)

pub same_id : {x y : String} → str_eq x y ≡ true → x ≡ y
same_id {x} {y} h = (eq_iff x y).0 h

-- Membership in a list of one.
pub has_id-one : {x y : String} → has_id x (y ∷ []) ≡ true → y ≡ x
unfolding has_id
has_id-one {x} {y} h = same_id (ground (arith, h))

Visits-nil : (o : OverlayConfig) (v : List String) → Visits o [] v v
unfolding has_id
Visits-nil o v = record {
  grows = λ x h. h;
  entered = λ x h. cc;
  closed = λ x y h k. inl h;
  sound = λ x h. inl h;
}

Visits-cons :
    {o : OverlayConfig} (id : String) (ids : List String) {v v1 v' : List String}
    → Visits o (id ∷ []) v v1
    → Visits o ids v1 v'
    → Visits o (id ∷ ids) v v'
unfolding has_id
Visits-cons id ids {v} {v1} {v'} p q = record {
  grows = λ x h. q.grows x (p.grows x h);
  entered = λ x h. elim (Bool-cases (str_eq id x)) [
    | inl e ↦ q.grows x (p.entered x (rw e refl))
    | inr e ↦ q.entered x (ground (arith, h, e))
  ];
  closed = λ x y h k. elim (q.closed x y h k) [
    | inr done ↦ inr done
    | inl before ↦ elim (p.closed x y before k) [
      | inl early ↦ inl early
      | inr done ↦ inr (q.grows y done)
    ]
  ];
  sound = λ x h. elim (q.sound x h) [
    | inr (a, k, r) ↦ inr (a, ground (arith, k), r)
    | inl before ↦ elim (p.sound x before) [
      | inl early ↦ inl early
      | inr (a, k, r) ↦ inr (a, ground (arith, k), r)
    ]
  ];
}

visit_all-Visits :
    (o : OverlayConfig) (visit : String → List String → Option (List String))
    (one : (id : String) (v v' : List String) → visit id v ≡ some v' → Visits o (id ∷ []) v v')
    (ids v v' : List String)
    → visit_all visit ids v ≡ some v'
    → Visits o ids v v'
unfolding visit_all
visit_all-Visits o visit one [] v v' e =
    subst (λ (u : List String). Visits o [] v u) (some_inj e) (Visits-nil o v)
visit_all-Visits o visit one (id ∷ ids) v v' e = elim (Option-cases (visit id v)) [
  | inl f ↦ absurd (none_ne_some (rw f at e))
  | inr (v1, f) ↦
      Visits-cons id ids (one id v v1 f) (visit_all-Visits o visit one ids v1 v' (rw f at e))
]

Visits-seen :
    (o : OverlayConfig) (id : String) (v : List String)
    → has_id id v ≡ true
    → Visits o (id ∷ []) v v
Visits-seen o id v h = record {
  grows = λ x k. k;
  entered = λ x k. subst (λ (y : String). has_id y v ≡ true) (has_id-one k) h;
  closed = λ x y k l. inl k;
  sound = λ x k. inl k;
}

Visits-enter :
    (o : OverlayConfig) (id : String) (v v' : List String)
    → Visits o (get_children o id) (id ∷ v) v'
    → Visits o (id ∷ []) v v'
unfolding has_id
Visits-enter o id v v' p = record {
  grows = λ x h. p.grows x (ground (arith, h));
  entered = λ x h. p.grows x (ground (arith, h));
  closed = λ x y h k. elim (p.closed x y h k) [
    | inr done ↦ inr done
    | inl early ↦ elim (Bool-cases (str_eq id x)) [
      | inl e ↦ inr (
          p.entered y
            (subst (λ (z : String). has_id y (get_children o z) ≡ true) (sym (same_id e)) k))
      | inr e ↦ inl (ground (arith, early, e))
    ]
  ];
  sound = λ x h. elim (p.sound x h) [
    | inr (a, k, r) ↦ inr (id, self_id id, Reaches-trans (step here k) r)
    | inl early ↦ elim (Bool-cases (str_eq id x)) [
      | inl e ↦ inr (id, self_id id, subst (Reaches o id) (same_id e) here)
      | inr e ↦ inl (ground (arith, early, e))
    ]
  ];
}

pub collect_reachable-Visits :
    (fuel : ℕ) (o : OverlayConfig) (id : String) (v v' : List String)
    → collect_reachable fuel o id v ≡ some v'
    → Visits o (id ∷ []) v v'
unfolding collect_reachable
collect_reachable-Visits zero o id v v' e = absurd (none_ne_some e)
collect_reachable-Visits (suc fuel) o id v v' e = elim (Bool-cases (has_id id v)) [
  | inl h ↦
      subst (λ (u : List String). Visits o (id ∷ []) v u)
        (some_inj (rw (h, collect_reachable) at e)) (Visits-seen o id v h)
  | inr h ↦ Visits-enter o id v v' (
      visit_all-Visits o (collect_reachable fuel o) (collect_reachable-Visits fuel o)
        (get_children o id) (id ∷ v) v' (rw (h, collect_reachable) at e))
]

-- A set that holds a node and, with each node, its children holds all that the node reaches.
Reaches-closed :
    {o : OverlayConfig} {a b : String} (v : List String)
    → ((x y : String) → has_id x v ≡ true → has_id y (get_children o x) ≡ true → has_id y v ≡ true)
    → has_id a v ≡ true
    → Reaches o a b
    → has_id b v ≡ true
Reaches-closed v closed h here = h
Reaches-closed v closed h (step {b} {c} r e) = closed b c (Reaches-closed v closed h r) e

-- Where `collectReachable` ends, started from the empty set, the set holds exactly the nodes that
-- the given one reaches along outgoing edges.
pub collect_reachable_iff :
    (fuel : ℕ) (o : OverlayConfig) (id : String) (v : List String)
    → collect_reachable fuel o id [] ≡ some v
    → (x : String) → (has_id x v ≡ true) ↔ Reaches o id x
unfolding has_id
collect_reachable_iff fuel o id v e x =
    let p = collect_reachable-Visits fuel o id [] v e in
    (
      (λ h. elim (p.sound x h) [
        | inl k ↦ absurd (false_ne_true k)
        | inr (a, k, r) ↦ subst (λ (y : String). Reaches o y x) (sym (has_id-one k)) r
      ]),
      (λ r.
          Reaches-closed v
            (λ y z h k. elim (p.closed y z h k) [
              | inl l ↦ absurd (false_ne_true l)
              | inr done ↦ done
            ])
            (p.entered id (self_id id)) r),
    )
