-- ===== src/Overlay/Cycles.antt =====
-- `hasCycle` against the cycles of the overlay.
use cmpe275_enterprise_apps.Common.{
  ℕ, zero, suc, String, str_eq, eq_iff, Bool, true, false, List, [], ◌∷◌, Option, some, ◌≡◌, refl,
  sym, ◌∙◌, ◌⊎◌, inl, inr, arith, Bool-cases, Option-cases, subst, some_inj,
}
use cmpe275_enterprise_apps.Model.Request.{has_id}
use cmpe275_enterprise_apps.Overlay.{OverlayConfig, get_children, remove_id}
use cmpe275_enterprise_apps.Overlay.Traversal.{
  ◌>>=◌, visit_all, has_cycle, CycleState, unless_found, leave,
}
use cmpe275_enterprise_apps.Overlay.Reachable.{
  Reaches, here, step, Reaches-trans, same_id, none_ne_some, self_id, has_id-one,
}

-- A walk of one edge at least.
abbrev pub Leads : OverlayConfig → String → String → Type 0
Leads o a b = (m : String) × Reaches o a m × (has_id b (get_children o m) ≡ true)

-- A node from which a walk comes to a cycle.
abbrev pub Cyclic : OverlayConfig → String → Type 0
Cyclic o a = (z : String) × Reaches o a z × Leads o z z

-- The first edge of a walk.
Reaches-first :
    {o : OverlayConfig} {a b : String}
    → Reaches o a b
    → (a ≡ b) ⊎ ((c : String) × (has_id c (get_children o a) ≡ true) × Reaches o c b)
Reaches-first here = inl refl
Reaches-first {o} {a} (step {b} {c} r e) = elim (Reaches-first r) [
  | inl same ↦
      inr (c, subst (λ (x : String). has_id c (get_children o x) ≡ true) (sym same) e, here)
  | inr (d, f, s) ↦ inr (d, f, step s e)
]

-- A node whose children come to no cycle comes to none itself.
not-Cyclic-parent :
    (o : OverlayConfig) (id : String)
    → ((c : String) → has_id c (get_children o id) ≡ true → ¬ Cyclic o c)
    → ¬ Cyclic o id
not-Cyclic-parent o id calm (z, r, (m, s, e)) = elim (Reaches-first r) [
  | inr (c, f, t) ↦ calm c f (z, t, (m, s, e))
  | inl same ↦
      let e' = subst (λ (x : String). has_id x (get_children o m) ≡ true) (sym same) e in
      let s' = subst (λ (x : String). Reaches o x m) (sym same) s in
      elim (Reaches-first s') [
        | inl loop ↦
            let f = subst (λ (x : String). has_id id (get_children o x) ≡ true) (sym loop) e' in
            calm id f (id, here, (id, here, f))
        | inr (c, f, t) ↦ calm c f (id, step t e', (m, s', e'))
      ]
]

-- No visited node but those of the stack comes to a cycle.
abbrev pub Calm : OverlayConfig → List String → List String → Type 0
Calm o visited active =
    (x : String) → has_id x visited ≡ true → has_id x active ≡ false → ¬ Cyclic o x

-- Every node of the stack leads to `id`.
abbrev pub Stacked : OverlayConfig → List String → String → Type 0
Stacked o active id = (x : String) → has_id x active ≡ true → Leads o x id

-- What a check of the nodes `ids` comes to: a cycle that one of them comes to, or the stack as it
-- was, with all of them visited.
pub record Checked (o : OverlayConfig) (ids visited active : List String) (s : CycleState)
    : Type 0 where
  pub grows : (x : String) → has_id x visited ≡ true → has_id x s.1 ≡ true
  pub outcome :
      ((s.0 ≡ true) × (a : String) × (has_id a ids ≡ true) × Cyclic o a)
      ⊎ ((s.0 ≡ false)
          × (s.2 ≡ active)
          × Calm o s.1 active
          × ((x : String)
              → has_id x ids ≡ true
              → (has_id x s.1 ≡ true) × (has_id x active ≡ false)))

pub visit_found :
    (check : String → CycleState → Option CycleState) (ids v a : List String)
    → visit_all (unless_found check) ids (true, v, a) ≡ some (true, v, a)
unfolding visit_all
visit_found check [] v a = refl
visit_found check (id ∷ ids) v a = visit_found check ids v a

pub true_ne_false : {b : Bool} → b ≡ true → b ≡ false → ⊥
true_ne_false h k = cc

module _ (o : OverlayConfig) where
  Checked-cons :
      (id : String) (ids v active : List String) (r s : CycleState)
      → Checked o (id ∷ []) v active r
      → ((r.0 ≡ true) × (s ≡ r)) ⊎ ((r.0 ≡ false) × Checked o ids r.1 active s)
      → Checked o (id ∷ ids) v active s
  unfolding has_id
  Checked-cons id ids v active r s p (inl (found, e)) = rw e (record {
    grows = p.grows;
    outcome = elim p.outcome [
      | inl (t, a, k, c) ↦ inl (found, a, ground (arith, k), c)
      | inr (t, same, calm, all) ↦ absurd (true_ne_false found t)
    ];
  })
  Checked-cons id ids v active r s p (inr (missed, q)) = record {
    grows = λ x h. q.grows x (p.grows x h);
    outcome = elim q.outcome [
      | inl (t, a, k, c) ↦ inl (t, a, ground (arith, k), c)
      | inr (t, e, calm, all) ↦ inr (
        t,
        e,
        calm,
        λ x h. elim (Bool-cases (str_eq id x)) [
          | inr other ↦ all x (ground (arith, h, other))
          | inl same ↦ elim p.outcome [
            | inl (t', a, k, c) ↦ absurd (true_ne_false t' missed)
            | inr (t', e', calm', first) ↦
                let (seen, off) = first x (rw same refl) in (q.grows x seen, off)
          ]
        ],
      )
    ];
  }

  -- The loop behind a first check: it stops, or goes on with the stack as it was.
  behind :
      (check : String → CycleState → Option CycleState) (id : String) (ids v active : List String)
      (r s : CycleState)
      → ((v1 : List String)
          → Calm o v1 active
          → visit_all (unless_found check) ids (false, v1, active) ≡ some s
          → Checked o ids v1 active s)
      → Checked o (id ∷ []) v active r
      → visit_all (unless_found check) ids r ≡ some s
      → ((r.0 ≡ true) × (s ≡ r)) ⊎ ((r.0 ≡ false) × Checked o ids r.1 active s)
  behind check id ids v active (true, v1, a1) s later p g =
      inl (refl, sym (some_inj (sym (visit_found check ids v1 a1) ∙ g)))
  behind check id ids v active (false, v1, a1) s later p g = elim p.outcome [
    | inl (t, a, k, c) ↦ absurd (true_ne_false t refl)
    | inr (t, same, calm1, all) ↦
        let g' =
          subst (λ (a : List String). visit_all (unless_found check) ids (false, v1, a) ≡ some s)
            same g in
        inr (refl, later v1 calm1 g')
  ]

  visit_all-Checked :
      (check : String → CycleState → Option CycleState)
      (one : (id : String) (v active : List String) (s : CycleState)
        → Stacked o active id
        → Calm o v active
        → check id (false, v, active) ≡ some s
        → Checked o (id ∷ []) v active s)
      (ids v active : List String) (s : CycleState)
      → ((id : String) → has_id id ids ≡ true → Stacked o active id)
      → Calm o v active
      → visit_all (unless_found check) ids (false, v, active) ≡ some s
      → Checked o ids v active s
  unfolding visit_all has_id
  visit_all-Checked check one [] v active s stacked calm e =
      subst (λ (t : CycleState). Checked o [] v active t) (some_inj e)
        (record { grows = λ x h. h; outcome = inr (refl, refl, calm, λ x h. cc) })
  visit_all-Checked check one (id ∷ ids) v active s stacked calm e =
      elim (Option-cases (check id (false, v, active))) [
        | inl f ↦ absurd (none_ne_some (rw f at e))
        | inr (r, f) ↦
            let p = one id v active r (stacked id (ground (arith, eq_iff id id))) calm f in
            Checked-cons id ids v active r s p (
              behind check id ids v active r s
                (λ v1 calm1 g.
                  visit_all-Checked check one ids v1 active s (λ x h. stacked x (ground (arith, h)))
                    calm1 g)
                p (rw f at e))
      ]

  remove_id-absent :
      (id : String) (ids : List String) → has_id id ids ≡ false → remove_id id ids ≡ ids
  unfolding has_id remove_id
  remove_id-absent id [] h = refl
  remove_id-absent id (x ∷ ids) h =
      ground (arith, remove_id-absent id ids, eq_iff x id, eq_iff id x)

  -- What is left when the children of a node have been checked.
  leave-Checked :
      (id : String) (v active : List String) (r s : CycleState)
      → has_id id active ≡ false
      → Checked o (get_children o id) (id ∷ v) (id ∷ active) r
      → leave id r ≡ some s
      → Checked o (id ∷ []) v active s
  unfolding has_id remove_id
  leave-Checked id v active (true, v1, a1) s new p e =
      subst (λ (t : CycleState). Checked o (id ∷ []) v active t) (some_inj e)
        (record {
          grows = λ x h. p.grows x (ground (arith, h));
          outcome = elim p.outcome [
            | inl (t, a, k, (z, r, l)) ↦
                inl (refl, id, self_id id, (z, Reaches-trans (step here k) r, l))
            | inr (t, same, calm, all) ↦ absurd (true_ne_false refl t)
          ];
        })
  leave-Checked id v active (false, v1, a1) s new p e =
      subst (λ (t : CycleState). Checked o (id ∷ []) v active t) (some_inj e)
        (record {
          grows = λ x h. p.grows x (ground (arith, h));
          outcome = elim p.outcome [
            | inl (t, a, k, c) ↦ absurd (true_ne_false t refl)
            | inr (t, same, calm, all) ↦
                let calm_id =
                  not-Cyclic-parent o id (λ c k. let (seen, off) = all c k in calm c seen off) in
                inr (
                  refl,
                  (rw same (ground (arith, eq_iff id id, remove_id-absent id active new))),
                  (λ x h k. elim (Bool-cases (str_eq id x)) [
                    | inl at_id ↦ subst (λ (y : String). ¬ Cyclic o y) (same_id at_id) calm_id
                    | inr other ↦ calm x h (ground (arith, k, other))
                  ]),
                  (λ x h. (
                    p.grows x (ground (arith, h)),
                    subst (λ (y : String). has_id y active ≡ false) (has_id-one h) new,
                  )),
                )
          ];
        })

  pub Stacked-more :
      (id : String) (active : List String)
      → Stacked o active id
      → (c : String) → has_id c (get_children o id) ≡ true
      → Stacked o (id ∷ active) c
  unfolding has_id
  Stacked-more id active stacked c k x h = elim (Bool-cases (str_eq id x)) [
    | inl at_id ↦ subst (λ (y : String). Leads o y c) (same_id at_id) (id, here, k)
    | inr other ↦ let (m, r, e) = stacked x (ground (arith, h, other)) in (id, step r e, k)
  ]

  pub Calm-more :
      (id : String) (v active : List String) → Calm o v active → Calm o (id ∷ v) (id ∷ active)
  unfolding has_id
  Calm-more id v active calm x h k = calm x (ground (arith, h, k)) (ground (arith, k))

  pub has_cycle-Checked :
      (fuel : ℕ) (id : String) (v active : List String) (s : CycleState)
      → Stacked o active id
      → Calm o v active
      → has_cycle fuel o id (false, v, active) ≡ some s
      → Checked o (id ∷ []) v active s
  unfolding has_cycle has_id
  has_cycle-Checked zero id v active s stacked calm e = absurd (none_ne_some e)
  has_cycle-Checked (suc fuel) id v active s stacked calm e = elim (Bool-cases (has_id id active)) [
    | inl again ↦
        subst (λ (t : CycleState). Checked o (id ∷ []) v active t)
          (some_inj (rw (again, has_cycle) at e))
          (record {
            grows = λ x h. h;
            outcome = inl (refl, id, self_id id, (id, here, stacked id again));
          })
    | inr new ↦ elim (Bool-cases (has_id id v)) [
      | inl seen ↦
          subst (λ (t : CycleState). Checked o (id ∷ []) v active t)
            (some_inj (rw (new, seen, has_cycle) at e))
            (record {
              grows = λ x h. h;
              outcome = inr (
                refl,
                refl,
                calm,
                λ x h. (
                  subst (λ (y : String). has_id y v ≡ true) (has_id-one h) seen,
                  subst (λ (y : String). has_id y active ≡ false) (has_id-one h) new,
                ),
              );
            })
      | inr fresh ↦
          let cs = get_children o id in
          let start : CycleState = (false, id ∷ v, id ∷ active) in
          let e' : (visit_all (unless_found (has_cycle fuel o)) cs start >>= leave id) ≡ some s =
            rw (new, fresh, has_cycle) at e in
          elim (Option-cases (visit_all (unless_found (has_cycle fuel o)) cs start)) [
            | inl f ↦ absurd (none_ne_some (rw f at e'))
            | inr (r, f) ↦
                leave-Checked id v active r s new
                  (visit_all-Checked (has_cycle fuel o) (has_cycle-Checked fuel) cs (id ∷ v)
                    (id ∷ active) r (Stacked-more id active stacked) (Calm-more id v active calm) f)
                  (rw f at e')
          ]
    ]
  ]
