-- ===== src/InMemory/Filling.antt =====
-- The second pass of `executeOpenMP`: a turn of any thread keeps the regions of the vector apart.
use cmpe275_enterprise_apps.Common.{
  ℕ, zero, suc, ◌+◌, Bool, List, [], ◌∷◌, ◌++◌, ◌≡◌, refl, sym, ap, ◌∙◌, subst, arith,
  if◌then◌else◌, Bool-cases, inl, inr, length, length-append, append_assoc,
}
use cmpe275_enterprise_apps.InMemory.Threads.{Thread, set, count_part, fill, turn, run}

module _ {A : Type 0} where
  set-append :
      (pre suf : List A) (i : ℕ) (v : A) → set (pre ++ suf) (length pre + i) v ≡ pre ++ set suf i v
  set-append [] suf i v = let e : 0 + i ≡ i = omega arith in rw e refl
  set-append (x ∷ pre) suf i v =
      let e : suc (length pre) + i ≡ suc (length pre + i) = omega arith in
      rw e (ap (◌∷◌ x) (set-append pre suf i v))

  set_front :
      (pre : List A) (blank : A) (suf : List A) (i : ℕ) (v : A)
      → i ≡ length pre
      → set (pre ++ blank ∷ suf) i v ≡ pre ++ v ∷ suf
  set_front pre blank suf i v e =
      let e' : i ≡ length pre + 0 = omega (arith, e) in rw e' (set-append pre (blank ∷ suf) 0 v)

module _ {A : Type 0} (val : ℕ → A) (p : ℕ → Bool) where
  -- What is kept of the places that match.
  unfoldable pub found : List ℕ → List A
  found [] = []
  found (i ∷ is) = let rest = found is in if p i then val i ∷ rest else rest

  pub found-append : (xs ys : List ℕ) → found (xs ++ ys) ≡ found xs ++ found ys
  unfolding found
  found-append [] ys = refl
  found-append (i ∷ is) ys = elim (Bool-cases (p i)) [
    | inl hit ↦ rw hit (ap (◌∷◌ (val i)) (found-append is ys))
    | inr miss ↦ rw miss (found-append is ys)
  ]

  pub length-found : (is : List ℕ) → length (found is) ≡ count_part p is
  unfolding found count_part
  length-found [] = refl
  length-found (i ∷ is) = elim (Bool-cases (p i)) [
    | inl hit ↦ rw hit (omega (arith, length-found is))
    | inr miss ↦ rw miss (length-found is)
  ]

module _ {A : Type 0} (z : A) (val : ℕ → A) (p : ℕ → Bool) where
  -- The region of one thread, from place `b` on: what it has written, and as many places as it
  -- still has matches.
  pub record Region (b : ℕ) (rest : List ℕ) (pos : ℕ) (part : List ℕ) (region : List A)
      : Type 0 where
    pub done : List A
    pub blank : List A
    pub cut : region ≡ done ++ blank
    pub kept : found val p part ≡ done ++ found val p rest
    pub left : length blank ≡ length (found val p rest)
    pub place : pos ≡ b + length done

  -- The vector from place `b` on, region by region.
  abbrev pub Regions : ℕ → List Thread → List (List ℕ) → List A → Type 0
  Regions b [] [] out = out ≡ []
  Regions b [] (part ∷ parts) out = ⊥
  Regions b (t ∷ ts) [] out = ⊥
  Regions b (t ∷ ts) (part ∷ parts) out =
      (region : List A) × (behind : List A) × (out ≡ region ++ behind)
      × Region b t.rest t.pos part region
      × Regions (b + length region) ts parts behind

  uncons : (xs : List A) (n : ℕ) → length xs ≡ suc n → (x : A) × (ys : List A) × (xs ≡ x ∷ ys)
  uncons [] n h = absurd (omega arith)
  uncons (x ∷ xs) n h = (x, xs, refl)

  -- A place that matches goes into the region of its thread.
  write-Region :
      (pre done blanks behind full : List A) (blank : A) (pos i : ℕ)
      → full ≡ pre ++ ((done ++ blank ∷ blanks) ++ behind)
      → pos ≡ length pre + length done
      → set full pos (val i) ≡ pre ++ ((done ++ val i ∷ blanks) ++ behind)
  write-Region pre done blanks behind full blank pos i e place =
      let flat = λ (x : A).
        append_assoc pre done (x ∷ (blanks ++ behind))
        ∙ ap (λ (o : List A). pre ++ o) (sym (append_assoc done (x ∷ blanks) behind)) in
      ap (λ (o : List A). set o pos (val i)) (e ∙ sym (flat blank))
      ∙ set_front (pre ++ done) blank (blanks ++ behind) pos (val i)
          (omega (arith, place, length-append pre done))
      ∙ flat (val i)

  -- One place of one thread changes its own region only.
  fill-Region :
      (pre : List A) (rest : List ℕ) (pos : ℕ) (part : List ℕ) (region behind full : List A)
      → full ≡ pre ++ (region ++ behind)
      → Region (length pre) rest pos part region
      → let (t, full') = fill z val p rest pos full in
        (region' : List A) × (full' ≡ pre ++ (region' ++ behind))
        × (length region' ≡ length region)
        × Region (length pre) t.rest t.pos part region'
  unfolding found
  fill-Region pre [] pos part region behind full e h = (
    region,
    e,
    refl,
    record {
      done = h.done;
      blank = h.blank;
      cut = h.cut;
      kept = h.kept;
      left = h.left;
      place = h.place;
    },
  )
  fill-Region pre (i ∷ is) pos part region behind full e h =
      let kept = h.kept in
      let left = h.left in
      elim (Bool-cases (p i)) [
        | inr miss ↦ rw miss (
          region,
          e,
          refl,
          record {
            done = h.done;
            blank = h.blank;
            cut = h.cut;
            kept = rw miss at kept;
            left = rw miss at left;
            place = h.place;
          },
        )
        | inl hit ↦
            let one_more : length h.blank ≡ suc (length (found val p is)) = rw hit at left in
            let (blank, blanks, split) = uncons h.blank (length (found val p is)) one_more in
            let cut = h.cut ∙ ap (λ (o : List A). h.done ++ o) split in
            let e' = e ∙ ap (λ (o : List A). pre ++ (o ++ behind)) cut in
            rw hit (
              h.done ++ val i ∷ blanks,
              write-Region pre h.done blanks behind full blank pos i e' h.place,
              omega (
                arith,
                ap length cut,
                length-append h.done (val i ∷ blanks),
                length-append h.done (blank ∷ blanks),
              ),
              record {
                done = h.done ++ val i ∷ [];
                blank = blanks;
                cut = sym (append_assoc h.done (val i ∷ []) blanks);
                kept = (rw hit at kept) ∙ sym (append_assoc h.done (val i ∷ []) (found val p is));
                left = omega (arith, one_more, ap length split);
                place = omega (arith, h.place, length-append h.done (val i ∷ []));
              },
            )
      ]

  turn-Regions :
      (ts : List Thread) (parts : List (List ℕ)) (pre out full : List A) (tid : ℕ)
      → full ≡ pre ++ out
      → Regions (length pre) ts parts out
      → let (ts', full') = turn z val p ts full tid in
        (out' : List A) × (full' ≡ pre ++ out') × Regions (length pre) ts' parts out'
  unfolding turn
  turn-Regions [] [] pre out full tid e h = (out, e, h)
  turn-Regions [] (part ∷ parts) pre out full tid e h = elim h [ ]
  turn-Regions (t ∷ ts) [] pre out full tid e h = elim h [ ]
  turn-Regions (t ∷ ts) (part ∷ parts) pre out full zero e (region, behind, cut, mine, others) =
      let e' = e ∙ ap (λ (o : List A). pre ++ o) cut in
      let (region', kept, same, mine') =
        fill-Region pre t.rest t.pos part region behind full e' mine in
      (region' ++ behind, kept, (region', behind, refl, mine', rw same others))
  turn-Regions (t ∷ ts) (part ∷ parts) pre out full (suc tid) e
        (region, behind, cut, mine, others) =
      let e' = e ∙ ap (λ (o : List A). pre ++ o) cut ∙ sym (append_assoc pre region behind) in
      let n = length-append pre region in
      let (behind', kept, others') =
        turn-Regions ts parts (pre ++ region) behind full tid e' (rw n others) in
      (
        region ++ behind',
        kept ∙ append_assoc pre region behind',
        (region, behind', refl, mine, rw n at others'),
      )

  pub run-Regions :
      (ts : List Thread) (parts : List (List ℕ)) (full : List A) (schedule : List ℕ)
      → Regions 0 ts parts full
      → let (ts', full') = run z val p ts full schedule in Regions 0 ts' parts full'
  unfolding run
  run-Regions ts parts full [] h = h
  run-Regions ts parts full (tid ∷ schedule) h =
      let (out, e, h') = turn-Regions ts parts [] full full tid refl h in
      let (ts', full') = turn z val p ts full tid in
      run-Regions ts' parts full' schedule
        (subst (λ (o : List A). Regions 0 ts' parts o) (sym e) h')
