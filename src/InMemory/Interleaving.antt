-- ===== src/InMemory/Interleaving.antt =====
-- The second pass of `executeOpenMP`, in whatever order the threads run.
use cmpe275_enterprise_apps.Common.{
  ℕ, zero, suc, ◌+◌, ◌≤◌, ◌<◌, ◌==◌, Bool, List, [], ◌∷◌, ◌++◌, ◌≡◌, refl, sym, ap, ◌∙◌, arith,
  if◌then◌else◌, Bool-cases, inl, inr, length, length-append, length-replicate, map, if_intro,
  replicate,
}
use cmpe275_enterprise_apps.InMemory.Filling.{
  found, found-append, length-found, Regions, run-Regions,
}
use cmpe275_enterprise_apps.InMemory.Threads.{
  Thread, count_part, offsets, total_of, set, fill, turn, run, execute_openmp,
}

unfoldable pub concat : List (List ℕ) → List ℕ
concat [] = []
concat (part ∷ parts) = part ++ concat parts

-- How many turns a schedule gives a thread.
unfoldable pub turns : ℕ → List ℕ → ℕ
turns tid [] = 0
turns tid (k ∷ schedule) = (if k == tid then 1 else 0) + turns tid schedule

-- Each thread, from number `tid` on, has a turn for each of its places.
abbrev pub HasTurns : ℕ → List (List ℕ) → List ℕ → Type 0
HasTurns tid [] schedule = Unit
HasTurns tid (part ∷ parts) schedule =
    (length part ≤ turns tid schedule) × HasTurns (suc tid) parts schedule

-- Each thread finds as many places in both passes.
abbrev pub HasSameCounts : (ℕ → Bool) → List (List ℕ) → List (List ℕ) → Type 0
HasSameCounts p parts filling = map (count_part p) parts ≡ map (count_part p) filling

module _ {A : Type 0} (z : A) (val : ℕ → A) (p : ℕ → Bool) where
  replicate_add : (m n : ℕ) → replicate (m + n) z ≡ replicate m z ++ replicate n z
  replicate_add zero n = let e : 0 + n ≡ n = omega arith in rw e refl
  replicate_add (suc m) n =
      let e : suc m + n ≡ suc (m + n) = omega arith in rw e (ap (◌∷◌ z) (replicate_add m n))

  offsets-Regions :
      (b : ℕ) (parts : List (List ℕ))
      → Regions z val p b (offsets p b parts parts) parts (replicate (total_of p parts) z)
  unfolding offsets total_of
  offsets-Regions b [] = refl
  offsets-Regions b (part ∷ parts) =
      let n = count_part p part in
      let same = length-replicate n z in
      (
        replicate n z,
        replicate (total_of p parts) z,
        replicate_add n (total_of p parts),
        record {
          done = [];
          blank = replicate n z;
          cut = refl;
          kept = refl;
          left = same ∙ sym (length-found val p part);
          place = omega arith;
        },
        rw same (offsets-Regions (b + n) parts),
      )

  -- Each thread, from number `tid` on, has a turn for each place that it has left.
  abbrev Waits : ℕ → List Thread → List ℕ → Type 0
  Waits tid [] schedule = Unit
  Waits tid (t ∷ ts) schedule = (length t.rest ≤ turns tid schedule) × Waits (suc tid) ts schedule

  offsets-Waits :
      (tid b : ℕ) (parts : List (List ℕ)) (schedule : List ℕ)
      → HasTurns tid parts schedule
      → Waits tid (offsets p b parts parts) schedule
  unfolding offsets
  offsets-Waits tid b [] schedule h = tt
  offsets-Waits tid b (part ∷ parts) schedule h =
      (h.0, offsets-Waits (suc tid) (b + count_part p part) parts schedule h.1)

  -- A turn of a thread before these.
  Waits-skip :
      (tid k : ℕ) (ts : List Thread) (schedule : List ℕ)
      → k < tid
      → Waits tid ts (k ∷ schedule)
      → Waits tid ts schedule
  unfolding turns
  Waits-skip tid k [] schedule lt h = tt
  Waits-skip tid k (t ∷ ts) schedule lt h =
      (ground (arith, h.0), Waits-skip (suc tid) k ts schedule (omega arith) h.1)

  fill_shorter :
      (rest : List ℕ) (pos n : ℕ) (out : List A)
      → length rest ≤ suc n
      → length (fill z val p rest pos out).0.rest ≤ n
  fill_shorter [] pos n out h = omega arith
  fill_shorter (i ∷ is) pos n out h = elim (Bool-cases (p i)) [
    | inl hit ↦ rw hit (omega arith)
    | inr miss ↦ rw miss (omega arith)
  ]

  turn-Waits :
      (tid j k : ℕ) (ts : List Thread) (out : List A) (schedule : List ℕ)
      → k ≡ tid + j
      → Waits tid ts (k ∷ schedule)
      → Waits tid (turn z val p ts out j).0 schedule
  unfolding turn turns
  turn-Waits tid j k [] out schedule e h = tt
  turn-Waits tid zero k (t ∷ ts) out schedule e h = (
    fill_shorter t.rest t.pos (turns tid schedule) out (ground (arith, h.0)),
    Waits-skip (suc tid) k ts schedule (omega arith) h.1,
  )
  turn-Waits tid (suc j) k (t ∷ ts) out schedule e h =
      (ground (arith, h.0), turn-Waits (suc tid) j k ts out schedule (omega arith) h.1)

  run-Waits :
      (ts : List Thread) (out : List A) (schedule : List ℕ)
      → Waits 0 ts schedule
      → Waits 0 (run z val p ts out schedule).0 []
  unfolding run
  run-Waits ts out [] h = h
  run-Waits ts out (tid ∷ schedule) h =
      let (ts', out') = turn z val p ts out tid in
      run-Waits ts' out' schedule (turn-Waits 0 tid tid ts out schedule (omega arith) h)

  -- Where no thread has places left, the vector is full.
  Regions-full :
      (b tid : ℕ) (ts : List Thread) (parts : List (List ℕ)) (out : List A)
      → Regions z val p b ts parts out
      → Waits tid ts []
      → out ≡ found val p (concat parts)
  unfolding concat turns found
  Regions-full b tid [] [] out h w = h
  Regions-full b tid [] (part ∷ parts) out h w = elim h [ ]
  Regions-full b tid (t ∷ ts) [] out h w = elim h [ ]
  Regions-full b tid (t ∷ ts) (part ∷ parts) out (region, behind, cut, mine, others) w =
      cut
      ∙ ap (λ (o : List A). o ++ behind) (whole t.rest mine.blank w.0 mine.cut mine.kept mine.left)
      ∙ ap (λ (o : List A). found val p part ++ o)
          (Regions-full (b + length region) (suc tid) ts parts behind others w.1)
      ∙ sym (found-append val p part (concat parts))
    where
      whole :
          (rest : List ℕ) (blank : List A)
          → length rest ≤ 0
          → region ≡ mine.done ++ blank
          → found val p part ≡ mine.done ++ found val p rest
          → length blank ≡ length (found val p rest)
          → region ≡ found val p part
      whole [] [] none_left c k l = c ∙ sym k
      whole [] (x ∷ xs) none_left c k l = absurd (omega arith)
      whole (i ∷ is) blank none_left c k l = absurd (omega arith)

  -- Only the counts of the first pass matter to the second.
  offsets-same :
      (b : ℕ) (parts filling : List (List ℕ))
      → HasSameCounts p parts filling
      → (offsets p b parts filling ≡ offsets p b filling filling)
        × (total_of p parts ≡ total_of p filling)
  unfolding offsets total_of
  offsets-same b [] [] h = (refl, refl)
  offsets-same b [] (share ∷ filling) h = cc
  offsets-same b (part ∷ parts) [] h = cc
  offsets-same b (part ∷ parts) (share ∷ filling) h =
      let n : count_part p part ≡ count_part p share = cc in
      let (threads, total) = offsets-same (b + count_part p part) parts filling cc in
      (rw n (ap (◌∷◌ (record { rest = share; pos = b })) (rw n at threads)), rw (n, total) refl)

  execute_openmp-once :
      (parts : List (List ℕ)) (schedule : List ℕ)
      → HasTurns 0 parts schedule
      → execute_openmp z val p parts parts schedule ≡ found val p (concat parts)
  unfolding execute_openmp
  execute_openmp-once parts schedule h =
      let ts = offsets p 0 parts parts in
      let out = replicate (total_of p parts) z in
      let (ts', out') = run z val p ts out schedule in
      Regions-full 0 0 ts' parts out'
        (run-Regions z val p ts parts out schedule (offsets-Regions 0 parts))
        (run-Waits ts out schedule (offsets-Waits 0 0 parts schedule h))

  -- The vector holds what is kept of the places of the second pass that match, thread by thread.
  pub execute_openmp-found :
      (parts filling : List (List ℕ)) (schedule : List ℕ)
      → HasSameCounts p parts filling
      → HasTurns 0 filling schedule
      → execute_openmp z val p parts filling schedule ≡ found val p (concat filling)
  unfolding execute_openmp
  execute_openmp-found parts filling schedule same h =
      let (threads, total) = offsets-same 0 parts filling same in
      ap (λ (ts : List Thread). (run z val p ts (replicate (total_of p parts) z) schedule).1)
        threads
      ∙ ap (λ (n : ℕ). (run z val p (offsets p 0 filling filling) (replicate n z) schedule).1) total
      ∙ execute_openmp-once filling schedule h

  length-set : (out : List A) (i : ℕ) (v : A) → length (set out i v) ≡ length out
  length-set [] i v = refl
  length-set (x ∷ xs) zero v = refl
  length-set (x ∷ xs) (suc i) v = ap suc (length-set xs i v)

  length-fill :
      (is : List ℕ) (pos : ℕ) (out : List A) → length (fill z val p is pos out).1 ≡ length out
  length-fill [] pos out = refl
  length-fill (i ∷ is) pos out =
      if_intro (λ (r : Thread × List A). length r.1 ≡ length out) (p i)
        (λ _. length-set out pos (val i)) (λ _. refl)

  length-turn :
      (ts : List Thread) (out : List A) (tid : ℕ) → length (turn z val p ts out tid).1 ≡ length out
  unfolding turn
  length-turn [] out tid = refl
  length-turn (t ∷ ts) out zero = length-fill t.rest t.pos out
  length-turn (t ∷ ts) out (suc tid) = length-turn ts out tid

  length-run :
      (ts : List Thread) (out : List A) (schedule : List ℕ)
      → length (run z val p ts out schedule).1 ≡ length out
  unfolding run
  length-run ts out [] = refl
  length-run ts out (tid ∷ schedule) =
      let (ts', out') = turn z val p ts out tid in
      length-run ts' out' schedule ∙ length-turn ts out tid

  total_of-found : (parts : List (List ℕ)) → total_of p parts ≡ length (found val p (concat parts))
  unfolding total_of concat found
  total_of-found [] = refl
  total_of-found (part ∷ parts) =
      let both = ap length (found-append val p part (concat parts)) in
      let n = length-append (found val p part) (found val p (concat parts)) in
      omega (arith, both, n, length-found val p part, total_of-found parts)

  -- The vector is as long as the first pass says, whatever the second one does.
  pub length-execute_openmp :
      (parts filling : List (List ℕ)) (schedule : List ℕ)
      → length (execute_openmp z val p parts filling schedule) ≡ length (found val p (concat parts))
  unfolding execute_openmp
  length-execute_openmp parts filling schedule =
      length-run (offsets p 0 parts filling) (replicate (total_of p parts) z) schedule
      ∙ length-replicate (total_of p parts) z
      ∙ total_of-found parts
