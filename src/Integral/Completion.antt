-- ===== src/Integral/Completion.antt =====
-- Lab 6/zad1.c: the parent and the children never wait for each other for good.
use operating_systems_course.Common.{
  ℕ, ◌<◌, ◌≡◌, ◌≢◌, ◌⊎◌, refl, sym, ap, ◌∙◌, true, Option, none, some, List, [], ◌∷◌, ltb, arith,
  Bool-cases, Option-cases, List-cases, inl, inr, can_end, map,
}
use operating_systems_course.Integral.Double.{Double}
use operating_systems_course.Integral.Riemann.{calculate_integral}
use operating_systems_course.Integral.Gathering.{IsShare, IsTotal}
use operating_systems_course.Integral.Processes.{
  Child, unborn, computing, leaving, exited, Parent, piping, forking, waiting, reading, failed,
  printed, State, start, exited_count, Turn, of_parent, of_child, share_of, read_pipe, parent_step,
  child_step, step, run,
}
use operating_systems_course.Integral.Pipes.{printed-IsTotal}
use operating_systems_course.Integral.Pipes
use operating_systems_course.Integral.Forks.{
  child_work, children_work_moves, one_not_exited, parent_work, work, IsForked, step-IsForked,
}

-- A turn in which no call of `pipe` or `fork` fails: of the parent, or of a child with its fuel.
abbrev pub succeeding : Option (ℕ × ℕ) → Turn
succeeding none = of_parent true
succeeding (some (i, fuel)) = of_child i fuel

module _ {W : Type 0} ⦃d : Double W⦄ (k : ℕ) (dx : W) where
  abbrev GoesOn : State W → Type 0
  GoesOn s = (t : Option (ℕ × ℕ)) × (work k dx (step k dx (succeeding t) s) < work k dx s)

  abbrev pub HasPrinted : State W → Type 0
  HasPrinted s = (w : W) × (s.parent ≡ printed (some w)) × IsTotal (share_of k dx) k w

  module _ (loops_end : (i : ℕ) → i < k → (r : W) × IsShare (share_of k dx i) r) where
    parent_turn :
        (p : Parent W) (s : State W)
        → s.parent ≡ p
        → work k dx (parent_step k dx true p s) < work k dx s
        → GoesOn s
    unfolding step
    parent_turn p s e h = (none, rw (← e) at h)

    child_turn :
        (fuel i : ℕ) (c : Child) (s : State W)
        → s.children i ≡ c
        → work k dx (child_step k dx fuel i c s) < work k dx s
        → GoesOn s
    unfolding step
    child_turn fuel i c s e h = (some (i, fuel), rw (← e) at h)

    child-GoesOn :
        (i : ℕ) (c : Child) (s : State W)
        → i < k
        → s.children i ≡ c
        → c ≢ unborn
        → c ≢ exited
        → GoesOn s
    unfolding child_step
    child-GoesOn i unborn s l e u x = absurd (u refl)
    child-GoesOn i computing s l e u x =
        let (r, (fuel, n)) = loops_end i l in
        let w = children_work_moves k s.children i leaving l in
        let old : child_work (s.children i) ≡ 2 = ap child_work e in
        child_turn fuel i computing s e (rw (child_step, n) (omega (arith, w, old)))
    child-GoesOn i leaving s l e u x =
        let w = children_work_moves k s.children i exited l in
        let old : child_work (s.children i) ≡ 1 = ap child_work e in
        child_turn 0 i leaving s e (omega (arith, w, old))
    child-GoesOn i exited s l e u x = absurd (x refl)

    piping-GoesOn : (i : ℕ) (s : State W) → s.parent ≡ piping i → GoesOn s
    unfolding parent_step
    piping-GoesOn i s e =
        let w : parent_work k dx s.parent ≡ parent_work k dx (piping i) = ap (parent_work k dx) e in
        parent_turn (piping i) s e (elim (Bool-cases (ltb i k)) [
          | inr all ↦ rw (all, parent_step) (omega (arith, w))
          | inl more ↦ rw (more, parent_step) (ground (arith, more, w))
        ])

    forking-GoesOn : (i : ℕ) (s : State W) → s.parent ≡ forking i → GoesOn s
    unfolding parent_step
    forking-GoesOn i s e =
        let w : parent_work k dx s.parent ≡ parent_work k dx (forking i) =
          ap (parent_work k dx) e in
        parent_turn (forking i) s e (elim (Bool-cases (ltb i k)) [
          | inr all ↦ rw (all, parent_step) (omega (arith, w))
          | inl more ↦
              let l : i < k = ground arith in
              let c = children_work_moves k s.children i computing l in
              rw (more, parent_step) (omega (arith, l, w, c))
        ])

    waiting-GoesOn : (m : ℕ) (s : State W) → s.parent ≡ waiting m → IsForked k dx s → GoesOn s
    unfolding parent_step
    waiting-GoesOn m s e v =
        let w : parent_work k dx s.parent ≡ parent_work k dx (waiting m) =
          ap (parent_work k dx) e in
        let born : (j : ℕ) → j < k → s.children j ≢ unborn = rw e at v in
        elim (Bool-cases (ltb m k)) [
          | inr all ↦ parent_turn (waiting m) s e (rw (all, parent_step) (omega (arith, w)))
          | inl more ↦ elim (Bool-cases (ltb m (exited_count k s.children))) [
            | inl on ↦
                let l : m < k = ground arith in
                parent_turn (waiting m) s e (rw (more, on, parent_step) (omega (arith, l, w)))
            | inr off ↦
                let (i, l, x) = one_not_exited k s.children (ground (arith, more, off)) in
                child-GoesOn i (s.children i) s l refl (born i l) x
          ]
        ]

    reading-GoesOn :
        (i : ℕ) (total : Option W) (s : State W) → s.parent ≡ reading i total → GoesOn s
    unfolding parent_step read_pipe
    reading-GoesOn i total s e =
        let w : parent_work k dx s.parent ≡ parent_work k dx (reading i total) =
          ap (parent_work k dx) e in
        elim (Bool-cases (ltb i k)) [
          | inr all ↦ parent_turn (reading i total) s e (rw (all, parent_step) (omega (arith, w)))
          | inl more ↦
              let l : i < k = ground arith in
              parent_turn (reading i total) s e (
                rw (more, parent_step)
                  (elim (List-cases (s.pipes i)) [
                    | inl none_there ↦ rw (none_there, read_pipe) (omega (arith, l, w))
                    | inr (r, rest, c) ↦ rw (c, read_pipe) (omega (arith, l, w))
                  ]))
        ]

    not_failed :
        (p : Parent W) (s : State W)
        → p ≢ failed
        → s.parent ≡ p
        → (parent_step k dx true p s).parent ≢ failed
    unfolding parent_step read_pipe
    not_failed (piping i) s h e = elim (Bool-cases (ltb i k)) [
      | inl more ↦ rw (more, parent_step) (λ p. cc)
      | inr all ↦ rw (all, parent_step) (λ p. cc)
    ]
    not_failed (forking i) s h e = elim (Bool-cases (ltb i k)) [
      | inl more ↦ rw (more, parent_step) (λ p. cc)
      | inr all ↦ rw (all, parent_step) (λ p. cc)
    ]
    not_failed (waiting m) s h e = elim (Bool-cases (ltb m k)) [
      | inr all ↦ rw (all, parent_step) (λ p. cc)
      | inl more ↦ elim (Bool-cases (ltb m (exited_count k s.children))) [
        | inl on ↦ rw (more, on, parent_step) (λ p. cc)
        | inr off ↦ rw (more, off, parent_step) (λ p. h (sym e ∙ p))
      ]
    ]
    not_failed (reading i total) s h e = elim (Bool-cases (ltb i k)) [
      | inr all ↦ rw (all, parent_step) (λ p. cc)
      | inl more ↦
          rw (more, parent_step)
            (elim (List-cases (s.pipes i)) [
              | inl none_there ↦ rw (none_there, read_pipe) (λ p. cc)
              | inr (r, rest, c) ↦ rw (c, read_pipe) (λ p. cc)
            ])
    ]
    not_failed failed s h e = absurd (h refl)
    not_failed (printed total) s h e = λ p. h (sym e ∙ p)

    child_keeps_parent :
        (fuel i : ℕ) (c : Child) (s : State W) → (child_step k dx fuel i c s).parent ≡ s.parent
    unfolding child_step
    child_keeps_parent fuel i unborn s = refl
    child_keeps_parent fuel i computing s =
        let t = share_of k dx i in
        elim (Option-cases (calculate_integral fuel t.a t.b dx)) [
          | inl n ↦ rw (child_step, n) refl
          | inr (r, n) ↦ rw (child_step, n) refl
        ]
    child_keeps_parent fuel i leaving s = refl
    child_keeps_parent fuel i exited s = refl

    record IsGood (s : State W) : Type 0 where
      sound : Pipes.IsSound k dx s
      forked : IsForked k dx s
      alive : s.parent ≢ failed

    step-IsGood :
        (t : Option (ℕ × ℕ)) (s : State W) → IsGood s → IsGood (step k dx (succeeding t) s)
    unfolding step run
    step-IsGood none s v = record {
      sound = Pipes.run_keeps-IsSound k dx (of_parent true ∷ []) s v.sound;
      forked = step-IsForked k dx (of_parent true) s v.forked;
      alive = not_failed s.parent s v.alive refl;
    }
    step-IsGood (some (i, fuel)) s v = record {
      sound = Pipes.run_keeps-IsSound k dx (of_child i fuel ∷ []) s v.sound;
      forked = step-IsForked k dx (of_child i fuel) s v.forked;
      alive = λ p. v.alive (sym (child_keeps_parent fuel i (s.children i) s) ∙ p);
    }

    goes_on : (p : Parent W) (s : State W) → s.parent ≡ p → IsGood s → GoesOn s ⊎ HasPrinted s
    goes_on (piping i) s e v = inl (piping-GoesOn i s e)
    goes_on (forking i) s e v = inl (forking-GoesOn i s e)
    goes_on (waiting m) s e v = inl (waiting-GoesOn m s e v.forked)
    goes_on (reading i total) s e v = inl (reading-GoesOn i total s e)
    goes_on failed s e v = absurd (v.alive e)
    goes_on (printed total) s e v =
        let (w, q, sum) = rw e at v.sound.parent in inr (w, e ∙ ap printed q, sum)

    run_keeps-IsForked :
        (turns : List Turn) (s : State W) → IsForked k dx s → IsForked k dx (run k dx turns s)
    unfolding run
    run_keeps-IsForked [] s v = v
    run_keeps-IsForked (t ∷ turns) s v =
        run_keeps-IsForked turns (step k dx t s) (step-IsForked k dx t s v)

    -- The integral of every share ends. However the parent and the k children have interleaved, and
    -- unless `pipe` or `fork` has failed, there are turns that bring the parent to print, and what it
    -- then prints, or has printed before, is the sum of the shares [i/k, (i+1)/k] for i from 0 to
    -- k - 1, added from left to right.
    pub run-HasPrinted :
        (turns : List Turn)
        → (run k dx turns start).parent ≢ failed
        → (more : List (Option (ℕ × ℕ))) × HasPrinted
            (run k dx (map succeeding more) (run k dx turns start))
    unfolding run
    run-HasPrinted turns alive =
        can_end (λ t s. step k dx (succeeding t) s) (λ more s. run k dx (map succeeding more) s)
          (λ s. refl) (λ t more s. refl) (work k dx) IsGood HasPrinted step-IsGood
          (λ s v. goes_on s.parent s refl v) (run k dx turns start)
          (record {
            sound = Pipes.run_keeps-IsSound k dx turns start (Pipes.start-IsSound k dx);
            forked = run_keeps-IsForked turns start tt;
            alive = alive;
          })
