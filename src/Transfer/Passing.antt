-- ===== src/Transfer/Passing.antt =====
-- Test 1/zad3.c, Test 1/zad3.h: the two processes are never both blocked, and the parent can be
-- brought to its output.
use operating_systems_course.Common.{
  ◌⊎◌, ℕ, zero, suc, ◌+◌, ◌≤◌, ◌<◌, ◌≡◌, refl, ap, ◌∙◌, Bool, true, false, Option, List, [], ◌∷◌,
  ltb, leb, length, length-append, Bytes, arith, Bool-cases, inl, inr,
}
use operating_systems_course.Transfer.Defs.{
  Parent, starting, filling, writing, ending, waiting, printed, Child, reading, measuring, ended,
  State, start, Turn, of_parent, of_child, parent_step, child_step, step, run,
}
use operating_systems_course.Transfer.Phases.{IsLive, parent_step-IsLive, child_step-IsLive}
use operating_systems_course.Transfer.Progress.{
  work, parent_work, at_parent, starting_works, filling_works, child_reads, measuring_works,
}
use operating_systems_course.Transfer.Verdict.{AllSucceed, IsSound, run_keeps-IsSound}

AllSucceed-cons :
    (t : Turn) (turns : List Turn) → AllSucceed (t ∷ []) → AllSucceed turns → AllSucceed (t ∷ turns)
AllSucceed-cons (of_parent succeeds) turns h k = (h.0, k)
AllSucceed-cons of_child turns h k = k

module _ (file : Option Bytes) (block_size capacity : ℕ) where
  -- Who can go on.
  abbrev Advances : State → Type 0
  Advances s =
      (t : Turn) × AllSucceed (t ∷ [])
      × (work file block_size capacity (step file block_size capacity t s)
          < work file block_size capacity s)

  -- At most that many turns lead to an output of PASS.
  abbrev pub CanPass : ℕ → State → Type 0
  CanPass n s =
      (more : List Turn) × AllSucceed more
      × (length more ≤ n)
      × ((run file block_size capacity more s).parent ≡ printed true)

  abbrev Ends : ℕ → State → Type 0
  Ends n s =
      (more : List Turn) × (passed : Bool) × AllSucceed more
      × (length more ≤ n)
      × ((run file block_size capacity more s).parent ≡ printed passed)

  module _ (some_block : 0 < block_size) (block_enters : block_size ≤ capacity) where
    parent_turn :
        (p : Parent) (s : State)
        → s.parent ≡ p
        → work file block_size capacity (parent_step file block_size capacity true p s)
          < work file block_size capacity s
        → Advances s
    unfolding step
    parent_turn p s e h = (of_parent true, (refl, tt), rw (← e) at h)

    child_turn :
        (c : Child) (s : State)
        → s.child ≡ c
        → work file block_size capacity (child_step file block_size capacity c s)
          < work file block_size capacity s
        → Advances s
    unfolding step
    child_turn c s e h = (of_child, tt, rw (← e) at h)

    writing-Advances :
        (block rest : Bytes) (c : Child) (s : State)
        → s.parent ≡ writing block rest
        → s.child ≡ c
        → IsLive file block_size capacity s
        → Advances s
    unfolding step parent_step
    writing-Advances block rest (reading total) s e e' v =
        let fits : (0 < length block) × (length block ≤ block_size) = rw e at v.block_fits in
        let w = at_parent file block_size capacity s (writing block rest) e in
        elim (Bool-cases (leb (length s.pipe + length block) capacity)) [
          | inl room ↦ parent_turn (writing block rest) s e (put room w fits.0)
          | inr full ↦ child_turn (reading total) s e' (
              child_reads file block_size capacity some_block total s e' (λ empty.
                let none_piped : length s.pipe ≡ 0 = ap (λ l. length l) empty in
                absurd (ground (arith, full, fits, none_piped, block_enters))))
        ]
      where
        put :
            leb (length s.pipe + length block) capacity ≡ true
            → parent_work file block_size capacity s.parent
              ≡ parent_work file block_size capacity (writing block rest)
            → 0 < length block
            → work file block_size capacity
                (parent_step file block_size capacity true (writing block rest) s)
              < work file block_size capacity s
        put room w some_byte =
            rw (room, parent_step) (omega (arith, w, some_byte, length-append s.pipe block))
    writing-Advances block rest (measuring total) s e e' v = absurd (rw (e, e') at v.phase)
    writing-Advances block rest (ended status) s e e' v = absurd (rw (e, e') at v.phase)

    waiting-Advances :
        (c : Child) (s : State)
        → s.parent ≡ waiting
        → s.child ≡ c
        → IsLive file block_size capacity s
        → Advances s
    unfolding step parent_step
    waiting-Advances (reading total) s e e' v =
        let off : s.opened ≡ false = rw e at v.end_at in
        child_turn (reading total) s e'
          (child_reads file block_size capacity some_block total s e' (λ empty. off))
    waiting-Advances (measuring total) s e e' v =
        child_turn (measuring total) s e'
          (measuring_works file block_size capacity some_block total s e')
    waiting-Advances (ended status) s e e' v =
        parent_turn waiting s e (go s.child e' (at_parent file block_size capacity s waiting e))
      where
        go :
            (c : Child)
            → c ≡ ended status
            → parent_work file block_size capacity s.parent ≡ 1
            → work file block_size capacity
                (elim c [ ended status ↦ record s { parent = printed (ltb 0 status) } | _ ↦ s ])
              < work file block_size capacity s
        go c e w = rw e (omega (arith, w))

    any-Advances :
        (p : Parent) (s : State)
        → s.parent ≡ p
        → IsLive file block_size capacity s
        → Advances s ⊎ ((v : Bool) × (s.parent ≡ printed v))
    unfolding step parent_step
    any-Advances starting s e v =
        inl (parent_turn starting s e (starting_works file block_size capacity some_block s e))
    any-Advances (filling rest) s e v = inl (
        parent_turn (filling rest) s e (filling_works file block_size capacity some_block rest s e))
    any-Advances (writing block rest) s e v = inl (writing-Advances block rest s.child s e refl v)
    any-Advances ending s e v =
        let w = at_parent file block_size capacity s ending e in
        inl (parent_turn ending s e (omega (arith, w)))
    any-Advances waiting s e v = inl (waiting-Advances s.child s e refl v)
    any-Advances (printed passed) s e v = inr (passed, e)

    step-IsLive :
        (t : Turn) (s : State)
        → IsLive file block_size capacity s
        → IsLive file block_size capacity (step file block_size capacity t s)
    unfolding step
    step-IsLive (of_parent succeeds) s v =
        parent_step-IsLive file block_size capacity some_block succeeds s.parent s refl v
    step-IsLive of_child s v =
        child_step-IsLive file block_size capacity some_block s.child s refl v

    run_keeps-IsLive :
        (turns : List Turn) (s : State)
        → IsLive file block_size capacity s
        → IsLive file block_size capacity (run file block_size capacity turns s)
    unfolding run
    run_keeps-IsLive [] s v = v
    run_keeps-IsLive (t ∷ turns) s v =
        run_keeps-IsLive turns (step file block_size capacity t s) (step-IsLive t s v)

    all-Ends :
        (n : ℕ) (s : State)
        → work file block_size capacity s ≤ n
        → IsLive file block_size capacity s
        → Ends n s
    unfolding run
    all-Ends zero s h v = elim (any-Advances s.parent s refl v) [
      | inr (passed, e) ↦ ([], passed, tt, omega arith, e)
      | inl (t, good, shrinks) ↦ absurd (omega (arith, h, shrinks))
    ]
    all-Ends (suc n) s h v = elim (any-Advances s.parent s refl v) [
      | inr (passed, e) ↦ ([], passed, tt, omega arith, e)
      | inl (t, good, shrinks) ↦
          let (more, passed, good', short, e) =
            all-Ends n (step file block_size capacity t s) (omega (arith, h, shrinks))
              (step-IsLive t s v) in
          (t ∷ more, passed, AllSucceed-cons t more good good', omega (arith, short), e)
    ]

    -- The blocks are not empty and fit the pipe, and no `write` fails, so far: whether the file exists
    -- or not, and however the two processes have interleaved, the parent has not printed anything but
    -- PASS, and there are turns that bring it to print PASS, at most as many as `work` says.
    pub run-CanPass :
        (turns : List Turn)
        → AllSucceed turns
        → ((passed : Bool)
            → (run file block_size capacity turns start).parent ≡ printed passed
            → passed ≡ true)
          × CanPass
              (work file block_size capacity (run file block_size capacity turns start))
              (run file block_size capacity turns start)
    run-CanPass turns h =
        let s = run file block_size capacity turns start in
        let v : IsSound file block_size capacity s =
          run_keeps-IsSound file block_size capacity some_block turns start h
            (record { counted = omega arith; verdict = refl }) in
        let (more, passed, good, short, e) =
          all-Ends (work file block_size capacity s) s (omega arith) (
            run_keeps-IsLive turns start (record { block_fits = tt; end_at = refl; phase = tt })) in
        let w = run_keeps-IsSound file block_size capacity some_block more s good v in
        let pass : passed ≡ true = rw e at w.verdict in
        (λ passed e. rw e at v.verdict, (more, good, short, e ∙ ap printed pass))
