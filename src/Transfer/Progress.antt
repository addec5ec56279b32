-- ===== src/Transfer/Progress.antt =====
-- Test 1/zad3.c, Test 1/zad3.h: what each step leaves to do.
use operating_systems_course.Common.{
  ℕ, ◌+◌, ◌*◌, ◌≤◌, ◌<◌, ◌≡◌, ap, Bool, true, false, Option, Option-cases, [], ◌∷◌, if◌then◌else◌,
  ◌==◌, length, take, drop, Bytes, arith, List-cases, inl, inr,
}
use operating_systems_course.Transfer.Defs.{
  Parent, starting, filling, writing, ending, waiting, printed, Child, reading, measuring, ended,
  State, parent_step, child_step,
}
use operating_systems_course.Transfer.Verdict.{size, length_cut}
use operating_systems_course.Transfer.Phases.{drop_shrinks}

-- The work that is left to the child behind its loop.
abbrev pub child_work : Child → ℕ
child_work (reading total) = 2
child_work (measuring total) = 1
child_work (ended status) = 0

module _ (file : Option Bytes) (block_size capacity : ℕ) where
  abbrev pub parent_work : Parent → ℕ
  parent_work starting = 3 * size file block_size capacity + 4
  parent_work (filling rest) = 3 * length rest + 3
  parent_work (writing block rest) = 3 * (length block + length rest) + 2
  parent_work ending = 2
  parent_work waiting = 1
  parent_work (printed v) = 0

  -- An upper bound for the number of steps that change something.
  abbrev pub work : State → ℕ
  work s = parent_work s.parent + length s.pipe + child_work s.child

  pub at_parent : (s : State) (p : Parent) → s.parent ≡ p → parent_work s.parent ≡ parent_work p
  at_parent s p e = ap parent_work e

  module _ (some_block : 0 < block_size) where
    pub starting_works :
        (s : State)
        → s.parent ≡ starting
        → work (parent_step file block_size capacity true starting s) < work s
    unfolding parent_step
    starting_works s e =
        let w = at_parent s starting e in
        elim (Option-cases file) [
          | inl gone ↦ rw (gone, parent_step) (omega (arith, rw gone at w))
          | inr (bytes, there) ↦ rw (there, parent_step) (omega (arith, rw there at w))
        ]

    pub filling_works :
        (rest : Bytes) (s : State)
        → s.parent ≡ filling rest
        → work (parent_step file block_size capacity true (filling rest) s) < work s
    unfolding parent_step
    filling_works rest s e =
        let w = at_parent s (filling rest) e in
        elim (List-cases (take block_size rest)) [
          | inl none_left ↦ rw (none_left, parent_step) (omega (arith, w))
          | inr (b, bs, more) ↦
              let cut = length_cut file block_size capacity block_size rest in
              rw (more, parent_step) (omega (arith, w, rw more at cut))
        ]

    reading_works :
        (total b : ℕ) (bs : Bytes) (s : State)
        → s.child ≡ reading total
        → s.pipe ≡ b ∷ bs
        → work (child_step file block_size capacity (reading total) s) < work s
    unfolding child_step
    reading_works total b bs s e c =
        let positive : (block_size == 0) ≡ false = ground (arith, some_block) in
        let w : child_work s.child ≡ 2 = ap child_work e in
        let piped : length s.pipe ≡ length (b ∷ bs) = ap (λ l. length l) c in
        let shrinks = drop_shrinks file block_size capacity block_size b bs some_block in
        rw (positive, child_step) (go s.pipe c w piped shrinks)
      where
        go :
            (q : Bytes)
            → q ≡ b ∷ bs
            → child_work s.child ≡ 2
            → length s.pipe ≡ length (b ∷ bs)
            → length (drop block_size (b ∷ bs)) ≤ length bs
            → work (elim q [
              | [] ↦ if s.opened then s else record s { child = measuring total }
              | b' ∷ bs' ↦ record s {
                pipe = drop block_size (b' ∷ bs');
                child = reading (total + length (take block_size (b' ∷ bs')));
              }
            ])
              < work s
        go q c w piped shrinks = rw c (omega (arith, w, piped, shrinks))

    end_of_file_works :
        (total : ℕ) (s : State)
        → s.child ≡ reading total
        → s.pipe ≡ []
        → s.opened ≡ false
        → work (child_step file block_size capacity (reading total) s) < work s
    unfolding child_step
    end_of_file_works total s e c off =
        let positive : (block_size == 0) ≡ false = ground (arith, some_block) in
        let w : child_work s.child ≡ 2 = ap child_work e in
        rw (positive, child_step) (go s.pipe s.opened c off w)
      where
        go :
            (q : Bytes) (o : Bool)
            → q ≡ []
            → o ≡ false
            → child_work s.child ≡ 2
            → work (elim q [
              | [] ↦ if o then s else record s { child = measuring total }
              | b' ∷ bs' ↦ record s {
                pipe = drop block_size (b' ∷ bs');
                child = reading (total + length (take block_size (b' ∷ bs')));
              }
            ])
              < work s
        go q o c off w = rw (c, off) (omega (arith, w))

    pub measuring_works :
        (total : ℕ) (s : State)
        → s.child ≡ measuring total
        → work (child_step file block_size capacity (measuring total) s) < work s
    unfolding child_step
    measuring_works total s e =
        let w : child_work s.child ≡ 1 = ap child_work e in
        elim (Option-cases file) [
          | inl gone ↦ rw (gone, child_step) (omega (arith, w))
          | inr (bytes, there) ↦ rw (there, child_step) (omega (arith, w))
        ]

    pub child_reads :
        (total : ℕ) (s : State)
        → s.child ≡ reading total
        → (s.pipe ≡ [] → s.opened ≡ false)
        → work (child_step file block_size capacity (reading total) s) < work s
    child_reads total s e eof = elim (List-cases s.pipe) [
      | inl empty ↦ end_of_file_works total s e empty (eof empty)
      | inr (b, bs, c) ↦ reading_works total b bs s e c
    ]
