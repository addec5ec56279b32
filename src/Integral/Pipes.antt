-- ===== src/Integral/Pipes.antt =====
-- Lab 6/zad1.c: every read finds its result, and what is printed is the sum of the shares.
use operating_systems_course.Common.{
  ℕ, zero, suc, ◌+◌, ◌≤◌, ◌<◌, ◌≡◌, ◌≢◌, refl, Bool, true, false, Option, some, List, [], ◌∷◌, ◌++◌,
  at_index, ltb, ◌==◌, arith, Bool-cases, Option-cases, inl, inr,
}
use operating_systems_course.Integral.Double.{Double, number}
use operating_systems_course.Integral.Riemann.{calculate_integral}
use operating_systems_course.Integral.Gathering.{IsShare, IsTotal}
use operating_systems_course.Integral.Processes.{
  Child, unborn, computing, leaving, exited, Parent, piping, forking, waiting, reading, failed,
  printed, State, start, exited_count, Turn, of_parent, of_child, share_of, read_pipe, parent_step,
  child_step, step, run,
}

exited_count_le : (n : ℕ) (children : ℕ → Child) → exited_count n children ≤ n
exited_count_le zero children = omega arith
exited_count_le (suc n) children = ground (arith, exited_count_le n children)

all_exited :
    (n : ℕ) (children : ℕ → Child)
    → n ≤ exited_count n children
    → (j : ℕ) → j < n
    → children j ≡ exited
all_exited zero children h j l = absurd (omega (arith, l))
all_exited (suc n) children h j l = elim (Bool-cases (j == n)) [
  | inl same ↦ let p : j ≡ n = ground arith in rw p (ground (arith, exited_count_le n children, h))
  | inr other ↦
      all_exited n children (ground (arith, exited_count_le n children, h)) j (ground arith)
]

-- A child that had not exited moves on.
exited_count_rises :
    (n : ℕ) (children : ℕ → Child) (i : ℕ) (c : Child)
    → children i ≢ exited
    → exited_count n children ≤ exited_count n (at_index children i c)
exited_count_rises zero children i c h = omega arith
exited_count_rises (suc n) children i c h = elim (Bool-cases (n == i)) [
  | inl same ↦
      let p : n ≡ i = ground arith in
      let h' : children n ≢ exited = rw p h in
      rw same (ground (arith, exited_count_rises n children i c h, h'))
  | inr other ↦ rw other (omega (arith, exited_count_rises n children i c h))
]

module _ {W : Type 0} ⦃d : Double W⦄ (k : ℕ) (dx : W) where
  -- What is in the pipe of child i, until the parent reads it.
  abbrev pub At : ℕ → Child → List W → Type 0
  At i unborn pipe = pipe ≡ []
  At i computing pipe = pipe ≡ []
  At i leaving pipe = (r : W) × (pipe ≡ r ∷ []) × IsShare (share_of k dx i) r
  At i exited pipe = (r : W) × (pipe ≡ r ∷ []) × IsShare (share_of k dx i) r

  abbrev pub next_read : Parent W → ℕ
  next_read (reading i total) = i
  next_read (printed total) = k
  next_read p = 0

  abbrev pub ParentAt : Parent W → (ℕ → Child) → Type 0
  ParentAt (piping i) children = (j : ℕ) → 0 ≤ j → children j ≡ unborn
  ParentAt (forking i) children = (j : ℕ) → i ≤ j → children j ≡ unborn
  ParentAt (waiting m) children = m ≤ exited_count k children
  ParentAt (reading i total) children =
      ((j : ℕ) → j < k → children j ≡ exited)
      × ((w : W) × (total ≡ some w) × IsTotal (share_of k dx) i w)
      × (i ≤ k)
  ParentAt failed children = Unit
  ParentAt (printed total) children = (w : W) × (total ≡ some w) × IsTotal (share_of k dx) k w

  pub record IsSound (s : State W) : Type 0 where
    pub at : (i : ℕ) → next_read s.parent ≤ i → At i (s.children i) (s.pipes i)
    pub parent : ParentAt s.parent s.children

  -- A step of a child that has not exited keeps what the parent relies on.
  ParentAt-later :
      (p : Parent W) (children : ℕ → Child) (i : ℕ) (c : Child)
      → children i ≢ unborn
      → children i ≢ exited
      → ParentAt p children
      → ParentAt p (at_index children i c)
  ParentAt-later (piping m) children i c u x h = absurd (u (h i (omega arith)))
  ParentAt-later (forking m) children i c u x h = λ j l. elim (Bool-cases (j == i)) [
    | inl same ↦ let q : j ≡ i = ground arith in absurd (u (rw q at (h j l)))
    | inr other ↦ rw other (h j l)
  ]
  ParentAt-later (waiting m) children i c u x h =
      omega (arith, h, exited_count_rises k children i c x)
  ParentAt-later (reading m total) children i c u x h = (
    λ j l. elim (Bool-cases (j == i)) [
      | inl same ↦ let q : j ≡ i = ground arith in absurd (x (rw q at (h.0 j l)))
      | inr other ↦ rw other (h.0 j l)
    ],
    h.1,
    h.2,
  )
  ParentAt-later failed children i c u x h = h
  ParentAt-later (printed total) children i c u x h = h

  module _ (s : State W) (v : IsSound s) where
    forked-IsSound :
        (i : ℕ)
        → s.parent ≡ forking i
        → IsSound
            (record s { children = at_index s.children i computing; parent = forking (i + 1) })
    forked-IsSound i e =
        let new : (j : ℕ) → i ≤ j → s.children j ≡ unborn = rw e at v.parent in
        let old : (j : ℕ) → 0 ≤ j → At j (s.children j) (s.pipes j) = rw e at v.at in
        record {
          at = λ j h. elim (Bool-cases (j == i)) [
            | inl same ↦
                let p : j ≡ i = ground arith in
                rw (same, p) (rw (new i (omega arith)) at (old i (omega arith)))
            | inr other ↦ rw other (old j h)
          ];
          parent = λ j h. ground (arith, new j);
        }

    read-IsSound :
        (i : ℕ) (total : Option W)
        → s.parent ≡ reading i total
        → i < k
        → IsSound (read_pipe i total s)
    unfolding read_pipe
    read-IsSound i total e l =
        let (all, (w, q, t), b) = rw e at v.parent in
        let old : (j : ℕ) → i ≤ j → At j (s.children j) (s.pipes j) = rw e at v.at in
        let (r, p, share) = rw (all i l) at (old i (omega arith)) in
        let one_more : i + 1 ≡ suc i = omega arith in
        rw (read_pipe, p, q)
          (record {
            at = λ j h. elim (Bool-cases (j == i)) [
              | inl same ↦ absurd (ground arith)
              | inr other ↦ rw other (old j (omega (arith, h)))
            ];
            parent = (all, (d.add w r, refl, rw one_more (w, r, t, share, refl)), omega (arith, l));
          })

    all_read-IsSound :
        (i : ℕ) (total : Option W)
        → s.parent ≡ reading i total
        → ltb i k ≡ false
        → IsSound (record s { parent = printed total })
    all_read-IsSound i total e all =
        let (exits, (w, q, t), b) = rw e at v.parent in
        let old : (j : ℕ) → i ≤ j → At j (s.children j) (s.pipes j) = rw e at v.at in
        let last : i ≡ k = ground (arith, b, all) in
        record { at = λ j h. old j (omega (arith, last, h)); parent = (w, q, rw last at t) }

    piped-IsSound :
        (succeeds : Bool) (i : ℕ)
        → s.parent ≡ piping i
        → IsSound (parent_step k dx succeeds (piping i) s)
    unfolding parent_step
    piped-IsSound succeeds i e =
        let new : (j : ℕ) → 0 ≤ j → s.children j ≡ unborn = rw e at v.parent in
        let old : (j : ℕ) → 0 ≤ j → At j (s.children j) (s.pipes j) = rw e at v.at in
        elim (Bool-cases (ltb i k)) [
          | inr all ↦ rw (all, parent_step) (record { at = old; parent = new })
          | inl more ↦ elim (Bool-cases succeeds) [
            | inl on ↦ rw (more, on, parent_step) (record { at = old; parent = new })
            | inr off ↦ rw (more, off, parent_step) (record { at = old; parent = tt })
          ]
        ]

    forking-IsSound :
        (succeeds : Bool) (i : ℕ)
        → s.parent ≡ forking i
        → IsSound (parent_step k dx succeeds (forking i) s)
    unfolding parent_step
    forking-IsSound succeeds i e =
        let old : (j : ℕ) → 0 ≤ j → At j (s.children j) (s.pipes j) = rw e at v.at in
        elim (Bool-cases (ltb i k)) [
          | inr all ↦ rw (all, parent_step) (record { at = old; parent = omega arith })
          | inl more ↦ elim (Bool-cases succeeds) [
            | inl on ↦ rw (more, on, parent_step) (forked-IsSound i e)
            | inr off ↦ rw (more, off, parent_step) (record { at = old; parent = tt })
          ]
        ]

    waited-IsSound :
        (succeeds : Bool) (m : ℕ)
        → s.parent ≡ waiting m
        → IsSound (parent_step k dx succeeds (waiting m) s)
    unfolding parent_step
    waited-IsSound succeeds m e =
        let enough : m ≤ exited_count k s.children = rw e at v.parent in
        let old : (j : ℕ) → 0 ≤ j → At j (s.children j) (s.pipes j) = rw e at v.at in
        elim (Bool-cases (ltb m k)) [
          | inr all ↦
              rw (all, parent_step)
                (record {
                  at = old;
                  parent = (
                    all_exited k s.children (ground (arith, enough, all)),
                    (number 0, refl, refl),
                    omega arith,
                  );
                })
          | inl more ↦ elim (Bool-cases (ltb m (exited_count k s.children))) [
            | inl exits ↦
                rw (more, exits, parent_step) (record { at = old; parent = ground (arith, exits) })
            | inr off ↦ rw (more, off, parent_step) v
          ]
        ]

    parent_step-IsSound :
        (succeeds : Bool) (p : Parent W) → s.parent ≡ p → IsSound (parent_step k dx succeeds p s)
    unfolding parent_step
    parent_step-IsSound succeeds (piping i) e = piped-IsSound succeeds i e
    parent_step-IsSound succeeds (forking i) e = forking-IsSound succeeds i e
    parent_step-IsSound succeeds (waiting m) e = waited-IsSound succeeds m e
    parent_step-IsSound succeeds (reading i total) e = elim (Bool-cases (ltb i k)) [
      | inl more ↦ rw (more, parent_step) (read-IsSound i total e (ground arith))
      | inr all ↦ rw (all, parent_step) (all_read-IsSound i total e all)
    ]
    parent_step-IsSound succeeds failed e = v
    parent_step-IsSound succeeds (printed total) e = v

    -- A child that moves, with what its pipe then holds.
    moved-IsSound :
        (i : ℕ) (c : Child) (pipes : ℕ → List W)
        → s.children i ≢ unborn
        → s.children i ≢ exited
        → ((j : ℕ) → (j == i) ≡ false → pipes j ≡ s.pipes j)
        → (next_read s.parent ≤ i → At i c (pipes i))
        → IsSound (record s { pipes = pipes; children = at_index s.children i c })
    moved-IsSound i c pipes u x rest new = record {
      at = λ j h. elim (Bool-cases (j == i)) [
        | inl same ↦ let p : j ≡ i = ground arith in rw (same, p) (new (omega (arith, h, p)))
        | inr other ↦ rw (other, rest j other) (v.at j h)
      ];
      parent = ParentAt-later s.parent s.children i c u x v.parent;
    }

    child_step-IsSound :
        (fuel i : ℕ) (c : Child) → s.children i ≡ c → IsSound (child_step k dx fuel i c s)
    unfolding child_step
    child_step-IsSound fuel i unborn e = v
    child_step-IsSound fuel i computing e =
        let t = share_of k dx i in
        elim (Option-cases (calculate_integral fuel t.a t.b dx)) [
          | inl n ↦ rw (child_step, n) v
          | inr (r, n) ↦
              rw (child_step, n)
                (moved-IsSound i leaving (at_index s.pipes i (s.pipes i ++ r ∷ []))
                  (λ q. ground (arith, e, q)) (λ q. ground (arith, e, q)) (λ j other. rw other refl)
                  (λ h.
                    let empty : s.pipes i ≡ [] = rw e at (v.at i h) in
                    let same : (i == i) ≡ true = ground arith in
                    rw (same, empty) (r, refl, (fuel, n))))
        ]
    child_step-IsSound fuel i leaving e =
        moved-IsSound i exited s.pipes (λ q. ground (arith, e, q)) (λ q. ground (arith, e, q))
          (λ j other. refl) (λ h. rw e at (v.at i h))
    child_step-IsSound fuel i exited e = v

  pub run_keeps-IsSound : (turns : List Turn) (s : State W) → IsSound s → IsSound (run k dx turns s)
  unfolding run step
  run_keeps-IsSound [] s v = v
  run_keeps-IsSound (of_parent succeeds ∷ turns) s v =
      run_keeps-IsSound turns (parent_step k dx succeeds s.parent s)
        (parent_step-IsSound s v succeeds s.parent refl)
  run_keeps-IsSound (of_child i fuel ∷ turns) s v =
      run_keeps-IsSound turns (child_step k dx fuel i (s.children i) s)
        (child_step-IsSound s v fuel i (s.children i) refl)

  pub start-IsSound : IsSound start
  start-IsSound = record { at = λ j h. refl; parent = λ j h. refl }

  -- However the parent and the k children interleave: what is printed, if anything is, is the sum of
  -- the shares [i/k, (i+1)/k] for i from 0 to k - 1, added from left to right; each read found in its
  -- pipe the result of that child.
  pub printed-IsTotal :
      (turns : List Turn) (t : Option W)
      → (run k dx turns start).parent ≡ printed t
      → (w : W) × (t ≡ some w) × IsTotal (share_of k dx) k w
  printed-IsTotal turns t e = rw e at (run_keeps-IsSound turns start start-IsSound).parent
