-- ===== src/Integral/Forks.antt =====
-- Lab 6/zad1.c: the children that the parent waits for, and the work that is left.
use operating_systems_course.Common.{
  ℕ, zero, suc, ◌+◌, ◌-◌, ◌*◌, ◌≤◌, ◌<◌, ◌≡◌, ◌≢◌, refl, ap, Bool, false, List, [], ◌∷◌, at_index,
  ltb, ◌==◌, arith, Bool-cases, Option-cases, inl, inr,
}
use operating_systems_course.Integral.Double.{Double}
use operating_systems_course.Integral.Riemann.{calculate_integral}
use operating_systems_course.Integral.Processes.{
  Child, unborn, computing, leaving, exited, Parent, piping, forking, waiting, reading, failed,
  printed, State, exited_count, Turn, of_parent, of_child, share_of, read_pipe, parent_step,
  child_step, step,
}

abbrev pub child_work : Child → ℕ
child_work unborn = 3
child_work computing = 2
child_work leaving = 1
child_work exited = 0

-- What the first n children have left to do.
abbrev pub children_work : ℕ → (ℕ → Child) → ℕ
children_work zero children = 0
children_work (suc n) children = children_work n children + child_work (children n)

children_work_same :
    (n : ℕ) (children : ℕ → Child) (i : ℕ) (c : Child)
    → n ≤ i
    → children_work n (at_index children i c) ≡ children_work n children
children_work_same zero children i c h = refl
children_work_same (suc n) children i c h =
    let other : (n == i) ≡ false = ground (arith, h) in
    rw (other, children_work_same n children i c (omega (arith, h))) refl

pub children_work_moves :
    (n : ℕ) (children : ℕ → Child) (i : ℕ) (c : Child)
    → i < n
    → children_work n (at_index children i c) + child_work (children i)
      ≡ children_work n children + child_work c
children_work_moves zero children i c l = absurd (omega (arith, l))
children_work_moves (suc n) children i c l = elim (Bool-cases (n == i)) [
  | inl same ↦
      let p : n ≡ i = ground arith in
      let e : children_work n (at_index children i c) ≡ children_work n children =
        children_work_same n children i c (omega (arith, p)) in
      let q : child_work (children n) ≡ child_work (children i) =
        ap (λ j. child_work (children j)) p in
      rw same (omega (arith, e, q))
  | inr other ↦
      let rest = children_work_moves n children i c (ground (arith, other, l)) in
      rw other (omega (arith, rest))
]

pub one_not_exited :
    (n : ℕ) (children : ℕ → Child)
    → exited_count n children < n
    → (i : ℕ) × (i < n) × (children i ≢ exited)
one_not_exited zero children h = absurd (omega (arith, h))
one_not_exited (suc n) children h = by_last (children n) refl (λ l. one_not_exited n children l)
  where
    by_last :
        (c : Child)
        → children n ≡ c
        → (exited_count n children < n → (i : ℕ) × (i < n) × (children i ≢ exited))
        → (i : ℕ) × (i < suc n) × (children i ≢ exited)
    by_last unborn e rest = (n, omega arith, λ p. ground (arith, e, p))
    by_last computing e rest = (n, omega arith, λ p. ground (arith, e, p))
    by_last leaving e rest = (n, omega arith, λ p. ground (arith, e, p))
    by_last exited e rest =
        let h' : exited_count n children + 1 < suc n = rw e at h in
        let (i, l, found) = rest (omega (arith, h')) in (i, omega (arith, l), found)

module _ {W : Type 0} ⦃d : Double W⦄ (k : ℕ) (dx : W) where
  abbrev pub parent_work : Parent W → ℕ
  parent_work (piping i) = (k - i) + 6 * k + 8
  parent_work (forking i) = 4 * (k - i) + 2 * k + 6
  parent_work (waiting m) = (k - m) + k + 4
  parent_work (reading i total) = (k - i) + 2
  parent_work failed = 0
  parent_work (printed total) = 0

  abbrev pub work : State W → ℕ
  work s = parent_work s.parent + children_work k s.children

  -- The children that the parent waits for have been forked.
  abbrev pub Forked : Parent W → (ℕ → Child) → Type 0
  Forked (forking i) children = (j : ℕ) → j < i → children j ≢ unborn
  Forked (waiting m) children = (j : ℕ) → j < k → children j ≢ unborn
  Forked (piping i) children = Unit
  Forked (reading i total) children = Unit
  Forked failed children = Unit
  Forked (printed total) children = Unit

  abbrev pub IsForked : State W → Type 0
  IsForked s = Forked s.parent s.children

  Forked-later :
      (p : Parent W) (children : ℕ → Child) (i : ℕ) (c : Child)
      → c ≢ unborn
      → Forked p children
      → Forked p (at_index children i c)
  Forked-later (piping m) children i c u h = tt
  Forked-later (forking m) children i c u h =
      λ j l. elim (Bool-cases (j == i)) [ inl same ↦ rw same u | inr other ↦ rw other (h j l) ]
  Forked-later (waiting m) children i c u h =
      λ j l. elim (Bool-cases (j == i)) [ inl same ↦ rw same u | inr other ↦ rw other (h j l) ]
  Forked-later (reading m total) children i c u h = tt
  Forked-later failed children i c u h = tt
  Forked-later (printed total) children i c u h = tt

  parent_step-IsForked :
      (succeeds : Bool) (p : Parent W) (s : State W)
      → s.parent ≡ p
      → IsForked s
      → IsForked (parent_step k dx succeeds p s)
  unfolding parent_step read_pipe
  parent_step-IsForked succeeds (piping i) s e v = elim (Bool-cases (ltb i k)) [
    | inr all ↦ rw (all, parent_step) (λ j l. absurd (omega (arith, l)))
    | inl more ↦ elim (Bool-cases succeeds) [
      | inl on ↦ rw (more, on, parent_step) tt
      | inr off ↦ rw (more, off, parent_step) tt
    ]
  ]
  parent_step-IsForked succeeds (forking i) s e v =
      let old : (j : ℕ) → j < i → s.children j ≢ unborn = rw e at v in
      elim (Bool-cases (ltb i k)) [
        | inr all ↦ rw (all, parent_step) (λ j l. old j (ground (arith, all, l)))
        | inl more ↦ elim (Bool-cases succeeds) [
          | inr off ↦ rw (more, off, parent_step) tt
          | inl on ↦
              rw (more, on, parent_step)
                (λ j l. elim (Bool-cases (j == i)) [
                  | inl same ↦ rw same (λ p. cc)
                  | inr other ↦ rw other (old j (ground (arith, other, l)))
                ])
        ]
      ]
  parent_step-IsForked succeeds (waiting m) s e v = elim (Bool-cases (ltb m k)) [
    | inr all ↦ rw (all, parent_step) tt
    | inl more ↦ elim (Bool-cases (ltb m (exited_count k s.children))) [
      | inl on ↦ rw (more, on, parent_step) (rw e at v)
      | inr off ↦ rw (more, off, parent_step) v
    ]
  ]
  parent_step-IsForked succeeds (reading i total) s e v = elim (Bool-cases (ltb i k)) [
    | inr all ↦ rw (all, parent_step) tt
    | inl more ↦ rw (more, parent_step) (read_forked (s.pipes i) refl)
  ]
    where
      read_forked : (q : List W) → s.pipes i ≡ q → IsForked (read_pipe i total s)
      read_forked [] c = rw (c, read_pipe) tt
      read_forked (r ∷ rest) c = rw (c, read_pipe) tt
  parent_step-IsForked succeeds failed s e v = v
  parent_step-IsForked succeeds (printed total) s e v = v

  child_step-IsForked :
      (fuel i : ℕ) (c : Child) (s : State W) → IsForked s → IsForked (child_step k dx fuel i c s)
  unfolding child_step
  child_step-IsForked fuel i unborn s v = v
  child_step-IsForked fuel i computing s v =
      let t = share_of k dx i in
      elim (Option-cases (calculate_integral fuel t.a t.b dx)) [
        | inl n ↦ rw (child_step, n) v
        | inr (r, n) ↦ rw (child_step, n) (Forked-later s.parent s.children i leaving (λ p. cc) v)
      ]
  child_step-IsForked fuel i leaving s v = Forked-later s.parent s.children i exited (λ p. cc) v
  child_step-IsForked fuel i exited s v = v

  pub step-IsForked : (t : Turn) (s : State W) → IsForked s → IsForked (step k dx t s)
  unfolding step
  step-IsForked (of_parent succeeds) s v = parent_step-IsForked succeeds s.parent s refl v
  step-IsForked (of_child i fuel) s v = child_step-IsForked fuel i (s.children i) s v
