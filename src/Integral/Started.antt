-- ===== src/Integral/Started.antt =====
-- Lab 9/zad1.c: the threads that `main` polls, and the work that is left.
use operating_systems_course.Common.{
  ℕ, zero, suc, ◌+◌, ◌≤◌, ◌<◌, ◌≡◌, ◌≢◌, ◌⊎◌, refl, ap, Bool, true, false, List, [], ◌∷◌, at_index,
  ltb, ◌==◌, arith, Bool-cases, Option-cases, inl, inr,
}
use operating_systems_course.Integral.Double.{Double}
use operating_systems_course.Integral.Riemann.{calculate_integral}
use operating_systems_course.Integral.Threads.{
  Thread, unborn, computing, announcing, returned, Main, creating, scanning, sleeping, failed,
  printed, State, Turn, of_main, of_thread, thread_function, main_step, step, run,
}

abbrev pub thread_work : Thread → ℕ
thread_work unborn = 3
thread_work computing = 2
thread_work announcing = 1
thread_work returned = 0

-- What the first n threads have left to do.
abbrev pub threads_work : ℕ → (ℕ → Thread) → ℕ
threads_work zero threads = 0
threads_work (suc n) threads = threads_work n threads + thread_work (threads n)

threads_work_same :
    (n : ℕ) (threads : ℕ → Thread) (i : ℕ) (p : Thread)
    → n ≤ i
    → threads_work n (at_index threads i p) ≡ threads_work n threads
threads_work_same zero threads i p h = refl
threads_work_same (suc n) threads i p h =
    let other : (n == i) ≡ false = ground (arith, h) in
    rw (other, threads_work_same n threads i p (omega (arith, h))) refl

pub threads_work_moves :
    (n : ℕ) (threads : ℕ → Thread) (i : ℕ) (p : Thread)
    → i < n
    → threads_work n (at_index threads i p) + thread_work (threads i)
      ≡ threads_work n threads + thread_work p
threads_work_moves zero threads i p l = absurd (omega (arith, l))
threads_work_moves (suc n) threads i p l = elim (Bool-cases (n == i)) [
  | inl same ↦
      let q : n ≡ i = ground arith in
      let e : threads_work n (at_index threads i p) ≡ threads_work n threads =
        threads_work_same n threads i p (omega (arith, q)) in
      let w : thread_work (threads n) ≡ thread_work (threads i) =
        ap (λ j. thread_work (threads j)) q in
      rw same (omega (arith, e, w))
  | inr other ↦
      let rest = threads_work_moves n threads i p (ground (arith, other, l)) in
      rw other (omega (arith, rest))
]

-- One of the first n threads is still at work, or all have returned.
pub one_at_work :
    (n : ℕ) (threads : ℕ → Thread)
    → ((i : ℕ) × (i < n) × (threads i ≢ returned)) ⊎ ((i : ℕ) → i < n → threads i ≡ returned)
one_at_work zero threads = inr (λ i l. absurd (omega (arith, l)))
one_at_work (suc n) threads = by_last (threads n) refl (one_at_work n threads)
  where
    by_last :
        (p : Thread)
        → threads n ≡ p
        → ((i : ℕ) × (i < n) × (threads i ≢ returned)) ⊎ ((i : ℕ) → i < n → threads i ≡ returned)
        → ((i : ℕ) × (i < suc n) × (threads i ≢ returned))
          ⊎ ((i : ℕ) → i < suc n → threads i ≡ returned)
    by_last p e (inl (i, l, at_work)) = inl (i, omega (arith, l), at_work)
    by_last unborn e (inr all) = inl (n, omega arith, λ q. ground (arith, e, q))
    by_last computing e (inr all) = inl (n, omega arith, λ q. ground (arith, e, q))
    by_last announcing e (inr all) = inl (n, omega arith, λ q. ground (arith, e, q))
    by_last returned e (inr all) = inr (λ i l. elim (Bool-cases (i == n)) [
      | inl same ↦ let q : i ≡ n = ground arith in rw q e
      | inr other ↦ all i (ground (arith, other, l))
    ])

module _ {W : Type 0} ⦃d : Double W⦄ (n : ℕ) (dx : W) where
  -- The threads that `main` has created, and what a returned thread has set.
  abbrev pub CreatedBy : Main W → (ℕ → Thread) → Type 0
  CreatedBy (creating i) threads = (j : ℕ) → j < i → threads j ≢ unborn
  CreatedBy (scanning i) threads = (j : ℕ) → j < n → threads j ≢ unborn
  CreatedBy sleeping threads = (j : ℕ) → j < n → threads j ≢ unborn
  CreatedBy failed threads = Unit
  CreatedBy (printed t) threads = Unit

  pub record IsStarted (s : State W) : Type 0 where
    pub created : CreatedBy s.main s.threads
    pub announced : (j : ℕ) → s.threads j ≡ returned → s.ready j ≡ true

  CreatedBy-later :
      (m : Main W) (threads : ℕ → Thread) (i : ℕ) (p : Thread)
      → p ≢ unborn
      → CreatedBy m threads
      → CreatedBy m (at_index threads i p)
  CreatedBy-later (creating m) threads i p u h =
      λ j l. elim (Bool-cases (j == i)) [ inl same ↦ rw same u | inr other ↦ rw other (h j l) ]
  CreatedBy-later (scanning m) threads i p u h =
      λ j l. elim (Bool-cases (j == i)) [ inl same ↦ rw same u | inr other ↦ rw other (h j l) ]
  CreatedBy-later sleeping threads i p u h =
      λ j l. elim (Bool-cases (j == i)) [ inl same ↦ rw same u | inr other ↦ rw other (h j l) ]
  CreatedBy-later failed threads i p u h = tt
  CreatedBy-later (printed t) threads i p u h = tt

  -- A thread that has not returned is at another place.
  still_announced :
      (threads : ℕ → Thread) (ready : ℕ → Bool) (i : ℕ) (p : Thread)
      → p ≢ returned
      → ((j : ℕ) → threads j ≡ returned → ready j ≡ true)
      → (j : ℕ) → at_index threads i p j ≡ returned
      → ready j ≡ true
  still_announced threads ready i p x h j = elim (Bool-cases (j == i)) [
    | inl same ↦ rw same (λ q. absurd (x q))
    | inr other ↦ rw other (h j)
  ]

  main_step-IsStarted :
      (succeeds : Bool) (m : Main W) (s : State W)
      → s.main ≡ m
      → IsStarted s
      → IsStarted (main_step n dx succeeds m s)
  unfolding main_step
  main_step-IsStarted succeeds (creating i) s e v =
      let old : (j : ℕ) → j < i → s.threads j ≢ unborn = rw e at v.created in
      elim (Bool-cases (ltb i n)) [
        | inr all ↦
            rw (all, main_step)
              (record { created = λ j l. old j (ground (arith, all, l)); announced = v.announced })
        | inl more ↦ elim (Bool-cases succeeds) [
          | inr off ↦ rw (more, off, main_step) (record { created = tt; announced = v.announced })
          | inl on ↦
              rw (more, on, main_step)
                (record {
                  created = λ j l. elim (Bool-cases (j == i)) [
                    | inl same ↦ rw same (λ p. cc)
                    | inr other ↦ rw other (old j (ground (arith, other, l)))
                  ];
                  announced = still_announced s.threads s.ready i computing (λ p. cc) v.announced;
                })
        ]
      ]
  main_step-IsStarted succeeds (scanning i) s e v =
      let old : (j : ℕ) → j < n → s.threads j ≢ unborn = rw e at v.created in
      elim (Bool-cases (ltb i n)) [
        | inr all ↦ rw (all, main_step) (record { created = tt; announced = v.announced })
        | inl more ↦ elim (Bool-cases (s.ready i)) [
          | inl on ↦ rw (more, on, main_step) (record { created = old; announced = v.announced })
          | inr off ↦ rw (more, off, main_step) (record { created = old; announced = v.announced })
        ]
      ]
  main_step-IsStarted succeeds sleeping s e v =
      let old : (j : ℕ) → j < n → s.threads j ≢ unborn = rw e at v.created in
      record { created = old; announced = v.announced }
  main_step-IsStarted succeeds failed s e v = v
  main_step-IsStarted succeeds (printed t) s e v = v

  thread_function-IsStarted :
      (fuel i : ℕ) (p : Thread) (s : State W) → IsStarted s → IsStarted (thread_function fuel i p s)
  unfolding thread_function
  thread_function-IsStarted fuel i unborn s v = v
  thread_function-IsStarted fuel i computing s v = elim (Option-cases (s.thread_data i)) [
    | inl no_data ↦ rw (no_data, thread_function) v
    | inr (t, data_there) ↦ elim (Option-cases (calculate_integral fuel t.a t.b t.dx)) [
      | inl c ↦ rw (data_there, c, thread_function) v
      | inr (r, c) ↦
          rw (data_there, c, thread_function)
            (record {
              created = CreatedBy-later s.main s.threads i announcing (λ p. cc) v.created;
              announced = still_announced s.threads s.ready i announcing (λ p. cc) v.announced;
            })
    ]
  ]
  thread_function-IsStarted fuel i announcing s v = record {
    created = CreatedBy-later s.main s.threads i returned (λ p. cc) v.created;
    announced = λ j. elim (Bool-cases (j == i)) [
      | inl same ↦ rw same (λ q. refl)
      | inr other ↦ rw other (v.announced j)
    ];
  }
  thread_function-IsStarted fuel i returned s v = v

  pub step-IsStarted : (t : Turn) (s : State W) → IsStarted s → IsStarted (step n dx t s)
  unfolding step
  step-IsStarted (of_main succeeds) s v = main_step-IsStarted succeeds s.main s refl v
  step-IsStarted (of_thread i fuel) s v = thread_function-IsStarted fuel i (s.threads i) s v

  pub run_keeps-IsStarted :
      (turns : List Turn) (s : State W) → IsStarted s → IsStarted (run n dx turns s)
  unfolding run
  run_keeps-IsStarted [] s v = v
  run_keeps-IsStarted (t ∷ turns) s v =
      run_keeps-IsStarted turns (step n dx t s) (step-IsStarted t s v)
