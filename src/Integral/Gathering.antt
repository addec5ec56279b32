-- ===== src/Integral/Gathering.antt =====
-- Lab 9/zad1.c: what `main` prints is the sum of the shares.
use operating_systems_course.Common.{
  ℕ, zero, suc, ◌+◌, ◌≤◌, ◌<◌, ◌≡◌, ◌≢◌, refl, Bool, true, false, Option, some, List, [], ◌∷◌,
  at_index, ltb, ◌==◌, arith, Bool-cases, Option-cases, inl, inr,
}
use operating_systems_course.Integral.Double.{Double, number}
use operating_systems_course.Integral.Riemann.{calculate_integral}
use operating_systems_course.Integral.Threads.{
  ThreadData, Thread, unborn, computing, announcing, returned, Main, creating, scanning, sleeping,
  failed, printed, State, start, Turn, of_main, of_thread, sum_results, thread_function, share_of,
  main_step, step, run,
}

module _ {ℓ} {W : Type ℓ} ⦃d : Double W⦄ where
  -- The loop of `calculate_integral` on that share ends with r.
  abbrev pub IsShare : ThreadData W → W → Type ℓ
  IsShare t r = (fuel : ℕ) × (calculate_integral fuel t.a t.b t.dx ≡ some r)

  -- The sum of the first n shares, from left to right.
  abbrev pub IsTotal : (ℕ → ThreadData W) → ℕ → W → Type ℓ
  IsTotal shares zero t = t ≡ number 0
  IsTotal shares (suc n) t =
      (before : W) × (r : W) × IsTotal shares n before × IsShare (shares n) r × (t ≡ d.add before r)

  sum_results-IsTotal :
      (shares : ℕ → ThreadData W) (n : ℕ) (results : ℕ → Option W)
      → ((i : ℕ) → i < n → (r : W) × (results i ≡ some r) × IsShare (shares i) r)
      → (t : W) × (sum_results n results ≡ some t) × IsTotal shares n t
  unfolding sum_results
  sum_results-IsTotal shares zero results h = (number 0, refl, refl)
  sum_results-IsTotal shares (suc n) results h =
      let (before, e, k) = sum_results-IsTotal shares n results (λ i l. h i (omega (arith, l))) in
      let (r, e', k') = h n (omega arith) in
      (d.add before r, rw (e, e', sum_results), (before, r, k, k', refl))

module _ {W : Type 0} ⦃d : Double W⦄ (n : ℕ) (dx : W) where
  -- What thread i has left in the arrays, by where it stands.
  abbrev pub At : ℕ → Thread → Option (ThreadData W) → Option W → Bool → Type 0
  At i unborn t result is_ready = is_ready ≡ false
  At i computing t result is_ready = (t ≡ some (share_of n dx i)) × (is_ready ≡ false)
  At i announcing t result is_ready = (r : W) × (result ≡ some r) × IsShare (share_of n dx i) r
  At i returned t result is_ready = (r : W) × (result ≡ some r) × IsShare (share_of n dx i) r

  abbrev pub MainAt : Main W → (ℕ → Bool) → (ℕ → Thread) → Type 0
  MainAt (creating i) ready threads = (j : ℕ) → i ≤ j → threads j ≡ unborn
  MainAt (scanning i) ready threads = (j : ℕ) → j < i → ready j ≡ true
  MainAt sleeping ready threads = Unit
  MainAt failed ready threads = Unit
  MainAt (printed t) ready threads = (w : W) × (t ≡ some w) × IsTotal (share_of n dx) n w

  pub record IsSound (s : State W) : Type 0 where
    pub at : (i : ℕ) → At i (s.threads i) (s.thread_data i) (s.results i) (s.ready i)
    pub main : MainAt s.main s.ready s.threads

  At-ready :
      (i : ℕ) (p : Thread) (t : Option (ThreadData W)) (result : Option W) (is_ready : Bool)
      → is_ready ≡ true
      → At i p t result is_ready
      → (r : W) × (result ≡ some r) × IsShare (share_of n dx i) r
  At-ready i unborn t result is_ready e a = cc
  At-ready i computing t result is_ready e a = cc
  At-ready i announcing t result is_ready e a = a
  At-ready i returned t result is_ready e a = a

  -- The creation of thread i: what was noted for it, and the threads before and after.
  module _ (s : State W) (v : IsSound s) (i : ℕ)
      (new : (j : ℕ) → i ≤ j → s.threads j ≡ unborn) where
    made :
        (j : ℕ)
        → At j
            (at_index s.threads i computing j)
            (at_index s.thread_data i (some (share_of n dx i)) j)
            (s.results j)
            (s.ready j)
    made j = elim (Bool-cases (j == i)) [
      | inl same ↦
          let p : j ≡ i = ground arith in rw (same, p) (refl, rw (new i (omega arith)) at (v.at i))
      | inr other ↦ rw other (v.at j)
    ]

    not_made :
        (j : ℕ)
        → At j
            (s.threads j)
            (at_index s.thread_data i (some (share_of n dx i)) j)
            (s.results j)
            (s.ready j)
    not_made j = elim (Bool-cases (j == i)) [
      | inl same ↦
          let p : j ≡ i = ground arith in
          rw (same, p, new i (omega arith)) (rw (new i (omega arith)) at (v.at i))
      | inr other ↦ rw other (v.at j)
    ]

    creating-IsSound : (created : Bool) → IsSound (main_step n dx created (creating i) s)
    unfolding main_step
    creating-IsSound true = elim (Bool-cases (ltb i n)) [
      | inr full ↦
          rw (full, main_step) (record { at = v.at; main = λ j h. absurd (omega (arith, h)) })
      | inl room ↦ rw (room, main_step) (record { at = made; main = λ j h. ground (arith, new j) })
    ]
    creating-IsSound false = elim (Bool-cases (ltb i n)) [
      | inr full ↦
          rw (full, main_step) (record { at = v.at; main = λ j h. absurd (omega (arith, h)) })
      | inl room ↦ rw (room, main_step) (record { at = not_made; main = tt })
    ]

  module _ (s : State W) (v : IsSound s) (i : ℕ) (seen : (j : ℕ) → j < i → s.ready j ≡ true) where
    seen_also : s.ready i ≡ true → (j : ℕ) → j < i + 1 → s.ready j ≡ true
    seen_also on j h = elim (Bool-cases (j == i)) [
      | inl same ↦ let p : j ≡ i = ground arith in rw p on
      | inr other ↦ seen j (ground arith)
    ]

    scanning-IsSound : (created : Bool) → IsSound (main_step n dx created (scanning i) s)
    unfolding main_step
    scanning-IsSound created = elim (Bool-cases (ltb i n)) [
      | inl more ↦ elim (Bool-cases (s.ready i)) [
        | inl on ↦ rw (more, on, main_step) (record { at = v.at; main = seen_also on })
        | inr off ↦ rw (more, off, main_step) (record { at = v.at; main = tt })
      ]
      | inr all ↦
          rw (all, main_step)
            (record {
              at = v.at;
              main = sum_results-IsTotal (share_of n dx) n s.results (λ j l.
                  At-ready j (s.threads j) (s.thread_data j) (s.results j) (s.ready j)
                    (seen j (ground arith)) (v.at j));
            })
    ]

  main_step-IsSound :
      (created : Bool) (m : Main W) (s : State W)
      → s.main ≡ m
      → IsSound s
      → IsSound (main_step n dx created m s)
  unfolding main_step
  main_step-IsSound created (creating i) s e v = creating-IsSound s v i (rw e at v.main) created
  main_step-IsSound created (scanning i) s e v = scanning-IsSound s v i (rw e at v.main) created
  main_step-IsSound created sleeping s e v = record {
    at = v.at;
    main = λ j h. absurd (omega (arith, h));
  }
  main_step-IsSound created failed s e v = v
  main_step-IsSound created (printed t) s e v = v

  -- A thread that was created is not created again, and `ready` only rises.
  MainAt-later :
      (m : Main W) (ready ready' : ℕ → Bool) (threads threads' : ℕ → Thread)
      → ((j : ℕ) → ready j ≡ true → ready' j ≡ true)
      → ((j : ℕ) → threads j ≡ unborn → threads' j ≡ unborn)
      → MainAt m ready threads
      → MainAt m ready' threads'
  MainAt-later (creating i) ready ready' threads threads' up old k = λ j h. old j (k j h)
  MainAt-later (scanning i) ready ready' threads threads' up old k = λ j h. up j (k j h)
  MainAt-later sleeping ready ready' threads threads' up old k = k
  MainAt-later failed ready ready' threads threads' up old k = k
  MainAt-later (printed t) ready ready' threads threads' up old k = k

  still_unborn :
      (threads : ℕ → Thread) (i : ℕ) (p : Thread)
      → threads i ≢ unborn
      → (j : ℕ) → threads j ≡ unborn
      → at_index threads i p j ≡ unborn
  still_unborn threads i p h j e = elim (Bool-cases (j == i)) [
    | inl same ↦ let q : j ≡ i = ground arith in absurd (h (rw q at e))
    | inr other ↦ rw other e
  ]

  computed-IsSound :
      (fuel i : ℕ) (s : State W)
      → s.threads i ≡ computing
      → IsSound s
      → IsSound (thread_function fuel i computing s)
  unfolding thread_function
  computed-IsSound fuel i s e v =
      let (t, off) = rw e at (v.at i) in
      let share = share_of n dx i in
      elim (Option-cases (calculate_integral fuel share.a share.b dx)) [
        | inl c ↦ rw (thread_function, t, c) v
        | inr (r, c) ↦
            rw (thread_function, t, c)
              (record {
                at = λ j. elim (Bool-cases (j == i)) [
                  | inl same ↦ let p : j ≡ i = ground arith in rw (same, p) (r, refl, (fuel, c))
                  | inr other ↦ rw other (v.at j)
                ];
                main =
                    MainAt-later s.main s.ready s.ready s.threads (at_index s.threads i announcing)
                      (λ j h. h) (still_unborn s.threads i announcing (λ u. ground (arith, e, u)))
                      v.main;
              })
      ]

  announced-IsSound :
      (fuel i : ℕ) (s : State W)
      → s.threads i ≡ announcing
      → IsSound s
      → IsSound (thread_function fuel i announcing s)
  unfolding thread_function
  announced-IsSound fuel i s e v =
      let share = rw e at (v.at i) in
      record {
        at = λ j. elim (Bool-cases (j == i)) [
          | inl same ↦ let p : j ≡ i = ground arith in rw (same, p) share
          | inr other ↦ rw other (v.at j)
        ];
        main =
            MainAt-later s.main s.ready (at_index s.ready i true) s.threads
              (at_index s.threads i returned) (λ j h. ground arith)
              (still_unborn s.threads i returned (λ u. ground (arith, e, u))) v.main;
      }

  thread_function-IsSound :
      (fuel i : ℕ) (p : Thread) (s : State W)
      → s.threads i ≡ p
      → IsSound s
      → IsSound (thread_function fuel i p s)
  unfolding thread_function
  thread_function-IsSound fuel i unborn s e v = v
  thread_function-IsSound fuel i computing s e v = computed-IsSound fuel i s e v
  thread_function-IsSound fuel i announcing s e v = announced-IsSound fuel i s e v
  thread_function-IsSound fuel i returned s e v = v

  pub run_keeps-IsSound : (turns : List Turn) (s : State W) → IsSound s → IsSound (run n dx turns s)
  unfolding run step
  run_keeps-IsSound [] s v = v
  run_keeps-IsSound (of_main created ∷ turns) s v =
      run_keeps-IsSound turns (main_step n dx created s.main s)
        (main_step-IsSound created s.main s refl v)
  run_keeps-IsSound (of_thread i fuel ∷ turns) s v =
      run_keeps-IsSound turns (thread_function fuel i (s.threads i) s)
        (thread_function-IsSound fuel i (s.threads i) s refl v)

  pub start-IsSound : IsSound start
  start-IsSound = record { at = λ i. refl; main = λ j h. refl }

  -- However `main` and the threads interleave: what is printed, if anything is, was computed from
  -- results that had all been stored, and is the sum of the shares [i * (1/n), (i+1) * (1/n)] for i
  -- from 0 to n - 1, added from left to right.
  pub run-IsTotal :
      (turns : List Turn) (t : Option W)
      → (run n dx turns start).main ≡ printed t
      → (w : W) × (t ≡ some w) × IsTotal (share_of n dx) n w
  run-IsTotal turns t e = rw e at (run_keeps-IsSound turns start start-IsSound).main
