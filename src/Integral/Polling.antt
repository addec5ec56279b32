-- ===== src/Integral/Polling.antt =====
-- Lab 9/zad1.c: the polling ends, with the sum.
use operating_systems_course.Common.{
  ℕ, ◌+◌, ◌-◌, ◌*◌, ◌<◌, ◌≡◌, ◌≢◌, ◌⊎◌, refl, sym, ap, ◌∙◌, true, Option, none, some, List, [], ◌∷◌,
  ltb, arith, Bool-cases, Option-cases, inl, inr, map, can_end,
}
use operating_systems_course.Integral.Double.{Double}
use operating_systems_course.Integral.Riemann.{calculate_integral}
use operating_systems_course.Integral.Threads.{
  Thread, unborn, computing, announcing, returned, Main, creating, scanning, sleeping, failed,
  printed, State, start, Turn, of_main, of_thread, thread_function, share_of, main_step, step, run,
}
use operating_systems_course.Integral.Gathering
use operating_systems_course.Integral.Gathering.{IsShare, IsTotal}
use operating_systems_course.Integral.Started.{
  thread_work, threads_work, threads_work_moves, one_at_work, IsStarted, step-IsStarted,
  run_keeps-IsStarted,
}

-- A turn in which no call of `pthread_create` fails: of `main`, or of a thread with its fuel.
abbrev pub creating_all : Option (ℕ × ℕ) → Turn
creating_all none = of_main true
creating_all (some (i, fuel)) = of_thread i fuel

module _ {W : Type 0} ⦃d : Double W⦄ (n : ℕ) (dx : W) where
  abbrev main_work : Main W → ℕ
  main_work (creating i) = 4 * (n - i) + n + 5
  main_work (scanning i) = (n - i) + 1
  main_work sleeping = n + 2
  main_work failed = 0
  main_work (printed t) = 0

  abbrev work : State W → ℕ
  work s = main_work s.main + threads_work n s.threads

  abbrev GoesOn : State W → Type 0
  GoesOn s = (t : Option (ℕ × ℕ)) × (work (step n dx (creating_all t) s) < work s)

  abbrev pub HasPrinted : State W → Type 0
  HasPrinted s = (w : W) × (s.main ≡ printed (some w)) × IsTotal (share_of n dx) n w

  module _ (loops_end : (i : ℕ) → i < n → (r : W) × IsShare (share_of n dx i) r) where
    main_turn :
        (m : Main W) (s : State W) → s.main ≡ m → work (main_step n dx true m s) < work s → GoesOn s
    unfolding step
    main_turn m s e h = (none, rw (← e) at h)

    thread_turn :
        (fuel i : ℕ) (p : Thread) (s : State W)
        → s.threads i ≡ p
        → work (thread_function fuel i p s) < work s
        → GoesOn s
    unfolding step
    thread_turn fuel i p s e h = (some (i, fuel), rw (← e) at h)

    thread-GoesOn :
        (i : ℕ) (p : Thread) (s : State W)
        → i < n
        → s.threads i ≡ p
        → p ≢ unborn
        → p ≢ returned
        → Gathering.IsSound n dx s
        → GoesOn s
    unfolding thread_function
    thread-GoesOn i unborn s l e u x v = absurd (u refl)
    thread-GoesOn i computing s l e u x v =
        let (r, (fuel, c)) = loops_end i l in
        let (data_there, off) = rw e at (v.at i) in
        let w = threads_work_moves n s.threads i announcing l in
        let old : thread_work (s.threads i) ≡ 2 = ap thread_work e in
        thread_turn fuel i computing s e
          (rw (data_there, c, thread_function) (omega (arith, w, old)))
    thread-GoesOn i announcing s l e u x v =
        let w = threads_work_moves n s.threads i returned l in
        let old : thread_work (s.threads i) ≡ 1 = ap thread_work e in
        thread_turn 0 i announcing s e (omega (arith, w, old))
    thread-GoesOn i returned s l e u x v = absurd (x refl)

    creating-GoesOn : (i : ℕ) (s : State W) → s.main ≡ creating i → GoesOn s
    unfolding main_step
    creating-GoesOn i s e =
        let w : main_work s.main ≡ main_work (creating i) = ap main_work e in
        main_turn (creating i) s e (elim (Bool-cases (ltb i n)) [
          | inr all ↦ rw (all, main_step) (omega (arith, w))
          | inl more ↦
              let l : i < n = ground arith in
              let c = threads_work_moves n s.threads i computing l in
              rw (more, main_step) (omega (arith, l, w, c))
        ])

    -- While a thread is at work it is its turn, and then that of `main`.
    scanning-GoesOn :
        (i : ℕ) (s : State W)
        → s.main ≡ scanning i
        → Gathering.IsSound n dx s
        → IsStarted n dx s
        → GoesOn s
    unfolding main_step
    scanning-GoesOn i s e v b =
        let w : main_work s.main ≡ main_work (scanning i) = ap main_work e in
        let born : (j : ℕ) → j < n → s.threads j ≢ unborn = rw e at b.created in
        elim (one_at_work n s.threads) [
          | inl (j, l, at_work) ↦ thread-GoesOn j (s.threads j) s l refl (born j l) at_work v
          | inr back ↦ main_turn (scanning i) s e (elim (Bool-cases (ltb i n)) [
            | inr all ↦ rw (all, main_step) (omega (arith, w))
            | inl more ↦
                let l : i < n = ground arith in
                rw (more, b.announced i (back i l), main_step) (omega (arith, l, w))
          ])
        ]

    goes_on :
        (m : Main W) (s : State W)
        → s.main ≡ m
        → m ≢ failed
        → Gathering.IsSound n dx s
        → IsStarted n dx s
        → GoesOn s ⊎ HasPrinted s
    unfolding main_step
    goes_on (creating i) s e a v b = inl (creating-GoesOn i s e)
    goes_on (scanning i) s e a v b = inl (scanning-GoesOn i s e v b)
    goes_on sleeping s e a v b =
        let w : main_work s.main ≡ n + 2 = ap main_work e in
        inl (main_turn sleeping s e (omega (arith, w)))
    goes_on failed s e a v b = absurd (a refl)
    goes_on (printed t) s e a v b =
        let (w, q, sum) = rw e at v.main in inr (w, e ∙ ap printed q, sum)

    not_failed :
        (m : Main W) (s : State W)
        → s.main ≡ m
        → m ≢ failed
        → (main_step n dx true m s).main ≢ failed
    unfolding main_step
    not_failed (creating i) s e h = elim (Bool-cases (ltb i n)) [
      | inl more ↦ rw (more, main_step) (λ p. cc)
      | inr all ↦ rw (all, main_step) (λ p. cc)
    ]
    not_failed (scanning i) s e h = elim (Bool-cases (ltb i n)) [
      | inr all ↦ rw (all, main_step) (λ p. cc)
      | inl more ↦ elim (Bool-cases (s.ready i)) [
        | inl on ↦ rw (more, on, main_step) (λ p. cc)
        | inr off ↦ rw (more, off, main_step) (λ p. cc)
      ]
    ]
    not_failed sleeping s e h = λ p. cc
    not_failed failed s e h = absurd (h refl)
    not_failed (printed t) s e h = λ p. h (sym e ∙ p)

    thread_keeps_main :
        (fuel i : ℕ) (p : Thread) (s : State W) → (thread_function fuel i p s).main ≡ s.main
    unfolding thread_function
    thread_keeps_main fuel i unborn s = refl
    thread_keeps_main fuel i computing s = elim (Option-cases (s.thread_data i)) [
      | inl no_data ↦ rw (no_data, thread_function) refl
      | inr (t, data_there) ↦ elim (Option-cases (calculate_integral fuel t.a t.b t.dx)) [
        | inl c ↦ rw (data_there, c, thread_function) refl
        | inr (r, c) ↦ rw (data_there, c, thread_function) refl
      ]
    ]
    thread_keeps_main fuel i announcing s = refl
    thread_keeps_main fuel i returned s = refl

    record IsGood (s : State W) : Type 0 where
      sound : Gathering.IsSound n dx s
      started : IsStarted n dx s
      alive : s.main ≢ failed

    step-IsGood :
        (t : Option (ℕ × ℕ)) (s : State W) → IsGood s → IsGood (step n dx (creating_all t) s)
    unfolding step run
    step-IsGood none s v = record {
      sound = Gathering.run_keeps-IsSound n dx (of_main true ∷ []) s v.sound;
      started = step-IsStarted n dx (of_main true) s v.started;
      alive = not_failed s.main s refl v.alive;
    }
    step-IsGood (some (i, fuel)) s v = record {
      sound = Gathering.run_keeps-IsSound n dx (of_thread i fuel ∷ []) s v.sound;
      started = step-IsStarted n dx (of_thread i fuel) s v.started;
      alive = λ p. v.alive (sym (thread_keeps_main fuel i (s.threads i) s) ∙ p);
    }

    -- The integral of every share ends. However `main` and the threads have interleaved, and unless
    -- `pthread_create` has failed, there are turns that bring `main` to print, and what it then
    -- prints, or has printed before, was computed from results that had all been stored, and is the
    -- sum of the shares [i * (1/n), (i+1) * (1/n)] for i from 0 to n - 1, added from left to right.
    pub polling-HasPrinted :
        (turns : List Turn)
        → (run n dx turns start).main ≢ failed
        → (more : List (Option (ℕ × ℕ))) × HasPrinted
            (run n dx (map creating_all more) (run n dx turns start))
    unfolding run
    polling-HasPrinted turns alive =
        can_end (λ t s. step n dx (creating_all t) s) (λ more s. run n dx (map creating_all more) s)
          (λ s. refl) (λ t more s. refl) work IsGood HasPrinted step-IsGood
          (λ s v. goes_on s.main s refl v.alive v.sound v.started) (run n dx turns start)
          (record {
            sound = Gathering.run_keeps-IsSound n dx turns start (Gathering.start-IsSound n dx);
            started =
                run_keeps-IsStarted n dx turns start
                  (record { created = λ j l. absurd (omega (arith, l)); announced = λ j q. cc });
            alive = alive;
          })
