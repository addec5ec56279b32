-- ===== src/Integral/Threads.antt =====
-- Lab 9/zad1.c: the threads, and the main thread that polls the array `ready`. The steps of the
-- threads interleave between any two accesses to the shared arrays, which are sequentially consistent.
use operating_systems_course.Common.{
  ℕ, zero, suc, ◌+◌, Bool, true, false, Option, none, some, List, [], ◌∷◌, at_index, ltb,
  if◌then◌else◌,
}
use operating_systems_course.Integral.Double.{Double, number}
use operating_systems_course.Integral.Riemann.{calculate_integral}

-- The fields of `ThreadData` but the two pointers, which are to the entries of the same index.
pub record ThreadData {ℓ} (W : Type ℓ) : Type ℓ where
  pub a : W
  pub b : W
  pub dx : W

-- Where a thread stands: not created, before its result is stored, before `ready` is set, returned.
pub data Thread : Type 0 where
  unborn computing announcing returned : Thread

-- Where `main` stands: before the creation of thread i, before its look at `ready[i]`, in
-- `nanosleep`, returned because a thread could not be created, or behind the sum.
pub data Main {ℓ} (W : Type ℓ) : Type ℓ where
  creating : ℕ → Main W
  scanning : ℕ → Main W
  sleeping : Main W
  failed : Main W
  printed : Option W → Main W

-- In an array of doubles or of data, `none` is an entry that was not written yet.
pub record State {ℓ} (W : Type ℓ) : Type ℓ where
  pub thread_data : ℕ → Option (ThreadData W)
  pub results : ℕ → Option W
  pub ready : ℕ → Bool
  pub threads : ℕ → Thread
  pub main : Main W

abbrev pub start {ℓ} : {W : Type ℓ} → State W
start = record {
  thread_data = λ i. none;
  results = λ i. none;
  ready = λ i. false;
  threads = λ i. unborn;
  main = creating 0;
}

-- Who goes on: `main`, with whether `pthread_create` succeeds, should it be called, or thread i, for
-- so many rounds of its loop.
pub data Turn : Type 0 where
  of_main : Bool → Turn
  of_thread : ℕ → ℕ → Turn

module _ {ℓ} {W : Type ℓ} ⦃d : Double W⦄ where
  -- `total += results[i]` for the first n; `none` if one of them was never written.
  unfoldable pub sum_results : ℕ → (ℕ → Option W) → Option W
  sum_results zero results = some (number 0)
  sum_results (suc n) results = elim (sum_results n results) [
    | none ↦ none
    | some total ↦ elim (results n) [ none ↦ none | some r ↦ some (d.add total r) ]
  ]

  -- `thread_function`, with the fuel of this turn.
  unfoldable pub thread_function : ℕ → ℕ → Thread → State W → State W
  thread_function fuel i unborn s = s
  thread_function fuel i computing s = elim (s.thread_data i) [
    | none ↦ s
    | some t ↦ elim (calculate_integral fuel t.a t.b t.dx) [
      | none ↦ s
      | some r ↦ record s {
        results = at_index s.results i (some r);
        threads = at_index s.threads i announcing;
      }
    ]
  ]
  thread_function fuel i announcing s = record s {
    ready = at_index s.ready i true;
    threads = at_index s.threads i returned;
  }
  thread_function fuel i returned s = s

  -- The share of thread i of n.
  abbrev pub share_of : ℕ → W → ℕ → ThreadData W
  share_of n dx i = record {
    a = d.mul (number i) (d.div (number 1) (number n));
    b = d.mul (number (i + 1)) (d.div (number 1) (number n));
    dx = dx;
  }

  module _ (num_threads : ℕ) (dx : W) where
    -- A step of `main`.
    unfoldable pub main_step : Bool → Main W → State W → State W
    main_step created (creating i) s =
        if ltb i num_threads
        then (if created
            then record s {
              thread_data = at_index s.thread_data i (some (share_of num_threads dx i));
              threads = at_index s.threads i computing;
              main = creating (i + 1);
            }
            else record s {
              thread_data = at_index s.thread_data i (some (share_of num_threads dx i));
              main = failed;
            })
        else record s { main = scanning 0 }
    main_step created (scanning i) s =
        if ltb i num_threads
        then (if s.ready i
            then record s { main = scanning (i + 1) }
            else record s { main = sleeping })
        else record s { main = printed (sum_results num_threads s.results) }
    main_step created sleeping s = record s { main = scanning 0 }
    main_step created failed s = s
    main_step created (printed t) s = s

    unfoldable pub step : Turn → State W → State W
    step (of_main created) s = main_step created s.main s
    step (of_thread i fuel) s = thread_function fuel i (s.threads i) s

    unfoldable pub run : List Turn → State W → State W
    run [] s = s
    run (t ∷ turns) s = run turns (step t s)
