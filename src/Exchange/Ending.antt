-- ===== src/Exchange/Ending.antt =====
-- Test 2/main.c: the program ends, with the results that `main` checks.
use operating_systems_course.Common.{
  ℕ, zero, suc, ◌+◌, ◌<◌, ◌≡◌, ◌⊎◌, refl, ap, ◌∙◌, Bool, true, false, replicate, arith, Bool-cases,
  inl, inr,
}
use operating_systems_course.Exchange.Defs.{
  returned, State, start, producer_step, consumer_step, of_producer, of_consumer, step, can_run,
  pick, schedule, check_results, check_wait, finish,
}
use operating_systems_course.Exchange.Rounds.{rounds, sum_first, total, IsRun}
use operating_systems_course.Exchange.Invariant.{step-IsRun, start-IsRun}
use operating_systems_course.Exchange.Checks.{IsChecked, step-IsChecked, start-IsChecked}
use operating_systems_course.Exchange.Progress.{
  all_left, consumer_step_decreases, no_deadlock, producer_step_decreases,
}

pick_steps :
    (b : Bool) (s : State) → (pick b s ≡ step of_producer s) ⊎ (pick b s ≡ step of_consumer s)
unfolding pick
pick_steps true s = elim (Bool-cases (can_run s.producer)) [
  | inl c ↦ inl (rw (c, pick))
  | inr c ↦ inr (rw (c, pick))
]
pick_steps false s = elim (Bool-cases (can_run s.consumer)) [
  | inl c ↦ inr (rw (c, pick))
  | inr c ↦ inl (rw (c, pick))
]

pick-IsRun : (b : Bool) (s : State) → IsRun s → IsRun (pick b s)
pick-IsRun b s v = elim (pick_steps b s) [
  | inl e ↦ rw e (step-IsRun of_producer s v)
  | inr e ↦ rw e (step-IsRun of_consumer s v)
]

pick-IsChecked : (b : Bool) (s : State) → IsChecked s → IsChecked (pick b s)
pick-IsChecked b s v = elim (pick_steps b s) [
  | inl e ↦ rw e (step-IsChecked of_producer s v)
  | inr e ↦ rw e (step-IsChecked of_consumer s v)
]

producer_decreases :
    (s : State) → IsRun s → can_run s.producer ≡ true → all_left (step of_producer s) < all_left s
unfolding step
producer_decreases s v c = producer_step_decreases s.producer s refl v.producer_round c

consumer_decreases :
    (s : State) → IsRun s → can_run s.consumer ≡ true → all_left (step of_consumer s) < all_left s
unfolding step
consumer_decreases s v c = consumer_step_decreases s.consumer s refl v.consumer_round c

record HasEnded (s : State) : Type 0 where
  producer : s.producer ≡ returned
  consumer : s.consumer ≡ returned

-- A turn brings the end nearer, unless it is reached.
pick_decreases : (b : Bool) (s : State) → IsRun s → HasEnded s ⊎ (all_left (pick b s) < all_left s)
unfolding pick
pick_decreases b s v = elim (Bool-cases (can_run s.producer)) [
  | inl p ↦ elim (Bool-cases (can_run s.consumer)) [
    | inl q ↦ inr (both b p q)
    | inr q ↦ inr (one b p q)
  ]
  | inr p ↦ elim (Bool-cases (can_run s.consumer)) [
    | inl q ↦ inr (other b p q)
    | inr q ↦
        let (r, r') =
          no_deadlock s.producer s.consumer s.count p q v.producer_round v.consumer_round
            v.producer_sleeps v.consumer_sleeps v.flow in
        inl (record { producer = r; consumer = r' })
  ]
]
  where
    both :
        (b : Bool)
        → can_run s.producer ≡ true
        → can_run s.consumer ≡ true
        → all_left (pick b s) < all_left s
    both true p q = rw (p, pick) (producer_decreases s v p)
    both false p q = rw (q, pick) (consumer_decreases s v q)

    one :
        (b : Bool)
        → can_run s.producer ≡ true
        → can_run s.consumer ≡ false
        → all_left (pick b s) < all_left s
    one true p q = rw (p, pick) (producer_decreases s v p)
    one false p q = rw (q, pick) (producer_decreases s v p)

    other :
        (b : Bool)
        → can_run s.producer ≡ false
        → can_run s.consumer ≡ true
        → all_left (pick b s) < all_left s
    other true p q = rw (p, pick) (consumer_decreases s v q)
    other false p q = rw (q, pick) (consumer_decreases s v q)

pick_stays : (b : Bool) (s : State) → HasEnded s → HasEnded (pick b s)
unfolding pick step producer_step consumer_step
pick_stays b s h = elim (pick_steps b s) [
  | inl e ↦
      rw (e, step, h.producer, producer_step) (record { producer = refl; consumer = h.consumer })
  | inr e ↦
      rw (e, step, h.consumer, consumer_step) (record { producer = h.producer; consumer = refl })
]

schedule_stays :
    (turns : ℕ) (choose : ℕ → Bool) (s : State) → HasEnded s → HasEnded (schedule turns choose s)
unfolding schedule
schedule_stays zero choose s h = h
schedule_stays (suc turns) choose s h =
    schedule_stays turns choose (pick (choose turns) s) (pick_stays (choose turns) s h)

schedule_ends :
    (turns : ℕ) (choose : ℕ → Bool) (s : State)
    → IsRun s
    → all_left s < turns
    → HasEnded (schedule turns choose s)
unfolding schedule
schedule_ends zero choose s v h = absurd (omega (arith, h))
schedule_ends (suc turns) choose s v h =
    let t = pick (choose turns) s in
    elim (pick_decreases (choose turns) s v) [
      | inl e ↦ schedule_stays turns choose t (pick_stays (choose turns) s e)
      | inr d ↦ schedule_ends turns choose t (pick-IsRun (choose turns) s v) (omega (arith, h, d))
    ]

schedule_keeps :
    (turns : ℕ) (choose : ℕ → Bool) (s : State)
    → IsRun s
    → IsChecked s
    → IsRun (schedule turns choose s) × IsChecked (schedule turns choose s)
unfolding schedule
schedule_keeps zero choose s v c = (v, c)
schedule_keeps (suc turns) choose s v c =
    schedule_keeps turns choose (pick (choose turns) s) (pick-IsRun (choose turns) s v)
      (pick-IsChecked (choose turns) s c)

finish_passes :
    (s : State) → HasEnded s → IsRun s → IsChecked s → (finish s).printed ≡ replicate 6 true
unfolding finish check_wait check_results
finish_passes s h v c =
    let count : s.count ≡ 0 = omega (arith, v.flow, ap rounds h.producer, ap rounds h.consumer) in
    let number : s.processed_value_count ≡ 20 = v.counted ∙ ap rounds h.consumer in
    let sum : s.processed_value_sum + sum_first s.count s.buffer ≡ 190 =
      v.summed ∙ ap (λ p. total (rounds p)) h.producer in
    let sum' : s.processed_value_sum + 0 ≡ 190 = rw count at sum in
    let sum'' : s.processed_value_sum ≡ 190 = omega (arith, sum') in
    let four : s.printed ≡ replicate 4 true = rw (h.producer, h.consumer) at c.passed in
    rw (number, sum'', four)

-- Under every scheduler that lets a thread go on while one can, though every wait lasts until it is
-- signalled, both threads have returned after 167 turns: there is no deadlock and no signal is
-- lost. Then `main` ends with all six checks passed: 20 values were processed, and their sum is 190.
pub schedule_finishes :
    (choose : ℕ → Bool)
    → let s = schedule 167 choose start in
      (s.producer ≡ returned) × (s.consumer ≡ returned) × ((finish s).printed ≡ replicate 6 true)
schedule_finishes choose =
    let h = schedule_ends 167 choose start start-IsRun (omega arith) in
    let (v, c) = schedule_keeps 167 choose start start-IsRun start-IsChecked in
    (h.producer, h.consumer, finish_passes (schedule 167 choose start) h v c)
