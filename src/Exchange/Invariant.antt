-- ===== src/Exchange/Invariant.antt =====
-- Test 2/main.c: what every run of the two threads keeps.
use operating_systems_course.Common.{
  ℕ, ◌≡◌, refl, sym, ap, ◌∙◌, Bool, true, not, Option, some, List, [], ◌∷◌, ◌==◌, arith,
  Option-cases, inl, inr,
}
use operating_systems_course.Exchange.Defs.{
  Point, at_mutex, at_cond, looping, asleep, returned, State, start, check_mutex, check_cond, wake,
  producer_step, consumer_step, Turn, of_producer, of_consumer, producer_wakes, consumer_wakes,
  step, run, mutex, producer_cond, consumer_cond,
}
use operating_systems_course.Exchange.Rounds.{
  IsRound, IsRun, SleepsAt, consume-IsRun, produce-IsRun, rounds, rounds-wake, total, wake-IsRound,
  wake-SleepsAt,
}

-- What the checks leave alone.
abbrev noted : State → Option ℕ → Option ℕ → List Bool → State
noted s m c results = record s { mutex1 = m; cond1 = c; printed = results }

abbrev Noted : State → State → Type 0
Noted s s' = (m c : Option ℕ) × (results : List Bool) × (s' ≡ noted s m c results)

check_mutex-Noted : (m : ℕ) (s : State) → Noted s (check_mutex m s)
unfolding check_mutex
check_mutex-Noted m s = elim (Option-cases s.mutex1) [
  | inl n ↦ (some m, s.cond1, true ∷ s.printed, rw (n, check_mutex))
  | inr (m1, n) ↦ (
    some m1,
    s.cond1,
    (m1 == m) ∷ s.printed,
    rw (n, check_mutex) (ap (λ x. noted s x s.cond1 ((m1 == m) ∷ s.printed)) n),
  )
]

check_cond-Noted : (c : ℕ) (s : State) → Noted s (check_cond c s)
unfolding check_cond
check_cond-Noted c s = elim (Option-cases s.cond1) [
  | inl n ↦ (s.mutex1, some c, true ∷ s.printed, rw (n, check_cond))
  | inr (c1, n) ↦ (
    s.mutex1,
    some c1,
    not (c1 == c) ∷ s.printed,
    rw (n, check_cond) (ap (λ x. noted s s.mutex1 x (not (c1 == c) ∷ s.printed)) n),
  )
]

-- The producer moves to a point of the same round.
producer_moves-IsRun :
    (p : Point) (s s' : State)
    → Noted s s'
    → rounds p ≡ rounds s.producer
    → IsRound p
    → SleepsAt 10 s.count p
    → IsRun s
    → IsRun (record s' { producer = p })
producer_moves-IsRun p s s' (m, c, results, k) e r z v = rw k (record {
  slots = v.slots;
  bounded = v.bounded;
  producer_round = r;
  consumer_round = v.consumer_round;
  flow = v.flow ∙ sym e;
  counted = v.counted;
  summed = v.summed ∙ sym (ap total e);
  producer_sleeps = z;
  consumer_sleeps = v.consumer_sleeps;
})

consumer_moves-IsRun :
    (p : Point) (s s' : State)
    → Noted s s'
    → rounds p ≡ rounds s.consumer
    → IsRound p
    → SleepsAt 0 s.count p
    → IsRun s
    → IsRun (record s' { consumer = p })
consumer_moves-IsRun p s s' (m, c, results, k) e r z v = rw k (record {
  slots = v.slots;
  bounded = v.bounded;
  producer_round = v.producer_round;
  consumer_round = r;
  flow = omega (arith, v.flow, e);
  counted = v.counted ∙ sym e;
  summed = v.summed;
  producer_sleeps = v.producer_sleeps;
  consumer_sleeps = z;
})

producer_step-IsRun : (p : Point) (s : State) → s.producer ≡ p → IsRun s → IsRun (producer_step p s)
unfolding producer_step
producer_step-IsRun at_mutex s e v =
    producer_moves-IsRun at_cond s _ (check_mutex-Noted mutex s) (sym (ap rounds e)) tt tt v
producer_step-IsRun at_cond s e v =
    producer_moves-IsRun (looping 0) s _ (check_cond-Noted producer_cond s) (sym (ap rounds e))
      (omega arith) tt v
producer_step-IsRun (looping i) s e v = produce-IsRun i s e v
producer_step-IsRun (asleep i) s e v = v
producer_step-IsRun returned s e v = v

consumer_step-IsRun : (p : Point) (s : State) → s.consumer ≡ p → IsRun s → IsRun (consumer_step p s)
unfolding consumer_step
consumer_step-IsRun at_mutex s e v =
    consumer_moves-IsRun at_cond s _ (check_mutex-Noted mutex s) (sym (ap rounds e)) tt tt v
consumer_step-IsRun at_cond s e v =
    consumer_moves-IsRun (looping 0) s _ (check_cond-Noted consumer_cond s) (sym (ap rounds e))
      (omega arith) tt v
consumer_step-IsRun (looping i) s e v = consume-IsRun i s e v
consumer_step-IsRun (asleep i) s e v = v
consumer_step-IsRun returned s e v = v

pub step-IsRun : (t : Turn) (s : State) → IsRun s → IsRun (step t s)
unfolding step
step-IsRun of_producer s v = producer_step-IsRun s.producer s refl v
step-IsRun of_consumer s v = consumer_step-IsRun s.consumer s refl v
step-IsRun producer_wakes s v =
    producer_moves-IsRun (wake s.producer) s s (s.mutex1, s.cond1, s.printed, refl)
      (rounds-wake s.producer) (wake-IsRound s.producer v.producer_round)
      (wake-SleepsAt 10 s.count s.producer) v
step-IsRun consumer_wakes s v =
    consumer_moves-IsRun (wake s.consumer) s s (s.mutex1, s.cond1, s.printed, refl)
      (rounds-wake s.consumer) (wake-IsRound s.consumer v.consumer_round)
      (wake-SleepsAt 0 s.count s.consumer) v

run_keeps-IsRun : (turns : List Turn) (s : State) → IsRun s → IsRun (run turns s)
unfolding run
run_keeps-IsRun [] s v = v
run_keeps-IsRun (t ∷ turns) s v = run_keeps-IsRun turns (step t s) (step-IsRun t s v)

pub start-IsRun : IsRun start
start-IsRun = record {
  slots = refl;
  bounded = omega arith;
  producer_round = tt;
  consumer_round = tt;
  flow = refl;
  counted = refl;
  summed = refl;
  producer_sleeps = tt;
  consumer_sleeps = tt;
}

-- At any moment of any run, with waits that return at any time: `count` is between 0 and the size of
-- the buffer and is the number of values produced and not yet processed, their sum is that of the
-- slots below `count`, and a thread sleeps only while the buffer is full, or empty.
pub run-IsRun : (turns : List Turn) → IsRun (run turns start)
run-IsRun turns = run_keeps-IsRun turns start start-IsRun
