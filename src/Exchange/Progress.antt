-- ===== src/Exchange/Progress.antt =====
-- Test 2/main.c: every step brings the end nearer, and the threads never both sleep.
use operating_systems_course.Common.{
  ℕ, ◌+◌, ◌-◌, ◌*◌, ◌≤◌, ◌<◌, ◌≡◌, refl, ap, true, false, ◌==◌, arith, Bool-cases, Option-cases,
  inl, inr,
}
use operating_systems_course.Exchange.Defs.{
  Point, at_mutex, at_cond, looping, asleep, returned, State, process_value, check_mutex,
  check_cond, wake, next_round, produce, consume, producer_step, consumer_step, can_run,
}
use operating_systems_course.Exchange.Rounds.{rounds, IsRound, SleepsAt}

-- A bound on the turns that a thread still takes.
abbrev left : Point → ℕ
left at_mutex = 83
left at_cond = 82
left (looping i) = 4 * (20 - i) + 1
left (asleep i) = 4 * (20 - i)
left returned = 0

left-wake : (p : Point) → left (wake p) ≤ left p + 1
left-wake at_mutex = omega arith
left-wake at_cond = omega arith
left-wake (looping i) = omega arith
left-wake (asleep i) = omega arith
left-wake returned = omega arith

left-next_round : (i : ℕ) → i < 20 → left (next_round i) + 4 ≤ left (looping i)
left-next_round i h = ground arith

abbrev pub all_left : State → ℕ
all_left s = left s.producer + left s.consumer

produce_decreases :
    (i : ℕ) (s : State) → s.producer ≡ looping i → i < 20 → all_left (produce i s) < all_left s
unfolding produce
produce_decreases i s e h = elim (Bool-cases (s.count == 10)) [
  | inl full ↦ rw (full, produce) (omega (arith, ap left e))
  | inr room ↦
      rw (room, produce) (omega (arith, ap left e, left-next_round i h, left-wake s.consumer))
]

consume_decreases :
    (i : ℕ) (s : State) → s.consumer ≡ looping i → i < 20 → all_left (consume i s) < all_left s
unfolding consume process_value
consume_decreases i s e h = elim (Bool-cases (s.count == 0)) [
  | inl empty ↦ rw (empty, consume) (omega (arith, ap left e))
  | inr some_values ↦
      rw (some_values, consume)
        (omega (arith, ap left e, left-next_round i h, left-wake s.producer))
]

check_mutex_moves :
    (m : ℕ) (s : State)
    → ((check_mutex m s).producer ≡ s.producer) × ((check_mutex m s).consumer ≡ s.consumer)
unfolding check_mutex
check_mutex_moves m s = elim (Option-cases s.mutex1) [
  | inl n ↦ rw (n, check_mutex) (refl, refl)
  | inr (m1, n) ↦ rw (n, check_mutex) (refl, refl)
]

check_cond_moves :
    (c : ℕ) (s : State)
    → ((check_cond c s).producer ≡ s.producer) × ((check_cond c s).consumer ≡ s.consumer)
unfolding check_cond
check_cond_moves c s = elim (Option-cases s.cond1) [
  | inl n ↦ rw (n, check_cond) (refl, refl)
  | inr (c1, n) ↦ rw (n, check_cond) (refl, refl)
]

pub producer_step_decreases :
    (p : Point) (s : State)
    → s.producer ≡ p
    → IsRound p
    → can_run p ≡ true
    → all_left (producer_step p s) < all_left s
unfolding producer_step
producer_step_decreases at_mutex s e r c =
    omega (arith, ap left e, ap left (check_mutex_moves 1 s).1)
producer_step_decreases at_cond s e r c = omega (arith, ap left e, ap left (check_cond_moves 2 s).1)
producer_step_decreases (looping i) s e r c = produce_decreases i s e r
producer_step_decreases (asleep i) s e r c = cc
producer_step_decreases returned s e r c = cc

pub consumer_step_decreases :
    (p : Point) (s : State)
    → s.consumer ≡ p
    → IsRound p
    → can_run p ≡ true
    → all_left (consumer_step p s) < all_left s
unfolding consumer_step
consumer_step_decreases at_mutex s e r c =
    omega (arith, ap left e, ap left (check_mutex_moves 1 s).0)
consumer_step_decreases at_cond s e r c = omega (arith, ap left e, ap left (check_cond_moves 3 s).0)
consumer_step_decreases (looping i) s e r c = consume_decreases i s e r
consumer_step_decreases (asleep i) s e r c = cc
consumer_step_decreases returned s e r c = cc

-- With both threads stopped, both have returned: neither waits for a signal that does not come.
pub no_deadlock :
    (p q : Point) (count : ℕ)
    → can_run p ≡ false
    → can_run q ≡ false
    → IsRound p
    → IsRound q
    → SleepsAt 10 count p
    → SleepsAt 0 count q
    → count + rounds q ≡ rounds p
    → (p ≡ returned) × (q ≡ returned)
no_deadlock (asleep i) (asleep j) count a b r r' z z' f = absurd (omega arith)
no_deadlock (asleep i) returned count a b r r' z z' f = absurd (omega arith)
no_deadlock returned (asleep j) count a b r r' z z' f = absurd (omega arith)
no_deadlock returned returned count a b r r' z z' f = (refl, refl)
no_deadlock at_mutex q count a b r r' z z' f = cc
no_deadlock at_cond q count a b r r' z z' f = cc
no_deadlock (looping i) q count a b r r' z z' f = cc
no_deadlock p q count a b r r' z z' f = cc
