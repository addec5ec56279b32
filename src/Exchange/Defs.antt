-- ===== src/Exchange/Defs.antt =====
-- Test 2/main.c and Test 2/checks.h: the two threads, which run under one mutex and wait on a
-- condition each, and what `main` checks at the end. The calls of pthread functions succeed.
use operating_systems_course.Common.{
  ℕ, zero, suc, ◌+◌, ◌-◌, ◌*◌, ◌/◌, Bool, true, false, not, Option, none, some, List, [], ◌∷◌, ltb,
  ◌==◌, if◌then◌else◌, get_or, set, replicate,
}

abbrev pub buffer_size : ℕ
buffer_size = 10

abbrev pub value_count : ℕ
value_count = 20

-- The addresses of the globals `mutex`, `producer_cond` and `consumer_cond`.
abbrev pub mutex : ℕ
mutex = 1

abbrev pub producer_cond : ℕ
producer_cond = 2

abbrev pub consumer_cond : ℕ
consumer_cond = 3

-- Where a thread stands: before the check of the mutex, before that of the condition, before it
-- takes the mutex in round i or behind a wait that has returned, in the wait of round i, or returned.
pub data Point : Type 0 where
  at_mutex : Point
  at_cond : Point
  looping : ℕ → Point
  asleep : ℕ → Point
  returned : Point

-- The globals of both files; `printed` has a `true` for each PASS and a `false` for each FAIL.
pub record State : Type 0 where
  pub buffer : List ℕ
  pub count : ℕ
  pub processed_value_count : ℕ
  pub processed_value_sum : ℕ
  pub mutex1 : Option ℕ
  pub cond1 : Option ℕ
  pub printed : List Bool
  pub producer : Point
  pub consumer : Point

abbrev pub start : State
start = record {
  buffer = replicate buffer_size 0;
  count = 0;
  processed_value_count = 0;
  processed_value_sum = 0;
  mutex1 = none;
  cond1 = none;
  printed = [];
  producer = at_mutex;
  consumer = at_mutex;
}

unfoldable pub process_value : ℕ → State → State
process_value value s = record s {
  processed_value_sum = s.processed_value_sum + value;
  processed_value_count = s.processed_value_count + 1;
}

-- `check_mutex_producer`, and `check_mutex_consumer`, which differs from it in the text printed.
unfoldable pub check_mutex : ℕ → State → State
check_mutex m s = elim s.mutex1 [
  | none ↦ record s { mutex1 = some m; printed = true ∷ s.printed }
  | some m1 ↦ record s { printed = (m1 == m) ∷ s.printed }
]

-- `check_cond_producer`, and `check_cond_consumer`. The thread that waits on the condition is the
-- one that runs here, so that the broadcast wakes nobody.
unfoldable pub check_cond : ℕ → State → State
check_cond c s = elim s.cond1 [
  | none ↦ record s { cond1 = some c; printed = true ∷ s.printed }
  | some c1 ↦ record s { printed = not (c1 == c) ∷ s.printed }
]

-- `pthread_cond_signal` on the condition that the thread waits on.
abbrev pub wake : Point → Point
wake (asleep i) = looping i
wake p = p

-- `++i` and the test of `for`.
abbrev pub next_round : ℕ → Point
next_round i = if ltb (i + 1) value_count then looping (i + 1) else returned

-- A round of the producer with the mutex, up to its wait or to the unlock.
unfoldable pub produce : ℕ → State → State
produce i s = if s.count == buffer_size then record s { producer = asleep i } else record s {
  buffer = set s.buffer s.count i;
  count = s.count + 1;
  consumer = wake s.consumer;
  producer = next_round i;
}

unfoldable pub consume : ℕ → State → State
consume i s =
    if s.count == 0
    then record s { consumer = asleep i }
    else record (process_value (get_or s.buffer (s.count - 1) 0) s) {
      count = s.count - 1;
      producer = wake s.producer;
      consumer = next_round i;
    }

unfoldable pub producer_step : Point → State → State
producer_step at_mutex s = record (check_mutex mutex s) { producer = at_cond }
producer_step at_cond s = record (check_cond producer_cond s) { producer = looping 0 }
producer_step (looping i) s = produce i s
producer_step (asleep i) s = s
producer_step returned s = s

unfoldable pub consumer_step : Point → State → State
consumer_step at_mutex s = record (check_mutex mutex s) { consumer = at_cond }
consumer_step at_cond s = record (check_cond consumer_cond s) { consumer = looping 0 }
consumer_step (looping i) s = consume i s
consumer_step (asleep i) s = s
consumer_step returned s = s

-- Which thread goes on, or whose wait returns without a signal.
pub data Turn : Type 0 where
  of_producer of_consumer : Turn
  producer_wakes consumer_wakes : Turn

unfoldable pub step : Turn → State → State
step of_producer s = producer_step s.producer s
step of_consumer s = consumer_step s.consumer s
step producer_wakes s = record s { producer = wake s.producer }
step consumer_wakes s = record s { consumer = wake s.consumer }

unfoldable pub run : List Turn → State → State
run [] s = s
run (t ∷ turns) s = run turns (step t s)

abbrev pub can_run : Point → Bool
can_run (asleep i) = false
can_run returned = false
can_run p = true

-- The thread that the scheduler prefers goes on, or the other if that one cannot.
unfoldable pub pick : Bool → State → State
pick prefers_producer s =
    if prefers_producer
    then (if can_run s.producer then step of_producer s else step of_consumer s)
    else if can_run s.consumer
    then step of_consumer s
    else step of_producer s

-- That many turns under a scheduler, with no wait that returns without a signal.
unfoldable pub schedule : ℕ → (ℕ → Bool) → State → State
schedule zero choose s = s
schedule (suc turns) choose s = schedule turns choose (pick (choose turns) s)

unfoldable pub check_results : State → State
check_results s = record s { printed = (s.processed_value_sum == 20 / 2 * (0 + 19)) ∷ s.printed }

unfoldable pub check_wait : State → State
check_wait s = record s { printed = (s.processed_value_count == 20) ∷ s.printed }

-- The end of `main`, behind the two joins.
unfoldable pub finish : State → State
finish s = check_results (check_wait s)
