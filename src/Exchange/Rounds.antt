-- ===== src/Exchange/Rounds.antt =====
-- Test 2/main.c: the sums over the buffer, and what a round of each thread keeps.
use operating_systems_course.Common.{
  ℕ, zero, suc, ◌+◌, ◌-◌, ◌≤◌, ◌<◌, ◌≡◌, ◌≢◌, refl, sym, ap, ◌∙◌, List, [], ◌∷◌, ◌==◌, get_or, set,
  length, length-set, arith, Bool-cases, inl, inr,
}
use operating_systems_course.Exchange.Defs.{
  Point, at_mutex, at_cond, looping, asleep, returned, State, process_value, wake, next_round,
  produce, consume,
}

-- The rounds that a thread has finished.
abbrev pub rounds : Point → ℕ
rounds at_mutex = 0
rounds at_cond = 0
rounds (looping i) = i
rounds (asleep i) = i
rounds returned = 20

abbrev pub IsRound : Point → Type 0
IsRound (looping i) = i < 20
IsRound (asleep i) = i < 20
IsRound p = Unit

-- A thread sleeps only while the buffer has that many values.
abbrev pub SleepsAt : ℕ → ℕ → Point → Type 0
SleepsAt n count (asleep i) = count ≡ n
SleepsAt n count p = Unit

-- The sum of the first n slots, and 0 + 1 + … + (n - 1).
abbrev pub sum_first : ℕ → List ℕ → ℕ
sum_first zero xs = 0
sum_first (suc n) [] = 0
sum_first (suc n) (x ∷ xs) = x + sum_first n xs

abbrev pub total : ℕ → ℕ
total zero = 0
total (suc n) = total n + n

-- The buffer holds the values that were produced and not yet processed, as far as their number and
-- their sum go.
pub record IsRun (s : State) : Type 0 where
  pub slots : length s.buffer ≡ 10
  pub bounded : s.count ≤ 10
  pub producer_round : IsRound s.producer
  pub consumer_round : IsRound s.consumer
  pub flow : s.count + rounds s.consumer ≡ rounds s.producer
  pub counted : s.processed_value_count ≡ rounds s.consumer
  pub summed : s.processed_value_sum + sum_first s.count s.buffer ≡ total (rounds s.producer)
  pub producer_sleeps : SleepsAt 10 s.count s.producer
  pub consumer_sleeps : SleepsAt 0 s.count s.consumer

sum_first-set :
    (n v : ℕ) (xs : List ℕ) → n < length xs → sum_first (suc n) (set xs n v) ≡ sum_first n xs + v
sum_first-set n v [] h = absurd (omega (arith, h))
sum_first-set zero v (x ∷ xs) h = omega arith
sum_first-set (suc n) v (x ∷ xs) h = omega (arith, sum_first-set n v xs (omega (arith, h)))

sum_first-last :
    (n : ℕ) (xs : List ℕ) → n < length xs → sum_first (suc n) xs ≡ sum_first n xs + get_or xs n 0
sum_first-last n [] h = absurd (omega (arith, h))
sum_first-last zero (x ∷ xs) h = omega arith
sum_first-last (suc n) (x ∷ xs) h = omega (arith, sum_first-last n xs (omega (arith, h)))

sum_first-put :
    (n v : ℕ) (xs : List ℕ) → n < length xs → sum_first (n + 1) (set xs n v) ≡ sum_first n xs + v
sum_first-put n v xs h = let next : n + 1 ≡ suc n = omega arith in rw next (sum_first-set n v xs h)

sum_first-take :
    (n : ℕ) (xs : List ℕ)
    → n ≢ 0
    → n ≤ length xs
    → sum_first (n - 1) xs + get_or xs (n - 1) 0 ≡ sum_first n xs
sum_first-take zero xs h k = absurd (h refl)
sum_first-take (suc n) xs h k =
    let last : suc n - 1 ≡ n = omega arith in rw last (sym (sum_first-last n xs (omega (arith, k))))

rounds-next_round : (i : ℕ) → i < 20 → rounds (next_round i) ≡ suc i
rounds-next_round i h = ground arith

next_round-IsRound : (i : ℕ) → IsRound (next_round i)
next_round-IsRound i = ground arith

next_round-SleepsAt : (n count i : ℕ) → SleepsAt n count (next_round i)
next_round-SleepsAt n count i = ground arith

pub rounds-wake : (p : Point) → rounds (wake p) ≡ rounds p
rounds-wake at_mutex = refl
rounds-wake at_cond = refl
rounds-wake (looping i) = refl
rounds-wake (asleep i) = refl
rounds-wake returned = refl

pub wake-IsRound : (p : Point) → IsRound p → IsRound (wake p)
wake-IsRound at_mutex r = r
wake-IsRound at_cond r = r
wake-IsRound (looping i) r = r
wake-IsRound (asleep i) r = r
wake-IsRound returned r = r

pub wake-SleepsAt : (n count : ℕ) (p : Point) → SleepsAt n count (wake p)
wake-SleepsAt n count at_mutex = tt
wake-SleepsAt n count at_cond = tt
wake-SleepsAt n count (looping i) = tt
wake-SleepsAt n count (asleep i) = tt
wake-SleepsAt n count returned = tt

total-next_round : (i : ℕ) → i < 20 → total (rounds (next_round i)) ≡ total i + i
total-next_round i h = ap total (rounds-next_round i h)

put_sum :
    (processed r n i : ℕ) (xs : List ℕ)
    → total r ≡ total i + i
    → n < length xs
    → processed + sum_first n xs ≡ total i
    → processed + sum_first (n + 1) (set xs n i) ≡ total r
put_sum processed r n i xs e h k = omega (arith, sum_first-put n i xs h, e, k)

take_sum :
    (processed t n : ℕ) (xs : List ℕ)
    → n ≢ 0
    → n ≤ length xs
    → processed + sum_first n xs ≡ t
    → processed + get_or xs (n - 1) 0 + sum_first (n - 1) xs ≡ t
take_sum processed t n xs h k e = omega (arith, sum_first-take n xs h k, e)

pub produce-IsRun : (i : ℕ) (s : State) → s.producer ≡ looping i → IsRun s → IsRun (produce i s)
unfolding produce
produce-IsRun i s e v =
    let round : i < 20 = rw e at v.producer_round in
    let flow : s.count + rounds s.consumer ≡ i = rw e at v.flow in
    let summed : s.processed_value_sum + sum_first s.count s.buffer ≡ total i = rw e at v.summed in
    elim (Bool-cases (s.count == 10)) [
      | inl full ↦
          rw (full, produce)
            (record {
              slots = v.slots;
              bounded = v.bounded;
              producer_round = round;
              consumer_round = v.consumer_round;
              flow = flow;
              counted = v.counted;
              summed = summed;
              producer_sleeps = ground arith;
              consumer_sleeps = v.consumer_sleeps;
            })
      | inr room ↦
          let below : s.count < 10 = ground (arith, v.bounded) in
          rw (room, produce)
            (record {
              slots = length-set s.buffer s.count i ∙ v.slots;
              bounded = omega (arith, below);
              producer_round = next_round-IsRound i;
              consumer_round = wake-IsRound s.consumer v.consumer_round;
              flow = omega (arith, rounds-wake s.consumer, rounds-next_round i round, flow);
              counted = omega (arith, rounds-wake s.consumer, v.counted);
              summed =
                  put_sum s.processed_value_sum (rounds (next_round i)) s.count i s.buffer
                    (total-next_round i round) (omega (arith, below, v.slots)) summed;
              producer_sleeps = next_round-SleepsAt 10 (s.count + 1) i;
              consumer_sleeps = wake-SleepsAt 0 (s.count + 1) s.consumer;
            })
    ]

pub consume-IsRun : (i : ℕ) (s : State) → s.consumer ≡ looping i → IsRun s → IsRun (consume i s)
unfolding consume process_value
consume-IsRun i s e v =
    let round : i < 20 = rw e at v.consumer_round in
    let flow : s.count + i ≡ rounds s.producer = rw e at v.flow in
    let counted : s.processed_value_count ≡ i = rw e at v.counted in
    elim (Bool-cases (s.count == 0)) [
      | inl empty ↦
          rw (empty, consume)
            (record {
              slots = v.slots;
              bounded = v.bounded;
              producer_round = v.producer_round;
              consumer_round = round;
              flow = flow;
              counted = counted;
              summed = v.summed;
              producer_sleeps = v.producer_sleeps;
              consumer_sleeps = ground arith;
            })
      | inr some_values ↦
          let some_count : s.count ≢ 0 = λ z. ground arith in
          rw (some_values, consume)
            (record {
              slots = v.slots;
              bounded = omega (arith, v.bounded);
              producer_round = wake-IsRound s.producer v.producer_round;
              consumer_round = next_round-IsRound i;
              flow =
                  omega
                    (arith, rounds-wake s.producer, rounds-next_round i round, flow, some_count);
              counted = omega (arith, rounds-next_round i round, counted);
              summed =
                  take_sum s.processed_value_sum (total (rounds (wake s.producer))) s.count s.buffer
                    some_count (omega (arith, v.bounded, v.slots))
                    (v.summed ∙ sym (ap total (rounds-wake s.producer)));
              producer_sleeps = wake-SleepsAt 10 (s.count - 1) s.producer;
              consumer_sleeps = next_round-SleepsAt 0 (s.count - 1) i;
            })
    ]
