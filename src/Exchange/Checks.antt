-- ===== src/Exchange/Checks.antt =====
-- Test 2/checks.h: the checks that the two threads make before their loops.
use operating_systems_course.Common.{
  ℕ, suc, ◌+◌, ◌≡◌, ◌≢◌, ◌⊎◌, refl, sym, ap, ◌∙◌, Bool, true, not, Option, none, some, List, ◌∷◌,
  ◌==◌, replicate, arith, Bool-cases, Option-cases, inl, inr,
}
use operating_systems_course.Exchange.Defs.{
  Point, at_mutex, at_cond, looping, asleep, returned, State, start, process_value, check_mutex,
  check_cond, wake, next_round, produce, consume, producer_step, consumer_step, Turn, of_producer,
  of_consumer, producer_wakes, consumer_wakes, step, mutex, producer_cond, consumer_cond,
}

-- The checks that a thread has made.
abbrev pub checks : Point → ℕ
checks at_mutex = 0
checks at_cond = 1
checks p = 2

abbrev IsMutex : Option ℕ → Type 0
IsMutex none = Unit
IsMutex (some m) = m ≡ mutex

-- The condition that was noted is that of a thread which has checked it.
abbrev IsCond : Option ℕ → Point → Point → Type 0
IsCond none p q = Unit
IsCond (some c) p q =
    ((c ≡ producer_cond) × (checks p ≡ 2)) ⊎ ((c ≡ consumer_cond) × (checks q ≡ 2))

pub record IsChecked (s : State) : Type 0 where
  pub passed : s.printed ≡ replicate (checks s.producer + checks s.consumer) true
  one_mutex : IsMutex s.mutex1
  two_conds : IsCond s.cond1 s.producer s.consumer

checks-wake : (p : Point) → checks (wake p) ≡ checks p
checks-wake at_mutex = refl
checks-wake at_cond = refl
checks-wake (looping i) = refl
checks-wake (asleep i) = refl
checks-wake returned = refl

checks-next_round : (i : ℕ) → checks (next_round i) ≡ 2
checks-next_round i = ground arith

-- The threads stand as many checks on.
moved-IsChecked :
    (s s' : State)
    → checks s'.producer ≡ checks s.producer
    → checks s'.consumer ≡ checks s.consumer
    → s'.printed ≡ s.printed
    → s'.mutex1 ≡ s.mutex1
    → s'.cond1 ≡ s.cond1
    → IsChecked s
    → IsChecked s'
moved-IsChecked s s' p q r m c v = record {
  passed = r ∙ rw (p, q) v.passed;
  one_mutex = rw m v.one_mutex;
  two_conds = rw c (kept s.cond1 v.two_conds);
}
  where
    kept : (c : Option ℕ) → IsCond c s.producer s.consumer → IsCond c s'.producer s'.consumer
    kept none k = k
    kept (some c) k = ground arith

one_more :
    (printed : List Bool) (n m : ℕ)
    → printed ≡ replicate n true
    → m ≡ suc n
    → true ∷ printed ≡ replicate m true
one_more printed n m e k = rw k (ap (λ t. true ∷ t) e)

same_test : (m n : ℕ) → m ≡ n → (m == n) ≡ true
same_test m n e = ground arith

other_test : (m n : ℕ) → m ≢ n → not (m == n) ≡ true
other_test m n e = ground arith

producer_at_mutex :
    (s : State) → s.producer ≡ at_mutex → IsChecked s → IsChecked (producer_step at_mutex s)
unfolding producer_step check_mutex
producer_at_mutex s e v = elim (Option-cases s.mutex1) [
  | inl n ↦
      rw (n, producer_step, check_mutex)
        (record {
          passed = one_more s.printed _ _ v.passed (omega (arith, ap checks e));
          one_mutex = refl;
          two_conds = kept s.cond1 v.two_conds;
        })
  | inr (m, n) ↦
      let k : m ≡ mutex = rw n at v.one_mutex in
      rw (n, producer_step, check_mutex, same_test m mutex k)
        (record {
          passed = one_more s.printed _ _ v.passed (omega (arith, ap checks e));
          one_mutex = rw n k;
          two_conds = kept s.cond1 v.two_conds;
        })
]
  where
    kept : (c : Option ℕ) → IsCond c s.producer s.consumer → IsCond c at_cond s.consumer
    kept none k = k
    kept (some c) k = ground arith

producer_at_cond :
    (s : State) → s.producer ≡ at_cond → IsChecked s → IsChecked (producer_step at_cond s)
unfolding producer_step check_cond
producer_at_cond s e v = elim (Option-cases s.cond1) [
  | inl n ↦
      rw (n, producer_step, check_cond)
        (record {
          passed = one_more s.printed _ _ v.passed (omega (arith, ap checks e));
          one_mutex = v.one_mutex;
          two_conds = inl (refl, refl);
        })
  | inr (c, n) ↦
      let k : IsCond (some c) at_cond s.consumer = rw (n, e) at v.two_conds in
      let other : c ≢ producer_cond = ground arith in
      rw (n, producer_step, check_cond, other_test c producer_cond other)
        (record {
          passed = one_more s.printed _ _ v.passed (omega (arith, ap checks e));
          one_mutex = v.one_mutex;
          two_conds = rw n (ground arith);
        })
]

consumer_at_mutex :
    (s : State) → s.consumer ≡ at_mutex → IsChecked s → IsChecked (consumer_step at_mutex s)
unfolding consumer_step check_mutex
consumer_at_mutex s e v = elim (Option-cases s.mutex1) [
  | inl n ↦
      rw (n, consumer_step, check_mutex)
        (record {
          passed = one_more s.printed _ _ v.passed (omega (arith, ap checks e));
          one_mutex = refl;
          two_conds = kept s.cond1 v.two_conds;
        })
  | inr (m, n) ↦
      let k : m ≡ mutex = rw n at v.one_mutex in
      rw (n, consumer_step, check_mutex, same_test m mutex k)
        (record {
          passed = one_more s.printed _ _ v.passed (omega (arith, ap checks e));
          one_mutex = rw n k;
          two_conds = kept s.cond1 v.two_conds;
        })
]
  where
    kept : (c : Option ℕ) → IsCond c s.producer s.consumer → IsCond c s.producer at_cond
    kept none k = k
    kept (some c) k = ground arith

consumer_at_cond :
    (s : State) → s.consumer ≡ at_cond → IsChecked s → IsChecked (consumer_step at_cond s)
unfolding consumer_step check_cond
consumer_at_cond s e v = elim (Option-cases s.cond1) [
  | inl n ↦
      rw (n, consumer_step, check_cond)
        (record {
          passed = one_more s.printed _ _ v.passed (omega (arith, ap checks e));
          one_mutex = v.one_mutex;
          two_conds = inr (refl, refl);
        })
  | inr (c, n) ↦
      let k : IsCond (some c) s.producer at_cond = rw (n, e) at v.two_conds in
      let other : c ≢ consumer_cond = ground arith in
      rw (n, consumer_step, check_cond, other_test c consumer_cond other)
        (record {
          passed = one_more s.printed _ _ v.passed (omega (arith, ap checks e));
          one_mutex = v.one_mutex;
          two_conds = rw n (ground arith);
        })
]

producer_loops :
    (i : ℕ) (s : State) → s.producer ≡ looping i → IsChecked s → IsChecked (produce i s)
unfolding produce
producer_loops i s e v = elim (Bool-cases (s.count == 10)) [
  | inl full ↦ rw (full, produce) (moved-IsChecked s _ (sym (ap checks e)) refl refl refl refl v)
  | inr room ↦
      rw (room, produce)
        (moved-IsChecked s _ (checks-next_round i ∙ sym (ap checks e)) (checks-wake s.consumer) refl
          refl refl v)
]

consumer_loops :
    (i : ℕ) (s : State) → s.consumer ≡ looping i → IsChecked s → IsChecked (consume i s)
unfolding consume process_value
consumer_loops i s e v = elim (Bool-cases (s.count == 0)) [
  | inl empty ↦ rw (empty, consume) (moved-IsChecked s _ refl (sym (ap checks e)) refl refl refl v)
  | inr some_values ↦
      rw (some_values, consume)
        (moved-IsChecked s _ (checks-wake s.producer) (checks-next_round i ∙ sym (ap checks e)) refl
          refl refl v)
]

producer_step-IsChecked :
    (p : Point) (s : State) → s.producer ≡ p → IsChecked s → IsChecked (producer_step p s)
unfolding producer_step
producer_step-IsChecked at_mutex s e v = producer_at_mutex s e v
producer_step-IsChecked at_cond s e v = producer_at_cond s e v
producer_step-IsChecked (looping i) s e v = producer_loops i s e v
producer_step-IsChecked (asleep i) s e v = v
producer_step-IsChecked returned s e v = v

consumer_step-IsChecked :
    (p : Point) (s : State) → s.consumer ≡ p → IsChecked s → IsChecked (consumer_step p s)
unfolding consumer_step
consumer_step-IsChecked at_mutex s e v = consumer_at_mutex s e v
consumer_step-IsChecked at_cond s e v = consumer_at_cond s e v
consumer_step-IsChecked (looping i) s e v = consumer_loops i s e v
consumer_step-IsChecked (asleep i) s e v = v
consumer_step-IsChecked returned s e v = v

pub step-IsChecked : (t : Turn) (s : State) → IsChecked s → IsChecked (step t s)
unfolding step
step-IsChecked of_producer s v = producer_step-IsChecked s.producer s refl v
step-IsChecked of_consumer s v = consumer_step-IsChecked s.consumer s refl v
step-IsChecked producer_wakes s v =
    moved-IsChecked s _ (checks-wake s.producer) refl refl refl refl v
step-IsChecked consumer_wakes s v =
    moved-IsChecked s _ refl (checks-wake s.consumer) refl refl refl v

pub start-IsChecked : IsChecked start
start-IsChecked = record { passed = refl; one_mutex = tt; two_conds = tt }
