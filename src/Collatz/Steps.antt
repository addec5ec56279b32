-- ===== src/Collatz/Steps.antt =====
-- Lab 2/collatz.c against the Collatz sequence on the natural numbers.
use operating_systems_course.Common.{
  ℕ, zero, suc, ◌+◌, ◌-◌, ◌*◌, ◌/◌, ◌%◌, ◌≤◌, ◌<◌, ◌≡◌, ◌≢◌, ◌⊎◌, refl, ◌∙◌, true, false, some,
  List, [], ◌∷◌, leb, ltb, ◌==◌, if◌then◌else◌, get_or, get_elem?, set, length, length-set, ℤ, pos,
  arith, Bool-cases, inl, inr,
}
use operating_systems_course.Collatz.Defs.{
  int_max, collatz_conjecture, is_one, ended, convergence_loop, returns, test_collatz_convergence,
}

-- The sequence.
abbrev pub next : ℕ → ℕ
next n = if n % 2 == 0 then n / 2 else n * 3 + 1

abbrev pub iterate : ℕ → ℕ → ℕ
iterate zero n = n
iterate (suc k) n = next (iterate k n)

collatz_conjecture-next :
    (n : ℕ) → next n ≤ int_max → collatz_conjecture (pos n) ≡ some (pos (next n))
unfolding collatz_conjecture
collatz_conjecture-next n h = elim (Bool-cases (n % 2 == 0)) [
  | inl even ↦ rw (even, collatz_conjecture)
  | inr odd ↦
      let bound : n * 3 + 1 ≤ int_max = rw odd at h in
      let product : leb (n * 3) int_max ≡ true = ground arith in
      let sum : leb (suc (n * 3)) int_max ≡ true = ground arith in
      let same : suc (n * 3) ≡ n * 3 + 1 = omega arith in
      rw (odd, collatz_conjecture, product, sum, same)
]

-- The entries up to an index are those of the sequence.
abbrev pub Written : ℕ → ℕ → List ℤ → Type 0
Written n i steps = (k : ℕ) → k ≤ i → get_elem? steps k ≡ some (pos (iterate k n))

pub get_or-get_elem? :
    (steps : List ℤ) (i : ℕ) (d v : ℤ) → get_elem? steps i ≡ some v → get_or steps i d ≡ v
get_or-get_elem? [] i d v e = cc
get_or-get_elem? (x ∷ steps) zero d v e = cc
get_or-get_elem? (x ∷ steps) (suc i) d v e = get_or-get_elem? steps i d v e

get_elem?-written :
    (steps : List ℤ) (i : ℕ) (v : ℤ) → i < length steps → get_elem? (set steps i v) i ≡ some v
get_elem?-written [] i v h = absurd (omega (arith, h))
get_elem?-written (x ∷ steps) zero v h = refl
get_elem?-written (x ∷ steps) (suc i) v h = get_elem?-written steps i v (omega (arith, h))

get_elem?-before :
    (steps : List ℤ) (i k : ℕ) (v : ℤ) → k < i → get_elem? (set steps i v) k ≡ get_elem? steps k
get_elem?-before [] i k v h = refl
get_elem?-before (x ∷ steps) zero k v h = absurd (omega (arith, h))
get_elem?-before (x ∷ steps) (suc i) zero v h = refl
get_elem?-before (x ∷ steps) (suc i) (suc k) v h = get_elem?-before steps i k v (omega (arith, h))

Written-set :
    (n i : ℕ) (steps : List ℤ)
    → i + 1 < length steps
    → Written n i steps
    → Written n (i + 1) (set steps (i + 1) (pos (next (iterate i n))))
Written-set n i steps h w k l = elim (Bool-cases (k == i + 1)) [
  | inl same ↦
      let e : k ≡ suc i = ground arith in
      let e' : i + 1 ≡ suc i = omega arith in
      rw (e, e') (get_elem?-written steps (suc i) (pos (next (iterate i n))) (omega (arith, h)))
  | inr other ↦
      let below : k < i + 1 = ground arith in
      get_elem?-before steps (i + 1) k (pos (next (iterate i n))) below ∙ w k (omega (arith, below))
]

none_so_far :
    (n i : ℕ)
    → ((k : ℕ) → k < i → iterate k n ≢ 1)
    → iterate i n ≢ 1
    → (k : ℕ) → k < i + 1
    → iterate k n ≢ 1
none_so_far n i e h k l = elim (Bool-cases (k == i)) [
  | inl same ↦ let p : k ≡ i = ground arith in rw p h
  | inr other ↦ e k (ground arith)
]

-- What the loop leaves.
record Stops (n m last : ℕ) (steps : List ℤ) : Type 0 where
  bound : last < m
  written : Written n last steps
  earlier : (k : ℕ) → k < last → iterate k n ≢ 1
  stop : (iterate last n ≡ 1) ⊎ ((iterate last n ≢ 1) × (last + 1 ≡ m))

convergence_loop_goes_on :
    (fuel m i : ℕ) (steps : List ℤ) (v w : ℤ)
    → get_or steps i (pos 0) ≡ v
    → is_one v ≡ false
    → ltb i (m - 1) ≡ true
    → collatz_conjecture v ≡ some w
    → convergence_loop (suc fuel) m i steps ≡ convergence_loop fuel m (i + 1) (set steps (i + 1) w)
unfolding convergence_loop
convergence_loop_goes_on fuel m i steps v w g o l c =
    let o' : is_one (get_or steps i (pos 0)) ≡ false = rw g o in
    let c' : collatz_conjecture (get_or steps i (pos 0)) ≡ some w = rw g c in
    rw (convergence_loop, o', l, c')

convergence_loop-Stops :
    (fuel n m i : ℕ) (steps : List ℤ)
    → fuel + i ≡ m
    → i < m
    → length steps ≡ m
    → Written n i steps
    → ((k : ℕ) → k < i → iterate k n ≢ 1)
    → ((k : ℕ) → k < m → iterate k n ≤ int_max)
    → (last : ℕ) × (steps' : List ℤ) × (convergence_loop fuel m i steps ≡ ended last steps')
      × Stops n m last steps'
unfolding convergence_loop
convergence_loop-Stops zero n m i steps f b l w e h = absurd (omega (arith, f, b))
convergence_loop-Stops (suc fuel) n m i steps f b l w e h =
    let now = get_or-get_elem? steps i (pos 0) (pos (iterate i n)) (w i (omega arith)) in
    elim (Bool-cases (iterate i n == 1)) [
      | inl one ↦ (
        i,
        steps,
        rw (now, one, convergence_loop),
        record { bound = b; written = w; earlier = e; stop = inl (ground arith) },
      )
      | inr more ↦ elim (Bool-cases (ltb i (m - 1))) [
        | inr full ↦ (
          i,
          steps,
          rw (now, more, full, convergence_loop),
          record {
            bound = b;
            written = w;
            earlier = e;
            stop = inr (λ z. ground arith, ground arith);
          },
        )
        | inl room ↦
            let below : i + 1 < m = ground arith in
            let small : next (iterate i n) ≤ int_max = h (suc i) (omega (arith, below)) in
            let (last, steps', p, s) =
              convergence_loop-Stops fuel n m (i + 1) (set steps (i + 1) (pos (next (iterate i n))))
                (omega (arith, f)) below (length-set steps (i + 1) (pos (next (iterate i n))) ∙ l)
                (Written-set n i steps (omega (arith, below, l)) w)
                (none_so_far n i e (λ z. ground arith)) h in
            (
              last,
              steps',
              convergence_loop_goes_on fuel m i steps (pos (iterate i n)) (pos (next (iterate i n)))
                    now more room (collatz_conjecture-next (iterate i n) small)
                  ∙ p,
              s,
            )
      ]
    ]

Written-first : (n : ℕ) (steps : List ℤ) → 0 < length steps → Written n 0 (set steps 0 (pos n))
Written-first n steps h k l =
    let e : k ≡ 0 = omega (arith, l) in rw e (get_elem?-written steps 0 (pos n) h)

-- An input that is not negative, at least one iteration, and a sequence that stays in the range of an
-- int for that many: the function ends without an overflow, and writes inside its array only. Either
-- it returns 0 and none of the first `max_iter` numbers of the sequence is 1; or it returns the
-- number of steps up to the first 1, and the array starts with those numbers of the sequence.
pub test_collatz_convergence_lem :
    (n max_iter : ℕ) (steps : List ℤ)
    → 1 ≤ max_iter
    → length steps ≡ max_iter
    → ((k : ℕ) → k < max_iter → iterate k n ≤ int_max)
    → (result : ℕ) × (steps' : List ℤ) × (test_collatz_convergence (pos n) max_iter steps
        ≡ returns result steps')
      × (((result ≡ 0) × ((k : ℕ) → k < max_iter → iterate k n ≢ 1))
          ⊎ ((last : ℕ) × (result ≡ last + 1)
              × (last < max_iter)
              × (iterate last n ≡ 1)
              × ((k : ℕ) → k < last → iterate k n ≢ 1)
              × Written n last steps'))
unfolding test_collatz_convergence
test_collatz_convergence_lem n max_iter steps a l h =
    let positive : (max_iter == 0) ≡ false = ground arith in
    let (last, steps', p, s) =
      convergence_loop-Stops max_iter n max_iter 0 (set steps 0 (pos n)) (omega arith)
        (omega (arith, a)) (length-set steps 0 (pos n) ∙ l)
        (Written-first n steps (omega (arith, a, l))) (λ k z. absurd (omega (arith, z))) h in
    let now =
      get_or-get_elem? steps' last (pos 0) (pos (iterate last n)) (s.written last (omega arith)) in
    elim s.stop [
      | inl one ↦
          let is_last : (iterate last n == 1) ≡ true = ground arith in
          (
            last + 1,
            steps',
            rw (positive, p, now, is_last, test_collatz_convergence),
            inr (last, refl, s.bound, one, s.earlier, s.written),
          )
      | inr (more, full) ↦
          let is_more : (iterate last n == 1) ≡ false = ground arith in
          (
            0,
            steps',
            rw (positive, p, now, is_more, test_collatz_convergence),
            inl (refl, λ k z. none_so_far n last s.earlier more k (omega (arith, z, full))),
          )
    ]
