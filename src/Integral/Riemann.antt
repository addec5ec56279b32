-- ===== src/Integral/Riemann.antt =====
-- Lab 9/zad1.c: `f` and `calculate_integral`, which the programs of Lab 6 repeat word by word.
use operating_systems_course.Common.{
  ℕ, zero, suc, ◌+◌, ◌<◌, ◌≡◌, refl, true, false, Option, none, some, arith, Bool-cases, inl, inr,
}
use operating_systems_course.Integral.Double.{Double, number}

module _ {ℓ} {W : Type ℓ} ⦃d : Double W⦄ where
  unfoldable pub f : W → W
  f x = d.div (number 4) (d.add (d.mul x x) (number 1))

  -- `for (x; x < b; x += dx) sum += f(x) * dx`, on fuel; `none` means that the loop still runs.
  unfoldable pub integral_loop : ℕ → W → W → W → W → Option W
  integral_loop zero b dx x sum = none
  integral_loop (suc fuel) b dx x sum = elim (d.less x b) [
    | false ↦ some sum
    | true ↦ integral_loop fuel b dx (d.add x dx) (d.add sum (d.mul (f x) dx))
  ]

  unfoldable pub calculate_integral : ℕ → W → W → W → Option W
  calculate_integral fuel a b dx = integral_loop fuel b dx a (number 0)

  -- The left end of the k-th rectangle, and the sum of the first n rectangles.
  abbrev pub left_end : W → W → ℕ → W
  left_end a dx zero = a
  left_end a dx (suc k) = d.add (left_end a dx k) dx

  abbrev pub rectangles : W → W → ℕ → W
  rectangles a dx zero = number 0
  rectangles a dx (suc n) = d.add (rectangles a dx n) (d.mul (f (left_end a dx n)) dx)

  -- The loop from the k-th rectangle on.
  integral_loop_rest :
      (a b dx : W) (fuel k n : ℕ)
      → n < fuel
      → ((j : ℕ) → j < k + n → d.less (left_end a dx j) b ≡ true)
      → d.less (left_end a dx (k + n)) b ≡ false
      → integral_loop fuel b dx (left_end a dx k) (rectangles a dx k)
        ≡ some (rectangles a dx (k + n))
  unfolding integral_loop
  integral_loop_rest a b dx zero k n h below stop = absurd (omega (arith, h))
  integral_loop_rest a b dx (suc fuel) k zero h below stop =
      let e : k + 0 ≡ k = omega arith in rw (e, rw e at stop, integral_loop)
  integral_loop_rest a b dx (suc fuel) k (suc n) h below stop =
      let e : k + suc n ≡ suc k + n = omega arith in
      rw (below k (omega arith), integral_loop, e)
        (integral_loop_rest a b dx fuel (suc k) n (omega (arith, h))
          (λ j l. below j (omega (arith, l))) (rw e at stop))

  -- If the first n left ends are below b and the next is not, `calculate_integral` returns the sum of
  -- the first n rectangles, taken from left to right, as soon as its loop may run n + 1 rounds.
  pub calculate_integral_lem :
      (a b dx : W) (fuel n : ℕ)
      → n < fuel
      → ((j : ℕ) → j < n → d.less (left_end a dx j) b ≡ true)
      → d.less (left_end a dx n) b ≡ false
      → calculate_integral fuel a b dx ≡ some (rectangles a dx n)
  unfolding calculate_integral
  calculate_integral_lem a b dx fuel n h below stop =
      let e : 0 + n ≡ n = omega arith in
      rw (← e) (
        integral_loop_rest a b dx fuel 0 n h (λ j l. below j (omega (arith, l))) (rw (← e) at stop))

  integral_loop_endless :
      (b dx x : W) (fuel : ℕ) (sum : W)
      → d.less x b ≡ true
      → d.add x dx ≡ x
      → integral_loop fuel b dx x sum ≡ none
  unfolding integral_loop
  integral_loop_endless b dx x zero sum l e = refl
  integral_loop_endless b dx x (suc fuel) sum l e =
      rw (l, integral_loop, e) (integral_loop_endless b dx x fuel (d.add sum (d.mul (f x) dx)) l e)

  -- If a is below b and the width dx is so small that adding it to a gives a again, the loop of
  -- `calculate_integral` never ends, however long it runs.
  pub calculate_integral_endless :
      (a b dx : W)
      → d.less a b ≡ true
      → d.add a dx ≡ a
      → (fuel : ℕ) → calculate_integral fuel a b dx ≡ none
  unfolding calculate_integral
  calculate_integral_endless a b dx l e fuel = integral_loop_endless b dx a fuel (number 0) l e

  integral_loop_unique :
      (b dx : W) (fuel fuel' : ℕ) (x sum r r' : W)
      → integral_loop fuel b dx x sum ≡ some r
      → integral_loop fuel' b dx x sum ≡ some r'
      → r ≡ r'
  unfolding integral_loop
  integral_loop_unique b dx zero fuel' x sum r r' p q = cc
  integral_loop_unique b dx (suc fuel) zero x sum r r' p q = cc
  integral_loop_unique b dx (suc fuel) (suc fuel') x sum r r' p q = elim (Bool-cases (d.less x b)) [
    | inl on ↦
        integral_loop_unique b dx fuel fuel' (d.add x dx) (d.add sum (d.mul (f x) dx)) r r'
          (rw (on, integral_loop) at p) (rw (on, integral_loop) at q)
    | inr off ↦ ground (arith, off)
  ]

  -- The result does not depend on how long the loop may run.
  pub calculate_integral_unique :
      (a b dx : W) (fuel fuel' : ℕ) (r r' : W)
      → calculate_integral fuel a b dx ≡ some r
      → calculate_integral fuel' a b dx ≡ some r'
      → r ≡ r'
  unfolding calculate_integral
  calculate_integral_unique a b dx fuel fuel' r r' p q =
      integral_loop_unique b dx fuel fuel' a (number 0) r r' p q
