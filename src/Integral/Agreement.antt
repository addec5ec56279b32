-- ===== src/Integral/Agreement.antt =====
-- Lab 6/zad1.c and Lab 9/zad1.c: the processes and the threads compute the same sum.
use operating_systems_course.Common.{
  ℕ, zero, suc, ◌+◌, ◌^◌, ◌≤◌, ◌<◌, ◌≡◌, refl, sym, ◌∙◌, Option, List, arith,
}
use operating_systems_course.Integral.Double.{Double, number}
use operating_systems_course.Integral.Riemann.{calculate_integral_unique}
use operating_systems_course.Integral.Threads
use operating_systems_course.Integral.Threads.{ThreadData}
use operating_systems_course.Integral.Processes
use operating_systems_course.Integral.Gathering.{IsTotal, run-IsTotal}
use operating_systems_course.Integral.Pipes.{printed-IsTotal}

module _ {W : Type 0} ⦃d : Double W⦄ where
  totals_agree :
      (shares shares' : ℕ → ThreadData W) (n : ℕ) (w w' : W)
      → ((i : ℕ) → i < n → shares i ≡ shares' i)
      → IsTotal shares n w
      → IsTotal shares' n w'
      → w ≡ w'
  totals_agree shares shares' zero w w' same p q = p ∙ sym q
  totals_agree shares shares' (suc n) w w' same (b, r, t, (fuel, e), p)
        (b', r', t', (fuel', e'), p') =
      let before = totals_agree shares shares' n b b' (λ i l. same i (omega (arith, l))) t t' in
      let x = shares' n in
      let one = rw (same n (omega arith)) at e in
      let last = calculate_integral_unique x.a x.b x.dx fuel fuel' r r' one e' in
      rw (p, p', before, last) refl

  shares_agree :
      (n : ℕ) (dx : W)
      → ((i : ℕ)
          → i ≤ n
          → d.mul (number i) (d.div (number 1) (number n)) ≡ d.div (number i) (number n))
      → (i : ℕ) → i < n
      → Threads.share_of n dx i ≡ Processes.share_of n dx i
  shares_agree n dx exact i l =
      rw (exact i (omega (arith, l)), exact (i + 1) (omega (arith, l))) refl

  -- The number of threads and of processes is a power of two, 2 ^ k, where a product with the double
  -- 1 / 2 ^ k is the quotient by 2 ^ k, since a double divides by a power of two without rounding. Then
  -- the threads of Lab 9, whose ends are products i * (1 / n), and the processes of Lab 6, whose ends
  -- are quotients i / n, print the same total for the same dx, however either program is scheduled.
  pub threads_agree_processes :
      (k : ℕ) (dx : W) (turns : List Threads.Turn) (turns' : List Processes.Turn) (t t' : Option W)
      → ((x : W) → d.mul x (d.div (number 1) (number (2 ^ k))) ≡ d.div x (number (2 ^ k)))
      → (Threads.run (2 ^ k) dx turns Threads.start).main ≡ Threads.printed t
      → (Processes.run (2 ^ k) dx turns' Processes.start).parent ≡ Processes.printed t'
      → t ≡ t'
  threads_agree_processes k dx turns turns' t t' exact p p' =
      let (w, e, total) = run-IsTotal (2 ^ k) dx turns t p in
      let (w', e', total') = printed-IsTotal (2 ^ k) dx turns' t' p' in
      let same =
        totals_agree (Threads.share_of (2 ^ k) dx) (Processes.share_of (2 ^ k) dx) (2 ^ k) w w'
          (shares_agree (2 ^ k) dx (λ i l. exact (number i))) total total' in
      rw (e, e', same) refl
