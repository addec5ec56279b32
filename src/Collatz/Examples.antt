-- ===== src/Collatz/Examples.antt =====
-- Lab 2/collatz.c on small inputs.
use operating_systems_course.Common.{◌≡◌, refl, none, some, [], ◌∷◌, replicate, pos, negsuc}
use operating_systems_course.Collatz.Defs.{
  collatz_conjecture, convergence_loop, returns, test_collatz_convergence,
}
use operating_systems_course.Collatz.Client.{reached, print_steps, main_output}

three_converges :
    test_collatz_convergence (pos 3) 9 (replicate 9 (pos 0))
    ≡ returns 8 (pos 3 ∷ pos 10 ∷ pos 5 ∷ pos 16 ∷ pos 8 ∷ pos 4 ∷ pos 2 ∷ pos 1 ∷ pos 0 ∷ [])
unfolding test_collatz_convergence convergence_loop collatz_conjecture
three_converges = refl

-- The sequence of 113383 leaves the range of an int on its way to 1.
overflows : collatz_conjecture (pos 827370449) ≡ none
unfolding collatz_conjecture
overflows = refl

minus_one_turns : collatz_conjecture (negsuc 0) ≡ some (negsuc 1)
unfolding collatz_conjecture
minus_one_turns = refl

two_prints : main_output (pos 2) 5 (replicate 5 (pos 7)) ≡ some (reached 2 (pos 2 ∷ pos 1 ∷ []))
unfolding main_output print_steps test_collatz_convergence convergence_loop collatz_conjecture
two_prints = refl
