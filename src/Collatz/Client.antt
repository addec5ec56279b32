-- ===== src/Collatz/Client.antt =====
-- Lab 2/client.c: the call of the library, linked or loaded, and the output of the steps.
use operating_systems_course.Common.{
  ℕ, zero, suc, ◌+◌, Option, none, some, List, [], ◌∷◌, get_or, if◌then◌else◌, ◌==◌, ℤ, pos,
}
use operating_systems_course.Collatz.Defs.{
  is_one, Result, returns, undefined, runs_on, test_collatz_convergence,
}

-- What is printed: the number of iterations and the steps, or that 1 was not reached.
pub data Output : Type 0 where
  reached : ℕ → List ℤ → Output
  not_reached : ℕ → Output

-- The `for` from index i on, for that many rounds.
unfoldable pub print_steps : ℕ → ℕ → List ℤ → List ℤ
print_steps zero i steps = []
print_steps (suc n) i steps =
    let rest = print_steps n (i + 1) steps in
    let v = get_or steps i (pos 0) in if is_one v then v ∷ [] else v ∷ rest

abbrev pub output_of : ℕ → Result → Option Output
output_of max_iter (returns result steps) =
    some
      (if result == 0 then not_reached max_iter else reached result (print_steps max_iter 0 steps))
output_of max_iter undefined = none
output_of max_iter runs_on = none

-- `main` behind its input, with what the array `steps` holds at first; `none` is what is undefined.
unfoldable pub main_output : ℤ → ℕ → List ℤ → Option Output
main_output input max_iter steps =
    output_of max_iter (test_collatz_convergence input max_iter steps)
