-- ===== src/Collatz/Defs.antt =====
-- Lab 2/collatz.c: both functions on 32-bit int, where a result that is out of range is undefined.
use operating_systems_course.Common.{
  ℕ, zero, suc, ◌+◌, ◌-◌, ◌*◌, ◌/◌, ◌%◌, Bool, true, false, not, ◌&&◌, Option, none, some, List,
  leb, ltb, ◌==◌, if◌then◌else◌, get_or, set, ℤ, pos, negsuc, increment,
}

abbrev pub int_max : ℕ
int_max = 2147483647

-- Between -2147483648 and 2147483647.
abbrev pub is_int : ℤ → Bool
is_int (pos n) = leb n int_max
is_int (negsuc n) = leb n int_max

-- `x % 2 == 0`, `x / 2`, which is cut towards 0, and `x * 3`.
abbrev pub is_even : ℤ → Bool
is_even (pos n) = n % 2 == 0
is_even (negsuc n) = suc n % 2 == 0

abbrev pub opposite : ℕ → ℤ
opposite zero = pos 0
opposite (suc n) = negsuc n

abbrev pub half : ℤ → ℤ
half (pos n) = pos (n / 2)
half (negsuc n) = opposite (suc n / 2)

abbrev pub times_three : ℤ → ℤ
times_three (pos n) = pos (n * 3)
times_three (negsuc n) = negsuc (n * 3 + 2)

unfoldable pub collatz_conjecture : ℤ → Option ℤ
collatz_conjecture input =
    if is_even input
    then some (half input)
    else if is_int (times_three input) && is_int (increment (times_three input))
    then some (increment (times_three input))
    else none

abbrev pub is_one : ℤ → Bool
is_one (pos n) = n == 1
is_one (negsuc n) = false

-- Where the loop ends: at an index, on an overflow, or not on its fuel.
pub data Loop : Type 0 where
  ended : ℕ → List ℤ → Loop
  overflow : Loop
  unfinished : Loop

-- The `while`, from index i on.
unfoldable pub convergence_loop : ℕ → ℕ → ℕ → List ℤ → Loop
convergence_loop zero max_iter i steps = unfinished
convergence_loop (suc fuel) max_iter i steps =
    elim (not (is_one (get_or steps i (pos 0))) && ltb i (max_iter - 1)) [
      | false ↦ ended i steps
      | true ↦ elim (collatz_conjecture (get_or steps i (pos 0))) [
        | none ↦ overflow
        | some v ↦ convergence_loop fuel max_iter (i + 1) (set steps (i + 1) v)
      ]
    ]

pub data Result : Type 0 where
  returns : ℕ → List ℤ → Result
  undefined : Result
  runs_on : Result

abbrev pub converged : Loop → Result
converged (ended i steps) =
    if not (is_one (get_or steps i (pos 0))) then returns 0 steps else returns (i + 1) steps
converged overflow = undefined
converged unfinished = runs_on

-- On an array `steps` of `max_iter` entries; without any, the write of steps[0] is out of bounds.
unfoldable pub test_collatz_convergence : ℤ → ℕ → List ℤ → Result
test_collatz_convergence input max_iter steps =
    if max_iter == 0
    then undefined
    else converged (convergence_loop max_iter max_iter 0 (set steps 0 input))
