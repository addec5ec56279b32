-- ===== src/Transfer/Examples.antt =====
-- Test 1/zad3.c: five bytes in blocks of two.
use operating_systems_course.Common.{◌≡◌, refl, Bool, true, none, some, List, [], ◌∷◌, codes, arith}
use operating_systems_course.Transfer.Defs.{
  Turn, of_parent, of_child, start, printed, parent_step, child_step, step, run,
}
use operating_systems_course.Transfer.Progress.{work}
use operating_systems_course.Transfer.Passing.{CanPass, run-CanPass}

abbrev turns : List Turn
turns =
    of_parent true
    ∷ of_parent true
    ∷ of_parent true
    ∷ of_parent true
    ∷ of_parent true
    ∷ of_child
    ∷ of_child
    ∷ []

-- The child is not waited for: SIGSEGV has ended it, since there is no file.
missing_file_turns :
    (run none 2 4
      (of_parent true ∷ of_parent true ∷ of_child ∷ of_child ∷ of_parent true ∷ [])
      start).parent
    ≡ printed true
unfolding run step parent_step child_step
missing_file_turns = refl

run-CanPass_example :
    ((passed : Bool)
      → (run (some (codes "lorem")) 2 4 turns start).parent ≡ printed passed
      → passed ≡ true)
    × CanPass
        (some (codes "lorem"))
        2
        4
        (work (some (codes "lorem")) 2 4 (run (some (codes "lorem")) 2 4 turns start))
        (run (some (codes "lorem")) 2 4 turns start)
run-CanPass_example =
    run-CanPass (some (codes "lorem")) 2 4 (omega arith) (omega arith) turns
      (refl, (refl, (refl, (refl, (refl, tt)))))
