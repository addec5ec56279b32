-- ===== src/ForkTest/Examples.antt =====
-- Test 1/zad2.c, Test 1/check_fork.c: runs of the two processes.
use operating_systems_course.Common.{refl, true, List, [], ◌∷◌}
use operating_systems_course.ForkTest.Defs.{
  start, Turn, for_main, for_child, main_step, child_step, step, run,
}
use operating_systems_course.ForkTest.Kill.{IsDecided, kill_lem}

-- Both are ready when the signal is sent.
abbrev in_time : List Turn
in_time =
    for_main ∷ for_main ∷ for_main ∷ for_main ∷ for_main ∷ for_child ∷ for_child ∷ for_child
    ∷ for_main ∷ []

kill_lem_example : IsDecided (run true true in_time start)
unfolding run step main_step child_step
kill_lem_example = kill_lem in_time refl
