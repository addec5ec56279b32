-- ===== src/Integral/Examples.antt =====
-- Lab 6 and Lab 9: runs of the programs on two shares, in thousandths.
use operating_systems_course.Common.{
  ℕ, zero, suc, ◌^◌, ◌<◌, ◌≡◌, ◌≢◌, refl, map, true, Option, some, List, [], ◌∷◌, pos, arith,
}
use operating_systems_course.Integral.Double.{number, thousandths}
use operating_systems_course.Integral.Riemann.{
  f, integral_loop, calculate_integral, rectangles, left_end, calculate_integral_lem,
}
use operating_systems_course.Integral.Threads
use operating_systems_course.Integral.Processes
use operating_systems_course.Integral.Fifos
use operating_systems_course.Integral.Gathering.{IsShare}
use operating_systems_course.Integral.Polling
use operating_systems_course.Integral.Polling.{creating_all, polling-HasPrinted}
use operating_systems_course.Integral.Completion
use operating_systems_course.Integral.Completion.{succeeding, run-HasPrinted}
use operating_systems_course.Integral.Agreement.{threads_agree_processes}
use operating_systems_course.Integral.Answers.{IsAnswer}
use operating_systems_course.Integral.Dialogue.{HasAnswer}
use operating_systems_course.Integral.Reached.{run-HasAnswer}

abbrev thread_turns : List Threads.Turn
thread_turns =
    Threads.of_main true
    ∷ Threads.of_main true
    ∷ Threads.of_main true
    ∷ Threads.of_thread 1 9
    ∷ Threads.of_thread 1 9
    ∷ Threads.of_main true
    ∷ Threads.of_main true
    ∷ Threads.of_thread 0 9
    ∷ Threads.of_thread 0 9
    ∷ Threads.of_main true
    ∷ Threads.of_main true
    ∷ Threads.of_main true
    ∷ []

abbrev process_turns : List Processes.Turn
process_turns =
    Processes.of_parent true
    ∷ Processes.of_parent true
    ∷ Processes.of_parent true
    ∷ Processes.of_parent true
    ∷ Processes.of_parent true
    ∷ Processes.of_child 1 9
    ∷ Processes.of_child 0 9
    ∷ Processes.of_child 0 9
    ∷ Processes.of_child 1 9
    ∷ Processes.of_parent true
    ∷ Processes.of_parent true
    ∷ Processes.of_parent true
    ∷ Processes.of_parent true
    ∷ Processes.of_parent true
    ∷ Processes.of_parent true
    ∷ Processes.of_parent true
    ∷ []

abbrev fifo_turns : List Fifos.Turn
fifo_turns =
    Fifos.of_client
    ∷ Fifos.of_server 9
    ∷ Fifos.of_client
    ∷ Fifos.of_server 9
    ∷ Fifos.of_client
    ∷ Fifos.of_server 9
    ∷ Fifos.of_client
    ∷ Fifos.of_client
    ∷ Fifos.of_server 9
    ∷ Fifos.of_server 9
    ∷ Fifos.of_client
    ∷ Fifos.of_server 9
    ∷ Fifos.of_client
    ∷ Fifos.of_server 9
    ∷ Fifos.of_client
    ∷ []

below_half : (j : ℕ) → j < 2 → thousandths.less (left_end ⦃d = thousandths⦄ 0 250 j) 500 ≡ true
below_half zero l = refl
below_half (suc zero) l = refl
below_half (suc (suc j)) l = absurd (omega (arith, l))

calculate_integral_lem_example :
    calculate_integral ⦃d = thousandths⦄ 3 0 500 250 ≡ some (rectangles ⦃d = thousandths⦄ 0 250 2)
calculate_integral_lem_example =
    calculate_integral_lem ⦃d = thousandths⦄ 0 500 250 3 2 (omega arith) below_half refl

halves_exact :
    (x : ℕ)
    → thousandths.mul x
        (thousandths.div (number ⦃d = thousandths⦄ 1) (number ⦃d = thousandths⦄ (2 ^ 1)))
      ≡ thousandths.div x (number ⦃d = thousandths⦄ (2 ^ 1))
halves_exact x = omega arith

threads_agree_processes_example : ◌≡◌ {A = Option ℕ} (some 3381) (some 3381)
unfolding f integral_loop calculate_integral Threads.thread_function Threads.main_step Threads.step
    Threads.run Threads.sum_results Processes.read_pipe Processes.child_step Processes.parent_step
    Processes.step Processes.run
threads_agree_processes_example =
    threads_agree_processes ⦃d = thousandths⦄ 1 250 thread_turns process_turns (some 3381)
      (some 3381) halves_exact refl refl

thread_loops_end :
    (i : ℕ)
    → i < 2
    → (r : ℕ) × IsShare ⦃d = thousandths⦄ (Threads.share_of ⦃d = thousandths⦄ 2 250 i) r
unfolding f integral_loop calculate_integral
thread_loops_end zero l = (1941, (9, refl))
thread_loops_end (suc zero) l = (1440, (9, refl))
thread_loops_end (suc (suc i)) l = absurd (omega (arith, l))

process_loops_end :
    (i : ℕ)
    → i < 2
    → (r : ℕ) × IsShare ⦃d = thousandths⦄ (Processes.share_of ⦃d = thousandths⦄ 2 250 i) r
unfolding f integral_loop calculate_integral
process_loops_end zero l = (1941, (9, refl))
process_loops_end (suc zero) l = (1440, (9, refl))
process_loops_end (suc (suc i)) l = absurd (omega (arith, l))

-- Only the first thread is created yet.
abbrev early_turns : List Threads.Turn
early_turns = Threads.of_main true ∷ Threads.of_thread 0 9 ∷ []

early_alive : (Threads.run ⦃d = thousandths⦄ 2 250 early_turns Threads.start).main ≢ Threads.failed
unfolding f integral_loop calculate_integral Threads.thread_function Threads.main_step Threads.step
    Threads.run
early_alive p = cc

polling-HasPrinted_example :
    (more : List (Option (ℕ × ℕ))) × Polling.HasPrinted ⦃d = thousandths⦄ 2 250 (
      Threads.run ⦃d = thousandths⦄ 2 250
        (map creating_all more)
        (Threads.run ⦃d = thousandths⦄ 2 250 early_turns Threads.start))
polling-HasPrinted_example =
    polling-HasPrinted ⦃d = thousandths⦄ 2 250 thread_loops_end early_turns early_alive

-- Both pipes and the first child are there.
abbrev first_forked : List Processes.Turn
first_forked =
    Processes.of_parent true
    ∷ Processes.of_parent true
    ∷ Processes.of_parent true
    ∷ Processes.of_parent true
    ∷ []

forked_alive :
    (Processes.run ⦃d = thousandths⦄ 2 250 first_forked Processes.start).parent ≢ Processes.failed
unfolding Processes.parent_step Processes.step Processes.run
forked_alive p = cc

run-HasPrinted_example :
    (more : List (Option (ℕ × ℕ))) × Completion.HasPrinted ⦃d = thousandths⦄ 2 250 (
      Processes.run ⦃d = thousandths⦄ 2 250
        (map succeeding more)
        (Processes.run ⦃d = thousandths⦄ 2 250 first_forked Processes.start))
run-HasPrinted_example =
    run-HasPrinted ⦃d = thousandths⦄ 2 250 process_loops_end first_forked forked_alive

unit-IsAnswer : (r : ℕ) × IsAnswer ⦃d = thousandths⦄ (pos 0) (pos 1) 250 r
unfolding f integral_loop calculate_integral
unit-IsAnswer = (3381, (9, refl))

run-HasAnswer_example :
    (more : List Fifos.Turn) × HasAnswer ⦃d = thousandths⦄ (pos 0) (pos 1) 250 (
      Fifos.run ⦃d = thousandths⦄
        (pos 0)
        (pos 1)
        250
        more
        (Fifos.run ⦃d = thousandths⦄ (pos 0) (pos 1) 250 fifo_turns (Fifos.start true)))
run-HasAnswer_example = run-HasAnswer ⦃d = thousandths⦄ (pos 0) (pos 1) 250 unit-IsAnswer fifo_turns
