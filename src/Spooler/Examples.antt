-- ===== src/Spooler/Examples.antt =====
-- Lab 8/zad1.c: two users and a printer.
use operating_systems_course.Common.{
  ℕ, ◌+◌, ◌%◌, ◌<◌, ◌≡◌, ◌≢◌, refl, some, List, [], ◌∷◌, ◌++◌, get_elem?, codes,
}
use operating_systems_course.Spooler.Defs.{
  System, start, user, printer, copying, Turn, of_user, of_printer, step, run,
}
use operating_systems_course.Spooler.Counts.{queued, IsSound}
use operating_systems_course.Spooler.Invariant.{run-IsSound}
use operating_systems_course.Spooler.Ring.{user_overwrites_nothing}
use operating_systems_course.Spooler.Slots.{queue_run, contents}
use operating_systems_course.Spooler.Fifo.{ops_of, jobs_out, left_by, run-queue_run}
use operating_systems_course.Spooler.Blocking.{
  UserBlocked, PrinterBlocked, AllOf, never_all_blocked,
}

abbrev thrice : Turn → List Turn → List Turn
thrice t turns = t ∷ t ∷ t ∷ turns

-- The first user puts a job into the queue, and the second is about to copy its own.
abbrev turns : List Turn
turns =
    thrice (of_user 0 (codes "ABCDEFGHIJ"))
      (thrice (of_user 0 []) (of_user 0 [] ∷ thrice (of_user 1 (codes "KLMNOPQRST")) []))

abbrev office : System
office = run turns (start 2 1)

second_copies : get_elem? office.users 1 ≡ some (copying (codes "KLMNOPQRST"))
unfolding run step user
second_copies = refl

run-IsSound_example : IsSound office
run-IsSound_example = run-IsSound 2 1 turns

user_overwrites_nothing_example :
    (queued office < 10)
    × ((k : ℕ)
        → k < queued office
        → get_elem? (step (of_user 1 []) office).queue.jobs ((office.queue.head + k) % 10)
          ≡ get_elem? office.queue.jobs ((office.queue.head + k) % 10))
    × (get_elem? (step (of_user 1 []) office).queue.jobs ((office.queue.head + queued office) % 10)
        ≡ some (codes "KLMNOPQRST"))
user_overwrites_nothing_example =
    user_overwrites_nothing office 1 (codes "KLMNOPQRST") [] (run-IsSound 2 1 turns) second_copies

some_users : office.users ≢ []
unfolding run step user
some_users e = cc

some_printers : office.printers ≢ []
unfolding run step user
some_printers e = cc

never_all_blocked_example : ¬ (
    AllOf (UserBlocked office.queue office.semaphores) office.users
    × AllOf (PrinterBlocked office.queue office.semaphores) office.printers)
never_all_blocked_example =
    never_all_blocked office (run-IsSound 2 1 turns) some_users some_printers

-- The second user goes on, and then the printer takes a job.
abbrev day : List Turn
day = turns ++ thrice (of_user 1 []) (of_user 1 [] ∷ thrice (of_printer 0) [])

run-queue_run_example :
    queue_run (ops_of day (start 2 1)) []
    ≡ some (jobs_out day (start 2 1), contents (run day (start 2 1)))
run-queue_run_example = run-queue_run 2 1 day

first_in_first_out :
    (jobs_out day (start 2 1) ≡ codes "ABCDEFGHIJ" ∷ [])
    × (contents (run day (start 2 1)) ≡ codes "KLMNOPQRST" ∷ [])
unfolding run step user printer jobs_out left_by
first_in_first_out = (refl, refl)
