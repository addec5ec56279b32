-- ===== src/ForkTest/Moments.antt =====
-- Test 1/zad2.c, Test 1/check_fork.c: the states up to the signal to the new process.
use mathlib.Core.Path.{subst⁻¹}
use operating_systems_course.Common.{
  ◌≡◌, refl, ◌∙◌, ◌⊎◌, Bool, true, false, List, [], ◌∷◌, inl, inr, if◌then◌else◌,
}
use operating_systems_course.ForkTest.Defs.{
  Main, testing, handling, raising, forking, sleeping, sending, waiting, returned, Alive, forked,
  installing, suspending, suspended, Child, absent, alive, awake, ended, exited, killed, wait,
  Disposition, by_default, pass_mask, pass_fork, show_mask, State, start, main_step, child_step,
  Turn, for_main, for_child, step, run,
}

-- What `main` is about to do while there is one process, or whether it sleeps while there are two.
pub data Moment : Type 0 where
  at_mask at_test at_handle at_raise at_fork : Moment
  apart : Bool → Alive → Moment

abbrev pub disposition_of : Alive → Disposition
disposition_of forked = pass_mask
disposition_of installing = by_default
disposition_of suspending = pass_fork
disposition_of suspended = pass_fork

-- One process, with SIGUSR2 blocked.
abbrev pub masked : Main → Bool → Disposition → State
masked m pending d = record start { main = m; blocked = true; pending = pending; usr1 = d }

abbrev pub state_at : Moment → State
state_at at_mask = start
state_at at_test = masked testing false by_default
state_at at_handle = masked handling true by_default
state_at at_raise = masked raising true pass_mask
state_at at_fork = record (masked forking true pass_mask) { effects = show_mask ∷ [] }
state_at (apart asleep a) = record {
  main = if asleep then sleeping else sending;
  blocked = true;
  pending = true;
  usr1 = pass_mask;
  child = alive a;
  child_usr1 = disposition_of a;
  effects = show_mask ∷ [];
}

-- The signal has been sent.
abbrev pub HasSent : State → Type 0
HasSent s = (s.main ≡ waiting) ⊎ (s.main ≡ returned)

abbrev pub IsReached : State → Type 0
IsReached s = ((m : Moment) × (s ≡ state_at m)) ⊎ HasSent s

moment_step : (t : Turn) (m : Moment) → IsReached (step true true t (state_at m))
unfolding step main_step child_step
moment_step for_main at_mask = inl (at_test, refl)
moment_step for_main at_test = inl (at_handle, refl)
moment_step for_main at_handle = inl (at_raise, refl)
moment_step for_main at_raise = inl (at_fork, refl)
moment_step for_main at_fork = inl (apart true forked, refl)
moment_step for_main (apart true a) = inl (apart false a, refl)
moment_step for_main (apart false forked) = inr (inl refl)
moment_step for_main (apart false installing) = inr (inl refl)
moment_step for_main (apart false suspending) = inr (inl refl)
moment_step for_main (apart false suspended) = inr (inl refl)
moment_step for_child at_mask = inl (at_mask, refl)
moment_step for_child at_test = inl (at_test, refl)
moment_step for_child at_handle = inl (at_handle, refl)
moment_step for_child at_raise = inl (at_raise, refl)
moment_step for_child at_fork = inl (at_fork, refl)
moment_step for_child (apart asleep forked) = inl (apart asleep installing, refl)
moment_step for_child (apart asleep installing) = inl (apart asleep suspending, refl)
moment_step for_child (apart asleep suspending) = inl (apart asleep suspended, refl)
moment_step for_child (apart asleep suspended) = inl (apart asleep suspended, refl)

-- The new process has no part in where `main` stands.
child_step-main : (execs : Bool) (c : Child) (s : State) → (child_step execs c s).main ≡ s.main
unfolding child_step
child_step-main execs absent s = refl
child_step-main true (alive forked) s = refl
child_step-main false (alive forked) s = refl
child_step-main execs (alive installing) s = refl
child_step-main execs (alive suspending) s = refl
child_step-main execs (alive suspended) s = refl
child_step-main execs awake s = refl
child_step-main execs ended s = refl
child_step-main execs exited s = refl
child_step-main execs killed s = refl

wait-HasSent : (c : Child) (s : State) → s.main ≡ waiting → HasSent (wait c s)
wait-HasSent absent s e = inr refl
wait-HasSent (alive a) s e = inl e
wait-HasSent awake s e = inl e
wait-HasSent ended s e = inr refl
wait-HasSent exited s e = inr refl
wait-HasSent killed s e = inr refl

step-HasSent : (t : Turn) (s : State) → HasSent s → HasSent (step true true t s)
unfolding step main_step
step-HasSent for_main s (inl e) =
    subst⁻¹ (λ m. HasSent (main_step true m s)) e (wait-HasSent s.child s e)
step-HasSent for_main s (inr e) = subst⁻¹ (λ m. HasSent (main_step true m s)) e (inr e)
step-HasSent for_child s (inl e) = inl (child_step-main true s.child s ∙ e)
step-HasSent for_child s (inr e) = inr (child_step-main true s.child s ∙ e)

step-IsReached : (t : Turn) (s : State) → IsReached s → IsReached (step true true t s)
step-IsReached t s (inl (m, e)) = rw e (moment_step t m)
step-IsReached t s (inr h) = inr (step-HasSent t s h)

-- Whatever turns the processes take, before the signal is sent it is one of the moments.
pub run-IsReached :
    (turns : List Turn) (s : State) → IsReached s → IsReached (run true true turns s)
unfolding run
run-IsReached [] s h = h
run-IsReached (t ∷ turns) s h = run-IsReached turns (step true true t s) (step-IsReached t s h)
