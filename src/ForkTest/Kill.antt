-- ===== src/ForkTest/Kill.antt =====
-- Test 1/zad2.c, Test 1/check_fork.c: what the signal to the new process finds.
use mathlib.Core.Path.{subst⁻¹}
use operating_systems_course.Common.{
  ◌≡◌, refl, ◌⊎◌, true, false, List, [], ◌∷◌, inl, inr, replicate,
}
use operating_systems_course.ForkTest.Defs.{
  sending, waiting, returned, Alive, forked, installing, suspending, suspended, alive, show_mask,
  show_fork, signal_all, State, start, wait, main_step, child_step, Turn, for_main, for_child, step,
  run,
}
use operating_systems_course.ForkTest.Moments.{
  Moment, at_mask, at_test, at_handle, at_raise, at_fork, apart, state_at, run-IsReached,
}

-- `main` waits for a process that is there.
abbrev pub IsStuck : State → Type 0
IsStuck s = (s.main ≡ waiting) × (a : Alive) × (s.child ≡ alive a)

child_step-IsStuck :
    (a : Alive) (s : State)
    → s.main ≡ waiting
    → s.child ≡ alive a
    → IsStuck (child_step true (alive a) s)
unfolding child_step
child_step-IsStuck forked s m c = (m, installing, refl)
child_step-IsStuck installing s m c = (m, suspending, refl)
child_step-IsStuck suspending s m c = (m, suspended, refl)
child_step-IsStuck suspended s m c = (m, suspended, c)

step-IsStuck : (t : Turn) (s : State) → IsStuck s → IsStuck (step true true t s)
unfolding step main_step
step-IsStuck for_main s (m, a, c) =
    subst⁻¹ (λ p. IsStuck (main_step true p s)) m (subst⁻¹ (λ p. IsStuck (wait p s)) c (m, a, c))
step-IsStuck for_child s (m, a, c) =
    subst⁻¹ (λ p. IsStuck (child_step true p s)) c (child_step-IsStuck a s m c)

run-IsStuck : (turns : List Turn) (s : State) → IsStuck s → IsStuck (run true true turns s)
unfolding run
run-IsStuck [] s h = h
run-IsStuck (t ∷ turns) s h = run-IsStuck turns (step true true t s) (step-IsStuck t s h)

stays_stuck :
    (more : List Turn) (s : State) (a : Alive)
    → (step true true for_main s).main ≡ waiting
    → (step true true for_main s).child ≡ alive a
    → (run true true (for_main ∷ more) s).main ≡ waiting
unfolding run
stays_stuck more s a m c =
    let (waits, p, there) = run-IsStuck more (step true true for_main s) (m, a, c) in waits

-- The signal finds the new process in `sigsuspend`, and both lines are shown and `main` returns;
-- or behind `execlp` and before `sigaction`, and it is killed; or elsewhere, and `main` never returns.
abbrev pub IsDecided : State → Type 0
IsDecided s =
    ((s.child ≡ alive suspended)
      × ((run true true (for_main ∷ for_child ∷ for_main ∷ []) s).main ≡ returned)
      × ((run true true (for_main ∷ for_child ∷ for_main ∷ []) s).effects
          ≡ show_mask ∷ show_fork ∷ []))
    ⊎ ((s.child ≡ alive installing)
        × ((run true true (for_main ∷ for_main ∷ []) s).main ≡ returned)
        × ((run true true (for_main ∷ for_main ∷ []) s).effects ≡ show_mask ∷ []))
    ⊎ (((s.child ≡ alive forked) ⊎ (s.child ≡ alive suspending))
        × ((more : List Turn) → (run true true (for_main ∷ more) s).main ≡ waiting))

apart-IsDecided : (a : Alive) → IsDecided (state_at (apart false a))
unfolding run step main_step child_step
apart-IsDecided suspended = inl (refl, refl, refl)
apart-IsDecided installing = inr (inl (refl, refl, refl))
apart-IsDecided forked =
    inr (inr (inl refl, λ more. stays_stuck more (state_at (apart false forked)) forked refl refl))
apart-IsDecided suspending = inr (
    inr
      (inr refl, λ more. stays_stuck more (state_at (apart false suspending)) suspending refl refl))

moment-IsDecided : (m : Moment) → (state_at m).main ≡ sending → IsDecided (state_at m)
moment-IsDecided at_mask h = absurd (cc h)
moment-IsDecided at_test h = absurd (cc h)
moment-IsDecided at_handle h = absurd (cc h)
moment-IsDecided at_raise h = absurd (cc h)
moment-IsDecided at_fork h = absurd (cc h)
moment-IsDecided (apart true a) h = absurd (cc h)
moment-IsDecided (apart false a) h = apart-IsDecided a

-- `fork` and `execlp` succeed, and after any turns of the two processes `main` is about to send
-- SIGUSR1. If the new process is in `sigsuspend`, then `main` returns and both lines are shown; if it
-- is in check_fork before `sigaction`, it is killed, and `main` returns with the first line only; and
-- otherwise it is before `execlp`, or between `sigaction` and `sigsuspend`, and whatever turns follow,
-- `main` stays in `wait`.
pub kill_lem :
    (turns : List Turn)
    → (run true true turns start).main ≡ sending
    → IsDecided (run true true turns start)
kill_lem turns h = elim (run-IsReached turns start (inl (at_mask, refl))) [
  | inl (m, e) ↦ rw e (moment-IsDecided m (rw e at h))
  | inr (inl e) ↦ absurd (cc (h, e))
  | inr (inr e) ↦ absurd (cc (h, e))
]

-- After a failed `fork`, SIGUSR1 goes to every process that may be sent one.
failed_fork : (run false true (replicate 8 for_main) start).effects ≡ show_mask ∷ signal_all ∷ []
unfolding run step main_step
failed_fork = refl
