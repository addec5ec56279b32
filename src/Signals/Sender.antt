-- ===== src/Signals/Sender.antt =====
-- Lab 5/sender.c: the request, and the wait for its confirmation.
use operating_systems_course.Common.{
  ℕ, zero, suc, ◌≡◌, refl, Bool, true, false, List, [], ◌∷◌, if◌then◌else◌, replicate,
}

-- Where `main` stands: before `sigqueue`, before the test of `confirmation_received`, before `pause`,
-- in it, at its end, or behind `exit` on an error.
pub data Stage : Type 0 where
  queueing checking pausing waiting confirmed failed : Stage

pub record State : Type 0 where
  pub confirmation_received : Bool
  pub stage : Stage

abbrev pub start : State
start = record { confirmation_received = false; stage = queueing }

-- A step of `main`, with whether `sigqueue` succeeds, should it be called.
unfoldable pub main_step : Bool → Stage → State → State
main_step succeeds queueing s = record s { stage = if succeeds then checking else failed }
main_step succeeds checking s = record s {
  stage = if s.confirmation_received then confirmed else pausing;
}
main_step succeeds pausing s = record s { stage = waiting }
main_step succeeds waiting s = s
main_step succeeds confirmed s = s
main_step succeeds failed s = s

-- `confirmation_handler`, which ends `pause`.
unfoldable pub confirmation_handler : State → State
confirmation_handler s = record {
  confirmation_received = true;
  stage = elim s.stage [ waiting ↦ checking | p ↦ p ];
}

-- A step of `main`, or the confirmation of the catcher.
pub data Event : Type 0 where
  go_on : Bool → Event
  confirmation : Event

unfoldable pub step : Event → State → State
step (go_on succeeds) s = main_step succeeds s.stage s
step confirmation s = confirmation_handler s

unfoldable pub run : List Event → State → State
run [] s = s
run (e ∷ events) s = run events (step e s)

-- A confirmation that comes while `main` tests the flag is seen there, and one that comes in `pause`
-- ends it; both bring the sender to its end.
confirmation_seen :
    (run (go_on true ∷ confirmation ∷ go_on true ∷ []) start
      ≡ record { confirmation_received = true; stage = confirmed })
    × (run (go_on true ∷ go_on true ∷ go_on true ∷ confirmation ∷ go_on true ∷ []) start
        ≡ record { confirmation_received = true; stage = confirmed })
unfolding run step main_step confirmation_handler
confirmation_seen = (refl, refl)

-- A confirmation that comes between the test and `pause` is slept through: however many steps `main`
-- is given, it stays in `pause`.
confirmation_missed :
    (n : ℕ)
    → run (replicate n (go_on true)) (record { confirmation_received = true; stage = waiting })
      ≡ record { confirmation_received = true; stage = waiting }
unfolding run step main_step
confirmation_missed zero = refl
confirmation_missed (suc n) = confirmation_missed n
