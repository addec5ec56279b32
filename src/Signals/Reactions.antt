-- ===== src/Signals/Reactions.antt =====
-- Lab 5/zad1.c: SIGUSR1 that the program sends to itself, under four settings.
use operating_systems_course.Common.{
  Bool, true, false, List, [], ◌∷◌, ◌++◌, if◌then◌else◌, Bytes, codes, str_eq, ◌≡◌, refl,
}

-- What is done with SIGUSR1.
pub data Disposition : Type 0 where
  by_default ignored handled : Disposition

pub record Signal : Type 0 where
  pub disposition : Disposition
  pub masked : Bool
  pub pending : Bool

abbrev pub at_start : Signal
at_start = record { disposition = by_default; masked = false; pending = false }

-- Of the output, what tells of the signal: the text of the handler, and whether it is pending.
pub data Output : Type 0 where
  received is_pending is_not_pending : Output

-- How the program ends: by `exit`, at the end of `main`, or by SIGUSR1.
pub data Ending : Type 0 where
  exit_failure end_of_main killed : Ending

-- The settings by the argument; none for another text.
unfoldable pub set_up : Bytes → Bool × Signal
set_up option =
    if str_eq option (codes "none")
    then (true, at_start)
    else if str_eq option (codes "ignore")
    then (true, record at_start { disposition = ignored })
    else if str_eq option (codes "handler")
    then (true, record at_start { disposition = handled })
    else if str_eq option (codes "mask")
    then (true, record at_start { masked = true })
    else (false, at_start)

-- `raise(SIGUSR1)`: whether the program goes on, what the handler prints, and what is pending then.
unfoldable pub raise_signal : Signal → Bool × List Output × Signal
raise_signal s = if s.masked then (true, [], record s { pending = true }) else elim s.disposition [
  | by_default ↦ (false, [], s)
  | ignored ↦ (true, [], s)
  | handled ↦ (true, received ∷ [], s)
]

-- `main` on its argument.
unfoldable pub main_on : Bytes → List Output × Ending
main_on option =
    let (known, s) = set_up option in
    let (goes_on, shown, s') = raise_signal s in
    if known
    then (if goes_on
        then (
          shown
              ++ (if str_eq option (codes "mask")
                  then (if s'.pending then is_pending ∷ [] else is_not_pending ∷ [])
                  else []),
          end_of_main,
        )
        else ([], killed))
    else ([], exit_failure)

reactions :
    (main_on (codes "none") ≡ ([], killed))
    × (main_on (codes "ignore") ≡ ([], end_of_main))
    × (main_on (codes "handler") ≡ (received ∷ [], end_of_main))
    × (main_on (codes "mask") ≡ (is_pending ∷ [], end_of_main))
unfolding main_on set_up raise_signal
reactions = (refl, refl, refl, refl)
