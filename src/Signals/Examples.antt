-- ===== src/Signals/Examples.antt =====
-- Lab 5/catcher.c: requests to a catcher that pauses.
use operating_systems_course.Common.{◌≡◌, refl, true, false, [], ◌∷◌, pos, negsuc}
use operating_systems_course.Signals.Catcher.{
  waiting, numbering, checking, finished, exited, handled, ignored, by_default, confirm, show_count,
  show_number, show_pressed, show_end, ctrl_c, handle_ctrl_c, step, run,
}
use operating_systems_course.Signals.Requests.{asked, served, obey, obey_lem}

obey_lem_example :
    (run (obey 7) (asked (pos 1) 50 (pos 0) 2 49 handled)
      ≡ (served (pos 0) 50 2 handled false waiting, confirm 50 ∷ show_count 3 ∷ []))
    × (run (obey 4) (asked (pos 2) 50 (pos 0) 2 49 handled) ≡ (
      served (pos 2) 50 2 handled false (numbering 3),
      confirm 50 ∷ show_number 1 ∷ show_number 2 ∷ [],
    ))
    × (run (obey 9) (asked (pos 3) 50 (pos 0) 2 49 handled)
        ≡ (served (pos 3) 50 2 ignored false checking, confirm 50 ∷ []))
    × (run (obey 9) (asked (pos 4) 50 (pos 0) 2 49 handled)
        ≡ (served (pos 4) 50 2 handled false checking, confirm 50 ∷ []))
    × (run (obey 4) (asked (pos 5) 50 (pos 0) 2 49 handled)
        ≡ (served (pos 5) 50 2 handled true finished, confirm 50 ∷ show_end ∷ []))
    × (run (obey 3) (asked (negsuc 0) 50 (pos 0) 2 49 handled)
        ≡ (served (negsuc 0) 50 2 handled false waiting, confirm 50 ∷ []))
obey_lem_example = obey_lem 50 (pos 0) 2 49 handled 2 (negsuc 0) (λ j a b e. cc)

-- In mode 4, of two interrupts before the next `signal` only the first is handled, and the second ends
-- the program.
two_presses :
    run (ctrl_c ∷ ctrl_c ∷ []) (served (pos 4) 50 2 handled false checking)
    ≡ (served (pos 4) 50 2 by_default false exited, show_pressed ∷ [])
unfolding run step handle_ctrl_c
two_presses = refl
