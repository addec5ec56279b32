-- ===== src/Signals/Catcher.antt =====
-- Lab 5/catcher.c: `main`, which the handlers interrupt between any two of its accesses to the globals.
use operating_systems_course.Common.{
  ℕ, ◌+◌, Bool, true, false, Option, none, some, List, [], ◌∷◌, ◌++◌, if◌then◌else◌, ◌==◌, ℤ, pos,
  negsuc,
}

-- Where `main` stands: before the test of `should_exit`, before the `switch`, before the output and
-- behind it in case 1, before the test in `print_numbers` with `num`, before the assignment or the
-- call of cases 3, 4 and 5, before `pause`, in it, at the end, or ended by SIGINT.
pub data Stage : Type 0 where
  checking switching reporting clearing : Stage
  numbering : ℕ → Stage
  ignoring handling leaving pausing waiting finished exited : Stage

-- The disposition of SIGINT. The program is built with -std=c11 and _POSIX_C_SOURCE, where `signal`
-- installs a handler for one delivery, which sets the disposition back to its default.
pub data Disposition : Type 0 where
  handled ignored by_default : Disposition

-- `pending` is the SIGUSR1 that waits to be delivered, with its value and its sender; there is at
-- most one.
pub record State : Type 0 where
  pub mode : ℤ
  pub count : ℕ
  pub sender_pid : ℕ
  pub should_exit : Bool
  pub interrupt : Disposition
  pub pending : Option (ℤ × ℕ)
  pub stage : Stage

-- Behind the installation of the handlers.
abbrev pub start : State
start = record {
  mode = pos 0;
  count = 0;
  sender_pid = 0;
  should_exit = false;
  interrupt = handled;
  pending = none;
  stage = checking;
}

pub data Effect : Type 0 where
  confirm : ℕ → Effect
  show_count : ℕ → Effect
  show_number : ℕ → Effect
  show_pressed : Effect
  show_end : Effect

abbrev pub is : ℤ → ℕ → Bool
is z k = elim z [ pos n ↦ n == k | negsuc n ↦ false ]

-- The case that `mode` selects.
unfoldable pub switch : ℤ → Stage
switch mode =
    if is mode 1
    then reporting
    else if is mode 2
    then numbering 1
    else if is mode 3
    then ignoring
    else if is mode 4
    then handling
    else if is mode 5
    then leaving
    else pausing

unfoldable pub main_step : Stage → State → State × List Effect
main_step checking s =
    if s.should_exit
    then (record s { stage = finished }, show_end ∷ [])
    else (record s { stage = switching }, [])
main_step switching s = (record s { stage = switch s.mode }, [])
main_step reporting s = (record s { stage = clearing }, show_count s.count ∷ [])
main_step clearing s = (record s { mode = pos 0; stage = checking }, [])
main_step (numbering num) s =
    if is s.mode 2
    then (record s { stage = numbering (num + 1) }, show_number num ∷ [])
    else (record s { stage = checking }, [])
main_step ignoring s = (record s { interrupt = ignored; stage = checking }, [])
main_step handling s = (record s { interrupt = handled; stage = checking }, [])
main_step leaving s = (record s { should_exit = true; stage = checking }, [])
main_step pausing s = (record s { stage = waiting }, [])
main_step waiting s = (s, [])
main_step finished s = (s, [])
main_step exited s = (s, [])

abbrev pub has_ended : Stage → Bool
has_ended p = elim p [ finished ↦ true | exited ↦ true | _ ↦ false ]

-- A handler has run, which ends `pause`.
abbrev pub resume : Stage → Stage
resume p = elim p [ waiting ↦ checking | p ↦ p ]

-- The delivery of the pending SIGUSR1.
unfoldable pub handle_signal : Option (ℤ × ℕ) → State → State × List Effect
handle_signal none s = (s, [])
handle_signal (some (value, pid)) s = (
  record s {
    mode = value;
    count = s.count + 1;
    sender_pid = pid;
    pending = none;
    stage = resume s.stage;
  },
  confirm pid ∷ [],
)

-- What SIGINT does: nothing, the handler, or the end of the program.
unfoldable pub handle_ctrl_c : Disposition → State → State × List Effect
handle_ctrl_c ignored s = (s, [])
handle_ctrl_c by_default s = (record s { stage = exited }, [])
handle_ctrl_c handled s =
    if is s.mode 4
    then (record s { interrupt = by_default; stage = resume s.stage }, show_pressed ∷ [])
    else if is s.mode 3
    then (record s { interrupt = by_default; stage = resume s.stage }, [])
    else (record s { interrupt = by_default; stage = exited }, [])

-- `sigqueue` of a sender: a SIGUSR1 that comes while another is pending is lost.
abbrev pub queue_signal : ℤ → ℕ → Option (ℤ × ℕ) → Option (ℤ × ℕ)
queue_signal value pid none = some (value, pid)
queue_signal value pid (some waits) = some waits

-- A step of `main`, a `sigqueue`, the delivery of what is pending, a CTRL+C.
pub data Event : Type 0 where
  go_on : Event
  request : ℤ → ℕ → Event
  deliver : Event
  ctrl_c : Event

unfoldable pub step : Event → State → State × List Effect
step e s = if has_ended s.stage then (s, []) else elim e [
  | go_on ↦ main_step s.stage s
  | request value pid ↦ (record s { pending = queue_signal value pid s.pending }, [])
  | deliver ↦ handle_signal s.pending s
  | ctrl_c ↦ handle_ctrl_c s.interrupt s
]

unfoldable pub run : List Event → State → State × List Effect
run [] s = (s, [])
run (e ∷ events) s = let (s', es) = step e s in let (s'', es') = run events s' in (s'', es ++ es')
