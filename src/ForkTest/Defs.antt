-- ===== src/ForkTest/Defs.antt =====
-- Test 1/zad2.c, Test 1/zad2.h, Test 1/check_fork.c: a process that masks a signal, and one that it
-- starts and sends a signal to. A `printf` is an effect where it is called; when the C library writes
-- its text is left out.
use operating_systems_course.Common.{Bool, true, false, List, [], ◌∷◌, ◌++◌, if◌then◌else◌}

-- Where `main` stands: before `sigprocmask`, `raise` of SIGUSR2, `sigaction` and `raise` of SIGUSR1,
-- before `fork`, in `sleep`, before `kill`, in `wait`; `terminated` is by a signal.
pub data Main : Type 0 where
  masking testing handling raising forking sleeping sending waiting returned terminated : Main

-- Where the new process stands: before `execlp`, or in check_fork before `sigaction`, before
-- `sigsuspend` and in it.
pub data Alive : Type 0 where
  forked installing suspending suspended : Alive

-- `awake` is behind `sigsuspend`; `exited` is behind an `execlp` that has failed.
pub data Child : Type 0 where
  absent : Child
  alive : Alive → Child
  awake ended exited killed : Child

-- What a process does on SIGUSR1: the default, which terminates it, `sig_pass` of zad2.h, or
-- `sig_pass` of check_fork.c.
pub data Disposition : Type 0 where
  by_default pass_mask pass_fork : Disposition

-- The two lines, and a SIGUSR1 to every process that may be sent one.
pub data Effect : Type 0 where
  show_mask show_fork signal_all : Effect

-- `blocked` and `pending` are about SIGUSR2 and `main`.
pub record State : Type 0 where
  pub main : Main
  pub blocked : Bool
  pub pending : Bool
  pub usr1 : Disposition
  pub child : Child
  pub child_usr1 : Disposition
  pub effects : List Effect

abbrev pub start : State
start = record {
  main = masking;
  blocked = false;
  pending = false;
  usr1 = by_default;
  child = absent;
  child_usr1 = by_default;
  effects = [];
}

-- `mask` up to `check_mask`.
abbrev pub mask : State → State
mask s = record s { main = testing; blocked = true }

-- SIGUSR2 is not handled: it waits while it is blocked, and terminates the process otherwise.
abbrev pub raise_usr2 : State → State
raise_usr2 s =
    if s.blocked
    then record s { main = handling; pending = true }
    else record s { main = terminated }

-- `sig_pass` of either program.
abbrev pub sig_pass : Disposition → List Effect
sig_pass by_default = []
sig_pass pass_mask = show_mask ∷ []
sig_pass pass_fork = show_fork ∷ []

abbrev pub raise_usr1 : Disposition → State → State
raise_usr1 by_default s = record s { main = terminated }
raise_usr1 pass_mask s = record s { main = forking; effects = s.effects ++ sig_pass pass_mask }
raise_usr1 pass_fork s = record s { main = forking; effects = s.effects ++ sig_pass pass_fork }

-- The new process has the dispositions of the old one.
abbrev pub fork : Bool → State → State
fork succeeds s =
    if succeeds
    then record s { main = sleeping; child = alive forked; child_usr1 = s.usr1 }
    else record s { main = sleeping }

-- SIGUSR1 reaches the new process. A handler interrupts nothing but `sigsuspend`.
abbrev pub deliver : Disposition → Alive → State → State
deliver by_default a s = record s { child = killed }
deliver d suspended s = record s { child = awake; effects = s.effects ++ sig_pass d }
deliver d a s = record s { effects = s.effects ++ sig_pass d }

-- `kill`, where `fork` has failed with -1 for the process; a process that has ended takes no notice.
abbrev pub kill : Child → State → State
kill absent s = record s { effects = s.effects ++ signal_all ∷ [] }
kill (alive a) s = deliver s.child_usr1 a s
kill awake s = s
kill ended s = s
kill exited s = s
kill killed s = s

-- `wait` goes on only with no process to wait for, or one that has ended.
abbrev pub wait : Child → State → State
wait (alive a) s = s
wait awake s = s
wait absent s = record s { main = returned }
wait ended s = record s { main = returned }
wait exited s = record s { main = returned }
wait killed s = record s { main = returned }

-- A step of `main`, with whether `fork` succeeds.
unfoldable pub main_step : Bool → Main → State → State
main_step forks masking s = mask s
main_step forks testing s = raise_usr2 s
main_step forks handling s = record s { main = raising; usr1 = pass_mask }
main_step forks raising s = raise_usr1 s.usr1 s
main_step forks forking s = fork forks s
main_step forks sleeping s = record s { main = sending }
main_step forks sending s = let s' = record s { main = waiting } in kill s'.child s'
main_step forks waiting s = wait s.child s
main_step forks returned s = s
main_step forks terminated s = s

-- A step of the new process, with whether `execlp` succeeds, which sets what was handled to its
-- default.
unfoldable pub child_step : Bool → Child → State → State
child_step execs absent s = s
child_step execs (alive forked) s =
    if execs
    then record s { child = alive installing; child_usr1 = by_default }
    else record s { child = exited }
child_step execs (alive installing) s = record s {
  child = alive suspending;
  child_usr1 = pass_fork;
}
child_step execs (alive suspending) s = record s { child = alive suspended }
child_step execs (alive suspended) s = s
child_step execs awake s = record s { child = ended }
child_step execs ended s = s
child_step execs exited s = s
child_step execs killed s = s

pub data Turn : Type 0 where
  for_main for_child : Turn

unfoldable pub step : Bool → Bool → Turn → State → State
step forks execs for_main s = main_step forks s.main s
step forks execs for_child s = child_step execs s.child s

-- The two processes take turns in any order.
unfoldable pub run : Bool → Bool → List Turn → State → State
run forks execs [] s = s
run forks execs (t ∷ turns) s = run forks execs turns (step forks execs t s)
