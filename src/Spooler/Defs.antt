-- ===== src/Spooler/Defs.antt =====
-- Lab 8/zad1.c: the shared queue, the three semaphores, and the processes, which interleave between
-- any two accesses to them. Printing and sleeping are left out.
use operating_systems_course.Common.{
  ℕ, zero, suc, ◌+◌, ◌%◌, Option, none, some, List, [], ◌∷◌, get_elem?, set, replicate, Bytes,
}

abbrev pub max_queue : ℕ
max_queue = 10

-- The attached shared memory is all zero when it is new.
pub record Queue : Type 0 where
  pub jobs : List Bytes
  pub head : ℕ
  pub tail : ℕ

-- The values of the set of semaphores.
pub record Semaphores : Type 0 where
  pub mutex : ℕ
  pub full : ℕ
  pub empty : ℕ

-- Where a user stands: before it generates a job, before the wait for SEM_EMPTY, before that for
-- SEM_MUTEX, before the copy of the job, before the update of `tail`, before the signal of SEM_MUTEX
-- and before that of SEM_FULL.
pub data User : Type 0 where
  thinking : User
  ready : Bytes → User
  claiming : Bytes → User
  copying : Bytes → User
  advancing : User
  unlocking : User
  announcing : User

-- Where a printer stands: before the wait for SEM_FULL, before that for SEM_MUTEX, before the update
-- of `head`, before the signal of SEM_MUTEX and before that of SEM_EMPTY.
pub data Printer : Type 0 where
  idle taking removing releasing freeing : Printer

pub record System : Type 0 where
  pub queue : Queue
  pub semaphores : Semaphores
  pub users : List User
  pub printers : List Printer

-- `main` up to the calls of `fork`, for that many processes.
abbrev pub start : ℕ → ℕ → System
start users_number printers_number = record {
  queue = record { jobs = replicate max_queue []; head = 0; tail = 0 };
  semaphores = record { mutex = 1; full = 0; empty = max_queue };
  users = replicate users_number thinking;
  printers = replicate printers_number idle;
}

-- A wait: `none` while the value is 0, and the process stays in it.
abbrev pub wait_semaphore : ℕ → Option ℕ
wait_semaphore zero = none
wait_semaphore (suc n) = some n

abbrev pub signal_semaphore : ℕ → ℕ
signal_semaphore n = n + 1

-- A user's step; the job is what `generate_job` makes, if it does.
unfoldable pub user : Bytes → User → Queue → Semaphores → User × Queue × Semaphores
user job thinking q s = (ready job, q, s)
user job (ready own) q s = elim (wait_semaphore s.empty) [
  | none ↦ (ready own, q, s)
  | some n ↦ (claiming own, q, record s { empty = n })
]
user job (claiming own) q s = elim (wait_semaphore s.mutex) [
  | none ↦ (claiming own, q, s)
  | some n ↦ (copying own, q, record s { mutex = n })
]
user job (copying own) q s = (advancing, record q { jobs = set q.jobs q.tail own }, s)
user job advancing q s = (unlocking, record q { tail = (q.tail + 1) % max_queue }, s)
user job unlocking q s = (announcing, q, record s { mutex = signal_semaphore s.mutex })
user job announcing q s = (thinking, q, record s { full = signal_semaphore s.full })

-- A printer's step. `get_job` makes up a job of its own and reads nothing that is shared.
unfoldable pub printer : Printer → Queue → Semaphores → Printer × Queue × Semaphores
printer idle q s = elim (wait_semaphore s.full) [
  | none ↦ (idle, q, s)
  | some n ↦ (taking, q, record s { full = n })
]
printer taking q s = elim (wait_semaphore s.mutex) [
  | none ↦ (taking, q, s)
  | some n ↦ (removing, q, record s { mutex = n })
]
printer removing q s = (releasing, record q { head = (q.head + 1) % max_queue }, s)
printer releasing q s = (freeing, q, record s { mutex = signal_semaphore s.mutex })
printer freeing q s = (idle, q, record s { empty = signal_semaphore s.empty })

-- Which process goes on; there is none beyond those that `main` has made.
pub data Turn : Type 0 where
  of_user : ℕ → Bytes → Turn
  of_printer : ℕ → Turn

unfoldable pub step : Turn → System → System
step (of_user i job) y = elim (get_elem? y.users i) [
  | none ↦ y
  | some u ↦
      let (u', q, s) = user job u y.queue y.semaphores in
      record y { queue = q; semaphores = s; users = set y.users i u' }
]
step (of_printer i) y = elim (get_elem? y.printers i) [
  | none ↦ y
  | some p ↦
      let (p', q, s) = printer p y.queue y.semaphores in
      record y { queue = q; semaphores = s; printers = set y.printers i p' }
]

unfoldable pub run : List Turn → System → System
run [] y = y
run (t ∷ turns) y = run turns (step t y)
