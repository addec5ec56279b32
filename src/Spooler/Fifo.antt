-- ===== src/Spooler/Fifo.antt =====
-- Lab 8/zad1.c: the ring of jobs is a queue of at most ten jobs, first in, first out.
use operating_systems_course.Common.{
  ℕ, suc, ◌+◌, ◌%◌, ◌≤◌, ◌<◌, ◌≡◌, refl, ap, length, set, Option, none, some, List, [], ◌∷◌,
  get_elem?, get_or, Bytes, arith, Option-cases, inl, inr,
}
use operating_systems_course.Spooler.Defs.{
  Queue, Semaphores, User, thinking, ready, claiming, copying, advancing, unlocking, announcing,
  Printer, idle, taking, removing, releasing, freeing, System, start, user, printer, Turn, of_user,
  of_printer, wait_semaphore, step, run,
}
use operating_systems_course.Spooler.Counts.{
  sum_of-set, sum_of-replicate, user_inside, user_holds, printer_holds, user_queued, printer_queued,
  queued, IsSound,
}
use operating_systems_course.Spooler.Balance.{waited}
use operating_systems_course.Spooler.Invariant.{step-IsSound, start-IsSound}
use operating_systems_course.Spooler.Ring.{
  apart, sum_of_le, sum_of_lt, user_queued_le, printer_queued_le,
}
use operating_systems_course.Spooler.Slots.{
  Op, put, take_first, queue_run, also, QueueStep, stay, add, remove, queue_run-also, advances,
  stored, slots, contents, length-slots, slots-end, slots-wrap, slots-set, get_or-set_same,
}

-- What a step of a process does to the queue, and the job that leaves it.
abbrev pub puts : User → Option Op
puts (copying own) = some (put own)
puts u = none

abbrev pub takes : Printer → Option Op
takes removing = some take_first
takes p = none

abbrev pub leaves : Printer → Queue → Option Bytes
leaves removing q = some (get_or q.jobs q.head [])
leaves p q = none

abbrev count_of : Option Op → ℕ
count_of none = 0
count_of (some op) = 1

user_full :
    (job : Bytes) (u : User) (q : Queue) (s : Semaphores)
    → let (u', q', s') = user job u q s in
      s'.full + user_queued u' + advances u'
      ≡ s.full + user_queued u + advances u + count_of (puts u)
unfolding user
user_full job thinking q s = omega arith
user_full job (ready own) q s = elim (Option-cases (wait_semaphore s.empty)) [
  | inl w ↦ rw (w, user) (omega arith)
  | inr (n, w) ↦ rw (w, user) (omega arith)
]
user_full job (claiming own) q s = elim (Option-cases (wait_semaphore s.mutex)) [
  | inl w ↦ rw (w, user) (omega arith)
  | inr (n, w) ↦ rw (w, user) (omega arith)
]
user_full job (copying own) q s = omega arith
user_full job advancing q s = omega arith
user_full job unlocking q s = omega arith
user_full job announcing q s = omega arith

printer_full :
    (p : Printer) (q : Queue) (s : Semaphores)
    → let (p', q', s') = printer p q s in
      s'.full + printer_queued p' + count_of (takes p) ≡ s.full + printer_queued p
unfolding printer
printer_full idle q s = elim (Option-cases (wait_semaphore s.full)) [
  | inl w ↦ rw (w, printer) (omega arith)
  | inr (n, w) ↦ rw (w, printer) (omega (arith, waited s.full n w))
]
printer_full taking q s = elim (Option-cases (wait_semaphore s.mutex)) [
  | inl w ↦ rw (w, printer) (omega arith)
  | inr (n, w) ↦ rw (w, printer) (omega arith)
]
printer_full removing q s = omega arith
printer_full releasing q s = omega arith
printer_full freeing q s = omega arith

-- Where a user copies, the ring with n jobs has a free slot at `tail`.
abbrev HasRoom : User → Queue → ℕ → Type 0
HasRoom u q n = (own : Bytes) → u ≡ copying own → ((q.head + n) % 10 ≡ q.tail) × (n < 10)

-- A step of a user on the ring with n jobs, which leaves m.
user_fifo :
    (job : Bytes) (u : User) (q : Queue) (s : Semaphores) (n m : ℕ)
    → length q.jobs ≡ 10
    → HasRoom u q n
    → m ≡ n + count_of (puts u)
    → let (u', q', s') = user job u q s in
      QueueStep (puts u) none (slots q.jobs q.head n) (slots q'.jobs q'.head m)
unfolding user
user_fifo job thinking q s n m l room c =
    let c' : m ≡ n = omega (arith, c) in rw c' (stay (slots q.jobs q.head n))
user_fifo job (ready own) q s n m l room c =
    let c' : m ≡ n = omega (arith, c) in
    elim (Option-cases (wait_semaphore s.empty)) [
      | inl w ↦ rw (w, user, c') (stay (slots q.jobs q.head n))
      | inr (k, w) ↦ rw (w, user, c') (stay (slots q.jobs q.head n))
    ]
user_fifo job (claiming own) q s n m l room c =
    let c' : m ≡ n = omega (arith, c) in
    elim (Option-cases (wait_semaphore s.mutex)) [
      | inl w ↦ rw (w, user, c') (stay (slots q.jobs q.head n))
      | inr (k, w) ↦ rw (w, user, c') (stay (slots q.jobs q.head n))
    ]
user_fifo job (copying own) q s n m l room c =
    let c' : m ≡ suc n = omega (arith, c) in
    let (e, few) = room own refl in
    let bound : q.tail < length q.jobs = omega (arith, e, l) in
    rw
      (
        c',
        slots-end (set q.jobs q.tail own) q.head n,
        slots-set q.jobs own q.tail q.head n (λ k below. apart q.head k n q.tail below few e),
        e,
        get_or-set_same q.jobs q.tail own bound,
      )
      (add own (slots q.jobs q.head n) (omega (arith, few, length-slots q.jobs q.head n)))
user_fifo job advancing q s n m l room c =
    let c' : m ≡ n = omega (arith, c) in rw c' (stay (slots q.jobs q.head n))
user_fifo job unlocking q s n m l room c =
    let c' : m ≡ n = omega (arith, c) in rw c' (stay (slots q.jobs q.head n))
user_fifo job announcing q s n m l room c =
    let c' : m ≡ n = omega (arith, c) in rw c' (stay (slots q.jobs q.head n))

printer_fifo :
    (p : Printer) (q : Queue) (s : Semaphores) (n m : ℕ)
    → q.head < 10
    → m + count_of (takes p) ≡ n
    → let (p', q', s') = printer p q s in
      QueueStep (takes p) (leaves p q) (slots q.jobs q.head n) (slots q'.jobs q'.head m)
unfolding printer
printer_fifo idle q s n m h c =
    let c' : m ≡ n = omega (arith, c) in
    elim (Option-cases (wait_semaphore s.full)) [
      | inl w ↦ rw (w, printer, c') (stay (slots q.jobs q.head n))
      | inr (k, w) ↦ rw (w, printer, c') (stay (slots q.jobs q.head n))
    ]
printer_fifo taking q s n m h c =
    let c' : m ≡ n = omega (arith, c) in
    elim (Option-cases (wait_semaphore s.mutex)) [
      | inl w ↦ rw (w, printer, c') (stay (slots q.jobs q.head n))
      | inr (k, w) ↦ rw (w, printer, c') (stay (slots q.jobs q.head n))
    ]
printer_fifo removing q s n m h c =
    let c' : n ≡ suc m = omega (arith, c) in
    let first : q.head % 10 ≡ q.head = omega (arith, h) in
    let wrap = slots-wrap q.jobs ((q.head + 1) % 10) (q.head + 1) m (omega arith) in
    rw (c', wrap, first) (remove (get_or q.jobs q.head []) (slots q.jobs (q.head + 1) m))
printer_fifo releasing q s n m h c =
    let c' : m ≡ n = omega (arith, c) in rw c' (stay (slots q.jobs q.head n))
printer_fifo freeing q s n m h c =
    let c' : m ≡ n = omega (arith, c) in rw c' (stay (slots q.jobs q.head n))

advances_le : (u : User) → advances u ≤ user_inside u
advances_le thinking = omega arith
advances_le (ready job) = omega arith
advances_le (claiming job) = omega arith
advances_le (copying job) = omega arith
advances_le advancing = omega arith
advances_le unlocking = omega arith
advances_le announcing = omega arith

-- No other user is about to move `tail` while one copies, and there is a free slot.
copying-HasRoom :
    (y : System) (i : ℕ) (u : User)
    → IsSound y
    → get_elem? y.users i ≡ some u
    → HasRoom u y.queue (stored y)
copying-HasRoom y i u v e own c =
    let here : get_elem? y.users i ≡ some (copying own) = rw c at e in
    let users =
      sum_of_lt user_queued user_holds y.users i (copying own) user_queued_le here (omega arith) in
    let printers = sum_of_le printer_queued printer_holds y.printers printer_queued_le in
    let alone =
      sum_of_lt advances user_inside y.users i (copying own) advances_le here (omega arith) in
    let same : stored y ≡ queued y = omega (arith, alone, v.exclusive) in
    (rw same v.ring, omega (arith, same, users, printers, v.shared))

-- What a turn does to the queue, and the job that leaves it.
unfoldable pub op_of : Turn → System → Option Op
op_of (of_user i job) y = elim (get_elem? y.users i) [ none ↦ none | some u ↦ puts u ]
op_of (of_printer i) y = elim (get_elem? y.printers i) [ none ↦ none | some p ↦ takes p ]

unfoldable pub left_by : Turn → System → Option Bytes
left_by (of_user i job) y = none
left_by (of_printer i) y = elim (get_elem? y.printers i) [ none ↦ none | some p ↦ leaves p y.queue ]

-- The jobs that users copy and the slots that printers free, in the order of the turns, and the jobs
-- that are in these slots.
unfoldable pub ops_of : List Turn → System → List Op
ops_of [] y = []
ops_of (t ∷ turns) y = also (op_of t y) (ops_of turns (step t y))

unfoldable pub jobs_out : List Turn → System → List Bytes
jobs_out [] y = []
jobs_out (t ∷ turns) y = also (left_by t y) (jobs_out turns (step t y))

step-QueueStep :
    (t : Turn) (y : System)
    → IsSound y
    → QueueStep (op_of t y) (left_by t y) (contents y) (contents (step t y))
unfolding step op_of left_by
step-QueueStep (of_user i job) y v = elim (Option-cases (get_elem? y.users i)) [
  | inl n ↦ rw (n, step, op_of, left_by) (stay (contents y))
  | inr (u, n) ↦
      let u' = (user job u y.queue y.semaphores).0 in
      let c = sum_of-set user_queued y.users i u u' n in
      let c' = sum_of-set advances y.users i u u' n in
      rw (n, step, op_of, left_by)
        (user_fifo job u y.queue y.semaphores (stored y) _ v.slots (copying-HasRoom y i u v n)
          (omega (arith, c, c', user_full job u y.queue y.semaphores)))
]
step-QueueStep (of_printer i) y v = elim (Option-cases (get_elem? y.printers i)) [
  | inl n ↦ rw (n, step, op_of, left_by) (stay (contents y))
  | inr (p, n) ↦
      let p' = (printer p y.queue y.semaphores).0 in
      let c = sum_of-set printer_queued y.printers i p p' n in
      rw (n, step, op_of, left_by)
        (printer_fifo p y.queue y.semaphores (stored y) _ v.head_bound
          (omega (arith, c, printer_full p y.queue y.semaphores)))
]

run_follows-queue_run :
    (turns : List Turn) (y : System)
    → IsSound y
    → queue_run (ops_of turns y) (contents y) ≡ some (jobs_out turns y, contents (run turns y))
unfolding run ops_of jobs_out queue_run
run_follows-queue_run [] y v = refl
run_follows-queue_run (t ∷ turns) y v =
    queue_run-also (op_of t y) (left_by t y) (contents y) (contents (step t y))
      (contents (run turns (step t y))) (jobs_out turns (step t y)) (ops_of turns (step t y))
      (step-QueueStep t y v) (run_follows-queue_run turns (step t y) (step-IsSound t y v))

-- Whatever the numbers of users and printers and the order of their steps: put into a queue with
-- room for ten, empty at first, every job that a user copies into the ring, and take the first one out
-- whenever a printer moves `head` on. The queue is never full or empty when that is done, the jobs it
-- gives are, in order, those in the slots that `head` leaves, and it then holds the jobs that are in
-- the ring, from `head` on.
pub run-queue_run :
    (users_number printers_number : ℕ) (turns : List Turn)
    → let y = start users_number printers_number in
      queue_run (ops_of turns y) [] ≡ some (jobs_out turns y, contents (run turns y))
run-queue_run n m turns =
    let a = sum_of-replicate user_queued n thinking refl in
    let b = sum_of-replicate printer_queued m idle refl in
    let c = sum_of-replicate advances n thinking refl in
    let none_stored : stored (start n m) ≡ 0 = omega (arith, a, b, c) in
    rw (ap (slots (start n m).queue.jobs 0) none_stored) at
      (run_follows-queue_run turns (start n m) (start-IsSound n m))
