-- ===== src/Spooler/Balance.antt =====
-- Lab 8/zad1.c: what a step of one process keeps of the totals.
use operating_systems_course.Common.{
  ℕ, zero, suc, ◌+◌, ◌%◌, ◌<◌, ◌≡◌, refl, some, length, length-set, Bytes, arith, Option-cases, inl,
  inr,
}
use operating_systems_course.Spooler.Defs.{
  Queue, Semaphores, User, thinking, ready, claiming, copying, advancing, unlocking, announcing,
  Printer, idle, taking, removing, releasing, freeing, user, printer, wait_semaphore,
}
use operating_systems_course.Spooler.Counts.{
  held, inside, printer_holds, printer_inside, printer_queued, queued, user_holds, user_inside,
  user_queued,
}

-- What a step of one process, which then stands elsewhere, must keep for the totals to hold.
pub record Balances (q q' : Queue) (s s' : Semaphores)
    (inside inside' held held' queued queued' : ℕ) : Type 0 where
  pub slots : length q'.jobs ≡ length q.jobs
  pub mutex : s'.mutex + inside' ≡ s.mutex + inside
  pub total : s'.empty + s'.full + held' ≡ s.empty + s.full + held
  pub ring :
      (rest : ℕ)
      → (q.head + (s.full + (queued + rest))) % 10 ≡ q.tail
      → (q'.head + (s'.full + (queued' + rest))) % 10 ≡ q'.tail
  pub head_bound : q.head < 10 → q'.head < 10

ring-tail : (head n tail : ℕ) → (head + n) % 10 ≡ tail → (head + (n + 1)) % 10 ≡ (tail + 1) % 10
ring-tail head n tail e = omega (arith, e)

ring-head : (head n tail : ℕ) → (head + (n + 1)) % 10 ≡ tail → ((head + 1) % 10 + n) % 10 ≡ tail
ring-head head n tail e = omega (arith, e)

pub waited : (n m : ℕ) → wait_semaphore n ≡ some m → n ≡ suc m
waited zero m e = cc
waited (suc n) m e = ground arith

Balances-refl :
    (q : Queue) (s : Semaphores) (inside held queued : ℕ)
    → Balances q q s s inside inside held held queued queued
Balances-refl q s inside held queued = record {
  slots = refl;
  mutex = refl;
  total = refl;
  ring = λ rest e. e;
  head_bound = λ h. h;
}

pub user-Balances :
    (job : Bytes) (u : User) (q : Queue) (s : Semaphores)
    → let (u', q', s') = user job u q s in
      Balances q q' s s'
        (user_inside u)
        (user_inside u')
        (user_holds u)
        (user_holds u')
        (user_queued u)
        (user_queued u')
unfolding user
user-Balances job thinking q s = Balances-refl q s 0 0 0
user-Balances job (ready own) q s = elim (Option-cases (wait_semaphore s.empty)) [
  | inl w ↦ rw (w, user) (Balances-refl q s 0 0 0)
  | inr (n, w) ↦
      rw (w, user)
        (record {
          slots = refl;
          mutex = refl;
          total = omega (arith, waited s.empty n w);
          ring = λ rest e. e;
          head_bound = λ h. h;
        })
]
user-Balances job (claiming own) q s = elim (Option-cases (wait_semaphore s.mutex)) [
  | inl w ↦ rw (w, user) (Balances-refl q s 0 1 0)
  | inr (n, w) ↦
      rw (w, user)
        (record {
          slots = refl;
          mutex = omega (arith, waited s.mutex n w);
          total = refl;
          ring = λ rest e. e;
          head_bound = λ h. h;
        })
]
user-Balances job (copying own) q s = record {
  slots = length-set q.jobs q.tail own;
  mutex = refl;
  total = refl;
  ring = λ rest e. e;
  head_bound = λ h. h;
}
user-Balances job advancing q s = record {
  slots = refl;
  mutex = refl;
  total = refl;
  ring = λ rest e. omega (arith, e);
  head_bound = λ h. h;
}
user-Balances job unlocking q s = record {
  slots = refl;
  mutex = omega arith;
  total = refl;
  ring = λ rest e. e;
  head_bound = λ h. h;
}
user-Balances job announcing q s = record {
  slots = refl;
  mutex = refl;
  total = omega arith;
  ring = λ rest e. omega (arith, e);
  head_bound = λ h. h;
}

pub printer-Balances :
    (p : Printer) (q : Queue) (s : Semaphores)
    → let (p', q', s') = printer p q s in
      Balances q q' s s'
        (printer_inside p)
        (printer_inside p')
        (printer_holds p)
        (printer_holds p')
        (printer_queued p)
        (printer_queued p')
unfolding printer
printer-Balances idle q s = elim (Option-cases (wait_semaphore s.full)) [
  | inl w ↦ rw (w, printer) (Balances-refl q s 0 0 0)
  | inr (n, w) ↦
      rw (w, printer)
        (record {
          slots = refl;
          mutex = refl;
          total = omega (arith, waited s.full n w);
          ring = λ rest e. omega (arith, e, waited s.full n w);
          head_bound = λ h. h;
        })
]
printer-Balances taking q s = elim (Option-cases (wait_semaphore s.mutex)) [
  | inl w ↦ rw (w, printer) (Balances-refl q s 0 1 1)
  | inr (n, w) ↦
      rw (w, printer)
        (record {
          slots = refl;
          mutex = omega (arith, waited s.mutex n w);
          total = refl;
          ring = λ rest e. e;
          head_bound = λ h. h;
        })
]
printer-Balances removing q s = record {
  slots = refl;
  mutex = refl;
  total = refl;
  ring = λ rest e. omega (arith, e);
  head_bound = λ h. omega arith;
}
printer-Balances releasing q s = record {
  slots = refl;
  mutex = omega arith;
  total = refl;
  ring = λ rest e. e;
  head_bound = λ h. h;
}
printer-Balances freeing q s = record {
  slots = refl;
  mutex = refl;
  total = omega arith;
  ring = λ rest e. e;
  head_bound = λ h. h;
}
