-- ===== src/Spooler/Blocking.antt =====
-- Lab 8/zad1.c: the processes do not block each other for ever.
use operating_systems_course.Common.{
  ℕ, zero, suc, ◌≡◌, ◌≢◌, refl, none, List, [], ◌∷◌, arith, Option-cases, inl, inr,
}
use operating_systems_course.Spooler.Defs.{
  Queue, Semaphores, User, thinking, ready, claiming, copying, advancing, unlocking, announcing,
  Printer, idle, taking, removing, releasing, freeing, System, user, printer, wait_semaphore,
}
use operating_systems_course.Spooler.Counts.{
  sum_of, user_inside, printer_inside, user_holds, printer_holds, IsSound,
}

-- A process that waits for a semaphore whose value is 0.
abbrev UserWaits : Semaphores → User → Type 0
UserWaits s (ready job) = s.empty ≡ 0
UserWaits s (claiming job) = s.mutex ≡ 0
UserWaits s u = ⊥

abbrev PrinterWaits : Semaphores → Printer → Type 0
PrinterWaits s idle = s.full ≡ 0
PrinterWaits s taking = s.mutex ≡ 0
PrinterWaits s p = ⊥

-- A process whose step changes nothing.
abbrev pub UserBlocked : Queue → Semaphores → User → Type 0
UserBlocked q s u = user [] u q s ≡ (u, q, s)

abbrev pub PrinterBlocked : Queue → Semaphores → Printer → Type 0
PrinterBlocked q s p = printer p q s ≡ (p, q, s)

abbrev pub AllOf {ℓ} : {A : Type ℓ} → (A → Type 0) → List A → Type 0
AllOf holds [] = Unit
AllOf holds (x ∷ xs) = holds x × AllOf holds xs

waited_none : (n : ℕ) → wait_semaphore n ≡ none → n ≡ 0
waited_none zero e = refl
waited_none (suc n) e = cc

blocked-UserWaits : (q : Queue) (s : Semaphores) (u : User) → UserBlocked q s u → UserWaits s u
unfolding user
blocked-UserWaits q s thinking b = cc
blocked-UserWaits q s (ready job) b = elim (Option-cases (wait_semaphore s.empty)) [
  | inl n ↦ waited_none s.empty n
  | inr (m, n) ↦ let c = rw (n, user) at b in cc
]
blocked-UserWaits q s (claiming job) b = elim (Option-cases (wait_semaphore s.mutex)) [
  | inl n ↦ waited_none s.mutex n
  | inr (m, n) ↦ let c = rw (n, user) at b in cc
]
blocked-UserWaits q s (copying job) b = cc
blocked-UserWaits q s advancing b = cc
blocked-UserWaits q s unlocking b = cc
blocked-UserWaits q s announcing b = cc

blocked-PrinterWaits :
    (q : Queue) (s : Semaphores) (p : Printer) → PrinterBlocked q s p → PrinterWaits s p
unfolding printer
blocked-PrinterWaits q s idle b = elim (Option-cases (wait_semaphore s.full)) [
  | inl n ↦ waited_none s.full n
  | inr (m, n) ↦ let c = rw (n, printer) at b in cc
]
blocked-PrinterWaits q s taking b = elim (Option-cases (wait_semaphore s.mutex)) [
  | inl n ↦ waited_none s.mutex n
  | inr (m, n) ↦ let c = rw (n, printer) at b in cc
]
blocked-PrinterWaits q s removing b = cc
blocked-PrinterWaits q s releasing b = cc
blocked-PrinterWaits q s freeing b = cc

sum_of_blocked {ℓ} :
    {A : Type ℓ} (blocked : A → Type 0) (weight : A → ℕ) (xs : List A)
    → ((x : A) → blocked x → weight x ≡ 0)
    → AllOf blocked xs
    → sum_of weight xs ≡ 0
sum_of_blocked blocked weight [] h a = refl
sum_of_blocked blocked weight (x ∷ xs) h a =
    omega (arith, h x a.0, sum_of_blocked blocked weight xs h a.1)

user_outside : (s : Semaphores) (u : User) → UserWaits s u → user_inside u ≡ 0
user_outside s thinking b = refl
user_outside s (ready job) b = refl
user_outside s (claiming job) b = refl
user_outside s (copying job) b = elim b [ ]
user_outside s advancing b = elim b [ ]
user_outside s unlocking b = elim b [ ]
user_outside s announcing b = elim b [ ]

printer_outside : (s : Semaphores) (p : Printer) → PrinterWaits s p → printer_inside p ≡ 0
printer_outside s idle b = refl
printer_outside s taking b = refl
printer_outside s removing b = elim b [ ]
printer_outside s releasing b = elim b [ ]
printer_outside s freeing b = elim b [ ]

-- While SEM_MUTEX is free, who waits does so for a slot.
user_free :
    (s : Semaphores) (u : User) → s.mutex ≡ 1 → UserWaits s u → (user_holds u ≡ 0) × (s.empty ≡ 0)
user_free s thinking m b = elim b [ ]
user_free s (ready job) m b = (refl, b)
user_free s (claiming job) m b = absurd (omega (arith, m, b))
user_free s (copying job) m b = elim b [ ]
user_free s advancing m b = elim b [ ]
user_free s unlocking m b = elim b [ ]
user_free s announcing m b = elim b [ ]

printer_free :
    (s : Semaphores) (p : Printer)
    → s.mutex ≡ 1
    → PrinterWaits s p
    → (printer_holds p ≡ 0) × (s.full ≡ 0)
printer_free s idle m b = (refl, b)
printer_free s taking m b = absurd (omega (arith, m, b))
printer_free s removing m b = elim b [ ]
printer_free s releasing m b = elim b [ ]
printer_free s freeing m b = elim b [ ]

head_of {ℓ} :
    {A : Type ℓ} (holds : A → Type 0) (xs : List A) → xs ≢ [] → AllOf holds xs → (x : A) × holds x
head_of holds [] n a = absurd (n refl)
head_of holds (x ∷ xs) n a = (x, a.0)

-- While the totals of the semaphores hold and there are at least one user and one printer, not all
-- processes are blocked at once: the step of some process changes something.
pub never_all_blocked :
    (y : System)
    → IsSound y
    → y.users ≢ []
    → y.printers ≢ []
    → ¬ (
        AllOf (UserBlocked y.queue y.semaphores) y.users
        × AllOf (PrinterBlocked y.queue y.semaphores) y.printers)
never_all_blocked y v n m (a, b) =
    let s = y.semaphores in
    let waits = blocked-UserWaits y.queue s in
    let waits' = blocked-PrinterWaits y.queue s in
    let (u, k) = head_of (UserBlocked y.queue s) y.users n a in
    let (p, l) = head_of (PrinterBlocked y.queue s) y.printers m b in
    let i =
      sum_of_blocked (UserBlocked y.queue s) user_inside y.users
        (λ x h. user_outside s x (waits x h)) a in
    let j =
      sum_of_blocked (PrinterBlocked y.queue s) printer_inside y.printers
        (λ x h. printer_outside s x (waits' x h)) b in
    let free : s.mutex ≡ 1 = omega (arith, i, j, v.exclusive) in
    let g =
      sum_of_blocked (UserBlocked y.queue s) user_holds y.users
        (λ x h. (user_free s x free (waits x h)).0) a in
    let h =
      sum_of_blocked (PrinterBlocked y.queue s) printer_holds y.printers
        (λ x h. (printer_free s x free (waits' x h)).0) b in
    omega (
      arith,
      v.shared,
      g,
      h,
      (user_free s u free (waits u k)).1,
      (printer_free s p free (waits' p l)).1,
    )
