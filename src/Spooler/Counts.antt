-- ===== src/Spooler/Counts.antt =====
-- Lab 8/zad1.c: what the semaphores count, over all processes.
use operating_systems_course.Common.{
  ℕ, zero, suc, ◌+◌, ◌%◌, ◌≤◌, ◌<◌, ◌≡◌, refl, ap, some, List, [], ◌∷◌, get_elem?, set, length,
  replicate, arith,
}
use operating_systems_course.Spooler.Defs.{
  User, thinking, ready, copying, advancing, unlocking, announcing, Printer, idle, taking, removing,
  releasing, System,
}

-- A sum over all processes.
abbrev pub sum_of {ℓ} : {A : Type ℓ} → (A → ℕ) → List A → ℕ
sum_of weight [] = 0
sum_of weight (x ∷ xs) = weight x + sum_of weight xs

pub sum_of-set {ℓ} :
    {A : Type ℓ} (weight : A → ℕ) (xs : List A) (i : ℕ) (old new : A)
    → get_elem? xs i ≡ some old
    → sum_of weight (set xs i new) + weight old ≡ sum_of weight xs + weight new
sum_of-set weight [] i old new e = cc
sum_of-set weight (x ∷ xs) zero old new e = let same : x ≡ old = cc in omega (arith, ap weight same)
sum_of-set weight (x ∷ xs) (suc i) old new e = omega (arith, sum_of-set weight xs i old new e)

pub below-sum_of {ℓ} :
    {A : Type ℓ} (weight : A → ℕ) (xs : List A) (i : ℕ) (x : A)
    → get_elem? xs i ≡ some x
    → weight x ≤ sum_of weight xs
below-sum_of weight [] i x e = cc
below-sum_of weight (y ∷ xs) zero x e = let same : y ≡ x = cc in omega (arith, ap weight same)
below-sum_of weight (y ∷ xs) (suc i) x e = omega (arith, below-sum_of weight xs i x e)

pub sum_of-replicate {ℓ} :
    {A : Type ℓ} (weight : A → ℕ) (n : ℕ) (x : A) → weight x ≡ 0 → sum_of weight (replicate n x) ≡ 0
sum_of-replicate weight zero x e = refl
sum_of-replicate weight (suc n) x e = omega (arith, sum_of-replicate weight n x e, e)

-- Between the wait for SEM_MUTEX and its signal.
abbrev pub user_inside : User → ℕ
user_inside (copying job) = 1
user_inside advancing = 1
user_inside unlocking = 1
user_inside u = 0

abbrev pub printer_inside : Printer → ℕ
printer_inside removing = 1
printer_inside releasing = 1
printer_inside p = 0

-- Between the wait for a slot and the signal of the other semaphore.
abbrev pub user_holds : User → ℕ
user_holds thinking = 0
user_holds (ready job) = 0
user_holds u = 1

abbrev pub printer_holds : Printer → ℕ
printer_holds idle = 0
printer_holds p = 1

-- Of these, the slots that are in the queue.
abbrev pub user_queued : User → ℕ
user_queued unlocking = 1
user_queued announcing = 1
user_queued u = 0

abbrev pub printer_queued : Printer → ℕ
printer_queued taking = 1
printer_queued removing = 1
printer_queued p = 0

abbrev pub inside : System → ℕ
inside y = sum_of user_inside y.users + sum_of printer_inside y.printers

abbrev pub held : System → ℕ
held y = sum_of user_holds y.users + sum_of printer_holds y.printers

-- The number of jobs in the queue.
abbrev pub queued : System → ℕ
queued y = y.semaphores.full + (sum_of user_queued y.users + sum_of printer_queued y.printers)

pub record IsSound (y : System) : Type 0 where
  pub slots : length y.queue.jobs ≡ 10
  pub exclusive : y.semaphores.mutex + inside y ≡ 1
  pub shared : y.semaphores.empty + y.semaphores.full + held y ≡ 10
  pub ring : (y.queue.head + queued y) % 10 ≡ y.queue.tail
  pub head_bound : y.queue.head < 10
