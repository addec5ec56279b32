-- ===== src/Spooler/Ring.antt =====
-- Lab 8/zad1.c: a job that is copied into the queue overwrites no other.
use operating_systems_course.Common.{
  ℕ, zero, suc, ◌+◌, ◌%◌, ◌≤◌, ◌<◌, ◌≡◌, ◌≢◌, refl, ap, some, List, [], ◌∷◌, get_elem?, set, length,
  Bytes, arith,
}
use operating_systems_course.Spooler.Defs.{
  User, thinking, ready, claiming, copying, advancing, unlocking, announcing, Printer, idle, taking,
  removing, releasing, freeing, System, user, of_user, step,
}
use operating_systems_course.Spooler.Counts.{
  sum_of, user_holds, printer_holds, user_queued, printer_queued, queued, IsSound,
}

module _ {ℓ} {A : Type ℓ} where
  get_elem?-set_same :
      (xs : List A) (i : ℕ) (v : A) → i < length xs → get_elem? (set xs i v) i ≡ some v
  get_elem?-set_same [] i v h = absurd (omega (arith, h))
  get_elem?-set_same (x ∷ xs) zero v h = refl
  get_elem?-set_same (x ∷ xs) (suc i) v h = get_elem?-set_same xs i v (omega (arith, h))

  get_elem?-set_other :
      (xs : List A) (i j : ℕ) (v : A) → i ≢ j → get_elem? (set xs i v) j ≡ get_elem? xs j
  get_elem?-set_other [] i j v h = refl
  get_elem?-set_other (x ∷ xs) zero zero v h = absurd (h refl)
  get_elem?-set_other (x ∷ xs) zero (suc j) v h = refl
  get_elem?-set_other (x ∷ xs) (suc i) zero v h = refl
  get_elem?-set_other (x ∷ xs) (suc i) (suc j) v h =
      get_elem?-set_other xs i j v (λ e. h (ap suc e))

  -- Where one measure is nowhere above the other, nor is its sum; and if it is below it at one
  -- entry, so is its sum.
  pub sum_of_le :
      (low high : A → ℕ) (xs : List A) → ((x : A) → low x ≤ high x) → sum_of low xs ≤ sum_of high xs
  sum_of_le low high [] h = omega arith
  sum_of_le low high (x ∷ xs) h = omega (arith, h x, sum_of_le low high xs h)

  pub sum_of_lt :
      (low high : A → ℕ) (xs : List A) (i : ℕ) (x : A)
      → ((x : A) → low x ≤ high x)
      → get_elem? xs i ≡ some x
      → low x < high x
      → sum_of low xs < sum_of high xs
  sum_of_lt low high [] i x h e l = cc
  sum_of_lt low high (y ∷ xs) zero x h e l =
      let same : y ≡ x = cc in
      let l' : low y < high y = rw same l in omega (arith, l', sum_of_le low high xs h)
  sum_of_lt low high (y ∷ xs) (suc i) x h e l = omega (arith, h y, sum_of_lt low high xs i x h e l)

pub user_queued_le : (u : User) → user_queued u ≤ user_holds u
user_queued_le thinking = omega arith
user_queued_le (ready job) = omega arith
user_queued_le (claiming job) = omega arith
user_queued_le (copying job) = omega arith
user_queued_le advancing = omega arith
user_queued_le unlocking = omega arith
user_queued_le announcing = omega arith

pub printer_queued_le : (p : Printer) → printer_queued p ≤ printer_holds p
printer_queued_le idle = omega arith
printer_queued_le taking = omega arith
printer_queued_le removing = omega arith
printer_queued_le releasing = omega arith
printer_queued_le freeing = omega arith

room_left :
    (y : System) (i : ℕ) (job : Bytes)
    → IsSound y
    → get_elem? y.users i ≡ some (copying job)
    → queued y < 10
room_left y i job v e =
    let users =
      sum_of_lt user_queued user_holds y.users i (copying job) user_queued_le e (omega arith) in
    let printers = sum_of_le printer_queued printer_holds y.printers printer_queued_le in
    omega (arith, users, printers, v.shared)

pub apart : (head k n tail : ℕ) → k < n → n < 10 → (head + n) % 10 ≡ tail → tail ≢ (head + k) % 10
apart head k n tail h l e z = omega (arith, h, l, e, z)

-- While the totals of the semaphores hold, a user that copies its job into the queue finds a free slot: fewer than ten jobs are queued, every
-- one of them is left as it is, and the job then stands in the slot behind the last.
pub user_overwrites_nothing :
    (y : System) (i : ℕ) (job other : Bytes)
    → IsSound y
    → get_elem? y.users i ≡ some (copying job)
    → (queued y < 10)
      × ((k : ℕ)
          → k < queued y
          → get_elem? (step (of_user i other) y).queue.jobs ((y.queue.head + k) % 10)
            ≡ get_elem? y.queue.jobs ((y.queue.head + k) % 10))
      × (get_elem? (step (of_user i other) y).queue.jobs ((y.queue.head + queued y) % 10)
          ≡ some job)
unfolding step user
user_overwrites_nothing y i job other v e =
    let room = room_left y i job v e in
    let bound : y.queue.tail < length y.queue.jobs = omega (arith, v.ring, v.slots) in
    (
      room,
      λ k h.
          rw (e, step, user)
            (get_elem?-set_other y.queue.jobs y.queue.tail ((y.queue.head + k) % 10) job
              (apart y.queue.head k (queued y) y.queue.tail h room v.ring)),
      rw (v.ring, e, step, user) (get_elem?-set_same y.queue.jobs y.queue.tail job bound),
    )
