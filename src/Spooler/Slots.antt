-- ===== src/Spooler/Slots.antt =====
-- Lab 8/zad1.c: the jobs in the ring, and a queue of at most ten jobs.
use operating_systems_course.Common.{
  ℕ, zero, suc, ◌+◌, ◌%◌, ◌<◌, ◌≡◌, ◌≢◌, refl, ap, true, Option, none, some, if◌then◌else◌, ltb,
  List, [], ◌∷◌, ◌++◌, get_or, set, length, Bytes, arith,
}
use operating_systems_course.Spooler.Defs.{User, advancing, System}
use operating_systems_course.Spooler.Counts.{sum_of, queued}

-- What is done to a queue.
pub data Op : Type 0 where
  put : Bytes → Op
  take_first : Op

-- A queue with room for ten jobs: the jobs that are taken out in the course of the operations, and
-- those that are left; `none` if a job is put into a full queue or taken from an empty one.
unfoldable pub queue_run : List Op → List Bytes → Option (List Bytes × List Bytes)
queue_run [] xs = some ([], xs)
queue_run (put job ∷ ops) xs = if ltb (length xs) 10 then queue_run ops (xs ++ job ∷ []) else none
queue_run (take_first ∷ ops) [] = none
queue_run (take_first ∷ ops) (x ∷ xs) = elim (queue_run ops xs) [
  | none ↦ none
  | some (taken, left) ↦ some (x ∷ taken, left)
]

abbrev pub also {ℓ} : {A : Type ℓ} → Option A → List A → List A
also none xs = xs
also (some x) xs = x ∷ xs

-- At most one operation, the job that it takes out, and the jobs before and behind it.
pub data QueueStep : Option Op → Option Bytes → List Bytes → List Bytes → Type 0 where
  stay : (xs : List Bytes) → QueueStep none none xs xs
  add :
      (job : Bytes) (xs : List Bytes)
      → length xs < 10
      → QueueStep (some (put job)) none xs (xs ++ job ∷ [])
  remove : (x : Bytes) (xs : List Bytes) → QueueStep (some take_first) (some x) (x ∷ xs) xs

pub queue_run-also :
    (op : Option Op) (out : Option Bytes) (xs ys zs taken : List Bytes) (ops : List Op)
    → QueueStep op out xs ys
    → queue_run ops ys ≡ some (taken, zs)
    → queue_run (also op ops) xs ≡ some (also out taken, zs)
unfolding queue_run
queue_run-also op out xs ys zs taken ops (stay _) e = e
queue_run-also op out xs ys zs taken ops (add job _ few) e =
    let room : ltb (length xs) 10 ≡ true = ground (arith, few) in rw room e
queue_run-also op out xs ys zs taken ops (remove x _) e = rw e refl

-- n jobs from slot `head` on, around the ring.
abbrev pub slots : List Bytes → ℕ → ℕ → List Bytes
slots jobs head zero = []
slots jobs head (suc n) = get_or jobs (head % 10) [] ∷ slots jobs (head + 1) n

-- A job is in the ring from the copy on, although `tail` is only moved behind it.
abbrev pub advances : User → ℕ
advances advancing = 1
advances u = 0

abbrev pub stored : System → ℕ
stored y = queued y + sum_of advances y.users

abbrev pub contents : System → List Bytes
contents y = slots y.queue.jobs y.queue.head (stored y)

pub length-slots : (jobs : List Bytes) (head n : ℕ) → length (slots jobs head n) ≡ n
length-slots jobs head zero = refl
length-slots jobs head (suc n) = ap suc (length-slots jobs (head + 1) n)

pub slots-end :
    (jobs : List Bytes) (head n : ℕ)
    → slots jobs head (suc n) ≡ slots jobs head n ++ get_or jobs ((head + n) % 10) [] ∷ []
slots-end jobs head zero = let e : head + 0 ≡ head = omega arith in rw e refl
slots-end jobs head (suc n) =
    let e : head + suc n ≡ head + 1 + n = omega arith in
    rw e (ap (λ l. get_or jobs (head % 10) [] ∷ l) (slots-end jobs (head + 1) n))

pub slots-wrap :
    (jobs : List Bytes) (head head' n : ℕ)
    → head % 10 ≡ head' % 10
    → slots jobs head n ≡ slots jobs head' n
slots-wrap jobs head head' zero e = refl
slots-wrap jobs head head' (suc n) e =
    let e' : (head + 1) % 10 ≡ (head' + 1) % 10 = omega (arith, e) in
    rw (e, slots-wrap jobs (head + 1) (head' + 1) n e') refl

get_or-set_other :
    (jobs : List Bytes) (i j : ℕ) (job : Bytes)
    → i ≢ j
    → get_or (set jobs i job) j [] ≡ get_or jobs j []
get_or-set_other [] i j job h = refl
get_or-set_other (x ∷ xs) zero zero job h = absurd (h refl)
get_or-set_other (x ∷ xs) zero (suc j) job h = refl
get_or-set_other (x ∷ xs) (suc i) zero job h = refl
get_or-set_other (x ∷ xs) (suc i) (suc j) job h = get_or-set_other xs i j job (λ e. h (ap suc e))

pub get_or-set_same :
    (jobs : List Bytes) (i : ℕ) (job : Bytes) → i < length jobs → get_or (set jobs i job) i [] ≡ job
get_or-set_same [] i job h = absurd (omega (arith, h))
get_or-set_same (x ∷ xs) zero job h = refl
get_or-set_same (x ∷ xs) (suc i) job h = get_or-set_same xs i job (omega (arith, h))

pub slots-set :
    (jobs : List Bytes) (job : Bytes) (tail head n : ℕ)
    → ((k : ℕ) → k < n → tail ≢ (head + k) % 10)
    → slots (set jobs tail job) head n ≡ slots jobs head n
slots-set jobs job tail head zero h = refl
slots-set jobs job tail head (suc n) h =
    let e : head + 0 ≡ head = omega arith in
    let first : tail ≢ head % 10 = rw e at (h 0 (omega arith)) in
    rw
      (
        get_or-set_other jobs tail (head % 10) job first,
        slots-set jobs job tail (head + 1) n
            (λ k l p. h (suc k) (omega (arith, l)) (omega (arith, p))),
      )
      refl
