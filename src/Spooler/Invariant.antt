-- ===== src/Spooler/Invariant.antt =====
-- Lab 8/zad1.c: the totals hold in every run.
use operating_systems_course.Common.{
  ℕ, ◌+◌, ◌-◌, ◌%◌, ◌≤◌, ◌≡◌, refl, ◌∙◌, List, [], ◌∷◌, get_elem?, set, arith, Option-cases, inl,
  inr,
}
use operating_systems_course.Spooler.Defs.{
  Queue, Semaphores, thinking, idle, System, start, user, printer, Turn, of_user, of_printer, step,
  run,
}
use operating_systems_course.Spooler.Counts.{
  IsSound, below-sum_of, printer_holds, printer_inside, printer_queued, sum_of, sum_of-replicate,
  sum_of-set, user_holds, user_inside, user_queued,
}
use operating_systems_course.Spooler.Balance.{Balances, printer-Balances, user-Balances}

-- The ring over all processes, where the sum changes by what one of them counts.
ring_of :
    (q q' : Queue) (s s' : Semaphores) (a a' b b' c c' sum sum' others : ℕ)
    → Balances q q' s s' a a' b b' c c'
    → sum' + c ≡ sum + c'
    → c ≤ sum
    → (q.head + (s.full + (sum + others))) % 10 ≡ q.tail
    → (q'.head + (s'.full + (sum' + others))) % 10 ≡ q'.tail
ring_of q q' s s' a a' b b' c c' sum sum' others d e h k =
    let rest = sum - c + others in
    let before : c + rest ≡ sum + others = omega (arith, h) in
    let after : c' + rest ≡ sum' + others = omega (arith, e, h) in
    rw after at (d.ring rest (rw before k))

pub step-IsSound : (t : Turn) (y : System) → IsSound y → IsSound (step t y)
unfolding step
step-IsSound (of_user i job) y v = elim (Option-cases (get_elem? y.users i)) [
  | inl n ↦ rw (n, step) v
  | inr (u, n) ↦
      let u' = (user job u y.queue y.semaphores).0 in
      let b = user-Balances job u y.queue y.semaphores in
      let d = sum_of-set user_inside y.users i u u' n in
      let h = sum_of-set user_holds y.users i u u' n in
      rw (n, step)
        (record {
          slots = b.slots ∙ v.slots;
          exclusive = omega (arith, v.exclusive, b.mutex, d);
          shared = omega (arith, v.shared, b.total, h);
          ring =
              ring_of _ _ _ _ _ _ _ _ _ _ (sum_of user_queued y.users) _
                (sum_of printer_queued y.printers) b (sum_of-set user_queued y.users i u u' n)
                (below-sum_of user_queued y.users i u n) v.ring;
          head_bound = b.head_bound v.head_bound;
        })
]
step-IsSound (of_printer i) y v = elim (Option-cases (get_elem? y.printers i)) [
  | inl n ↦ rw (n, step) v
  | inr (p, n) ↦
      let p' = (printer p y.queue y.semaphores).0 in
      let b = printer-Balances p y.queue y.semaphores in
      let d = sum_of-set printer_inside y.printers i p p' n in
      let h = sum_of-set printer_holds y.printers i p p' n in
      let turned : (n m : ℕ) → n + m ≡ m + n = λ n m. omega arith in
      let users = sum_of user_queued y.users in
      rw (n, step)
        (record {
          slots = b.slots ∙ v.slots;
          exclusive = omega (arith, v.exclusive, b.mutex, d);
          shared = omega (arith, v.shared, b.total, h);
          ring = rw (turned users (sum_of printer_queued (set y.printers i p'))) (
              ring_of _ _ _ _ _ _ _ _ _ _ (sum_of printer_queued y.printers) _ users b
                (sum_of-set printer_queued y.printers i p p' n)
                (below-sum_of printer_queued y.printers i p n)
                (rw (turned users (sum_of printer_queued y.printers)) at v.ring));
          head_bound = b.head_bound v.head_bound;
        })
]

run_keeps-IsSound : (turns : List Turn) (y : System) → IsSound y → IsSound (run turns y)
unfolding run
run_keeps-IsSound [] y v = v
run_keeps-IsSound (t ∷ turns) y v = run_keeps-IsSound turns (step t y) (step-IsSound t y v)

pub start-IsSound :
    (users_number printers_number : ℕ) → IsSound (start users_number printers_number)
start-IsSound n m =
    let a = sum_of-replicate user_inside n thinking refl in
    let b = sum_of-replicate printer_inside m idle refl in
    let c = sum_of-replicate user_holds n thinking refl in
    let d = sum_of-replicate printer_holds m idle refl in
    let e = sum_of-replicate user_queued n thinking refl in
    let f = sum_of-replicate printer_queued m idle refl in
    record {
      slots = refl;
      exclusive = omega (arith, a, b);
      shared = omega (arith, c, d);
      ring = omega (arith, e, f);
      head_bound = omega arith;
    }

-- Whatever the numbers of users and printers and the order of their steps: SEM_MUTEX and the
-- processes between its wait and its signal make up 1, so that at most one process is there;
-- SEM_EMPTY, SEM_FULL and the processes between their waits and signals make up the ten slots; and
-- the jobs in the queue are those from `head` up to `tail`, around the ring.
pub run-IsSound :
    (users_number printers_number : ℕ) (turns : List Turn)
    → IsSound (run turns (start users_number printers_number))
run-IsSound n m turns = run_keeps-IsSound turns (start n m) (start-IsSound n m)
