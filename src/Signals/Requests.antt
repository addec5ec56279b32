-- ===== src/Signals/Requests.antt =====
-- Lab 5/catcher.c: what each mode does, and that every request that arrives is confirmed.
use operating_systems_course.Common.{
  ℕ, zero, suc, ◌+◌, ◌*◌, ◌≤◌, ◌≡◌, ◌≢◌, refl, ap, Bool, true, false, none, some, List, [], ◌∷◌,
  replicate, ℤ, pos, negsuc, arith,
}
use operating_systems_course.Signals.Catcher.{
  Stage, checking, clearing, numbering, pausing, waiting, finished, Disposition, handled, ignored,
  State, Effect, confirm, show_count, show_number, show_end, switch, main_step, handle_signal,
  Event, go_on, deliver, step, run,
}

-- The catcher in `pause`, with a request that arrives.
abbrev pub asked : ℤ → ℕ → ℤ → ℕ → ℕ → Disposition → State
asked value pid mode count sender interrupt = record {
  mode = mode;
  count = count;
  sender_pid = sender;
  should_exit = false;
  interrupt = interrupt;
  pending = some (value, pid);
  stage = waiting;
}

-- The state that the request leaves.
abbrev pub served : ℤ → ℕ → ℕ → Disposition → Bool → Stage → State
served mode pid count interrupt exits stage = record {
  mode = mode;
  count = count + 1;
  sender_pid = pid;
  should_exit = exits;
  interrupt = interrupt;
  pending = none;
  stage = stage;
}

-- The delivery and that many steps of `main`.
abbrev pub obey : ℕ → List Event
obey n = deliver ∷ replicate n go_on

-- The numbers that `print_numbers` writes from num on.
abbrev pub numbers : ℕ → ℕ → List Effect
numbers num zero = []
numbers num (suc k) = show_number num ∷ numbers (num + 1) k

-- The default of the `switch`.
switch-other : (value : ℤ) → ((j : ℕ) → 1 ≤ j → j ≤ 5 → value ≢ pos j) → switch value ≡ pausing
unfolding switch
switch-other (pos n) h =
    let other : (j : ℕ) → 1 ≤ j → j ≤ 5 → n ≢ j = λ j a b e. h j a b (ap pos e) in
    ground (
      arith,
      other 1 (omega arith) (omega arith),
      other 2 (omega arith) (omega arith),
      other 3 (omega arith) (omega arith),
      other 4 (omega arith) (omega arith),
      other 5 (omega arith) (omega arith),
    )
switch-other (negsuc n) h = refl

module _ (pid : ℕ) (mode : ℤ) (count sender : ℕ) (interrupt : Disposition) where
  obey_first : run (obey 7) (asked (pos 1) pid mode count sender interrupt) ≡ (
    served (pos 0) pid count interrupt false waiting,
    confirm pid ∷ show_count (count + 1) ∷ [],
  )
  unfolding run step main_step handle_signal switch
  obey_first = refl

  obey_fifth :
      run (obey 4) (asked (pos 5) pid mode count sender interrupt)
      ≡ (served (pos 5) pid count interrupt true finished, confirm pid ∷ show_end ∷ [])
  unfolding run step main_step handle_signal switch
  obey_fifth = refl

  -- `print_numbers` goes on with one number for every step.
  numbers_go_on :
      (k num : ℕ) (c pid : ℕ) (interrupt : Disposition)
      → run (replicate k go_on) (served (pos 2) pid c interrupt false (numbering num))
        ≡ (served (pos 2) pid c interrupt false (numbering (num + k)), numbers num k)
  unfolding run step main_step
  numbers_go_on zero num c pid interrupt = let e : num + 0 ≡ num = omega arith in rw e refl
  numbers_go_on (suc k) num c pid interrupt =
      let e : num + suc k ≡ num + 1 + k = omega arith in
      rw (e, numbers_go_on k (num + 1) c pid interrupt) refl

  obey_second :
      (k : ℕ)
      → run (obey (k + 2)) (asked (pos 2) pid mode count sender interrupt)
        ≡ (served (pos 2) pid count interrupt false (numbering (k + 1)), confirm pid ∷ numbers 1 k)
  unfolding run step main_step handle_signal switch
  obey_second k =
      let e : k + 2 ≡ suc (suc k) = omega arith in
      let e' : k + 1 ≡ 1 + k = omega arith in rw (e, e', numbers_go_on k 1 count pid interrupt) refl

  cycles :
      (k c : ℕ)
      → (run (replicate (k * 3) go_on) (served (pos 3) pid c ignored false checking)
          ≡ (served (pos 3) pid c ignored false checking, []))
        × (run (replicate (k * 3) go_on) (served (pos 4) pid c handled false checking)
            ≡ (served (pos 4) pid c handled false checking, []))
  unfolding run step main_step switch
  cycles zero c = (refl, refl)
  cycles (suc k) c =
      let e : suc k * 3 ≡ suc (suc (suc (k * 3))) = omega arith in
      let (p, q) = cycles k c in (rw (e, p) refl, rw (e, q) refl)

  obey_dispositions :
      (k : ℕ)
      → (run (obey (k * 3 + 3)) (asked (pos 3) pid mode count sender interrupt)
          ≡ (served (pos 3) pid count ignored false checking, confirm pid ∷ []))
        × (run (obey (k * 3 + 3)) (asked (pos 4) pid mode count sender interrupt)
            ≡ (served (pos 4) pid count handled false checking, confirm pid ∷ []))
  unfolding run step main_step handle_signal switch
  obey_dispositions k =
      let e : k * 3 + 3 ≡ suc (suc (suc (k * 3))) = omega arith in
      let (p, q) = cycles k count in (rw (e, p) refl, rw (e, q) refl)

  obey_other :
      (value : ℤ)
      → ((j : ℕ) → 1 ≤ j → j ≤ 5 → value ≢ pos j)
      → run (obey 3) (asked value pid mode count sender interrupt)
        ≡ (served value pid count interrupt false waiting, confirm pid ∷ [])
  unfolding run step main_step handle_signal
  obey_other value h = rw (switch-other value h) refl

  -- A request that comes to the catcher in `pause` is confirmed and counted. Then, as long as no other
  -- signal comes: mode 1 prints the count, sets the mode to 0 and pauses again; mode 2 prints the
  -- numbers from 1 on, one for each step; modes 3 and 4 set the disposition of SIGINT, again in every
  -- round of the loop, and never pause; mode 5 ends the program; any mode but these five pauses again.
  pub obey_lem :
      (k : ℕ) (value : ℤ)
      → ((j : ℕ) → 1 ≤ j → j ≤ 5 → value ≢ pos j)
      → (run (obey 7) (asked (pos 1) pid mode count sender interrupt) ≡ (
        served (pos 0) pid count interrupt false waiting,
        confirm pid ∷ show_count (count + 1) ∷ [],
      ))
        × (run (obey (k + 2)) (asked (pos 2) pid mode count sender interrupt) ≡ (
          served (pos 2) pid count interrupt false (numbering (k + 1)),
          confirm pid ∷ numbers 1 k,
        ))
        × (run (obey (k * 3 + 3)) (asked (pos 3) pid mode count sender interrupt)
            ≡ (served (pos 3) pid count ignored false checking, confirm pid ∷ []))
        × (run (obey (k * 3 + 3)) (asked (pos 4) pid mode count sender interrupt)
            ≡ (served (pos 4) pid count handled false checking, confirm pid ∷ []))
        × (run (obey 4) (asked (pos 5) pid mode count sender interrupt)
            ≡ (served (pos 5) pid count interrupt true finished, confirm pid ∷ show_end ∷ []))
        × (run (obey 3) (asked value pid mode count sender interrupt)
            ≡ (served value pid count interrupt false waiting, confirm pid ∷ []))
  obey_lem k value h =
      let (third, fourth) = obey_dispositions k in
      (obey_first, obey_second k, third, fourth, obey_fifth, obey_other value h)

-- A request that comes between the output of mode 1 and the assignment behind it is confirmed and
-- counted, but nothing of it is done: the mode is 0 again when the catcher pauses.
request_lost :
    (value : ℤ) (pid count sender : ℕ) (interrupt : Disposition)
    → run (obey 4) (record (asked value pid (pos 1) count sender interrupt) { stage = clearing })
      ≡ (served (pos 0) pid count interrupt false waiting, confirm pid ∷ [])
unfolding run step main_step handle_signal switch
request_lost value pid count sender interrupt = refl
