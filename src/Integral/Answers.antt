-- ===== src/Integral/Answers.antt =====
-- Lab 6/zad2_1.c and Lab 6/zad2_2.c: the numbers arrive in the order in which they are written, and
-- what is printed is the integral of the numbers that were given.
use operating_systems_course.Common.{
  ℕ, ◌≡◌, refl, ap, Bool, true, false, some, List, [], ◌∷◌, ◌++◌, ℤ, arith, Bool-cases,
  Option-cases, List-cases, inl, inr,
}
use operating_systems_course.Integral.Double.{Double}
use operating_systems_course.Integral.Riemann.{calculate_integral}
use operating_systems_course.Integral.Fifos.{
  Item, int, double, Client, starting, opens_to_calculate, opens_result, writing_start, writing_end,
  writing_size, reading_result, printed, Server, unstarted, opening_to_calculate, opening_result,
  reading_start, reading_end, reading_size, computing, answered, lost, State, start, Turn,
  of_client, of_server, client_opens_to_calculate, client_opens_result, server_opens_to_calculate,
  server_opens_result, client_step, read_int, read_double, server_step, step, run,
}

module _ {W : Type 0} ⦃d : Double W⦄ (start_ end_ : ℤ) (size : W) where
  -- What the client has written so far.
  abbrev pub written : Client W → List (Item W)
  written writing_end = int start_ ∷ []
  written writing_size = int start_ ∷ int end_ ∷ []
  written reading_result = int start_ ∷ int end_ ∷ double size ∷ []
  written (printed r) = int start_ ∷ int end_ ∷ double size ∷ []
  written c = []

  -- What the server has read so far, and what it has kept of that.
  abbrev pub Taken : Server W → List (Item W) → List (Item W) → Type 0
  Taken (reading_end a) all pipe = all ≡ int a ∷ pipe
  Taken (reading_size a b) all pipe = all ≡ int a ∷ int b ∷ pipe
  Taken (computing a b x) all pipe = all ≡ int a ∷ int b ∷ double x ∷ pipe
  Taken answered all pipe = Unit
  Taken lost all pipe = Unit
  Taken s all pipe = all ≡ pipe

  -- The loop of `calculate_integral` on the numbers that were given ends with r.
  abbrev pub IsAnswer : W → Type 0
  IsAnswer r =
      (fuel : ℕ) × (calculate_integral fuel (d.of_int start_) (d.of_int end_) size ≡ some r)

  abbrev pub IsPrinted : Client W → Type 0
  IsPrinted (printed r) = IsAnswer r
  IsPrinted c = Unit

  -- What waits for the client: nothing before the server has answered, at most one answer then.
  abbrev pub has_answered : Server W → Bool
  has_answered s = elim s [ answered ↦ true | _ ↦ false ]

  abbrev pub IsWaiting : Bool → List W → Type 0
  IsWaiting true result = (r : W) (rest : List W) → result ≡ r ∷ rest → IsAnswer r × (rest ≡ [])
  IsWaiting false result = result ≡ []

  pub record IsSound (s : State W) : Type 0 where
    pub taken : Taken s.server (written s.client) s.to_calculate
    pub waiting : IsWaiting (has_answered s.server) s.result
    pub shown : IsPrinted s.client

  -- A `write` of the client is behind all that is in the FIFO.
  Taken-++ :
      (s : Server W) (all pipe more : List (Item W))
      → Taken s all pipe
      → Taken s (all ++ more) (pipe ++ more)
  Taken-++ unstarted all pipe more h = ap (λ l. l ++ more) h
  Taken-++ opening_to_calculate all pipe more h = ap (λ l. l ++ more) h
  Taken-++ opening_result all pipe more h = ap (λ l. l ++ more) h
  Taken-++ reading_start all pipe more h = ap (λ l. l ++ more) h
  Taken-++ (reading_end a) all pipe more h = ap (λ l. l ++ more) h
  Taken-++ (reading_size a b) all pipe more h = ap (λ l. l ++ more) h
  Taken-++ (computing a b x) all pipe more h = ap (λ l. l ++ more) h
  Taken-++ answered all pipe more h = h
  Taken-++ lost all pipe more h = h

  IsWaiting-pop :
      (b : Bool) (r : W) (rest : List W) → IsWaiting b (r ∷ rest) → IsAnswer r × IsWaiting b rest
  IsWaiting-pop true r rest h =
      let (good, none_left) = h r rest refl in (good, λ r' rest' e. ground (arith, none_left, e))
  IsWaiting-pop false r rest h = cc

  module _ (s : State W) (v : IsSound s) where
    pub client_step-IsSound :
        (c : Client W) → s.client ≡ c → IsSound (client_step start_ end_ size c s)
    unfolding client_step
    client_step-IsSound starting e =
        let old = rw e at v.taken in record { taken = old; waiting = v.waiting; shown = tt }
    client_step-IsSound opens_to_calculate e =
        let old = rw e at v.taken in
        elim (Bool-cases (server_opens_to_calculate s.server)) [
          | inl on ↦ rw (on, client_step) (record { taken = old; waiting = v.waiting; shown = tt })
          | inr off ↦ rw (off, client_step) v
        ]
    client_step-IsSound opens_result e =
        let old = rw e at v.taken in
        elim (Bool-cases (server_opens_result s.server)) [
          | inl on ↦ rw (on, client_step) (record { taken = old; waiting = v.waiting; shown = tt })
          | inr off ↦ rw (off, client_step) v
        ]
    client_step-IsSound writing_start e =
        let old = rw e at v.taken in
        record {
          taken = Taken-++ s.server [] s.to_calculate (int start_ ∷ []) old;
          waiting = v.waiting;
          shown = tt;
        }
    client_step-IsSound writing_end e =
        let old = rw e at v.taken in
        record {
          taken = Taken-++ s.server (int start_ ∷ []) s.to_calculate (int end_ ∷ []) old;
          waiting = v.waiting;
          shown = tt;
        }
    client_step-IsSound writing_size e =
        let old = rw e at v.taken in
        record {
          taken =
              Taken-++ s.server (int start_ ∷ int end_ ∷ []) s.to_calculate (double size ∷ []) old;
          waiting = v.waiting;
          shown = tt;
        }
    client_step-IsSound reading_result e =
        let old = rw e at v.taken in
        elim (List-cases s.result) [
          | inl none_yet ↦ rw (none_yet, client_step) v
          | inr (r, rest, p) ↦
              let (good, left) = IsWaiting-pop (has_answered s.server) r rest (rw p at v.waiting) in
              rw (p, client_step) (record { taken = old; waiting = left; shown = good })
        ]
    client_step-IsSound (printed r) e = v

    module _ (no_answer : s.result ≡ []) where
      read_int-IsSound :
          (next : ℤ → Server W)
          → ((n : ℤ) → has_answered (next n) ≡ false)
          → ((n : ℤ) (rest : List (Item W))
              → s.to_calculate ≡ int n ∷ rest
              → Taken (next n) (written s.client) rest)
          → IsSound (read_int next s)
      unfolding read_int
      read_int-IsSound next quiet on = elim (List-cases s.to_calculate) [
        | inl empty ↦ rw (empty, read_int) v
        | inr (int n, rest, p) ↦
            rw (p, read_int)
              (record { taken = on n rest p; waiting = rw (quiet n) no_answer; shown = v.shown })
        | inr (double x, rest, p) ↦
            rw (p, read_int) (record { taken = tt; waiting = no_answer; shown = v.shown })
      ]

      read_double-IsSound :
          (next : W → Server W)
          → ((x : W) → has_answered (next x) ≡ false)
          → ((x : W) (rest : List (Item W))
              → s.to_calculate ≡ double x ∷ rest
              → Taken (next x) (written s.client) rest)
          → IsSound (read_double next s)
      unfolding read_double
      read_double-IsSound next quiet on = elim (List-cases s.to_calculate) [
        | inl empty ↦ rw (empty, read_double) v
        | inr (double x, rest, p) ↦
            rw (p, read_double)
              (record { taken = on x rest p; waiting = rw (quiet x) no_answer; shown = v.shown })
        | inr (int n, rest, p) ↦
            rw (p, read_double) (record { taken = tt; waiting = no_answer; shown = v.shown })
      ]

  all_taken :
      (c : Client W) (a b : ℤ) (x : W) (pipe : List (Item W))
      → written c ≡ int a ∷ int b ∷ double x ∷ pipe
      → (a ≡ start_) × (b ≡ end_) × (x ≡ size)
  all_taken starting a b x pipe e = cc
  all_taken opens_to_calculate a b x pipe e = cc
  all_taken opens_result a b x pipe e = cc
  all_taken writing_start a b x pipe e = cc
  all_taken writing_end a b x pipe e = cc
  all_taken writing_size a b x pipe e = cc
  all_taken reading_result a b x pipe e = (cc, cc, cc)
  all_taken (printed r) a b x pipe e = (cc, cc, cc)

  only-IsAnswer :
      (r r' : W) (rest : List W) → r ∷ [] ≡ r' ∷ rest → IsAnswer r → IsAnswer r' × (rest ≡ [])
  only-IsAnswer r r' rest same good = let p : r' ≡ r = cc in (rw p good, cc)

  pub server_step-IsSound :
      (fuel : ℕ) (p : Server W) (s : State W)
      → IsSound s
      → s.server ≡ p
      → IsSound (server_step fuel p s)
  unfolding server_step
  server_step-IsSound fuel unstarted s v e =
      let old = rw e at v.taken in
      let quiet = rw e at v.waiting in
      elim (Bool-cases s.exist) [
        | inl on ↦ rw (on, server_step) (record { taken = old; waiting = quiet; shown = v.shown })
        | inr off ↦ rw (off, server_step) (record { taken = tt; waiting = quiet; shown = v.shown })
      ]
  server_step-IsSound fuel opening_to_calculate s v e =
      let old = rw e at v.taken in
      let quiet = rw e at v.waiting in
      elim (Bool-cases (client_opens_to_calculate s.client)) [
        | inl on ↦ rw (on, server_step) (record { taken = old; waiting = quiet; shown = v.shown })
        | inr off ↦ rw (off, server_step) v
      ]
  server_step-IsSound fuel opening_result s v e =
      let old = rw e at v.taken in
      let quiet = rw e at v.waiting in
      elim (Bool-cases (client_opens_result s.client)) [
        | inl on ↦ rw (on, server_step) (record { taken = old; waiting = quiet; shown = v.shown })
        | inr off ↦ rw (off, server_step) v
      ]
  server_step-IsSound fuel reading_start s v e =
      read_int-IsSound s v (rw e at v.waiting) reading_end (λ n. refl)
        (λ n rest p. let old = rw e at v.taken in rw p at old)
  server_step-IsSound fuel (reading_end a) s v e =
      read_int-IsSound s v (rw e at v.waiting) (reading_size a) (λ n. refl)
        (λ n rest p. let old = rw e at v.taken in rw p at old)
  server_step-IsSound fuel (reading_size a b) s v e =
      read_double-IsSound s v (rw e at v.waiting) (computing a b) (λ n. refl)
        (λ n rest p. let old = rw e at v.taken in rw p at old)
  server_step-IsSound fuel (computing a b x) s v e =
      let old = rw e at v.taken in
      let quiet : s.result ≡ [] = rw e at v.waiting in
      let (p, q, t) = all_taken s.client a b x s.to_calculate old in
      elim (Option-cases (calculate_integral fuel (d.of_int a) (d.of_int b) x)) [
        | inl n ↦ rw (n, server_step) v
        | inr (r, n) ↦
            let good : IsAnswer r = (fuel, rw (p, q, t) at n) in
            rw (n, quiet, server_step)
              (record {
                taken = tt;
                waiting = λ r' rest same. only-IsAnswer r r' rest same good;
                shown = v.shown;
              })
      ]
  server_step-IsSound fuel answered s v e = v
  server_step-IsSound fuel lost s v e = v

  pub run_answers_soundly :
      (turns : List Turn) (s : State W) → IsSound s → IsSound (run start_ end_ size turns s)
  unfolding run step
  run_answers_soundly [] s v = v
  run_answers_soundly (of_client ∷ turns) s v =
      run_answers_soundly turns (client_step start_ end_ size s.client s)
        (client_step-IsSound s v s.client refl)
  run_answers_soundly (of_server fuel ∷ turns) s v =
      run_answers_soundly turns (server_step fuel s.server s)
        (server_step-IsSound fuel s.server s v refl)

  -- Whether or not the FIFOs were there before, and however the two programs interleave: what zad2_1
  -- prints, if it prints, is the result of `calculate_integral` on the start, the end and the width
  -- that it was given.
  pub printed-IsAnswer :
      (exist : Bool) (turns : List Turn) (r : W)
      → (run start_ end_ size turns (start exist)).client ≡ printed r
      → IsAnswer r
  printed-IsAnswer exist turns r e =
      let sound =
        run_answers_soundly turns (start exist)
          (record { taken = refl; waiting = refl; shown = tt }) in
      rw e at sound.shown
