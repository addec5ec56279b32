-- ===== src/Integral/Reached.antt =====
-- Lab 6/zad2_1.c and Lab 6/zad2_2.c: the two programs never wait for each other for good.
use operating_systems_course.Common.{
  ◌≡◌, ◌⊎◌, refl, ap, true, some, List, [], ◌∷◌, ℤ, arith, List-cases, inl, inr, can_end,
}
use operating_systems_course.Integral.Double.{Double}
use operating_systems_course.Integral.Riemann.{calculate_integral}
use operating_systems_course.Integral.Fifos.{
  int, double, Client, starting, opens_to_calculate, opens_result, writing_start, writing_end,
  writing_size, reading_result, printed, Server, unstarted, opening_to_calculate, opening_result,
  reading_start, reading_end, reading_size, computing, answered, lost, State, start, Turn,
  of_client, of_server, client_opens_to_calculate, client_opens_result, client_step, read_int,
  read_double, server_step, step, run,
}
use operating_systems_course.Integral.Answers.{IsAnswer, IsSound}
use operating_systems_course.Integral.Answers.{server_step-IsSound, client_step-IsSound}
use operating_systems_course.Integral.Replies.{
  client_work, server_work, work, IsLive, client_step-IsLive,
}
use operating_systems_course.Integral.Dialogue.{
  server_step-IsLive, GoesOn, HasAnswer, client_turn, server_turn, server_starts, server_opens,
  server_opens_other, client_opens, client_opens_other,
}

module _ {W : Type 0} ⦃d : Double W⦄ (start_ end_ : ℤ) (size : W) where
  module _ (answer : (r : W) × IsAnswer start_ end_ size r) where
    server_computes :
        (a b : ℤ) (x : W) (s : State W)
        → s.server ≡ computing a b x
        → s.client ≡ reading_result
        → IsSound start_ end_ size s
        → GoesOn start_ end_ size s
    unfolding server_step
    server_computes a b x s e c v =
        let all : int start_ ∷ int end_ ∷ double size ∷ []
            ≡ int a ∷ int b ∷ double x ∷ s.to_calculate =
          rw (e, c) at v.taken in
        let (r, (fuel, n)) = answer in
        let first : start_ ≡ a = cc in
        let second : end_ ≡ b = cc in
        let third : size ≡ x = cc in
        let n' : calculate_integral fuel (d.of_int a) (d.of_int b) x ≡ some r =
          rw (first, second, third) at n in
        let w : server_work s.server ≡ 1 = ap server_work e in
        server_turn start_ end_ size fuel (computing a b x) s e
          (rw (n', server_step) (omega (arith, w)))

    client_reads :
        (p : Server W) (s : State W)
        → s.server ≡ p
        → s.client ≡ reading_result
        → IsSound start_ end_ size s
        → IsLive start_ end_ size s
        → GoesOn start_ end_ size s
    unfolding server_step read_int read_double client_step
    client_reads unstarted s e c v l = server_starts start_ end_ size s e l
    client_reads opening_to_calculate s e c v l =
        server_opens start_ end_ size s e (ap client_opens_to_calculate c)
    client_reads opening_result s e c v l =
        server_opens_other start_ end_ size s e (ap client_opens_result c)
    client_reads reading_start s e c v l =
        let all : int start_ ∷ int end_ ∷ double size ∷ [] ≡ s.to_calculate =
          rw (e, c) at v.taken in
        let w : server_work s.server ≡ 4 = ap server_work e in
        server_turn start_ end_ size 0 reading_start s e
          (rw (← all, server_step, read_int) (omega (arith, w)))
    client_reads (reading_end a) s e c v l =
        let all : int start_ ∷ int end_ ∷ double size ∷ [] ≡ int a ∷ s.to_calculate =
          rw (e, c) at v.taken in
        let rest : s.to_calculate ≡ int end_ ∷ double size ∷ [] = cc in
        let w : server_work s.server ≡ 3 = ap server_work e in
        server_turn start_ end_ size 0 (reading_end a) s e
          (rw (rest, server_step, read_int) (omega (arith, w)))
    client_reads (reading_size a b) s e c v l =
        let all : int start_ ∷ int end_ ∷ double size ∷ [] ≡ int a ∷ int b ∷ s.to_calculate =
          rw (e, c) at v.taken in
        let rest : s.to_calculate ≡ double size ∷ [] = cc in
        let w : server_work s.server ≡ 2 = ap server_work e in
        server_turn start_ end_ size 0 (reading_size a b) s e
          (rw (rest, server_step, read_double) (omega (arith, w)))
    client_reads (computing a b x) s e c v l = server_computes a b x s e c v
    client_reads answered s e c v l =
        let kept : s.result ≡ [] → ⊥ = rw (e, c) at l.kept in
        let w : client_work s.client ≡ 1 = ap client_work c in
        client_turn start_ end_ size reading_result s c (elim (List-cases s.result) [
          | inl none_yet ↦ absurd (kept none_yet)
          | inr (r, rest, p) ↦ rw (p, client_step) (omega (arith, w))
        ])
    client_reads lost s e c v l = absurd (l.found e)

    goes_on :
        (c : Client W) (s : State W)
        → s.client ≡ c
        → IsSound start_ end_ size s
        → IsLive start_ end_ size s
        → GoesOn start_ end_ size s ⊎ HasAnswer start_ end_ size s
    unfolding client_step
    goes_on starting s c v l =
        let w : client_work s.client ≡ 7 = ap client_work c in
        inl (client_turn start_ end_ size starting s c (omega (arith, w)))
    goes_on opens_to_calculate s c v l = inl (client_opens start_ end_ size s.server s refl c l)
    goes_on opens_result s c v l = inl (client_opens_other start_ end_ size s.server s refl c l)
    goes_on writing_start s c v l =
        let w : client_work s.client ≡ 4 = ap client_work c in
        inl (client_turn start_ end_ size writing_start s c (omega (arith, w)))
    goes_on writing_end s c v l =
        let w : client_work s.client ≡ 3 = ap client_work c in
        inl (client_turn start_ end_ size writing_end s c (omega (arith, w)))
    goes_on writing_size s c v l =
        let w : client_work s.client ≡ 2 = ap client_work c in
        inl (client_turn start_ end_ size writing_size s c (omega (arith, w)))
    goes_on reading_result s c v l = inl (client_reads s.server s refl c v l)
    goes_on (printed r) s c v l = inr (r, c, rw c at v.shown)

    record IsGood (s : State W) : Type 0 where
      sound : IsSound start_ end_ size s
      live : IsLive start_ end_ size s

    step-IsGood : (t : Turn) (s : State W) → IsGood s → IsGood (step start_ end_ size t s)
    unfolding step
    step-IsGood of_client s v = record {
      sound = client_step-IsSound start_ end_ size s v.sound s.client refl;
      live = client_step-IsLive start_ end_ size s v.live s.client refl;
    }
    step-IsGood (of_server fuel) s v = record {
      sound = server_step-IsSound start_ end_ size fuel s.server s v.sound refl;
      live = server_step-IsLive start_ end_ size fuel s.server s refl v.sound v.live;
    }

    run_keeps-IsGood :
        (turns : List Turn) (s : State W) → IsGood s → IsGood (run start_ end_ size turns s)
    unfolding run
    run_keeps-IsGood [] s v = v
    run_keeps-IsGood (t ∷ turns) s v =
        run_keeps-IsGood turns (step start_ end_ size t s) (step-IsGood t s v)

    -- The FIFOs are there from the start, and the integral of the numbers that are given ends.
    -- However the two programs have interleaved, there are turns that bring zad2_1 to print, and what
    -- it then prints, or has printed before, is the result of `calculate_integral` on the start, the
    -- end and the width that it was given.
    pub run-HasAnswer :
        (turns : List Turn)
        → (more : List Turn) × HasAnswer start_ end_ size
            (run start_ end_ size more (run start_ end_ size turns (start true)))
    unfolding run
    run-HasAnswer turns =
        can_end (step start_ end_ size) (run start_ end_ size) (λ s. refl) (λ t more s. refl) work
          IsGood (HasAnswer start_ end_ size) step-IsGood
          (λ s v. goes_on s.client s refl v.sound v.live) (run start_ end_ size turns (start true))
          (run_keeps-IsGood turns (start true) (record {
            sound = record { taken = refl; waiting = refl; shown = tt };
            live = record { made = refl; found = λ q. cc; kept = tt };
          }))
