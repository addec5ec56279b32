-- ===== src/Integral/Dialogue.antt =====
-- Lab 6/zad2_1.c and Lab 6/zad2_2.c: how the FIFOs are opened.
use operating_systems_course.Common.{
  ℕ, ◌<◌, ◌≡◌, refl, ap, ◌∙◌, true, [], ◌∷◌, ℤ, arith, Bool-cases, Option-cases, List-cases, inl,
  inr,
}
use operating_systems_course.Integral.Double.{Double}
use operating_systems_course.Integral.Riemann.{calculate_integral}
use operating_systems_course.Integral.Fifos.{
  int, double, Client, opens_to_calculate, opens_result, printed, Server, unstarted,
  opening_to_calculate, opening_result, reading_start, reading_end, reading_size, computing,
  answered, lost, State, Turn, of_client, of_server, client_opens_to_calculate, client_opens_result,
  server_opens_to_calculate, server_opens_result, client_step, read_int, read_double, server_step,
  step,
}
use operating_systems_course.Integral.Answers.{written, IsAnswer, IsSound}
use operating_systems_course.Integral.Replies.{
  client_work, server_work, work, first_is_int, second_is_int, third_is_double, IsLive,
}

module _ {W : Type 0} ⦃d : Double W⦄ (start_ end_ : ℤ) (size : W) where
  pub server_step-IsLive :
      (fuel : ℕ) (p : Server W) (s : State W)
      → s.server ≡ p
      → IsSound start_ end_ size s
      → IsLive start_ end_ size s
      → IsLive start_ end_ size (server_step fuel p s)
  unfolding server_step read_int read_double
  server_step-IsLive fuel unstarted s e v l =
      rw (server_step, l.made) (record { made = refl; found = λ q. cc; kept = tt })
  server_step-IsLive fuel opening_to_calculate s e v l =
      elim (Bool-cases (client_opens_to_calculate s.client)) [
        | inl on ↦ rw (on, server_step) (record { made = l.made; found = λ q. cc; kept = tt })
        | inr off ↦ rw (off, server_step) l
      ]
  server_step-IsLive fuel opening_result s e v l =
      elim (Bool-cases (client_opens_result s.client)) [
        | inl on ↦ rw (on, server_step) (record { made = l.made; found = λ q. cc; kept = tt })
        | inr off ↦ rw (off, server_step) l
      ]
  server_step-IsLive fuel reading_start s e v l =
      let all : written start_ end_ size s.client ≡ s.to_calculate = rw e at v.taken in
      elim (List-cases s.to_calculate) [
        | inl empty ↦ rw (empty, server_step, read_int) l
        | inr (int m, rest, p) ↦
            rw (p, server_step, read_int) (record { made = l.made; found = λ q. cc; kept = tt })
        | inr (double x, rest, p) ↦ absurd (first_is_int start_ end_ size s.client x rest (all ∙ p))
      ]
  server_step-IsLive fuel (reading_end a) s e v l =
      let all : written start_ end_ size s.client ≡ int a ∷ s.to_calculate = rw e at v.taken in
      elim (List-cases s.to_calculate) [
        | inl empty ↦ rw (empty, server_step, read_int) l
        | inr (int m, rest, p) ↦
            rw (p, server_step, read_int) (record { made = l.made; found = λ q. cc; kept = tt })
        | inr (double x, rest, p) ↦
            absurd (second_is_int start_ end_ size s.client a x rest (all ∙ ap (λ q. int a ∷ q) p))
      ]
  server_step-IsLive fuel (reading_size a b) s e v l =
      let all : written start_ end_ size s.client ≡ int a ∷ int b ∷ s.to_calculate =
        rw e at v.taken in
      elim (List-cases s.to_calculate) [
        | inl empty ↦ rw (empty, server_step, read_double) l
        | inr (double x, rest, p) ↦
            rw (p, server_step, read_double) (record { made = l.made; found = λ q. cc; kept = tt })
        | inr (int m, rest, p) ↦ absurd (
            third_is_double start_ end_ size s.client a b m rest
              (all ∙ ap (λ q. int a ∷ int b ∷ q) p))
      ]
  server_step-IsLive fuel (computing a b x) s e v l =
      let quiet : s.result ≡ [] = rw e at v.waiting in
      elim (Option-cases (calculate_integral fuel (d.of_int a) (d.of_int b) x)) [
        | inl c ↦ rw (c, server_step) l
        | inr (r, c) ↦
            rw (c, quiet, server_step) (record { made = l.made; found = λ q. cc; kept = λ q. cc })
      ]
  server_step-IsLive fuel answered s e v l = l
  server_step-IsLive fuel lost s e v l = l

  abbrev pub GoesOn : State W → Type 0
  GoesOn s = (t : Turn) × (work (step start_ end_ size t s) < work s)

  abbrev pub HasAnswer : State W → Type 0
  HasAnswer s = (r : W) × (s.client ≡ printed r) × IsAnswer start_ end_ size r

  pub client_turn :
      (c : Client W) (s : State W)
      → s.client ≡ c
      → work (client_step start_ end_ size c s) < work s
      → GoesOn s
  unfolding step
  client_turn c s e h = (of_client, rw (← e) at h)

  pub server_turn :
      (fuel : ℕ) (p : Server W) (s : State W)
      → s.server ≡ p
      → work (server_step fuel p s) < work s
      → GoesOn s
  unfolding step
  server_turn fuel p s e h = (of_server fuel, rw (← e) at h)

  pub server_starts : (s : State W) → s.server ≡ unstarted → IsLive start_ end_ size s → GoesOn s
  unfolding server_step
  server_starts s e l =
      let w : server_work s.server ≡ 7 = ap server_work e in
      server_turn 0 unstarted s e (rw (server_step, l.made) (omega (arith, w)))

  pub server_opens :
      (s : State W)
      → s.server ≡ opening_to_calculate
      → client_opens_to_calculate s.client ≡ true
      → GoesOn s
  unfolding server_step
  server_opens s e on =
      let w : server_work s.server ≡ 6 = ap server_work e in
      server_turn 0 opening_to_calculate s e (rw (on, server_step) (omega (arith, w)))

  pub server_opens_other :
      (s : State W) → s.server ≡ opening_result → client_opens_result s.client ≡ true → GoesOn s
  unfolding server_step
  server_opens_other s e on =
      let w : server_work s.server ≡ 5 = ap server_work e in
      server_turn 0 opening_result s e (rw (on, server_step) (omega (arith, w)))

  client_passes :
      (s : State W)
      → s.client ≡ opens_to_calculate
      → server_opens_to_calculate s.server ≡ true
      → GoesOn s
  unfolding client_step
  client_passes s c on =
      let w : client_work s.client ≡ 6 = ap client_work c in
      client_turn opens_to_calculate s c (rw (on, client_step) (omega (arith, w)))

  client_passes_other :
      (s : State W) → s.client ≡ opens_result → server_opens_result s.server ≡ true → GoesOn s
  unfolding client_step
  client_passes_other s c on =
      let w : client_work s.client ≡ 5 = ap client_work c in
      client_turn opens_result s c (rw (on, client_step) (omega (arith, w)))

  pub client_opens :
      (p : Server W) (s : State W)
      → s.server ≡ p
      → s.client ≡ opens_to_calculate
      → IsLive start_ end_ size s
      → GoesOn s
  client_opens unstarted s e c l = server_starts s e l
  client_opens opening_to_calculate s e c l = client_passes s c (ap server_opens_to_calculate e)
  client_opens opening_result s e c l = client_passes s c (ap server_opens_to_calculate e)
  client_opens reading_start s e c l = client_passes s c (ap server_opens_to_calculate e)
  client_opens (reading_end a) s e c l = client_passes s c (ap server_opens_to_calculate e)
  client_opens (reading_size a b) s e c l = client_passes s c (ap server_opens_to_calculate e)
  client_opens (computing a b x) s e c l = client_passes s c (ap server_opens_to_calculate e)
  client_opens answered s e c l = client_passes s c (ap server_opens_to_calculate e)
  client_opens lost s e c l = absurd (l.found e)

  pub client_opens_other :
      (p : Server W) (s : State W)
      → s.server ≡ p
      → s.client ≡ opens_result
      → IsLive start_ end_ size s
      → GoesOn s
  client_opens_other unstarted s e c l = server_starts s e l
  client_opens_other opening_to_calculate s e c l =
      server_opens s e (ap client_opens_to_calculate c)
  client_opens_other opening_result s e c l = client_passes_other s c (ap server_opens_result e)
  client_opens_other reading_start s e c l = client_passes_other s c (ap server_opens_result e)
  client_opens_other (reading_end a) s e c l = client_passes_other s c (ap server_opens_result e)
  client_opens_other (reading_size a b) s e c l = client_passes_other s c (ap server_opens_result e)
  client_opens_other (computing a b x) s e c l = client_passes_other s c (ap server_opens_result e)
  client_opens_other answered s e c l = client_passes_other s c (ap server_opens_result e)
  client_opens_other lost s e c l = absurd (l.found e)
