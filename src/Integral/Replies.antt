-- ===== src/Integral/Replies.antt =====
-- Lab 6/zad2_1.c and Lab 6/zad2_2.c: what each program finds when it goes on.
use operating_systems_course.Common.{
  ℕ, ◌+◌, ◌≡◌, ◌≢◌, refl, true, List, [], ◌∷◌, ℤ, Bool-cases, List-cases, inl, inr,
}
use operating_systems_course.Integral.Double.{Double}
use operating_systems_course.Integral.Fifos.{
  Item, int, double, Client, starting, opens_to_calculate, opens_result, writing_start, writing_end,
  writing_size, reading_result, printed, Server, unstarted, opening_to_calculate, opening_result,
  reading_start, reading_end, reading_size, computing, answered, lost, State,
  server_opens_to_calculate, server_opens_result, client_step,
}
use operating_systems_course.Integral.Answers.{written}

abbrev pub client_work {ℓ} : {W : Type ℓ} → Client W → ℕ
client_work starting = 7
client_work opens_to_calculate = 6
client_work opens_result = 5
client_work writing_start = 4
client_work writing_end = 3
client_work writing_size = 2
client_work reading_result = 1
client_work (printed r) = 0

abbrev pub server_work {ℓ} : {W : Type ℓ} → Server W → ℕ
server_work unstarted = 7
server_work opening_to_calculate = 6
server_work opening_result = 5
server_work reading_start = 4
server_work (reading_end a) = 3
server_work (reading_size a b) = 2
server_work (computing a b dx) = 1
server_work answered = 0
server_work lost = 0

abbrev pub work {ℓ} : {W : Type ℓ} → State W → ℕ
work s = client_work s.client + server_work s.server

module _ {W : Type 0} ⦃d : Double W⦄ (start_ end_ : ℤ) (size : W) where
  abbrev pub HasRead : Client W → Type 0
  HasRead (printed r) = Unit
  HasRead c = ⊥

  -- The answer waits for the client until it has read it.
  abbrev pub Kept : Server W → List W → Client W → Type 0
  Kept answered result c = result ≡ [] → HasRead c
  Kept p result c = Unit

  -- What the server reads next is of the kind that it wants.
  pub first_is_int :
      (c : Client W) (x : W) (rest : List (Item W)) → written start_ end_ size c ≢ double x ∷ rest
  first_is_int starting x rest e = cc
  first_is_int opens_to_calculate x rest e = cc
  first_is_int opens_result x rest e = cc
  first_is_int writing_start x rest e = cc
  first_is_int writing_end x rest e = cc
  first_is_int writing_size x rest e = cc
  first_is_int reading_result x rest e = cc
  first_is_int (printed r) x rest e = cc

  pub second_is_int :
      (c : Client W) (a : ℤ) (x : W) (rest : List (Item W))
      → written start_ end_ size c ≢ int a ∷ double x ∷ rest
  second_is_int starting a x rest e = cc
  second_is_int opens_to_calculate a x rest e = cc
  second_is_int opens_result a x rest e = cc
  second_is_int writing_start a x rest e = cc
  second_is_int writing_end a x rest e = cc
  second_is_int writing_size a x rest e = cc
  second_is_int reading_result a x rest e = cc
  second_is_int (printed r) a x rest e = cc

  pub third_is_double :
      (c : Client W) (a b m : ℤ) (rest : List (Item W))
      → written start_ end_ size c ≢ int a ∷ int b ∷ int m ∷ rest
  third_is_double starting a b m rest e = cc
  third_is_double opens_to_calculate a b m rest e = cc
  third_is_double opens_result a b m rest e = cc
  third_is_double writing_start a b m rest e = cc
  third_is_double writing_end a b m rest e = cc
  third_is_double writing_size a b m rest e = cc
  third_is_double reading_result a b m rest e = cc
  third_is_double (printed r) a b m rest e = cc

  pub record IsLive (s : State W) : Type 0 where
    pub made : s.exist ≡ true
    pub found : s.server ≢ lost
    pub kept : Kept s.server s.result s.client

  module _ (s : State W) (v : IsLive s) where
    -- The client goes on, without having read.
    Kept-moves : (c : Client W) → (HasRead s.client → HasRead c) → Kept s.server s.result c
    Kept-moves c h = by_server s.server s.result v.kept
      where
        by_server : (p : Server W) (q : List W) → Kept p q s.client → Kept p q c
        by_server unstarted q k = tt
        by_server opening_to_calculate q k = tt
        by_server opening_result q k = tt
        by_server reading_start q k = tt
        by_server (reading_end a) q k = tt
        by_server (reading_size a b) q k = tt
        by_server (computing a b x) q k = tt
        by_server answered q k = λ empty. h (k empty)
        by_server lost q k = tt

    Kept-read : (p : Server W) (q : List W) (r : W) → Kept p q (printed r)
    Kept-read unstarted q r = tt
    Kept-read opening_to_calculate q r = tt
    Kept-read opening_result q r = tt
    Kept-read reading_start q r = tt
    Kept-read (reading_end a) q r = tt
    Kept-read (reading_size a b) q r = tt
    Kept-read (computing a b x) q r = tt
    Kept-read answered q r = λ empty. tt
    Kept-read lost q r = tt

    pub client_step-IsLive :
        (c : Client W) → s.client ≡ c → IsLive (client_step start_ end_ size c s)
    unfolding client_step
    client_step-IsLive starting e = record {
      made = refl;
      found = v.found;
      kept = Kept-moves opens_to_calculate (λ h. rw e at h);
    }
    client_step-IsLive opens_to_calculate e =
        elim (Bool-cases (server_opens_to_calculate s.server)) [
          | inr off ↦ rw (off, client_step) v
          | inl on ↦
              rw (on, client_step)
                (record {
                  made = v.made;
                  found = v.found;
                  kept = Kept-moves opens_result (λ h. rw e at h);
                })
        ]
    client_step-IsLive opens_result e = elim (Bool-cases (server_opens_result s.server)) [
      | inr off ↦ rw (off, client_step) v
      | inl on ↦
          rw (on, client_step)
            (record {
              made = v.made;
              found = v.found;
              kept = Kept-moves writing_start (λ h. rw e at h);
            })
    ]
    client_step-IsLive writing_start e = record {
      made = v.made;
      found = v.found;
      kept = Kept-moves writing_end (λ h. rw e at h);
    }
    client_step-IsLive writing_end e = record {
      made = v.made;
      found = v.found;
      kept = Kept-moves writing_size (λ h. rw e at h);
    }
    client_step-IsLive writing_size e = record {
      made = v.made;
      found = v.found;
      kept = Kept-moves reading_result (λ h. rw e at h);
    }
    client_step-IsLive reading_result e = elim (List-cases s.result) [
      | inl none_yet ↦ rw (none_yet, client_step) v
      | inr (r, rest, p) ↦
          rw (p, client_step)
            (record { made = v.made; found = v.found; kept = Kept-read s.server rest r })
    ]
    client_step-IsLive (printed r) e = v
