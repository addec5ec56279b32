-- ===== src/Integral/Fifos.antt =====
-- Lab 6/zad2_1.c and Lab 6/zad2_2.c: the program that asks and the program that computes, which talk
-- over the FIFOs `to_calculate` and `result`.
use operating_systems_course.Common.{
  ℕ, Bool, true, false, none, some, List, [], ◌∷◌, ◌++◌, ℤ, if◌then◌else◌,
}
use operating_systems_course.Integral.Double.{Double}
use operating_systems_course.Integral.Riemann.{calculate_integral}

-- What one `write` puts into `to_calculate`.
pub data Item {ℓ} (W : Type ℓ) : Type ℓ where
  int : ℤ → Item W
  double : W → Item W

-- Where zad2_1 stands: before `mkfifo`, in the `open` of a FIFO, before a `write`, before the `read`
-- of the result, behind the output.
pub data Client {ℓ} (W : Type ℓ) : Type ℓ where
  starting opens_to_calculate opens_result : Client W
  writing_start writing_end writing_size reading_result : Client W
  printed : W → Client W

-- Where zad2_2 stands: not started, in the `open` of a FIFO, before a `read`, with the numbers it has
-- read, behind the `write` of the result; `lost` is the program whose `open` failed or whose `read`
-- did not get what it wants, and which goes on with numbers that were never set.
pub data Server {ℓ} (W : Type ℓ) : Type ℓ where
  unstarted opening_to_calculate opening_result reading_start : Server W
  reading_end : ℤ → Server W
  reading_size : ℤ → ℤ → Server W
  computing : ℤ → ℤ → W → Server W
  answered lost : Server W

-- Whether the FIFOs were made, what is in them, and the two programs.
pub record State {ℓ} (W : Type ℓ) : Type ℓ where
  pub exist : Bool
  pub to_calculate : List (Item W)
  pub result : List W
  pub client : Client W
  pub server : Server W

-- The FIFOs are there already if an earlier run has left them.
abbrev pub start {ℓ} : {W : Type ℓ} → Bool → State W
start exist = record {
  exist = exist;
  to_calculate = [];
  result = [];
  client = starting;
  server = unstarted;
}

-- Whether a program has come to its `open` of a FIFO, for which the `open` of the other end waits.
abbrev pub client_opens_to_calculate {ℓ} : {W : Type ℓ} → Client W → Bool
client_opens_to_calculate c = elim c [ starting ↦ false | _ ↦ true ]

abbrev pub client_opens_result {ℓ} : {W : Type ℓ} → Client W → Bool
client_opens_result c = elim c [ starting ↦ false | opens_to_calculate ↦ false | _ ↦ true ]

abbrev pub server_opens_to_calculate {ℓ} : {W : Type ℓ} → Server W → Bool
server_opens_to_calculate s = elim s [ unstarted ↦ false | lost ↦ false | _ ↦ true ]

abbrev pub server_opens_result {ℓ} : {W : Type ℓ} → Server W → Bool
server_opens_result s = elim s [
  | unstarted ↦ false
  | opening_to_calculate ↦ false
  | lost ↦ false
  | _ ↦ true
]

-- Who goes on: zad2_1, or zad2_2 for so many rounds of its loop.
pub data Turn : Type 0 where
  of_client : Turn
  of_server : ℕ → Turn

module _ {ℓ} {W : Type ℓ} ⦃d : Double W⦄ where
  -- zad2_1, with the numbers that its calls of `scanf` have read.
  unfoldable pub client_step : ℤ → ℤ → W → Client W → State W → State W
  client_step start_ end_ size starting s = record s { exist = true; client = opens_to_calculate }
  client_step start_ end_ size opens_to_calculate s =
      if server_opens_to_calculate s.server then record s { client = opens_result } else s
  client_step start_ end_ size opens_result s =
      if server_opens_result s.server then record s { client = writing_start } else s
  client_step start_ end_ size writing_start s = record s {
    to_calculate = s.to_calculate ++ int start_ ∷ [];
    client = writing_end;
  }
  client_step start_ end_ size writing_end s = record s {
    to_calculate = s.to_calculate ++ int end_ ∷ [];
    client = writing_size;
  }
  client_step start_ end_ size writing_size s = record s {
    to_calculate = s.to_calculate ++ double size ∷ [];
    client = reading_result;
  }
  client_step start_ end_ size reading_result s = elim s.result [
    | [] ↦ s
    | r ∷ rest ↦ record s { result = rest; client = printed r }
  ]
  client_step start_ end_ size (printed r) s = s

  -- A `read` of an int, and what the server is then.
  unfoldable pub read_int : (ℤ → Server W) → State W → State W
  read_int next s = elim s.to_calculate [
    | [] ↦ s
    | item ∷ rest ↦ record s {
      to_calculate = rest;
      server = elim item [ int n ↦ next n | double x ↦ lost ];
    }
  ]

  unfoldable pub read_double : (W → Server W) → State W → State W
  read_double next s = elim s.to_calculate [
    | [] ↦ s
    | item ∷ rest ↦ record s {
      to_calculate = rest;
      server = elim item [ int n ↦ lost | double x ↦ next x ];
    }
  ]

  -- zad2_2.
  unfoldable pub server_step : ℕ → Server W → State W → State W
  server_step fuel unstarted s = record s {
    server = if s.exist then opening_to_calculate else lost;
  }
  server_step fuel opening_to_calculate s =
      if client_opens_to_calculate s.client then record s { server = opening_result } else s
  server_step fuel opening_result s =
      if client_opens_result s.client then record s { server = reading_start } else s
  server_step fuel reading_start s = read_int reading_end s
  server_step fuel (reading_end a) s = read_int (reading_size a) s
  server_step fuel (reading_size a b) s = read_double (computing a b) s
  server_step fuel (computing a b dx) s =
      elim (calculate_integral fuel (d.of_int a) (d.of_int b) dx) [
        | none ↦ s
        | some r ↦ record s { result = s.result ++ r ∷ []; server = answered }
      ]
  server_step fuel answered s = s
  server_step fuel lost s = s

  unfoldable pub step : ℤ → ℤ → W → Turn → State W → State W
  step start_ end_ size of_client s = client_step start_ end_ size s.client s
  step start_ end_ size (of_server fuel) s = server_step fuel s.server s

  unfoldable pub run : ℤ → ℤ → W → List Turn → State W → State W
  run start_ end_ size [] s = s
  run start_ end_ size (t ∷ turns) s = run start_ end_ size turns (step start_ end_ size t s)
