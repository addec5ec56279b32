-- ===== src/ChatMq/Defs.antt =====
-- Lab 7/server.c: the table of clients and the turn of the main loop; Lab 7/client.c: the texts that
-- the client sends. `mq_open` is an argument: the descriptor that it gives for a name, if any.
use operating_systems_course.Common.{
  ℕ, zero, suc, ◌+◌, ◌-◌, ◌*◌, ◌/◌, ◌%◌, Bool, true, not, ◌&&◌, ◌||◌, Option, none, some, List, [],
  ◌∷◌, ◌++◌, leb, ltb, ◌==◌, if◌then◌else◌, set, replicate, ℤ, pos, negsuc, Bytes, codes, c_str,
  starts_with, strtok, snprintf,
}

abbrev pub max_clients : ℕ
max_clients = 10

abbrev pub max_msg_size : ℕ
max_msg_size = 512

pub record ClientInfo : Type 0 where
  pub client_queue : ℕ
  pub client_id : ℕ

pub record Server : Type 0 where
  pub clients : List ClientInfo
  pub num_clients : ℕ

abbrev pub initial : Server
initial = record {
  clients = replicate max_clients (record { client_queue = 0; client_id = 0 });
  num_clients = 0;
}

-- An `mq_send` of a string, whose result only decides whether an error is printed, or an `mq_close`.
pub data Effect : Type 0 where
  mq_send : ℕ → Bytes → Effect
  mq_close : ℕ → Effect

-- The digits of "%d" for a number that is not negative, on fuel.
unfoldable pub print_digits : ℕ → ℕ → Bytes → Bytes
print_digits zero n rest = rest
print_digits (suc fuel) n rest =
    let more = print_digits fuel (n / 10) ((48 + n % 10) ∷ rest) in
    if ltb n 10 then (48 + n % 10) ∷ rest else more

unfoldable pub decimal : ℕ → Bytes
decimal n = print_digits (suc n) n []

abbrev pub is_space : ℕ → Bool
is_space c = c == 32 || leb 9 c && leb c 13

abbrev pub read_digits : ℕ → Bytes → ℕ
read_digits n [] = n
read_digits n (c ∷ s) =
    let rest = read_digits (n * 10 + (c - 48)) s in if leb 48 c && leb c 57 then rest else n

abbrev pub negate : ℕ → ℤ
negate zero = pos 0
negate (suc n) = negsuc n

-- `atoi`, for numbers that an int can hold.
unfoldable pub atoi : Bytes → ℤ
atoi [] = pos 0
atoi (c ∷ s) =
    let rest = atoi s in
    if is_space c
    then rest
    else if c == 45
    then negate (read_digits 0 s)
    else if c == 43
    then pos (read_digits 0 s)
    else pos (read_digits 0 (c ∷ s))

-- `clients[i].client_id != sender_id`
abbrev pub other_id : ClientInfo → ℤ → Bool
other_id c (pos n) = not (c.client_id == n)
other_id c (negsuc n) = true

-- The loop over the first `num_clients` clients.
unfoldable pub send_others : ℤ → Bytes → ℕ → List ClientInfo → List Effect
send_others sender_id message zero cs = []
send_others sender_id message (suc n) [] = []
send_others sender_id message (suc n) (c ∷ cs) =
    if other_id c sender_id
    then mq_send c.client_queue message ∷ send_others sender_id message n cs
    else send_others sender_id message n cs

-- The reply has room for ten bytes, its NUL included.
unfoldable pub register_client : ℕ → Server → Server × List Effect
register_client queue s =
    if ltb s.num_clients max_clients
    then (
      record {
        clients =
            set s.clients s.num_clients
              (record { client_queue = queue; client_id = s.num_clients });
        num_clients = s.num_clients + 1;
      },
      mq_send queue (snprintf 10 (decimal s.num_clients)) ∷ [],
    )
    else (s, mq_close queue ∷ [])

unfoldable pub broadcast : Bytes → Server → List Effect
broadcast buffer s = elim (strtok (codes "|") buffer) [
  | none ↦ []
  | some (token, rest) ↦ elim (strtok [] rest) [
    | none ↦ []
    | some (message, _) ↦ send_others (atoi token) message s.num_clients s.clients
  ]
]

-- The two calls of `strtok` on an INIT.
unfoldable pub queue_name : Bytes → Option Bytes
queue_name buffer = elim (strtok (codes " ") buffer) [
  | none ↦ none
  | some (_, rest) ↦ elim (strtok (codes " ") rest) [ none ↦ none | some (token, _) ↦ some token ]
]

module _ (mq_open : Bytes → Option ℕ) where
  unfoldable pub connect : Bytes → Server → Server × List Effect
  connect buffer s = elim (queue_name buffer) [
    | none ↦ (s, [])
    | some name ↦ elim (mq_open name) [ none ↦ (s, []) | some queue ↦ register_client queue s ]
  ]

  -- A turn of the main loop on what `mq_receive` gives; `none` is -1.
  unfoldable pub handle : Option Bytes → Server → Server × List Effect
  handle none s = (s, [])
  handle (some bytes) s =
      let buffer = c_str bytes in
      if starts_with (codes "INIT") buffer then connect buffer s else (s, broadcast buffer s)

  unfoldable pub run : List (Option Bytes) → Server → Server × List Effect
  run [] s = (s, [])
  run (m ∷ messages) s =
      let (s', es) = handle m s in let (s'', es') = run messages s' in (s'', es ++ es')

-- What the client sends: its registration, and a line that the user types.
unfoldable pub client_queue_name : ℕ → Bytes
client_queue_name pid = codes "/client_" ++ decimal pid

unfoldable pub init_message : Bytes → Bytes
init_message name = snprintf max_msg_size (codes "INIT" ++ (codes " " ++ name))

unfoldable pub chat_message : ℕ → Bytes → Bytes → Bytes
chat_message client_id username input =
    snprintf max_msg_size (decimal client_id ++ (codes "|" ++ (username ++ (codes ": " ++ input))))
