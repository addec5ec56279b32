-- ===== src/ChatTcp/Client.antt =====
-- Lab 11/client.c: how the client reads the server's messages, and turns a typed line into a request.
use operating_systems_course.Common.{
  ℕ, ◌-◌, Bool, false, Option, none, some, [], ◌∷◌, ◌++◌, if◌then◌else◌, take, drop, Bytes, codes,
  c_str, starts_with, strtok, snprintf, ◌==◌,
}

abbrev pub buffer_size : ℕ
buffer_size = 1024

abbrev pub id_length : ℕ
id_length = 32

-- `strncpy(client_id, argv[1], ID_LENGTH - 1)`
abbrev pub own_id : Bytes → Bytes
own_id arg = take (id_length - 1) arg

-- The registration that `main` sends.
unfoldable pub registration : Bytes → Bytes
registration arg = snprintf buffer_size (codes "REGI|" ++ own_id arg)

-- Whether the answer lets the client go on.
unfoldable pub registered : Option Bytes → Bool
registered none = false
registered (some bytes) = starts_with (codes "OK") (c_str bytes)

-- What `receiver` does with a message: the texts that it prints, where `none` is a NULL of `strtok`.
pub data Received : Type 0 where
  ping : Received
  to_all : Option Bytes → Option Bytes → Option Bytes → Received
  private : Option Bytes → Option Bytes → Option Bytes → Received
  active_clients : Bytes → Received
  error : Bytes → Received
  other : Bytes → Received

-- The next token, and what a `strtok(NULL, …)` after it goes on with.
abbrev pub next_token : Bytes → Bytes → Option Bytes × Bytes
next_token ds s = elim (strtok ds s) [ none ↦ (none, []) | some (t, r) ↦ (some t, r) ]

-- The three calls of `strtok`: sender, timestamp, message.
abbrev pub fields : Bytes → Option Bytes × Option Bytes × Option Bytes
fields s =
    let (sender, r) = next_token (codes "|") s in
    let (stamp, r') = next_token (codes "|") r in
    let (message, r'') = next_token [] r' in (sender, stamp, message)

unfoldable pub receive : Bytes → Received
receive buffer =
    let (sender, stamp, message) = fields (drop 7 buffer) in
    if starts_with (codes "PING") buffer
    then ping
    else if starts_with (codes "MSGALL|") buffer
    then to_all sender stamp message
    else if starts_with (codes "MSGONE|") buffer
    then private sender stamp message
    else if starts_with (codes "LIST|") buffer
    then active_clients (drop 5 buffer)
    else if starts_with (codes "ERROR|") buffer
    then error (drop 6 buffer)
    else other buffer

-- What one line that the user types makes of the client.
pub data Action : Type 0 where
  ignore : Action
  transmit : Bytes → Action
  usage : Action
  stop : Bytes → Action
  unknown_command : Action

-- `buffer[strcspn(buffer, "\n")] = '\0'`
abbrev pub cut_line : Bytes → Bytes
cut_line [] = []
cut_line (c ∷ s) = if c == 10 then [] else c ∷ cut_line s

unfoldable pub private_request : Bytes → Action
private_request s = elim (strtok (codes " ") s) [
  | none ↦ usage
  | some (recipient, rest) ↦ elim (strtok [] rest) [
    | none ↦ usage
    | some (message, _) ↦
        transmit (snprintf buffer_size (codes "2ONE|" ++ (recipient ++ (codes "|" ++ message))))
  ]
]

unfoldable pub request : Bytes → Action
request buffer =
    if starts_with (codes "LIST") buffer
    then transmit (codes "LIST")
    else if starts_with (codes "2ALL ") buffer
    then transmit (snprintf buffer_size (codes "2ALL|" ++ drop 5 buffer))
    else if starts_with (codes "2ONE ") buffer
    then private_request (drop 5 buffer)
    else if starts_with (codes "STOP") buffer
    then stop (codes "STOP")
    else unknown_command

-- The body of the loop of `main`, on the line that `fgets` read.
unfoldable pub command : Bytes → Action
command line = elim (cut_line line) [ [] ↦ ignore | c ∷ s ↦ request (c ∷ s) ]
