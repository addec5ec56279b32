-- ===== src/ChatTcp/Session.antt =====
-- Lab 11/server.c: `handle_client`, the thread of one connection, a message at a time. Each part has
-- one critical section, so a call of it is one atomic step of the server.
use operating_systems_course.Common.{
  ℕ, ◌-◌, Bool, true, false, Option, none, some, List, [], ◌∷◌, if◌then◌else◌, take, drop, Bytes,
  codes, c_str, starts_with, strtok,
}
use operating_systems_course.ChatTcp.Registry.{
  Server, Effect, send, close, Net, id_length, register_client, touch_client,
}
use operating_systems_course.ChatTcp.Messages.{
  broadcast_message, send_private_message, list_response,
}

-- What a `recv` into the buffer gives: `none` for a result of 0 or below, else the bytes read.
abbrev pub Received : Type 0
Received = Option Bytes

-- `strncpy(client_id, buffer + 5, ID_LENGTH - 1)`
abbrev pub requested_id : Bytes → Bytes
requested_id buffer = take (id_length - 1) (drop 5 buffer)

unfoldable pub greet_with : Net → ℕ → ℕ → Bytes → Server → Server × List Effect × Option Bytes
greet_with net now fd buffer s =
    if starts_with (codes "REGI|") buffer
    then (let (s', es, goes_on) = register_client net now fd (requested_id buffer) s in
        (s', es, if goes_on then some (requested_id buffer) else none))
    else (s, send fd (take 31 (codes "ERROR|First message must be REGI")) ∷ close fd ∷ [], none)

-- `handle_client` up to its loop. The result has the client's id if the thread enters the loop.
unfoldable pub greet : Net → ℕ → ℕ → Received → Server → Server × List Effect × Option Bytes
greet net now fd none s = (s, close fd ∷ [], none)
greet net now fd (some bytes) s = greet_with net now fd (c_str bytes) s

-- The two calls of `strtok` of the case 2ONE: the recipient and the message.
abbrev pub parse_private : Bytes → Option (Bytes × Bytes)
parse_private s = elim (strtok (codes "|") s) [
  | none ↦ none
  | some (recipient, rest) ↦ elim (strtok [] rest) [
    | none ↦ none
    | some (message, _) ↦ some (recipient, message)
  ]
]

unfoldable pub private_effects : Bytes → ℕ → Bytes → Bytes → Server → List Effect
private_effects stamp fd client_id text s = elim (parse_private text) [
  | none ↦ send fd (take 25 (codes "ERROR|Invalid 2ONE format")) ∷ []
  | some (recipient, message) ↦ send_private_message stamp client_id recipient message s.clients
]

-- The body of the loop behind `recv`; the flag is false on `break`.
unfoldable pub dispatch : Net → ℕ → Bytes → ℕ → Bytes → Bytes → Server → Server × List Effect × Bool
dispatch net now stamp fd client_id buffer s =
    if starts_with (codes "PONG") buffer
    then (touch_client now fd s, [], true)
    else if starts_with (codes "LIST") buffer
    then (let response = list_response s.clients in (s, send fd response ∷ [], net fd response))
    else if starts_with (codes "2ALL|") buffer
    then (s, broadcast_message stamp client_id (drop 5 buffer) s.clients, true)
    else if starts_with (codes "2ONE|") buffer
    then (s, private_effects stamp fd client_id (drop 5 buffer) s, true)
    else if starts_with (codes "STOP") buffer
    then (s, [], false)
    else (s, send fd (take 21 (codes "ERROR|Unknown command")) ∷ [], true)

-- One round of the loop; the flag is false where it ends.
unfoldable pub serve : Net → ℕ → Bytes → ℕ → Bytes → Received → Server → Server × List Effect × Bool
serve net now stamp fd client_id none s = (s, [], false)
serve net now stamp fd client_id (some bytes) s =
    dispatch net now stamp fd client_id (c_str bytes) s
