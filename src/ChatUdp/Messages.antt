-- ===== src/ChatUdp/Messages.antt =====
-- Lab 12/server.c: the texts that the server sends, and `handle_client_message`.
use operating_systems_course.Common.{
  ltb, length, ◌-◌, ℕ, Bool, true, not, ◌&&◌, Option, none, some, List, [], ◌∷◌, ◌++◌,
  if◌then◌else◌, take, drop, Bytes, codes, c_str, str_eq, starts_with, strtok, snprintf,
}
use operating_systems_course.ChatUdp.Registry.{
  Address, Client, Server, Effect, sendto, buffer_size, client_at, find_client_by_id,
  find_client_by_addr, register_client, touch_client, stop_client, initial, ping_round,
  handle_signal,
}

unfoldable pub format_message : Bytes → Bytes → Bytes → Bytes → Bytes
format_message tag sender stamp message =
    snprintf buffer_size
      (tag ++ (codes "|" ++ (sender ++ (codes "|" ++ (stamp ++ (codes "|" ++ message))))))

-- The loop of `broadcast_message`.
unfoldable pub send_others : Bytes → Bytes → List Client → List Effect
send_others sender text [] = []
send_others sender text (c ∷ cs) =
    if c.active && not (str_eq c.id sender)
    then sendto c.addr text ∷ send_others sender text cs
    else send_others sender text cs

unfoldable pub broadcast_message : Bytes → Bytes → Bytes → List Client → List Effect
broadcast_message stamp sender message cs =
    send_others sender (format_message (codes "MSGALL") sender stamp message) cs

unfoldable pub send_private_message : Bytes → Bytes → Bytes → Bytes → List Client → List Effect
send_private_message stamp sender recipient message cs = elim (find_client_by_id recipient cs) [
  | none ↦ []
  | some i ↦
      sendto (client_at cs i).addr (format_message (codes "MSGONE") sender stamp message) ∷ []
]

-- The loop of LIST, with the flag `first`.
unfoldable pub list_clients : Bool → Bytes → List Client → Bytes
list_clients first response [] = response
list_clients first response (c ∷ cs) =
    list_clients (first && not c.active)
      (if c.active then (if first then response else response ++ codes ",") ++ c.id else response)
      cs

unfoldable pub list_response : List Client → Bytes
list_response cs = list_clients true (codes "LIST|") cs

-- The two calls of `strtok`; without a recipient or a message nothing is sent.
unfoldable pub private_effects : Bytes → Bytes → Bytes → List Client → List Effect
private_effects stamp sender text cs = elim (strtok (codes "|") text) [
  | none ↦ []
  | some (recipient, rest) ↦ elim (strtok [] rest) [
    | none ↦ []
    | some (message, _) ↦ send_private_message stamp sender recipient message cs
  ]
]

-- The commands of the client at index i.
unfoldable pub answer : Bytes → ℕ → Bytes → Address → Server → Server × List Effect
answer stamp i buffer a s =
    let sender = (client_at s.clients i).id in
    if str_eq buffer (codes "LIST")
    then (s, sendto a (list_response s.clients) ∷ [])
    else if starts_with (codes "2ALL|") buffer
    then (s, broadcast_message stamp sender (drop 5 buffer) s.clients)
    else if starts_with (codes "2ONE|") buffer
    then (s, private_effects stamp sender (drop 5 buffer) s.clients)
    else if str_eq buffer (codes "PONG")
    then (s, [])
    else if str_eq buffer (codes "STOP")
    then (stop_client i s, [])
    else (s, sendto a (take 21 (codes "ERROR|Unknown command")) ∷ [])

-- Where the main thread stands in `handle_client_message`: before it, behind the search for the
-- address, or behind the update of `last_active` of the client at an index. The mutex is free at
-- each of these points, so `ping_thread` may run there.
pub data Stage : Type 0 where
  receiving : Stage
  looked_up : Option ℕ → Bytes → Address → Stage
  serving : ℕ → Bytes → Address → Stage

unfoldable pub look_up : Bytes → Address → Server → Stage
look_up buffer a s = looked_up (find_client_by_addr a s.clients) buffer a

-- Behind the search.
unfoldable pub handle_found : ℕ → Option ℕ → Bytes → Address → Server → Server × List Effect × Stage
handle_found now found buffer a s =
    if starts_with (codes "REGI|") buffer
    then (let (s', es) = register_client now (drop 5 buffer) a s in (s', es, receiving))
    else elim found [
      | none ↦ (s, sendto a (take 20 (codes "ERROR|Not registered")) ∷ [], receiving)
      | some i ↦ (touch_client now i s, [], serving i buffer a)
    ]

unfoldable pub handle_client_message : ℕ → Bytes → Stage → Server → Server × List Effect × Stage
handle_client_message now stamp receiving s = (s, [], receiving)
handle_client_message now stamp (looked_up found buffer a) s = handle_found now found buffer a s
handle_client_message now stamp (serving i buffer a) s =
    let (s', es) = answer stamp i buffer a s in (s', es, receiving)

pub record System : Type 0 where
  pub server : Server
  pub stage : Stage

-- A datagram (its bytes, of which `recvfrom` reads what the buffer holds), the next critical section of the main thread, a turn
-- of `ping_thread`, a signal. A datagram is read only where the main thread is at its loop.
pub data Event : Type 0 where
  datagram : Bytes → Address → Event
  go_on : ℕ → Bytes → Event
  ping : ℕ → Event
  interrupt : Event

abbrev pub read_datagram : Bytes → Address → Stage → Server → Stage
read_datagram bytes a receiving s =
    if s.server_running && ltb 0 (length bytes)
    then look_up (c_str (take (buffer_size - 1) bytes)) a s
    else receiving
read_datagram bytes a stage s = stage

unfoldable pub step : Event → System → System × List Effect
step (datagram bytes a) y = (record y { stage = read_datagram bytes a y.stage y.server }, [])
step (go_on now stamp) y =
    let (s', es, stage) = handle_client_message now stamp y.stage y.server in
    (record { server = s'; stage = stage }, es)
step (ping now) y = let (s', es) = ping_round now y.server in (record y { server = s' }, es)
step interrupt y = (record y { server = handle_signal y.server }, [])

unfoldable pub run : List Event → System → System × List Effect
run [] y = (y, [])
run (e ∷ events) y = let (y', es) = step e y in let (y'', es') = run events y' in (y'', es ++ es')

abbrev pub start : System
start = record { server = initial; stage = receiving }
