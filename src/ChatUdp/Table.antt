-- ===== src/ChatUdp/Table.antt =====
-- Lab 12/server.c: the invariant of the table, and the answer to LIST.
use operating_systems_course.Common.{
  ℕ, zero, suc, ◌*◌, ◌≤◌, ◌<◌, ◌≡◌, refl, sym, ap, ◌∙◌, true, false, Option, none, some, List, [],
  ◌∷◌, ◌++◌, if◌then◌else◌, set, length, length-set, length-append, length-take, Bytes, codes,
  str_eq, arith, Bool-cases, Option-cases, inl, inr, append_assoc, append-nil, starts_with, drop,
}
use operating_systems_course.ChatUdp.Registry.{
  Address, Client, Server, client_at, find_from, is_inactive, registered, find_client_by_id,
  register_client, touch_client, stop_client, ping_client, ping_clients, ping_round, handle_signal,
}
use operating_systems_course.ChatUdp.Messages.{
  list_clients, list_response, answer, handle_found, handle_client_message, Stage, receiving,
  looked_up, serving, System, Event, datagram, go_on, ping, interrupt, step, run, start,
}

-- Every id fits its array, with the NUL.
abbrev pub ShortIds : List Client → Type 0
ShortIds [] = Unit
ShortIds (c ∷ cs) = (length c.id ≤ 31) × ShortIds cs

pub record IsValid (s : Server) : Type 0 where
  pub slots : length s.clients ≡ 10
  pub short : ShortIds s.clients

ShortIds-set :
    (cs : List Client) (i : ℕ) (c : Client) → length c.id ≤ 31 → ShortIds cs → ShortIds (set cs i c)
ShortIds-set [] i c h k = tt
ShortIds-set (d ∷ cs) zero c h k = (h, k.1)
ShortIds-set (d ∷ cs) (suc i) c h k = (k.0, ShortIds-set cs i c h k.1)

length-client_at : (cs : List Client) (i : ℕ) → ShortIds cs → length (client_at cs i).id ≤ 31
length-client_at [] i k = omega arith
length-client_at (c ∷ cs) zero k = k.0
length-client_at (c ∷ cs) (suc i) k = length-client_at cs i k.1

set-IsValid :
    (s : Server) (i : ℕ) (c : Client)
    → length c.id ≤ 31
    → IsValid s
    → IsValid (record s { clients = set s.clients i c })
set-IsValid s i c h v = record {
  slots = length-set s.clients i c ∙ v.slots;
  short = ShortIds-set s.clients i c h v.short;
}

register_client-IsValid :
    (now : ℕ) (id : Bytes) (a : Address) (s : Server)
    → IsValid s
    → IsValid (register_client now id a s).0
unfolding register_client
register_client-IsValid now id a s v = elim (Option-cases (find_client_by_id id s.clients)) [
  | inr (i, e) ↦ rw (e, register_client) v
  | inl e ↦ elim (Option-cases (find_from is_inactive 0 s.clients)) [
    | inl f ↦ rw (e, f, register_client) v
    | inr (i, f) ↦
        rw (e, f, register_client)
          (set-IsValid s i (registered id a now) (omega (arith, length-take 31 id)) v)
  ]
]

touch_client-IsValid : (now i : ℕ) (s : Server) → IsValid s → IsValid (touch_client now i s)
unfolding touch_client
touch_client-IsValid now i s v = set-IsValid s i _ (length-client_at s.clients i v.short) v

stop_client-IsValid : (i : ℕ) (s : Server) → IsValid s → IsValid (stop_client i s)
unfolding stop_client
stop_client-IsValid i s v = set-IsValid s i _ (length-client_at s.clients i v.short) v

answer-IsValid :
    (stamp : Bytes) (i : ℕ) (buffer : Bytes) (a : Address) (s : Server)
    → IsValid s
    → IsValid (answer stamp i buffer a s).0
unfolding answer
answer-IsValid stamp i buffer a s v = elim (Bool-cases (str_eq buffer (codes "LIST"))) [
  | inl l ↦ rw (l, answer) v
  | inr l ↦ elim (Bool-cases (starts_with (codes "2ALL|") buffer)) [
    | inl b ↦ rw (l, b, answer) v
    | inr b ↦ elim (Bool-cases (starts_with (codes "2ONE|") buffer)) [
      | inl o ↦ rw (l, b, o, answer) v
      | inr o ↦ elim (Bool-cases (str_eq buffer (codes "PONG"))) [
        | inl p ↦ rw (l, b, o, p, answer) v
        | inr p ↦ elim (Bool-cases (str_eq buffer (codes "STOP"))) [
          | inl q ↦ rw (l, b, o, p, q, answer) (stop_client-IsValid i s v)
          | inr q ↦ rw (l, b, o, p, q, answer) v
        ]
      ]
    ]
  ]
]

handle_found-IsValid :
    (now : ℕ) (found : Option ℕ) (buffer : Bytes) (a : Address) (s : Server)
    → IsValid s
    → IsValid (handle_found now found buffer a s).0
unfolding handle_found
handle_found-IsValid now none buffer a s v =
    ground (arith, register_client-IsValid now (drop 5 buffer) a s v)
handle_found-IsValid now (some i) buffer a s v =
    ground
      (arith, register_client-IsValid now (drop 5 buffer) a s v, touch_client-IsValid now i s v)

ShortIds-ping_clients :
    (now : ℕ) (cs : List Client) → ShortIds cs → ShortIds (ping_clients now cs).0
unfolding ping_clients ping_client
ShortIds-ping_clients now [] k = k
ShortIds-ping_clients now (c ∷ cs) k = ground (arith, ShortIds-ping_clients now cs)

length-ping_clients : (now : ℕ) (cs : List Client) → length (ping_clients now cs).0 ≡ length cs
unfolding ping_clients
length-ping_clients now [] = refl
length-ping_clients now (c ∷ cs) = ap suc (length-ping_clients now cs)

step-IsValid : (e : Event) (y : System) → IsValid y.server → IsValid (step e y).0.server
unfolding step handle_client_message ping_round handle_signal
step-IsValid (datagram bytes a) y v = v
step-IsValid (go_on now stamp) y v = staged y.stage
  where
    staged : (g : Stage) → IsValid (handle_client_message now stamp g y.server).0
    staged receiving = v
    staged (looked_up found buffer a) = handle_found-IsValid now found buffer a y.server v
    staged (serving i buffer a) = answer-IsValid stamp i buffer a y.server v
step-IsValid (ping now) y v = record {
  slots = length-ping_clients now y.server.clients ∙ v.slots;
  short = ShortIds-ping_clients now y.server.clients v.short;
}
step-IsValid interrupt y v = record { slots = v.slots; short = v.short }

pub run_keeps-IsValid :
    (events : List Event) (y : System) → IsValid y.server → IsValid (run events y).0.server
unfolding run
run_keeps-IsValid [] y v = v
run_keeps-IsValid (e ∷ events) y v = run_keeps-IsValid events (step e y).0 (step-IsValid e y v)

-- The ids of the active clients, in the order of their slots.
abbrev pub active_ids : List Client → List Bytes
active_ids [] = []
active_ids (c ∷ cs) = if c.active then c.id ∷ active_ids cs else active_ids cs

-- Each id behind a comma, and the ids with commas between them.
abbrev pub listed : List Bytes → Bytes
listed [] = []
listed (x ∷ xs) = (codes "," ++ x) ++ listed xs

abbrev pub joined : List Bytes → Bytes
joined [] = []
joined (x ∷ xs) = x ++ listed xs

list_clients_rest :
    (cs : List Client) (response : Bytes)
    → list_clients false response cs ≡ response ++ listed (active_ids cs)
unfolding list_clients
list_clients_rest [] response = sym (append-nil response)
list_clients_rest (c ∷ cs) response = elim (Bool-cases c.active) [
  | inl on ↦ rw on (
      list_clients_rest cs ((response ++ codes ",") ++ c.id)
      ∙ append_assoc (response ++ codes ",") c.id (listed (active_ids cs))
      ∙ append_assoc response (codes ",") (c.id ++ listed (active_ids cs)))
  | inr off ↦ rw off (list_clients_rest cs response)
]

list_clients_first :
    (cs : List Client) (response : Bytes)
    → list_clients true response cs ≡ response ++ joined (active_ids cs)
unfolding list_clients
list_clients_first [] response = sym (append-nil response)
list_clients_first (c ∷ cs) response = elim (Bool-cases c.active) [
  | inl on ↦ rw on (
      list_clients_rest cs (response ++ c.id) ∙ append_assoc response c.id (listed (active_ids cs)))
  | inr off ↦ rw off (list_clients_first cs response)
]

length-listed : (cs : List Client) → ShortIds cs → length (listed (active_ids cs)) ≤ 32 * length cs
length-listed [] k = omega arith
length-listed (c ∷ cs) k =
    ground (arith, length-listed cs k.1, length-append (codes "," ++ c.id) (listed (active_ids cs)))

length-joined : (cs : List Client) → ShortIds cs → length (joined (active_ids cs)) ≤ 32 * length cs
length-joined [] k = omega arith
length-joined (c ∷ cs) k =
    ground (
      arith,
      length-joined cs k.1,
      length-listed cs k.1,
      length-append c.id (listed (active_ids cs)),
    )

-- While the table is valid, the answer to LIST is "LIST|" and the ids of the active clients with
-- commas between them, and with its NUL it fits the buffer that `strcat` appends to.
pub list_response-active_ids :
    (s : Server)
    → IsValid s
    → (list_response s.clients ≡ codes "LIST|" ++ joined (active_ids s.clients))
      × (length (list_response s.clients) < 1024)
unfolding list_response
list_response-active_ids s v = (
  list_clients_first s.clients (codes "LIST|"),
  rw (list_clients_first s.clients (codes "LIST|"))
      (omega (arith, length-joined s.clients v.short, v.slots)),
)

start-IsValid : IsValid start.server
start-IsValid = record { slots = refl; short = omega arith }

-- At any moment of any run, with `ping_thread` anywhere between the critical sections of the main
-- thread: the table has its ten slots, every id in it fits its array, and a LIST that is answered
-- then fits the buffer.
pub run_table-IsValid :
    (events : List Event)
    → IsValid (run events start).0.server
      × (length (list_response (run events start).0.server.clients) < 1024)
run_table-IsValid events =
    let v = run_keeps-IsValid events start start-IsValid in (v, (list_response-active_ids _ v).1)
