-- ===== src/ChatUdp/Registry.antt =====
-- Lab 12/server.c: the table of clients and the functions that read and change it.
use operating_systems_course.Common.{
  ℕ, ◌+◌, ◌-◌, Bool, true, false, not, ◌&&◌, Option, none, some, List, [], ◌∷◌, ◌++◌, ltb, ◌==◌,
  if◌then◌else◌, get_or, set, take, replicate, Bytes, codes, str_eq,
}

abbrev pub max_clients : ℕ
max_clients = 10

abbrev pub buffer_size : ℕ
buffer_size = 1024

abbrev pub id_length : ℕ
id_length = 32

abbrev pub ping_timeout : ℕ
ping_timeout = 60

-- The fields of `struct sockaddr_in` that the program compares.
pub record Address : Type 0 where
  pub s_addr : ℕ
  pub sin_port : ℕ

pub record Client : Type 0 where
  pub id : Bytes
  pub addr : Address
  pub last_active : ℕ
  pub active : Bool

-- The globals. `memset` clears the table at the start.
pub record Server : Type 0 where
  pub clients : List Client
  pub server_running : Bool

abbrev pub blank : Client
blank = record {
  id = [];
  addr = record { s_addr = 0; sin_port = 0 };
  last_active = 0;
  active = false;
}

abbrev pub initial : Server
initial = record { clients = replicate max_clients blank; server_running = true }

-- A `sendto`; its result is not looked at.
pub data Effect : Type 0 where
  sendto : Address → Bytes → Effect

abbrev pub same_address : Address → Address → Bool
same_address a b = a.s_addr == b.s_addr && a.sin_port == b.sin_port

-- The loop of the searches, from index i on; `none` is -1.
abbrev pub find_from : (Client → Bool) → ℕ → List Client → Option ℕ
find_from test i [] = none
find_from test i (c ∷ cs) = if test c then some i else find_from test (i + 1) cs

abbrev pub has_id : Bytes → Client → Bool
has_id id c = c.active && str_eq c.id id

abbrev pub has_address : Address → Client → Bool
has_address a c = c.active && same_address c.addr a

abbrev pub is_inactive : Client → Bool
is_inactive c = not c.active

unfoldable pub find_client_by_id : Bytes → List Client → Option ℕ
find_client_by_id id cs = find_from (has_id id) 0 cs

unfoldable pub find_client_by_addr : Address → List Client → Option ℕ
find_client_by_addr a cs = find_from (has_address a) 0 cs

abbrev pub client_at : List Client → ℕ → Client
client_at cs i = get_or cs i blank

-- What registering writes. The last byte of the array stays 0, so `strncpy` leaves a string.
abbrev pub registered : Bytes → Address → ℕ → Client
registered id a now = record {
  id = take (id_length - 1) id;
  addr = a;
  last_active = now;
  active = true;
}

-- The critical section of the case REGI.
unfoldable pub register_client : ℕ → Bytes → Address → Server → Server × List Effect
register_client now id a s = elim (find_client_by_id id s.clients) [
  | some i ↦ (s, sendto a (take 23 (codes "ERROR|ID already in use")) ∷ [])
  | none ↦ elim (find_from is_inactive 0 s.clients) [
    | none ↦ (s, sendto a (take 19 (codes "ERROR|Server is full")) ∷ [])
    | some i ↦
        (record s { clients = set s.clients i (registered id a now) }, sendto a (codes "OK") ∷ [])
  ]
]

-- `clients[idx].last_active = time(NULL)`
unfoldable pub touch_client : ℕ → ℕ → Server → Server
touch_client now i s = record s {
  clients = set s.clients i (record (client_at s.clients i) { last_active = now });
}

-- `clients[idx].active = 0`
unfoldable pub stop_client : ℕ → Server → Server
stop_client i s = record s {
  clients = set s.clients i (record (client_at s.clients i) { active = false });
}

-- One round of the loop in `ping_thread`.
unfoldable pub ping_client : ℕ → Client → Client × List Effect
ping_client now c =
    if c.active
    then (if ltb ping_timeout (now - c.last_active)
        then (record c { active = false }, [])
        else (c, sendto c.addr (codes "PING") ∷ []))
    else (c, [])

unfoldable pub ping_clients : ℕ → List Client → List Client × List Effect
ping_clients now [] = ([], [])
ping_clients now (c ∷ cs) =
    let (c', es) = ping_client now c in
    let (cs', es') = ping_clients now cs in (c' ∷ cs', es ++ es')

-- One turn of `ping_thread`, after its sleep.
unfoldable pub ping_round : ℕ → Server → Server × List Effect
ping_round now s = let (cs, es) = ping_clients now s.clients in (record s { clients = cs }, es)

-- The `close` of the socket, behind which every call on it fails, is left out.
unfoldable pub handle_signal : Server → Server
handle_signal s = record s { server_running = false }
