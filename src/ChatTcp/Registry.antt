-- ===== src/ChatTcp/Registry.antt =====
-- Lab 11/server.c: the table of clients, and the functions that read and change it.
use operating_systems_course.Common.{
  ℕ, ◌-◌, Bool, true, false, not, ◌&&◌, ◌||◌, Option, none, some, List, [], ◌∷◌, ◌++◌, ltb, ◌==◌,
  if◌then◌else◌, get_or, set, replicate, Bytes, codes, str_eq, take, ℤ, pos, negsuc, increment,
  decrement, at_least,
}

abbrev pub max_clients : ℕ
max_clients = 10

abbrev pub buffer_size : ℕ
buffer_size = 1024

abbrev pub id_length : ℕ
id_length = 32

abbrev pub ping_timeout : ℕ
ping_timeout = 60

-- A slot of the table; socket 0 marks a free one. `id` is the C string in the array.
pub record Client : Type 0 where
  pub socket : ℕ
  pub id : Bytes
  pub last_active : ℕ
  pub thread : ℕ

-- The globals.
pub record Server : Type 0 where
  pub clients : List Client
  pub client_count : ℤ
  pub server_running : Bool

-- What a thread asks of the kernel; `send` is recorded when it is tried.
pub data Effect : Type 0 where
  send : ℕ → Bytes → Effect
  close : ℕ → Effect

-- Whether a `send` on a descriptor succeeds, for the calls of one critical section.
abbrev pub Net : Type 0
Net = ℕ → Bytes → Bool

-- `clients[i].socket != 0`
abbrev pub is_used : Client → Bool
is_used c = not (c.socket == 0)

abbrev pub blank : Client
blank = record { socket = 0; id = []; last_active = 0; thread = 0 }

-- The globals as the program starts.
abbrev pub initial : Server
initial = record {
  clients = replicate max_clients blank;
  client_count = pos 0;
  server_running = true;
}

-- `for (i …) if (test(clients[i])) { change; break; }`; `none` when no slot passes.
unfoldable pub modify_first :
    (Client → Bool) → (Client → Client) → List Client → Option (List Client)
modify_first test change [] = none
modify_first test change (c ∷ cs) =
    let rest = modify_first test change cs in
    if test c then some (change c ∷ cs) else elim rest [ none ↦ none | some cs' ↦ some (c ∷ cs') ]

abbrev pub or_same : Option (List Client) → List Client → List Client
or_same none cs = cs
or_same (some cs') cs = cs'

abbrev pub has_socket : ℕ → Client → Bool
has_socket fd c = c.socket == fd

abbrev pub is_free : Client → Bool
is_free c = c.socket == 0

-- `clients[i].socket = 0; memset(clients[i].id, 0, ID_LENGTH)`
abbrev pub vacate : Client → Client
vacate c = record c { socket = 0; id = [] }

unfoldable pub remove_client : ℕ → Server → Server × List Effect
remove_client fd s = elim (modify_first (has_socket fd) vacate s.clients) [
  | none ↦ (s, [])
  | some cs ↦ (record s { clients = cs; client_count = decrement s.client_count }, close fd ∷ [])
]

-- The test for an id that is taken.
unfoldable pub id_in_use : Bytes → List Client → Bool
id_in_use id [] = false
id_in_use id (c ∷ cs) = is_used c && str_eq c.id id || id_in_use id cs

-- What registering leaves in the slot; if the reply could not be sent it is free again.
abbrev pub occupy : Bool → ℕ → Bytes → ℕ → Client → Client
occupy sent fd id now c = record c { socket = if sent then fd else 0; id = id; last_active = now }

-- The second loop of the registration. With no free slot nothing is done, and nothing is sent.
unfoldable pub claim_slot : Net → ℕ → ℕ → Bytes → Server → Server × List Effect
claim_slot net now fd id s =
    let sent = net fd (codes "OK") in
    elim (modify_first is_free (occupy sent fd id now) s.clients) [
      | none ↦ (s, [])
      | some cs ↦ (
        record s {
          clients = cs;
          client_count =
              if sent then increment s.client_count else decrement (increment s.client_count);
        },
        send fd (codes "OK") ∷ (if sent then [] else close fd ∷ []),
      )
    ]

-- The critical section of the registration; the flag says whether the thread goes on.
unfoldable pub register_client : Net → ℕ → ℕ → Bytes → Server → Server × List Effect × Bool
register_client net now fd id s =
    if id_in_use id s.clients
    then (s, send fd (take 23 (codes "ERROR|ID already in use")) ∷ close fd ∷ [], false)
    else let (s', es) = claim_slot net now fd id s in (s', es, true)

-- The case PONG.
unfoldable pub touch_client : ℕ → ℕ → Server → Server
touch_client now fd s = record s {
  clients =
      or_same (modify_first (has_socket fd) (λ c. record c { last_active = now }) s.clients)
        s.clients;
}

-- One round of the loop in `alive_checker`. A `time_t` difference below 0 is no timeout, as is 0.
unfoldable pub check_client : Net → ℕ → Client → ℤ → Client × ℤ × List Effect
check_client net now c n =
    if is_used c
    then (if ltb ping_timeout (now - c.last_active)
        then (vacate c, decrement n, close c.socket ∷ [])
        else (if net c.socket (codes "PING")
            then (c, n, send c.socket (codes "PING") ∷ [])
            else (vacate c, decrement n, send c.socket (codes "PING") ∷ close c.socket ∷ [])))
    else (c, n, [])

unfoldable pub check_clients : Net → ℕ → List Client → ℤ → List Client × ℤ × List Effect
check_clients net now [] n = ([], n, [])
check_clients net now (c ∷ cs) n =
    let (c', n', es) = check_client net now c n in
    let (cs', n'', es') = check_clients net now cs n' in (c' ∷ cs', n'', es ++ es')

-- One turn of `alive_checker`, after its sleep.
unfoldable pub alive_round : Net → ℕ → Server → Server × List Effect
alive_round net now s =
    let (cs, n, es) = check_clients net now s.clients s.client_count in
    (record s { clients = cs; client_count = n }, es)

-- What became of `malloc` and `pthread_create` in the accept loop.
pub data Spawn : Type 0 where
  no_memory : Spawn
  no_thread : ℕ → Spawn
  spawned : ℕ → Spawn

-- `&clients[client_count].thread` is written by `pthread_create`.
abbrev pub set_thread : ℤ → ℕ → List Client → List Client
set_thread (pos k) t cs = set cs k (record (get_or cs k blank) { thread = t })
set_thread (negsuc k) t cs = cs

-- The branch of the accept loop that starts a thread.
unfoldable pub start_thread : ℕ → Spawn → Server → Server × List Effect × Bool
start_thread fd no_memory s = (s, close fd ∷ [], false)
start_thread fd (no_thread t) s =
    (record s { clients = set_thread s.client_count t s.clients }, close fd ∷ [], false)
start_thread fd (spawned t) s =
    (record s { clients = set_thread s.client_count t s.clients }, [], true)

-- The critical section of the accept loop; the flag says whether a thread runs `handle_client`.
unfoldable pub accept_client : ℕ → Spawn → Server → Server × List Effect × Bool
accept_client fd outcome s =
    if at_least max_clients s.client_count
    then (s, send fd (take 19 (codes "ERROR|Server is full")) ∷ close fd ∷ [], false)
    else start_thread fd outcome s

unfoldable pub handle_signal : Server → Server
handle_signal s = record s { server_running = false }

-- The end of `main`: the sockets that are still in the table are closed.
unfoldable pub shutdown : List Client → List Effect
shutdown [] = []
shutdown (c ∷ cs) = if is_used c then close c.socket ∷ shutdown cs else shutdown cs
