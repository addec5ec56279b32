-- ===== src/ChatUdp/Client.antt =====
-- Lab 12/client.c: the two threads of the client and its signal handler. The reading of typed lines
-- and of the server's texts is the same code as in Lab 11/client.c.
use operating_systems_course.Common.{
  ℕ, ◌-◌, Bool, true, false, Option, none, some, List, [], ◌∷◌, ◌++◌, if◌then◌else◌, ltb, take,
  Bytes, codes, c_str, starts_with, snprintf,
}
use operating_systems_course.ChatTcp.Client.{
  buffer_size, Received, receive, Action, ignore, transmit, usage, stop, unknown_command, command,
}

abbrev pub id_length : ℕ
id_length = 32

-- `sendto` of a text to the server, or something printed.
pub data Effect : Type 0 where
  sendto_server : Bytes → Effect
  show_received : Received → Effect
  show_text : Bytes → Effect

-- What the system calls at the start give: whether there is a socket, whether the address is one,
-- whether the registration can be sent, the answer (`none` is an error or five seconds without one),
-- and whether the thread can be created.
pub record Setup : Type 0 where
  pub has_socket : Bool
  pub valid_address : Bool
  pub registration_sent : Bool
  pub answer : Option Bytes
  pub has_thread : Bool

-- The id that the client keeps, and the registration that `main` sends.
abbrev pub client_id : Bytes → Bytes
client_id arg = take (id_length - 1) arg

abbrev pub registration : Bytes → Bytes
registration arg = snprintf buffer_size (codes "REGI|" ++ client_id arg)

-- `main` behind the answer to its registration.
unfoldable pub register : Setup → Bytes → Bool × List Effect
register setup arg = elim setup.answer [
  | none ↦ (false, show_text (codes "Registration failed: No response from server.\n") ∷ [])
  | some [] ↦ (false, show_text (codes "Registration failed: No response from server.\n") ∷ [])
  | some (b ∷ bytes) ↦
      let buffer = c_str (take (buffer_size - 1) (b ∷ bytes)) in
      if starts_with (codes "OK") buffer
      then (
        setup.has_thread,
        show_text (codes "Connected to server as " ++ (client_id arg ++ codes "\n")) ∷ [],
      )
      else (false, show_text (codes "Registration failed: " ++ (buffer ++ codes "\n")) ∷ [])
]

-- `main` up to its loop, on the id among its arguments: whether it gets there. `perror` is left out.
unfoldable pub connect : Setup → Bytes → Bool × List Effect
connect setup arg =
    if setup.has_socket
    then (if setup.valid_address
        then (if setup.registration_sent
            then (let (on, es) = register setup arg in (on, sendto_server (registration arg) ∷ es))
            else (false, sendto_server (registration arg) ∷ []))
        else (false, []))
    else (false, [])

-- Where `receiver` stands: created and before its first test of `running`, in `recvfrom`, returned, or
-- cancelled, which ends it at that test or in `recvfrom`.
pub data Receiver : Type 0 where
  created receiving returned cancelled : Receiver

-- Where `main` stands: in `fgets`, in `pthread_join`, or at its end.
pub data Main : Type 0 where
  typing joining finished : Main

-- `closed` is whether the descriptor `sock` was closed.
pub record State : Type 0 where
  pub sock : ℕ
  pub closed : Bool
  pub running : Bool
  pub receiver : Receiver
  pub main : Main

-- Behind a successful start.
abbrev pub connected : ℕ → State
connected sock = record {
  sock = sock;
  closed = false;
  running = true;
  receiver = created;
  main = typing;
}

-- The receiver is in `recvfrom`.
abbrev pub listening : ℕ → State
listening sock = record (connected sock) { receiver = receiving }

unfoldable pub handle_signal : State → State × List Effect
handle_signal s =
    if ltb 0 s.sock
    then (record s { closed = true; running = false }, sendto_server (codes "STOP") ∷ [])
    else (record s { running = false }, [])

-- The test of `while (running)` in `receiver`.
abbrev pub receive_again : State → State
receive_again s = record s { receiver = if s.running then receiving else returned }

-- The branches of `receiver` on a text; `sent` is whether a `sendto` succeeds.
unfoldable pub show_message : Bool → Bytes → State → State × List Effect
show_message sent buffer s =
    if starts_with (codes "PING") buffer
    then (
      if sent then receive_again s else record s { running = false; receiver = returned },
      sendto_server (codes "PONG") ∷ [],
    )
    else (receive_again s, show_received (receive buffer) ∷ [])

-- `recvfrom` gives an error or nothing.
unfoldable pub no_message : State → State × List Effect
no_message s = (
  record s { running = false; receiver = returned },
  if s.running then show_text (codes "Server stopped responding or error occurred.\n") ∷ [] else [],
)

-- A round of the loop of `receiver`, on what `recvfrom` gives.
unfoldable pub receive_round : Option Bytes → Bool → State → State × List Effect
receive_round none sent s = no_message s
receive_round (some []) sent s = no_message s
receive_round (some (b ∷ bytes)) sent s =
    show_message sent (c_str (take (buffer_size - 1) (b ∷ bytes))) s

-- The first test of `receiver`.
unfoldable pub begin : Receiver → State → State
begin created s = receive_again s
begin receiving s = s
begin returned s = s
begin cancelled s = s

-- `receiver` on what `recvfrom` gives; in a thread that is only created, its first test comes before.
unfoldable pub receiver_step : Option Bytes → Bool → Receiver → State → State × List Effect
receiver_step bytes sent created s =
    if s.running then receive_round bytes sent s else (record s { receiver = returned }, [])
receiver_step bytes sent receiving s = receive_round bytes sent s
receiver_step bytes sent returned s = (s, [])
receiver_step bytes sent cancelled s = (s, [])

-- `main` behind its loop, on whether its input is a terminal.
abbrev pub leave : Bool → State → State
leave is_terminal s = record s {
  main = joining;
  receiver =
      if is_terminal
      then (elim s.receiver [ created ↦ cancelled | receiving ↦ cancelled | r ↦ r ])
      else s.receiver;
}

-- The test of `while (running)` in `main`.
abbrev pub type_again : Bool → State → State
type_again is_terminal s = if s.running then s else leave is_terminal s

-- The branches of the loop of `main` on a line.
unfoldable pub perform : Bool → Bool → Action → State → State × List Effect
perform is_terminal sent ignore s = (type_again is_terminal s, [])
perform is_terminal sent (transmit text) s =
    (if sent then type_again is_terminal s else leave is_terminal s, sendto_server text ∷ [])
perform is_terminal sent usage s =
    (type_again is_terminal s, show_text (codes "Usage: 2ONE <recipient_id> <message>\n") ∷ [])
perform is_terminal sent (stop text) s =
    (leave is_terminal (record s { running = false }), sendto_server text ∷ [])
perform is_terminal sent unknown_command s =
    (type_again is_terminal s, show_text (codes "Unknown command\n") ∷ [])

-- `pthread_join` and what is behind it.
abbrev pub join : Receiver → State → State × List Effect
join created s = (s, [])
join receiving s = (s, [])
join r s =
    (record s { closed = true; main = finished }, show_text (codes "\nClient stopped\n") ∷ [])

-- A step of `main`, on what `fgets` gives, if it is called; `none` is its NULL.
unfoldable pub main_step : Bool → Option Bytes → Bool → Main → State → State × List Effect
main_step is_terminal none sent typing s = (leave is_terminal (record s { running = false }), [])
main_step is_terminal (some line) sent typing s = perform is_terminal sent (command line) s
main_step is_terminal line sent joining s = join s.receiver s
main_step is_terminal line sent finished s = (s, [])

-- The first test of `receiver`, what `recvfrom` gives it, what `fgets` gives `main`, each with whether a
-- `sendto` in that round succeeds, and a SIGINT.
pub data Event : Type 0 where
  begins : Event
  datagram : Option Bytes → Bool → Event
  line : Option Bytes → Bool → Event
  interrupt : Event

unfoldable pub step : Bool → Event → State → State × List Effect
step is_terminal begins s = (begin s.receiver s, [])
step is_terminal (datagram bytes sent) s = receiver_step bytes sent s.receiver s
step is_terminal (line text sent) s = main_step is_terminal text sent s.main s
step is_terminal interrupt s = handle_signal s

unfoldable pub run : Bool → List Event → State → State × List Effect
run is_terminal [] s = (s, [])
run is_terminal (e ∷ events) s =
    let (s', es) = step is_terminal e s in
    let (s'', es') = run is_terminal events s' in (s'', es ++ es')
