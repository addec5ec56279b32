-- ===== src/ChatTcp/Threads.antt =====
-- Lab 11/client.c: the start of the client, its two threads and its signal handler.
use operating_systems_course.Common.{
  ℕ, ◌-◌, Bool, true, false, Option, none, some, List, [], ◌∷◌, ◌++◌, if◌then◌else◌, ltb, take,
  Bytes, codes, c_str, starts_with,
}
use operating_systems_course.ChatTcp.Client.{
  buffer_size, registration, registered, Received, receive, Action, ignore, transmit, usage, stop,
  unknown_command, command,
}

-- `send` of a text to the server, or something printed.
pub data Effect : Type 0 where
  send_server : Bytes → Effect
  show_received : Received → Effect
  show_text : Bytes → Effect

-- What the system calls at the start give; `answer` is what `recv` gives, `none` for an error.
pub record Setup : Type 0 where
  pub has_socket : Bool
  pub valid_address : Bool
  pub is_connected : Bool
  pub registration_sent : Bool
  pub answer : Option Bytes
  pub has_thread : Bool

-- `main` up to its loop, on the id among its arguments: whether it gets there, and what it sends.
unfoldable pub connect : Setup → Bytes → Bool × List Effect
connect setup arg =
    if setup.has_socket
    then (if setup.valid_address
        then (if setup.is_connected
            then (if setup.registration_sent
                then (
                  if registered setup.answer then setup.has_thread else false,
                  send_server (registration arg) ∷ [],
                )
                else (false, send_server (registration arg) ∷ []))
            else (false, []))
        else (false, []))
    else (false, [])

-- Where `receiver` stands: created and before its first test of `running`, in `recv`, or returned.
pub data Receiver : Type 0 where
  created receiving returned : Receiver

-- Where `main` stands: in `fgets`, in `pthread_join`, or at its end.
pub data Main : Type 0 where
  typing joining finished : Main

pub record State : Type 0 where
  pub sock : ℕ
  pub closed : Bool
  pub running : Bool
  pub receiver : Receiver
  pub main : Main

-- Behind a successful start.
abbrev pub connected : ℕ → State
connected sock = record {
  sock = sock;
  closed = false;
  running = true;
  receiver = created;
  main = typing;
}

unfoldable pub handle_signal : State → State × List Effect
handle_signal s =
    if ltb 0 s.sock
    then (record s { closed = true; running = false }, send_server (codes "STOP") ∷ [])
    else (record s { running = false }, [])

-- The test of `while (running)` in `receiver`.
abbrev pub receive_again : State → State
receive_again s = record s { receiver = if s.running then receiving else returned }

-- The branches of `receiver` on a text; `sent` is whether the `send` of PONG succeeds.
unfoldable pub show_message : Bool → Bytes → State → State × List Effect
show_message sent buffer s =
    if starts_with (codes "PING") buffer
    then (
      if sent then receive_again s else record s { running = false; receiver = returned },
      send_server (codes "PONG") ∷ [],
    )
    else (receive_again s, show_received (receive buffer) ∷ [])

-- `recv` gives an error, or nothing because the server has closed the connection.
abbrev pub no_message : State → State × List Effect
no_message s = (
  record s { running = false; receiver = returned },
  show_text (codes "Disconnected from server\n") ∷ [],
)

-- A round of the loop of `receiver`, on what `recv` gives.
unfoldable pub receive_round : Option Bytes → Bool → State → State × List Effect
receive_round none sent s = no_message s
receive_round (some []) sent s = no_message s
receive_round (some (b ∷ bytes)) sent s =
    show_message sent (c_str (take (buffer_size - 1) (b ∷ bytes))) s

-- The first test of `receiver`.
unfoldable pub begin : Receiver → State → State
begin created s = receive_again s
begin receiving s = s
begin returned s = s

-- `receiver` on what `recv` gives; in a thread that is only created, its first test comes before.
unfoldable pub receiver_step : Option Bytes → Bool → Receiver → State → State × List Effect
receiver_step bytes sent created s =
    if s.running then receive_round bytes sent s else (record s { receiver = returned }, [])
receiver_step bytes sent receiving s = receive_round bytes sent s
receiver_step bytes sent returned s = (s, [])

-- `main` behind its loop.
abbrev pub leave : State → State
leave s = record s { main = joining }

-- The test of `while (running)` in `main`.
abbrev pub type_again : State → State
type_again s = record s { main = if s.running then typing else joining }

-- The branches of the loop of `main` on a line; `sent` is whether the `send` succeeds.
unfoldable pub perform : Bool → Action → State → State × List Effect
perform sent ignore s = (type_again s, [])
perform sent (transmit text) s = (if sent then type_again s else leave s, send_server text ∷ [])
perform sent usage s =
    (type_again s, show_text (codes "Usage: 2ONE <recipient_id> <message>\n") ∷ [])
perform sent (stop text) s = (leave (record s { running = false }), send_server text ∷ [])
perform sent unknown_command s = (type_again s, show_text (codes "Unknown command\n") ∷ [])

-- `pthread_join` and what is behind it.
abbrev pub join : Receiver → State → State × List Effect
join created s = (s, [])
join receiving s = (s, [])
join returned s =
    (record s { closed = true; main = finished }, show_text (codes "Client stopped\n") ∷ [])

-- A step of `main`, on what `fgets` gives, if it is called; `none` is its NULL.
unfoldable pub main_step : Option Bytes → Bool → Main → State → State × List Effect
main_step none sent typing s = (leave s, [])
main_step (some line) sent typing s = perform sent (command line) s
main_step line sent joining s = join s.receiver s
main_step line sent finished s = (s, [])

-- The first test of `receiver`, what `recv` gives it, what `fgets` gives `main`, each with whether a `send` in that round
-- succeeds, and a SIGINT. The handlers and threads act between rounds.
pub data Event : Type 0 where
  begins : Event
  data_in : Option Bytes → Bool → Event
  line : Option Bytes → Bool → Event
  interrupt : Event

unfoldable pub step : Event → State → State × List Effect
step begins s = (begin s.receiver s, [])
step (data_in bytes sent) s = receiver_step bytes sent s.receiver s
step (line text sent) s = main_step text sent s.main s
step interrupt s = handle_signal s

unfoldable pub run : List Event → State → State × List Effect
run [] s = (s, [])
run (e ∷ events) s = let (s', es) = step e s in let (s'', es') = run events s' in (s'', es ++ es')
