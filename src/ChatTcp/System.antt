-- ===== src/ChatTcp/System.antt =====
-- Lab 11/server.c: the threads together. The mutex makes each critical section one step; a schedule
-- of events says which thread goes next and what the kernel answers.
use operating_systems_course.Common.{
  ℕ, Bool, false, Option, none, some, List, [], ◌∷◌, ◌++◌, if◌then◌else◌, get_elem?, set, Bytes,
}
use operating_systems_course.ChatTcp.Registry.{
  Server, Effect, Net, Spawn, initial, accept_client, remove_client, alive_round, handle_signal,
}
use operating_systems_course.ChatTcp.Session.{Received, greet, serve}

-- Where a thread of `handle_client` stands: before its first `recv`, in its loop under the id that
-- it asked for, before `remove_client`, or returned.
pub data Phase : Type 0 where
  greeting : Phase
  serving : Bytes → Phase
  leaving : Phase
  finished : Phase

pub record Thread : Type 0 where
  pub client_socket : ℕ
  pub phase : Phase

pub record System : Type 0 where
  pub server : Server
  pub threads : List Thread

-- `wake i` is the next step of thread i of `handle_client`, with what its calls would return.
pub data Event : Type 0 where
  connect : ℕ → Spawn → Event
  wake : ℕ → Net → ℕ → Bytes → Received → Event
  stop_seen : ℕ → Event
  alive : Net → ℕ → Event
  interrupt : Event

abbrev pub start : System
start = record { server = initial; threads = [] }

abbrev pub phase_of_greeting : Option Bytes → Phase
phase_of_greeting none = finished
phase_of_greeting (some id) = serving id

-- A new connection, and the thread for it if one was created.
unfoldable pub connected : ℕ → Spawn → System → System × List Effect
connected fd outcome y =
    let (s', es, created) = accept_client fd outcome y.server in
    (
      record {
        server = s';
        threads =
            if created
            then y.threads ++ record { client_socket = fd; phase = greeting } ∷ []
            else y.threads;
      },
      es,
    )

-- The next step of a thread on the shared state.
unfoldable pub thread_step :
    Net → ℕ → Bytes → Received → ℕ → Phase → Server → Server × List Effect × Phase
thread_step net now stamp received fd greeting s =
    let (s', es, id) = greet net now fd received s in (s', es, phase_of_greeting id)
thread_step net now stamp received fd (serving id) s =
    let (s', es, goes_on) = serve net now stamp fd id received s in
    (s', es, if goes_on then serving id else leaving)
thread_step net now stamp received fd leaving s =
    let (s', es) = remove_client fd s in (s', es, finished)
thread_step net now stamp received fd finished s = (s, [], finished)

abbrev pub with_phase : ℕ → Phase → Thread → List Thread → List Thread
with_phase i p t ts = set ts i (record t { phase = p })

unfoldable pub woken : ℕ → Net → ℕ → Bytes → Received → System → System × List Effect
woken i net now stamp received y = elim (get_elem? y.threads i) [
  | none ↦ (y, [])
  | some t ↦
      let (s', es, p) = thread_step net now stamp received t.client_socket t.phase y.server in
      (record { server = s'; threads = with_phase i p t y.threads }, es)
]

-- `while (server_running)` fails.
abbrev pub leave_loop : Bool → Phase → Phase
leave_loop false (serving id) = leaving
leave_loop running p = p

unfoldable pub saw_stop : ℕ → System → System
saw_stop i y = elim (get_elem? y.threads i) [
  | none ↦ y
  | some t ↦ record y {
    threads = with_phase i (leave_loop y.server.server_running t.phase) t y.threads;
  }
]

unfoldable pub step : Event → System → System × List Effect
step (connect fd outcome) y = connected fd outcome y
step (wake i net now stamp received) y = woken i net now stamp received y
step (stop_seen i) y = (saw_stop i y, [])
step (alive net now) y =
    let (s', es) = alive_round net now y.server in (record y { server = s' }, es)
step interrupt y = (record y { server = handle_signal y.server }, [])

unfoldable pub run : List Event → System → System × List Effect
run [] y = (y, [])
run (e ∷ events) y = let (y', es) = step e y in let (y'', es') = run events y' in (y'', es ++ es')
