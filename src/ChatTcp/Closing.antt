-- ===== src/ChatTcp/Closing.antt =====
-- Lab 11/client.c: the client ends when the server has closed the connection.
use operating_systems_course.Common.{
  ℕ, ◌≡◌, ◌≢◌, refl, ap, ◌∙◌, Bool, true, false, Option, none, some, List, [], ◌∷◌, ltb, take,
  Bytes, codes, c_str, starts_with, arith, if◌then◌else◌, Bool-cases, inl, inr,
}
use operating_systems_course.ChatTcp.Client.{
  Action, ignore, transmit, usage, stop, unknown_command, command,
}
use operating_systems_course.ChatTcp.Threads.{
  Receiver, created, receiving, returned, Main, typing, joining, finished, State, connected,
  handle_signal, receive_again, show_message, receive_round, begin, receiver_step, leave,
  type_again, perform, join, main_step, Event, begins, data_in, line, interrupt, step, run,
}

-- `receiver` has returned only if `running` was cleared, and `main` has ended only with the socket
-- closed.
record IsSound (s : State) : Type 0 where
  returned_last : s.receiver ≡ returned → s.running ≡ false
  finished_last : s.main ≡ finished → s.closed ≡ true

handle_signal-IsSound : (s : State) → IsSound s → IsSound (handle_signal s).0
unfolding handle_signal
handle_signal-IsSound s v = elim (Bool-cases (ltb 0 s.sock)) [
  | inl on ↦
      rw (on, handle_signal) (record { returned_last = λ e. refl; finished_last = λ e. refl })
  | inr off ↦
      rw (off, handle_signal)
        (record { returned_last = λ e. refl; finished_last = v.finished_last })
]

receive_again-IsSound : (s : State) → IsSound s → IsSound (receive_again s)
receive_again-IsSound s v = record {
  returned_last = λ e. elim (Bool-cases s.running) [ inr off ↦ off | inl on ↦ cc ];
  finished_last = v.finished_last;
}

stopped-IsSound :
    (s : State) → IsSound s → IsSound (record s { running = false; receiver = returned })
stopped-IsSound s v = record { returned_last = λ e. refl; finished_last = v.finished_last }

show_message-IsSound :
    (sent : Bool) (buffer : Bytes) (s : State) → IsSound s → IsSound (show_message sent buffer s).0
unfolding show_message
show_message-IsSound sent buffer s v = elim (Bool-cases (starts_with (codes "PING") buffer)) [
  | inl p ↦ elim (Bool-cases sent) [
    | inl on ↦ rw (p, on, show_message) (receive_again-IsSound s v)
    | inr off ↦ rw (p, off, show_message) (stopped-IsSound s v)
  ]
  | inr n ↦ rw (n, show_message) (receive_again-IsSound s v)
]

receive_round-IsSound :
    (bytes : Option Bytes) (sent : Bool) (s : State)
    → IsSound s
    → IsSound (receive_round bytes sent s).0
unfolding receive_round
receive_round-IsSound none sent s v = stopped-IsSound s v
receive_round-IsSound (some []) sent s v = stopped-IsSound s v
receive_round-IsSound (some (b ∷ bytes)) sent s v =
    show_message-IsSound sent (c_str (take 1023 (b ∷ bytes))) s v

first_round-IsSound :
    (bytes : Option Bytes) (sent on : Bool) (s : State)
    → s.running ≡ on
    → IsSound s
    → IsSound (if on then receive_round bytes sent s else (record s { receiver = returned }, [])).0
first_round-IsSound bytes sent true s e v = receive_round-IsSound bytes sent s v
first_round-IsSound bytes sent false s e v = record {
  returned_last = λ r. e;
  finished_last = v.finished_last;
}

begin-IsSound : (r : Receiver) (s : State) → IsSound s → IsSound (begin r s)
unfolding begin
begin-IsSound created s v = receive_again-IsSound s v
begin-IsSound receiving s v = v
begin-IsSound returned s v = v

receiver_step-IsSound :
    (bytes : Option Bytes) (sent : Bool) (r : Receiver) (s : State)
    → IsSound s
    → IsSound (receiver_step bytes sent r s).0
unfolding receiver_step
receiver_step-IsSound bytes sent created s v = first_round-IsSound bytes sent s.running s refl v
receiver_step-IsSound bytes sent receiving s v = receive_round-IsSound bytes sent s v
receiver_step-IsSound bytes sent returned s v = v

leave-IsSound : (s : State) → IsSound s → IsSound (leave s)
leave-IsSound s v = record { returned_last = v.returned_last; finished_last = λ e. cc }

type_again-IsSound : (s : State) → IsSound s → IsSound (type_again s)
type_again-IsSound s v = record {
  returned_last = v.returned_last;
  finished_last = λ e. elim (Bool-cases s.running) [ inl on ↦ cc | inr off ↦ cc ];
}

perform-IsSound : (sent : Bool) (a : Action) (s : State) → IsSound s → IsSound (perform sent a s).0
unfolding perform
perform-IsSound sent ignore s v = type_again-IsSound s v
perform-IsSound sent (transmit text) s v = elim (Bool-cases sent) [
  | inl on ↦ rw (on, perform) (type_again-IsSound s v)
  | inr off ↦ rw (off, perform) (leave-IsSound s v)
]
perform-IsSound sent usage s v = type_again-IsSound s v
perform-IsSound sent (stop text) s v = record { returned_last = λ e. refl; finished_last = λ e. cc }
perform-IsSound sent unknown_command s v = type_again-IsSound s v

join-IsSound : (r : Receiver) (s : State) → IsSound s → IsSound (join r s).0
join-IsSound created s v = v
join-IsSound receiving s v = v
join-IsSound returned s v = record { returned_last = v.returned_last; finished_last = λ e. refl }

main_step-IsSound :
    (text : Option Bytes) (sent : Bool) (m : Main) (s : State)
    → IsSound s
    → IsSound (main_step text sent m s).0
unfolding main_step
main_step-IsSound none sent typing s v = leave-IsSound s v
main_step-IsSound (some l) sent typing s v = perform-IsSound sent (command l) s v
main_step-IsSound none sent joining s v = join-IsSound s.receiver s v
main_step-IsSound (some l) sent joining s v = join-IsSound s.receiver s v
main_step-IsSound none sent finished s v = v
main_step-IsSound (some l) sent finished s v = v

step-IsSound : (e : Event) (s : State) → IsSound s → IsSound (step e s).0
unfolding step
step-IsSound begins s v = begin-IsSound s.receiver s v
step-IsSound (data_in bytes sent) s v = receiver_step-IsSound bytes sent s.receiver s v
step-IsSound (line text sent) s v = main_step-IsSound text sent s.main s v
step-IsSound interrupt s v = handle_signal-IsSound s v

run_keeps-IsSound : (events : List Event) (s : State) → IsSound s → IsSound (run events s).0
unfolding run
run_keeps-IsSound [] s v = v
run_keeps-IsSound (e ∷ events) s v = run_keeps-IsSound events (step e s).0 (step-IsSound e s v)

first_closed :
    (on sent : Bool) (s : State)
    → s.running ≡ on
    → let s' =
        (if on then receive_round none sent s else (record s { receiver = returned }, [])).0 in
      (s'.running ≡ false) × (s'.receiver ≡ returned)
unfolding receive_round
first_closed true sent s e = (refl, refl)
first_closed false sent s e = (e, refl)

closed_down :
    (r : Receiver) (sent : Bool) (s : State)
    → s.receiver ≡ r
    → IsSound s
    → ((receiver_step none sent r s).0.running ≡ false)
      × ((receiver_step none sent r s).0.receiver ≡ returned)
unfolding receiver_step receive_round
closed_down created sent s e v = first_closed s.running sent s refl
closed_down receiving sent s e v = (refl, refl)
closed_down returned sent s e v = (v.returned_last e, e)

-- `main` leaves its loop, and nothing happens to the receiver.
Left : State → State → Type 0
Left s s' = (s'.main ≡ joining) × (s'.receiver ≡ s.receiver)

type_again_leaves : (s : State) → s.running ≡ false → Left s (type_again s)
unfolding Left
type_again_leaves s off = (rw off refl, refl)

perform_leaves :
    (sent : Bool) (a : Action) (s : State) → s.running ≡ false → Left s (perform sent a s).0
unfolding perform Left
perform_leaves sent ignore s off = type_again_leaves s off
perform_leaves sent (transmit text) s off = elim (Bool-cases sent) [
  | inl on ↦ rw (on, perform) (type_again_leaves s off)
  | inr failed ↦ rw (failed, perform) (refl, refl)
]
perform_leaves sent usage s off = type_again_leaves s off
perform_leaves sent (stop text) s off = (refl, refl)
perform_leaves sent unknown_command s off = type_again_leaves s off

typing_leaves :
    (text : Option Bytes) (sent : Bool) (s : State)
    → s.running ≡ false
    → Left s (main_step text sent typing s).0
unfolding main_step Left
typing_leaves none sent s off = (refl, refl)
typing_leaves (some l) sent s off = perform_leaves sent (command l) s off

behind_loop :
    (m : Main) (text : Option Bytes) (sent : Bool) (s : State)
    → s.main ≡ m
    → m ≢ typing
    → s.receiver ≡ returned
    → (main_step text sent m s).0.main ≡ finished
unfolding main_step
behind_loop typing text sent s e h r = absurd (h refl)
behind_loop joining none sent s e h r = rw (ap (λ x. (join x s).0.main) r) refl
behind_loop joining (some l) sent s e h r = rw (ap (λ x. (join x s).0.main) r) refl
behind_loop finished none sent s e h r = e
behind_loop finished (some l) sent s e h r = e

stays_finished :
    (m : Main) (text : Option Bytes) (sent : Bool) (s : State)
    → s.main ≡ m
    → m ≡ finished
    → (main_step text sent m s).0.main ≡ finished
unfolding main_step
stays_finished typing text sent s e h = cc
stays_finished joining text sent s e h = cc
stays_finished finished none sent s e h = e
stays_finished finished (some l) sent s e h = e

two_turns :
    (m : Main) (t t' : Option Bytes) (sent sent' : Bool) (s : State)
    → s.main ≡ m
    → s.running ≡ false
    → s.receiver ≡ returned
    → (run (line t sent ∷ line t' sent' ∷ []) s).0.main ≡ finished
unfolding run step Left
two_turns typing t t' sent sent' s e off r =
    let (gone, same) : Left s (main_step t sent s.main s).0 =
      rw (← e) at (typing_leaves t sent s off) in
    let s' = (main_step t sent s.main s).0 in
    behind_loop s'.main t' sent' s' refl (λ p. ground (arith, gone, p)) (same ∙ r)
two_turns joining t t' sent sent' s e off r =
    let s' = (main_step t sent s.main s).0 in
    let done = behind_loop s.main t sent s refl (λ p. ground (arith, e, p)) r in
    stays_finished s'.main t' sent' s' refl done
two_turns finished t t' sent sent' s e off r =
    let s' = (main_step t sent s.main s).0 in
    let done = behind_loop s.main t sent s refl (λ p. ground (arith, e, p)) r in
    stays_finished s'.main t' sent' s' refl done

-- However the client has come to where it is: when `recv` then gives an error, or nothing because the
-- server has closed the connection, as it does behind a "STOP", the next two turns of `main` bring the
-- client to its end, with the socket closed, whatever the user types.
pub closed_connection_ends :
    (sock : ℕ) (events : List Event) (t t' : Option Bytes) (sent sent' sent'' : Bool)
    → ((run
          (data_in none sent'' ∷ line t sent ∷ line t' sent' ∷ [])
          (run events (connected sock)).0).0.main
        ≡ finished)
      × ((run
            (data_in none sent'' ∷ line t sent ∷ line t' sent' ∷ [])
            (run events (connected sock)).0).0.closed
          ≡ true)
unfolding run step
closed_connection_ends sock events t t' sent sent' sent'' =
    let s = (run events (connected sock)).0 in
    let v : IsSound s =
      run_keeps-IsSound events (connected sock)
        (record { returned_last = λ e. cc; finished_last = λ e. cc }) in
    let (off, r) = closed_down s.receiver sent'' s refl v in
    let s' = (receiver_step none sent'' s.receiver s).0 in
    let turns = data_in none sent'' ∷ line t sent ∷ line t' sent' ∷ [] in
    let done = two_turns s'.main t t' sent sent' s' refl off r in
    (done, (run_keeps-IsSound turns s v).finished_last done)
