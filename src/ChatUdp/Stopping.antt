-- ===== src/ChatUdp/Stopping.antt =====
-- Lab 12/client.c: how the client ends.
use mathlib.Core.Path.{subst⁻¹}
use operating_systems_course.Common.{
  ℕ, ◌≡◌, ◌≢◌, refl, ap, ◌∙◌, ◌⊎◌, Bool, true, false, Option, none, some, List, [], ◌∷◌, ltb, Bytes,
  codes, arith, Bool-cases, inl, inr,
}
use operating_systems_course.ChatTcp.Client.{
  Action, ignore, transmit, usage, stop, unknown_command, request, command,
}
use operating_systems_course.ChatUdp.Client.{
  sendto_server, Receiver, created, receiving, returned, cancelled, begin, Main, typing, joining,
  finished, State, connected, handle_signal, type_again, perform, join, main_step, Event, begins,
  datagram, line, interrupt, step, run,
}
use operating_systems_course.ChatUdp.Running.{IsSound, main_step-IsSound, run_keeps-IsSound}

module _ (s : State) (off : s.running ≡ false) (t : s.main ≡ typing) where
  type_again_leaves : (type_again true s).main ≡ joining
  type_again_leaves = ground (arith, off)

  perform_leaves : (sent : Bool) (a : Action) → (perform true sent a s).0.main ≡ joining
  unfolding perform
  perform_leaves sent ignore = type_again_leaves
  perform_leaves sent (transmit text) = elim (Bool-cases sent) [
    | inl on ↦ rw (on, perform) type_again_leaves
    | inr no_send ↦ rw (no_send, perform) refl
  ]
  perform_leaves sent usage = type_again_leaves
  perform_leaves sent (stop text) = refl
  perform_leaves sent unknown_command = type_again_leaves

  main_step_leaves :
      (m : Main) (text : Option Bytes) (sent : Bool)
      → s.main ≡ m
      → (main_step true text sent m s).0.main ≡ joining
  unfolding main_step
  main_step_leaves typing none sent e = refl
  main_step_leaves typing (some l) sent e = perform_leaves sent (command l)
  main_step_leaves joining text sent e = cc
  main_step_leaves finished text sent e = cc

join_finishes :
    (r : Receiver) (s : State)
    → s.receiver ≡ r
    → s.main ≡ joining
    → IsSound true s
    → (join r s).0.main ≡ finished
join_finishes created s e t h = let on : true ≡ false = rw (e, t) at h in cc
join_finishes receiving s e t h = let on : true ≡ false = rw (e, t) at h in cc
join_finishes returned s e t h = refl
join_finishes cancelled s e t h = refl

main_step_finishes :
    (m : Main) (text : Option Bytes) (sent : Bool) (s : State)
    → s.main ≡ m
    → m ≢ typing
    → IsSound true s
    → (main_step true text sent m s).0.main ≡ finished
unfolding main_step
main_step_finishes typing text sent s e n h = absurd (n refl)
main_step_finishes joining none sent s e n h = join_finishes s.receiver s refl e h
main_step_finishes joining (some l) sent s e n h = join_finishes s.receiver s refl e h
main_step_finishes finished none sent s e n h = e
main_step_finishes finished (some l) sent s e n h = e

two_turns :
    (m : Main) (t t' : Option Bytes) (sent sent' : Bool) (s : State)
    → s.main ≡ m
    → s.running ≡ false
    → IsSound true s
    → (run true (line t sent ∷ line t' sent' ∷ []) s).0.main ≡ finished
unfolding run step
two_turns typing t t' sent sent' s e off h =
    let s' = (main_step true t sent s.main s).0 in
    let gone = main_step_leaves s off e s.main t sent refl in
    main_step_finishes s'.main t' sent' s' refl (λ p. ground (arith, gone, p))
      (main_step-IsSound true t sent s.main s refl h)
two_turns joining t t' sent sent' s e off h =
    let s' = (main_step true t sent s.main s).0 in
    let done = main_step_finishes s.main t sent s refl (λ p. ground (arith, e, p)) h in
    main_step_finishes s'.main t' sent' s' refl (λ p. ground (arith, done, p))
      (main_step-IsSound true t sent s.main s refl h)
two_turns finished t t' sent sent' s e off h =
    let s' = (main_step true t sent s.main s).0 in
    let done = main_step_finishes s.main t sent s refl (λ p. ground (arith, e, p)) h in
    main_step_finishes s'.main t' sent' s' refl (λ p. ground (arith, done, p))
      (main_step-IsSound true t sent s.main s refl h)

finished_closed :
    (r : Receiver) (s : State)
    → s.receiver ≡ r
    → s.main ≡ finished
    → IsSound true s
    → s.closed ≡ true
finished_closed created s e t h = absurd (rw (e, t) at h)
finished_closed receiving s e t h = absurd (rw (e, t) at h)
finished_closed returned s e t h = rw (e, t) at h
finished_closed cancelled s e t h = rw (e, t) at h

-- The client runs on a terminal, and `running` has been cleared in the course of the events, by a
-- typed "STOP", a SIGINT, the end of the input or an error: the next two turns of `main` bring it to
-- its end, with the socket closed, whatever the user types.
pub run_finishes :
    (sock : ℕ) (events : List Event) (t t' : Option Bytes) (sent sent' : Bool)
    → (run true events (connected sock)).0.running ≡ false
    → ((run true (line t sent ∷ line t' sent' ∷ []) (run true events (connected sock)).0).0.main
        ≡ finished)
      × ((run true (line t sent ∷ line t' sent' ∷ []) (run true events (connected sock)).0).0.closed
          ≡ true)
run_finishes sock events t t' sent sent' off =
    let s = (run true events (connected sock)).0 in
    let sound : IsSound true s = run_keeps-IsSound true events (connected sock) tt in
    let turns = line t sent ∷ line t' sent' ∷ [] in
    let done = two_turns s.main t t' sent sent' s refl off sound in
    let s' = (run true turns s).0 in
    (done, finished_closed s'.receiver s' refl done (run_keeps-IsSound true turns s sound))

-- Nothing comes from `recvfrom`.
abbrev pub NoDatagrams : List Event → Type 0
NoDatagrams [] = Unit
NoDatagrams (datagram bytes sent ∷ events) = ⊥
NoDatagrams (e ∷ events) = NoDatagrams events

main_waits :
    (m : Main) (r : Receiver) (text : Option Bytes) (sent : Bool) (s : State)
    → s.main ≡ m
    → s.receiver ≡ r
    → m ≡ joining
    → r ≡ receiving
    → (main_step false text sent m s).0 ≡ s
unfolding main_step
main_waits typing r text sent s e e' p q = cc
main_waits finished r text sent s e e' p q = cc
main_waits joining r none sent s e e' p q = rw (e' ∙ q) refl
main_waits joining r (some l) sent s e e' p q = rw (e' ∙ q) refl

handle_signal_keeps :
    (s : State) → ((handle_signal s).0.main ≡ s.main) × ((handle_signal s).0.receiver ≡ s.receiver)
unfolding handle_signal
handle_signal_keeps s = elim (Bool-cases (ltb 0 s.sock)) [
  | inl on ↦ rw (on, handle_signal) (refl, refl)
  | inr off ↦ rw (off, handle_signal) (refl, refl)
]

begin_keeps : (s : State) → s.receiver ≡ receiving → begin s.receiver s ≡ s
unfolding begin
begin_keeps s e = subst⁻¹ (λ r. begin r s ≡ s) e refl

waits :
    (events : List Event) (s : State)
    → NoDatagrams events
    → s.main ≡ joining
    → s.receiver ≡ receiving
    → (run false events s).0.main ≡ joining
unfolding run step
waits [] s n e r = e
waits (begins ∷ events) s n e r =
    let same = begin_keeps s r in
    waits events (begin s.receiver s) n (ap (λ z. z.main) same ∙ e) (ap (λ z. z.receiver) same ∙ r)
waits (datagram bytes sent ∷ events) s n e r = absurd n
waits (line text sent ∷ events) s n e r =
    let same = main_waits s.main s.receiver text sent s refl refl e r in
    waits events (main_step false text sent s.main s).0 n (ap (λ z. z.main) same ∙ e)
      (ap (λ z. z.receiver) same ∙ r)
waits (interrupt ∷ events) s n e r =
    let (p, q) = handle_signal_keeps s in waits events (handle_signal s).0 n (p ∙ e) (q ∙ r)

-- `fgets` gives `main` the line "STOP".
abbrev pub stop_line : Bool → Event
stop_line sent = line (some (codes "STOP\n")) sent

-- `main` leaves the loop on "STOP", and nothing happens to the receiver.
abbrev leaving : State → State
leaving s = record s { running = false; main = joining }

stop_step :
    (sent : Bool) (s : State)
    → s.main ≡ typing
    → step false (stop_line sent) s ≡ (leaving s, sendto_server (codes "STOP") ∷ [])
unfolding step main_step perform command request
stop_step sent s t =
    subst⁻¹
      (λ m.
        main_step false (some (codes "STOP\n")) sent m s
        ≡ (leaving s, sendto_server (codes "STOP") ∷ []))
      t refl

created_ends :
    (sent : Bool) (s : State)
    → s.receiver ≡ created
    → (run false (begins ∷ line none sent ∷ []) (leaving s)).0.main ≡ finished
unfolding run step begin main_step
created_ends sent s e =
    subst⁻¹ (λ r. (run false (line none sent ∷ []) (begin r (leaving s))).0.main ≡ finished) e refl

returned_ends :
    (sent : Bool) (s : State)
    → s.receiver ≡ returned
    → (run false (line none sent ∷ []) (leaving s)).0.main ≡ finished
unfolding run step main_step
returned_ends sent s e = subst⁻¹ (λ r. (join r (leaving s)).0.main ≡ finished) e refl

-- How the client goes on behind "STOP" decides where `receiver` is.
abbrev pub StopsAs : Bool → List Event → State → Type 0
StopsAs sent events s =
    ((s.receiver ≡ receiving) × ((run false (stop_line sent ∷ events) s).0.main ≡ joining))
    ⊎ ((s.receiver ≡ created)
        × ((run false (stop_line sent ∷ begins ∷ line none sent ∷ []) s).0.main ≡ finished))
    ⊎ ((s.receiver ≡ returned)
        × ((run false (stop_line sent ∷ line none sent ∷ []) s).0.main ≡ finished))

stops_by :
    (r : Receiver) (sent : Bool) (events : List Event) (s : State)
    → s.receiver ≡ r
    → s.main ≡ typing
    → IsSound false s
    → NoDatagrams events
    → StopsAs sent events s
unfolding run
stops_by created sent events s e t v n =
    inr (inl (e, rw (stop_step sent s t) (created_ends sent s e)))
stops_by receiving sent events s e t v n =
    inl (e, rw (stop_step sent s t) (waits events (leaving s) n refl e))
stops_by returned sent events s e t v n =
    inr (inr (e, rw (stop_step sent s t) (returned_ends sent s e)))
stops_by cancelled sent events s e t v n = absurd (rw (e, t) at v)

-- The input is not a terminal, and after any events `main` is in `fgets` and reads "STOP", which it
-- sends to the server. If `receiver` is in `recvfrom` then, the client does not come to its end
-- whatever follows, as long as no datagram comes: `main` waits in `pthread_join` for it. If `receiver`
-- has not come to its first test, it returns there, and the next turn of `main` ends the client; and
-- if it has returned already, the next turn of `main` does.
pub stop_waits :
    (sock : ℕ) (sent : Bool) (before events : List Event)
    → (run false before (connected sock)).0.main ≡ typing
    → NoDatagrams events
    → ((step false (stop_line sent) (run false before (connected sock)).0).1
        ≡ sendto_server (codes "STOP") ∷ [])
      × StopsAs sent events (run false before (connected sock)).0
stop_waits sock sent before events t n =
    let s = (run false before (connected sock)).0 in
    (
      ap (λ z. z.1) (stop_step sent s t),
      stops_by s.receiver sent events s refl t (run_keeps-IsSound false before (connected sock) tt)
          n,
    )
