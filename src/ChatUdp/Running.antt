-- ===== src/ChatUdp/Running.antt =====
-- Lab 12/client.c: `receiver` ends by itself only behind the clearing of `running`.
use operating_systems_course.Common.{
  ◌≡◌, refl, Bool, true, false, Option, none, some, List, [], ◌∷◌, if◌then◌else◌, ltb, take, Bytes,
  codes, c_str, starts_with, Bool-cases, inl, inr,
}
use operating_systems_course.ChatTcp.Client.{
  Action, ignore, transmit, usage, stop, unknown_command, command,
}
use operating_systems_course.ChatUdp.Client.{
  Receiver, created, receiving, returned, cancelled, Main, typing, joining, finished, State,
  handle_signal, receive_again, show_message, no_message, receive_round, begin, receiver_step,
  leave, type_again, perform, join, main_step, Event, begins, datagram, line, interrupt, step, run,
}

-- The receiver by where `main` stands: it ends by itself only after `running` was cleared.
abbrev Allows : Bool → Main → Receiver → Bool → Bool → Type 0
Allows is_terminal typing created running closed = Unit
Allows is_terminal typing receiving running closed = Unit
Allows is_terminal typing returned running closed = running ≡ false
Allows is_terminal typing cancelled running closed = ⊥
Allows is_terminal joining created running closed = is_terminal ≡ false
Allows is_terminal joining receiving running closed = is_terminal ≡ false
Allows is_terminal joining returned running closed = running ≡ false
Allows is_terminal joining cancelled running closed = is_terminal ≡ true
Allows is_terminal finished created running closed = ⊥
Allows is_terminal finished receiving running closed = ⊥
Allows is_terminal finished returned running closed = closed ≡ true
Allows is_terminal finished cancelled running closed = closed ≡ true

module _ (is_terminal : Bool) where
  abbrev pub IsSound : State → Type 0
  IsSound s = Allows is_terminal s.main s.receiver s.running s.closed

  -- A signal, or the end of the receiver.
  Allows-stopped :
      (m : Main) (r : Receiver) (running closed : Bool)
      → Allows is_terminal m r running closed
      → Allows is_terminal m r false closed × Allows is_terminal m r false true
  Allows-stopped typing created running closed h = (tt, tt)
  Allows-stopped typing receiving running closed h = (tt, tt)
  Allows-stopped typing returned running closed h = (refl, refl)
  Allows-stopped typing cancelled running closed h = absurd h
  Allows-stopped joining created running closed h = (h, h)
  Allows-stopped joining receiving running closed h = (h, h)
  Allows-stopped joining returned running closed h = (refl, refl)
  Allows-stopped joining cancelled running closed h = (h, h)
  Allows-stopped finished created running closed h = absurd h
  Allows-stopped finished receiving running closed h = absurd h
  Allows-stopped finished returned running closed h = (h, refl)
  Allows-stopped finished cancelled running closed h = (h, refl)

  Allows-returned :
      (m : Main) (running closed : Bool)
      → Allows is_terminal m receiving running closed
      → Allows is_terminal m returned false closed
  Allows-returned typing running closed h = refl
  Allows-returned joining running closed h = refl
  Allows-returned finished running closed h = absurd h

  -- A thread that is only created may be in `recvfrom` as well.
  Allows-begun :
      (m : Main) (running closed : Bool)
      → Allows is_terminal m created running closed
      → Allows is_terminal m receiving running closed
  Allows-begun typing running closed h = h
  Allows-begun joining running closed h = h
  Allows-begun finished running closed h = h

  handle_signal-IsSound : (s : State) → IsSound s → IsSound (handle_signal s).0
  unfolding handle_signal
  handle_signal-IsSound s h =
      let (p, q) = Allows-stopped s.main s.receiver s.running s.closed h in
      elim (Bool-cases (ltb 0 s.sock)) [
        | inl on ↦ rw (on, handle_signal) q
        | inr off ↦ rw (off, handle_signal) p
      ]

  module _ (s : State) (old : Allows is_terminal s.main receiving s.running s.closed) where
    receive_again-IsSound : IsSound (receive_again s)
    receive_again-IsSound = elim (Bool-cases s.running) [
      | inl on ↦ rw on (rw on at old)
      | inr off ↦ rw off (Allows-returned s.main s.running s.closed old)
    ]

    stopped-IsSound : IsSound (record s { running = false; receiver = returned })
    stopped-IsSound = Allows-returned s.main s.running s.closed old

    show_message-IsSound : (sent : Bool) (buffer : Bytes) → IsSound (show_message sent buffer s).0
    unfolding show_message
    show_message-IsSound sent buffer = elim (Bool-cases (starts_with (codes "PING") buffer)) [
      | inl p ↦ elim (Bool-cases sent) [
        | inl on ↦ rw (p, on, show_message) receive_again-IsSound
        | inr off ↦ rw (p, off, show_message) stopped-IsSound
      ]
      | inr n ↦ rw (n, show_message) receive_again-IsSound
    ]

    receive_round-IsSound :
        (bytes : Option Bytes) (sent : Bool) → IsSound (receive_round bytes sent s).0
    unfolding receive_round no_message
    receive_round-IsSound none sent = stopped-IsSound
    receive_round-IsSound (some []) sent = stopped-IsSound
    receive_round-IsSound (some (b ∷ bytes)) sent =
        show_message-IsSound sent (c_str (take 1023 (b ∷ bytes)))

    first_round-IsSound :
        (bytes : Option Bytes) (sent on : Bool)
        → s.running ≡ on
        → IsSound
            (if on then receive_round bytes sent s else (record s { receiver = returned }, [])).0
    first_round-IsSound bytes sent true e = receive_round-IsSound bytes sent
    first_round-IsSound bytes sent false e = rw e (Allows-returned s.main s.running s.closed old)

  receiver_step-IsSound :
      (bytes : Option Bytes) (sent : Bool) (r : Receiver) (s : State)
      → s.receiver ≡ r
      → IsSound s
      → IsSound (receiver_step bytes sent r s).0
  unfolding receiver_step
  receiver_step-IsSound bytes sent created s e h =
      let old = Allows-begun s.main s.running s.closed (rw e at h) in
      first_round-IsSound s old bytes sent s.running refl
  receiver_step-IsSound bytes sent receiving s e h = receive_round-IsSound s (rw e at h) bytes sent
  receiver_step-IsSound bytes sent returned s e h = h
  receiver_step-IsSound bytes sent cancelled s e h = h

  begin-IsSound : (r : Receiver) (s : State) → s.receiver ≡ r → IsSound s → IsSound (begin r s)
  unfolding begin
  begin-IsSound created s e h =
      receive_again-IsSound s (Allows-begun s.main s.running s.closed (rw e at h))
  begin-IsSound receiving s e h = h
  begin-IsSound returned s e h = h
  begin-IsSound cancelled s e h = h

  -- What `main` makes of the receiver when it leaves its loop.
  abbrev left : Receiver → Receiver
  left r = if is_terminal then elim r [ created ↦ cancelled | receiving ↦ cancelled | r ↦ r ] else r

  Allows-left :
      (r : Receiver) (running closed : Bool)
      → Allows is_terminal typing r running closed
      → Allows is_terminal joining (left r) running closed
  Allows-left created running closed h = elim (Bool-cases is_terminal) [
    | inl on ↦ rw on refl
    | inr off ↦ rw off refl
  ]
  Allows-left receiving running closed h = elim (Bool-cases is_terminal) [
    | inl on ↦ rw on refl
    | inr off ↦ rw off refl
  ]
  Allows-left returned running closed h = elim (Bool-cases is_terminal) [
    | inl on ↦ rw on h
    | inr off ↦ rw off h
  ]
  Allows-left cancelled running closed h = absurd h

  module _ (s : State) (t : s.main ≡ typing) (h : IsSound s) where
    leave-IsSound : IsSound (leave is_terminal s)
    leave-IsSound = Allows-left s.receiver s.running s.closed (rw t at h)

    by_running-IsSound : (b : Bool) → IsSound (if b then s else leave is_terminal s)
    by_running-IsSound true = h
    by_running-IsSound false = leave-IsSound

    type_again-IsSound : IsSound (type_again is_terminal s)
    type_again-IsSound = by_running-IsSound s.running

    leave_stopped-IsSound : IsSound (leave is_terminal (record s { running = false }))
    leave_stopped-IsSound =
        let typed : Allows is_terminal typing s.receiver s.running s.closed = rw t at h in
        Allows-left s.receiver false s.closed
          (Allows-stopped typing s.receiver s.running s.closed typed).0

    perform-IsSound : (sent : Bool) (a : Action) → IsSound (perform is_terminal sent a s).0
    unfolding perform
    perform-IsSound sent ignore = type_again-IsSound
    perform-IsSound sent (transmit text) = elim (Bool-cases sent) [
      | inl on ↦ rw (on, perform) type_again-IsSound
      | inr off ↦ rw (off, perform) leave-IsSound
    ]
    perform-IsSound sent usage = type_again-IsSound
    perform-IsSound sent (stop text) = leave_stopped-IsSound
    perform-IsSound sent unknown_command = type_again-IsSound

  join-IsSound : (r : Receiver) (s : State) → s.receiver ≡ r → IsSound s → IsSound (join r s).0
  join-IsSound created s e h = h
  join-IsSound receiving s e h = h
  join-IsSound returned s e h = rw e refl
  join-IsSound cancelled s e h = rw e refl

  pub main_step-IsSound :
      (text : Option Bytes) (sent : Bool) (m : Main) (s : State)
      → s.main ≡ m
      → IsSound s
      → IsSound (main_step is_terminal text sent m s).0
  unfolding main_step
  main_step-IsSound none sent typing s t h = leave_stopped-IsSound s t h
  main_step-IsSound (some l) sent typing s t h = perform-IsSound s t h sent (command l)
  main_step-IsSound none sent joining s t h = join-IsSound s.receiver s refl h
  main_step-IsSound (some l) sent joining s t h = join-IsSound s.receiver s refl h
  main_step-IsSound none sent finished s t h = h
  main_step-IsSound (some l) sent finished s t h = h

  step-IsSound : (e : Event) (s : State) → IsSound s → IsSound (step is_terminal e s).0
  unfolding step
  step-IsSound begins s h = begin-IsSound s.receiver s refl h
  step-IsSound (datagram bytes sent) s h = receiver_step-IsSound bytes sent s.receiver s refl h
  step-IsSound (line text sent) s h = main_step-IsSound text sent s.main s refl h
  step-IsSound interrupt s h = handle_signal-IsSound s h

  pub run_keeps-IsSound :
      (events : List Event) (s : State) → IsSound s → IsSound (run is_terminal events s).0
  unfolding run
  run_keeps-IsSound [] s h = h
  run_keeps-IsSound (e ∷ events) s h =
      run_keeps-IsSound events (step is_terminal e s).0 (step-IsSound e s h)
