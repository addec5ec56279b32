-- ===== src/ChatUdp/Distinct.antt =====
-- Lab 12/server.c: ids stay distinct while no request asks for an id that is too long.
use operating_systems_course.Common.{
  take, ltb, ◌&&◌, ℕ, zero, suc, ◌≤◌, ◌≡◌, refl, true, false, Option, none, some, List, [], ◌∷◌,
  set, length, drop, Bytes, codes, c_str, str_eq, starts_with, arith, Bool-cases, inl, inr,
}
use operating_systems_course.ChatUdp.Registry.{
  Address, Client, Server, client_at, touch_client, stop_client, ping_client, ping_clients,
  ping_round, handle_signal,
}
use operating_systems_course.ChatUdp.Messages.{
  answer, look_up, handle_found, handle_client_message, Stage, receiving, looked_up, serving,
  System, Event, datagram, go_on, ping, interrupt, step, run, start, read_datagram,
}
use operating_systems_course.ChatUdp.Registration.{in_use, DistinctIds, register_client-DistinctIds}

-- A slot that keeps its id and is not made active.
record Keeps (c c' : Client) : Type 0 where
  id : c'.id ≡ c.id
  active : c'.active ≡ true → c.active ≡ true

in_use-kept :
    (id : Bytes) (cs : List Client) (i : ℕ) (c' : Client)
    → Keeps (client_at cs i) c'
    → in_use id cs ≡ false
    → in_use id (set cs i c') ≡ false
in_use-kept id [] i c' k n = refl
in_use-kept id (c ∷ cs) zero c' k n = ground (arith, k.id, k.active)
in_use-kept id (c ∷ cs) (suc i) c' k n = ground (arith, in_use-kept id cs i c' k)

DistinctIds-kept :
    (cs : List Client) (i : ℕ) (c' : Client)
    → Keeps (client_at cs i) c'
    → DistinctIds cs
    → DistinctIds (set cs i c')
DistinctIds-kept [] i c' k d = tt
DistinctIds-kept (c ∷ cs) zero c' k d = (λ on. rw k.id (d.0 (k.active on)), d.1)
DistinctIds-kept (c ∷ cs) (suc i) c' k d =
    (λ on. in_use-kept c.id cs i c' k (d.0 on), DistinctIds-kept cs i c' k d.1)

in_use-ping_clients :
    (now : ℕ) (id : Bytes) (cs : List Client)
    → in_use id cs ≡ false
    → in_use id (ping_clients now cs).0 ≡ false
unfolding ping_clients ping_client
in_use-ping_clients now id [] n = refl
in_use-ping_clients now id (c ∷ cs) n = ground (arith, in_use-ping_clients now id cs)

DistinctIds-ping_clients :
    (now : ℕ) (cs : List Client) → DistinctIds cs → DistinctIds (ping_clients now cs).0
unfolding ping_clients ping_client
DistinctIds-ping_clients now [] d = d
DistinctIds-ping_clients now (c ∷ cs) d =
    ground (arith, in_use-ping_clients now c.id cs, DistinctIds-ping_clients now cs)

answer-DistinctIds :
    (stamp : Bytes) (i : ℕ) (buffer : Bytes) (a : Address) (s : Server)
    → DistinctIds s.clients
    → DistinctIds (answer stamp i buffer a s).0.clients
unfolding answer stop_client
answer-DistinctIds stamp i buffer a s d = elim (Bool-cases (str_eq buffer (codes "LIST"))) [
  | inl l ↦ rw (l, answer) d
  | inr l ↦ elim (Bool-cases (starts_with (codes "2ALL|") buffer)) [
    | inl b ↦ rw (l, b, answer) d
    | inr b ↦ elim (Bool-cases (starts_with (codes "2ONE|") buffer)) [
      | inl o ↦ rw (l, b, o, answer) d
      | inr o ↦ elim (Bool-cases (str_eq buffer (codes "PONG"))) [
        | inl p ↦ rw (l, b, o, p, answer) d
        | inr p ↦ elim (Bool-cases (str_eq buffer (codes "STOP"))) [
          | inl q ↦
              rw (l, b, o, p, q, answer)
                (DistinctIds-kept s.clients i _ (record { id = refl; active = λ e. cc }) d)
          | inr q ↦ rw (l, b, o, p, q, answer) d
        ]
      ]
    ]
  ]
]

-- A registration in the text asks for at most 31 bytes.
abbrev pub ShortRequest : Bytes → Type 0
ShortRequest buffer = starts_with (codes "REGI|") buffer ≡ true → length (drop 5 buffer) ≤ 31

handle_found-DistinctIds :
    (now : ℕ) (found : Option ℕ) (buffer : Bytes) (a : Address) (s : Server)
    → ShortRequest buffer
    → DistinctIds s.clients
    → DistinctIds (handle_found now found buffer a s).0.clients
unfolding handle_found touch_client
handle_found-DistinctIds now found buffer a s h d =
    elim (Bool-cases (starts_with (codes "REGI|") buffer)) [
      | inl r ↦ rw (r, handle_found) (register_client-DistinctIds now (drop 5 buffer) a s (h r) d)
      | inr r ↦ by_index found r
    ]
  where
    by_index :
        (found : Option ℕ)
        → starts_with (codes "REGI|") buffer ≡ false
        → DistinctIds (handle_found now found buffer a s).0.clients
    by_index none r = rw (r, handle_found) d
    by_index (some i) r =
        rw (r, handle_found)
          (DistinctIds-kept s.clients i _ (record { id = refl; active = λ e. e }) d)

abbrev pub ShortStage : Stage → Type 0
ShortStage (looked_up found buffer a) = ShortRequest buffer
ShortStage stage = Unit

abbrev pub ShortEvents : List Event → Type 0
ShortEvents [] = Unit
ShortEvents (datagram bytes a ∷ events) =
    ShortRequest (c_str (take 1023 bytes)) × ShortEvents events
ShortEvents (e ∷ events) = ShortEvents events

record IsDistinct (y : System) : Type 0 where
  ids : DistinctIds y.server.clients
  stage : ShortStage y.stage

go_on-IsDistinct :
    (now : ℕ) (stamp : Bytes) (g : Stage) (s : Server)
    → ShortStage g
    → DistinctIds s.clients
    → DistinctIds (handle_client_message now stamp g s).0.clients
      × ShortStage (handle_client_message now stamp g s).2
unfolding handle_client_message handle_found
go_on-IsDistinct now stamp receiving s h d = (d, tt)
go_on-IsDistinct now stamp (looked_up found buffer a) s h d =
    (handle_found-DistinctIds now found buffer a s h d, behind found)
  where
    behind : (found : Option ℕ) → ShortStage (handle_found now found buffer a s).2
    behind none = ground arith
    behind (some i) = ground arith
go_on-IsDistinct now stamp (serving i buffer a) s h d =
    (answer-DistinctIds stamp i buffer a s d, tt)

run_keeps-IsDistinct :
    (events : List Event) (y : System)
    → ShortEvents events
    → IsDistinct y
    → IsDistinct (run events y).0
unfolding run step look_up ping_round handle_signal
run_keeps-IsDistinct [] y h d = d
run_keeps-IsDistinct (datagram bytes a ∷ events) y h d =
    run_keeps-IsDistinct events (step (datagram bytes a) y).0 h.1
      (record { ids = d.ids; stage = read y.stage d.stage })
  where
    read : (g : Stage) → ShortStage g → ShortStage (read_datagram bytes a g y.server)
    read receiving k = elim (Bool-cases (y.server.server_running && ltb 0 (length bytes))) [
      | inl on ↦ rw on h.0
      | inr off ↦ rw off tt
    ]
    read (looked_up found buffer b) k = k
    read (serving i buffer b) k = k
run_keeps-IsDistinct (go_on now stamp ∷ events) y h d =
    let k = go_on-IsDistinct now stamp y.stage y.server d.stage d.ids in
    run_keeps-IsDistinct events (step (go_on now stamp) y).0 h (record { ids = k.0; stage = k.1 })
run_keeps-IsDistinct (ping now ∷ events) y h d =
    run_keeps-IsDistinct events (step (ping now) y).0 h
      (record { ids = DistinctIds-ping_clients now y.server.clients d.ids; stage = d.stage })
run_keeps-IsDistinct (interrupt ∷ events) y h d =
    run_keeps-IsDistinct events (step interrupt y).0 h (record { ids = d.ids; stage = d.stage })

-- While no datagram asks for an id of more than 31 bytes, no two active clients ever have the same
-- id, in whatever order datagrams, the steps of the main thread and turns of `ping_thread` come.
pub run-DistinctIds :
    (events : List Event) → ShortEvents events → DistinctIds (run events start).0.server.clients
run-DistinctIds events h =
    (run_keeps-IsDistinct events start h (record { ids = ground arith; stage = tt })).ids
