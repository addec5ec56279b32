-- ===== src/ChatTcp/Examples.antt =====
-- Lab 11: the chat on concrete tables and messages.
use operating_systems_course.Common.{
  ℕ, zero, suc, ◌+◌, ◌≡◌, ◌↔◌, ◌⊎◌, refl, inl, inr, true, none, some, List, [], ◌∷◌, ◌++◌, Bytes,
  codes, arith, replicate, pos,
}
use operating_systems_course.ChatTcp.Registry.{
  Client, Server, send, close, Net, spawned, blank, modify_first, remove_client, id_in_use,
  claim_slot, register_client, check_client, check_clients, alive_round, start_thread,
  accept_client,
}
use operating_systems_course.ChatTcp.Messages.{
  format_message, send_others, broadcast_message, list_client, list_clients, list_response,
}
use operating_systems_course.ChatTcp.Session.{greet, greet_with, serve}
use operating_systems_course.ChatTcp.System.{
  Event, connect, wake, alive, start, connected, thread_step, woken, step, run,
}
use operating_systems_course.ChatTcp.Client.{private, transmit, receive, command}
use operating_systems_course.ChatTcp.Table.{IsValid}
use operating_systems_course.ChatTcp.Invariant.{run-IsValid}
use operating_systems_course.ChatTcp.Delivery.{
  Has, ConnectedAs, ConnectedOther, DueAt, KeptAs, broadcast_message_sends, alive_round_drops,
}
use operating_systems_course.ChatTcp.Listing.{list_response_lem}
use operating_systems_course.ChatTcp.Registration.{
  register_client_accepts, remove_client-register_client,
}
use operating_systems_course.ChatTcp.Protocol.{typed_private, private_message_arrives}

abbrev all_sent : Net
all_sent fd text = true

abbrev ann : Client
ann = record { socket = 4; id = codes "ann"; last_active = 100; thread = 1 }

abbrev bob : Client
bob = record { socket = 5; id = codes "bob"; last_active = 150; thread = 2 }

abbrev two : Server
two = record {
  clients = ann ∷ bob ∷ replicate 8 blank;
  client_count = pos 2;
  server_running = true;
}

two-IsValid : IsValid two
unfolding id_in_use
two-IsValid = record { slots = refl; counted = refl; distinct = ground arith; short = omega arith }

crowd : ℕ → List Client
crowd zero = []
crowd (suc n) = record { socket = n + 4; id = n ∷ []; last_active = 0; thread = 0 } ∷ crowd n

abbrev full : Server
full = record { clients = crowd 10; client_count = pos 10; server_running = true }

full-IsValid : IsValid full
unfolding crowd id_in_use
full-IsValid = record { slots = refl; counted = refl; distinct = ground arith; short = omega arith }

-- Ann registers and falls silent; her connection is closed and its descriptor goes to Bob.
abbrev reuse : List Event
reuse =
    connect 4 (spawned 1)
    ∷ wake 0 all_sent 100 (codes "12:00") (some (codes "REGI|ann"))
    ∷ alive all_sent 200
    ∷ connect 4 (spawned 2)
    ∷ wake 1 all_sent 201 (codes "12:01") (some (codes "REGI|bob"))
    ∷ []

-- Then the thread of Ann's connection ends, and takes Bob out of the table.
stale_thread_removes_another :
    (ConnectedAs 4 (codes "bob") (run reuse start).0.server.clients)
    × (Has
        (close 4)
        (run
          (wake 0 all_sent 202 [] none ∷ wake 0 all_sent 202 [] none ∷ [])
          (run reuse start).0).1)
    × ((run
          (wake 0 all_sent 202 [] none ∷ wake 0 all_sent 202 [] none ∷ [])
          (run reuse start).0).0.server.client_count
        ≡ pos 0)
unfolding run step connected woken thread_step greet greet_with serve register_client claim_slot
    accept_client start_thread modify_first id_in_use alive_round check_clients check_client
    remove_client
stale_thread_removes_another = (inl (refl, refl, refl), inl refl, refl)

run-IsValid_example : IsValid (run reuse start).0.server
run-IsValid_example = run-IsValid reuse (ground arith)

broadcast_message_sends_example :
    Has (send 5 (codes "x")) (broadcast_message (codes "t") (codes "ann") (codes "hi") two.clients)
    ↔ ((codes "x" ≡ format_message (codes "MSGALL") (codes "ann") (codes "t") (codes "hi"))
        × ConnectedOther 5 (codes "ann") two.clients)
broadcast_message_sends_example =
    broadcast_message_sends (codes "t") (codes "ann") (codes "hi") 5 (codes "x") two.clients

broadcast_reaches_bob :
    broadcast_message (codes "12:00") (codes "ann") (codes "hi") two.clients
    ≡ send 5 (codes "MSGALL|ann|12:00|hi") ∷ []
unfolding broadcast_message send_others format_message
broadcast_reaches_bob = refl

alive_round_drops_example :
    (Has (close 4) (alive_round all_sent 170 two).1 ↔ DueAt all_sent 170 4 two.clients)
    × (ConnectedAs 5 (codes "bob") (alive_round all_sent 170 two).0.clients
        ↔ KeptAs all_sent 170 5 (codes "bob") two.clients)
alive_round_drops_example = (
  (alive_round_drops all_sent 170 4 (codes "bob") two).0,
  (alive_round_drops all_sent 170 5 (codes "bob") two).1,
)

list_response_lem_example : list_response two.clients ≡ codes "LIST|ann,bob"
list_response_lem_example = list_response_lem two two-IsValid ((λ e. cc), ((λ e. cc), tt))

-- An id may be empty; a comma is missing behind ids that are.
list_of_empty_id : list_response (record ann { id = [] } ∷ bob ∷ []) ≡ codes "LIST|bob"
unfolding list_response list_clients list_client
list_of_empty_id = refl

register_client_accepts_example :
    ((register_client all_sent 160 7 (codes "eve") two).1 ≡ send 7 (codes "OK") ∷ [])
    × ((register_client all_sent 160 7 (codes "eve") two).2 ≡ true)
    × (ConnectedAs 7 (codes "eve") (register_client all_sent 160 7 (codes "eve") two).0.clients
        ↔ (ConnectedAs 7 (codes "eve") two.clients ⊎ ◌≡◌ {A = ℕ} 7 7 × (codes "eve" ≡ codes "eve")))
unfolding id_in_use
register_client_accepts_example =
    register_client_accepts all_sent 160 7 (codes "eve") 7 (codes "eve") two two-IsValid refl refl
      (omega arith) refl

remove_client-register_client_example :
    let (s', es) = remove_client 7 (register_client all_sent 160 7 (codes "eve") two).0 in
    (es ≡ close 7 ∷ [])
    × (s'.client_count ≡ pos 2)
    × (ConnectedAs 5 (codes "bob") s'.clients ↔ ConnectedAs 5 (codes "bob") two.clients)
unfolding id_in_use
remove_client-register_client_example =
    remove_client-register_client all_sent 160 7 (codes "eve") 5 (codes "bob") two two-IsValid refl
      (ground arith) refl (omega arith) refl

private_message_arrives_example :
    (asked answer : Bytes) × (command
        (typed_private (codes "bob") (codes "how are you") ++ codes "\n")
      ≡ transmit asked)
    × (serve all_sent 160 (codes "12:00") 4 (codes "ann") (some asked) two
        ≡ (two, send 5 answer ∷ [], true))
    × (receive answer
        ≡ private (some (codes "ann")) (some (codes "12:00")) (some (codes "how are you")))
private_message_arrives_example =
    private_message_arrives all_sent 160 4 5 (codes "ann") (codes "12:00") (codes "bob")
      (codes "how are you") two (ground arith) two-IsValid (inr (inl (refl, refl, refl)))
