-- ===== src/ChatUdp/Examples.antt =====
-- Lab 12/server.c: a run of the server with three datagrams.
use operating_systems_course.Common.{
  ◌<◌, ◌≡◌, refl, List, [], ◌∷◌, ◌++◌, set, length, replicate, codes, arith,
}
use operating_systems_course.ChatUdp.Registry.{
  Address, Server, sendto, initial, registered, find_client_by_id, find_client_by_addr,
  register_client, touch_client,
}
use operating_systems_course.ChatUdp.Messages.{
  list_response, list_clients, Event, datagram, go_on, step, run, start, look_up, handle_found,
  handle_client_message, answer,
}
use operating_systems_course.ChatUdp.Table.{
  IsValid, active_ids, joined, list_response-active_ids, run_table-IsValid,
}
use operating_systems_course.ChatUdp.Registration.{DistinctIds, register_client_long}
use operating_systems_course.ChatUdp.Distinct.{run-DistinctIds}

abbrev ana : Address
ana = record { s_addr = 1; sin_port = 1000 }

abbrev bob : Address
bob = record { s_addr = 2; sin_port = 1000 }

-- Two clients register, and the first asks for the list.
abbrev visits : List Event
visits =
    datagram (codes "REGI|ana") ana
    ∷ go_on 100 []
    ∷ datagram (codes "REGI|bob") bob
    ∷ go_on 101 []
    ∷ datagram (codes "LIST") ana
    ∷ go_on 102 []
    ∷ go_on 102 []
    ∷ []

visits_answers :
    (run visits start).1
    ≡ sendto ana (codes "OK") ∷ sendto bob (codes "OK") ∷ sendto ana (codes "LIST|ana,bob") ∷ []
unfolding run step look_up handle_client_message handle_found register_client find_client_by_id
    find_client_by_addr touch_client answer list_response list_clients
visits_answers = refl

abbrev pair : Server
pair = record initial {
  clients =
      registered (codes "ana") ana 100
      ∷ registered (codes "bob") bob 101
      ∷ replicate 8 (registered [] ana 0);
}

list_response-active_ids_example :
    (list_response pair.clients ≡ codes "LIST|" ++ joined (active_ids pair.clients))
    × (length (list_response pair.clients) < 1024)
list_response-active_ids_example =
    list_response-active_ids pair (record { slots = refl; short = omega arith })

run_table-IsValid_example :
    IsValid (run visits start).0.server
    × (length (list_response (run visits start).0.server.clients) < 1024)
run_table-IsValid_example = run_table-IsValid visits

-- 31 letters in use, and 32 asked for.
abbrev letters : Server
letters = record initial { clients = set initial.clients 0 (registered (replicate 31 97) ana 100) }

register_client_long_example :
    ((register_client 101 (replicate 32 97) bob letters).1 ≡ sendto bob (codes "OK") ∷ [])
    × (¬ DistinctIds (register_client 101 (replicate 32 97) bob letters).0.clients)
register_client_long_example =
    register_client_long 101 (replicate 32 97) bob letters 1
      (record { slots = refl; short = omega arith }) (omega arith) refl refl

run-DistinctIds_example : DistinctIds (run visits start).0.server.clients
run-DistinctIds_example =
    run-DistinctIds visits ((λ e. omega arith), ((λ e. omega arith), ((λ e. cc), tt)))

abbrev friends : Server
friends = record initial {
  clients =
      set (set initial.clients 0 (registered (codes "ana") ana 100)) 1
        (registered (codes "bob") bob 101);
}

friends-DistinctIds : DistinctIds friends.clients
friends-DistinctIds = ground arith
