-- ===== src/ChatUdp/ClientExamples.antt =====
-- Lab 12: runs of the client.
use operating_systems_course.Common.{
  ◌≡◌, refl, true, false, none, some, List, [], ◌∷◌, ◌++◌, set, Bytes, codes, arith,
}
use operating_systems_course.ChatTcp.Client.{private, request, command}
use operating_systems_course.ChatTcp.Protocol.{typed_private}
use operating_systems_course.ChatUdp.Registry.{Address, Server, sendto, initial, registered}
use operating_systems_course.ChatUdp.Messages.{answer}
use operating_systems_course.ChatUdp.Client.{
  connected, listening, finished, sendto_server, show_received, Event, begins, line, datagram,
  interrupt, perform, main_step, receive_round, receiver_step, handle_signal, show_message, begin,
  step, run,
}
use operating_systems_course.ChatUdp.Protocol.{read_buffer, datagram_arrives}
use operating_systems_course.ChatUdp.Stopping.{run_finishes, stop_line, StopsAs, stop_waits}

abbrev ana : Address
ana = record { s_addr = 1; sin_port = 1000 }

abbrev bob : Address
bob = record { s_addr = 2; sin_port = 1000 }

abbrev friends : Server
friends = record initial {
  clients =
      set (set initial.clients 0 (registered (codes "ana") ana 100)) 1
        (registered (codes "bob") bob 101);
}

datagram_arrives_example :
    (asked text : Bytes) × (step true
        (line (some (typed_private (codes "bob") (codes "hello") ++ codes "\n")) true)
        (connected 3)
      ≡ (connected 3, sendto_server asked ∷ []))
    × (answer (codes "noon") 0 (read_buffer asked) ana friends ≡ (friends, sendto bob text ∷ []))
    × (step true (datagram (some text) true) (listening 3) ≡ (
      listening 3,
      show_received (private (some (codes "ana")) (some (codes "noon")) (some (codes "hello")))
          ∷ [],
    ))
datagram_arrives_example =
    datagram_arrives true 3 0 1 ana (codes "ana") (codes "noon") (codes "bob") (codes "hello")
      friends (ground arith) (ground arith) (ground arith) (ground arith) refl refl refl

-- A line, a message, and a SIGINT.
abbrev evening : List Event
evening =
    line (some (codes "2ALL hello\n")) true ∷ datagram (some (codes "PING")) true ∷ interrupt ∷ []

run_finishes_example :
    ((run true
        (line (some (codes "LIST\n")) false ∷ line none false ∷ [])
        (run true evening (connected 3)).0).0.main
      ≡ finished)
    × ((run true
          (line (some (codes "LIST\n")) false ∷ line none false ∷ [])
          (run true evening (connected 3)).0).0.closed
        ≡ true)
unfolding run step main_step perform receive_round receiver_step handle_signal show_message command
    request
run_finishes_example = run_finishes 3 evening (some (codes "LIST\n")) none false false refl

stop_waits_example :
    ((step false (stop_line true) (run false (begins ∷ []) (connected 3)).0).1
      ≡ sendto_server (codes "STOP") ∷ [])
    × StopsAs true (line none true ∷ interrupt ∷ []) (run false (begins ∷ []) (connected 3)).0
unfolding run step begin
stop_waits_example = stop_waits 3 true (begins ∷ []) (line none true ∷ interrupt ∷ []) refl tt
