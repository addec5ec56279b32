-- ===== src/ChatTcp/ClientExamples.antt =====
-- Lab 11/client.c: runs of the client.
use operating_systems_course.Common.{◌≡◌, refl, true, none, some, List, [], ◌∷◌, codes}
use operating_systems_course.ChatTcp.Client.{request, command}
use operating_systems_course.ChatTcp.Threads.{
  connected, joining, finished, send_server, Event, data_in, line, perform, main_step, step, run,
}
use operating_systems_course.ChatTcp.Closing.{closed_connection_ends}

-- The input ends, but not the connection.
input_ends : (run (line none true ∷ line none true ∷ []) (connected 3)).0.main ≡ joining
unfolding run step main_step
input_ends = refl

stop_sent :
    (run (line (some (codes "STOP\n")) true ∷ []) (connected 3)).1 ≡ send_server (codes "STOP") ∷ []
unfolding run step main_step perform command request
stop_sent = refl

abbrev farewell : List Event
farewell = line (some (codes "2ALL bye\n")) true ∷ line (some (codes "STOP\n")) true ∷ []

closed_connection_ends_example :
    ((run
        (data_in none true ∷ line none true ∷ line none true ∷ [])
        (run farewell (connected 3)).0).0.main
      ≡ finished)
    × ((run
          (data_in none true ∷ line none true ∷ line none true ∷ [])
          (run farewell (connected 3)).0).0.closed
        ≡ true)
closed_connection_ends_example = closed_connection_ends 3 farewell none none true true true
