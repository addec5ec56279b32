-- ===== src/ChatMq/Examples.antt =====
-- Lab 7: two clients of the server.
use operating_systems_course.Common.{
  ℕ, ◌≡◌, refl, Option, none, some, List, [], ◌∷◌, ◌++◌, if◌then◌else◌, set, replicate, take, pos,
  Bytes, codes, str_eq, strtok, arith,
}
use operating_systems_course.ChatMq.Defs.{
  Server, initial, mq_send, decimal, print_digits, atoi, send_others, register_client, broadcast,
  queue_name, connect, handle, run, init_message, chat_message, client_queue_name,
}
use operating_systems_course.ChatMq.Table.{IsValid, run_numbers-IsValid}
use operating_systems_course.ChatMq.Delivery.{others, to_each, body, handle-init_message}
use operating_systems_course.ChatMq.Client.{
  send_server, show_text, kill_child, close_queues, show_int, line_message, fgets, type_rounds,
  type_lines, receive,
}
use operating_systems_course.ChatMq.Conversation.{line_reaches_others}

-- The queues of two processes can be opened.
abbrev opens : Bytes → Option ℕ
opens name =
    if str_eq name (codes "/client_7")
    then some 70
    else if str_eq name (codes "/client_12")
    then some 120
    else none

abbrev joins : List (Option Bytes)
joins =
    some (codes "INIT /client_7")
    ∷ some (codes "INIT /client_9")
    ∷ none
    ∷ some (codes "INIT /client_12")
    ∷ some (codes "1|ana: hello")
    ∷ []

joins_answers :
    (run opens joins initial).1
    ≡ mq_send 70 (codes "0") ∷ mq_send 120 (codes "1") ∷ mq_send 70 (codes "ana: hello") ∷ []
unfolding run handle connect queue_name register_client broadcast send_others atoi decimal
    print_digits strtok
joins_answers = refl

name_of_process : client_queue_name 12 ≡ codes "/client_12"
unfolding client_queue_name decimal print_digits
name_of_process = refl

run_numbers-IsValid_example : IsValid (run opens joins initial).0
run_numbers-IsValid_example = run_numbers-IsValid opens joins

abbrev room : Server
room = record initial {
  clients =
      record { client_queue = 70; client_id = 0 }
      ∷ record { client_queue = 120; client_id = 1 }
      ∷ replicate 8 (record { client_queue = 0; client_id = 0 });
  num_clients = 2;
}

room-IsValid : IsValid room
room-IsValid = record { slots = refl; bounded = omega arith; numbered = (refl, (refl, tt)) }

line_reaches_others_example :
    (asked : Bytes) × (type_lines (pos 1) (codes "ana") (codes "hello\nbye\n")
      ≡ send_server asked ∷ type_lines (pos 1) (codes "ana") (codes "bye\n"))
    × (handle opens (some asked) room
        ≡ (room, to_each (body (codes "ana") (codes "hello")) (others 1 (take 2 room.clients))))
    × (receive (some (body (codes "ana") (codes "hello"))) ≡ show_text (codes "ana: hello\n") ∷ [])
line_reaches_others_example =
    line_reaches_others opens 1 (codes "ana") (codes "hello") (codes "bye\n") room room-IsValid
      (omega arith) (refl, (refl, (refl, tt))) (refl, (refl, (refl, (refl, (refl, tt)))))
      (omega arith) (omega arith)

handle-init_message_example :
    (reply : Bytes) × (handle opens (some (init_message (codes "/client_7"))) room ≡ (
      record {
        clients = set room.clients 2 (record { client_queue = 70; client_id = 2 });
        num_clients = 3;
      },
      mq_send 70 reply ∷ [],
    ))
    × (atoi reply ≡ pos 2)
handle-init_message_example =
    handle-init_message opens 47 (codes "client_7") 70 room room-IsValid (omega arith)
      (refl, (refl, (refl, (refl, (refl, (refl, (refl, (refl, (refl, tt)))))))))
      (refl, (refl, (refl, (refl, (refl, (refl, (refl, (refl, (refl, tt))))))))) (omega arith) refl

-- A line of 474 bytes gives two messages, of which the second is empty.
two_messages :
    type_lines (pos 1) (codes "ana") (replicate 474 b'a' ++ 10 ∷ [])
    ≡ send_server (chat_message 1 (codes "ana") (replicate 474 b'a'))
      ∷ send_server (chat_message 1 (codes "ana") [])
      ∷ kill_child
      ∷ close_queues
      ∷ []
unfolding fgets type_rounds line_message chat_message show_int
two_messages = refl
