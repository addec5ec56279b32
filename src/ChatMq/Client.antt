-- ===== src/ChatMq/Client.antt =====
-- Lab 7/client.c: the start of the client, its loop over the lines that are typed, and the child
-- process that shows what arrives.
use operating_systems_course.Common.{
  ℕ, zero, suc, ◌+◌, ◌-◌, ◌==◌, length, Bool, Option, none, some, List, [], ◌∷◌, ◌++◌,
  if◌then◌else◌, take, ℤ, pos, negsuc, Bytes, codes, c_str, snprintf,
}
use operating_systems_course.ChatTcp.Client.{cut_line}
use operating_systems_course.ChatMq.Defs.{max_msg_size, decimal, atoi, init_message}

-- `mq_send` to the server, or something printed; `perror` is left out.
pub data Effect : Type 0 where
  send_server : Bytes → Effect
  show_text : Bytes → Effect
  kill_child close_queues : Effect

-- What the system calls at the start give: whether the two queues could be opened, whether the
-- registration could be sent, and the reply, `none` for an error of `mq_receive`.
pub record Setup : Type 0 where
  pub has_client_queue : Bool
  pub has_server_queue : Bool
  pub registration_sent : Bool
  pub reply : Option Bytes

-- "%d"
unfoldable pub show_int : ℤ → Bytes
show_int (pos n) = decimal n
show_int (negsuc n) = 45 ∷ decimal (n + 1)

-- `main` up to its `fork`, under the name of its queue: the id that it goes on with, if it does.
-- Behind the reply the buffer is all zero.
unfoldable pub register : Setup → Bytes → Option ℤ × List Effect
register setup name =
    if setup.has_client_queue
    then (if setup.has_server_queue
        then (if setup.registration_sent
            then elim setup.reply [
              | none ↦ (none, send_server (init_message name) ∷ [])
              | some bytes ↦
                  let id = atoi (c_str (take max_msg_size bytes)) in
                  (
                    some id,
                    send_server (init_message name)
                        ∷ show_text (codes "Moje ID: " ++ (show_int id ++ codes "\n"))
                        ∷ [],
                  )
            ]
            else (none, send_server (init_message name) ∷ []))
        else (none, []))
    else (none, [])

-- A round of the loop of `main`, on what `fgets` has read.
unfoldable pub line_message : ℤ → Bytes → Bytes → Bytes
line_message client_id username line =
    snprintf max_msg_size
      (show_int client_id ++ (codes "|" ++ (username ++ (codes ": " ++ cut_line line))))

-- sizeof(input)
abbrev pub input_size : ℕ
input_size = 475

-- What `fgets` reads of the input, with room for that many bytes before the NUL, and what it leaves.
unfoldable pub fgets : ℕ → Bytes → Bytes × Bytes
fgets zero stdin = ([], stdin)
fgets (suc n) [] = ([], [])
fgets (suc n) (c ∷ stdin) =
    let (line, left) = fgets n stdin in if c == 10 then (c ∷ [], stdin) else (c ∷ line, left)

-- The loop and what is behind it, on the input behind the name: a round for each `fgets`, and at most
-- as many as there are bytes.
unfoldable pub type_rounds : ℕ → ℤ → Bytes → Bytes → List Effect
type_rounds n client_id username [] = kill_child ∷ close_queues ∷ []
type_rounds zero client_id username (c ∷ stdin) = []
type_rounds (suc n) client_id username (c ∷ stdin) =
    let (line, left) = fgets (input_size - 1) (c ∷ stdin) in
    send_server (line_message client_id username line) ∷ type_rounds n client_id username left

abbrev pub type_lines : ℤ → Bytes → Bytes → List Effect
type_lines client_id username stdin = type_rounds (length stdin) client_id username stdin

-- A round of `receiver_thread`, on what `mq_receive` gives.
unfoldable pub receive : Option Bytes → List Effect
receive none = []
receive (some bytes) = show_text (c_str (take max_msg_size bytes) ++ codes "\n") ∷ []
