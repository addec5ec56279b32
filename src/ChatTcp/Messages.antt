-- ===== src/ChatTcp/Messages.antt =====
-- Lab 11/server.c: the texts that the server sends, and to whom.
use operating_systems_course.Common.{
  ℕ, ◌+◌, ◌-◌, not, ◌&&◌, List, [], ◌∷◌, ◌++◌, ltb, if◌then◌else◌, length, take, Bytes, codes,
  str_eq, snprintf,
}
use operating_systems_course.ChatTcp.Registry.{Client, Effect, send, is_used, buffer_size}

-- `snprintf(formatted_msg, BUFFER_SIZE, "MSGALL|%s|%s|%s", …)` and the one for "MSGONE|".
unfoldable pub format_message : Bytes → Bytes → Bytes → Bytes → Bytes
format_message tag sender stamp message =
    snprintf buffer_size
      (tag ++ (codes "|" ++ (sender ++ (codes "|" ++ (stamp ++ (codes "|" ++ message))))))

-- The loop of `broadcast_message`; a `send` that fails is only reported.
unfoldable pub send_others : Bytes → Bytes → List Client → List Effect
send_others sender text [] = []
send_others sender text (c ∷ cs) =
    if is_used c && not (str_eq c.id sender)
    then send c.socket text ∷ send_others sender text cs
    else send_others sender text cs

unfoldable pub broadcast_message : Bytes → Bytes → Bytes → List Client → List Effect
broadcast_message stamp sender message cs =
    send_others sender (format_message (codes "MSGALL") sender stamp message) cs

-- The loop of `send_private_message`, which stops at the first client of that id.
unfoldable pub send_first : Bytes → Bytes → List Client → List Effect
send_first recipient text [] = []
send_first recipient text (c ∷ cs) =
    if is_used c && str_eq c.id recipient
    then send c.socket text ∷ []
    else send_first recipient text cs

unfoldable pub send_private_message : Bytes → Bytes → Bytes → Bytes → List Client → List Effect
send_private_message stamp sender recipient message cs =
    send_first recipient (format_message (codes "MSGONE") sender stamp message) cs

-- One round of the loop for LIST, on the response and `pos`. Once `pos` reaches the end no round
-- changes anything, as the loop stops.
unfoldable pub list_client : Client → Bytes → ℕ → Bytes × ℕ
list_client c response at =
    if ltb at (buffer_size - 1) && is_used c
    then (let piece = (if ltb 5 at then codes "," else []) ++ c.id in
        (take at response ++ snprintf (buffer_size - at) piece, at + length piece))
    else (response, at)

unfoldable pub list_clients : List Client → Bytes → ℕ → Bytes
list_clients [] response at = response
list_clients (c ∷ cs) response at =
    let (response', at') = list_client c response at in list_clients cs response' at'

unfoldable pub list_response : List Client → Bytes
list_response cs = list_clients cs (codes "LIST|") (length (codes "LIST|"))
