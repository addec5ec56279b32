-- ===== src/ChatUdp/Protocol.antt =====
-- Lab 12: a private message from the typed line of one client, through the server, to the other.
use operating_systems_course.Common.{
  ℕ, ◌+◌, ◌≤◌, ◌≡◌, ◌∙◌, ap, refl, sym, Bool, true, some, [], ◌∷◌, ◌++◌, length, length-append,
  take, take_self, Bytes, codes, c_str, arith, IsText, c_str_self,
}
use operating_systems_course.ChatTcp.Client.{private, receive, transmit, command}
use operating_systems_course.ChatTcp.Protocol.{
  IsLine-IsText, IsText-append, typed_private, sent_private, command_private, receive_private, Fits,
}
use operating_systems_course.ChatUdp.Registry.{Address, Server, sendto, client_at}
use operating_systems_course.ChatUdp.Messages.{format_message, answer}
use operating_systems_course.ChatTcp.Messages.{format_message as tcp_message}
use operating_systems_course.ChatUdp.Registration.{DistinctIds}
use operating_systems_course.ChatUdp.Delivery.{answer_private}
use operating_systems_course.ChatUdp.Client.{
  connected, listening, sendto_server, show_received, step, line, datagram, main_step, perform,
  receive_round, receiver_step, show_message,
}

-- What `recvfrom` leaves in the buffer.
abbrev pub read_buffer : Bytes → Bytes
read_buffer bytes = c_str (take 1023 bytes)

step_types :
    (is_terminal : Bool) (sock : ℕ) (recipient message : Bytes)
    → command (typed_private recipient message ++ codes "\n")
      ≡ transmit (sent_private recipient message)
    → (step is_terminal
        (line (some (typed_private recipient message ++ codes "\n")) true)
        (connected sock))
      ≡ (connected sock, sendto_server (sent_private recipient message) ∷ [])
unfolding step main_step perform
step_types is_terminal sock recipient message e =
    ap (λ a. perform is_terminal true a (connected sock)) e

step_shows :
    (is_terminal : Bool) (sock : ℕ) (x y z : Bytes)
    → receive (format_message (codes "MSGONE") x y z) ≡ private (some x) (some y) (some z)
    → length x + length y + length z ≤ 1000
    → IsText x
    → IsText y
    → IsText z
    → step is_terminal
        (datagram (some (format_message (codes "MSGONE") x y z)) true)
        (listening sock)
      ≡ (listening sock, show_received (private (some x) (some y) (some z)) ∷ [])
unfolding step receiver_step receive_round show_message format_message
step_shows is_terminal sock x y z e h kx ky kz =
    let body = x ++ (codes "|" ++ (y ++ (codes "|" ++ z))) in
    let fits : length body ≤ 1016 = omega (
      arith,
      h,
      length-append x (codes "|" ++ (y ++ (codes "|" ++ z))),
      length-append y (codes "|" ++ z),
    ) in
    let whole : take 1016 body ≡ body = take_self 1016 body fits in
    let text : IsText body =
      IsText-append x (codes "|" ++ (y ++ (codes "|" ++ z))) kx
        (refl, IsText-append y (codes "|" ++ z) ky (refl, kz)) in
    let same : c_str (take 1016 (take 1016 body)) ≡ take 1016 body =
      ap (λ b. c_str (take 1016 b)) whole ∙ ap c_str whole ∙ c_str_self body text ∙ sym whole in
    ap (λ b. (listening sock, show_received (receive (codes "MSGONE|" ++ b)) ∷ [])) same
    ∙ ap (λ r. (listening sock, show_received r ∷ [])) e

-- The server reads what the client has sent.
read_buffer-sent_private :
    (c : ℕ) (r : Bytes) (d : ℕ) (m : Bytes)
    → IsText (c ∷ r)
    → IsText (d ∷ m)
    → length r + length m ≤ 1000
    → read_buffer (sent_private (c ∷ r) (d ∷ m)) ≡ sent_private (c ∷ r) (d ∷ m)
read_buffer-sent_private c r d m k l h =
    let body = r ++ (codes "|" ++ (d ∷ m)) in
    let fits : length body ≤ 1017 = omega (arith, h, length-append r (codes "|" ++ (d ∷ m))) in
    let text : IsText (c ∷ body) = IsText-append (c ∷ r) (codes "|" ++ (d ∷ m)) k (refl, l) in
    ap (λ b. codes "2ONE|" ++ c_str (c ∷ b)) (take_self 1017 body fits)
    ∙ ap (λ b. codes "2ONE|" ++ b) (c_str_self (c ∷ body) text)

format_same :
    (sender stamp message : Bytes)
    → format_message (codes "MSGONE") sender stamp message
      ≡ tcp_message (codes "MSGONE") sender stamp message
unfolding format_message tcp_message
format_same sender stamp message = refl

-- A user types "2ONE", the id of an active client, while ids are distinct, and a message. The
-- sender's client sends one datagram and goes on; the server, which has found the sender in slot j,
-- answers it with one datagram, to the address of that client, and changes nothing; and the client
-- there shows the sender's id, the time and the message, and goes on.
pub datagram_arrives :
    (is_terminal : Bool) (sock j i : ℕ) (a : Address) (sender stamp recipient message : Bytes)
    (s : Server)
    → Fits sender stamp recipient message
    → IsText sender
    → IsText stamp
    → DistinctIds s.clients
    → (client_at s.clients j).id ≡ sender
    → (client_at s.clients i).active ≡ true
    → (client_at s.clients i).id ≡ recipient
    → (asked text : Bytes) × (step is_terminal
          (line (some (typed_private recipient message ++ codes "\n")) true)
          (connected sock)
        ≡ (connected sock, sendto_server asked ∷ []))
      × (answer stamp j (read_buffer asked) a s
          ≡ (s, sendto (client_at s.clients i).addr text ∷ []))
      × (step is_terminal (datagram (some text) true) (listening sock) ≡ (
        listening sock,
        show_received (private (some sender) (some stamp) (some message)) ∷ [],
      ))
datagram_arrives t sock j i a [] stamp recipient message s f ks kt v own on e =
    absurd (f.sender_field.0 refl)
datagram_arrives t sock j i a (g ∷ x) [] recipient message s f ks kt v own on e =
    absurd (f.stamp_field.0 refl)
datagram_arrives t sock j i a (g ∷ x) (k ∷ y) [] message s f ks kt v own on e =
    absurd (f.recipient_word.0 refl)
datagram_arrives t sock j i a (g ∷ x) (k ∷ y) (c ∷ r) [] s f ks kt v own on e =
    absurd (f.message_some refl)
datagram_arrives t sock j i a (g ∷ x) (k ∷ y) (c ∷ r) (d ∷ m) s f ks kt v own on e = (
  sent_private (c ∷ r) (d ∷ m),
  format_message (codes "MSGONE") (g ∷ x) (k ∷ y) (d ∷ m),
  step_types t sock (c ∷ r) (d ∷ m)
      (command_private c r d m f.recipient_word.1 f.recipient_line f.message_line (ground arith)),
  ap (λ b. answer (k ∷ y) j b a s)
        (read_buffer-sent_private c r d m (IsLine-IsText (c ∷ r) f.recipient_line)
          (IsLine-IsText (d ∷ m) f.message_line) (ground arith))
      ∙ answer_private (k ∷ y) j i a s c r d m v on e f.recipient_field.1
      ∙ ap
          (λ z. (
            s,
            sendto (client_at s.clients i).addr (format_message (codes "MSGONE") z (k ∷ y) (d ∷ m))
                ∷ [],
          ))
          own,
  step_shows t sock (g ∷ x) (k ∷ y) (d ∷ m)
      (ap receive (format_same (g ∷ x) (k ∷ y) (d ∷ m))
        ∙ receive_private g x k y d m f.sender_field.1 f.stamp_field.1 (ground arith))
      (omega (arith, f.message_fits)) ks kt (IsLine-IsText (d ∷ m) f.message_line),
)
