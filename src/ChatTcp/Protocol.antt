-- ===== src/ChatTcp/Protocol.antt =====
-- Lab 11: a private message from the typed line of one client, through the server, to the other.
use operating_systems_course.Common.{
  ℕ, ◌+◌, ◌≤◌, ◌≡◌, ◌∙◌, ◌≢◌, ap, refl, true, some, [], ◌∷◌, ◌++◌, length, length-append, take_self,
  Bytes, codes, arith, Avoids, IsText, c_str_self, strtok-append, strtok-all,
}
use operating_systems_course.ChatTcp.Registry.{Server, send, Net}
use operating_systems_course.ChatTcp.Messages.{format_message, send_private_message}
use operating_systems_course.ChatTcp.Session.{serve, dispatch, private_effects, parse_private}
use operating_systems_course.ChatTcp.Client.{
  private, fields, receive, transmit, cut_line, private_request, request, command,
}
use operating_systems_course.ChatTcp.Table.{IsValid}
use operating_systems_course.ChatTcp.Delivery.{ConnectedAs, send_private_message_sends}

-- Text that a user can type on one line: no NUL and no end of line.
abbrev pub IsLine : Bytes → Type 0
IsLine s = Avoids (0 ∷ 10 ∷ []) s

IsLine-append : (s t : Bytes) → IsLine s → IsLine t → IsLine (s ++ t)
IsLine-append [] t h k = k
IsLine-append (c ∷ s) t h k = (h.0, IsLine-append s t h.1 k)

pub IsText-append : (s t : Bytes) → IsText s → IsText t → IsText (s ++ t)
IsText-append [] t h k = k
IsText-append (c ∷ s) t h k = (h.0, IsText-append s t h.1 k)

pub IsLine-IsText : (s : Bytes) → IsLine s → IsText s
IsLine-IsText [] h = tt
IsLine-IsText (c ∷ s) h = ground (arith, IsLine-IsText s)

pub cut_line-end : (s : Bytes) → IsLine s → cut_line (s ++ 10 ∷ []) ≡ s
cut_line-end [] h = refl
cut_line-end (c ∷ s) h = ground (arith, cut_line-end s)

-- What the server reads from the text behind "2ONE|".
parse_private-append :
    (c : ℕ) (r : Bytes) (d : ℕ) (m : Bytes)
    → Avoids (codes "|") (c ∷ r)
    → parse_private ((c ∷ r) ++ (codes "|" ++ (d ∷ m))) ≡ some (c ∷ r, d ∷ m)
parse_private-append c r d m a =
    ground (arith, strtok-append (codes "|") c r (d ∷ m) b'|' refl a, strtok-all d m)

-- What a client reads from the text behind "MSGONE|" or "MSGALL|".
fields-append :
    (c : ℕ) (x : Bytes) (d : ℕ) (y : Bytes) (e : ℕ) (z : Bytes)
    → Avoids (codes "|") (c ∷ x)
    → Avoids (codes "|") (d ∷ y)
    → fields ((c ∷ x) ++ (codes "|" ++ ((d ∷ y) ++ (codes "|" ++ (e ∷ z)))))
      ≡ (some (c ∷ x), some (d ∷ y), some (e ∷ z))
fields-append c x d y e z a b = ground (
  arith,
  strtok-append (codes "|") c x ((d ∷ y) ++ (codes "|" ++ (e ∷ z))) b'|' refl a,
  strtok-append (codes "|") d y (e ∷ z) b'|' refl b,
  strtok-all e z,
)

-- The texts of a private message, with a recipient and a message that are not empty.
abbrev pub typed_private : Bytes → Bytes → Bytes
typed_private recipient message = codes "2ONE " ++ (recipient ++ (codes " " ++ message))

abbrev pub sent_private : Bytes → Bytes → Bytes
sent_private recipient message = codes "2ONE|" ++ (recipient ++ (codes "|" ++ message))

module _ (c : ℕ) (r : Bytes) (d : ℕ) (m : Bytes) where
  private_request-append :
      Avoids (codes " ") (c ∷ r)
      → length r + length m ≤ 1000
      → private_request ((c ∷ r) ++ (codes " " ++ (d ∷ m)))
        ≡ transmit (sent_private (c ∷ r) (d ∷ m))
  unfolding private_request
  private_request-append a h = ground (
    arith,
    strtok-append (codes " ") c r (d ∷ m) b' ' refl a,
    strtok-all d m,
    take_self 1023 (sent_private (c ∷ r) (d ∷ m)),
    length-append r (codes "|" ++ (d ∷ m)),
  )

  pub command_private :
      Avoids (codes " ") (c ∷ r)
      → IsLine (c ∷ r)
      → IsLine (d ∷ m)
      → length r + length m ≤ 1000
      → command (typed_private (c ∷ r) (d ∷ m) ++ codes "\n")
        ≡ transmit (sent_private (c ∷ r) (d ∷ m))
  unfolding command request
  command_private a k l h = ground (
    arith,
    cut_line-end ((c ∷ r) ++ (codes " " ++ (d ∷ m)))
        (IsLine-append (c ∷ r) (codes " " ++ (d ∷ m)) k (refl, l)),
    private_request-append a h,
  )

  serve_private :
      (net : Net) (now : ℕ) (stamp : Bytes) (fd : ℕ) (sender : Bytes) (s : Server)
      → Avoids (codes "|") (c ∷ r)
      → IsText (c ∷ r)
      → IsText (d ∷ m)
      → serve net now stamp fd sender (some (sent_private (c ∷ r) (d ∷ m))) s
        ≡ (s, send_private_message stamp sender (c ∷ r) (d ∷ m) s.clients, true)
  unfolding serve dispatch private_effects
  serve_private net now stamp fd sender s a k l = ground (
    arith,
    c_str_self ((c ∷ r) ++ (codes "|" ++ (d ∷ m)))
        (IsText-append (c ∷ r) (codes "|" ++ (d ∷ m)) k (refl, l)),
    parse_private-append c r d m a,
  )

pub receive_private :
    (c : ℕ) (x : Bytes) (d : ℕ) (y : Bytes) (e : ℕ) (z : Bytes)
    → Avoids (codes "|") (c ∷ x)
    → Avoids (codes "|") (d ∷ y)
    → length x + length y + length z ≤ 1000
    → receive (format_message (codes "MSGONE") (c ∷ x) (d ∷ y) (e ∷ z))
      ≡ private (some (c ∷ x)) (some (d ∷ y)) (some (e ∷ z))
unfolding receive format_message
receive_private c x d y e z a b h = ground (
  arith,
  take_self 1015 (x ++ (codes "|" ++ ((d ∷ y) ++ (codes "|" ++ (e ∷ z))))),
  length-append x (codes "|" ++ ((d ∷ y) ++ (codes "|" ++ (e ∷ z)))),
  length-append y (codes "|" ++ (e ∷ z)),
  fields-append c x d y e z a b,
)

-- A text that is not empty and has none of the bytes `ds`.
abbrev pub IsField : Bytes → Bytes → Type 0
IsField ds s = (s ≢ []) × Avoids ds s

-- The names, the time and the message have no separator in them, and the texts fit the buffers.
pub record Fits (sender stamp recipient message : Bytes) : Type 0 where
  pub recipient_word : IsField (codes " ") recipient
  pub recipient_field : IsField (codes "|") recipient
  pub recipient_line : IsLine recipient
  pub message_some : message ≢ []
  pub message_line : IsLine message
  pub sender_field : IsField (codes "|") sender
  pub stamp_field : IsField (codes "|") stamp
  pub request_fits : length recipient + length message ≤ 1000
  pub message_fits : length sender + length stamp + length message ≤ 1000

-- A user types "2ONE", a connected client's id and a message. The sender's client sends a request;
-- the server, whose table is valid, answers it with one message, to that client and to nobody else,
-- and changes nothing; and the receiving client shows the sender, the time and the message.
pub private_message_arrives :
    (net : Net) (now fd to : ℕ) (sender stamp recipient message : Bytes) (s : Server)
    → Fits sender stamp recipient message
    → IsValid s
    → ConnectedAs to recipient s.clients
    → (asked answer : Bytes) × (command (typed_private recipient message ++ codes "\n")
        ≡ transmit asked)
      × (serve net now stamp fd sender (some asked) s ≡ (s, send to answer ∷ [], true))
      × (receive answer ≡ private (some sender) (some stamp) (some message))
private_message_arrives net now fd to [] stamp recipient message s f v k =
    absurd (f.sender_field.0 refl)
private_message_arrives net now fd to (e ∷ x) [] recipient message s f v k =
    absurd (f.stamp_field.0 refl)
private_message_arrives net now fd to (e ∷ x) (g ∷ y) [] message s f v k =
    absurd (f.recipient_word.0 refl)
private_message_arrives net now fd to (e ∷ x) (g ∷ y) (c ∷ r) [] s f v k =
    absurd (f.message_some refl)
private_message_arrives net now fd to (e ∷ x) (g ∷ y) (c ∷ r) (d ∷ m) s f v k = (
  sent_private (c ∷ r) (d ∷ m),
  format_message (codes "MSGONE") (e ∷ x) (g ∷ y) (d ∷ m),
  command_private c r d m f.recipient_word.1 f.recipient_line f.message_line (ground arith),
  serve_private c r d m net now (g ∷ y) fd (e ∷ x) s f.recipient_field.1
        (IsLine-IsText (c ∷ r) f.recipient_line) (IsLine-IsText (d ∷ m) f.message_line)
      ∙ ap (λ es. (s, es, true))
          (send_private_message_sends (g ∷ y) (e ∷ x) (c ∷ r) (d ∷ m) to s.clients v.distinct k),
  receive_private e x g y d m f.sender_field.1 f.stamp_field.1 (ground arith),
)
