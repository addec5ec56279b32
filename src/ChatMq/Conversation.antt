-- ===== src/ChatMq/Conversation.antt =====
-- Lab 7: from the line that one user types to what the others see.
use operating_systems_course.Common.{
  ℕ, zero, suc, ◌≤◌, ◌<◌, ◌≡◌, refl, ap, ◌∙◌, Option, some, [], ◌∷◌, ◌++◌, take, take_self, length,
  length-append, ℤ, pos, Bytes, codes, c_str, c_str_self, IsText, arith,
}
use operating_systems_course.ChatTcp.Protocol.{IsLine, IsLine-IsText, IsText-append, cut_line-end}
use operating_systems_course.ChatMq.Defs.{Server, handle, chat_message}
use operating_systems_course.ChatMq.Table.{IsValid}
use operating_systems_course.ChatMq.Delivery.{others, to_each, body, handle-chat_message}
use operating_systems_course.ChatMq.Client.{
  send_server, show_text, show_int, fgets, type_rounds, line_message, type_lines, receive,
}

line_message-chat_message :
    (i : ℕ) (username input : Bytes)
    → IsLine input
    → line_message (pos i) username (input ++ codes "\n") ≡ chat_message i username input
unfolding line_message chat_message show_int
line_message-chat_message i username input h = rw (cut_line-end input h) refl

receive-body :
    (username input : Bytes)
    → IsText username
    → IsText input
    → length username ≤ 31
    → length input ≤ 474
    → receive (some (body username input)) ≡ show_text (body username input ++ codes "\n") ∷ []
unfolding receive
receive-body username input h k l m =
    let fits : length (body username input) ≤ 512 =
      omega (arith, length-append username (codes ": " ++ input), l, m) in
    let text : IsText (body username input) =
      IsText-append username (codes ": " ++ input) h (refl, (refl, k)) in
    let same : c_str (take 512 (body username input)) ≡ body username input =
      ap c_str (take_self 512 (body username input) fits) ∙ c_str_self (body username input) text in
    ap (λ b. show_text (b ++ codes "\n") ∷ []) same

length-fgets : (n : ℕ) (stdin : Bytes) → length (fgets n stdin).1 ≤ length stdin
unfolding fgets
length-fgets zero stdin = omega arith
length-fgets (suc n) [] = omega arith
length-fgets (suc n) (c ∷ stdin) = ground (arith, length-fgets n stdin)

-- Every round reads a byte.
fgets_shortens : (n c : ℕ) (stdin : Bytes) → length (fgets (suc n) (c ∷ stdin)).1 ≤ length stdin
unfolding fgets
fgets_shortens n c stdin = ground (arith, length-fgets n stdin)

-- With as many rounds as bytes the loop comes to its end: more rounds change nothing.
type_rounds-enough :
    (n m : ℕ) (client_id : ℤ) (username stdin : Bytes)
    → length stdin ≤ n
    → length stdin ≤ m
    → type_rounds n client_id username stdin ≡ type_rounds m client_id username stdin
unfolding type_rounds
type_rounds-enough n m client_id username [] a b = refl
type_rounds-enough zero m client_id username (c ∷ stdin) a b = absurd (omega (arith, a))
type_rounds-enough (suc n) zero client_id username (c ∷ stdin) a b = absurd (omega (arith, b))
type_rounds-enough (suc n) (suc m) client_id username (c ∷ stdin) a b =
    let (line, left) = fgets 474 (c ∷ stdin) in
    let less = fgets_shortens 473 c stdin in
    ap (λ l. send_server (line_message client_id username line) ∷ l)
      (type_rounds-enough n m client_id username left (omega (arith, less, a))
        (omega (arith, less, b)))

-- A line that fits is read in one round.
fgets-line :
    (n : ℕ) (input rest : Bytes)
    → IsLine input
    → length input < n
    → fgets n (input ++ 10 ∷ rest) ≡ (input ++ 10 ∷ [], rest)
unfolding fgets
fgets-line zero input rest h l = absurd (omega (arith, l))
fgets-line (suc n) [] rest h l = refl
fgets-line (suc n) (c ∷ input) rest (h, k) l =
    rw (fgets-line n input rest k (omega (arith, l))) (ground (arith, h))

one_round :
    (client_id : ℤ) (username input rest : Bytes)
    → IsLine input
    → length input ≤ 473
    → type_lines client_id username (input ++ 10 ∷ rest)
      ≡ send_server (line_message client_id username (input ++ codes "\n"))
        ∷ type_lines client_id username rest
unfolding type_rounds
one_round client_id username [] rest h l = rw (fgets-line 474 [] rest h (omega arith)) refl
one_round client_id username (c ∷ input) rest h l =
    let more = length-append input (10 ∷ rest) in
    let enough =
      type_rounds-enough (length (input ++ 10 ∷ rest)) (length rest) client_id username rest
        (omega (arith, more)) (omega arith) in
    rw (fgets-line 474 (c ∷ input) rest h (omega (arith, l)), enough) refl

-- A user under a name of at most 31 bytes types a line of at most 473 bytes, before whatever else, in
-- a client with an id that the server, whose table is valid, has given out. The client sends one
-- message for it, and goes on with the rest of its input; the server sends "name: line" to the queue
-- of every other client, in the order of their ids, and to no other, and changes nothing; and a client
-- that receives it shows just that.
pub line_reaches_others :
    (mq_open : Bytes → Option ℕ) (i : ℕ) (username input rest : Bytes) (s : Server)
    → IsValid s
    → i < s.num_clients
    → IsText username
    → IsLine input
    → length username ≤ 31
    → length input ≤ 473
    → (asked : Bytes) × (type_lines (pos i) username (input ++ 10 ∷ rest)
        ≡ send_server asked ∷ type_lines (pos i) username rest)
      × (handle mq_open (some asked) s
          ≡ (s, to_each (body username input) (others i (take s.num_clients s.clients))))
      × (receive (some (body username input)) ≡ show_text (body username input ++ codes "\n") ∷ [])
line_reaches_others mq_open i username input rest s v h t k l m = (
  chat_message i username input,
  rw (one_round (pos i) username input rest k m, line_message-chat_message i username input k) refl,
  handle-chat_message mq_open i username input s v h t (IsLine-IsText input k) l (omega (arith, m)),
  receive-body username input t (IsLine-IsText input k) l (omega (arith, m)),
)
