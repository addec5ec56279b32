-- ===== src/ChatMq/Delivery.antt =====
-- Lab 7: what the clients send and the server makes of it.
use operating_systems_course.Common.{
  ℕ, zero, suc, ◌+◌, ◌≤◌, ◌<◌, ◌≡◌, ◌≢◌, refl, true, false, Option, some, List, [], ◌∷◌, ◌++◌, ltb,
  ◌==◌, take, take_self, set, length, length-append, pos, Bytes, codes, contains, c_str_self,
  IsText, starts_with, snprintf, strtok, strtok-append, strtok-all, split_token, Avoids, arith,
}
use operating_systems_course.ChatMq.Defs.{
  ClientInfo, Server, Effect, mq_send, print_digits, decimal, atoi, send_others, register_client,
  broadcast, queue_name, connect, handle, chat_message, init_message,
}
use operating_systems_course.ChatMq.Table.{Numbered, IsValid}

-- Every queue but that at the position.
abbrev pub others : ℕ → List ClientInfo → List ClientInfo
others i [] = []
others zero (c ∷ cs) = cs
others (suc i) (c ∷ cs) = c ∷ others i cs

abbrev pub to_each : Bytes → List ClientInfo → List Effect
to_each message [] = []
to_each message (c ∷ cs) = mq_send c.client_queue message ∷ to_each message cs

send_others_past :
    (from i n : ℕ) (message : Bytes) (cs : List ClientInfo)
    → i < from
    → Numbered from n cs
    → send_others (pos i) message n cs ≡ to_each message (take n cs)
unfolding send_others
send_others_past from i zero message cs h k = refl
send_others_past from i (suc n) message [] h k = elim k [ ]
send_others_past from i (suc n) message (c ∷ cs) h k =
    let apart : (c.client_id == i) ≡ false = ground (arith, k.0) in
    rw (apart, send_others_past (suc from) i n message cs (omega (arith, h)) k.1)

send_others_sends :
    (from i id n : ℕ) (message : Bytes) (cs : List ClientInfo)
    → id ≡ from + i
    → Numbered from n cs
    → send_others (pos id) message n cs ≡ to_each message (others i (take n cs))
unfolding send_others
send_others_sends from i id zero message cs e k = refl
send_others_sends from i id (suc n) message [] e k = elim k [ ]
send_others_sends from zero id (suc n) message (c ∷ cs) e k =
    let same : (c.client_id == id) ≡ true = ground (arith, k.0, e) in
    rw (same, send_others_past (suc from) id n message cs (omega (arith, e)) k.1)
send_others_sends from (suc i) id (suc n) message (c ∷ cs) e k =
    let apart : (c.client_id == id) ≡ false = ground (arith, k.0, e) in
    rw (apart, send_others_sends (suc from) i id n message cs (omega (arith, e)) k.1)

decimal_digit : (n : ℕ) → n < 10 → decimal n ≡ (48 + n) ∷ []
unfolding decimal print_digits
decimal_digit n h = ground arith

atoi_digit : (n : ℕ) → n < 10 → atoi ((48 + n) ∷ []) ≡ pos n
unfolding atoi
atoi_digit n h = ground arith

strtok_whole : (s : Bytes) → s ≢ [] → strtok [] s ≡ some (s, [])
strtok_whole [] h = absurd (h refl)
strtok_whole (c ∷ s) h = strtok-all c s

append_some : (s t : Bytes) (c : ℕ) → s ++ c ∷ t ≢ []
append_some [] t c e = cc
append_some (d ∷ s) t c e = cc

broadcast_digit :
    (n : ℕ) (message : Bytes) (s : Server)
    → n < 10
    → message ≢ []
    → broadcast ((48 + n) ∷ 124 ∷ message) s ≡ send_others (pos n) message s.num_clients s.clients
unfolding broadcast
broadcast_digit n message s h k =
    let bar : contains (codes "|") (48 + n) ≡ false = ground arith in
    rw (
      strtok-append (codes "|") (48 + n) [] message 124 refl (bar, tt),
      broadcast,
      strtok_whole message k,
      atoi_digit n h,
    )

IsText-append : (s t : Bytes) → IsText s → IsText t → IsText (s ++ t)
IsText-append [] t h k = k
IsText-append (c ∷ s) t h k = (h.0, IsText-append s t h.1 k)

abbrev pub body : Bytes → Bytes → Bytes
body username input = username ++ (codes ": " ++ input)

chat_message_text :
    (i : ℕ) (username input : Bytes)
    → i < 10
    → length username ≤ 31
    → length input ≤ 474
    → chat_message i username input ≡ (48 + i) ∷ 124 ∷ body username input
unfolding chat_message
chat_message_text i username input h l l' =
    let fits : length ((48 + i) ∷ 124 ∷ body username input) ≤ 511 =
      omega (arith, length-append username (codes ": " ++ input), l, l') in
    rw (decimal_digit i h, take_self 511 ((48 + i) ∷ 124 ∷ body username input) fits)

split_token-last : (ds s : Bytes) → Avoids ds s → split_token ds s ≡ (s, [])
split_token-last ds [] a = refl
split_token-last ds (c ∷ s) a = rw (a.0, split_token-last ds s a.1)

strtok-last :
    (ds : Bytes) (c : ℕ) (s : Bytes) → Avoids ds (c ∷ s) → strtok ds (c ∷ s) ≡ some (c ∷ s, [])
unfolding strtok
strtok-last ds c s a = ground (arith, a.0, split_token-last ds s a.1)

init_message_text :
    (c : ℕ) (name : Bytes)
    → length name ≤ 30
    → init_message (c ∷ name) ≡ codes "INIT " ++ (c ∷ name)
unfolding init_message
init_message_text c name l = take_self 511 (codes "INIT " ++ (c ∷ name)) (omega (arith, l))

queue_name-init :
    (c : ℕ) (name : Bytes)
    → Avoids (codes " ") (c ∷ name)
    → queue_name (codes "INIT " ++ (c ∷ name)) ≡ some (c ∷ name)
unfolding queue_name
queue_name-init c name a = rw (
  strtok-append (codes " ") 73 (codes "NIT") (c ∷ name) 32 refl (refl, (refl, (refl, (refl, tt)))),
  queue_name,
  strtok-last (codes " ") c name a,
)

module _ (mq_open : Bytes → Option ℕ) where
  -- A line of client i, of at most 474 bytes under a name of at most 31: the
  -- server, whose table is valid, sends "name: line" to the queue of every other client, in the
  -- order of their ids, and to no other, and its table stays as it is.
  pub handle-chat_message :
      (i : ℕ) (username input : Bytes) (s : Server)
      → IsValid s
      → i < s.num_clients
      → IsText username
      → IsText input
      → length username ≤ 31
      → length input ≤ 474
      → handle mq_open (some (chat_message i username input)) s
        ≡ (s, to_each (body username input) (others i (take s.num_clients s.clients)))
  unfolding handle
  handle-chat_message i username input s v h t t' l l' =
      let small : i < 10 = omega (arith, v.bounded, h) in
      let text = (48 + i) ∷ 124 ∷ body username input in
      let is_text : IsText text =
        (ground arith, (refl, IsText-append username (codes ": " ++ input) t (refl, (refl, t')))) in
      let other : starts_with (codes "INIT") text ≡ false = ground arith in
      rw (
        chat_message_text i username input small l l',
        c_str_self text is_text,
        other,
        handle,
        broadcast_digit i (body username input) s small (append_some username (32 ∷ input) 58),
        send_others_sends 0 i i s.num_clients (body username input) s.clients (omega arith)
            v.numbered,
      )

  -- A client registers with the name of its queue, which has no space in it and can be opened, while
  -- fewer than ten are connected: it is added behind the others with their number as its id, and the
  -- reply, which goes to its queue, is a text in which `atoi` reads that id.
  pub handle-init_message :
      (c : ℕ) (name : Bytes) (queue : ℕ) (s : Server)
      → IsValid s
      → s.num_clients < 10
      → IsText (c ∷ name)
      → Avoids (codes " ") (c ∷ name)
      → length name ≤ 30
      → mq_open (c ∷ name) ≡ some queue
      → (reply : Bytes) × (handle mq_open (some (init_message (c ∷ name))) s ≡ (
        record {
          clients =
              set s.clients s.num_clients
                (record { client_queue = queue; client_id = s.num_clients });
          num_clients = s.num_clients + 1;
        },
        mq_send queue reply ∷ [],
      ))
        × (atoi reply ≡ pos s.num_clients)
  unfolding handle connect register_client
  handle-init_message c name queue s v h t a l e =
      let room : ltb s.num_clients 10 ≡ true = ground arith in
      let digit : snprintf 10 (decimal s.num_clients) ≡ (48 + s.num_clients) ∷ [] =
        rw (decimal_digit s.num_clients h) in
      (
        (48 + s.num_clients) ∷ [],
        rw (
          init_message_text c name l,
          c_str_self (codes "INIT " ++ (c ∷ name)) (refl, (refl, (refl, (refl, (refl, t))))),
          handle,
          connect,
          queue_name-init c name a,
          e,
          register_client,
          room,
          digit,
        ),
        atoi_digit s.num_clients h,
      )
