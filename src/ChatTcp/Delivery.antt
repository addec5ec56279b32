-- ===== src/ChatTcp/Delivery.antt =====
-- Lab 11/server.c: who gets which message.
use operating_systems_course.Common.{
  ℕ, ◌-◌, ◌≤◌, ◌≡◌, ◌≢◌, ◌↔◌, ◌⊎◌, inr, refl, true, false, List, [], ◌∷◌, ◌++◌, Bytes, codes,
  str_eq_iff, arith, ℤ, decrement, ◌<◌,
}
use operating_systems_course.ChatTcp.Registry.{
  Client, Server, Effect, send, close, is_used, Net, check_client, check_clients, alive_round,
  id_in_use,
}
use operating_systems_course.ChatTcp.Messages.{
  format_message, send_others, broadcast_message, send_first, send_private_message,
}
use operating_systems_course.ChatTcp.Table.{DistinctIds}

-- The effect is one of the list.
abbrev pub Has : Effect → List Effect → Type 0
Has e [] = ⊥
Has e (x ∷ xs) = (e ≡ x) ⊎ Has e xs

-- A client of that id is connected through that descriptor.
abbrev pub ConnectedAs : ℕ → Bytes → List Client → Type 0
ConnectedAs fd id [] = ⊥
ConnectedAs fd id (c ∷ cs) =
    (is_used c ≡ true) × (c.socket ≡ fd) × (c.id ≡ id) ⊎ ConnectedAs fd id cs

-- A client of another id is connected through that descriptor.
abbrev pub ConnectedOther : ℕ → Bytes → List Client → Type 0
ConnectedOther fd id [] = ⊥
ConnectedOther fd id (c ∷ cs) =
    (is_used c ≡ true) × (c.socket ≡ fd) × (c.id ≢ id) ⊎ ConnectedOther fd id cs

send_others_sends :
    (sender text : Bytes) (fd : ℕ) (t : Bytes) (cs : List Client)
    → Has (send fd t) (send_others sender text cs) ↔ ((t ≡ text) × ConnectedOther fd sender cs)
unfolding send_others
send_others_sends sender text fd t [] = (λ h. elim h [ ], λ h. h.1)
send_others_sends sender text fd t (c ∷ cs) =
    ground (arith, str_eq_iff c.id sender, send_others_sends sender text fd t cs)

send_others_closes :
    (sender text : Bytes) (fd : ℕ) (cs : List Client)
    → ¬ Has (close fd) (send_others sender text cs)
unfolding send_others
send_others_closes sender text fd [] h = h
send_others_closes sender text fd (c ∷ cs) h = ground (arith, send_others_closes sender text fd cs)

-- `broadcast_message` sends a text over a connection exactly when it is the formatted message and a
-- client whose id is not the sender's is connected there.
pub broadcast_message_sends :
    (stamp sender message : Bytes) (fd : ℕ) (text : Bytes) (cs : List Client)
    → Has (send fd text) (broadcast_message stamp sender message cs) ↔ (
        (text ≡ format_message (codes "MSGALL") sender stamp message) × ConnectedOther fd sender cs)
unfolding broadcast_message
broadcast_message_sends stamp sender message fd text cs =
    send_others_sends sender (format_message (codes "MSGALL") sender stamp message) fd text cs

not_in_use :
    (fd : ℕ) (id : Bytes) (cs : List Client) → id_in_use id cs ≡ false → ¬ ConnectedAs fd id cs
unfolding id_in_use
not_in_use fd id [] h k = k
not_in_use fd id (c ∷ cs) h k = ground (arith, str_eq_iff c.id id, not_in_use fd id cs)

send_first_sends :
    (recipient text : Bytes) (fd : ℕ) (cs : List Client)
    → DistinctIds cs
    → ConnectedAs fd recipient cs
    → send_first recipient text cs ≡ send fd text ∷ []
unfolding send_first
send_first_sends recipient text fd [] d k = elim k [ ]
send_first_sends recipient text fd (c ∷ cs) d k =
    ground (
      arith,
      str_eq_iff c.id recipient,
      not_in_use fd c.id cs,
      send_first_sends recipient text fd cs,
    )

send_first_absent :
    (recipient text : Bytes) (cs : List Client)
    → id_in_use recipient cs ≡ false
    → send_first recipient text cs ≡ []
unfolding send_first id_in_use
send_first_absent recipient text [] h = refl
send_first_absent recipient text (c ∷ cs) h = ground (arith, send_first_absent recipient text cs)

-- While ids are distinct, a private message to a connected client is sent once, over that client's
-- connection and to nobody else.
pub send_private_message_sends :
    (stamp sender recipient message : Bytes) (fd : ℕ) (cs : List Client)
    → DistinctIds cs
    → ConnectedAs fd recipient cs
    → send_private_message stamp sender recipient message cs
      ≡ send fd (format_message (codes "MSGONE") sender stamp message) ∷ []
unfolding send_private_message
send_private_message_sends stamp sender recipient message fd cs d k =
    send_first_sends recipient _ fd cs d k

-- To an id that nobody has, nothing is sent: the sender is not told.
pub send_private_message_absent :
    (stamp sender recipient message : Bytes) (cs : List Client)
    → id_in_use recipient cs ≡ false
    → send_private_message stamp sender recipient message cs ≡ []
unfolding send_private_message
send_private_message_absent stamp sender recipient message cs h = send_first_absent recipient _ cs h

-- A client that is due to be dropped: silent for more than a minute, or its PING fails.
abbrev pub Due : Net → ℕ → Client → Type 0
Due net now c = (60 < now - c.last_active) ⊎ (net c.socket (codes "PING") ≡ false)

abbrev pub DueAt : Net → ℕ → ℕ → List Client → Type 0
DueAt net now fd [] = ⊥
DueAt net now fd (c ∷ cs) =
    (is_used c ≡ true) × (c.socket ≡ fd) × Due net now c ⊎ DueAt net now fd cs

Has-append : (e : Effect) (xs ys : List Effect) → Has e (xs ++ ys) ↔ (Has e xs ⊎ Has e ys)
Has-append e [] ys = (inr, λ h. ground arith)
Has-append e (x ∷ xs) ys = ground (arith, Has-append e xs ys)

check_clients_closes :
    (net : Net) (now fd : ℕ) (cs : List Client) (n : ℤ)
    → Has (close fd) (check_clients net now cs n).2 ↔ DueAt net now fd cs
unfolding check_clients check_client
check_clients_closes net now fd [] n = (λ h. h, λ h. h)
check_clients_closes net now fd (c ∷ cs) n =
    ground (
      arith,
      check_clients_closes net now fd cs n,
      check_clients_closes net now fd cs (decrement n),
    )

-- A client that stays: heard from within a minute, and its PING is sent.
abbrev pub KeptAs : Net → ℕ → ℕ → Bytes → List Client → Type 0
KeptAs net now fd id [] = ⊥
KeptAs net now fd id (c ∷ cs) =
    (is_used c ≡ true)
      × (c.socket ≡ fd)
      × (c.id ≡ id)
      × (now - c.last_active ≤ 60)
      × (net c.socket (codes "PING") ≡ true)
    ⊎ KeptAs net now fd id cs

check_clients_keeps :
    (net : Net) (now fd : ℕ) (id : Bytes) (cs : List Client) (n : ℤ)
    → ConnectedAs fd id (check_clients net now cs n).0 ↔ KeptAs net now fd id cs
unfolding check_clients check_client
check_clients_keeps net now fd id [] n = (λ h. h, λ h. h)
check_clients_keeps net now fd id (c ∷ cs) n = ground (
  arith,
  check_clients_keeps net now fd id cs n,
  check_clients_keeps net now fd id cs (decrement n),
)

-- A round of `alive_checker` closes exactly the connections of clients that were silent for more than
-- PING_TIMEOUT seconds or whose PING could not be sent, and the clients connected after it are
-- exactly the others.
pub alive_round_drops :
    (net : Net) (now fd : ℕ) (id : Bytes) (s : Server)
    → (Has (close fd) (alive_round net now s).1 ↔ DueAt net now fd s.clients)
      × (ConnectedAs fd id (alive_round net now s).0.clients ↔ KeptAs net now fd id s.clients)
unfolding alive_round
alive_round_drops net now fd id s = (
  check_clients_closes net now fd s.clients s.client_count,
  check_clients_keeps net now fd id s.clients s.client_count,
)
