-- ===== src/ChatTcp/Listing.antt =====
-- Lab 11/server.c: the answer to LIST is never cut, and names the clients.
use operating_systems_course.Common.{
  ℕ, ◌+◌, ◌-◌, ◌*◌, ◌≤◌, ◌<◌, ◌≡◌, sym, ◌∙◌, ◌≢◌, refl, true, false, List, [], ◌∷◌, ◌++◌, ltb,
  if◌then◌else◌, length, take_self, length-append, Bytes, codes, arith, Bool-cases, append-nil,
  append_assoc, inl, inr,
}
use operating_systems_course.ChatTcp.Registry.{Client, Server, is_used}
use operating_systems_course.ChatTcp.Messages.{list_client, list_clients, list_response}
use operating_systems_course.ChatTcp.Table.{ShortIds, IsValid}

-- The ids of the clients, in the order of their slots.
abbrev pub used_ids : List Client → List Bytes
used_ids [] = []
used_ids (c ∷ cs) = if is_used c then c.id ∷ used_ids cs else used_ids cs

-- Each id behind a comma.
abbrev pub listed : List Bytes → Bytes
listed [] = []
listed (x ∷ xs) = (codes "," ++ x) ++ listed xs

-- The ids with commas between them.
abbrev pub joined : List Bytes → Bytes
joined [] = []
joined (x ∷ xs) = x ++ listed xs

abbrev pub NonEmpty : List Bytes → Type 0
NonEmpty [] = Unit
NonEmpty (x ∷ xs) = (x ≢ []) × NonEmpty xs

-- A round appends the piece whole while there is room for it.
list_client_appends :
    (c : Client) (response piece : Bytes) (at : ℕ)
    → is_used c ≡ true
    → at ≡ length response
    → piece ≡ (if ltb 5 at then codes "," else []) ++ c.id
    → at + length piece ≤ 1023
    → at ≤ 1022
    → list_client c response at ≡ (response ++ piece, at + length piece)
unfolding list_client
list_client_appends c response piece at u e q h k =
    ground (arith, take_self at response, take_self (1024 - at - 1) piece)

list_client_skips :
    (c : Client) (response : Bytes) (at : ℕ)
    → is_used c ≡ false
    → list_client c response at ≡ (response, at)
unfolding list_client
list_client_skips c response at u = ground arith

-- From position 6 on, every id comes behind a comma.
list_clients_rest :
    (cs : List Client) (response : Bytes) (at : ℕ)
    → at ≡ length response
    → 5 < at
    → at + 32 * length cs ≤ 1000
    → ShortIds cs
    → list_clients cs response at ≡ response ++ listed (used_ids cs)
unfolding list_clients
list_clients_rest [] response at e p h s = sym (append-nil response)
list_clients_rest (c ∷ cs) response at e p h s = elim (Bool-cases (is_used c)) [
  | inl u ↦
      let piece : Bytes = codes "," ++ c.id in
      rw (u, list_client_appends c response piece at u e (ground arith) (omega arith) (omega arith))
        (list_clients_rest cs (response ++ piece) (at + length piece)
            (omega (arith, length-append response piece)) (omega arith) (omega arith) s.1
          ∙ append_assoc response piece (listed (used_ids cs)))
  | inr u ↦
      rw (u, list_client_skips c response at u)
        (list_clients_rest cs response at e p (omega arith) s.1)
]

positive : (id : Bytes) → id ≢ [] → 5 < 5 + length id
positive [] h = absurd (h refl)
positive (c ∷ s) h = omega arith

-- Up to the first client the position is 5, and no comma is written.
list_clients_first :
    (cs : List Client) (response : Bytes)
    → length response ≡ 5
    → 32 * length cs ≤ 900
    → ShortIds cs
    → NonEmpty (used_ids cs)
    → list_clients cs response 5 ≡ response ++ joined (used_ids cs)
unfolding list_clients
list_clients_first [] response e h s n = sym (append-nil response)
list_clients_first (c ∷ cs) response e h s n = elim (Bool-cases (is_used c)) [
  | inl u ↦
      let ids : NonEmpty (c.id ∷ used_ids cs) = rw u at n in
      rw (u, list_client_appends c response c.id 5 u (sym e) refl (omega arith) (omega arith))
        (list_clients_rest cs (response ++ c.id) (5 + length c.id)
            (omega (arith, length-append response c.id)) (positive c.id ids.0) (omega arith) s.1
          ∙ append_assoc response c.id (listed (used_ids cs)))
  | inr u ↦
      rw (u, list_client_skips c response 5 u)
        (list_clients_first cs response e (omega arith) s.1 (rw u at n))
]

-- While the table is valid and no id in it is empty, the answer to LIST is "LIST|" and the ids of
-- all clients in the order of their slots, with commas between them: nothing is cut off.
pub list_response_lem :
    (s : Server)
    → IsValid s
    → NonEmpty (used_ids s.clients)
    → list_response s.clients ≡ codes "LIST|" ++ joined (used_ids s.clients)
unfolding list_response
list_response_lem s v n =
    list_clients_first s.clients (codes "LIST|") refl (omega (arith, v.slots)) v.short n
