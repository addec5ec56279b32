-- ===== src/ChatTcp/Registration.antt =====
-- Lab 11/server.c: what registering and leaving do to the table.
use operating_systems_course.Common.{
  ℕ, ◌≤◌, ◌<◌, ◌≡◌, ◌∙◌, ◌↔◌, ◌⊎◌, refl, true, false, none, some, List, [], ◌∷◌, ◌==◌, length,
  Bytes, codes, arith, Bool-cases, Option-cases, inl, inr, increment, decrement,
}
use operating_systems_course.ChatTcp.Registry.{
  Client, Server, send, close, Net, is_free, has_socket, vacate, occupy, modify_first,
  remove_client, id_in_use, claim_slot, register_client,
}
use operating_systems_course.ChatTcp.Table.{IsValid, used_count}
use operating_systems_course.ChatTcp.Delivery.{ConnectedAs}

-- With fewer clients than slots the loop finds a free one; with as many it does not.
free_slot :
    (change : Client → Client) (cs : List Client)
    → used_count cs < length cs
    → (cs' : List Client) × (modify_first is_free change cs ≡ some cs')
unfolding modify_first
free_slot change [] h = absurd (omega arith)
free_slot change (c ∷ cs) h = elim (Bool-cases (is_free c)) [
  | inl f ↦ (change c ∷ cs, ground arith)
  | inr f ↦ let (cs', e) = free_slot change cs (ground arith) in (c ∷ cs', ground arith)
]

used_count-le : (cs : List Client) → used_count cs ≤ length cs
used_count-le [] = omega arith
used_count-le (c ∷ cs) = ground (arith, used_count-le cs)

no_free_slot :
    (change : Client → Client) (cs : List Client)
    → used_count cs ≡ length cs
    → modify_first is_free change cs ≡ none
unfolding modify_first
no_free_slot change [] h = refl
no_free_slot change (c ∷ cs) h = ground (arith, no_free_slot change cs, used_count-le cs)

ConnectedAs-occupy :
    (fd : ℕ) (id : Bytes) (now : ℕ) (fd' : ℕ) (id' : Bytes) (cs cs' : List Client)
    → (fd == 0) ≡ false
    → modify_first is_free (occupy true fd id now) cs ≡ some cs'
    → ConnectedAs fd' id' cs' ↔ (ConnectedAs fd' id' cs ⊎ (fd' ≡ fd) × (id' ≡ id))
unfolding modify_first
ConnectedAs-occupy fd id now fd' id' [] cs' l e = ground arith
ConnectedAs-occupy fd id now fd' id' (c ∷ cs) cs' l e =
    elim (Option-cases (modify_first is_free (occupy true fd id now) cs)) [
      | inl n ↦ ground arith
      | inr (r, n) ↦ ground (arith, ConnectedAs-occupy fd id now fd' id' cs r l n)
    ]

-- No slot holds that descriptor.
abbrev pub Absent : ℕ → List Client → Type 0
Absent fd [] = Unit
Absent fd (c ∷ cs) = ((c.socket == fd) ≡ false) × Absent fd cs

abbrev pub with_client : Server → List Client → Server
with_client s cs = record s { clients = cs; client_count = increment s.client_count }

module _ (net : Net) (now fd : ℕ) (id : Bytes) (s : Server)
    (new : id_in_use id s.clients ≡ false) where
  accepted :
      (cs : List Client)
      → net fd (codes "OK") ≡ true
      → modify_first is_free (occupy true fd id now) s.clients ≡ some cs
      → register_client net now fd id s ≡ (with_client s cs, send fd (codes "OK") ∷ [], true)
  unfolding register_client claim_slot
  accepted cs sent e = ground arith

-- A registration that finds a free slot and whose reply is sent: the reply is "OK", the thread goes
-- on, and the new client is connected beside those that were, and no other.
pub register_client_accepts :
    (net : Net) (now fd : ℕ) (id : Bytes) (fd' : ℕ) (id' : Bytes) (s : Server)
    → IsValid s
    → (fd == 0) ≡ false
    → id_in_use id s.clients ≡ false
    → used_count s.clients < 10
    → net fd (codes "OK") ≡ true
    → ((register_client net now fd id s).1 ≡ send fd (codes "OK") ∷ [])
      × ((register_client net now fd id s).2 ≡ true)
      × (ConnectedAs fd' id' (register_client net now fd id s).0.clients
          ↔ (ConnectedAs fd' id' s.clients ⊎ (fd' ≡ fd) × (id' ≡ id)))
register_client_accepts net now fd id fd' id' s v l new room sent =
    let (cs', e) = free_slot (occupy true fd id now) s.clients (omega (arith, v.slots)) in
    rw (accepted net now fd id s new cs' sent e)
      (refl, refl, ConnectedAs-occupy fd id now fd' id' s.clients cs' l e)

ConnectedAs-unoccupy :
    (fd : ℕ) (id : Bytes) (now : ℕ) (fd' : ℕ) (id' : Bytes) (cs cs' : List Client)
    → modify_first is_free (occupy false fd id now) cs ≡ some cs'
    → ConnectedAs fd' id' cs' ↔ ConnectedAs fd' id' cs
unfolding modify_first
ConnectedAs-unoccupy fd id now fd' id' [] cs' e = ground arith
ConnectedAs-unoccupy fd id now fd' id' (c ∷ cs) cs' e =
    elim (Option-cases (modify_first is_free (occupy false fd id now) cs)) [
      | inl n ↦ ground arith
      | inr (r, n) ↦ ground (arith, ConnectedAs-unoccupy fd id now fd' id' cs r n)
    ]

-- An id that is taken: the answer is the error, the connection is closed, the thread ends, and
-- nothing else changes.
pub register_client_taken :
    (net : Net) (now fd : ℕ) (id : Bytes) (s : Server)
    → id_in_use id s.clients ≡ true
    → register_client net now fd id s
      ≡ (s, send fd (codes "ERROR|ID already in use") ∷ close fd ∷ [], false)
unfolding register_client
register_client_taken net now fd id s old = rw (old, register_client)

-- A full table: the thread goes on as if registered, though no slot was taken and no answer sent.
pub register_client_full :
    (net : Net) (now fd : ℕ) (id : Bytes) (s : Server)
    → IsValid s
    → id_in_use id s.clients ≡ false
    → used_count s.clients ≡ 10
    → register_client net now fd id s ≡ (s, [], true)
unfolding register_client claim_slot
register_client_full net now fd id s v new full = ground (
  arith,
  no_free_slot (occupy (net fd (codes "OK")) fd id now) s.clients (omega (arith, v.slots)),
)

vacate-occupy :
    (fd : ℕ) (id : Bytes) (now : ℕ) (cs cs' : List Client)
    → (fd == 0) ≡ false
    → Absent fd cs
    → modify_first is_free (occupy true fd id now) cs ≡ some cs'
    → modify_first (has_socket fd) vacate cs' ≡ modify_first is_free (occupy false fd [] now) cs
unfolding modify_first
vacate-occupy fd id now [] cs' l a e = ground arith
vacate-occupy fd id now (c ∷ cs) cs' l a e =
    elim (Option-cases (modify_first is_free (occupy true fd id now) cs)) [
      | inl n ↦ ground arith
      | inr (r, n) ↦ ground (arith, vacate-occupy fd id now cs r l a.1 n)
    ]

removed :
    (fd : ℕ) (s : Server) (cs : List Client)
    → modify_first (has_socket fd) vacate s.clients ≡ some cs
    → remove_client fd s
      ≡ (record s { clients = cs; client_count = decrement s.client_count }, close fd ∷ [])
unfolding remove_client
removed fd s cs e = rw (e, remove_client)

-- Leaving undoes an accepted registration: the connection is closed, the count is what it was, and
-- the clients that are connected are those of before.
pub remove_client-register_client :
    (net : Net) (now fd : ℕ) (id : Bytes) (fd' : ℕ) (id' : Bytes) (s : Server)
    → IsValid s
    → (fd == 0) ≡ false
    → Absent fd s.clients
    → id_in_use id s.clients ≡ false
    → used_count s.clients < 10
    → net fd (codes "OK") ≡ true
    → let (s', es) = remove_client fd (register_client net now fd id s).0 in
      (es ≡ close fd ∷ [])
      × (s'.client_count ≡ s.client_count)
      × (ConnectedAs fd' id' s'.clients ↔ ConnectedAs fd' id' s.clients)
remove_client-register_client net now fd id fd' id' s v l a new room sent =
    let (cs, e) = free_slot (occupy true fd id now) s.clients (omega (arith, v.slots)) in
    let (cs', e') = free_slot (occupy false fd [] now) s.clients (omega (arith, v.slots)) in
    rw
      (
        accepted net now fd id s new cs sent e,
        removed fd (with_client s cs) cs' (vacate-occupy fd id now s.clients cs l a e ∙ e'),
      )
      (refl, ground (arith, v.counted), ConnectedAs-unoccupy fd [] now fd' id' s.clients cs' e')
