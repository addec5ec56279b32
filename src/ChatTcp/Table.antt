-- ===== src/ChatTcp/Table.antt =====
-- Lab 11/server.c: the invariant of the table, and what leaving keeps of it.
use operating_systems_course.Common.{
  ℕ, ◌+◌, ◌≤◌, ◌≡◌, Bool, true, false, some, List, [], ◌∷◌, ◌==◌, if◌then◌else◌, length, Bytes, pos,
  arith, inl, inr, Option-cases,
}
use operating_systems_course.ChatTcp.Registry.{
  Client, Server, is_used, has_socket, vacate, modify_first, id_in_use,
}

abbrev pub used_count : List Client → ℕ
used_count [] = 0
used_count (c ∷ cs) = (if is_used c then 1 else 0) + used_count cs

-- No two clients of the table have the same id.
abbrev pub DistinctIds : List Client → Type 0
DistinctIds [] = Unit
DistinctIds (c ∷ cs) = (is_used c ≡ true → id_in_use c.id cs ≡ false) × DistinctIds cs

-- Every id fits its array, with the NUL.
abbrev pub ShortIds : List Client → Type 0
ShortIds [] = Unit
ShortIds (c ∷ cs) = (length c.id ≤ 31) × ShortIds cs

pub record IsValid (s : Server) : Type 0 where
  pub slots : length s.clients ≡ 10
  pub counted : s.client_count ≡ pos (used_count s.clients)
  pub distinct : DistinctIds s.clients
  pub short : ShortIds s.clients

module _ (test : Client → Bool) (change : Client → Client) where
  pub length-modify_first :
      (cs cs' : List Client) → modify_first test change cs ≡ some cs' → length cs' ≡ length cs
  unfolding modify_first
  length-modify_first [] cs' e = ground arith
  length-modify_first (c ∷ cs) cs' e = elim (Option-cases (modify_first test change cs)) [
    | inl n ↦ ground arith
    | inr (r, n) ↦ ground (arith, length-modify_first cs r n)
  ]

-- The slot of a socket that is in use becomes free.
pub used_count-vacate :
    (fd : ℕ) (cs cs' : List Client)
    → (fd == 0) ≡ false
    → modify_first (has_socket fd) vacate cs ≡ some cs'
    → used_count cs ≡ used_count cs' + 1
unfolding modify_first
used_count-vacate fd [] cs' p e = ground arith
used_count-vacate fd (c ∷ cs) cs' p e =
    elim (Option-cases (modify_first (has_socket fd) vacate cs)) [
      | inl n ↦ ground arith
      | inr (r, n) ↦ ground (arith, used_count-vacate fd cs r p n)
    ]

pub id_in_use-vacate :
    (fd : ℕ) (id : Bytes) (cs cs' : List Client)
    → modify_first (has_socket fd) vacate cs ≡ some cs'
    → id_in_use id cs ≡ false
    → id_in_use id cs' ≡ false
unfolding modify_first id_in_use
id_in_use-vacate fd id [] cs' e h = ground arith
id_in_use-vacate fd id (c ∷ cs) cs' e h =
    elim (Option-cases (modify_first (has_socket fd) vacate cs)) [
      | inl n ↦ ground arith
      | inr (r, n) ↦ ground (arith, id_in_use-vacate fd id cs r n)
    ]

-- A change of a slot that keeps its client or drops it.
abbrev pub Shrinks : (Client → Bool) → (Client → Client) → Type 0
Shrinks test change =
    (c : Client)
    → test c ≡ true
    → is_used (change c) ≡ true
    → (is_used c ≡ true) × ((change c).id ≡ c.id)

module _ (test : Client → Bool) (change : Client → Client) where
  pub id_in_use-modify_first :
      (id : Bytes) (cs cs' : List Client)
      → Shrinks test change
      → modify_first test change cs ≡ some cs'
      → id_in_use id cs ≡ false
      → id_in_use id cs' ≡ false
  unfolding modify_first id_in_use
  id_in_use-modify_first id [] cs' k e h = ground arith
  id_in_use-modify_first id (c ∷ cs) cs' k e h = elim (Option-cases (modify_first test change cs)) [
    | inl n ↦ ground (arith, k c)
    | inr (r, n) ↦ ground (arith, k c, id_in_use-modify_first id cs r k n)
  ]

  pub DistinctIds-modify_first :
      (cs cs' : List Client)
      → Shrinks test change
      → modify_first test change cs ≡ some cs'
      → DistinctIds cs
      → DistinctIds cs'
  unfolding modify_first
  DistinctIds-modify_first [] cs' k e d = ground arith
  DistinctIds-modify_first (c ∷ cs) cs' k e d = elim (Option-cases (modify_first test change cs)) [
    | inl n ↦ ground (arith, k c)
    | inr (r, n) ↦
        ground (arith, k c, id_in_use-modify_first c.id cs r k n, DistinctIds-modify_first cs r k n)
  ]

  pub ShortIds-modify_first :
      (cs cs' : List Client)
      → ((c : Client) → length c.id ≤ 31 → length (change c).id ≤ 31)
      → modify_first test change cs ≡ some cs'
      → ShortIds cs
      → ShortIds cs'
  unfolding modify_first
  ShortIds-modify_first [] cs' k e d = ground arith
  ShortIds-modify_first (c ∷ cs) cs' k e d = elim (Option-cases (modify_first test change cs)) [
    | inl n ↦ ground (arith, k c)
    | inr (r, n) ↦ ground (arith, k c, ShortIds-modify_first cs r k n)
  ]

  -- A change that leaves the slot used or free as it was.
  pub used_count-modify_first :
      (cs cs' : List Client)
      → ((c : Client) → test c ≡ true → is_used (change c) ≡ is_used c)
      → modify_first test change cs ≡ some cs'
      → used_count cs' ≡ used_count cs
  unfolding modify_first
  used_count-modify_first [] cs' k e = ground arith
  used_count-modify_first (c ∷ cs) cs' k e = elim (Option-cases (modify_first test change cs)) [
    | inl n ↦ ground (arith, k c)
    | inr (r, n) ↦ ground (arith, k c, used_count-modify_first cs r k n)
  ]
