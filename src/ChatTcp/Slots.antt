-- ===== src/ChatTcp/Slots.antt =====
-- Lab 11/server.c: what registering, a round of `alive_checker` and a new thread keep of the table.
use operating_systems_course.Common.{
  ℕ, zero, suc, ◌+◌, ◌≡◌, ap, refl, true, false, ◌||◌, some, List, [], ◌∷◌, ◌==◌, length, get_or,
  set, Bytes, str_eq, str_eq_iff, str_eq_refl, ℤ, pos, decrement, arith, inl, inr, Option-cases,
}
use operating_systems_course.ChatTcp.Registry.{
  Client, is_free, occupy, modify_first, id_in_use, Net, blank, check_client, check_clients,
}
use operating_systems_course.ChatTcp.Table.{DistinctIds, ShortIds, used_count}

-- A successful registration takes one free slot, and adds its id and no other.
module _ (fd : ℕ) (new : Bytes) (now : ℕ) (live : (fd == 0) ≡ false) where
  pub used_count-occupy :
      (cs cs' : List Client)
      → modify_first is_free (occupy true fd new now) cs ≡ some cs'
      → used_count cs' ≡ used_count cs + 1
  unfolding modify_first
  used_count-occupy [] cs' e = ground arith
  used_count-occupy (c ∷ cs) cs' e =
      elim (Option-cases (modify_first is_free (occupy true fd new now) cs)) [
        | inl n ↦ ground arith
        | inr (r, n) ↦ ground (arith, used_count-occupy cs r n)
      ]

  pub id_in_use-occupy :
      (id : Bytes) (cs cs' : List Client)
      → modify_first is_free (occupy true fd new now) cs ≡ some cs'
      → id_in_use id cs' ≡ (id_in_use id cs || str_eq new id)
  unfolding modify_first id_in_use
  id_in_use-occupy id [] cs' e = ground arith
  id_in_use-occupy id (c ∷ cs) cs' e =
      elim (Option-cases (modify_first is_free (occupy true fd new now) cs)) [
        | inl n ↦ ground arith
        | inr (r, n) ↦ ground (arith, id_in_use-occupy id cs r n)
      ]

  pub DistinctIds-occupy :
      (cs cs' : List Client)
      → modify_first is_free (occupy true fd new now) cs ≡ some cs'
      → id_in_use new cs ≡ false
      → DistinctIds cs
      → DistinctIds cs'
  unfolding modify_first id_in_use
  DistinctIds-occupy [] cs' e f d = ground arith
  DistinctIds-occupy (c ∷ cs) cs' e f d =
      elim (Option-cases (modify_first is_free (occupy true fd new now) cs)) [
        | inl n ↦ ground arith
        | inr (r, n) ↦ ground (
          arith,
          id_in_use-occupy c.id cs r n,
          DistinctIds-occupy cs r n,
          str_eq_iff new c.id,
          str_eq_refl new,
        )
      ]

-- The rounds of `alive_checker` only drop clients, and count each that they drop.
module _ (net : Net) (now : ℕ) where
  pub length-check_clients :
      (cs : List Client) (n : ℤ) → length (check_clients net now cs n).0 ≡ length cs
  unfolding check_clients
  length-check_clients [] n = refl
  length-check_clients (c ∷ cs) n = ap suc (length-check_clients cs (check_client net now c n).1)

  pub count-check_clients :
      (cs : List Client) (k : ℕ) (n : ℤ)
      → n ≡ pos (used_count cs + k)
      → (check_clients net now cs n).1 ≡ pos (used_count (check_clients net now cs n).0 + k)
  unfolding check_clients check_client
  count-check_clients [] k n e = e
  count-check_clients (c ∷ cs) k n e = ground (
    arith,
    count-check_clients cs (k + 1) n,
    count-check_clients cs k n,
    count-check_clients cs k (decrement n),
  )

  pub id_in_use-check_clients :
      (id : Bytes) (cs : List Client) (n : ℤ)
      → id_in_use id cs ≡ false
      → id_in_use id (check_clients net now cs n).0 ≡ false
  unfolding check_clients check_client id_in_use
  id_in_use-check_clients id [] n h = refl
  id_in_use-check_clients id (c ∷ cs) n h =
      ground (arith, id_in_use-check_clients id cs n, id_in_use-check_clients id cs (decrement n))

  pub DistinctIds-check_clients :
      (cs : List Client) (n : ℤ) → DistinctIds cs → DistinctIds (check_clients net now cs n).0
  unfolding check_clients check_client
  DistinctIds-check_clients [] n d = d
  DistinctIds-check_clients (c ∷ cs) n d = ground (
    arith,
    id_in_use-check_clients c.id cs n,
    id_in_use-check_clients c.id cs (decrement n),
    DistinctIds-check_clients cs n,
    DistinctIds-check_clients cs (decrement n),
  )

  pub ShortIds-check_clients :
      (cs : List Client) (n : ℤ) → ShortIds cs → ShortIds (check_clients net now cs n).0
  unfolding check_clients check_client
  ShortIds-check_clients [] n d = d
  ShortIds-check_clients (c ∷ cs) n d =
      ground (arith, ShortIds-check_clients cs n, ShortIds-check_clients cs (decrement n))

-- A write to the field `thread` changes nothing of this.
module _ (t : ℕ) where
  abbrev with_thread : Client → Client
  with_thread c = record c { thread = t }

  pub used_count-set_thread :
      (i : ℕ) (cs : List Client)
      → used_count (set cs i (with_thread (get_or cs i blank))) ≡ used_count cs
  used_count-set_thread i [] = refl
  used_count-set_thread zero (c ∷ cs) = refl
  used_count-set_thread (suc i) (c ∷ cs) = omega (arith, used_count-set_thread i cs)

  pub id_in_use-set_thread :
      (i : ℕ) (id : Bytes) (cs : List Client)
      → id_in_use id (set cs i (with_thread (get_or cs i blank))) ≡ id_in_use id cs
  unfolding id_in_use
  id_in_use-set_thread i id [] = refl
  id_in_use-set_thread zero id (c ∷ cs) = refl
  id_in_use-set_thread (suc i) id (c ∷ cs) = ground (arith, id_in_use-set_thread i id cs)

  pub DistinctIds-set_thread :
      (i : ℕ) (cs : List Client)
      → DistinctIds cs
      → DistinctIds (set cs i (with_thread (get_or cs i blank)))
  DistinctIds-set_thread i [] d = d
  DistinctIds-set_thread zero (c ∷ cs) d = d
  DistinctIds-set_thread (suc i) (c ∷ cs) d =
      ground (arith, id_in_use-set_thread i c.id cs, DistinctIds-set_thread i cs)

  pub ShortIds-set_thread :
      (i : ℕ) (cs : List Client)
      → ShortIds cs
      → ShortIds (set cs i (with_thread (get_or cs i blank)))
  ShortIds-set_thread i [] d = d
  ShortIds-set_thread zero (c ∷ cs) d = d
  ShortIds-set_thread (suc i) (c ∷ cs) d = ground (arith, ShortIds-set_thread i cs)
