-- ===== src/ChatUdp/Registration.antt =====
-- Lab 12/server.c: registering, and what becomes of ids that are too long.
use operating_systems_course.Common.{
  ℕ, zero, suc, ◌+◌, ◌≤◌, ◌<◌, ◌≡◌, refl, ap, Bool, true, false, ◌||◌, none, some, List, [], ◌∷◌,
  set, length, take, take_self, Bytes, codes, str_eq, str_eq_iff, str_eq_refl, arith, Bool-cases,
  Option-cases, inl, inr,
}
use operating_systems_course.ChatUdp.Registry.{
  Address, Client, Server, sendto, client_at, find_from, has_id, is_inactive, registered,
  find_client_by_id, register_client,
}
use operating_systems_course.ChatUdp.Table.{ShortIds, IsValid}

-- An active client has that id.
abbrev pub in_use : Bytes → List Client → Bool
in_use id [] = false
in_use id (c ∷ cs) = has_id id c || in_use id cs

-- No two active clients have the same id.
abbrev pub DistinctIds : List Client → Type 0
DistinctIds [] = Unit
DistinctIds (c ∷ cs) = (c.active ≡ true → in_use c.id cs ≡ false) × DistinctIds cs

find_from_iff :
    (id : Bytes) (i : ℕ) (cs : List Client)
    → find_from (has_id id) i cs ≡ none
    → in_use id cs ≡ false
find_from_iff id i [] e = refl
find_from_iff id i (c ∷ cs) e = ground (arith, find_from_iff id (i + 1) cs)

not_found :
    (id : Bytes) (i : ℕ) (cs : List Client)
    → in_use id cs ≡ false
    → find_from (has_id id) i cs ≡ none
not_found id i [] e = refl
not_found id i (c ∷ cs) e = ground (arith, not_found id (i + 1) cs)

-- The slot that the search for a free one finds.
record Free (i : ℕ) (cs : List Client) : Type 0 where
  below : i < length cs
  inactive : (client_at cs i).active ≡ false

find_inactive :
    (from i : ℕ) (cs : List Client)
    → find_from is_inactive from cs ≡ some i
    → (k : ℕ) × (i ≡ from + k) × Free k cs
find_inactive from i [] e = cc
find_inactive from i (c ∷ cs) e = elim (Bool-cases c.active) [
  | inr off ↦ (0, ground arith, ground arith)
  | inl on ↦
      let (k, p, f) = find_inactive (from + 1) i cs (ground arith) in
      (suc k, omega arith, record { below = omega (arith, f.below); inactive = f.inactive })
]

-- Writing an active client over a free slot.
in_use-set :
    (id : Bytes) (cs : List Client) (i : ℕ) (c : Client)
    → Free i cs
    → c.active ≡ true
    → in_use id (set cs i c) ≡ (in_use id cs || str_eq c.id id)
in_use-set id [] i c f a = absurd (omega (arith, f.below))
in_use-set id (d ∷ cs) zero c f a = ground (arith, f.inactive)
in_use-set id (d ∷ cs) (suc i) c f a = ground (
  arith,
  in_use-set id cs i c (record { below = omega (arith, f.below); inactive = f.inactive }) a,
)

DistinctIds-set :
    (cs : List Client) (i : ℕ) (c : Client)
    → Free i cs
    → c.active ≡ true
    → in_use c.id cs ≡ false
    → DistinctIds cs
    → DistinctIds (set cs i c)
DistinctIds-set [] i c f a n d = tt
DistinctIds-set (e ∷ cs) zero c f a n d = ground arith
DistinctIds-set (e ∷ cs) (suc i) c f a n d =
    let g : Free i cs = record { below = omega (arith, f.below); inactive = f.inactive } in
    ground (
      arith,
      in_use-set e.id cs i c g a,
      DistinctIds-set cs i c g a,
      str_eq_iff c.id e.id,
      str_eq_refl c.id,
    )

-- Over a free slot an id that is in use breaks the rule.
set-not_distinct :
    (cs : List Client) (i : ℕ) (c : Client)
    → Free i cs
    → c.active ≡ true
    → in_use c.id cs ≡ true
    → ¬ DistinctIds (set cs i c)
set-not_distinct [] i c f a n d = cc
set-not_distinct (e ∷ cs) zero c f a n d = ground (arith, f.inactive)
set-not_distinct (e ∷ cs) (suc i) c f a n d =
    let g : Free i cs = record { below = omega (arith, f.below); inactive = f.inactive } in
    ground (
      arith,
      in_use-set e.id cs i c g a,
      set-not_distinct cs i c g a,
      str_eq_iff c.id e.id,
      str_eq_iff e.id c.id,
      str_eq_refl c.id,
    )

accepted :
    (now : ℕ) (id : Bytes) (a : Address) (s : Server) (i : ℕ)
    → in_use id s.clients ≡ false
    → find_from is_inactive 0 s.clients ≡ some i
    → register_client now id a s
      ≡ (record s { clients = set s.clients i (registered id a now) }, sendto a (codes "OK") ∷ [])
unfolding register_client find_client_by_id
accepted now id a s i n e = rw (not_found id 0 s.clients n, e, register_client)

found-Free : (i : ℕ) (cs : List Client) → find_from is_inactive 0 cs ≡ some i → Free i cs
found-Free i cs f =
    let (k, p, g) = find_inactive 0 i cs f in let same : i ≡ k = omega (arith, p) in rw same g

too_long : (id : Bytes) (cs : List Client) → ShortIds cs → 31 < length id → in_use id cs ≡ false
too_long id [] k h = refl
too_long id (c ∷ cs) k h = elim (Bool-cases (str_eq c.id id)) [
  | inl e ↦ absurd (omega (arith, k.0, h, ap (λ t. length t) ((str_eq_iff c.id id).0 e)))
  | inr n ↦ ground (arith, too_long id cs k.1 h)
]

pub register_client-DistinctIds :
    (now : ℕ) (id : Bytes) (a : Address) (s : Server)
    → length id ≤ 31
    → DistinctIds s.clients
    → DistinctIds (register_client now id a s).0.clients
unfolding register_client find_client_by_id
register_client-DistinctIds now id a s h d =
    elim (Option-cases (find_from (has_id id) 0 s.clients)) [
      | inr (i, e) ↦ rw (e, register_client) d
      | inl e ↦ elim (Option-cases (find_from is_inactive 0 s.clients)) [
        | inl f ↦ rw (e, f, register_client) d
        | inr (i, f) ↦
            let short : take 31 id ≡ id = take_self 31 id h in
            rw (e, f, register_client)
              (DistinctIds-set s.clients i (registered id a now) (found-Free i s.clients f) refl
                (rw short (find_from_iff id 0 s.clients e)) d)
      ]
    ]

-- An id of more than 31 bytes is compared whole, but stored cut to 31: while a slot is free and a
-- client is active under the cut id, registering is answered with "OK", and afterwards two active
-- clients have the same id.
pub register_client_long :
    (now : ℕ) (id : Bytes) (a : Address) (s : Server) (i : ℕ)
    → IsValid s
    → 31 < length id
    → in_use (take 31 id) s.clients ≡ true
    → find_from is_inactive 0 s.clients ≡ some i
    → ((register_client now id a s).1 ≡ sendto a (codes "OK") ∷ [])
      × (¬ DistinctIds (register_client now id a s).0.clients)
register_client_long now id a s i v h u f =
    let e = accepted now id a s i (too_long id s.clients v.short h) f in
    (
      rw e,
      rw e (set-not_distinct s.clients i (registered id a now) (found-Free i s.clients f) refl u),
    )
