-- ===== src/ChatMq/Table.antt =====
-- Lab 7/server.c: the invariant of the table.
use operating_systems_course.Common.{
  ℕ, zero, suc, ◌+◌, ◌≤◌, ◌<◌, ◌≡◌, refl, ◌∙◌, Option, none, some, List, [], ◌∷◌, ltb, set, length,
  length-set, Bytes, codes, c_str, starts_with, arith, Bool-cases, Option-cases, inl, inr,
}
use operating_systems_course.ChatMq.Defs.{
  ClientInfo, Server, initial, register_client, queue_name, connect, handle, run,
}

-- The first n clients have their positions as ids, from that number on.
abbrev pub Numbered : ℕ → ℕ → List ClientInfo → Type 0
Numbered from zero cs = Unit
Numbered from (suc n) [] = ⊥
Numbered from (suc n) (c ∷ cs) = (c.client_id ≡ from) × Numbered (suc from) n cs

pub record IsValid (s : Server) : Type 0 where
  pub slots : length s.clients ≡ 10
  pub bounded : s.num_clients ≤ 10
  pub numbered : Numbered 0 s.num_clients s.clients

Numbered-set :
    (from n id q : ℕ) (cs : List ClientInfo)
    → n < length cs
    → id ≡ from + n
    → Numbered from n cs
    → Numbered from (suc n) (set cs n (record { client_queue = q; client_id = id }))
Numbered-set from n id q [] h e k = absurd (omega (arith, h))
Numbered-set from zero id q (c ∷ cs) h e k = (omega (arith, e), tt)
Numbered-set from (suc n) id q (c ∷ cs) h e k =
    (k.0, Numbered-set (suc from) n id q cs (omega (arith, h)) (omega (arith, e)) k.1)

register_client-IsValid : (queue : ℕ) (s : Server) → IsValid s → IsValid (register_client queue s).0
unfolding register_client
register_client-IsValid queue s v = elim (Bool-cases (ltb s.num_clients 10)) [
  | inl room ↦
      let below : s.num_clients < 10 = ground arith in
      let next : s.num_clients + 1 ≡ suc s.num_clients = omega arith in
      rw (room, register_client)
        (record {
          slots = length-set s.clients s.num_clients _ ∙ v.slots;
          bounded = omega (arith, below);
          numbered = rw next (
              Numbered-set 0 s.num_clients s.num_clients queue s.clients
                (omega (arith, below, v.slots)) (omega arith) v.numbered);
        })
  | inr full ↦ rw (full, register_client) v
]

module _ (mq_open : Bytes → Option ℕ) where
  handle-IsValid : (m : Option Bytes) (s : Server) → IsValid s → IsValid (handle mq_open m s).0
  unfolding handle connect
  handle-IsValid none s v = v
  handle-IsValid (some bytes) s v = elim (Bool-cases (starts_with (codes "INIT") (c_str bytes))) [
    | inr other ↦ rw (other, handle) v
    | inl init ↦ elim (Option-cases (queue_name (c_str bytes))) [
      | inl n ↦ rw (init, n, handle, connect) v
      | inr (name, n) ↦ elim (Option-cases (mq_open name)) [
        | inl o ↦ rw (init, n, o, handle, connect) v
        | inr (queue, o) ↦ rw (init, n, o, handle, connect) (register_client-IsValid queue s v)
      ]
    ]
  ]

  run_keeps-IsValid :
      (messages : List (Option Bytes)) (s : Server) → IsValid s → IsValid (run mq_open messages s).0
  unfolding run
  run_keeps-IsValid [] s v = v
  run_keeps-IsValid (m ∷ messages) s v =
      run_keeps-IsValid messages (handle mq_open m s).0 (handle-IsValid m s v)

  -- Whatever messages come and whatever queues can be opened: the table keeps its ten slots, no more
  -- than ten clients are counted, and each has its position in the table as its id.
  pub run_numbers-IsValid :
      (messages : List (Option Bytes)) → IsValid (run mq_open messages initial).0
  run_numbers-IsValid messages =
      run_keeps-IsValid messages initial
        (record { slots = refl; bounded = omega arith; numbered = tt })
