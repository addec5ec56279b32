-- ===== src/ChatTcp/Steps.antt =====
-- Lab 11/server.c: every handler of the server keeps the table valid.
use operating_systems_course.Common.{
  ℕ, ◌≤◌, ◌≡◌, refl, true, false, none, some, List, ◌==◌, if◌then◌else◌, length, get_or, Bytes,
  codes, ℤ, pos, negsuc, increment, decrement, at_least, length-set, arith, Bool-cases, inl, inr,
  Option-cases, length-take, drop, c_str, starts_with,
}
use operating_systems_course.ChatTcp.Registry.{
  Client, Server, is_free, has_socket, vacate, occupy, modify_first, id_in_use, Net, blank,
  set_thread, max_clients, remove_client, claim_slot, register_client, touch_client, alive_round,
  accept_client, start_thread, Spawn, no_memory, no_thread, spawned,
}
use operating_systems_course.ChatTcp.Session.{
  Received, requested_id, greet, greet_with, serve, dispatch,
}
use operating_systems_course.ChatTcp.Table.{
  IsValid, Shrinks, length-modify_first, used_count-vacate, DistinctIds-modify_first,
  ShortIds-modify_first, used_count-modify_first,
}
use operating_systems_course.ChatTcp.Slots.{
  used_count-occupy, DistinctIds-occupy, length-check_clients, count-check_clients,
  DistinctIds-check_clients, ShortIds-check_clients, used_count-set_thread, DistinctIds-set_thread,
  ShortIds-set_thread,
}

vacate-Shrinks : (fd : ℕ) → Shrinks (has_socket fd) vacate
vacate-Shrinks fd c p q = ground arith

pub remove_client-IsValid :
    (fd : ℕ) (s : Server) → (fd == 0) ≡ false → IsValid s → IsValid (remove_client fd s).0
unfolding remove_client
remove_client-IsValid fd s p v =
    elim (Option-cases (modify_first (has_socket fd) vacate s.clients)) [
      | inl n ↦ rw (n, remove_client) v
      | inr (cs, n) ↦
          rw (n, remove_client)
            (record {
              slots = ground (arith, length-modify_first (has_socket fd) vacate s.clients cs n);
              counted = ground (arith, used_count-vacate fd s.clients cs p n);
              distinct =
                  DistinctIds-modify_first (has_socket fd) vacate s.clients cs (vacate-Shrinks fd) n
                    v.distinct;
              short =
                  ShortIds-modify_first (has_socket fd) vacate s.clients cs (λ c h. omega arith) n
                    v.short;
            })
    ]

module _ (net : Net) (now fd : ℕ) (id : Bytes) (live : (fd == 0) ≡ false)
    (fits : length id ≤ 31) where
  claimed-IsValid :
      (s : Server) (cs : List Client)
      → modify_first is_free (occupy true fd id now) s.clients ≡ some cs
      → id_in_use id s.clients ≡ false
      → IsValid s
      → IsValid (record s { clients = cs; client_count = increment s.client_count })
  claimed-IsValid s cs n f v = record {
    slots = ground (arith, length-modify_first is_free (occupy true fd id now) s.clients cs n);
    counted = ground (arith, used_count-occupy fd id now live s.clients cs n);
    distinct = DistinctIds-occupy fd id now live s.clients cs n f v.distinct;
    short =
        ShortIds-modify_first is_free (occupy true fd id now) s.clients cs (λ c h. fits) n v.short;
  }

  -- The slot is free again after a reply that could not be sent.
  unclaimed-IsValid :
      (s : Server) (cs : List Client)
      → modify_first is_free (occupy false fd id now) s.clients ≡ some cs
      → IsValid s
      → IsValid (record s { clients = cs; client_count = decrement (increment s.client_count) })
  unclaimed-IsValid s cs n v = record {
    slots = ground (arith, length-modify_first is_free (occupy false fd id now) s.clients cs n);
    counted = ground (
      arith,
      used_count-modify_first is_free (occupy false fd id now) s.clients cs (λ c p. ground arith) n,
    );
    distinct =
        DistinctIds-modify_first is_free (occupy false fd id now) s.clients cs
          (λ c p q. ground arith) n v.distinct;
    short =
        ShortIds-modify_first is_free (occupy false fd id now) s.clients cs (λ c h. fits) n v.short;
  }

  claim_slot-IsValid :
      (s : Server)
      → id_in_use id s.clients ≡ false
      → IsValid s
      → IsValid (claim_slot net now fd id s).0
  unfolding claim_slot
  claim_slot-IsValid s f v = elim (Bool-cases (net fd (codes "OK"))) [
    | inl sent ↦ elim (Option-cases (modify_first is_free (occupy true fd id now) s.clients)) [
      | inl n ↦ rw (sent, n, claim_slot) v
      | inr (cs, n) ↦ rw (sent, n, claim_slot) (rw sent (claimed-IsValid s cs n f v))
    ]
    | inr lost ↦ elim (Option-cases (modify_first is_free (occupy false fd id now) s.clients)) [
      | inl n ↦ rw (lost, n, claim_slot) v
      | inr (cs, n) ↦ rw (lost, n, claim_slot) (rw lost (unclaimed-IsValid s cs n v))
    ]
  ]

  pub register_client-IsValid :
      (s : Server) → IsValid s → IsValid (register_client net now fd id s).0
  unfolding register_client
  register_client-IsValid s v = elim (Bool-cases (id_in_use id s.clients)) [
    | inl old ↦ rw old v
    | inr new ↦ rw new (claim_slot-IsValid s new v)
  ]

pub touch_client-IsValid : (now fd : ℕ) (s : Server) → IsValid s → IsValid (touch_client now fd s)
unfolding touch_client
touch_client-IsValid now fd s v =
    elim (Option-cases (modify_first (has_socket fd) seen s.clients)) [
      | inl n ↦ rw n v
      | inr (cs, n) ↦ rw n (record {
        slots = ground (arith, length-modify_first (has_socket fd) seen s.clients cs n);
        counted =
            ground
              (arith, used_count-modify_first (has_socket fd) seen s.clients cs (λ c p. refl) n);
        distinct =
            DistinctIds-modify_first (has_socket fd) seen s.clients cs (λ c p q. (q, refl)) n
              v.distinct;
        short = ShortIds-modify_first (has_socket fd) seen s.clients cs (λ c h. h) n v.short;
      })
    ]
  where
    seen : Client → Client
    seen c = record c { last_active = now }

pub alive_round-IsValid :
    (net : Net) (now : ℕ) (s : Server) → IsValid s → IsValid (alive_round net now s).0
unfolding alive_round
alive_round-IsValid net now s v = record {
  slots = ground (arith, length-check_clients net now s.clients s.client_count);
  counted = ground (arith, count-check_clients net now s.clients 0 s.client_count);
  distinct = DistinctIds-check_clients net now s.clients s.client_count v.distinct;
  short = ShortIds-check_clients net now s.clients s.client_count v.short;
}

threaded-IsValid :
    (i : ℤ) (t : ℕ) (s : Server)
    → IsValid s
    → IsValid (record s { clients = set_thread i t s.clients })
threaded-IsValid (negsuc i) t s v = v
threaded-IsValid (pos i) t s v = record {
  slots = ground (arith, length-set s.clients i (record (get_or s.clients i blank) { thread = t }));
  counted = ground (arith, used_count-set_thread t i s.clients);
  distinct = DistinctIds-set_thread t i s.clients v.distinct;
  short = ShortIds-set_thread t i s.clients v.short;
}

start_thread-IsValid :
    (fd : ℕ) (outcome : Spawn) (s : Server) → IsValid s → IsValid (start_thread fd outcome s).0
unfolding start_thread
start_thread-IsValid fd no_memory s v = v
start_thread-IsValid fd (no_thread t) s v = threaded-IsValid s.client_count t s v
start_thread-IsValid fd (spawned t) s v = threaded-IsValid s.client_count t s v

pub accept_client-IsValid :
    (fd : ℕ) (outcome : Spawn) (s : Server) → IsValid s → IsValid (accept_client fd outcome s).0
unfolding accept_client
accept_client-IsValid fd outcome s v = elim (Bool-cases (at_least max_clients s.client_count)) [
  | inl full ↦ rw (full, accept_client) v
  | inr room ↦ rw (room, accept_client) (start_thread-IsValid fd outcome s v)
]

length-requested_id : (buffer : Bytes) → length (requested_id buffer) ≤ 31
length-requested_id buffer = omega (arith, length-take 31 (drop 5 buffer))

module _ (net : Net) (now fd : ℕ) (live : (fd == 0) ≡ false) where
  greet_with-IsValid :
      (buffer : Bytes) (s : Server) → IsValid s → IsValid (greet_with net now fd buffer s).0
  unfolding greet_with
  greet_with-IsValid buffer s v = elim (Bool-cases (starts_with (codes "REGI|") buffer)) [
    | inl good ↦
        rw (good, greet_with)
          (register_client-IsValid net now fd (requested_id buffer) live
            (length-requested_id buffer) s v)
    | inr bad ↦ rw (bad, greet_with) v
  ]

  pub greet-IsValid :
      (received : Received) (s : Server) → IsValid s → IsValid (greet net now fd received s).0
  unfolding greet
  greet-IsValid none s v = v
  greet-IsValid (some bytes) s v = greet_with-IsValid (c_str bytes) s v

module _ (net : Net) (now : ℕ) (stamp : Bytes) (fd : ℕ) (id : Bytes) where
  -- Of the commands only PONG changes the state.
  pub dispatch-state :
      (buffer : Bytes) (s : Server)
      → (dispatch net now stamp fd id buffer s).0
        ≡ (if starts_with (codes "PONG") buffer then touch_client now fd s else s)
  unfolding dispatch
  dispatch-state buffer s = ground arith

  pub serve-IsValid :
      (received : Received) (s : Server)
      → IsValid s
      → IsValid (serve net now stamp fd id received s).0
  unfolding serve
  serve-IsValid none s v = v
  serve-IsValid (some bytes) s v = elim (Bool-cases (starts_with (codes "PONG") (c_str bytes))) [
    | inl pong ↦ rw (dispatch-state, pong) (touch_client-IsValid now fd s v)
    | inr other ↦ rw (dispatch-state, other) v
  ]
