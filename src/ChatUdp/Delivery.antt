-- ===== src/ChatUdp/Delivery.antt =====
-- Lab 12/server.c: where a private message goes, and what becomes of a client that stops.
use operating_systems_course.Common.{
  ℕ, zero, suc, ◌+◌, ◌≡◌, refl, ap, ◌∙◌, true, false, some, List, [], ◌∷◌, ◌++◌, set, Bytes, codes,
  str_eq_iff, strtok-append, strtok-all, Avoids, arith,
}
use operating_systems_course.ChatUdp.Registry.{
  Address, Client, Server, sendto, client_at, has_id, find_from, find_client_by_id, stop_client,
}
use operating_systems_course.ChatUdp.Messages.{
  format_message, send_private_message, private_effects, answer,
}
use operating_systems_course.ChatUdp.Registration.{in_use, DistinctIds}

in_use-client_at :
    (id : Bytes) (cs : List Client) (i : ℕ)
    → (client_at cs i).active ≡ true
    → (client_at cs i).id ≡ id
    → in_use id cs ≡ true
in_use-client_at id [] i a e = cc
in_use-client_at id (c ∷ cs) zero a e = ground (arith, str_eq_iff c.id id)
in_use-client_at id (c ∷ cs) (suc i) a e = ground (arith, in_use-client_at id cs i a e)

find_from-client_at :
    (id : Bytes) (from i : ℕ) (cs : List Client)
    → DistinctIds cs
    → (client_at cs i).active ≡ true
    → (client_at cs i).id ≡ id
    → find_from (has_id id) from cs ≡ some (from + i)
find_from-client_at id from i [] d a e = cc
find_from-client_at id from zero (c ∷ cs) d a e =
    let same : from ≡ from + 0 = omega arith in ground (arith, str_eq_iff c.id id, same)
find_from-client_at id from (suc i) (c ∷ cs) d a e =
    let later = in_use-client_at id cs i a e in
    let other : has_id id c ≡ false = ground (arith, str_eq_iff c.id id, later, d) in
    let moved : suc from + i ≡ from + suc i = omega arith in
    let one : from + 1 ≡ suc from = omega arith in
    rw (other, one) (find_from-client_at id (suc from) i cs d.1 a e ∙ ap some moved)

-- While ids are distinct: a client's "2ONE" with the id of an active client, which has no '|' in it,
-- and a message sends one datagram, to that client's address, with the sender's id and the time; the
-- table stays as it is.
pub answer_private :
    (stamp : Bytes) (j i : ℕ) (a : Address) (s : Server) (c : ℕ) (r : Bytes) (d : ℕ) (m : Bytes)
    → DistinctIds s.clients
    → (client_at s.clients i).active ≡ true
    → (client_at s.clients i).id ≡ c ∷ r
    → Avoids (codes "|") (c ∷ r)
    → answer stamp j (codes "2ONE|" ++ ((c ∷ r) ++ (codes "|" ++ (d ∷ m)))) a s ≡ (
      s,
      sendto
            (client_at s.clients i).addr
            (format_message (codes "MSGONE") (client_at s.clients j).id stamp (d ∷ m))
          ∷ [],
    )
unfolding answer private_effects send_private_message find_client_by_id
answer_private stamp j i a s c r d m h on e v =
    let found : find_from (has_id (c ∷ r)) 0 s.clients ≡ some i =
      find_from-client_at (c ∷ r) 0 i s.clients h on e ∙ ap some (omega arith) in
    let first = strtok-append (codes "|") c r (d ∷ m) 124 refl v in
    let second = strtok-all d m in
    rw (answer, private_effects, first, second, send_private_message, find_client_by_id, found)

in_use-vacated :
    (id : Bytes) (cs : List Client) (i : ℕ)
    → DistinctIds cs
    → (client_at cs i).active ≡ true
    → (client_at cs i).id ≡ id
    → in_use id (set cs i (record (client_at cs i) { active = false })) ≡ false
in_use-vacated id [] i d a e = refl
in_use-vacated id (c ∷ cs) zero d a e =
    let free : in_use id cs ≡ false = rw e at (d.0 a) in ground arith
in_use-vacated id (c ∷ cs) (suc i) d a e =
    let later = in_use-client_at id cs i a e in
    let other : has_id id c ≡ false = ground (arith, str_eq_iff c.id id, later, d) in
    rw (other, in_use-vacated id cs i d.1 a e)

-- While ids are distinct, an active client that sends "STOP" gets no answer, and its id is then free
-- to be registered again.
pub answer_stop :
    (stamp : Bytes) (i : ℕ) (a : Address) (s : Server)
    → DistinctIds s.clients
    → (client_at s.clients i).active ≡ true
    → ((answer stamp i (codes "STOP") a s).1 ≡ [])
      × (in_use (client_at s.clients i).id (answer stamp i (codes "STOP") a s).0.clients ≡ false)
unfolding answer stop_client
answer_stop stamp i a s d on =
    (refl, in_use-vacated (client_at s.clients i).id s.clients i d on refl)
