-- ===== src/ChatTcp/Invariant.antt =====
-- Lab 11/server.c: every run of the threads keeps the table valid.
use operating_systems_course.Common.{
  ℕ, zero, suc, ◌≡◌, refl, false, some, List, [], ◌∷◌, ◌++◌, ◌==◌, get_elem?, set, Bytes, arith,
  Bool-cases, inl, inr, Option-cases,
}
use operating_systems_course.ChatTcp.Registry.{
  Server, id_in_use, Net, accept_client, Spawn, handle_signal,
}
use operating_systems_course.ChatTcp.Session.{Received}
use operating_systems_course.ChatTcp.System.{
  System, Thread, Phase, greeting, serving, leaving, finished, Event, connect, wake, stop_seen,
  alive, interrupt, start, connected, thread_step, woken, saw_stop, step, run,
}
use operating_systems_course.ChatTcp.Table.{IsValid}
use operating_systems_course.ChatTcp.Steps.{
  accept_client-IsValid, alive_round-IsValid, greet-IsValid, remove_client-IsValid, serve-IsValid,
}

-- The kernel gives no connection the descriptor 0, which is the standard input.
abbrev pub LiveThreads : List Thread → Type 0
LiveThreads [] = Unit
LiveThreads (t ∷ ts) = ((t.client_socket == 0) ≡ false) × LiveThreads ts

abbrev pub LiveEvents : List Event → Type 0
LiveEvents [] = Unit
LiveEvents (connect fd outcome ∷ es) = ((fd == 0) ≡ false) × LiveEvents es
LiveEvents (e ∷ es) = LiveEvents es

thread_step-IsValid :
    (net : Net) (now : ℕ) (stamp : Bytes) (received : Received) (fd : ℕ) (p : Phase) (s : Server)
    → (fd == 0) ≡ false
    → IsValid s
    → IsValid (thread_step net now stamp received fd p s).0
unfolding thread_step
thread_step-IsValid net now stamp received fd greeting s l v =
    greet-IsValid net now fd l received s v
thread_step-IsValid net now stamp received fd (serving id) s l v =
    serve-IsValid net now stamp fd id received s v
thread_step-IsValid net now stamp received fd leaving s l v = remove_client-IsValid fd s l v
thread_step-IsValid net now stamp received fd finished s l v = v

LiveThreads-append :
    (ts : List Thread) (t : Thread)
    → LiveThreads ts
    → (t.client_socket == 0) ≡ false
    → LiveThreads (ts ++ t ∷ [])
LiveThreads-append [] t l h = (h, tt)
LiveThreads-append (u ∷ ts) t l h = (l.0, LiveThreads-append ts t l.1 h)

LiveThreads-set :
    (ts : List Thread) (i : ℕ) (t : Thread)
    → LiveThreads ts
    → (t.client_socket == 0) ≡ false
    → LiveThreads (set ts i t)
LiveThreads-set [] i t l h = tt
LiveThreads-set (u ∷ ts) zero t l h = (h, l.1)
LiveThreads-set (u ∷ ts) (suc i) t l h = (l.0, LiveThreads-set ts i t l.1 h)

LiveThreads-get :
    (ts : List Thread) (i : ℕ) (t : Thread)
    → LiveThreads ts
    → get_elem? ts i ≡ some t
    → (t.client_socket == 0) ≡ false
LiveThreads-get [] i t l e = cc
LiveThreads-get (u ∷ ts) zero t l e = ground arith
LiveThreads-get (u ∷ ts) (suc i) t l e = LiveThreads-get ts i t l.1 e

pub record IsSound (y : System) : Type 0 where
  pub table : IsValid y.server
  pub live : LiveThreads y.threads

connected-IsSound :
    (fd : ℕ) (outcome : Spawn) (y : System)
    → (fd == 0) ≡ false
    → IsSound y
    → IsSound (connected fd outcome y).0
unfolding connected
connected-IsSound fd outcome y h k = record {
  table = accept_client-IsValid fd outcome y.server k.table;
  live = elim (Bool-cases (accept_client fd outcome y.server).2) [
    | inl made ↦ rw made (LiveThreads-append y.threads _ k.live h)
    | inr lost ↦ rw lost k.live
  ];
}

woken-IsSound :
    (i : ℕ) (net : Net) (now : ℕ) (stamp : Bytes) (received : Received) (y : System)
    → IsSound y
    → IsSound (woken i net now stamp received y).0
unfolding woken
woken-IsSound i net now stamp received y k = elim (Option-cases (get_elem? y.threads i)) [
  | inl n ↦ rw (n, woken) k
  | inr (t, n) ↦
      let l : (t.client_socket == 0) ≡ false = LiveThreads-get y.threads i t k.live n in
      rw (n, woken)
        (record {
          table =
              thread_step-IsValid net now stamp received t.client_socket t.phase y.server l k.table;
          live = LiveThreads-set y.threads i _ k.live l;
        })
]

saw_stop-IsSound : (i : ℕ) (y : System) → IsSound y → IsSound (saw_stop i y)
unfolding saw_stop
saw_stop-IsSound i y k = elim (Option-cases (get_elem? y.threads i)) [
  | inl n ↦ rw (n, saw_stop) k
  | inr (t, n) ↦
      rw (n, saw_stop)
        (record {
          table = k.table;
          live = LiveThreads-set y.threads i _ k.live (LiveThreads-get y.threads i t k.live n);
        })
]

handle_signal-IsValid : (s : Server) → IsValid s → IsValid (handle_signal s)
unfolding handle_signal
handle_signal-IsValid s v = record {
  slots = v.slots;
  counted = v.counted;
  distinct = v.distinct;
  short = v.short;
}

initial-IsSound : IsSound start
unfolding id_in_use
initial-IsSound = record {
  table = record { slots = refl; counted = refl; distinct = ground arith; short = omega arith };
  live = tt;
}

run_keeps-IsSound :
    (es : List Event) (y : System) → LiveEvents es → IsSound y → IsSound (run es y).0
unfolding run step
run_keeps-IsSound [] y l k = k
run_keeps-IsSound (connect fd outcome ∷ es) y l k =
    run_keeps-IsSound es _ l.1 (connected-IsSound fd outcome y l.0 k)
run_keeps-IsSound (wake i net now stamp received ∷ es) y l k =
    run_keeps-IsSound es _ l (woken-IsSound i net now stamp received y k)
run_keeps-IsSound (stop_seen i ∷ es) y l k = run_keeps-IsSound es _ l (saw_stop-IsSound i y k)
run_keeps-IsSound (alive net now ∷ es) y l k =
    run_keeps-IsSound es _ l
      (record { table = alive_round-IsValid net now y.server k.table; live = k.live })
run_keeps-IsSound (interrupt ∷ es) y l k =
    run_keeps-IsSound es _ l
      (record { table = handle_signal-IsValid y.server k.table; live = k.live })

-- However the threads of the server interleave, and whatever their calls return, as long as no
-- connection gets descriptor 0: the table keeps its ten slots, `client_count` is the number of
-- slots in use, no two slots in use have the same id, and every id fits its array.
pub run-IsValid : (es : List Event) → LiveEvents es → IsValid (run es start).0.server
run-IsValid es l = (run_keeps-IsSound es start l initial-IsSound).table
