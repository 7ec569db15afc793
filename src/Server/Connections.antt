-- ===== src/Server/Connections.antt =====
-- The number of connections that server/src/server.c counts.

use simple_ftp.Base.{
  ℕ, ◌+◌, ◌-◌, ◌≤◌, ◌<◌, ◌≡◌, refl, Bool, true, false, List, [], ◌∷◌, ltb, leb, if◌then◌else◌,
  Bool-cases, inl, inr, arith, ◌&&◌,
}
use simple_ftp.Server.{
  Server, Event, client_accepted, session_failed, thread_failed, thread_created, client_done,
  is_busy, server_step, server_steps,
}

-- The client that is admitted and has no thread.
abbrev pub waiting : Server → ℕ
waiting s = if s.admitted then 1 else 0

pub record Counted (max_connections : ℕ) (s : Server) : Type 0 where
  pub counted : s.current_connections ≡ s.client_threads + waiting s
  pub bounded : 0 < max_connections → s.current_connections ≤ max_connections

abbrev state : ℕ → ℕ → Bool → Server
state c t a = record { current_connections = c; client_threads = t; admitted = a }

left : (n c t : ℕ) → Counted n (state c t true) → Counted n (state (c - 1) t false)
left n c t v = record {
  counted = omega (arith, v.counted);
  bounded = λ h. omega (arith, v.bounded h);
}

step_of-Counted :
    (n c t : ℕ) (a : Bool) (e : Event)
    → Counted n (state c t a)
    → Counted n (server_step n (state c t a) e)
unfolding server_step is_busy
step_of-Counted n c t true client_accepted v = v
step_of-Counted n c t false client_accepted v = elim (Bool-cases (ltb 0 n && leb n c)) [
  | inl busy ↦ rw busy v
  | inr room ↦ rw room (record {
    counted = omega (arith, v.counted);
    bounded = λ h. ground (arith, v.bounded h, room, h);
  })
]
step_of-Counted n c t true session_failed v = left n c t v
step_of-Counted n c t false session_failed v = v
step_of-Counted n c t true thread_failed v = left n c t v
step_of-Counted n c t false thread_failed v = v
step_of-Counted n c t true thread_created v = record {
  counted = omega (arith, v.counted);
  bounded = v.bounded;
}
step_of-Counted n c t false thread_created v = v
step_of-Counted n c t a client_done v = elim (Bool-cases (ltb 0 t)) [
  | inl some_thread ↦ rw some_thread (record {
    counted = ground (arith, v.counted, some_thread);
    bounded = λ h. omega (arith, v.bounded h);
  })
  | inr no_thread ↦ rw no_thread v
]

step-Counted : (n : ℕ) (s : Server) (e : Event) → Counted n s → Counted n (server_step n s e)
step-Counted n s e v = step_of-Counted n s.current_connections s.client_threads s.admitted e v

steps-Counted :
    (n : ℕ) (s : Server) (es : List Event) → Counted n s → Counted n (server_steps n s es)
unfolding server_steps
steps-Counted n s [] v = v
steps-Counted n s (e ∷ es) v = steps-Counted n (server_step n s e) es (step-Counted n s e v)

-- A server that has no clients.
abbrev pub no_clients : Server
no_clients = record { current_connections = 0; client_threads = 0; admitted = false }

-- In any interleaving of the accept loop with the ends of client threads, also when sessions or threads
-- cannot be made, the counter is the number of client threads with the client that is being admitted,
-- and with a limit there are never more than that.
pub connections_counted :
    (max_connections : ℕ) (es : List Event)
    → let s = server_steps max_connections no_clients es in
      (s.current_connections ≡ s.client_threads + waiting s)
      × (0 < max_connections → s.client_threads ≤ max_connections)
connections_counted max_connections es =
    let v =
      steps-Counted max_connections no_clients es
        (record { counted = refl; bounded = λ h. omega arith }) in
    (v.counted, λ h. omega (arith, v.counted, v.bounded h))
