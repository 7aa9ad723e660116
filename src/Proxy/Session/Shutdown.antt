-- ===== src/Proxy/Session/Shutdown.antt =====
-- How a session of core/proxy/Session.cpp ends.
use bit_bridge.Prelude.{
  ℕ, zero, suc, ◌+◌, ◌≤◌, ◌<◌, ◌≡◌, refl, ap, ◌∙◌, Bool, true, false, not, List, [], ◌∷◌, Bytes,
  length, arith, ◌⊎◌, inl, inr, All, ltb, lt→ltb, Bool-cases, dec_lt,
}
use bit_bridge.Proxy.Session.{
  Pending, idle, reading, writing, Session, shutdown, Event, connected, connect_timeout,
  idle_timeout, backend_written, client_written, client_read, backend_read, waits_for, step, run,
  handlers,
}

-- The error code of an event.
abbrev pub error_code : Event → Bool
error_code (connected ec) = ec
error_code (connect_timeout ec) = ec
error_code (idle_timeout ec) = ec
error_code (backend_written ec) = ec
error_code (client_written ec) = ec
error_code (client_read ec bytes) = ec
error_code (backend_read ec bytes) = ec

-- A failed operation, or a timer that ran out.
abbrev pub is_fatal : Event → Bool
is_fatal (connect_timeout ec) = not ec
is_fatal (idle_timeout ec) = not ec
is_fatal e = error_code e

-- `Shutdown` takes effect once: it closes both sockets and cancels both timers, and a second call
-- changes nothing.
pub shutdown_twice : (s : Session) → shutdown (shutdown s) ≡ shutdown s
unfolding shutdown
shutdown_twice s = ground arith

-- A failed connect, read or write and a timer that runs out shut the session down, and no event ever
-- takes that back.
pub step-shutting_down :
    (s : Session) (e : Event)
    → (waits_for s e ≡ true → is_fatal e ≡ true → (step s e).shutting_down ≡ true)
      × (s.shutting_down ≡ true → (step s e).shutting_down ≡ true)
unfolding step
step-shutting_down s (connected ec) = ground arith
step-shutting_down s e = ground arith

-- A handler that is given an error starts nothing: the session has one handler less.
handlers-step_failed :
    (s : Session) (e : Event)
    → waits_for s e ≡ true
    → error_code e ≡ true
    → handlers (step s e) + 1 ≡ handlers s
unfolding step handlers
handlers-step_failed s (connected ec) h f = ground arith
handlers-step_failed s e h f = ground arith

-- Events that come one after another, each to a handler that waits, each with an error.
abbrev pub Failing : Session → List Event → Type 0
Failing s [] = Unit {0}
Failing s (e ∷ es) = (waits_for s e ≡ true) × (error_code e ≡ true) × Failing (step s e) es

handlers-run-Failing :
    (s : Session) (es : List Event) → Failing s es → handlers (run s es) + length es ≡ handlers s
unfolding run
handlers-run-Failing s [] f = omega arith
handlers-run-Failing s (e ∷ es) (waits, failed, rest) =
    omega (arith, handlers-run-Failing (step s e) es rest, handlers-step_failed s e waits failed)

-- As long as a handler holds the session, one is there to be given an error.
Pending-cases : (p : Pending) → (p ≡ idle) ⊎ ((p ≡ reading) ⊎ (p ≡ writing))
Pending-cases idle = inl refl
Pending-cases reading = inr (inl refl)
Pending-cases writing = inr (inr refl)

failing_event :
    (s : Session) → 0 < handlers s → (e : Event) × (waits_for s e ≡ true) × (error_code e ≡ true)
unfolding waits_for handlers
failing_event s h = elim (Bool-cases s.connecting) [
  | inl c ↦ (connected true, c, refl)
  | inr c ↦ elim (dec_lt 0 s.connect_timer.waits) [
    | yes w ↦ (connect_timeout true, lt→ltb _ _ w, refl)
    | no w ↦ elim (dec_lt 0 s.idle_timer.waits) [
      | yes i ↦ (idle_timeout true, lt→ltb _ _ i, refl)
      | no i ↦ elim (Pending-cases s.from_client.pending) [
        | inr (inl r) ↦ (client_read true [], ground arith, refl)
        | inr (inr r) ↦ (backend_written true, ground arith, refl)
        | inl r ↦ elim (Pending-cases s.from_backend.pending) [
          | inr (inl q) ↦ (backend_read true [], ground arith, refl)
          | inr (inr q) ↦ (client_written true, ground arith, refl)
          | inl q ↦ absurd (ground arith)
        ]
      ]
    ]
  ]
]

abbrev Drain : Session → ℕ → Type 0
Drain s n = (es : List Event) × Failing s es × (length es ≡ n) × (handlers (run s es) ≡ 0)

drain : (s : Session) (n : ℕ) → handlers s ≡ n → Drain s n
unfolding run
drain s zero h = ([], tt, refl, h)
drain s (suc n) h =
    let (e, waits, failed) = failing_event s (omega arith) in
    let (es, f, l, z) = drain (step s e) n (omega (arith, handlers-step_failed s e waits failed)) in
    (e ∷ es, (waits, failed, f), ap suc l, z)

-- Once the sockets are closed and every pending operation ends in an error, a session drains: no sequence of
-- failing events is longer than the number of handlers, and each can be continued, by as many as are left,
-- until none is left, so that nothing holds the session any more and it is destroyed.
pub session_drains :
    (s : Session) (es : List Event)
    → Failing s es
    → (length es ≤ handlers s)
      × ((more : List Event) × Failing (run s es) more
          × (length more ≡ handlers (run s es))
          × (handlers (run (run s es) more) ≡ 0))
session_drains s es f =
    (omega (arith, handlers-run-Failing s es f), drain (run s es) (handlers (run s es)) refl)

-- The traffic of a client that only receives.
abbrev pub IsDownload : Event → Type 0
IsDownload (backend_read false bytes) = Unit {0}
IsDownload (client_written false) = Unit {0}
IsDownload _ = ⊥

idle_timer-step_download :
    (s : Session) (e : Event) → IsDownload e → (step s e).idle_timer ≡ s.idle_timer
unfolding step
idle_timer-step_download s (connected ec) h = absurd h
idle_timer-step_download s (connect_timeout ec) h = absurd h
idle_timer-step_download s (idle_timeout ec) h = absurd h
idle_timer-step_download s (backend_written ec) h = absurd h
idle_timer-step_download s (client_read ec bytes) h = absurd h
idle_timer-step_download s (backend_read true bytes) h = absurd h
idle_timer-step_download s (client_written true) h = absurd h
idle_timer-step_download s (backend_read false bytes) h = ground arith
idle_timer-step_download s (client_written false) h = ground arith

idle_timer-run_download :
    (s : Session) (es : List Event) → All IsDownload es → (run s es).idle_timer ≡ s.idle_timer
unfolding run
idle_timer-run_download s [] h = refl
idle_timer-run_download s (e ∷ es) h =
    idle_timer-run_download (step s e) es h.1 ∙ idle_timer-step_download s e h.0

-- The idle timer follows the client alone. Bytes that the backend sends neither arm it, nor cancel it, nor
-- add a wait: a session in which a wait of the timer stands open, and then a download of any length is
-- relayed, has the timer as it was, and is shut down when that wait runs out.
pub idle_timeout_in_download :
    (s : Session) (es : List Event)
    → 0 < s.idle_timer.waits
    → All IsDownload es
    → ((run s es).idle_timer ≡ s.idle_timer)
      × ((step (run s es) (idle_timeout false)).shutting_down ≡ true)
unfolding waits_for
idle_timeout_in_download s es h d =
    let same = idle_timer-run_download s es d in
    let waits : ltb 0 (run s es).idle_timer.waits ≡ true = lt→ltb _ _ (rw same h) in
    (same, (step-shutting_down (run s es) (idle_timeout false)).0 waits refl)

-- With an idle timeout, a write to the backend that ends well after `Shutdown` arms the idle timer again,
-- and the failed read that follows does not cancel it. The session is held by one more wait of the timer,
-- in place of the write.
pub idle_timer_after_shutdown :
    (s : Session) (bytes : Bytes)
    → s.shutting_down ≡ true
    → 0 < s.idle_timeout_ms
    → s.from_client.pending ≡ writing
    → let s' = run s (backend_written false ∷ client_read true bytes ∷ []) in
      (s'.idle_timer.armed ≡ true)
      × (s'.idle_timer.waits ≡ s.idle_timer.waits + 1)
      × (s'.shutting_down ≡ true)
      × (handlers s' ≡ handlers s)
unfolding run step handlers
idle_timer_after_shutdown s bytes h i w = ground arith
