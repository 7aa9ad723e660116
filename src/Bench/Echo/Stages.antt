-- ===== src/Bench/Echo/Stages.antt =====
-- What a connection of an echo service of bench/main.cpp has been sent at each stage.
use mathlib.Core.Path.{subst}
use bit_bridge.Prelude.{
  if◌then◌else◌, ℕ, suc, ◌≡◌, refl, sym, Bool, true, false, List, [], ◌∷◌, Bytes, get_elem?, All,
  All-append, All-get_elem?, All-set, ℤ, inl, inr, Bool-cases, Option-cases,
}
use bit_bridge.Bench.Echo.{
  response, Stage, reading, delaying, writing, dropped, closed, Conn, EchoService, Event, accepted,
  read_done, timer, written, on_accept, send_response, is_positive, on_read, on_written,
  handle_read, handle_timer, handle_written, at_conn, step, run,
}

-- What has been sent at a stage: nothing, or one response. Only a service with a delay delays.
abbrev pub Answered : ℤ → Stage → Bytes → Type 0
Answered delay_ms reading sent = sent ≡ []
Answered delay_ms delaying sent = (sent ≡ []) × (is_positive delay_ms ≡ true)
Answered delay_ms writing sent = sent ≡ response
Answered delay_ms dropped sent = sent ≡ []
Answered delay_ms closed sent = sent ≡ response

abbrev pub IsAnswered : ℤ → Conn → Type 0
IsAnswered delay_ms c = Answered delay_ms c.stage c.sent

send_response-IsAnswered :
    (delay_ms : ℤ) (c : Conn) → c.sent ≡ [] → IsAnswered delay_ms (send_response c)
unfolding send_response
send_response-IsAnswered delay_ms c h = rw h refl

on_read-IsAnswered :
    (failed : Bool) (delay_ms : ℤ) (c : Conn)
    → c.sent ≡ []
    → IsAnswered delay_ms (on_read failed delay_ms c)
unfolding on_read
on_read-IsAnswered true delay_ms c h = h
on_read-IsAnswered false delay_ms c h = elim (Bool-cases (is_positive delay_ms)) [
  | inl delay ↦ rw delay (h, delay)
  | inr at_once ↦ rw at_once (send_response-IsAnswered delay_ms c h)
]

handle_read-IsAnswered :
    (failed : Bool) (delay_ms : ℤ) (c : Conn) (stage : Stage)
    → c.stage ≡ stage
    → Answered delay_ms stage c.sent
    → IsAnswered delay_ms (handle_read failed delay_ms c stage)
unfolding handle_read
handle_read-IsAnswered failed delay_ms c reading e h = on_read-IsAnswered failed delay_ms c h
handle_read-IsAnswered failed delay_ms c delaying e h = rw e h
handle_read-IsAnswered failed delay_ms c writing e h = rw e h
handle_read-IsAnswered failed delay_ms c dropped e h = rw e h
handle_read-IsAnswered failed delay_ms c closed e h = rw e h

handle_timer-IsAnswered :
    (delay_ms : ℤ) (c : Conn) (stage : Stage)
    → c.stage ≡ stage
    → Answered delay_ms stage c.sent
    → IsAnswered delay_ms (handle_timer c stage)
unfolding handle_timer
handle_timer-IsAnswered delay_ms c delaying e h = send_response-IsAnswered delay_ms c h.0
handle_timer-IsAnswered delay_ms c reading e h = rw e h
handle_timer-IsAnswered delay_ms c writing e h = rw e h
handle_timer-IsAnswered delay_ms c dropped e h = rw e h
handle_timer-IsAnswered delay_ms c closed e h = rw e h

handle_written-IsAnswered :
    (delay_ms : ℤ) (c : Conn) (stage : Stage)
    → c.stage ≡ stage
    → Answered delay_ms stage c.sent
    → IsAnswered delay_ms (handle_written c stage)
unfolding handle_written on_written
handle_written-IsAnswered delay_ms c writing e h = h
handle_written-IsAnswered delay_ms c reading e h = rw e h
handle_written-IsAnswered delay_ms c delaying e h = rw e h
handle_written-IsAnswered delay_ms c dropped e h = rw e h
handle_written-IsAnswered delay_ms c closed e h = rw e h

-- The clients that are accepted: a failed accept is the last one.
abbrev pub served : List Event → ℕ
served [] = 0
served (accepted true ∷ es) = 0
served (accepted false ∷ es) = suc (served es)
served (_ ∷ es) = served es

pub record IsServing (delay_ms : ℤ) (s : EchoService) : Type 0 where
  pub same_delay : s.delay_ms ≡ delay_ms
  pub answered : All (IsAnswered delay_ms) s.conns

at_conn-IsServing :
    (delay_ms : ℤ) (i : ℕ) (f : Conn → Conn) (s : EchoService)
    → ((c : Conn) → IsAnswered delay_ms c → IsAnswered delay_ms (f c))
    → IsServing delay_ms s
    → IsServing delay_ms (at_conn i f s)
at_conn-IsServing delay_ms i f s keep v = elim (Option-cases (get_elem? s.conns i)) [
  | inl none_there ↦ rw (none_there, at_conn) v
  | inr (c, there) ↦
      rw (there, at_conn)
        (record {
          same_delay = v.same_delay;
          answered =
              All-set (IsAnswered delay_ms) s.conns i v.answered
                (keep c (All-get_elem? (IsAnswered delay_ms) s.conns i v.answered there));
        })
]

accept-IsServing :
    (delay_ms : ℤ) (waits failed : Bool) (s : EchoService)
    → IsServing delay_ms s
    → IsServing delay_ms (if waits then on_accept failed s else s)
unfolding on_accept
accept-IsServing delay_ms false failed s v = v
accept-IsServing delay_ms true true s v = record {
  same_delay = v.same_delay;
  answered = v.answered;
}
accept-IsServing delay_ms true false s v = record {
  same_delay = v.same_delay;
  answered = All-append (IsAnswered delay_ms) s.conns _ v.answered (refl, tt);
}

step-IsServing :
    (delay_ms : ℤ) (e : Event) (s : EchoService)
    → IsServing delay_ms s
    → IsServing delay_ms (step e s)
unfolding step
step-IsServing delay_ms (accepted failed) s v = accept-IsServing delay_ms s.accepting failed s v
step-IsServing delay_ms (read_done i failed) s v =
    at_conn-IsServing delay_ms i _ s
      (λ c h.
        subst (λ d. IsAnswered delay_ms (handle_read failed d c c.stage)) (sym v.same_delay)
          (handle_read-IsAnswered failed delay_ms c c.stage refl h))
      v
step-IsServing delay_ms (timer i) s v =
    at_conn-IsServing delay_ms i _ s (λ c h. handle_timer-IsAnswered delay_ms c c.stage refl h) v
step-IsServing delay_ms (written i) s v =
    at_conn-IsServing delay_ms i _ s (λ c h. handle_written-IsAnswered delay_ms c c.stage refl h) v

pub run-IsServing :
    (delay_ms : ℤ) (es : List Event) (s : EchoService)
    → IsServing delay_ms s
    → IsServing delay_ms (run es s)
unfolding run
run-IsServing delay_ms [] s v = v
run-IsServing delay_ms (e ∷ es) s v =
    run-IsServing delay_ms es (step e s) (step-IsServing delay_ms e s v)
