-- ===== src/Bench/Echo/Answers.antt =====
-- What the echo services of bench/main.cpp answer.
use native.Mathlib.Nat.{zero-add}
use mathlib.Core.Path.{subst}
use mathlib.Core.Option
use bit_bridge.Prelude.{
  get_elem?-set_self, lt-get_elem?, ℕ, ◌+◌, ◌≡◌, refl, sym, ap, ◌∙◌, true, false, List, [], ◌∷◌,
  ◌++◌, Bytes, length, length-append, length-set, get_elem?, All, All-get_elem?, Option, none, some,
  ℤ, inl, inr, Bool-cases, Option-cases, arith,
}
use bit_bridge.Bench.Echo.{
  response, Stage, reading, delaying, writing, dropped, closed, Conn, EchoService, make_echo, Event,
  accepted, read_done, timer, written, on_accept, send_response, is_positive, on_read, on_written,
  handle_read, handle_timer, handle_written, at_conn, step, run,
}
use bit_bridge.Bench.Echo.Stages.{IsAnswered, Answered, served, run-IsServing}

length-at_conn :
    (i : ℕ) (f : Conn → Conn) (s : EchoService)
    → (length (at_conn i f s).conns ≡ length s.conns) × ((at_conn i f s).accepting ≡ s.accepting)
length-at_conn i f s = elim (Option-cases (get_elem? s.conns i)) [
  | inl none_there ↦ rw (none_there, at_conn) (refl, refl)
  | inr (c, there) ↦ rw (there, at_conn) (length-set s.conns i (f c), refl)
]

refusing :
    (es : List Event) (s : EchoService)
    → s.accepting ≡ false
    → length (run es s).conns ≡ length s.conns
unfolding run step
refusing [] s off = refl
refusing (accepted failed ∷ es) s off = ground (arith, refusing es s off)
refusing (read_done i failed ∷ es) s off =
    let (same, still) = length-at_conn i (λ c. handle_read failed s.delay_ms c c.stage) s in
    refusing es _ (still ∙ off) ∙ same
refusing (timer i ∷ es) s off =
    let (same, still) = length-at_conn i (λ c. handle_timer c c.stage) s in
    refusing es _ (still ∙ off) ∙ same
refusing (written i ∷ es) s off =
    let (same, still) = length-at_conn i (λ c. handle_written c c.stage) s in
    refusing es _ (still ∙ off) ∙ same

run-served :
    (es : List Event) (s : EchoService)
    → s.accepting ≡ true
    → length (run es s).conns ≡ length s.conns + served es
unfolding run step on_accept
run-served [] s on = omega arith
run-served (accepted true ∷ es) s on =
    ground (arith, refusing es (record s { accepting = false }) refl)
run-served (accepted false ∷ es) s on =
    let s' = record s { conns = s.conns ++ record { stage = reading; sent = [] } ∷ [] } in
    ground (
      arith,
      run-served es s' on,
      length-append s.conns (record { stage = reading; sent = [] } ∷ []),
    )
run-served (read_done i failed ∷ es) s on =
    let (same, still) = length-at_conn i (λ c. handle_read failed s.delay_ms c c.stage) s in
    run-served es _ (still ∙ on) ∙ ap (λ n. n + served es) same
run-served (timer i ∷ es) s on =
    let (same, still) = length-at_conn i (λ c. handle_timer c c.stage) s in
    run-served es _ (still ∙ on) ∙ ap (λ n. n + served es) same
run-served (written i ∷ es) s on =
    let (same, still) = length-at_conn i (λ c. handle_written c c.stage) s in
    run-served es _ (still ∙ on) ∙ ap (λ n. n + served es) same

-- The turns of a connection whose read succeeds, with the timer's, which is idle without a delay.
abbrev pub exchange : ℕ → List Event
exchange i = read_done i false ∷ timer i ∷ written i ∷ []

-- What becomes of a connection then: one that was dropped stays so.
abbrev pub completed : Conn → Conn
completed c = elim c.stage [ dropped ↦ c | _ ↦ record { stage = closed; sent = response } ]

-- Its three handlers, one after the other.
abbrev after_turns : ℤ → Conn → Conn
after_turns delay_ms c =
    let d = handle_read false delay_ms c c.stage in
    let e = handle_timer d d.stage in handle_written e e.stage

after_turns_lem :
    (delay_ms : ℤ) (stage : Stage) (sent : Bytes)
    → Answered delay_ms stage sent
    → after_turns delay_ms (record { stage = stage; sent = sent })
      ≡ completed (record { stage = stage; sent = sent })
unfolding handle_read on_read handle_timer send_response handle_written on_written
after_turns_lem delay_ms reading sent h = elim (Bool-cases (is_positive delay_ms)) [
  | inl delay ↦ rw (delay, h) refl
  | inr at_once ↦ rw (at_once, h) refl
]
after_turns_lem delay_ms delaying sent h = rw h.0 refl
after_turns_lem delay_ms writing sent h = rw h refl
after_turns_lem delay_ms dropped sent h = refl
after_turns_lem delay_ms closed sent h = rw h refl

at_conn-get_elem? :
    (i : ℕ) (f : Conn → Conn) (s : EchoService) (o : Option Conn)
    → get_elem? s.conns i ≡ o
    → get_elem? (at_conn i f s).conns i ≡ Option.map f o
at_conn-get_elem? i f s none none_there = rw (none_there, at_conn) none_there
at_conn-get_elem? i f s (some c) there =
    rw (there, at_conn) (get_elem?-set_self s.conns i (f c) (lt-get_elem? s.conns i there))

run-exchange :
    (i : ℕ) (s : EchoService) (o : Option Conn)
    → get_elem? s.conns i ≡ o
    → All (IsAnswered s.delay_ms) s.conns
    → get_elem? (run (exchange i) s).conns i ≡ Option.map completed o
unfolding run step
run-exchange i s none there h =
    at_conn-get_elem? i _ _ none (at_conn-get_elem? i _ _ none (at_conn-get_elem? i _ s none there))
run-exchange i s (some c) there h =
    at_conn-get_elem? i _ _ (some _)
      (at_conn-get_elem? i _ _ (some _) (at_conn-get_elem? i _ s (some c) there))
    ∙ ap some (
        after_turns_lem s.delay_ms c.stage c.sent
          (All-get_elem? (IsAnswered s.delay_ms) s.conns i h there))

-- An echo service over any turns, from its start. It has one connection for each client that was accepted, a
-- failed accept being the last; a connection has been sent nothing while its request is read or delayed, which
-- only a service with a delay does, and nothing if the read failed, and the response, once, if it is
-- being written or the socket is closed. And its own turns, if its read succeeds, close a connection with the
-- response, with a delay or without, unless its read failed before.
pub echo_answers :
    (delay_ms : ℤ) (es : List Event) (i : ℕ)
    → All (IsAnswered delay_ms) (run es (make_echo delay_ms)).conns
      × (length (run es (make_echo delay_ms)).conns ≡ served es)
      × (get_elem? (run (exchange i) (run es (make_echo delay_ms))).conns i
          ≡ Option.map completed (get_elem? (run es (make_echo delay_ms)).conns i))
unfolding make_echo
echo_answers delay_ms es i =
    let start = make_echo delay_ms in
    let last = run es start in
    let serving = run-IsServing delay_ms es start (record { same_delay = refl; answered = tt }) in
    (
      serving.answered,
      run-served es start refl ∙ zero-add (served es),
      run-exchange i last (get_elem? last.conns i) refl
          (subst (λ d. All (IsAnswered d) last.conns) (sym serving.same_delay) serving.answered),
    )
