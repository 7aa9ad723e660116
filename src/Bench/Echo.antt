-- ===== src/Bench/Echo.antt =====
-- `EchoService` of bench/main.cpp: the acceptor, and the connections with what was handed to their sockets.
pub mod Stages
pub mod Answers
use bit_bridge.Prelude.{
  ℕ, zero, suc, Bool, true, false, if◌then◌else◌, List, [], ◌∷◌, ◌++◌, Bytes, codes, format_nat,
  get_elem?, set, Option, none, some, ℤ, pos, negsuc,
}

abbrev pub http_response_body_bytes : ℕ
http_response_body_bytes = 128

-- `std::string(n, 'x')`
abbrev pub repeated : ℕ → Bytes
repeated zero = []
repeated (suc n) = b'x' ∷ repeated n

-- The text of `SendResponse`, with a body of so many bytes.
unfoldable pub response_of : ℕ → Bytes
response_of n =
    codes "HTTP/1.1 200 OK\r\nContent-Length: "
    ++ (format_nat n ++ (codes "\r\nConnection: close\r\n\r\n" ++ repeated n))

unfoldable pub response : Bytes
response = response_of http_response_body_bytes

-- What a connection waits for, or how it ended: its read failed, or its response was written and its socket closed.
pub data Stage : Type 0 where
  reading delaying writing dropped closed : Stage

pub record Conn : Type 0 where
  pub stage : Stage
  pub sent : Bytes

-- `accepting`: an accept waits.
pub record EchoService : Type 0 where
  pub delay_ms : ℤ
  pub accepting : Bool
  pub conns : List Conn

-- The constructor, where the acceptor listens.
unfoldable pub make_echo : ℤ → EchoService
make_echo delay_ms = record { delay_ms = delay_ms; accepting = true; conns = [] }

-- An operation ends, with an error or without; a delay and a write go on in either case.
pub data Event : Type 0 where
  accepted : Bool → Event
  read_done : ℕ → Bool → Event
  timer written : ℕ → Event

unfoldable pub on_accept : Bool → EchoService → EchoService
on_accept failed s =
    if failed
    then record s { accepting = false }
    else record s { conns = s.conns ++ record { stage = reading; sent = [] } ∷ [] }

unfoldable pub send_response : Conn → Conn
send_response c = record { stage = writing; sent = c.sent ++ response }

abbrev pub is_positive : ℤ → Bool
is_positive (pos zero) = false
is_positive (pos (suc n)) = true
is_positive (negsuc n) = false

unfoldable pub on_read : Bool → ℤ → Conn → Conn
unfolding send_response
on_read failed delay_ms c =
    if failed
    then record c { stage = dropped }
    else if is_positive delay_ms
    then record c { stage = delaying }
    else send_response c

unfoldable pub on_written : Conn → Conn
on_written c = record c { stage = closed }

-- The handler that waits in a connection at this stage runs; no other does.
unfoldable pub handle_read : Bool → ℤ → Conn → Stage → Conn
unfolding on_read
handle_read failed delay_ms c reading = on_read failed delay_ms c
handle_read failed delay_ms c _ = c

unfoldable pub handle_timer : Conn → Stage → Conn
unfolding send_response
handle_timer c delaying = send_response c
handle_timer c _ = c

unfoldable pub handle_written : Conn → Stage → Conn
unfolding on_written
handle_written c writing = on_written c
handle_written c _ = c

abbrev pub at_conn : ℕ → (Conn → Conn) → EchoService → EchoService
at_conn i f s = elim (get_elem? s.conns i) [
  | none ↦ s
  | some c ↦ record s { conns = set s.conns i (f c) }
]

-- A turn of the event loop.
unfoldable pub step : Event → EchoService → EchoService
unfolding on_accept handle_read handle_timer handle_written
step (accepted failed) s = if s.accepting then on_accept failed s else s
step (read_done i failed) s = at_conn i (λ c. handle_read failed s.delay_ms c c.stage) s
step (timer i) s = at_conn i (λ c. handle_timer c c.stage) s
step (written i) s = at_conn i (λ c. handle_written c c.stage) s

unfoldable pub run : List Event → EchoService → EchoService
unfolding step
run [] s = s
run (e ∷ es) s = run es (step e s)
