-- ===== src/Proxy/Session.antt =====
-- core/proxy/Session.hpp and Session.cpp: one client's connection to its backend. The sockets and the
-- timers are Boost.Asio's: the state holds what was asked of them and the handlers that wait, and an
-- event hands its error code, and what was read, to one of those handlers.
pub mod Flows
pub mod Relay
pub mod Shutdown
use bit_bridge.Prelude.{
  ℕ, zero, suc, ◌+◌, ◌-◌, ltb, if◌then◌else◌, Bool, true, false, List, [], ◌∷◌, ◌++◌, Bytes, length,
  take, drop,
}

abbrev pub buffer_size : ℕ
buffer_size = 8192

-- What one direction of the relay waits for.
pub data Pending : Type 0 where
  idle reading writing : Pending

-- One direction: its buffer, how many bytes of the buffer its last write was given, and two that the
-- program does not keep: all bytes that its reads delivered, and those of its writes that ended well.
pub record Direction : Type 0 where
  pub pending : Pending
  pub buffer : Bytes
  pub given : ℕ
  pub received : Bytes
  pub written : Bytes

-- A timer: the waits whose handler has not run, and whether the last call armed it or cancelled it.
pub record Timer : Type 0 where
  pub waits : ℕ
  pub armed : Bool

pub record Session : Type 0 where
  pub backend : ℕ
  pub connect_timeout_ms : ℕ
  pub idle_timeout_ms : ℕ
  pub connecting : Bool
  pub connect_timer : Timer
  pub idle_timer : Timer
  pub from_client : Direction
  pub from_backend : Direction
  pub client_closed : Bool
  pub backend_closed : Bool
  pub shutting_down : Bool

-- `std::array<char, n>` with the braces of `m_clientBuf{}`.
unfoldable pub zeroes : ℕ → Bytes
zeroes zero = []
zeroes (suc n) = 0 ∷ zeroes n

abbrev pub new_direction : Direction
new_direction = record {
  pending = idle;
  buffer = zeroes buffer_size;
  given = 0;
  received = [];
  written = [];
}

abbrev pub new_timer : Timer
new_timer = record { waits = 0; armed = false }

unfoldable pub make_session : ℕ → ℕ → ℕ → Session
make_session backend connect_timeout_ms idle_timeout_ms = record {
  backend = backend;
  connect_timeout_ms = connect_timeout_ms;
  idle_timeout_ms = idle_timeout_ms;
  connecting = false;
  connect_timer = new_timer;
  idle_timer = new_timer;
  from_client = new_direction;
  from_backend = new_direction;
  client_closed = false;
  backend_closed = false;
  shutting_down = false;
}

-- `expires_after` and `async_wait`.
abbrev pub arm : Timer → Timer
arm t = record { waits = t.waits + 1; armed = true }

abbrev pub cancel : Timer → Timer
cancel t = record t { armed = false }

-- The handler of a wait is about to run.
abbrev pub awake : Timer → Timer
awake t = record t { waits = t.waits - 1 }

unfoldable pub shutdown : Session → Session
shutdown s = if s.shutting_down then s else record s {
  shutting_down = true;
  connect_timer = cancel s.connect_timer;
  idle_timer = cancel s.idle_timer;
  client_closed = true;
  backend_closed = true;
}

-- `ConnectToBackend`, behind the call of `make_address`.
unfoldable pub connect_to_backend : Session → Session
connect_to_backend s = record s { connect_timer = arm s.connect_timer; connecting = true }

unfoldable pub read_from_client : Session → Session
read_from_client s =
    let armed = if ltb 0 s.idle_timeout_ms then record s { idle_timer = arm s.idle_timer } else s in
    record armed { from_client = record armed.from_client { pending = reading } }

unfoldable pub read_from_backend : Session → Session
read_from_backend s = record s { from_backend = record s.from_backend { pending = reading } }

unfoldable pub on_connected : Session → Bool → Session
unfolding shutdown read_from_client read_from_backend
on_connected s ec =
    let quiet = record s { connect_timer = cancel s.connect_timer } in
    if ec then shutdown quiet else read_from_backend (read_from_client quiet)

-- The handler of either timer.
unfoldable pub on_timeout : Session → Bool → Session
unfolding shutdown
on_timeout s ec = if ec then s else shutdown s

-- A read puts its bytes over the first ones of the buffer; behind them the buffer stays.
abbrev pub read_into : Direction → Bytes → Direction
read_into d bytes = record d {
  buffer = bytes ++ drop (length bytes) d.buffer;
  received = d.received ++ bytes;
}

-- `async_write` of the first bytes of the buffer, as many as are named.
abbrev pub write_out : Direction → ℕ → Direction
write_out d bytes = record d { pending = writing; given = bytes }

-- A read that ended well, and the write that its handler starts.
abbrev pub relayed : Direction → Bytes → Direction
relayed d bytes = write_out (read_into d bytes) (length bytes)

unfoldable pub on_client_read : Session → Bool → Bytes → Session
unfolding shutdown
on_client_read s ec bytes =
    if ec then shutdown s else record s { from_client = relayed s.from_client bytes }

unfoldable pub on_backend_written : Session → Bool → Session
unfolding shutdown read_from_client
on_backend_written s ec = if ec then shutdown s else read_from_client s

unfoldable pub on_backend_read : Session → Bool → Bytes → Session
unfolding shutdown
on_backend_read s ec bytes =
    if ec then shutdown s else record s { from_backend = relayed s.from_backend bytes }

unfoldable pub on_client_written : Session → Bool → Session
unfolding shutdown read_from_backend
on_client_written s ec = if ec then shutdown s else read_from_backend s

-- The handlers that may run, each with the error code and the bytes that Asio gives it.
pub data Event : Type 0 where
  connected connect_timeout idle_timeout backend_written client_written : (ec : Bool) → Event
  client_read backend_read : (ec : Bool) (bytes : Bytes) → Event

-- An event may come only where its handler waits.
abbrev pub is_reading : Pending → Bool
is_reading reading = true
is_reading _ = false

abbrev pub is_writing : Pending → Bool
is_writing writing = true
is_writing _ = false

unfoldable pub waits_for : Session → Event → Bool
waits_for s (connected ec) = s.connecting
waits_for s (connect_timeout ec) = ltb 0 s.connect_timer.waits
waits_for s (idle_timeout ec) = ltb 0 s.idle_timer.waits
waits_for s (client_read ec bytes) = is_reading s.from_client.pending
waits_for s (backend_written ec) = is_writing s.from_client.pending
waits_for s (backend_read ec bytes) = is_reading s.from_backend.pending
waits_for s (client_written ec) = is_writing s.from_backend.pending

abbrev settle : Direction → Direction
settle d = record d { pending = idle }

-- A write that ended well has passed on all that it was given.
abbrev wrote : Direction → Bool → Direction
wrote d ec =
    if ec
    then settle d
    else record d { pending = idle; written = d.written ++ take d.given d.buffer }

-- The handler leaves the queue and runs.
unfoldable pub handle : Session → Event → Session
unfolding on_connected on_timeout on_client_read on_backend_written on_backend_read
    on_client_written
handle s (connected ec) = on_connected (record s { connecting = false }) ec
handle s (connect_timeout ec) = on_timeout (record s { connect_timer = awake s.connect_timer }) ec
handle s (idle_timeout ec) = on_timeout (record s { idle_timer = awake s.idle_timer }) ec
handle s (client_read ec bytes) =
    on_client_read (record s { from_client = settle s.from_client }) ec bytes
handle s (backend_written ec) =
    on_backend_written (record s { from_client = wrote s.from_client ec }) ec
handle s (backend_read ec bytes) =
    on_backend_read (record s { from_backend = settle s.from_backend }) ec bytes
handle s (client_written ec) =
    on_client_written (record s { from_backend = wrote s.from_backend ec }) ec

unfoldable pub step : Session → Event → Session
unfolding waits_for handle
step s e = if waits_for s e then handle s e else s

unfoldable pub run : Session → List Event → Session
run s [] = s
run s (e ∷ es) = run (step s e) es

-- How many handlers hold the session by `shared_from_this`; it is destroyed when there are none.
abbrev pub busy : Pending → ℕ
busy idle = 0
busy _ = 1

unfoldable pub handlers : Session → ℕ
handlers s =
    (if s.connecting then 1 else 0)
    + s.connect_timer.waits
    + s.idle_timer.waits
    + busy s.from_client.pending
    + busy s.from_backend.pending
