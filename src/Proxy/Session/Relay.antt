-- ===== src/Proxy/Session/Relay.antt =====
-- What core/proxy/Session.cpp relays.
use bit_bridge.Prelude.{
  ℕ, ◌≤◌, ◌≡◌, refl, true, false, List, [], ◌∷◌, ◌++◌, Bytes, length, if◌then◌else◌,
}
use bit_bridge.Proxy.Session.{
  buffer_size, new_direction, Session, make_session, connect_to_backend, Event, connect_timeout,
  idle_timeout, client_read, backend_read, waits_for, step,
}
use bit_bridge.Proxy.Session.Flows.{Flows, Untouched, length-zeroes}

-- A read gives at most as many bytes as its buffer has, as Asio promises.
abbrev pub Fits : Event → Type 0
Fits (client_read ec bytes) = length bytes ≤ buffer_size
Fits (backend_read ec bytes) = length bytes ≤ buffer_size
Fits _ = Unit {0}

-- The bytes that an event delivers, in each direction.
abbrev pub client_bytes : Session → Event → Bytes
client_bytes s (client_read false bytes) =
    if waits_for s (client_read false bytes) then bytes else []
client_bytes s _ = []

abbrev pub backend_bytes : Session → Event → Bytes
backend_bytes s (backend_read false bytes) =
    if waits_for s (backend_read false bytes) then bytes else []
backend_bytes s _ = []

-- What holds between two turns of the event loop.
pub record IsRelaying (s : Session) : Type 0 where
  -- Until the backend is connected, nothing is read or written.
  pub first_connects : s.connecting ≡ true → Untouched s.from_client × Untouched s.from_backend
  pub client_flows : Flows s.shutting_down s.from_client
  pub backend_flows : Flows s.shutting_down s.from_backend
  -- The sockets are closed by `Shutdown`, together and by nothing else.
  pub client_shut : s.client_closed ≡ s.shutting_down
  pub backend_shut : s.backend_closed ≡ s.shutting_down

pub connect_to_backend-IsRelaying :
    (backend connect_timeout idle_timeout : ℕ)
    → IsRelaying (connect_to_backend (make_session backend connect_timeout idle_timeout))
unfolding connect_to_backend make_session
connect_to_backend-IsRelaying b c i =
    let flows : Flows false new_direction = record {
      rest = [];
      begins = refl;
      open_kept = λ h. refl;
      busy_kept = λ h. refl;
      sized = length-zeroes buffer_size;
    } in
    record {
      first_connects = λ h. ((refl, refl, refl), (refl, refl, refl));
      client_flows = flows;
      backend_flows = flows;
      client_shut = refl;
      backend_shut = refl;
    }

-- The bytes that a run delivers, in each direction.
abbrev pub client_stream : Session → List Event → Bytes
client_stream s [] = []
client_stream s (e ∷ es) = client_bytes s e ++ client_stream (step s e) es

abbrev pub backend_stream : Session → List Event → Bytes
backend_stream s [] = []
backend_stream s (e ∷ es) = backend_bytes s e ++ backend_stream (step s e) es
