-- ===== src/Tests/Proxy.antt =====
-- The proxy and its sessions of core/proxy on small inputs.
use bit_bridge.Prelude.{
  ℕ, zero, suc, ◌+◌, ◌-◌, ◌≤◌, ◌≡◌, ◌≢◌, ◌⊎◌, refl, List, [], ◌∷◌, codes, true, false, get_elem?,
  some, length, arith,
}
use bit_bridge.Model.Node.{is_valid_ipv4}
use bit_bridge.State.Service.{ServiceState}
use bit_bridge.Routing.Ring.Sort.{Point}
use bit_bridge.Routing.Strategies.{ring_strategy}
use bit_bridge.Proxy.Session
use bit_bridge.Proxy.Session.{
  Session, make_session, new_direction, idle, reading, writing, handlers, connected,
  connect_timeout, idle_timeout, client_read, backend_read, backend_written, client_written,
}
use bit_bridge.Proxy.Session.Shutdown.{
  Failing, session_drains, idle_timeout_in_download, idle_timer_after_shutdown,
}
use bit_bridge.Proxy.TcpProxy.{
  TcpProxy, Event, step, on_accepted, on_session, client, accept_error, operation_aborted,
}
use bit_bridge.Proxy.TcpProxy.Accepting.{Undecided, Dropped, Chosen, on_accept_client, accept_loop}
use bit_bridge.Proxy.TcpProxy.Runs.{IsServing, IsPrompt}
use bit_bridge.Tests.{state_of, node_a, node_b, two_services, small_ring}
use bit_bridge.Tests.Routing.{small_ring-Fits}

abbrev pub listening : TcpProxy (List Point)
listening = record {
  pool = two_services;
  routing = small_ring;
  sessions = [];
  accepting = 1;
  is_open = true;
  connect_timeout_ms = 5000;
  idle_timeout_ms = 30000;
}

prompt : IsPrompt ring_strategy is_valid_ipv4
prompt ring pool key fits e = absurd (cc)

two_services-counts :
    (i : ℕ) (b : ServiceState) → get_elem? two_services i ≡ some b → b.active_connections ≡ 0
two_services-counts zero b e = let same : state_of node_a 0 true ≡ b = cc in rw (← same) refl
two_services-counts (suc zero) b e = let same : state_of node_b 0 true ≡ b = cc in rw (← same) refl
two_services-counts (suc (suc i)) b e = absurd (cc)

pub listening-IsServing : IsServing ring_strategy is_valid_ipv4 listening
unfolding is_valid_ipv4
listening-IsServing = record {
  counted = record { counts = two_services-counts; backends = tt; held = tt };
  fits = small_ring-Fits;
  addressed = (refl, (refl, tt));
}

-- Two clients, one of which loses its backend at once.
abbrev turns : List Event
turns =
    on_accepted (client (some (codes "10.1.1.1")))
    ∷ on_accepted (client (some (codes "10.1.1.2")))
    ∷ on_accepted accept_error
    ∷ on_session 0 (connected true)
    ∷ on_session 0 (connect_timeout true)
    ∷ []

on_accept_client_example :
    Undecided ring_strategy is_valid_ipv4 listening (codes "10.1.1.1")
    ⊎ (Dropped ring_strategy is_valid_ipv4 listening (codes "10.1.1.1")
        ⊎ Chosen ring_strategy is_valid_ipv4 listening (codes "10.1.1.1"))
on_accept_client_example =
    on_accept_client ring_strategy is_valid_ipv4 listening (codes "10.1.1.1") small_ring-Fits

accept_loop_example :
    ((on_accepted accept_error ≢ on_accepted operation_aborted) × (1 ≡ listening.accepting))
    ⊎ ((on_accepted accept_error ≡ on_accepted operation_aborted)
        × (listening ≡ record listening { accepting = listening.accepting - 1 }))
unfolding step
accept_loop_example =
    accept_loop ring_strategy is_valid_ipv4 listening listening (on_accepted accept_error)
      small_ring-Fits refl

abbrev relaying : Session
relaying = record (make_session 1 5000 30000) {
  idle_timer = record { waits = 1; armed = true };
  from_client = record new_direction { pending = reading };
  from_backend = record new_direction { pending = reading };
}

abbrev exchange : List Session.Event
exchange =
    connected false
    ∷ client_read false (1 ∷ 2 ∷ [])
    ∷ backend_read false (3 ∷ [])
    ∷ client_written false
    ∷ backend_written false
    ∷ backend_read false (4 ∷ [])
    ∷ []

-- The read from the client fails.
abbrev failed : List Session.Event
failed = client_read true [] ∷ []

session_drains_example :
    (1 ≤ handlers relaying)
    × ((more : List Session.Event) × Failing (Session.run relaying failed) more
        × (length more ≡ handlers (Session.run relaying failed))
        × (handlers (Session.run (Session.run relaying failed) more) ≡ 0))
session_drains_example = session_drains relaying failed (unfold Session.waits_for in refl, refl, tt)

abbrev download : List Session.Event
download = backend_read false (1 ∷ []) ∷ client_written false ∷ backend_read false (2 ∷ []) ∷ []

idle_timeout_in_download_example :
    ((Session.run relaying download).idle_timer ≡ relaying.idle_timer)
    × ((Session.step (Session.run relaying download) (idle_timeout false)).shutting_down ≡ true)
unfolding make_session
idle_timeout_in_download_example =
    idle_timeout_in_download relaying download (omega arith) (tt, (tt, (tt, tt)))

abbrev ending : Session
ending = record relaying {
  shutting_down = true;
  idle_timeout_ms = 30000;
  from_client = record new_direction { pending = writing };
}

idle_timer_after_shutdown_example :
    let s' = Session.run ending (backend_written false ∷ client_read true [] ∷ []) in
    (s'.idle_timer.armed ≡ true)
    × (s'.idle_timer.waits ≡ ending.idle_timer.waits + 1)
    × (s'.shutting_down ≡ true)
    × (handlers s' ≡ handlers ending)
idle_timer_after_shutdown_example = idle_timer_after_shutdown ending [] refl (omega arith) refl
