-- ===== src/Proxy/TcpProxy.antt =====
-- core/proxy/TcpProxy.hpp and TcpProxy.cpp: the accept loop, and the sessions that it has started.
-- The acceptor and the sockets are Boost.Asio's: an event is a handler that runs. `make_address` is
-- Asio's parser of addresses, as a test: the call throws `system_error` where it refuses.
pub mod Accepting
pub mod Lists
pub mod Counts
pub mod Addresses
pub mod Runs
use mathlib.Core.Option
use bit_bridge.Prelude.{
  ℕ, zero, suc, ◌+◌, ◌-◌, ltb, ◌==◌, if◌then◌else◌, Bool, true, false, List, [], ◌∷◌, Bytes,
  get_elem?, set, Option, none, some, Outcome, returns, throws, system_error, value, unexpected,
  ◌>>=◌,
}
use bit_bridge.Model.Node.{ServiceNode}
use bit_bridge.State.Service.{ServiceState, increment_connections, decrement_connections}
use bit_bridge.State.Pool.{ServicePool, get_service}
use bit_bridge.Routing.Strategy.{RoutingStrategy, Selection}
use bit_bridge.Proxy.Session
use bit_bridge.Proxy.Session.{Session, make_session, connect_to_backend, handlers}

-- `sessions` are those that a handler still holds, `accepting` the accepts whose handler has not run,
-- and `routing` the state of the strategy.
pub record TcpProxy (St : Type 0) : Type 0 where
  pub pool : ServicePool
  pub routing : St
  pub sessions : List Session
  pub accepting : ℕ
  pub is_open : Bool
  pub connect_timeout_ms : ℕ
  pub idle_timeout_ms : ℕ

-- A call through the reference to a service of the pool.
unfoldable pub modify : ServicePool → ℕ → (ServiceState → ServiceState) → ServicePool
modify [] i f = []
modify (s ∷ pool) zero f = f s ∷ pool
modify (s ∷ pool) (suc i) f = s ∷ modify pool i f

unfoldable pub remove : List Session → ℕ → List Session
remove [] i = []
remove (s ∷ sessions) zero = sessions
remove (s ∷ sessions) (suc i) = s ∷ remove sessions i

-- What Asio gives the handler of an accept: the error of a closed acceptor, another error, or the
-- client's socket with its remote address, which is `none` where asking for it throws.
pub data Accept : Type 0 where
  operation_aborted accept_error : Accept
  client : (address : Option Bytes) → Accept

pub data Event : Type 0 where
  on_accepted : Accept → Event
  on_session : (index : ℕ) (e : Session.Event) → Event

module _ {St : Type 0} where
  unfoldable pub accept_next : TcpProxy St → TcpProxy St
  accept_next p = record p { accepting = p.accepting + 1 }

  unfoldable pub start : TcpProxy St → TcpProxy St
  unfolding accept_next
  start p = accept_next p

  unfoldable pub stop : TcpProxy St → TcpProxy St
  stop p = record p { is_open = false }

  -- A handler of a session runs. The session is destroyed with the last of its handlers, and its
  -- destructor takes it off its backend's counter.
  unfoldable pub handle_session : TcpProxy St → ℕ → Session.Event → TcpProxy St
  unfolding modify remove
  handle_session p i e = elim (get_elem? p.sessions i) [
    | none ↦ p
    | some s ↦
        if handlers (Session.step s e) == 0
        then record p {
          sessions = remove p.sessions i;
          pool = modify p.pool s.backend decrement_connections;
        }
        else record p { sessions = set p.sessions i (Session.step s e) }
  ]

module _ (strategy : RoutingStrategy) (make_address : Bytes → Bool) where
  -- The session counts before it starts, and its start throws where the address is refused.
  unfoldable pub open_session : TcpProxy strategy.State → ℕ → Outcome (TcpProxy strategy.State)
  unfolding modify accept_next
  open_session p i = do
    backend ← get_service p.pool i
    if make_address backend.node.ip
        then returns (
            accept_next (record p {
              pool = modify p.pool i increment_connections;
              sessions =
                  connect_to_backend (make_session i p.connect_timeout_ms p.idle_timeout_ms)
                  ∷ p.sessions;
            }))
        else throws system_error

  unfoldable pub on_selected :
      TcpProxy strategy.State
      → Outcome (Selection × strategy.State)
      → Outcome (TcpProxy strategy.State)
  unfolding open_session accept_next
  on_selected p (throws x) = throws x
  on_selected p (returns (unexpected e, st)) = returns (accept_next (record p { routing = st }))
  on_selected p (returns (value i, st)) = open_session (record p { routing = st }) i

  -- `none` where the strategy has not returned.
  unfoldable pub on_accept :
      TcpProxy strategy.State → Accept → Option (Outcome (TcpProxy strategy.State))
  unfolding on_selected accept_next
  on_accept p operation_aborted = some (returns p)
  on_accept p accept_error = some (returns (accept_next p))
  on_accept p (client none) = some (throws system_error)
  on_accept p (client (some key)) =
      Option.map (on_selected p) (strategy.select_service p.routing p.pool key)

  -- One turn of the event loop. An accept comes only where its handler waits.
  unfoldable pub step : TcpProxy strategy.State → Event → Option (Outcome (TcpProxy strategy.State))
  unfolding on_accept handle_session
  step p (on_accepted a) =
      if ltb 0 p.accepting
      then on_accept (record p { accepting = p.accepting - 1 }) a
      else some (returns p)
  step p (on_session i e) = some (returns (handle_session p i e))

  unfoldable pub run :
      TcpProxy strategy.State → List Event → Option (Outcome (TcpProxy strategy.State))
  run p [] = some (returns p)
  run p (e ∷ es) = elim (step p e) [
    | none ↦ none
    | some (throws x) ↦ some (throws x)
    | some (returns q) ↦ run q es
  ]
