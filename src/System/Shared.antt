-- ===== src/System/Shared.antt =====
-- The pool that the proxy and the health checker of core/main.cpp share.
use mathlib.Core.Option
use bit_bridge.Health.Probes.{Inside-size, SameLoad}
use bit_bridge.Proxy.TcpProxy.Addresses.{Addressed, Addressed-get_elem?}
use bit_bridge.Prelude.{
  ℕ, suc, ◌<◌, ◌≡◌, refl, sym, ap, ◌∙◌, Bool, true, false, List, [], ◌∷◌, Bytes, All, Option, none,
  some, arith,
}
use bit_bridge.State.Pool.{ServicePool, pool_size}
use bit_bridge.Routing.Strategy.{RoutingStrategy}
use bit_bridge.Health.Checker
use bit_bridge.Health.Checker.{HealthChecker, Probe}
use bit_bridge.Health.Rounds.{Accepted}
use bit_bridge.Health.Runs.{IsSound, stop-IsSound}
use bit_bridge.Proxy.Session.{Session}
use bit_bridge.Proxy.TcpProxy
use bit_bridge.Proxy.TcpProxy.{TcpProxy}
use bit_bridge.Proxy.TcpProxy.Counts.{Counted}
use bit_bridge.Proxy.TcpProxy.Runs.{IsServing}
use bit_bridge.System.{System, of_checker, of_listener, on_signal}

module _ (make_address : Bytes → Bool) where
  Accepted-Addressed :
      (pool : ServicePool) → Accepted make_address pool → Addressed make_address pool
  Accepted-Addressed [] h = tt
  Accepted-Addressed (s ∷ pool) h = (h 0 s refl, Accepted-Addressed pool (λ j t e. h (suc j) t e))

  pub Addressed-Accepted :
      (pool : ServicePool) → Addressed make_address pool → Accepted make_address pool
  Addressed-Accepted pool h j s e = Addressed-get_elem? make_address pool j h e

backends-size :
    (m n : ℕ) (sessions : List Session)
    → m ≡ n
    → All (λ s. s.backend < n) sessions
    → All (λ s. s.backend < m) sessions
backends-size m n [] e h = tt
backends-size m n (s ∷ sessions) e h = (omega arith, backends-size m n sessions e h.1)

SameLoad-Counted :
    (pool pool' : ServicePool) (sessions : List Session)
    → SameLoad pool pool'
    → Counted pool sessions
    → Counted pool' sessions
SameLoad-Counted pool pool' sessions l c = record {
  counts = λ i b e. let (a, found, load, _) = l.same i b e in load ∙ c.counts i a found;
  backends = backends-size (pool_size pool') (pool_size pool) sessions l.size c.backends;
  held = c.held;
}

pub mapped :
    {A B : Type 0} {f : A → B} (o : Option A) (b : B)
    → Option.map f o ≡ some b
    → (a : A) × (o ≡ some a) × (b ≡ f a)
mapped none b e = absurd (cc)
mapped (some a) b e = (a, refl, cc)

module _ (strategy : RoutingStrategy) (make_address : Bytes → Bool) where
  abbrev Whole : Type 0
  Whole = System strategy.State

  -- The proxy serves, and the checker, if there is one, is sound and holds the same pool.
  pub record IsRunning (s : Whole) : Type 0 where
    pub serving : IsServing strategy make_address s.proxy
    pub checked :
        (c : HealthChecker) → s.checker ≡ some c → (c.pool ≡ s.proxy.pool) × IsSound make_address c

  IsSound-pool :
      (c : HealthChecker) (pool : ServicePool)
      → pool_size pool ≡ pool_size c.pool
      → Addressed make_address pool
      → IsSound make_address c
      → IsSound make_address (record c { pool = pool })
  IsSound-pool c pool size h v = record {
    accepted = Addressed-Accepted make_address pool h;
    inside = Inside-size c.pool pool c.probes size v.inside;
  }

  pub of_listener-IsRunning :
      (s : Whole) (q : TcpProxy strategy.State)
      → IsServing strategy make_address q
      → pool_size q.pool ≡ pool_size s.proxy.pool
      → IsRunning s
      → IsRunning (of_listener s q)
  unfolding of_listener
  of_listener-IsRunning s q vq size v = record {
    serving = vq;
    checked = λ c e.
        let (d, held, same) = mapped s.checker _ e in
        let (pool, sound) = v.checked d held in
        (
          rw same refl,
          rw same (IsSound-pool d q.pool (size ∙ ap pool_size (sym pool)) vq.addressed sound),
        );
  }

  pub of_checker-IsRunning :
      (s : Whole) (c d : HealthChecker)
      → s.checker ≡ some c
      → IsSound make_address d
      → SameLoad c.pool d.pool
      → IsRunning s
      → IsRunning (of_checker s d)
  unfolding of_checker
  of_checker-IsRunning s c d e vd load v =
      let (pool, _) = v.checked c e in
      let from_proxy : SameLoad s.proxy.pool d.pool = rw pool at load in
      record {
        serving = record {
          counted =
              SameLoad-Counted s.proxy.pool d.pool s.proxy.sessions from_proxy v.serving.counted;
          fits = rw from_proxy.size v.serving.fits;
          addressed = Accepted-Addressed make_address d.pool vd.accepted;
        };
        checked = λ x f. let same : d ≡ x = cc in rw (← same) (refl, vd);
      }

  pub on_signal-IsRunning : (s : Whole) (ec : Bool) → IsRunning s → IsRunning (on_signal s ec)
  unfolding on_signal TcpProxy.stop
  on_signal-IsRunning s true v = v
  on_signal-IsRunning s false v = record {
    serving = record {
      counted = v.serving.counted;
      fits = v.serving.fits;
      addressed = v.serving.addressed;
    };
    checked = λ c e.
        let (d, held, same) = mapped s.checker _ e in
        let (pool, sound) = v.checked d held in
        (rw same (unfold Checker.stop in pool), rw same (stop-IsSound make_address d sound));
  }
