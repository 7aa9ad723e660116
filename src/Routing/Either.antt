-- ===== src/Routing/Either.antt =====
-- `std::unique_ptr<IRoutingStrategy>` of core/main.cpp, which holds a strategy of one of two kinds.
use mathlib.Core.Option
use bit_bridge.Prelude.{
  ℕ, ◌≡◌, ◌≢◌, Bytes, Option, none, some, Outcome, returns, throws, Exception, value, ◌⊎◌, inl, inr,
}
use bit_bridge.State.Pool.{ServicePool, pool_size}
use bit_bridge.Routing.Strategy.{RoutingStrategy, Selection, HealthyAt}

-- A pointer to an `IRoutingStrategy` of either kind.
module _ (a b : RoutingStrategy) where
  abbrev pub EitherState : Type 0
  EitherState = a.State ⊎ b.State

  abbrev pub EitherFits : EitherState → ℕ → Type 0
  EitherFits (inl st) n = a.Fits st n
  EitherFits (inr st) n = b.Fits st n

  abbrev pub tagged :
      {A : Type 0} → (A → EitherState) → Outcome (Selection × A) → Outcome (Selection × EitherState)
  tagged f (returns (r, st)) = returns (r, f st)
  tagged f (throws x) = throws x

  abbrev pub either_select :
      EitherState → ServicePool → Bytes → Option (Outcome (Selection × EitherState))
  either_select (inl st) pool key = Option.map (tagged inl) (a.select_service st pool key)
  either_select (inr st) pool key = Option.map (tagged inr) (b.select_service st pool key)

  tagged-returns :
      {A : Type 0} (f : A → EitherState) (o : Option (Outcome (Selection × A))) (r : Selection)
      (st : EitherState)
      → Option.map (tagged f) o ≡ some (returns (r, st))
      → (x : A) × (o ≡ some (returns (r, x))) × (f x ≡ st)
  tagged-returns f none r st e = absurd (cc)
  tagged-returns f (some (throws x)) r st e = absurd (cc)
  tagged-returns f (some (returns (q, x))) r st e = (x, cc, cc)

  tagged-throws :
      {A : Type 0} (f : A → EitherState) (o : Option (Outcome (Selection × A))) (x : Exception)
      → Option.map (tagged f) o ≡ some (throws x)
      → o ≡ some (throws x)
  tagged-throws f none x e = absurd (cc)
  tagged-throws f (some (throws y)) x e = cc
  tagged-throws f (some (returns (q, y))) x e = absurd (cc)

  pub either_sound :
      (st : EitherState) (pool : ServicePool) (key : Bytes) (i : ℕ) (st' : EitherState)
      → EitherFits st (pool_size pool)
      → either_select st pool key ≡ some (returns (value i, st'))
      → HealthyAt pool i
  either_sound (inl st) pool key i st' fits e =
      let (x, o, _) = tagged-returns inl (a.select_service st pool key) (value i) st' e in
      a.select_sound st pool key i x fits o
  either_sound (inr st) pool key i st' fits e =
      let (x, o, _) = tagged-returns inr (b.select_service st pool key) (value i) st' e in
      b.select_sound st pool key i x fits o

  pub either_returns :
      (st : EitherState) (pool : ServicePool) (key : Bytes) (x : Exception)
      → EitherFits st (pool_size pool)
      → either_select st pool key ≢ some (throws x)
  either_returns (inl st) pool key x fits e =
      a.select_returns st pool key x fits (tagged-throws inl (a.select_service st pool key) x e)
  either_returns (inr st) pool key x fits e =
      b.select_returns st pool key x fits (tagged-throws inr (b.select_service st pool key) x e)

  pub either_fits :
      (st : EitherState) (pool : ServicePool) (key : Bytes) (r : Selection) (st' : EitherState)
      → EitherFits st (pool_size pool)
      → either_select st pool key ≡ some (returns (r, st'))
      → EitherFits st' (pool_size pool)
  either_fits (inl st) pool key r st' fits e =
      let (x, o, same) = tagged-returns inl (a.select_service st pool key) r st' e in
      rw (← same) (a.select_fits st pool key r x fits o)
  either_fits (inr st) pool key r st' fits e =
      let (x, o, same) = tagged-returns inr (b.select_service st pool key) r st' e in
      rw (← same) (b.select_fits st pool key r x fits o)

  abbrev pub either_strategy : RoutingStrategy
  either_strategy = record {
    State = EitherState;
    Fits = EitherFits;
    select_service = either_select;
    select_sound = either_sound;
    select_returns = either_returns;
    select_fits = either_fits;
  }
