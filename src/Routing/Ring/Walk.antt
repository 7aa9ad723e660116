-- ===== src/Routing/Ring/Walk.antt =====
-- The walk of `SelectService` in core/routing/ConsistentHashStrategy.cpp against a scan of the ring in
-- clockwise order from the key.
use bit_bridge.Prelude.{
  ℕ, zero, suc, ◌+◌, ◌-◌, ◌%◌, ◌≤◌, ◌<◌, ◌≡◌, refl, sym, ap, ap₂, ◌∙◌, List, [], ◌∷◌, ◌++◌, ltb,
  leb, if◌then◌else◌, length, get_elem?, get_elem?-lt, take, drop, length-take, length-drop,
  length-append, get_elem?-append_left, get_elem?-append_right, get_elem?-take, get_elem?-drop, All,
  All-append, some, returns, value, unexpected, arith, dec_lt,
}
use bit_bridge.State.Pool.{ServicePool, pool_size}
use bit_bridge.Routing.Strategy.{no_healthy_services, Selection, healthy_at}
use bit_bridge.Routing.Ring.Sort.{Point, IsAscending}
use bit_bridge.Routing.Ring.Bound.{hash_at, lower_bound, lower_bound-Splits}
use bit_bridge.Routing.Ring.Select.{walk, select_hash}

-- The first healthy service along a list of points.
abbrev pub scan : ServicePool → List Point → Selection
scan pool [] = unexpected no_healthy_services
scan pool (p ∷ ps) = if healthy_at pool p.service then value p.service else scan pool ps

abbrev pub keep_from : ℕ → List Point → List Point
keep_from key [] = []
keep_from key (p ∷ ring) = if leb key p.hash then p ∷ keep_from key ring else keep_from key ring

abbrev pub keep_below : ℕ → List Point → List Point
keep_below key [] = []
keep_below key (p ∷ ring) = if ltb p.hash key then p ∷ keep_below key ring else keep_below key ring

-- The points at or behind the key, and then, around the end of the ring, those before it.
abbrev pub clockwise : List Point → ℕ → List Point
clockwise ring key = keep_from key ring ++ keep_below key ring

halves :
    (ring : List Point) (key r : ℕ)
    → r ≤ length ring
    → ((i : ℕ) → i < r → hash_at ring i < key)
    → ((i : ℕ) → r ≤ i → i < length ring → key ≤ hash_at ring i)
    → (drop r ring ≡ keep_from key ring) × (take r ring ≡ keep_below key ring)
halves [] key zero h b a = (refl, refl)
halves [] key (suc r) h b a = absurd (omega arith)
halves (p ∷ ring) key zero h b a = ground (
  arith,
  a 0,
  halves ring key 0 (omega arith) (λ i k. absurd (omega arith))
      (λ i k l. a (suc i) (omega arith) (omega arith)),
)
halves (p ∷ ring) key (suc r) h b a = ground (
  arith,
  b 0,
  halves ring key r (omega arith) (λ i k. b (suc i) (omega arith))
      (λ i k l. a (suc i) (omega arith) (omega arith)),
)

rotation : List Point → ℕ → List Point
rotation ring r = drop r ring ++ take r ring

length-rotation :
    (ring : List Point) (r : ℕ) → r ≤ length ring → length (rotation ring r) ≡ length ring
unfolding rotation
length-rotation ring r h =
    omega (arith, length-append (drop r ring) (take r ring), length-drop r ring, length-take r ring)

mod_wrap : (a n : ℕ) → n ≤ a → a < n + n → a % n ≡ a - n
mod_wrap a n h k = grind arith

get_elem?-rotation :
    (ring : List Point) (r j : ℕ)
    → r ≤ length ring
    → j < length ring
    → get_elem? ring ((r + j) % length ring) ≡ get_elem? (rotation ring r) j
unfolding rotation
get_elem?-rotation ring r j h k = elim (dec_lt (r + j) (length ring)) [
  | yes p ↦
      ap (get_elem? ring) (grind arith)
      ∙ sym (get_elem?-drop r ring j)
      ∙ sym
          (get_elem?-append_left (drop r ring) (take r ring) j (omega (arith, length-drop r ring)))
  | no p ↦
      ap (get_elem? ring) (mod_wrap (r + j) (length ring) (omega arith) (omega arith))
      ∙ sym (get_elem?-take r ring (r + j - length ring) (omega arith))
      ∙ sym (get_elem?-append_right (drop r ring) (take r ring) (r + j - length ring))
      ∙ ap (get_elem? (drop r ring ++ take r ring)) (omega (arith, length-drop r ring))
]

module _ (ring : List Point) (pool : ServicePool) (start : ℕ) where
  walk-scan :
      (l : List Point) (walked : ℕ)
      → All (λ p. p.service < pool_size pool) l
      → ((j : ℕ)
          → j < length l
          → get_elem? ring ((start + (walked + j)) % length ring) ≡ get_elem? l j)
      → walk ring pool start walked (length l) ≡ returns (scan pool l)
  unfolding walk
  walk-scan [] walked h e = refl
  walk-scan (p ∷ l) walked h e =
      let here : get_elem? ring ((start + walked) % length ring) ≡ some p =
        ap (λ i. get_elem? ring ((start + i) % length ring)) (omega arith) ∙ e 0 (omega arith) in
      let (s, there) = get_elem?-lt pool p.service h.0 in
      let rest = walk-scan l (walked + 1) h.1 (λ j k.
        ap (λ i. get_elem? ring ((start + i) % length ring)) (omega arith)
        ∙ e (suc j) (omega arith)) in
      ground (arith, here, there, rest)

All-drop : (P : Point → Type 0) (n : ℕ) (ring : List Point) → All P ring → All P (drop n ring)
All-drop P zero ring a = a
All-drop P (suc n) [] a = tt
All-drop P (suc n) (p ∷ ring) a = All-drop P n ring a.1

All-take : (P : Point → Type 0) (n : ℕ) (ring : List Point) → All P ring → All P (take n ring)
All-take P zero ring a = tt
All-take P (suc n) [] a = tt
All-take P (suc n) (p ∷ ring) a = (a.0, All-take P n ring a.1)

walk-rotation :
    (ring : List Point) (pool : ServicePool) (r : ℕ)
    → r ≤ length ring
    → All (λ p. p.service < pool_size pool) ring
    → walk ring pool r 0 (length ring) ≡ returns (scan pool (rotation ring r))
walk-rotation ring pool r h a =
    ap (walk ring pool r 0) (sym size)
    ∙ walk-scan ring pool r (rotation ring r) 0
        (unfold rotation in
          (All-append _ (drop r ring) (take r ring) (All-drop _ r ring a) (All-take _ r ring a)))
        (λ j k.
          ap (λ i. get_elem? ring (i % length ring)) (omega arith)
          ∙ get_elem?-rotation ring r j h (omega (arith, size)))
  where
    size : length (rotation ring r) ≡ length ring
    size = length-rotation ring r h

module _ (ring : List Point) (pool : ServicePool) (key : ℕ) where
  -- On a ring in ascending order whose points name services of the pool, the search and the walk of
  -- `SelectService` return the first healthy service in clockwise order from the key's hash: the points
  -- with at least that hash, and behind them the points with a smaller one. No call throws.
  pub select_hash-scan :
      IsAscending ring
      → All (λ p. p.service < pool_size pool) ring
      → select_hash ring pool key ≡ returns (scan pool (clockwise ring key))
  unfolding select_hash rotation
  select_hash-scan ascending inside =
      let (fits, below, above) = lower_bound-Splits ring key ascending in
      let (behind, before) = halves ring key (lower_bound ring key) fits below above in
      walk-rotation ring pool (lower_bound ring key) fits inside
      ∙ ap (λ l. returns (scan pool l)) (ap₂ ◌++◌ behind before)
