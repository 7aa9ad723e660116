-- ===== src/Tests/Model.antt =====
-- lib/model and the counters of core/state on small inputs.
use bit_bridge.Prelude.{
  ℕ, ◌+◌, ◌-◌, ◌<◌, ◌≡◌, ◌↔◌, ◌⊎◌, ◌≢◌, refl, [], ◌∷◌, codes, true, ℕ_discrete, arith,
}
use bit_bridge.Model.Node.{is_valid_ipv4}
use bit_bridge.Model.Node.Ipv4.{IsDotted, is_valid_ipv4_iff}
use bit_bridge.Model.Balancer.{LoadBalancerConfig, defaults}
use bit_bridge.State.Atomic.{
  update, outside, looping, Move, increment, load, exchange, System, pick, start, Reach, initial,
  later, counter_exact, decrement_effect, Pc, retry, Calling, enters, goes_on,
}
use mathlib.Core.List.{Mem}
use bit_bridge.Tests.{node_a, node_b}

is_valid_ipv4_iff_example :
    (is_valid_ipv4 (codes "10.0.0.255") ≡ true) ↔ IsDotted (codes "10.0.0.255")
is_valid_ipv4_iff_example = is_valid_ipv4_iff (codes "10.0.0.255")

abbrev two_nodes : LoadBalancerConfig
two_nodes = record defaults { services = node_a ∷ node_b ∷ [] }

-- Thread 0 adds one, and threads 1 and 2 both load it; thread 1 takes it away.
abbrev raced : System
raced = record {
  cell = record { counter = 0; added = 1; taken = 1; refused = 0 };
  pc = update (update (update (update start.pc 0 outside) 1 (looping 1)) 2 (looping 1)) 1 outside;
}

raced-Reach : Reach raced
unfolding ℕ_discrete
raced-Reach =
    later (later (later (later initial (pick 0 increment)) (pick 1 load)) (pick 2 load))
      (pick 1 (exchange (omega arith) refl))

counter_exact_example : raced.cell.counter + raced.cell.taken ≡ raced.cell.added
counter_exact_example = counter_exact raced-Reach (omega arith)

-- Threads 1 and 2 call `DecrementConnections`, and thread 1 has not gone on when thread 2 takes the one away.
abbrev one_left : System
one_left = record {
  cell = record { counter = 1; added = 1; taken = 0; refused = 0 };
  pc = λ i. outside;
}

abbrev both_loaded : System
both_loaded = record {
  cell = one_left.cell;
  pc = update (update one_left.pc 1 (looping 1)) 2 (looping 1);
}

abbrev overtaken : System
overtaken = record {
  cell = record { counter = 0; added = 1; taken = 1; refused = 0 };
  pc = update both_loaded.pc 2 outside;
}

in_loop : ◌≢◌ {A = Pc} (looping 1) outside
in_loop e = absurd (cc)

overtaken-Calling : Calling 1 (1 ∷ 1 ∷ 1 ∷ []) overtaken
unfolding ℕ_discrete
overtaken-Calling =
    goes_on (goes_on (enters {s = one_left} refl (pick 1 load) in_loop) (pick 2 load) in_loop)
      (pick 2 (exchange (omega arith) refl)) in_loop

-- Thread 1 finds another value and reads the zero.
retrying : Move overtaken.cell (overtaken.pc 1) overtaken.cell (looping 0)
unfolding ℕ_discrete
retrying = retry (omega arith)

decrement_effect_example :
    ((overtaken.cell ≡ overtaken.cell) × (looping 0 ≡ looping overtaken.cell.counter))
    ⊎ ((looping 0 ≡ outside)
        × (0 < overtaken.cell.counter)
        × (overtaken.cell.counter ≡ overtaken.cell.counter - 1)
        × (overtaken.cell.taken ≡ overtaken.cell.taken + 1))
    ⊎ ((looping 0 ≡ outside)
        × Mem {A = ℕ} 0 (1 ∷ 1 ∷ 1 ∷ [])
        × (overtaken.cell.counter ≡ overtaken.cell.counter)
        × (overtaken.cell.taken ≡ overtaken.cell.taken))
decrement_effect_example = decrement_effect 1 overtaken-Calling retrying
