-- ===== src/Model/Node/Ipv4.antt =====
-- `IsValidIpv4` of lib/model/ServiceNode.cpp against dotted quads.
use bit_bridge.Prelude.{
  ℕ, ◌+◌, ◌<◌, ◌≡◌, ◌≢◌, ◌↔◌, refl, sym, ap, ◌∙◌, true, false, List, [], ◌∷◌, ◌++◌, ◌==◌, Bytes,
  length, All, Bool-cases, inl, inr, ==_iff, if◌then◌else◌, arith,
}
use bit_bridge.Model.Node.{
  back_is, add_to_first, tokens, token_accepted, count_octets, is_valid_ipv4,
}
use bit_bridge.Model.Node.Octets.{
  decimal, token_accepted-decimal, decimal-token_accepted, decimal-Lacks, decimal-ne-nil,
}

module _ (sep : ℕ) where
  abbrev pub join : List Bytes → Bytes
  join [] = []
  join (t ∷ []) = t
  join (t ∷ u ∷ ts) = t ++ sep ∷ join (u ∷ ts)

  join-add_to_first : (c : ℕ) (ts : List Bytes) → join (add_to_first c ts) ≡ c ∷ join ts
  unfolding add_to_first
  join-add_to_first c [] = refl
  join-add_to_first c (t ∷ []) = refl
  join-add_to_first c (t ∷ u ∷ ts) = refl

  tokens-ne-nil : (c : ℕ) (s : Bytes) → tokens sep (c ∷ s) ≢ []
  unfolding tokens add_to_first
  tokens-ne-nil c s =
      elim (tokens sep s) as (λ r. (if c == sep then [] ∷ r else add_to_first c r) ≢ []) [
        | [] ↦ ground arith
        | t ∷ ts ↦ ground arith
      ]

  join_behind : (ts : List Bytes) → ts ≢ [] → join ([] ∷ ts) ≡ sep ∷ join ts
  join_behind [] h = absurd (h refl)
  join_behind (t ∷ ts) h = refl

  join_step : (c d : ℕ) (s : Bytes) → join (tokens sep (c ∷ d ∷ s)) ≡ c ∷ join (tokens sep (d ∷ s))
  unfolding tokens
  join_step c d s = elim (Bool-cases (c == sep)) [
    | inl here ↦ rw here (
        join_behind _ (tokens-ne-nil d s)
        ∙ ap (λ x. x ∷ join (tokens sep (d ∷ s))) (sym ((==_iff c sep).0 here)))
    | inr more ↦ rw more (join-add_to_first c _)
  ]

  -- The tokens of a text that does not end in the delimiter spell it.
  join-tokens : (s : Bytes) → back_is sep s ≡ false → join (tokens sep s) ≡ s
  join-tokens [] h = unfold tokens in refl
  join-tokens (c ∷ []) h = unfold tokens add_to_first in (ground arith)
  join-tokens (c ∷ d ∷ s) h = join_step c d s ∙ ap (◌∷◌ c) (join-tokens (d ∷ s) h)

  tokens_at_sep :
      (t s : Bytes) → All (λ c. c ≢ sep) t → tokens sep (t ++ sep ∷ s) ≡ t ∷ tokens sep s
  unfolding tokens
  tokens_at_sep [] s h = ground arith
  tokens_at_sep (c ∷ t) s h = ground (arith, tokens_at_sep t s h.1)

  tokens_last : (t : Bytes) → All (λ c. c ≢ sep) t → t ≢ [] → tokens sep t ≡ t ∷ []
  unfolding tokens
  tokens_last [] h ne = absurd (ne refl)
  tokens_last (c ∷ []) h ne = ground arith
  tokens_last (c ∷ d ∷ t) h ne = ground (arith, tokens_last (d ∷ t) h.1)

  back_lacks : (t : Bytes) → All (λ c. c ≢ sep) t → back_is sep t ≡ false
  back_lacks [] h = refl
  back_lacks (c ∷ []) h = ground arith
  back_lacks (c ∷ d ∷ t) h = back_lacks (d ∷ t) h.1

  back-append : (t : Bytes) (c : ℕ) (s : Bytes) → back_is sep (t ++ c ∷ s) ≡ back_is sep (c ∷ s)
  back-append [] c s = refl
  back-append (d ∷ []) c s = refl
  back-append (d ∷ e ∷ t) c s = back-append (e ∷ t) c s

  back_behind : (t s : Bytes) → s ≢ [] → back_is sep (t ++ sep ∷ s) ≡ back_is sep s
  back_behind t [] h = absurd (h refl)
  back_behind t (c ∷ s) h = back-append t sep (c ∷ s)

count_octets-All :
    (ts : List Bytes) (n m : ℕ)
    → count_octets ts n ≡ (true, m)
    → All (λ t. token_accepted t ≡ true) ts × (m ≡ n + length ts)
unfolding count_octets
count_octets-All [] n m h = ground arith
count_octets-All (t ∷ ts) n m h = ground (arith, count_octets-All ts (n + 1) m)

All-count_octets :
    (ts : List Bytes) (n : ℕ)
    → All (λ t. token_accepted t ≡ true) ts
    → count_octets ts n ≡ (true, n + length ts)
unfolding count_octets
All-count_octets [] n h = ground arith
All-count_octets (t ∷ ts) n h = ground (arith, All-count_octets ts (n + 1) h.1)

-- Four bytes in decimal, with dots between them.
abbrev pub dotted : ℕ → ℕ → ℕ → ℕ → Bytes
dotted a b c d = decimal a ++ b'.' ∷ (decimal b ++ b'.' ∷ (decimal c ++ b'.' ∷ decimal d))

abbrev pub IsDotted : Bytes → Type 0
IsDotted ip = (a b c d : ℕ) × (a < 256) × (b < 256) × (c < 256) × (d < 256) × (ip ≡ dotted a b c d)

tokens-dotted :
    (a b c d : ℕ)
    → tokens b'.' (dotted a b c d) ≡ decimal a ∷ decimal b ∷ decimal c ∷ decimal d ∷ []
tokens-dotted a b c d = rw (
  tokens_at_sep b'.' (decimal a) _ (decimal-Lacks a),
  tokens_at_sep b'.' (decimal b) _ (decimal-Lacks b),
  tokens_at_sep b'.' (decimal c) _ (decimal-Lacks c),
  tokens_last b'.' (decimal d) (decimal-Lacks d) (decimal-ne-nil d),
)

join_four :
    (ts : List Bytes)
    → All (λ t. token_accepted t ≡ true) ts
    → length ts ≡ 4
    → IsDotted (join b'.' ts)
join_four (t ∷ u ∷ v ∷ w ∷ []) (ht, (hu, (hv, (hw, _)))) e =
    let (a, ha, pa) = decimal-token_accepted t ht in
    let (b, hb, pb) = decimal-token_accepted u hu in
    let (c, hc, pc) = decimal-token_accepted v hv in
    let (d, hd, pd) = decimal-token_accepted w hw in
    (a, b, c, d, ha, hb, hc, hd, rw (pa, pb, pc, pd))
join_four [] h e = absurd (omega arith)
join_four (t ∷ []) h e = absurd (omega arith)
join_four (t ∷ u ∷ []) h e = absurd (omega arith)
join_four (t ∷ u ∷ v ∷ []) h e = absurd (omega arith)
join_four (t ∷ u ∷ v ∷ w ∷ x ∷ ts) h e = absurd (omega arith)

back-dotted : (a b c d : ℕ) → back_is b'.' (dotted a b c d) ≡ false
back-dotted a b c d =
    back_behind b'.' (decimal a) _ (ground arith)
    ∙ back_behind b'.' (decimal b) _ (ground arith)
    ∙ back_behind b'.' (decimal c) _ (decimal-ne-nil d)
    ∙ back_lacks b'.' (decimal d) (decimal-Lacks d)

is_valid_ipv4-cases :
    (ip : Bytes)
    → is_valid_ipv4 ip ≡ true
    → (count_octets (tokens b'.' ip) 0 ≡ (true, 4)) × (back_is b'.' ip ≡ false)
unfolding is_valid_ipv4
is_valid_ipv4-cases ip h = ground arith

is_valid_ipv4_of_counts :
    (ip : Bytes)
    → count_octets (tokens b'.' ip) 0 ≡ (true, 4)
    → back_is b'.' ip ≡ false
    → is_valid_ipv4 ip ≡ true
unfolding is_valid_ipv4
is_valid_ipv4_of_counts ip h k = ground arith

-- `IsValidIpv4` accepts a text exactly when it is a dotted quad: four numbers below 256 in decimal
-- without leading zeros, a dot between neighbours and nothing else.
pub is_valid_ipv4_iff : (ip : Bytes) → (is_valid_ipv4 ip ≡ true) ↔ IsDotted ip
is_valid_ipv4_iff ip = (accepted, quad)
  where
    accepted : is_valid_ipv4 ip ≡ true → IsDotted ip
    accepted h =
        let (counted, back) = is_valid_ipv4-cases ip h in
        let (good, four) = count_octets-All (tokens b'.' ip) 0 4 counted in
        rw (join-tokens b'.' ip back) at (join_four (tokens b'.' ip) good (omega arith))

    quad : IsDotted ip → is_valid_ipv4 ip ≡ true
    quad (a, b, c, d, ha, hb, hc, hd, e) = rw e (
        is_valid_ipv4_of_counts (dotted a b c d)
          (rw (tokens-dotted a b c d) (
            All-count_octets (decimal a ∷ decimal b ∷ decimal c ∷ decimal d ∷ []) 0 (
              token_accepted-decimal a ha,
              (
                token_accepted-decimal b hb,
                (token_accepted-decimal c hc, (token_accepted-decimal d hd, tt)),
              ),
            )))
          (back-dotted a b c d))
