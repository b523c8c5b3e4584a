-- ===== src/Correlated/Engine/Invariant.antt =====
-- The invariant of the engine's chains, for one rule: sizes, progress, and the window.
use headless_siem.Prelude.{
  ℕ, suc, ◌+◌, ◌-◌, ◌≤◌, ◌≡◌, refl, sym, subst, ◌⊎◌, Text, Option, none, some, List, [], ◌∷◌,
  length, length-map, list_eq, nat_eq, arith, Bool-cases, inl, inr,
}
use headless_siem.Correlated.Config.{Step, CorrelationRule}
use headless_siem.Correlated.Chain.{ChainState, new_chain, min_counts}
use headless_siem.Correlated.Chain.Sizes.{AllBelow, Fits, new_chain-Fits, chain_start-new_chain}
use headless_siem.Correlated.Chain.Progress.{Progress, new_chain-Progress}
use headless_siem.Correlated.Engine.{Chains, matching_from, is_expired, open_chain, settle}

-- The indices that `matching_from` gives are those of steps.
matching_from-AllBelow :
    (id : Text) (k : ℕ) (steps : List Step) → AllBelow (k + length steps) (matching_from id k steps)
unfolding matching_from
matching_from-AllBelow id k [] = tt
matching_from-AllBelow id k (s ∷ rest) = ground (
  arith,
  matching_below (suc k + length rest) (k + suc (length rest)) (matching_from id (suc k) rest)
      (omega arith) (matching_from-AllBelow id (suc k) rest),
)
  where
    matching_below : (m n : ℕ) (is : List ℕ) → m ≤ n → AllBelow m is → AllBelow n is
    matching_below m n [] le h = tt
    matching_below m n (i ∷ is) le h = (omega arith, matching_below m n is le h.1)

pub matching-AllBelow :
    (id : Text) (rule : CorrelationRule)
    → AllBelow (length (min_counts rule.steps)) (matching_from id 0 rule.steps)
matching-AllBelow id rule =
    subst (λ n. AllBelow n (matching_from id 0 rule.steps))
      (omega (arith, length-map rule.steps (λ s. s.min_count)))
      (matching_from-AllBelow id 0 rule.steps)

module _ {V : Type 0} where
  pub record GoodChain (rule : CorrelationRule) (state : ChainState V) : Type 0 where
    pub fits : Fits (min_counts rule.steps) state
    pub progress : Progress rule.ordered (min_counts rule.steps) state

  abbrev pub GoodChains : CorrelationRule → Chains V → Type 0
  GoodChains rule chains =
      (k : Text) (state : ChainState V) → chains k ≡ some state → GoodChain rule state

  pub new_chain-GoodChain :
      (rule : CorrelationRule) (now : ℕ) → GoodChain rule (new_chain (length rule.steps) now)
  new_chain-GoodChain rule now = record {
    fits =
        subst (λ n. Fits {V = V} (min_counts rule.steps) (new_chain n now)) same
          (new_chain-Fits (min_counts rule.steps) now);
    progress = new_chain-Progress rule.ordered (min_counts rule.steps) (length rule.steps) now;
  }
    where
      same : length (min_counts rule.steps) ≡ length rule.steps
      same = length-map rule.steps (λ s. s.min_count)

  pub open_chain-GoodChain :
      (rule : CorrelationRule) (now : ℕ) (o : Option (ChainState V))
      → ((state : ChainState V) → o ≡ some state → GoodChain rule state)
      → GoodChain rule (open_chain rule now o)
  unfolding open_chain
  open_chain-GoodChain rule now none h = new_chain-GoodChain rule now
  open_chain-GoodChain rule now (some state) h =
      elim (Bool-cases (is_expired rule.window_seconds now state)) [
        | inl e ↦ rw e (new_chain-GoodChain rule now)
        | inr e ↦ rw e (h state refl)
      ]

  -- An open chain is within its window.
  pub open_chain_within :
      (rule : CorrelationRule) (now : ℕ) (o : Option (ChainState V))
      → now - (open_chain rule now o).chain_start ≤ rule.window_seconds
  unfolding open_chain
  open_chain_within rule now none = omega (arith, chain_start-new_chain V (length rule.steps) now)
  open_chain_within rule now (some state) =
      ground (arith, chain_start-new_chain V (length rule.steps) now)

  -- What a key holds afterwards is the chain that was settled, or what it held before.
  settle_entry :
      (rule : CorrelationRule) (join_value : Text) (now : ℕ) (chains : Chains V)
      (state : ChainState V) (k : Text) (s : ChainState V)
      → (settle rule join_value now chains state).0 k ≡ some s
      → (s ≡ state) ⊎ (chains k ≡ some s)
  unfolding settle
  settle_entry rule join_value now chains state k s e = ground arith

  pub settle-GoodChains :
      (rule : CorrelationRule) (join_value : Text) (now : ℕ) (chains : Chains V)
      (state : ChainState V)
      → GoodChain rule state
      → GoodChains rule chains
      → GoodChains rule (settle rule join_value now chains state).0
  settle-GoodChains rule join_value now chains state good h k s e =
      elim (settle_entry rule join_value now chains state k s e) [
        | inl same ↦ subst (GoodChain rule) (sym same) good
        | inr old ↦ h k s old
      ]
