-- ===== src/Correlated/Engine/Rounds.antt =====
-- A correlation alert is justified: the chain that triggers it has the counts that its rule asks
-- for, gathered within the window, under the join value of the alert that completes it.
use headless_siem.Prelude.{
  ℕ, ◌-◌, ◌≤◌, ◌≡◌, refl, Text, is_empty, false, Option, none, some, List, [], ◌∷◌, length,
  length-take_le, concat, list_eq, nat_eq, arith, Bool-cases, List-cases, inl, inr,
}
use headless_siem.Json.{Json}
use headless_siem.Correlated.Config.{CorrelationRule}
use headless_siem.Correlated.Chain.{ChainState, is_satisfied, min_counts, count_steps}
use headless_siem.Correlated.Chain.Sizes.{AllBelow, count_steps-Fits, chain_start-count_steps}
use headless_siem.Correlated.Chain.Progress.{count_steps-Progress, AllPositive, satisfied-exact}
use headless_siem.Correlated.Engine.{
  Correlation, Chains, matching_from, open_chain, settle, extract_field, sample_of, advance_chain,
  join_chain, feed_rule,
}
use headless_siem.Correlated.Engine.Invariant.{
  GoodChain, GoodChains, open_chain-GoodChain, open_chain_within, settle-GoodChains,
  matching-AllBelow,
}

module _ {V : Type 0} where
  abbrev pub All {ℓ} : (Correlation V → Type ℓ) → List (Correlation V) → Type ℓ
  All P [] = Unit
  All P (c ∷ cs) = P c × All P cs

module _ {V : Type 0} ⦃J : Json V⦄ where
  -- The chain that a round leaves to `settle`.
  abbrev advanced : CorrelationRule → V → ℕ → List ℕ → Text → Chains V → ChainState V
  advanced rule alert now matching join_value chains =
      count_steps rule.ordered (min_counts rule.steps) (sample_of alert)
        (open_chain rule now (chains join_value)) matching

  advanced-GoodChain :
      (rule : CorrelationRule) (alert : V) (now : ℕ) (matching : List ℕ) (join_value : Text)
      (chains : Chains V)
      → AllBelow (length (min_counts rule.steps)) matching
      → GoodChains rule chains
      → GoodChain rule (advanced rule alert now matching join_value chains)
  advanced-GoodChain rule alert now matching join_value chains below h =
      let opened = open_chain-GoodChain rule now (chains join_value) (h join_value) in
      record {
        fits =
            count_steps-Fits rule.ordered (min_counts rule.steps) (sample_of alert)
              (open_chain rule now (chains join_value)) matching below opened.fits;
        progress =
            count_steps-Progress rule.ordered (min_counts rule.steps) (sample_of alert)
              (open_chain rule now (chains join_value)) matching below opened.fits opened.progress;
      }

  advanced_within :
      (rule : CorrelationRule) (alert : V) (now : ℕ) (matching : List ℕ) (join_value : Text)
      (chains : Chains V)
      → now - (advanced rule alert now matching join_value chains).chain_start ≤ rule.window_seconds
  advanced_within rule alert now matching join_value chains = omega (
    arith,
    chain_start-count_steps rule.ordered (min_counts rule.steps) (sample_of alert)
        (open_chain rule now (chains join_value)) matching,
    open_chain_within rule now (chains join_value),
  )

  -- What a correlation alert says of the rule and of the alert that triggered it.
  pub record Justified (alert : V) (now : ℕ) (rule : CorrelationRule) (c : Correlation V)
      : Type 0 where
    pub of_rule : c.correlation_id ≡ rule.id
    pub joined : extract_field alert rule.join_field ≡ some c.join_value
    pub named : is_empty c.join_value ≡ false
    pub ended_now : c.chain_end ≡ now
    pub within_window : c.chain_end - c.chain_start ≤ rule.window_seconds
    pub exact_counts : c.step_counts ≡ min_counts rule.steps
    pub few_events : length c.sample_events ≤ 5

  settle-Justified :
      (alert : V) (rule : CorrelationRule) (join_value : Text) (now : ℕ) (chains : Chains V)
      (state : ChainState V)
      → extract_field alert rule.join_field ≡ some join_value
      → is_empty join_value ≡ false
      → AllPositive rule.steps
      → GoodChain rule state
      → now - state.chain_start ≤ rule.window_seconds
      → All (Justified alert now rule) (settle rule join_value now chains state).1
  unfolding settle
  settle-Justified alert rule join_value now chains state found named pos good within =
      elim (Bool-cases (is_satisfied state rule)) [
        | inl e ↦ rw e (
          record {
            of_rule = refl;
            joined = found;
            named = named;
            ended_now = refl;
            within_window = within;
            exact_counts = satisfied-exact rule.ordered rule state pos good.fits good.progress e;
            few_events = length-take_le 5 (concat state.step_samples);
          },
          tt,
        )
        | inr e ↦ rw e tt
      ]

  -- What one round of the loop over the rules guarantees.
  pub record RoundOk (alert : V) (now : ℕ) (rule : CorrelationRule)
      (r : Chains V × List (Correlation V)) : Type 0 where
    pub good : GoodChains rule r.0
    pub justified : AllPositive rule.steps → All (Justified alert now rule) r.1

  join_chain-RoundOk :
      (rule : CorrelationRule) (alert : V) (now : ℕ) (matching : List ℕ) (o : Option Text)
      (chains : Chains V)
      → extract_field alert rule.join_field ≡ o
      → AllBelow (length (min_counts rule.steps)) matching
      → GoodChains rule chains
      → RoundOk alert now rule (join_chain rule alert now matching o chains)
  unfolding join_chain advance_chain
  join_chain-RoundOk rule alert now matching none chains found below h = record {
    good = h;
    justified = λ pos. tt;
  }
  join_chain-RoundOk rule alert now matching (some v) chains found below h =
      elim (Bool-cases (is_empty v)) [
        | inl e ↦ rw e (record { good = h; justified = λ pos. tt })
        | inr e ↦ rw e (record {
          good =
              settle-GoodChains rule v now chains (advanced rule alert now matching v chains) good
                h;
          justified = λ pos.
              settle-Justified alert rule v now chains (advanced rule alert now matching v chains)
                found e pos good (advanced_within rule alert now matching v chains);
        })
      ]
    where
      good : GoodChain rule (advanced rule alert now matching v chains)
      good = advanced-GoodChain rule alert now matching v chains below h

  pub feed_rule-RoundOk :
      (alert : V) (id : Text) (now : ℕ) (rule : CorrelationRule) (chains : Chains V)
      → GoodChains rule chains
      → RoundOk alert now rule (feed_rule alert id now rule chains)
  unfolding feed_rule
  feed_rule-RoundOk alert id now rule chains h = elim (List-cases (matching_from id 0 rule.steps)) [
    | inl e ↦ rw (e, feed_rule) (record { good = h; justified = λ pos. tt })
    | inr (i, more, e) ↦
        rw (e, feed_rule)
          (join_chain-RoundOk rule alert now (i ∷ more) (extract_field alert rule.join_field) chains
            refl (rw e at (matching-AllBelow id rule)) h)
  ]
