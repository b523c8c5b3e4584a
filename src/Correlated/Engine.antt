-- ===== src/Correlated/Engine.antt =====
-- src/correlated/src/correlation.rs, `CrossRuleEngine`: the sliding-window chains of every rule,
-- fed one alert at a time.
pub mod Invariant
pub mod Rounds
pub mod Histories
pub mod Eviction
use headless_siem.Prelude.{
  ℕ, suc, ◌+◌, ◌-◌, ◌%◌, Text, codes, is_empty, Bool, true, false, Option, none, some, List, [],
  ◌∷◌, ◌++◌, map, length, take, concat, ◌==◌, nat_eq, list_eq, ltb, leb, eqb, if◌then◌else◌,
  HashMap, insert, remove, retain, empty_map,
}
use headless_siem.Json.{Json, get, get_str}
use headless_siem.Correlated.Config.{Step, CorrelationRule}
use headless_siem.Correlated.Chain.{ChainState, new_chain, is_satisfied, min_counts, count_steps}

-- The fields of the alert that a satisfied chain triggers.
pub record Correlation (V : Type 0) : Type 0 where
  pub correlation_id : Text
  pub correlation_title : Text
  pub join_field : Text
  pub join_value : Text
  pub window_seconds : ℕ
  pub chain_start : ℕ
  pub chain_end : ℕ
  pub step_counts : List ℕ
  pub sample_events : List V

abbrev pub Chains : Type 0 → Type 0
Chains V = HashMap Text (ChainState V)

-- `rules[i]` owns `states[i]`: the two vectors have one length and are walked together.
pub record Engine (V : Type 0) : Type 0 where
  pub rules : List CorrelationRule
  pub states : List (Chains V)
  pub feed_count : ℕ

-- `matching_steps`: the indices of the steps with the alert's rule id, counted from `i`.
unfoldable pub matching_from : Text → ℕ → List Step → List ℕ
matching_from id i [] = []
matching_from id i (s ∷ rest) =
    let later = matching_from id (suc i) rest in if s.rule_id == id then i ∷ later else later

-- `now.saturating_sub(chain_start) > window`
unfoldable pub is_expired : {V : Type 0} → ℕ → ℕ → ChainState V → Bool
is_expired window now state = ltb window (now - state.chain_start)

module _ {V : Type 0} where
  -- `CrossRuleEngine::new`
  unfoldable pub new_engine : List CorrelationRule → Engine V
  new_engine rules = record { rules = rules; states = map (λ r. empty_map) rules; feed_count = 0 }

  -- `or_insert_with`, and the reset of an expired chain.
  unfoldable pub open_chain : CorrelationRule → ℕ → Option (ChainState V) → ChainState V
  unfolding is_expired
  open_chain rule now none = new_chain (length rule.steps) now
  open_chain rule now (some state) =
      if is_expired rule.window_seconds now state then new_chain (length rule.steps) now else state

  unfoldable pub correlation_of : CorrelationRule → Text → ℕ → ChainState V → Correlation V
  correlation_of rule join_value now state = record {
    correlation_id = rule.id;
    correlation_title = rule.title;
    join_field = rule.join_field;
    join_value = join_value;
    window_seconds = rule.window_seconds;
    chain_start = state.chain_start;
    chain_end = now;
    step_counts = state.step_counts;
    sample_events = take 5 (concat state.step_samples);
  }

  -- The end of a round: a satisfied chain is removed and triggers, any other is kept.
  unfoldable pub settle :
      CorrelationRule → Text → ℕ → Chains V → ChainState V → Chains V × List (Correlation V)
  unfolding correlation_of
  settle rule join_value now chains state =
      if is_satisfied state rule
      then (
        remove join_value (insert join_value state chains),
        correlation_of rule join_value now state ∷ [],
      )
      else (insert join_value state chains, [])

  -- The body of `evict_expired` for one rule.
  unfoldable pub evict : ℕ → CorrelationRule → Chains V → Chains V
  evict now rule chains = retain (λ s. leb (now - s.chain_start) rule.window_seconds) chains

  unfoldable pub evict_all : ℕ → List CorrelationRule → List (Chains V) → List (Chains V)
  evict_all now (r ∷ rs) (c ∷ cs) = evict now r c ∷ evict_all now rs cs
  evict_all now _ cs = cs

  -- `evict_expired`
  pub evict_expired : ℕ → Engine V → Engine V
  unfolding evict evict_all
  evict_expired now e = record e { states = evict_all now e.rules e.states }

  -- The periodic eviction, at every 500th alert that carries a rule id.
  unfoldable pub count_feed : ℕ → Engine V → Engine V
  unfolding evict_expired
  count_feed now e =
      let counted = record e { feed_count = e.feed_count + 1 } in
      if (e.feed_count + 1) % 500 == 0 then evict_expired now counted else counted

abbrev or_else : Option Text → Option Text → Option Text
or_else none b = b
or_else (some a) b = some a

module _ {V : Type 0} ⦃J : Json V⦄ where
  unfoldable pub extract_field : V → Text → Option Text
  extract_field alert field = elim (get alert (codes "event")) [
    | none ↦ get_str alert field
    | some inner ↦ or_else (get_str inner field) (get_str alert field)
  ]

  -- The sample of an alert: its inner event, or the alert itself.
  unfoldable pub sample_of : V → V
  sample_of alert = elim (get alert (codes "event")) [ none ↦ alert | some inner ↦ inner ]

  -- A rule that the alert matches, with its join value.
  unfoldable pub advance_chain :
      CorrelationRule → V → ℕ → List ℕ → Text → Chains V → Chains V × List (Correlation V)
  unfolding settle open_chain
  advance_chain rule alert now matching join_value chains = settle rule join_value now chains (
      count_steps rule.ordered (min_counts rule.steps) (sample_of alert)
        (open_chain rule now (chains join_value)) matching)

  -- `Some(v) if !v.is_empty()`, or else `continue`.
  unfoldable pub join_chain :
      CorrelationRule → V → ℕ → List ℕ → Option Text → Chains V → Chains V × List (Correlation V)
  join_chain rule alert now matching none chains = (chains, [])
  join_chain rule alert now matching (some v) chains =
      if is_empty v then (chains, []) else advance_chain rule alert now matching v chains

  -- One round of the loop over the rules.
  unfoldable pub feed_rule :
      V → Text → ℕ → CorrelationRule → Chains V → Chains V × List (Correlation V)
  unfolding join_chain
  feed_rule alert id now rule chains = elim (matching_from id 0 rule.steps) [
    | [] ↦ (chains, [])
    | i ∷ more ↦ join_chain rule alert now (i ∷ more) (extract_field alert rule.join_field) chains
  ]

  unfoldable pub feed_rules :
      V → Text → ℕ → List CorrelationRule → List (Chains V) → List (Chains V) × List (Correlation V)
  feed_rules alert id now (r ∷ rs) (c ∷ cs) =
      let (c', first) = feed_rule alert id now r c in
      let (cs', later) = feed_rules alert id now rs cs in (c' ∷ cs', first ++ later)
  feed_rules alert id now _ cs = (cs, [])

  unfoldable pub feed_counted : V → Text → ℕ → Engine V → Engine V × List (Correlation V)
  feed_counted alert id now e =
      let (states, triggered) = feed_rules alert id now e.rules e.states in
      (record e { states = states }, triggered)

  -- `feed_at`
  unfoldable pub feed_at : V → ℕ → Engine V → Engine V × List (Correlation V)
  unfolding count_feed feed_counted
  feed_at alert now e = elim (get_str alert (codes "rule_id")) [
    | none ↦ (e, [])
    | some id ↦ feed_counted alert id now (count_feed now e)
  ]

  -- A history of alerts with their arrival times.
  unfoldable pub feed_all : List (V × ℕ) → Engine V → Engine V × List (List (Correlation V))
  feed_all [] e = (e, [])
  feed_all ((alert, now) ∷ rest) e =
      let (e', first) = feed_at alert now e in
      let (e'', later) = feed_all rest e' in (e'', first ∷ later)
