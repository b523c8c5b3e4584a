-- ===== src/Correlated/Engine/Eviction.antt =====
-- The periodic eviction only saves memory: an engine that never evicts emits the same alerts.
use headless_siem.Prelude.{
  ℕ, ◌-◌, ◌≤◌, ◌≡◌, refl, sym, ◌∙◌, ap, ap₂, Text, codes, Option, none, some, List, [], ◌∷◌,
  list_eq, nat_eq, arith, leb, keep_if, Option-cases, List-cases, inl, inr,
}
use headless_siem.Json.{Json, get_str}
use headless_siem.Correlated.Config.{CorrelationRule}
use headless_siem.Correlated.Chain.{ChainState, min_counts, count_steps}
use headless_siem.Correlated.Engine.{
  Correlation, Chains, Engine, matching_from, open_chain, settle, evict, evict_all, extract_field,
  sample_of, advance_chain, join_chain, feed_rule, feed_rules, feed_counted, feed_at, feed_all,
  count_feed,
}

-- The specification: `feed_at` with no eviction.
module _ {V : Type 0} ⦃J : Json V⦄ where
  pub feed_keeping : V → ℕ → Engine V → Engine V × List (Correlation V)
  feed_keeping alert now e = elim (get_str alert (codes "rule_id")) [
    | none ↦ (e, [])
    | some id ↦ feed_counted alert id now e
  ]

  pub feed_all_keeping : List (V × ℕ) → Engine V → Engine V × List (List (Correlation V))
  feed_all_keeping [] e = (e, [])
  feed_all_keeping ((alert, now) ∷ rest) e =
      let (e', first) = feed_keeping alert now e in
      let (e'', later) = feed_all_keeping rest e' in (e'', first ∷ later)

module _ {V : Type 0} where
  -- A chain that is still within its window.
  abbrev live : CorrelationRule → ℕ → Option (ChainState V) → Option (ChainState V)
  live rule now o = keep_if (λ s. leb (now - s.chain_start) rule.window_seconds) o

  -- Two maps that differ in expired chains only.
  abbrev Alike : CorrelationRule → ℕ → Chains V → Chains V → Type 0
  Alike rule now m m' = (k : Text) → live rule now (m k) ≡ live rule now (m' k)

  live-live :
      (rule : CorrelationRule) (now later : ℕ) (o : Option (ChainState V))
      → now ≤ later
      → live rule later (live rule now o) ≡ live rule later o
  live-live rule now later none le = refl
  live-live rule now later (some s) le = ground arith

  Alike-later :
      (rule : CorrelationRule) (now later : ℕ) (m m' : Chains V)
      → now ≤ later
      → Alike rule now m m'
      → Alike rule later m m'
  Alike-later rule now later m m' le h k =
      sym (live-live rule now later (m k) le)
      ∙ ap (live rule later) (h k)
      ∙ live-live rule now later (m' k) le

  Alike-evict :
      (rule : CorrelationRule) (now : ℕ) (m m' : Chains V)
      → Alike rule now m m'
      → Alike rule now (evict now rule m) m'
  unfolding evict
  Alike-evict rule now m m' h k = live-live rule now now (m k) (omega arith) ∙ h k

  -- A round sees an expired chain as none at all.
  open_chain-live :
      (rule : CorrelationRule) (now : ℕ) (o : Option (ChainState V))
      → open_chain rule now (live rule now o) ≡ open_chain rule now o
  unfolding open_chain
  open_chain-live rule now none = refl
  open_chain-live rule now (some s) = ground arith

  open_chain-Alike :
      (rule : CorrelationRule) (now : ℕ) (m m' : Chains V) (k : Text)
      → Alike rule now m m'
      → open_chain rule now (m k) ≡ open_chain rule now (m' k)
  open_chain-Alike rule now m m' k h =
      sym (open_chain-live rule now (m k))
      ∙ ap (open_chain rule now) (h k)
      ∙ open_chain-live rule now (m' k)

  -- Two runs of a round end alike, and trigger the same.
  abbrev SameRound :
      CorrelationRule
      → ℕ
      → Chains V × List (Correlation V)
      → Chains V × List (Correlation V)
      → Type 0
  SameRound rule now r r' = Alike rule now r.0 r'.0 × (r.1 ≡ r'.1)

  settle-SameRound :
      (rule : CorrelationRule) (v : Text) (now : ℕ) (m m' : Chains V) (s : ChainState V)
      → Alike rule now m m'
      → SameRound rule now (settle rule v now m s) (settle rule v now m' s)
  unfolding settle
  settle-SameRound rule v now m m' s h = ((λ k. ground (arith, h k)), ground arith)

module _ {V : Type 0} where
  abbrev AlikeStates : ℕ → List CorrelationRule → List (Chains V) → List (Chains V) → Type 0
  AlikeStates now [] ms ms' = Unit
  AlikeStates now (r ∷ rs) [] [] = Unit
  AlikeStates now (r ∷ rs) (m ∷ ms) (m' ∷ ms') = Alike r now m m' × AlikeStates now rs ms ms'
  AlikeStates now (r ∷ rs) _ _ = ⊥

  AlikeStates-refl :
      (now : ℕ) (rules : List CorrelationRule) (ms : List (Chains V)) → AlikeStates now rules ms ms
  AlikeStates-refl now [] ms = tt
  AlikeStates-refl now (r ∷ rs) [] = tt
  AlikeStates-refl now (r ∷ rs) (m ∷ ms) = ((λ k. refl), AlikeStates-refl now rs ms)

  AlikeStates-later :
      (now later : ℕ) (rules : List CorrelationRule) (ms ms' : List (Chains V))
      → now ≤ later
      → AlikeStates now rules ms ms'
      → AlikeStates later rules ms ms'
  AlikeStates-later now later [] ms ms' le h = tt
  AlikeStates-later now later (r ∷ rs) [] [] le h = tt
  AlikeStates-later now later (r ∷ rs) [] (m' ∷ ms') le h = h
  AlikeStates-later now later (r ∷ rs) (m ∷ ms) [] le h = h
  AlikeStates-later now later (r ∷ rs) (m ∷ ms) (m' ∷ ms') le h =
      (Alike-later r now later m m' le h.0, AlikeStates-later now later rs ms ms' le h.1)

  AlikeStates-evict_all :
      (now : ℕ) (rules : List CorrelationRule) (ms ms' : List (Chains V))
      → AlikeStates now rules ms ms'
      → AlikeStates now rules (evict_all now rules ms) ms'
  unfolding evict_all
  AlikeStates-evict_all now [] ms ms' h = tt
  AlikeStates-evict_all now (r ∷ rs) [] [] h = tt
  AlikeStates-evict_all now (r ∷ rs) [] (m' ∷ ms') h = h
  AlikeStates-evict_all now (r ∷ rs) (m ∷ ms) [] h = h
  AlikeStates-evict_all now (r ∷ rs) (m ∷ ms) (m' ∷ ms') h =
      (Alike-evict r now m m' h.0, AlikeStates-evict_all now rs ms ms' h.1)

  -- The two engines have the same rules, and chains that differ where they are expired.
  pub record AlikeEngines (now : ℕ) (e e' : Engine V) : Type 0 where
    same_rules : e.rules ≡ e'.rules
    alike : AlikeStates now e.rules e.states e'.states

  count_feed-AlikeEngines :
      (now : ℕ) (e e' : Engine V) → AlikeEngines now e e' → AlikeEngines now (count_feed now e) e'
  unfolding count_feed
  count_feed-AlikeEngines now e e' h =
      ground
        (arith, h.same_rules, h.alike, AlikeStates-evict_all now e.rules e.states e'.states h.alike)

  AlikeEngines-later :
      (now later : ℕ) (e e' : Engine V)
      → now ≤ later
      → AlikeEngines now e e'
      → AlikeEngines later e e'
  AlikeEngines-later now later e e' le h = record {
    same_rules = h.same_rules;
    alike = AlikeStates-later now later e.rules e.states e'.states le h.alike;
  }

module _ {V : Type 0} ⦃J : Json V⦄ where
  join_chain-SameRound :
      (rule : CorrelationRule) (alert : V) (now : ℕ) (matching : List ℕ) (o : Option Text)
      (m m' : Chains V)
      → Alike rule now m m'
      → SameRound rule now
          (join_chain rule alert now matching o m)
          (join_chain rule alert now matching o m')
  unfolding join_chain advance_chain
  join_chain-SameRound rule alert now matching none m m' h = (h, refl)
  join_chain-SameRound rule alert now matching (some []) m m' h = (h, refl)
  join_chain-SameRound rule alert now matching (some (c ∷ v)) m m' h =
      rw (open_chain-Alike rule now m m' (c ∷ v) h) (
        settle-SameRound rule (c ∷ v) now m m'
          (count_steps rule.ordered (min_counts rule.steps) (sample_of alert)
            (open_chain rule now (m' (c ∷ v))) matching)
          h)

  feed_rule-SameRound :
      (alert : V) (id : Text) (now : ℕ) (rule : CorrelationRule) (m m' : Chains V)
      → Alike rule now m m'
      → SameRound rule now (feed_rule alert id now rule m) (feed_rule alert id now rule m')
  unfolding feed_rule
  feed_rule-SameRound alert id now rule m m' h = elim (List-cases (matching_from id 0 rule.steps)) [
    | inl e ↦ rw (e, feed_rule) (h, refl)
    | inr (i, more, e) ↦
        rw (e, feed_rule)
          (join_chain-SameRound rule alert now (i ∷ more) (extract_field alert rule.join_field) m m'
            h)
  ]

  feed_rules-AlikeStates :
      (alert : V) (id : Text) (now : ℕ) (rules : List CorrelationRule) (ms ms' : List (Chains V))
      → AlikeStates now rules ms ms'
      → AlikeStates now rules
          (feed_rules alert id now rules ms).0
          (feed_rules alert id now rules ms').0
        × ((feed_rules alert id now rules ms).1 ≡ (feed_rules alert id now rules ms').1)
  unfolding feed_rules
  feed_rules-AlikeStates alert id now [] ms ms' h = (tt, refl)
  feed_rules-AlikeStates alert id now (r ∷ rs) [] [] h = (tt, refl)
  feed_rules-AlikeStates alert id now (r ∷ rs) [] (m' ∷ ms') h = absurd h
  feed_rules-AlikeStates alert id now (r ∷ rs) (m ∷ ms) [] h = absurd h
  feed_rules-AlikeStates alert id now (r ∷ rs) (m ∷ ms) (m' ∷ ms') h =
      let round = feed_rule-SameRound alert id now r m m' h.0 in
      let rest = feed_rules-AlikeStates alert id now rs ms ms' h.1 in
      ((round.0, rest.0), rw (round.1, rest.1))

  feed_counted-AlikeEngines :
      (alert : V) (id : Text) (now : ℕ) (e e' : Engine V)
      → AlikeEngines now e e'
      → AlikeEngines now (feed_counted alert id now e).0 (feed_counted alert id now e').0
        × ((feed_counted alert id now e).1 ≡ (feed_counted alert id now e').1)
  unfolding feed_counted
  feed_counted-AlikeEngines alert id now e e' h =
      let fed = feed_rules-AlikeStates alert id now e.rules e.states e'.states h.alike in
      (
        record { same_rules = h.same_rules; alike = rw (← h.same_rules) fed.0 },
        rw (← h.same_rules) fed.1,
      )

  feed_at-AlikeEngines :
      (alert : V) (now : ℕ) (e e' : Engine V)
      → AlikeEngines now e e'
      → AlikeEngines now (feed_at alert now e).0 (feed_keeping alert now e').0
        × ((feed_at alert now e).1 ≡ (feed_keeping alert now e').1)
  unfolding feed_at feed_keeping
  feed_at-AlikeEngines alert now e e' h = elim (Option-cases (get_str alert (codes "rule_id"))) [
    | inl no_id ↦ rw (no_id, feed_at, feed_keeping) (h, refl)
    | inr (id, some_id) ↦
        rw (some_id, feed_at, feed_keeping)
          (feed_counted-AlikeEngines alert id now (count_feed now e) e'
            (count_feed-AlikeEngines now e e' h))
  ]

  -- Arrival times that never fall, from `start` on.
  abbrev pub InOrder : ℕ → List (V × ℕ) → Type 0
  InOrder start [] = Unit
  InOrder start ((alert, now) ∷ rest) = (start ≤ now) × InOrder now rest

  feed_all-alike :
      (history : List (V × ℕ)) (start : ℕ) (e e' : Engine V)
      → InOrder start history
      → AlikeEngines start e e'
      → (feed_all history e).1 ≡ (feed_all_keeping history e').1
  unfolding feed_all feed_all_keeping
  feed_all-alike [] start e e' o h = refl
  feed_all-alike ((alert, now) ∷ rest) start e e' o h =
      let fed = feed_at-AlikeEngines alert now e e' (AlikeEngines-later start now e e' o.0 h) in
      ap₂ (λ c cs. c ∷ cs) fed.1
        (feed_all-alike rest now (feed_at alert now e).0 (feed_keeping alert now e').0 o.1 fed.0)

  -- From any engine, over any history of alerts whose arrival times do not fall, the engine emits
  -- exactly the correlation alerts, alert by alert, that it would emit if it never evicted.
  pub feed_all-keeping :
      (history : List (V × ℕ)) (start : ℕ) (e : Engine V)
      → InOrder start history
      → (feed_all history e).1 ≡ (feed_all_keeping history e).1
  feed_all-keeping history start e o =
      feed_all-alike history start e e o
        (record { same_rules = refl; alike = AlikeStates-refl start e.rules e.states })
