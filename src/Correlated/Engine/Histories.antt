-- ===== src/Correlated/Engine/Histories.antt =====
-- The engine over a whole history of alerts: no rule's chain is ever ill-formed, and every
-- correlation alert is justified by one of the rules.
use headless_siem.Prelude.{
  ℕ, ◌≡◌, refl, sym, ◌∙◌, codes, empty_map, subst, ◌⊎◌, Text, List, [], ◌∷◌, ◌++◌, map, list_eq,
  nat_eq, arith, Option-cases, inl, inr,
}
use headless_siem.Json.{Json, get_str}
use headless_siem.Correlated.Config.{CorrelationRule}
use headless_siem.Correlated.Chain.{ChainState}
use headless_siem.Correlated.Chain.Progress.{AllPositive}
use headless_siem.Correlated.Engine.{
  Correlation, Chains, Engine, evict, evict_all, feed_rule, feed_rules, feed_at, feed_all,
  new_engine, count_feed, feed_counted,
}
use headless_siem.Correlated.Engine.Invariant.{GoodChains}
use headless_siem.Correlated.Engine.Rounds.{All, Justified, feed_rule-RoundOk}

module _ {V : Type 0} where
  -- Every rule has its map of chains, and the chains are those of its rule.
  abbrev pub GoodStates : List CorrelationRule → List (Chains V) → Type 0
  GoodStates [] [] = Unit
  GoodStates (r ∷ rs) (c ∷ cs) = GoodChains r c × GoodStates rs cs
  GoodStates _ _ = ⊥

  abbrev pub GoodEngine : Engine V → Type 0
  GoodEngine e = GoodStates e.rules e.states

  evict-GoodChains :
      (now : ℕ) (rule : CorrelationRule) (chains : Chains V)
      → GoodChains rule chains
      → GoodChains rule (evict now rule chains)
  unfolding evict
  evict-GoodChains now rule chains h k state e = h k state (ground arith)

  evict_all-GoodStates :
      (now : ℕ) (rules : List CorrelationRule) (states : List (Chains V))
      → GoodStates rules states
      → GoodStates rules (evict_all now rules states)
  unfolding evict_all
  evict_all-GoodStates now [] [] h = tt
  evict_all-GoodStates now [] (c ∷ cs) h = h
  evict_all-GoodStates now (r ∷ rs) [] h = h
  evict_all-GoodStates now (r ∷ rs) (c ∷ cs) h =
      (evict-GoodChains now r c h.0, evict_all-GoodStates now rs cs h.1)

  count_feed-GoodEngine : (now : ℕ) (e : Engine V) → GoodEngine e → GoodEngine (count_feed now e)
  unfolding count_feed
  count_feed-GoodEngine now e h = ground (arith, evict_all-GoodStates now e.rules e.states h, h)

empty-GoodStates :
    (V : Type 0) (rules : List CorrelationRule)
    → GoodStates {V = V} rules (map (λ r. empty_map {K = Text} {V = ChainState V}) rules)
empty-GoodStates V [] = tt
empty-GoodStates V (r ∷ rs) = ((λ k state e. cc), empty-GoodStates V rs)

pub new_engine-GoodEngine :
    (V : Type 0) (rules : List CorrelationRule) → GoodEngine (new_engine {V = V} rules)
unfolding new_engine
new_engine-GoodEngine V rules = empty-GoodStates V rules

pub new_engine-rules :
    (V : Type 0) (rules : List CorrelationRule) → (new_engine {V = V} rules).rules ≡ rules
unfolding new_engine
new_engine-rules V rules = refl

abbrev pub SomeRule : (CorrelationRule → Type 0) → List CorrelationRule → Type 0
SomeRule P [] = ⊥
SomeRule P (r ∷ rs) = P r ⊎ SomeRule P rs

abbrev pub AllRulesPositive : List CorrelationRule → Type 0
AllRulesPositive [] = Unit
AllRulesPositive (r ∷ rs) = AllPositive r.steps × AllRulesPositive rs

module _ {V : Type 0} where
  All-append :
      (P : Correlation V → Type 0) (xs ys : List (Correlation V))
      → All P xs
      → All P ys
      → All P (xs ++ ys)
  All-append P [] ys h k = k
  All-append P (x ∷ xs) ys h k = (h.0, All-append P xs ys h.1 k)

  All-weaken :
      (P Q : Correlation V → Type 0)
      → ((c : Correlation V) → P c → Q c)
      → (xs : List (Correlation V)) → All P xs
      → All Q xs
  All-weaken P Q f [] h = tt
  All-weaken P Q f (x ∷ xs) h = (f x h.0, All-weaken P Q f xs h.1)

module _ {V : Type 0} ⦃J : Json V⦄ where
  abbrev pub JustifiedBy : List CorrelationRule → V → ℕ → Correlation V → Type 0
  JustifiedBy rules alert now c = SomeRule (λ rule. Justified alert now rule c) rules

  feed_rules_ok :
      (alert : V) (id : Text) (now : ℕ) (rules : List CorrelationRule) (states : List (Chains V))
      → GoodStates rules states
      → GoodStates rules (feed_rules alert id now rules states).0
        × (AllRulesPositive rules
            → All (JustifiedBy rules alert now) (feed_rules alert id now rules states).1)
  unfolding feed_rules
  feed_rules_ok alert id now [] [] h = (tt, λ pos. tt)
  feed_rules_ok alert id now [] (c ∷ cs) h = absurd h
  feed_rules_ok alert id now (r ∷ rs) [] h = absurd h
  feed_rules_ok alert id now (r ∷ rs) (c ∷ cs) h =
      let round = feed_rule-RoundOk alert id now r c h.0 in
      let rest = feed_rules_ok alert id now rs cs h.1 in
      (
        (round.good, rest.0),
        λ pos.
            All-append (JustifiedBy (r ∷ rs) alert now) (feed_rule alert id now r c).1
              (feed_rules alert id now rs cs).1
              (All-weaken (Justified alert now r) (JustifiedBy (r ∷ rs) alert now) (λ c j. inl j)
                (feed_rule alert id now r c).1 (round.justified pos.0))
              (All-weaken (JustifiedBy rs alert now) (JustifiedBy (r ∷ rs) alert now) (λ c j. inr j)
                (feed_rules alert id now rs cs).1 (rest.1 pos.1)),
      )

  rules-count_feed : (now : ℕ) (e : Engine V) → (count_feed now e).rules ≡ e.rules
  unfolding count_feed
  rules-count_feed now e = ground arith

  -- What feeding one alert keeps of the engine, and what it emits.
  pub record FeedOk (alert : V) (now : ℕ) (e : Engine V) (r : Engine V × List (Correlation V))
      : Type 0 where
    pub good : GoodEngine r.0
    pub same_rules : r.0.rules ≡ e.rules
    pub justified : AllRulesPositive e.rules → All (JustifiedBy e.rules alert now) r.1

  feed_counted-FeedOk :
      (alert : V) (id : Text) (now : ℕ) (e : Engine V)
      → GoodEngine e
      → FeedOk alert now e (feed_counted alert id now e)
  unfolding feed_counted
  feed_counted-FeedOk alert id now e h =
      let fed = feed_rules_ok alert id now e.rules e.states h in
      record { good = fed.0; same_rules = refl; justified = fed.1 }

  pub feed_at-FeedOk :
      (alert : V) (now : ℕ) (e : Engine V) → GoodEngine e → FeedOk alert now e (feed_at alert now e)
  unfolding feed_at
  feed_at-FeedOk alert now e h = elim (Option-cases (get_str alert (codes "rule_id"))) [
    | inl none_id ↦
        rw (none_id, feed_at) (record { good = h; same_rules = refl; justified = λ pos. tt })
    | inr (id, some_id) ↦
        let same = rules-count_feed now e in
        let fed =
          feed_counted-FeedOk alert id now (count_feed now e) (count_feed-GoodEngine now e h) in
        rw (some_id, feed_at)
          (record {
            good = fed.good;
            same_rules = fed.same_rules ∙ same;
            justified =
                subst
                  (λ rules.
                    AllRulesPositive rules
                    → All (JustifiedBy rules alert now)
                        (feed_counted alert id now (count_feed now e)).1)
                  same fed.justified;
          })
  ]

  abbrev pub AllFeeds : List CorrelationRule → List (V × ℕ) → List (List (Correlation V)) → Type 0
  AllFeeds rules [] [] = Unit
  AllFeeds rules ((alert, now) ∷ rest) (cs ∷ css) =
      All (JustifiedBy rules alert now) cs × AllFeeds rules rest css
  AllFeeds rules _ _ = ⊥

  feed_all_from :
      (history : List (V × ℕ)) (rules : List CorrelationRule) (e : Engine V)
      → e.rules ≡ rules
      → GoodEngine e
      → GoodEngine (feed_all history e).0
        × (AllRulesPositive rules → AllFeeds rules history (feed_all history e).1)
  unfolding feed_all
  feed_all_from [] rules e same h = (h, λ pos. tt)
  feed_all_from ((alert, now) ∷ rest) rules e same h =
      let fed = feed_at-FeedOk alert now e h in
      let later =
        feed_all_from rest rules (feed_at alert now e).0 (fed.same_rules ∙ same) fed.good in
      (
        later.0,
        λ pos. (
          subst (λ rs. All (JustifiedBy rs alert now) (feed_at alert now e).1) same
              (fed.justified (subst AllRulesPositive (sym same) pos)),
          later.1 pos,
        ),
      )

  -- Whatever alerts arrive, at whatever times, each correlation alert that a fresh engine emits is
  -- justified by one of its rules, whose steps all ask for at least one alert: it has the rule's id,
  -- the non-empty join value of the alert that completed the chain and its arrival time, it spans at
  -- most the window, its step counts are exactly the rule's minimum counts, and it carries at most
  -- five events.
  pub feed_all_justified :
      (rules : List CorrelationRule) (history : List (V × ℕ))
      → AllRulesPositive rules
      → AllFeeds rules history (feed_all history (new_engine rules)).1
  feed_all_justified rules history pos =
      (feed_all_from history rules (new_engine rules) (new_engine-rules V rules)
          (new_engine-GoodEngine V rules)).1
        pos

  -- Whatever alerts arrive, at whatever times, the engine keeps one map of chains for each rule, and
  -- in each chain one count and one list of at most three samples for each step, with the cursor
  -- within the steps; no count passes its step's minimum (or one), and the counts of an ordered
  -- rule are complete before the cursor and zero behind it.
  pub feed_all-GoodEngine :
      (rules : List CorrelationRule) (history : List (V × ℕ))
      → GoodEngine (feed_all history (new_engine rules)).0
  feed_all-GoodEngine rules history =
      (feed_all_from history rules (new_engine rules) (new_engine-rules V rules)
        (new_engine-GoodEngine V rules)).0
