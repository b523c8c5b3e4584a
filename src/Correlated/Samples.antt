-- ===== src/Correlated/Samples.antt =====
-- Concrete runs of the correlation engine: a brute-force rule over three alerts of one address.
use headless_siem.Prelude.{ℕ, ◌≡◌, refl, Text, codes, true, List, [], ◌∷◌, map, length, arith}
use headless_siem.Json.Sample.{Value, str, obj, field, end, sample_json}
use headless_siem.Correlated.Config.{CorrelationRule}
use headless_siem.Correlated.Engine.{
  new_engine, feed_all, feed_at, feed_rules, feed_rule, advance_chain, extract_field, sample_of,
  matching_from, open_chain,
}
use headless_siem.Correlated.Chain.{count_steps, count_step, new_chain, is_satisfied, all_met}
use headless_siem.Correlated.Engine.Histories.{
  AllFeeds, GoodEngine, feed_all_justified, feed_all-GoodEngine,
}
use headless_siem.Correlated.Engine.Eviction.{feed_all_keeping, feed_all-keeping}

abbrev brute_force : CorrelationRule
brute_force = record {
  id = codes "brute";
  title = codes "SSH brute force";
  description = [];
  join_field = codes "ip";
  window_seconds = 300;
  ordered = true;
  steps =
      record { rule_id = codes "fail"; min_count = 2 }
      ∷ record { rule_id = codes "ok"; min_count = 1 }
      ∷ [];
}

abbrev alert : Text → Text → Value
alert rule_id ip = obj (
    field (codes "rule_id") (str rule_id)
      (field (codes "event") (obj (field (codes "ip") (str ip) end)) end))

abbrev history : List (Value × ℕ)
history =
    (alert (codes "fail") (codes "10.0.0.1"), 1000)
    ∷ (alert (codes "fail") (codes "10.0.0.1"), 1001)
    ∷ (alert (codes "ok") (codes "10.0.0.2"), 1002)
    ∷ (alert (codes "ok") (codes "10.0.0.1"), 1003)
    ∷ []

-- The last alert completes the chain, and no other does.
fires_once : map length (feed_all history (new_engine (brute_force ∷ []))).1 ≡ 0 ∷ 0 ∷ 0 ∷ 1 ∷ []
unfolding feed_all new_engine feed_at feed_rules feed_rule advance_chain extract_field sample_of
    count_steps count_step matching_from new_chain open_chain is_satisfied all_met
fires_once = refl

feed_all_justified_example :
    AllFeeds (brute_force ∷ []) history (feed_all history (new_engine (brute_force ∷ []))).1
feed_all_justified_example = feed_all_justified (brute_force ∷ []) history (omega arith)

feed_all-GoodEngine_example : GoodEngine (feed_all history (new_engine (brute_force ∷ []))).0
feed_all-GoodEngine_example = feed_all-GoodEngine (brute_force ∷ []) history

feed_all-keeping_example :
    (feed_all history (new_engine (brute_force ∷ []))).1
    ≡ (feed_all_keeping history (new_engine (brute_force ∷ []))).1
feed_all-keeping_example =
    feed_all-keeping history 1000 (new_engine (brute_force ∷ [])) (omega arith)

-- An ordered rule of two steps with one rule id.
abbrev twice : CorrelationRule
twice = record {
  id = codes "twice";
  title = codes "Two in a row";
  description = [];
  join_field = codes "ip";
  window_seconds = 300;
  ordered = true;
  steps =
      record { rule_id = codes "fail"; min_count = 1 }
      ∷ record { rule_id = codes "fail"; min_count = 1 }
      ∷ [];
}

-- One alert counts for both steps, and completes the chain.
one_alert_for_two_steps :
    map length
      (feed_all ((alert (codes "fail") (codes "10.0.0.1"), 1000) ∷ []) (new_engine (twice ∷ []))).1
    ≡ 1 ∷ []
unfolding feed_all new_engine feed_at feed_rules feed_rule advance_chain extract_field sample_of
    count_steps count_step matching_from new_chain open_chain is_satisfied all_met
one_alert_for_two_steps = refl
