-- ===== src/Ruled/Pipeline.antt =====
-- src/ruled/src/main.rs: the loop over the input lines.
use headless_siem.Prelude.{
  ℕ, ◌+◌, Text, is_empty, Bool, false, not, Option, none, some, List, [], ◌∷◌, if◌then◌else◌,
}
use headless_siem.Json.{Json}
use headless_siem.Ruled.Suppress.Rules.{SuppressSet, is_suppressed}
use headless_siem.Ruled.Sigma.Rule.{Rule, matches}
use headless_siem.Ruled.Router.{AlertRouter, Sink, Io, emit}

-- What the loop meets at its next round: the signal that clears `running`, a read error, or a line.
pub data Input : Type 0 where
  signalled read_error : Input
  line : Text → Input

-- The state of `main`. `calls` counts the calls of `emit`, which read the clock and write.
pub record State : Type 0 where
  pub router : AlertRouter
  pub sink : Sink
  pub suppressed_count : ℕ
  pub calls : ℕ

-- The clock, and the answers of the operating system, at each call of `emit`.
pub record Environment : Type 0 where
  pub clock : ℕ → ℕ
  pub io : ℕ → Io

suppressed_by : {V : Type 0} ⦃J : Json V⦄ → Option SuppressSet → Text → V → Bool
suppressed_by none rule_id event = false
suppressed_by (some set) rule_id event = is_suppressed set rule_id event

module _ {V : Type 0} ⦃J : Json V⦄ (lower : Text → Text) (suppress : Option SuppressSet)
    (env : Environment) where
  -- `router.emit(…)`, whose result is dropped.
  pub emit_alert : Rule → V → State → State
  emit_alert rule event st =
      let (router, sink, result) =
        emit (env.io st.calls) (env.clock st.calls) rule.id rule.title rule.level event st.router
          st.sink in
      record st { router = router; sink = sink; calls = st.calls + 1 }

  -- The body of the loop over the rules.
  pub eval_rule : V → Rule → State → State
  unfolding suppressed_by emit_alert
  eval_rule event rule st =
      if not (matches lower rule event)
      then st
      else if suppressed_by suppress rule.id event
      then record st { suppressed_count = st.suppressed_count + 1 }
      else emit_alert rule event st

  pub eval_rules : V → List Rule → State → State
  unfolding eval_rule
  eval_rules event [] st = st
  eval_rules event (rule ∷ rest) st = eval_rules event rest (eval_rule event rule st)

  eval_parsed : List Rule → Option V → State → State
  unfolding eval_rules
  eval_parsed rules none st = st
  eval_parsed rules (some event) st = eval_rules event rules st

  -- The loop over the lines; `from_str` is the parser of `serde_json`.
  pub run : (Text → Option V) → List Rule → List Input → State → State
  unfolding eval_parsed
  run from_str rules [] st = st
  run from_str rules (signalled ∷ rest) st = st
  run from_str rules (read_error ∷ rest) st = st
  run from_str rules (line text ∷ rest) st =
      run from_str rules rest (if is_empty text then st else eval_parsed rules (from_str text) st)
