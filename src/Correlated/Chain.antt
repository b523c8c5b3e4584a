-- ===== src/Correlated/Chain.antt =====
-- src/correlated/src/correlation.rs, `ChainState`: the progress of one (rule, join value) pair.
pub mod Sizes
pub mod Progress
use headless_siem.Prelude.{
  ℕ, suc, ◌+◌, Bool, true, false, ◌&&◌, List, [], ◌∷◌, ◌++◌, map, length, get_or, set, replicate,
  ltb, leb, eqb, if◌then◌else◌,
}
use headless_siem.Correlated.Config.{Step, CorrelationRule}

pub record ChainState (V : Type 0) : Type 0 where
  pub step_counts : List ℕ
  pub step_samples : List (List V)
  pub chain_start : ℕ
  pub current_step : ℕ

-- `step_min_counts`
abbrev pub min_counts : List Step → List ℕ
min_counts steps = map (λ s. s.min_count) steps

-- `steps.iter().enumerate().all(…)`, from step `i` on
unfoldable pub all_met : List ℕ → ℕ → List Step → Bool
all_met counts i [] = true
all_met counts i (step ∷ rest) =
    leb step.min_count (get_or counts i 0) && all_met counts (suc i) rest

-- For ordered rules the cursor moves on once its step is done.
pub next_step : Bool → List ℕ → List ℕ → ℕ → ℕ → ℕ
next_step ordered mins counts current step_idx =
    if ordered && (eqb current step_idx && leb (get_or mins step_idx 0) (get_or counts step_idx 0))
    then current + 1
    else current

module _ {V : Type 0} where
  -- `ChainState::new`
  unfoldable pub new_chain : ℕ → ℕ → ChainState V
  new_chain num_steps now = record {
    step_counts = replicate num_steps 0;
    step_samples = replicate num_steps [];
    chain_start = now;
    current_step = 0;
  }

  unfoldable pub is_satisfied : ChainState V → CorrelationRule → Bool
  unfolding all_met
  is_satisfied state rule = all_met state.step_counts 0 rule.steps

  -- `should_count`
  pub should_count : Bool → List ℕ → ChainState V → ℕ → Bool
  should_count ordered mins state step_idx =
      if ordered
      then eqb step_idx state.current_step
      else ltb (get_or state.step_counts step_idx 0) (get_or mins step_idx 0)

  -- Up to three samples are kept for each step.
  pub push_sample : V → List (List V) → ℕ → List (List V)
  push_sample sample samples step_idx =
      if ltb (length (get_or samples step_idx [])) 3
      then set samples step_idx (get_or samples step_idx [] ++ sample ∷ [])
      else samples

  -- One round of `for &step_idx in &matching_steps`.
  unfoldable pub count_step : Bool → List ℕ → V → ChainState V → ℕ → ChainState V
  unfolding should_count push_sample next_step
  count_step ordered mins sample state step_idx =
      let counts = set state.step_counts step_idx (get_or state.step_counts step_idx 0 + 1) in
      if should_count ordered mins state step_idx
      then record state {
        step_counts = counts;
        step_samples = push_sample sample state.step_samples step_idx;
        current_step = next_step ordered mins counts state.current_step step_idx;
      }
      else state

  -- The loop over `matching_steps`.
  unfoldable pub count_steps : Bool → List ℕ → V → ChainState V → List ℕ → ChainState V
  count_steps ordered mins sample state [] = state
  count_steps ordered mins sample state (i ∷ rest) =
      count_steps ordered mins sample (count_step ordered mins sample state i) rest
