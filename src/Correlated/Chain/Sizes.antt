-- ===== src/Correlated/Chain/Sizes.antt =====
-- What `count_steps` keeps of a chain: its sizes and the range of its cursor.
use headless_siem.Prelude.{
  ℕ, ◌+◌, ◌≤◌, ◌<◌, ◌≡◌, refl, Bool, List, [], ◌∷◌, ◌++◌, length, length-append, length-set, get_or,
  get_or-set, length-replicate, get_or-replicate, arith,
}
use headless_siem.Correlated.Chain.{ChainState, new_chain, count_step, count_steps, push_sample}

abbrev pub AllBelow : ℕ → List ℕ → Type 0
AllBelow n [] = Unit
AllBelow n (i ∷ is) = (i < n) × AllBelow n is

module _ {V : Type 0} where
  -- Every index that the engine uses is in range, and no step keeps more than three samples.
  pub record Fits (mins : List ℕ) (state : ChainState V) : Type 0 where
    pub counts_fit : length state.step_counts ≡ length mins
    pub samples_fit : length state.step_samples ≡ length mins
    pub cursor_fits : state.current_step ≤ length mins
    pub few_samples : (i : ℕ) → length (get_or state.step_samples i []) ≤ 3

  pub new_chain-Fits : (mins : List ℕ) (now : ℕ) → Fits mins (new_chain (length mins) now)
  unfolding new_chain
  new_chain-Fits mins now = record {
    counts_fit = length-replicate (length mins) 0;
    samples_fit = length-replicate (length mins) [];
    cursor_fits = omega arith;
    few_samples = λ i. ground (arith, get_or-replicate {A = List V} (length mins) i []);
  }

  few_samples-push :
      (sample : V) (samples : List (List V)) (idx : ℕ)
      → ((i : ℕ) → length (get_or samples i []) ≤ 3)
      → (i : ℕ) → length (get_or (push_sample sample samples idx) i []) ≤ 3
  unfolding push_sample
  few_samples-push sample samples idx h i = ground (
    arith,
    h i,
    get_or-set samples idx i (get_or samples idx [] ++ sample ∷ []) [],
    length-append (get_or samples idx []) (sample ∷ []),
  )

  length-push_sample :
      (sample : V) (samples : List (List V)) (idx : ℕ)
      → length (push_sample sample samples idx) ≡ length samples
  unfolding push_sample
  length-push_sample sample samples idx =
      ground (arith, length-set samples idx (get_or samples idx [] ++ sample ∷ []))

  pub count_step-Fits :
      (ordered : Bool) (mins : List ℕ) (sample : V) (state : ChainState V) (idx : ℕ)
      → idx < length mins
      → Fits mins state
      → Fits mins (count_step ordered mins sample state idx)
  unfolding count_step
  count_step-Fits ordered mins sample state idx lt h = record {
    counts_fit = ground (
      arith,
      h.counts_fit,
      length-set state.step_counts idx (get_or state.step_counts idx 0 + 1),
    );
    samples_fit = ground (arith, h.samples_fit, length-push_sample sample state.step_samples idx);
    cursor_fits = ground (arith, h.cursor_fits);
    few_samples = λ i.
        ground
          (arith, h.few_samples i, few_samples-push sample state.step_samples idx h.few_samples i);
  }

  -- All the steps that an alert matches are in range, so the whole loop keeps the sizes.
  pub count_steps-Fits :
      (ordered : Bool) (mins : List ℕ) (sample : V) (state : ChainState V) (matching : List ℕ)
      → AllBelow (length mins) matching
      → Fits mins state
      → Fits mins (count_steps ordered mins sample state matching)
  unfolding count_steps
  count_steps-Fits ordered mins sample state [] lt h = h
  count_steps-Fits ordered mins sample state (i ∷ rest) lt h =
      count_steps-Fits ordered mins sample (count_step ordered mins sample state i) rest lt.1
        (count_step-Fits ordered mins sample state i lt.0 h)

  pub chain_start-count_steps :
      (ordered : Bool) (mins : List ℕ) (sample : V) (state : ChainState V) (matching : List ℕ)
      → (count_steps ordered mins sample state matching).chain_start ≡ state.chain_start
  unfolding count_steps count_step
  chain_start-count_steps ordered mins sample state [] = refl
  chain_start-count_steps ordered mins sample state (i ∷ rest) = ground (
    arith,
    chain_start-count_steps ordered mins sample (count_step ordered mins sample state i) rest,
  )

pub chain_start-new_chain : (V : Type 0) (n now : ℕ) → (new_chain {V = V} n now).chain_start ≡ now
unfolding new_chain
chain_start-new_chain V n now = refl
