-- ===== src/Correlated/Chain/Progress.antt =====
-- What `count_steps` keeps of a chain: how far the counts of its steps are.
use headless_siem.Prelude.{
  ℕ, zero, suc, ◌+◌, ◌≤◌, ◌<◌, max, ◌≡◌, refl, ◌⊎◌, inl, Bool, true, List, [], ◌∷◌, length, get_or,
  get_or-set, get_or-replicate, set, arith, ap, ltb, eqb, if◌then◌else◌, ◌&&◌,
}
use native.Mathlib.Nat.{add-zero, zero-add, add-suc, suc-add}
use headless_siem.Correlated.Config.{Step, CorrelationRule}
use headless_siem.Correlated.Chain.Sizes.{AllBelow, Fits, count_step-Fits}
use headless_siem.Correlated.Chain.{
  min_counts, all_met, is_satisfied, ChainState, new_chain, count_step, count_steps,
}

module _ {V : Type 0} where
  -- The counts of a chain that has not fired: those of an ordered rule are complete before the
  -- cursor and empty behind it.
  pub record Progress (ordered : Bool) (mins : List ℕ) (state : ChainState V) : Type 0 where
    pub never_above : (i : ℕ) → get_or state.step_counts i 0 ≤ max 1 (get_or mins i 0)
    pub done_before :
        ordered ≡ true
        → (i : ℕ) → i < state.current_step
        → get_or mins i 0 ≤ get_or state.step_counts i 0
    pub none_behind :
        ordered ≡ true → (i : ℕ) → state.current_step < i → get_or state.step_counts i 0 ≡ 0
    pub pending :
        ordered ≡ true
        → let i = state.current_step in
          (get_or state.step_counts i 0 ≡ 0) ⊎ (get_or state.step_counts i 0 < get_or mins i 0)

  pub new_chain-Progress :
      (ordered : Bool) (mins : List ℕ) (n now : ℕ) → Progress ordered mins (new_chain n now)
  unfolding new_chain
  new_chain-Progress ordered mins n now = record {
    never_above = λ i. omega (arith, get_or-replicate n i (let z : ℕ = 0 in z));
    done_before = λ o i h. omega arith;
    none_behind = λ o i h. get_or-replicate n i 0;
    pending = λ o. inl (get_or-replicate n 0 0);
  }

  pub count_step-Progress :
      (ordered : Bool) (mins : List ℕ) (sample : V) (state : ChainState V) (idx : ℕ)
      → idx < length state.step_counts
      → Progress ordered mins state
      → Progress ordered mins (count_step ordered mins sample state idx)
  unfolding count_step
  count_step-Progress ordered mins sample state idx lt h = record {
    never_above = λ i. ground (arith, h.never_above i, h.pending, law i);
    done_before = λ o i b. ground (arith, h.done_before o i, h.pending o, law i);
    none_behind = λ o i b. ground (arith, h.none_behind o i, h.pending o, law i);
    pending = λ o. ground (arith, h.none_behind o (suc idx), h.pending o, law idx, law (suc idx));
  }
    where
      law :
          (i : ℕ)
          → get_or (set state.step_counts idx (get_or state.step_counts idx 0 + 1)) i 0 ≡ (
              if eqb idx i && ltb idx (length state.step_counts)
              then get_or state.step_counts idx 0 + 1
              else get_or state.step_counts i 0)
      law i = get_or-set state.step_counts idx i (get_or state.step_counts idx 0 + 1) 0

  pub count_steps-Progress :
      (ordered : Bool) (mins : List ℕ) (sample : V) (state : ChainState V) (matching : List ℕ)
      → AllBelow (length mins) matching
      → Fits mins state
      → Progress ordered mins state
      → Progress ordered mins (count_steps ordered mins sample state matching)
  unfolding count_steps
  count_steps-Progress ordered mins sample state [] lt f h = h
  count_steps-Progress ordered mins sample state (i ∷ rest) lt f h =
      count_steps-Progress ordered mins sample (count_step ordered mins sample state i) rest lt.1
        (count_step-Fits ordered mins sample state i lt.0 f)
        (count_step-Progress ordered mins sample state i (omega (arith, f.counts_fit, lt.0)) h)

-- Lists of one length that agree at every index are equal.
same_entries :
    (xs ys : List ℕ)
    → length xs ≡ length ys
    → ((i : ℕ) → i < length ys → get_or xs i 0 ≡ get_or ys i 0)
    → xs ≡ ys
same_entries [] [] h e = refl
same_entries [] (y ∷ ys) h e = absurd (omega arith)
same_entries (x ∷ xs) [] h e = absurd (omega arith)
same_entries (x ∷ xs) (y ∷ ys) h e =
    let rest = same_entries xs ys (omega arith) (λ i lt. e (suc i) (omega arith)) in
    cc (e 0 (omega arith), rest)

abbrev pub AllPositive : List Step → Type 0
AllPositive [] = Unit
AllPositive (s ∷ ss) = (1 ≤ s.min_count) × AllPositive ss

AllPositive-get_or :
    (steps : List Step) (i : ℕ)
    → AllPositive steps
    → i < length (min_counts steps)
    → 1 ≤ get_or (min_counts steps) i 0
AllPositive-get_or [] i p lt = elim lt [ ]
AllPositive-get_or (s ∷ ss) zero p lt = p.0
AllPositive-get_or (s ∷ ss) (suc i) p lt = AllPositive-get_or ss i p.1 (omega arith)

-- `all_met` from step `k` on is `count ≥ min_count` at each of the steps left.
pub all_met_at :
    (counts : List ℕ) (k : ℕ) (steps : List Step) (i : ℕ)
    → all_met counts k steps ≡ true
    → i < length (min_counts steps)
    → get_or (min_counts steps) i 0 ≤ get_or counts (k + i) 0
unfolding all_met
all_met_at counts k [] i h lt = elim lt [ ]
all_met_at counts k (s ∷ ss) zero h lt = ground (arith, ap (λ j. get_or counts j 0) (add-zero k))
all_met_at counts k (s ∷ ss) (suc i) h lt =
    rw (add-suc k i, ← suc-add k i) (all_met_at counts (suc k) ss i (ground arith) (omega arith))

module _ {V : Type 0} where
  -- The counts of a satisfied chain are the rule's minimum counts, neither fewer nor more.
  pub satisfied-exact :
      (ordered : Bool) (rule : CorrelationRule) (state : ChainState V)
      → AllPositive rule.steps
      → Fits (min_counts rule.steps) state
      → Progress ordered (min_counts rule.steps) state
      → is_satisfied state rule ≡ true
      → state.step_counts ≡ min_counts rule.steps
  unfolding is_satisfied
  satisfied-exact ordered rule state pos f p sat =
      same_entries state.step_counts (min_counts rule.steps) f.counts_fit λ i lt. omega (
        arith,
        all_met_at state.step_counts 0 rule.steps i sat lt,
        p.never_above i,
        AllPositive-get_or rule.steps i pos lt,
        ap (λ j. get_or state.step_counts j 0) (zero-add i),
      )
