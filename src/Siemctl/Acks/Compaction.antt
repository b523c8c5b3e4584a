-- ===== src/Siemctl/Acks/Compaction.antt =====
-- src/siemctl/src/alerts.rs, `compact_ack_log`: the lines that are dropped hide no recent alert.
use headless_siem.Prelude.{
  ◌≡◌, refl, sym, ap, ◌∙◌, Text, Bool, true, false, Bool-cases, ◌&&◌, ◌||◌, Option, Option-cases,
  none, some, List, [], ◌∷◌, ◌==◌, nat_eq, list_eq, ℤ, is_empty, Every, inl, inr,
}
use mathlib.Core.Bool.{true≢false}
use mathlib.Core.Option.{some-injective}
use headless_siem.Prelude.Options.{◌>>=◌, bind-steps}
use headless_siem.Json.{Json}
use headless_siem.Siemctl.Acks.{
  int_leb, timestamp_of, rule_id_of, filter_acked, ack_of, ack_of_value, load_ack_watermarks,
  compact_lines, line_timestamp, not_before,
}
use headless_siem.Siemctl.Acks.Hiding.{
  int_leb_trans, hides, any_hides, is_hidden, not_hidden, filter_acked-not_hidden,
}

and_false : (a : Bool) → (a && false) ≡ false
and_false true = refl
and_false false = refl

module _ {V : Type 0} ⦃J : Json V⦄ (from_str : Text → Option V) where
  ack_of_value-timestamp :
      (v : V) (k : Text) (t : ℤ) → ack_of_value from_str v ≡ some (k, t) → timestamp_of v ≡ some t
  unfolding ack_of_value
  ack_of_value-timestamp v k t h =
      let (k', p, h₁) =
        bind-steps (rule_id_of v) (λ k. timestamp_of v >>= λ ts. some (k, ts)) (k, t) h in
      let (t', q, h₂) = bind-steps (timestamp_of v) (λ ts. some (k', ts)) (k, t) h₁ in
      q ∙ ap (λ (r : Text × ℤ). some r.1) (some-injective (k', t') (k, t) h₂)

  ack_of-timestamp :
      (line : Text) (k : Text) (t : ℤ)
      → is_empty line ≡ false
      → ack_of from_str line ≡ some (k, t)
      → line_timestamp from_str line ≡ some t
  unfolding ack_of
  ack_of-timestamp [] k t e h = absurd (true≢false e)
  ack_of-timestamp (c ∷ line) k t e h =
      let (v, p, h₁) = bind-steps (from_str (c ∷ line)) (ack_of_value from_str) (k, t) h in
      ap (λ r. r >>= timestamp_of) p ∙ ack_of_value-timestamp v k t h₁

  -- A line that the compaction drops.
  dropped-hides :
      (cutoff ts : ℤ) (rule_id line : Text)
      → is_empty line ≡ false
      → not_before from_str cutoff (line_timestamp from_str line) ≡ false
      → int_leb cutoff ts ≡ true
      → hides rule_id ts (ack_of from_str line) ≡ false
  dropped-hides cutoff ts rule_id line e old recent = elim (Option-cases (ack_of from_str line)) [
    | inl q ↦ rw q refl
    | inr found ↦
        let ((k, t), q) = found in
        let older = sym (ap (not_before from_str cutoff) (ack_of-timestamp line k t e q)) ∙ old in
        rw q (elim (Bool-cases (int_leb ts t)) [
          | inl p ↦ absurd (true≢false (sym (int_leb_trans cutoff ts t recent p) ∙ older))
          | inr p ↦ rw p (and_false (k == rule_id))
        ])
  ]

  empty-hides :
      (ts : ℤ) (rule_id line : Text)
      → is_empty line ≡ true
      → hides rule_id ts (ack_of from_str line) ≡ false
  unfolding ack_of
  empty-hides ts rule_id [] e = refl
  empty-hides ts rule_id (c ∷ line) e = absurd (true≢false (sym e))

  any_hides-compact :
      (cutoff ts : ℤ) (rule_id : Text) (lines : List Text)
      → int_leb cutoff ts ≡ true
      → any_hides from_str rule_id ts (compact_lines from_str cutoff lines).0
        ≡ any_hides from_str rule_id ts lines
  unfolding compact_lines
  any_hides-compact cutoff ts rule_id [] recent = refl
  any_hides-compact cutoff ts rule_id (line ∷ lines) recent =
      let later = any_hides-compact cutoff ts rule_id lines recent in
      elim (Bool-cases (is_empty line)) [
        | inl e ↦ rw (e, compact_lines) rw (empty-hides ts rule_id line e) later
        | inr e ↦
            rw (e, compact_lines)
              (elim (Bool-cases (not_before from_str cutoff (line_timestamp from_str line))) [
                | inl keep ↦ rw keep (ap (λ b. hides rule_id ts (ack_of from_str line) || b) later)
                | inr old ↦ rw old rw (dropped-hides cutoff ts rule_id line e old recent) later
              ])
      ]

  is_hidden-compact :
      (cutoff : ℤ) (lines : List Text) (rule_id : Option Text) (ts : Option ℤ)
      → not_before from_str cutoff ts ≡ true
      → is_hidden from_str rule_id ts (compact_lines from_str cutoff lines).0
        ≡ is_hidden from_str rule_id ts lines
  unfolding is_hidden
  is_hidden-compact cutoff lines none ts recent = refl
  is_hidden-compact cutoff lines (some rule_id) none recent = refl
  is_hidden-compact cutoff lines (some rule_id) (some ts) recent =
      any_hides-compact cutoff ts rule_id lines recent

  -- The alert is not older than the cutoff, or has no timestamp.
  abbrev pub Recent : ℤ → V → Type 0
  Recent cutoff r = not_before from_str cutoff (timestamp_of r) ≡ true

  not_hidden-compact :
      (cutoff : ℤ) (lines : List Text) (records : List V)
      → Every (Recent cutoff) records
      → not_hidden from_str records (compact_lines from_str cutoff lines).0
        ≡ not_hidden from_str records lines
  unfolding not_hidden
  not_hidden-compact cutoff lines [] recent = refl
  not_hidden-compact cutoff lines (r ∷ records) recent =
      rw (is_hidden-compact cutoff lines (rule_id_of r) (timestamp_of r) recent.0) rw
        (not_hidden-compact cutoff lines records recent.1) refl

  -- The compaction of the ack file at a cutoff changes nothing for alerts that are not older than the
  -- cutoff or have no timestamp: `filter_acked` keeps the same of them as before.
  pub filter_acked-compact_lines :
      (cutoff : ℤ) (lines : List Text) (records : List V)
      → Every (Recent cutoff) records
      → filter_acked records (load_ack_watermarks from_str (compact_lines from_str cutoff lines).0)
        ≡ filter_acked records (load_ack_watermarks from_str lines)
  filter_acked-compact_lines cutoff lines records recent =
      filter_acked-not_hidden from_str records (compact_lines from_str cutoff lines).0
      ∙ not_hidden-compact cutoff lines records recent
      ∙ sym (filter_acked-not_hidden from_str records lines)
