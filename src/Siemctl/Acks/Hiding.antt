-- ===== src/Siemctl/Acks/Hiding.antt =====
-- src/siemctl/src/alerts.rs: which alerts the acks hide.
use headless_siem.Prelude.{
  ◌≡◌, refl, ap, ◌∙◌, Text, Bool, true, false, Bool-cases, not, ◌&&◌, ◌||◌, Option, none, some,
  List, [], ◌∷◌, ◌==◌, ==_iff, nat_eq, list_eq, any, if◌then◌else◌, HashMap, empty_map, ℤ, pos,
  negsuc, arith, inl, inr,
}
use headless_siem.Json.{Json}
use headless_siem.Siemctl.Acks.{
  int_leb, int_max, raise, raise_some, newer_than, timestamp_of, rule_id_of, is_kept, filter_acked,
  ack_of, raise_all, load_ack_watermarks, raised,
}

int_leb-int_max : (t a b : ℤ) → int_leb t (int_max a b) ≡ (int_leb t a || int_leb t b)
unfolding int_leb
int_leb-int_max (pos t) (pos a) (pos b) = ground arith
int_leb-int_max (pos t) (pos a) (negsuc b) = ground arith
int_leb-int_max (pos t) (negsuc a) (pos b) = ground arith
int_leb-int_max (pos t) (negsuc a) (negsuc b) = ground arith
int_leb-int_max (negsuc t) (pos a) (pos b) = ground arith
int_leb-int_max (negsuc t) (pos a) (negsuc b) = ground arith
int_leb-int_max (negsuc t) (negsuc a) (pos b) = ground arith
int_leb-int_max (negsuc t) (negsuc a) (negsuc b) = ground arith

pub int_leb_trans : (a b c : ℤ) → int_leb a b ≡ true → int_leb b c ≡ true → int_leb a c ≡ true
unfolding int_leb
int_leb_trans (pos a) (pos b) (pos c) p q = ground (arith, p, q)
int_leb_trans (pos a) (pos b) (negsuc c) p q = q
int_leb_trans (pos a) (negsuc b) c p q = ground (arith, p)
int_leb_trans (negsuc a) b (pos c) p q = refl
int_leb_trans (negsuc a) (pos b) (negsuc c) p q = ground (arith, q)
int_leb_trans (negsuc a) (negsuc b) (negsuc c) p q = ground (arith, p, q)

-- Whether an ack hides the alerts of a rule at a moment.
abbrev pub hides : Text → ℤ → Option (Text × ℤ) → Bool
hides rule_id ts none = false
hides rule_id ts (some (acked, up_to)) = acked == rule_id && int_leb ts up_to

-- Whether a watermark hides them.
abbrev marked : ℤ → Option ℤ → Bool
marked ts none = false
marked ts (some w) = int_leb ts w

int_leb-raised :
    (ts up_to : ℤ) (o : Option ℤ) → int_leb ts (raised up_to o) ≡ (marked ts o || int_leb ts up_to)
int_leb-raised ts up_to none = refl
int_leb-raised ts up_to (some w) = int_leb-int_max ts w up_to

or_false : (a b : Bool) → a ≡ (a || (false && b))
or_false true b = refl
or_false false b = refl

or_assoc : (a b c : Bool) → ((a || b) || c) ≡ (a || (b || c))
or_assoc true b c = refl
or_assoc false b c = refl

marked-raise :
    (rule_id : Text) (ts : ℤ) (a : Option (Text × ℤ)) (m : HashMap Text ℤ)
    → marked ts (raise_some a m rule_id) ≡ (marked ts (m rule_id) || hides rule_id ts a)
unfolding raise
marked-raise rule_id ts none m = or_false (marked ts (m rule_id)) true
marked-raise rule_id ts (some (acked, up_to)) m = elim (Bool-cases (acked == rule_id)) [
  | inl e ↦
      rw (e, raise)
        (int_leb-raised ts up_to (m acked)
          ∙ ap (λ k. marked ts (m k) || int_leb ts up_to) ((==_iff acked rule_id).0 e))
  | inr e ↦ rw (e, raise) (or_false (marked ts (m rule_id)) (int_leb ts up_to))
]

newer_than-marked : (ts : ℤ) (o : Option ℤ) → newer_than o (some ts) ≡ not (marked ts o)
newer_than-marked ts none = refl
newer_than-marked ts (some w) = refl

newer_than-untimed : (o : Option ℤ) → newer_than o none ≡ true
newer_than-untimed none = refl
newer_than-untimed (some w) = refl

swap {ℓ} :
    {A : Type ℓ} (b : Bool) (r : A) (rest : List A)
    → (if not b then r ∷ rest else rest) ≡ (if b then rest else r ∷ rest)
swap true r rest = refl
swap false r rest = refl

module _ {V : Type 0} ⦃J : Json V⦄ (from_str : Text → Option V) where
  abbrev pub any_hides : Text → ℤ → List Text → Bool
  any_hides rule_id ts lines = any (λ line. hides rule_id ts (ack_of from_str line)) lines

  raise_all-marked :
      (rule_id : Text) (ts : ℤ) (lines : List Text) (m : HashMap Text ℤ)
      → marked ts (raise_all from_str lines m rule_id)
        ≡ (marked ts (m rule_id) || any_hides rule_id ts lines)
  unfolding raise_all
  raise_all-marked rule_id ts [] m = or_false (marked ts (m rule_id)) true
  raise_all-marked rule_id ts (line ∷ lines) m =
      let a = ack_of from_str line in
      raise_all-marked rule_id ts lines (raise_some a m)
      ∙ ap (λ b. b || any_hides rule_id ts lines) (marked-raise rule_id ts a m)
      ∙ or_assoc (marked ts (m rule_id)) (hides rule_id ts a) (any_hides rule_id ts lines)

  -- An alert is hidden if it has a rule and a timestamp, and some line acknowledges the rule up to
  -- that moment or a later one.
  unfoldable pub is_hidden : Option Text → Option ℤ → List Text → Bool
  is_hidden none ts lines = false
  is_hidden (some rule_id) none lines = false
  is_hidden (some rule_id) (some ts) lines = any_hides rule_id ts lines

  newer_than-is_hidden :
      (rule_id : Text) (ts : Option ℤ) (lines : List Text)
      → newer_than (load_ack_watermarks from_str lines rule_id) ts
        ≡ not (is_hidden (some rule_id) ts lines)
  unfolding is_hidden load_ack_watermarks
  newer_than-is_hidden rule_id none lines =
      newer_than-untimed (raise_all from_str lines empty_map rule_id)
  newer_than-is_hidden rule_id (some ts) lines =
      newer_than-marked ts (raise_all from_str lines empty_map rule_id)
      ∙ ap not (raise_all-marked rule_id ts lines empty_map)

  is_kept-is_hidden :
      (r : V) (lines : List Text)
      → is_kept (load_ack_watermarks from_str lines) r
        ≡ not (is_hidden (rule_id_of r) (timestamp_of r) lines)
  is_kept-is_hidden r lines =
      elim (rule_id_of r)
        as (λ o.
          (elim o [
            | none ↦ true
            | some rule_id ↦
                newer_than (load_ack_watermarks from_str lines rule_id) (timestamp_of r)
          ])
          ≡ not (is_hidden o (timestamp_of r) lines)) [
            | none ↦ unfold is_hidden in refl
            | some rule_id ↦ newer_than-is_hidden rule_id (timestamp_of r) lines
          ]

  -- The records that are not hidden by any line.
  unfoldable pub not_hidden : List V → List Text → List V
  unfolding is_hidden
  not_hidden [] lines = []
  not_hidden (r ∷ records) lines =
      let rest = not_hidden records lines in
      if is_hidden (rule_id_of r) (timestamp_of r) lines then rest else r ∷ rest

  -- `filter_acked` on the watermarks of a file keeps exactly the alerts for which the file has no line
  -- with their rule and the same or a later moment; an alert without a rule or without a timestamp is
  -- kept.
  pub filter_acked-not_hidden :
      (records : List V) (lines : List Text)
      → filter_acked records (load_ack_watermarks from_str lines) ≡ not_hidden records lines
  unfolding filter_acked not_hidden
  filter_acked-not_hidden [] lines = refl
  filter_acked-not_hidden (r ∷ records) lines =
      rw (is_kept-is_hidden r lines) rw (filter_acked-not_hidden records lines)
        (swap (is_hidden (rule_id_of r) (timestamp_of r) lines) r (not_hidden records lines))
