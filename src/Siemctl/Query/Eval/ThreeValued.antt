-- ===== src/Siemctl/Query/Eval/ThreeValued.antt =====
-- src/siemctl/src/query.rs, `eval_json` against the three-valued logic of SQL, in which a field
-- that is absent compares as NULL.
use headless_siem.Prelude.{
  Text, Bool, true, false, not, ◌&&◌, ◌||◌, Option, none, some, ◌≡◌, ◌≢◌, refl, sym, ap, ap₂, ◌∙◌,
  contains,
}
use headless_siem.Json.{Json}
use headless_siem.Siemctl.Query.Syntax.{field, text, Expr, both, either, negate, cond}
use headless_siem.Siemctl.Db.{MatchMode}
use headless_siem.Siemctl.Query.Eval.{matches, matches_present, resolved, eval_condition, eval_json}

-- SQL's logic, with NULL as `none`.
abbrev and3 : Option Bool → Option Bool → Option Bool
and3 (some false) b = some false
and3 (some true) b = b
and3 none (some false) = some false
and3 none (some true) = none
and3 none none = none

abbrev or3 : Option Bool → Option Bool → Option Bool
or3 (some true) b = some true
or3 (some false) b = b
or3 none (some true) = some true
or3 none (some false) = none
or3 none none = none

abbrev not3 : Option Bool → Option Bool
not3 none = none
not3 (some b) = some (not b)

-- `WHERE` keeps the rows for which the predicate is true.
abbrev pub holds : Option Bool → Bool
holds none = false
holds (some b) = b

holds-and3 : (a b : Option Bool) → holds (and3 a b) ≡ (holds a && holds b)
holds-and3 none none = refl
holds-and3 none (some true) = refl
holds-and3 none (some false) = refl
holds-and3 (some true) b = refl
holds-and3 (some false) b = refl

holds-or3 : (a b : Option Bool) → holds (or3 a b) ≡ (holds a || holds b)
holds-or3 none none = refl
holds-or3 none (some true) = refl
holds-or3 none (some false) = refl
holds-or3 (some true) b = refl
holds-or3 (some false) b = refl

and3-some : (a b : Bool) → and3 (some a) (some b) ≡ some (a && b)
and3-some true b = refl
and3-some false b = refl

or3-some : (a b : Bool) → or3 (some a) (some b) ≡ some (a || b)
or3-some true b = refl
or3-some false b = refl

module _ (to_lowercase : Text → Text) {V : Type 0} ⦃J : Json V⦄ (first_element : V → Option V) where
  abbrev compare3 : (Text → Bool) → Option Text → Option Bool
  compare3 p none = none
  compare3 p (some r) = some (p r)

  unfoldable pub eval3 : Expr → V → Option Bool
  eval3 (both a b) event = and3 (eval3 a event) (eval3 b event)
  eval3 (either a b) event = or3 (eval3 a event) (eval3 b event)
  eval3 (negate e) event = not3 (eval3 e event)
  eval3 (cond (field f value mode)) event =
      compare3 (matches to_lowercase mode value) (resolved to_lowercase first_element event f)
  eval3 (cond (text needle)) event = some (contains (J.to_text event) needle)

  -- Every field of the expression is present on the record.
  unfoldable pub AllPresent : Expr → V → Type 0
  AllPresent (both a b) event = AllPresent a event × AllPresent b event
  AllPresent (either a b) event = AllPresent a event × AllPresent b event
  AllPresent (negate e) event = AllPresent e event
  AllPresent (cond (field f value mode)) event = resolved to_lowercase first_element event f ≢ none
  AllPresent (cond (text needle)) event = Unit

  -- Every field that stands under a NOT is present on the record.
  unfoldable pub NegatedPresent : Expr → V → Type 0
  unfolding AllPresent
  NegatedPresent (both a b) event = NegatedPresent a event × NegatedPresent b event
  NegatedPresent (either a b) event = NegatedPresent a event × NegatedPresent b event
  NegatedPresent (negate e) event = AllPresent e event
  NegatedPresent (cond c) event = Unit

  compare3-present :
      (p : Text → Bool) (r : Option Text) → r ≢ none → compare3 p r ≡ some (holds (compare3 p r))
  compare3-present p none h = absurd (h refl)
  compare3-present p (some r) h = refl

  matches_present-holds :
      (mode : MatchMode) (value : Text) (r : Option Text)
      → matches_present to_lowercase first_element mode value r
        ≡ holds (compare3 (matches to_lowercase mode value) r)
  matches_present-holds mode value none = refl
  matches_present-holds mode value (some r) = refl

  eval3-present :
      (e : Expr) (event : V)
      → AllPresent e event
      → eval3 e event ≡ some (eval_json to_lowercase first_element e event)
  unfolding eval3 AllPresent eval_json eval_condition
  eval3-present (both a b) event h =
      ap₂ and3 (eval3-present a event h.0) (eval3-present b event h.1)
      ∙ and3-some (eval_json to_lowercase first_element a event)
          (eval_json to_lowercase first_element b event)
  eval3-present (either a b) event h =
      ap₂ or3 (eval3-present a event h.0) (eval3-present b event h.1)
      ∙ or3-some (eval_json to_lowercase first_element a event)
          (eval_json to_lowercase first_element b event)
  eval3-present (negate e) event h = ap not3 (eval3-present e event h)
  eval3-present (cond (field f value mode)) event h =
      compare3-present (matches to_lowercase mode value)
        (resolved to_lowercase first_element event f) h
      ∙ ap some
          (sym (matches_present-holds mode value (resolved to_lowercase first_element event f)))
  eval3-present (cond (text needle)) event h = refl

  -- On an alert on which every field that stands under a NOT is present as a scalar, `eval_json` is
  -- true exactly if the filter is true in SQL's three-valued logic, where a comparison of an absent
  -- field is NULL and a present field compares as in `eval_json`.
  pub eval_json-three_valued :
      (e : Expr) (event : V)
      → NegatedPresent e event
      → eval_json to_lowercase first_element e event ≡ holds (eval3 e event)
  unfolding eval3 NegatedPresent eval_json eval_condition
  eval_json-three_valued (both a b) event h =
      ap₂ (λ x y. x && y) (eval_json-three_valued a event h.0) (eval_json-three_valued b event h.1)
      ∙ sym (holds-and3 (eval3 a event) (eval3 b event))
  eval_json-three_valued (either a b) event h =
      ap₂ (λ x y. x || y) (eval_json-three_valued a event h.0) (eval_json-three_valued b event h.1)
      ∙ sym (holds-or3 (eval3 a event) (eval3 b event))
  eval_json-three_valued (negate e) event h =
      sym (ap (λ r. holds (not3 r)) (eval3-present e event h))
  eval_json-three_valued (cond (field f value mode)) event h =
      matches_present-holds mode value (resolved to_lowercase first_element event f)
  eval_json-three_valued (cond (text needle)) event h = refl
