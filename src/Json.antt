-- ===== src/Json.antt =====
-- The interface of `serde_json::Value` (a third-party crate) as the five programs use it: the
-- constructors that the code matches on, look-up by key, the compact text, and the `json!` macro.
pub mod Sample
use headless_siem.Prelude.{
  ℕ, Text, Bool, true, false, not, ◌&&◌, Option, none, some, List, [], ◌∷◌, ◌≡◌, ◌==◌, any,
  if◌then◌else◌, nat_eq, list_eq,
}

-- A value's constructor. A number carries its `to_string`, the only use that is made of it.
pub data View : Type 0 where
  null : View
  boolean : Bool → View
  number : Text → View
  string : Text → View
  array : View
  object : View

-- The entry of a key in a `json!` object, whose keys are distinct literals.
unfoldable pub entry {ℓ} : {V : Type ℓ} → Text → List (Text × V) → Option V
entry k [] = none
entry k ((j, v) ∷ fields) = if j == k then some v else entry k fields

unfoldable pub distinct_keys {ℓ} : {V : Type ℓ} → List (Text × V) → Bool
distinct_keys [] = true
distinct_keys ((j, v) ∷ fields) = not (any (λ f. f.0 == j) fields) && distinct_keys fields

pub record Json (V : Type 0) : Type 0 where
  pub view : V → View
  pub get_key : V → Text → Option V
  pub to_text : V → Text
  pub of_bool : Bool → V
  pub of_nat : ℕ → V
  pub of_text : Text → V
  pub of_list : List V → V
  pub of_fields : List (Text × V) → V
  pub view-of_text : (s : Text) → view (of_text s) ≡ string s
  pub get_key-of_fields :
      (fields : List (Text × V)) (k : Text)
      → distinct_keys fields ≡ true
      → get_key (of_fields fields) k ≡ entry k fields

-- `as_str`
abbrev pub text_of : View → Option Text
text_of (string s) = some s
text_of _ = none

module _ {V : Type 0} ⦃J : Json V⦄ where
  -- `v.get(k)`
  abbrev pub get : V → Text → Option V
  get v k = J.get_key v k

  abbrev pub as_str : V → Option Text
  as_str v = text_of (J.view v)

  abbrev str_of : Option V → Option Text
  str_of none = none
  str_of (some v) = as_str v

  -- `v.get(k).and_then(|v| v.as_str())`
  abbrev pub get_str : V → Text → Option Text
  get_str v k = str_of (get v k)
