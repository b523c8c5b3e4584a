-- ===== src/Ruled/Sigma/Condition.antt =====
-- src/ruled/src/rules.rs, `Condition`, `parse_condition` and `find_outer_operator`.
use headless_siem.Prelude.{
  ℕ, zero, suc, ◌+◌, ◌-◌, Text, codes, trim, starts_with, strip_prefix, ends_with, is_empty, Bool,
  true, false, ◌&&◌, Option, none, some, [], ◌∷◌, length, take, drop, ◌==◌, nat_eq, list_eq,
  if◌then◌else◌,
}
use headless_siem.Prelude.Results.{Result, ok, err, ◌>>=◌}

pub data Condition : Type 0 where
  reference : Text → Condition
  and or : Condition → Condition → Condition
  not : Condition → Condition
  one_of_them : Condition
  one_of_pattern : Text → Condition

pub data ConditionError : Type 0 where
  empty_condition : ConditionError
  -- the model's own; no run of `parse_condition` ends with it
  out_of_fuel : ConditionError

-- The depth of parentheses, an `i32` in the source: `ahead n` is n, `behind n` is -(n + 1).
pub data Depth : Type 0 where
  ahead behind : ℕ → Depth

abbrev pub deeper : Depth → Depth
deeper (ahead n) = ahead (suc n)
deeper (behind zero) = ahead 0
deeper (behind (suc n)) = behind n

abbrev pub shallower : Depth → Depth
shallower (ahead zero) = behind 0
shallower (ahead (suc n)) = ahead n
shallower (behind n) = behind (suc n)

abbrev pub is_outer : Depth → Bool
is_outer (ahead zero) = true
is_outer _ = false

-- The depth behind a character.
unfoldable pub depth_after : Depth → ℕ → Depth
depth_after d c = if c == b'(' then deeper d else if c == b')' then shallower d else d

-- The loop of `find_outer_operator`, from position `i` on, at the depth `d` before it.
unfoldable pub find_outer : Text → Depth → ℕ → Text → Option ℕ
find_outer op d i [] = none
find_outer op d i (c ∷ s) =
    let later = find_outer op (depth_after d c) (suc i) s in
    if is_outer (depth_after d c) && starts_with (c ∷ s) op then some i else later

unfoldable pub find_outer_operator : Text → Text → Option ℕ
unfolding find_outer depth_after
find_outer_operator input op = find_outer op (ahead 0) 0 input

-- `&input[1..input.len() - 1]`
abbrev pub inside : Text → Text
inside s = take (length s - 2) (drop 1 s)

module _ (recurse : Text → Result ConditionError Condition) where
  -- A parenthesised expression, or a reference.
  pub parse_atom : Text → Result ConditionError Condition
  parse_atom input =
      if starts_with input (codes "(") && ends_with input (codes ")")
      then recurse (inside input)
      else if is_empty input
      then err empty_condition
      else ok (reference input)

  pub parse_prefix : Text → Result ConditionError Condition
  unfolding parse_atom
  parse_prefix input = elim (strip_prefix input (codes "not ")) [
    | some rest ↦ do inner ← recurse rest; ok (not inner)
    | none ↦ parse_atom input
  ]

  pub parse_and : Text → Result ConditionError Condition
  unfolding parse_prefix
  parse_and input = elim (find_outer_operator input (codes " and ")) [
    | some pos ↦ do
      left ← recurse (take pos input)
      right ← recurse (drop (pos + 5) input)
      ok (and left right)
    | none ↦ parse_prefix input
  ]

  pub parse_or : Text → Result ConditionError Condition
  unfolding parse_and
  parse_or input = elim (find_outer_operator input (codes " or ")) [
    | some pos ↦ do
      left ← recurse (take pos input)
      right ← recurse (drop (pos + 4) input)
      ok (or left right)
    | none ↦ parse_and input
  ]

  -- The body of `parse_condition`, behind `input.trim()`.
  pub parse_trimmed : Text → Result ConditionError Condition
  unfolding parse_or
  parse_trimmed input =
      if input == codes "1 of them"
      then ok one_of_them
      else if starts_with input (codes "1 of ") && ends_with input (codes "*")
      then ok (one_of_pattern (drop 5 input))
      else parse_or input

-- Each call is on a text that is shorter by at least one character.
pub parse_from : ℕ → Text → Result ConditionError Condition
unfolding parse_trimmed
parse_from zero s = err out_of_fuel
parse_from (suc fuel) s = parse_trimmed (parse_from fuel) (trim s)

unfoldable pub parse_condition : Text → Result ConditionError Condition
unfolding parse_from
parse_condition s = parse_from (suc (length s)) s
