-- ===== src/Ruled/Suppress/Lexer.antt =====
-- src/ruled/src/suppress.rs, `lex`: the tokens of a suppression condition.
pub mod Total
use headless_siem.Prelude.{
  ℕ, zero, suc, Text, codes, is_whitespace, is_ascii_alphanumeric, to_ascii_uppercase, Bool, true,
  false, ◌||◌, Option, none, some, List, [], ◌∷◌, ◌==◌, nat_eq, list_eq, length, if◌then◌else◌,
}
use headless_siem.Prelude.Results.{Result, ok, err, ◌>>=◌}

pub data Tok : Type 0 where
  lparen rparen comma and or not eq ne : Tok
  word str : Text → Tok

-- The parser's errors stand here too, so that a whole run has one error type. `out_of_fuel` is
-- the model's own, and no run of `parse_condition` ends with it.
pub data SyntaxError : Type 0 where
  unterminated_string : SyntaxError
  lone_bang : SyntaxError
  unexpected_char : ℕ → SyntaxError
  expected : Tok → Option Tok → SyntaxError
  expected_field : Option Tok → SyntaxError
  expected_value : Option Tok → SyntaxError
  expected_cmp : Text → Option Tok → SyntaxError
  unexpected_token : Option Tok → SyntaxError
  trailing_input : Tok → SyntaxError
  out_of_fuel : SyntaxError

unfoldable pub is_word_char : ℕ → Bool
is_word_char c =
    is_ascii_alphanumeric c || c == b'_' || c == b'.' || c == b'/' || c == b':' || c == b'-'

-- The arm of the `match` that a character takes.
pub data Arm : Type 0 where
  blank open_paren close_paren comma_sign equals bang word_start other : Arm
  quote_mark : Arm

unfoldable pub arm_of : ℕ → Arm
arm_of c =
    if is_whitespace c
    then blank
    else if c == b'('
    then open_paren
    else if c == b')'
    then close_paren
    else if c == b','
    then comma_sign
    else if c == 39 || c == 34
    then quote_mark
    else if c == b'='
    then equals
    else if c == b'!'
    then bang
    else if is_ascii_alphanumeric c || c == b'_'
    then word_start
    else other

-- The text before the closing quote, and what follows the quote.
pub until_quote : ℕ → Text → Option (Text × Text)
until_quote quote [] = none
until_quote quote (c ∷ s) =
    let rest = until_quote quote s in
    if c == quote then some ([], s) else elim rest [ none ↦ none | some (a, b) ↦ some (c ∷ a, b) ]

-- The longest prefix of word characters, and the rest.
pub word_prefix : Text → Text × Text
word_prefix [] = ([], [])
word_prefix (c ∷ s) =
    let (w, rest) = word_prefix s in if is_word_char c then (c ∷ w, rest) else ([], c ∷ s)

-- Keywords are recognised in any case.
pub word_token : Text → Tok
word_token w =
    if to_ascii_uppercase w == codes "AND"
    then and
    else if to_ascii_uppercase w == codes "OR"
    then or
    else if to_ascii_uppercase w == codes "NOT"
    then not
    else word w

-- `==` and `=` are one token.
pub skip_equals : Text → Text
skip_equals [] = []
skip_equals (c ∷ s) = if c == b'=' then s else c ∷ s

pub take_bang : Text → Result SyntaxError Text
take_bang [] = err lone_bang
take_bang (c ∷ s) = if c == b'=' then ok s else err lone_bang

abbrev push : Tok → Result SyntaxError (List Tok) → Result SyntaxError (List Tok)
push t (ok ts) = ok (t ∷ ts)
push t (err e) = err e

-- The `while` loop; each round takes at least one character.
pub lex_from : ℕ → Text → Result SyntaxError (List Tok)
lex_from zero s = err out_of_fuel
lex_from (suc fuel) [] = ok []
lex_from (suc fuel) (c ∷ s) = elim (arm_of c) [
  | blank ↦ lex_from fuel s
  | open_paren ↦ push lparen (lex_from fuel s)
  | close_paren ↦ push rparen (lex_from fuel s)
  | comma_sign ↦ push comma (lex_from fuel s)
  | quote_mark ↦ elim (until_quote c s) [
    | none ↦ err unterminated_string
    | some (text, rest) ↦ push (str text) (lex_from fuel rest)
  ]
  | equals ↦ push eq (lex_from fuel (skip_equals s))
  | bang ↦ elim (take_bang s) [ ok rest ↦ push ne (lex_from fuel rest) | err e ↦ err e ]
  | word_start ↦ push (word_token (word_prefix (c ∷ s)).0) (lex_from fuel (word_prefix (c ∷ s)).1)
  | other ↦ err (unexpected_char c)
]

unfoldable pub lex : Text → Result SyntaxError (List Tok)
unfolding lex_from until_quote word_prefix word_token skip_equals take_bang
lex s = lex_from (suc (length s)) s
