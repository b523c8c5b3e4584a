-- ===== src/Siemctl/Query/Lexer.antt =====
-- src/siemctl/src/query.rs, `lex`: the tokens of a query.
pub mod Total
use headless_siem.Prelude.{
  ℕ, zero, suc, Text, codes, is_whitespace, is_ascii_alphanumeric, to_ascii_uppercase, Bool, true,
  false, ◌||◌, Option, none, some, List, [], ◌∷◌, ◌==◌, nat_eq, list_eq, length, if◌then◌else◌,
}
use headless_siem.Prelude.Results.{Result, ok, err}
use headless_siem.Siemctl.Query.Syntax.{
  Tok, select, where_word, group, by, limit, and, or, not, eq, ne, lparen, rparen, comma, word, str,
  QueryError, unterminated_string, lone_bang, lone_less, unexpected_char, out_of_fuel,
}

pub is_word_start : ℕ → Bool
is_word_start c = is_ascii_alphanumeric c || c == b'_'

pub is_word_char : ℕ → Bool
is_word_char c =
    is_ascii_alphanumeric c || c == b'_' || c == b'.' || c == b'/' || c == b':' || c == b'-'

-- The arm of the `match` that a character takes.
pub data Arm : Type 0 where
  blank open_paren close_paren comma_sign quote_mark equals bang less word_start other : Arm

pub arm_of : ℕ → Arm
unfolding is_word_start
arm_of c =
    if is_whitespace c
    then blank
    else if c == b'('
    then open_paren
    else if c == b')'
    then close_paren
    else if c == b','
    then comma_sign
    else if c == 39 || c == 34
    then quote_mark
    else if c == b'='
    then equals
    else if c == b'!'
    then bang
    else if c == b'<'
    then less
    else if is_word_start c
    then word_start
    else other

-- The characters up to the closing quote, and those behind it.
pub until_quote : ℕ → Text → Option (Text × Text)
until_quote quote [] = none
until_quote quote (c ∷ s) =
    let rest = until_quote quote s in
    if c == quote then some ([], s) else elim rest [ none ↦ none | some (a, b) ↦ some (c ∷ a, b) ]

pub word_prefix : Text → Text × Text
unfolding is_word_char
word_prefix [] = ([], [])
word_prefix (c ∷ s) =
    let (w, rest) = word_prefix s in if is_word_char c then (c ∷ w, rest) else ([], c ∷ s)

unfoldable pub keyword_or_word : Text → Tok
keyword_or_word w =
    let upper = to_ascii_uppercase w in
    if upper == codes "SELECT"
    then select
    else if upper == codes "WHERE"
    then where_word
    else if upper == codes "GROUP"
    then group
    else if upper == codes "BY"
    then by
    else if upper == codes "LIMIT"
    then limit
    else if upper == codes "AND"
    then and
    else if upper == codes "OR"
    then or
    else if upper == codes "NOT"
    then not
    else word w

-- `==` and `=` are one token.
pub skip_equals : Text → Text
skip_equals [] = []
skip_equals (c ∷ s) = if c == b'=' then s else c ∷ s

-- The character that has to follow `!` or `<`.
pub take_char : ℕ → QueryError → Text → Result QueryError Text
take_char d e [] = err e
take_char d e (c ∷ s) = if c == d then ok s else err e

abbrev pub push : Tok → Result QueryError (List Tok) → Result QueryError (List Tok)
push t (ok ts) = ok (t ∷ ts)
push t (err e) = err e

-- The outer `while`; each round takes at least one character.
pub lex_from : ℕ → Text → Result QueryError (List Tok)
lex_from zero s = err out_of_fuel
lex_from (suc fuel) [] = ok []
lex_from (suc fuel) (c ∷ s) = elim (arm_of c) [
  | blank ↦ lex_from fuel s
  | open_paren ↦ push lparen (lex_from fuel s)
  | close_paren ↦ push rparen (lex_from fuel s)
  | comma_sign ↦ push comma (lex_from fuel s)
  | quote_mark ↦ elim (until_quote c s) [
    | none ↦ err unterminated_string
    | some (text, rest) ↦ push (str text) (lex_from fuel rest)
  ]
  | equals ↦ push eq (lex_from fuel (skip_equals s))
  | bang ↦ elim (take_char b'=' lone_bang s) [
    | ok rest ↦ push ne (lex_from fuel rest)
    | err e ↦ err e
  ]
  | less ↦ elim (take_char b'>' lone_less s) [
    | ok rest ↦ push ne (lex_from fuel rest)
    | err e ↦ err e
  ]
  | word_start ↦
      push (keyword_or_word (word_prefix (c ∷ s)).0) (lex_from fuel (word_prefix (c ∷ s)).1)
  | other ↦ err (unexpected_char c)
]

unfoldable pub lex : Text → Result QueryError (List Tok)
unfolding lex_from until_quote word_prefix keyword_or_word skip_equals take_char arm_of
lex s = lex_from (suc (length s)) s
