-- ===== src/Siemctl/Query/Parser/Atoms.antt =====
-- src/siemctl/src/query.rs, `Parser`: what the parsers of names, arguments and conditions yield.
use headless_siem.Prelude.{
  ℕ, suc, ◌≤◌, ◌<◌, ◌≡◌, ◌≢◌, refl, ◌∙◌, ap, Text, List, [], ◌∷◌, ◌++◌, length, nat_eq, list_eq,
  arith, inl, inr,
}
use headless_siem.Prelude.Results.{Result, ok, err, ◌>>=◌, Result-cases}
use headless_siem.Siemctl.Query.Syntax.{Tok, QueryError, out_of_fuel}
use headless_siem.Siemctl.Query.Parser.{
  Parsed, validate_field, checked_name, output_check, more_names, name_list, arguments,
  after_argument, parse_arguments, expect_rparen,
}

-- A result with a property that leaves fewer than `n` tokens, or an error of the source's own.
abbrev pub Good : {A : Type 0} → (A → Type 0) → ℕ → Parsed A → Type 0
Good P n (ok (a, rest)) = (length rest < n) × P a
Good P n (err x) = x ≢ out_of_fuel

-- The same for a step that gives a value only.
abbrev pub GoodValue : {A : Type 0} → (A → Type 0) → Result QueryError A → Type 0
GoodValue P (ok a) = P a
GoodValue P (err x) = x ≢ out_of_fuel

module _ {A B : Type 0} where
  pub Good-bind :
      (P : A → Type 0) (Q : B → Type 0) (m n : ℕ) (r : Parsed A) (k : A × List Tok → Parsed B)
      → Good P m r
      → ((a : A) (rest : List Tok) → length rest < m → P a → Good Q n (k (a, rest)))
      → Good Q n (r >>= k)
  Good-bind P Q m n (ok (a, rest)) k h f = f a rest h.0 h.1
  Good-bind P Q m n (err x) k h f = h

  pub Good-bind_value :
      (P : A → Type 0) (Q : B → Type 0) (n : ℕ) (r : Result QueryError A) (k : A → Parsed B)
      → GoodValue P r
      → ((a : A) → P a → Good Q n (k a))
      → Good Q n (r >>= k)
  Good-bind_value P Q n (ok a) k h f = f a h
  Good-bind_value P Q n (err x) k h f = h

  pub GoodValue-bind :
      (P : A → Type 0) (Q : B → Type 0) (r : Result QueryError A) (k : A → Result QueryError B)
      → GoodValue P r
      → ((a : A) → P a → GoodValue Q (k a))
      → GoodValue Q (r >>= k)
  GoodValue-bind P Q (ok a) k h f = f a h
  GoodValue-bind P Q (err x) k h f = h

module _ {A : Type 0} where
  pub Good-mono : (P : A → Type 0) (m n : ℕ) (r : Parsed A) → m ≤ n → Good P m r → Good P n r
  Good-mono P m n (ok (a, rest)) le h = (omega (arith, h.0), h.1)
  Good-mono P m n (err x) le h = h

-- A check of names that never runs out of fuel.
abbrev pub Checks : (Text → Result QueryError (Unit {0})) → Type 0
Checks check = (name : Text) → check name ≢ err out_of_fuel

pub validate_field-Checks : (valid : List Text) → Checks (validate_field valid)
unfolding validate_field
validate_field-Checks [] name h = ground arith
validate_field-Checks (f ∷ fs) name h = ground arith

pub output_check-Checks : Checks output_check
unfolding output_check
output_check-Checks name h = ground arith

pub check-value :
    (check : Text → Result QueryError (Unit {0})) (name : Text)
    → Checks check
    → GoodValue (λ u. check name ≡ ok tt) (check name)
check-value check name c = elim (Result-cases (check name)) [
  | inl e ↦ rw (e.1) refl
  | inr e ↦ rw (e.1) (λ x. c name (e.1 ∙ ap err x))
]

abbrev pub AllPass : (Text → Result QueryError (Unit {0})) → List Text → Type 0
AllPass check [] = Unit
AllPass check (n ∷ ns) = (check n ≡ ok tt) × AllPass check ns

AllPass-append :
    (check : Text → Result QueryError (Unit {0})) (ns : List Text) (n : Text)
    → AllPass check ns
    → check n ≡ ok tt
    → AllPass check (ns ++ n ∷ [])
AllPass-append check [] n h e = (e, tt)
AllPass-append check (m ∷ ns) n h e = (h.0, AllPass-append check ns n h.1 e)

module _ (check : Text → Result QueryError (Unit {0})) (c : Checks check) where
  checked_name-Good : (t : Tok) → GoodValue (λ name. check name ≡ ok tt) (checked_name check t)
  unfolding checked_name
  checked_name-Good (Tok.word w) =
      GoodValue-bind (λ u. check w ≡ ok tt) (λ name. check name ≡ ok tt) (check w) (λ u. ok w)
        (check-value check w c) λ u h. h
  checked_name-Good (Tok.str w) =
      GoodValue-bind (λ u. check w ≡ ok tt) (λ name. check name ≡ ok tt) (check w) (λ u. ok w)
        (check-value check w c) λ u h. h
  checked_name-Good _ = λ e. cc

  more_names-Good :
      (acc : List Text) (ts : List Tok)
      → AllPass check acc
      → Good (AllPass check) (suc (length ts)) (more_names check acc ts)
  unfolding more_names
  more_names-Good acc (Tok.comma ∷ []) h = λ e. cc
  more_names-Good acc (Tok.comma ∷ t ∷ ts) h =
      Good-bind_value (λ name. check name ≡ ok tt) (AllPass check) (suc (suc (suc (length ts))))
        (checked_name check t) (λ name. more_names check (acc ++ name ∷ []) ts)
        (checked_name-Good t)
        λ name p.
          Good-mono (AllPass check) (suc (length ts)) (suc (suc (suc (length ts))))
            (more_names check (acc ++ name ∷ []) ts) (omega arith)
            (more_names-Good (acc ++ name ∷ []) ts (AllPass-append check acc name h p))
  more_names-Good acc ts h = (omega arith, h)

  pub name_list-Good : (ts : List Tok) → Good (AllPass check) (length ts) (name_list check ts)
  unfolding name_list
  name_list-Good [] = λ e. cc
  name_list-Good (t ∷ ts) =
      Good-bind_value (λ name. check name ≡ ok tt) (AllPass check) (suc (length ts))
        (checked_name check t) (λ name. more_names check (name ∷ []) ts) (checked_name-Good t)
        λ name p. more_names-Good (name ∷ []) ts (p, tt)

-- The arguments of a call have no property.
abbrev pub Any : {A : Type 0} → A → Type 0
Any a = Unit

mutual
  unfolding arguments

  arguments-Good : (acc : List Text) (ts : List Tok) → Good Any (suc (length ts)) (arguments acc ts)
  arguments-Good acc [] = λ e. cc
  arguments-Good acc (Tok.word w ∷ ts) =
      Good-mono Any (suc (length ts)) (suc (suc (length ts))) (after_argument (acc ++ w ∷ []) ts)
        (omega arith) (after_argument-Good (acc ++ w ∷ []) ts)
  arguments-Good acc (Tok.str w ∷ ts) =
      Good-mono Any (suc (length ts)) (suc (suc (length ts))) (after_argument (acc ++ w ∷ []) ts)
        (omega arith) (after_argument-Good (acc ++ w ∷ []) ts)
  arguments-Good acc _ = λ e. cc

  after_argument-Good :
      (acc : List Text) (ts : List Tok) → Good Any (suc (length ts)) (after_argument acc ts)
  after_argument-Good acc (Tok.comma ∷ ts) =
      Good-mono Any (suc (length ts)) (suc (suc (length ts))) (arguments acc ts) (omega arith)
        (arguments-Good acc ts)
  after_argument-Good acc (Tok.rparen ∷ ts) = (omega arith, tt)
  after_argument-Good acc _ = λ e. cc

pub parse_arguments-Good : (ts : List Tok) → Good Any (suc (length ts)) (parse_arguments ts)
unfolding parse_arguments
parse_arguments-Good (Tok.rparen ∷ ts) = (omega arith, tt)
parse_arguments-Good ts = arguments-Good [] ts

-- Tokens that are left, fewer than `n`.
abbrev pub GoodTokens : ℕ → Result QueryError (List Tok) → Type 0
GoodTokens n r = GoodValue (λ rest. length rest < n) r

pub expect_rparen-Good : (ts : List Tok) → GoodTokens (length ts) (expect_rparen ts)
unfolding expect_rparen
expect_rparen-Good (Tok.rparen ∷ ts) = omega arith
expect_rparen-Good _ = λ e. cc
