-- ===== src/Ruled/Samples.antt =====
-- Concrete conditions, rules and alerts.
use headless_siem.Prelude.{
  ◌/◌, ◌^◌, ◌-◌, ◌++◌, ◌==◌, nat_eq, decimal, ℕ, true, map, arith, is_whitespace,
  is_ascii_alphanumeric, ascii_upper, ◌≡◌, ◌≢◌, refl, Text, codes, none, some, List, [], ◌∷◌, any,
}
use headless_siem.Prelude.Results.{ok, err}
use headless_siem.Json.Sample.{Value, str, obj, field, end, sample_json}
use headless_siem.Ruled.Suppress.Condition.{Expr, eq, both, either, negate, compare, cidr_match}
use headless_siem.Ruled.Suppress.Lexer.{out_of_fuel, arm_of, is_word_char}
use headless_siem.Ruled.Suppress.Parser.{parse_condition, parse_tokens}
use headless_siem.Ruled.Suppress.Parser.Printing.{print}
use headless_siem.Ruled.Suppress.Parser.Total.{parse_condition_ends}
use headless_siem.Ruled.Suppress.Parser.RoundTrip.{parse_tokens-print}
use headless_siem.Ruled.Suppress.Rules.{
  SuppressRuleToml, is_suppressed, load_entries, entry_suppresses, is_suppressed-load_entries,
}
use headless_siem.Ruled.Suppress.Cidr.{cidr_contains}
use headless_siem.Ruled.Suppress.Cidr.Networks.{
  Address, address_value, dotted, cidr_contains-dotted,
}
use headless_siem.Ruled.Sigma.Glob.{glob_match}
use headless_siem.Ruled.Sigma.Glob.Meaning.{fits, glob_match-fits}
use headless_siem.Ruled.Sigma.Condition
use headless_siem.Ruled.Sigma.Condition.{one_of_pattern}
use headless_siem.Prelude.{trim, split}
use headless_siem.Ruled.Router.{Io, new_router}
use headless_siem.Ruled.Router.Dedup.{
  Call, emit_all, repeats, is_suppressed_result, emit_all-repeats,
}

abbrev cdn : Text
cdn = codes "NOT a == x AND (b = y OR cidr_match(src_ip, 10.0.0.0/8))"

abbrev cdn_expr : Expr
cdn_expr =
    both (negate (compare (codes "a") (codes "x") eq)) (
      either (compare (codes "b") (codes "y") eq)
        (cidr_match (codes "src_ip") (codes "10.0.0.0/8")))

parse_cdn : parse_condition cdn ≡ ok cdn_expr
unfolding parse_condition is_whitespace is_ascii_alphanumeric ascii_upper arm_of is_word_char
parse_cdn = refl

parse_condition_ends_example : parse_condition cdn ≢ err out_of_fuel
parse_condition_ends_example = parse_condition_ends cdn

parse_tokens-print_example : parse_tokens (print cdn_expr) ≡ ok cdn_expr
unfolding ascii_upper
parse_tokens-print_example = parse_tokens-print cdn_expr (refl, (refl, tt))

abbrev entries : List SuppressRuleToml
entries =
    record { rule_id = codes "1001"; condition = cdn; expires = some (codes "2020-01-01") }
    ∷ record { rule_id = codes "1001"; condition = codes "a == "; expires = none }
    ∷ []

abbrev event : Value
event = obj (field (codes "b") (str (codes "y")) end)

is_suppressed-load_entries_example :
    is_suppressed
      (record { rules = (load_entries (codes "2026-01-01") entries).0 })
      (codes "1001")
      event
    ≡ any (entry_suppresses (codes "1001") event) entries
is_suppressed-load_entries_example =
    is_suppressed-load_entries (codes "2026-01-01") (codes "1001") event entries

abbrev all_well : Io
all_well = record { stdout_ok = true; create_dir_ok = true; open_ok = true; append_ok = true }

abbrev call_at : ℕ → Call Value
call_at now = record {
  io = all_well;
  now = now;
  rule_id = codes "1001";
  title = codes "Brute force";
  level = codes "high";
  event = event;
}

emit_all-repeats_example :
    map is_suppressed_result (
      emit_all
        (call_at 100 ∷ call_at 130 ∷ call_at 160 ∷ [])
        (new_router (some (codes "alerts")) 60)
        (record { stdout = []; files = [] }))
    ≡ repeats 60 [] (call_at 100 ∷ call_at 130 ∷ call_at 160 ∷ [])
emit_all-repeats_example =
    emit_all-repeats (call_at 100 ∷ call_at 130 ∷ call_at 160 ∷ []) (some (codes "alerts")) 60 0
      (record { stdout = []; files = [] }) (omega arith)
      (omega arith, omega arith, (omega arith, omega arith, (omega arith, omega arith, tt)))

-- 10.20.30.40 in the network 10.20.0.0/16.
abbrev network : Address
network = record { a = 10; b = 20; c = 0; d = 0 }

abbrev host : Address
host = record { a = 10; b = 20; c = 30; d = 40 }

cidr_contains-dotted_example :
    cidr_contains (dotted network ++ b'/' ∷ decimal 16) (dotted host)
    ≡ ok (address_value host / 2 ^ (32 - 16) == address_value network / 2 ^ (32 - 16))
cidr_contains-dotted_example =
    cidr_contains-dotted network host 16 (omega arith, omega arith, omega arith, omega arith)
      (omega arith, omega arith, omega arith, omega arith) (omega arith)

-- A condition that begins with `1 of ` and ends with `*` is one pattern.
swallowed :
    Condition.parse_condition (codes "1 of sel_* and not 1 of filter_*")
    ≡ ok (one_of_pattern (codes "sel_* and not 1 of filter_*"))
unfolding Condition.parse_condition trim is_whitespace
swallowed = refl

glob_match-fits_example :
    glob_match (codes "sel_*_test") (codes "sel_ssh_test")
    ≡ fits (codes "sel_*_test") (codes "sel_ssh_test")
glob_match-fits_example = glob_match-fits (codes "sel_*_test") (codes "sel_ssh_test")

-- The middle part is taken at its first occurrence, the last one at the end.
glob_runs : glob_match (codes "a*b*b") (codes "axbxb") ≡ true
unfolding glob_match split
glob_runs = refl
