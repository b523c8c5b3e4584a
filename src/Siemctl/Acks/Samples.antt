-- ===== src/Siemctl/Acks/Samples.antt =====
-- Acks of two rules, one of them twice, and alerts before and behind them.
use headless_siem.Prelude.{
  ℕ, Text, codes, Option, none, some, List, [], ◌∷◌, ◌≡◌, refl, pos, Every, parse_signed,
  parse_unsigned, digits_below, is_ascii_digit, decimal, decimal_from, starts_with, if◌then◌else◌,
}
use headless_siem.Json.Sample.{Value, obj, str, num, Fields, end, sample_json}
use headless_siem.Siemctl.Acks.{filter_acked, load_ack_watermarks, compact_lines, int_leb}
use headless_siem.Siemctl.Acks.Hiding.{not_hidden, filter_acked-not_hidden}
use headless_siem.Siemctl.Acks.Compaction.{Recent, filter_acked-compact_lines}

abbrev stamped : Text → ℕ → Value
stamped rule_id ts =
    obj
      (Fields.field (codes "rule_id") (str rule_id) (Fields.field (codes "timestamp") (num ts) end))

-- The lines `a`, `b` and `c` stand for their objects; other lines are malformed.
abbrev from_str : Text → Option Value
from_str s =
    if starts_with s (codes "a")
    then some (stamped (codes "r1") 10)
    else if starts_with s (codes "b")
    then some (stamped (codes "r1") 30)
    else if starts_with s (codes "c")
    then some (stamped (codes "r2") 5)
    else none

abbrev acks : List Text
acks = codes "b" ∷ codes "a" ∷ codes "?" ∷ codes "c" ∷ []

abbrev alerts : List Value
alerts = stamped (codes "r1") 20 ∷ stamped (codes "r1") 31 ∷ stamped (codes "r2") 20 ∷ obj end ∷ []

filter_acked-not_hidden_example :
    filter_acked alerts (load_ack_watermarks from_str acks) ≡ not_hidden from_str alerts acks
filter_acked-not_hidden_example = filter_acked-not_hidden from_str alerts acks

alerts-Recent : Every (Recent from_str (pos 15)) alerts
unfolding parse_signed parse_unsigned digits_below is_ascii_digit decimal decimal_from int_leb
alerts-Recent = (refl, (refl, (refl, (refl, tt))))

filter_acked-compact_lines_example :
    filter_acked alerts (load_ack_watermarks from_str (compact_lines from_str (pos 15) acks).0)
    ≡ filter_acked alerts (load_ack_watermarks from_str acks)
filter_acked-compact_lines_example =
    filter_acked-compact_lines from_str (pos 15) acks alerts alerts-Recent
