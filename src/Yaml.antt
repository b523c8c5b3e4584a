-- ===== src/Yaml.antt =====
-- The interface of `serde_yaml::Value` (a third-party crate) as `ruled` uses it: the constructors
-- that the code matches on. A mapping gives its entries in the document's order.
use headless_siem.Prelude.{Text, Bool, Option, none, some, List}

pub data Node (Y : Type 0) : Type 0 where
  null : Node Y
  boolean : Bool → Node Y
  -- with its `to_string`
  number : Text → Node Y
  string : Text → Node Y
  sequence : List Y → Node Y
  mapping : List (Y × Y) → Node Y
  tagged : Node Y

pub record Yaml (Y : Type 0) : Type 0 where
  pub view : Y → Node Y

module _ {Y : Type 0} where
  abbrev pub node_text : Node Y → Option Text
  node_text (string s) = some s
  node_text _ = none

module _ {Y : Type 0} ⦃I : Yaml Y⦄ where
  -- `as_str`
  abbrev pub as_str : Y → Option Text
  as_str y = node_text (I.view y)
