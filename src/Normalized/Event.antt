-- ===== src/Normalized/Event.antt =====
-- src/normalized/src/event.rs: the event that every parser makes, its source label, and the flat map
-- that is stored. A `BTreeMap` is a list sorted by key; the fields of an event, a `HashMap` that is
-- walked over, are a list in the order of the walk.
pub mod Source
use headless_siem.Prelude.{
  ℕ, zero, suc, ◌+◌, ◌-◌, ◌/◌, ◌%◌, Text, codes, trim, reverse, is_ascii_alphanumeric, is_empty,
  text_lt, Bool, true, false, not, ◌&&◌, ◌||◌, Option, none, some, List, [], ◌∷◌, ◌++◌, map, all,
  get_or, ◌==◌, nat_eq, list_eq, ltb, if◌then◌else◌,
}

pub data Format : Type 0 where
  rfc5424 rfc3164 json json_array cef leef logfmt csv xml yaml filterlog plain : Format

unfoldable pub format_text : Format → Text
format_text rfc5424 = codes "rfc5424"
format_text rfc3164 = codes "rfc3164"
format_text json = codes "json"
format_text json_array = codes "json_array"
format_text cef = codes "cef"
format_text leef = codes "leef"
format_text logfmt = codes "logfmt"
format_text csv = codes "csv"
format_text xml = codes "xml"
format_text yaml = codes "yaml"
format_text filterlog = codes "filterlog"
format_text plain = codes "plain"

abbrev self_describing : Format → Bool
self_describing filterlog = true
self_describing csv = true
self_describing plain = true
self_describing _ = false

pub data Severity : Type 0 where
  emergency alert critical error warning notice informational debug : Severity

-- `n & 0x07`
pub from_code : ℕ → Severity
from_code n =
    get_or (emergency ∷ alert ∷ critical ∷ error ∷ warning ∷ notice ∷ informational ∷ []) (n % 8)
      debug

pub severity_text : Severity → Text
severity_text emergency = codes "emergency"
severity_text alert = codes "alert"
severity_text critical = codes "critical"
severity_text error = codes "error"
severity_text warning = codes "warning"
severity_text notice = codes "notice"
severity_text informational = codes "informational"
severity_text debug = codes "debug"

-- The names of the facilities 0 to 11 and 16 to 23.
abbrev low_facilities : List Text
low_facilities =
    codes "kern"
    ∷ codes "user"
    ∷ codes "mail"
    ∷ codes "daemon"
    ∷ codes "auth"
    ∷ codes "syslog"
    ∷ codes "lpr"
    ∷ codes "news"
    ∷ codes "uucp"
    ∷ codes "cron"
    ∷ codes "authpriv"
    ∷ codes "ftp"
    ∷ []

abbrev local_facilities : List Text
local_facilities =
    codes "local0"
    ∷ codes "local1"
    ∷ codes "local2"
    ∷ codes "local3"
    ∷ codes "local4"
    ∷ codes "local5"
    ∷ codes "local6"
    ∷ codes "local7"
    ∷ []

pub facility_text : ℕ → Text
facility_text n =
    if ltb n 16
    then get_or low_facilities n (codes "unknown")
    else get_or local_facilities (n - 16) (codes "unknown")

pub record Event : Type 0 where
  pub format : Format
  pub source_addr : Text
  pub facility : Option ℕ
  pub severity : Option Severity
  pub timestamp : Option Text
  pub hostname : Option Text
  pub app_name : Option Text
  pub proc_id : Option Text
  pub msg_id : Option Text
  pub message : Text
  pub fields : List (Text × Text)
  pub force_severity : Bool
  pub raw : List ℕ

-- `filter(|s| !s.trim().is_empty())`
abbrev pub not_blank : Option Text → Option Text
not_blank none = none
not_blank (some s) = if is_empty (trim s) then none else some s

abbrev or_else {ℓ} : {A : Type ℓ} → Option A → Option A → Option A
or_else none b = b
or_else (some a) b = some a

unfoldable pub is_label_char : ℕ → Bool
is_label_char c = is_ascii_alphanumeric c || c == b'.' || c == b'_' || c == b'-'

abbrev pub drop_leading : ℕ → Text → Text
drop_leading d [] = []
drop_leading d (c ∷ s) = let rest = drop_leading d s in if c == d then rest else c ∷ s

-- `trim_matches` at a character.
abbrev pub trim_matches : ℕ → Text → Text
trim_matches d s = reverse (drop_leading d (reverse (drop_leading d s)))

abbrev pub clean_char : ℕ → ℕ
clean_char c = if is_label_char c then c else b'_'

unfoldable pub sanitize_source : Text → Text
unfolding is_label_char
sanitize_source s =
    let trimmed = trim_matches b'_' (map clean_char s) in
    if is_empty trimmed || all (λ c. c == b'.') trimmed then codes "unknown" else trimmed

abbrev hostname_or_unknown : Option Text → Text
hostname_or_unknown none = codes "unknown"
hostname_or_unknown (some s) = trim s

unlabelled : Event → Text
unfolding format_text
unlabelled e =
    if self_describing e.format
    then format_text e.format
    else hostname_or_unknown (not_blank e.hostname)

resolved_source : Event → Option Text → Text
unfolding unlabelled
resolved_source e (some s) = trim s
resolved_source e none = unlabelled e

unfoldable pub derive_source : Event → Option Text → Text
unfolding sanitize_source resolved_source
derive_source e override_source =
    sanitize_source (resolved_source e (or_else (not_blank override_source) (not_blank e.app_name)))
