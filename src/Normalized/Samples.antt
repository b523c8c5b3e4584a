-- ===== src/Normalized/Samples.antt =====
-- An event of sshd, its stored form, and the file that it is written to.
use headless_siem.Prelude.{
  Text, codes, text_lt, trim, trim_start, is_whitespace, padded, none, some, [], ◌∷◌, ◌++◌, ◌≡◌,
  refl, ap, arith, pos, true, false,
}
use headless_siem.Bytes.{Bytes, from_utf8}
use headless_siem.Siemctl.RawFile.{Civil}
use headless_siem.Siemctl.RawFile.Order.{FourDigits}
use headless_siem.Indexd.Bucket.{derive_bucket}
use headless_siem.Normalized.Event.{Event, Format, Severity, derive_source, not_blank}
use headless_siem.Normalized.Event.Source.{SafeLabel, derive_source-SafeLabel}
use headless_siem.Normalized.Flat.{
  text, boolean, FlatMap, flatten, lookup, or_received, serialize_flat,
}
use headless_siem.Normalized.Flat.Flatten.{decoded, flatten-Sorted}
use headless_siem.Normalized.Flat.Keys.{Sorted}
use headless_siem.Normalized.Flat.Objects.{read_object, read_object-serialize_flat}
use headless_siem.Normalized.Output.Paths.{
  file_path, year_text, bucket_text, derive_bucket-file_path,
}

abbrev login : Event
login = record {
  format = Format.rfc3164;
  source_addr = codes "stdin";
  facility = some 4;
  severity = some Severity.warning;
  timestamp = some (codes " ");
  hostname = some (codes "web1");
  app_name = some (codes "(sd/pam)");
  proc_id = none;
  msg_id = none;
  message = codes "Failed password";
  fields = (codes "src", codes "10.0.0.1") ∷ (codes "src_ip", codes "10.0.0.2") ∷ [];
  force_severity = false;
  raw = codes " Failed password\n";
}

abbrev received_iso : Text
received_iso = codes "2026-06-27T00:00:00+00:00"

derive_source-SafeLabel_example : SafeLabel (derive_source login (some (codes "../etc")))
derive_source-SafeLabel_example = derive_source-SafeLabel login (some (codes "../etc"))

-- One replacement character for bytes that are not UTF-8.
abbrev from_utf8_lossy : Bytes → Text
from_utf8_lossy raw = decoded (from_utf8 raw) (0xfffd ∷ [])

from_utf8_lossy-valid : (raw : Bytes) (s : Text) → from_utf8 raw ≡ some s → from_utf8_lossy raw ≡ s
from_utf8_lossy-valid raw s h = ap (λ r. decoded r (0xfffd ∷ [])) h

abbrev flat : FlatMap
flat = flatten from_utf8_lossy login (codes "sd_pam") received_iso

flatten-Sorted_example :
    Sorted flat
    × (lookup (codes "timestamp") flat
        ≡ some (text (or_received received_iso (not_blank login.timestamp))))
    × (lookup (codes "_source_type") flat ≡ some (text (codes "sd_pam")))
    × (lookup (codes "_raw") flat
        ≡ some (text (trim (decoded (from_utf8 login.raw) (from_utf8_lossy login.raw)))))
flatten-Sorted_example =
    flatten-Sorted from_utf8_lossy from_utf8_lossy-valid login (codes "sd_pam") received_iso

abbrev members : FlatMap
members =
    (codes "_normalized", boolean true)
    ∷ (codes "message", text (codes "say \"hi\"\n" ++ 7 ∷ []))
    ∷ []

-- The raw line of `login` is UTF-8.
flat-raw : lookup (codes "_raw") flat ≡ some (text (codes "Failed password"))
unfolding flatten from_utf8 trim trim_start is_whitespace text_lt
flat-raw = refl

read_object-serialize_flat_example : read_object 3 (serialize_flat members) ≡ some members
read_object-serialize_flat_example = read_object-serialize_flat 2 members (omega arith)

-- The one instant 2026-06-22 08:55:03.
instance abbrev one_instant : Civil Unit
one_instant = record {
  year = λ t. pos 2026;
  month = λ t. 6;
  day = λ t. 22;
  hour = λ t. 8;
  minute = λ t. 55;
  second = λ t. 3;
  with_ymd_and_hms = λ y mo d h mi s. some tt;
}

instant-FourDigits : FourDigits {I = Unit} tt
instant-FourDigits = record {
  year_pos = refl;
  year_fits = omega arith;
  month_fits = omega arith;
  day_fits = omega arith;
  hour_fits = omega arith;
  minute_fits = omega arith;
  second_fits = omega arith;
}

derive_bucket-file_path_example :
    derive_bucket (file_path {I = Unit} (codes "data") tt (derive_source login none))
    ≡ some (bucket_text (year_text {I = Unit} tt) (padded 2 6) (padded 2 22) (padded 2 8))
derive_bucket-file_path_example =
    derive_bucket-file_path {I = Unit} (codes "data") tt (derive_source login none) refl refl
      instant-FourDigits (derive_source-SafeLabel login none)
