-- ===== src/Normalized/Output.antt =====
-- src/normalized/src/output.rs: the stored files, by the second of an event. A file's path is given
-- without its extension, which `with_extension` replaces.
pub mod Paths
use headless_siem.Prelude.{
  ℕ, Text, codes, join_path, padded, padded_int, Bool, true, false, Option, none, some, List, [],
  ◌∷◌, ◌++◌, ◌==◌, nat_eq, list_eq, if◌then◌else◌,
}
use headless_siem.Prelude.Options.{◌>>=◌}
use headless_siem.Siemctl.RawFile.{Civil}
use headless_siem.Normalized.Flat.{FlatVal, text, boolean, FlatMap, lookup}

pub data BucketTime : Type 0 where
  by_event by_receive : BucketTime

-- The calls of the operating system; `none` is an error. `write_new` creates or truncates.
pub record Os (F : Type 0) : Type 0 where
  pub exists : F → Text → Bool
  pub create_dir_all : F → Text → Option F
  pub append : F → Text → Text → Option F
  pub write_new : F → Text → Text → Option F
  pub rename : F → Text → Text → Option F

abbrev text_of : Option FlatVal → Option Text
text_of (some (text s)) = some s
text_of _ = none

abbrev str_field : FlatMap → Text → Option Text
str_field fields key = text_of (lookup key fields)

abbrev or_empty : Option Text → Text
or_empty none = []
or_empty (some s) = s

tsv_row : Text → FlatMap → Text
tsv_row source fields =
    or_empty (str_field fields (codes "timestamp"))
    ++ codes "\t"
    ++ or_empty (str_field fields (codes "src_ip"))
    ++ codes "\t"
    ++ or_empty (str_field fields (codes "dst_ip"))
    ++ codes "\t"
    ++ or_empty (str_field fields (codes "event_type"))
    ++ codes "\t"
    ++ or_empty (str_field fields (codes "severity"))
    ++ codes "\t"
    ++ source

abbrev tsv_header : Text
tsv_header = codes "timestamp\tsrc_ip\tdst_ip\tevent_type\tseverity\tsource"

abbrev newline : Text
newline = codes "\n"

module _ {F : Type 0} ⦃O : Os F⦄ where
  append_or_create : Text → Text → F → Option F
  append_or_create base line f =
      if O.exists f (base ++ codes ".jsonl")
      then O.append f (base ++ codes ".jsonl") (line ++ newline)
      else (O.write_new f (base ++ codes ".jsonl.tmp") (line ++ newline) >>= λ f₁.
          O.rename f₁ (base ++ codes ".jsonl.tmp") (base ++ codes ".jsonl"))

  write_tsv_sidecar : Text → Text → FlatMap → F → Option F
  unfolding tsv_row
  write_tsv_sidecar base source fields f =
      if O.exists f (base ++ codes ".tsv")
      then O.append f (base ++ codes ".tsv") (tsv_row source fields ++ newline)
      else (O.write_new f (base ++ codes ".tsv.tmp")
            (tsv_header ++ newline ++ tsv_row source fields ++ newline)
          >>= λ f₁. O.rename f₁ (base ++ codes ".tsv.tmp") (base ++ codes ".tsv"))

module _ {I : Type 0} ⦃C : Civil I⦄ where
  -- The directory of a second.
  unfoldable pub second_dir : I → Text
  second_dir t =
      codes "raw/"
      ++ padded_int 4 (C.year t)
      ++ codes "/"
      ++ padded 2 (C.month t)
      ++ codes "/"
      ++ padded 2 (C.day t)
      ++ codes "/"
      ++ padded 2 (C.hour t)
      ++ codes "/"
      ++ padded 2 (C.minute t)
      ++ codes "/"
      ++ padded 2 (C.second t)

  -- Without the extension.
  unfoldable pub rel_path : I → Text → Text
  unfolding second_dir
  rel_path t source = second_dir t ++ codes "/" ++ source

  abbrev or_received : I → Option I → I
  or_received received none = received
  or_received received (some t) = t

  -- `parse_event_timestamp` reads texts by the crate chrono.
  module _ (parse_event_timestamp : Text → Option I) where
    event_time : FlatMap → Option I
    event_time fields = str_field fields (codes "timestamp") >>= parse_event_timestamp

    bucket_time : BucketTime → I → FlatMap → I
    unfolding event_time
    bucket_time by_receive received fields = received
    bucket_time by_event received fields = or_received received (event_time fields)

    -- `OutputRouter::write`, of a line with its label and its fields.
    module _ {F : Type 0} ⦃O : Os F⦄ where
      unfoldable pub write : Text → Text → Text → FlatMap → I → BucketTime → F → Option F
      unfolding rel_path bucket_time append_or_create write_tsv_sidecar
      write data_dir json_line source fields received basis f =
          let t = bucket_time basis received fields in
          let base = join_path data_dir (rel_path t source) in
          O.create_dir_all f (join_path data_dir (second_dir t)) >>= λ f₁.
          append_or_create base json_line f₁ >>= λ f₂. write_tsv_sidecar base source fields f₂
