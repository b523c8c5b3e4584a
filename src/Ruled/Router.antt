-- ===== src/Ruled/Router.antt =====
-- src/ruled/src/output.rs, `AlertRouter`: deduplication, and alerts to stdout and to the buckets.
pub mod Dedup
use headless_siem.Prelude.{
  ℕ, ◌+◌, ◌-◌, ◌%◌, ◌^◌, Text, codes, is_empty, Bool, true, false, ◌||◌, not, Option, none, some,
  List, [], ◌∷◌, ◌++◌, take, nat_eq, list_eq, pair_eq, ltb, if◌then◌else◌, HashMap, insert,
  empty_map, join_path,
}
use headless_siem.Prelude.Results.{Result, ok, err}
use headless_siem.Json.{Json, get_str}
use headless_siem.Calendar.{bucket_from_epoch, bucket_dir}

abbrev pub u64_mod : ℕ
u64_mod = 2 ^ 64

pub record AlertRouter : Type 0 where
  pub output_dir : Option Text
  pub dedup_cache : HashMap (Text × Text) ℕ
  pub dedup_window_secs : ℕ

-- What has been written: the lines on stdout, and the lines appended to files, last first.
pub record Sink : Type 0 where
  pub stdout : List Text
  pub files : List (Text × Text)

-- How the operating system answers the calls of one `emit`.
pub record Io : Type 0 where
  pub stdout_ok : Bool
  pub create_dir_ok : Bool
  pub open_ok : Bool
  pub append_ok : Bool

pub data IoError : Type 0 where
  stdout_failed create_dir_failed open_failed append_failed : IoError

pub new_router : Option Text → ℕ → AlertRouter
new_router output_dir window = record {
  output_dir = output_dir;
  dedup_cache = empty_map;
  dedup_window_secs = window;
}

text_or_empty : Option Text → Text
text_or_empty none = []
text_or_empty (some s) = s

-- `now - last_seen` on `u64`, as a release build computes it: it wraps.
pub age : ℕ → ℕ → ℕ
age now last_seen = (now + u64_mod - last_seen) % u64_mod

pub seen_recently : ℕ → ℕ → Option ℕ → Bool
unfolding age
seen_recently window now none = false
seen_recently window now (some last_seen) = ltb (age now last_seen) window

-- `write_to_filesystem`
pub write_to_filesystem : Io → Text → Text → ℕ → Sink → Sink × Result IoError (Unit {0})
write_to_filesystem io base line now sink =
    let path = join_path (bucket_dir base (bucket_from_epoch now)) (codes "alerts.jsonl") in
    if not io.create_dir_ok
    then (sink, err create_dir_failed)
    else if not io.open_ok
    then (sink, err open_failed)
    else if not io.append_ok
    then (sink, err append_failed)
    else (record sink { files = (path, line) ∷ sink.files }, ok tt)

abbrev and_true : Sink × Result IoError (Unit {0}) → Sink × Result IoError Bool
and_true (sink, ok u) = (sink, ok true)
and_true (sink, err e) = (sink, err e)

to_directory : Io → Option Text → Text → ℕ → Sink → Sink × Result IoError Bool
unfolding write_to_filesystem
to_directory io none line now sink = (sink, ok true)
to_directory io (some dir) line now sink = and_true (write_to_filesystem io dir line now sink)

-- The writes of `emit`, behind the deduplication.
unfoldable pub write_alert : Io → Option Text → Text → ℕ → Sink → Sink × Result IoError Bool
unfolding to_directory
write_alert io output_dir line now sink =
    if not io.stdout_ok
    then (sink, err stdout_failed)
    else to_directory io output_dir line now (record sink { stdout = line ∷ sink.stdout })

module _ {V : Type 0} ⦃J : Json V⦄ where
  unfoldable pub build_dedup_key : V → Text
  unfolding text_or_empty
  build_dedup_key event =
      let src_ip = text_or_empty (get_str event (codes "src_ip")) in
      let event_type = text_or_empty (get_str event (codes "event_type")) in
      if not (is_empty src_ip) || not (is_empty event_type)
      then src_ip ++ codes "|" ++ event_type
      else take 64 (J.to_text event)

  -- The alert of a rule that matches.
  unfoldable pub alert_json : Text → Text → Text → V → ℕ → V
  alert_json rule_id rule_title level event now = J.of_fields (
      (codes "_ruled", J.of_bool true)
      ∷ (codes "rule_id", J.of_text rule_id)
      ∷ (codes "rule_title", J.of_text rule_title)
      ∷ (codes "level", J.of_text level)
      ∷ (codes "event", event)
      ∷ (codes "timestamp", J.of_nat now)
      ∷ [])

  -- `emit`: the router, what has been written, and whether the alert was emitted.
  unfoldable pub emit :
      Io
      → ℕ
      → Text
      → Text
      → Text
      → V
      → AlertRouter
      → Sink
      → AlertRouter × Sink × Result IoError Bool
  unfolding seen_recently write_alert
  emit io now rule_id rule_title level event router sink =
      let key : Text × Text = (rule_id, build_dedup_key event) in
      let line = J.to_text (alert_json rule_id rule_title level event now) in
      let written = write_alert io router.output_dir line now sink in
      let cached = record router { dedup_cache = insert key now router.dedup_cache } in
      if ltb 0 router.dedup_window_secs
      then (if seen_recently router.dedup_window_secs now (router.dedup_cache key)
          then (router, sink, ok false)
          else (cached, written.0, written.1))
      else (router, written.0, written.1)

-- `flush`
pub flush : AlertRouter → AlertRouter
flush router = record router { dedup_cache = empty_map }
