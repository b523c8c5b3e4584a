-- ===== src/Correlated/Pipeline.antt =====
-- src/correlated/src/output.rs, `OutputRouter`, and src/correlated/src/main.rs: the loop over the
-- input lines, which passes every alert through behind the correlation alerts that it completes.
use headless_siem.Prelude.{
  ℕ, ◌+◌, Text, codes, Bool, true, Option, none, some, List, [], ◌∷◌, map, if◌then◌else◌, join_path,
}
use headless_siem.Prelude.Results.{Result, ok, err}
use headless_siem.Json.{Json}
use headless_siem.Calendar.{bucket_from_epoch, bucket_dir}
use headless_siem.Correlated.Engine.{Engine, Correlation, feed_at}

pub record Sink : Type 0 where
  pub stdout : List Text
  pub files : List (Text × Text)
  -- how many writes to stdout have been tried
  pub writes : ℕ

-- The world of the loop: the clock that `feed` reads at each line, the clock that `emit` reads
-- behind each write to stdout, which writes to stdout succeed, and whether a
-- line can be appended to a file (directory, open and write).
pub record Environment : Type 0 where
  pub clock : ℕ → ℕ
  pub emit_clock : ℕ → ℕ
  pub stdout_ok : ℕ → Bool
  pub file_ok : Text → Bool

pub data IoError : Type 0 where
  stdout_failed file_failed : IoError

module _ (env : Environment) where
  -- `writeln!(out, …)`
  pub write_line : Text → Sink → Sink × Result IoError (Unit {0})
  write_line line sink =
      let tried = record sink { writes = sink.writes + 1 } in
      if env.stdout_ok sink.writes
      then (record tried { stdout = line ∷ sink.stdout }, ok tt)
      else (tried, err stdout_failed)

  pub write_to_filesystem : Text → Text → ℕ → Sink → Sink × Result IoError (Unit {0})
  write_to_filesystem base line now sink =
      let path = join_path (bucket_dir base (bucket_from_epoch now)) (codes "correlated.jsonl") in
      if env.file_ok path
      then (record sink { files = (path, line) ∷ sink.files }, ok tt)
      else (sink, err file_failed)

  after_stdout :
      Option Text → Text → ℕ → Sink × Result IoError (Unit {0}) → Sink × Result IoError (Unit {0})
  unfolding write_to_filesystem
  after_stdout dir line now (sink, err e) = (sink, err e)
  after_stdout none line now (sink, ok u) = (sink, ok tt)
  after_stdout (some base) line now (sink, ok u) = write_to_filesystem base line now sink

  -- `OutputRouter::emit`
  pub emit : Option Text → Text → Sink → Sink × Result IoError (Unit {0})
  unfolding after_stdout write_line
  emit dir line sink = after_stdout dir line (env.emit_clock sink.writes) (write_line line sink)

  abbrev stop_or : Sink × Result IoError (Unit {0}) → (Sink → Sink) → Sink
  stop_or (sink, ok u) k = k sink
  stop_or (sink, err e) k = sink

  -- The loop over the triggered alerts: an error ends this loop only.
  pub emit_all : Option Text → List Text → Sink → Sink
  unfolding emit
  emit_all dir [] sink = sink
  emit_all dir (l ∷ ls) sink = stop_or (emit dir l sink) (emit_all dir ls)

module _ {V : Type 0} ⦃J : Json V⦄ where
  -- The `json!` object of a correlation alert.
  pub correlation_json : Correlation V → V
  correlation_json c = J.of_fields (
      (codes "_correlated", J.of_bool true)
      ∷ (codes "correlation_id", J.of_text c.correlation_id)
      ∷ (codes "correlation_title", J.of_text c.correlation_title)
      ∷ (codes "join_field", J.of_text c.join_field)
      ∷ (codes "join_value", J.of_text c.join_value)
      ∷ (codes "window_seconds", J.of_nat c.window_seconds)
      ∷ (codes "chain_start", J.of_nat c.chain_start)
      ∷ (codes "chain_end", J.of_nat c.chain_end)
      ∷ (codes "step_counts", J.of_list (map J.of_nat c.step_counts))
      ∷ (codes "sample_events", J.of_list c.sample_events)
      ∷ [])

  pub correlation_line : Correlation V → Text
  unfolding correlation_json
  correlation_line c = J.to_text (correlation_json c)

pub data Input : Type 0 where
  signalled read_error : Input
  line : Text → Input

module _ {V : Type 0} ⦃J : Json V⦄ (env : Environment) (from_str : Text → Option V)
    (output_dir : Option Text) where
  -- One line that parses: what it triggers is emitted first, and then the line itself is written.
  pub handle_alert : ℕ → Text → V → Engine V → Sink → Engine V × Sink × Result IoError (Unit {0})
  handle_alert now text alert engine sink =
      let (engine', triggered) = feed_at alert now engine in
      let (sink', written) =
        write_line env text (emit_all env output_dir (map correlation_line triggered) sink) in
      (engine', sink', written)

  abbrev go_on :
      Engine V × Sink × Result IoError (Unit {0})
      → (Engine V → Sink → Engine V × Sink)
      → Engine V × Sink
  go_on (engine, sink, ok u) k = k engine sink
  go_on (engine, sink, err e) k = (engine, sink)

  -- The main loop from line `n` on; a failed write of the line itself ends it.
  pub run : ℕ → List Input → Engine V → Sink → Engine V × Sink
  unfolding handle_alert
  run n [] engine sink = (engine, sink)
  run n (signalled ∷ rest) engine sink = (engine, sink)
  run n (read_error ∷ rest) engine sink = (engine, sink)
  run n (line [] ∷ rest) engine sink = run (n + 1) rest engine sink
  run n (line (c ∷ s) ∷ rest) engine sink = elim (from_str (c ∷ s)) [
    | none ↦ run (n + 1) rest engine sink
    | some alert ↦ go_on (handle_alert (env.clock n) (c ∷ s) alert engine sink) (run (n + 1) rest)
  ]
