-- ===== src/Siemctl/Render/Limits.antt =====
-- src/siemctl/src/render.rs, `--limit`: what is written of a sequence of records.
use headless_siem.Prelude.{
  ℕ, zero, suc, ◌+◌, ◌-◌, ◌≡◌, refl, sym, ap, ◌∙◌, Text, Bool, true, false, Bool-cases, Option,
  none, some, List, [], ◌∷◌, map, take, leb, arith, inl, inr,
}
use headless_siem.Siemctl.Render.{
  json, Record, Renderer, new_renderer, render_json, write_rec, emit_record, counted, put,
}

unfoldable pub write_all {ℓ} : {W : Type ℓ} → (W → Text → W) → W → List Text → W
write_all next w [] = w
write_all next w (line ∷ lines) = write_all next (next w line) lines

no_more : (limit emitted : ℕ) → leb limit emitted ≡ true → limit - emitted ≡ 0
no_more limit emitted h = ground (arith, h)

more :
    (limit emitted : ℕ) → leb limit emitted ≡ false → suc (limit - (emitted + 1)) ≡ limit - emitted
more limit emitted h = ground (arith, h)

module _ {W : Type 0} (write_line : W → Text → Option W) where
  -- The callers' loop; an error of the writer is ignored.
  unfoldable pub emit_all : Renderer W → List Record → Renderer W
  unfolding emit_record
  emit_all r [] = r
  emit_all r (rec ∷ records) = emit_all (emit_record write_line r rec).0 records

  module _ (next : W → Text → W)
      (sound : (w : W) (line : Text) → write_line w line ≡ some (next w line)) where
    abbrev json_renderer : Option (List Text) → W → ℕ → ℕ → Renderer W
    json_renderer fields out limit emitted = record {
      format = json;
      fields = fields;
      out = out;
      tsv_cols = none;
      header_done = false;
      limit = some limit;
      emitted = emitted;
    }

    put_sound :
        (r : Renderer W) (line : Text)
        → put write_line r line ≡ (record r { out = next r.out line }, true)
    put_sound r line = rw (sound r.out line, put) refl

    write_rec-json :
        (fields : Option (List Text)) (out : W) (limit emitted : ℕ) (rec : Record)
        → write_rec write_line (json_renderer fields out limit emitted) rec
          ≡ (json_renderer fields (next out (render_json fields rec)) limit emitted, true)
    unfolding write_rec
    write_rec-json fields out limit emitted rec =
        put_sound (json_renderer fields out limit emitted) (render_json fields rec)

    emit_record-json :
        (fields : Option (List Text)) (out : W) (limit emitted : ℕ) (rec : Record)
        → leb limit emitted ≡ false
        → (emit_record write_line (json_renderer fields out limit emitted) rec).0
          ≡ json_renderer fields (next out (render_json fields rec)) limit (emitted + 1)
    unfolding emit_record
    emit_record-json fields out limit emitted rec h =
        rw (h, emit_record)
          (ap (λ (x : Renderer W × Bool). (counted write_line x).0)
            (write_rec-json fields out limit emitted rec))

    emit_record_done :
        (fields : Option (List Text)) (out : W) (limit emitted : ℕ) (rec : Record)
        → leb limit emitted ≡ true
        → (emit_record write_line (json_renderer fields out limit emitted) rec).0
          ≡ json_renderer fields out limit emitted
    unfolding emit_record
    emit_record_done fields out limit emitted rec h = rw (h, emit_record) refl

    abbrev lines_of : Option (List Text) → ℕ → List Record → List Text
    lines_of fields n records = map (render_json fields) (take n records)

    take_nothing : (fields : Option (List Text)) (n : ℕ) → lines_of fields n [] ≡ []
    take_nothing fields zero = refl
    take_nothing fields (suc n) = refl

    emit_all-json :
        (fields : Option (List Text)) (records : List Record) (out : W) (limit emitted : ℕ)
        → (emit_all (json_renderer fields out limit emitted) records).out
          ≡ write_all next out (lines_of fields (limit - emitted) records)
    unfolding emit_all write_all
    emit_all-json fields [] out limit emitted =
        ap (write_all next out) (sym (take_nothing fields (limit - emitted)))
    emit_all-json fields (rec ∷ records) out limit emitted = elim (Bool-cases (leb limit emitted)) [
      | inl h ↦
          ap (λ r. (emit_all r records).out) (emit_record_done fields out limit emitted rec h)
          ∙ emit_all-json fields records out limit emitted
          ∙ ap (λ n. write_all next out (lines_of fields n records)) (no_more limit emitted h)
          ∙ ap (λ n. write_all next out (lines_of fields n (rec ∷ records)))
              (sym (no_more limit emitted h))
      | inr h ↦
          ap (λ r. (emit_all r records).out) (emit_record-json fields out limit emitted rec h)
          ∙ emit_all-json fields records (next out (render_json fields rec)) limit (emitted + 1)
          ∙ ap (λ n. write_all next out (lines_of fields n (rec ∷ records))) (more limit emitted h)
    ]

    -- With a writer that does not fail, a new renderer of JSON with a limit writes the lines of the first
    -- records, up to the limit, and none behind it.
    pub emit_all-limit :
        (fields : Option (List Text)) (records : List Record) (out : W) (limit : ℕ)
        → (emit_all (new_renderer json fields out (some limit)) records).out
          ≡ write_all next out (map (render_json fields) (take limit records))
    unfolding new_renderer
    emit_all-limit fields records out limit =
        emit_all-json fields records out limit 0
        ∙ ap (λ n. write_all next out (lines_of fields n records)) (omega arith)
