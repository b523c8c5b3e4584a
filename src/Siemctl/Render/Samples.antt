-- ===== src/Siemctl/Render/Samples.antt =====
-- Three records of which two are written, and a value that holds a tab.
use headless_siem.Prelude.{
  Text, codes, none, some, List, [], ◌∷◌, ◌++◌, map, take, pos, ◌≡◌, refl, split,
}
use headless_siem.Siemctl.Render.{Record, str, int, json, new_renderer, render_json, tsv_row, cells}
use headless_siem.Siemctl.Render.Limits.{emit_all, write_all, emit_all-limit}
use headless_siem.Siemctl.Render.Cells.{split-tsv_row}

abbrev rows : List Record
rows =
    ((codes "host", str (codes "a\tb")) ∷ (codes "count", int (pos 3)) ∷ [])
    ∷ ((codes "host", str (codes "c")) ∷ [])
    ∷ []
    ∷ []

abbrev append_line : List Text → Text → List Text
append_line w line = w ++ line ∷ []

emit_all-limit_example :
    (emit_all (λ w line. some (append_line w line)) (new_renderer json none [] (some 2)) rows).out
    ≡ write_all append_line [] (map (render_json none) (take 2 rows))
emit_all-limit_example =
    emit_all-limit (λ w line. some (append_line w line)) append_line (λ w line. refl) none rows [] 2

abbrev first_row : Record
first_row = (codes "host", str (codes "a\tb")) ∷ (codes "count", int (pos 3)) ∷ []

split-tsv_row_example :
    split 9 (tsv_row (codes "host" ∷ codes "none" ∷ []) first_row)
    ≡ cells (codes "host" ∷ codes "none" ∷ []) first_row
split-tsv_row_example = split-tsv_row (codes "host") (codes "none" ∷ []) first_row (tt, (tt, tt))
