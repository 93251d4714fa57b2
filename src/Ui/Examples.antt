-- ===== src/Ui/Examples.antt =====
-- The theorem on ui_update applied to the lines "ab" and "c".
use lprog_hw.Prelude.{◌≡◌, refl, [], ◌∷◌, arith}
use lprog_hw.Buffer.Returns.{Returns}
use lprog_hw.Buffer.Runs.{list_rope}
use lprog_hw.Buffer.Examples.{
  two_lines, first_line, second_line, At-first, At-second, two_lines_at_1-Safe,
}
use lprog_hw.Buffer.Examples.Documents.{two_places}
use lprog_hw.Ui.{Ui, ui_update, expand}
use lprog_hw.Ui.Shown.{Drawn, Printable, ui_update-Drawn}

abbrev ui : Ui
ui = record { height = 4; width = 20 }

lines-Printable : Printable ui two_places
unfolding expand
lines-Printable = ((b'a' ∷ b'b' ∷ [], (omega arith, refl)), ((b'c' ∷ [], (omega arith, refl)), tt))

ui_update-Drawn_example :
    Returns (λ ds b'. (b' ≡ two_lines 1) × Drawn ui 4 0 two_places ds) (ui_update ui (two_lines 1))
ui_update-Drawn_example =
    ui_update-Drawn ui (two_lines 1) two_places (1, first_line) ((2, second_line) ∷ [])
      two_lines_at_1-Safe (refl, At-first, (refl, At-second, refl)) (omega arith)
      (refl, At-first, (refl, At-second, refl)) lines-Printable
