-- ===== src/Buffer/Examples/Splitting.antt =====
-- bcursor_insert_line applied to the lines "ab" and "c", with the cursor behind the "a".
use lprog_hw.Prelude.{ℕ, ◌≡◌, refl, ap, ◌∙◌, zero, suc, true, some, get_elem?, List, [], ◌∷◌, arith}
use lprog_hw.Buffer.State.{Line, Cursor, own, done}
use lprog_hw.Buffer.Edit.{bcursor_insert_line}
use lprog_hw.Buffer.File.{newline, buffer_save}
use lprog_hw.Buffer.Returns.{Returns}
use lprog_hw.Buffer.Runs.{list_rope}
use lprog_hw.Buffer.Safe.{Safe}
use lprog_hw.Buffer.Document.Edits.{bytes_with}
use lprog_hw.Buffer.Examples.{
  first_line, second_line, own_cursor, peer_cursor, two_lines, At-first, two_lines_at_1-Safe,
  found_first, two_cells-PadFits,
}
use lprog_hw.Buffer.Examples.Documents.{two_places, two_lines-Document}
use lprog_hw.Buffer.Splitting.Trimming.{Wide}
use lprog_hw.Buffer.Splitting.Placed.{AllCursors}
use lprog_hw.Buffer.Splitting.Cut.{NotBehind}
use lprog_hw.Buffer.Splitting.Saved.{HasRoom, bcursor_insert_line-buffer_save}

two_lines-Wide : Wide (two_lines 1)
two_lines-Wide = record {
  below_top = λ l a z.
      let e : first_line ≡ l = cc a.holds in
      let e' : ◌≡◌ {A = ℕ} 2 0 = ap (λ (x : Line (List ℕ)). x.next) e ∙ z in omega (arith, e');
  above_bottom = λ l a z.
      let e : second_line ≡ l = cc a.holds in
      let e' : ◌≡◌ {A = ℕ} 1 0 = ap (λ (x : Line (List ℕ)). x.prev) e ∙ z in omega (arith, e');
}

two_lines-HasRoom : HasRoom (two_lines 1)
two_lines-HasRoom = record { ne_null = λ z. omega (arith, z); unused = refl }

-- The other cursor stands in the second line.
nobody_behind : AllCursors (two_lines 1) (NotBehind (own_cursor 1))
nobody_behind = ((λ e. omega arith), peers)
  where
    peers :
        (i : ℕ) (c : Cursor)
        → get_elem? (two_lines 1).peer_curss i ≡ some (some c)
        → NotBehind (own_cursor 1) c
    peers zero c e = cc e
    peers (suc zero) c e =
        let e' : peer_cursor ≡ c = cc e in
        let z : ◌≡◌ {A = ℕ} 0 c.pos = ap (λ (c : Cursor). c.pos) e' in λ y. omega (arith, z)
    peers (suc (suc i)) c e = cc e

bcursor_insert_line-buffer_save_example :
    Returns
      (λ _ b'.
        Safe b'
        × (buffer_save true b'
            ≡ done (some (bytes_with 1 (b'a' ∷ newline ∷ b'b' ∷ []) two_places)) b'))
      (bcursor_insert_line 0 (two_lines 1))
bcursor_insert_line-buffer_save_example =
    bcursor_insert_line-buffer_save (two_lines 1) 0 own (own_cursor 1) first_line two_places
      two_lines_at_1-Safe two_lines-Document two_cells-PadFits two_lines-Wide two_lines-HasRoom
      found_first refl At-first (λ _. nobody_behind)
