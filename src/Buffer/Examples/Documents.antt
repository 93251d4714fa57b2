-- ===== src/Buffer/Examples/Documents.antt =====
-- The theorems on the document of a buffer, and on cursors that come and go, applied to the two lines
-- "ab" and "c".
use lprog_hw.Prelude.{
  ℕ, ◌≡◌, refl, ap, sym, true, some, List, [], ◌∷◌, arith, inl, replicate, ◌==◌, if◌then◌else◌,
  none,
}
use lprog_hw.Buffer.State.{update, down, Line, own, peer, done, Buffer, fault}
use lprog_hw.Buffer.Cursors.{bline_find, bcursor_find}
use lprog_hw.Buffer.Edit.{bcursor_move, bcursor_insert, bcursor_del, bcursor_copy_own, bcursor_free}
use lprog_hw.Buffer.File.{buffer_save}
use lprog_hw.Buffer.Returns.{Returns}
use lprog_hw.Buffer.Runs.{list_rope}
use lprog_hw.Buffer.Document.{
  Place, Document, find_id, backwards, bytes_of, bline_find_lem, buffer_save_lem,
}
use lprog_hw.Buffer.Document.Edits.{bytes_with, bcursor_insert-buffer_save, bcursor_del-buffer_save}
use lprog_hw.Buffer.Document.Moves.{bcursor_move-buffer_save}
use lprog_hw.Buffer.Joining.{Comes, Left, bcursor_copy_own-Comes, bcursor_free-Left}
use lprog_hw.Buffer.Examples.{
  first_line, second_line, own_cursor, peer_cursor, two_lines, At-first, At-second,
  two_cells-Linked, two_lines_at_1-Safe, found_first, two_cells-PadFits,
}

abbrev pub two_places : List (Place (List ℕ))
two_places = (1, first_line) ∷ (2, second_line) ∷ []

pub two_lines-Document : Document (two_lines 1) two_places
two_lines-Document = record {
  lines = (refl, At-first, (λ z. omega (arith, z)), (refl, At-second, refl));
  first_prev =
      λ l a. let e : first_line ≡ l = cc a.holds in ap (λ (x : Line (List ℕ)). x.prev) (sym e);
  fuel = omega arith;
}

-- The second line has the id 1; a line with the id 7 is not there.
finds : (find_id 1 (backwards two_places) ≡ 2) × (find_id 7 (backwards two_places) ≡ 0)
unfolding find_id
finds = (refl, refl)

saved : bytes_of two_places ≡ b'a' ∷ b'b' ∷ 10 ∷ b'c' ∷ 10 ∷ []
unfolding bytes_of
saved = refl

bline_find_example :
    bline_find 1 (two_lines 1) ≡ done (find_id 1 (backwards two_places)) (two_lines 1)
bline_find_example = bline_find_lem (two_lines 1) 1 two_places two_cells-Linked two_lines-Document

buffer_save_example :
    buffer_save true (two_lines 1) ≡ done (some (bytes_of two_places)) (two_lines 1)
buffer_save_example = buffer_save_lem (two_lines 1) two_places two_lines-Document two_cells-PadFits

-- A line of 2048 characters does not fit into the scratch pad.
abbrev long_line : Buffer (List ℕ)
long_line = record (two_lines 0) {
  cell = λ p. if p == 1 then some (record first_line { str = replicate 2048 b'a' }) else none;
}

long_line_overflows : buffer_save true long_line ≡ fault
unfolding buffer_save
long_line_overflows = refl

bcursor_insert-buffer_save_example :
    Returns
      (λ _ b'.
        buffer_save true b' ≡ done (some (bytes_with 1 (b'a' ∷ b'x' ∷ b'b' ∷ []) two_places)) b')
      (bcursor_insert 0 b'x' (two_lines 1))
bcursor_insert-buffer_save_example =
    bcursor_insert-buffer_save (two_lines 1) 0 b'x' own (own_cursor 1) first_line two_places
      two_lines_at_1-Safe two_lines-Document two_cells-PadFits found_first refl At-first refl
      (omega arith) (omega arith)

bcursor_del-buffer_save_example :
    Returns
      (λ _ b'. buffer_save true b' ≡ done (some (bytes_with 1 (b'b' ∷ []) two_places)) b')
      (bcursor_del 0 (two_lines 1))
bcursor_del-buffer_save_example =
    bcursor_del-buffer_save (two_lines 1) 0 own (own_cursor 1) first_line two_places
      two_lines_at_1-Safe two_lines-Document two_cells-PadFits found_first refl At-first
      (omega arith)

bcursor_move-buffer_save_example :
    Returns
      (λ _ b'. buffer_save true b' ≡ done (some (bytes_of two_places)) b')
      (bcursor_move 0 down (two_lines 1))
bcursor_move-buffer_save_example =
    bcursor_move-buffer_save (two_lines 1) 0 down two_places two_lines_at_1-Safe two_lines-Document
      two_cells-PadFits (inl refl)

at_first : find_id 0 (backwards two_places) ≡ 1
unfolding find_id
at_first = refl

bcursor_copy_own_example :
    Returns
      (Comes (two_lines 1) (record { id = 5; own_line = 1; pos = 1 }))
      (bcursor_copy_own 5 (two_lines 1))
bcursor_copy_own_example =
    bcursor_copy_own-Comes (two_lines 1) 5 first_line two_places two_lines_at_1-Safe
      two_lines-Document (λ z. omega (arith, z)) At-first at_first

found_peer : bcursor_find 3 (two_lines 1) ≡ done (some (peer 1)) (two_lines 1)
unfolding bcursor_find
found_peer = refl

bcursor_free_example :
    Returns (λ res b'. (res ≡ update) × Left (two_lines 1) 1 b') (bcursor_free 3 (two_lines 1))
bcursor_free_example =
    bcursor_free-Left (two_lines 1) 3 1 peer_cursor two_lines_at_1-Safe found_peer refl
