-- ===== src/Buffer/Runs.antt =====
-- Runs of the operations on small inputs, over a rope that is a list.
use lprog_hw.Prelude.{
  ℕ, ◌+◌, ◌≡◌, refl, true, false, Option, none, some, List, [], ◌∷◌, ◌++◌, if◌then◌else◌, length,
  take, drop,
}
use lprog_hw.Rope.{Rope, is_plain}
use lprog_hw.Buffer.State.{
  same, down, Buffer, Outcome, done, fault, out_of_fuel, M, ◌>>◌, load, load_cursor, store_cursor,
}
use lprog_hw.Buffer.Cursors.{bcursor_find, bline_find, cursor_insert}
use lprog_hw.Buffer.File.{buffer_from_file, buffer_save}
use lprog_hw.Buffer.Edit.{
  free_slot, place_cursor, bcursor_copy_own, bcursor_insert, bcursor_insert_line, bcursor_move,
}

unfoldable pub insert_plain : List ℕ → ℕ → ℕ → List ℕ
insert_plain r pos c = if is_plain c then take pos r ++ c ∷ drop pos r else r

pub insert_plain_text :
    (r : List ℕ) (pos c : ℕ)
    → is_plain c ≡ true
    → insert_plain r pos c ≡ take pos r ++ c ∷ drop pos r
unfolding insert_plain
insert_plain_text r pos c h = rw h

pub insert_plain_invalid : (r : List ℕ) (pos c : ℕ) → is_plain c ≡ false → insert_plain r pos c ≡ r
unfolding insert_plain
insert_plain_invalid r pos c h = rw h

instance abbrev pub list_rope : Rope (List ℕ)
list_rope = record {
  new = [];
  insert_char = insert_plain;
  insert_cstr = λ r pos cs. take pos r ++ (cs ++ drop pos r);
  del = λ r pos n. take pos r ++ drop (pos + n) r;
  char_count = length;
  text = λ r. r;
  text-new = refl;
  char_count-text = λ r. refl;
  text-insert_char = λ r pos c h _. insert_plain_text r pos c h;
  text-insert_char_invalid = insert_plain_invalid;
  text-insert_cstr = λ r pos cs _. refl;
  text-del = λ r pos n _. refl;
}

-- Memory that malloc returned, and no line.
abbrev pub fresh : Buffer (List ℕ)
fresh = record {
  id = 0;
  ver = 0;
  num_lines = 0;
  line_id_cnt = 0;
  height = 0;
  width = 0;
  first = 0;
  last = 0;
  top = 0;
  bottom = 0;
  own_curs = record { id = 0; own_line = 0; pos = 0 };
  peer_curss = [];
  ui = false;
  server_mode = false;
  repaints = 0;
  cell = λ _. none;
  brk = 1;
  junk_on_screen = false;
  junk_location = same;
}

abbrev result : {A : Type 0} → Outcome (Buffer (List ℕ)) A → Option A
result (done a b) = some a
result fault = none
result out_of_fuel = none

session : M (List ℕ) (Option (List ℕ))
session = do
  buffer_from_file (some (97 ∷ 98 ∷ 10 ∷ 99 ∷ [])) 1 4 20 false
  bcursor_copy_own 7
  bcursor_move 7 down
  bcursor_insert 7 120
  bcursor_insert_line 7
  buffer_save true

session_saved : result (session fresh) ≡ some (some (97 ∷ 98 ∷ 10 ∷ 120 ∷ 10 ∷ 99 ∷ 10 ∷ []))
unfolding bline_find free_slot place_cursor session load load_cursor store_cursor cursor_insert
    bcursor_find buffer_from_file bcursor_copy_own bcursor_move bcursor_insert bcursor_insert_line
    buffer_save insert_plain
session_saved = refl
