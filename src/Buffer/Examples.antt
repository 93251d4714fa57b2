-- ===== src/Buffer/Examples.antt =====
-- The theorems on src/buffer.c applied to a small buffer: the lines "ab" and "c", the own cursor in
-- the first one and a peer's cursor in the second.
pub mod Documents
mod Splitting
mod Joined
mod Created
use lprog_hw.Prelude.{
  ℕ, zero, suc, ◌≤◌, ◌≡◌, refl, sym, ap, subst, ◌≢◌, true, false, Option, none, some, List, [], ◌∷◌,
  arith, get_elem?, inl, inr, ◌∙◌, length, ◌<◌,
}
use lprog_hw.Buffer.State.{
  same, bellow, failed, up, down, Ptr, null, Line, Cursor, CursorRef, own, peer, Buffer, done,
  fault, update, sp_size,
}
use lprog_hw.Buffer.Window.{buffer_scroll}
use lprog_hw.Buffer.Cursors.{bcursor_find, cursor_move}
use lprog_hw.Buffer.Edit.{
  bcursor_move, bcursor_insert, bcursor_insert_line, bcursor_del, bcursor_free,
}
use lprog_hw.Buffer.Document.{PadFits}
use lprog_hw.Buffer.Returns.{Returns}
use lprog_hw.Buffer.Full.{bcursor_insert_full}
use lprog_hw.Buffer.Find.{Found, bcursor_find_lem}
use lprog_hw.Buffer.Runs.{list_rope}
use lprog_hw.Buffer.Safe.{At, Linked, Framed, Safe, CursorFits, Moved}
use lprog_hw.Buffer.Safe.Window.{buffer_scroll-Moved}
use lprog_hw.Buffer.Safe.Move.{Went, cursor_move-Went}
use lprog_hw.Buffer.Safe.Follow.{Kept}
use lprog_hw.Buffer.Safe.Named.{HasCursor, bcursor_move-Kept, no_cursor_crashes}
use lprog_hw.Buffer.Safe.Typing.{
  Edited, bcursor_insert-Edited, bcursor_del-Edited, bcursor_insert_invalid, LeftOutside,
}

abbrev pub first_line : Line (List ℕ)
first_line = record {
  id = 0;
  str = b'a' ∷ b'b' ∷ [];
  prev = null;
  next = 2;
  on_screen = true;
  location = same;
}

abbrev pub second_line : Line (List ℕ)
second_line = record {
  id = 1;
  str = b'c' ∷ [];
  prev = 1;
  next = null;
  on_screen = true;
  location = bellow;
}

abbrev two_cells : Ptr → Option (Line (List ℕ))
two_cells zero = none
two_cells (suc zero) = some first_line
two_cells (suc (suc zero)) = some second_line
two_cells (suc (suc (suc p))) = none

abbrev pub own_cursor : ℕ → Cursor
own_cursor n = record { id = 0; own_line = 1; pos = n }

abbrev pub peer_cursor : Cursor
peer_cursor = record { id = 3; own_line = 2; pos = 0 }

abbrev pub two_lines : ℕ → Buffer (List ℕ)
two_lines n = record {
  id = 1;
  ver = 0;
  num_lines = 2;
  line_id_cnt = 2;
  height = 4;
  width = 20;
  first = 1;
  last = 2;
  top = 1;
  bottom = 2;
  own_curs = own_cursor n;
  peer_curss = none ∷ some peer_cursor ∷ [];
  ui = false;
  server_mode = false;
  repaints = 0;
  cell = two_cells;
  brk = 3;
  junk_on_screen = false;
  junk_location = same;
}

pub At-first : At two_cells 1 first_line
At-first = record { ne_null = λ z. omega (arith, z); holds = refl }

pub At-second : At two_cells 2 second_line
At-second = record { ne_null = λ z. omega (arith, z); holds = refl }

pub two_cells-PadFits : PadFits two_cells
two_cells-PadFits zero l a = absurd (a.ne_null refl)
two_cells-PadFits (suc zero) l a =
    let e : first_line ≡ l = cc a.holds in
    subst (λ (l : Line (List ℕ)). length l.str < sp_size) e (omega arith)
two_cells-PadFits (suc (suc zero)) l a =
    let e : second_line ≡ l = cc a.holds in
    subst (λ (l : Line (List ℕ)). length l.str < sp_size) e (omega arith)
two_cells-PadFits (suc (suc (suc p))) l a = cc a.holds

pub two_cells-Linked : Linked two_cells
two_cells-Linked = record { back = back; forth = forth; no_loop = no_loop }
  where
    no_loop : (p : Ptr) (l : Line (List ℕ)) → At two_cells p l → l.next ≢ p
    no_loop zero l a z = a.ne_null refl
    no_loop (suc zero) l a z =
        let e : first_line ≡ l = cc a.holds in
        let z' : 2 ≡ 1 = ap (λ (x : Line (List ℕ)). x.next) e ∙ z in omega (arith, z')
    no_loop (suc (suc zero)) l a z =
        let e : second_line ≡ l = cc a.holds in
        let z' : 0 ≡ 2 = ap (λ (x : Line (List ℕ)). x.next) e ∙ z in omega (arith, z')
    no_loop (suc (suc (suc p))) l a z = cc a.holds

    back :
        (p : Ptr) (l : Line (List ℕ))
        → At two_cells p l
        → l.prev ≢ null
        → (m : Line (List ℕ)) × At two_cells l.prev m × (m.next ≡ p)
    back zero l a ne = absurd (a.ne_null refl)
    back (suc zero) l a ne =
        let e : l ≡ first_line = cc a.holds in absurd (ne (ap (λ (x : Line (List ℕ)). x.prev) e))
    back (suc (suc zero)) l a ne =
        let e : second_line ≡ l = cc a.holds in
        subst (λ (x : Line (List ℕ)). (m : Line (List ℕ)) × At two_cells x.prev m × (m.next ≡ 2)) e
          (first_line, At-first, refl)
    back (suc (suc (suc p))) l a ne = cc a.holds

    forth :
        (p : Ptr) (l : Line (List ℕ))
        → At two_cells p l
        → l.next ≢ null
        → (m : Line (List ℕ)) × At two_cells l.next m × (m.prev ≡ p)
    forth zero l a ne = absurd (a.ne_null refl)
    forth (suc zero) l a ne =
        let e : first_line ≡ l = cc a.holds in
        subst (λ (x : Line (List ℕ)). (m : Line (List ℕ)) × At two_cells x.next m × (m.prev ≡ 1)) e
          (second_line, At-second, refl)
    forth (suc (suc zero)) l a ne =
        let e : l ≡ second_line = cc a.holds in absurd (ne (ap (λ (x : Line (List ℕ)). x.next) e))
    forth (suc (suc (suc p))) l a ne = cc a.holds

two_lines-Framed : (n : ℕ) → Framed (two_lines n)
two_lines-Framed n = record {
  linked = two_cells-Linked;
  first = (first_line, At-first);
  last = (second_line, At-second);
  top = (first_line, At-first);
  bottom = (second_line, At-second);
}

pub two_lines-Safe : (n : ℕ) → n ≤ 2 → Safe (two_lines n)
two_lines-Safe n h = record {
  framed = two_lines-Framed n;
  own_curs = (first_line, At-first, h);
  peer_curss = peers;
}
  where
    peers :
        (i : ℕ) (c : Cursor)
        → get_elem? (two_lines n).peer_curss i ≡ some (some c)
        → CursorFits (two_lines n) c
    peers zero c e = cc e
    peers (suc zero) c e =
        let e' : peer_cursor ≡ c = cc e in
        subst (CursorFits (two_lines n)) e' (second_line, At-second, omega arith)
    peers (suc (suc i)) c e = cc e

pub two_lines_at_1-Safe : Safe (two_lines 1)
two_lines_at_1-Safe = two_lines-Safe 1 (omega arith)

pub found_first : bcursor_find 0 (two_lines 1) ≡ done (some own) (two_lines 1)
unfolding bcursor_find
found_first = refl

found_at_end : bcursor_find 0 (two_lines 2) ≡ done (some own) (two_lines 2)
unfolding bcursor_find
found_at_end = refl

bcursor_move-Kept_example : Returns (λ _. Kept (two_lines 1)) (bcursor_move 0 down (two_lines 1))
bcursor_move-Kept_example = bcursor_move-Kept (two_lines 1) 0 down two_lines_at_1-Safe (inl refl)

bcursor_insert-Edited_example :
    Returns
      (λ res b'.
        (res ≡ update)
        × Edited (two_lines 1) own (own_cursor 1) first_line 2 (b'a' ∷ b'x' ∷ b'b' ∷ []) b')
      (bcursor_insert 0 b'x' (two_lines 1))
bcursor_insert-Edited_example =
    bcursor_insert-Edited (two_lines 1) 0 b'x' own (own_cursor 1) first_line two_lines_at_1-Safe
      found_first refl At-first refl (omega arith)

bcursor_del-Edited_example :
    Returns
      (λ res b'.
        (res ≡ update) × Edited (two_lines 1) own (own_cursor 1) first_line 0 (b'b' ∷ []) b')
      (bcursor_del 0 (two_lines 1))
bcursor_del-Edited_example =
    bcursor_del-Edited (two_lines 1) 0 own (own_cursor 1) first_line two_lines_at_1-Safe found_first
      refl At-first (omega arith)

bcursor_find_example :
    (o : Option CursorRef) × (bcursor_find 3 (two_lines 1) ≡ done o (two_lines 1))
    × Found (two_lines 1) 3 o
bcursor_find_example = bcursor_find_lem (two_lines 1) 3

buffer_scroll-Moved_example : Returns (λ _. Moved (two_lines 1)) (buffer_scroll down (two_lines 1))
buffer_scroll-Moved_example = buffer_scroll-Moved down (two_lines-Framed 1)

cursor_move-Went_example :
    Returns (Went (peer 1) (two_lines 1)) (cursor_move (peer 1) up (two_lines 1))
cursor_move-Went_example = cursor_move-Went (peer 1) up peer_cursor two_lines_at_1-Safe refl

-- The byte is 0, which the payload of an INSERT message with an empty string has.
bcursor_insert_invalid_example :
    Returns
      (λ res b'. (res ≡ update) × LeftOutside (two_lines 2) own (own_cursor 2) first_line b')
      (bcursor_insert 0 0 (two_lines 2))
bcursor_insert_invalid_example =
    bcursor_insert_invalid (two_lines 2) 0 0 own (own_cursor 2) first_line found_at_end refl
      At-first refl (omega arith) refl

no_cursor_9 : ¬ HasCursor (two_lines 1) 9
no_cursor_9 (inl e) = omega (arith, e)
no_cursor_9 (inr (zero, d, e, e')) = cc e
no_cursor_9 (inr (suc zero, d, e, e')) =
    let z : peer_cursor ≡ d = cc e in
    let e'' = subst (λ (x : Cursor). x.id ≡ 9) (sym z) e' in omega (arith, e'')
no_cursor_9 (inr (suc (suc i), d, e, e')) = cc e

no_cursor_crashes_example :
    (bcursor_move 9 up (two_lines 1) ≡ fault)
    × (bcursor_insert_line 9 (two_lines 1) ≡ fault)
    × (bcursor_del 9 (two_lines 1) ≡ fault)
    × (bcursor_free 9 (two_lines 1) ≡ fault)
    × (bcursor_insert 9 b'x' (two_lines 1) ≡ done failed (two_lines 1))
no_cursor_crashes_example = no_cursor_crashes (two_lines 1) 9 b'x' up no_cursor_9

-- Three columns have room for the two characters of the first line.
abbrev narrow : Buffer (List ℕ)
narrow = record (two_lines 1) { width = 3 }

found_narrow : bcursor_find 0 narrow ≡ done (some own) narrow
unfolding bcursor_find
found_narrow = refl

bcursor_insert_full_example : bcursor_insert 0 b'x' narrow ≡ done update narrow
bcursor_insert_full_example =
    bcursor_insert_full narrow 0 b'x' own (own_cursor 1) first_line found_narrow refl At-first
      (omega arith)
