-- ===== src/Buffer/Cursors.antt =====
-- src/buffer.c, lines 138 to 326: lines, cursors, and finding them by id.
use lprog_hw.Prelude.{
  ℕ, zero, suc, ◌+◌, ◌-◌, ◌%◌, ◌^◌, Bool, true, false, ◌||◌, ◌==◌, ltb, leb, Option, none, some,
  List, [], ◌∷◌, if◌then◌else◌,
}
use lprog_hw.Rope.{Rope}
use lprog_hw.Buffer.State.{
  Crp, above, bellow, Bres, failed, update, CmoveRes, a_up, a_horizontal, a_down, a_none, CmoveDir,
  up, down, left, right, Ptr, null, Cursor, CursorRef, own, peer, out_of_fuel, M, pure, ◌>>=◌, ◌>>◌,
  skip, state, modify, write, load, store, set_on_screen, set_location, set_prev, set_next,
  load_cursor, store_cursor,
}
use lprog_hw.Buffer.Window.{is_same, is_above}

-- LINE

-- `on_screen` of a line between two lines
abbrev pub new_on_screen : Bool → Bool → Bool
new_on_screen true true = true
new_on_screen true false = false
new_on_screen false q = false

-- `where` of a line between two lines, from theirs
abbrev pub new_location : Crp → Crp → Crp → Crp
new_location junk prev next =
    if is_same next || is_above next then above else (if is_above prev then junk else bellow)

-- if(rope_char_count(..) < c->pos) c->pos = rope_char_count(..)
abbrev pub clamp_pos : ℕ → ℕ → ℕ
clamp_pos count pos = if ltb count pos then count else pos

-- c->buf->width-1, compared as a size_t
abbrev pub width_limit : ℕ → ℕ
width_limit width = (width + (2 ^ 64 - 1)) % 2 ^ 64

module _ {R : Type 0} ⦃rope : Rope R⦄ where
  -- malloc, and the assignments of the fields that line_new always sets
  unfoldable pub alloc_line : ℕ → Ptr → Ptr → M R Ptr
  alloc_line id prev next = do
    b ← state
    modify (λ b. record b { brk = b.brk + 1 })
    store b.brk (record {
      id = id;
      str = rope.new;
      prev = prev;
      next = next;
      on_screen = b.junk_on_screen;
      location = b.junk_location;
    })
    pure b.brk

  -- The new line's place relative to the screen and to own_curs.
  unfoldable pub place_line : Ptr → Ptr → Ptr → M R (Unit {0})
  unfolding load set_on_screen set_location
  place_line p prev next =
      if prev == null
      then (if next == null then skip else do set_on_screen p false; set_location p above)
      else (if next == null then (do set_on_screen p false; set_location p bellow) else (do
        before ← load prev
        after ← load next
        l ← load p
        set_on_screen p (new_on_screen before.on_screen after.on_screen)
        set_location p (new_location l.location before.location after.location)))

  unfoldable pub line_new : ℕ → Ptr → Ptr → M R Ptr
  unfolding alloc_line place_line set_prev set_next
  line_new id prev next = do
    p ← alloc_line id prev next
    if prev == null then skip else set_next prev p
    if next == null then skip else set_prev next p
    place_line p prev next
    pure p

  -- Unlinks and frees the line.
  unfoldable pub line_free : Ptr → M R Ptr
  unfolding load set_prev set_next
  line_free p = do
    l ← load p
    if l.prev == null then skip else set_next l.prev l.next
    if l.next == null then skip else set_prev l.next l.prev
    modify (λ b. record b { cell = write b.cell p none })
    pure l.prev

  -- CURSOR

  -- Into the line before, at a position that depends on the length of that line.
  unfoldable pub go_prev : CursorRef → (ℕ → ℕ → ℕ) → M R CmoveRes
  unfolding load load_cursor store_cursor
  go_prev r at = do
    c ← load_cursor r
    l ← load c.own_line
    b ← state
    if (l.prev == null) || (c.own_line == b.first) then pure a_none else do
      l' ← load l.prev
      store_cursor r (record c { own_line = l.prev; pos = at (rope.char_count l'.str) c.pos })
      pure a_up

  unfoldable pub go_next : CursorRef → (ℕ → ℕ → ℕ) → M R CmoveRes
  unfolding load load_cursor store_cursor
  go_next r at = do
    c ← load_cursor r
    l ← load c.own_line
    b ← state
    if (l.next == null) || (c.own_line == b.last) then pure a_none else do
      l' ← load l.next
      store_cursor r (record c { own_line = l.next; pos = at (rope.char_count l'.str) c.pos })
      pure a_down

  unfoldable pub cursor_move : CursorRef → CmoveDir → M R CmoveRes
  unfolding go_prev go_next
  cursor_move r up = go_prev r clamp_pos
  cursor_move r down = go_next r clamp_pos
  cursor_move r left = do
    c ← load_cursor r
    if ltb 0 c.pos
        then (do store_cursor r (record c { pos = c.pos - 1 }); pure a_horizontal)
        else go_prev r (λ count pos. count)
  cursor_move r right = do
    c ← load_cursor r
    l ← load c.own_line
    if ltb c.pos (rope.char_count l.str)
        then (do store_cursor r (record c { pos = c.pos + 1 }); pure a_horizontal)
        else go_next r (λ count pos. 0)

  -- `chr` is a byte.
  unfoldable pub cursor_insert : CursorRef → ℕ → M R Bres
  cursor_insert r chr = do
    c ← load_cursor r
    l ← load c.own_line
    b ← state
    if leb (width_limit b.width) (rope.char_count l.str) then pure failed else do
      store c.own_line (record l { str = rope.insert_char l.str c.pos chr })
      store_cursor r (record c { pos = c.pos + 1 })
      pure update

  unfoldable pub cursor_del : CursorRef → M R Bres
  cursor_del r = do
    c ← load_cursor r
    if c.pos == 0 then pure failed else do
      l ← load c.own_line
      store c.own_line (record l { str = rope.del l.str (c.pos - 1) 1 })
      store_cursor r (record c { pos = c.pos - 1 })
      pure update

  -- BUFFER

  -- The loop of bline_find, from the line `lit` back to the first; null if there is none.
  unfoldable pub find_back : ℕ → Ptr → ℕ → M R Ptr
  unfolding load
  find_back zero lit id = λ _. out_of_fuel
  find_back (suc k) lit id = if lit == null then pure null else do
    l ← load lit
    b ← state
    if id == l.id then pure lit else if lit == b.first then pure null else find_back k l.prev id

  unfoldable pub bline_find : ℕ → M R Ptr
  unfolding find_back
  bline_find id = do b ← state; find_back (b.brk + 1) b.last id

-- The first peer with the id, counting slots from `i`.
unfoldable pub find_peer : ℕ → ℕ → List (Option Cursor) → Option CursorRef
find_peer id i [] = none
find_peer id i (none ∷ cs) = find_peer id (suc i) cs
find_peer id i (some c ∷ cs) = if c.id == id then some (peer i) else find_peer id (suc i) cs

-- bcursor_find; `none` is NULL
unfoldable pub bcursor_find : {R : Type 0} → ℕ → M R (Option CursorRef)
unfolding find_peer
bcursor_find id = do
  b ← state
  pure (if b.own_curs.id == id then some own else find_peer id 0 b.peer_curss)
