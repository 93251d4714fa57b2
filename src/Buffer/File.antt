-- ===== src/Buffer/File.antt =====
-- src/buffer.c, lines 328 to 485 and 762 to 770: buffers made, read from a file, saved and freed.
--
-- The state that buffer_new and buffer_from_file start from is the memory that malloc returned for
-- the buffer: anything, with the store of lines beside it.
use lprog_hw.Prelude.{
  ℕ, zero, suc, ◌+◌, Bool, true, false, ◌==◌, Option, none, some, List, [], ◌∷◌, ◌++◌,
  if◌then◌else◌, replicate,
}
use lprog_hw.Rope.{Rope}
use lprog_hw.Buffer.State.{
  up, Ptr, null, out_of_fuel, M, pure, ◌>>=◌, ◌>>◌, skip, state, modify, load, load_cursor,
  store_cursor, ui_update_if, write_pad, max_cursor_num, check_undrawn,
}
use lprog_hw.Buffer.Window.{binit_onscreen_info}
use lprog_hw.Buffer.Cursors.{line_new, line_free, bcursor_find}
use lprog_hw.Buffer.Edit.{deref, bcursor_move, bcursor_new, bcursor_insert, bcursor_insert_line}

-- '\n'
abbrev pub newline : ℕ
newline = 10

module _ {R : Type 0} ⦃rope : Rope R⦄ where
  -- line_new(b->line_id_cnt++, prev, NULL)
  unfoldable pub next_line : Ptr → M R Ptr
  unfolding line_new
  next_line prev = do
    b ← state
    modify (λ b. record b { line_id_cnt = b.line_id_cnt + 1 })
    line_new b.line_id_cnt prev null

  -- for(int i=1; i < b->height; i++), with the rounds left
  unfoldable pub add_lines : ℕ → Ptr → M R (Unit {0})
  unfolding next_line
  add_lines zero pp = skip
  add_lines (suc n) pp = do p ← next_line pp; modify (λ b. record b { bottom = p }); add_lines n p

  -- One line of text, and as many empty ones below it as the screen has room for.
  unfoldable pub init_lines : ℕ → M R (Unit {0})
  unfolding next_line add_lines
  init_lines zero = do p ← next_line null; modify (λ b. record b { first = p; top = p; last = p })
  init_lines (suc h) = do
    p ← next_line null
    modify (λ b. record b { first = p; top = p; last = p })
    add_lines h p

  -- What buffer_new and buffer_from_file have in common.
  unfoldable pub init_buffer : ℕ → ℕ → ℕ → ℕ → M R (Unit {0})
  unfolding init_lines bcursor_new binit_onscreen_info
  init_buffer id ver h w = do
    modify (λ b. record b {
      id = id;
      ver = ver;
      line_id_cnt = 0;
      height = h;
      width = w;
      num_lines = h;
    })
    init_lines h
    bcursor_new 0 0 0
    modify (λ b. record b { peer_curss = replicate max_cursor_num none })
    binit_onscreen_info

  unfoldable pub buffer_new : ℕ → ℕ → ℕ → ℕ → Bool → M R (Unit {0})
  unfolding init_buffer
  buffer_new id ver h w ui = do
    init_buffer id ver h w
    modify (λ b.
        if ui
        then record b { ui = true; server_mode = false }
        else record b { ui = false; server_mode = true })

  -- The loop over the bytes of the file; it returns `upcnt`.
  unfoldable pub read_bytes : List ℕ → ℕ → M R ℕ
  unfolding bcursor_insert bcursor_insert_line
  read_bytes [] upcnt = pure upcnt
  read_bytes (c ∷ cs) upcnt = do
    if c == newline then (do bcursor_insert_line 0; skip) else (do bcursor_insert 0 c; skip)
    read_bytes cs (if c == newline then upcnt + 1 else upcnt)

  -- while(upcnt--) bcursor_move(b, 0, UP);
  unfoldable pub move_up : ℕ → M R (Unit {0})
  unfolding bcursor_move
  move_up zero = skip
  move_up (suc n) = do bcursor_move 0 up; move_up n

  -- The file's bytes, if it can be opened; false is the result NULL. `u` is not set before the end.
  unfoldable pub buffer_from_file : Option (List ℕ) → ℕ → ℕ → ℕ → Bool → M R Bool
  unfolding init_buffer read_bytes move_up load_cursor store_cursor
  buffer_from_file none id h w ui = pure false
  buffer_from_file (some bytes) id h w ui = do
    raw ← state
    modify (λ b. record b { server_mode = false })
    init_buffer id 0 h w
    upcnt ← read_bytes bytes 0
    move_up upcnt
    r ← deref (← bcursor_find 0)
    c ← load_cursor r
    store_cursor r (record c { pos = 0 })
    check_undrawn raw
    modify (λ b. if ui then record b { ui = true } else record b { ui = false; server_mode = true })
    pure true

  -- The bytes that the loop of buffer_save writes, from the line `lit`.
  unfoldable pub save_lines : ℕ → Ptr → M R (List ℕ)
  unfolding load write_pad
  save_lines zero lit = λ _. out_of_fuel
  save_lines (suc k) lit = if lit == null then pure [] else do
    l ← load lit
    text ← write_pad (rope.text l.str)
    b ← state
    if lit == b.last
        then pure (text ++ newline ∷ [])
        else do rest ← save_lines k l.next; pure (text ++ newline ∷ rest)

  -- The bytes of the saved file, if it can be opened; `none` is the result -1.
  unfoldable pub buffer_save : Bool → M R (Option (List ℕ))
  unfolding save_lines
  buffer_save false = pure none
  buffer_save true = do b ← state; bytes ← save_lines b.brk b.first; pure (some bytes)

  -- The loop of buffer_free.
  unfoldable pub free_lines : ℕ → Ptr → M R (Unit {0})
  unfolding load line_free
  free_lines zero lit = λ _. out_of_fuel
  free_lines (suc k) lit =
      if lit == null then skip else do l ← load lit; line_free lit; free_lines k l.next

  unfoldable pub buffer_free : M R (Unit {0})
  unfolding free_lines
  buffer_free = do b ← state; free_lines b.brk b.first

  unfoldable pub buffer_add_ui : M R (Unit {0})
  unfolding ui_update_if
  buffer_add_ui = do
    b ← state
    if b.ui then skip else do modify (λ b. record b { ui = true }); ui_update_if true
