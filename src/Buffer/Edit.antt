-- ===== src/Buffer/Edit.antt =====
-- src/buffer.c, lines 487 to 760: what a cursor, named by its id, does to the buffer.
use lprog_hw.Prelude.{
  ℕ, zero, suc, ◌+◌, ◌-◌, ◌%◌, ◌^◌, Bool, true, false, not, ◌&&◌, ◌||◌, ◌==◌, ltb, leb, length,
  Option, none, some, List, [], ◌∷◌, if◌then◌else◌, get_elem?, set,
}
use lprog_hw.Rope.{Rope}
use lprog_hw.Buffer.State.{
  above, bellow, same, Bres, failed, update, success, CmoveRes, a_up, a_down, a_horizontal, a_nl_up,
  a_nl_down, a_none, CmoveDir, up, down, left, Ptr, null, Cursor, CursorRef, own, peer, fault, M,
  pure, ◌>>=◌, ◌>>◌, skip, state, modify, load, set_on_screen, set_location, set_str, load_cursor,
  store_cursor, ui_update_if, same_ref, max_cursor_num, write_pad,
}
use lprog_hw.Buffer.Window.{buffer_scroll, buffer_trim, buffer_extend}
use lprog_hw.Buffer.Cursors.{
  line_new, line_free, cursor_move, cursor_insert, cursor_del, bline_find, bcursor_find,
}

-- Whether to go on after cursor_insert and cursor_del.
abbrev pub is_done : Bres → Bool
is_done failed = false
is_done update = true
is_done success = true

abbrev pub is_up : CmoveRes → Bool
is_up a_up = true
is_up a_down = false
is_up a_horizontal = false
is_up a_nl_up = false
is_up a_nl_down = false
is_up a_none = false

abbrev pub is_down : CmoveRes → Bool
is_down a_down = true
is_down a_up = false
is_down a_horizontal = false
is_down a_nl_up = false
is_down a_nl_down = false
is_down a_none = false

-- Moves another cursor of the line `c->own_line` that stands behind `c->pos`.
abbrev pub shift_cursor : (ℕ → ℕ) → Cursor → Cursor → Cursor
shift_cursor f c d =
    if (c.own_line == d.own_line) && ltb c.pos d.pos then record d { pos = f d.pos } else d

-- The loop over peer_curss that passes over the cursor `r`, from slot `i`.
unfoldable pub shift_peers :
    (ℕ → ℕ) → CursorRef → Cursor → ℕ → List (Option Cursor) → List (Option Cursor)
shift_peers f r c i [] = []
shift_peers f r c i (none ∷ ds) = none ∷ shift_peers f r c (suc i) ds
shift_peers f r c i (some d ∷ ds) =
    some (if same_ref r (peer i) then d else shift_cursor f c d) ∷ shift_peers f r c (suc i) ds

-- The first empty slot, from slot `i`.
unfoldable pub free_slot : ℕ → List (Option Cursor) → Option ℕ
free_slot i [] = none
free_slot i (none ∷ cs) = some i
free_slot i (some c ∷ cs) = free_slot (suc i) cs

-- count - pos, as a size_t
abbrev pub rest_of : ℕ → ℕ → ℕ
rest_of count pos = (count + 2 ^ 64 - pos) % 2 ^ 64

module _ {R : Type 0} where
  -- A dereference of the result of bcursor_find.
  abbrev pub deref : Option CursorRef → M R CursorRef
  deref none = λ _. fault
  deref (some r) = pure r

  unfoldable pub shift_others : (ℕ → ℕ) → CursorRef → M R (Unit {0})
  unfolding load_cursor shift_peers
  shift_others f r = do
    c ← load_cursor r
    modify λ b. record b {
      own_curs = if same_ref r own then b.own_curs else shift_cursor f c b.own_curs;
      peer_curss = shift_peers f r c 0 b.peer_curss;
    }

  -- for(int i=0; i<MAX_CURSOR_NUM; i++), with `continue` at an empty slot: the slots from `i` on.
  unfoldable pub for_peers : ℕ → ℕ → (ℕ → Cursor → M R (Unit {0})) → M R (Unit {0})
  for_peers zero i body = skip
  for_peers (suc n) i body = do
    b ← state
    elim (get_elem? b.peer_curss i) [ some (some c) ↦ body i c | _ ↦ skip ]
    for_peers n (suc i) body

  -- The marks and scrolls after own_curs moved.
  unfoldable pub after_own_move : CmoveRes → M R (Unit {0})
  unfolding load set_location buffer_scroll
  after_own_move res = do
    b ← state
    if is_up res && (b.top == b.own_curs.own_line) then buffer_scroll up else skip
    b ← state
    if is_down res && (b.bottom == b.own_curs.own_line) then buffer_scroll down else skip
    b ← state
    if is_up res
        then (do
          l ← load b.own_curs.own_line
          set_location l.next bellow
          set_location b.own_curs.own_line same)
        else skip
    if is_down res
        then (do
          l ← load b.own_curs.own_line
          set_location l.prev above
          set_location b.own_curs.own_line same)
        else skip

  unfoldable pub before_own_move : M R (Unit {0})
  unfolding buffer_scroll
  before_own_move = do
    b ← state
    if b.top == b.own_curs.own_line then buffer_scroll up else skip
    b ← state
    if b.bottom == b.own_curs.own_line then buffer_scroll down else skip

module _ {R : Type 0} ⦃rope : Rope R⦄ where
  -- bcursor_move once the cursor is found
  unfoldable pub move_ref : CursorRef → CmoveDir → M R Bres
  unfolding load load_cursor cursor_move before_own_move after_own_move ui_update_if
  move_ref r dir = do
    c ← load_cursor r
    l ← load c.own_line
    if same_ref r own then before_own_move else skip
    res ← cursor_move r dir
    c' ← load_cursor r
    l' ← load c'.own_line
    if same_ref r own then after_own_move res else skip
    ui_update_if (l.on_screen || l'.on_screen)
    pure update

  unfoldable pub bcursor_move : ℕ → CmoveDir → M R Bres
  unfolding move_ref
  bcursor_move id dir = do r ← deref (← bcursor_find id); move_ref r dir

  unfoldable pub buffer_deletel : Ptr → M R Bres
  unfolding load set_on_screen buffer_extend bcursor_move for_peers line_free
  buffer_deletel p = do
    l ← load p
    if l.on_screen then (do buffer_extend p; skip) else skip
    b ← state
    if p == b.top
        then (do modify (λ b. record b { top = l.prev }); set_on_screen l.prev true)
        else skip
    b ← state
    if p == b.bottom
        then (do modify (λ b. record b { bottom = l.next }); set_on_screen l.next true)
        else skip
    b ← state
    if p == b.last then modify (λ b. record b { last = l.prev }) else skip
    if l.prev == null then skip else do
      b ← state
      if b.own_curs.own_line == p then (do bcursor_move b.own_curs.id up; skip) else skip
      for_peers max_cursor_num 0
          λ i d. if d.own_line == p then (do bcursor_move d.id up; skip) else skip
    line_free p
    pure update

  -- The end of bcursor_new for an id other than 0, with the slot that the loop finds.
  unfoldable pub place_cursor : Cursor → Bool → Option ℕ → M R Bres
  unfolding ui_update_if
  place_cursor c seen none = pure failed
  place_cursor c seen (some i) = do
    modify (λ b. record b { peer_curss = set b.peer_curss i (some c) })
    ui_update_if seen
    pure update

  -- cursor_new has no return statement; its value is taken to be the new cursor.
  unfoldable pub bcursor_new : ℕ → ℕ → ℕ → M R Bres
  unfolding load place_cursor
  bcursor_new id lid pos = do
    p ← bline_find lid
    l ← load p
    let c : Cursor = record { id = id; own_line = p; pos = pos }
    if id == 0
        then (do modify (λ b. record b { own_curs = c }); pure update)
        else (do b ← state; place_cursor c l.on_screen (free_slot 0 b.peer_curss))

  unfoldable pub bcursor_copy_own : ℕ → M R Bres
  unfolding load bcursor_new
  bcursor_copy_own id = do
    b ← state
    l ← load b.own_curs.own_line
    bcursor_new id l.id b.own_curs.pos

  unfoldable pub bcursor_free : ℕ → M R Bres
  unfolding load load_cursor ui_update_if
  bcursor_free id = do
    r ← deref (← bcursor_find id)
    c ← load_cursor r
    elim r [
      | own ↦ pure failed
      | peer i ↦ do
        l ← load c.own_line
        modify (λ b. record b { peer_curss = set b.peer_curss i none })
        ui_update_if l.on_screen
        pure update
    ]

  unfoldable pub bcursor_insert : ℕ → ℕ → M R Bres
  unfolding shift_others ui_update_if
  bcursor_insert id chr = do
    found ← bcursor_find id
    elim found [
      | none ↦ pure failed
      | some r ↦ do
        res ← cursor_insert r chr
        if is_done res then shift_others (λ pos. pos + 1) r else skip
        ui_update_if true
        pure update
    ]

  -- A cursor behind the split goes into the new line.
  unfoldable pub follow_split : CursorRef → CursorRef → M R (Unit {0})
  unfolding load_cursor store_cursor bcursor_move
  follow_split r other = do
    c ← load_cursor r
    d ← load_cursor other
    if not (same_ref r other) && (c.own_line == d.own_line) && ltb c.pos d.pos
        then (do
          store_cursor other (record d { pos = d.pos - c.pos })
          bcursor_move d.id down
          skip)
        else skip

  -- Moves what stands behind the cursor, text and cursors, into the new line `ll`.
  unfoldable pub split_line : CursorRef → Ptr → M R (Unit {0})
  unfolding load load_cursor set_str follow_split for_peers
  split_line r ll = do
    c ← load_cursor r
    l ← load c.own_line
    let count = rope.char_count l.str
    if c.pos == count then skip else do
      set_str ll l.str
      set_str c.own_line (rope.del l.str c.pos (rest_of count c.pos))
      set_str ll (rope.del l.str 0 c.pos)
      follow_split r own
      for_peers max_cursor_num 0 λ i d. follow_split r (peer i)

  -- if(ll->on_screen) buffer_trim(b, ll)
  unfoldable pub trim_if_seen : Ptr → M R (Unit {0})
  unfolding load buffer_trim
  trim_if_seen ll = do l ← load ll; if l.on_screen then (do buffer_trim ll; skip) else skip

  -- bcursor_insert_line with the cursor at the start of its line
  unfoldable pub insert_line_before : CursorRef → M R Bres
  unfolding load load_cursor line_new trim_if_seen buffer_scroll bcursor_move ui_update_if
  insert_line_before r = do
    c ← load_cursor r
    l ← load c.own_line
    b ← state
    modify (λ b. record b { line_id_cnt = b.line_id_cnt + 1 })
    ll ← line_new b.line_id_cnt l.prev c.own_line
    if c.own_line == b.first then modify (λ b. record b { first = ll }) else skip
    trim_if_seen ll
    if same_ref r own then buffer_scroll up else skip
    b ← state
    if b.server_mode && not (b.own_curs.own_line == b.first)
        then (do bcursor_move b.own_curs.id up; skip)
        else skip
    new ← load ll
    ui_update_if new.on_screen
    pure update

  -- and with the cursor anywhere else
  unfoldable pub insert_line_after : ℕ → CursorRef → M R Bres
  unfolding load load_cursor store_cursor line_new split_line trim_if_seen bcursor_move ui_update_if
  insert_line_after id r = do
    c ← load_cursor r
    l ← load c.own_line
    b ← state
    modify (λ b. record b { line_id_cnt = b.line_id_cnt + 1 })
    ll ← line_new b.line_id_cnt c.own_line l.next
    if c.own_line == b.last then modify (λ b. record b { last = ll }) else skip
    split_line r ll
    c ← load_cursor r
    store_cursor r (record c { pos = 0 })
    trim_if_seen ll
    bcursor_move id down
    new ← load ll
    ui_update_if new.on_screen
    pure update

  unfoldable pub bcursor_insert_line : ℕ → M R Bres
  unfolding load_cursor insert_line_before insert_line_after
  bcursor_insert_line id = do
    modify (λ b. record b { num_lines = b.num_lines + 1 })
    r ← deref (← bcursor_find id)
    c ← load_cursor r
    if c.pos == 0 then insert_line_before r else insert_line_after id r

  -- A cursor of the line that is about to be deleted goes to the end of the text before it.
  unfoldable pub follow_join : CursorRef → CursorRef → M R (Unit {0})
  unfolding load load_cursor store_cursor bcursor_move
  follow_join r other = do
    c ← load_cursor r
    l ← load c.own_line
    d ← load_cursor other
    if not (same_ref r other) && (l.next == d.own_line)
        then (do
          bcursor_move d.id up
          d' ← load_cursor other
          store_cursor other (record d' { pos = d'.pos + c.pos }))
        else skip

  -- The text of the next line is appended to the line of the cursor.
  unfoldable pub append_next : CursorRef → M R (Unit {0})
  unfolding load load_cursor set_str write_pad
  append_next r = do
    c ← load_cursor r
    l ← load c.own_line
    b ← state
    if l.next == b.last then modify (λ b. record b { last = c.own_line }) else skip
    n ← load l.next
    text ← write_pad (rope.text n.str)
    if leb (length text) 0
        then skip
        else set_str c.own_line (rope.insert_cstr l.str (rope.char_count l.str) text)

  -- bcursor_del with the cursor at the start of a line other than the first
  unfoldable pub join_line : ℕ → CursorRef → M R (Unit {0})
  unfolding load load_cursor bcursor_move append_next follow_join for_peers buffer_deletel
  join_line id r = do
    modify (λ b. record b { num_lines = b.num_lines - 1 })
    bcursor_move id left
    append_next r
    follow_join r own
    for_peers max_cursor_num 0 λ i d. follow_join r (peer i)
    c ← load_cursor r
    l ← load c.own_line
    buffer_deletel l.next
    skip

  -- ui_update, if the line that the cursor was in or the one that it is in is on the screen
  unfoldable pub finish_del : Bool → CursorRef → M R Bres
  unfolding load load_cursor ui_update_if
  finish_del seen r = do
    c ← load_cursor r
    l ← load c.own_line
    ui_update_if (seen || l.on_screen)
    pure update

  unfoldable pub bcursor_del : ℕ → M R Bres
  unfolding load load_cursor shift_others join_line finish_del
  bcursor_del id = do
    r ← deref (← bcursor_find id)
    c ← load_cursor r
    l ← load c.own_line
    b ← state
    if ltb 0 c.pos
        then (do
          res ← cursor_del r
          if is_done res then shift_others (λ pos. pos - 1) r else skip
          finish_del l.on_screen r)
        else (if c.own_line == b.first
            then pure failed
            else (do join_line id r; finish_del l.on_screen r))
