-- ===== src/Buffer/Window.antt =====
-- src/buffer.c, lines 14 to 136: which lines are on the screen, and how the window moves.
use lprog_hw.Prelude.{ℕ, zero, suc, Bool, true, false, not, ◌&&◌, ◌||◌, ◌==◌, if◌then◌else◌}
use lprog_hw.Buffer.State.{
  Crp, above, bellow, same, Bres, failed, update, CmoveDir, up, down, left, right, Ptr, null,
  out_of_fuel, M, pure, ◌>>=◌, ◌>>◌, skip, state, modify, load, set_on_screen, set_location,
}

abbrev pub is_same : Crp → Bool
is_same same = true
is_same above = false
is_same bellow = false

abbrev pub is_above : Crp → Bool
is_above above = true
is_above same = false
is_above bellow = false

module _ {R : Type 0} where
  -- The body of the loop of binit_onscreen_info for one line; it returns the new `os` and `rel`.
  unfoldable pub mark_line : Ptr → Bool → Crp → M R (Bool × Crp)
  unfolding set_on_screen set_location
  mark_line lit os rel = do
    b ← state
    let os' = if os then not (lit == b.bottom) else lit == b.top
    let hit = is_above rel && (lit == b.own_curs.own_line)
    set_on_screen lit (os || (lit == b.top))
    set_location lit (if hit then same else rel)
    pure (os', (if hit then bellow else rel))

  -- while(lit = lit->next), from the line `lit`
  unfoldable pub mark_lines : ℕ → Ptr → Bool → Crp → M R (Unit {0})
  unfolding mark_line load
  mark_lines zero lit os rel = λ _. out_of_fuel
  mark_lines (suc k) lit os rel = do
    l ← load lit
    if l.next == null
        then skip
        else do (os', rel') ← mark_line l.next os rel; mark_lines k l.next os' rel'

  unfoldable pub binit_onscreen_info : M R (Unit {0})
  unfolding mark_lines
  binit_onscreen_info = do
    b ← state
    let os = b.first == b.top
    let rel = if b.own_curs.own_line == b.first then same else above
    set_on_screen b.first os
    set_location b.first rel
    mark_lines b.brk b.first os rel

  -- b->bottom->on_screen = 0; b->bottom = b->bottom->prev;
  unfoldable pub shrink_bottom : M R (Unit {0})
  unfolding set_on_screen load
  shrink_bottom = do
    b ← state
    set_on_screen b.bottom false
    l ← load b.bottom
    modify (λ b. record b { bottom = l.prev })

  unfoldable pub shrink_top : M R (Unit {0})
  unfolding set_on_screen load
  shrink_top = do
    b ← state
    set_on_screen b.top false
    l ← load b.top
    modify (λ b. record b { top = l.next })

  -- b->bottom = b->bottom->next; b->bottom->on_screen = 1;
  unfoldable pub grow_bottom : M R (Unit {0})
  unfolding set_on_screen load
  grow_bottom = do
    b ← state
    l ← load b.bottom
    modify (λ b. record b { bottom = l.next })
    set_on_screen l.next true

  unfoldable pub grow_top : M R (Unit {0})
  unfolding set_on_screen load
  grow_top = do
    b ← state
    l ← load b.top
    modify (λ b. record b { top = l.prev })
    set_on_screen l.prev true

  unfoldable pub scroll_up : M R (Unit {0})
  unfolding shrink_bottom grow_top
  scroll_up = do
    b ← state
    bottom ← load b.bottom
    if bottom.prev == null then skip else do
      top ← load b.top
      if (top.prev == null)
            || (b.own_curs.own_line == b.bottom)
            || (b.own_curs.own_line == bottom.prev)
          then skip
          else do shrink_bottom; grow_top

  unfoldable pub scroll_down : M R (Unit {0})
  unfolding shrink_top grow_bottom
  scroll_down = do
    b ← state
    top ← load b.top
    if top.next == null then skip else do
      bottom ← load b.bottom
      if (bottom.next == null)
            || (b.own_curs.own_line == b.top)
            || (b.own_curs.own_line == top.next)
          then skip
          else do shrink_top; grow_bottom

  -- Its result is never set by the source, and never read.
  unfoldable pub buffer_scroll : CmoveDir → M R (Unit {0})
  unfolding scroll_up scroll_down
  buffer_scroll up = scroll_up
  buffer_scroll down = scroll_down
  buffer_scroll left = skip
  buffer_scroll right = skip

  -- The scrolls that end buffer_trim and buffer_extend.
  unfoldable pub recenter : M R (Unit {0})
  unfolding buffer_scroll
  recenter = do
    b ← state
    if b.bottom == b.own_curs.own_line then buffer_scroll down else skip
    b ← state
    if b.top == b.own_curs.own_line then buffer_scroll up else skip

  -- The visible area loses a line after `l` was inserted.
  unfoldable pub buffer_trim : Ptr → M R Bres
  unfolding recenter shrink_top shrink_bottom
  buffer_trim p = do
    l ← load p
    if not l.on_screen then pure failed else do
      b ← state
      if is_above l.location
          then (if b.top == b.own_curs.own_line then shrink_bottom else shrink_top)
          else (if b.bottom == b.own_curs.own_line then shrink_top else shrink_bottom)
      recenter
      pure update

  -- The visible area gains a line as `l` is deleted.
  unfoldable pub buffer_extend : Ptr → M R Bres
  unfolding recenter grow_top grow_bottom
  buffer_extend p = do
    l ← load p
    b ← state
    if is_above l.location
        then (do top ← load b.top; if top.prev == null then grow_bottom else grow_top)
        else (do bottom ← load b.bottom; if bottom.next == null then skip else grow_bottom)
    recenter
    pure update
