-- ===== src/Ui.antt =====
-- src/ui.c and include/ui.h: what is drawn of a buffer.
--
-- The calls of ncurses are the list of what they draw; positions are a row and a column. A line's text is
-- the format of mvprintw, so a directive in it, or a text longer than `cstr`, is a fault: what happens
-- then is undefined.
pub mod Shown
mod Examples
use lprog_hw.Prelude.{
  ℕ, zero, suc, ◌+◌, ◌*◌, Bool, true, false, ◌==◌, ◌&&◌, ltb, Option, none, some, List, [], ◌∷◌,
  ◌++◌, if◌then◌else◌, length,
}
use lprog_hw.Prelude.Int.{pos}
use lprog_hw.Rope.{Rope}
use lprog_hw.Utilities.Text.{Text, print_int}
use lprog_hw.Buffer.State.{
  Crp, above, bellow, same, Ptr, null, Line, Cursor, Buffer, done, fault, out_of_fuel, M, pure,
  ◌>>=◌, ◌>>◌, state, load,
}

-- struct ui, less its window and its buffer
pub record Ui : Type 0 where
  pub height : ℕ
  pub width : ℕ

pub data Draw : Type 0 where
  clear refresh : Draw
  -- mvprintw at a place, printw behind it
  text_at : ℕ → ℕ → Text → Draw
  text_on : Text → Draw
  -- the character at a place, once more in colour
  coloured : ℕ → ℕ → Draw
  -- move(ypos, xpos); `none` if they were not set
  cursor_to : Option (ℕ × ℕ) → Draw

abbrev pub percent : ℕ
percent = 37

abbrev cons_if : ℕ → Option Text → Option Text
cons_if c none = none
cons_if c (some s) = some (c ∷ s)

-- What printf makes of a format without arguments, inside a directive or not; `none` is undefined.
unfoldable pub expand : Bool → Text → Option Text
expand false [] = some []
expand true [] = none
expand false (c ∷ s) =
    let inside = expand true s in
    let rest = cons_if c (expand false s) in if c == percent then inside else rest
expand true (c ∷ s) =
    let rest = cons_if percent (expand false s) in if c == percent then rest else none

-- "\t+" or "\t-", and "\tA", "\tB" or "\tS"
abbrev screen_mark : Bool → Text
screen_mark true = 9 ∷ b'+' ∷ []
screen_mark false = 9 ∷ b'-' ∷ []

abbrev location_mark : Crp → Text
location_mark above = 9 ∷ b'A' ∷ []
location_mark bellow = 9 ∷ b'B' ∷ []
location_mark same = 9 ∷ b'S' ∷ []

abbrev pub two_ids : ℕ → ℕ → Text
two_ids m n = print_int (pos m) ++ b' ' ∷ print_int (pos n) ++ 10 ∷ []

-- ypos and xpos after a row
abbrev pub found_cursor : ℕ → Ptr → Cursor → Option (ℕ × ℕ) → Option (ℕ × ℕ)
found_cursor i lit c at = if c.own_line == lit then some (i, c.pos) else at

unfoldable pub ui_init : {R : Type 0} → Buffer R → Ui
ui_init b = record { height = b.height; width = b.width }

module _ {R : Type 0} where
  abbrev pub margin_row : ℕ → Line R → List Draw
  margin_row i l =
      text_at i 50 (print_int (pos l.id))
      ∷ text_on (screen_mark l.on_screen)
      ∷ text_on (location_mark l.location)
      ∷ []

  -- The loop over all lines, from the line `lit`.
  unfoldable pub draw_margin : ℕ → ℕ → Ptr → M R (List Draw)
  unfolding load print_int
  draw_margin zero i lit = λ _. out_of_fuel
  draw_margin (suc k) i lit = if lit == null then pure [] else do
    l ← load lit
    if l.next == null
        then pure (margin_row i l)
        else do rest ← draw_margin k (i + 1) l.next; pure (margin_row i l ++ rest)

  -- The loop over peer_curss, for the row `i` with the line `lit`.
  unfoldable pub draw_peers : ℕ → Ptr → List (Option Cursor) → M R (List Draw)
  unfolding load
  draw_peers i lit [] = pure []
  draw_peers i lit (none ∷ cs) = draw_peers i lit cs
  draw_peers i lit (some c ∷ cs) = do
    l ← load c.own_line
    rest ← draw_peers i lit cs
    pure (if l.on_screen && (lit == c.own_line) then coloured i c.pos ∷ rest else rest)

module _ {R : Type 0} ⦃rope : Rope R⦄ where
  -- rope_write_cstr(lit->str, cstr), and what mvprintw prints with cstr as its format
  unfoldable pub printed : Ui → R → M R Text
  unfolding expand
  printed u str b =
      if ltb (u.width * u.height) (length (rope.text str))
      then fault
      else elim (expand false (rope.text str)) [ none ↦ fault | some s ↦ done s b ]

  -- One row of the window.
  unfoldable pub draw_row : Ui → ℕ → Ptr → Line R → M R (List Draw)
  unfolding printed draw_peers print_int
  draw_row u i lit l = do
    b ← state
    s ← printed u l.str
    peers ← draw_peers i lit b.peer_curss
    pure (text_at i 0 s ∷ text_at i 25 (b' ' ∷ b' ' ∷ b' ' ∷ b'|' ∷ print_int (pos l.id)) ∷ peers)

  -- for(int i=0; i<u->height; i++), with the rounds left
  unfoldable pub draw_rows : Ui → ℕ → ℕ → Ptr → Option (ℕ × ℕ) → M R (List Draw × Option (ℕ × ℕ))
  unfolding draw_row load
  draw_rows u zero i lit at = pure ([], at)
  draw_rows u (suc k) i lit at = do
    b ← state
    l ← load lit
    row ← draw_row u i lit l
    let at' = found_cursor i lit b.own_curs at
    if l.next == null
        then pure (row, at')
        else do (rest, end) ← draw_rows u k (i + 1) l.next at'; pure (row ++ rest, end)

  -- The last calls, behind what was drawn before.
  unfoldable pub draw_rest : List Draw → Option (ℕ × ℕ) → M R (List Draw)
  unfolding load print_int
  draw_rest drawn at = do
    b ← state
    first ← load b.first
    last ← load b.last
    top ← load b.top
    bottom ← load b.bottom
    pure (
        drawn
        ++ text_at 49 0 (two_ids first.id last.id)
          ∷ text_at 50 0 (two_ids top.id bottom.id)
          ∷ cursor_to at
          ∷ refresh
          ∷ [])

  unfoldable pub ui_update : Ui → M R (List Draw)
  unfolding draw_margin draw_rows draw_rest
  ui_update u = do
    b ← state
    margin ← draw_margin b.brk 0 b.first
    (rows, at) ← draw_rows u u.height 0 b.top none
    draw_rest (clear ∷ margin ++ rows) at
