-- ===== src/Buffer/Serial.antt =====
-- src/buffer.c, lines 772 to 948: the buffer as a JSON text, sent to a new client. Ids and positions
-- on the wire are those that buffer_serialize wrote, so that only the id of a cursor may be negative; in a
-- buffer it is kept as its 32 bits.
use lprog_hw.Prelude.{
  ℕ, zero, suc, ◌+◌, Bool, true, false, ◌==◌, Option, none, some, List, [], ◌∷◌, if◌then◌else◌,
  replicate,
}
use lprog_hw.Prelude.Int.{ℤ, pos, negsuc, int_of, bits_of}
use lprog_hw.Rope.{Rope}
use lprog_hw.Json.{Json, JsonPath}
use lprog_hw.Utilities.Text.{Text, print_int}
use lprog_hw.Buffer.State.{
  Ptr, null, Cursor, fault, out_of_fuel, M, pure, ◌>>=◌, ◌>>◌, skip, state, modify, load, set_str,
  ui_update_if, max_cursor_num, write_pad, check_undrawn,
}
use lprog_hw.Buffer.Window.{binit_onscreen_info}
use lprog_hw.Buffer.Cursors.{line_new, bline_find}
use lprog_hw.Buffer.Edit.{bcursor_new}

abbrev lines_key : Text
lines_key = b'l' ∷ b'i' ∷ b'n' ∷ b'e' ∷ b's' ∷ []

abbrev next_key : Text
next_key = b'n' ∷ b'e' ∷ b'x' ∷ b't' ∷ []

abbrev prev_key : Text
prev_key = b'p' ∷ b'r' ∷ b'e' ∷ b'v' ∷ []

abbrev str_key : Text
str_key = b's' ∷ b't' ∷ b'r' ∷ []

abbrev own_cursor_key : Text
own_cursor_key = b'o' ∷ b'w' ∷ b'n' ∷ b'_' ∷ b'c' ∷ b'u' ∷ b'r' ∷ b's' ∷ b'o' ∷ b'r' ∷ []

abbrev peer_curss_key : Text
peer_curss_key = b'p' ∷ b'e' ∷ b'e' ∷ b'r' ∷ b'_' ∷ b'c' ∷ b'u' ∷ b'r' ∷ b's' ∷ b's' ∷ []

abbrev own_line_key : Text
own_line_key = b'o' ∷ b'w' ∷ b'n' ∷ b'_' ∷ b'l' ∷ b'i' ∷ b'n' ∷ b'e' ∷ []

abbrev pos_key : Text
pos_key = b'p' ∷ b'o' ∷ b's' ∷ []

abbrev id_key : Text
id_key = b'i' ∷ b'd' ∷ []

abbrev ver_key : Text
ver_key = b'v' ∷ b'e' ∷ b'r' ∷ []

abbrev num_lines_key : Text
num_lines_key = b'n' ∷ b'u' ∷ b'm' ∷ b'_' ∷ lines_key

abbrev line_id_cnt_key : Text
line_id_cnt_key = b'l' ∷ b'i' ∷ b'n' ∷ b'e' ∷ b'_' ∷ b'i' ∷ b'd' ∷ b'_' ∷ b'c' ∷ b'n' ∷ b't' ∷ []

abbrev height_key : Text
height_key = b'h' ∷ b'e' ∷ b'i' ∷ b'g' ∷ b'h' ∷ b't' ∷ []

abbrev width_key : Text
width_key = b'w' ∷ b'i' ∷ b'd' ∷ b't' ∷ b'h' ∷ []

abbrev first_key : Text
first_key = b'f' ∷ b'i' ∷ b'r' ∷ b's' ∷ b't' ∷ []

abbrev last_key : Text
last_key = b'l' ∷ b'a' ∷ b's' ∷ b't' ∷ []

abbrev top_key : Text
top_key = b't' ∷ b'o' ∷ b'p' ∷ []

abbrev bottom_key : Text
bottom_key = b'b' ∷ b'o' ∷ b't' ∷ b't' ∷ b'o' ∷ b'm' ∷ []

abbrev field_path : Text → JsonPath
field_path k = k ∷ []

-- "lines.%d.next" and the like
unfoldable pub line_path : ℕ → Text → JsonPath
unfolding print_int
line_path id k = lines_key ∷ print_int (pos id) ∷ k ∷ []

unfoldable pub peer_path : ℕ → Text → JsonPath
unfolding print_int
peer_path id k = peer_curss_key ∷ print_int (int_of id) ∷ k ∷ []

abbrev own_path : Text → JsonPath
own_path k = own_cursor_key ∷ k ∷ []

-- (int) of a number of the object
abbrev to_nat : ℤ → ℕ
to_nat (pos n) = n
to_nat (negsuc n) = 0

module _ {J : Type 0} ⦃json : Json J⦄ where
  abbrev set_nat : J → JsonPath → ℕ → J
  set_nat j p n = json.set_number j p (pos n)

  abbrev number : J → JsonPath → ℕ
  number j p = to_nat (json.get_number j p)

module _ {R J : Type 0} ⦃rope : Rope R⦄ ⦃json : Json J⦄ where
  -- A pointer that is not NULL: the id of its line, under the path.
  unfoldable pub put_link : JsonPath → Ptr → J → M R J
  unfolding load
  put_link path p j = if p == null then pure j else do l ← load p; pure (set_nat j path l.id)

  -- while(lit), from the line `lit`
  unfoldable pub put_lines : ℕ → Ptr → J → M R J
  unfolding load put_link line_path write_pad
  put_lines zero lit j = λ _. out_of_fuel
  put_lines (suc k) lit j = if lit == null then pure j else do
    l ← load lit
    text ← write_pad (rope.text l.str)
    j ← put_link (line_path l.id next_key) l.next j
    j ← put_link (line_path l.id prev_key) l.prev j
    put_lines k l.next (json.set_string j (line_path l.id str_key) text)

  unfoldable pub put_peers : List (Option Cursor) → J → M R J
  unfolding load peer_path
  put_peers [] j = pure j
  put_peers (none ∷ cs) j = put_peers cs j
  put_peers (some c ∷ cs) j = do
    l ← load c.own_line
    let j' = set_nat j (peer_path c.id own_line_key) l.id
    put_peers cs (set_nat j' (peer_path c.id pos_key) c.pos)

  -- The object that buffer_serialize prints.
  unfoldable pub buffer_object : M R J
  unfolding load put_lines put_peers
  buffer_object = do
    b ← state
    let j = set_nat json.object (field_path id_key) b.id
    let j = set_nat j (field_path ver_key) b.ver
    let j = set_nat j (field_path num_lines_key) b.num_lines
    let j = set_nat j (field_path line_id_cnt_key) b.line_id_cnt
    let j = set_nat j (field_path height_key) b.height
    let j = set_nat j (field_path width_key) b.width
    first ← load b.first
    let j = set_nat j (field_path first_key) first.id
    last ← load b.last
    let j = set_nat j (field_path last_key) last.id
    top ← load b.top
    let j = set_nat j (field_path top_key) top.id
    bottom ← load b.bottom
    let j = set_nat j (field_path bottom_key) bottom.id
    j ← put_lines (b.brk + 1) b.first j
    let j = json.set_number j (own_path id_key) (int_of b.own_curs.id)
    l ← load b.own_curs.own_line
    let j = set_nat j (own_path own_line_key) l.id
    let j = set_nat j (own_path pos_key) b.own_curs.pos
    put_peers b.peer_curss j

  -- rope_insert(.., 0, json_object_dotget_string(..)); a read through NULL if there is no string.
  unfoldable pub read_str : J → Ptr → ℕ → M R (Unit {0})
  unfolding load set_str line_path
  read_str j p id = elim (json.get_string j (line_path id str_key)) [
    | none ↦ λ _. fault
    | some s ↦ do l ← load p; set_str p (rope.insert_cstr l.str 0 s)
  ]

  -- The line after `lit` and its text.
  unfoldable pub read_line : J → Ptr → M R Ptr
  unfolding load line_new read_str line_path
  read_line j lit = do
    l ← load lit
    let n = number j (line_path l.id next_key)
    p ← line_new n lit null
    read_str j p n
    pure p

  -- while(json_object_dothas_value(..)); it returns the last line.
  unfoldable pub read_lines : ℕ → J → Ptr → M R Ptr
  unfolding load read_line line_path
  read_lines zero j lit = λ _. out_of_fuel
  read_lines (suc k) j lit = do
    l ← load lit
    let more : M R Ptr = (do p ← read_line j lit; read_lines k j p)
    if json.has_value j (line_path l.id next_key) then more else pure lit

  -- The peer cursors of the ids from `i` on, `n` of them.
  unfoldable pub read_peers : ℕ → ℕ → J → M R (Unit {0})
  unfolding bcursor_new peer_path print_int
  read_peers zero i j = skip
  read_peers (suc n) i j = do
    if json.has_value j (peer_curss_key ∷ print_int (pos i) ∷ [])
        then (do
          bcursor_new i (number j (peer_path i own_line_key)) (number j (peer_path i pos_key))
          skip)
        else skip
    read_peers n (suc i) j

  -- buffer_deserialize on the parsed text; `fuel` bounds the lines. `u` is not set before the end.
  unfoldable pub read_buffer : ℕ → J → Bool → M R (Unit {0})
  unfolding line_new read_str read_line read_lines bline_find bcursor_new read_peers
      binit_onscreen_info ui_update_if
  read_buffer fuel j u = do
    raw ← state
    modify λ b. record b {
      id = number j (field_path id_key);
      ver = number j (field_path ver_key);
      num_lines = number j (field_path num_lines_key);
      line_id_cnt = number j (field_path line_id_cnt_key);
      height = number j (field_path height_key);
      width = number j (field_path width_key);
      server_mode = false;
    }
    let first = number j (field_path first_key)
    p ← line_new first null null
    modify (λ b. record b { first = p })
    read_str j p first
    second ← read_line j p
    lit ← read_lines fuel j second
    modify (λ b. record b { last = lit })
    bottom ← bline_find (number j (field_path bottom_key))
    modify (λ b. record b { bottom = bottom })
    last ← bline_find (number j (field_path last_key))
    modify (λ b. record b { last = last })
    top ← bline_find (number j (field_path top_key))
    modify (λ b. record b { top = top })
    bcursor_new (bits_of (json.get_number j (own_path id_key))) (number j (own_path own_line_key))
        (number j (own_path pos_key))
    modify (λ b. record b { peer_curss = replicate max_cursor_num none })
    read_peers max_cursor_num 0 j
    binit_onscreen_info
    check_undrawn raw
    modify (λ b. record b { ui = u; server_mode = if u then false else true })
    if u then ui_update_if true else skip

module _ {R : Type 0} (J : Type 0) ⦃rope : Rope R⦄ ⦃json : Json J⦄ where
  unfoldable pub buffer_serialize : M R Text
  unfolding buffer_object
  buffer_serialize = do j ← buffer_object {J = J}; pure (json.print j)

  unfoldable pub buffer_deserialize : ℕ → Text → Bool → M R (Unit {0})
  unfolding read_buffer
  buffer_deserialize fuel serd u = read_buffer fuel (json.parse serd) u
