-- ===== src/Buffer/Safe/Typing.antt =====
-- bcursor_insert and bcursor_del inside a line: the text, the cursor, and the others of the line.
use lprog_hw.Prelude.{
  ℕ, suc, ◌+◌, ◌-◌, ◌≤◌, ◌<◌, ◌≡◌, refl, sym, ◌∙◌, ap, subst, Bool, true, false, ◌==◌, ◌||◌, ltb,
  leb, lt→ltb, if◌then◌else◌, some, arith, length, List, ◌∷◌, ◌++◌, take, drop, length-append,
  length-take, length-drop,
}
use lprog_hw.Rope.{Rope, is_plain}
use lprog_hw.Buffer.State.{
  update, Line, Cursor, CursorRef, own, peer, Buffer, done, and_then, ui_update_if,
}
use lprog_hw.Buffer.Cursors.{bcursor_find, cursor_insert, cursor_del, width_limit}
use lprog_hw.Buffer.Edit.{bcursor_insert, bcursor_del, finish_del}
use lprog_hw.Buffer.Returns.{Returns, returns, bind, on_eq}
use lprog_hw.Buffer.Safe.{At, SameEnds, load-At, on_load, CursorFits, Safe}
use lprog_hw.Buffer.Safe.Peers.{
  Names, load_cursor-Names, store_cursor-with, with_cursor, on_cursor, Names-with, with_cursor-cell,
  Safe-Names,
}
use lprog_hw.Buffer.Safe.Retext.{retext, At-retext_self}
use lprog_hw.Buffer.Safe.Named.{on_found}
use lprog_hw.Buffer.Safe.Follow.{Safe-painted, Safe-unpainted}
use lprog_hw.Buffer.Safe.Shift.{shift_others-Safe, shift_others-Names}

length-inserted :
    (xs : List ℕ) (n c : ℕ) → n ≤ length xs → length (take n xs ++ c ∷ drop n xs) ≡ suc (length xs)
length-inserted xs n c h =
    omega (arith, length-append (take n xs) (c ∷ drop n xs), length-take n xs, length-drop n xs)

module _ {R : Type 0} ⦃rope : Rope R⦄ where
  -- The line `l`, in which the cursor `c` stands, has the text `t`, the cursor is at `pos`, every
  -- other line is as before, and the buffer is safe.
  pub record Edited (b : Buffer R) (r : CursorRef) (c : Cursor) (l : Line R) (pos : ℕ) (t : List ℕ)
      (b' : Buffer R) : Type 0 where
    pub safe : Safe b'
    pub str : R
    pub text : rope.text str ≡ t
    pub cell : b'.cell ≡ retext b.cell c.own_line l str
    pub named : Names b' r (record c { pos = pos })
    pub ends : SameEnds b b'

  cursor_insert-eq :
      (b : Buffer R) (r : CursorRef) (c : Cursor) (l : Line R) (chr : ℕ)
      → Names b r c
      → At b.cell c.own_line l
      → length (rope.text l.str) < width_limit b.width
      → cursor_insert r chr b
        ≡ done update (
            with_cursor r
              (record c { pos = c.pos + 1 })
              (record b { cell = retext b.cell c.own_line l (rope.insert_char l.str c.pos chr) }))
  unfolding cursor_insert
  cursor_insert-eq b r c l chr n a room =
      let z : leb (width_limit b.width) (rope.char_count l.str) ≡ false =
        ground (arith, rope.char_count-text l.str) in
      rw (load_cursor-Names b r c n, load-At b a, z)
        (ap (λ o. and_then o (λ _. done update)) (store_cursor-with r _ _))

  Edited-painted :
      {b : Buffer R} {r : CursorRef} {c : Cursor} {l : Line R} {pos : ℕ} {t : List ℕ}
      {b' : Buffer R} (u : Bool)
      → Edited b r c l pos t b'
      → Edited b r c l pos t (if u then record b' { repaints = b'.repaints + 1 } else b')
  Edited-painted false e = e
  Edited-painted {r = own} true e = record {
    safe = Safe-painted e.safe;
    str = e.str;
    text = e.text;
    cell = e.cell;
    named = e.named;
    ends = record {
      first = e.ends.first;
      last = e.ends.last;
      brk = e.ends.brk;
      width = e.ends.width;
    };
  }
  Edited-painted {r = peer i} true e = record {
    safe = Safe-painted e.safe;
    str = e.str;
    text = e.text;
    cell = e.cell;
    named = e.named;
    ends = record {
      first = e.ends.first;
      last = e.ends.last;
      brk = e.ends.brk;
      width = e.ends.width;
    };
  }

  -- Typing a plain character in a safe buffer, where the line has room: it stands in the text at the
  -- cursor, the cursor goes behind it, no other line changes, and the buffer stays safe.
  pub bcursor_insert-Edited :
      (b : Buffer R) (id chr : ℕ) (r : CursorRef) (c : Cursor) (l : Line R)
      → Safe b
      → bcursor_find id b ≡ done (some r) b
      → Names b r c
      → At b.cell c.own_line l
      → is_plain chr ≡ true
      → length (rope.text l.str) < width_limit b.width
      → Returns
          (λ res b'.
            (res ≡ update)
            × Edited b r c l
                (c.pos + 1)
                (take c.pos (rope.text l.str) ++ chr ∷ drop c.pos (rope.text l.str))
                b')
          (bcursor_insert id chr b)
  unfolding bcursor_insert ui_update_if
  bcursor_insert-Edited b id chr r c l s e n a plain room = on_found id _ e (
      on_eq _ (cursor_insert-eq b r c l chr n a room) (
        bind (shift_others-Safe b c.own_line l s' (λ pos. pos + 1) c' a refl keep r c s n fits)
          λ _ b' t. returns (
            refl,
            Edited-painted b'.ui (record {
              safe = t.safe;
              str = s';
              text = typed;
              cell = t.cell;
              named = t.named;
              ends = t.ends;
            }),
          )))
    where
      s' : R
      s' = rope.insert_char l.str c.pos chr

      c' : Cursor
      c' = record c { pos = c.pos + 1 }

      inside : c.pos ≤ length (rope.text l.str)
      inside =
          let (m, am, h) = Safe-Names r c s n in
          let same : m ≡ l = cc (am.holds, a.holds) in
          subst (λ (x : Line R). c.pos ≤ length (rope.text x.str)) same h

      typed : rope.text s' ≡ take c.pos (rope.text l.str) ++ chr ∷ drop c.pos (rope.text l.str)
      typed = rope.text-insert_char l.str c.pos chr plain inside

      longer : length (rope.text s') ≡ suc (length (rope.text l.str))
      longer = ap length typed ∙ length-inserted (rope.text l.str) c.pos chr inside

      keep :
          (q : ℕ)
          → q ≤ length (rope.text l.str)
          → (if ltb (c.pos + 1) q then q + 1 else q) ≤ length (rope.text s')
      keep q h = ground (arith, longer)

      fits : CursorFits (record b { cell = retext b.cell c.own_line l s' }) c'
      fits = (record l { str = s' }, At-retext_self s' a, omega (arith, longer, inside))

  cursor_del-eq :
      (b : Buffer R) (r : CursorRef) (c : Cursor) (l : Line R)
      → Names b r c
      → At b.cell c.own_line l
      → 0 < c.pos
      → cursor_del r b
        ≡ done update (
            with_cursor r
              (record c { pos = c.pos - 1 })
              (record b { cell = retext b.cell c.own_line l (rope.del l.str (c.pos - 1) 1) }))
  unfolding cursor_del
  cursor_del-eq b r c l n a more =
      let z : (c.pos == 0) ≡ false = ground arith in
      rw (load_cursor-Names b r c n, z, load-At b a)
        (ap (λ o. and_then o (λ _. done update)) (store_cursor-with r _ _))

  finish_del-Edited :
      {b : Buffer R} (r : CursorRef) {c : Cursor} {l : Line R} {pos : ℕ} {t : List ℕ}
      {b' : Buffer R} (seen : Bool)
      → At b.cell c.own_line l
      → Edited b r c l pos t b'
      → Returns (λ res b''. (res ≡ update) × Edited b r c l pos t b'') (finish_del seen r b')
  unfolding finish_del ui_update_if
  finish_del-Edited {b} r {c} {l} {pos} {t} {b'} seen a e =
      let a' =
        subst (λ h. At h c.own_line (record l { str = e.str })) (sym e.cell)
          (At-retext_self e.str a) in
      on_cursor b' r (record c { pos = pos }) _ e.named
        (on_load b' _ a' (returns (refl, twice b'.ui (seen || l.on_screen))))
    where
      twice :
          (u v : Bool)
          → Edited b r c l pos t
              (if u then (if v then record b' { repaints = b'.repaints + 1 } else b') else b')
      twice true v = Edited-painted v e
      twice false v = e

  -- Deleting in a safe buffer, where the cursor is not at the start of its line: the character before
  -- it goes, the cursor goes back by one, no other line changes, and the buffer stays safe.
  pub bcursor_del-Edited :
      (b : Buffer R) (id : ℕ) (r : CursorRef) (c : Cursor) (l : Line R)
      → Safe b
      → bcursor_find id b ≡ done (some r) b
      → Names b r c
      → At b.cell c.own_line l
      → 0 < c.pos
      → Returns
          (λ res b'.
            (res ≡ update)
            × Edited b r c l
                (c.pos - 1)
                (take (c.pos - 1) (rope.text l.str) ++ drop c.pos (rope.text l.str))
                b')
          (bcursor_del id b)
  unfolding bcursor_del
  bcursor_del-Edited b id r c l s e n a more =
      let z : ltb 0 c.pos ≡ true = lt→ltb 0 c.pos more in
      on_found id _ e (
        on_cursor b r c _ n (
          on_load b _ a (
            rw z (
              on_eq _ (cursor_del-eq b r c l n a more) (
                bind
                  (shift_others-Safe b c.own_line l s' (λ pos. pos - 1) c' a refl keep r c s n fits)
                  λ _ b' t. finish_del-Edited r l.on_screen a (record {
                    safe = t.safe;
                    str = s';
                    text = typed;
                    cell = t.cell;
                    named = t.named;
                    ends = t.ends;
                  }))))))
    where
      s' : R
      s' = rope.del l.str (c.pos - 1) 1

      c' : Cursor
      c' = record c { pos = c.pos - 1 }

      inside : c.pos ≤ length (rope.text l.str)
      inside =
          let (m, am, h) = Safe-Names r c s n in
          let same : m ≡ l = cc (am.holds, a.holds) in
          subst (λ (x : Line R). c.pos ≤ length (rope.text x.str)) same h

      typed : rope.text s' ≡ take (c.pos - 1) (rope.text l.str) ++ drop c.pos (rope.text l.str)
      typed =
          let z : c.pos - 1 + 1 ≡ c.pos = omega arith in
          rw z at (rope.text-del l.str (c.pos - 1) 1 (omega (arith, inside)))

      shorter : suc (length (rope.text s')) ≡ length (rope.text l.str)
      shorter = omega (
        arith,
        ap length typed,
        length-append (take (c.pos - 1) (rope.text l.str)) (drop c.pos (rope.text l.str)),
        length-take (c.pos - 1) (rope.text l.str),
        length-drop c.pos (rope.text l.str),
        inside,
      )

      keep :
          (q : ℕ)
          → q ≤ length (rope.text l.str)
          → (if ltb (c.pos - 1) q then q - 1 else q) ≤ length (rope.text s')
      keep q h = ground (arith, shorter, inside)

      fits : CursorFits (record b { cell = retext b.cell c.own_line l s' }) c'
      fits = (record l { str = s' }, At-retext_self s' a, omega (arith, shorter, inside))

  -- The text of each line is what it was, and the cursor stands one place behind the end of its line `l`.
  abbrev pub LeftOutside : Buffer R → CursorRef → Cursor → Line R → Buffer R → Type 0
  LeftOutside b r c l b' =
      (str : R) × (b'.cell ≡ retext b.cell c.own_line l str)
      × (rope.text str ≡ rope.text l.str)
      × Names b' r (record c { pos = suc (length (rope.text l.str)) })
      × (¬ Safe b')

  painted-LeftOutside :
      (b : Buffer R) (r : CursorRef) (c : Cursor) (l : Line R) (b' : Buffer R) (u : Bool)
      → LeftOutside b r c l b'
      → LeftOutside b r c l (if u then record b' { repaints = b'.repaints + 1 } else b')
  painted-LeftOutside b own c l b' true (s, e, t, n, h) = (s, e, t, n, λ k. h (Safe-unpainted b' k))
  painted-LeftOutside b (peer i) c l b' true (s, e, t, n, h) =
      (s, e, t, n, λ k. h (Safe-unpainted b' k))
  painted-LeftOutside b r c l b' false h = h

  -- A byte that is no character, 0 among them, typed at the end of a line with room: bcursor_insert
  -- returns UPDATE, the texts of all lines are what they were, and the cursor stands one place behind
  -- the end of its line, so that the buffer is not safe.
  pub bcursor_insert_invalid :
      (b : Buffer R) (id chr : ℕ) (r : CursorRef) (c : Cursor) (l : Line R)
      → bcursor_find id b ≡ done (some r) b
      → Names b r c
      → At b.cell c.own_line l
      → is_plain chr ≡ false
      → length (rope.text l.str) < width_limit b.width
      → c.pos ≡ length (rope.text l.str)
      → Returns (λ res b'. (res ≡ update) × LeftOutside b r c l b') (bcursor_insert id chr b)
  unfolding bcursor_insert ui_update_if
  bcursor_insert_invalid b id chr r c l e n a invalid room at_end = on_found id _ e (
      on_eq _ (cursor_insert-eq b r c l chr n a room) (
        bind (shift_others-Names typed_at (λ pos. pos + 1) r c' (Names-with r c c' retyped n))
          λ _ b' (cells, named). returns (
            refl,
            painted-LeftOutside b r c l b' b'.ui (
              s',
              cells ∙ cells_at,
              unchanged,
              subst (λ p. Names b' r (record c { pos = p })) behind named,
              outside b' cells named,
            ),
          )))
    where
      s' : R
      s' = rope.insert_char l.str c.pos chr

      unchanged : rope.text s' ≡ rope.text l.str
      unchanged = rope.text-insert_char_invalid l.str c.pos chr invalid

      behind : c.pos + 1 ≡ suc (length (rope.text l.str))
      behind = omega (arith, at_end)

      c' : Cursor
      c' = record c { pos = c.pos + 1 }

      retyped : Buffer R
      retyped = record b { cell = retext b.cell c.own_line l s' }

      typed_at : Buffer R
      typed_at = with_cursor r c' retyped

      cells_at : typed_at.cell ≡ retext b.cell c.own_line l s'
      cells_at = with_cursor-cell r c' retyped

      outside : (b' : Buffer R) → b'.cell ≡ typed_at.cell → Names b' r c' → ¬ Safe b'
      outside b' cells named s =
          let (m, am, h) = Safe-Names r c' s named in
          let am' = subst (λ x. At x c.own_line m) (cells ∙ cells_at) am in
          let same : record l { str = s' } ≡ m = cc ((At-retext_self s' a).holds, am'.holds) in
          let h' = subst (λ (x : Line R). c.pos + 1 ≤ length (rope.text x.str)) (sym same) h in
          absurd (omega (arith, ap length unchanged, h'))
