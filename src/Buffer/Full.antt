-- ===== src/Buffer/Full.antt =====
-- bcursor_insert in a line that is full.
use lprog_hw.Prelude.{ℕ, ◌+◌, ◌≤◌, ◌≡◌, refl, true, some, arith, length, leb, if◌then◌else◌}
use lprog_hw.Rope.{Rope}
use lprog_hw.Buffer.State.{
  failed, update, Line, Cursor, CursorRef, Buffer, Outcome, done, M, and_then,
}
use lprog_hw.Buffer.Cursors.{bcursor_find, cursor_insert, width_limit}
use lprog_hw.Buffer.Edit.{bcursor_insert}
use lprog_hw.Buffer.Safe.{At, load-At}
use lprog_hw.Buffer.Safe.Peers.{Names, load_cursor-Names}

module _ {R : Type 0} ⦃rope : Rope R⦄ where
  cursor_insert-full :
      (b : Buffer R) (r : CursorRef) (c : Cursor) (l : Line R) (chr : ℕ)
      → Names b r c
      → At b.cell c.own_line l
      → width_limit b.width ≤ length (rope.text l.str)
      → cursor_insert r chr b ≡ done failed b
  unfolding cursor_insert
  cursor_insert-full b r c l chr n a full =
      let z : leb (width_limit b.width) (rope.char_count l.str) ≡ true =
        ground (arith, rope.char_count-text l.str) in
      rw (load_cursor-Names b r c n, load-At b a, z) refl

  after :
      {A B : Type 0} {o : Outcome (Buffer R) A} {a : A} {b : Buffer R} {p : Outcome (Buffer R) B}
      (k : A → M R B)
      → o ≡ done a b
      → k a b ≡ p
      → and_then o k ≡ p
  after k e h = rw e h

  -- Typing where the line has at least width - 1 characters (a size_t) changes neither text nor
  -- cursors: the character is lost, and the result is UPDATE all the same. Only the screen is drawn
  -- again.
  pub bcursor_insert_full :
      (b : Buffer R) (id chr : ℕ) (r : CursorRef) (c : Cursor) (l : Line R)
      → bcursor_find id b ≡ done (some r) b
      → Names b r c
      → At b.cell c.own_line l
      → width_limit b.width ≤ length (rope.text l.str)
      → bcursor_insert id chr b
        ≡ done update (if b.ui then record b { repaints = b.repaints + 1 } else b)
  unfolding bcursor_insert
  bcursor_insert_full b id chr r c l e n a full =
      after _ e (after _ (cursor_insert-full b r c l chr n a full) refl)
