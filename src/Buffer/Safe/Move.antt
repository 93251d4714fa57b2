-- ===== src/Buffer/Safe/Move.antt =====
-- cursor_move and bcursor_move: no move of a cursor breaks the buffer.
use lprog_hw.Prelude.{
  ℕ, ◌+◌, ◌-◌, ◌≤◌, ◌≡◌, refl, subst, true, false, ◌==◌, ◌||◌, inl, inr, Bool-cases, ltb, arith,
  ==-false,
}
use lprog_hw.Rope.{Rope}
use lprog_hw.Buffer.State.{
  CmoveRes, a_up, a_horizontal, a_down, a_none, CmoveDir, up, down, left, right, null, Line, Cursor,
  CursorRef, own, peer, Buffer,
}
use lprog_hw.Buffer.Cursors.{go_prev, go_next, cursor_move, clamp_pos}
use lprog_hw.Buffer.Edit.{is_up, is_down}
use lprog_hw.Buffer.Returns.{Returns, returns}
use lprog_hw.Buffer.Safe.{At, on_load, Safe}
use lprog_hw.Buffer.Safe.Peers.{
  Names, on_cursor, on_store, with_cursor, OnlyCursor, OnlyCursor-refl, OnlyCursor-with, Names-with,
  Safe-Names, Safe-with,
}

clamp_pos-le : (n m : ℕ) → clamp_pos n m ≤ n
clamp_pos-le n m = ground arith

module _ {R : Type 0} ⦃rope : Rope R⦄ where
  -- After cursor_move: the buffer is safe, only the cursor `r` is changed, and the line that it went
  -- to has the line that it came from on the other side.
  pub record Went (r : CursorRef) (b : Buffer R) (res : CmoveRes) (b' : Buffer R) : Type 0 where
    pub safe : Safe b'
    pub kept : OnlyCursor b b'
    pub to : Cursor
    pub named : Names b' r to
    pub line : Line R
    pub here : At b'.cell to.own_line line
    pub has_next : is_up res ≡ true → (line.next == null) ≡ false
    pub has_prev : is_down res ≡ true → (line.prev == null) ≡ false

  stayed :
      {b : Buffer R} (r : CursorRef) (c : Cursor) {l : Line R} (res : CmoveRes)
      → Safe b
      → Names b r c
      → At b.cell c.own_line l
      → is_up res ≡ false
      → is_down res ≡ false
      → Went r b res b
  stayed {b} r c {l} res s n a u d = record {
    safe = s;
    kept = OnlyCursor-refl b;
    to = c;
    named = n;
    line = l;
    here = a;
    has_next = λ e. cc;
    has_prev = λ e. cc;
  }

  arrived :
      {b : Buffer R} (r : CursorRef) (c d : Cursor) {l : Line R} (res : CmoveRes)
      → Safe b
      → Names b r c
      → At b.cell d.own_line l
      → d.pos ≤ rope.char_count l.str
      → (is_up res ≡ true → (l.next == null) ≡ false)
      → (is_down res ≡ true → (l.prev == null) ≡ false)
      → Went r b res (with_cursor r d b)
  arrived {b} own c d {l} res s n a h u v = record {
    safe = Safe-with own d s (l, a, subst (λ k. d.pos ≤ k) (rope.char_count-text l.str) h);
    kept = OnlyCursor-with own d b;
    to = d;
    named = Names-with own c d b n;
    line = l;
    here = a;
    has_next = u;
    has_prev = v;
  }
  arrived {b} (peer i) c d {l} res s n a h u v = record {
    safe = Safe-with (peer i) d s (l, a, subst (λ k. d.pos ≤ k) (rope.char_count-text l.str) h);
    kept = OnlyCursor-with (peer i) d b;
    to = d;
    named = Names-with (peer i) c d b n;
    line = l;
    here = a;
    has_next = u;
    has_prev = v;
  }

  module _ (at : ℕ → ℕ → ℕ) (bound : (n m : ℕ) → at n m ≤ n) where
    go_prev-Went :
        {b : Buffer R} (r : CursorRef) (c : Cursor)
        → Safe b
        → Names b r c
        → Returns (Went r b) (go_prev r at b)
    unfolding go_prev
    go_prev-Went {b} r c s n =
        let (l, a, h) = Safe-Names r c s n in
        on_cursor b r c _ n (
          on_load b _ a (elim (Bool-cases ((l.prev == null) || (c.own_line == b.first))) [
            | inl stop ↦ rw stop (returns (stayed r c a_none s n a refl refl))
            | inr go ↦
                let (m, am, e) = s.framed.linked.back c.own_line l a (λ z. ground arith) in
                rw go (
                  on_load b _ am (
                    on_store b r _ _ (
                      returns (
                        arrived r c
                          (record c { own_line = l.prev; pos = at (rope.char_count m.str) c.pos })
                          a_up s n am (bound _ _) (λ _. rw e (==-false _ _ a.ne_null)) (λ z. cc)))))
          ]))

    go_next-Went :
        {b : Buffer R} (r : CursorRef) (c : Cursor)
        → Safe b
        → Names b r c
        → Returns (Went r b) (go_next r at b)
    unfolding go_next
    go_next-Went {b} r c s n =
        let (l, a, h) = Safe-Names r c s n in
        on_cursor b r c _ n (
          on_load b _ a (elim (Bool-cases ((l.next == null) || (c.own_line == b.last))) [
            | inl stop ↦ rw stop (returns (stayed r c a_none s n a refl refl))
            | inr go ↦
                let (m, am, e) = s.framed.linked.forth c.own_line l a (λ z. ground arith) in
                rw go (
                  on_load b _ am (
                    on_store b r _ _ (
                      returns (
                        arrived r c
                          (record c { own_line = l.next; pos = at (rope.char_count m.str) c.pos })
                          a_down s n am (bound _ _) (λ z. cc)
                          (λ _. rw e (==-false _ _ a.ne_null))))))
          ]))

  -- On a safe buffer cursor_move of any cursor in any direction returns, keeps the buffer safe, and leaves
  -- its lines, ends and window as they were; after a move up there is a line below the cursor's, after a
  -- move down one above it.
  pub cursor_move-Went :
      {b : Buffer R} (r : CursorRef) (dir : CmoveDir) (c : Cursor)
      → Safe b
      → Names b r c
      → Returns (Went r b) (cursor_move r dir b)
  unfolding cursor_move
  cursor_move-Went r up c s n = go_prev-Went clamp_pos clamp_pos-le r c s n
  cursor_move-Went r down c s n = go_next-Went clamp_pos clamp_pos-le r c s n
  cursor_move-Went {b} r left c s n =
      let (l, a, h) = Safe-Names r c s n in
      on_cursor b r c _ n (elim (Bool-cases (ltb 0 c.pos)) [
        | inl more ↦ rw more (
            on_store b r _ _ (
              returns (
                arrived r c (record c { pos = c.pos - 1 }) a_horizontal s n a
                  (omega (arith, rope.char_count-text l.str)) (λ z. cc) (λ z. cc))))
        | inr start ↦ rw start (go_prev-Went (λ count pos. count) (λ x y. omega arith) r c s n)
      ])
  cursor_move-Went {b} r right c s n =
      let (l, a, h) = Safe-Names r c s n in
      on_cursor b r c _ n (
        on_load b _ a (elim (Bool-cases (ltb c.pos (rope.char_count l.str))) [
          | inl more ↦ rw more (
              on_store b r _ _ (
                returns (
                  arrived r c (record c { pos = c.pos + 1 }) a_horizontal s n a (ground arith)
                    (λ z. cc) (λ z. cc))))
          | inr end ↦ rw end (go_next-Went (λ count pos. 0) (λ x y. omega arith) r c s n)
        ]))
