-- ===== src/Buffer/Safe/Window.antt =====
-- The window's moves are safe.
use lprog_hw.Prelude.{
  Option, ◌≡◌, refl, sym, subst, true, false, ◌==◌, ◌||◌, inl, inr, Bool-cases, arith,
}
use lprog_hw.Buffer.State.{CmoveDir, up, down, left, right, Ptr, null, Line, Buffer}
use lprog_hw.Buffer.Window.{
  shrink_bottom, shrink_top, grow_bottom, grow_top, scroll_up, scroll_down, buffer_scroll,
}
use lprog_hw.Buffer.Returns.{Returns, returns, bind, mono}
use lprog_hw.Buffer.Safe.{
  At, Stored, on_load, Marks, Marks-refl, Marks-At, Marked, Linked, Framed, Moved, Moved-refl,
  Moved-trans, Marks-Framed, Marked-Framed, set_on_screen-Marked,
}

module _ {R : Type 0} where
  -- A pointer of a stored line that is not NULL leads to a stored line.
  pub prev-Stored :
      {h : Ptr → Option (Line R)} {p : Ptr} {l : Line R}
      → Linked h
      → At h p l
      → (l.prev == null) ≡ false
      → Stored h l.prev
  prev-Stored {p} {l} k a e = let (m, am, _) = k.back p l a (λ z. ground arith) in (m, am)

  pub next-Stored :
      {h : Ptr → Option (Line R)} {p : Ptr} {l : Line R}
      → Linked h
      → At h p l
      → (l.next == null) ≡ false
      → Stored h l.next
  next-Stored {p} {l} k a e = let (m, am, _) = k.forth p l a (λ z. ground arith) in (m, am)

  pub set_top-Moved :
      {b : Buffer R} {p : Ptr} → Framed b → Stored b.cell p → Moved b (record b { top = p })
  set_top-Moved {b} {p} f s = record { marks = m; framed = Marks-Framed m f s f.bottom }
    where
      m : Marks b (record b { top = p })
      m = record {
        cells = (Marks-refl b).cells;
        first = refl;
        last = refl;
        own_curs = refl;
        peer_curss = refl;
        width = refl;
        brk = refl;
      }

  pub set_bottom-Moved :
      {b : Buffer R} {p : Ptr} → Framed b → Stored b.cell p → Moved b (record b { bottom = p })
  set_bottom-Moved {b} {p} f s = record { marks = m; framed = Marks-Framed m f f.top s }
    where
      m : Marks b (record b { bottom = p })
      m = record {
        cells = (Marks-refl b).cells;
        first = refl;
        last = refl;
        own_curs = refl;
        peer_curss = refl;
        width = refl;
        brk = refl;
      }

  pub Marked-Moved : {b b' : Buffer R} → Framed b → Marked b b' → Moved b b'
  Marked-Moved f m = record { marks = m.marks; framed = Marked-Framed m f }

  pub shrink_bottom-Moved :
      {b : Buffer R} {l : Line R}
      → Framed b
      → At b.cell b.bottom l
      → (l.prev == null) ≡ false
      → Returns (λ _ b'. Moved b b' × (b'.top ≡ b.top)) (shrink_bottom b)
  unfolding shrink_bottom
  shrink_bottom-Moved {b} {l} f a e = bind (set_on_screen-Marked false (l, a)) λ _ c m.
      let (l', a', s) = Marks-At m.marks a in
      let g = Marked-Moved f m in
      let e' : (l'.prev == null) ≡ false = subst (λ p. (p == null) ≡ false) s.2 e in
      let u = prev-Stored g.framed.linked a' e' in
      on_load c _ a' (returns (Moved-trans g (set_bottom-Moved g.framed u), m.top))

  pub shrink_top-Moved :
      {b : Buffer R} {l : Line R}
      → Framed b
      → At b.cell b.top l
      → (l.next == null) ≡ false
      → Returns (λ _ b'. Moved b b' × (b'.bottom ≡ b.bottom)) (shrink_top b)
  unfolding shrink_top
  shrink_top-Moved {b} {l} f a e = bind (set_on_screen-Marked false (l, a)) λ _ c m.
      let (l', a', s) = Marks-At m.marks a in
      let g = Marked-Moved f m in
      let e' : (l'.next == null) ≡ false = subst (λ p. (p == null) ≡ false) s.3 e in
      let u = next-Stored g.framed.linked a' e' in
      on_load c _ a' (returns (Moved-trans g (set_top-Moved g.framed u), m.bottom))

  pub grow_bottom-Moved :
      {b : Buffer R} {l : Line R}
      → Framed b
      → At b.cell b.bottom l
      → (l.next == null) ≡ false
      → Returns (λ _. Moved b) (grow_bottom b)
  unfolding grow_bottom
  grow_bottom-Moved {b} {l} f a e =
      let u = next-Stored f.linked a e in
      let g = set_bottom-Moved f u in
      on_load b _ a
        (mono (set_on_screen-Marked true u) λ _ c m. Moved-trans g (Marked-Moved g.framed m))

  pub grow_top-Moved :
      {b : Buffer R} {l : Line R}
      → Framed b
      → At b.cell b.top l
      → (l.prev == null) ≡ false
      → Returns (λ _. Moved b) (grow_top b)
  unfolding grow_top
  grow_top-Moved {b} {l} f a e =
      let u = prev-Stored f.linked a e in
      let g = set_top-Moved f u in
      on_load b _ a
        (mono (set_on_screen-Marked true u) λ _ c m. Moved-trans g (Marked-Moved g.framed m))

  scroll_up-Moved : {b : Buffer R} → Framed b → Returns (λ _. Moved b) (scroll_up b)
  unfolding scroll_up
  scroll_up-Moved {b} f =
      let (l, a) = f.bottom in
      let (t, at) = f.top in
      on_load b _ a (elim (Bool-cases (l.prev == null)) [
        | inl e ↦ rw e (returns (Moved-refl f))
        | inr e ↦ rw e (
            on_load b _ at
              (elim (Bool-cases (
                (t.prev == null)
                || (b.own_curs.own_line == b.bottom)
                || (b.own_curs.own_line == l.prev))) [
                  | inl stop ↦ rw stop (returns (Moved-refl f))
                  | inr go ↦ rw go (
                      bind (shrink_bottom-Moved f a e) λ _ c (m, same_top).
                        let (t', at', s) = Marks-At m.marks at in
                        mono
                          (grow_top-Moved m.framed (subst (λ p. At c.cell p t') (sym same_top) at')
                            (ground arith))
                          λ _ d n. Moved-trans m n)
                ]))
      ])

  scroll_down-Moved : {b : Buffer R} → Framed b → Returns (λ _. Moved b) (scroll_down b)
  unfolding scroll_down
  scroll_down-Moved {b} f =
      let (l, a) = f.bottom in
      let (t, at) = f.top in
      on_load b _ at (elim (Bool-cases (t.next == null)) [
        | inl e ↦ rw e (returns (Moved-refl f))
        | inr e ↦ rw e (
            on_load b _ a
              (elim (Bool-cases (
                (l.next == null)
                || (b.own_curs.own_line == b.top)
                || (b.own_curs.own_line == t.next))) [
                  | inl stop ↦ rw stop (returns (Moved-refl f))
                  | inr go ↦ rw go (
                      bind (shrink_top-Moved f at e) λ _ c (m, same_bottom).
                        let (l', a', s) = Marks-At m.marks a in
                        mono
                          (grow_bottom-Moved m.framed
                            (subst (λ p. At c.cell p l') (sym same_bottom) a') (ground arith))
                          λ _ d n. Moved-trans m n)
                ]))
      ])

  -- Where the lines are a doubly linked chain and first, last, top and bottom are lines of it,
  -- buffer_scroll returns in every direction, changes no line but for its marks, and that stays so.
  pub buffer_scroll-Moved :
      (dir : CmoveDir) {b : Buffer R} → Framed b → Returns (λ _. Moved b) (buffer_scroll dir b)
  unfolding buffer_scroll
  buffer_scroll-Moved up f = scroll_up-Moved f
  buffer_scroll-Moved down f = scroll_down-Moved f
  buffer_scroll-Moved left f = returns (Moved-refl f)
  buffer_scroll-Moved right f = returns (Moved-refl f)
