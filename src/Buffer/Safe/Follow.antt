-- ===== src/Buffer/Safe/Follow.antt =====
-- bcursor_move: the window follows own_curs, and the buffer stays safe.
use lprog_hw.Prelude.{
  ◌+◌, ◌≡◌, refl, sym, ◌∙◌, subst, Bool, true, false, ◌==◌, ◌||◌, ◌&&◌, if◌then◌else◌,
}
use lprog_hw.Rope.{Rope}
use lprog_hw.Buffer.State.{
  Crp, above, bellow, same, update, CmoveRes, CmoveDir, up, down, Ptr, null, Line, Cursor,
  CursorRef, own, peer, Buffer, done, and_then, ui_update_if, set_location, load, skip, ◌>>=◌, ◌>>◌,
}
use lprog_hw.Buffer.Window.{buffer_scroll}
use lprog_hw.Buffer.Edit.{is_up, is_down, before_own_move, after_own_move, move_ref}
use lprog_hw.Buffer.Returns.{Returns, returns, bind, mono}
use lprog_hw.Buffer.Safe.{
  At, Like, Like-refl, Like-trans, Marks-At, Moved, Moved-refl, Moved-trans, Moved-Safe, on_load,
  Framed, Safe, set_location-Marked,
}
use lprog_hw.Buffer.Safe.Window.{prev-Stored, next-Stored, buffer_scroll-Moved, Marked-Moved}
use lprog_hw.Buffer.Safe.Peers.{Names, on_cursor, Safe-Names}
use lprog_hw.Buffer.Safe.Move.{Went, cursor_move-Went}

module _ {R : Type 0} where
  pub scroll_if :
      {b : Buffer R} (t : Bool) (dir : CmoveDir)
      → Framed b
      → Returns (λ _. Moved b) ((if t then buffer_scroll dir else skip) b)
  scroll_if true dir f = buffer_scroll-Moved dir f
  scroll_if false dir f = returns (Moved-refl f)

  pub before_own_move-Moved : {b : Buffer R} → Framed b → Returns (λ _. Moved b) (before_own_move b)
  unfolding before_own_move
  before_own_move-Moved {b} f = bind (scroll_if (b.top == b.own_curs.own_line) up f) λ _ c m.
      mono (scroll_if (c.bottom == c.own_curs.own_line) down m.framed) λ _ d n. Moved-trans m n

  mark_two :
      {b : Buffer R} (p q : Ptr) (u v : Crp) {l m : Line R}
      → Framed b
      → At b.cell p l
      → At b.cell q m
      → Returns (λ _. Moved b) (and_then (set_location q v b) λ _. set_location p u)
  mark_two p q u v {l} {m} f a am = bind (set_location-Marked v (m, am)) λ _ c k.
      let g = Marked-Moved f k in
      let (l', a', _) = Marks-At k.marks a in
      mono (set_location-Marked u (l', a')) λ _ d n. Moved-trans g (Marked-Moved g.framed n)

  mark_up :
      {b : Buffer R} (t : Bool) (p : Ptr) {l : Line R}
      → Framed b
      → At b.cell p l
      → (t ≡ true → (l.next == null) ≡ false)
      → Returns
          (λ _. Moved b)
          ((if t then (do l ← load p; set_location l.next bellow; set_location p same) else skip) b)
  mark_up {b} true p f a h =
      let (m, am) = next-Stored f.linked a (h refl) in
      on_load b _ a (mark_two p _ same bellow f a am)
  mark_up false p f a h = returns (Moved-refl f)

  mark_down :
      {b : Buffer R} (t : Bool) (p : Ptr) {l : Line R}
      → Framed b
      → At b.cell p l
      → (t ≡ true → (l.prev == null) ≡ false)
      → Returns
          (λ _. Moved b)
          ((if t then (do l ← load p; set_location l.prev above; set_location p same) else skip) b)
  mark_down {b} true p f a h =
      let (m, am) = prev-Stored f.linked a (h refl) in
      on_load b _ a (mark_two p _ same above f a am)
  mark_down false p f a h = returns (Moved-refl f)

  marks_beside :
      {b c : Buffer R} (res : CmoveRes) {l : Line R}
      → Moved b c
      → At b.cell b.own_curs.own_line l
      → (is_up res ≡ true → (l.next == null) ≡ false)
      → (is_down res ≡ true → (l.prev == null) ≡ false)
      → (l' : Line R) × At c.cell c.own_curs.own_line l'
        × (is_up res ≡ true → (l'.next == null) ≡ false)
        × (is_down res ≡ true → (l'.prev == null) ≡ false)
  marks_beside {b} {c} res m a u d =
      let (l', a', s) = Marks-At m.marks a in
      (
        l',
        subst (λ k. At c.cell k.own_line l') (sym m.marks.own_curs) a',
        λ e. subst (λ p. (p == null) ≡ false) s.3 (u e),
        λ e. subst (λ p. (p == null) ≡ false) s.2 (d e),
      )

  pub after_own_move-Moved :
      {b : Buffer R} (res : CmoveRes) {l : Line R}
      → Framed b
      → At b.cell b.own_curs.own_line l
      → (is_up res ≡ true → (l.next == null) ≡ false)
      → (is_down res ≡ true → (l.prev == null) ≡ false)
      → Returns (λ _. Moved b) (after_own_move res b)
  unfolding after_own_move
  after_own_move-Moved {b} res f a u d =
      bind (scroll_if (is_up res && (b.top == b.own_curs.own_line)) up f) λ _ c m.
        bind (scroll_if (is_down res && (c.bottom == c.own_curs.own_line)) down m.framed) λ _ e n.
          let k = Moved-trans m n in
          let (l', a', u', d') = marks_beside res k a u d in
          bind (mark_up (is_up res) e.own_curs.own_line k.framed a' u') λ _ g o.
            let (l'', a'', s) = Marks-At o.marks a' in
            mono
              (mark_down (is_down res) e.own_curs.own_line o.framed a''
                (λ z. subst (λ p. (p == null) ≡ false) s.2 (d' z)))
              λ _ h q. Moved-trans k (Moved-trans o q)

module _ {R : Type 0} ⦃rope : Rope R⦄ where
  -- The buffer is safe, its lines hold the same texts in the same chain, and it begins and ends where
  -- it did.
  pub record Kept (b b' : Buffer R) : Type 0 where
    pub safe : Safe b'
    pub cells : (p : Ptr) → Like (b.cell p) (b'.cell p)
    pub first : b'.first ≡ b.first
    pub last : b'.last ≡ b.last
    pub brk : b'.brk ≡ b.brk

  pub Kept-trans : {b c d : Buffer R} → Kept b c → Kept c d → Kept b d
  Kept-trans {b} {c} {d} h k = record {
    safe = k.safe;
    cells = λ p. Like-trans (b.cell p) (c.cell p) (d.cell p) (h.cells p) (k.cells p);
    first = k.first ∙ h.first;
    last = k.last ∙ h.last;
    brk = k.brk ∙ h.brk;
  }

  pub Moved-Kept : {b b' : Buffer R} → Safe b → Moved b b' → Kept b b'
  Moved-Kept s m = record {
    safe = Moved-Safe m s;
    cells = m.marks.cells;
    first = m.marks.first;
    last = m.marks.last;
    brk = m.marks.brk;
  }

  Went-Kept :
      {r : CursorRef} {b : Buffer R} {res : CmoveRes} {b' : Buffer R} → Went r b res b' → Kept b b'
  Went-Kept {b} {b'} w = record {
    safe = w.safe;
    cells = λ p. subst (λ h. Like (b.cell p) (h p)) (sym w.kept.cell) (Like-refl (b.cell p));
    first = w.kept.first;
    last = w.kept.last;
    brk = w.kept.brk;
  }

  pub Safe-painted : {b : Buffer R} → Safe b → Safe (record b { repaints = b.repaints + 1 })
  Safe-painted s = record {
    framed = record {
      linked = s.framed.linked;
      first = s.framed.first;
      last = s.framed.last;
      top = s.framed.top;
      bottom = s.framed.bottom;
    };
    own_curs = s.own_curs;
    peer_curss = s.peer_curss;
  }

  pub Safe-unpainted : (b : Buffer R) → Safe (record b { repaints = b.repaints + 1 }) → Safe b
  Safe-unpainted b s = record {
    framed = record {
      linked = s.framed.linked;
      first = s.framed.first;
      last = s.framed.last;
      top = s.framed.top;
      bottom = s.framed.bottom;
    };
    own_curs = s.own_curs;
    peer_curss = s.peer_curss;
  }

  pub ui_update_if-Kept :
      {b : Buffer R} (seen : Bool) → Safe b → Returns (λ _. Kept b) (ui_update_if seen b)
  unfolding ui_update_if
  ui_update_if-Kept {b} seen s = returns (shown b.ui seen)
    where
      painted : Kept b (record b { repaints = b.repaints + 1 })
      painted = record {
        safe = Safe-painted s;
        cells = λ p. Like-refl (b.cell p);
        first = refl;
        last = refl;
        brk = refl;
      }

      unpainted : Kept b b
      unpainted = record {
        safe = s;
        cells = λ p. Like-refl (b.cell p);
        first = refl;
        last = refl;
        brk = refl;
      }

      shown :
          (u v : Bool)
          → Kept b (if u then (if v then record b { repaints = b.repaints + 1 } else b) else b)
      shown true true = painted
      shown true false = unpainted
      shown false v = unpainted

  pub finish_move :
      {b c : Buffer R} (seen : Bool)
      → Kept b c
      → Returns (λ _. Kept b) (and_then (ui_update_if seen c) λ _. done update)
  finish_move seen k = bind (ui_update_if-Kept seen k.safe) λ _ d k'. returns (Kept-trans k k')

  pub move_ref-Kept :
      {b : Buffer R} (r : CursorRef) (dir : CmoveDir) (c : Cursor)
      → Safe b
      → Names b r c
      → Returns (λ _. Kept b) (move_ref r dir b)
  unfolding move_ref
  move_ref-Kept {b} own dir c s n =
      let (l, a, _) = s.own_curs in
      on_load b _ a (
        bind (before_own_move-Moved s.framed) λ _ d m.
          let k = Moved-Kept s m in
          bind (cursor_move-Went own dir d.own_curs k.safe refl) λ res e w.
            let here = subst (λ x. At e.cell x.own_line w.line) (sym w.named) w.here in
            on_load e _ here (
              bind (after_own_move-Moved res w.safe.framed here w.has_next w.has_prev) λ _ f o.
                finish_move (l.on_screen || w.line.on_screen)
                  (Kept-trans k (Kept-trans (Went-Kept w) (Moved-Kept w.safe o)))))
  move_ref-Kept {b} (peer i) dir c s n =
      let (l, a, _) = Safe-Names (peer i) c s n in
      on_cursor b (peer i) c _ n (
        on_load b _ a (
          bind (cursor_move-Went (peer i) dir c s n) λ res e w.
            on_cursor e (peer i) w.to _ w.named
              (on_load e _ w.here (finish_move (l.on_screen || w.line.on_screen) (Went-Kept w)))))
