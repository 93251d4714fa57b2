-- ===== src/Buffer/Safe.antt =====
-- The invariant of a buffer that no operation breaks: the lines form a doubly linked chain, the
-- buffer's pointers are lines of it, and every cursor stands in its line.
pub mod Window
pub mod Peers
pub mod Retext
mod Shift
pub mod Typing
pub mod Move
pub mod Follow
pub mod Named
use lprog_hw.Prelude.{
  ℕ, ◌≤◌, ◌≡◌, refl, sym, ◌∙◌, subst, ◌≢◌, Bool, Option, none, some, arith, get_elem?, length,
  ==-false,
}
use lprog_hw.Rope.{Rope}
use lprog_hw.Buffer.State.{
  Crp, Ptr, null, Cursor, Line, Buffer, done, M, and_then, write, load, set_on_screen, set_location,
}
use lprog_hw.Buffer.Returns.{Returns, returns}

module _ {R : Type 0} where
  -- Two cells agree on all but the marks `on_screen` and `where`.
  abbrev pub Like : Option (Line R) → Option (Line R) → Type 0
  Like none none = Unit {0}
  Like none (some m) = ⊥
  Like (some l) none = ⊥
  Like (some l) (some m) = (l.id ≡ m.id) × (l.str ≡ m.str) × (l.prev ≡ m.prev) × (l.next ≡ m.next)

  pub Like-refl : (c : Option (Line R)) → Like c c
  Like-refl none = tt
  Like-refl (some l) = (refl, refl, refl, refl)

  pub Like-trans : (c d e : Option (Line R)) → Like c d → Like d e → Like c e
  Like-trans none none e h k = k
  Like-trans none (some m) e h k = absurd h
  Like-trans (some l) none e h k = absurd h
  Like-trans (some l) (some m) none h k = k
  Like-trans (some l) (some m) (some n) h k = ground arith

  -- What only marks lines and moves the window leaves alone.
  pub record Marks (b b' : Buffer R) : Type 0 where
    pub cells : (p : Ptr) → Like (b.cell p) (b'.cell p)
    pub first : b'.first ≡ b.first
    pub last : b'.last ≡ b.last
    pub own_curs : b'.own_curs ≡ b.own_curs
    pub peer_curss : b'.peer_curss ≡ b.peer_curss
    pub width : b'.width ≡ b.width
    pub brk : b'.brk ≡ b.brk

  pub Marks-refl : (b : Buffer R) → Marks b b
  Marks-refl b = record {
    cells = λ p. Like-refl (b.cell p);
    first = refl;
    last = refl;
    own_curs = refl;
    peer_curss = refl;
    width = refl;
    brk = refl;
  }

  pub Marks-trans : {b c d : Buffer R} → Marks b c → Marks c d → Marks b d
  Marks-trans {b} {c} {d} h k = record {
    cells = λ p. Like-trans (b.cell p) (c.cell p) (d.cell p) (h.cells p) (k.cells p);
    first = cc;
    last = cc;
    own_curs = cc;
    peer_curss = cc;
    width = cc;
    brk = cc;
  }

  -- The document begins and ends where it did, no line was allocated, and the width is as before.
  pub record SameEnds (b b' : Buffer R) : Type 0 where
    pub first : b'.first ≡ b.first
    pub last : b'.last ≡ b.last
    pub brk : b'.brk ≡ b.brk
    pub width : b'.width ≡ b.width

  -- `p` points to the line `l`.
  pub record At (h : Ptr → Option (Line R)) (p : Ptr) (l : Line R) : Type 0 where
    pub ne_null : p ≢ null
    pub holds : h p ≡ some l

  abbrev pub Stored : (Ptr → Option (Line R)) → Ptr → Type 0
  Stored h p = (l : Line R) × At h p l

  pub load-At : (b : Buffer R) {p : Ptr} {l : Line R} → At b.cell p l → load p b ≡ done l b
  unfolding load
  load-At b {p} a = rw (==-false p null a.ne_null, a.holds)

  -- The rule for a read that succeeds.
  pub on_load :
      {A : Type 0} {Q : A → Buffer R → Type 0} {p : Ptr} {l : Line R} (b : Buffer R)
      (k : Line R → M R A)
      → At b.cell p l
      → Returns Q (k l b)
      → Returns Q (and_then (load p b) k)
  on_load b k a h = rw (load-At b a) h

  Like-At_cell :
      {p : Ptr} {l : Line R} (b b' : Buffer R) (c c' : Option (Line R))
      → p ≢ null
      → c ≡ some l
      → b'.cell p ≡ c'
      → Like c c'
      → (l' : Line R) × At b'.cell p l' × Like (some l) (some l')
  Like-At_cell b b' none c' ne e e' k = cc
  Like-At_cell b b' (some m) none ne e e' k = absurd k
  Like-At_cell b b' (some m) (some m') ne e e' k =
      (m', record { ne_null = ne; holds = e' }, ground arith)

  -- The same line, but for its marks.
  pub Marks-At :
      {b b' : Buffer R} {p : Ptr} {l : Line R}
      → Marks b b'
      → At b.cell p l
      → (l' : Line R) × At b'.cell p l' × Like (some l) (some l')
  Marks-At {b} {b'} {p} m a =
      Like-At_cell b b' (b.cell p) (b'.cell p) a.ne_null a.holds refl (m.cells p)

  pub Marks-Stored : {b b' : Buffer R} {p : Ptr} → Marks b b' → Stored b.cell p → Stored b'.cell p
  Marks-Stored m (l, a) = let (l', a', _) = Marks-At m a in (l', a')

  -- A write of marks.
  pub record Marked (b b' : Buffer R) : Type 0 where
    pub marks : Marks b b'
    pub top : b'.top ≡ b.top
    pub bottom : b'.bottom ≡ b.bottom

  Like-write :
      (b : Buffer R) (p q : Ptr) (l m : Line R)
      → b.cell p ≡ some l
      → Like (some l) (some m)
      → Like (b.cell q) (write b.cell p (some m) q)
  Like-write b p q l m e k = ground (arith, Like-refl (b.cell q))

  pub set_on_screen-Marked :
      {b : Buffer R} {p : Ptr} (v : Bool)
      → Stored b.cell p
      → Returns (λ _. Marked b) (set_on_screen p v b)
  unfolding set_on_screen
  set_on_screen-Marked {b} {p} v (l, a) = rw (load-At b a) (
      returns (record {
        marks = record {
          cells =
              λ q. Like-write b p q l (record l { on_screen = v }) a.holds (refl, refl, refl, refl);
          first = refl;
          last = refl;
          own_curs = refl;
          peer_curss = refl;
          width = refl;
          brk = refl;
        };
        top = refl;
        bottom = refl;
      }))

  pub set_location-Marked :
      {b : Buffer R} {p : Ptr} (v : Crp)
      → Stored b.cell p
      → Returns (λ _. Marked b) (set_location p v b)
  unfolding set_location
  set_location-Marked {b} {p} v (l, a) = rw (load-At b a) (
      returns (record {
        marks = record {
          cells =
              λ q. Like-write b p q l (record l { location = v }) a.holds (refl, refl, refl, refl);
          first = refl;
          last = refl;
          own_curs = refl;
          peer_curss = refl;
          width = refl;
          brk = refl;
        };
        top = refl;
        bottom = refl;
      }))

  Like-sym : (c d : Option (Line R)) → Like c d → Like d c
  Like-sym none none h = h
  Like-sym none (some m) h = absurd h
  Like-sym (some l) none h = absurd h
  Like-sym (some l) (some m) h = ground arith

  pub Marks-sym : {b b' : Buffer R} → Marks b b' → Marks b' b
  Marks-sym {b} {b'} m = record {
    cells = λ p. Like-sym (b.cell p) (b'.cell p) (m.cells p);
    first = cc;
    last = cc;
    own_curs = cc;
    peer_curss = cc;
    width = cc;
    brk = cc;
  }

  -- Each line is the `next` of the line before it, and the `prev` of the line after it, and no line is
  -- its own neighbour.
  pub record Linked (h : Ptr → Option (Line R)) : Type 0 where
    pub back :
        (p : Ptr) (l : Line R)
        → At h p l
        → l.prev ≢ null
        → (m : Line R) × At h l.prev m × (m.next ≡ p)
    pub forth :
        (p : Ptr) (l : Line R)
        → At h p l
        → l.next ≢ null
        → (m : Line R) × At h l.next m × (m.prev ≡ p)
    pub no_loop : (p : Ptr) (l : Line R) → At h p l → l.next ≢ p

  pub Marks-Linked : {b b' : Buffer R} → Marks b b' → Linked b.cell → Linked b'.cell
  Marks-Linked {b} {b'} m k = record {
    back = λ p l' a' ne.
        let (l, a, s) = Marks-At (Marks-sym m) a' in
        let (n, an, e) = k.back p l a (λ z. ne (s.2 ∙ z)) in
        let (n', an', s') = Marks-At m an in
        (n', subst (λ q. At b'.cell q n') (sym s.2) an', sym s'.3 ∙ e);
    forth = λ p l' a' ne.
        let (l, a, s) = Marks-At (Marks-sym m) a' in
        let (n, an, e) = k.forth p l a (λ z. ne (s.3 ∙ z)) in
        let (n', an', s') = Marks-At m an in
        (n', subst (λ q. At b'.cell q n') (sym s.3) an', sym s'.2 ∙ e);
    no_loop =
        λ p l' a' z. let (l, a, t) = Marks-At (Marks-sym m) a' in k.no_loop p l a (sym t.3 ∙ z);
  }

  -- The pointers that the window's moves read.
  pub record Framed (b : Buffer R) : Type 0 where
    pub linked : Linked b.cell
    pub first : Stored b.cell b.first
    pub last : Stored b.cell b.last
    pub top : Stored b.cell b.top
    pub bottom : Stored b.cell b.bottom

  -- A step that only marks lines, and leaves the window on lines of the buffer.
  pub record Moved (b b' : Buffer R) : Type 0 where
    pub marks : Marks b b'
    pub framed : Framed b'

  pub Marks-Framed :
      {b b' : Buffer R}
      → Marks b b'
      → Framed b
      → Stored b'.cell b'.top
      → Stored b'.cell b'.bottom
      → Framed b'
  Marks-Framed {b} {b'} m f t u = record {
    linked = Marks-Linked m f.linked;
    first = subst (Stored b'.cell) (sym m.first) (Marks-Stored m f.first);
    last = subst (Stored b'.cell) (sym m.last) (Marks-Stored m f.last);
    top = t;
    bottom = u;
  }

  pub Marked-Framed : {b b' : Buffer R} → Marked b b' → Framed b → Framed b'
  Marked-Framed {b} {b'} m f =
      Marks-Framed m.marks f (subst (Stored b'.cell) (sym m.top) (Marks-Stored m.marks f.top))
        (subst (Stored b'.cell) (sym m.bottom) (Marks-Stored m.marks f.bottom))

  pub Moved-refl : {b : Buffer R} → Framed b → Moved b b
  Moved-refl {b} f = record { marks = Marks-refl b; framed = f }

  pub Moved-trans : {b c d : Buffer R} → Moved b c → Moved c d → Moved b d
  Moved-trans h k = record { marks = Marks-trans h.marks k.marks; framed = k.framed }

module _ {R : Type 0} ⦃rope : Rope R⦄ where
  -- The cursor stands in a line, between two of its characters or at an end.
  abbrev pub CursorFits : Buffer R → Cursor → Type 0
  CursorFits b c = (l : Line R) × At b.cell c.own_line l × (c.pos ≤ length (rope.text l.str))

  pub record Safe (b : Buffer R) : Type 0 where
    pub framed : Framed b
    pub own_curs : CursorFits b b.own_curs
    pub peer_curss :
        (i : ℕ) (c : Cursor) → get_elem? b.peer_curss i ≡ some (some c) → CursorFits b c

  pub Marks-CursorFits :
      {b b' : Buffer R} (c : Cursor) → Marks b b' → CursorFits b c → CursorFits b' c
  Marks-CursorFits c m (l, a, h) =
      let (l', a', s) = Marks-At m a in (l', a', subst (λ r. c.pos ≤ length (rope.text r)) s.1 h)

  pub Moved-Safe : {b b' : Buffer R} → Moved b b' → Safe b → Safe b'
  Moved-Safe {b} {b'} m s = record {
    framed = m.framed;
    own_curs =
        subst (CursorFits b') (sym m.marks.own_curs)
          (Marks-CursorFits b.own_curs m.marks s.own_curs);
    peer_curss = λ i c e.
        Marks-CursorFits c m.marks
          (s.peer_curss i c (subst (λ l. get_elem? l i ≡ some (some c)) m.marks.peer_curss e));
  }
