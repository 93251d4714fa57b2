-- ===== src/Buffer/Splitting/Placed.antt =====
-- A buffer with one line more: it is safe, and its document has that line.
use lprog_hw.Prelude.{
  ℕ, ◌+◌, ◌≤◌, ◌≡◌, refl, sym, ◌∙◌, ap, subst, ◌≢◌, ◌==◌, inl, inr, Bool-cases, ==-sound, ==-false,
  Option, some, List, if◌then◌else◌, false, arith, get_elem?, length, ◌<◌,
}
use lprog_hw.Rope.{Rope}
use lprog_hw.Buffer.State.{Ptr, null, Line, Cursor, Buffer, sp_size}
use lprog_hw.Buffer.Safe.{At, Stored, Framed, Safe}
use lprog_hw.Buffer.Document.{Place, Document, bytes_of, eq_of_At, PadFits}
use lprog_hw.Buffer.Document.Edits.{bytes_with}
use lprog_hw.Buffer.Splitting.Rewired.{at_ptr, Rewired}
use lprog_hw.Buffer.Splitting.Linking.{Gap, Inserts, Inserts-Linked, Inserts-Stored, fresh-ne}
use lprog_hw.Buffer.Splitting.Lines.{joined, count-le, after_places, before_places}
use lprog_hw.Buffer.Splitting.Trimming.{Wide}

at_ptr-short :
    (p q : Ptr) (u t : List ℕ)
    → length u < sp_size
    → length t < sp_size
    → length (at_ptr p u q t) < sp_size
at_ptr-short p q u t h k = ground arith

module _ {R : Type 0} ⦃rope : Rope R⦄ where
  -- Texts changed after the insertion.
  pub Inserts-Rewired :
      {h h' h'' : Ptr → Option (Line R)} {p pp nn : Ptr} {t u : List ℕ}
      {e e' e'' : Ptr → List ℕ → List ℕ}
      → Inserts h h' p pp nn t e
      → Rewired h' h'' e' (λ q x. x) (λ q x. x)
      → e' p t ≡ u
      → ((q : Ptr) (m : Line R) → At h q m → e' q (e q (rope.text m.str)) ≡ e'' q (rope.text m.str))
      → Inserts h h'' p pp nn u e''
  Inserts-Rewired {p = p} {e' = e'} i w new olds = record {
    ne_null = i.ne_null;
    fresh = i.fresh;
    new =
        let (n, an, tn, pn, nn) = i.new in
        let (m, am, tm, pm, nm) = w.olds p n an in
        (m, am, tm ∙ ap (e' p) tn ∙ new, pm ∙ pn, nm ∙ nn);
    olds = λ q m a.
        let (n, an, tn, pn, nn) = i.olds q m a in
        let (k, ak, tk, pk, nk) = w.olds q n an in
        (k, ak, tk ∙ ap (e' q) tn ∙ olds q m a, pk ∙ pn, nk ∙ nn);
    back = λ q m a. let (n, an) = w.back q m a in i.back q n an;
  }

  -- All the cursors of the buffer.
  abbrev pub AllCursors : Buffer R → (Cursor → Type 0) → Type 0
  AllCursors b P =
      P b.own_curs × ((i : ℕ) (c : Cursor) → get_elem? b.peer_curss i ≡ some (some c) → P c)

  -- The buffer `d` is `b` with a new line `p`, and with the ends `start` and `end`.
  pub record Placed (b d : Buffer R) (p pp nn : Ptr) (u : List ℕ) (e : Ptr → List ℕ → List ℕ)
      (start end : Ptr) : Type 0 where
    pub inserts : Inserts b.cell d.cell p pp nn u e
    pub first : d.first ≡ start
    pub last : d.last ≡ end
    pub top : d.top ≡ b.top
    pub bottom : d.bottom ≡ b.bottom
    pub own_curs : d.own_curs ≡ b.own_curs
    pub peer_curss : d.peer_curss ≡ b.peer_curss
    pub brk : d.brk ≡ b.brk + 1

  module _ {b d : Buffer R} {p pp nn : Ptr} {u : List ℕ} {e : Ptr → List ℕ → List ℕ}
      {start end : Ptr} (w : Placed b d p pp nn u e start end) (g : Gap b.cell pp nn) where
    pub Placed-Framed : Framed b → Stored d.cell start → Stored d.cell end → Framed d
    Placed-Framed f s t = record {
      linked = Inserts-Linked w.inserts g f.linked;
      first = subst (Stored d.cell) (sym w.first) s;
      last = subst (Stored d.cell) (sym w.last) t;
      top = subst (Stored d.cell) (sym w.top) (Inserts-Stored w.inserts f.top);
      bottom = subst (Stored d.cell) (sym w.bottom) (Inserts-Stored w.inserts f.bottom);
    }

    pub Placed-Safe :
        Safe b
        → Stored d.cell start
        → Stored d.cell end
        → AllCursors b (λ c.
          (l : Line R)
          → At b.cell c.own_line l
          → c.pos ≤ length (rope.text l.str)
          → c.pos ≤ length (e c.own_line (rope.text l.str)))
        → Safe d
    Placed-Safe s st st' (own, peers) = record {
      framed = Placed-Framed s.framed st st';
      own_curs =
          let (l, a, h) = s.own_curs in
          let (m, am, tm, _, _) = w.inserts.olds b.own_curs.own_line l a in
          subst
            (λ (c : Cursor).
              (m : Line R) × At d.cell c.own_line m × (c.pos ≤ length (rope.text m.str)))
            (sym w.own_curs) (m, am, subst (λ t. b.own_curs.pos ≤ length t) (sym tm) (own l a h));
      peer_curss = λ i c q.
          let q' = subst (λ cs. get_elem? cs i ≡ some (some c)) w.peer_curss q in
          let (l, a, h) = s.peer_curss i c q' in
          let (m, am, tm, _, _) = w.inserts.olds c.own_line l a in
          (m, am, subst (λ t. c.pos ≤ length t) (sym tm) (peers i c q' l a h));
    }

    pub Placed-Wide : Framed b → Wide b → Wide d
    Placed-Wide f v = record {
      below_top = λ m a z.
          let (l, al) = f.top in
          let (n, an, _, _, en) = w.inserts.olds b.top l al in
          let same = eq_of_At (subst (λ q. At d.cell q m) w.top a) an in
          let en' = ap (λ (l : Line R). l.next) (sym same) ∙ z in
          elim (Bool-cases (b.top == pp)) [
            | inl y ↦ w.inserts.ne_null (sym (en ∙ rw y refl) ∙ en')
            | inr y ↦ v.below_top l al (sym (en ∙ rw y refl) ∙ en')
          ];
      above_bottom = λ m a z.
          let (l, al) = f.bottom in
          let (n, an, _, en, _) = w.inserts.olds b.bottom l al in
          let same = eq_of_At (subst (λ q. At d.cell q m) w.bottom a) an in
          let en' = ap (λ (l : Line R). l.prev) (sym same) ∙ z in
          elim (Bool-cases (b.bottom == nn)) [
            | inl y ↦ w.inserts.ne_null (sym (en ∙ rw y refl) ∙ en')
            | inr y ↦ v.above_bottom l al (sym (en ∙ rw y refl) ∙ en')
          ];
    }

  -- With short texts before and after, the lines fit into the scratch pad.
  pub PadFits-Inserts :
      {h h' : Ptr → Option (Line R)} {p pp nn : Ptr} {u : List ℕ} {e : Ptr → List ℕ → List ℕ}
      → Inserts h h' p pp nn u e
      → length u < sp_size
      → ((q : Ptr) (t : List ℕ) → length t < sp_size → length (e q t) < sp_size)
      → PadFits h
      → PadFits h'
  PadFits-Inserts {h' = h'} {p = p} i small keep f q m am = elim (i.back q m am) [
    | inl z ↦
        let (n, an, tn, _, _) = i.new in
        let same = eq_of_At an (subst (λ q. At h' q m) z am) in
        subst (λ (m : Line R). length (rope.text m.str) < sp_size) same
          (subst (λ t. length t < sp_size) (sym tn) small)
    | inr (l, a) ↦
        let (n, an, tn, _, _) = i.olds q l a in
        subst (λ (m : Line R). length (rope.text m.str) < sp_size) (eq_of_At an am)
          (subst (λ t. length t < sp_size) (sym tn) (keep q (rope.text l.str) (f q l a)))
  ]

  -- The document with the file `bytes_with q t xs`, whose lines fit into the scratch pad.
  abbrev pub SavedWith : Buffer R → Ptr → List ℕ → List (Place R) → Type 0
  SavedWith d q t xs =
      (ys : List (Place R)) × Document d ys × (bytes_of ys ≡ bytes_with q t xs) × PadFits d.cell

  pub Placed-after :
      {b d : Buffer R} {p q : Ptr} {l : Line R} (t u : List ℕ) (xs : List (Place R))
      → Placed b d p q l.next u (at_ptr q t) b.first (if q == b.last then p else b.last)
      → At b.cell q l
      → Framed b
      → Document b xs
      → PadFits b.cell
      → length t < sp_size
      → length u < sp_size
      → SavedWith d q (joined t u) xs
  Placed-after {b} {d} {p} {q} {l} t u xs w a f doc fits ht hu =
      let ne_last : p ≢ b.last = λ z. let (m, am) = f.last in fresh-ne w.inserts.fresh am (sym z) in
      let (ys, v, bs, len) = after_places t u w.inserts a ne_last b.first xs doc.lines in
      (
        ys,
        record {
          lines = rw (w.first, w.last) v;
          first_prev = λ m am. top m (subst (λ q. At d.cell q m) w.first am);
          fuel = omega (arith, len, doc.fuel, count-le b.cell b.last q b.first xs doc.lines, w.brk);
        },
        bs,
        PadFits-Inserts w.inserts hu (λ s v. at_ptr-short q s t v ht) fits,
      )
    where
      top : (m : Line R) → At d.cell b.first m → m.prev ≡ null
      top m am =
          let (n, an) = f.first in
          let (k, ak, _, pk, _) = w.inserts.olds b.first n an in
          let not_next : (b.first == l.next) ≡ false = ==-false b.first l.next λ z.
            let (x, ax, ex) = f.linked.forth q l a (λ y. an.ne_null (z ∙ y)) in
            let none_above = doc.first_prev x (subst (λ q. At b.cell q x) (sym z) ax) in
            a.ne_null (sym ex ∙ none_above) in
          ap (λ (l : Line R). l.prev) (eq_of_At am ak) ∙ pk ∙ rw not_next (doc.first_prev n an)

  pub Placed-before :
      {b d : Buffer R} {p q : Ptr} {l : Line R} (u : List ℕ) (xs : List (Place R))
      → Placed b d p l.prev q u (λ q t. t) (if b.first == q then p else b.first) b.last
      → At b.cell q l
      → Framed b
      → Document b xs
      → PadFits b.cell
      → length u < sp_size
      → SavedWith d q (joined u (rope.text l.str)) xs
  Placed-before {b} {d} {p} {q} {l} u xs w a f doc fits hu =
      let ne_last : p ≢ b.last = λ z. let (m, am) = f.last in fresh-ne w.inserts.fresh am (sym z) in
      let (ys, v, bs, len) = before_places u w.inserts f.linked a ne_last b.first xs doc.lines in
      (
        ys,
        record {
          lines = rw (w.first, w.last) v;
          first_prev = λ m am. top m (subst (λ q. At d.cell q m) w.first am);
          fuel = omega (arith, len, doc.fuel, count-le b.cell b.last q b.first xs doc.lines, w.brk);
        },
        bs,
        PadFits-Inserts w.inserts hu (λ s v h. h) fits,
      )
    where
      top : (m : Line R) → At d.cell (if b.first == q then p else b.first) m → m.prev ≡ null
      top m am = elim (Bool-cases (b.first == q)) [
        | inl z ↦
            let (n, an, _, pn, _) = w.inserts.new in
            let am' : At d.cell p m = rw z at am in
            let above =
              doc.first_prev l (subst (λ q. At b.cell q l) (sym (==-sound b.first q z)) a) in
            ap (λ (l : Line R). l.prev) (eq_of_At am' an) ∙ pn ∙ above
        | inr z ↦
            let (n, an) = f.first in
            let (k, ak, _, pk, _) = w.inserts.olds b.first n an in
            let am' : At d.cell b.first m = rw z at am in
            ap (λ (l : Line R). l.prev) (eq_of_At am' ak) ∙ pk ∙ rw z (doc.first_prev n an)
      ]
