-- ===== src/Buffer/Splitting/Rewired.antt =====
-- Writes to lines that are there: each line keeps its address, and its text and its pointers are
-- functions of what they were.
use lprog_hw.Prelude.{
  ℕ, ◌≡◌, refl, sym, ◌∙◌, ap, subst, ◌==◌, inl, inr, Bool-cases, ==-sound, ==-true, Option, some,
  List, if◌then◌else◌, false,
}
use lprog_hw.Rope.{Rope}
use lprog_hw.Buffer.State.{Ptr, Line, Buffer, write, set_prev, set_next, set_str}
use lprog_hw.Buffer.Returns.{Returns, returns}
use lprog_hw.Buffer.Safe.{At, Stored, load-At, Marks, Marks-At, Marks-sym, Marked}

-- `v` at `p`, and what there was at any other address.
abbrev pub at_ptr : {A : Type 0} → Ptr → A → Ptr → A → A
at_ptr p v q x = if q == p then v else x

module _ {R : Type 0} where
  -- All but the store of lines is as before.
  pub record SameRest (b b' : Buffer R) : Type 0 where
    pub first : b'.first ≡ b.first
    pub last : b'.last ≡ b.last
    pub top : b'.top ≡ b.top
    pub bottom : b'.bottom ≡ b.bottom
    pub own_curs : b'.own_curs ≡ b.own_curs
    pub peer_curss : b'.peer_curss ≡ b.peer_curss
    pub brk : b'.brk ≡ b.brk

  pub SameRest-trans : {b c d : Buffer R} → SameRest b c → SameRest c d → SameRest b d
  SameRest-trans h k = record {
    first = k.first ∙ h.first;
    last = k.last ∙ h.last;
    top = k.top ∙ h.top;
    bottom = k.bottom ∙ h.bottom;
    own_curs = k.own_curs ∙ h.own_curs;
    peer_curss = k.peer_curss ∙ h.peer_curss;
    brk = k.brk ∙ h.brk;
  }

  pub SameRest-cell :
      (b : Buffer R) (h : Ptr → Option (Line R)) → SameRest b (record b { cell = h })
  SameRest-cell b h = record {
    first = refl;
    last = refl;
    top = refl;
    bottom = refl;
    own_curs = refl;
    peer_curss = refl;
    brk = refl;
  }

module _ {R : Type 0} ⦃rope : Rope R⦄ where
  -- What becomes of the line `m` at `q`: its text by `e`, its pointers by `f` and `g`.
  abbrev pub Becomes :
      (Ptr → Option (Line R))
      → (Ptr → List ℕ → List ℕ)
      → (Ptr → Ptr → Ptr)
      → (Ptr → Ptr → Ptr)
      → Ptr
      → Line R
      → Type 0
  Becomes h' e f g q m =
      (m' : Line R) × At h' q m'
      × (rope.text m'.str ≡ e q (rope.text m.str))
      × (m'.prev ≡ f q m.prev)
      × (m'.next ≡ g q m.next)

  pub record Rewired (h h' : Ptr → Option (Line R)) (e : Ptr → List ℕ → List ℕ)
      (f g : Ptr → Ptr → Ptr) : Type 0 where
    pub olds : (q : Ptr) (m : Line R) → At h q m → Becomes h' e f g q m
    pub back : (q : Ptr) (m : Line R) → At h' q m → Stored h q

  pub Rewired-trans :
      {h h' h'' : Ptr → Option (Line R)} {e e' : Ptr → List ℕ → List ℕ}
      {f f' g g' : Ptr → Ptr → Ptr}
      → Rewired h h' e f g
      → Rewired h' h'' e' f' g'
      → Rewired h h'' (λ q t. e' q (e q t)) (λ q x. f' q (f q x)) (λ q x. g' q (g q x))
  Rewired-trans {e' = e'} {f' = f'} {g' = g'} w w' = record {
    olds = λ q m a.
        let (n, an, te, pe, ne) = w.olds q m a in
        let (n', an', te', pe', ne') = w'.olds q n an in
        (n', an', te' ∙ ap (e' q) te, pe' ∙ ap (f' q) pe, ne' ∙ ap (g' q) ne);
    back = λ q m a. let (n, an) = w'.back q m a in w.back q n an;
  }

  -- The functions matter only at the lines that are there.
  pub Rewired-as :
      {h h' : Ptr → Option (Line R)} {e e' : Ptr → List ℕ → List ℕ} {f f' g g' : Ptr → Ptr → Ptr}
      → Rewired h h' e f g
      → ((q : Ptr) (m : Line R)
          → At h q m
          → (e q (rope.text m.str) ≡ e' q (rope.text m.str))
            × (f q m.prev ≡ f' q m.prev)
            × (g q m.next ≡ g' q m.next))
      → Rewired h h' e' f' g'
  Rewired-as w k = record {
    olds = λ q m a.
        let (n, an, te, pe, ne) = w.olds q m a in
        let (te', pe', ne') = k q m a in (n, an, te ∙ te', pe ∙ pe', ne ∙ ne');
    back = w.back;
  }

  pub Rewired-refl : (h : Ptr → Option (Line R)) → Rewired h h (λ q t. t) (λ q x. x) (λ q x. x)
  Rewired-refl h = record { olds = λ q m a. (m, a, refl, refl, refl); back = λ q m a. (m, a) }

  pub Marks-Rewired :
      {b b' : Buffer R} → Marks b b' → Rewired b.cell b'.cell (λ q t. t) (λ q x. x) (λ q x. x)
  Marks-Rewired k = record {
    olds =
        λ q m a. let (n, an, s) = Marks-At k a in (n, an, ap rope.text (sym s.1), sym s.2, sym s.3);
    back = λ q m a. let (n, an, _) = Marks-At (Marks-sym k) a in (n, an);
  }

  -- A line written over the one at `p`.
  pub write-Rewired :
      (h : Ptr → Option (Line R)) (p : Ptr) (l n : Line R) {e : Ptr → List ℕ → List ℕ}
      {f g : Ptr → Ptr → Ptr}
      → At h p l
      → ((q : Ptr) (m : Line R)
          → (q == p) ≡ false
          → At h q m
          → (rope.text m.str ≡ e q (rope.text m.str))
            × (m.prev ≡ f q m.prev)
            × (m.next ≡ g q m.next))
      → (rope.text n.str ≡ e p (rope.text l.str)) × (n.prev ≡ f p l.prev) × (n.next ≡ g p l.next)
      → Rewired h (write h p (some n)) e f g
  write-Rewired h p l n {e} {f} {g} a others (te, pe, ne) = record { olds = olds; back = back }
    where
      olds : (q : Ptr) (m : Line R) → At h q m → Becomes (write h p (some n)) e f g q m
      olds q m am = elim (Bool-cases (q == p)) [
        | inl z ↦
            let z' = ==-sound q p z in
            let same : l ≡ m = cc (a.holds, (subst (λ x. At h x m) z' am).holds) in
            subst (Becomes (write h p (some n)) e f g q) same (
              subst (λ x. Becomes (write h p (some n)) e f g x l) (sym z')
                (n, record { ne_null = a.ne_null; holds = rw (==-true p p refl) refl }, te, pe, ne))
        | inr z ↦
            let (te', pe', ne') = others q m z am in
            (m, record { ne_null = am.ne_null; holds = rw z am.holds }, te', pe', ne')
      ]

      back : (q : Ptr) (m : Line R) → At (write h p (some n)) q m → Stored h q
      back q m am = elim (Bool-cases (q == p)) [
        | inl z ↦ subst (Stored h) (sym (==-sound q p z)) (l, a)
        | inr z ↦ (m, record { ne_null = am.ne_null; holds = rw z at am.holds })
      ]

  -- A step that writes to lines.
  pub record Rewires (b b' : Buffer R) (e : Ptr → List ℕ → List ℕ) (f g : Ptr → Ptr → Ptr)
      : Type 0 where
    pub cells : Rewired b.cell b'.cell e f g
    pub rest : SameRest b b'

  pub Rewires-trans :
      {b c d : Buffer R} {e e' : Ptr → List ℕ → List ℕ} {f f' g g' : Ptr → Ptr → Ptr}
      → Rewires b c e f g
      → Rewires c d e' f' g'
      → Rewires b d (λ q t. e' q (e q t)) (λ q x. f' q (f q x)) (λ q x. g' q (g q x))
  Rewires-trans w w' = record {
    cells = Rewired-trans w.cells w'.cells;
    rest = SameRest-trans w.rest w'.rest;
  }

  pub Marked-Rewires :
      {b b' : Buffer R} → Marked b b' → Rewires b b' (λ q t. t) (λ q x. x) (λ q x. x)
  Marked-Rewires m = record {
    cells = Marks-Rewired m.marks;
    rest = record {
      first = m.marks.first;
      last = m.marks.last;
      top = m.top;
      bottom = m.bottom;
      own_curs = m.marks.own_curs;
      peer_curss = m.marks.peer_curss;
      brk = m.marks.brk;
    };
  }

  pub set_next-Rewires :
      {b : Buffer R} (p v : Ptr)
      → Stored b.cell p
      → Returns (λ _ b'. Rewires b b' (λ q t. t) (λ q x. x) (at_ptr p v)) (set_next p v b)
  unfolding set_next
  set_next-Rewires {b} p v (l, a) = rw (load-At b a) (
      returns (record {
        cells =
            write-Rewired b.cell p l (record l { next = v }) a (λ q m z am. (refl, refl, rw z refl))
              (refl, refl, rw (==-true p p refl) refl);
        rest = SameRest-cell b _;
      }))

  pub set_prev-Rewires :
      {b : Buffer R} (p v : Ptr)
      → Stored b.cell p
      → Returns (λ _ b'. Rewires b b' (λ q t. t) (at_ptr p v) (λ q x. x)) (set_prev p v b)
  unfolding set_prev
  set_prev-Rewires {b} p v (l, a) = rw (load-At b a) (
      returns (record {
        cells =
            write-Rewired b.cell p l (record l { prev = v }) a (λ q m z am. (refl, rw z refl, refl))
              (refl, rw (==-true p p refl) refl, refl);
        rest = SameRest-cell b _;
      }))

  pub set_str-Rewires :
      {b : Buffer R} (p : Ptr) (r : R)
      → Stored b.cell p
      → Returns
          (λ _ b'. Rewires b b' (at_ptr p (rope.text r)) (λ q x. x) (λ q x. x))
          (set_str p r b)
  unfolding set_str
  set_str-Rewires {b} p r (l, a) = rw (load-At b a) (
      returns (record {
        cells =
            write-Rewired b.cell p l (record l { str = r }) a (λ q m z am. (rw z refl, refl, refl))
              (rw (==-true p p refl) refl, refl, refl);
        rest = SameRest-cell b _;
      }))
