-- ===== src/Buffer/Merging/Deleting.antt =====
-- buffer_deletel and buffer_extend: a line without cursors is unlinked and freed.
use lprog_hw.Prelude.{
  ℕ, ◌≡◌, refl, sym, ◌∙◌, subst, ◌≢◌, ◌==◌, inl, inr, Bool-cases, ==-sound, ==-true, ==-false,
  Option, none, some, List, if◌then◌else◌, Bool, true, false, get_elem?,
}
use lprog_hw.Rope.{Rope}
use lprog_hw.Buffer.State.{
  Ptr, null, Line, Cursor, Buffer, M, skip, state, write, ◌>>=◌, ◌>>◌, max_cursor_num, up, update,
  pure,
}
use lprog_hw.Buffer.Window.{buffer_extend}
use lprog_hw.Buffer.Cursors.{line_free}
use lprog_hw.Buffer.Edit.{bcursor_move, for_peers, buffer_deletel}
use lprog_hw.Buffer.Returns.{Returns, returns, bind, mono}
use lprog_hw.Buffer.Safe.{At, Stored, on_load, Framed, Moved, Moved-refl, Moved-trans, Marks-At}
use lprog_hw.Buffer.Splitting.Rewired.{
  at_ptr, Rewired, Marks-Rewired, Rewires, Rewires-trans, SameRest,
}
use lprog_hw.Buffer.Splitting.Made.{link_next, link_prev}
use lprog_hw.Buffer.Splitting.Placed.{AllCursors}
use lprog_hw.Buffer.Splitting.Cut.{for_peers-skip}
use lprog_hw.Buffer.Merging.Removed.{Removes, Rewired-Removes}
use lprog_hw.Buffer.Merging.Extending.{Slack, buffer_extend-Moved, leave_top, leave_bottom}

module _ {R : Type 0} where
  -- All but the lines is as before.
  pub line_free-rest :
      {b c : Buffer R} (p : Ptr)
      → SameRest b c
      → SameRest b (record c { cell = write c.cell p none })
  line_free-rest p r = record {
    first = r.first;
    last = r.last;
    top = r.top;
    bottom = r.bottom;
    own_curs = r.own_curs;
    peer_curss = r.peer_curss;
    brk = r.brk;
  }

module _ {R : Type 0} ⦃rope : Rope R⦄ where
  freed-Removes :
      {h h' : Ptr → Option (Line R)} (p pp nn : Ptr)
      → Rewired h h' (λ q t. t) (at_ptr nn pp) (at_ptr pp nn)
      → Removes h (write h' p none) p pp nn (λ q t. t)
  freed-Removes {h} {h'} p pp nn w = record {
    olds = λ q m ne a.
        let (n, an, tn, pn, en) = w.olds q m a in
        (n, record { ne_null = an.ne_null; holds = rw (==-false q p ne) an.holds }, tn, pn, en);
    back = λ q m a. elim (Bool-cases (q == p)) [
      | inl z ↦ let gone : none ≡ some m = rw z at a.holds in cc gone
      | inr z ↦ (
        λ y. cc (==-true q p y, z),
        w.back q m (record { ne_null = a.ne_null; holds = rw z at a.holds }),
      )
    ];
  }

  -- line_free of a line with neighbours.
  pub line_free-Removes :
      {b : Buffer R} {p : Ptr} {l : Line R}
      → At b.cell p l
      → (l.prev ≢ null → Stored b.cell l.prev)
      → (l.next ≢ null → Stored b.cell l.next)
      → Returns
          (λ _ d. Removes b.cell d.cell p l.prev l.next (λ q t. t) × SameRest b d)
          (line_free p b)
  unfolding line_free
  line_free-Removes {b} {p} {l} a sp sn = on_load b _ a (
      bind (link_next l.prev l.next sp) λ _ c w.
        bind (link_prev l.next l.prev (λ z. kept w (sn z))) λ _ d w'.
          let all = Rewires-trans w w' in
          returns (freed-Removes p l.prev l.next all.cells, line_free-rest p all.rest))
    where
      kept :
          {c d : Buffer R} {e : Ptr → List ℕ → List ℕ} {f g : Ptr → Ptr → Ptr} {q : Ptr}
          → Rewires c d e f g
          → Stored c.cell q
          → Stored d.cell q
      kept {q = q} w (m, am) = let (n, an, _, _, _) = w.cells.olds q m am in (n, an)

  -- After buffer_deletel: the line is gone, and the buffer does not point to it.
  pub record Deleted (b d : Buffer R) (q pp nn : Ptr) : Type 0 where
    pub removes : Removes b.cell d.cell q pp nn (λ q t. t)
    pub first : d.first ≡ b.first
    pub last : d.last ≡ (if b.last == q then pp else b.last)
    pub top : Stored d.cell d.top
    pub bottom : Stored d.cell d.bottom
    pub own_curs : d.own_curs ≡ b.own_curs
    pub peer_curss : d.peer_curss ≡ b.peer_curss
    pub brk : d.brk ≡ b.brk

  -- Before line_free: the window is elsewhere.
  record Ready (b d : Buffer R) (q pp : Ptr) : Type 0 where
    cells : Rewired b.cell d.cell (λ q t. t) (λ q x. x) (λ q x. x)
    first : d.first ≡ b.first
    last : d.last ≡ (if b.last == q then pp else b.last)
    top : Stored d.cell d.top
    bottom : Stored d.cell d.bottom
    top_ne : d.top ≢ q
    bottom_ne : d.bottom ≢ q
    own_curs : d.own_curs ≡ b.own_curs
    peer_curss : d.peer_curss ≡ b.peer_curss
    brk : d.brk ≡ b.brk

  module _ {b : Buffer R} {q : Ptr} (l : Line R) (f : Framed b) (a : At b.cell q l)
      (has_prev : l.prev ≢ null) (has_next : l.next ≢ null) (pp_ne : l.prev ≢ q)
      (nn_ne : l.next ≢ q) (slack : Slack b q) (nobody : AllCursors b (λ c. c.own_line ≢ q)) where
    Ready-Deleted :
        {d : Buffer R}
        → Ready b d q l.prev
        → Returns (λ _ e. Deleted b e q l.prev l.next) (line_free q d)
    Ready-Deleted {d} w =
        let (m, am, _, pm, nm) = w.cells.olds q l a in
        let (x, ax, _) = f.linked.back q l a has_prev in
        let (y, ay, _) = f.linked.forth q l a has_next in
        let (x', ax', _, _, _) = w.cells.olds l.prev x ax in
        let (y', ay', _, _, _) = w.cells.olds l.next y ay in
        mono
          (line_free-Removes am (λ _. subst (Stored d.cell) (sym pm) (x', ax'))
            (λ _. subst (Stored d.cell) (sym nm) (y', ay')))
          λ _ e (r, rest).
            let r' =
              subst (λ n. Removes d.cell e.cell q l.prev n (λ q t. t)) nm
                (subst (λ p. Removes d.cell e.cell q p m.next (λ q t. t)) pm r) in
            record {
              removes = Rewired-Removes w.cells r';
              first = rest.first ∙ w.first;
              last = rest.last ∙ w.last;
              top = subst (Stored e.cell) (sym rest.top) (left e r' w.top_ne w.top);
              bottom = subst (Stored e.cell) (sym rest.bottom) (left e r' w.bottom_ne w.bottom);
              own_curs = rest.own_curs ∙ w.own_curs;
              peer_curss = rest.peer_curss ∙ w.peer_curss;
              brk = rest.brk ∙ w.brk;
            }
      where
        left :
            (e : Buffer R) {s : Ptr}
            → Removes d.cell e.cell q l.prev l.next (λ q t. t)
            → s ≢ q
            → Stored d.cell s
            → Stored e.cell s
        left e {s} r ne (n, an) = let (k, ak, _, _, _) = r.olds s n ne an in (k, ak)

    extend_if :
        (t : Bool) → Returns (λ _. Moved b) ((if t then (do buffer_extend q; skip) else skip) b)
    extend_if true = bind (buffer_extend-Moved f a slack) λ _ c k. returns k
    extend_if false = returns (Moved-refl f)

    abbrev move_up_at : ℕ → Cursor → M R (Unit {0})
    move_up_at i d = if d.own_line == q then (do bcursor_move d.id up; skip) else skip

    -- No cursor is in the line.
    nobody_moves :
        {d : Buffer R}
        → Ready b d q l.prev
        → Returns
            (λ _ e. e ≡ d)
            ((do
              d ← state
              if d.own_curs.own_line == q then (do bcursor_move d.own_curs.id up; skip) else skip
              for_peers max_cursor_num 0 move_up_at)
              d)
    nobody_moves {d} w =
        rw
          (
            ==-false d.own_curs.own_line q
                (subst (λ (c : Cursor). c.own_line ≢ q) (sym w.own_curs) nobody.0),
            for_peers-skip d move_up_at
                (λ i c e.
                  rw
                    (==-false c.own_line q
                      (nobody.1 i c (subst (λ cs. get_elem? cs i ≡ some (some c)) w.peer_curss e)))
                    refl)
                max_cursor_num 0,
          )
          (returns refl)

    Moved-Ready :
        {d : Buffer R} (t : Bool)
        → (q == b.last) ≡ t
        → Moved b d
        → d.top ≢ q
        → d.bottom ≢ q
        → Ready b (if t then record d { last = l.prev } else d) q l.prev
    Moved-Ready true z k nt nb = record {
      cells = Marks-Rewired k.marks;
      first = k.marks.first;
      last = rw (==-true b.last q (sym (==-sound _ _ z))) refl;
      top = k.framed.top;
      bottom = k.framed.bottom;
      top_ne = nt;
      bottom_ne = nb;
      own_curs = k.marks.own_curs;
      peer_curss = k.marks.peer_curss;
      brk = k.marks.brk;
    }
    Moved-Ready false z k nt nb = record {
      cells = Marks-Rewired k.marks;
      first = k.marks.first;
      last = k.marks.last ∙ rw (==-false b.last q (λ y. cc (==-true q b.last (sym y), z))) refl;
      top = k.framed.top;
      bottom = k.framed.bottom;
      top_ne = nt;
      bottom_ne = nb;
      own_curs = k.marks.own_curs;
      peer_curss = k.marks.peer_curss;
      brk = k.marks.brk;
    }

    Stored-marked :
        {d : Buffer R} {s : Ptr} {m : Line R} → Moved b d → At b.cell s m → Stored d.cell s
    Stored-marked k am = let (n, an, _) = Marks-At k.marks am in (n, an)

    pub buffer_deletel-Deleted : Returns (λ _ d. Deleted b d q l.prev l.next) (buffer_deletel q b)
    unfolding buffer_deletel
    buffer_deletel-Deleted =
        let (x, ax, _) = f.linked.back q l a has_prev in
        let (y, ay, _) = f.linked.forth q l a has_next in
        on_load b _ a (
          bind (extend_if l.on_screen) λ _ c k.
            bind (leave_top q l.prev k.framed (Stored-marked k ax) pp_ne) λ _ d (k2, nt, _).
              let kd = Moved-trans k k2 in
              bind (leave_bottom q l.next kd.framed (Stored-marked kd ay) nn_ne)
                λ _ e (k3, nb, top).
                  let all = Moved-trans kd k3 in
                  elim (Bool-cases (q == e.last)) [
                    | inl z ↦ rw z (finish e true z all (λ v. nt (sym top ∙ v)) nb)
                    | inr z ↦ rw z (finish e false z all (λ v. nt (sym top ∙ v)) nb)
                  ])
      where
        finish :
            (e : Buffer R) (t : Bool)
            → (q == e.last) ≡ t
            → Moved b e
            → e.top ≢ q
            → e.bottom ≢ q
            → Returns
                (λ _ d. Deleted b d q l.prev l.next)
                ((do
                  if l.prev == null then skip else do
                    d ← state
                    if d.own_curs.own_line == q
                        then (do bcursor_move d.own_curs.id up; skip)
                        else skip
                    for_peers max_cursor_num 0 move_up_at
                  line_free q
                  pure update)
                  (if t then record e { last = l.prev } else e))
        finish e t z k nt nb =
            let w = Moved-Ready t (subst (λ p. (q == p) ≡ t) k.marks.last z) k nt nb in
            rw (==-false l.prev null has_prev) (
              bind (nobody_moves w) λ _ g same.
                bind (Ready-Deleted (subst (λ g. Ready b g q l.prev) (sym same) w))
                  λ _ h del. returns del)
