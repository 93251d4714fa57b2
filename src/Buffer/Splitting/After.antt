-- ===== src/Buffer/Splitting/After.antt =====
-- bcursor_insert_line with the cursor behind the start of its line: a line after it, with what stands
-- behind the cursor.
use lprog_hw.Prelude.{
  ℕ, ◌+◌, ◌≤◌, ◌<◌, ◌^◌, ◌≡◌, refl, sym, ◌∙◌, ap, subst, ◌≢◌, ◌==◌, ◌⊎◌, inl, inr, Bool-cases,
  ==-sound, ==-true, ==-false, none, some, List, [], if◌then◌else◌, Bool, true, false, arith,
  length, take, drop, length-take, get_elem?, get_elem?-set_ne, get_elem?-set_self,
  lt-length_of_get, length-drop,
}
use lprog_hw.Rope.{Rope}
use lprog_hw.Buffer.State.{
  Bres, update, down, Ptr, null, Line, Cursor, CursorRef, own, peer, Buffer, M, pure, load,
  load_cursor, store_cursor, ui_update_if, ◌>>=◌, ◌>>◌,
}
use lprog_hw.Buffer.Edit.{split_line, bcursor_move, trim_if_seen, insert_line_after}
use lprog_hw.Buffer.Returns.{Returns, bind, mono}
use lprog_hw.Buffer.Safe.{At, Stored, Moved, on_load, Safe}
use lprog_hw.Buffer.Safe.Peers.{
  Names, on_cursor, on_store, with_cursor, Safe-with, with_cursor-cell,
}
use lprog_hw.Buffer.Safe.Follow.{Kept, Kept-trans, Moved-Kept, finish_move}
use lprog_hw.Buffer.Safe.Named.{HasCursor, bcursor_move-Kept}
use lprog_hw.Buffer.Document.{Place, Document, eq_of_At, PadFits}
use lprog_hw.Buffer.Splitting.Rewired.{at_ptr, Rewires}
use lprog_hw.Buffer.Splitting.Linking.{Gap-after, Inserts-Stored, fresh-ne}
use lprog_hw.Buffer.Splitting.Lines.{joined}
use lprog_hw.Buffer.Splitting.Trimming.{Wide, trim_if_seen-Moved}
use lprog_hw.Buffer.Splitting.Made.{Made, line_new-Made}
use lprog_hw.Buffer.Splitting.Placed.{
  Inserts-Rewired, AllCursors, Placed, Placed-Safe, Placed-Wide, Placed-after,
}
use lprog_hw.Buffer.Splitting.Before.{Kept-At, Made-counted, Settled}
use lprog_hw.Buffer.Splitting.Cut.{NotBehind, cut, Names-rest, split_line-Rewires}

module _ {R : Type 0} where
  Moved-HasCursor : {b d : Buffer R} (id : ℕ) → Moved b d → HasCursor b id → HasCursor d id
  Moved-HasCursor id m (inl e) = inl (ap (λ (c : Cursor). c.id) m.marks.own_curs ∙ e)
  Moved-HasCursor id m (inr (k, c, g, e)) =
      inr (k, c, subst (λ cs. get_elem? cs k ≡ some (some c)) (sym m.marks.peer_curss) g, e)

  -- A cursor that goes elsewhere keeps its id.
  HasCursor-with :
      (b : Buffer R) (id : ℕ) (r : CursorRef) (c d : Cursor)
      → Names b r c
      → d.id ≡ c.id
      → HasCursor b id
      → HasCursor (with_cursor r d b) id
  HasCursor-with b id own c d n e (inl z) = inl (e ∙ ap (λ (c : Cursor). c.id) (sym n) ∙ z)
  HasCursor-with b id own c d n e (inr z) = inr z
  HasCursor-with b id (peer i) c d n e (inl z) = inl z
  HasCursor-with b id (peer i) c d n e (inr (k, o, g, z)) = inr (elim (Bool-cases (i == k)) [
    | inl y ↦
        let y' = ==-sound i k y in
        let same : c ≡ o =
          cc (n, subst (λ k. get_elem? b.peer_curss k ≡ some (some o)) (sym y') g) in
        (
          i,
          d,
          get_elem?-set_self b.peer_curss i (some d) (lt-length_of_get b.peer_curss i n),
          e ∙ ap (λ (c : Cursor). c.id) same ∙ z,
        )
    | inr y ↦ (k, o, get_elem?-set_ne b.peer_curss (some d) (λ w. cc (==-true i k w, y)) ∙ g, z)
  ])

  Wide-with : (r : CursorRef) (c : Cursor) {b : Buffer R} → Wide b → Wide (with_cursor r c b)
  Wide-with own c v = record { below_top = v.below_top; above_bottom = v.above_bottom }
  Wide-with (peer i) c v = record { below_top = v.below_top; above_bottom = v.above_bottom }

  Document-with :
      (r : CursorRef) (c : Cursor) {b : Buffer R} (xs : List (Place R))
      → Document b xs
      → Document (with_cursor r c b) xs
  Document-with own c xs d = record { lines = d.lines; first_prev = d.first_prev; fuel = d.fuel }
  Document-with (peer i) c xs d = record {
    lines = d.lines;
    first_prev = d.first_prev;
    fuel = d.fuel;
  }

  At-with :
      (r : CursorRef) (c : Cursor) (b : Buffer R) {p : Ptr} {l : Line R}
      → At b.cell p l
      → At (with_cursor r c b).cell p l
  At-with own c b a = a
  At-with (peer i) c b a = a

module _ {R : Type 0} ⦃rope : Rope R⦄ where
  -- What insert_line_after does when the line is cut.
  settle_after : ℕ → Ptr → M R Bres
  settle_after id ll = do
    trim_if_seen ll
    bcursor_move id down
    new ← load ll
    ui_update_if new.on_screen
    pure update

  settle_after-Kept :
      {b : Buffer R} (id : ℕ) (p : Ptr) {l : Line R}
      → Safe b
      → Wide b
      → At b.cell p l
      → HasCursor b id
      → Returns (λ _. Kept b) (settle_after id p b)
  unfolding settle_after
  settle_after-Kept {b} id p s v a has = bind (trim_if_seen-Moved s.framed v a) λ _ c m.
      let k = Moved-Kept s m in
      bind (bcursor_move-Kept c id down k.safe (Moved-HasCursor id m has)) λ _ d k'.
        let all = Kept-trans k k' in
        let (new, an) = Kept-At all a in on_load d _ an (finish_move new.on_screen all)

  -- The buffer with the new line, which becomes the last line if it stands behind that.
  Made-Placed :
      {b c : Buffer R} {p q : Ptr} (l : Line R) (t : Bool)
      → (q == b.last) ≡ t
      → Made b c p q l.next
      → Placed b
          (if t then record c { last = p } else c)
          p
          q
          l.next
          []
          (λ q t. t)
          b.first
          (if q == b.last then p else b.last)
  Made-Placed l true z m = record {
    inserts = m.inserts;
    first = m.rest.first;
    last = rw z refl;
    top = m.rest.top;
    bottom = m.rest.bottom;
    own_curs = m.rest.own_curs;
    peer_curss = m.rest.peer_curss;
    brk = m.rest.brk;
  }
  Made-Placed l false z m = record {
    inserts = m.inserts;
    first = m.rest.first;
    last = rw z m.rest.last;
    top = m.rest.top;
    bottom = m.rest.bottom;
    own_curs = m.rest.own_curs;
    peer_curss = m.rest.peer_curss;
    brk = m.rest.brk;
  }

  -- The same buffer, with the line `q` cut.
  Placed-cut :
      {b d f : Buffer R} {p q nn start end : Ptr} (t : List ℕ) (pos : ℕ)
      → Placed b d p q nn [] (λ q t. t) start end
      → Rewires d f (cut p q pos t) (λ q x. x) (λ q x. x)
      → Placed b f p q nn (drop pos t) (at_ptr q (take pos t)) start end
  Placed-cut {b} {p = p} {q = q} t pos w k = record {
    inserts =
        Inserts-Rewired w.inserts k.cells (rw (==-true p p refl) refl)
          (λ s m a. rw (==-false s p (fresh-ne w.inserts.fresh a)) refl);
    first = k.rest.first ∙ w.first;
    last = k.rest.last ∙ w.last;
    top = k.rest.top ∙ w.top;
    bottom = k.rest.bottom ∙ w.bottom;
    own_curs = k.rest.own_curs ∙ w.own_curs;
    peer_curss = k.rest.peer_curss ∙ w.peer_curss;
    brk = k.rest.brk ∙ w.brk;
  }

  Names-Placed :
      {b d : Buffer R} {p pp nn start end : Ptr} {u : List ℕ} {e : Ptr → List ℕ → List ℕ}
      (r : CursorRef) (c : Cursor)
      → Placed b d p pp nn u e start end
      → Names b r c
      → Names d r c
  Names-Placed own c w n = w.own_curs ∙ n
  Names-Placed (peer i) c w n = subst (λ cs. get_elem? cs i ≡ some (some c)) (sym w.peer_curss) n

  AllCursors-Placed :
      {b d : Buffer R} {p pp nn start end : Ptr} {u : List ℕ} {e : Ptr → List ℕ → List ℕ}
      (P : Cursor → Type 0)
      → Placed b d p pp nn u e start end
      → AllCursors b P
      → AllCursors d P
  AllCursors-Placed P w (o, peers) = (
    subst P (sym w.own_curs) o,
    λ i c e. peers i c (subst (λ cs. get_elem? cs i ≡ some (some c)) w.peer_curss e),
  )

  module _ {b : Buffer R} (c : Cursor) (l : Line R) (s : Safe b) (a : At b.cell c.own_line l) where
    -- A cursor that does not stand behind the cut is still within its line.
    fits_cut :
        (d : Cursor)
        → NotBehind c d
        → (m : Line R) → At b.cell d.own_line m
        → d.pos ≤ length (rope.text m.str)
        → d.pos
          ≤ length (at_ptr c.own_line (take c.pos (rope.text l.str)) d.own_line (rope.text m.str))
    fits_cut d h m am le = elim (Bool-cases (d.own_line == c.own_line)) [
      | inl z ↦
          let e = ==-sound d.own_line c.own_line z in
          let same : rope.text m.str ≡ rope.text l.str =
            ap (λ (l : Line R). rope.text l.str) (eq_of_At (subst (λ q. At b.cell q m) e am) a) in
          rw z (omega (arith, h e, length-take c.pos (rope.text l.str), ap (λ t. length t) same))
      | inr z ↦ rw z le
    ]

    -- From the cut to the end of insert_line_after.
    cut_after :
        {f : Buffer R} {p : Ptr} (id : ℕ) (r : CursorRef) (xs : List (Place R))
        → Document b xs
        → PadFits b.cell
        → Wide b
        → Names b r c
        → Names f r c
        → HasCursor b id
        → AllCursors b (NotBehind c)
        → Placed b f p c.own_line l.next
            (drop c.pos (rope.text l.str))
            (at_ptr c.own_line (take c.pos (rope.text l.str)))
            b.first
            (if c.own_line == b.last then p else b.last)
        → Returns
            (λ _.
              Settled b c.own_line
                (joined (take c.pos (rope.text l.str)) (drop c.pos (rope.text l.str)))
                xs)
            (settle_after id p (with_cursor r (record c { pos = 0 }) f))
    cut_after {f} {p} id r xs doc fits v n nf has quiet w =
        let g = Gap-after s.framed.linked a in
        let (new, an, _, _, _) = w.inserts.new in
        let (own_line, ao, _, _, _) = w.inserts.olds c.own_line l a in
        let c0 : Cursor = record c { pos = 0 } in
        let safe =
          Placed-Safe w g s (Inserts-Stored w.inserts s.framed.first)
            (ends (Bool-cases (c.own_line == b.last)) (new, an))
            (fits_cut b.own_curs quiet.0, λ i d e. fits_cut d (quiet.1 i d e)) in
        let moved = Safe-with r c0 safe (own_line, ao, omega arith) in
        let t : List ℕ = rope.text l.str in
        let (ys, doc', bytes, fits') =
          Placed-after _ _ xs w a s.framed doc fits
            (omega (arith, length-take c.pos t, fits c.own_line l a))
            (omega (arith, length-drop c.pos t, fits c.own_line l a)) in
        mono
          (settle_after-Kept id p moved (Wide-with r c0 (Placed-Wide w g s.framed v))
            (At-with r c0 f an) (HasCursor-with f id r c c0 nf refl (kept_id w has)))
          λ _ e k. (
            with_cursor r c0 f,
            k,
            (
              ys,
              Document-with r c0 ys doc',
              bytes,
              subst PadFits (sym (with_cursor-cell r c0 f)) fits',
            ),
          )
      where
        kept_id :
            {u : List ℕ} {e : Ptr → List ℕ → List ℕ} {start end : Ptr}
            → Placed b f p c.own_line l.next u e start end
            → HasCursor b id
            → HasCursor f id
        kept_id w (inl z) = inl (ap (λ (c : Cursor). c.id) w.own_curs ∙ z)
        kept_id w (inr (k, o, y, z)) =
            inr (k, o, subst (λ cs. get_elem? cs k ≡ some (some o)) (sym w.peer_curss) y, z)

        ends :
            ((c.own_line == b.last) ≡ true) ⊎ ((c.own_line == b.last) ≡ false)
            → Stored f.cell p
            → Stored f.cell (if c.own_line == b.last then p else b.last)
        ends (inl z) st = rw z st
        ends (inr z) st = rw z (Inserts-Stored w.inserts s.framed.last)

  pub insert_line_after-Settled :
      (b : Buffer R) (id : ℕ) (r : CursorRef) (c : Cursor) (l : Line R) (xs : List (Place R))
      → Safe b
      → Document b xs
      → PadFits b.cell
      → Wide b
      → b.brk ≢ null
      → b.cell b.brk ≡ none
      → Names b r c
      → At b.cell c.own_line l
      → HasCursor b id
      → AllCursors b (NotBehind c)
      → c.pos ≤ length (rope.text l.str)
      → length (rope.text l.str) < 2 ^ 64
      → Returns
          (λ _.
            Settled b c.own_line
              (joined (take c.pos (rope.text l.str)) (drop c.pos (rope.text l.str)))
              xs)
          (insert_line_after id r b)
  unfolding insert_line_after settle_after
  insert_line_after-Settled b id r c l xs s doc fits v ne fresh n a has quiet le small =
      on_cursor b r c _ n (
        on_load b _ a (
          bind
            (line_new-Made (record b { line_id_cnt = b.line_id_cnt + 1 }) b.line_id_cnt c.own_line
              l.next (Gap-after s.framed.linked a) ne fresh)
            λ p d m. elim (Bool-cases (c.own_line == b.last)) [
              | inl z ↦ rw z (cut_and_settle true z m)
              | inr z ↦ rw z (cut_and_settle false z m)
            ]))
    where
      Goal : Bres → Buffer R → Type 0
      Goal _ =
          Settled b c.own_line
            (joined (take c.pos (rope.text l.str)) (drop c.pos (rope.text l.str))) xs

      cut_and_settle :
          {p : Ptr} {d : Buffer R} (t : Bool)
          → (c.own_line == b.last) ≡ t
          → Made (record b { line_id_cnt = b.line_id_cnt + 1 }) d p c.own_line l.next
          → Returns Goal (
              (do
                split_line r p
                c' ← load_cursor r
                store_cursor r (record c' { pos = 0 })
                settle_after id p)
                (if t then record d { last = p } else d))
      cut_and_settle {p} {d} t z m =
          let w = Made-Placed l t z (Made-counted m) in
          let (old, ao, to, _, _) = w.inserts.olds c.own_line l a in
          let (new, an, tn, _, _) = w.inserts.new in
          let named = Names-Placed r c w n in
          bind
            (split_line-Rewires _ r c p old new named ao an tn (fresh-ne w.inserts.fresh a)
              (subst (λ t. c.pos ≤ length t) (sym to) le)
              (subst (λ t. length t < 2 ^ 64) (sym to) small)
              (AllCursors-Placed (NotBehind c) w quiet))
            λ _ f k.
              let w' = Placed-cut (rope.text old.str) c.pos w k in
              let nf = Names-rest r c k.rest named in
              on_cursor f r c _ nf (
                on_store f r _ _ (
                  cut_after c l s a id r xs doc fits v n nf has quiet (
                    subst
                      (λ t.
                        Placed b f p c.own_line l.next (drop c.pos t)
                          (at_ptr c.own_line (take c.pos t)) b.first
                          (if c.own_line == b.last then p else b.last))
                      to w')))
