-- ===== src/Buffer/Created/Fresh.antt =====
-- buffer_new: the buffer that it makes.
use lprog_hw.Prelude.{
  ℕ, zero, suc, ◌+◌, ◌<◌, ◌≡◌, refl, sym, ap, ◌∙◌, subst, Bool, Bool-cases, inl, inr, true, false,
  ◌==◌, ==-true, arith, Option, none, some, List, [], ◌∷◌, get_elem?, replicate,
}
use lprog_hw.Rope.{Rope}
use lprog_hw.Buffer.State.{Ptr, null, Line, Cursor, Buffer, done, max_cursor_num, write}
use lprog_hw.Buffer.Window.{binit_onscreen_info}
use lprog_hw.Buffer.Cursors.{line_new, alloc_line, place_line, bline_find}
use lprog_hw.Buffer.Edit.{bcursor_new}
use lprog_hw.Buffer.File.{next_line, add_lines, init_lines, init_buffer, buffer_new}
use lprog_hw.Buffer.Returns.{Returns, returns, bind, mono, on_eq}
use lprog_hw.Buffer.Safe.{At, Stored, on_load, Marked, CursorFits, Safe}
use lprog_hw.Buffer.Document.{Document, find_id, bline_find_lem}
use lprog_hw.Buffer.Created.{InRow, Row-At, Row-Linked}
use lprog_hw.Buffer.Created.Lines.{fresh_line}
use lprog_hw.Buffer.Created.Adding.{Rows, IsHead, Marks-Rows, add_lines-Rows}
use lprog_hw.Buffer.Created.Marking.{binit_onscreen_info-Marked}

module _ {R : Type 0} ⦃rope : Rope R⦄ where
  -- After the first line of an empty store.
  first_row :
      (b : Buffer R) (l : Line R) (h : Ptr → Option (Line R))
      → ((p : Ptr) → h p ≡ none)
      → l.prev ≡ null
      → l.next ≡ null
      → l.id ≡ 0
      → l.str ≡ rope.new
      → (a : Ptr) → b.cell ≡ write h a (some l)
      → b.brk ≡ a + 1
      → Rows b a 1
  first_row b l h empty pr nx id str a e be =
      let new : b.cell a ≡ some l =
        ap (λ (f : Ptr → Option (Line R)). f a) e ∙ (rw (==-true a a refl) refl) in
      record {
        row = record { line = line new; only = only };
        brk = be;
        head = subst IsHead (sym new) (id, str);
      }
    where
      line :
          b.cell a ≡ some l
          → (i : ℕ) → i < 1
          → (m : Line R) × (b.cell (a + i) ≡ some m) × InRow a 1 i m
      line new zero lt =
          let z : a ≡ a + 0 = omega arith in (l, subst (λ q. b.cell q ≡ some l) z new, (pr, nx))
      line new (suc i) lt = absurd (omega arith)

      only : (q : Ptr) (m : Line R) → b.cell q ≡ some m → (i : ℕ) × (i < 1) × (q ≡ a + i)
      only q m f = elim (Bool-cases (q == a)) [
        | inl y ↦ (0, omega arith, ground arith)
        | inr y ↦
            let old : b.cell q ≡ none =
              ap (λ (f : Ptr → Option (Line R)). f q) e ∙ (rw y (empty q)) in
            cc (f, old)
      ]

  -- The lines of the screen: two at least.
  pub record Opened (a : Ptr) (n w : ℕ) (b : Buffer R) : Type 0 where
    pub rows : Rows b a (suc (suc n))
    pub first : b.first ≡ a
    pub last : b.last ≡ a
    pub top : b.top ≡ a
    pub bottom : b.bottom ≡ a + suc n
    pub width : b.width ≡ w

  init_lines-Opened :
      (b : Buffer R) (n : ℕ)
      → ((p : Ptr) → b.cell p ≡ none)
      → 0 < b.brk
      → b.line_id_cnt ≡ 0
      → Returns (λ _. Opened b.brk n b.width) (init_lines (suc (suc n)) b)
  unfolding init_lines next_line line_new alloc_line place_line
  init_lines-Opened b n empty start id =
      let a : Ptr = b.brk in
      let l : Line R = fresh_line b b.line_id_cnt null in
      let c : Buffer R = record b {
        line_id_cnt = b.line_id_cnt + 1;
        first = a;
        last = a;
        top = a;
        cell = write b.cell a (some l);
        brk = a + 1;
      } in
      let r : Rows c a 1 = first_row c l b.cell empty refl refl id refl a refl refl in
      let z : a + 0 ≡ a = omega arith in
      let e : suc n + 0 ≡ suc n = omega arith in
      subst (λ p. Returns (λ _. Opened a n b.width) (add_lines (suc n) p c)) z
        (mono (add_lines-Rows (suc n) c a 0 start r (λ v. absurd (omega (arith, v))))
          λ _ b' (r', bt, f, la, t, w). record {
            rows = subst (λ i. Rows b' a (suc i)) e r';
            first = f;
            last = la;
            top = t;
            bottom = bt ∙ ap (λ i. a + i) e;
            width = w;
          })

  Marked-Opened :
      {a : Ptr} {n w : ℕ} {b b' : Buffer R} → Marked b b' → Opened a n w b → Opened a n w b'
  Marked-Opened m o = record {
    rows = Marks-Rows m.marks o.rows;
    first = m.marks.first ∙ o.first;
    last = m.marks.last ∙ o.last;
    top = m.top ∙ o.top;
    bottom = m.bottom ∙ o.bottom;
    width = m.marks.width ∙ o.width;
  }

  module _ {a : Ptr} {n w : ℕ} {b : Buffer R} (o : Opened a n w b) (start : 0 < a) where
    first_line : (l : Line R) × At b.cell a l × (l.prev ≡ null) × (l.id ≡ 0) × (l.str ≡ rope.new)
    first_line =
        let (l, al, (pr, nx)) = Row-At o.rows.row start 0 (omega arith) in
        let z : a + 0 ≡ a = omega arith in
        let al' : At b.cell a l = subst (λ p. At b.cell p l) z al in
        let (i, s) = subst IsHead al'.holds o.rows.head in (l, al', pr, i, s)

    -- The document of the buffer is its first line.
    Opened-Document : Document b ((a, first_line.0) ∷ [])
    Opened-Document =
        let (l, al, pr, _, _) = first_line in
        record {
          lines = (o.first, al, sym o.last);
          first_prev = λ m am.
              let e : l ≡ m = cc (al.holds, am.holds, ap b.cell o.first) in
              subst (λ (x : Line R). x.prev ≡ null) e pr;
          fuel = omega (arith, o.rows.brk);
        }

    bline_find-first : bline_find 0 b ≡ done a b
    unfolding find_id
    bline_find-first =
        bline_find_lem b 0 ((a, first_line.0) ∷ []) (Row-Linked o.rows.row start) Opened-Document
        ∙ (rw (==-true 0 first_line.0.id (sym first_line.3)) refl)

    at_start : (p : Ptr) → p ≡ a → Stored b.cell p
    at_start p e = let (l, al, _, _, _) = first_line in (l, subst (λ q. At b.cell q l) (sym e) al)

    Opened-Safe :
        b.own_curs ≡ record { id = 0; own_line = a; pos = 0 }
        → b.peer_curss ≡ replicate max_cursor_num none
        → Safe b
    Opened-Safe e f = record {
      framed = record {
        linked = Row-Linked o.rows.row start;
        first = at_start b.first o.first;
        last = at_start b.last o.last;
        top = at_start b.top o.top;
        bottom =
            let (l, al, _) = Row-At o.rows.row start (suc n) (omega arith) in
            (l, subst (λ q. At b.cell q l) (sym o.bottom) al);
      };
      own_curs =
          let (l, al, _, _, _) = first_line in subst (CursorFits b) (sym e) (l, al, omega arith);
      peer_curss = λ i c g. absurd (
          no_cursor max_cursor_num i c
            (subst (λ (cs : List (Option Cursor)). get_elem? cs i ≡ some (some c)) f g));
    }
      where
        no_cursor :
            (k i : ℕ) (c : Cursor)
            → get_elem? (replicate {A = Option Cursor} k none) i ≡ some (some c)
            → ⊥
        no_cursor zero i c g = cc g
        no_cursor (suc k) zero c g = cc g
        no_cursor (suc k) (suc i) c g = no_cursor k i c g

  -- A safe buffer whose document is one line, the text `t`, with own_curs at `pos` in it.
  pub record Holds (w pos : ℕ) (t : List ℕ) (b : Buffer R) : Type 0 where
    pub safe : Safe b
    pub at : Ptr
    pub line : Line R
    pub document : Document b ((at, line) ∷ [])
    pub text : rope.text line.str ≡ t
    pub own_curs : b.own_curs ≡ record { id = 0; own_line = at; pos = pos }
    pub width : b.width ≡ w

  pub init_buffer-Holds :
      (b : Buffer R) (id ver n w : ℕ)
      → ((p : Ptr) → b.cell p ≡ none)
      → 0 < b.brk
      → Returns (λ _ b'. Holds w 0 [] b') (init_buffer id ver (suc (suc n)) w b)
  unfolding init_buffer bcursor_new
  init_buffer-Holds b id ver n w empty start =
      bind (init_lines-Opened begun n empty start refl) λ _ c o.
        let (l, al, _, _, _) = first_line o start in
        bind {P = λ _ d. d ≡ placed c}
          (on_eq _ (bline_find-first o start) (on_load c _ al (returns refl)))
          λ _ d e.
            subst
              (λ (d : Buffer R).
                Returns (λ _ b'. Holds w 0 [] b')
                  (binit_onscreen_info (record d { peer_curss = replicate max_cursor_num none })))
              (sym e)
              (mono
                (binit_onscreen_info-Marked b.brk (suc n) (ready c) start (ready_o c o).rows
                  o.first)
                λ _ b' m.
                  let o' = Marked-Opened m (ready_o c o) in
                  record {
                    safe = Opened-Safe o' start m.marks.own_curs m.marks.peer_curss;
                    at = b.brk;
                    line = (first_line o' start).0;
                    document = Opened-Document o' start;
                    text = ap rope.text (first_line o' start).4 ∙ rope.text-new;
                    own_curs = m.marks.own_curs;
                    width = m.marks.width ∙ o.width;
                  })
    where
      begun : Buffer R
      begun = record b {
        id = id;
        ver = ver;
        line_id_cnt = 0;
        height = suc (suc n);
        width = w;
        num_lines = suc (suc n);
      }

      placed : Buffer R → Buffer R
      placed c = record c { own_curs = record { id = 0; own_line = b.brk; pos = 0 } }

      ready : Buffer R → Buffer R
      ready c = record c {
        own_curs = record { id = 0; own_line = b.brk; pos = 0 };
        peer_curss = replicate max_cursor_num none;
      }

      ready_o : (c : Buffer R) → Opened b.brk n w c → Opened b.brk n w (ready c)
      ready_o c o = record {
        rows = record { row = o.rows.row; brk = o.rows.brk; head = o.rows.head };
        first = o.first;
        last = o.last;
        top = o.top;
        bottom = o.bottom;
        width = o.width;
      }

  -- The flags that are set at the end.
  pub Holds-mode :
      {w pos : ℕ} {t : List ℕ} {b : Buffer R} (u m : Bool)
      → Holds w pos t b
      → Holds w pos t (record b { ui = u; server_mode = m })
  Holds-mode u m k = record {
    safe = record {
      framed = record {
        linked = k.safe.framed.linked;
        first = k.safe.framed.first;
        last = k.safe.framed.last;
        top = k.safe.framed.top;
        bottom = k.safe.framed.bottom;
      };
      own_curs = k.safe.own_curs;
      peer_curss = k.safe.peer_curss;
    };
    at = k.at;
    line = k.line;
    document = record {
      lines = k.document.lines;
      first_prev = k.document.first_prev;
      fuel = k.document.fuel;
    };
    text = k.text;
    own_curs = k.own_curs;
    width = k.width;
  }

  -- buffer_new for a window of at least two lines, in a store without lines, ends; the buffer that it makes
  -- is safe, its document is one empty line, and own_curs stands in it.
  pub buffer_new-Holds :
      (raw : Buffer R) (id ver n w : ℕ) (ui : Bool)
      → ((p : Ptr) → raw.cell p ≡ none)
      → 0 < raw.brk
      → Returns (λ _. Holds w 0 []) (buffer_new id ver (suc (suc n)) w ui raw)
  unfolding buffer_new
  buffer_new-Holds raw id ver n w true empty start =
      bind (init_buffer-Holds raw id ver n w empty start) λ _ b r. returns (Holds-mode true false r)
  buffer_new-Holds raw id ver n w false empty start =
      bind (init_buffer-Holds raw id ver n w empty start) λ _ b r. returns (Holds-mode false true r)
