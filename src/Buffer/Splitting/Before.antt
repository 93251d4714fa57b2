-- ===== src/Buffer/Splitting/Before.antt =====
-- bcursor_insert_line with the cursor at the start of its line: an empty line before it.
use lprog_hw.Prelude.{
  ℕ, ◌+◌, ◌≡◌, refl, sym, ◌≢◌, ◌==◌, ◌&&◌, not, ◌⊎◌, inl, inr, Bool-cases, ==-sound, ==-true,
  ==-false, none, List, [], if◌then◌else◌, Bool, true, false, arith,
}
use lprog_hw.Rope.{Rope}
use lprog_hw.Buffer.State.{
  Bres, update, up, Ptr, null, Line, Cursor, CursorRef, own, same_ref, Buffer, M, pure, skip, state,
  load, ui_update_if, ◌>>=◌, ◌>>◌,
}
use lprog_hw.Buffer.Window.{buffer_scroll}
use lprog_hw.Buffer.Edit.{bcursor_move, trim_if_seen, insert_line_before}
use lprog_hw.Buffer.Returns.{Returns, returns, bind, mono}
use lprog_hw.Buffer.Safe.{At, Stored, Moved-refl, Moved-trans, on_load, Safe}
use lprog_hw.Buffer.Safe.Peers.{Names, on_cursor}
use lprog_hw.Buffer.Safe.Follow.{Kept, Kept-trans, Moved-Kept, scroll_if, finish_move}
use lprog_hw.Buffer.Safe.Named.{bcursor_move-Kept}
use lprog_hw.Buffer.Document.{Place, Document, PadFits}
use lprog_hw.Buffer.Document.Moves.{Like-At}
use lprog_hw.Buffer.Splitting.Linking.{Gap-before, Inserts-Stored}
use lprog_hw.Buffer.Splitting.Lines.{joined}
use lprog_hw.Buffer.Splitting.Trimming.{Wide, trim_if_seen-Moved}
use lprog_hw.Buffer.Splitting.Made.{Made, line_new-Made}
use lprog_hw.Buffer.Splitting.Placed.{Placed, Placed-Safe, Placed-Wide, Placed-before, SavedWith}

pub swapped : (p q : Ptr) (t : Bool) → (p == q) ≡ t → (q == p) ≡ t
swapped p q true z = ==-true q p (sym (==-sound p q z))
swapped p q false z = ==-false q p (λ y. cc (==-true p q (sym y), z))

module _ {R : Type 0} ⦃rope : Rope R⦄ where
  -- The worker's own cursor is kept in the first line.
  up_if :
      {b : Buffer R} (t : Bool)
      → Safe b
      → Returns (λ _. Kept b) ((if t then (do bcursor_move b.own_curs.id up; skip) else skip) b)
  up_if {b} true s = bind (bcursor_move-Kept b b.own_curs.id up s (inl refl)) λ _ c k. returns k
  up_if false s = returns (Moved-Kept s (Moved-refl s.framed))

  pub Kept-At : {b c : Buffer R} {p : Ptr} {l : Line R} → Kept b c → At b.cell p l → Stored c.cell p
  Kept-At k a = let (m, am, _) = Like-At k.cells a in (m, am)

  -- What insert_line_before does when the line is there.
  settle_before : CursorRef → Ptr → M R Bres
  settle_before r ll = do
    trim_if_seen ll
    if same_ref r own then buffer_scroll up else skip
    b ← state
    if b.server_mode && not (b.own_curs.own_line == b.first)
        then (do bcursor_move b.own_curs.id up; skip)
        else skip
    new ← load ll
    ui_update_if new.on_screen
    pure update

  settle_before-Kept :
      {b : Buffer R} (r : CursorRef) (p : Ptr) {l : Line R}
      → Safe b
      → Wide b
      → At b.cell p l
      → Returns (λ _. Kept b) (settle_before r p b)
  unfolding settle_before
  settle_before-Kept {b} r p s v a = bind (trim_if_seen-Moved s.framed v a) λ _ c m.
      bind (scroll_if (same_ref r own) up m.framed) λ _ d n.
        let k = Moved-Kept s (Moved-trans m n) in
        bind (up_if (d.server_mode && not (d.own_curs.own_line == d.first)) k.safe) λ _ e k'.
          let all = Kept-trans k k' in
          let (new, an) = Kept-At all a in on_load e _ an (finish_move new.on_screen all)

  -- The count of ids does not matter here.
  pub Made-counted :
      {b c : Buffer R} {n : ℕ} {p pp nn : Ptr}
      → Made (record b { line_id_cnt = n }) c p pp nn
      → Made b c p pp nn
  Made-counted m = record {
    inserts = m.inserts;
    rest = record {
      first = m.rest.first;
      last = m.rest.last;
      top = m.rest.top;
      bottom = m.rest.bottom;
      own_curs = m.rest.own_curs;
      peer_curss = m.rest.peer_curss;
      brk = m.rest.brk;
    };
  }

  -- The buffer with the new line, which becomes the first line if it stands before that.
  Made-Placed :
      {b c : Buffer R} {p q : Ptr} (l : Line R) (t : Bool)
      → (b.first == q) ≡ t
      → Made b c p l.prev q
      → Placed b
          (if t then record c { first = p } else c)
          p
          l.prev
          q
          []
          (λ q t. t)
          (if b.first == q then p else b.first)
          b.last
  Made-Placed l true z m = record {
    inserts = m.inserts;
    first = rw z refl;
    last = m.rest.last;
    top = m.rest.top;
    bottom = m.rest.bottom;
    own_curs = m.rest.own_curs;
    peer_curss = m.rest.peer_curss;
    brk = m.rest.brk;
  }
  Made-Placed l false z m = record {
    inserts = m.inserts;
    first = rw z m.rest.first;
    last = m.rest.last;
    top = m.rest.top;
    bottom = m.rest.bottom;
    own_curs = m.rest.own_curs;
    peer_curss = m.rest.peer_curss;
    brk = m.rest.brk;
  }

  -- After the line was put in, and the window and own_curs moved, the buffer is what `d` was.
  abbrev pub Settled : Buffer R → Ptr → List ℕ → List (Place R) → Buffer R → Type 0
  Settled b q t xs b' = (d : Buffer R) × Kept d b' × SavedWith d q t xs

  -- From the line in its place to the end of insert_line_before.
  Placed-settle_before :
      {b d : Buffer R} {p q : Ptr} {l : Line R} (r : CursorRef) (xs : List (Place R))
      → Safe b
      → Document b xs
      → PadFits b.cell
      → Wide b
      → At b.cell q l
      → Placed b d p l.prev q [] (λ q t. t) (if b.first == q then p else b.first) b.last
      → Returns (λ _. Settled b q (joined [] (rope.text l.str)) xs) (settle_before r p d)
  Placed-settle_before {b} {d} {p} {q} {l} r xs s doc fits v a w =
      let g = Gap-before s.framed.linked a in
      let (new, an, _, _, _) = w.inserts.new in
      let safe =
        Placed-Safe w g s (starts (Bool-cases (b.first == q)) (new, an))
          (Inserts-Stored w.inserts s.framed.last) ((λ l a h. h), λ i c e l a h. h) in
      mono (settle_before-Kept r p safe (Placed-Wide w g s.framed v) an)
        λ _ e k. (d, k, Placed-before [] xs w a s.framed doc fits (omega arith))
    where
      starts :
          ((b.first == q) ≡ true) ⊎ ((b.first == q) ≡ false)
          → Stored d.cell p
          → Stored d.cell (if b.first == q then p else b.first)
      starts (inl z) st = rw z st
      starts (inr z) st = rw z (Inserts-Stored w.inserts s.framed.first)

  pub insert_line_before-Settled :
      (b : Buffer R) (r : CursorRef) (c : Cursor) (l : Line R) (xs : List (Place R))
      → Safe b
      → Document b xs
      → PadFits b.cell
      → Wide b
      → b.brk ≢ null
      → b.cell b.brk ≡ none
      → Names b r c
      → At b.cell c.own_line l
      → Returns
          (λ _. Settled b c.own_line (joined [] (rope.text l.str)) xs)
          (insert_line_before r b)
  unfolding insert_line_before settle_before
  insert_line_before-Settled b r c l xs s doc fits v ne fresh n a = on_cursor b r c _ n (
      on_load b _ a (
        bind
          (line_new-Made (record b { line_id_cnt = b.line_id_cnt + 1 }) b.line_id_cnt l.prev
            c.own_line (Gap-before s.framed.linked a) ne fresh)
          λ p d m. elim (Bool-cases (c.own_line == b.first)) [
            | inl z ↦ rw z (
                Placed-settle_before r xs s doc fits v a
                  (Made-Placed l true (swapped _ _ true z) (Made-counted m)))
            | inr z ↦ rw z (
                Placed-settle_before r xs s doc fits v a
                  (Made-Placed l false (swapped _ _ false z) (Made-counted m)))
          ]))
