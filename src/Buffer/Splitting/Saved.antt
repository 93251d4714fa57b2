-- ===== src/Buffer/Splitting/Saved.antt =====
-- bcursor_insert_line, and the file that buffer_save writes afterwards.
use lprog_hw.Prelude.{
  ℕ, ◌+◌, ◌≤◌, ◌<◌, ◌^◌, ◌≡◌, refl, sym, ◌∙◌, ap, subst, ◌≢◌, true, ◌==◌, inl, inr, Bool-cases,
  ==-sound, ==-true, Option, none, some, List, [], ◌∷◌, ◌++◌, length, take, drop, arith,
}
use lprog_hw.Rope.{Rope}
use lprog_hw.Buffer.State.{null, Line, Cursor, CursorRef, own, peer, Buffer, Outcome, done}
use lprog_hw.Buffer.Cursors.{bcursor_find}
use lprog_hw.Buffer.Edit.{bcursor_insert_line}
use lprog_hw.Buffer.File.{newline, buffer_save}
use lprog_hw.Buffer.Find.{Found, found_own, found_peer, not_found, bcursor_find_lem}
use lprog_hw.Buffer.Returns.{Returns, mono, on_eq}
use lprog_hw.Buffer.Safe.{At, Safe}
use lprog_hw.Buffer.Safe.Peers.{Names, Safe-Names, on_cursor}
use lprog_hw.Buffer.Safe.Named.{HasCursor}
use lprog_hw.Buffer.Document.{Place, Document, buffer_save_lem, eq_of_At, PadFits}
use lprog_hw.Buffer.Document.Edits.{bytes_with}
use lprog_hw.Buffer.Document.Moves.{Kept-Document, PadFits-Like}
use lprog_hw.Buffer.Splitting.Trimming.{Wide}
use lprog_hw.Buffer.Splitting.Placed.{AllCursors}
use lprog_hw.Buffer.Splitting.Before.{Settled, insert_line_before-Settled}
use lprog_hw.Buffer.Splitting.After.{insert_line_after-Settled}
use lprog_hw.Buffer.Splitting.Cut.{NotBehind}

module _ {R : Type 0} where
  -- malloc has an address for the next line.
  pub record HasRoom (b : Buffer R) : Type 0 where
    pub ne_null : b.brk ≢ null
    pub unused : b.cell b.brk ≡ none

  HasCursor-of_Found :
      {b : Buffer R} {id : ℕ} {o : Option CursorRef} {r : CursorRef}
      → Found b id o
      → o ≡ some r
      → HasCursor b id
  HasCursor-of_Found (found_own z) e = inl z
  HasCursor-of_Found (found_peer k ne f) e = inr (k, f.cursor, f.here, f.id_eq)
  HasCursor-of_Found (not_found ne n) e = cc e

  done_inj :
      {o p : Option CursorRef} (b : Buffer R)
      → ◌≡◌ {A = Outcome (Buffer R) (Option CursorRef)} (done o b) (done p b)
      → o ≡ p
  done_inj b e = cc e

  pub find-HasCursor :
      {b : Buffer R} {id : ℕ} {r : CursorRef} → bcursor_find id b ≡ done (some r) b → HasCursor b id
  find-HasCursor {b} {id} e =
      let (o, e', f) = bcursor_find_lem b id in HasCursor-of_Found f (done_inj b (sym e' ∙ e))

module _ {R : Type 0} ⦃rope : Rope R⦄ where
  Settled-saved :
      (b : Buffer R) (q : ℕ) (t : List ℕ) (xs : List (Place R)) (b' : Buffer R)
      → Settled b q t xs b'
      → Safe b' × (buffer_save true b' ≡ done (some (bytes_with q t xs)) b')
  Settled-saved b q t xs b' (d, k, (ys, doc, bytes, fits)) =
      let (zs, doc', same) = Kept-Document ys doc k in
      (
        k.safe,
        buffer_save_lem b' zs doc' (PadFits-Like d.cell b'.cell k.cells fits)
            ∙ ap (λ (s : List ℕ). done (some s) b') (same ∙ bytes),
      )

  -- The buffer with another count of lines.
  pub Safe-counted : {b : Buffer R} (n : ℕ) → Safe b → Safe (record b { num_lines = n })
  Safe-counted n s = record {
    framed = record {
      linked = s.framed.linked;
      first = s.framed.first;
      last = s.framed.last;
      top = s.framed.top;
      bottom = s.framed.bottom;
    };
    own_curs = s.own_curs;
    peer_curss = s.peer_curss;
  }

  pub find-counted :
      (b : Buffer R) (id : ℕ) {r : CursorRef} (n : ℕ)
      → bcursor_find id b ≡ done (some r) b
      → bcursor_find id (record b { num_lines = n }) ≡ done (some r) (record b { num_lines = n })
  unfolding bcursor_find
  find-counted b id n e =
      ap (λ (o : Option CursorRef). done o (record b { num_lines = n })) (done_inj b e)

  pub Names-counted :
      (b : Buffer R) (r : CursorRef) (c : Cursor) (n : ℕ)
      → Names b r c
      → Names (record b { num_lines = n }) r c
  Names-counted b own c n h = h
  Names-counted b (peer i) c n h = h

  split_bytes :
      (t : List ℕ) (q pos : ℕ) (xs : List (Place R))
      → pos ≡ 0
      → bytes_with q ([] ++ newline ∷ t) xs ≡ bytes_with q (take pos t ++ newline ∷ drop pos t) xs
  split_bytes t q pos xs e = rw e refl

  -- A new line and then saving: in a safe buffer whose lines fit into the scratch pad, whose window has
  -- a line below its top and one above its bottom, with an address left for malloc, where the cursor
  -- with the id is at the start of its line or no cursor stands behind it there, bcursor_insert_line
  -- ends with a safe buffer, and buffer_save afterwards writes the same lines, but for a newline where
  -- the cursor was.
  pub bcursor_insert_line-buffer_save :
      (b : Buffer R) (id : ℕ) (r : CursorRef) (c : Cursor) (l : Line R) (xs : List (Place R))
      → Safe b
      → Document b xs
      → PadFits b.cell
      → Wide b
      → HasRoom b
      → bcursor_find id b ≡ done (some r) b
      → Names b r c
      → At b.cell c.own_line l
      → (c.pos ≢ 0 → AllCursors b (NotBehind c))
      → Returns
          (λ _ b'.
            Safe b'
            × (buffer_save true b'
                ≡ done
                    (some (
                      bytes_with c.own_line
                        (take c.pos (rope.text l.str) ++ newline ∷ drop c.pos (rope.text l.str))
                        xs))
                    b'))
          (bcursor_insert_line id b)
  unfolding bcursor_insert_line
  bcursor_insert_line-buffer_save b id r c l xs s doc fits_pad v room e n a quiet =
      on_eq _ (find-counted b id (b.num_lines + 1) e) (
        on_cursor b1 r c _ n1 (elim (Bool-cases (c.pos == 0)) [
          | inl z ↦ rw z (
              mono
                (insert_line_before-Settled b1 r c l xs s1 doc1 fits_pad v1 room.ne_null room.unused
                  n1 a)
                λ _ b' h.
                  let (safe, saved) = Settled-saved b1 _ _ xs b' h in
                  (
                    safe,
                    saved
                        ∙ ap (λ (s : List ℕ). done (some s) b')
                            (split_bytes (rope.text l.str) c.own_line c.pos xs
                              (==-sound c.pos 0 z)),
                  ))
          | inr z ↦ rw z (
              mono
                (insert_line_after-Settled b1 id r c l xs s1 doc1 fits_pad v1 room.ne_null
                  room.unused n1 a (find-HasCursor (find-counted b id (b.num_lines + 1) e))
                  (quiet (λ y. cc (==-true c.pos 0 y, z))) (fits (Safe-Names r c s n)) small)
                λ _ b' h. Settled-saved b1 _ _ xs b' h)
        ]))
    where
      small : length (rope.text l.str) < 2 ^ 64
      small = omega (arith, fits_pad c.own_line l a)

      b1 : Buffer R
      b1 = record b { num_lines = b.num_lines + 1 }

      s1 : Safe b1
      s1 = Safe-counted (b.num_lines + 1) s

      n1 : Names b1 r c
      n1 = Names-counted b r c (b.num_lines + 1) n

      doc1 : Document b1 xs
      doc1 = record { lines = doc.lines; first_prev = doc.first_prev; fuel = doc.fuel }

      v1 : Wide b1
      v1 = record { below_top = v.below_top; above_bottom = v.above_bottom }

      fits :
          (m : Line R) × At b.cell c.own_line m × (c.pos ≤ length (rope.text m.str))
          → c.pos ≤ length (rope.text l.str)
      fits (m, am, le) = subst (λ (m : Line R). c.pos ≤ length (rope.text m.str)) (eq_of_At am a) le
