-- ===== src/Buffer/Merging/Arriving.antt =====
-- bcursor_move to the left of a peer's cursor at the start of a line: it comes to the end of the line
-- before.
use lprog_hw.Prelude.{
  ℕ, ◌+◌, ◌≤◌, ◌≡◌, refl, sym, ◌∙◌, ◌≢◌, ◌||◌, ltb, ==-true, ==-false, some, List, if◌then◌else◌,
  Bool, true, false, get_elem?-set_ne, arith, length,
}
use lprog_hw.Rope.{Rope}
use lprog_hw.Buffer.State.{
  a_up, update, left, Ptr, null, Line, Cursor, CursorRef, own, peer, same_ref, Buffer, done,
  and_then, ui_update_if,
}
use lprog_hw.Buffer.Cursors.{go_prev, cursor_move}
use lprog_hw.Buffer.Edit.{move_ref}
use lprog_hw.Buffer.Returns.{Returns, returns, on_eq}
use lprog_hw.Buffer.Safe.{At, load-At, on_load, Safe}
use lprog_hw.Buffer.Safe.Peers.{
  Names, load_cursor-Names, on_cursor, with_cursor, Names-with, store_cursor-with, Safe-with,
}
use lprog_hw.Buffer.Safe.Follow.{Safe-painted}
use lprog_hw.Buffer.Document.{Place, Document, PadFits}
use lprog_hw.Buffer.Merging.Among.{IsAmong}
use lprog_hw.Buffer.Merging.Extending.{Slack}

module _ {R : Type 0} where
  -- No cursor but `r` is in the line `q`.
  abbrev pub OnlyIn : Buffer R → CursorRef → Ptr → Type 0
  OnlyIn b r q = (o : CursorRef) (d : Cursor) → Names b o d → same_ref r o ≡ false → d.own_line ≢ q

  Names-painted :
      (b : Buffer R) (n : ℕ) (r : CursorRef) (c : Cursor)
      → Names b r c
      → Names (record b { repaints = n }) r c
  Names-painted b n own c h = h
  Names-painted b n (peer i) c h = h

  Names-unpainted :
      (b : Buffer R) (n : ℕ) (r : CursorRef) (c : Cursor)
      → Names (record b { repaints = n }) r c
      → Names b r c
  Names-unpainted b n own c h = h
  Names-unpainted b n (peer i) c h = h

  -- Only the cursor of the peer is moved.
  OnlyIn-with :
      (b : Buffer R) (i : ℕ) (c : Cursor) (q : Ptr)
      → OnlyIn b (peer i) q
      → OnlyIn (with_cursor (peer i) c b) (peer i) q
  OnlyIn-with b i c q h own d n e = h own d n e
  OnlyIn-with b i c q h (peer j) d n e =
      h (peer j) d (sym (get_elem?-set_ne b.peer_curss (some c) (λ z. cc (==-true i j z, e))) ∙ n) e

module _ {R : Type 0} ⦃rope : Rope R⦄ where
  -- The cursor `r` is `c`; the line `l` at `q` is one of the lines `xs` of the document, with `m`
  -- before it, neither the first nor the last; no other cursor is in it, it can be deleted, and the
  -- lines fit into the scratch pad.
  pub record Stood (e : Buffer R) (r : CursorRef) (c : Cursor) (q : Ptr) (l m : Line R)
      (xs : List (Place R)) : Type 0 where
    pub safe : Safe e
    pub doc : Document e xs
    pub here : At e.cell q l
    pub before : At e.cell l.prev m
    pub among : IsAmong q xs
    pub not_first : q ≢ e.first
    pub not_last : q ≢ e.last
    pub named : Names e r c
    pub only : OnlyIn e r q
    pub slack : Slack e q
    pub fits : PadFits e.cell

  Stood-painted :
      {e : Buffer R} {r : CursorRef} {c : Cursor} {q : Ptr} {l m : Line R} {xs : List (Place R)}
      → Stood e r c q l m xs
      → Stood (record e { repaints = e.repaints + 1 }) r c q l m xs
  Stood-painted {e} {r} {c} s = record {
    safe = Safe-painted s.safe;
    doc = record { lines = s.doc.lines; first_prev = s.doc.first_prev; fuel = s.doc.fuel };
    here = s.here;
    before = s.before;
    among = s.among;
    not_first = s.not_first;
    not_last = s.not_last;
    named = Names-painted e (e.repaints + 1) r c s.named;
    only = λ o d n. s.only o d (Names-unpainted e (e.repaints + 1) o d n);
    slack = s.slack;
    fits = s.fits;
  }

  painted-Stood :
      {e : Buffer R} {r : CursorRef} {c : Cursor} {q : Ptr} {l m : Line R} {xs : List (Place R)}
      (seen : Bool)
      → Stood e r c q l m xs
      → Returns (λ _ f. Stood f r c q l m xs) (and_then (ui_update_if seen e) λ _. done update)
  unfolding ui_update_if
  painted-Stood {e} {r} {c} {q} {l} {m} {xs} seen s = shown e.ui seen
    where
      shown :
          (v w : Bool)
          → Returns
              (λ _ f. Stood f r c q l m xs)
              (done update
                (if v then (if w then record e { repaints = e.repaints + 1 } else e) else e))
      shown true true = returns (Stood-painted s)
      shown true false = returns s
      shown false w = returns s

  abbrev pub end_of_prev : Cursor → Line R → Line R → Cursor
  end_of_prev c l m = record c { own_line = l.prev; pos = rope.char_count m.str }

  go_prev-end :
      (r : CursorRef) (c : Cursor) (b : Buffer R) (l m : Line R)
      → Names b r c
      → At b.cell c.own_line l
      → At b.cell l.prev m
      → c.own_line ≢ b.first
      → go_prev r (λ count pos. count) b ≡ done a_up (with_cursor r (end_of_prev c l m) b)
  unfolding go_prev
  go_prev-end r c b l m n a am ne =
      rw
        (
          load_cursor-Names b r c n,
          load-At b a,
          ==-false l.prev null am.ne_null,
          ==-false c.own_line b.first ne,
          load-At b am,
          store_cursor-with r (end_of_prev c l m) b,
        )
        refl

  cursor_move-left :
      (r : CursorRef) (c : Cursor) (b : Buffer R) (l m : Line R)
      → c.pos ≡ 0
      → Names b r c
      → At b.cell c.own_line l
      → At b.cell l.prev m
      → c.own_line ≢ b.first
      → cursor_move r left b ≡ done a_up (with_cursor r (end_of_prev c l m) b)
  unfolding cursor_move
  cursor_move-left r c b l m start n a am ne =
      rw (load_cursor-Names b r c n, at_start, go_prev-end r c b l m n a am ne) refl
    where
      at_start : ltb 0 c.pos ≡ false
      at_start = ground arith

  -- move_ref of a peer's cursor to the left.
  pub move_ref-Stood :
      {b : Buffer R} (i : ℕ) (c : Cursor) {l m : Line R} {xs : List (Place R)}
      → c.pos ≡ 0
      → Stood b (peer i) c c.own_line l m xs
      → Returns
          (λ _ e. Stood e (peer i) (end_of_prev c l m) c.own_line l m xs)
          (move_ref (peer i) left b)
  unfolding move_ref
  move_ref-Stood {b} i c {l} {m} {xs} start s = on_cursor b (peer i) c _ s.named (
      on_load b _ s.here (
        on_eq _ (cursor_move-left (peer i) c b l m start s.named s.here s.before s.not_first) (
          on_cursor e (peer i) (end_of_prev c l m) _ moved.named
            (on_load e _ s.before (painted-Stood (l.on_screen || m.on_screen) moved)))))
    where
      e : Buffer R
      e = with_cursor (peer i) (end_of_prev c l m) b

      moved : Stood e (peer i) (end_of_prev c l m) c.own_line l m xs
      moved = record {
        safe = Safe-with (peer i) (end_of_prev c l m) s.safe (m, s.before, end_fits);
        doc = record { lines = s.doc.lines; first_prev = s.doc.first_prev; fuel = s.doc.fuel };
        here = s.here;
        before = s.before;
        among = s.among;
        not_first = s.not_first;
        not_last = s.not_last;
        named = Names-with (peer i) c (end_of_prev c l m) b s.named;
        only = OnlyIn-with b i (end_of_prev c l m) c.own_line s.only;
        slack = s.slack;
        fits = s.fits;
      }
        where
          end_fits : rope.char_count m.str ≤ length (rope.text m.str)
          end_fits = omega (arith, rope.char_count-text m.str)
