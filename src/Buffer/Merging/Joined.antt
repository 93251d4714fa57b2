-- ===== src/Buffer/Merging/Joined.antt =====
-- bcursor_del by a peer at the start of a line, and the file that buffer_save writes afterwards.
use lprog_hw.Prelude.{
  ℕ, ◌-◌, ◌+◌, ◌≡◌, refl, ◌∙◌, ap, ◌≢◌, ◌||◌, ltb, ==-false, some, List, ◌++◌, if◌then◌else◌, Bool,
  true, false, arith, ◌<◌, length,
}
use lprog_hw.Rope.{Rope}
use lprog_hw.Buffer.State.{
  null, Line, Cursor, CursorRef, own, peer, Buffer, done, update, left, ui_update_if, sp_size,
}
use lprog_hw.Buffer.Cursors.{bcursor_find}
use lprog_hw.Buffer.Edit.{bcursor_move, join_line, finish_del, bcursor_del}
use lprog_hw.Buffer.File.{buffer_save}
use lprog_hw.Buffer.Returns.{Returns, returns, bind, mono}
use lprog_hw.Buffer.Safe.{At, on_load, Safe}
use lprog_hw.Buffer.Safe.Peers.{Names, on_cursor, Safe-Names}
use lprog_hw.Buffer.Safe.Named.{on_found}
use lprog_hw.Buffer.Safe.Follow.{Safe-painted}
use lprog_hw.Buffer.Document.{Place, Document, bytes_of, buffer_save_lem, PadFits}
use lprog_hw.Buffer.Splitting.Saved.{Safe-counted, find-counted}
use lprog_hw.Buffer.Merging.Among.{IsAmong}
use lprog_hw.Buffer.Merging.Lines.{bytes_joined}
use lprog_hw.Buffer.Merging.Extending.{Slack}
use lprog_hw.Buffer.Merging.Arriving.{OnlyIn, Stood, end_of_prev, move_ref-Stood}
use lprog_hw.Buffer.Merging.Appending.{append_next-Appended}
use lprog_hw.Buffer.Merging.Following.{has_prev, leads, finish_join}

module _ {R : Type 0} ⦃rope : Rope R⦄ where
  -- After join_line: the buffer is safe, with the file, and the cursor is there.
  record Shorter (b d : Buffer R) (r : CursorRef) (file : List ℕ) : Type 0 where
    safe : Safe d
    live : (k : Cursor) × Names d r k
    lines : List (Place R)
    doc : Document d lines
    bytes : bytes_of lines ≡ file
    fits : PadFits d.cell

  Shorter-saved :
      {b d : Buffer R} {r : CursorRef} {file : List ℕ}
      → Shorter b d r file
      → Safe d × (buffer_save true d ≡ done (some file) d)
  Shorter-saved {d = d} h =
      (h.safe, buffer_save_lem d h.lines h.doc h.fits ∙ ap (λ t. done (some t) d) h.bytes)

  finish_del-saved :
      {b d : Buffer R} {r : CursorRef} {file : List ℕ} (seen : Bool)
      → Shorter b d r file
      → Returns (λ _ f. Safe f × (buffer_save true f ≡ done (some file) f)) (finish_del seen r d)
  unfolding finish_del ui_update_if
  finish_del-saved {d = d} {r = r} {file = file} seen h =
      let (k, n) = h.live in
      let (l, a, _) = Safe-Names r k h.safe n in
      on_cursor d r k _ n (on_load d _ a (shown d.ui (seen || l.on_screen)))
    where
      painted : Shorter d (record d { repaints = d.repaints + 1 }) own file
      painted = record {
        safe = Safe-painted h.safe;
        live = (d.own_curs, refl);
        lines = h.lines;
        doc = record { lines = h.doc.lines; first_prev = h.doc.first_prev; fuel = h.doc.fuel };
        bytes = h.bytes;
        fits = h.fits;
      }

      shown :
          (v w : Bool)
          → Returns
              (λ _ f. Safe f × (buffer_save true f ≡ done (some file) f))
              (done update
                (if v then (if w then record d { repaints = d.repaints + 1 } else d) else d))
      shown true true = returns (Shorter-saved painted)
      shown true false = returns (Shorter-saved h)
      shown false w = returns (Shorter-saved h)

  join_line-Shorter :
      {b : Buffer R} (id i : ℕ) (c : Cursor) {l m : Line R} {xs : List (Place R)}
      → c.pos ≡ 0
      → l.next ≢ null
      → length (rope.text m.str) + length (rope.text l.str) < sp_size
      → bcursor_find id b ≡ done (some (peer i)) b
      → Stood b (peer i) c c.own_line l m xs
      → Returns
          (λ _ d.
            Shorter b d
              (peer i)
              (bytes_joined l.prev c.own_line (rope.text m.str ++ rope.text l.str) xs))
          (join_line id (peer i) b)
  unfolding join_line bcursor_move
  join_line-Shorter {b} id i c {l} {m} {xs} start has_next small found s = bind moves λ _ e w.
      let z = has_prev c (rope.char_count m.str) w in
      bind
        (append_next-Appended (peer i) c (rope.char_count m.str) z w
          (leads c (rope.char_count m.str) w) small)
        λ _ f (m', ys, w', bytes).
          mono (finish_join c (rope.char_count m.str) w' has_next)
            λ _ d (safe, peers, (zs, doc, bs, fits)). record {
              safe = safe;
              live = (end_of_prev c l m, rw peers w'.named);
              lines = zs;
              doc = doc;
              bytes = bs ∙ bytes;
              fits = fits;
            }
    where
      counted : Stood (record b { num_lines = b.num_lines - 1 }) (peer i) c c.own_line l m xs
      counted = record {
        safe = Safe-counted (b.num_lines - 1) s.safe;
        doc = record { lines = s.doc.lines; first_prev = s.doc.first_prev; fuel = s.doc.fuel };
        here = s.here;
        before = s.before;
        among = s.among;
        not_first = s.not_first;
        not_last = s.not_last;
        named = s.named;
        only = λ o d n. s.only o d (same_before o d n);
        slack = s.slack;
        fits = s.fits;
      }
        where
          same_before :
              (o : CursorRef) (d : Cursor)
              → Names (record b { num_lines = b.num_lines - 1 }) o d
              → Names b o d
          same_before own d n = n
          same_before (peer j) d n = n

      moves :
          Returns
            (λ _ e. Stood e (peer i) (end_of_prev c l m) c.own_line l m xs)
            (bcursor_move id left (record b { num_lines = b.num_lines - 1 }))
      moves =
          on_found id _ (find-counted b id (b.num_lines - 1) found)
            (move_ref-Stood i c start counted)

  -- A peer deletes backwards at the start of a line and the buffer is saved: in a safe buffer whose
  -- lines are xs and fit into the scratch pad, as do the two texts together, when the cursor with the
  -- id is a peer's at the start of a line of xs that is neither the first nor the last, no other cursor
  -- is in that line, and (if that line is above the own cursor and the window's top has no line before
  -- it) there is a line below the window, bcursor_del ends with a safe buffer, and buffer_save
  -- afterwards writes the same lines without that one, its text appended to the line before.
  pub bcursor_del-bytes_joined :
      (b : Buffer R) (id i : ℕ) (c : Cursor) (l m : Line R) (xs : List (Place R))
      → Safe b
      → Document b xs
      → PadFits b.cell
      → length (rope.text m.str) + length (rope.text l.str) < sp_size
      → bcursor_find id b ≡ done (some (peer i)) b
      → Names b (peer i) c
      → c.pos ≡ 0
      → At b.cell c.own_line l
      → At b.cell l.prev m
      → IsAmong c.own_line xs
      → c.own_line ≢ b.first
      → c.own_line ≢ b.last
      → l.next ≢ null
      → OnlyIn b (peer i) c.own_line
      → Slack b c.own_line
      → Returns
          (λ _ d.
            Safe d
            × (buffer_save true d
                ≡ done
                    (some (bytes_joined l.prev c.own_line (rope.text m.str ++ rope.text l.str) xs))
                    d))
          (bcursor_del id b)
  unfolding bcursor_del
  bcursor_del-bytes_joined b id i c l m xs s doc fits small found n start a am among nf nl has_next
        only slack =
      on_found id _ found (
        on_cursor b (peer i) c _ n (
          on_load b _ a (
            rw (at_start, ==-false c.own_line b.first nf)
              (bind (join_line-Shorter id i c start has_next small found stood)
                λ _ d h. finish_del-saved l.on_screen h))))
    where
      at_start : ltb 0 c.pos ≡ false
      at_start = ground arith

      stood : Stood b (peer i) c c.own_line l m xs
      stood = record {
        safe = s;
        doc = doc;
        here = a;
        before = am;
        among = among;
        not_first = nf;
        not_last = nl;
        named = n;
        only = only;
        slack = slack;
        fits = fits;
      }
