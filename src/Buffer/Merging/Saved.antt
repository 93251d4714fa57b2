-- ===== src/Buffer/Merging/Saved.antt =====
-- buffer_deletel of a line without cursors: the buffer stays safe, and the document loses the line.
use lprog_hw.Prelude.{
  ◌≤◌, ◌≡◌, refl, sym, ◌∙◌, ap, subst, ◌≢◌, ◌==◌, inl, inr, Bool-cases, ==-sound, ==-true, ==-false,
  Option, some, List, [], ◌∷◌, if◌then◌else◌, get_elem?, length, arith, ◌<◌,
}
use lprog_hw.Rope.{Rope}
use lprog_hw.Buffer.State.{Ptr, null, Line, Cursor, Buffer, sp_size}
use lprog_hw.Buffer.Edit.{buffer_deletel}
use lprog_hw.Buffer.Returns.{Returns, mono}
use lprog_hw.Buffer.Safe.{At, Stored, CursorFits, Safe}
use lprog_hw.Buffer.Document.{Place, Forward, Document, bytes_of, eq_of_At, PadFits}
use lprog_hw.Buffer.Splitting.Rewired.{at_ptr}
use lprog_hw.Buffer.Splitting.Placed.{AllCursors}
use lprog_hw.Buffer.Merging.Removed.{Removes, Removes-Linked}
use lprog_hw.Buffer.Merging.Among.{IsAmong, among_prev, among_apart}
use lprog_hw.Buffer.Merging.Lines.{bytes_joined, joined_places}
use lprog_hw.Buffer.Merging.Extending.{Slack}
use lprog_hw.Buffer.Merging.Deleting.{Deleted, buffer_deletel-Deleted}

module _ {R : Type 0} ⦃rope : Rope R⦄ where
  same_text :
      {h : Ptr → Option (Line R)} {pp : Ptr} {m : Line R}
      → At h pp m
      → (q : Ptr) (x : Line R) → At h q x
      → rope.text x.str ≡ at_ptr pp (rope.text m.str) q (rope.text x.str)
  same_text {h = h} {pp = pp} {m = m} am q x ax = elim (Bool-cases (q == pp)) [
    | inl z ↦ rw z (
        ap (λ (x : Line R). rope.text x.str)
          (eq_of_At (subst (λ q. At h q x) (==-sound q pp z) ax) am))
    | inr z ↦ rw z refl
  ]

  -- The text of the line before is the one it has.
  Removes-text :
      {h h' : Ptr → Option (Line R)} {p pp nn : Ptr} {m : Line R}
      → At h pp m
      → Removes h h' p pp nn (λ q t. t)
      → Removes h h' p pp nn (at_ptr pp (rope.text m.str))
  Removes-text {h = h} {pp = pp} {m = m} am r = record {
    olds = λ q x ne ax.
        let (n, an, tn, pn, nn) = r.olds q x ne ax in (n, an, tn ∙ same_text am q x ax, pn, nn);
    back = r.back;
  }

  PadFits-Removes :
      {h h' : Ptr → Option (Line R)} {p pp nn : Ptr}
      → Removes h h' p pp nn (λ q t. t)
      → PadFits h
      → PadFits h'
  PadFits-Removes r f q m am =
      let (ne, (n, an)) = r.back q m am in
      let (k, ak, tk, _, _) = r.olds q n ne an in
      let short = subst (λ t. length t < sp_size) (sym tk) (f q n an) in
      subst (λ (m : Line R). length (rope.text m.str) < sp_size) (eq_of_At ak am) short

  -- The lines but for the one at `p`.
  unfoldable pub without : Ptr → List (Place R) → List (Place R)
  without p [] = []
  without p (x ∷ xs) = let rest = without p xs in if x.0 == p then rest else x ∷ rest

  joined_line :
      {h : Ptr → Option (Line R)} {pp : Ptr} {m : Line R} (p : Ptr) (x : Place R)
      (xs : List (Place R))
      → At h pp m
      → At h x.0 x.1
      → bytes_joined pp p (rope.text m.str) xs ≡ bytes_of (without p xs)
      → bytes_joined pp p (rope.text m.str) (x ∷ xs) ≡ bytes_of (without p (x ∷ xs))
  unfolding without bytes_joined bytes_of
  joined_line {pp = pp} {m = m} p x xs am ax e = elim (Bool-cases (x.0 == p)) [
    | inl z ↦ rw z e
    | inr z ↦ rw (z, sym (same_text am x.0 x.1 ax), e) refl
  ]

  -- With its own text in the line before, the file only lacks the line.
  pub bytes_joined-without :
      {h : Ptr → Option (Line R)} {pp : Ptr} {m : Line R} (p last s : Ptr) (xs : List (Place R))
      → At h pp m
      → Forward h last s xs
      → bytes_joined pp p (rope.text m.str) xs ≡ bytes_of (without p xs)
  unfolding without bytes_joined bytes_of
  bytes_joined-without p last s [] am w = refl
  bytes_joined-without p last s (x ∷ []) am (e, ax, z) = joined_line p x [] am ax refl
  bytes_joined-without p last s (x ∷ y ∷ xs) am (e, ax, nl, w) =
      joined_line p x (y ∷ xs) am ax (bytes_joined-without p last x.1.next (y ∷ xs) am w)

  module _ (b : Buffer R) {q : Ptr} {l : Line R} (xs : List (Place R)) (s : Safe b)
      (doc : Document b xs) (a : At b.cell q l) (ne_first : q ≢ b.first) (among : IsAmong q xs)
      (fits : PadFits b.cell) (has_next : l.next ≢ null)
      (nobody : AllCursors b (λ c. c.own_line ≢ q)) where
    ne : b.first ≢ q
    ne z = ne_first (sym z)

    has_prev : l.prev ≢ null
    has_prev = among_prev s.framed.linked a b.last b.first xs doc.lines ne among

    apart : l.prev ≢ l.next
    apart = among_apart s.framed.linked a b.last b.first xs doc.lines doc.first_prev ne among

    -- The line behind has one before it, so it is not the first.
    next_ne_first : l.next ≢ b.first
    next_ne_first z =
        let (n, an, e) = s.framed.linked.forth q l a has_next in
        a.ne_null (sym e ∙ doc.first_prev n (subst (λ p. At b.cell p n) z an))

    prev_ne : l.prev ≢ q
    prev_ne z =
        let (m, am, e) = s.framed.linked.back q l a has_prev in
        s.framed.linked.no_loop l.prev m am (e ∙ sym z)

    module _ {d : Buffer R} {m : Line R} (am : At b.cell l.prev m)
        (k : Deleted b d q l.prev l.next) where
      left : {p : Ptr} → p ≢ q → Stored b.cell p → Stored d.cell p
      left np (n, an) = let (x, ax, _, _, _) = k.removes.olds _ n np an in (x, ax)

      last_left : Stored d.cell d.last
      last_left = subst (Stored d.cell) (sym k.last) (elim (Bool-cases (b.last == q)) [
        | inl z ↦ rw z (left prev_ne (m, am))
        | inr z ↦ rw z (left (λ y. cc (==-true b.last q y, z)) s.framed.last)
      ])

      fits_left : (c : Cursor) → c.own_line ≢ q → CursorFits b c → CursorFits d c
      fits_left c np (n, an, le) =
          let (x, ax, tx, _, _) = k.removes.olds c.own_line n np an in
          (x, ax, subst (λ t. c.pos ≤ length t) (sym tx) le)

      Deleted-Safe : Safe d
      Deleted-Safe = record {
        framed = record {
          linked = Removes-Linked k.removes s.framed.linked a has_prev apart;
          first = subst (Stored d.cell) (sym k.first) (left ne s.framed.first);
          last = last_left;
          top = k.top;
          bottom = k.bottom;
        };
        own_curs = subst (CursorFits d) (sym k.own_curs) (fits_left b.own_curs nobody.0 s.own_curs);
        peer_curss = λ i c e.
            let e' = subst (λ cs. get_elem? cs i ≡ some (some c)) k.peer_curss e in
            fits_left c (nobody.1 i c e') (s.peer_curss i c e');
      }

      first_left : (x : Line R) → At d.cell d.first x → x.prev ≡ null
      first_left x ax =
          let (n, an) = s.framed.first in
          let (y, ay, _, py, _) = k.removes.olds b.first n ne an in
          ap (λ (x : Line R). x.prev) (eq_of_At (subst (λ p. At d.cell p x) k.first ax) ay)
          ∙ py
          ∙ rw (==-false b.first l.next (λ z. next_ne_first (sym z))) (doc.first_prev n an)

      Deleted-Document :
          (ys : List (Place R)) × Document d ys
          × (bytes_of ys ≡ bytes_of (without q xs))
          × PadFits d.cell
      Deleted-Document =
          let (ys, v, bytes, len) =
            joined_places (rope.text m.str) (Removes-text am k.removes) s.framed.linked a has_prev
              b.last b.first xs ne doc.lines in
          (
            ys,
            record {
              lines =
                  subst (λ p. Forward d.cell d.last p ys) (sym k.first)
                    (subst (λ p. Forward d.cell p b.first ys) (sym k.last) v);
              first_prev = first_left;
              fuel = subst (λ n. length ys ≤ n) (sym k.brk) (omega (arith, len, doc.fuel));
            },
            bytes ∙ bytes_joined-without q b.last b.first xs am doc.lines,
            PadFits-Removes k.removes fits,
          )

    -- The buffer afterwards, with the cursors that it had.
    pub buffer_deletel-Document :
        Slack b q
        → Returns
            (λ _ d.
              Safe d
              × (d.peer_curss ≡ b.peer_curss)
              × ((ys : List (Place R)) × Document d ys
                  × (bytes_of ys ≡ bytes_of (without q xs))
                  × PadFits d.cell))
            (buffer_deletel q b)
    buffer_deletel-Document slack =
        let (m, am, _) = s.framed.linked.back q l a has_prev in
        mono
          (buffer_deletel-Deleted l s.framed a has_prev has_next prev_ne
            (s.framed.linked.no_loop q l a) slack nobody)
          λ _ d k. (Deleted-Safe am k, k.peer_curss, Deleted-Document am k)
