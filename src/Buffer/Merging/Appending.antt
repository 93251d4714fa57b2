-- ===== src/Buffer/Merging/Appending.antt =====
-- The text of a line appended to the line before.
use lprog_hw.Prelude.{
  ℕ, ◌≤◌, ◌≡◌, refl, sym, ◌∙◌, ap, subst, ◌≢◌, ◌==◌, inl, inr, Bool-cases, ==-false, List, [], ◌∷◌,
  ◌++◌, true, arith, length, leb, length-append, append-nil, take-length, drop-length, ◌<◌, ◌+◌,
}
use lprog_hw.Rope.{Rope}
use lprog_hw.Buffer.State.{
  Ptr, null, Line, Cursor, CursorRef, own, peer, Buffer, done, set_str, sp_size,
}
use lprog_hw.Buffer.Window.{is_above}
use lprog_hw.Buffer.Edit.{append_next}
use lprog_hw.Buffer.Returns.{Returns, returns, on_eq}
use lprog_hw.Buffer.Safe.{At, load-At, on_load, CursorFits}
use lprog_hw.Buffer.Safe.Peers.{Names, on_cursor}
use lprog_hw.Buffer.Safe.Retext.{
  retext, At-retext_self, At-retext_ne, At-retext_old, At-retext, Framed-retext,
}
use lprog_hw.Buffer.Document.{Place, bytes_of, eq_of_At, write_pad-fits}
use lprog_hw.Buffer.Document.Edits.{
  retext_places, Forward-retext, length-retext_places, PadFits-retext,
}
use lprog_hw.Buffer.Merging.Among.{IsAmong}
use lprog_hw.Buffer.Merging.Lines.{bytes_joined}
use lprog_hw.Buffer.Merging.Saved.{without, bytes_joined-without}
use lprog_hw.Buffer.Merging.Arriving.{Stood}
use lprog_hw.Buffer.Merging.Extending.{Slack}

is_empty : (t : List ℕ) → leb (length t) 0 ≡ true → t ≡ []
is_empty [] e = refl
is_empty (x ∷ t) e = ground arith

module _ {R : Type 0} where
  retext-IsAmong :
      (p q : Ptr) (s : R) (xs : List (Place R)) → IsAmong q xs → IsAmong q (retext_places p s xs)
  retext-IsAmong p q s [] i = i
  retext-IsAmong p q s (x ∷ xs) (inl z) = inl z
  retext-IsAmong p q s (x ∷ xs) (inr i) = inr (retext-IsAmong p q s xs i)

  -- The line that has another deleted is no obstacle.
  retext-Slack :
      (b : Buffer R) {q p : Ptr} {l m : Line R} (s : R)
      → At b.cell q l
      → At b.cell p m
      → q ≢ p
      → Slack b q
      → Slack (record b { cell = retext b.cell p m s }) q
  retext-Slack b {q} {p} {l} {m} s a am ne h k t u ak at au above top =
      let here : l ≡ k = eq_of_At (At-retext_ne p m s a (==-false q p ne)) ak in
      let (t', at', tp, _) = At-retext_old s am at in
      let (u', au', _, un) = At-retext_old s am au in
      λ z.
        h l t' u' a at' au' (ap (λ (l : Line R). is_above l.location) here ∙ above) (sym tp ∙ top)
          (sym un ∙ z)

module _ {R : Type 0} ⦃rope : Rope R⦄ where
  retext-without :
      (p q : Ptr) (s : R) (xs : List (Place R))
      → bytes_of (without q (retext_places p s xs)) ≡ bytes_joined p q (rope.text s) xs
  unfolding without bytes_joined bytes_of
  retext-without p q s [] = refl
  retext-without p q s (x ∷ xs) =
      let rest = retext-without p q s xs in
      elim (Bool-cases (x.0 == q)) [
        | inl z ↦ rw z rest
        | inr z ↦ elim (Bool-cases (x.0 == p)) [
          | inl v ↦ rw (z, v, rest) refl
          | inr v ↦ rw (z, v, rest) refl
        ]
      ]

  -- The line before ends with the text of the line.
  abbrev pub Appended :
      Buffer R → CursorRef → Cursor → Ptr → Line R → List ℕ → List (Place R) → Type 0
  Appended e r c q l t xs =
      (m : Line R) × (ys : List (Place R)) × Stood e r c q l m ys
      × (bytes_of (without q ys) ≡ bytes_joined l.prev q t xs)

  module _ {e : Buffer R} {r : CursorRef} (c : Cursor) {q : Ptr} {l m : Line R}
      {xs : List (Place R)} (h : Stood e r c q l m xs) (has_prev : l.prev ≢ null) where
    prev_ne : q ≢ l.prev
    prev_ne z =
        let (n, an, en) = h.safe.framed.linked.back q l h.here has_prev in
        h.safe.framed.linked.no_loop l.prev n an (en ∙ z)

    longer-Stood :
        (s : R)
        → length (rope.text m.str) ≤ length (rope.text s)
        → length (rope.text s) < sp_size
        → Stood
            (record e { cell = retext e.cell l.prev m s })
            r
            c
            q
            l
            (record m { str = s })
            (retext_places l.prev s xs)
    longer-Stood s le small = record {
      safe = record {
        framed = Framed-retext s h.before h.safe.framed;
        own_curs = cursor_fits e.own_curs h.safe.own_curs;
        peer_curss = λ i d n. cursor_fits d (h.safe.peer_curss i d n);
      };
      doc = record {
        lines = Forward-retext h.before s e.last e.first xs h.doc.lines;
        first_prev =
            λ n an. let (k, ak, ep, _) = At-retext_old s h.before an in ep ∙ h.doc.first_prev k ak;
        fuel = omega (arith, length-retext_places l.prev s xs, h.doc.fuel);
      };
      here = At-retext_ne l.prev m s h.here (==-false q l.prev prev_ne);
      before = At-retext_self s h.before;
      among = retext-IsAmong l.prev q s xs h.among;
      not_first = h.not_first;
      not_last = h.not_last;
      named = same_names r h.named;
      only = λ o d n. h.only o d (same_before o d n);
      slack = retext-Slack e s h.here h.before prev_ne h.slack;
      fits = PadFits-retext s h.before small h.fits;
    }
      where
        same_names :
            (o : CursorRef) → Names e o c → Names (record e { cell = retext e.cell l.prev m s }) o c
        same_names own n = n
        same_names (peer i) n = n

        same_before :
            (o : CursorRef) (d : Cursor)
            → Names (record e { cell = retext e.cell l.prev m s }) o d
            → Names e o d
        same_before own d n = n
        same_before (peer i) d n = n

        cursor_fits :
            (d : Cursor)
            → CursorFits e d
            → CursorFits (record e { cell = retext e.cell l.prev m s }) d
        cursor_fits d (n, an, k) =
            let (n', an', _, _, which) = At-retext s h.before an in
            (
              n',
              an',
              elim which [
                | inl (at, z) ↦
                    let same = eq_of_At h.before (subst (λ p. At e.cell p n) at an) in
                    let k' : d.pos ≤ length (rope.text m.str) =
                      subst (λ (n : Line R). d.pos ≤ length (rope.text n.str)) (sym same) k in
                    subst (λ (n : Line R). d.pos ≤ length (rope.text n.str)) (sym z)
                      (omega (arith, k', le))
                | inr (_, z) ↦ subst (λ (n : Line R). d.pos ≤ length (rope.text n.str)) (sym z) k
              ],
            )

  set_str-done :
      (b : Buffer R) (p : Ptr) (l : Line R) (s : R)
      → At b.cell p l
      → set_str p s b ≡ done tt (record b { cell = retext b.cell p l s })
  unfolding set_str
  set_str-done b p l s a = rw (load-At b a) refl

  append_text :
      (m : R) (t : List ℕ) → rope.text (rope.insert_cstr m (rope.char_count m) t) ≡ rope.text m ++ t
  append_text m t =
      rope.text-insert_cstr m (rope.char_count m) t (omega (arith, rope.char_count-text m))
      ∙ rw
          (
            take-length (rope.char_count m) (rope.text m) (omega (arith, rope.char_count-text m)),
            drop-length (rope.char_count m) (rope.text m) (omega (arith, rope.char_count-text m)),
            append-nil t,
          )
          refl

  pub append_next-Appended :
      {e : Buffer R} (r : CursorRef) (c : Cursor) (n : ℕ) {q : Ptr} {l m : Line R}
      {xs : List (Place R)}
      → l.prev ≢ null
      → Stood e r (record c { own_line = l.prev; pos = n }) q l m xs
      → m.next ≡ q
      → length (rope.text m.str) + length (rope.text l.str) < sp_size
      → Returns
          (λ _ f.
            Appended f r
              (record c { own_line = l.prev; pos = n })
              q
              l
              (rope.text m.str ++ rope.text l.str)
              xs)
          (append_next r e)
  unfolding append_next
  append_next-Appended {e} r c n {q} {l} {m} {xs} has_prev h next small =
      on_cursor e r (record c { own_line = l.prev; pos = n }) _ h.named
        (on_load e _ h.before (
          rw (==-false m.next e.last (λ z. h.not_last (sym next ∙ z))) (
            on_load e _ (subst (λ p. At e.cell p l) (sym next) h.here) (
              on_eq _ (write_pad-fits (rope.text l.str) e (h.fits q l h.here))
                (elim (Bool-cases (leb (length (rope.text l.str)) 0)) [
                  | inl z ↦ rw z (returns (m, xs, h, nothing z))
                  | inr z ↦
                      rw (z, set_str-done e l.prev m s h.before)
                        (returns (
                          record m { str = s },
                          retext_places l.prev s xs,
                          longer-Stood (record c { own_line = l.prev; pos = n }) h has_prev s longer
                              (omega (arith, length_s, small)),
                          retext-without l.prev q s xs
                              ∙ ap (λ t. bytes_joined l.prev q t xs)
                                  (append_text m.str (rope.text l.str)),
                        ))
                ])))))
    where
      s : R
      s = rope.insert_cstr m.str (rope.char_count m.str) (rope.text l.str)

      length_s : length (rope.text s) ≡ length (rope.text m.str) + length (rope.text l.str)
      length_s =
          ap length (append_text m.str (rope.text l.str))
          ∙ length-append (rope.text m.str) (rope.text l.str)

      longer : length (rope.text m.str) ≤ length (rope.text s)
      longer = omega (arith, length_s)

      nothing :
          leb (length (rope.text l.str)) 0 ≡ true
          → bytes_of (without q xs) ≡ bytes_joined l.prev q (rope.text m.str ++ rope.text l.str) xs
      nothing z =
          sym (bytes_joined-without q e.last e.first xs h.before h.doc.lines)
          ∙ ap (λ t. bytes_joined l.prev q t xs)
              (sym (append-nil (rope.text m.str))
                ∙ ap (λ t. rope.text m.str ++ t) (sym (is_empty (rope.text l.str) z)))
