-- ===== src/Buffer/Document/Edits.antt =====
-- What bcursor_insert and bcursor_del do to the document, and to the file that buffer_save
-- writes afterwards.
use lprog_hw.Prelude.{
  ℕ, suc, ◌-◌, ◌<◌, ◌≡◌, refl, sym, ap, ◌∙◌, subst, inl, inr, true, ◌==◌, Bool-cases, ==-sound,
  Option, some, List, [], ◌∷◌, ◌++◌, if◌then◌else◌, arith, length, take, drop, length-append,
  length-take, length-drop,
}
use lprog_hw.Rope.{Rope, is_plain}
use lprog_hw.Buffer.State.{Ptr, Line, Cursor, CursorRef, Buffer, done, sp_size}
use lprog_hw.Buffer.Cursors.{bcursor_find, width_limit}
use lprog_hw.Buffer.Edit.{bcursor_insert, bcursor_del}
use lprog_hw.Buffer.File.{newline, buffer_save}
use lprog_hw.Buffer.Returns.{Returns, mono}
use lprog_hw.Buffer.Safe.{At, Safe}
use lprog_hw.Buffer.Safe.Peers.{Names}
use lprog_hw.Buffer.Safe.Retext.{retext, At-retext_self, At-retext_ne, At-retext_old}
use lprog_hw.Buffer.Safe.Typing.{Edited, bcursor_insert-Edited, bcursor_del-Edited}
use lprog_hw.Buffer.Document.{
  Place, Forward, Document, PadFits, bytes_of, buffer_save_lem, eq_of_At,
}

pub length-inserted :
    (p chr : ℕ) (t : List ℕ) (n : ℕ)
    → suc (length t) < suc n
    → length (take p t ++ chr ∷ drop p t) < suc n
length-inserted p chr t n h =
    omega (arith, length-append (take p t) (chr ∷ drop p t), length-take p t, length-drop p t)

length-deleted :
    (p : ℕ) (t : List ℕ) (n : ℕ) → 0 < p → length t < n → length (take (p - 1) t ++ drop p t) < n
length-deleted p t n more h =
    omega (arith, length-append (take (p - 1) t) (drop p t), length-take (p - 1) t, length-drop p t)

module _ {R : Type 0} where
  -- The lines with the one at `p` given a new text.
  abbrev retext_place : Ptr → R → Place R → Place R
  retext_place p s (q, l) = (q, if q == p then record l { str = s } else l)

  abbrev pub retext_places : Ptr → R → List (Place R) → List (Place R)
  retext_places p s [] = []
  retext_places p s (x ∷ xs) = retext_place p s x ∷ retext_places p s xs

  pub length-retext_places :
      (p : Ptr) (s : R) (xs : List (Place R)) → length (retext_places p s xs) ≡ length xs
  length-retext_places p s [] = refl
  length-retext_places p s (x ∷ xs) = ap suc (length-retext_places p s xs)

  module _ {h : Ptr → Option (Line R)} {p : Ptr} {l : Line R} (a : At h p l) (s : R) where
    At-place :
        (x : Place R)
        → At h x.0 x.1
        → At (retext h p l s) x.0 (if x.0 == p then record x.1 { str = s } else x.1)
          × ((if x.0 == p then record x.1 { str = s } else x.1).next ≡ x.1.next)
          × ((if x.0 == p then record x.1 { str = s } else x.1).prev ≡ x.1.prev)
    At-place x ax = elim (Bool-cases (x.0 == p)) [
      | inl e ↦
          let e' = ==-sound x.0 p e in
          let same : l ≡ x.1 = eq_of_At a (subst (λ q. At h q x.1) e' ax) in
          rw e (
            subst (λ q. At (retext h p l s) q (record x.1 { str = s })) (sym e')
                (subst (λ (m : Line R). At (retext h p l s) p (record m { str = s })) same
                  (At-retext_self s a)),
            refl,
            refl,
          )
      | inr e ↦ rw e (At-retext_ne p l s ax e, refl, refl)
    ]

    pub Forward-retext :
        (last q : Ptr) (xs : List (Place R))
        → Forward h last q xs
        → Forward (retext h p l s) last q (retext_places p s xs)
    Forward-retext last q [] w = w
    Forward-retext last q (x ∷ []) (e, ax, z) = (e, (At-place x ax).0, z)
    Forward-retext last q (x ∷ y ∷ xs) (e, ax, ne, more) =
        let (ax', nx, _) = At-place x ax in
        (
          e,
          ax',
          ne,
          subst (λ z. Forward (retext h p l s) last z (retext_places p s (y ∷ xs))) (sym nx)
              (Forward-retext last x.1.next (y ∷ xs) more),
        )

module _ {R : Type 0} ⦃rope : Rope R⦄ where
  -- The file of the lines, where the line at `p` has the text `t`.
  unfoldable pub bytes_with : Ptr → List ℕ → List (Place R) → List ℕ
  bytes_with p t [] = []
  bytes_with p t (x ∷ xs) =
      (if x.0 == p then t else rope.text x.1.str) ++ newline ∷ bytes_with p t xs

  bytes_of-retext :
      (p : Ptr) (s : R) (xs : List (Place R))
      → bytes_of (retext_places p s xs) ≡ bytes_with p (rope.text s) xs
  unfolding bytes_of bytes_with
  bytes_of-retext p s [] = refl
  bytes_of-retext p s (x ∷ xs) = elim (Bool-cases (x.0 == p)) [
    | inl e ↦ rw (e, bytes_of-retext p s xs) refl
    | inr e ↦ rw (e, bytes_of-retext p s xs) refl
  ]

  -- After an edit of a line the document has the same lines, that one with its new text.
  pub Edited-Document :
      {b : Buffer R} {r : CursorRef} {c : Cursor} {l : Line R} {pos : ℕ} {t : List ℕ}
      {b' : Buffer R} (xs : List (Place R))
      → At b.cell c.own_line l
      → Document b xs
      → (e : Edited b r c l pos t b') → Document b' (retext_places c.own_line e.str xs)
  Edited-Document {b} {c} {l} {b'} xs a d e = record {
    lines =
        subst (λ h. Forward h b'.last b'.first (retext_places c.own_line e.str xs)) (sym e.cell)
          (rw (e.ends.last, e.ends.first) (Forward-retext a e.str b.last b.first xs d.lines));
    first_prev = λ m am.
        let am' = subst (λ h. At h b'.first m) e.cell am in
        let am'' = subst (λ q. At (retext b.cell c.own_line l e.str) q m) e.ends.first am' in
        let (n, an, ep, _) = At-retext_old e.str a am'' in ep ∙ d.first_prev n an;
    fuel = omega (arith, length-retext_places c.own_line e.str xs, d.fuel, e.ends.brk);
  }

  pub PadFits-retext :
      {h : Ptr → Option (Line R)} {p : Ptr} {l : Line R} (s : R)
      → At h p l
      → length (rope.text s) < sp_size
      → PadFits h
      → PadFits (retext h p l s)
  PadFits-retext {h} {p} {l} s a small f q m am = elim (Bool-cases (q == p)) [
    | inl z ↦
        let at_p = subst (λ q. At (retext h p l s) q m) (==-sound q p z) am in
        let same : record l { str = s } ≡ m = eq_of_At (At-retext_self s a) at_p in
        subst (λ (m : Line R). length (rope.text m.str) < sp_size) same small
    | inr z ↦ f q m (record { ne_null = am.ne_null; holds = rw z at am.holds })
  ]

  pub Edited-saved :
      {b : Buffer R} {r : CursorRef} {c : Cursor} {l : Line R} {pos : ℕ} {t : List ℕ}
      {b' : Buffer R} (xs : List (Place R))
      → At b.cell c.own_line l
      → Document b xs
      → PadFits b.cell
      → length t < sp_size
      → (e : Edited b r c l pos t b')
      → buffer_save true b' ≡ done (some (bytes_with c.own_line t xs)) b'
  Edited-saved {b} {c} {b' = b'} xs a d f small e =
      let small' = subst (λ s. length s < sp_size) (sym e.text) small in
      let f' = subst PadFits (sym e.cell) (PadFits-retext e.str a small' f) in
      buffer_save_lem b' (retext_places c.own_line e.str xs) (Edited-Document xs a d e) f'
      ∙ ap (λ (s : List ℕ). done (some s) b')
          (bytes_of-retext c.own_line e.str xs ∙ ap (λ t. bytes_with c.own_line t xs) e.text)

  -- Typing and then saving: if a plain character is typed in a safe buffer whose lines fit into the
  -- scratch pad, in a line of its document with room, which has less than 2047 characters, buffer_save
  -- afterwards writes the same lines, that one with the character at the cursor.
  pub bcursor_insert-buffer_save :
      (b : Buffer R) (id chr : ℕ) (r : CursorRef) (c : Cursor) (l : Line R) (xs : List (Place R))
      → Safe b
      → Document b xs
      → PadFits b.cell
      → bcursor_find id b ≡ done (some r) b
      → Names b r c
      → At b.cell c.own_line l
      → is_plain chr ≡ true
      → length (rope.text l.str) < width_limit b.width
      → suc (length (rope.text l.str)) < sp_size
      → Returns
          (λ _ b'.
            buffer_save true b'
            ≡ done
                (some (
                  bytes_with c.own_line
                    (take c.pos (rope.text l.str) ++ chr ∷ drop c.pos (rope.text l.str))
                    xs))
                b')
          (bcursor_insert id chr b)
  bcursor_insert-buffer_save b id chr r c l xs s d f e n a plain room small =
      mono (bcursor_insert-Edited b id chr r c l s e n a plain room) λ _ b' (_, w).
        Edited-saved xs a d f (length-inserted c.pos chr (rope.text l.str) (sp_size - 1) small) w

  -- The same of deleting, with a line of any length that fits into the pad, where the cursor is not at
  -- the start of its line: that line is without the character before the cursor.
  pub bcursor_del-buffer_save :
      (b : Buffer R) (id : ℕ) (r : CursorRef) (c : Cursor) (l : Line R) (xs : List (Place R))
      → Safe b
      → Document b xs
      → PadFits b.cell
      → bcursor_find id b ≡ done (some r) b
      → Names b r c
      → At b.cell c.own_line l
      → 0 < c.pos
      → Returns
          (λ _ b'.
            buffer_save true b'
            ≡ done
                (some (
                  bytes_with c.own_line
                    (take (c.pos - 1) (rope.text l.str) ++ drop c.pos (rope.text l.str))
                    xs))
                b')
          (bcursor_del id b)
  bcursor_del-buffer_save b id r c l xs s d f e n a more =
      mono (bcursor_del-Edited b id r c l s e n a more) λ _ b' (_, w).
        Edited-saved xs a d f
          (length-deleted c.pos (rope.text l.str) sp_size more (f c.own_line l a)) w
