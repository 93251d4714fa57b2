-- ===== src/Buffer/Document.antt =====
-- The document of a buffer as the list of its lines from first to last, and the two loops that walk it:
-- buffer_save forwards, bline_find backwards.
pub mod Edits
pub mod Moves
use lprog_hw.Prelude.{
  ℕ, zero, suc, ◌+◌, ◌≤◌, ◌<◌, ◌≡◌, refl, sym, ap, ◌∙◌, subst, ◌≢◌, ◌⊎◌, inl, inr, Bool, true,
  false, ◌==◌, Bool-cases, ==-sound, ==-false, ==-true, Option, none, some, List, [], ◌∷◌, ◌++◌,
  if◌then◌else◌, arith, length, Memᴰ, length-append, lt→ltb,
}
use mathlib.Core.List.Memᴰ.{head, tail}
use lprog_hw.Rope.{Rope}
use lprog_hw.Buffer.State.{
  Ptr, null, Line, Buffer, done, fault, out_of_fuel, M, and_then, load, sp_size, write_pad,
}
use lprog_hw.Buffer.Cursors.{find_back, bline_find}
use lprog_hw.Buffer.File.{newline, save_lines, buffer_save}
use lprog_hw.Buffer.Safe.{At, load-At, Linked}

-- A line and where it is.
abbrev pub Place : Type 0 → Type 0
Place R = Ptr × Line R

abbrev reverse_onto : {A : Type 0} → List A → List A → List A
reverse_onto [] acc = acc
reverse_onto (x ∷ xs) acc = reverse_onto xs (x ∷ acc)

abbrev pub backwards : {A : Type 0} → List A → List A
backwards xs = reverse_onto xs []

length-reverse_onto :
    {A : Type 0} (xs acc : List A) → length (reverse_onto xs acc) ≡ length xs + length acc
length-reverse_onto [] acc = omega arith
length-reverse_onto (x ∷ xs) acc = omega (arith, length-reverse_onto xs (x ∷ acc))

module _ {R : Type 0} where
  -- From `p` the `next` pointers lead through the lines `xs` to `last`, which is the last of them only.
  abbrev pub Forward : (Ptr → Option (Line R)) → Ptr → Ptr → List (Place R) → Type 0
  Forward h last p [] = ⊥
  Forward h last p (x ∷ []) = (p ≡ x.0) × At h x.0 x.1 × (x.0 ≡ last)
  Forward h last p (x ∷ y ∷ xs) =
      (p ≡ x.0) × At h x.0 x.1 × (x.0 ≢ last) × Forward h last x.1.next (y ∷ xs)

  -- The same backwards, by the `prev` pointers to `first`.
  abbrev pub Backward : (Ptr → Option (Line R)) → Ptr → Ptr → List (Place R) → Type 0
  Backward h first p [] = ⊥
  Backward h first p (x ∷ []) = (p ≡ x.0) × At h x.0 x.1 × (x.0 ≡ first)
  Backward h first p (x ∷ y ∷ xs) =
      (p ≡ x.0) × At h x.0 x.1 × (x.0 ≢ first) × Backward h first x.1.prev (y ∷ xs)

  -- The lines of the document; loops over it have enough fuel.
  pub record Document (b : Buffer R) (xs : List (Place R)) : Type 0 where
    pub lines : Forward b.cell b.last b.first xs
    pub first_prev : (l : Line R) → At b.cell b.first l → l.prev ≡ null
    pub fuel : length xs ≤ b.brk

  pub eq_of_At : {h : Ptr → Option (Line R)} {p : Ptr} {l m : Line R} → At h p l → At h p m → l ≡ m
  eq_of_At a b = cc (a.holds, b.holds)

  module _ {h : Ptr → Option (Line R)} (k : Linked h) {first : Ptr}
      (top : (l : Line R) → At h first l → l.prev ≡ null) where
    -- The line after a line has that line before it, and is not the first one.
    after_line :
        (x : Place R)
        → At h x.0 x.1
        → (y : Place R) → x.1.next ≡ y.0
        → At h y.0 y.1
        → (y.1.prev ≡ x.0) × (y.0 ≢ first)
    after_line x a y e a' =
        let ne : x.1.next ≢ null = λ z. a'.ne_null (sym e ∙ z) in
        let (m, am, back) = k.forth x.0 x.1 a ne in
        let same : m ≡ y.1 = eq_of_At (subst (λ p. At h p m) e am) a' in
        let prev : y.1.prev ≡ x.0 = ap (λ (l : Line R). l.prev) (sym same) ∙ back in
        (prev, λ z. a.ne_null (sym prev ∙ top y.1 (subst (λ p. At h p y.1) z a')))

    walk :
        (last : Ptr) (x : Place R) (xs acc : List (Place R))
        → At h x.0 x.1
        → Backward h first x.0 (x ∷ acc)
        → (y : Place R) → Forward h last x.1.next (y ∷ xs)
        → Backward h first last (reverse_onto (y ∷ xs) (x ∷ acc))
    walk last x [] acc a bw y (e, a', z) =
        let (prev, ne) = after_line x a y e a' in
        subst (λ p. Backward h first p (y ∷ x ∷ acc)) z
          (refl, a', ne, subst (λ p. Backward h first p (x ∷ acc)) (sym prev) bw)
    walk last x (w ∷ xs) acc a bw y (e, a', z, more) =
        let (prev, ne) = after_line x a y e a' in
        walk last y xs (x ∷ acc) a'
          (refl, a', ne, subst (λ p. Backward h first p (x ∷ acc)) (sym prev) bw) w more

  pub Document-Backward :
      {b : Buffer R} (xs : List (Place R))
      → Linked b.cell
      → Document b xs
      → Backward b.cell b.first b.last (backwards xs)
  Document-Backward [] k d = elim d.lines [ ]
  Document-Backward {b} (x ∷ []) k d =
      let (e, a, z) = d.lines in subst (λ p. Backward b.cell b.first p (x ∷ [])) z (refl, a, sym e)
  Document-Backward {b} (x ∷ y ∷ xs) k d =
      let (e, a, ne, more) = d.lines in walk k d.first_prev b.last x xs [] a (refl, a, sym e) y more

  -- The last line of the list with the id, as bline_find looks for it: NULL if there is none.
  unfoldable pub find_id : ℕ → List (Place R) → Ptr
  find_id id [] = null
  find_id id (x ∷ xs) = if id == x.1.id then x.0 else find_id id xs

module _ {R : Type 0} ⦃rope : Rope R⦄ where
  find_back-eq :
      (b : Buffer R) (k p id : ℕ) (xs : List (Place R))
      → Backward b.cell b.first p xs
      → length xs ≤ k
      → find_back k p id b ≡ done (find_id id xs) b
  unfolding find_back find_id
  find_back-eq b zero p id [] w h = elim w [ ]
  find_back-eq b zero p id (x ∷ xs) w h = absurd (omega arith)
  find_back-eq b (suc k) p id [] w h = elim w [ ]
  find_back-eq b (suc k) p id (x ∷ []) (e, a, z) h =
      let stop : (x.0 == b.first) ≡ true = ==-true x.0 b.first z in
      subst (λ q. find_back (suc k) q id b ≡ done (find_id id (x ∷ [])) b) (sym e)
        (rw (==-false x.0 null a.ne_null, load-At b a)
          (elim (Bool-cases (id == x.1.id)) [ inl y ↦ rw y refl | inr y ↦ rw (y, stop) refl ]))
  find_back-eq b (suc k) p id (x ∷ y ∷ xs) (e, a, ne, more) h =
      subst (λ q. find_back (suc k) q id b ≡ done (find_id id (x ∷ y ∷ xs)) b) (sym e)
        (rw (==-false x.0 null a.ne_null, load-At b a)
          (elim (Bool-cases (id == x.1.id)) [
            | inl z ↦ rw z refl
            | inr z ↦
                rw (z, ==-false x.0 b.first ne)
                  (find_back-eq b k x.1.prev id (y ∷ xs) more (omega arith))
          ]))

  -- On a chained document bline_find ends, leaves the buffer as it is, and returns the last line of the
  -- document that has the id, or NULL if none has it.
  pub bline_find_lem :
      (b : Buffer R) (id : ℕ) (xs : List (Place R))
      → Linked b.cell
      → Document b xs
      → bline_find id b ≡ done (find_id id (backwards xs)) b
  unfolding bline_find
  bline_find_lem b id xs k d =
      find_back-eq b (b.brk + 1) b.last id (backwards xs) (Document-Backward xs k d)
        (omega (arith, length-reverse_onto xs [], d.fuel))

  -- Each line with a newline behind it.
  unfoldable pub bytes_of : List (Place R) → List ℕ
  bytes_of [] = []
  bytes_of (x ∷ xs) = rope.text x.1.str ++ newline ∷ bytes_of xs

  -- Each line of the store fits into the scratch pad.
  abbrev pub PadFits : (Ptr → Option (Line R)) → Type 0
  PadFits h = (p : Ptr) (l : Line R) → At h p l → length (rope.text l.str) < sp_size

  pub write_pad-fits : (t : List ℕ) (b : Buffer R) → length t < sp_size → write_pad t b ≡ done t b
  unfolding write_pad
  write_pad-fits t b h = rw (lt→ltb (length t) sp_size h) refl

  -- The lines of the list do.
  abbrev pub TextsFit : List (Place R) → Type 0
  TextsFit [] = Unit {0}
  TextsFit (x ∷ xs) = (length (rope.text x.1.str) < sp_size) × TextsFit xs

  PadFits-TextsFit :
      (h : Ptr → Option (Line R)) (last p : Ptr) (xs : List (Place R))
      → PadFits h
      → Forward h last p xs
      → TextsFit xs
  PadFits-TextsFit h last p [] f w = tt
  PadFits-TextsFit h last p (x ∷ []) f (e, a, z) = (f x.0 x.1 a, tt)
  PadFits-TextsFit h last p (x ∷ y ∷ xs) f (e, a, ne, more) =
      (f x.0 x.1 a, PadFits-TextsFit h last x.1.next (y ∷ xs) f more)

  save_lines-eq :
      (b : Buffer R) (k p : ℕ) (xs : List (Place R))
      → TextsFit xs
      → Forward b.cell b.last p xs
      → length xs ≤ k
      → save_lines k p b ≡ done (bytes_of xs) b
  unfolding save_lines bytes_of
  save_lines-eq b zero p [] f w h = elim w [ ]
  save_lines-eq b zero p (x ∷ xs) f w h = absurd (omega arith)
  save_lines-eq b (suc k) p [] f w h = elim w [ ]
  save_lines-eq b (suc k) p (x ∷ []) f (e, a, z) h =
      subst (λ q. save_lines (suc k) q b ≡ done (bytes_of (x ∷ [])) b) (sym e)
        (rw
          (
            ==-false x.0 null a.ne_null,
            load-At b a,
            write_pad-fits (rope.text x.1.str) b f.0,
            ==-true x.0 b.last z,
          )
          refl)
  save_lines-eq b (suc k) p (x ∷ y ∷ xs) f (e, a, ne, more) h =
      subst (λ q. save_lines (suc k) q b ≡ done (bytes_of (x ∷ y ∷ xs)) b) (sym e)
        (rw
          (
            ==-false x.0 null a.ne_null,
            load-At b a,
            write_pad-fits (rope.text x.1.str) b f.0,
            ==-false x.0 b.last ne,
            save_lines-eq b k x.1.next (y ∷ xs) f.1 more (omega arith),
          )
          refl)

  -- If the file can be opened and the texts fit into the pad, buffer_save of a document ends and leaves the
  -- buffer as it is; the file is the texts of the lines in their order, each with a newline behind it.
  pub buffer_save_texts :
      (b : Buffer R) (xs : List (Place R))
      → Document b xs
      → TextsFit xs
      → buffer_save true b ≡ done (some (bytes_of xs)) b
  unfolding buffer_save
  buffer_save_texts b xs d f = rw (save_lines-eq b b.brk b.first xs f d.lines d.fuel) refl

  pub buffer_save_lem :
      (b : Buffer R) (xs : List (Place R))
      → Document b xs
      → PadFits b.cell
      → buffer_save true b ≡ done (some (bytes_of xs)) b
  buffer_save_lem b xs d f =
      buffer_save_texts b xs d (PadFits-TextsFit b.cell b.last b.first xs f d.lines)
