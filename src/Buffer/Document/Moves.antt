-- ===== src/Buffer/Document/Moves.antt =====
-- What bcursor_move does to the document, and to the file that buffer_save writes afterwards.
use lprog_hw.Prelude.{
  ℕ, suc, ◌<◌, ◌≡◌, refl, sym, ap, ◌∙◌, subst, true, Option, none, some, List, [], ◌∷◌, arith,
  length,
}
use lprog_hw.Rope.{Rope}
use lprog_hw.Buffer.State.{Ptr, Line, CmoveDir, Buffer, done, sp_size}
use lprog_hw.Buffer.Edit.{bcursor_move}
use lprog_hw.Buffer.File.{buffer_save}
use lprog_hw.Buffer.Returns.{Returns, mono}
use lprog_hw.Buffer.Safe.{At, Like, Safe}
use lprog_hw.Buffer.Safe.Follow.{Kept}
use lprog_hw.Buffer.Safe.Named.{HasCursor, bcursor_move-Kept}
use lprog_hw.Buffer.Document.{Place, Forward, Document, PadFits, bytes_of, buffer_save_lem}

module _ {R : Type 0} ⦃rope : Rope R⦄ where
  -- Two lists of places that agree but for the marks of the lines.
  abbrev Alike : List (Place R) → List (Place R) → Type 0
  Alike [] [] = Unit {0}
  Alike [] (y ∷ ys) = ⊥
  Alike (x ∷ xs) [] = ⊥
  Alike (x ∷ xs) (y ∷ ys) = (x.0 ≡ y.0) × Like (some x.1) (some y.1) × Alike xs ys

  pub Like-At :
      {h g : Ptr → Option (Line R)} {p : Ptr} {l : Line R}
      → ((q : Ptr) → Like (h q) (g q))
      → At h p l
      → (m : Line R) × At g p m × Like (some l) (some m)
  Like-At {h} {g} {p} {l} k a =
      let e : Like (some l) (g p) = subst (λ c. Like c (g p)) a.holds (k p) in found (g p) refl e
    where
      found :
          (c : Option (Line R))
          → g p ≡ c
          → Like (some l) c
          → (m : Line R) × At g p m × Like (some l) (some m)
      found none e z = absurd z
      found (some m) e z = (m, record { ne_null = a.ne_null; holds = e }, z)

  Forward-Like :
      (h g : Ptr → Option (Line R)) (k : (q : Ptr) → Like (h q) (g q)) (last q : Ptr)
      (xs : List (Place R))
      → Forward h last q xs
      → (ys : List (Place R)) × Forward g last q ys × Alike xs ys
  Forward-Like h g k last q [] w = elim w [ ]
  Forward-Like h g k last q (x ∷ []) (e, a, z) =
      let (m, am, s) = Like-At k a in ((x.0, m) ∷ [], (e, am, z), (refl, s, tt))
  Forward-Like h g k last q (x ∷ y ∷ xs) (e, a, ne, more) =
      let (m, am, s) = Like-At k a in
      let (ys, w, t) = Forward-Like h g k last x.1.next (y ∷ xs) more in joined m am s ys w t
    where
      joined :
          (m : Line R)
          → At g x.0 m
          → Like (some x.1) (some m)
          → (ys : List (Place R)) → Forward g last x.1.next ys
          → Alike (y ∷ xs) ys
          → (zs : List (Place R)) × Forward g last q zs × Alike (x ∷ y ∷ xs) zs
      joined m am s [] w t = absurd w
      joined m am s (z ∷ zs) w t = (
        (x.0, m) ∷ z ∷ zs,
        (e, am, ne, subst (λ p. Forward g last p (z ∷ zs)) s.3 w),
        (refl, s, t),
      )

  bytes_of-Alike : (xs ys : List (Place R)) → Alike xs ys → bytes_of xs ≡ bytes_of ys
  unfolding bytes_of
  bytes_of-Alike [] [] h = refl
  bytes_of-Alike [] (y ∷ ys) h = absurd h
  bytes_of-Alike (x ∷ xs) [] h = absurd h
  bytes_of-Alike (x ∷ xs) (y ∷ ys) (p, s, t) =
      let e : rope.text x.1.str ≡ rope.text y.1.str = ap rope.text s.1 in
      rw (e, bytes_of-Alike xs ys t) refl

  Like-At_old :
      (h g : Ptr → Option (Line R)) (p : Ptr) (m : Line R)
      → ((q : Ptr) → Like (h q) (g q))
      → At g p m
      → (l : Line R) × At h p l × Like (some l) (some m)
  Like-At_old h g p m k a = found (h p) refl (subst (λ c. Like (h p) c) a.holds (k p))
    where
      found :
          (c : Option (Line R))
          → h p ≡ c
          → Like (h p) (some m)
          → (l : Line R) × At h p l × Like (some l) (some m)
      found none e z = absurd (subst (λ c. Like c (some m)) e z)
      found (some l) e z =
          (l, record { ne_null = a.ne_null; holds = e }, subst (λ c. Like c (some m)) e z)

  length-Alike : (xs ys : List (Place R)) → Alike xs ys → length ys ≡ length xs
  length-Alike [] [] h = refl
  length-Alike [] (y ∷ ys) h = absurd h
  length-Alike (x ∷ xs) [] h = absurd h
  length-Alike (x ∷ xs) (y ∷ ys) (p, s, t) = ap suc (length-Alike xs ys t)

  pub Kept-Document :
      {b b' : Buffer R} (xs : List (Place R))
      → Document b xs
      → Kept b b'
      → (ys : List (Place R)) × Document b' ys × (bytes_of ys ≡ bytes_of xs)
  Kept-Document {b} {b'} xs d k =
      let (ys, w, t) = Forward-Like b.cell b'.cell k.cells b.last b.first xs d.lines in
      (
        ys,
        record {
          lines = rw (k.last, k.first) w;
          first_prev = λ m am.
              let (l, al, s) =
                Like-At_old b.cell b'.cell b.first m k.cells
                  (subst (λ p. At b'.cell p m) k.first am) in
              sym s.2 ∙ d.first_prev l al;
          fuel = omega (arith, length-Alike xs ys t, d.fuel, k.brk);
        },
        sym (bytes_of-Alike xs ys t),
      )

  pub PadFits-Like :
      (h g : Ptr → Option (Line R)) → ((q : Ptr) → Like (h q) (g q)) → PadFits h → PadFits g
  PadFits-Like h g k f p m a =
      let (l, al, (_, s, _, _)) = Like-At_old h g p m k a in
      subst (λ s. length (rope.text s) < sp_size) s (f p l al)

  -- Moving any cursor of a safe buffer, whose lines fit into the scratch pad, changes nothing of what
  -- buffer_save writes afterwards.
  pub bcursor_move-buffer_save :
      (b : Buffer R) (id : ℕ) (dir : CmoveDir) (xs : List (Place R))
      → Safe b
      → Document b xs
      → PadFits b.cell
      → HasCursor b id
      → Returns (λ _ b'. buffer_save true b' ≡ done (some (bytes_of xs)) b') (bcursor_move id dir b)
  bcursor_move-buffer_save b id dir xs s d f h = mono (bcursor_move-Kept b id dir s h) λ _ b' k.
      let (ys, d', e) = Kept-Document xs d k in
      buffer_save_lem b' ys d' (PadFits-Like b.cell b'.cell k.cells f)
      ∙ ap (λ (s : List ℕ). done (some s) b') e
