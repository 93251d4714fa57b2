-- ===== src/Buffer/Merging/Lines.antt =====
-- The lines of the document when a line is joined to the one before.
use lprog_hw.Prelude.{
  ℕ, ◌≤◌, ◌≡◌, refl, sym, ◌∙◌, ap, subst, ◌≢◌, ◌==◌, ◌⊎◌, inl, inr, Bool-cases, ==-sound, ==-true,
  ==-false, Option, List, [], ◌∷◌, ◌++◌, if◌then◌else◌, true, false, arith, length,
}
use lprog_hw.Rope.{Rope}
use lprog_hw.Buffer.State.{Ptr, null, Line}
use lprog_hw.Buffer.File.{newline}
use lprog_hw.Buffer.Safe.{At, Linked}
use lprog_hw.Buffer.Document.{Place, Forward, bytes_of, eq_of_At}
use lprog_hw.Buffer.Splitting.Rewired.{at_ptr}
use lprog_hw.Buffer.Splitting.Lines.{Forward-cons, bytes_of-cons}
use lprog_hw.Buffer.Merging.Removed.{Removes}
use lprog_hw.Buffer.Merging.Among.{prev_is}

module _ {R : Type 0} ⦃rope : Rope R⦄ where
  -- The file of the lines, without the one at `p`, where the one at `pp` has the text `t`.
  unfoldable pub bytes_joined : Ptr → Ptr → List ℕ → List (Place R) → List ℕ
  bytes_joined pp p t [] = []
  bytes_joined pp p t (x ∷ xs) =
      let rest = bytes_joined pp p t xs in
      if x.0 == p then rest else (if x.0 == pp then t else rope.text x.1.str) ++ newline ∷ rest

  bytes_joined-skip :
      (pp p : Ptr) (t : List ℕ) (x : Place R) (xs : List (Place R))
      → (x.0 == p) ≡ true
      → bytes_joined pp p t (x ∷ xs) ≡ bytes_joined pp p t xs
  unfolding bytes_joined
  bytes_joined-skip pp p t x xs z = rw z refl

  bytes_joined-cons :
      (pp p : Ptr) (t u : List ℕ) (x : Place R) (xs : List (Place R))
      → (x.0 == p) ≡ false
      → at_ptr pp t x.0 (rope.text x.1.str) ≡ u
      → bytes_joined pp p t (x ∷ xs) ≡ u ++ newline ∷ bytes_joined pp p t xs
  unfolding bytes_joined
  bytes_joined-cons pp p t u x xs z e = rw (z, e) refl

  bytes_joined-nil :
      (pp p : Ptr) (t : List ℕ) (ys : List (Place R))
      → ys ≡ []
      → bytes_of ys ≡ bytes_joined pp p t ys
  unfolding bytes_of bytes_joined
  bytes_joined-nil pp p t ys e = rw e refl

  module _ {h h' : Ptr → Option (Line R)} {p : Ptr} {l : Line R} (t : List ℕ)
      (r : Removes h h' p l.prev l.next (at_ptr l.prev t)) (k : Linked h) (a : At h p l)
      (has_prev : l.prev ≢ null) where
    end_of : Ptr → Ptr
    end_of last = if last == p then l.prev else last

    end_same : (last : Ptr) → last ≢ p → end_of last ≡ last
    unfolding end_of
    end_same last ne = rw (==-false last p ne) refl

    -- A line that does not lead to the removed one.
    not_prev : (x : Place R) → At h x.0 x.1 → x.1.next ≢ p → x.0 ≢ l.prev
    not_prev x ax ne z =
        let (n, an, e) = k.back p l a has_prev in
        ne (ap (λ (l : Line R). l.next) (eq_of_At ax (subst (λ q. At h q n) (sym z) an)) ∙ e)

    -- The lines from `s`, without the line `p`.
    Shorter : Ptr → Ptr → List (Place R) → Type 0
    Shorter last s xs =
        (ys : List (Place R)) × Forward h' (end_of last) s ys
        × (bytes_of ys ≡ bytes_joined l.prev p t xs)
        × (length ys ≤ length xs)

    last_line :
        (last s : Ptr) (x : Place R)
        → s ≢ p
        → s ≡ x.0
        → At h x.0 x.1
        → x.0 ≡ last
        → Shorter last s (x ∷ [])
    unfolding Shorter
    last_line last s x ne e ax z =
        let np : x.0 ≢ p = λ y. ne (e ∙ y) in
        let (m, am, tm, _, _) = r.olds x.0 x.1 np ax in
        (
          (x.0, m) ∷ [],
          (e, am, z ∙ sym (end_same last (λ y. np (z ∙ y)))),
          bytes_of-cons x.0 m _ [] _ tm (bytes_joined-nil l.prev p t [] refl)
              ∙ sym (bytes_joined-cons l.prev p t _ x [] (==-false x.0 p np) refl),
          omega arith,
        )

    further :
        (last s : Ptr) (x : Place R) (xs : List (Place R))
        → s ≢ p
        → s ≡ x.0
        → At h x.0 x.1
        → x.0 ≢ last
        → x.1.next ≢ p
        → Shorter last x.1.next xs
        → Shorter last s (x ∷ xs)
    unfolding Shorter end_of
    further last s x xs ne e ax nl nx (ys, v, bs, len) =
        let np : x.0 ≢ p = λ y. ne (e ∙ y) in
        let (m, am, tm, _, nm) = r.olds x.0 x.1 np ax in
        let stays : m.next ≡ x.1.next = nm ∙ rw (==-false x.0 l.prev (not_prev x ax nx)) refl in
        (
          (x.0, m) ∷ ys,
          Forward-cons h' (end_of last) s (x.0, m) ys e am (other (Bool-cases (last == p)))
              (subst (λ q. Forward h' (end_of last) q ys) (sym stays) v),
          bytes_of-cons x.0 m _ ys _ tm bs
              ∙ sym (bytes_joined-cons l.prev p t _ x xs (==-false x.0 p np) refl),
          omega (arith, len),
        )
      where
        other :
            ((last == p) ≡ true) ⊎ ((last == p) ≡ false)
            → x.0 ≢ (if last == p then l.prev else last)
        other (inl z) = rw z (not_prev x ax nx)
        other (inr z) = rw z nl

    -- The line before `p` is the last one then.
    joined_last :
        (last s : Ptr) (x y : Place R)
        → s ≢ p
        → s ≡ x.0
        → At h x.0 x.1
        → x.1.next ≡ p
        → y.0 ≡ p
        → y.0 ≡ last
        → Shorter last s (x ∷ y ∷ [])
    unfolding Shorter end_of
    joined_last last s x y ne e ax nx yp z =
        let np : x.0 ≢ p = λ y. ne (e ∙ y) in
        let (m, am, tm, _, _) = r.olds x.0 x.1 np ax in
        (
          (x.0, m) ∷ [],
          rw (==-true last p (sym z ∙ yp)) (e, am, sym (prev_is k a x ax nx)),
          bytes_of-cons x.0 m _ [] _ tm (
                bytes_joined-nil l.prev p t [] refl
                ∙ sym (bytes_joined-skip l.prev p t y [] (==-true y.0 p yp)))
              ∙ sym (bytes_joined-cons l.prev p t _ x (y ∷ []) (==-false x.0 p np) refl),
          omega arith,
        )

    joined_more :
        (last s : Ptr) (x y : Place R) (xs : List (Place R))
        → s ≢ p
        → s ≡ x.0
        → At h x.0 x.1
        → last ≢ p
        → x.0 ≢ last
        → x.1.next ≡ p
        → y.0 ≡ p
        → Shorter last l.next xs
        → Shorter last s (x ∷ y ∷ xs)
    unfolding Shorter
    joined_more last s x y xs ne e ax np_last nl nx yp (ys, v, bs, len) =
        let np : x.0 ≢ p = λ y. ne (e ∙ y) in
        let (m, am, tm, _, nm) = r.olds x.0 x.1 np ax in
        let goes : m.next ≡ l.next =
          nm ∙ rw (==-true x.0 l.prev (sym (prev_is k a x ax nx))) refl in
        (
          (x.0, m) ∷ ys,
          Forward-cons h' (end_of last) s (x.0, m) ys e am (λ z. nl (z ∙ end_same last np_last))
              (subst (λ q. Forward h' (end_of last) q ys) (sym goes) v),
          bytes_of-cons x.0 m _ ys _ tm
                (bs ∙ sym (bytes_joined-skip l.prev p t y xs (==-true y.0 p yp)))
              ∙ sym (bytes_joined-cons l.prev p t _ x (y ∷ xs) (==-false x.0 p np) refl),
          omega (arith, len),
        )

    -- The lines from a line other than `p`.
    places_joined :
        (last s : Ptr) (xs : List (Place R)) → s ≢ p → Forward h last s xs → Shorter last s xs
    places_joined last s [] ne w = elim w [ ]
    places_joined last s (x ∷ []) ne (e, ax, z) = last_line last s x ne e ax z
    places_joined last s (x ∷ y ∷ []) ne (e, ax, nl, (ey, ay, zy)) = elim (Bool-cases (y.0 == p)) [
      | inl z ↦ let z' = ==-sound y.0 p z in joined_last last s x y ne e ax (ey ∙ z') z' zy
      | inr z ↦
          let nx : x.1.next ≢ p = λ v. cc (==-true y.0 p (sym ey ∙ v), z) in
          further last s x (y ∷ []) ne e ax nl nx
            (places_joined last x.1.next (y ∷ []) nx (ey, ay, zy))
    ]
    places_joined last s (x ∷ y ∷ z ∷ xs) ne (e, ax, nl, (ey, ay, ny, w)) =
        elim (Bool-cases (y.0 == p)) [
          | inl v ↦
              let v' = ==-sound y.0 p v in
              let same : y.1 ≡ l = eq_of_At (subst (λ q. At h q y.1) v' ay) a in
              let go : y.1.next ≡ l.next = ap (λ (l : Line R). l.next) same in
              let apart : l.next ≢ p = k.no_loop p l a in
              joined_more last s x y (z ∷ xs) ne e ax (λ u. ny (v' ∙ sym u)) nl (ey ∙ v') v'
                (subst (λ q. Shorter last q (z ∷ xs)) go
                  (places_joined last y.1.next (z ∷ xs) (λ u. apart (sym go ∙ u)) w))
          | inr v ↦
              let nx : x.1.next ≢ p = λ u. cc (==-true y.0 p (sym ey ∙ u), v) in
              further last s x (y ∷ z ∷ xs) ne e ax nl nx
                (places_joined last x.1.next (y ∷ z ∷ xs) nx (ey, ay, ny, w))
        ]

    pub joined_places :
        (last s : Ptr) (xs : List (Place R))
        → s ≢ p
        → Forward h last s xs
        → (ys : List (Place R)) × Forward h' (if last == p then l.prev else last) s ys
          × (bytes_of ys ≡ bytes_joined l.prev p t xs)
          × (length ys ≤ length xs)
    unfolding Shorter end_of
    joined_places last s xs ne w = places_joined last s xs ne w
