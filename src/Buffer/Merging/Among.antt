-- ===== src/Buffer/Merging/Among.antt =====
-- A line of the document that is not the first: it has one before it, and its neighbours differ.
use lprog_hw.Prelude.{
  ◌≡◌, sym, ◌∙◌, ap, subst, ◌≢◌, ◌==◌, ◌⊎◌, inl, inr, Bool-cases, ==-sound, ==-true, Option, List,
  [], ◌∷◌,
}
use lprog_hw.Buffer.State.{Ptr, null, Line}
use lprog_hw.Buffer.Safe.{At, Linked}
use lprog_hw.Buffer.Document.{Place, Forward, eq_of_At}

module _ {R : Type 0} where
  -- The line at `p` is one of the lines.
  abbrev pub IsAmong : Ptr → List (Place R) → Type 0
  IsAmong p [] = ⊥
  IsAmong p (x ∷ xs) = (x.0 ≡ p) ⊎ IsAmong p xs

  module _ {h : Ptr → Option (Line R)} (k : Linked h) {p : Ptr} {l : Line R} (a : At h p l) where
    pub prev_is : (x : Place R) → At h x.0 x.1 → x.1.next ≡ p → l.prev ≡ x.0
    prev_is x ax e =
        let (n, an, back) = k.forth x.0 x.1 ax (λ z. a.ne_null (sym e ∙ z)) in
        ap (λ (l : Line R). l.prev) (eq_of_At a (subst (λ q. At h q n) e an)) ∙ back

    -- A line of the document other than the first has one before it.
    pub among_prev :
        (last s : Ptr) (xs : List (Place R))
        → Forward h last s xs
        → s ≢ p
        → IsAmong p xs
        → l.prev ≢ null
    among_prev last s [] w ne i = absurd i
    among_prev last s (x ∷ []) (e, ax, z) ne (inl y) = absurd (ne (e ∙ y))
    among_prev last s (x ∷ []) w ne (inr i) = absurd i
    among_prev last s (x ∷ y ∷ xs) (e, ax, nl, w) ne (inl z) = absurd (ne (e ∙ z))
    among_prev last s (x ∷ y ∷ xs) (e, ax, nl, w) ne (inr i) = elim (Bool-cases (x.1.next == p)) [
      | inl z ↦ λ v. ax.ne_null (sym (prev_is x ax (==-sound _ _ z)) ∙ v)
      | inr z ↦ among_prev last x.1.next (y ∷ xs) w (λ v. cc (==-true x.1.next p v, z)) i
    ]

    round :
        l.prev ≡ l.next
        → (last s : Ptr) (xs : List (Place R)) → Forward h last s xs
        → s ≢ p
        → s ≢ l.prev
        → IsAmong p xs
        → ⊥
    round c last s [] w ne ne' i = i
    round c last s (x ∷ []) (e, ax, z) ne ne' (inl y) = ne (e ∙ y)
    round c last s (x ∷ []) w ne ne' (inr i) = i
    round c last s (x ∷ y ∷ xs) (e, ax, nl, w) ne ne' (inl z) = ne (e ∙ z)
    round c last s (x ∷ y ∷ xs) (e, ax, nl, w) ne ne' (inr i) = elim (Bool-cases (x.1.next == p)) [
      | inl z ↦ ne' (e ∙ sym (prev_is x ax (==-sound _ _ z)))
      | inr z ↦ elim (Bool-cases (x.1.next == l.prev)) [
        | inl v ↦
            let v' = ==-sound _ _ v in
            let (n, an, back) = k.forth x.0 x.1 ax (λ u. here_null y xs w u) in
            let (n', an', back') = k.forth p l a (λ u. here_null y xs w (v' ∙ c ∙ u)) in
            let same = eq_of_At (subst (λ q. At h q n) (v' ∙ c) an) an' in
            ne (e ∙ sym back ∙ ap (λ (l : Line R). l.prev) same ∙ back')
        | inr v ↦
            round c last x.1.next (y ∷ xs) w (λ u. cc (==-true x.1.next p u, z))
              (λ u. cc (==-true x.1.next l.prev u, v)) i
      ]
    ]
      where
        here_null :
            {s : Ptr} (y : Place R) (xs : List (Place R)) → Forward h last s (y ∷ xs) → s ≢ null
        here_null y [] (e, ax, _) z = ax.ne_null (sym e ∙ z)
        here_null y (y' ∷ xs) (e, ax, _, _) z = ax.ne_null (sym e ∙ z)

    -- Its neighbours are not the same line.
    pub among_apart :
        (last s : Ptr) (xs : List (Place R))
        → Forward h last s xs
        → ((m : Line R) → At h s m → m.prev ≡ null)
        → s ≢ p
        → IsAmong p xs
        → l.prev ≢ l.next
    among_apart last s xs w top ne i c =
        let has = among_prev last s xs w ne i in
        let (n, an, back) = k.forth p l a (λ z. has (c ∙ z)) in
        round c last s xs w ne
          (λ z. a.ne_null (sym back ∙ top n (subst (λ q. At h q n) (sym c ∙ sym z) an))) i
