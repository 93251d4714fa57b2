-- ===== src/Buffer/Splitting/Linking.antt =====
-- A line put between two neighbours: the chain stays linked both ways.
use lprog_hw.Prelude.{
  ℕ, ◌≡◌, refl, sym, ◌∙◌, ap, subst, ◌≢◌, ◌==◌, ◌⊎◌, inl, inr, Bool-cases, ==-sound, ==-true,
  ==-false, Option, none, some, List, false,
}
use lprog_hw.Rope.{Rope}
use lprog_hw.Buffer.State.{Ptr, null, Line, write}
use lprog_hw.Buffer.Safe.{At, Stored, Linked}
use lprog_hw.Buffer.Document.{eq_of_At}
use lprog_hw.Buffer.Splitting.Rewired.{at_ptr, Becomes, Rewired}

module _ {R : Type 0} where
  -- `pp` and `nn` are neighbours, or NULL.
  pub record Gap (h : Ptr → Option (Line R)) (pp nn : Ptr) : Type 0 where
    pub before : pp ≢ null → (l : Line R) × At h pp l × (l.next ≡ nn)
    pub after : nn ≢ null → (l : Line R) × At h nn l × (l.prev ≡ pp)

  pub Gap-before :
      {h : Ptr → Option (Line R)} {q : Ptr} {l : Line R} → Linked h → At h q l → Gap h l.prev q
  Gap-before {q} {l} k a = record { before = k.back q l a; after = λ ne. (l, a, refl) }

  pub Gap-after :
      {h : Ptr → Option (Line R)} {q : Ptr} {l : Line R} → Linked h → At h q l → Gap h q l.next
  Gap-after {q} {l} k a = record { before = λ ne. (l, a, refl); after = k.forth q l a }

module _ {R : Type 0} ⦃rope : Rope R⦄ where
  -- The store has a new line `p` with the text `t` between `pp` and `nn`, and its texts changed by `e`.
  pub record Inserts (h h' : Ptr → Option (Line R)) (p pp nn : Ptr) (t : List ℕ)
      (e : Ptr → List ℕ → List ℕ) : Type 0 where
    pub ne_null : p ≢ null
    pub fresh : h p ≡ none
    pub new : (l : Line R) × At h' p l × (rope.text l.str ≡ t) × (l.prev ≡ pp) × (l.next ≡ nn)
    pub olds : (q : Ptr) (m : Line R) → At h q m → Becomes h' e (at_ptr nn p) (at_ptr pp p) q m
    pub back : (q : Ptr) (m : Line R) → At h' q m → (q ≡ p) ⊎ Stored h q

  pub fresh-ne :
      {h : Ptr → Option (Line R)} {p q : Ptr} {m : Line R} → h p ≡ none → At h q m → q ≢ p
  fresh-ne {h} {p} {q} {m} e a z = cc (e, a.holds, ap h z)

  pub Inserts-of_Rewired :
      {h h' : Ptr → Option (Line R)} {p pp nn : Ptr} {e : Ptr → List ℕ → List ℕ} (l : Line R)
      → p ≢ null
      → h p ≡ none
      → pp ≢ p
      → nn ≢ p
      → l.prev ≡ pp
      → l.next ≡ nn
      → Rewired (write h p (some l)) h' e (at_ptr nn p) (at_ptr pp p)
      → Inserts h h' p pp nn (e p (rope.text l.str)) e
  Inserts-of_Rewired {h} {h'} {p} {pp} {nn} {e} l ne fresh npp nnn ep en w = record {
    ne_null = ne;
    fresh = fresh;
    new =
        let (m, am, te, pe, ne') =
          w.olds p l (record { ne_null = ne; holds = rw (==-true p p refl) refl }) in
        (
          m,
          am,
          te,
          pe ∙ rw (==-false p nn (λ z. nnn (sym z))) ep,
          ne' ∙ rw (==-false p pp (λ z. npp (sym z))) en,
        );
    olds = λ q m a.
        w.olds q m
          (record { ne_null = a.ne_null; holds = rw (==-false q p (fresh-ne fresh a)) a.holds });
    back = λ q m a. elim (Bool-cases (q == p)) [
      | inl z ↦ inl (==-sound q p z)
      | inr z ↦
          let (n, an) = w.back q m a in
          inr (n, record { ne_null = an.ne_null; holds = rw z at an.holds })
    ];
  }

  pub Inserts-Stored :
      {h h' : Ptr → Option (Line R)} {p pp nn : Ptr} {t : List ℕ} {e : Ptr → List ℕ → List ℕ}
      {q : Ptr}
      → Inserts h h' p pp nn t e
      → Stored h q
      → Stored h' q
  Inserts-Stored {q} i (m, a) = let (m', a', _, _, _) = i.olds q m a in (m', a')

  module _ {h h' : Ptr → Option (Line R)} {p pp nn : Ptr} {t : List ℕ} {e : Ptr → List ℕ → List ℕ}
      (i : Inserts h h' p pp nn t e) (g : Gap h pp nn) (k : Linked h) where
    -- The line before an old one.
    old_back :
        (q : Ptr) (m m' : Line R)
        → At h q m
        → m'.prev ≡ at_ptr nn p q m.prev
        → m'.prev ≢ null
        → (n : Line R) × At h' m'.prev n × (n.next ≡ q)
    old_back q m m' a pe ne = elim (Bool-cases (q == nn)) [
      | inl z ↦
          let (n, an, _, _, e') = i.new in
          let is_p : m'.prev ≡ p = pe ∙ rw z refl in
          (n, subst (λ x. At h' x n) (sym is_p) an, e' ∙ sym (==-sound q nn z))
      | inr z ↦
          let same : m'.prev ≡ m.prev = pe ∙ rw z refl in
          let (n, an, e') = k.back q m a (λ y. ne (same ∙ y)) in
          let (n', an', _, _, ne') = i.olds m.prev n an in
          let not_pp : m.prev ≢ pp = λ y. other n an e' z y in
          (n', subst (λ x. At h' x n') (sym same) an', ne' ∙ rw (==-false m.prev pp not_pp) e')
    ]
      where
        other : (n : Line R) → At h m.prev n → n.next ≡ q → (q == nn) ≡ false → m.prev ≡ pp → ⊥
        other n an e' z y =
            let (l, al, el) = g.before (λ w. an.ne_null (y ∙ w)) in
            let same = eq_of_At (subst (λ x. At h x n) y an) al in
            let e'' : q ≡ nn = sym e' ∙ ap (λ (x : Line R). x.next) same ∙ el in
            cc (==-true q nn e'', z)

    -- The line after an old one.
    old_forth :
        (q : Ptr) (m m' : Line R)
        → At h q m
        → m'.next ≡ at_ptr pp p q m.next
        → m'.next ≢ null
        → (n : Line R) × At h' m'.next n × (n.prev ≡ q)
    old_forth q m m' a pe ne = elim (Bool-cases (q == pp)) [
      | inl z ↦
          let (n, an, _, e', _) = i.new in
          let is_p : m'.next ≡ p = pe ∙ rw z refl in
          (n, subst (λ x. At h' x n) (sym is_p) an, e' ∙ sym (==-sound q pp z))
      | inr z ↦
          let same : m'.next ≡ m.next = pe ∙ rw z refl in
          let (n, an, e') = k.forth q m a (λ y. ne (same ∙ y)) in
          let (n', an', _, pe', _) = i.olds m.next n an in
          let not_nn : m.next ≢ nn = λ y. other n an e' z y in
          (n', subst (λ x. At h' x n') (sym same) an', pe' ∙ rw (==-false m.next nn not_nn) e')
    ]
      where
        other : (n : Line R) → At h m.next n → n.prev ≡ q → (q == pp) ≡ false → m.next ≡ nn → ⊥
        other n an e' z y =
            let (l, al, el) = g.after (λ w. an.ne_null (y ∙ w)) in
            let same = eq_of_At (subst (λ x. At h x n) y an) al in
            let e'' : q ≡ pp = sym e' ∙ ap (λ (x : Line R). x.prev) same ∙ el in
            cc (==-true q pp e'', z)

    -- The store after the insertion is linked.
    pub Inserts-Linked : Linked h'
    Inserts-Linked = record { back = back'; forth = forth'; no_loop = no_loop' }
      where
        new_is : (q : Ptr) (m' : Line R) → At h' q m' → q ≡ p → (m'.prev ≡ pp) × (m'.next ≡ nn)
        new_is q m' a z =
            let (n, an, _, e, e') = i.new in
            let same = eq_of_At (subst (λ x. At h' x m') z a) an in
            (ap (λ (x : Line R). x.prev) same ∙ e, ap (λ (x : Line R). x.next) same ∙ e')

        old_is :
            (q : Ptr) (m m' : Line R)
            → At h q m
            → At h' q m'
            → (m'.prev ≡ at_ptr nn p q m.prev) × (m'.next ≡ at_ptr pp p q m.next)
        old_is q m m' a a' =
            let (n, an, _, e, e') = i.olds q m a in
            let same = eq_of_At a' an in
            (ap (λ (x : Line R). x.prev) same ∙ e, ap (λ (x : Line R). x.next) same ∙ e')

        back' :
            (q : Ptr) (m' : Line R)
            → At h' q m'
            → m'.prev ≢ null
            → (n : Line R) × At h' m'.prev n × (n.next ≡ q)
        back' q m' a ne = elim (i.back q m' a) [
          | inl z ↦
              let (ep, _) = new_is q m' a z in
              let (l, al, el) = g.before (λ y. ne (ep ∙ y)) in
              let (l', al', _, _, nl) = i.olds pp l al in
              (l', subst (λ x. At h' x l') (sym ep) al', nl ∙ rw (==-true pp pp refl) (sym z))
          | inr (m, am) ↦ old_back q m m' am (old_is q m m' am a).0 ne
        ]

        forth' :
            (q : Ptr) (m' : Line R)
            → At h' q m'
            → m'.next ≢ null
            → (n : Line R) × At h' m'.next n × (n.prev ≡ q)
        forth' q m' a ne = elim (i.back q m' a) [
          | inl z ↦
              let (_, en) = new_is q m' a z in
              let (l, al, el) = g.after (λ y. ne (en ∙ y)) in
              let (l', al', _, pl, _) = i.olds nn l al in
              (l', subst (λ x. At h' x l') (sym en) al', pl ∙ rw (==-true nn nn refl) (sym z))
          | inr (m, am) ↦ old_forth q m m' am (old_is q m m' am a).1 ne
        ]

        no_loop' : (q : Ptr) (m' : Line R) → At h' q m' → m'.next ≢ q
        no_loop' q m' a y = elim (i.back q m' a) [
          | inl z ↦
              let e : nn ≡ p = sym (new_is q m' a z).1 ∙ y ∙ z in
              let (l, al, _) = g.after (λ w. i.ne_null (sym e ∙ w)) in fresh-ne i.fresh al e
          | inr (m, am) ↦ elim (Bool-cases (q == pp)) [
            | inl w ↦
                let e : p ≡ q = sym ((old_is q m m' am a).1 ∙ rw w refl) ∙ y in
                fresh-ne i.fresh am (sym e)
            | inr w ↦
                let e : m.next ≡ q = sym ((old_is q m m' am a).1 ∙ rw w refl) ∙ y in
                k.no_loop q m am e
          ]
        ]
