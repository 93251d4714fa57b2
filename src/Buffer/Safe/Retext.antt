-- ===== src/Buffer/Safe/Retext.antt =====
-- A line given a new text: the chain stays, and so do the cursors that still fit.
use lprog_hw.Prelude.{
  ◌≡◌, refl, sym, ◌∙◌, ap, subst, ◌≢◌, false, ◌==◌, ◌⊎◌, inl, inr, Bool-cases, Option, some, arith,
  ==-sound, ==-true,
}
use lprog_hw.Buffer.State.{Ptr, Line, Buffer, write}
use lprog_hw.Buffer.Safe.{At, Stored, Linked, Framed}

module _ {R : Type 0} where
  -- The cells after a line's text is replaced.
  abbrev pub retext : (Ptr → Option (Line R)) → Ptr → Line R → R → Ptr → Option (Line R)
  retext h p l r = write h p (some (record l { str = r }))

  pub At-retext_self :
      {h : Ptr → Option (Line R)} {p : Ptr} {l : Line R} (r : R)
      → At h p l
      → At (retext h p l r) p (record l { str = r })
  At-retext_self {p} r a = record { ne_null = a.ne_null; holds = rw (==-true p p refl) }

  pub At-retext_ne :
      {h : Ptr → Option (Line R)} {q : Ptr} {m : Line R} (p : Ptr) (l : Line R) (r : R)
      → At h q m
      → (q == p) ≡ false
      → At (retext h p l r) q m
  At-retext_ne p l r a e = record { ne_null = a.ne_null; holds = rw e a.holds }

  -- A line before, seen after: the same links, and the new text if it is that line.
  abbrev pub Successor : (Ptr → Option (Line R)) → Ptr → Line R → R → Ptr → Line R → Type 0
  Successor h p l r q m =
      (n : Line R) × At (retext h p l r) q n
      × (n.prev ≡ m.prev)
      × (n.next ≡ m.next)
      × (((q ≡ p) × (n ≡ record l { str = r })) ⊎ ((q ≢ p) × (n ≡ m)))

  eq_of_At : {h : Ptr → Option (Line R)} {p : Ptr} {l m : Line R} → At h p l → At h p m → l ≡ m
  eq_of_At a b = cc (a.holds, b.holds)

  pub At-retext :
      {h : Ptr → Option (Line R)} {p q : Ptr} {l m : Line R} (r : R)
      → At h p l
      → At h q m
      → Successor h p l r q m
  At-retext {h} {p} {q} {l} {m} r a am = elim (Bool-cases (q == p)) [
    | inl e ↦
        let e' = ==-sound q p e in
        let same : l ≡ m = eq_of_At a (subst (λ x. At h x m) e' am) in
        (
          record l { str = r },
          subst (λ x. At (retext h p l r) x (record l { str = r })) (sym e') (At-retext_self r a),
          ap (λ x. x.prev) same,
          ap (λ x. x.next) same,
          inl (e', refl),
        )
    | inr e ↦ (m, At-retext_ne p l r am e, refl, refl, inr ((λ z. ground arith), refl))
  ]

  -- A line after, seen before.
  pub At-retext_old :
      {h : Ptr → Option (Line R)} {p q : Ptr} {l n : Line R} (r : R)
      → At h p l
      → At (retext h p l r) q n
      → (m : Line R) × At h q m × (n.prev ≡ m.prev) × (n.next ≡ m.next)
  At-retext_old {h} {p} {q} {l} {n} r a an = elim (Bool-cases (q == p)) [
    | inl e ↦
        let e' = ==-sound q p e in
        let same : record l { str = r } ≡ n =
          eq_of_At (At-retext_self r a) (subst (λ x. At (retext h p l r) x n) e' an) in
        (
          l,
          subst (λ x. At h x l) (sym e') a,
          ap (λ x. x.prev) (sym same),
          ap (λ x. x.next) (sym same),
        )
    | inr e ↦ (n, record { ne_null = an.ne_null; holds = rw e at an.holds }, refl, refl)
  ]

  pub Linked-retext :
      {h : Ptr → Option (Line R)} {p : Ptr} {l : Line R} (r : R)
      → At h p l
      → Linked h
      → Linked (retext h p l r)
  Linked-retext {h} {p} {l} r a k = record {
    back = λ q n an ne.
        let (m, am, ep, en) = At-retext_old r a an in
        let (x, ax, e) = k.back q m am (λ z. ne (ep ∙ z)) in
        let (y, ay, _, ey, _) = At-retext r a ax in
        (y, subst (λ z. At (retext h p l r) z y) (sym ep) ay, ey ∙ e);
    forth = λ q n an ne.
        let (m, am, ep, en) = At-retext_old r a an in
        let (x, ax, e) = k.forth q m am (λ z. ne (en ∙ z)) in
        let (y, ay, ey, _, _) = At-retext r a ax in
        (y, subst (λ z. At (retext h p l r) z y) (sym en) ay, ey ∙ e);
    no_loop =
        λ q n an z. let (m, am, ep, en) = At-retext_old r a an in k.no_loop q m am (sym en ∙ z);
  }

  Stored-retext :
      {h : Ptr → Option (Line R)} {p q : Ptr} {l : Line R} (r : R)
      → At h p l
      → Stored h q
      → Stored (retext h p l r) q
  Stored-retext r a (m, am) = let (n, an, _, _, _) = At-retext r a am in (n, an)

  pub Framed-retext :
      {b : Buffer R} {p : Ptr} {l : Line R} (r : R)
      → At b.cell p l
      → Framed b
      → Framed (record b { cell = retext b.cell p l r })
  Framed-retext r a f = record {
    linked = Linked-retext r a f.linked;
    first = Stored-retext r a f.first;
    last = Stored-retext r a f.last;
    top = Stored-retext r a f.top;
    bottom = Stored-retext r a f.bottom;
  }
