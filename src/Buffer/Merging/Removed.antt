-- ===== src/Buffer/Merging/Removed.antt =====
-- A line taken out of the chain: its neighbours are linked to one another.
use lprog_hw.Prelude.{
  ℕ, ◌≡◌, refl, sym, ◌∙◌, ap, subst, ◌≢◌, ◌==◌, inl, inr, Bool-cases, ==-sound, ==-true, ==-false,
  Option, List,
}
use lprog_hw.Rope.{Rope}
use lprog_hw.Buffer.State.{Ptr, null, Line}
use lprog_hw.Buffer.Safe.{At, Stored, Linked}
use lprog_hw.Buffer.Document.{eq_of_At}
use lprog_hw.Buffer.Splitting.Rewired.{at_ptr, Becomes, Rewired}

module _ {R : Type 0} ⦃rope : Rope R⦄ where
  -- The line `p` between `pp` and `nn` is gone; texts are changed by `e`.
  pub record Removes (h h' : Ptr → Option (Line R)) (p pp nn : Ptr) (e : Ptr → List ℕ → List ℕ)
      : Type 0 where
    pub olds :
        (q : Ptr) (m : Line R) → q ≢ p → At h q m → Becomes h' e (at_ptr nn pp) (at_ptr pp nn) q m
    pub back : (q : Ptr) (m : Line R) → At h' q m → (q ≢ p) × Stored h q

  pub Rewired-Removes :
      {h h' h'' : Ptr → Option (Line R)} {p pp nn : Ptr} {e : Ptr → List ℕ → List ℕ}
      → Rewired h h' e (λ q x. x) (λ q x. x)
      → Removes h' h'' p pp nn (λ q t. t)
      → Removes h h'' p pp nn e
  Rewired-Removes w r = record {
    olds = λ q m ne a.
        let (n, an, tn, pn, nn) = w.olds q m a in
        let (k, ak, tk, pk, nk) = r.olds q n ne an in
        (k, ak, tk ∙ tn, pk ∙ ap (at_ptr _ _ q) pn, nk ∙ ap (at_ptr _ _ q) nn);
    back = λ q m a. let (ne, (n, an)) = r.back q m a in (ne, w.back q n an);
  }

  -- Lines whose pointers stay.
  pub Rewired-Linked :
      {h h' : Ptr → Option (Line R)} {e : Ptr → List ℕ → List ℕ}
      → Rewired h h' e (λ q x. x) (λ q x. x)
      → Linked h
      → Linked h'
  Rewired-Linked {h} {h'} w k = record {
    back = λ q m' a ne.
        let (m, am) = w.back q m' a in
        let (_, ep, _) = seen q m m' am a in
        let (n, an, e) = k.back q m am (λ z. ne (ep ∙ z)) in
        let (n', an', _, _, en) = w.olds m.prev n an in
        (n', subst (λ x. At h' x n') (sym ep) an', en ∙ e);
    forth = λ q m' a ne.
        let (m, am) = w.back q m' a in
        let (_, _, en) = seen q m m' am a in
        let (n, an, e) = k.forth q m am (λ z. ne (en ∙ z)) in
        let (n', an', _, ep, _) = w.olds m.next n an in
        (n', subst (λ x. At h' x n') (sym en) an', ep ∙ e);
    no_loop = λ q m' a z.
        let (m, am) = w.back q m' a in
        let (_, _, en) = seen q m m' am a in k.no_loop q m am (sym en ∙ z);
  }
    where
      seen :
          (q : Ptr) (m m' : Line R)
          → At h q m
          → At h' q m'
          → (m' ≡ m') × (m'.prev ≡ m.prev) × (m'.next ≡ m.next)
      seen q m m' am a =
          let (n, an, _, ep, en) = w.olds q m am in
          let same = eq_of_At a an in
          (refl, ap (λ (x : Line R). x.prev) same ∙ ep, ap (λ (x : Line R). x.next) same ∙ en)

  module _ {h h' : Ptr → Option (Line R)} {p : Ptr} {l : Line R} {e : Ptr → List ℕ → List ℕ}
      (r : Removes h h' p l.prev l.next e) (k : Linked h) (a : At h p l) where
    seen_after :
        (q : Ptr) (m m' : Line R)
        → q ≢ p
        → At h q m
        → At h' q m'
        → (m'.prev ≡ at_ptr l.next l.prev q m.prev) × (m'.next ≡ at_ptr l.prev l.next q m.next)
    seen_after q m m' ne am a' =
        let (n, an, _, ep, en) = r.olds q m ne am in
        let same = eq_of_At a' an in
        (ap (λ (x : Line R). x.prev) same ∙ ep, ap (λ (x : Line R). x.next) same ∙ en)

    -- The line before the removed one, if there is one, leads to it; so does the one behind.
    leads_to : l.prev ≢ null → (m : Line R) × At h l.prev m × (m.next ≡ p) × (l.prev ≢ p)
    leads_to ne =
        let (m, am, e) = k.back p l a ne in (m, am, e, λ z. k.no_loop l.prev m am (e ∙ sym z))

    led_from : l.next ≢ null → (m : Line R) × At h l.next m × (m.prev ≡ p) × (l.next ≢ p)
    led_from ne = let (m, am, e) = k.forth p l a ne in (m, am, e, k.no_loop p l a)

    -- Without a line that is both neighbours, the store stays linked.
    pub Removes-Linked : l.prev ≢ null → l.prev ≢ l.next → Linked h'
    Removes-Linked has_prev apart = record { back = back'; forth = forth'; no_loop = no_loop' }
      where
        back' :
            (q : Ptr) (m' : Line R)
            → At h' q m'
            → m'.prev ≢ null
            → (n : Line R) × At h' m'.prev n × (n.next ≡ q)
        back' q m' a' ne =
            let (ne_p, (m, am)) = r.back q m' a' in
            let (ep, _) = seen_after q m m' ne_p am a' in
            elim (Bool-cases (q == l.next)) [
              | inl z ↦
                  let is_prev : m'.prev ≡ l.prev = ep ∙ rw z refl in
                  let (n, an, en, np) = leads_to has_prev in
                  let (n', an', _, _, en') = r.olds l.prev n np an in
                  (
                    n',
                    subst (λ x. At h' x n') (sym is_prev) an',
                    en' ∙ rw (==-true l.prev l.prev refl) (sym (==-sound q l.next z)),
                  )
              | inr z ↦
                  let same : m'.prev ≡ m.prev = ep ∙ rw z refl in
                  let (n, an, en) = k.back q m am (λ y. ne (same ∙ y)) in
                  let np : m.prev ≢ p = λ y. cc (
                    ==-true q l.next (
                        sym en
                        ∙ ap (λ (x : Line R). x.next) (eq_of_At (subst (λ s. At h s n) y an) a)),
                    z,
                  ) in
                  let (n', an', _, _, en') = r.olds m.prev n np an in
                  let apart' : m.prev ≢ l.prev = λ y.
                    let (x, ax, ex, _) = leads_to has_prev in
                    let one = eq_of_At (subst (λ s. At h s n) y an) ax in
                    ne_p (sym en ∙ ap (λ (x : Line R). x.next) one ∙ ex) in
                  (
                    n',
                    subst (λ x. At h' x n') (sym same) an',
                    en' ∙ rw (==-false m.prev l.prev apart') en,
                  )
            ]

        forth' :
            (q : Ptr) (m' : Line R)
            → At h' q m'
            → m'.next ≢ null
            → (n : Line R) × At h' m'.next n × (n.prev ≡ q)
        forth' q m' a' ne =
            let (ne_p, (m, am)) = r.back q m' a' in
            let (_, en) = seen_after q m m' ne_p am a' in
            elim (Bool-cases (q == l.prev)) [
              | inl z ↦
                  let is_next : m'.next ≡ l.next = en ∙ rw z refl in
                  let (n, an, ep, np) = led_from (λ y. ne (is_next ∙ y)) in
                  let (n', an', _, ep', _) = r.olds l.next n np an in
                  (
                    n',
                    subst (λ x. At h' x n') (sym is_next) an',
                    ep' ∙ rw (==-true l.next l.next refl) (sym (==-sound q l.prev z)),
                  )
              | inr z ↦
                  let same : m'.next ≡ m.next = en ∙ rw z refl in
                  let (n, an, ep) = k.forth q m am (λ y. ne (same ∙ y)) in
                  let np : m.next ≢ p = λ y. cc (
                    ==-true q l.prev (
                        sym ep
                        ∙ ap (λ (x : Line R). x.prev) (eq_of_At (subst (λ s. At h s n) y an) a)),
                    z,
                  ) in
                  let (n', an', _, ep', _) = r.olds m.next n np an in
                  let apart' : m.next ≢ l.next = λ y.
                    let (x, ax, ex, _) = led_from (λ w. ne (same ∙ y ∙ w)) in
                    let one = eq_of_At (subst (λ s. At h s n) y an) ax in
                    ne_p (sym ep ∙ ap (λ (x : Line R). x.prev) one ∙ ex) in
                  (
                    n',
                    subst (λ x. At h' x n') (sym same) an',
                    ep' ∙ rw (==-false m.next l.next apart') ep,
                  )
            ]

        no_loop' : (q : Ptr) (m' : Line R) → At h' q m' → m'.next ≢ q
        no_loop' q m' a' y =
            let (ne_p, (m, am)) = r.back q m' a' in
            let (_, en) = seen_after q m m' ne_p am a' in
            elim (Bool-cases (q == l.prev)) [
              | inl z ↦
                  let is_next : q ≡ l.next = sym y ∙ en ∙ rw z refl in
                  apart (sym (==-sound q l.prev z) ∙ is_next)
              | inr z ↦ let e : m.next ≡ q = sym (en ∙ rw z refl) ∙ y in k.no_loop q m am e
            ]
