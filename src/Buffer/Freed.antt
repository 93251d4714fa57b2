-- ===== src/Buffer/Freed.antt =====
-- buffer_free of src/buffer.c: each line of the chain is freed, once.
use lprog_hw.Prelude.{
  ℕ, zero, suc, ◌<◌, ◌≡◌, refl, sym, ◌∙◌, ap, subst, ◌≢◌, ◌==◌, ==-true, ==-false, Bool-cases, inl,
  inr, Option, none, some, List, [], ◌∷◌, length, arith,
}
use lprog_hw.Rope.{Rope}
use lprog_hw.Buffer.State.{Ptr, null, Line, Buffer, write}
use lprog_hw.Buffer.Cursors.{line_free}
use lprog_hw.Buffer.File.{free_lines, buffer_free}
use lprog_hw.Buffer.Returns.{Returns, returns, bind, mono}
use lprog_hw.Buffer.Safe.{At, Stored, on_load}
use lprog_hw.Buffer.Document.{eq_of_At}
use lprog_hw.Buffer.Splitting.Rewired.{at_ptr, Rewires}
use lprog_hw.Buffer.Splitting.Made.{link_prev}

abbrev pub NotIn : Ptr → List Ptr → Type 0
NotIn p [] = Unit {0}
NotIn p (q ∷ qs) = (p ≢ q) × NotIn p qs

module _ {R : Type 0} where
  -- From `p` the `next` pointers lead through the lines at `qs` to NULL.
  abbrev pub ToEnd : (Ptr → Option (Line R)) → Ptr → List Ptr → Type 0
  ToEnd h p [] = p ≡ null
  ToEnd h p (q ∷ qs) = (p ≡ q) × ((l : Line R) × At h q l × ToEnd h l.next qs)

  same_length :
      (h : Ptr → Option (Line R)) (p : Ptr) (qs rs : List Ptr)
      → ToEnd h p qs
      → ToEnd h p rs
      → length qs ≡ length rs
  same_length h p [] [] w v = refl
  same_length h p [] (r ∷ rs) w (e, (l, a, v)) = absurd (a.ne_null (sym e ∙ w))
  same_length h p (q ∷ qs) [] (e, (l, a, w)) v = absurd (a.ne_null (sym e ∙ v))
  same_length h p (q ∷ qs) (r ∷ rs) (e, (l, a, w)) (e', (m, am, v)) =
      let same : l ≡ m = eq_of_At (subst (λ x. At h x l) (sym e ∙ e') a) am in
      ap suc (same_length h l.next qs rs w (subst (λ (k : Line R). ToEnd h k.next rs) (sym same) v))

  absent :
      (h : Ptr → Option (Line R)) (p s : Ptr) (n : ℕ) (rs : List Ptr)
      → ((ys : List Ptr) → ToEnd h p ys → length ys ≡ n)
      → ToEnd h s rs
      → length rs < n
      → NotIn p rs
  absent h p s n [] k w lt = tt
  absent h p s n (r ∷ rs) k (e, (l, a, w)) lt =
      (λ z. omega (arith, k (r ∷ rs) (z, (l, a, w)), lt), absent h p l.next n rs k w (omega arith))

  -- Lines whose `next` stays.
  ToEnd-kept :
      (h h' : Ptr → Option (Line R)) (s : Ptr) (rs : List Ptr) (p : Ptr)
      → ((q : Ptr) (m : Line R) → q ≢ p → At h q m → (n : Line R) × At h' q n × (n.next ≡ m.next))
      → NotIn p rs
      → ToEnd h s rs
      → ToEnd h' s rs
  ToEnd-kept h h' s [] p k ni w = w
  ToEnd-kept h h' s (r ∷ rs) p k (ne, ni) (e, (l, a, w)) =
      let (n, an, en) = k r l (λ z. ne (sym z)) a in
      (e, (n, an, subst (λ x. ToEnd h' x rs) (sym en) (ToEnd-kept h h' l.next rs p k ni w)))

module _ {R : Type 0} ⦃rope : Rope R⦄ where
  -- A line without one before it is freed: the next one, if any, has none before it then.
  record Gone (b d : Buffer R) (p : Ptr) (l : Line R) : Type 0 where
    olds :
        (q : Ptr) (m : Line R)
        → q ≢ p
        → At b.cell q m
        → (n : Line R) × At d.cell q n × (n.next ≡ m.next) × (q ≡ l.next → n.prev ≡ null)
    back : (q : Ptr) → Stored d.cell q → Stored b.cell q × (q ≢ p)

  line_free-Gone :
      {b : Buffer R} {p : Ptr} {l : Line R}
      → At b.cell p l
      → l.prev ≡ null
      → l.next ≢ p
      → (l.next ≢ null → Stored b.cell l.next)
      → Returns (λ _ d. Gone b d p l) (line_free p b)
  unfolding line_free
  line_free-Gone {b} {p} {l} a e ne s = on_load b _ a (
      rw (==-true l.prev null e) (
        bind (link_prev l.next l.prev s) λ _ c w.
          returns (record { olds = λ q m ne' am. olds q m ne' am w; back = λ q st. back q st w })))
    where
      olds :
          {c : Buffer R} (q : Ptr) (m : Line R)
          → q ≢ p
          → At b.cell q m
          → Rewires b c (λ q t. t) (at_ptr l.next l.prev) (λ q x. x)
          → (n : Line R) × At (write c.cell p none) q n
            × (n.next ≡ m.next)
            × (q ≡ l.next → n.prev ≡ null)
      olds q m ne' am w =
          let (n, an, _, pn, en) = w.cells.olds q m am in
          (
            n,
            record { ne_null = an.ne_null; holds = rw (==-false q p ne') an.holds },
            en,
            λ z. pn ∙ rw (==-true q l.next z) e,
          )

      back :
          {c : Buffer R} (q : Ptr)
          → Stored (write c.cell p none) q
          → Rewires b c (λ q t. t) (at_ptr l.next l.prev) (λ q x. x)
          → Stored b.cell q × (q ≢ p)
      back q (m, am) w = elim (Bool-cases (q == p)) [
        | inl z ↦ let gone : none ≡ some m = rw z at am.holds in cc gone
        | inr z ↦ (
          w.cells.back q m (record { ne_null = am.ne_null; holds = rw z at am.holds }),
          λ y. cc (==-true q p y, z),
        )
      ]

  -- What is left in the store was there, and is none of the lines.
  abbrev pub Freed : Buffer R → List Ptr → Buffer R → Type 0
  Freed b qs d = (q : Ptr) → Stored d.cell q → Stored b.cell q × NotIn q qs

  next_of_row :
      (h : Ptr → Option (Line R)) (p : Ptr) (l : Line R) (qs : List Ptr)
      → p ≢ null
      → NotIn p qs
      → ToEnd h l.next qs
      → (l.next ≢ p) × (l.next ≢ null → Stored h l.next)
  next_of_row h p l [] ne ni w = ((λ z. ne (sym z ∙ w)), λ z. absurd (z w))
  next_of_row h p l (q ∷ qs) ne (ne', ni) (e, (m, am, w)) =
      ((λ z. ne' (sym z ∙ e)), λ z. subst (Stored h) (sym e) (m, am))

  free_lines-Freed :
      (k : ℕ) (b : Buffer R) (p : Ptr) (qs : List Ptr)
      → ToEnd b.cell p qs
      → ((l : Line R) → At b.cell p l → l.prev ≡ null)
      → length qs < k
      → Returns (λ _. Freed b qs) (free_lines k p b)
  unfolding free_lines
  free_lines-Freed zero b p qs w top lt = absurd (omega arith)
  free_lines-Freed (suc k) b p [] w top lt = rw (==-true p null w) (returns λ q st. (st, tt))
  free_lines-Freed (suc k) b p (q ∷ qs) (e, (l, a, w)) top lt =
      let a' = subst (λ x. At b.cell x l) (sym e) a in
      let ni =
        absent b.cell p l.next (length (q ∷ qs)) qs
          (λ ys v. same_length b.cell p ys (q ∷ qs) v (e, (l, a, w))) w (omega arith) in
      let (ne, st) = next_of_row b.cell p l qs a'.ne_null ni w in
      rw (==-false p null a'.ne_null) (
        on_load b _ a' (
          bind (line_free-Gone a' (top l a') ne st) λ _ d g.
            mono
              (free_lines-Freed k d l.next qs
                (ToEnd-kept b.cell d.cell l.next qs p
                  (λ x m nx am. let (n, an, en, _) = g.olds x m nx am in (n, an, en)) ni w)
                (λ n an. next_top d g ne st n an) (omega arith))
              λ _ f freed x sx.
                let (sd, nx) = freed x sx in
                let (sb, ne') = g.back x sd in (sb, ((λ z. ne' (z ∙ sym e)), nx))))
    where
      next_top :
          {l : Line R} (d : Buffer R)
          → Gone b d p l
          → l.next ≢ p
          → (l.next ≢ null → Stored b.cell l.next)
          → (n : Line R) → At d.cell l.next n
          → n.prev ≡ null
      next_top {l} d g ne st n an =
          let (m, am) = st an.ne_null in
          let (n', an', _, top') = g.olds l.next m ne am in
          ap (λ (k : Line R). k.prev) (eq_of_At an an') ∙ top' refl

  -- Where the lines at `qs` are the chain from first to NULL and the first has none before it, buffer_free
  -- ends without a crash: each of them is freed, and no other line is made or freed twice.
  pub buffer_free-Freed :
      (b : Buffer R) (qs : List Ptr)
      → ToEnd b.cell b.first qs
      → ((l : Line R) → At b.cell b.first l → l.prev ≡ null)
      → length qs < b.brk
      → Returns (λ _. Freed b qs) (buffer_free b)
  unfolding buffer_free
  buffer_free-Freed b qs w top lt = free_lines-Freed b.brk b b.first qs w top lt
