-- ===== src/Buffer/Created/Adding.antt =====
-- The row of lines as next_line and add_lines make it longer.
use lprog_hw.Prelude.{
  ℕ, zero, suc, ◌+◌, ◌<◌, ◌≡◌, refl, sym, ap, ◌∙◌, subst, ◌≢◌, inl, inr, Bool-cases, ◌==◌, ==-sound,
  ==-true, ==-false, Option, none, some, arith,
}
use lprog_hw.Rope.{Rope}
use lprog_hw.Buffer.State.{Ptr, Line, Buffer}
use lprog_hw.Buffer.File.{next_line, add_lines}
use lprog_hw.Buffer.Returns.{Returns, returns, bind, mono}
use lprog_hw.Buffer.Safe.{Like, Marks, Marks-sym}
use lprog_hw.Buffer.Created.{next_of, InRow, Row, Row-At}
use lprog_hw.Buffer.Created.Lines.{fresh_line, appended, line_new-Marked}

module _ {R : Type 0} ⦃rope : Rope R⦄ where
  -- The first line, as it was made: id 0 and no text.
  abbrev pub IsHead : Option (Line R) → Type 0
  IsHead none = ⊥
  IsHead (some l) = (l.id ≡ 0) × (l.str ≡ rope.new)

  -- The buffer's store is a row of `n` lines from `a` on, and the next line goes behind it.
  pub record Rows (b : Buffer R) (a n : ℕ) : Type 0 where
    pub row : Row b.cell a n
    pub brk : b.brk ≡ a + n
    pub head : IsHead (b.cell a)

  Like-InRow : (a n i : ℕ) (l m : Line R) → Like (some l) (some m) → InRow a n i l → InRow a n i m
  Like-InRow a n i l m k (p, q) = (sym k.2 ∙ p, sym k.3 ∙ q)

  Like-some :
      (c d : Option (Line R)) {l : Line R}
      → Like c d
      → c ≡ some l
      → (m : Line R) × (d ≡ some m) × Like (some l) (some m)
  Like-some none d k e = cc e
  Like-some (some l') none k e = absurd k
  Like-some (some l') (some m) k e = (m, refl, subst (λ c. Like c (some m)) e k)

  Like-IsHead : (c d : Option (Line R)) → Like c d → IsHead c → IsHead d
  Like-IsHead none d k h = absurd h
  Like-IsHead (some l) none k h = absurd k
  Like-IsHead (some l) (some m) (i, s, _, _) (z, t) = (sym i ∙ z, sym s ∙ t)

  pub Marks-Rows : {b b' : Buffer R} {a n : ℕ} → Marks b b' → Rows b a n → Rows b' a n
  Marks-Rows {b} {b'} {a} {n} m r = record {
    row = record {
      line = λ i lt.
          let (l, e, z) = r.row.line i lt in
          let (l', e', k) = Like-some (b.cell (a + i)) (b'.cell (a + i)) (m.cells (a + i)) e in
          (l', e', Like-InRow a n i l l' k z);
      only = λ q l e.
          let (l', e', k) = Like-some (b'.cell q) (b.cell q) ((Marks-sym m).cells q) e in
          r.row.only q l' e';
    };
    brk = m.brk ∙ r.brk;
    head = Like-IsHead (b.cell a) (b'.cell a) (m.cells a) r.head;
  }

  module _ (b : Buffer R) (id a n : ℕ) (l : Line R) (r : Rows b a (suc n))
      (e : b.cell (a + n) ≡ some l) (z : InRow a (suc n) n l) where
    added : Ptr → Option (Line R)
    added = (appended b id (a + n) l).cell

    added_new : added (a + suc n) ≡ some (fresh_line b id (a + n))
    unfolding added
    added_new =
        rw
          (
            ==-false (a + suc n) (a + n) (λ z. omega (arith, z)),
            ==-true (a + suc n) b.brk (sym r.brk),
          )
          refl

    added_last : added (a + n) ≡ some (record l { next = b.brk })
    unfolding added
    added_last = rw (==-true (a + n) (a + n) refl) refl

    added_old : (q : Ptr) → q ≢ a + n → q ≢ a + suc n → added q ≡ b.cell q
    unfolding added
    added_old q ne ne' = rw (==-false q (a + n) ne, ==-false q b.brk (λ y. ne' (y ∙ r.brk))) refl

    inner : (i : ℕ) → i < n → next_of a (suc n) i ≡ next_of a (suc (suc n)) i
    inner i lt =
        rw
          (
            ==-false (suc i) (suc n) (λ z. omega (arith, z)),
            ==-false (suc i) (suc (suc n)) (λ z. omega (arith, z)),
          )
          refl

    added_line :
        (i : ℕ)
        → i < suc (suc n)
        → (m : Line R) × (added (a + i) ≡ some m) × InRow a (suc (suc n)) i m
    added_line i lt = elim (Bool-cases (i == suc n)) [
      | inl y ↦
          let y' : i ≡ suc n = ==-sound i (suc n) y in
          subst (λ i. (m : Line R) × (added (a + i) ≡ some m) × InRow a (suc (suc n)) i m) (sym y')
            (
              fresh_line b id (a + n),
              added_new,
              (refl, rw (==-true (suc (suc n)) (suc (suc n)) refl) refl),
            )
      | inr y ↦ elim (Bool-cases (i == n)) [
        | inl w ↦
            let w' : i ≡ n = ==-sound i n w in
            subst (λ i. (m : Line R) × (added (a + i) ≡ some m) × InRow a (suc (suc n)) i m)
              (sym w')
              (
                record l { next = b.brk },
                added_last,
                (z.0, r.brk ∙ (rw (==-false (suc n) (suc (suc n)) (λ z. omega (arith, z))) refl)),
              )
        | inr w ↦
            let lt' : i < n = ground (arith, lt) in
            let (m, em, (pm, nm)) = r.row.line i (omega arith) in
            (
              m,
              added_old (a + i) (λ z. omega (arith, z)) (λ z. omega (arith, z)) ∙ em,
              (pm, nm ∙ inner i lt'),
            )
      ]
    ]

    added_only :
        (q : Ptr) (m : Line R) → added q ≡ some m → (i : ℕ) × (i < suc (suc n)) × (q ≡ a + i)
    added_only q m f = elim (Bool-cases (q == a + n)) [
      | inl y ↦ (n, omega arith, ==-sound q (a + n) y)
      | inr y ↦ elim (Bool-cases (q == a + suc n)) [
        | inl w ↦ (suc n, omega arith, ==-sound q (a + suc n) w)
        | inr w ↦
            let (i, lt, e') =
              r.row.only q m (sym (added_old q (λ v. ground arith) (λ v. ground arith)) ∙ f) in
            (i, omega arith, e')
      ]
    ]

    added_first : IsHead (added a)
    added_first = elim (Bool-cases (a == a + n)) [
      | inl y ↦
          let y' : a ≡ a + n = ==-sound a (a + n) y in
          let h = subst IsHead (ap b.cell y' ∙ e) r.head in
          subst IsHead (sym (ap added y' ∙ added_last)) h
      | inr y ↦ subst IsHead (sym (added_old a (λ v. ground arith) (λ v. omega (arith, v)))) r.head
    ]

    pub Rows-appended : Rows (appended b id (a + n) l) a (suc (suc n))
    unfolding added
    Rows-appended = record {
      row = record { line = added_line; only = added_only };
      brk = omega (arith, r.brk);
      head = added_first;
    }

  pub next_line-Rows :
      (b : Buffer R) (a n : ℕ)
      → 0 < a
      → Rows b a (suc n)
      → Returns
          (λ p b'.
            (p ≡ a + suc n)
            × Rows b' a (suc (suc n))
            × (b'.first ≡ b.first)
            × (b'.last ≡ b.last)
            × (b'.top ≡ b.top)
            × (b'.width ≡ b.width))
          (next_line (a + n) b)
  unfolding next_line
  next_line-Rows b a n start r =
      let (l, al, z) = Row-At r.row start n (omega arith) in
      mono
        (line_new-Marked (record b { line_id_cnt = b.line_id_cnt + 1 }) b.line_id_cnt (a + n) l al
          (λ z. omega (arith, z, r.brk)) (λ z. omega (arith, z, r.brk)))
        λ p b' (e, m). (
          e ∙ r.brk,
          Marks-Rows m.marks (
              Rows-appended (record b { line_id_cnt = b.line_id_cnt + 1 }) b.line_id_cnt a n l
                (record { row = r.row; brk = r.brk; head = r.head }) al.holds z),
          m.marks.first,
          m.marks.last,
          m.top,
          m.marks.width,
        )

  -- The loop of buffer_new over the lines after the first.
  pub add_lines-Rows :
      (k : ℕ) (b : Buffer R) (a n : ℕ)
      → 0 < a
      → Rows b a (suc n)
      → (k ≡ 0 → b.bottom ≡ a + n)
      → Returns
          (λ _ b'.
            Rows b' a (suc (k + n))
            × (b'.bottom ≡ a + (k + n))
            × (b'.first ≡ b.first)
            × (b'.last ≡ b.last)
            × (b'.top ≡ b.top)
            × (b'.width ≡ b.width))
          (add_lines k (a + n) b)
  unfolding add_lines
  add_lines-Rows zero b a n start r e =
      let z : n ≡ 0 + n = omega arith in
      returns
        (subst (λ i. Rows b a (suc i)) z r, e refl ∙ ap (λ i. a + i) z, refl, refl, refl, refl)
  add_lines-Rows (suc k) b a n start r e =
      bind (next_line-Rows b a n start r) λ p c (pe, rc, f, l, t, w).
        let rest =
          add_lines-Rows k (record c { bottom = a + suc n }) a (suc n) start
            (record { row = rc.row; brk = rc.brk; head = rc.head }) (λ _. refl) in
        let shift : k + suc n ≡ suc k + n = omega arith in
        subst
          (λ q.
            Returns
              (λ _ b'.
                Rows b' a (suc (suc k + n))
                × (b'.bottom ≡ a + (suc k + n))
                × (b'.first ≡ b.first)
                × (b'.last ≡ b.last)
                × (b'.top ≡ b.top)
                × (b'.width ≡ b.width))
              (add_lines k q (record c { bottom = q })))
          (sym pe)
          (mono rest λ _ b' (r', e', f', l', t', w'). (
            subst (λ i. Rows b' a (suc i)) shift r',
            e' ∙ ap (λ i. a + i) shift,
            f' ∙ f,
            l' ∙ l,
            t' ∙ t,
            w' ∙ w,
          ))
