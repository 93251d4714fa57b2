-- ===== src/Buffer/Created.antt =====
-- The lines that init_lines makes: one after the other in the store, each linked to the one before.
pub mod Lines
pub mod Adding
pub mod Marking
pub mod Fresh
pub mod Loaded
use lprog_hw.Prelude.{
  ℕ, zero, suc, ◌+◌, ◌≤◌, ◌<◌, ◌≡◌, refl, sym, ap, ◌∙◌, subst, ◌≢◌, ◌⊎◌, inl, inr, Bool, true,
  false, Bool-cases, ◌==◌, ==-sound, ==-true, ==-false, Option, none, some, Option-cases, arith,
  if◌then◌else◌,
}
use lprog_hw.Buffer.State.{Ptr, null, Line, write}
use lprog_hw.Buffer.Safe.{At, Linked, Like}

abbrev pub prev_of : ℕ → ℕ → Ptr
prev_of a zero = null
prev_of a (suc i) = a + i

abbrev pub next_of : ℕ → ℕ → ℕ → Ptr
next_of a n i = if suc i == n then null else a + (suc i)

module _ {R : Type 0} where
  -- The line `i` of `n` that stand in a row from `a` on.
  abbrev pub InRow : ℕ → ℕ → ℕ → Line R → Type 0
  InRow a n i l = (l.prev ≡ prev_of a i) × (l.next ≡ next_of a n i)

  -- The store has `n` lines in a row from `a` on, and no other.
  pub record Row (h : Ptr → Option (Line R)) (a n : ℕ) : Type 0 where
    pub line : (i : ℕ) → i < n → (l : Line R) × (h (a + i) ≡ some l) × InRow a n i l
    pub only : (q : Ptr) (l : Line R) → h q ≡ some l → (i : ℕ) × (i < n) × (q ≡ a + i)

  module _ {h : Ptr → Option (Line R)} {a n : ℕ} (r : Row h a n) (start : 0 < a) where
    pub Row-At : (i : ℕ) → i < n → (l : Line R) × At h (a + i) l × InRow a n i l
    Row-At i lt =
        let (l, e, z) = r.line i lt in (l, record { ne_null = λ z. omega (arith, z); holds = e }, z)

    -- Where a line is in the row.
    pub placed : (q : Ptr) (l : Line R) → At h q l → (i : ℕ) × (i < n) × (q ≡ a + i) × InRow a n i l
    placed q l aq =
        let (i, lt, e) = r.only q l aq.holds in
        let (m, e', z) = r.line i lt in
        let same : m ≡ l = cc (e', aq.holds, ap h e) in (i, lt, e, subst (InRow a n i) same z)

    next_in : (i : ℕ) → i < n → next_of a n i ≢ null → (suc i < n) × (next_of a n i ≡ a + (suc i))
    next_in i lt ne = elim (Bool-cases (suc i == n)) [
      | inl e ↦ absurd (ne (rw e refl))
      | inr e ↦ (ground arith, rw e refl)
    ]

    prev_in : (i : ℕ) → prev_of a i ≢ null → (j : ℕ) × (i ≡ suc j)
    prev_in zero ne = absurd (ne refl)
    prev_in (suc j) ne = (j, refl)

    next_of-inner : (i : ℕ) → suc i < n → next_of a n i ≡ a + (suc i)
    next_of-inner i lt = let e = ==-false (suc i) n (λ z. omega (arith, z)) in rw e refl

    pub Row-Linked : Linked h
    Row-Linked = record {
      back = λ q l aq ne.
          let (i, lt, e, (pr, nx)) = placed q l aq in
          let (j, e') = prev_in i (λ z. ne (pr ∙ z)) in
          let (m, am, (pm, nm)) = Row-At j (omega (arith, e')) in
          let eq : l.prev ≡ a + j = pr ∙ ap (prev_of a) e' in
          (
            m,
            subst (λ p. At h p m) (sym eq) am,
            nm
                ∙ next_of-inner j (omega (arith, e'))
                ∙ sym (e ∙ ap (λ i. a + i) (omega (arith, e'))),
          );
      forth = λ q l aq ne.
          let (i, lt, e, (pr, nx)) = placed q l aq in
          let (lt', e') = next_in i lt (λ z. ne (nx ∙ z)) in
          let (m, am, (pm, nm)) = Row-At (suc i) lt' in
          (m, subst (λ p. At h p m) (sym (nx ∙ e')) am, pm ∙ sym e);
      no_loop = λ q l aq z.
          let (i, lt, e, (pr, nx)) = placed q l aq in
          elim (Bool-cases (suc i == n)) [
            | inl y ↦ let nx' : l.next ≡ null = nx ∙ (rw y refl) in omega (arith, nx', z, e, start)
            | inr y ↦ let nx' : l.next ≡ a + (suc i) = nx ∙ (rw y refl) in omega (arith, nx', z, e)
          ];
    }
