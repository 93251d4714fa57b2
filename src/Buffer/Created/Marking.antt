-- ===== src/Buffer/Created/Marking.antt =====
-- binit_onscreen_info on lines in a row.
use lprog_hw.Prelude.{
  ℕ, zero, suc, ◌+◌, ◌≤◌, ◌<◌, ◌≡◌, refl, sym, ◌∙◌, subst, Bool, Bool-cases, inl, inr, ◌==◌,
  ==-true, ==-false, arith, if◌then◌else◌,
}
use lprog_hw.Rope.{Rope}
use lprog_hw.Buffer.State.{Crp, Ptr, null, Buffer, same, above}
use lprog_hw.Buffer.Window.{mark_line, mark_lines, binit_onscreen_info}
use lprog_hw.Buffer.Returns.{Returns, returns, bind, mono}
use lprog_hw.Buffer.Safe.{
  At, Stored, on_load, Marks-refl, Marks-Stored, Marked, set_on_screen-Marked, set_location-Marked,
}
use lprog_hw.Buffer.Created.{Row-At}
use lprog_hw.Buffer.Created.Lines.{Marked-trans}
use lprog_hw.Buffer.Created.Adding.{Rows, Marks-Rows}

module _ {R : Type 0} where
  Marked-refl : (b : Buffer R) → Marked b b
  Marked-refl b = record { marks = Marks-refl b; top = refl; bottom = refl }

  mark_line-Marked :
      (b : Buffer R) (p : Ptr) (os : Bool) (rel : Crp)
      → Stored b.cell p
      → Returns (λ _. Marked b) (mark_line p os rel b)
  unfolding mark_line
  mark_line-Marked b p os rel s = bind (set_on_screen-Marked _ s) λ _ c m.
      bind (set_location-Marked _ (Marks-Stored m.marks s)) λ _ d k. returns (Marked-trans m k)

module _ {R : Type 0} ⦃rope : Rope R⦄ where
  mark_lines-Marked :
      (k i a n : ℕ) (b : Buffer R) (os : Bool) (rel : Crp)
      → 0 < a
      → Rows b a n
      → i < n
      → n ≤ i + k
      → Returns (λ _. Marked b) (mark_lines k (a + i) os rel b)
  unfolding mark_lines
  mark_lines-Marked zero i a n b os rel start r lt le = absurd (omega arith)
  mark_lines-Marked (suc k) i a n b os rel start r lt le =
      let (l, al, (pr, nx)) = Row-At r.row start i lt in
      on_load b _ al (elim (Bool-cases (suc i == n)) [
        | inl e ↦
            let nx' : l.next ≡ null = nx ∙ (rw e refl) in
            rw (==-true l.next null nx') (returns (Marked-refl b))
        | inr e ↦
            let nx' : l.next ≡ a + suc i = nx ∙ (rw e refl) in
            let lt' : suc i < n = ground (arith, lt) in
            let (m, am, _) = Row-At r.row start (suc i) lt' in
            let stored : Stored b.cell l.next = (m, subst (λ p. At b.cell p m) (sym nx') am) in
            rw (==-false l.next null (λ z. omega (arith, z, nx'))) (
              bind (mark_line-Marked b l.next os rel stored) λ (os', rel') c m.
                mono
                  (subst (λ p. Returns (λ _. Marked c) (mark_lines k p os' rel' c)) (sym nx')
                    (mark_lines-Marked k (suc i) a n c os' rel' start (Marks-Rows m.marks r) lt'
                      (omega arith)))
                  λ _ d w. Marked-trans m w)
      ])

  pub binit_onscreen_info-Marked :
      (a n : ℕ) (b : Buffer R)
      → 0 < a
      → Rows b a (suc n)
      → b.first ≡ a
      → Returns (λ _. Marked b) (binit_onscreen_info b)
  unfolding binit_onscreen_info
  binit_onscreen_info-Marked a n b start r e =
      let (l, al, _) = Row-At r.row start 0 (omega arith) in
      let z : a + 0 ≡ b.first = omega (arith, e) in
      let stored : Stored b.cell b.first = (l, subst (λ p. At b.cell p l) z al) in
      bind (set_on_screen-Marked _ stored) λ _ c m.
        bind (set_location-Marked _ (Marks-Stored m.marks stored)) λ _ d k.
          mono
            (subst
              (λ p.
                Returns (λ _. Marked d)
                  (mark_lines b.brk p (b.first == b.top)
                    (if b.own_curs.own_line == b.first then same else above) d))
              z
              (mark_lines-Marked b.brk 0 a (suc n) d _ _ start
                (Marks-Rows k.marks (Marks-Rows m.marks r)) (omega arith) (omega (arith, r.brk))))
            λ _ d' w. Marked-trans m (Marked-trans k w)
