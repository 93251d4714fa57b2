-- ===== src/Buffer/Created/Lines.antt =====
-- line_new at the end of a chain.
use lprog_hw.Prelude.{ℕ, ◌+◌, ◌≡◌, refl, sym, ◌∙◌, ◌≢◌, false, ==-true, ==-false, Option, some}
use lprog_hw.Rope.{Rope}
use lprog_hw.Buffer.State.{Ptr, null, Line, Buffer, bellow, done, write, set_next}
use lprog_hw.Buffer.Cursors.{line_new, alloc_line, place_line}
use lprog_hw.Buffer.Returns.{Returns, returns, bind, mono, on_eq}
use lprog_hw.Buffer.Safe.{
  At, Stored, load-At, Marks-Stored, Marks-trans, Marked, set_on_screen-Marked, set_location-Marked,
}

module _ {R : Type 0} where
  pub Marked-trans : {b c d : Buffer R} → Marked b c → Marked c d → Marked b d
  Marked-trans m k = record {
    marks = Marks-trans m.marks k.marks;
    top = k.top ∙ m.top;
    bottom = k.bottom ∙ m.bottom;
  }

  pub At-written :
      (h : Ptr → Option (Line R)) {p : Ptr} (l : Line R) → p ≢ null → At (write h p (some l)) p l
  At-written h {p} l ne = record { ne_null = ne; holds = rw (==-true p p refl) refl }

  At-write_ne :
      {h : Ptr → Option (Line R)} {q : Ptr} {m : Line R} (p : Ptr) (c : Option (Line R))
      → q ≢ p
      → At h q m
      → At (write h p c) q m
  At-write_ne {q} p c ne a = record { ne_null = a.ne_null; holds = rw (==-false q p ne) a.holds }

  set_next-done :
      (b : Buffer R) {p : Ptr} (q : Ptr) {l : Line R}
      → At b.cell p l
      → set_next p q b ≡ done tt (record b { cell = write b.cell p (some (record l { next = q })) })
  unfolding set_next
  set_next-done b q a = rw (load-At b a) refl

module _ {R : Type 0} ⦃rope : Rope R⦄ where
  abbrev pub fresh_line : Buffer R → ℕ → Ptr → Line R
  fresh_line b id prev = record {
    id = id;
    str = rope.new;
    prev = prev;
    next = null;
    on_screen = b.junk_on_screen;
    location = b.junk_location;
  }

  -- The store after line_new(id, pp, NULL), where `l` is the line at `pp`.
  abbrev pub appended : Buffer R → ℕ → Ptr → Line R → Buffer R
  appended b id pp l = record b {
    cell =
        write (write b.cell b.brk (some (fresh_line b id pp))) pp
          (some (record l { next = b.brk }));
    brk = b.brk + 1;
  }

  pub line_new-Marked :
      (b : Buffer R) (id : ℕ) (pp : Ptr) (l : Line R)
      → At b.cell pp l
      → b.brk ≢ null
      → b.brk ≢ pp
      → Returns (λ p b'. (p ≡ b.brk) × Marked (appended b id pp l) b') (line_new id pp null b)
  unfolding line_new alloc_line place_line
  line_new-Marked b id pp l a ne fresh = rw (==-false pp null a.ne_null) (
      on_eq _ (set_next-done _ b.brk (At-write_ne b.brk _ (λ z. fresh (sym z)) a)) (
        bind {P = λ _. Marked (appended b id pp l)}
          (bind (set_on_screen-Marked false stored) λ _ c m.
            mono (set_location-Marked bellow (Marks-Stored m.marks stored))
              λ _ d k. Marked-trans m k)
          λ _ d k. returns (refl, k)))
    where
      stored : Stored (appended b id pp l).cell b.brk
      stored =
          (fresh_line b id pp, At-write_ne pp _ fresh (At-written b.cell (fresh_line b id pp) ne))
