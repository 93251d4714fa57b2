-- ===== src/Buffer/Splitting/Made.antt =====
-- line_new between two neighbours.
use lprog_hw.Prelude.{
  ℕ, ◌+◌, ◌≡◌, refl, sym, ◌∙◌, subst, ◌≢◌, ◌==◌, inl, inr, Bool-cases, ==-sound, ==-true, ==-false,
  Option, none, some, List, [], if◌then◌else◌, Bool, false,
}
use lprog_hw.Rope.{Rope}
use lprog_hw.Buffer.State.{
  Crp, above, bellow, Ptr, null, Line, Buffer, skip, write, set_prev, set_next, set_on_screen,
  set_location, ◌>>◌,
}
use lprog_hw.Buffer.Cursors.{line_new, alloc_line, place_line}
use lprog_hw.Buffer.Returns.{Returns, returns, bind, mono}
use lprog_hw.Buffer.Safe.{
  Stored, on_load, Marked, Marks-refl, Marks-Stored, set_on_screen-Marked, set_location-Marked,
}
use lprog_hw.Buffer.Created.Lines.{Marked-trans}
use lprog_hw.Buffer.Splitting.Rewired.{
  at_ptr, Rewired, Rewired-as, Rewired-refl, SameRest, SameRest-cell, Rewires, Rewires-trans,
  Marked-Rewires, set_next-Rewires, set_prev-Rewires,
}
use lprog_hw.Buffer.Splitting.Linking.{Gap, Inserts, Inserts-of_Rewired, fresh-ne}

module _ {R : Type 0} ⦃rope : Rope R⦄ where
  unlinked :
      (h : Ptr → Option (Line R)) (v : Ptr) → Rewired h h (λ q t. t) (λ q x. x) (at_ptr null v)
  unlinked h v =
      Rewired-as (Rewired-refl h) λ q m a. (refl, refl, rw (==-false q null a.ne_null) refl)

  unlinked_back :
      (h : Ptr → Option (Line R)) (v : Ptr) → Rewired h h (λ q t. t) (at_ptr null v) (λ q x. x)
  unlinked_back h v =
      Rewired-as (Rewired-refl h) λ q m a. (refl, rw (==-false q null a.ne_null) refl, refl)

  pub link_next :
      {b : Buffer R} (p v : Ptr)
      → (p ≢ null → Stored b.cell p)
      → Returns
          (λ _ b'. Rewires b b' (λ q t. t) (λ q x. x) (at_ptr p v))
          ((if p == null then skip else set_next p v) b)
  link_next {b} p v s = elim (Bool-cases (p == null)) [
    | inl z ↦ rw z (
        returns (record {
          cells =
              subst (λ p. Rewired b.cell b.cell (λ q t. t) (λ q x. x) (at_ptr p v))
                (sym (==-sound p null z)) (unlinked b.cell v);
          rest = SameRest-cell b b.cell;
        }))
    | inr z ↦ rw z (set_next-Rewires p v (s (λ y. cc (==-true p null y, z))))
  ]

  pub link_prev :
      {b : Buffer R} (p v : Ptr)
      → (p ≢ null → Stored b.cell p)
      → Returns
          (λ _ b'. Rewires b b' (λ q t. t) (at_ptr p v) (λ q x. x))
          ((if p == null then skip else set_prev p v) b)
  link_prev {b} p v s = elim (Bool-cases (p == null)) [
    | inl z ↦ rw z (
        returns (record {
          cells =
              subst (λ p. Rewired b.cell b.cell (λ q t. t) (at_ptr p v) (λ q x. x))
                (sym (==-sound p null z)) (unlinked_back b.cell v);
          rest = SameRest-cell b b.cell;
        }))
    | inr z ↦ rw z (set_prev-Rewires p v (s (λ y. cc (==-true p null y, z))))
  ]

  mark_both :
      {b : Buffer R} (p : Ptr) (u : Bool) (v : Crp)
      → Stored b.cell p
      → Returns (λ _. Marked b) ((do set_on_screen p u; set_location p v) b)
  mark_both p u v s =
      bind (set_on_screen-Marked u s)
        λ _ c m. mono (set_location-Marked v (Marks-Stored m.marks s)) λ _ d k. Marked-trans m k

  place_line-Marked :
      {b : Buffer R} (p pp nn : Ptr)
      → Stored b.cell p
      → (pp ≢ null → Stored b.cell pp)
      → (nn ≢ null → Stored b.cell nn)
      → Returns (λ _. Marked b) (place_line p pp nn b)
  unfolding place_line
  place_line-Marked {b} p pp nn s sp sn = elim (Bool-cases (pp == null)) [
    | inl z ↦ elim (Bool-cases (nn == null)) [
      | inl y ↦ rw (z, y) (returns (record { marks = Marks-refl b; top = refl; bottom = refl }))
      | inr y ↦ rw (z, y) (mark_both p false above s)
    ]
    | inr z ↦ elim (Bool-cases (nn == null)) [
      | inl y ↦ rw (z, y) (mark_both p false bellow s)
      | inr y ↦
          let (l, al) = sp (λ v. cc (==-true pp null v, z)) in
          let (m, am) = sn (λ v. cc (==-true nn null v, y)) in
          let (n, an) = s in
          rw (z, y) (on_load b _ al (on_load b _ am (on_load b _ an (mark_both p _ _ s))))
    ]
  ]

  -- The line that malloc and the first assignments make.
  abbrev pub blank : Buffer R → ℕ → Ptr → Ptr → Line R
  blank b id pp nn = record {
    id = id;
    str = rope.new;
    prev = pp;
    next = nn;
    on_screen = b.junk_on_screen;
    location = b.junk_location;
  }

  -- After line_new the store has an empty line, between the two.
  pub record Made (b b' : Buffer R) (p pp nn : Ptr) : Type 0 where
    pub inserts : Inserts b.cell b'.cell p pp nn [] (λ q t. t)
    pub rest : SameRest (record b { brk = b.brk + 1 }) b'

  Gap-Stored :
      {h : Ptr → Option (Line R)} {pp nn : Ptr}
      → Gap h pp nn
      → (pp ≢ null → Stored h pp) × (nn ≢ null → Stored h nn)
  Gap-Stored g =
      (λ ne. let (l, a, _) = g.before ne in (l, a), λ ne. let (l, a, _) = g.after ne in (l, a))

  pub line_new-Made :
      (b : Buffer R) (id : ℕ) (pp nn : Ptr)
      → Gap b.cell pp nn
      → b.brk ≢ null
      → b.cell b.brk ≡ none
      → Returns (λ p b'. Made b b' p pp nn) (line_new id pp nn b)
  unfolding line_new alloc_line
  line_new-Made b id pp nn g ne fresh = bind (link_next pp b.brk (λ z. kept pp (sg.0 z))) λ _ c w.
      bind (link_prev nn b.brk (λ z. moved w nn (kept nn (sg.1 z)))) λ _ d w'.
        let k = Rewires-trans w w' in
        bind
          (place_line-Marked b.brk pp nn (moved k b.brk made) (λ z. moved k pp (kept pp (sg.0 z)))
            (λ z. moved k nn (kept nn (sg.1 z))))
          λ _ e m.
            let all = Rewires-trans k (Marked-Rewires m) in
            returns (record { inserts = whole all.cells; rest = rest_of_all all.rest })
    where
      sg : (pp ≢ null → Stored b.cell pp) × (nn ≢ null → Stored b.cell nn)
      sg = Gap-Stored g

      h1 : Ptr → Option (Line R)
      h1 = write b.cell b.brk (some (blank b id pp nn))

      kept : (q : Ptr) → Stored b.cell q → Stored h1 q
      kept q (l, a) = (
        l,
        record { ne_null = a.ne_null; holds = rw (==-false q b.brk (fresh-ne fresh a)) a.holds },
      )

      made : Stored h1 b.brk
      made = (blank b id pp nn, record { ne_null = ne; holds = rw (==-true b.brk b.brk refl) refl })

      moved :
          {c d : Buffer R} {e : Ptr → List ℕ → List ℕ} {f f' : Ptr → Ptr → Ptr}
          → Rewires c d e f f'
          → (q : Ptr) → Stored c.cell q
          → Stored d.cell q
      moved w q (l, a) = let (m, am, _, _, _) = w.cells.olds q l a in (m, am)

      rest_of_all :
          {d : Buffer R}
          → SameRest (record b { brk = b.brk + 1; cell = h1 }) d
          → SameRest (record b { brk = b.brk + 1 }) d
      rest_of_all r = record {
        first = r.first;
        last = r.last;
        top = r.top;
        bottom = r.bottom;
        own_curs = r.own_curs;
        peer_curss = r.peer_curss;
        brk = r.brk;
      }

      apart : (q : Ptr) → (q ≢ null → Stored b.cell q) → q ≢ b.brk
      apart q s z = let (l, a) = s (λ y. ne (sym z ∙ y)) in fresh-ne fresh a z

      whole :
          {h : Ptr → Option (Line R)}
          → Rewired h1 h (λ q t. t) (at_ptr nn b.brk) (at_ptr pp b.brk)
          → Inserts b.cell h b.brk pp nn [] (λ q t. t)
      whole {h} w =
          subst (λ t. Inserts b.cell h b.brk pp nn t (λ q t. t)) rope.text-new
            (Inserts-of_Rewired (blank b id pp nn) ne fresh (apart pp sg.0) (apart nn sg.1) refl
              refl w)
