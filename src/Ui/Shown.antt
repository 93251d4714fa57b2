-- ===== src/Ui/Shown.antt =====
-- What ui_update draws of the window.
use lprog_hw.Prelude.{
  ℕ, zero, suc, ◌+◌, ◌*◌, ◌≤◌, ◌<◌, ◌≡◌, refl, sym, ap, ◌∙◌, subst, Bool-cases, inl, inr, false,
  ◌==◌, ==-true, ==-false, ltb-false, Option, none, some, List, [], ◌∷◌, ◌++◌, length, get_elem?,
  Memᴰ, arith,
}
use mathlib.Core.List.Memᴰ.{head, tail}
use lprog_hw.Rope.{Rope}
use lprog_hw.Utilities.Text.{Text}
use lprog_hw.Buffer.State.{Ptr, null, Line, Cursor, Buffer, done}
use lprog_hw.Buffer.Returns.{Returns, returns, bind, mono, on_eq}
use lprog_hw.Buffer.Safe.{At, Stored, on_load, Safe}
use lprog_hw.Buffer.Document.{Place}
use lprog_hw.Ui.{
  Ui, Draw, clear, text_at, expand, draw_margin, draw_peers, printed, draw_row, draw_rows,
  found_cursor, draw_rest, ui_update,
}

mem_left : {A : Type 0} {x : A} {xs : List A} (ys : List A) → Memᴰ x xs → Memᴰ x (xs ++ ys)
mem_left ys (head e) = head e
mem_left ys (tail h) = tail (mem_left ys h)

mem_right : {A : Type 0} {x : A} (xs : List A) {ys : List A} → Memᴰ x ys → Memᴰ x (xs ++ ys)
mem_right [] h = h
mem_right (y ∷ xs) h = tail (mem_right xs h)

module _ {R : Type 0} where
  -- From `p` the `next` pointers lead through the lines `xs` to NULL.
  abbrev pub Chain : (Ptr → Option (Line R)) → Ptr → List (Place R) → Type 0
  Chain h p [] = p ≡ null
  Chain h p (x ∷ xs) = (p ≡ x.0) × At h x.0 x.1 × Chain h x.1.next xs

  draw_margin-Returns :
      (b : Buffer R) (k i p : ℕ) (xs : List (Place R))
      → Chain b.cell p xs
      → length xs < k
      → Returns (λ _ b'. b' ≡ b) (draw_margin k i p b)
  unfolding draw_margin
  draw_margin-Returns b zero i p xs c h = absurd (omega arith)
  draw_margin-Returns b (suc k) i p [] c h = rw (==-true p null c) (returns refl)
  draw_margin-Returns b (suc k) i p (x ∷ xs) (e, a, more) h =
      subst (λ p. Returns (λ _ b'. b' ≡ b) (draw_margin (suc k) i p b)) (sym e)
        (rw (==-false x.0 null a.ne_null) (
          on_load b _ a (elim (Bool-cases (x.1.next == null)) [
            | inl z ↦ rw z (returns refl)
            | inr z ↦ rw z (
                bind (draw_margin-Returns b k (i + 1) x.1.next xs more (omega arith))
                  λ rest d q. returns q)
          ])))

  draw_peers-Returns :
      (b : Buffer R) (i lit : ℕ) (cs : List (Option Cursor))
      → ((j : ℕ) (c : Cursor) → get_elem? cs j ≡ some (some c) → Stored b.cell c.own_line)
      → Returns (λ _ b'. b' ≡ b) (draw_peers i lit cs b)
  unfolding draw_peers
  draw_peers-Returns b i lit [] live = returns refl
  draw_peers-Returns b i lit (none ∷ cs) live =
      draw_peers-Returns b i lit cs (λ j c e. live (suc j) c e)
  draw_peers-Returns b i lit (some c ∷ cs) live =
      let (l, a) = live 0 c refl in
      on_load b _ a
        (bind (draw_peers-Returns b i lit cs (λ j c e. live (suc j) c e)) λ rest d q. returns q)

module _ {R : Type 0} ⦃rope : Rope R⦄ where
  -- The text fits into `cstr` and has no directive; printed it is `s`.
  abbrev pub Prints : Ui → R → Text → Type 0
  Prints u str s =
      (length (rope.text str) ≤ u.width * u.height) × (expand false (rope.text str) ≡ some s)

  abbrev pub Printable : Ui → List (Place R) → Type 0
  Printable u [] = Unit {0}
  Printable u (x ∷ xs) = ((s : Text) × Prints u x.1.str s) × Printable u xs

  -- The line `j` of `xs`, if it is one of the first `k`, is drawn at the row `i + j`.
  abbrev pub Drawn : Ui → ℕ → ℕ → List (Place R) → List Draw → Type 0
  Drawn u k i xs ds =
      (j : ℕ) (x : Place R) (s : Text)
      → j < k
      → get_elem? xs j ≡ some x
      → Prints u x.1.str s
      → Memᴰ (text_at (i + j) 0 s) ds

  printed-done :
      (u : Ui) (str : R) (s : Text) (b : Buffer R) → Prints u str s → printed u str b ≡ done s b
  unfolding printed
  printed-done u str s b (fits, e) =
      rw (ltb-false (u.width * u.height) (length (rope.text str)) fits, e) refl

  draw_row-Drawn :
      (u : Ui) (i lit : ℕ) (l : Line R) (s : Text) (b : Buffer R)
      → Safe b
      → Prints u l.str s
      → Returns (λ ds b'. (b' ≡ b) × Memᴰ (text_at i 0 s) ds) (draw_row u i lit l b)
  unfolding draw_row
  draw_row-Drawn u i lit l s b safe p = on_eq _ (printed-done u l.str s b p) (
      bind
        (draw_peers-Returns b i lit b.peer_curss
          (λ j c e. let (l, a, _) = safe.peer_curss j c e in (l, a)))
        λ peers d q. returns (q, head refl))

  first_drawn :
      (u : Ui) (i : ℕ) (x : Place R) (s : Text) (ds : List Draw)
      → Prints u x.1.str s
      → Memᴰ (text_at i 0 s) ds
      → (y : Place R) (t : Text) → some x ≡ some y
      → Prints u y.1.str t
      → Memᴰ (text_at (i + 0) 0 t) ds
  first_drawn u i x s ds (_, e) m y t q (_, f) =
      let xy : x ≡ y = cc q in
      let st : s ≡ t = cc (e, f, ap (λ (z : Place R). expand false (rope.text z.1.str)) xy) in
      let z : i ≡ i + 0 = omega arith in
      subst (λ n. Memᴰ (text_at n 0 t) ds) z (subst (λ r. Memᴰ (text_at i 0 r) ds) st m)

  draw_rows-Drawn :
      (u : Ui) (b : Buffer R)
      → Safe b
      → (k i lit : ℕ) (at : Option (ℕ × ℕ)) (x : Place R) (xs : List (Place R))
      → Chain b.cell lit (x ∷ xs)
      → Printable u (x ∷ xs)
      → Returns (λ r b'. (b' ≡ b) × Drawn u k i (x ∷ xs) r.0) (draw_rows u k i lit at b)
  unfolding draw_rows
  draw_rows-Drawn u b safe zero i lit at x xs c p = returns (refl, λ j y s lt. absurd (omega arith))
  draw_rows-Drawn u b safe (suc k) i lit at x [] (e, a, end) ((s, ps), _) =
      subst
        (λ q.
          Returns (λ r b'. (b' ≡ b) × Drawn u (suc k) i (x ∷ []) r.0)
            (draw_rows u (suc k) i q at b))
        (sym e)
        (on_load b _ a (
          bind (draw_row-Drawn u i x.0 x.1 s b safe ps)
            λ row d (q, m). rw (==-true x.1.next null end) (returns (q, drawn row m))))
    where
      drawn : (row : List Draw) → Memᴰ (text_at i 0 s) row → Drawn u (suc k) i (x ∷ []) row
      drawn row m zero y t lt g pt = first_drawn u i x s row ps m y t g pt
      drawn row m (suc j) y t lt g pt = cc g
  draw_rows-Drawn u b safe (suc k) i lit at x (y ∷ ys) (e, a, more) ((s, ps), pr) =
      subst
        (λ q.
          Returns (λ r b'. (b' ≡ b) × Drawn u (suc k) i (x ∷ y ∷ ys) r.0)
            (draw_rows u (suc k) i q at b))
        (sym e)
        (on_load b _ a (
          bind (draw_row-Drawn u i x.0 x.1 s b safe ps) λ row d (q, m).
            rw (==-false x.1.next null (λ z. more.1.ne_null (sym more.0 ∙ z)), q)
              (bind
                (draw_rows-Drawn u b safe k (i + 1) x.1.next (found_cursor i x.0 b.own_curs at) y ys
                  more pr)
                λ (rest, end) d' (q', w). returns (q', drawn row rest m w))))
    where
      drawn :
          (row rest : List Draw)
          → Memᴰ (text_at i 0 s) row
          → Drawn u k (i + 1) (y ∷ ys) rest
          → Drawn u (suc k) i (x ∷ y ∷ ys) (row ++ rest)
      drawn row rest m w zero z t lt g pt =
          first_drawn u i x s (row ++ rest) ps (mem_left rest m) z t g pt
      drawn row rest m w (suc j) z t lt g pt =
          let n : i + 1 + j ≡ i + suc j = omega arith in
          subst (λ n. Memᴰ (text_at n 0 t) (row ++ rest)) n
            (mem_right row (w j z t (omega arith) g pt))

  draw_rest-Returns :
      (drawn : List Draw) (at : Option (ℕ × ℕ)) (b : Buffer R)
      → Safe b
      → Returns (λ ds b'. (b' ≡ b) × ((x : Draw) → Memᴰ x drawn → Memᴰ x ds)) (draw_rest drawn at b)
  unfolding draw_rest
  draw_rest-Returns drawn at b safe = on_load b _ safe.framed.first.1 (
      on_load b _ safe.framed.last.1 (
        on_load b _ safe.framed.top.1
          (on_load b _ safe.framed.bottom.1 (returns (refl, λ x m. mem_left _ m)))))

  -- On a safe buffer whose lines from first and from top on end with NULL, and where no line from top on is
  -- longer than the window has places or has a directive of printf in its text: ui_update ends, changes
  -- nothing in the buffer, and draws the line j of the window, for each j below its height, at the start of
  -- the row j.
  pub ui_update-Drawn :
      (u : Ui) (b : Buffer R) (xs : List (Place R)) (t : Place R) (ts : List (Place R))
      → Safe b
      → Chain b.cell b.first xs
      → length xs < b.brk
      → Chain b.cell b.top (t ∷ ts)
      → Printable u (t ∷ ts)
      → Returns (λ ds b'. (b' ≡ b) × Drawn u u.height 0 (t ∷ ts) ds) (ui_update u b)
  unfolding ui_update
  ui_update-Drawn u b xs t ts safe c room ct pr =
      bind (draw_margin-Returns b b.brk 0 b.first xs c room) λ margin d e. rw e (
        bind (draw_rows-Drawn u b safe u.height 0 b.top none t ts ct pr) λ (rows, at) d' (e', w).
          subst
            (λ c.
              Returns (λ ds b'. (b' ≡ b) × Drawn u u.height 0 (t ∷ ts) ds)
                (draw_rest (clear ∷ margin ++ rows) at c))
            (sym e')
            (mono (draw_rest-Returns (clear ∷ margin ++ rows) at b safe) λ ds c (q, ends).
              (q, λ j x s lt g ps. ends _ (tail (mem_right margin (w j x s lt g ps))))))
