-- ===== src/Buffer/Splitting/Lines.antt =====
-- The lines of the document, with one line more: what buffer_save makes of them.
use lprog_hw.Prelude.{
  ℕ, suc, ◌+◌, ◌≤◌, ◌<◌, ◌≡◌, refl, sym, ◌∙◌, ap, subst, ◌≢◌, ◌==◌, inl, inr, Bool-cases, ==-sound,
  ==-true, ==-false, Option, List, [], ◌∷◌, ◌++◌, if◌then◌else◌, true, false, arith, length,
}
use mathlib.Core.List.{append_assoc}
use lprog_hw.Rope.{Rope}
use lprog_hw.Buffer.State.{Ptr, Line}
use lprog_hw.Buffer.File.{newline}
use lprog_hw.Buffer.Safe.{At, Linked}
use lprog_hw.Buffer.Document.{Place, Forward, bytes_of, eq_of_At}
use lprog_hw.Buffer.Document.Edits.{bytes_with}
use lprog_hw.Buffer.Splitting.Rewired.{at_ptr}
use lprog_hw.Buffer.Splitting.Linking.{Inserts, fresh-ne}

-- Two texts, on two lines.
abbrev pub joined : List ℕ → List ℕ → List ℕ
joined t u = t ++ newline ∷ u

module _ {R : Type 0} where
  pub Forward-cons :
      (h : Ptr → Option (Line R)) (last q : Ptr) (x : Place R) (ys : List (Place R))
      → q ≡ x.0
      → At h x.0 x.1
      → x.0 ≢ last
      → Forward h last x.1.next ys
      → Forward h last q (x ∷ ys)
  Forward-cons h last q x [] e a ne w = elim w [ ]
  Forward-cons h last q x (y ∷ ys) e a ne w = (e, a, ne, w)

  -- How often the address occurs.
  abbrev pub count : Ptr → List (Place R) → ℕ
  count q [] = 0
  count q (x ∷ xs) = (if x.0 == q then 1 else 0) + count q xs

  same_length :
      (h : Ptr → Option (Line R)) (last q : Ptr) (xs ys : List (Place R))
      → Forward h last q xs
      → Forward h last q ys
      → length xs ≡ length ys
  same_length h last q [] ys w v = elim w [ ]
  same_length h last q (x ∷ xs) [] w v = elim v [ ]
  same_length h last q (x ∷ []) (y ∷ []) w v = refl
  same_length h last q (x ∷ []) (y ∷ y' ∷ ys) (e, a, z) (e', a', ne, v) =
      absurd (ne (sym e' ∙ e ∙ z))
  same_length h last q (x ∷ x' ∷ xs) (y ∷ []) (e, a, ne, w) (e', a', z) =
      absurd (ne (sym e ∙ e' ∙ z))
  same_length h last q (x ∷ x' ∷ xs) (y ∷ y' ∷ ys) (e, a, ne, w) (e', a', ne', v) =
      let here : x.0 ≡ y.0 = sym e ∙ e' in
      let same = eq_of_At (subst (λ z. At h z x.1) here a) a' in
      let next : y.1.next ≡ x.1.next = ap (λ (l : Line R). l.next) (sym same) in
      ap suc (
        same_length h last x.1.next (x' ∷ xs) (y' ∷ ys) w
          (subst (λ z. Forward h last z (y' ∷ ys)) next v))

  -- No address of a shorter list of lines is that of a longer one's first.
  absent :
      (h : Ptr → Option (Line R)) (last q s : Ptr) (n : ℕ) (xs : List (Place R))
      → ((ys : List (Place R)) → Forward h last q ys → length ys ≡ n)
      → Forward h last s xs
      → length xs < n
      → count q xs ≡ 0
  absent h last q s n [] k w lt = refl
  absent h last q s n (x ∷ []) k w lt = elim (Bool-cases (x.0 == q)) [
    | inl z ↦
        let e : s ≡ q = w.0 ∙ ==-sound x.0 q z in
        absurd (omega (arith, k (x ∷ []) (subst (λ s. Forward h last s (x ∷ [])) e w)))
    | inr z ↦ rw z (omega arith)
  ]
  absent h last q s n (x ∷ y ∷ xs) k w lt = elim (Bool-cases (x.0 == q)) [
    | inl z ↦
        let e : s ≡ q = w.0 ∙ ==-sound x.0 q z in
        absurd (omega (arith, k (x ∷ y ∷ xs) (subst (λ s. Forward h last s (x ∷ y ∷ xs)) e w)))
    | inr z ↦ rw z (omega (arith, absent h last q x.1.next n (y ∷ xs) k w.3 (omega arith)))
  ]

  -- Each line occurs once.
  pub count-le :
      (h : Ptr → Option (Line R)) (last q s : Ptr) (xs : List (Place R))
      → Forward h last s xs
      → count q xs ≤ 1
  count-le h last q s [] w = omega arith
  count-le h last q s (x ∷ []) w = ground arith
  count-le h last q s (x ∷ y ∷ xs) w = elim (Bool-cases (x.0 == q)) [
    | inl z ↦
        let e : s ≡ q = w.0 ∙ ==-sound x.0 q z in
        let w' = subst (λ s. Forward h last s (x ∷ y ∷ xs)) e w in
        rw z (
          omega (
            arith,
            absent h last q x.1.next (length (x ∷ y ∷ xs)) (y ∷ xs)
                (λ ys v. same_length h last q ys (x ∷ y ∷ xs) v w') w.3 (omega arith),
          ))
    | inr z ↦ rw z (omega (arith, count-le h last q x.1.next (y ∷ xs) w.3))
  ]

start_other :
    (p q s : Ptr) {R : Type 0} (x : Place R)
    → (x.0 == q) ≡ false
    → s ≡ x.0
    → (if s == q then p else s) ≡ x.0
start_other p q s x z e = rw (==-false s q (λ y. cc (==-true x.0 q (sym e ∙ y), z))) e

pub bytes-nil :
    (R : Type 0) ⦃rope : Rope R⦄ (q : Ptr) (t : List ℕ)
    → bytes_of {R = R} [] ≡ bytes_with {R = R} q t []
unfolding bytes_of bytes_with
bytes-nil R q t = refl

module _ {R : Type 0} ⦃rope : Rope R⦄ where
  -- The line at `x.0`, changed, and then the others.
  pub bytes_of-cons :
      (q : Ptr) (l : Line R) (t : List ℕ) (ys : List (Place R)) (rest : List ℕ)
      → rope.text l.str ≡ t
      → bytes_of ys ≡ rest
      → bytes_of ((q, l) ∷ ys) ≡ t ++ newline ∷ rest
  unfolding bytes_of
  bytes_of-cons q l t ys rest e k = rw (e, k) refl

  bytes_of-two :
      (q p : Ptr) (l m : Line R) (t u : List ℕ) (ys : List (Place R)) (rest : List ℕ)
      → rope.text l.str ≡ t
      → rope.text m.str ≡ u
      → bytes_of ys ≡ rest
      → bytes_of ((q, l) ∷ (p, m) ∷ ys) ≡ (t ++ newline ∷ u) ++ newline ∷ rest
  bytes_of-two q p l m t u ys rest e f k =
      bytes_of-cons q l t ((p, m) ∷ ys) _ e (bytes_of-cons p m u ys rest f k)
      ∙ sym (append_assoc t (newline ∷ u) (newline ∷ rest))

  bytes_with-hit :
      (q : Ptr) (t : List ℕ) (x : Place R) (xs : List (Place R))
      → (x.0 == q) ≡ true
      → bytes_with q t (x ∷ xs) ≡ t ++ newline ∷ bytes_with q t xs
  unfolding bytes_with
  bytes_with-hit q t x xs z = rw z refl

  bytes_with-miss :
      (q : Ptr) (t : List ℕ) (x : Place R) (xs : List (Place R))
      → (x.0 == q) ≡ false
      → bytes_with q t (x ∷ xs) ≡ rope.text x.1.str ++ newline ∷ bytes_with q t xs
  unfolding bytes_with
  bytes_with-miss q t x xs z = rw z refl

  -- Lines that are saved as `xs` is, with `t` for the line at `q`, and one line more there.
  abbrev pub Longer : (Ptr → Option (Line R)) → Ptr → Ptr → Ptr → List ℕ → List (Place R) → Type 0
  Longer h' last s q t xs =
      (ys : List (Place R)) × Forward h' last s ys
      × (bytes_of ys ≡ bytes_with q t xs)
      × (length ys ≡ length xs + count q xs)

  module _ {h h' : Ptr → Option (Line R)} {p q last : Ptr} {l : Line R} (t u : List ℕ)
      (i : Inserts h h' p q l.next u (at_ptr q t)) (a : At h q l) (ne_last : p ≢ last) where
    -- The new line stands behind the line `q`.
    pub after_places :
        (s : Ptr) (xs : List (Place R))
        → Forward h last s xs
        → Longer h' (if q == last then p else last) s q (joined t u) xs
    after_places s [] w = elim w [ ]
    after_places s (x ∷ []) (es, ax, z) =
        let (m, am, tm, _, em) = i.olds x.0 x.1 ax in
        elim (Bool-cases (x.0 == q)) [
          | inl y ↦
              let (n, an, tn, _, en) = i.new in
              let is_last : (q == last) ≡ true = ==-true q last (sym (==-sound x.0 q y) ∙ z) in
              (
                (x.0, m) ∷ (p, n) ∷ [],
                rw is_last (es, am, fresh-ne i.fresh ax, (em ∙ rw y refl, an, refl)),
                bytes_of-two x.0 p m n t u [] _ (tm ∙ rw y refl) tn (bytes-nil R q (joined t u))
                    ∙ sym (bytes_with-hit q (joined t u) x [] y),
                rw y (omega arith),
              )
          | inr y ↦
              let not_last : (q == last) ≡ false =
                ==-false q last (λ v. cc (==-true x.0 q (z ∙ sym v), y)) in
              (
                (x.0, m) ∷ [],
                rw not_last (es, am, z),
                bytes_of-cons x.0 m _ [] _ (tm ∙ rw y refl) (bytes-nil R q (joined t u))
                    ∙ sym (bytes_with-miss q (joined t u) x [] y),
                rw y (omega arith),
              )
        ]
    after_places s (x ∷ y ∷ xs) (es, ax, ne, w) =
        let (m, am, tm, _, em) = i.olds x.0 x.1 ax in
        let (ys, v, bs, len) = after_places x.1.next (y ∷ xs) w in
        elim (Bool-cases (x.0 == q)) [
          | inl z ↦
              let (n, an, tn, _, en) = i.new in
              let z' = ==-sound x.0 q z in
              let same : l ≡ x.1 = eq_of_At a (subst (λ r. At h r x.1) z' ax) in
              let go : n.next ≡ x.1.next = en ∙ ap (λ (l : Line R). l.next) same in
              let stay : (if q == last then p else last) ≡ last =
                rw (==-false q last (λ r. ne (z' ∙ r))) refl in
              (
                (x.0, m) ∷ (p, n) ∷ ys,
                Forward-cons h' (if q == last then p else last) s (x.0, m) ((p, n) ∷ ys) es am
                    (λ r. ne (r ∙ stay))
                    (Forward-cons h' (if q == last then p else last) m.next (p, n) ys
                      (em ∙ rw z refl) an (λ r. ne_last (r ∙ stay))
                      (subst (λ r. Forward h' (if q == last then p else last) r ys) (sym go) v)),
                bytes_of-two x.0 p m n t u ys _ (tm ∙ rw z refl) tn bs
                    ∙ sym (bytes_with-hit q (joined t u) x (y ∷ xs) z),
                rw z (omega (arith, len)),
              )
          | inr z ↦
              let go : m.next ≡ x.1.next = em ∙ rw z refl in
              (
                (x.0, m) ∷ ys,
                Forward-cons h' (if q == last then p else last) s (x.0, m) ys es am (other x ax ne)
                    (subst (λ r. Forward h' (if q == last then p else last) r ys) (sym go) v),
                bytes_of-cons x.0 m _ ys _ (tm ∙ rw z refl) bs
                    ∙ sym (bytes_with-miss q (joined t u) x (y ∷ xs) z),
                rw z (omega (arith, len)),
              )
        ]
      where
        other : (x : Place R) → At h x.0 x.1 → x.0 ≢ last → x.0 ≢ (if q == last then p else last)
        other x ax ne = elim (Bool-cases (q == last)) [
          | inl z ↦ rw z (fresh-ne i.fresh ax)
          | inr z ↦ rw z ne
        ]

  module _ {h h' : Ptr → Option (Line R)} {p q last : Ptr} {l : Line R} (u : List ℕ)
      (i : Inserts h h' p l.prev q u (λ q t. t)) (k : Linked h) (a : At h q l)
      (ne_last : p ≢ last) where
    -- The pointer to the line `q` leads to the new line.
    next_before :
        (x m : Line R) (r : Ptr)
        → At h r x
        → m.next ≡ at_ptr l.prev p r x.next
        → m.next ≡ (if x.next == q then p else x.next)
    next_before x m r ax e = e ∙ elim (Bool-cases (x.next == q)) [
      | inl z ↦
          let z' = ==-sound x.next q z in
          let (n, an, back) = k.forth r x ax (λ y. a.ne_null (sym z' ∙ y)) in
          let same = eq_of_At (subst (λ s. At h s n) z' an) a in
          let here : r ≡ l.prev = sym back ∙ ap (λ (l : Line R). l.prev) same in
          rw (z, ==-true r l.prev here) refl
      | inr z ↦ rw (z, ==-false r l.prev (not_before z)) refl
    ]
      where
        not_before : (x.next == q) ≡ false → r ≢ l.prev
        not_before z y =
            let (n, an, forth) = k.back q l a (λ v. ax.ne_null (y ∙ v)) in
            let same = eq_of_At ax (subst (λ s. At h s n) (sym y) an) in
            cc (==-true x.next q (ap (λ (l : Line R). l.next) same ∙ forth), z)

    same_text : (x : Place R) → x.0 ≡ q → At h x.0 x.1 → rope.text x.1.str ≡ rope.text l.str
    same_text x e ax =
        ap (λ (l : Line R). rope.text l.str) (eq_of_At (subst (λ r. At h r x.1) e ax) a)

    -- The new line stands before the line `q`.
    pub before_places :
        (s : Ptr) (xs : List (Place R))
        → Forward h last s xs
        → Longer h' last (if s == q then p else s) q (joined u (rope.text l.str)) xs
    before_places s [] w = elim w [ ]
    before_places s (x ∷ []) (es, ax, z) =
        let (m, am, tm, _, em) = i.olds x.0 x.1 ax in
        elim (Bool-cases (x.0 == q)) [
          | inl y ↦
              let (n, an, tn, _, en) = i.new in
              let y' = ==-sound x.0 q y in
              let text : rope.text m.str ≡ rope.text l.str = tm ∙ same_text x y' ax in
              (
                (p, n) ∷ (x.0, m) ∷ [],
                rw (==-true s q (es ∙ y')) (refl, an, ne_last, (en ∙ sym y', am, z)),
                bytes_of-two p x.0 n m u _ [] _ tn text (bytes-nil R q _)
                    ∙ sym (bytes_with-hit q (joined u (rope.text l.str)) x [] y),
                rw y (omega arith),
              )
          | inr y ↦ (
            (x.0, m) ∷ [],
            (start_other p q s x y es, am, z),
            bytes_of-cons x.0 m _ [] _ tm (bytes-nil R q _)
                ∙ sym (bytes_with-miss q (joined u (rope.text l.str)) x [] y),
            rw y (omega arith),
          )
        ]
    before_places s (x ∷ y ∷ xs) (es, ax, ne, w) =
        let (m, am, tm, _, em) = i.olds x.0 x.1 ax in
        let (ys, v, bs, len) = before_places x.1.next (y ∷ xs) w in
        let v' = subst (λ r. Forward h' last r ys) (sym (next_before x.1 m x.0 ax em)) v in
        elim (Bool-cases (x.0 == q)) [
          | inl z ↦
              let (n, an, tn, _, en) = i.new in
              let z' = ==-sound x.0 q z in
              let text : rope.text m.str ≡ rope.text l.str = tm ∙ same_text x z' ax in
              (
                (p, n) ∷ (x.0, m) ∷ ys,
                rw (==-true s q (es ∙ z')) (
                  refl,
                  an,
                  ne_last,
                  Forward-cons h' last n.next (x.0, m) ys (en ∙ sym z') am ne v',
                ),
                bytes_of-two p x.0 n m u _ ys _ tn text bs
                    ∙ sym (bytes_with-hit q (joined u (rope.text l.str)) x (y ∷ xs) z),
                rw z (omega (arith, len)),
              )
          | inr z ↦ (
            (x.0, m) ∷ ys,
            Forward-cons h' last (if s == q then p else s) (x.0, m) ys (start_other p q s x z es) am
                ne v',
            bytes_of-cons x.0 m _ ys _ tm bs
                ∙ sym (bytes_with-miss q (joined u (rope.text l.str)) x (y ∷ xs) z),
            rw z (omega (arith, len)),
          )
        ]
