-- ===== src/Buffer/Splitting/Cut.antt =====
-- split_line: what stands behind the cursor goes into the new line.
use lprog_hw.Prelude.{
  ℕ, zero, suc, ◌+◌, ◌-◌, ◌^◌, ◌≤◌, ◌<◌, ◌≡◌, refl, sym, ◌∙◌, ap, subst, ◌≢◌, ◌==◌, ◌&&◌, not, ltb,
  inl, inr, Bool-cases, ==-sound, Option, none, some, List, [], ◌++◌, Bool, false, arith, get_elem?,
  length, take, drop, drop-length, take-length, append-nil,
}
use lprog_hw.Rope.{Rope}
use lprog_hw.Buffer.State.{
  Ptr, Line, Cursor, CursorRef, own, peer, same_ref, Buffer, done, M, max_cursor_num, ◌>>◌,
}
use lprog_hw.Buffer.Edit.{rest_of, follow_split, split_line, for_peers}
use lprog_hw.Buffer.Returns.{Returns, returns, bind, mono, on_eq}
use lprog_hw.Buffer.Safe.{At, Stored, on_load}
use lprog_hw.Buffer.Safe.Peers.{Names, on_cursor, load_cursor-Names}
use lprog_hw.Buffer.Document.{eq_of_At}
use lprog_hw.Buffer.Splitting.Rewired.{
  at_ptr, Rewired, Rewired-as, Rewired-refl, SameRest, SameRest-cell, Rewires, Rewires-trans,
  set_str-Rewires,
}
use lprog_hw.Buffer.Splitting.Placed.{AllCursors}

-- No cursor that `d` may be stands behind `c` in its line.
abbrev pub NotBehind : Cursor → Cursor → Type 0
NotBehind c d = d.own_line ≡ c.own_line → d.pos ≤ c.pos

no_shift :
    (t : Bool) (c d : Cursor)
    → NotBehind c d
    → (t && (c.own_line == d.own_line) && ltb c.pos d.pos) ≡ false
no_shift t c d h = elim (Bool-cases (c.own_line == d.own_line)) [
  | inl z ↦ let le : d.pos ≤ c.pos = h (sym (==-sound _ _ z)) in ground arith
  | inr z ↦ ground arith
]

-- The texts of the lines after the line `old` is cut: what stands behind goes to `p`.
abbrev pub cut : Ptr → Ptr → ℕ → List ℕ → Ptr → List ℕ → List ℕ
cut p old pos t q x = at_ptr p (drop pos t) q (at_ptr old (take pos t) q x)

module _ {R : Type 0} where
  pub for_peers-skip :
      (b : Buffer R) (body : ℕ → Cursor → M R (Unit {0}))
      → ((i : ℕ) (c : Cursor) → get_elem? b.peer_curss i ≡ some (some c) → body i c b ≡ done tt b)
      → (n i : ℕ) → for_peers n i body b ≡ done tt b
  unfolding for_peers
  for_peers-skip b body h zero i = refl
  for_peers-skip b body h (suc n) i =
      slot (get_elem? b.peer_curss i) refl (for_peers-skip b body h n (suc i))
    where
      slot :
          (o : Option (Option Cursor))
          → get_elem? b.peer_curss i ≡ o
          → for_peers n (suc i) body b ≡ done tt b
          → for_peers (suc n) i body b ≡ done tt b
      slot none e rest = rw e rest
      slot (some none) e rest = rw e rest
      slot (some (some c)) e rest = rw (e, h i c e) rest

  pub Names-rest :
      {b d : Buffer R} (r : CursorRef) (c : Cursor) → SameRest b d → Names b r c → Names d r c
  Names-rest own c s n = s.own_curs ∙ n
  Names-rest (peer i) c s n = subst (λ cs. get_elem? cs i ≡ some (some c)) (sym s.peer_curss) n

module _ {R : Type 0} ⦃rope : Rope R⦄ where
  follow_split-skip :
      (b : Buffer R) (r other : CursorRef) (c d : Cursor)
      → Names b r c
      → Names b other d
      → NotBehind c d
      → follow_split r other b ≡ done tt b
  unfolding follow_split
  follow_split-skip b r other c d n m h =
      rw
        (
          load_cursor-Names b r c n,
          load_cursor-Names b other d m,
          no_shift (not (same_ref r other)) c d h,
        )
        refl

  del_behind :
      (r : R) (pos : ℕ)
      → pos ≤ length (rope.text r)
      → length (rope.text r) < 2 ^ 64
      → rope.text (rope.del r pos (rest_of (rope.char_count r) pos)) ≡ take pos (rope.text r)
  del_behind r pos le small =
      let count = rope.char_count-text r in
      let n : rest_of (rope.char_count r) pos ≡ length (rope.text r) - pos =
        rw count (omega arith) in
      rw n (
        rope.text-del r pos (length (rope.text r) - pos) (omega arith)
        ∙ ap (λ t. take pos (rope.text r) ++ t)
            (drop-length (pos + (length (rope.text r) - pos)) (rope.text r) (omega arith))
        ∙ append-nil (take pos (rope.text r)))

  del_before :
      (r : R) (pos : ℕ)
      → pos ≤ length (rope.text r)
      → rope.text (rope.del r 0 pos) ≡ drop pos (rope.text r)
  del_before r pos le =
      let z : 0 + pos ≡ pos = omega arith in
      rope.text-del r 0 pos (omega arith) ∙ ap (λ n. drop n (rope.text r)) z

  module _ (b : Buffer R) (r : CursorRef) (c : Cursor) (p : Ptr) (l n : Line R)
      (named : Names b r c) (a : At b.cell c.own_line l) (an : At b.cell p n)
      (empty : rope.text n.str ≡ []) (apart : c.own_line ≢ p)
      (le : c.pos ≤ length (rope.text l.str)) (small : length (rope.text l.str) < 2 ^ 64)
      (quiet : AllCursors b (NotBehind c)) where
    nobody_follows :
        {d : Buffer R}
        → SameRest b d
        → Returns
            (λ _ d'. d' ≡ d)
            ((do follow_split r own; for_peers max_cursor_num 0 λ i o. follow_split r (peer i)) d)
    nobody_follows {d} s =
        let nr = Names-rest r c s named in
        on_eq _
          (follow_split-skip d r own c d.own_curs nr refl
            (subst (NotBehind c) (sym s.own_curs) quiet.0))
          (rw
            (for_peers-skip d (λ i o. follow_split r (peer i))
              (λ i o e.
                follow_split-skip d r (peer i) c o nr e
                  (quiet.1 i o (subst (λ cs. get_elem? cs i ≡ some (some o)) s.peer_curss e)))
              max_cursor_num 0)
            (returns refl))

    at_own : (m : Line R) → At b.cell c.own_line m → rope.text m.str ≡ rope.text l.str
    at_own m am = ap (λ (l : Line R). rope.text l.str) (eq_of_At am a)

    at_new : (m : Line R) → At b.cell p m → rope.text m.str ≡ []
    at_new m am = ap (λ (l : Line R). rope.text l.str) (eq_of_At am an) ∙ empty

    -- With the cursor at the end of its line there is nothing to cut.
    nothing_cut :
        c.pos ≡ length (rope.text l.str)
        → Rewired b.cell b.cell (cut p c.own_line c.pos (rope.text l.str)) (λ q x. x) (λ q x. x)
    nothing_cut e = Rewired-as (Rewired-refl b.cell) λ q m am. (text q m am, refl, refl)
      where
        text :
            (q : Ptr) (m : Line R)
            → At b.cell q m
            → rope.text m.str ≡ cut p c.own_line c.pos (rope.text l.str) q (rope.text m.str)
        text q m am = elim (Bool-cases (q == p)) [
          | inl z ↦ rw z (
              at_new m (subst (λ q. At b.cell q m) (==-sound q p z) am)
              ∙ sym (drop-length c.pos (rope.text l.str) (omega arith)))
          | inr z ↦ elim (Bool-cases (q == c.own_line)) [
            | inl y ↦
                rw (z, y)
                  (at_own m (subst (λ q. At b.cell q m) (==-sound q c.own_line y) am)
                    ∙ sym (take-length c.pos (rope.text l.str) (omega arith)))
            | inr y ↦ rw (z, y) refl
          ]
        ]

    three_texts :
        {d : Buffer R}
        → Rewires b d
            (λ q x. at_ptr p (rope.text (rope.del l.str 0 c.pos)) q (
              at_ptr c.own_line
                (rope.text (rope.del l.str c.pos (rest_of (rope.char_count l.str) c.pos)))
                q
                (at_ptr p (rope.text l.str) q x)))
            (λ q x. x)
            (λ q x. x)
        → Rewires b d (cut p c.own_line c.pos (rope.text l.str)) (λ q x. x) (λ q x. x)
    three_texts w = record {
      cells = Rewired-as w.cells λ q m am. (
        rw (del_behind l.str c.pos le small, del_before l.str c.pos le)
            (last_one q (rope.text m.str)),
        refl,
        refl,
      );
      rest = w.rest;
    }
      where
        last_one :
            (q : Ptr) (x : List ℕ)
            → at_ptr p (drop c.pos (rope.text l.str)) q (
                at_ptr c.own_line (take c.pos (rope.text l.str)) q (at_ptr p (rope.text l.str) q x))
              ≡ cut p c.own_line c.pos (rope.text l.str) q x
        last_one q x = elim (Bool-cases (q == p)) [ inl z ↦ rw z refl | inr z ↦ rw z refl ]

    there :
        {d : Buffer R} {e : Ptr → List ℕ → List ℕ} {f g : Ptr → Ptr → Ptr} {q : Ptr} {m : Line R}
        → Rewires b d e f g
        → At b.cell q m
        → Stored d.cell q
    there {q = q} {m = m} w am = let (k, ak, _, _, _) = w.cells.olds q m am in (k, ak)

    -- Where no other cursor stands behind this one in its line, split_line ends, moves the text behind the
    -- cursor to the new line, and changes nothing else.
    pub split_line-Rewires :
        Returns
          (λ _ d. Rewires b d (cut p c.own_line c.pos (rope.text l.str)) (λ q x. x) (λ q x. x))
          (split_line r p b)
    unfolding split_line
    split_line-Rewires = on_cursor b r c _ named (
        on_load b _ a (elim (Bool-cases (c.pos == rope.char_count l.str)) [
          | inl z ↦
              let e : c.pos ≡ length (rope.text l.str) =
                ==-sound c.pos (rope.char_count l.str) z ∙ rope.char_count-text l.str in
              rw z (returns (record { cells = nothing_cut e; rest = SameRest-cell b b.cell }))
          | inr z ↦ rw z (
              bind (set_str-Rewires p l.str (n, an)) λ _ d w.
                bind (set_str-Rewires c.own_line _ (there w a)) λ _ d' w'.
                  let k = Rewires-trans w w' in
                  bind (set_str-Rewires p _ (there k an)) λ _ d'' w''.
                    let all = three_texts (Rewires-trans k w'') in
                    mono (nobody_follows all.rest) λ _ f same.
                      subst
                        (λ f.
                          Rewires b f (cut p c.own_line c.pos (rope.text l.str)) (λ q x. x)
                            (λ q x. x))
                        (sym same) all)
        ]))
