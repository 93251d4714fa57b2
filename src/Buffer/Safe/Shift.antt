-- ===== src/Buffer/Safe/Shift.antt =====
-- The other cursors of a line after a character came or went: they still fit.
use lprog_hw.Prelude.{
  ℕ, zero, suc, ◌+◌, ◌≤◌, ◌<◌, ◌≡◌, refl, sym, ◌∙◌, subst, ◌≢◌, true, ◌==◌, ltb, inl, inr,
  Bool-cases, if◌then◌else◌, Option, some, none, arith, ==-sound, length, ==-true, List, [], ◌∷◌,
  get_elem?, set, get_elem?-set_self, get_elem?-set_ne, lt-length_of_get, length-set,
}
use lprog_hw.Rope.{Rope}
use lprog_hw.Buffer.State.{Ptr, Line, Cursor, CursorRef, own, peer, same_ref, Buffer}
use lprog_hw.Buffer.Edit.{shift_cursor, shift_peers, shift_others}
use lprog_hw.Buffer.Returns.{Returns, returns}
use lprog_hw.Buffer.Safe.{At, SameEnds, Framed, CursorFits, Safe}
use lprog_hw.Buffer.Safe.Peers.{Names, with_cursor, on_cursor}
use lprog_hw.Buffer.Safe.Retext.{retext, At-retext, Framed-retext}

entry_self :
    (xs : List (Option Cursor)) (i j : ℕ) (c d : Cursor)
    → i ≡ j
    → get_elem? (set xs i (some c)) j ≡ some (some d)
    → c ≡ d
entry_self xs i j c d e g =
    let g' = subst (λ k. get_elem? (set xs i (some c)) k ≡ some (some d)) (sym e) g in
    let lt : i < length xs =
      omega (arith, lt-length_of_get (set xs i (some c)) i g', length-set xs i (some c)) in
    let here = get_elem?-set_self xs i (some c) lt in cc (here, g')

pub shift_peers_get :
    (f : ℕ → ℕ) (r : CursorRef) (c : Cursor) (i : ℕ) (xs : List (Option Cursor)) (j : ℕ)
    (d' : Cursor)
    → get_elem? (shift_peers f r c i xs) j ≡ some (some d')
    → (d : Cursor) × (get_elem? xs j ≡ some (some d))
      × (d' ≡ (if same_ref r (peer (j + i)) then d else shift_cursor f c d))
unfolding shift_peers
shift_peers_get f r c i [] j d' e = cc
shift_peers_get f r c i (none ∷ xs) zero d' e = cc
shift_peers_get f r c i (some d ∷ xs) zero d' e =
    (d, refl, let z : 0 + i ≡ i = omega arith in rw z (cc))
shift_peers_get f r c i (none ∷ xs) (suc j) d' e =
    let (d, g, s) = shift_peers_get f r c (suc i) xs j d' e in
    let z : suc j + i ≡ j + suc i = omega arith in (d, g, rw z s)
shift_peers_get f r c i (some x ∷ xs) (suc j) d' e =
    let (d, g, s) = shift_peers_get f r c (suc i) xs j d' e in
    let z : suc j + i ≡ j + suc i = omega arith in (d, g, rw z s)

get-shift_peers :
    (f : ℕ → ℕ) (r : CursorRef) (c : Cursor) (i : ℕ) (xs : List (Option Cursor)) (j : ℕ)
    (d : Cursor)
    → get_elem? xs j ≡ some (some d)
    → get_elem? (shift_peers f r c i xs) j
      ≡ some (some (if same_ref r (peer (j + i)) then d else shift_cursor f c d))
unfolding shift_peers
get-shift_peers f r c i [] j d e = cc
get-shift_peers f r c i (none ∷ xs) zero d e = cc
get-shift_peers f r c i (some x ∷ xs) zero d e =
    let same : x ≡ d = cc in let z : 0 + i ≡ i = omega arith in rw (z, same) refl
get-shift_peers f r c i (none ∷ xs) (suc j) d e =
    let z : suc j + i ≡ j + suc i = omega arith in rw z (get-shift_peers f r c (suc i) xs j d e)
get-shift_peers f r c i (some x ∷ xs) (suc j) d e =
    let z : suc j + i ≡ j + suc i = omega arith in rw z (get-shift_peers f r c (suc i) xs j d e)

-- The loop passes over the cursor itself.
shift_peers_self :
    (f : ℕ → ℕ) (c : Cursor) (i : ℕ) (xs : List (Option Cursor))
    → get_elem? xs i ≡ some (some c)
    → get_elem? (shift_peers f (peer i) c 0 xs) i ≡ some (some c)
shift_peers_self f c i xs e =
    let z : (i == i + 0) ≡ true = ==-true i (i + 0) (omega arith) in
    rw z at (get-shift_peers f (peer i) c 0 xs i c e)

shift_line : (f : ℕ → ℕ) (c d : Cursor) → (shift_cursor f c d).own_line ≡ d.own_line
shift_line f c d = ground arith

shift_pos_same :
    (f : ℕ → ℕ) (c d : Cursor)
    → c.own_line ≡ d.own_line
    → (shift_cursor f c d).pos ≡ (if ltb c.pos d.pos then f d.pos else d.pos)
shift_pos_same f c d e = ground arith

shift_pos_other :
    (f : ℕ → ℕ) (c d : Cursor) → c.own_line ≢ d.own_line → (shift_cursor f c d).pos ≡ d.pos
shift_pos_other f c d e = ground arith

module _ {R : Type 0} ⦃rope : Rope R⦄ where
  -- `c` stands in the line `l` at `p`, whose text becomes `r`; `f` moves what stands behind `c`.
  module _ (b : Buffer R) (p : Ptr) (l : Line R) (r : R) (f : ℕ → ℕ) (c : Cursor)
      (a : At b.cell p l) (in_line : c.own_line ≡ p)
      (keep : (q : ℕ)
        → q ≤ length (rope.text l.str)
        → (if ltb c.pos q then f q else q) ≤ length (rope.text r)) where
    shift-CursorFits :
        (d : Cursor)
        → CursorFits b d
        → CursorFits (record b { cell = retext b.cell p l r }) (shift_cursor f c d)
    shift-CursorFits d (m, am, h) =
        let (n, an, _, _, which) = At-retext r a am in
        (
          n,
          subst (λ x. At (retext b.cell p l r) x n) (sym (shift_line f c d)) an,
          elim which [
            | inl (same, e) ↦
                let there : c.own_line ≡ d.own_line = in_line ∙ sym same in
                let old : l ≡ m = cc (a.holds, am.holds) in
                let k =
                  keep d.pos
                    (subst (λ (x : Line R). d.pos ≤ length (rope.text x.str)) (sym old) h) in
                subst (λ (x : Line R). (shift_cursor f c d).pos ≤ length (rope.text x.str)) (sym e)
                  (subst (λ (x : ℕ). x ≤ length (rope.text r)) (sym (shift_pos_same f c d there)) k)
            | inr (other, e) ↦
                let apart : c.own_line ≢ d.own_line = λ z. other (sym z ∙ in_line) in
                subst (λ (x : Line R). (shift_cursor f c d).pos ≤ length (rope.text x.str)) (sym e)
                  (subst (λ (x : ℕ). x ≤ length (rope.text m.str))
                    (sym (shift_pos_other f c d apart)) h)
          ],
        )

    -- The state before the loop over the other cursors: the new text, and `c` at its new place.
    abbrev retyped : CursorRef → Buffer R
    retyped rf = with_cursor rf c (record b { cell = retext b.cell p l r })

    -- What the loop is given.
    pub record Typed (rf : CursorRef) (b' : Buffer R) : Type 0 where
      pub safe : Safe b'
      pub cell : b'.cell ≡ retext b.cell p l r
      pub named : Names b' rf c
      pub ends : SameEnds b b'

    peers_fit :
        (i : ℕ) (s : Safe b)
        → CursorFits (record b { cell = retext b.cell p l r }) c
        → (j : ℕ) (d' : Cursor)
        → get_elem? (shift_peers f (peer i) c 0 (set b.peer_curss i (some c))) j ≡ some (some d')
        → CursorFits (record b { cell = retext b.cell p l r }) d'
    peers_fit i s fit j d' e =
        let (d, g, q) = shift_peers_get f (peer i) c 0 (set b.peer_curss i (some c)) j d' e in
        let z : j + 0 ≡ j = omega arith in
        let q' : d' ≡ (if i == j then d else shift_cursor f c d) =
          subst (λ k. d' ≡ (if i == k then d else shift_cursor f c d)) z q in
        elim (Bool-cases (i == j)) [
          | inl same ↦
              let eq : c ≡ d = entry_self b.peer_curss i j c d (==-sound i j same) g in
              let e' : d' ≡ d = rw same at q' in
              subst (CursorFits (record b { cell = retext b.cell p l r })) (eq ∙ sym e') fit
          | inr other ↦
              let old =
                get_elem?-set_ne b.peer_curss {i = i} {j = j} (some c) (λ w. ground arith) in
              let e' : d' ≡ shift_cursor f c d = rw other at q' in
              subst (CursorFits (record b { cell = retext b.cell p l r })) (sym e')
                (shift-CursorFits d (s.peer_curss j d (sym old ∙ g)))
        ]

    own_peers_fit :
        (s : Safe b) (j : ℕ) (d' : Cursor)
        → get_elem? (shift_peers f own c 0 b.peer_curss) j ≡ some (some d')
        → CursorFits (record b { cell = retext b.cell p l r }) d'
    own_peers_fit s j d' e =
        let (d, g, q) = shift_peers_get f own c 0 b.peer_curss j d' e in
        subst (CursorFits (record b { cell = retext b.cell p l r })) (sym q)
          (shift-CursorFits d (s.peer_curss j d g))

    -- After the loop the buffer is safe again.
    pub shift_others-Safe :
        (rf : CursorRef) (c₀ : Cursor)
        → Safe b
        → Names b rf c₀
        → CursorFits (record b { cell = retext b.cell p l r }) c
        → Returns (λ _. Typed rf) (shift_others f rf (retyped rf))
    unfolding shift_others
    shift_others-Safe own c₀ s n fit = returns (record {
      safe = record {
        framed = reframe (Framed-retext r a s.framed);
        own_curs = fit;
        peer_curss = own_peers_fit s;
      };
      cell = refl;
      named = refl;
      ends = record { first = refl; last = refl; brk = refl; width = refl };
    })
      where
        reframe :
            Framed (record b { cell = retext b.cell p l r })
            → Framed (record b {
              cell = retext b.cell p l r;
              own_curs = c;
              peer_curss = shift_peers f own c 0 b.peer_curss;
            })
        reframe k = record {
          linked = k.linked;
          first = k.first;
          last = k.last;
          top = k.top;
          bottom = k.bottom;
        }
    shift_others-Safe (peer i) c₀ s n fit =
        let here = get_elem?-set_self b.peer_curss i (some c) (lt-length_of_get b.peer_curss i n) in
        on_cursor (retyped (peer i)) (peer i) c _ here (
          returns (record {
            safe = record {
              framed = reframe (Framed-retext r a s.framed);
              own_curs = shift-CursorFits b.own_curs s.own_curs;
              peer_curss = peers_fit i s fit;
            };
            cell = refl;
            named = shift_peers_self f c i (set b.peer_curss i (some c)) here;
            ends = record { first = refl; last = refl; brk = refl; width = refl };
          }))
      where
        reframe :
            Framed (record b { cell = retext b.cell p l r })
            → Framed (record b {
              cell = retext b.cell p l r;
              own_curs = shift_cursor f c b.own_curs;
              peer_curss = shift_peers f (peer i) c 0 (set b.peer_curss i (some c));
            })
        reframe k = record {
          linked = k.linked;
          first = k.first;
          last = k.last;
          top = k.top;
          bottom = k.bottom;
        }

module _ {R : Type 0} where
  -- The loop leaves the lines and the cursor itself.
  pub shift_others-Names :
      (b : Buffer R) (f : ℕ → ℕ) (r : CursorRef) (c : Cursor)
      → Names b r c
      → Returns (λ _ b'. (b'.cell ≡ b.cell) × Names b' r c) (shift_others f r b)
  unfolding shift_others
  shift_others-Names b f own c n = returns (refl, n)
  shift_others-Names b f (peer i) c n =
      on_cursor b (peer i) c _ n (returns (refl, shift_peers_self f c i b.peer_curss n))
