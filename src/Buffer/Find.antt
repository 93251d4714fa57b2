-- ===== src/Buffer/Find.antt =====
-- bcursor_find returns the cursor with an id, or NULL if there is none.
use lprog_hw.Prelude.{
  ℕ, zero, suc, ◌+◌, ◌<◌, ◌≡◌, refl, ◌≢◌, ◌==◌, ◌⊎◌, inl, inr, Bool-cases, Option, some, none, List,
  [], ◌∷◌, get_elem?, arith, ==-sound,
}
use lprog_hw.Buffer.State.{Cursor, CursorRef, own, peer, Buffer, done}
use lprog_hw.Buffer.Cursors.{find_peer, bcursor_find}

-- Slot `k` holds the first cursor with the id.
pub record FirstAt (id : ℕ) (cs : List (Option Cursor)) (k : ℕ) : Type 0 where
  pub cursor : Cursor
  pub here : get_elem? cs k ≡ some (some cursor)
  pub id_eq : cursor.id ≡ id
  pub before : (j : ℕ) (d : Cursor) → j < k → get_elem? cs j ≡ some (some d) → d.id ≢ id

-- No slot holds one.
abbrev pub Nowhere : ℕ → List (Option Cursor) → Type 0
Nowhere id cs = (j : ℕ) (d : Cursor) → get_elem? cs j ≡ some (some d) → d.id ≢ id

abbrev pub FindPeer : ℕ → ℕ → List (Option Cursor) → Option CursorRef → Type 0
FindPeer id i cs o =
    ((k : ℕ) × FirstAt id cs k × (o ≡ some (peer (k + i)))) ⊎ (Nowhere id cs × (o ≡ none))

further :
    (id i : ℕ) (x : Option Cursor) (cs : List (Option Cursor)) (o : Option CursorRef)
    → ((d : Cursor) → some x ≡ some (some d) → d.id ≢ id)
    → FindPeer id (suc i) cs o
    → FindPeer id i (x ∷ cs) o
further id i x cs o ne (inl (k, f, e)) = inl (suc k, g, rw e (ground arith))
  where
    before : (j : ℕ) (d : Cursor) → j < suc k → get_elem? (x ∷ cs) j ≡ some (some d) → d.id ≢ id
    before zero d lt h = ne d h
    before (suc j) d lt h = f.before j d (omega arith) h

    g : FirstAt id (x ∷ cs) (suc k)
    g = record { cursor = f.cursor; here = f.here; id_eq = f.id_eq; before = before }
further id i x cs o ne (inr (no_slot, e)) = inr (all, e)
  where
    all : Nowhere id (x ∷ cs)
    all zero d h = ne d h
    all (suc j) d h = no_slot j d h

pub find_peer_lem : (id i : ℕ) (cs : List (Option Cursor)) → FindPeer id i cs (find_peer id i cs)
unfolding find_peer
find_peer_lem id i [] = inr ((λ j d h. cc), refl)
find_peer_lem id i (none ∷ cs) =
    further id i none cs (find_peer id (suc i) cs) (λ d h. cc) (find_peer_lem id (suc i) cs)
find_peer_lem id i (some c ∷ cs) = elim (Bool-cases (c.id == id)) [
  | inl e ↦ rw e (
      inl (
        0,
        record {
          cursor = c;
          here = refl;
          id_eq = ==-sound c.id id e;
          before = λ j d lt h. absurd (omega arith);
        },
        ground arith,
      ))
  | inr e ↦ rw e (
      further id i (some c) cs (find_peer id (suc i) cs) (λ d h. ground arith)
        (find_peer_lem id (suc i) cs))
]

module _ {R : Type 0} where
  -- What bcursor_find promises: own_curs has precedence, then the first peer with the id.
  pub data Found (b : Buffer R) (id : ℕ) : Option CursorRef → Type 0 where
    found_own : b.own_curs.id ≡ id → Found b id (some own)
    found_peer :
        (k : ℕ) → b.own_curs.id ≢ id → FirstAt id b.peer_curss k → Found b id (some (peer k))
    not_found : b.own_curs.id ≢ id → Nowhere id b.peer_curss → Found b id none

  of_peers :
      (b : Buffer R) (id : ℕ) (o : Option CursorRef)
      → b.own_curs.id ≢ id
      → FindPeer id 0 b.peer_curss o
      → Found b id o
  of_peers b id o ne (inl (k, f, e)) =
      let z : k + 0 ≡ k = omega arith in rw (e, z) (found_peer k ne f)
  of_peers b id o ne (inr (n, e)) = rw e (not_found ne n)

  -- bcursor_find leaves the buffer as it is and returns own_curs if it has the id, else the peer
  -- cursor in the first slot whose cursor has it, else NULL.
  pub bcursor_find_lem :
      (b : Buffer R) (id : ℕ)
      → (o : Option CursorRef) × (bcursor_find id b ≡ done o b) × Found b id o
  unfolding bcursor_find
  bcursor_find_lem b id = elim (Bool-cases (b.own_curs.id == id)) [
    | inl e ↦ (some own, rw e, found_own (==-sound _ _ e))
    | inr e ↦ (
      find_peer id 0 b.peer_curss,
      rw e,
      of_peers b id _ (λ z. ground arith) (find_peer_lem id 0 b.peer_curss),
    )
  ]
