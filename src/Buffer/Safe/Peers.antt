-- ===== src/Buffer/Safe/Peers.antt =====
-- Cursors read and written: the invariant under a new value of one cursor.
use lprog_hw.Prelude.{
  ℕ, ◌≡◌, refl, subst, inl, inr, some, get_elem?, set, arith, get_elem?-set_self,
  get_elem?-set_cases, lt-length_of_get,
}
use lprog_hw.Rope.{Rope}
use lprog_hw.Buffer.State.{
  Cursor, CursorRef, own, peer, Buffer, done, M, and_then, load_cursor, store_cursor,
}
use lprog_hw.Buffer.Returns.{Returns}
use lprog_hw.Buffer.Safe.{Framed, CursorFits, Safe}

module _ {R : Type 0} where
  -- `r` points to the cursor `c`.
  abbrev pub Names : Buffer R → CursorRef → Cursor → Type 0
  Names b own c = b.own_curs ≡ c
  Names b (peer i) c = get_elem? b.peer_curss i ≡ some (some c)

  -- `r` points to a cursor.
  abbrev pub Live : Buffer R → CursorRef → Type 0
  Live b r = (c : Cursor) × Names b r c

  pub load_cursor-Names :
      (b : Buffer R) (r : CursorRef) (c : Cursor) → Names b r c → load_cursor r b ≡ done c b
  unfolding load_cursor
  load_cursor-Names b own c h = ground arith
  load_cursor-Names b (peer i) c h = rw (h, load_cursor)

  pub on_cursor :
      {A : Type 0} {Q : A → Buffer R → Type 0} (b : Buffer R) (r : CursorRef) (c : Cursor)
      (k : Cursor → M R A)
      → Names b r c
      → Returns Q (k c b)
      → Returns Q (and_then (load_cursor r b) k)
  on_cursor b r c k n h = rw (load_cursor-Names b r c n) h

  -- The state after store_cursor.
  abbrev pub with_cursor : CursorRef → Cursor → Buffer R → Buffer R
  with_cursor own c b = record b { own_curs = c }
  with_cursor (peer i) c b = record b { peer_curss = set b.peer_curss i (some c) }

  -- What a new value of one cursor leaves alone.
  pub record OnlyCursor (b b' : Buffer R) : Type 0 where
    pub cell : b'.cell ≡ b.cell
    pub first : b'.first ≡ b.first
    pub last : b'.last ≡ b.last
    pub top : b'.top ≡ b.top
    pub bottom : b'.bottom ≡ b.bottom
    pub brk : b'.brk ≡ b.brk

  pub OnlyCursor-refl : (b : Buffer R) → OnlyCursor b b
  OnlyCursor-refl b = record {
    cell = refl;
    first = refl;
    last = refl;
    top = refl;
    bottom = refl;
    brk = refl;
  }

  pub OnlyCursor-with :
      (r : CursorRef) (c : Cursor) (b : Buffer R) → OnlyCursor b (with_cursor r c b)
  OnlyCursor-with own c b = record {
    cell = refl;
    first = refl;
    last = refl;
    top = refl;
    bottom = refl;
    brk = refl;
  }
  OnlyCursor-with (peer i) c b = record {
    cell = refl;
    first = refl;
    last = refl;
    top = refl;
    bottom = refl;
    brk = refl;
  }

  pub Names-with :
      (r : CursorRef) (c d : Cursor) (b : Buffer R) → Names b r c → Names (with_cursor r d b) r d
  Names-with own c d b h = refl
  Names-with (peer i) c d b h =
      get_elem?-set_self b.peer_curss i (some d) (lt-length_of_get b.peer_curss i h)

  pub with_cursor-cell :
      (r : CursorRef) (c : Cursor) (b : Buffer R) → (with_cursor r c b).cell ≡ b.cell
  with_cursor-cell own c b = refl
  with_cursor-cell (peer i) c b = refl

  Framed-with : (r : CursorRef) (c : Cursor) {b : Buffer R} → Framed b → Framed (with_cursor r c b)
  Framed-with own c f = record {
    linked = f.linked;
    first = f.first;
    last = f.last;
    top = f.top;
    bottom = f.bottom;
  }
  Framed-with (peer i) c f = record {
    linked = f.linked;
    first = f.first;
    last = f.last;
    top = f.top;
    bottom = f.bottom;
  }

module _ {R : Type 0} ⦃rope : Rope R⦄ where
  pub Safe-Names :
      {b : Buffer R} (r : CursorRef) (c : Cursor) → Safe b → Names b r c → CursorFits b c
  Safe-Names {b} own c s h = subst (CursorFits b) h s.own_curs
  Safe-Names (peer i) c s h = s.peer_curss i c h

  fits_after_set :
      {b : Buffer R} (i : ℕ) (c : Cursor)
      → Safe b
      → CursorFits b c
      → (j : ℕ) (d : Cursor) → get_elem? (set b.peer_curss i (some c)) j ≡ some (some d)
      → CursorFits b d
  fits_after_set {b} i c s h j d e = elim (get_elem?-set_cases b.peer_curss i j (some c) e) [
    | inl (_, q) ↦ let q' : c ≡ d = cc in subst (CursorFits b) q' h
    | inr old ↦ s.peer_curss j d old
  ]

  pub Safe-with :
      {b : Buffer R} (r : CursorRef) (c : Cursor)
      → Safe b
      → CursorFits b c
      → Safe (with_cursor r c b)
  Safe-with own c s h = record {
    framed = Framed-with own c s.framed;
    own_curs = h;
    peer_curss = s.peer_curss;
  }
  Safe-with (peer i) c s h = record {
    framed = Framed-with (peer i) c s.framed;
    own_curs = s.own_curs;
    peer_curss = fits_after_set i c s h;
  }

  pub store_cursor-with :
      (r : CursorRef) (c : Cursor) (b : Buffer R) → store_cursor r c b ≡ done tt (with_cursor r c b)
  unfolding store_cursor
  store_cursor-with own c b = refl
  store_cursor-with (peer i) c b = refl

  -- The rule for a write.
  pub on_store :
      {A : Type 0} {Q : A → Buffer R → Type 0} (b : Buffer R) (r : CursorRef) (c : Cursor)
      (k : Unit {0} → M R A)
      → Returns Q (k tt (with_cursor r c b))
      → Returns Q (and_then (store_cursor r c b) k)
  on_store b r c k h = rw (store_cursor-with r c b) h
