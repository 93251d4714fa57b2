-- ===== src/Buffer/Joining.antt =====
-- Cursors that come and go: bcursor_new, bcursor_copy_own and bcursor_free.
use lprog_hw.Prelude.{
  ℕ, zero, suc, ◌+◌, ◌≤◌, ◌≡◌, refl, sym, ap, ◌∙◌, subst, ◌≢◌, ◌⊎◌, inl, inr, Bool, true, false,
  ==-false, Option-cases, Option, none, some, List, [], ◌∷◌, if◌then◌else◌, arith, length,
  get_elem?, set, get_elem?-set_self, get_elem?-set_cases, lt-length_of_get,
}
use lprog_hw.Rope.{Rope}
use lprog_hw.Buffer.State.{
  Bres, failed, update, Ptr, Line, Cursor, peer, Buffer, done, ui_update_if,
}
use lprog_hw.Buffer.Cursors.{bline_find, bcursor_find}
use lprog_hw.Buffer.Edit.{free_slot, place_cursor, bcursor_new, bcursor_copy_own, bcursor_free}
use lprog_hw.Buffer.Returns.{Returns, returns, bind, on_eq}
use lprog_hw.Buffer.Safe.{At, on_load, Safe}
use lprog_hw.Buffer.Safe.Peers.{on_cursor, Safe-with}
use lprog_hw.Buffer.Safe.Follow.{Safe-painted}
use lprog_hw.Buffer.Safe.Named.{HasCursor, on_found}
use lprog_hw.Buffer.Document.{Place, Document, find_id, backwards, bline_find_lem}

-- No slot is empty.
abbrev pub IsFull : List (Option Cursor) → Type 0
IsFull cs = (j : ℕ) → get_elem? cs j ≢ some none

-- What the loop over the slots finds.
data Slot (i : ℕ) (cs : List (Option Cursor)) : Option ℕ → Type 0 where
  empty_slot : (k : ℕ) → get_elem? cs k ≡ some none → Slot i cs (some (k + i))
  no_slot : IsFull cs → Slot i cs none

free_slot_lem : (i : ℕ) (cs : List (Option Cursor)) → Slot i cs (free_slot i cs)
unfolding free_slot
free_slot_lem i [] = no_slot (λ j e. cc e)
free_slot_lem i (none ∷ cs) =
    let z : 0 + i ≡ i = omega arith in
    subst (λ k. Slot i (none ∷ cs) (some k)) z (empty_slot 0 refl)
free_slot_lem i (some c ∷ cs) = further i c cs (free_slot (suc i) cs) (free_slot_lem (suc i) cs)
  where
    full : (c : Cursor) (cs : List (Option Cursor)) → IsFull cs → IsFull (some c ∷ cs)
    full c cs h zero e = cc e
    full c cs h (suc j) e = h j e

    further :
        (i : ℕ) (c : Cursor) (cs : List (Option Cursor)) (o : Option ℕ)
        → Slot (suc i) cs o
        → Slot i (some c ∷ cs) o
    further i c cs o (empty_slot k e) =
        let z : suc k + i ≡ k + suc i = omega arith in
        subst (λ n. Slot i (some c ∷ cs) (some n)) z (empty_slot (suc k) e)
    further i c cs o (no_slot h) = no_slot (full c cs h)

all_taken : {cs : List (Option Cursor)} {o : Option ℕ} → Slot 0 cs o → o ≡ none → IsFull cs
all_taken (empty_slot k e) z = cc z
all_taken (no_slot h) z = h

is_empty :
    {cs : List (Option Cursor)} {o : Option ℕ} (k : ℕ)
    → Slot 0 cs o
    → o ≡ some k
    → get_elem? cs k ≡ some none
is_empty {cs} k (empty_slot j e) z =
    let z' : j ≡ k = ground (arith, z) in subst (λ n. get_elem? cs n ≡ some none) z' e
is_empty k (no_slot h) z = cc z

module _ {R : Type 0} where
  on_paint :
      {P : Buffer R → Type 0} (seen : Bool) (b : Buffer R)
      → P b
      → P (record b { repaints = b.repaints + 1 })
      → Returns (λ _. P) (ui_update_if seen b)
  unfolding ui_update_if
  on_paint {P} seen b h k = returns (shown b.ui seen)
    where
      shown :
          (u v : Bool)
          → P (if u then (if v then record b { repaints = b.repaints + 1 } else b) else b)
      shown true true = k
      shown true false = h
      shown false v = h

module _ {R : Type 0} ⦃rope : Rope R⦄ where
  -- The cursor `c` came into a slot that was empty; the lines, own_curs and the other slots are as before.
  pub record Joined (b : Buffer R) (c : Cursor) (b' : Buffer R) : Type 0 where
    pub safe : Safe b'
    pub slot : ℕ
    pub was_empty : get_elem? b.peer_curss slot ≡ some none
    pub peer_curss : b'.peer_curss ≡ set b.peer_curss slot (some c)
    pub own_curs : b'.own_curs ≡ b.own_curs
    pub cell : b'.cell ≡ b.cell

  pub Joined-HasCursor : {b b' : Buffer R} {c : Cursor} → Joined b c b' → HasCursor b' c.id
  Joined-HasCursor {b} {b'} {c} j = inr (
    j.slot,
    c,
    rw j.peer_curss (
        get_elem?-set_self b.peer_curss j.slot (some c)
          (lt-length_of_get b.peer_curss j.slot j.was_empty)),
    refl,
  )

  -- What bcursor_new returns for an id other than 0.
  abbrev pub Comes : Buffer R → Cursor → Bres → Buffer R → Type 0
  Comes b c res b' =
      ((res ≡ update) × Joined b c b') ⊎ ((res ≡ failed) × (b' ≡ b) × IsFull b.peer_curss)

  bcursor_new-Comes :
      (b : Buffer R) (id lid pos : ℕ) (p : Ptr) (l : Line R)
      → Safe b
      → id ≢ 0
      → bline_find lid b ≡ done p b
      → At b.cell p l
      → pos ≤ length (rope.text l.str)
      → Returns (Comes b (record { id = id; own_line = p; pos = pos })) (bcursor_new id lid pos b)
  unfolding bcursor_new place_cursor
  bcursor_new-Comes b id lid pos p l s ne found a fits = on_eq _ found (
      on_load b _ a (elim (Option-cases (free_slot 0 b.peer_curss)) [
        | inl e ↦ rw (==-false id 0 ne) (
            to_slot none e (returns (inr (refl, refl, all_taken (free_slot_lem 0 b.peer_curss) e))))
        | inr (k, e) ↦
            let free = is_empty k (free_slot_lem 0 b.peer_curss) e in
            rw (==-false id 0 ne) (
              to_slot (some k) e (
                bind
                  (on_paint {P = Joined b c} l.on_screen (placed k) (joined k free)
                    (painted k free))
                  λ _ b' j. returns (inl (refl, j))))
      ]))
    where
      c : Cursor
      c = record { id = id; own_line = p; pos = pos }

      placed : ℕ → Buffer R
      placed k = record b { peer_curss = set b.peer_curss k (some c) }

      to_slot :
          (o : Option ℕ)
          → free_slot 0 b.peer_curss ≡ o
          → Returns (Comes b c) (place_cursor c l.on_screen o b)
          → Returns (Comes b c) (place_cursor c l.on_screen (free_slot 0 b.peer_curss) b)
      to_slot o e h = subst (λ o. Returns (Comes b c) (place_cursor c l.on_screen o b)) (sym e) h

      joined : (k : ℕ) → get_elem? b.peer_curss k ≡ some none → Joined b c (placed k)
      joined k free = record {
        safe = Safe-with (peer k) c s (l, a, fits);
        slot = k;
        was_empty = free;
        peer_curss = refl;
        own_curs = refl;
        cell = refl;
      }

      painted :
          (k : ℕ)
          → get_elem? b.peer_curss k ≡ some none
          → Joined b c
              (record b { peer_curss = set b.peer_curss k (some c); repaints = b.repaints + 1 })
      painted k free = record {
        safe = Safe-painted (Safe-with (peer k) c s (l, a, fits));
        slot = k;
        was_empty = free;
        peer_curss = refl;
        own_curs = refl;
        cell = refl;
      }

  -- bcursor_copy_own with an id other than 0, on a safe buffer where the line of own_curs is the last line
  -- of the document with its id: if a slot is empty, a new cursor with that id stands where own_curs
  -- does, in a slot that was empty, and all else is as before; if none is, the result is FAILED and
  -- nothing changes.
  pub bcursor_copy_own-Comes :
      (b : Buffer R) (id : ℕ) (l : Line R) (xs : List (Place R))
      → Safe b
      → Document b xs
      → id ≢ 0
      → At b.cell b.own_curs.own_line l
      → find_id l.id (backwards xs) ≡ b.own_curs.own_line
      → Returns (Comes b (record b.own_curs { id = id })) (bcursor_copy_own id b)
  unfolding bcursor_copy_own
  bcursor_copy_own-Comes b id l xs s d ne a found =
      let (m, am, fits) = s.own_curs in
      let same : m ≡ l = cc (am.holds, a.holds) in
      on_load b _ a (
        bcursor_new-Comes b id l.id b.own_curs.pos b.own_curs.own_line l s ne
          (bline_find_lem b l.id xs s.framed.linked d ∙ ap (λ (p : Ptr). done p b) found) a
          (subst (λ (x : Line R). b.own_curs.pos ≤ length (rope.text x.str)) same fits))

  -- The cursor of slot `k` is gone; the lines, own_curs and the other slots are as before.
  pub record Left (b : Buffer R) (k : ℕ) (b' : Buffer R) : Type 0 where
    pub safe : Safe b'
    pub peer_curss : b'.peer_curss ≡ set b.peer_curss k none
    pub own_curs : b'.own_curs ≡ b.own_curs
    pub cell : b'.cell ≡ b.cell

  Safe-without :
      {b : Buffer R} (k : ℕ) → Safe b → Safe (record b { peer_curss = set b.peer_curss k none })
  Safe-without {b} k s = record {
    framed = record {
      linked = s.framed.linked;
      first = s.framed.first;
      last = s.framed.last;
      top = s.framed.top;
      bottom = s.framed.bottom;
    };
    own_curs = s.own_curs;
    peer_curss = λ i c e. elim (get_elem?-set_cases b.peer_curss k i none e) [
      | inl (_, q) ↦ cc q
      | inr old ↦ s.peer_curss i c old
    ];
  }

  -- bcursor_free of a peer's cursor that bcursor_find finds in slot `k` of a safe buffer empties that
  -- slot and leaves the lines, own_curs and the other slots; the buffer stays safe.
  pub bcursor_free-Left :
      (b : Buffer R) (id k : ℕ) (c : Cursor)
      → Safe b
      → bcursor_find id b ≡ done (some (peer k)) b
      → get_elem? b.peer_curss k ≡ some (some c)
      → Returns (λ res b'. (res ≡ update) × Left b k b') (bcursor_free id b)
  unfolding bcursor_free
  bcursor_free-Left b id k c s e n =
      let (l, a, fits) = s.peer_curss k c n in
      on_found id _ e (
        on_cursor b (peer k) c _ n (
          on_load b _ a (
            bind
              (on_paint {P = Left b k} l.on_screen
                (record b { peer_curss = set b.peer_curss k none })
                (record {
                  safe = Safe-without k s;
                  peer_curss = refl;
                  own_curs = refl;
                  cell = refl;
                })
                (record {
                  safe = Safe-painted (Safe-without k s);
                  peer_curss = refl;
                  own_curs = refl;
                  cell = refl;
                }))
              λ _ b' g. returns (refl, g))))
