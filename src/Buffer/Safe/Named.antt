-- ===== src/Buffer/Safe/Named.antt =====
-- Operations by id: with a cursor of that id bcursor_move is safe, and without one they crash.
use lprog_hw.Prelude.{ℕ, ◌+◌, ◌≡◌, refl, ◌∙◌, ap, ◌⊎◌, inl, inr, Option, some, none, get_elem?}
use lprog_hw.Rope.{Rope}
use lprog_hw.Buffer.State.{
  failed, CmoveDir, Cursor, CursorRef, own, peer, Buffer, Outcome, done, fault, M, and_then,
}
use lprog_hw.Buffer.Cursors.{bcursor_find}
use lprog_hw.Buffer.Find.{Found, found_own, found_peer, not_found, bcursor_find_lem}
use lprog_hw.Buffer.Edit.{
  bcursor_move, bcursor_insert, bcursor_insert_line, bcursor_del, bcursor_free,
}
use lprog_hw.Buffer.Returns.{Returns}
use lprog_hw.Buffer.Safe.{Safe}
use lprog_hw.Buffer.Safe.Peers.{Live}
use lprog_hw.Buffer.Safe.Follow.{Kept, move_ref-Kept}

module _ {R : Type 0} where
  -- Some cursor of the buffer has the id.
  abbrev pub HasCursor : Buffer R → ℕ → Type 0
  HasCursor b id =
      (b.own_curs.id ≡ id)
      ⊎ ((k : ℕ) × (d : Cursor) × (get_elem? b.peer_curss k ≡ some (some d)) × (d.id ≡ id))

  Live-of_Found :
      {b : Buffer R} {id : ℕ} {o : Option CursorRef}
      → Found b id o
      → HasCursor b id
      → (r : CursorRef) × (o ≡ some r) × Live b r
  Live-of_Found {b} (found_own e) h = (own, refl, (b.own_curs, refl))
  Live-of_Found (found_peer k ne f) h = (peer k, refl, (f.cursor, f.here))
  Live-of_Found (not_found ne n) (inl e) = absurd (ne e)
  Live-of_Found (not_found ne n) (inr (k, d, g, e)) = absurd (n k d g e)

  pub find-Live :
      (b : Buffer R) (id : ℕ)
      → HasCursor b id
      → (r : CursorRef) × (bcursor_find id b ≡ done (some r) b) × Live b r
  find-Live b id h =
      let (o, e, f) = bcursor_find_lem b id in
      let (r, e', n) = Live-of_Found f h in (r, e ∙ ap (λ (o : Option CursorRef). done o b) e', n)

  none_of_Found :
      {b : Buffer R} {id : ℕ} {o : Option CursorRef} → Found b id o → ¬ HasCursor b id → o ≡ none
  none_of_Found (found_own e) h = absurd (h (inl e))
  none_of_Found (found_peer k ne f) h = absurd (h (inr (k, f.cursor, f.here, f.id_eq)))
  none_of_Found (not_found ne n) h = refl

  pub find_none : (b : Buffer R) (id : ℕ) → ¬ HasCursor b id → bcursor_find id b ≡ done none b
  find_none b id h =
      let (o, e, f) = bcursor_find_lem b id in
      let e' = none_of_Found f h in e ∙ ap (λ (o : Option CursorRef). done o b) e'

  pub on_found :
      {A : Type 0} {Q : A → Buffer R → Type 0} {b : Buffer R} (id : ℕ) {o : Option CursorRef}
      (k : Option CursorRef → M R A)
      → bcursor_find id b ≡ done o b
      → Returns Q (k o b)
      → Returns Q (and_then (bcursor_find id b) k)
  on_found id k e h = rw e h

  found_eq :
      {A : Type 0} {b : Buffer R} (id : ℕ) {o : Option CursorRef} {x : Outcome (Buffer R) A}
      (k : Option CursorRef → M R A)
      → bcursor_find id b ≡ done o b
      → k o b ≡ x
      → and_then (bcursor_find id b) k ≡ x
  found_eq id k e h = rw e h

module _ {R : Type 0} ⦃rope : Rope R⦄ where
  -- On a safe buffer, a move of any cursor in any direction returns, keeps the buffer safe, and
  -- changes neither the text of a line nor the chain of lines nor where the document begins and ends.
  pub bcursor_move-Kept :
      (b : Buffer R) (id : ℕ) (dir : CmoveDir)
      → Safe b
      → HasCursor b id
      → Returns (λ _. Kept b) (bcursor_move id dir b)
  unfolding bcursor_move
  bcursor_move-Kept b id dir s h =
      let (r, e, (c, n)) = find-Live b id h in on_found id _ e (move_ref-Kept r dir c s n)

  -- If no cursor has the id, bcursor_move, bcursor_insert_line, bcursor_del and bcursor_free read
  -- through NULL, while bcursor_insert returns FAILED and changes nothing.
  pub no_cursor_crashes :
      (b : Buffer R) (id chr : ℕ) (dir : CmoveDir)
      → ¬ HasCursor b id
      → (bcursor_move id dir b ≡ fault)
        × (bcursor_insert_line id b ≡ fault)
        × (bcursor_del id b ≡ fault)
        × (bcursor_free id b ≡ fault)
        × (bcursor_insert id chr b ≡ done failed b)
  unfolding bcursor_move bcursor_insert_line bcursor_del bcursor_free bcursor_insert
  no_cursor_crashes b id chr dir h =
      let e = find_none b id h in
      (
        found_eq id _ e refl,
        found_eq id _ (find_none (record b { num_lines = b.num_lines + 1 }) id h) refl,
        found_eq id _ e refl,
        found_eq id _ e refl,
        found_eq id _ e refl,
      )
