-- ===== src/Buffer/Examples/Joined.antt =====
-- bcursor_del applied to the lines "ab", "d" and "c", with a peer's cursor at the start of the second.
use lprog_hw.Prelude.{
  ℕ, zero, ◌∙◌, get_elem?, suc, ◌≡◌, refl, ap, subst, ◌≢◌, true, Option, none, some, List, [], ◌∷◌,
  arith, inl, inr, length, ◌<◌,
}
use lprog_hw.Buffer.State.{bellow, Ptr, null, Line, Cursor, own, peer, Buffer, done, fault, sp_size}
use lprog_hw.Buffer.Window.{is_above}
use lprog_hw.Buffer.Cursors.{bcursor_find}
use lprog_hw.Buffer.Edit.{bcursor_del}
use lprog_hw.Buffer.File.{buffer_save}
use lprog_hw.Buffer.Returns.{Returns}
use lprog_hw.Buffer.Runs.{list_rope}
use lprog_hw.Buffer.Safe.{At, Linked, CursorFits, Safe}
use lprog_hw.Buffer.Document.{Place, Document, eq_of_At, PadFits}
use lprog_hw.Buffer.Merging.Lines.{bytes_joined}
use lprog_hw.Buffer.Merging.Arriving.{OnlyIn}
use lprog_hw.Buffer.Merging.Extending.{Slack}
use lprog_hw.Buffer.Merging.Joined.{bcursor_del-bytes_joined}
use lprog_hw.Buffer.Examples.{first_line, peer_cursor, two_lines}

abbrev middle_line : Line (List ℕ)
middle_line = record {
  id = 1;
  str = b'd' ∷ [];
  prev = 1;
  next = 3;
  on_screen = true;
  location = bellow;
}

abbrev third_line : Line (List ℕ)
third_line = record {
  id = 2;
  str = b'c' ∷ [];
  prev = 2;
  next = null;
  on_screen = true;
  location = bellow;
}

abbrev three_cells : Ptr → Option (Line (List ℕ))
three_cells zero = none
three_cells (suc zero) = some first_line
three_cells (suc (suc zero)) = some middle_line
three_cells (suc (suc (suc zero))) = some third_line
three_cells (suc (suc (suc (suc p)))) = none

abbrev three_lines : Buffer (List ℕ)
three_lines = record (two_lines 1) {
  num_lines = 3;
  line_id_cnt = 3;
  last = 3;
  bottom = 3;
  cell = three_cells;
  brk = 4;
}

abbrev three_places : List (Place (List ℕ))
three_places = (1, first_line) ∷ (2, middle_line) ∷ (3, third_line) ∷ []

At-1 : At three_cells 1 first_line
At-1 = record { ne_null = λ z. omega (arith, z); holds = refl }

At-2 : At three_cells 2 middle_line
At-2 = record { ne_null = λ z. omega (arith, z); holds = refl }

At-3 : At three_cells 3 third_line
At-3 = record { ne_null = λ z. omega (arith, z); holds = refl }

abbrev GoesBack : Ptr → Line (List ℕ) → Type 0
GoesBack p l = (m : Line (List ℕ)) × At three_cells l.prev m × (m.next ≡ p)

abbrev GoesOn : Ptr → Line (List ℕ) → Type 0
GoesOn p l = (m : Line (List ℕ)) × At three_cells l.next m × (m.prev ≡ p)

three_cells-Linked : Linked three_cells
three_cells-Linked = record { back = back; forth = forth; no_loop = no_loop }
  where
    no_loop : (p : Ptr) (l : Line (List ℕ)) → At three_cells p l → l.next ≢ p
    no_loop zero l a z = a.ne_null refl
    no_loop (suc zero) l a z =
        let n = ap (λ (x : Line (List ℕ)). x.next) (eq_of_At At-1 a) in omega (arith, n, z)
    no_loop (suc (suc zero)) l a z =
        let n = ap (λ (x : Line (List ℕ)). x.next) (eq_of_At At-2 a) in omega (arith, n, z)
    no_loop (suc (suc (suc zero))) l a z =
        let n = ap (λ (x : Line (List ℕ)). x.next) (eq_of_At At-3 a) in omega (arith, n, z)
    no_loop (suc (suc (suc (suc p)))) l a z = cc a.holds

    back : (p : Ptr) (l : Line (List ℕ)) → At three_cells p l → l.prev ≢ null → GoesBack p l
    back zero l a ne = absurd (a.ne_null refl)
    back (suc zero) l a ne = absurd (ne (ap (λ (x : Line (List ℕ)). x.prev) (eq_of_At a At-1)))
    back (suc (suc zero)) l a ne = subst (GoesBack 2) (eq_of_At At-2 a) (first_line, At-1, refl)
    back (suc (suc (suc zero))) l a ne =
        subst (GoesBack 3) (eq_of_At At-3 a) (middle_line, At-2, refl)
    back (suc (suc (suc (suc p)))) l a ne = cc a.holds

    forth : (p : Ptr) (l : Line (List ℕ)) → At three_cells p l → l.next ≢ null → GoesOn p l
    forth zero l a ne = absurd (a.ne_null refl)
    forth (suc zero) l a ne = subst (GoesOn 1) (eq_of_At At-1 a) (middle_line, At-2, refl)
    forth (suc (suc zero)) l a ne = subst (GoesOn 2) (eq_of_At At-2 a) (third_line, At-3, refl)
    forth (suc (suc (suc zero))) l a ne =
        absurd (ne (ap (λ (x : Line (List ℕ)). x.next) (eq_of_At a At-3)))
    forth (suc (suc (suc (suc p)))) l a ne = cc a.holds

three_lines-Safe : Safe three_lines
three_lines-Safe = record {
  framed = record {
    linked = three_cells-Linked;
    first = (first_line, At-1);
    last = (third_line, At-3);
    top = (first_line, At-1);
    bottom = (third_line, At-3);
  };
  own_curs = (first_line, At-1, omega arith);
  peer_curss = peers;
}
  where
    peers :
        (i : ℕ) (c : Cursor)
        → get_elem? three_lines.peer_curss i ≡ some (some c)
        → CursorFits three_lines c
    peers zero c e = cc e
    peers (suc zero) c e =
        let e' : peer_cursor ≡ c = cc e in
        subst (CursorFits three_lines) e' (middle_line, At-2, omega arith)
    peers (suc (suc i)) c e = cc e

three_lines-Document : Document three_lines three_places
three_lines-Document = record {
  lines = (
    refl,
    At-1,
    (λ z. omega (arith, z)),
    (refl, At-2, (λ z. omega (arith, z)), (refl, At-3, refl)),
  );
  first_prev = λ l a. ap (λ (x : Line (List ℕ)). x.prev) (eq_of_At a At-1);
  fuel = omega arith;
}

fits_as :
    {p : Ptr} {l m : Line (List ℕ)}
    → At three_lines.cell p l
    → At three_lines.cell p m
    → length l.str < sp_size
    → length m.str < sp_size
fits_as a b h = subst (λ (l : Line (List ℕ)). length l.str < sp_size) (eq_of_At a b) h

three_cells-PadFits : PadFits three_lines.cell
three_cells-PadFits zero l a = absurd (a.ne_null refl)
three_cells-PadFits (suc zero) l a = fits_as At-1 a (omega arith)
three_cells-PadFits (suc (suc zero)) l a = fits_as At-2 a (omega arith)
three_cells-PadFits (suc (suc (suc zero))) l a = fits_as At-3 a (omega arith)
three_cells-PadFits (suc (suc (suc (suc p)))) l a = cc a.holds

-- The line is below the own cursor.
three_lines-Slack : Slack three_lines 2
three_lines-Slack l t m a _ _ above _ =
    let e : is_above l.location ≡ is_above bellow =
      ap (λ (x : Line (List ℕ)). is_above x.location) (eq_of_At a At-2) in
    cc (above, e)

only_the_peer : OnlyIn three_lines (peer 1) 2
only_the_peer own d n e z =
    let w : ◌≡◌ {A = ℕ} 1 2 = ap (λ (c : Cursor). c.own_line) n ∙ z in omega (arith, w)
only_the_peer (peer zero) d n e z = cc n
only_the_peer (peer (suc zero)) d n e z = cc e
only_the_peer (peer (suc (suc i))) d n e z = cc n

found_peer_3 : bcursor_find 3 three_lines ≡ done (some (peer 1)) three_lines
unfolding bcursor_find
found_peer_3 = refl

-- "abd" and "c" are left.
two_left :
    bytes_joined 1 2 (b'a' ∷ b'b' ∷ b'd' ∷ []) three_places
    ≡ b'a' ∷ b'b' ∷ b'd' ∷ 10 ∷ b'c' ∷ 10 ∷ []
unfolding bytes_joined
two_left = refl

bcursor_del-bytes_joined_example :
    Returns
      (λ _ d.
        Safe d
        × (buffer_save true d
            ≡ done (some (bytes_joined 1 2 (b'a' ∷ b'b' ∷ b'd' ∷ []) three_places)) d))
      (bcursor_del 3 three_lines)
bcursor_del-bytes_joined_example =
    bcursor_del-bytes_joined three_lines 3 1 peer_cursor middle_line first_line three_places
      three_lines-Safe three_lines-Document three_cells-PadFits (omega arith) found_peer_3 refl refl
      At-2 At-1 (inr (inl refl)) (λ z. omega (arith, z)) (λ z. omega (arith, z))
      (λ z. omega (arith, z)) only_the_peer three_lines-Slack

-- The last of the lines "ab" and "c" cannot be joined: the window's bottom becomes NULL and is read.
last_line_crashes : bcursor_del 3 (two_lines 1) ≡ fault
unfolding bcursor_del bcursor_find
last_line_crashes = refl
