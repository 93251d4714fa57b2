-- ===== src/Editor/Typing.antt =====
-- handle_input of src/editor.c for a character: the client's buffer, and what it sends.
use lprog_hw.Prelude.{
  ℕ, suc, ◌+◌, ◌<◌, ◌≡◌, refl, true, false, ◌==◌, some, [], ◌∷◌, ◌++◌, take, drop, length, ==-false,
  ◌≢◌,
}
use lprog_hw.Prelude.Int.{pos}
use lprog_hw.Rope.{Rope, is_plain}
use lprog_hw.Buffer.State.{Buffer, Line, own, Bres, Outcome, done, update}
use lprog_hw.Buffer.Cursors.{bcursor_find, width_limit}
use lprog_hw.Buffer.Returns.{Returns, returns}
use lprog_hw.Buffer.Safe.{At, Safe}
use lprog_hw.Buffer.Safe.Typing.{Edited, bcursor_insert-Edited}
use lprog_hw.Message.{insert, create_msg}
use lprog_hw.Editor.{
  Client, char, own_curs_id, with_buffer, on_buffer, announce, apply_key, handle_input,
}

module _ {R : Type 0} ⦃rope : Rope R⦄ where
  Safe-announced : {b : Buffer R} → Safe b → Safe (record b { ver = b.ver + 1 })
  Safe-announced s = record {
    framed = record {
      linked = s.framed.linked;
      first = s.framed.first;
      last = s.framed.last;
      top = s.framed.top;
      bottom = s.framed.bottom;
    };
    own_curs = s.own_curs;
    peer_curss = s.peer_curss;
  }

  -- The client's buffer after an edit `P`, and the one message that it sent: an INSERT with the
  -- character, the client's user id, and the id and the version of the buffer before.
  pub record Typed (P : Buffer R → Type 0) (c : ℕ) (b : Buffer R) (s s' : Client R) : Type 0 where
    pub buffer : Buffer R
    pub held : s'.b ≡ some buffer
    pub edited : P buffer
    pub sent : s'.sent ≡ create_msg insert s.user_id (pos b.id) (pos b.ver) (some (c ∷ [])) ∷ s.sent
    pub user_id : s'.user_id ≡ s.user_id

  with_buffer-Typed :
      {P : Buffer R → Type 0} {c : ℕ} {b : Buffer R} {o : Outcome (Buffer R) Bres} (s t : Client R)
      → t.sent ≡ create_msg insert s.user_id (pos b.id) (pos b.ver) (some (c ∷ [])) ∷ s.sent
      → t.user_id ≡ s.user_id
      → Returns (λ res b'. (res ≡ update) × P b') o
      → Returns (λ _ s'. Typed P c b s s') (with_buffer t o)
  with_buffer-Typed s t sent user (returns (e, p)) =
      returns (record { buffer = _; held = refl; edited = p; sent = sent; user_id = user })

  found_own :
      (b : Buffer R) → b.own_curs.id ≡ own_curs_id → bcursor_find own_curs_id b ≡ done (some own) b
  unfolding bcursor_find
  found_own b e = rw e refl

  -- A plain character, neither 0 nor a newline, typed by a client whose buffer is safe and has room in
  -- the line of its own cursor, which has the id 0: handle_input returns, edits the client's buffer as
  -- bcursor_insert-Edited states, and sends one INSERT message with the character.
  pub handle_input-Typed :
      (s : Client R) (b : Buffer R) (n : ℕ) (l : Line R)
      → s.b ≡ some b
      → Safe b
      → b.own_curs.id ≡ own_curs_id
      → At b.cell b.own_curs.own_line l
      → is_plain (suc n) ≡ true
      → suc n ≢ 10
      → length (rope.text l.str) < width_limit b.width
      → Returns
          (λ _ s'.
            Typed
              (Edited
                (record b { ver = b.ver + 1 })
                own
                b.own_curs
                l
                (b.own_curs.pos + 1)
                (take b.own_curs.pos (rope.text l.str)
                  ++ suc n ∷ drop b.own_curs.pos (rope.text l.str)))
              (suc n)
              b
              s
              s')
          (handle_input (char (suc n)) s)
  unfolding handle_input apply_key announce on_buffer
  handle_input-Typed s b n l held safe own_id a plain ne room =
      let b1 : Buffer R = record b { ver = b.ver + 1 } in
      let z : (suc n == 10) ≡ false = ==-false (suc n) 10 ne in
      let run =
        bcursor_insert-Edited b1 own_curs_id (suc n) own b.own_curs l (Safe-announced safe)
          (found_own b1 own_id) refl a plain room in
      rw (held, z)
        (with_buffer-Typed (record s { b = some b }) (announce insert (some (suc n ∷ [])) b s) refl
          refl run)
