-- ===== src/Session.antt =====
-- A character on its way: typed into a client (src/editor.c), sent as a message (src/msg.c), and
-- applied by the worker of the document (src/server.c). Both hold the document in a buffer of their own
-- (src/buffer.c).
mod Examples
pub mod Port
use lprog_hw.Prelude.{
  ℕ, zero, suc, ◌+◌, ◌<◌, ◌≡◌, refl, sym, ap, ◌∙◌, subst, ◌≢◌, Bool, true, false, ◌==◌, ◌&&◌, ltb,
  Option, some, List, [], ◌∷◌, ◌++◌, arith, take, drop, length, get_elem?, if◌then◌else◌, ◌-◌,
}
use lprog_hw.Prelude.Int.{ℤ, pos}
use lprog_hw.Rope.{Rope, is_plain}
use lprog_hw.Json.{Json, JsonLaws, is_ascii}
use lprog_hw.Buffer.State.{Ptr, Line, Cursor, CursorRef, own, Buffer, done, sp_size}
use lprog_hw.Buffer.Cursors.{bcursor_find, width_limit}
use lprog_hw.Buffer.File.{newline, buffer_save}
use lprog_hw.Buffer.Returns.{Returns, returns, mono}
use lprog_hw.Buffer.Safe.{At, Safe}
use lprog_hw.Buffer.Safe.Peers.{Names}
use lprog_hw.Buffer.Safe.Typing.{Edited}
use lprog_hw.Buffer.Document.{Place, Document, PadFits}
use lprog_hw.Buffer.Document.Edits.{bytes_with, Edited-saved, length-inserted}
use lprog_hw.Message.{
  Message, insert, create_msg, type_of, type_of-code, code, serialize_msg, deserialize_msg,
}
use lprog_hw.Message.Wire.{serialize_msg-deserialize_msg}
use lprog_hw.Server.State.{worker_mode, Env, Server}
use lprog_hw.Server.Handle.{handle_msg}
use lprog_hw.Server.Work.{Relayed, handle_insert-Relayed}
use lprog_hw.Editor.{Client, char, own_curs_id, handle_input}
use lprog_hw.Editor.Typing.{Typed, handle_input-Typed}

type_of-insert :
    (id f v : ℤ) (p : Option (List ℕ)) → type_of (create_msg insert id f v p).type ≡ some insert
unfolding create_msg
type_of-insert id f v p = type_of-code insert

is_plain-ascii : (n : ℕ) → is_plain n ≡ true → is_ascii (n ∷ []) ≡ true
unfolding is_ascii
is_plain-ascii n e = rw e refl

module _ {R : Type 0} ⦃rope : Rope R⦄ where
  -- Two documents with the same texts, where `p` in the one is the line that `q` is in the other.
  abbrev pub SameText : Ptr → Ptr → List (Place R) → List (Place R) → Type 0
  SameText p q [] [] = Unit {0}
  SameText p q [] (y ∷ ys) = ⊥
  SameText p q (x ∷ xs) [] = ⊥
  SameText p q (x ∷ xs) (y ∷ ys) =
      (rope.text x.1.str ≡ rope.text y.1.str) × ((x.0 == p) ≡ (y.0 == q)) × SameText p q xs ys

  bytes_with-SameText :
      (p q : Ptr) (t : List ℕ) (xs ys : List (Place R))
      → SameText p q xs ys
      → bytes_with p t xs ≡ bytes_with q t ys
  unfolding bytes_with
  bytes_with-SameText p q t [] [] h = refl
  bytes_with-SameText p q t [] (y ∷ ys) h = absurd h
  bytes_with-SameText p q t (x ∷ xs) [] h = absurd h
  bytes_with-SameText p q t (x ∷ xs) (y ∷ ys) (e, z, h) =
      rw (e, z, bytes_with-SameText p q t xs ys h) refl

  -- The buffer is there, and saved it gives the file.
  abbrev pub SavedAs : Option (Buffer R) → List ℕ → Type 0
  SavedAs o bytes = (b : Buffer R) × (o ≡ some b) × (buffer_save true b ≡ done (some bytes) b)

  Document-announced :
      {b : Buffer R} {xs : List (Place R)}
      → Document b xs
      → Document (record b { ver = b.ver + 1 }) xs
  Document-announced d = record { lines = d.lines; first_prev = d.first_prev; fuel = d.fuel }

  -- What holds before a character is typed in both buffers, at lines with the same text.
  pub record Together (user : ℕ) (s : Client R) (w : Server R) (b d : Buffer R) (l m : Line R)
      : Type 0 where
    pub id : s.user_id ≡ pos user
    pub client : s.b ≡ some b
    pub client_safe : Safe b
    pub own_id : b.own_curs.id ≡ own_curs_id
    pub own_line : At b.cell b.own_curs.own_line l
    pub worker : w.buf ≡ some d
    pub mode : w.mode ≡ worker_mode
    pub known : get_elem? w.clients user ≡ some true
    pub worker_safe : Safe d
    pub ref : CursorRef
    pub cursor : Cursor
    pub found : bcursor_find user d ≡ done (some ref) d
    pub named : Names d ref cursor
    pub line : At d.cell cursor.own_line m
    pub same_pos : cursor.pos ≡ b.own_curs.pos
    pub same_line : rope.text m.str ≡ rope.text l.str

module _ {R : Type 0} (J : Type 0) ⦃rope : Rope R⦄ ⦃json : Json J⦄ where
  -- What the client and the worker come to: the client sent one message, which arrives as it was sent, and
  -- once the worker has handled it, both save the same file.
  abbrev pub Agrees : Env → ℕ → ℕ → List ℕ → Client R → Server R → Client R → Type 0
  Agrees env fuel socket bytes s w s' =
      (msg : Message) × (s'.sent ≡ msg ∷ s.sent)
      × (deserialize_msg J (serialize_msg J msg) ≡ some msg)
      × SavedAs s'.b bytes
      × Returns (λ res w'. (res ≡ 0) × SavedAs w'.buf bytes) (handle_msg J env fuel socket msg w)

module _ {R : Type 0} (J : Type 0) ⦃rope : Rope R⦄ ⦃json : Json J⦄ (laws : JsonLaws J) where
  -- Client and worker hold documents with the same texts in buffers whose lines all fit into the
  -- scratch pad, the user's cursor is at the same place of both, and the user is logged in. If a plain
  -- character other than a newline is typed into a line that has room in both, and less than 2047
  -- characters, the client sends one message, which arrives as it was sent; the worker handles it with
  -- the result 0, and then both save the same file, the one with the character at the cursor.
  pub handle_input-handle_msg :
      (env : Env) (fuel socket user n : ℕ) (s : Client R) (w : Server R) (b d : Buffer R)
      (l m : Line R) (xs ys : List (Place R))
      → (t : Together user s w b d l m) → Document b xs
      → Document d ys
      → PadFits b.cell
      → PadFits d.cell
      → SameText b.own_curs.own_line t.cursor.own_line xs ys
      → is_plain (suc n) ≡ true
      → suc n ≢ 10
      → length (rope.text l.str) < width_limit b.width
      → length (rope.text l.str) < width_limit d.width
      → suc (length (rope.text l.str)) < sp_size
      → Returns
          (λ _ s'.
            Agrees J env fuel socket
              (bytes_with b.own_curs.own_line
                (take b.own_curs.pos (rope.text l.str)
                  ++ suc n ∷ drop b.own_curs.pos (rope.text l.str))
                xs)
              s
              w
              s')
          (handle_input (char (suc n)) s)
  unfolding create_msg
  handle_input-handle_msg env fuel socket user n s w b d l m xs ys t dx dy fx fy same plain ne room
        room' small =
      mono (handle_input-Typed s b n l t.client t.client_safe t.own_id t.own_line plain ne room)
        λ _ s' k. (
          msg,
          k.sent,
          serialize_msg-deserialize_msg laws msg (is_plain-ascii (suc n) plain),
          (
            k.buffer,
            k.held,
            Edited-saved xs t.own_line (Document-announced dx) fx
                (length-inserted b.own_curs.pos (suc n) (rope.text l.str) (sp_size - 1) small)
                k.edited,
          ),
          mono
              (handle_insert-Relayed J env fuel socket user (suc n) [] msg w d t.ref t.cursor m t.id
                t.known t.mode (type_of-insert s.user_id (pos b.id) (pos b.ver) (some (suc n ∷ [])))
                refl t.worker t.worker_safe t.found t.named t.line plain
                (subst (λ x. length x < width_limit d.width) (sym t.same_line) room'))
              λ res w' (e, r). (
                e,
                (
                  r.b,
                  r.buf,
                  Edited-saved ys t.line dy fy
                        (length-inserted t.cursor.pos (suc n) (rope.text m.str) (sp_size - 1)
                          (subst (λ x. suc (length x) < sp_size) (sym t.same_line) small))
                        r.applied
                      ∙ ap (λ x. done (some x) r.b) worker_file,
                ),
              ),
        )
    where
      msg : Message
      msg = create_msg insert s.user_id (pos b.id) (pos b.ver) (some (suc n ∷ []))

      worker_file :
          bytes_with t.cursor.own_line
            (take t.cursor.pos (rope.text m.str) ++ suc n ∷ drop t.cursor.pos (rope.text m.str))
            ys
          ≡ bytes_with b.own_curs.own_line
              (take b.own_curs.pos (rope.text l.str)
                ++ suc n ∷ drop b.own_curs.pos (rope.text l.str))
              xs
      worker_file =
          (λ i.
            bytes_with t.cursor.own_line
              (take (t.same_pos i) (t.same_line i) ++ suc n ∷ drop (t.same_pos i) (t.same_line i))
              ys)
          ∙ sym (bytes_with-SameText b.own_curs.own_line t.cursor.own_line _ xs ys same)
