-- ===== src/Editor.antt =====
-- src/editor.c, lines 98 to 238 and the switch of server_loop (303 to 343): the client.
--
-- `b` is the buffer of the document, `none` before it has come. `raw` is the memory that malloc
-- returns for it. The keys are those of getch.
pub mod Typing
pub mod Server
pub mod Worker
pub mod Leaving
mod Examples
use lprog_hw.Prelude.{
  ℕ, zero, suc, ◌+◌, true, ◌==◌, Option, none, some, List, [], ◌∷◌, if◌then◌else◌,
}
use lprog_hw.Prelude.Int.{ℤ, pos, negsuc, ◌==ℤ◌}
use lprog_hw.Rope.{Rope}
use lprog_hw.Json.{Json}
use lprog_hw.Utilities.Text.{Text}
use lprog_hw.Buffer.State.{
  Buffer, Outcome, done, fault, out_of_fuel, CmoveDir, up, down, left, right, load,
}
use lprog_hw.Buffer.Edit.{
  bcursor_new, bcursor_free, bcursor_insert, bcursor_insert_line, bcursor_del, bcursor_move,
}
use lprog_hw.Buffer.File.{buffer_free}
use lprog_hw.Buffer.Serial.{buffer_deserialize}
use lprog_hw.Message.{
  Message, MsgType, msg_ok, quit, file_request, file_response, create_file, delete_file, insert,
  insert_line, delete, move_cursor, add_cursor, delete_cursor, create_msg, type_of,
}
use lprog_hw.Server.Handle.{first_byte, direction, user_of, move_towards}

pub record Client (R : Type 0) : Type 0 where
  pub user_id : ℤ
  pub file_id : ℤ
  pub b : Option (Buffer R)
  -- the messages sent, the last one first
  pub sent : List Message

-- What getch returns: KEY_LEFT and so on, or a byte.
pub data Key : Type 0 where
  key_left key_right key_up key_down key_backspace key_esc : Key
  char : ℕ → Key

abbrev pub own_curs_id : ℕ
own_curs_id = 0

abbrev minus_one : ℤ
minus_one = negsuc 0

abbrev pub with_buffer :
    {R A : Type 0} → Client R → Outcome (Buffer R) A → Outcome (Client R) (Unit {0})
with_buffer s (done a b) = done tt (record s { b = some b })
with_buffer s fault = fault
with_buffer s out_of_fuel = out_of_fuel

module _ {R : Type 0} where
  abbrev send_msg : Message → Client R → Client R
  send_msg msg s = record s { sent = msg ∷ s.sent }

  -- A call on the buffer that `b` points to.
  unfoldable pub on_buffer :
      {A : Type 0} → (Buffer R → Outcome (Buffer R) A) → Client R → Outcome (Client R) (Unit {0})
  on_buffer m s = elim s.b [ none ↦ fault | some b ↦ with_buffer s (m b) ]

  -- payload[0]
  abbrev with_byte :
      Option Text
      → (ℕ → Client R → Outcome (Client R) (Unit {0}))
      → Client R
      → Outcome (Client R) (Unit {0})
  with_byte none k = λ _. fault
  with_byte (some s) k = k (first_byte s)

  -- create_msg(type, user_id, b->id, b->ver++, payload), sent
  unfoldable pub announce : MsgType → Option Text → Buffer R → Client R → Client R
  unfolding create_msg
  announce type payload b s =
      let msg = create_msg type s.user_id (pos b.id) (pos b.ver) payload in
      record s { b = some (record b { ver = b.ver + 1 }); sent = msg ∷ s.sent }

module _ {R : Type 0} (J : Type 0) ⦃rope : Rope R⦄ ⦃json : Json J⦄ where
  -- case FILE_RESPONSE: the buffer comes, and takes the place of the old one; `fuel` bounds its lines.
  unfoldable pub receive_buffer :
      ℕ → Buffer R → Option Text → Client R → Outcome (Client R) (Unit {0})
  unfolding buffer_deserialize
  receive_buffer fuel raw none s = fault
  receive_buffer fuel raw (some serd) s = with_buffer s (buffer_deserialize J fuel serd true raw)

  unfoldable pub add_peer : ℤ → Client R → Outcome (Client R) (Unit {0})
  unfolding on_buffer bcursor_new load
  add_peer id s =
      if s.user_id ==ℤ id
      then done tt s
      else on_buffer
          (λ b. elim (load b.first b) [
            | done l b' ↦ bcursor_new (user_of id) l.id 0 b'
            | fault ↦ fault
            | out_of_fuel ↦ out_of_fuel
          ])
          s

  -- switch(msg->type) of handle_msg
  unfoldable pub handle :
      ℕ
      → Buffer R
      → Option CmoveDir
      → Message
      → Option MsgType
      → Client R
      → Outcome (Client R) (Unit {0})
  unfolding receive_buffer add_peer on_buffer bcursor_insert bcursor_insert_line bcursor_del
      move_towards bcursor_free create_msg
  handle fuel raw junk_dir msg (some msg_ok) s =
      let s' = record s { user_id = msg.user_id } in
      done tt (send_msg (create_msg file_request msg.user_id s.file_id minus_one none) s')
  handle fuel raw junk_dir msg (some file_response) s = receive_buffer fuel raw msg.payload s
  handle fuel raw junk_dir msg (some insert) s =
      with_byte msg.payload (λ c. on_buffer (bcursor_insert (user_of msg.user_id) c)) s
  handle fuel raw junk_dir msg (some insert_line) s =
      on_buffer (bcursor_insert_line (user_of msg.user_id)) s
  handle fuel raw junk_dir msg (some delete) s = on_buffer (bcursor_del (user_of msg.user_id)) s
  handle fuel raw junk_dir msg (some move_cursor) s =
      with_byte msg.payload
        (λ c. on_buffer (move_towards (user_of msg.user_id) (direction junk_dir c))) s
  handle fuel raw junk_dir msg (some add_cursor) s = add_peer msg.user_id s
  handle fuel raw junk_dir msg (some delete_cursor) s =
      on_buffer (bcursor_free (user_of msg.user_id)) s
  handle fuel raw junk_dir msg _ s = done tt s

  unfoldable pub handle_msg :
      ℕ → Buffer R → Option CmoveDir → Message → Client R → Outcome (Client R) (Unit {0})
  unfolding handle type_of
  handle_msg fuel raw junk_dir msg s = handle fuel raw junk_dir msg (type_of msg.type) s

-- What a key announces: the type and payload of the message.
abbrev key_type : Key → MsgType
key_type key_left = move_cursor
key_type key_right = move_cursor
key_type key_up = move_cursor
key_type key_down = move_cursor
key_type key_backspace = delete
key_type key_esc = quit
key_type (char c) = if c == 10 then insert_line else insert

abbrev byte_text : ℕ → Option Text
byte_text zero = some []
byte_text (suc c) = some (suc c ∷ [])

abbrev key_payload : Key → Option Text
key_payload key_left = some (b'2' ∷ [])
key_payload key_right = some (b'3' ∷ [])
key_payload key_up = some (b'0' ∷ [])
key_payload key_down = some (b'1' ∷ [])
key_payload key_backspace = none
key_payload key_esc = none
key_payload (char c) = if c == 10 then none else byte_text c

module _ {R : Type 0} ⦃rope : Rope R⦄ where
  -- What it does to the buffer.
  unfoldable pub apply_key : Key → Client R → Outcome (Client R) (Unit {0})
  unfolding on_buffer bcursor_insert bcursor_insert_line bcursor_del bcursor_move buffer_free
  apply_key key_left s = on_buffer (bcursor_move own_curs_id left) s
  apply_key key_right s = on_buffer (bcursor_move own_curs_id right) s
  apply_key key_up s = on_buffer (bcursor_move own_curs_id up) s
  apply_key key_down s = on_buffer (bcursor_move own_curs_id down) s
  apply_key key_backspace s = on_buffer (bcursor_del own_curs_id) s
  apply_key key_esc s = on_buffer buffer_free s
  apply_key (char c) s =
      if c == 10
      then on_buffer (bcursor_insert_line own_curs_id) s
      else on_buffer (bcursor_insert own_curs_id c) s

  -- handle_input; whether it quits is `is_esc`.
  unfoldable pub handle_input : Key → Client R → Outcome (Client R) (Unit {0})
  unfolding announce apply_key
  handle_input k s = elim s.b [
    | none ↦ fault
    | some b ↦ apply_key k (announce (key_type k) (key_payload k) b s)
  ]

module _ {R : Type 0} where
  -- case MSG_OK of server_loop: what the user typed is the number of a document, or less than 0 to
  -- delete one, or 0 and the name of a new one.
  unfoldable pub choose_file : ℤ → Text → Message → Client R → Client R
  unfolding create_msg
  choose_file (negsuc n) fname msg s = record s {
    user_id = msg.user_id;
    file_id = negsuc n;
    sent = create_msg delete_file msg.user_id (pos (n + 1)) minus_one none ∷ s.sent;
  }
  choose_file (pos zero) fname msg s = record s {
    user_id = msg.user_id;
    file_id = pos zero;
    sent = create_msg create_file msg.user_id (pos zero) minus_one (some fname) ∷ s.sent;
  }
  choose_file (pos (suc n)) fname msg s = record s {
    user_id = msg.user_id;
    file_id = pos (suc n);
    sent = create_msg file_request msg.user_id (pos (suc n)) minus_one none ∷ s.sent;
  }
