-- ===== src/Editor/Server.antt =====
-- src/editor.c, lines 99 to 111 and 282 to 354, and lines 80 to 85 of src/utilities.c: the client and
-- the main server, from the login to the port of the worker.
--
-- What the user types is an argument: a number and a name for each list of documents that comes.
use lprog_hw.Prelude.{
  ℕ, ◌≡◌, refl, ap, ◌∙◌, ◌≢◌, Bool, true, ◌==◌, Option, none, some, List, [], ◌∷◌, ◌++◌,
  if◌then◌else◌, arith,
}
use lprog_hw.Prelude.Int.{ℤ, pos, negsuc}
use lprog_hw.Json.{Json, JsonLaws, is_ascii}
use lprog_hw.Utilities.Text.{Text, atoi}
use lprog_hw.Message.{
  Message, MsgType, msg_ok, msg_failed, login, register, quit, file_response, create_msg, type_of,
}
use lprog_hw.Editor.{Client, choose_file}

abbrev name_key : Text
name_key = b'n' ∷ b'a' ∷ b'm' ∷ b'e' ∷ []

abbrev pass_key : Text
pass_key = b'p' ∷ b'a' ∷ b's' ∷ b's' ∷ []

module _ (J : Type 0) ⦃json : Json J⦄ where
  unfoldable pub create_login_payload : Text → Text → Text
  create_login_payload name pass =
      json.print
        (json.set_string (json.set_string json.object (name_key ∷ []) name) (pass_key ∷ []) pass)

  -- What validate_user and validate_register read of a payload.
  abbrev pub login_name : Text → Option Text
  login_name payload = json.get_string (json.parse payload) (name_key ∷ [])

  abbrev pub login_pass : Text → Option Text
  login_pass payload = json.get_string (json.parse payload) (pass_key ∷ [])

  -- The first message of server_loop; worker_loop sends the one with `reg` 0.
  unfoldable pub first_message : Bool → Text → Text → Message
  unfolding create_login_payload create_msg
  first_message reg name pass =
      create_msg (if reg then register else login) (negsuc 0) (negsuc 0) (negsuc 0)
        (some (create_login_payload name pass))

  keys_differ : name_key ≢ pass_key
  keys_differ e = ne (ap first e)
    where
      first : Text → ℕ
      first [] = 0
      first (c ∷ s) = c

      ne : first name_key ≢ first pass_key
      ne z = omega (arith, z)

  -- With the laws of the JSON library, the server reads the name and the password from the payload of
  -- the first message of a client, if they are of ASCII bytes.
  pub create_login_payload_lem :
      JsonLaws J
      → (name pass : Text) → is_ascii name ≡ true
      → is_ascii pass ≡ true
      → (login_name (create_login_payload name pass) ≡ some name)
        × (login_pass (create_login_payload name pass) ≡ some pass)
  unfolding create_login_payload
  create_login_payload_lem laws name pass ok ok' = (
    laws.string_printed _ _
        ∙ laws.string_kept _ name_key pass_key pass keys_differ
        ∙ laws.string_set _ name_key name ok,
    laws.string_printed _ _ ∙ laws.string_set _ pass_key pass ok',
  )

-- What a message of the main server leaves the client to do.
pub data Next : Type 0 where
  wait leave : Next
  connect : ℤ → Next

-- sscanf(payload, "M%d", &worker_port), from 0; the payload NULL is a crash.
abbrev pub scan_port : Option Text → Option ℤ
scan_port none = none
scan_port (some []) = some (pos 0)
scan_port (some (c ∷ s)) = some (if c == b'M' then atoi s else pos 0)

module _ {R : Type 0} where
  abbrev to_port : Option ℤ → Client R → Option (Next × Client R)
  to_port none s = none
  to_port (some port) s = some (connect port, s)

  -- The switch of server_loop; `none` is a crash.
  unfoldable pub handle_reply :
      ℤ → Text → Message → Option MsgType → Client R → Option (Next × Client R)
  unfolding choose_file atoi
  handle_reply number fname msg (some msg_ok) s = some (wait, choose_file number fname msg s)
  handle_reply number fname msg (some file_response) s = to_port (scan_port msg.payload) s
  handle_reply number fname msg (some msg_failed) s = some (leave, s)
  handle_reply number fname msg _ s = some (wait, s)

  -- The message at `out:`
  abbrev pub log_out : Client R → Client R
  log_out s = record s { sent = create_msg quit s.user_id (negsuc 0) (negsuc 0) none ∷ s.sent }

  -- What server_loop does after the switch: it waits on, or it is done.
  abbrev go_on :
      (Client R → Option (ℤ × Client R)) → Option (Next × Client R) → Option (ℤ × Client R)
  go_on rest none = none
  go_on rest (some (wait, s)) = rest s
  go_on rest (some (leave, s)) = some (pos 0, log_out s)
  go_on rest (some (connect port, s)) = some (port, log_out s)

  -- The rounds of server_loop over what recv_msg returns, with the worker's port, 0 if it left; the
  -- result is `none` where it crashes or still waits.
  unfoldable pub server_loop : List (Option Message × ℤ × Text) → Client R → Option (ℤ × Client R)
  unfolding handle_reply type_of create_msg
  server_loop [] s = none
  server_loop ((none, number, fname) ∷ ms) s = server_loop ms s
  server_loop ((some msg, number, fname) ∷ ms) s =
      go_on (server_loop ms) (handle_reply number fname msg (type_of msg.type) s)

-- No answer that ends the loop: NULL, or a message other than FILE_RESPONSE and MSG_FAILED.
abbrev pub IsWaiting : List (Option Message × ℤ × Text) → Type 0
IsWaiting [] = Unit {0}
IsWaiting ((none, number, fname) ∷ ms) = IsWaiting ms
IsWaiting ((some msg, number, fname) ∷ ms) =
    (type_of msg.type ≢ some file_response) × (type_of msg.type ≢ some msg_failed) × IsWaiting ms

module _ {R : Type 0} where
  waits :
      (number : ℤ) (fname : Text) (msg : Message) (t : Option MsgType) (s : Client R)
      → t ≢ some file_response
      → t ≢ some msg_failed
      → (s' : Client R) × (handle_reply number fname msg t s ≡ some (wait, s'))
  unfolding handle_reply
  waits number fname msg (some msg_ok) s ne ne' = (choose_file number fname msg s, refl)
  waits number fname msg (some file_response) s ne ne' = absurd (ne refl)
  waits number fname msg (some msg_failed) s ne ne' = absurd (ne' refl)
  waits number fname msg _ s ne ne' = (s, refl)

  told :
      (number : ℤ) (fname digits : Text) (msg : Message) (s : Client R)
      → type_of msg.type ≡ some file_response
      → msg.payload ≡ some (b'M' ∷ digits)
      → handle_reply number fname msg (type_of msg.type) s ≡ some (connect (atoi digits), s)
  unfolding handle_reply
  told number fname digits msg s type p =
      ap (λ t. handle_reply number fname msg t s) type ∙ ap (λ o. to_port (scan_port o) s) p

  -- Whatever came before that did not end it, server_loop ends with the first FILE_RESPONSE whose
  -- payload is M and a number: it returns the number, and the last message that the client sends is
  -- QUIT.
  pub server_loop_lem :
      (ms rest : List (Option Message × ℤ × Text)) (msg : Message) (number : ℤ)
      (fname digits : Text) (s : Client R)
      → IsWaiting ms
      → type_of msg.type ≡ some file_response
      → msg.payload ≡ some (b'M' ∷ digits)
      → (s' : Client R) × (server_loop (ms ++ (some msg, number, fname) ∷ rest) s
          ≡ some (atoi digits, log_out s'))
  unfolding server_loop
  server_loop_lem [] rest msg number fname digits s w type p =
      (s, rw (told number fname digits msg s type p) refl)
  server_loop_lem ((none, n, f) ∷ ms) rest msg number fname digits s w type p =
      server_loop_lem ms rest msg number fname digits s w type p
  server_loop_lem ((some m, n, f) ∷ ms) rest msg number fname digits s (ne, ne', w) type p =
      let (s', e) = waits n f m (type_of m.type) s ne ne' in
      let (s'', e') = server_loop_lem ms rest msg number fname digits s' w type p in (s'', rw e e')
