-- ===== src/Editor/Examples.antt =====
-- The theorems on src/editor.c applied to a client with a buffer of two lines.
use lprog_hw.Prelude.{ℕ, ◌≡◌, refl, true, Option, some, List, [], ◌∷◌, arith}
use lprog_hw.Json.{is_ascii}
use lprog_hw.Utilities.Text.{Text, atoi}
use lprog_hw.Message.{Message, file_response, type_of}
use lprog_hw.Message.Rows.{Row, rows_json, rows_laws}
use lprog_hw.Editor.Server.{
  create_login_payload, login_name, login_pass, create_login_payload_lem, log_out, server_loop,
  IsWaiting, server_loop_lem,
}
use lprog_hw.Prelude.Int.{pos}
use lprog_hw.Buffer.State.{own}
use lprog_hw.Buffer.Returns.{Returns}
use lprog_hw.Buffer.Runs.{list_rope}
use lprog_hw.Buffer.Examples.{two_lines, first_line, own_cursor, At-first, two_lines_at_1-Safe}
use lprog_hw.Buffer.Safe.Typing.{Edited}
use lprog_hw.Editor.{Client, char, handle_input}
use lprog_hw.Editor.Typing.{Typed, handle_input-Typed}

abbrev client : Client (List ℕ)
client = record { user_id = pos 3; file_id = pos 1; b = some (two_lines 1); sent = [] }

handle_input-Typed_example :
    Returns
      (λ _ s'.
        Typed
          (Edited
            (record (two_lines 1) { ver = 1 })
            own
            (own_cursor 1)
            first_line
            2
            (b'a' ∷ b'x' ∷ b'b' ∷ []))
          b'x'
          (two_lines 1)
          client
          s')
      (handle_input (char b'x') client)
handle_input-Typed_example =
    handle_input-Typed client (two_lines 1) 119 first_line refl two_lines_at_1-Safe refl At-first
      refl (λ e. omega (arith, e)) (omega arith)

-- User "al" with the password "pw"; the server answers, document 1 is chosen, and its worker has the
-- port 46958.
plain : (is_ascii (b'a' ∷ b'l' ∷ []) ≡ true) × (is_ascii (b'p' ∷ b'w' ∷ []) ≡ true)
unfolding is_ascii
plain = (refl, refl)

create_login_payload_example :
    (login_name (List Row) (create_login_payload (List Row) (b'a' ∷ b'l' ∷ []) (b'p' ∷ b'w' ∷ []))
      ≡ some (b'a' ∷ b'l' ∷ []))
    × (login_pass (List Row) (create_login_payload (List Row) (b'a' ∷ b'l' ∷ []) (b'p' ∷ b'w' ∷ []))
        ≡ some (b'p' ∷ b'w' ∷ []))
create_login_payload_example =
    create_login_payload_lem (List Row) rows_laws (b'a' ∷ b'l' ∷ []) (b'p' ∷ b'w' ∷ []) plain.0
      plain.1

abbrev answer : ℕ → Option Text → Message
answer code payload = record {
  type = pos code;
  user_id = pos 3;
  file_id = pos 1;
  file_version = pos 0;
  payload = payload;
}

abbrev digits : Text
digits = b'4' ∷ b'6' ∷ b'9' ∷ b'5' ∷ b'8' ∷ []

answers-IsWaiting : IsWaiting ((some (answer 1 (some [])), pos 1, []) ∷ [])
unfolding type_of
answers-IsWaiting = ((λ e. cc e), (λ e. cc e), tt)

gets_port : type_of (pos 6) ≡ some file_response
unfolding type_of
gets_port = refl

server_loop_example :
    (s' : Client (List ℕ)) × (server_loop
        ((some (answer 1 (some [])), pos 1, [])
          ∷ (some (answer 6 (some (b'M' ∷ digits))), pos 0, [])
          ∷ [])
        client
      ≡ some (atoi digits, log_out s'))
server_loop_example =
    server_loop_lem ((some (answer 1 (some [])), pos 1, []) ∷ []) []
      (answer 6 (some (b'M' ∷ digits))) (pos 0) [] digits client answers-IsWaiting gets_port refl
