-- ===== src/Session/Port.antt =====
-- The port of a worker on its way: sent by the main server (handle_msg of src/server.c), read by the client
-- (server_loop of src/editor.c).
mod Examples
use lprog_hw.Prelude.{ℕ, ◌≡◌, refl, ap, ◌∙◌, Option, none, some, List, ◌∷◌, ◌++◌}
use lprog_hw.Prelude.Int.{ℤ, pos, negsuc}
use lprog_hw.Rope.{Rope}
use lprog_hw.Utilities.Text.{Text, print_int, atoi}
use lprog_hw.Utilities.Numbers.{atoi-print_int}
use lprog_hw.Buffer.State.{done}
use lprog_hw.Message.{Message, file_response, create_msg, type_of, type_of-code}
use lprog_hw.Server.State.{Env, Server}
use lprog_hw.Server.Handle.{get_worker, handle_file_request}
use lprog_hw.Editor.{Client}
use lprog_hw.Editor.Server.{IsWaiting, server_loop, log_out, server_loop_lem}

type_of-file_response :
    (id f v : ℤ) (p : Option Text)
    → type_of (create_msg file_response id f v p).type ≡ some file_response
unfolding create_msg
type_of-file_response id f v p = type_of-code file_response

payload-create_msg :
    (id f v : ℤ) (p : Option Text) → (create_msg file_response id f v p).payload ≡ p
unfolding create_msg
payload-create_msg id f v p = refl

-- The answer to a FILE_REQUEST
abbrev pub port_message : ℕ → Message → Message
port_message port msg =
    create_msg file_response (negsuc 0) msg.file_id msg.file_version
      (some (b'M' ∷ print_int (pos port)))

module _ {R : Type 0} ⦃rope : Rope R⦄ where
  -- When get_worker ends with a port, the main server answers a FILE_REQUEST with one message, and a client
  -- whose server_loop did not end before ends with this message and has that port.
  pub handle_file_request-server_loop :
      (env : Env) (fuel socket port : ℕ) (msg : Message) (s s' : Server R)
      (ms rest : List (Option Message × ℤ × Text)) (number : ℤ) (fname : Text) (c : Client R)
      → get_worker env fuel msg.file_id s ≡ done port s'
      → IsWaiting ms
      → (handle_file_request env fuel socket msg s
          ≡ done _ (record s' { sent = (socket, port_message port msg) ∷ s'.sent }))
        × ((c' : Client R) × (server_loop
                (ms ++ (some (port_message port msg), number, fname) ∷ rest)
                c
              ≡ some (pos port, log_out c')))
  unfolding handle_file_request
  handle_file_request-server_loop env fuel socket port msg s s' ms rest number fname c e w =
      let (c', h) =
        server_loop_lem ms rest (port_message port msg) number fname (print_int (pos port)) c w
          (type_of-file_response _ _ _ _) (payload-create_msg _ _ _ _) in
      (rw e refl, (c', h ∙ ap (λ z. some (z, log_out c')) (atoi-print_int (pos port))))
