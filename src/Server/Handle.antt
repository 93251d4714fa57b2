-- ===== src/Server/Handle.antt =====
-- src/server.c, lines 86 to 91, 170 to 184 and 241 to 484: one message handled.
use lprog_hw.Prelude.{
  ℕ, zero, suc, ◌+◌, Bool, true, false, not, ◌&&◌, ◌==◌, Option, none, some, List, [], ◌∷◌,
  if◌then◌else◌, get_elem?, set,
}
use lprog_hw.Prelude.Int.{ℤ, pos, negsuc, is_nonneg, ◌==ℤ◌, bits_of}
use lprog_hw.Rope.{Rope}
use lprog_hw.Json.{Json}
use lprog_hw.Utilities.Text.{Text, print_int}
use lprog_hw.Utilities.Users.{validate_user, validate_register}
use lprog_hw.Utilities.Files.{Folder, get_file_list}
use lprog_hw.Utilities.Files
use lprog_hw.Buffer.State.{CmoveDir, up, down, left, right, fault, out_of_fuel, M, Bres}
use lprog_hw.Buffer.Edit.{
  bcursor_copy_own, bcursor_free, bcursor_insert, bcursor_insert_line, bcursor_del, bcursor_move,
}
use lprog_hw.Buffer.Serial.{buffer_serialize}
use lprog_hw.Message.{
  Message, MsgType, msg_failed, msg_ok, login, register, quit, file_request, file_response,
  create_file, delete_file, insert, insert_line, delete, move_cursor, add_cursor, delete_cursor,
  create_msg, type_of,
}
use lprog_hw.Server.State.{
  Mode, server_mode, worker_mode, Env, Worker, S, pure, ◌>>=◌, ◌>>◌, deref, on_buffer, skip, state,
  modify, get_client, set_client, send_msg,
}

-- -1
abbrev minus_one : ℤ
minus_one = negsuc 0

-- poll_list[i].fd = -1 for the first entry with the socket
unfoldable pub drop_socket : ℕ → List (Option ℕ) → List (Option ℕ)
drop_socket socket [] = []
drop_socket socket (none ∷ fds) = none ∷ drop_socket socket fds
drop_socket socket (some fd ∷ fds) =
    if fd == socket then none ∷ fds else some fd ∷ drop_socket socket fds

-- The first free entry of poll_list gets the socket of a new connection.
unfoldable pub add_socket : ℕ → List (Option ℕ) → List (Option ℕ)
add_socket socket [] = []
add_socket socket (none ∷ fds) = some socket ∷ fds
add_socket socket (some fd ∷ fds) = some fd ∷ add_socket socket fds

-- The sends of send_msg_everyone, added to those before.
unfoldable pub send_all : ℕ → Message → List (Option ℕ) → List (ℕ × Message) → List (ℕ × Message)
send_all sender msg [] sent = sent
send_all sender msg (none ∷ fds) sent = send_all sender msg fds sent
send_all sender msg (some fd ∷ fds) sent =
    send_all sender msg fds (if fd == sender then sent else (fd, msg) ∷ sent)

-- while( !port_free(hport) ) hport++
unfoldable pub next_port : (ℕ → Bool) → ℕ → ℕ → Option ℕ
next_port port_free zero hport = none
next_port port_free (suc k) hport =
    let rest = next_port port_free k (hport + 1) in if port_free hport then some hport else rest

-- payload[0] of a payload that is not NULL
abbrev pub first_byte : Text → ℕ
first_byte [] = 0
first_byte (c ∷ s) = c

-- The direction of a MOVE_CURSOR message. `dir` is not set otherwise: it is what is there, `none` for a
-- value that is no direction.
abbrev pub direction : Option CmoveDir → ℕ → Option CmoveDir
direction junk c =
    if c == b'0'
    then some up
    else (if c == b'1'
        then some down
        else (if c == b'2' then some left else (if c == b'3' then some right else junk)))

abbrev is_positive : ℤ → Bool
is_positive (pos zero) = false
is_positive (pos (suc n)) = true
is_positive (negsuc n) = false

-- Messages that a user who is not logged in may send.
abbrev pub is_open : Option MsgType → Bool
is_open (some login) = true
is_open (some register) = true
is_open _ = false

-- The id of a cursor, the 32 bits of the user's id.
abbrev pub user_of : ℤ → ℕ
user_of id = bits_of id

module _ {R : Type 0} where
  unfoldable pub logged_in : Env → ℤ → S R Bool
  logged_in env user_id = get_client env.outside user_id

  unfoldable pub close_socket : ℕ → S R (Unit {0})
  close_socket socket = modify λ s. record s { poll_list = drop_socket socket s.poll_list }

  unfoldable pub send_msg_everyone : ℕ → Message → S R (Unit {0})
  send_msg_everyone sender msg =
      modify λ s. record s { sent = send_all sender msg s.poll_list s.sent }

  -- `find a free port`; `fuel` bounds the search
  unfoldable pub take_port : Env → ℕ → S R ℕ
  take_port env fuel s = elim (next_port env.port_free fuel s.hport) [
    | none ↦ out_of_fuel
    | some p ↦ pure p (record s { hport = p + 1 })
  ]

  -- workers[file_id], outside the array a fault
  unfoldable pub get_entry : ℤ → S R Worker
  get_entry (pos i) s = elim (get_elem? s.workers i) [ none ↦ fault | some w ↦ pure w s ]
  get_entry (negsuc i) s = fault

  abbrev pub set_entry : ℤ → Worker → S R (Unit {0})
  set_entry (pos i) w = modify λ s. record s { workers = set s.workers i w }
  set_entry (negsuc i) w = λ _. fault

  -- get_worker in the parent process
  unfoldable pub get_worker : Env → ℕ → ℤ → S R ℕ
  get_worker env fuel file_id = do
    w ← get_entry file_id
    if w.port == 0
        then (do
          lp ← take_port env fuel
          pp ← take_port env fuel
          set_entry file_id (record { port = pp; pid = env.fork })
          pure pp)
        else pure w.port

  -- send_msg of MSG_OK with the list of documents
  unfoldable pub send_ok : Env → ℕ → ℤ → S R (Unit {0})
  send_ok env socket user_id = do
    s ← state
    list ← deref (get_file_list env.junk s.folder)
    send_msg socket (create_msg msg_ok user_id minus_one minus_one (some list))

  unfoldable pub send_failed : ℕ → S R (Unit {0})
  send_failed socket = send_msg socket (create_msg msg_failed minus_one minus_one minus_one none)

  -- case LOGIN, the same in both modes
  unfoldable pub handle_login : Env → ℕ → Message → S R (Unit {0})
  handle_login env socket msg = do
    s ← state
    user_id ← deref (validate_user (env.name msg.payload) (env.pass msg.payload) s.userdata)
    if is_nonneg user_id
        then (do set_client user_id true; send_ok env socket user_id)
        else send_failed socket

  unfoldable pub handle_register : Env → ℕ → Message → S R (Unit {0})
  handle_register env socket msg = do
    s ← state
    (user_id, userdata) ←
        deref (validate_register env.freed (env.name msg.payload) (env.pass msg.payload) s.userdata)
    modify (λ s. record s { userdata = some userdata })
    if is_nonneg user_id then send_ok env socket user_id else send_failed socket

  unfoldable pub handle_file_request : Env → ℕ → ℕ → Message → S R (Unit {0})
  handle_file_request env fuel socket msg = do
    port ← get_worker env fuel msg.file_id
    send_msg socket (
        create_msg file_response minus_one msg.file_id msg.file_version
          (some (b'M' ∷ print_int (pos port))))

  unfoldable pub handle_create_file : Env → ℕ → Message → S R (Unit {0})
  handle_create_file env socket msg = do
    s ← state
    filename ← deref msg.payload
    (file_id, folder) ← deref (Files.create_file filename s.folder)
    modify (λ s. record s { folder = folder })
    if is_positive file_id then send_ok env socket msg.user_id else send_failed socket

  unfoldable pub handle_delete_file : Env → ℕ → Message → S R (Unit {0})
  handle_delete_file env socket msg = do
    s ← state
    (err, folder) ← deref (Files.delete_file msg.file_id s.folder)
    modify (λ s. record s { folder = folder })
    if err ==ℤ pos 0 then send_ok env socket msg.user_id else send_failed socket

  unfoldable pub handle_quit : ℕ → Message → S R (Unit {0})
  handle_quit socket msg = do set_client msg.user_id false; close_socket socket

  -- switch( msg->type ) of the main server
  unfoldable pub serve : Env → ℕ → ℕ → Message → Option MsgType → S R (Unit {0})
  serve env fuel socket msg (some login) = handle_login env socket msg
  serve env fuel socket msg (some register) = handle_register env socket msg
  serve env fuel socket msg (some file_request) = handle_file_request env fuel socket msg
  serve env fuel socket msg (some create_file) = handle_create_file env socket msg
  serve env fuel socket msg (some delete_file) = handle_delete_file env socket msg
  serve env fuel socket msg (some quit) = handle_quit socket msg
  serve env fuel socket msg _ = skip

module _ {R : Type 0} ⦃rope : Rope R⦄ where
  -- bcursor_move. For a value that is no direction, cursor_move ends without a result, which
  -- bcursor_move reads: a fault.
  unfoldable pub move_towards : ℕ → Option CmoveDir → M R Bres
  unfolding bcursor_move
  move_towards user none = λ _. fault
  move_towards user (some dir) = bcursor_move user dir

module _ {R : Type 0} (J : Type 0) ⦃rope : Rope R⦄ ⦃json : Json J⦄ where
  unfoldable pub work_file_request : ℕ → ℕ → Message → S R (Unit {0})
  work_file_request socket user msg = do
    payload ← on_buffer (buffer_serialize J)
    send_msg socket
        (create_msg file_response msg.user_id msg.file_id msg.file_version (some payload))
    on_buffer (bcursor_copy_own user)
    send_msg_everyone socket (create_msg add_cursor msg.user_id msg.file_id msg.file_version none)

  unfoldable pub work_quit : ℕ → ℕ → Message → S R (Unit {0})
  work_quit socket user msg = do
    on_buffer (bcursor_free user)
    send_msg_everyone socket
        (create_msg delete_cursor msg.user_id msg.file_id msg.file_version none)
    close_socket socket

  unfoldable pub work_insert : ℕ → ℕ → Message → S R (Unit {0})
  work_insert socket user msg = do
    payload ← deref msg.payload
    on_buffer (bcursor_insert user (first_byte payload))
    send_msg_everyone socket msg

  unfoldable pub work_insert_line : ℕ → ℕ → Message → S R (Unit {0})
  work_insert_line socket user msg = do
    on_buffer (bcursor_insert_line user)
    send_msg_everyone socket msg

  unfoldable pub work_delete : ℕ → ℕ → Message → S R (Unit {0})
  work_delete socket user msg = do on_buffer (bcursor_del user); send_msg_everyone socket msg

  unfoldable pub work_move_cursor : Env → ℕ → ℕ → Message → S R (Unit {0})
  work_move_cursor env socket user msg = do
    payload ← deref msg.payload
    on_buffer (move_towards user (direction env.junk_dir (first_byte payload)))
    send_msg_everyone socket msg

  -- switch( msg->type ) of a worker, for the user that the check let through
  unfoldable pub work : Env → ℕ → ℕ → Message → Option MsgType → S R (Unit {0})
  work env socket user msg (some login) = handle_login env socket msg
  work env socket user msg (some file_request) = work_file_request socket user msg
  work env socket user msg (some quit) = work_quit socket user msg
  work env socket user msg (some insert) = work_insert socket user msg
  work env socket user msg (some insert_line) = work_insert_line socket user msg
  work env socket user msg (some delete) = work_delete socket user msg
  work env socket user msg (some move_cursor) = work_move_cursor env socket user msg
  work env socket user msg _ = skip

  abbrev pub dispatch : Mode → Env → ℕ → ℕ → Message → S R (Unit {0})
  dispatch server_mode env fuel socket msg = serve env fuel socket msg (type_of msg.type)
  dispatch worker_mode env fuel socket msg =
      work env socket (user_of msg.user_id) msg (type_of msg.type)

  -- The result is 1 if the user is not logged in. logged_in is evaluated first, for every type.
  unfoldable pub handle_msg : Env → ℕ → ℕ → Message → S R ℕ
  handle_msg env fuel socket msg = do
    known ← logged_in env msg.user_id
    if not known && not (is_open (type_of msg.type))
        then (do close_socket socket; pure 1)
        else (do s ← state; dispatch s.mode env fuel socket msg; pure 0)
