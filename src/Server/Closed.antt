-- ===== src/Server/Closed.antt =====
-- What every handler keeps but that of LOGIN: the rules for handle_msg.
use lprog_hw.Prelude.{
  ℕ, ◌≡◌, refl, sym, subst, Bool, true, false, not, ◌&&◌, Option, none, some, List, get_elem?,
  if◌then◌else◌,
}
use lprog_hw.Prelude.Int.{ℤ, pos, negsuc, is_nonneg}
use lprog_hw.Rope.{Rope}
use lprog_hw.Json.{Json}
use lprog_hw.Buffer.State.{Buffer, Outcome, done}
use lprog_hw.Buffer.Serial.{buffer_serialize}
use lprog_hw.Buffer.Edit.{
  bcursor_copy_own, bcursor_free, bcursor_insert, bcursor_insert_line, bcursor_del,
}
use lprog_hw.Utilities.Text.{Text}
use lprog_hw.Utilities.Users.{validate_register}
use lprog_hw.Utilities.Files
use lprog_hw.Utilities.Files.{Folder, get_file_list}
use lprog_hw.Message.{
  Message, MsgType, login, register, quit, file_request, create_file, delete_file, insert,
  insert_line, delete, move_cursor, type_of,
}
use lprog_hw.Server.State.{
  Mode, server_mode, worker_mode, Env, Server, S, pure, state, and_then, ◌>>◌, ◌>>=◌, on_buffer,
  get_client, set_client,
}
use lprog_hw.Server.Handle.{
  drop_socket, first_byte, direction, is_open, user_of, dispatch, logged_in, close_socket,
  send_msg_everyone, get_worker, send_ok, send_failed, handle_login, handle_register,
  handle_file_request, handle_create_file, handle_delete_file, handle_quit, serve,
  work_file_request, work_quit, work_insert, work_insert_line, work_delete, work_move_cursor, work,
  handle_msg, move_towards,
}
use lprog_hw.Server.Keeps.{
  IfDone, if_done, Keeps, IfDone-then, Keeps-then, Keeps-deref, Keeps-if, Keeps-on_buffer,
}

module _ {R : Type 0} where
  -- The check reads the table and changes nothing.
  logged_in-done :
      (env : Env) (id : ℤ) (s : Server R) → (v : Bool) × (logged_in env id s ≡ done v s)
  unfolding logged_in get_client
  logged_in-done env (pos i) s =
      elim (get_elem? s.clients i)
        as (λ o.
          (v : Bool) × (elim o [ none ↦ done (env.outside (pos i)) s | some v ↦ done v s ]
            ≡ done v s)) [ none ↦ (env.outside (pos i), refl) | some v ↦ (v, refl) ]
  logged_in-done env (negsuc i) s = (env.outside (negsuc i), refl)

  -- What the parts of the handlers keep, but for a login.
  pub record Closed (P : Server R → Type 0) : Type 0 where
    pub buf : {s : Server R} (b : Buffer R) → P s → P (record s { buf = some b })
    pub sent : {s : Server R} (sent : List (ℕ × Message)) → P s → P (record s { sent = sent })
    pub userdata : {s : Server R} (u : Text) → P s → P (record s { userdata = some u })
    pub folder : {s : Server R} (d : Folder) → P s → P (record s { folder = d })
    pub closed :
        {s : Server R} (socket : ℕ)
        → P s
        → P (record s { poll_list = drop_socket socket s.poll_list })
    pub worker : (env : Env) (fuel : ℕ) (file_id : ℤ) → Keeps P (get_worker env fuel file_id)
    pub logout : (id : ℤ) → Keeps P (set_client id false)

  module _ {P : Server R → Type 0} (c : Closed P) where
    pub kept_send_ok : (env : Env) (socket : ℕ) (id : ℤ) → Keeps P (send_ok {R = R} env socket id)
    unfolding send_ok
    kept_send_ok env socket id s g =
        IfDone-then _ (Keeps-deref {P = P} (get_file_list env.junk s.folder) s g)
          λ list t g'. if_done (c.sent _ g')

    pub kept_send_failed : (socket : ℕ) → Keeps P (send_failed {R = R} socket)
    unfolding send_failed
    kept_send_failed socket s g = if_done (c.sent _ g)

    pub kept_close : (socket : ℕ) → Keeps P (close_socket {R = R} socket)
    unfolding close_socket
    kept_close socket s g = if_done (c.closed socket g)

    pub kept_everyone :
        (socket : ℕ) (msg : Message) → Keeps P (send_msg_everyone {R = R} socket msg)
    unfolding send_msg_everyone
    kept_everyone socket msg s g = if_done (c.sent _ g)

    kept_buffer : {A : Type 0} (m : Buffer R → Outcome (Buffer R) A) → Keeps P (on_buffer m)
    kept_buffer m = Keeps-on_buffer m (λ s b g. c.buf b g)

    pub kept_serve :
        (env : Env) (fuel socket : ℕ) (msg : Message) (t : Option MsgType) (s : Server R)
        → P s
        → (t ≡ some login → IfDone (λ _. P) (handle_login env socket msg s))
        → IfDone (λ _. P) (serve env fuel socket msg t s)
    unfolding serve handle_register handle_file_request handle_create_file handle_delete_file
        handle_quit
    kept_serve env fuel socket msg (some login) s g h = h refl
    kept_serve env fuel socket msg (some register) s g h =
        IfDone-then _
          (Keeps-deref {P = P}
            (validate_register env.freed (env.name msg.payload) (env.pass msg.payload) s.userdata) s
            g)
          λ (id, userdata) t g'.
            Keeps-if (is_nonneg id) _ _ (kept_send_ok env socket id) (kept_send_failed socket)
              (record t { userdata = some userdata }) (c.userdata userdata g')
    kept_serve env fuel socket msg (some file_request) s g h =
        IfDone-then _ (c.worker env fuel msg.file_id s g) λ port t g'. if_done (c.sent _ g')
    kept_serve env fuel socket msg (some create_file) s g h =
        IfDone-then _ (Keeps-deref {P = P} msg.payload s g) λ filename t g'.
          IfDone-then _ (Keeps-deref {P = P} (Files.create_file filename s.folder) t g')
            λ (id, folder) u g''.
              Keeps-if _ _ _ (kept_send_ok env socket msg.user_id) (kept_send_failed socket)
                (record u { folder = folder }) (c.folder folder g'')
    kept_serve env fuel socket msg (some delete_file) s g h =
        IfDone-then _ (Keeps-deref {P = P} (Files.delete_file msg.file_id s.folder) s g)
          λ (err, folder) u g''.
            Keeps-if _ _ _ (kept_send_ok env socket msg.user_id) (kept_send_failed socket)
              (record u { folder = folder }) (c.folder folder g'')
    kept_serve env fuel socket msg (some quit) s g h =
        IfDone-then _ (c.logout msg.user_id s g) λ _ t g'. kept_close socket t g'
    kept_serve env fuel socket msg _ s g h = if_done g

    module _ (J : Type 0) ⦃rope : Rope R⦄ ⦃json : Json J⦄ where
      kept_work :
          (env : Env) (socket user : ℕ) (msg : Message) (t : Option MsgType) (s : Server R)
          → P s
          → (t ≡ some login → IfDone (λ _. P) (handle_login env socket msg s))
          → IfDone (λ _. P) (work J env socket user msg t s)
      unfolding work work_file_request work_quit work_insert work_insert_line work_delete
          work_move_cursor
      kept_work env socket user msg (some login) s g h = h refl
      kept_work env socket user msg (some file_request) s g h =
          IfDone-then _ (kept_buffer (buffer_serialize J) s g) λ payload t g'.
            IfDone-then _
              (kept_buffer (bcursor_copy_own user) (record t { sent = _ }) (c.sent _ g'))
              λ _ u g''. kept_everyone socket _ u g''
      kept_work env socket user msg (some quit) s g h =
          Keeps-then _ _ (kept_buffer (bcursor_free user))
            (Keeps-then _ _ (kept_everyone socket _) (kept_close socket)) s g
      kept_work env socket user msg (some insert) s g h =
          IfDone-then _ (Keeps-deref {P = P} msg.payload s g) λ payload.
            Keeps-then _ _ (kept_buffer (bcursor_insert user (first_byte payload)))
              (kept_everyone socket msg)
      kept_work env socket user msg (some insert_line) s g h =
          Keeps-then _ _ (kept_buffer (bcursor_insert_line user)) (kept_everyone socket msg) s g
      kept_work env socket user msg (some delete) s g h =
          Keeps-then _ _ (kept_buffer (bcursor_del user)) (kept_everyone socket msg) s g
      kept_work env socket user msg (some move_cursor) s g h =
          IfDone-then _ (Keeps-deref {P = P} msg.payload s g) λ payload.
            Keeps-then _ _
              (kept_buffer (move_towards user (direction env.junk_dir (first_byte payload))))
              (kept_everyone socket msg)
      kept_work env socket user msg _ s g h = if_done g

      kept_dispatch :
          (m : Mode) (env : Env) (fuel socket : ℕ) (msg : Message) (s : Server R)
          → P s
          → (type_of msg.type ≡ some login → IfDone (λ _. P) (handle_login env socket msg s))
          → IfDone (λ _. P) (dispatch J m env fuel socket msg s)
      kept_dispatch server_mode env fuel socket msg =
          kept_serve env fuel socket msg (type_of msg.type)
      kept_dispatch worker_mode env fuel socket msg =
          kept_work env socket (user_of msg.user_id) msg (type_of msg.type)

      -- What handle_msg does once it knows whether the message is refused.
      abbrev respond : Env → ℕ → ℕ → Message → Bool → S R ℕ
      respond env fuel socket msg refused =
          if refused
          then (close_socket socket >> pure 1)
          else (state >>= λ s. dispatch J s.mode env fuel socket msg >> pure 0)

      kept_answer :
          (env : Env) (fuel socket : ℕ) (msg : Message) (s : Server R)
          → P s
          → (type_of msg.type ≡ some login → IfDone (λ _. P) (handle_login env socket msg s))
          → (refused : Bool) → IfDone (λ _. P) (respond env fuel socket msg refused s)
      kept_answer env fuel socket msg s g h true =
          IfDone-then (λ _. pure 1) (kept_close socket s g) λ _ t g'. if_done g'
      kept_answer env fuel socket msg s g h false =
          IfDone-then (λ _. pure 0) (kept_dispatch s.mode env fuel socket msg s g h)
            λ _ t g'. if_done g'

      pub kept_handle_msg :
          (env : Env) (fuel socket : ℕ) (msg : Message) (s : Server R)
          → P s
          → (type_of msg.type ≡ some login → IfDone (λ _. P) (handle_login env socket msg s))
          → IfDone (λ _. P) (handle_msg J env fuel socket msg s)
      unfolding handle_msg
      kept_handle_msg env fuel socket msg s g h =
          let (v, e) = logged_in-done env msg.user_id s in
          subst
            (λ o.
              IfDone (λ _. P)
                (and_then o
                  (λ v. respond env fuel socket msg (not v && not (is_open (type_of msg.type))))))
            (sym e)
            (kept_answer env fuel socket msg s g h (not v && not (is_open (type_of msg.type))))
