-- ===== src/Server/Refused.antt =====
-- What handle_msg refuses, and what it lets through though nobody is logged in.
use lprog_hw.Prelude.{ℕ, ◌≡◌, refl, sym, ap, ◌≢◌, ◌↔◌, subst, true, false, some, ◌∷◌}
use lprog_hw.Prelude.Int.{negsuc}
use lprog_hw.Rope.{Rope}
use lprog_hw.Json.{Json}
use lprog_hw.Utilities.Text.{Text}
use lprog_hw.Buffer.State.{Buffer, up, done}
use lprog_hw.Buffer.Edit.{bcursor_insert}
use lprog_hw.Buffer.Returns.{Returns, returns}
use lprog_hw.Buffer.Safe.Named.{HasCursor, no_cursor_crashes}
use lprog_hw.Message.{Message, insert, type_of}
use lprog_hw.Server.State.{Env, Server, deref, worker_mode, get_client}
use lprog_hw.Server.Handle.{
  drop_socket, is_open, user_of, logged_in, close_socket, work_insert, work, handle_msg,
}
use lprog_hw.Server.Keeps.{and_then-eq}
use lprog_hw.Server.Broadcast.{Connected, Distinct, drop_socket_lem}
use lprog_hw.Server.Work.{
  Relayed, let_through, on_type, on_eq, bind, on_buffer-Returns, with_zero, relay,
}

module _ {R : Type 0} where
  -- The state after a message was refused: its socket is not connected, each other one is as before,
  -- nothing was sent, and buffer, accounts, documents and workers are as before.
  pub record Refused (socket : ℕ) (s s' : Server R) : Type 0 where
    pub connected :
        (fd : ℕ) → Connected s'.poll_list fd ↔ ((fd ≢ socket) × Connected s.poll_list fd)
    pub sent : s'.sent ≡ s.sent
    pub buf : s'.buf ≡ s.buf
    pub clients : s'.clients ≡ s.clients
    pub userdata : s'.userdata ≡ s.userdata
    pub folder : s'.folder ≡ s.folder
    pub workers : s'.workers ≡ s.workers

module _ {R : Type 0} (J : Type 0) ⦃rope : Rope R⦄ ⦃json : Json J⦄ where
  -- In both modes, where each socket is in one slot at most, a message of a user whose entry of
  -- `clients` is 0 (for an id that is no index of it, if what stands there in memory is 0), other than
  -- LOGIN and REGISTER, has the result 1, disconnects its socket and no other, sends nothing, and
  -- leaves buffer, logins, accounts, documents and workers as they were.
  pub handle_msg-Refused :
      (env : Env) (fuel socket : ℕ) (msg : Message) (s : Server R)
      → Distinct s.poll_list
      → logged_in env msg.user_id s ≡ done false s
      → is_open (type_of msg.type) ≡ false
      → (s' : Server R) × (handle_msg J env fuel socket msg s ≡ done 1 s') × Refused socket s s'
  unfolding handle_msg close_socket
  handle_msg-Refused env fuel socket msg s d out closed = (
    record s { poll_list = drop_socket socket s.poll_list },
    and_then-eq _ out (rw closed refl),
    record {
      connected = λ fd. drop_socket_lem socket s.poll_list fd d;
      sent = refl;
      buf = refl;
      clients = refl;
      userdata = refl;
      folder = refl;
      workers = refl;
    },
  )

  no_cursor_fails :
      (b : Buffer R) (id chr : ℕ)
      → ¬ HasCursor b id
      → Returns (λ _ b'. b' ≡ b) (bcursor_insert id chr b)
  no_cursor_fails b id chr h = let e = (no_cursor_crashes b id chr up h).4 in rw e (returns refl)

  -- A worker gets an INSERT message with a negative user id, which reads before the array `clients`. If
  -- what stands there in memory is not 0 and no cursor has that id, it returns 0, leaves its buffer as
  -- it was, and sends the message on to exactly the connected sockets other than the sender, whoever is
  -- logged in.
  pub handle_insert-Intruder :
      (env : Env) (fuel socket chr k : ℕ) (rest : Text) (msg : Message) (s : Server R)
      (b : Buffer R)
      → msg.user_id ≡ negsuc k
      → env.outside (negsuc k) ≡ true
      → s.mode ≡ worker_mode
      → type_of msg.type ≡ some insert
      → msg.payload ≡ some (chr ∷ rest)
      → s.buf ≡ some b
      → ¬ HasCursor b (user_of msg.user_id)
      → Returns
          (λ res s'. (res ≡ 0) × Relayed (λ b'. b' ≡ b) socket msg s s')
          (handle_msg J env fuel socket msg s)
  unfolding work work_insert logged_in get_client
  handle_insert-Intruder env fuel socket chr k rest msg s b u read mode type payload buf nobody =
      let_through J env fuel socket msg s
        (subst (λ i. logged_in env i s ≡ done true s) (sym u) (ap (λ v. done v s) read)) mode
        (on_type J env socket (user_of msg.user_id) msg s type (
          on_eq _ (ap (λ o. deref o s) payload) (
            bind _
              (on_buffer-Returns s b _ buf (no_cursor_fails b (user_of msg.user_id) chr nobody))
              λ _ s' (b', p, e). rw e (with_zero (relay socket msg s b' p)))))
