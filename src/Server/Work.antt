-- ===== src/Server/Work.antt =====
-- handle_msg of a worker: an edit is applied to the buffer and sent on; and in both modes, what is
-- refused.
use lprog_hw.Prelude.{
  ℕ, ◌+◌, ◌<◌, ◌≡◌, refl, sym, ap, subst, ◌≢◌, ◌⊎◌, ◌↔◌, Bool, true, Option, some, ◌∷◌, ◌++◌,
  get_elem?, length, take, drop,
}
use lprog_hw.Prelude.Int.{pos}
use lprog_hw.Rope.{Rope, is_plain}
use lprog_hw.Json.{Json}
use lprog_hw.Utilities.Text.{Text}
use lprog_hw.Buffer.State.{Buffer, Line, Cursor, CursorRef, Outcome, done, CmoveDir}
use lprog_hw.Buffer.Cursors.{bcursor_find, width_limit}
use lprog_hw.Buffer.Returns.{Returns, returns}
use lprog_hw.Buffer.Safe.{At, Safe}
use lprog_hw.Buffer.Safe.Peers.{Names}
use lprog_hw.Buffer.Safe.Typing.{Edited, bcursor_insert-Edited}
use lprog_hw.Buffer.Safe.Follow.{Kept}
use lprog_hw.Buffer.Safe.Named.{HasCursor, bcursor_move-Kept}
use lprog_hw.Message.{Message, MsgType, insert, move_cursor, type_of}
use lprog_hw.Server.State.{
  worker_mode, Env, Server, S, deref, and_then, on_buffer, keep_buffer, get_client,
}
use lprog_hw.Server.Handle.{
  direction, logged_in, user_of, dispatch, send_msg_everyone, work_insert, work_move_cursor, work,
  handle_msg, move_towards,
}
use lprog_hw.Server.Broadcast.{Connected, Sent, send_all_lem}

module _ {R : Type 0} where
  -- The rules for a run of the server.
  pub bind :
      {A B : Type 0} {P : A → Server R → Type 0} {Q : B → Server R → Type 0}
      {o : Outcome (Server R) A} (k : A → S R B)
      → Returns P o
      → ((a : A) (s : Server R) → P a s → Returns Q (k a s))
      → Returns Q (and_then o k)
  bind k (returns p) next = next _ _ p

  pub on_eq :
      {A B : Type 0} {Q : B → Server R → Type 0} {o : Outcome (Server R) A} {a : A} {s : Server R}
      (k : A → S R B)
      → o ≡ done a s
      → Returns Q (k a s)
      → Returns Q (and_then o k)
  on_eq k e h = rw e h

  -- A call on the buffer changes nothing else.
  pub on_buffer-Returns :
      {A : Type 0} {P : A → Buffer R → Type 0} (s : Server R) (b : Buffer R)
      (m : Buffer R → Outcome (Buffer R) A)
      → s.buf ≡ some b
      → Returns P (m b)
      → Returns
          (λ a s'. (b' : Buffer R) × P a b' × (s' ≡ record s { buf = some b' }))
          (on_buffer m s)
  unfolding on_buffer
  on_buffer-Returns {A} {P} s b m e h = rw e (kept h)
    where
      kept :
          {o : Outcome (Buffer R) A}
          → Returns P o
          → Returns
              (λ a s'. (b' : Buffer R) × P a b' × (s' ≡ record s { buf = some b' }))
              (keep_buffer s o)
      kept (returns p) = returns (_, p, refl)

  -- The message `msg` from `socket` has been applied to the buffer, with the result `P`, and passed on
  -- to the connected sockets other than `socket`, and to no other.
  pub record Relayed (P : Buffer R → Type 0) (socket : ℕ) (msg : Message) (s s' : Server R)
      : Type 0 where
    pub b : Buffer R
    pub buf : s'.buf ≡ some b
    pub applied : P b
    pub sent :
        (fd : ℕ) (m : Message)
        → Sent s'.sent fd m
          ↔ (Sent s.sent fd m ⊎ ((m ≡ msg) × (fd ≢ socket) × Connected s.poll_list fd))
    pub poll_list : s'.poll_list ≡ s.poll_list
    pub clients : s'.clients ≡ s.clients

  pub relay :
      {P : Buffer R → Type 0} (socket : ℕ) (msg : Message) (s : Server R) (b' : Buffer R)
      → P b'
      → Returns
          (λ _. Relayed P socket msg s)
          (send_msg_everyone socket msg (record s { buf = some b' }))
  unfolding send_msg_everyone
  relay socket msg s b' p = returns (record {
    b = b';
    buf = refl;
    applied = p;
    sent = send_all_lem socket msg s.poll_list s.sent;
    poll_list = refl;
    clients = refl;
  })

  pub with_zero :
      {A : Type 0} {P : Server R → Type 0} {o : Outcome (Server R) A}
      → Returns (λ _. P) o
      → Returns (λ _ s'. (◌≡◌ {A = ℕ} 0 0) × P s') o
  with_zero (returns p) = returns (refl, p)

  logged_in-pos :
      (env : Env) (user : ℕ) (s : Server R) (v : Bool)
      → get_elem? s.clients user ≡ some v
      → logged_in env (pos user) s ≡ done v s
  unfolding logged_in get_client
  logged_in-pos env user s v e = rw (e, get_client)

module _ {R : Type 0} (J : Type 0) ⦃rope : Rope R⦄ ⦃json : Json J⦄ where
  -- A worker gets to the case of a message that the check lets through.
  pub let_through :
      {Q : ℕ → Server R → Type 0} (env : Env) (fuel socket : ℕ) (msg : Message) (s : Server R)
      → logged_in env msg.user_id s ≡ done true s
      → s.mode ≡ worker_mode
      → Returns (λ _. Q 0) (work J env socket (user_of msg.user_id) msg (type_of msg.type) s)
      → Returns Q (handle_msg J env fuel socket msg s)
  unfolding handle_msg
  let_through {Q} env fuel socket msg s known mode h = on_eq _ known (
      subst (λ m. Returns Q (and_then (dispatch J m env fuel socket msg s) (λ _. done 0)))
        (sym mode) (bind _ h (λ _ s' q. returns q)))

  known_user :
      {Q : ℕ → Server R → Type 0} (env : Env) (fuel socket user : ℕ) (msg : Message) (s : Server R)
      → msg.user_id ≡ pos user
      → get_elem? s.clients user ≡ some true
      → s.mode ≡ worker_mode
      → Returns (λ _. Q 0) (work J env socket user msg (type_of msg.type) s)
      → Returns Q (handle_msg J env fuel socket msg s)
  known_user {Q} env fuel socket user msg s u known mode h =
      let_through env fuel socket msg s
        (subst (λ i. logged_in env i s ≡ done true s) (sym u) (logged_in-pos env user s true known))
        mode
        (subst (λ i. Returns (λ _. Q 0) (work J env socket (user_of i) msg (type_of msg.type) s))
          (sym u) h)

  pub on_type :
      {Q : Unit {0} → Server R → Type 0} (env : Env) (socket user : ℕ) (msg : Message)
      (s : Server R) {t : Option MsgType}
      → type_of msg.type ≡ t
      → Returns Q (work J env socket user msg t s)
      → Returns Q (work J env socket user msg (type_of msg.type) s)
  on_type {Q} env socket user msg s e h =
      subst (λ t. Returns Q (work J env socket user msg t s)) (sym e) h

  -- A worker gets an INSERT message, with a plain character first in its payload, of a logged-in user
  -- whose cursor stands in a safe buffer, in a line with room. It applies it to its buffer as
  -- bcursor_insert-Edited states, returns 0, and sends the message on to exactly the connected sockets
  -- other than the sender.
  pub handle_insert-Relayed :
      (env : Env) (fuel socket user chr : ℕ) (rest : Text) (msg : Message) (s : Server R)
      (b : Buffer R) (r : CursorRef) (c : Cursor) (l : Line R)
      → msg.user_id ≡ pos user
      → get_elem? s.clients user ≡ some true
      → s.mode ≡ worker_mode
      → type_of msg.type ≡ some insert
      → msg.payload ≡ some (chr ∷ rest)
      → s.buf ≡ some b
      → Safe b
      → bcursor_find user b ≡ done (some r) b
      → Names b r c
      → At b.cell c.own_line l
      → is_plain chr ≡ true
      → length (rope.text l.str) < width_limit b.width
      → Returns
          (λ res s'.
            (res ≡ 0)
            × Relayed
                (Edited b r c l
                  (c.pos + 1)
                  (take c.pos (rope.text l.str) ++ chr ∷ drop c.pos (rope.text l.str)))
                socket
                msg
                s
                s')
          (handle_msg J env fuel socket msg s)
  unfolding work work_insert
  handle_insert-Relayed env fuel socket user chr rest msg s b r c l u known mode type payload buf
        safe found n a plain room =
      known_user env fuel socket user msg s u known mode (
        on_type env socket user msg s type (
          on_eq _ (ap (λ o. deref o s) payload) (
            bind _
              (on_buffer-Returns s b _ buf
                (bcursor_insert-Edited b user chr r c l safe found n a plain room))
              λ _ s' (b', p, e). rw e (with_zero (relay socket msg s b' p.1)))))

  -- A worker gets a MOVE_CURSOR message with a direction first in its payload (or another byte, where
  -- what is there for `dir` is a direction), of a logged-in user with a cursor in a safe buffer. It
  -- keeps the buffer safe and its text as it was, returns 0, and sends the message on to exactly the
  -- connected sockets other than the sender.
  pub handle_move-Relayed :
      (env : Env) (fuel socket user chr : ℕ) (rest : Text) (msg : Message) (s : Server R)
      (b : Buffer R) (dir : CmoveDir)
      → msg.user_id ≡ pos user
      → get_elem? s.clients user ≡ some true
      → s.mode ≡ worker_mode
      → type_of msg.type ≡ some move_cursor
      → msg.payload ≡ some (chr ∷ rest)
      → direction env.junk_dir chr ≡ some dir
      → s.buf ≡ some b
      → Safe b
      → HasCursor b user
      → Returns
          (λ res s'. (res ≡ 0) × Relayed (Kept b) socket msg s s')
          (handle_msg J env fuel socket msg s)
  unfolding work work_move_cursor move_towards
  handle_move-Relayed env fuel socket user chr rest msg s b dir u known mode type payload towards
        buf safe has =
      known_user env fuel socket user msg s u known mode (
        on_type env socket user msg s type (
          on_eq _ (ap (λ o. deref o s) payload) (
            rw towards (
              bind _ (on_buffer-Returns s b _ buf (bcursor_move-Kept b user dir safe has))
                λ _ s' (b', p, e). rw e (with_zero (relay socket msg s b' p))))))
