-- ===== src/Server/Examples.antt =====
-- The theorems on src/server.c applied to a small state: two users, 1 and 3, are known; the sockets 4 and
-- 5 are connected, and the buffer has a cursor of user 3 in its second line.
mod Processes
use lprog_hw.Prelude.{
  ℕ, zero, suc, ◌≡◌, refl, ◌≢◌, ◌⊎◌, ◌↔◌, inr, true, false, Option, none, some, List, [], ◌∷◌,
  arith, inl, subst, sym,
}
use lprog_hw.Prelude.Int.{ℤ, pos, negsuc}
use lprog_hw.Json.{Json}
use lprog_hw.Utilities.Text.{Text}
use lprog_hw.Utilities.Users.{validate_user}
use lprog_hw.Buffer.State.{up, peer, done, fault, Cursor}
use lprog_hw.Buffer.Cursors.{bcursor_find}
use lprog_hw.Buffer.Returns.{Returns}
use lprog_hw.Buffer.Runs.{list_rope}
use lprog_hw.Buffer.Examples.{two_lines, second_line, peer_cursor, two_lines_at_1-Safe, At-second}
use lprog_hw.Buffer.Safe.Typing.{Edited}
use lprog_hw.Buffer.Safe.Follow.{Kept}
use lprog_hw.Buffer.Safe.Named.{HasCursor}
use lprog_hw.Message.{Message, login, insert, move_cursor, type_of}
use lprog_hw.Server.State.{Mode, server_mode, worker_mode, Env, Server, get_client}
use lprog_hw.Server.Handle.{send_all, is_open, logged_in, handle_msg, user_of}
use lprog_hw.Server.Broadcast.{Connected, Sent, Distinct, send_all_lem}
use lprog_hw.Server.Work.{Relayed, handle_insert-Relayed, handle_move-Relayed}
use lprog_hw.Server.Refused.{Refused, handle_msg-Refused, handle_insert-Intruder}

-- No object has a value; the cases of handle_msg below use none.
instance abbrev pub empty_json : Json (Unit {0})
empty_json = record {
  object = tt;
  set_number = λ j p n. j;
  set_string = λ j p s. j;
  get_number = λ j p. pos 0;
  get_string = λ j p. none;
  has_value = λ j p. false;
  print = λ j. b'{' ∷ b'}' ∷ [];
  parse = λ s. tt;
}

abbrev pub env : Env
env = record {
  port_free = λ p. true;
  fork = 100;
  name = λ p. some (b'f' ∷ []);
  pass = λ p. some (b'p' ∷ []);
  junk = [];
  junk_dir = some up;
  freed = λ k t. t;
  outside = λ i. false;
}

abbrev pub sockets : List (Option ℕ)
sockets = none ∷ some 4 ∷ some 5 ∷ none ∷ none ∷ []

abbrev pub running : Mode → Server (List ℕ)
running m = record {
  mode = m;
  hport = 46957;
  poll_list = sockets;
  clients = false ∷ true ∷ false ∷ true ∷ false ∷ false ∷ [];
  workers = [];
  socat_pid = 90;
  buf = some (two_lines 1);
  userdata = some (
      b'a' ∷ b':' ∷ b'p' ∷ 10 ∷ b'b' ∷ b':' ∷ b'p' ∷ 10 ∷ b'c' ∷ b':' ∷ b'p' ∷ 10 ∷ b'd' ∷ b':'
      ∷ b'p' ∷ 10 ∷ b'e' ∷ b':' ∷ b'p' ∷ 10 ∷ b'f' ∷ b':' ∷ b'p' ∷ []);
  folder = record { files = none; documents = []; creatable = λ n. true };
  sent = [];
}

abbrev pub message : ℕ → ℤ → Option Text → Message
message code user payload = record {
  type = pos code;
  user_id = user;
  file_id = pos 1;
  file_version = pos 0;
  payload = payload;
}

pub sockets-Distinct : Distinct sockets
sockets-Distinct zero j fd h k = cc h
sockets-Distinct (suc zero) zero fd h k = cc k
sockets-Distinct (suc zero) (suc zero) fd h k = refl
sockets-Distinct (suc zero) (suc (suc zero)) fd h k =
    let e : 4 ≡ fd = cc h in let e' : 5 ≡ fd = cc k in absurd (omega (arith, e, e'))
sockets-Distinct (suc zero) (suc (suc (suc zero))) fd h k = cc k
sockets-Distinct (suc zero) (suc (suc (suc (suc zero)))) fd h k = cc k
sockets-Distinct (suc zero) (suc (suc (suc (suc (suc j))))) fd h k = cc k
sockets-Distinct (suc (suc zero)) zero fd h k = cc k
sockets-Distinct (suc (suc zero)) (suc zero) fd h k =
    let e : 5 ≡ fd = cc h in let e' : 4 ≡ fd = cc k in absurd (omega (arith, e, e'))
sockets-Distinct (suc (suc zero)) (suc (suc zero)) fd h k = refl
sockets-Distinct (suc (suc zero)) (suc (suc (suc zero))) fd h k = cc k
sockets-Distinct (suc (suc zero)) (suc (suc (suc (suc zero)))) fd h k = cc k
sockets-Distinct (suc (suc zero)) (suc (suc (suc (suc (suc j))))) fd h k = cc k
sockets-Distinct (suc (suc (suc zero))) j fd h k = cc h
sockets-Distinct (suc (suc (suc (suc zero)))) j fd h k = cc h
sockets-Distinct (suc (suc (suc (suc (suc i))))) j fd h k = cc h

abbrev typed : Message
typed = message 10 (pos 3) (some (b'x' ∷ []))

abbrev moved : Message
moved = message 13 (pos 3) (some (b'0' ∷ []))

typed-type : type_of (pos 10) ≡ some insert
unfolding type_of
typed-type = refl

moved-type : type_of (pos 13) ≡ some move_cursor
unfolding type_of
moved-type = refl

found_peer_3 : bcursor_find 3 (two_lines 1) ≡ done (some (peer 1)) (two_lines 1)
unfolding bcursor_find
found_peer_3 = refl

handle_insert-Relayed_example :
    Returns
      (λ res s'.
        (res ≡ 0)
        × Relayed
            (Edited (two_lines 1) (peer 1) peer_cursor second_line 1 (b'x' ∷ b'c' ∷ []))
            4
            typed
            (running worker_mode)
            s')
      (handle_msg (Unit {0}) env 10 4 typed (running worker_mode))
handle_insert-Relayed_example =
    handle_insert-Relayed (Unit {0}) env 10 4 3 b'x' [] typed (running worker_mode) (two_lines 1)
      (peer 1) peer_cursor second_line refl refl refl typed-type refl refl two_lines_at_1-Safe
      found_peer_3 refl At-second refl (omega arith)

handle_move-Relayed_example :
    Returns
      (λ res s'. (res ≡ 0) × Relayed (Kept (two_lines 1)) 4 moved (running worker_mode) s')
      (handle_msg (Unit {0}) env 10 4 moved (running worker_mode))
handle_move-Relayed_example =
    handle_move-Relayed (Unit {0}) env 10 4 3 b'0' [] moved (running worker_mode) (two_lines 1) up
      refl refl refl moved-type refl refl refl two_lines_at_1-Safe
      (inr (1, peer_cursor, refl, refl))

send_all_example :
    Sent (send_all 4 typed sockets []) 5 typed
    ↔ (Sent [] 5 typed ⊎ ((typed ≡ typed) × (◌≢◌ {A = ℕ} 5 4) × Connected sockets 5))
send_all_example = send_all_lem 4 typed sockets [] 5 typed

-- User 2 is not logged in.
not_known : logged_in env (pos 2) (running server_mode) ≡ done false (running server_mode)
unfolding logged_in get_client
not_known = refl

is_closed : is_open (type_of (pos 5)) ≡ false
unfolding type_of
is_closed = refl

handle_msg-Refused_example :
    (s' : Server (List ℕ)) × (handle_msg
        (Unit {0})
        env
        10
        4
        (message 5 (pos 2) none)
        (running server_mode)
      ≡ done 1 s')
    × Refused 4 (running server_mode) s'
handle_msg-Refused_example =
    handle_msg-Refused (Unit {0}) env 10 4 (message 5 (pos 2) none) (running server_mode)
      sockets-Distinct not_known is_closed

-- What stands before the array is not 0.
abbrev env_read : Env
env_read = record env { outside = λ i. true }

-- A message with the user id -1.
abbrev intrusion : Message
intrusion = message 10 (negsuc 0) (some (b'x' ∷ []))

nobody_has_it : ¬ HasCursor (two_lines 1) (user_of (negsuc 0))
nobody_has_it (inl e) = omega (arith, e)
nobody_has_it (inr (zero, d, e, e')) = cc e
nobody_has_it (inr (suc zero, d, e, e')) =
    let z : peer_cursor ≡ d = cc e in
    let e'' = subst (λ (x : Cursor). x.id ≡ user_of (negsuc 0)) (sym z) e' in omega (arith, e'')
nobody_has_it (inr (suc (suc i), d, e, e')) = cc e

handle_insert-Intruder_example :
    Returns
      (λ res s'. (res ≡ 0) × Relayed (λ b'. b' ≡ two_lines 1) 4 intrusion (running worker_mode) s')
      (handle_msg (Unit {0}) env_read 10 4 intrusion (running worker_mode))
handle_insert-Intruder_example =
    handle_insert-Intruder (Unit {0}) env_read 10 4 b'x' 0 [] intrusion (running worker_mode)
      (two_lines 1) refl refl refl typed-type refl refl nobody_has_it
