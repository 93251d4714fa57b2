-- ===== src/Editor/Worker.antt =====
-- src/editor.c, lines 240 to 279 and 371 to 385: worker_loop and main, over what poll, recv_msg and
-- getch return.
use lprog_hw.Prelude.{ℕ, Bool, true, false, Option, none, some, List, [], ◌∷◌, if◌then◌else◌}
use lprog_hw.Prelude.Int.{ℤ, pos, negsuc, ◌==ℤ◌}
use lprog_hw.Rope.{Rope}
use lprog_hw.Json.{Json}
use lprog_hw.Utilities.Text.{Text}
use lprog_hw.Buffer.State.{Buffer, Outcome, done, fault, out_of_fuel, CmoveDir}
use lprog_hw.Message.{Message, login, create_msg}
use lprog_hw.Editor.{Client, Key, key_esc, handle_msg, handle_input}
use lprog_hw.Editor.Server.{create_login_payload, first_message, server_loop}

-- One return of poll: `received` is what recv_msg returns if the socket is readable, where `none` inside is
-- NULL; `typed` is the key if stdin is readable. `memory` and `junk_dir` are what malloc and an unset
-- variable hold for the message.
pub record Round (R : Type 0) : Type 0 where
  pub received : Option (Option Message)
  pub typed : Option Key
  pub memory : Buffer R
  pub junk_dir : Option CmoveDir

-- Whether handle_input returns 1.
abbrev pub quits : Key → Bool
quits key_esc = true
quits _ = false

abbrev pub typed : {R : Type 0} → Key → Outcome (Client R) (Unit {0}) → Outcome (Client R) Bool
typed k (done _ s) = done (quits k) s
typed k fault = fault
typed k out_of_fuel = out_of_fuel

module _ {R : Type 0} (J : Type 0) ⦃rope : Rope R⦄ ⦃json : Json J⦄ where
  abbrev pub receive : ℕ → Round R → Client R → Outcome (Client R) (Unit {0})
  receive fuel r s = elim r.received [
    | none ↦ done tt s
    | some none ↦ done tt s
    | some (some msg) ↦ handle_msg J fuel r.memory r.junk_dir msg s
  ]

  -- The key of the round; the result is whether the loop is left.
  abbrev pub type_key : Option Key → Client R → Outcome (Client R) Bool
  type_key none s = done false s
  type_key (some k) s = typed k (handle_input k s)

  -- A message that could not be handled ends the process.
  abbrev pub then_type : Option Key → Outcome (Client R) (Unit {0}) → Outcome (Client R) Bool
  then_type k (done _ s) = type_key k s
  then_type k fault = fault
  then_type k out_of_fuel = out_of_fuel

  -- The body of the loop.
  unfoldable pub work_round : ℕ → Round R → Client R → Outcome (Client R) Bool
  unfolding handle_msg handle_input
  work_round fuel r s = then_type r.typed (receive fuel r s)

  abbrev pub go_on :
      (Client R → Outcome (Client R) Bool) → Outcome (Client R) Bool → Outcome (Client R) Bool
  go_on rest (done left s) = if left then done true s else rest s
  go_on rest fault = fault
  go_on rest out_of_fuel = out_of_fuel

  -- The loop over the rounds: true if it was left, false if it waits for more.
  unfoldable pub work_rounds : ℕ → List (Round R) → Client R → Outcome (Client R) Bool
  unfolding work_round
  work_rounds fuel [] s = done false s
  work_rounds fuel (r ∷ rs) s = go_on (work_rounds fuel rs) (work_round fuel r s)

  unfoldable pub worker_loop : ℕ → Text → Text → List (Round R) → Client R → Outcome (Client R) Bool
  unfolding work_rounds create_login_payload create_msg
  worker_loop fuel name pass rs s = work_rounds fuel rs (record s {
    sent =
        create_msg login (negsuc 0) (negsuc 0) (negsuc 0) (some (create_login_payload J name pass))
        ∷ s.sent;
  })

  -- main, after the questions: `reg` says whether to register, `answers` is what the main server sends,
  -- `rs` what comes from the worker and the keyboard. `none` is a server_loop that crashes or still
  -- waits.
  unfoldable pub main :
      ℕ
      → Bool
      → Text
      → Text
      → List (Option Message × ℤ × Text)
      → List (Round R)
      → Client R
      → Option (Outcome (Client R) Bool)
  unfolding server_loop worker_loop first_message
  main fuel reg name pass answers rs s =
      elim (server_loop answers (record s { sent = first_message J reg name pass ∷ s.sent })) [
        | none ↦ none
        | some (port, s') ↦
            some (if port ==ℤ pos 0 then done false s' else worker_loop fuel name pass rs s')
      ]
