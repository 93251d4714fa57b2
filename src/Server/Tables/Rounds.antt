-- ===== src/Server/Tables/Rounds.antt =====
-- The rounds of the poll loop, and the states that a server process can come to.
use lprog_hw.Prelude.{ℕ, suc, ◌≡◌, Option, none, some, List, [], ◌∷◌, get_elem?}
use lprog_hw.Rope.{Rope}
use lprog_hw.Json.{Json}
use lprog_hw.Buffer.State.{done}
use lprog_hw.Utilities.Text.{Text}
use lprog_hw.Message.{Message}
use lprog_hw.Server.State.{Env, Server}
use lprog_hw.Server.Listen.{
  Revents, quiet, hung_up, readable, Incoming, no_connection, connection, recv_msg, accept_socket,
  hang_up, handle_received, receive, slot_event, slot_events, listen_round,
}
use lprog_hw.Server.Keeps.{IfDone, if_done, Keeps, IfDone-then, IfDone-eq, Keeps-then, Keeps-deref}
use lprog_hw.Server.Broadcast.{Connected}
use lprog_hw.Server.Tables.{WellFormed, Tables-add_socket, Tables-hang_up}
use lprog_hw.Server.Closed.{kept_handle_msg}
use lprog_hw.Server.Tables.Steps.{WellFormed-Closed, kept_login}

-- The descriptor that accept returns is none that is open.
abbrev pub Fresh : {R : Type 0} → Incoming → Server R → Type 0
Fresh (connection (some fd)) s = ¬ Connected s.poll_list fd
Fresh _ s = Unit

module _ {R : Type 0} (J : Type 0) ⦃rope : Rope R⦄ ⦃json : Json J⦄ where
  kept_received :
      (env : Env) (fuel fd : ℕ) (o : Option Message)
      → Keeps WellFormed (handle_received {R = R} J env fuel fd o)
  unfolding handle_received
  kept_received env fuel fd none s g = if_done g
  kept_received env fuel fd (some msg) s g =
      IfDone-then _
        (kept_handle_msg WellFormed-Closed J env fuel fd msg s g λ _. kept_login env fd msg s g)
        λ _ t g'. if_done g'

  kept_receive :
      (env : Env) (fuel : ℕ) (received : Option Text) (o : Option (Option ℕ))
      → Keeps WellFormed (receive {R = R} J env fuel received o)
  unfolding receive
  kept_receive env fuel received none s g = if_done g
  kept_receive env fuel received (some none) s g = if_done g
  kept_receive env fuel received (some (some fd)) s g =
      IfDone-then _ (Keeps-deref {P = WellFormed} (recv_msg J received) s g)
        (kept_received env fuel fd)

  kept_slot_event :
      (env : Env) (fuel i : ℕ) (e : Revents) → Keeps WellFormed (slot_event {R = R} J env fuel i e)
  unfolding slot_event hang_up
  kept_slot_event env fuel i quiet s g = if_done g
  kept_slot_event env fuel i hung_up s g = if_done (Tables-hang_up g i)
  kept_slot_event env fuel i (readable received) s g =
      kept_receive env fuel received (get_elem? s.poll_list i) s g

  kept_slot_events :
      (env : Env) (fuel i : ℕ) (es : List Revents)
      → Keeps WellFormed (slot_events {R = R} J env fuel i es)
  unfolding slot_events
  kept_slot_events env fuel i [] = λ s g. if_done g
  kept_slot_events env fuel i (e ∷ es) =
      Keeps-then _ _ (kept_slot_event env fuel i e) (kept_slot_events env fuel (suc i) es)

  kept_accept :
      (incoming : Incoming) (s : Server R)
      → Fresh incoming s
      → WellFormed s
      → IfDone (λ _. WellFormed) (accept_socket incoming s)
  unfolding accept_socket
  kept_accept no_connection s f g = if_done g
  kept_accept (connection none) s f g = if_done g
  kept_accept (connection (some fd)) s f g = if_done (Tables-add_socket g fd f)

  -- The states that a process comes to from `s` in rounds of its loop, each with its own environment.
  pub data Reached (s : Server R) : Server R → Type 0 where
    start : Reached s s
    round :
        (env : Env) (fuel : ℕ) (incoming : Incoming) (events : List Revents) {t u : Server R}
        → Reached s t
        → Fresh incoming t
        → listen_round J env fuel incoming events t ≡ done tt u
        → Reached s u

  -- Where the tables of a process are well-formed, they are in each state that it comes to in rounds of
  -- the poll loop, whatever connections, hang-ups and messages they bring: the arrays keep their sizes,
  -- no socket is in two slots, and no two documents have the same port.
  pub listen_round-WellFormed : {s t : Server R} → WellFormed s → Reached s t → WellFormed t
  unfolding listen_round
  listen_round-WellFormed g start = g
  listen_round-WellFormed g (round env fuel incoming events r f e) =
      IfDone-eq
        (IfDone-then _ (kept_accept incoming _ f (listen_round-WellFormed g r))
          λ _. kept_slot_events env fuel 0 events)
        e
