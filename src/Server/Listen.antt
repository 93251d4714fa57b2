-- ===== src/Server/Listen.antt =====
-- src/server.c, lines 56 to 84, 187 to 239 and 268 to 289, and recv_msg of src/msg.c: the rounds of the
-- poll loop, the start of a worker, and the shutdown.
--
-- What poll, accept and recv report is an argument. A descriptor that accept returns is none that is open.
use lprog_hw.Prelude.{
  ℕ, suc, Bool, true, false, ◌==◌, Option, none, some, List, [], ◌∷◌, if◌then◌else◌, get_elem?, set,
  replicate, ◌++◌,
}
use lprog_hw.Prelude.Int.{pos}
use lprog_hw.Rope.{Rope}
use lprog_hw.Json.{Json}
use lprog_hw.Utilities.Text.{Text, text_eq}
use lprog_hw.Utilities.Files.{Folder, get_file_name, remove_document}
use lprog_hw.Buffer.State.{Buffer, Outcome, done, fault, out_of_fuel}
use lprog_hw.Buffer.File.{buffer_from_file, buffer_save}
use lprog_hw.Message.{Message, deserialize_msg}
use lprog_hw.Server.State.{
  Mode, server_mode, worker_mode, Env, Worker, Server, S, pure, ◌>>=◌, ◌>>◌, deref, on_buffer, skip,
  state, modify, max_clients,
}
use lprog_hw.Server.Handle.{add_socket, handle_msg}

-- HEIGHT and WIDTH
abbrev pub screen_height : ℕ
screen_height = 20

abbrev pub screen_width : ℕ
screen_width = 20

-- What poll says of a client's socket: nothing, POLLERR or POLLHUP, or POLLIN with the string that
-- recv leaves in global_serialized_msg, `none` if it returns 0 or -1.
pub data Revents : Type 0 where
  quiet hung_up : Revents
  readable : Option Text → Revents

-- What poll says of the listening socket: nothing, or POLLIN with what accept returns, `none` for -1.
pub data Incoming : Type 0 where
  no_connection : Incoming
  connection : Option ℕ → Incoming

-- The message, `none` for NULL; the outer `none` is a crash.
abbrev pub recv_msg : (J : Type 0) ⦃json : Json J⦄ → Option Text → Option (Option Message)
recv_msg J none = some none
recv_msg J (some s) = elim (deserialize_msg J s) [ none ↦ none | some msg ↦ some (some msg) ]

abbrev pub find_document : Text → List (Text × Text) → Option Text
find_document name [] = none
find_document name ((n, d) ∷ ds) = if text_eq n name then some d else find_document name ds

-- kill: with the signal that handle_shutdown got, or with SIGKILL.
pub data Signal : Type 0 where
  passed_on killed : ℕ → Signal

-- The processes that get the signal: those of the entries that have a port.
unfoldable pub worker_signals : List Worker → List Signal
worker_signals [] = []
worker_signals (w ∷ ws) =
    if w.port == 0 then worker_signals ws else passed_on w.pid ∷ worker_signals ws

-- if( socat_pid ) kill( socat_pid, SIGKILL )
unfoldable pub tunnel_signals : ℕ → List Signal
tunnel_signals pid = if pid == 0 then [] else killed pid ∷ []

-- The document with the name, if there is one; open fails for NULL.
abbrev pub find_named : Option Text → List (Text × Text) → Option Text
find_named none ds = none
find_named (some name) ds = find_document name ds

abbrev pub store_document : Text → Option Text → Folder → Folder
store_document name none d = d
store_document name (some bytes) d = record d {
  documents = (name, bytes) ∷ remove_document name d.documents;
}

module _ {R : Type 0} where
  -- The failed accept writes -1 into an entry that is -1.
  unfoldable pub accept_socket : Incoming → S R (Unit {0})
  unfolding add_socket
  accept_socket (connection (some fd)) =
      modify λ s. record s { poll_list = add_socket fd s.poll_list }
  accept_socket _ = skip

  unfoldable pub hang_up : ℕ → S R (Unit {0})
  hang_up i = modify λ s. record s { poll_list = set s.poll_list i none }

module _ {R : Type 0} (J : Type 0) ⦃rope : Rope R⦄ ⦃json : Json J⦄ where
  -- handle_msg( poll_list[i].fd, msg ), for a message that is not NULL
  unfoldable pub handle_received : Env → ℕ → ℕ → Option Message → S R (Unit {0})
  handle_received env fuel fd none = skip
  handle_received env fuel fd (some msg) = do handle_msg J env fuel fd msg; skip

  -- The message that came for the entry; recv fails where the entry is -1 by now.
  unfoldable pub receive : Env → ℕ → Option Text → Option (Option ℕ) → S R (Unit {0})
  unfolding handle_received
  receive env fuel received (some (some fd)) = do
    msg ← deref (recv_msg J received)
    handle_received env fuel fd msg
  receive env fuel received _ = skip

  unfoldable pub slot_event : Env → ℕ → ℕ → Revents → S R (Unit {0})
  unfolding hang_up receive
  slot_event env fuel i quiet = skip
  slot_event env fuel i hung_up = hang_up i
  slot_event env fuel i (readable received) = do
    s ← state
    receive env fuel received (get_elem? s.poll_list i)

  -- for( int i=1; i<=MAX_CLIENTS; i++ ), with what poll says of each entry from `i`
  unfoldable pub slot_events : Env → ℕ → ℕ → List Revents → S R (Unit {0})
  unfolding slot_event
  slot_events env fuel i [] = skip
  slot_events env fuel i (e ∷ es) = do slot_event env fuel i e; slot_events env fuel (suc i) es

  -- One round of the loop of server_listen.
  unfoldable pub listen_round : Env → ℕ → Incoming → List Revents → S R (Unit {0})
  unfolding accept_socket slot_events
  listen_round env fuel incoming events = do accept_socket incoming; slot_events env fuel 0 events

module _ {R : Type 0} ⦃rope : Rope R⦄ where
  -- What buffer_from_file made of the memory; NULL if it says so.
  abbrev pub buf_of : Server R → Outcome (Buffer R) Bool → Outcome (Server R) (Unit {0})
  buf_of s (done true b) = done tt (record s { buf = some b })
  buf_of s (done false b) = done tt (record s { buf = none })
  buf_of s fault = fault
  buf_of s out_of_fuel = out_of_fuel

  -- The child of fork in get_worker, up to its loop: `raw` is the memory of the new buffer, and a document
  -- that exists can be opened.
  unfoldable pub start_worker : Buffer R → ℕ → S R (Unit {0})
  unfolding buffer_from_file get_file_name text_eq
  start_worker raw file_id = do
    modify (λ s. record s {
      mode = worker_mode;
      clients = replicate (suc max_clients) false;
      poll_list = replicate max_clients none;
    })
    s ← state
    name ← deref (get_file_name (pos file_id) s.folder)
    λ s. buf_of s (
        buffer_from_file (find_named name s.folder.documents) file_id screen_height screen_width
          false raw)

  -- buffer_save; open fails for a name that is NULL, and nothing is written.
  unfoldable pub save_named : Option Text → S R (Unit {0})
  unfolding buffer_save on_buffer remove_document
  save_named none = skip
  save_named (some name) = do
    s ← state
    bytes ← on_buffer (buffer_save (s.folder.creatable name))
    modify λ s. record s { folder = store_document name bytes s.folder }

  -- buffer_save of the worker's buffer, if there is one
  unfoldable pub save_document : Option (Buffer R) → S R (Unit {0})
  unfolding get_file_name save_named
  save_document none = skip
  save_document (some b) = do
    s ← state
    name ← deref (get_file_name (pos b.id) s.folder)
    save_named name

  unfoldable pub shut_down : Mode → Server R → S R (List Signal)
  unfolding worker_signals save_document
  shut_down server_mode s = pure (worker_signals s.workers)
  shut_down worker_mode s = do save_document s.buf; pure []

  -- The result are the signals that it sends.
  unfoldable pub handle_shutdown : S R (List Signal)
  unfolding shut_down tunnel_signals
  handle_shutdown = do
    s ← state
    sent ← shut_down s.mode s
    pure (sent ++ tunnel_signals s.socat_pid)
