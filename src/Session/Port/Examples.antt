-- ===== src/Session/Port/Examples.antt =====
-- The theorem applied to the first FILE_REQUEST for the document 1, and a client that has been told the
-- list of documents.
use lprog_hw.Prelude.{ℕ, suc, ◌≡◌, refl, none, some, List, [], ◌∷◌, set, replicate}
use lprog_hw.Prelude.Int.{pos}
use lprog_hw.Buffer.State.{done}
use lprog_hw.Buffer.Runs.{list_rope}
use lprog_hw.Message.{Message, type_of}
use lprog_hw.Server.State.{server_mode, Worker, Server, max_workers}
use lprog_hw.Server.Handle.{get_worker, get_entry, take_port, next_port, handle_file_request}
use lprog_hw.Server.Examples.{env, running, message}
use lprog_hw.Editor.{Client}
use lprog_hw.Editor.Server.{IsWaiting, server_loop, log_out}
use lprog_hw.Session.Port.{port_message, handle_file_request-server_loop}

abbrev free_entry : Worker
free_entry = record { port = 0; pid = 0 }

abbrev main_server : Server (List ℕ)
main_server = record (running server_mode) { workers = replicate (suc max_workers) free_entry }

abbrev with_worker : Server (List ℕ)
with_worker = record main_server {
  hport = 46959;
  workers = set main_server.workers 1 (record { port = 46958; pid = 100 });
}

abbrev client : Client (List ℕ)
client = record { user_id = pos 3; file_id = pos 1; b = none; sent = [] }

abbrev request : Message
request = message 5 (pos 1) none

abbrev told_list : Message
told_list = message 1 (pos 0) (some [])

gets_port : get_worker env 10 (pos 1) main_server ≡ done 46958 with_worker
unfolding get_worker get_entry take_port next_port
gets_port = refl

told_list-IsWaiting : IsWaiting ((some told_list, pos 1, []) ∷ [])
unfolding type_of
told_list-IsWaiting = ((λ e. cc e), (λ e. cc e), tt)

handle_file_request-server_loop_example :
    (handle_file_request env 10 4 request main_server
      ≡ done _ (record with_worker { sent = (4, port_message 46958 request) ∷ with_worker.sent }))
    × ((c' : Client (List ℕ)) × (server_loop
            ((some told_list, pos 1, []) ∷ (some (port_message 46958 request), pos 0, []) ∷ [])
            client
          ≡ some (pos 46958, log_out c')))
handle_file_request-server_loop_example =
    handle_file_request-server_loop env 10 4 46958 request main_server with_worker
      ((some told_list, pos 1, []) ∷ []) [] (pos 0) [] client gets_port told_list-IsWaiting
