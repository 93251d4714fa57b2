-- ===== src/Server/Examples/Processes.antt =====
-- The theorems on the rounds of the poll loop, on ports and on logins applied to a server with six free
-- entries for workers.
use lprog_hw.Prelude.{
  ℕ, zero, suc, ◌≡◌, refl, sym, ap, ◌+◌, ◌≤◌, ◌⊎◌, true, false, none, some, List, [], ◌∷◌, arith,
  get_elem?, set, replicate,
}
use lprog_hw.Prelude.Int.{pos, negsuc}
use lprog_hw.Buffer.State.{done, Buffer}
use lprog_hw.Buffer.Returns.{Returns}
use lprog_hw.Buffer.Runs.{list_rope}
use lprog_hw.Utilities.Users.{validate_user}
use lprog_hw.Utilities.Files.{get_file_list}
use lprog_hw.Message.{Message, msg_ok, create_msg, type_of, deserialize_msg}
use lprog_hw.Server.State.{
  server_mode, worker_mode, get_client, set_client, Env, Worker, Server, max_workers,
}
use lprog_hw.Server.Handle.{
  get_worker, logged_in, close_socket, drop_socket, handle_msg, serve, handle_login, send_ok,
}
use lprog_hw.Server.Listen.{Revents, quiet, hung_up, readable, connection, listen_round}
use lprog_hw.Buffer.Examples.{two_lines}
use lprog_hw.Server.Broadcast.{Connected}
use lprog_hw.Server.Ports.{FirstFree, get_worker_lem}
use lprog_hw.Server.Tables.{WellFormed}
use lprog_hw.Server.Tables.Rounds.{start, round, listen_round-WellFormed}
use lprog_hw.Server.Logins.{LoggedIn, ProvesId, handle_msg-LoggedIn}
use lprog_hw.Server.Examples.{empty_json, env, sockets, running, message, sockets-Distinct}

abbrev free_entry : Worker
free_entry = record { port = 0; pid = 0 }

abbrev main_server : Server (List ℕ)
main_server = record (running server_mode) {
  workers = replicate (suc max_workers) free_entry;
  folder = record { files = some []; documents = []; creatable = λ n. true };
}

entry_port : (i : ℕ) (w : Worker) → get_elem? main_server.workers i ≡ some w → w.port ≡ 0
entry_port i w e = ports 6 i w e
  where
    ports : (n i : ℕ) (w : Worker) → get_elem? (replicate n free_entry) i ≡ some w → w.port ≡ 0
    ports zero i w e = cc e
    ports (suc n) zero w e = let z : free_entry ≡ w = cc e in ap (λ (x : Worker). x.port) (sym z)
    ports (suc n) (suc i) w e = ports n i w e

main_server-WellFormed : WellFormed main_server
main_server-WellFormed = record {
  slots = refl;
  distinct = sockets-Distinct;
  logins = refl;
  entries = refl;
  below = λ i w e. omega (arith, entry_port i w e);
  ports = λ i j w v h g ne e. absurd (ne (entry_port i w h));
}

seven_is_new : ¬ Connected sockets 7
seven_is_new (zero, e) = cc e
seven_is_new (suc zero, e) = let z : ◌≡◌ {A = ℕ} 4 7 = cc e in omega (arith, z)
seven_is_new (suc (suc zero), e) = let z : ◌≡◌ {A = ℕ} 5 7 = cc e in omega (arith, z)
seven_is_new (suc (suc (suc zero)), e) = cc e
seven_is_new (suc (suc (suc (suc zero))), e) = cc e
seven_is_new (suc (suc (suc (suc (suc i)))), e) = cc e

-- Socket 7 comes, 4 sends a message of a user who is not logged in, 5 hangs up.
abbrev after_round : Server (List ℕ)
after_round = record main_server { poll_list = some 7 ∷ none ∷ none ∷ none ∷ none ∷ [] }

abbrev events : List Revents
events = quiet ∷ readable (some []) ∷ hung_up ∷ quiet ∷ quiet ∷ []

runs : listen_round (Unit {0}) env 10 (connection (some 7)) events main_server ≡ done tt after_round
unfolding listen_round deserialize_msg handle_msg logged_in get_client type_of close_socket
    drop_socket
runs = refl

listen_round-WellFormed_example : WellFormed after_round
listen_round-WellFormed_example =
    listen_round-WellFormed (Unit {0}) main_server-WellFormed
      (round env 10 (connection (some 7)) events start seven_is_new runs)

-- Every port is free: the first two are taken.
get_worker_example :
    (lp pp : ℕ) × (get_worker env 10 (pos 1) main_server
      ≡ done pp (record main_server {
        hport = pp + 1;
        workers = set main_server.workers 1 (record { port = pp; pid = 100 });
      }))
    × FirstFree env.port_free 46957 lp
    × FirstFree env.port_free (lp + 1) pp
    × (pp ≤ 46960)
get_worker_example =
    get_worker_lem env 10 1 46957 46960 free_entry main_server refl refl refl refl (omega arith)
      (omega arith) (omega arith)

-- The second account, "b" with the password "p".
abbrev env_b : Env
env_b = record env { name = λ p. some (b'b' ∷ []) }

abbrev login_b : Message
login_b = message 2 (negsuc 0) (some [])

abbrev with_b : Server (List ℕ)
with_b = record main_server {
  clients = false ∷ true ∷ true ∷ true ∷ false ∷ false ∷ [];
  sent = (4, create_msg msg_ok (pos 2) (negsuc 0) (negsuc 0) (some [])) ∷ [];
}

logs_in : handle_msg (Unit {0}) env_b 10 4 login_b main_server ≡ done 0 with_b
unfolding handle_msg logged_in get_client type_of serve handle_login validate_user set_client
    send_ok get_file_list
logs_in = refl

handle_msg-LoggedIn_example : LoggedIn main_server 2 ⊎ ProvesId env_b login_b main_server 2
handle_msg-LoggedIn_example =
    handle_msg-LoggedIn (Unit {0}) env_b 10 4 login_b main_server with_b 0 2 logs_in refl

-- A worker of the document 1, which files.txt names "f".
abbrev worker : Server (List ℕ)
worker = record (running worker_mode) {
  folder = record { files = some (b'1' ∷ b':' ∷ b'f' ∷ []); documents = []; creatable = λ n. true };
}

-- The process that is forked for it, with a store without lines.
abbrev forked : Server (List ℕ)
forked = record worker {
  folder = record {
    files = some (b'1' ∷ b':' ∷ b'f' ∷ []);
    documents = (b'f' ∷ [], b'a' ∷ b'b' ∷ []) ∷ [];
    creatable = λ n. true;
  };
}

abbrev no_lines : Buffer (List ℕ)
no_lines = record (two_lines 0) { cell = λ p. none; brk = 1 }
