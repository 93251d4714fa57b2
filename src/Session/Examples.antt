-- ===== src/Session/Examples.antt =====
-- The theorem applied to user 3, who types "x" after the "a" of the lines "ab" and "c".
use lprog_hw.Prelude.{ℕ, ◌≡◌, refl, none, some, List, [], ◌∷◌, arith}
use lprog_hw.Prelude.Int.{pos}
use lprog_hw.Buffer.State.{peer, Buffer, done}
use lprog_hw.Buffer.Cursors.{bcursor_find}
use lprog_hw.Buffer.Returns.{Returns}
use lprog_hw.Buffer.Runs.{list_rope}
use lprog_hw.Buffer.Safe.{Safe}
use lprog_hw.Buffer.Safe.Peers.{Safe-with}
use lprog_hw.Buffer.Document.{Document}
use lprog_hw.Buffer.Document.Edits.{bytes_with}
use lprog_hw.Buffer.Examples.{
  two_lines, first_line, At-first, two_lines_at_1-Safe, two_cells-PadFits,
}
use lprog_hw.Buffer.Examples.Documents.{two_places, two_lines-Document}
use lprog_hw.Message.Rows.{Row, rows_json, rows_laws}
use lprog_hw.Server.State.{worker_mode, Server}
use lprog_hw.Server.Examples.{env, running}
use lprog_hw.Editor.{Client, char, handle_input}
use lprog_hw.Session.{Agrees, Together, handle_input-handle_msg}

-- The worker's own cursor is at the start, user 3's where the client's is.
abbrev worker_buffer : Buffer (List ℕ)
worker_buffer = record (two_lines 1) {
  peer_curss = none ∷ some (record { id = 3; own_line = 1; pos = 1 }) ∷ [];
}

abbrev client : Client (List ℕ)
client = record { user_id = pos 3; file_id = pos 1; b = some (two_lines 1); sent = [] }

abbrev worker : Server (List ℕ)
worker = record (running worker_mode) { buf = some worker_buffer }

worker_buffer-Safe : Safe worker_buffer
worker_buffer-Safe =
    Safe-with (peer 1) (record { id = 3; own_line = 1; pos = 1 }) two_lines_at_1-Safe
      (first_line, At-first, omega arith)

worker_buffer-Document : Document worker_buffer two_places
worker_buffer-Document = record {
  lines = two_lines-Document.lines;
  first_prev = two_lines-Document.first_prev;
  fuel = two_lines-Document.fuel;
}

found_peer : bcursor_find 3 worker_buffer ≡ done (some (peer 1)) worker_buffer
unfolding bcursor_find
found_peer = refl

abbrev in_place : Together 3 client worker (two_lines 1) worker_buffer first_line first_line
in_place = record {
  id = refl;
  client = refl;
  client_safe = two_lines_at_1-Safe;
  own_id = refl;
  own_line = At-first;
  worker = refl;
  mode = refl;
  known = refl;
  worker_safe = worker_buffer-Safe;
  ref = peer 1;
  cursor = record { id = 3; own_line = 1; pos = 1 };
  found = found_peer;
  named = refl;
  line = At-first;
  same_pos = refl;
  same_line = refl;
}

handle_input-handle_msg_example :
    Returns
      (λ _ s'.
        Agrees
          (List Row)
          env
          10
          4
          (bytes_with 1 (b'a' ∷ b'x' ∷ b'b' ∷ []) two_places)
          client
          worker
          s')
      (handle_input (char b'x') client)
handle_input-handle_msg_example =
    handle_input-handle_msg (List Row) rows_laws env 10 4 3 119 client worker (two_lines 1)
      worker_buffer first_line first_line two_places two_places in_place two_lines-Document
      worker_buffer-Document two_cells-PadFits two_cells-PadFits (refl, refl, (refl, refl, tt)) refl
      (λ e. omega (arith, e)) (omega arith) (omega arith) (omega arith)
