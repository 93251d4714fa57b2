-- ===== src/Editor/Leaving/Examples.antt =====
-- User "a" with the password "b" moves the cursor to the right and leaves.
use lprog_hw.Prelude.{ℕ, ◌≡◌, refl, ap, sym, true, false, none, some, List, [], ◌∷◌, arith}
use lprog_hw.Prelude.Int.{pos, negsuc}
use lprog_hw.Buffer.Cursors.{bcursor_find}
use lprog_hw.Buffer.State.{Line, Buffer, down, done}
use lprog_hw.Buffer.Runs.{list_rope}
use lprog_hw.Buffer.Freed.{ToEnd, Freed}
use lprog_hw.Buffer.Examples.{two_lines, first_line, second_line, At-first, At-second}
use lprog_hw.Message.{login, move_cursor, quit, create_msg}
use lprog_hw.Message.Rows.{Row, rows_json}
use lprog_hw.Editor.{Client, Key, key_right, key_esc}
use lprog_hw.Editor.Server.{create_login_payload}
use lprog_hw.Editor.Worker.{Round, worker_loop}
use lprog_hw.Editor.Leaving.{worker_loop_lem}

abbrev client : Client (List ℕ)
client = record { user_id = pos 3; file_id = pos 1; b = some (two_lines 1); sent = [] }

abbrev moved : Buffer (List ℕ)
moved = record (two_lines 2) { ver = 1 }

abbrev after_move : Client (List ℕ)
after_move = record client {
  b = some moved;
  sent =
      create_msg move_cursor (pos 3) (pos 1) (pos 0) (some (b'3' ∷ []))
      ∷ create_msg login (negsuc 0) (negsuc 0) (negsuc 0)
          (some (create_login_payload (List Row) (b'a' ∷ []) (b'b' ∷ [])))
      ∷ [];
}

abbrev typing : Key → Round (List ℕ)
typing k = record { received = none; typed = some k; memory = two_lines 0; junk_dir = some down }

moves_right :
    worker_loop (List Row) 9 (b'a' ∷ []) (b'b' ∷ []) (typing key_right ∷ []) client
    ≡ done false after_move
unfolding worker_loop bcursor_find
moves_right = refl

moved-ToEnd : ToEnd moved.cell moved.first (1 ∷ 2 ∷ [])
moved-ToEnd = (refl, (first_line, At-first, (refl, (second_line, At-second, refl))))

worker_loop_example :
    (c : Client (List ℕ)) × (worker_loop
        (List Row)
        9
        (b'a' ∷ [])
        (b'b' ∷ [])
        (typing key_right ∷ typing key_esc ∷ [])
        client
      ≡ done true c)
    × (c.sent ≡ create_msg quit (pos 3) (pos 1) (pos 1) none ∷ after_move.sent)
    × ((d : Buffer (List ℕ)) × (c.b ≡ some d) × Freed moved (1 ∷ 2 ∷ []) d)
worker_loop_example =
    worker_loop_lem (List Row) 9 (b'a' ∷ []) (b'b' ∷ []) (typing key_right ∷ []) [] (typing key_esc)
      client after_move moved (1 ∷ 2 ∷ []) moves_right refl refl refl moved-ToEnd
      (λ l a. let e : first_line ≡ l = cc a.holds in ap (λ (x : Line (List ℕ)). x.prev) (sym e))
      (omega arith)
