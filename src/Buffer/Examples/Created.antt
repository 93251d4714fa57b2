-- ===== src/Buffer/Examples/Created.antt =====
-- The theorems on buffer_new and buffer_from_file applied to a store without lines, and the file "ab".
use lprog_hw.Prelude.{ℕ, refl, true, none, List, [], arith}
use lprog_hw.Buffer.State.{Buffer}
use lprog_hw.Buffer.File.{buffer_new}
use lprog_hw.Buffer.Returns.{Returns}
use lprog_hw.Buffer.Runs.{list_rope}
use lprog_hw.Buffer.Created.Fresh.{Holds, buffer_new-Holds}
use lprog_hw.Buffer.Examples.{two_lines}

abbrev raw : Buffer (List ℕ)
raw = record (two_lines 0) { cell = λ p. none; brk = 1 }

-- A window of 20 lines.
buffer_new-Holds_example : Returns (λ _. Holds 20 0 []) (buffer_new 1 0 20 20 true raw)
buffer_new-Holds_example = buffer_new-Holds raw 1 0 18 20 true (λ p. refl) (omega arith)
