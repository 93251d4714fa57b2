-- ===== src/Buffer/Created/Loaded.antt =====
-- buffer_from_file, for a file of one line.
use lprog_hw.Prelude.{ℕ, ◌≡◌, ◌≢◌, true, List, [], ◌∷◌}
use lprog_hw.Rope.{Rope, is_plain}
use lprog_hw.Buffer.State.{Buffer}
use lprog_hw.Buffer.File.{newline}
use lprog_hw.Buffer.Returns.{Returns}
use lprog_hw.Buffer.Document.{Document}

-- Characters that a line can hold: no newline, and each a character by itself.
abbrev pub IsLine : List ℕ → Type 0
IsLine [] = Unit {0}
IsLine (c ∷ cs) = (is_plain c ≡ true) × (c ≢ newline) × IsLine cs
