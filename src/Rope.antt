-- ===== src/Rope.antt =====
-- librope (include/rope.h, lib/librope.a): the string type that holds a line's text. It is a
-- library, so it is an interface here: the operations that the program calls, with the behaviour
-- that rope.h documents. A text is the list of its characters.
use lprog_hw.Prelude.{
  ℕ, ◌+◌, ◌≤◌, ◌≡◌, Bool, true, false, List, [], ◌∷◌, ◌++◌, ltb, ◌&&◌, length, take, drop,
}

-- A byte that is a character of UTF-8 by itself and does not end a C string.
abbrev pub is_plain : ℕ → Bool
is_plain c = ltb 0 c && ltb c 128

pub record Rope (R : Type 0) : Type 0 where
  pub new : R
  -- rope_insert has two uses here: of a C string of one byte, and of a C string that holds
  -- characters as rope_write_cstr wrote them.
  pub insert_char : R → ℕ → ℕ → R
  pub insert_cstr : R → ℕ → List ℕ → R
  pub del : R → ℕ → ℕ → R
  pub char_count : R → ℕ
  -- the characters that rope_write_cstr copies out, without the trailing 0
  pub text : R → List ℕ
  pub text-new : text new ≡ []
  pub char_count-text : (r : R) → char_count r ≡ length (text r)
  pub text-insert_char :
      (r : R) (pos c : ℕ)
      → is_plain c ≡ true
      → pos ≤ length (text r)
      → text (insert_char r pos c) ≡ take pos (text r) ++ c ∷ drop pos (text r)
  -- "If you try to insert data into the rope with an invalid UTF8 encoding, nothing will happen";
  -- nor does anything when the C string is empty.
  pub text-insert_char_invalid :
      (r : R) (pos c : ℕ) → is_plain c ≡ false → text (insert_char r pos c) ≡ text r
  pub text-insert_cstr :
      (r : R) (pos : ℕ) (cs : List ℕ)
      → pos ≤ length (text r)
      → text (insert_cstr r pos cs) ≡ take pos (text r) ++ (cs ++ drop pos (text r))
  pub text-del :
      (r : R) (pos n : ℕ)
      → pos + n ≤ length (text r)
      → text (del r pos n) ≡ take pos (text r) ++ drop (pos + n) (text r)
