-- ===== src/Utilities/Accounts.antt =====
-- Lists of accounts, userdata.txt for them (the accounts, one in a line, with no newline after the last),
-- and what the calls of the C library do on such lines.
use lprog_hw.Prelude.{
  ℕ, ◌+◌, ◌≡◌, refl, ap, Bool, true, false, not, ◌&&◌, ◌==◌, Option, none, some, List, [], ◌∷◌,
  ◌++◌, if◌then◌else◌, arith,
}
use lprog_hw.Prelude.Int.{ℤ, pos, negsuc}
use lprog_hw.Utilities.Text.{
  Text, newline, colon, text_eq, get_lines, skip_colons, token, after_token, tokenize, strtok,
  second_token, terminate_null,
}
use lprog_hw.Utilities.Users.{has_newline}

pub record Account : Type 0 where
  pub name : Text
  pub pass : Text

-- Neither a colon nor a newline.
unfoldable pub is_plain_text : Text → Bool
is_plain_text [] = true
is_plain_text (c ∷ s) = not (c == colon) && (not (c == newline) && is_plain_text s)

-- A plain text that is not empty.
unfoldable pub is_word : Text → Bool
is_word [] = false
is_word (c ∷ s) = is_plain_text (c ∷ s)

abbrev pub account_line : Account → Text
account_line a = a.name ++ colon ∷ a.pass

unfoldable pub userdata_of : List Account → Text
userdata_of [] = []
userdata_of (a ∷ []) = account_line a
userdata_of (a ∷ b ∷ xs) = account_line a ++ newline ∷ userdata_of (b ∷ xs)

unfoldable pub all_words : List Account → Bool
all_words [] = true
all_words (a ∷ xs) = is_word a.name && (is_word a.pass && all_words xs)

-- The number of the first account with the name and the password, from `i` on, or -1.
unfoldable pub find_account : Text → Text → ℕ → List Account → ℤ
find_account name pass i [] = negsuc 0
find_account name pass i (a ∷ xs) =
    if (if text_eq name a.name then text_eq pass a.pass else false)
    then pos i
    else find_account name pass (i + 1) xs

unfoldable pub has_name : Text → List Account → Bool
has_name name [] = false
has_name name (a ∷ xs) = if text_eq name a.name then true else has_name name xs

pub plain_of_word : (s : Text) → is_word s ≡ true → is_plain_text s ≡ true
unfolding is_word
plain_of_word [] h = cc h
plain_of_word (c ∷ s) h = h

pub strtok-head :
    (c : ℕ) (s : Text)
    → is_plain_text (c ∷ s) ≡ true
    → (x : Text) → strtok (c ∷ x) ≡ some (token (c ∷ x), after_token (c ∷ x))
unfolding strtok skip_colons is_plain_text
strtok-head c s h x =
    let n : (c == colon) ≡ false = ground arith in
    let skip : skip_colons (c ∷ x) ≡ c ∷ x = rw n refl in ap tokenize skip

pub second_token-some : (x t r : Text) → strtok x ≡ some (t, r) → second_token x ≡ some t
unfolding second_token
second_token-some x t r e =
    ap (λ (o : Option (Text × Text)). elim o [ none ↦ none | some (t, _) ↦ some t ]) e

pub token-plain : (s x : Text) → is_plain_text s ≡ true → token (s ++ colon ∷ x) ≡ s
unfolding token is_plain_text
token-plain [] x h = refl
token-plain (c ∷ s) x h = ground (arith, token-plain s x)

pub after_token-plain : (s x : Text) → is_plain_text s ≡ true → after_token (s ++ colon ∷ x) ≡ x
unfolding after_token is_plain_text
after_token-plain [] x h = refl
after_token-plain (c ∷ s) x h = ground (arith, after_token-plain s x)

pub token-last : (s : Text) → is_plain_text s ≡ true → token s ≡ s
unfolding token is_plain_text
token-last [] h = refl
token-last (c ∷ s) h = ground (arith, token-last s)

pub token-line : (s : Text) → is_plain_text s ≡ true → token (s ++ newline ∷ []) ≡ s ++ newline ∷ []
unfolding token is_plain_text
token-line [] h = refl
token-line (c ∷ s) h = ground (arith, token-line s)

pub terminate_null-plain : (s : Text) → is_plain_text s ≡ true → terminate_null s ≡ s
unfolding terminate_null is_plain_text
terminate_null-plain [] h = refl
terminate_null-plain (c ∷ s) h = ground (arith, terminate_null-plain s)

pub terminate_null-line :
    (s : Text) → is_plain_text s ≡ true → terminate_null (s ++ newline ∷ []) ≡ s
unfolding terminate_null is_plain_text
terminate_null-line [] h = refl
terminate_null-line (c ∷ s) h = ground (arith, terminate_null-line s)

pub get_lines-last :
    (c : ℕ) (s : Text) → has_newline (c ∷ s) ≡ false → get_lines (c ∷ s) ≡ (c ∷ s) ∷ []
unfolding get_lines has_newline
get_lines-last c [] h = ground arith
get_lines-last c (d ∷ s) h =
    let e : get_lines (d ∷ s) ≡ (d ∷ s) ∷ [] = ground (arith, get_lines-last d s) in
    let n : (c == newline) ≡ false = ground arith in rw (n, e) refl

pub get_lines-line :
    (s x : Text)
    → has_newline s ≡ false
    → get_lines (s ++ newline ∷ x) ≡ (s ++ newline ∷ []) ∷ get_lines x
unfolding get_lines has_newline
get_lines-line [] x h = refl
get_lines-line (c ∷ s) x h =
    let e : get_lines (s ++ newline ∷ x) ≡ (s ++ newline ∷ []) ∷ get_lines x =
      ground (arith, get_lines-line s x) in
    let n : (c == newline) ≡ false = ground arith in rw (n, e) refl

has_newline-plain : (s : Text) → is_plain_text s ≡ true → has_newline s ≡ false
unfolding has_newline is_plain_text
has_newline-plain [] h = refl
has_newline-plain (c ∷ s) h = ground (arith, has_newline-plain s)

pub has_newline-account :
    (n p : Text)
    → is_plain_text n ≡ true
    → is_plain_text p ≡ true
    → has_newline (n ++ colon ∷ p) ≡ false
unfolding has_newline is_plain_text
has_newline-account [] p h k = has_newline-plain p k
has_newline-account (c ∷ n) p h k = ground (arith, has_newline-account n p)
