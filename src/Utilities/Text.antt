-- ===== src/Utilities/Text.antt =====
-- C strings and the calls of the C library that src/utilities.c makes on them. A string is the list
-- of its bytes before the 0; `none` is NULL, and a read through it.
use lprog_hw.Prelude.{
  ℕ, zero, suc, ◌+◌, ◌-◌, ◌*◌, ◌/◌, ◌%◌, Bool, true, false, ◌&&◌, ◌||◌, ◌==◌, leb, ltb, Option,
  none, some, List, [], ◌∷◌, if◌then◌else◌,
}
use lprog_hw.Prelude.Int.{ℤ, pos, negsuc, negate}

abbrev pub Text : Type 0
Text = List ℕ

infixl 5 ◌>>=◌
abbrev pub ◌>>=◌ {ℓ κ} : {A : Type ℓ} {B : Type κ} → Option A → (A → Option B) → Option B
none >>= k = none
some a >>= k = k a

abbrev pub newline : ℕ
newline = 10

abbrev pub colon : ℕ
colon = b':'

-- strcmp(s, t) == 0
unfoldable pub text_eq : Text → Text → Bool
text_eq [] [] = true
text_eq [] (d ∷ t) = false
text_eq (c ∷ s) [] = false
text_eq (c ∷ s) (d ∷ t) = (c == d) && text_eq s t

-- A new first character of the first line.
abbrev pub push_char : ℕ → List Text → List Text
push_char c [] = (c ∷ []) ∷ []
push_char c (l ∷ ls) = (c ∷ l) ∷ ls

-- The results of `getline` until the end of the file: each line with its newline, if it has one.
unfoldable pub get_lines : Text → List Text
get_lines [] = []
get_lines (c ∷ cs) =
    let rest = get_lines cs in if c == newline then (c ∷ []) ∷ rest else push_char c rest

-- The calls strtok(s, ":") and strtok(NULL, ":") skip colons and take what stands before the next.
unfoldable pub skip_colons : Text → Text
skip_colons [] = []
skip_colons (c ∷ s) = let rest = skip_colons s in if c == colon then rest else c ∷ s

unfoldable pub token : Text → Text
token [] = []
token (c ∷ s) = if c == colon then [] else c ∷ token s

unfoldable pub after_token : Text → Text
after_token [] = []
after_token (c ∷ s) = if c == colon then s else after_token s

-- `none` is the result NULL.
abbrev pub tokenize : Text → Option (Text × Text)
tokenize [] = none
tokenize (c ∷ s) = some (token (c ∷ s), after_token (c ∷ s))

unfoldable pub strtok : Text → Option (Text × Text)
unfolding skip_colons token after_token
strtok s = tokenize (skip_colons s)

-- The second token, or NULL.
unfoldable pub second_token : Text → Option Text
unfolding strtok
second_token rest = elim (strtok rest) [ none ↦ none | some (t, _) ↦ some t ]

-- terminateNull: the string ends where its first newline was.
unfoldable pub terminate_null : Text → Text
terminate_null [] = []
terminate_null (c ∷ s) = if c == newline then [] else c ∷ terminate_null s

-- atoi, without overflow
abbrev pub is_digit : ℕ → Bool
is_digit c = leb b'0' c && leb c b'9'

abbrev pub is_space : ℕ → Bool
is_space c = (c == 32) || (leb 9 c && leb c 13)

unfoldable pub digits_value : ℕ → Text → ℕ
digits_value acc [] = acc
digits_value acc (c ∷ s) =
    let rest = digits_value (acc * 10 + (c - b'0')) s in if is_digit c then rest else acc

abbrev pub signed_value : Text → ℤ
signed_value [] = pos 0
signed_value (c ∷ s) =
    if c == b'-'
    then negate (digits_value 0 s)
    else (if c == b'+' then pos (digits_value 0 s) else pos (digits_value 0 (c ∷ s)))

unfoldable pub skip_spaces : Text → Text
skip_spaces [] = []
skip_spaces (c ∷ s) = let rest = skip_spaces s in if is_space c then rest else c ∷ s

unfoldable pub atoi : Text → ℤ
unfolding digits_value skip_spaces
atoi s = signed_value (skip_spaces s)

-- "%d"; the digits of `n` before `acc`, with at most `fuel` of them
unfoldable pub print_digits : ℕ → ℕ → Text → Text
print_digits zero n acc = acc
print_digits (suc fuel) n acc =
    let more = print_digits fuel (n / 10) ((b'0' + n % 10) ∷ acc) in
    if ltb n 10 then (b'0' + n) ∷ acc else more

unfoldable pub print_int : ℤ → Text
unfolding print_digits
print_int (pos n) = print_digits (n + 1) n []
print_int (negsuc n) = b'-' ∷ print_digits (n + 2) (n + 1) []

-- is_equivalent_strings; strcmp reads both of its strings.
abbrev pub strcmp_eq : Option Text → Option Text → Option Bool
strcmp_eq (some s) (some t) = some (text_eq s t)
strcmp_eq (some s) none = none
strcmp_eq none t = none

unfoldable pub is_equivalent_strings :
    Option Text → Option Text → Option Text → Option Text → Option Bool
unfolding text_eq
is_equivalent_strings a1 a2 b1 b2 = do
  same ← strcmp_eq a1 a2
  if same then strcmp_eq b1 b2 else some false
