-- ===== src/Utilities/Registry.antt =====
-- validate_user and validate_register of src/utilities.c against a list of accounts.
use lprog_hw.Prelude.{
  ℕ, suc, ◌+◌, ◌≡◌, refl, sym, ap, ◌∙◌, subst, Bool, true, false, ◌==◌, Bool-cases, inl, inr, some,
  List, [], ◌∷◌, ◌++◌, if◌then◌else◌, arith, length, append_assoc, ==-false, Option,
}
use lprog_hw.Prelude.Int.{ℤ, pos, negsuc}
use lprog_hw.Utilities.Text.{
  Text, newline, colon, text_eq, get_lines, strtok, second_token, terminate_null,
  is_equivalent_strings, ◌>>=◌,
}
use lprog_hw.Utilities.Users.{
  user_matches, find_user, validate_user, Search, taken, free_id, find_name, add_account,
  validate_register, first_of_strtok, after_free,
}
use lprog_hw.Utilities.Accounts.{
  Account, is_plain_text, is_word, account_line, userdata_of, all_words, find_account, has_name,
  plain_of_word, strtok-head, second_token-some, token-plain, after_token-plain, token-last,
  token-line, terminate_null-plain, terminate_null-line, get_lines-last, get_lines-line,
  has_newline-account,
}

strtok-name : (s x : Text) → is_word s ≡ true → strtok (s ++ colon ∷ x) ≡ some (s, x)
unfolding is_word
strtok-name [] x h = cc h
strtok-name (c ∷ s) x h =
    rw (token-plain (c ∷ s) x h, after_token-plain (c ∷ s) x h) at
      (strtok-head c s h (s ++ colon ∷ x))

-- What may stand behind the password in its line.
data Ending (p : Text) : Text → Type 0 where
  last_line : Ending p p
  full_line : Ending p (p ++ newline ∷ [])

second_token-pass : (p t : Text) → is_word p ≡ true → Ending p t → second_token t ≡ some t
unfolding is_word
second_token-pass [] t h e = cc h
second_token-pass (c ∷ p) t h last_line =
    second_token-some (c ∷ p) (c ∷ p) _ (rw (token-last (c ∷ p) h) at (strtok-head c p h p))
second_token-pass (c ∷ p) t h full_line =
    second_token-some (c ∷ p ++ newline ∷ []) (c ∷ p ++ newline ∷ []) _
      (rw (token-line (c ∷ p) h) at (strtok-head c p h (p ++ newline ∷ [])))

terminate_null-Ending : (p t : Text) → is_plain_text p ≡ true → Ending p t → terminate_null t ≡ p
terminate_null-Ending p t h last_line = terminate_null-plain p h
terminate_null-Ending p t h full_line = terminate_null-line p h

user_matches-line :
    (name pass : Text) (n p t : Text)
    → is_word n ≡ true
    → is_word p ≡ true
    → Ending p t
    → user_matches (some name) (some pass) (n ++ colon ∷ t)
      ≡ some (if text_eq name n then text_eq pass p else false)
unfolding user_matches is_equivalent_strings
user_matches-line name pass n p t h k e =
    rw
      (
        strtok-name n t h,
        second_token-pass p t k e,
        terminate_null-Ending p t (plain_of_word p k) e,
      )
      (elim (Bool-cases (text_eq name n)) [ inl z ↦ rw z refl | inr z ↦ rw z refl ])

-- The line of an account, the last one or another.
data IsLine (a : Account) : Text → Type 0 where
  is_line : {t : Text} → Ending a.pass t → IsLine a (a.name ++ colon ∷ t)

data Lines : List Account → List Text → Type 0 where
  no_lines : Lines [] []
  more_lines :
      {a : Account} {xs : List Account} {l : Text} {ls : List Text}
      → IsLine a l
      → Lines xs ls
      → Lines (a ∷ xs) (l ∷ ls)

line_assoc : (n p : Text) → (n ++ colon ∷ p) ++ newline ∷ [] ≡ n ++ colon ∷ (p ++ newline ∷ [])
line_assoc [] p = refl
line_assoc (c ∷ n) p = ap (λ (s : Text). c ∷ s) (line_assoc n p)

one_line :
    (n p : Text)
    → is_word n ≡ true
    → is_plain_text p ≡ true
    → get_lines (n ++ colon ∷ p) ≡ (n ++ colon ∷ p) ∷ []
unfolding is_word
one_line [] p h k = cc h
one_line (c ∷ n) p h k = get_lines-last c (n ++ colon ∷ p) (has_newline-account (c ∷ n) p h k)

get_lines-Lines : (xs : List Account) → all_words xs ≡ true → Lines xs (get_lines (userdata_of xs))
unfolding userdata_of all_words get_lines
get_lines-Lines [] h = no_lines
get_lines-Lines (a ∷ []) h =
    let n : is_word a.name ≡ true = ground arith in
    let p : is_word a.pass ≡ true = ground arith in
    subst (Lines (a ∷ [])) (sym (one_line a.name a.pass n (plain_of_word a.pass p)))
      (more_lines (is_line last_line) no_lines)
get_lines-Lines (a ∷ b ∷ xs) h =
    let n : is_word a.name ≡ true = ground arith in
    let p : is_word a.pass ≡ true = ground arith in
    let w : all_words (b ∷ xs) ≡ true = ground arith in
    let one = has_newline-account a.name a.pass (plain_of_word a.name n) (plain_of_word a.pass p) in
    subst (Lines (a ∷ b ∷ xs)) (sym (get_lines-line (account_line a) (userdata_of (b ∷ xs)) one)) (
      more_lines (subst (IsLine a) (sym (line_assoc a.name a.pass)) (is_line full_line))
        (get_lines-Lines (b ∷ xs) w))

some_if :
    {A : Type 0} (t : Bool) (x y : A) → (if t then some x else some y) ≡ some (if t then x else y)
some_if true x y = refl
some_if false x y = refl

find_user-Lines :
    (name pass : Text) (i : ℕ) (xs : List Account) (ls : List Text)
    → all_words xs ≡ true
    → Lines xs ls
    → find_user (some name) (some pass) i ls ≡ some (find_account name pass i xs)
unfolding find_user find_account all_words
find_user-Lines name pass i [] [] h no_lines = refl
find_user-Lines name pass i [] (l ∷ ls) h k = elim k [ ]
find_user-Lines name pass i (a ∷ xs) [] h k = elim k [ ]
find_user-Lines name pass i (a ∷ xs) (l ∷ ls) h (more_lines (is_line {t} e) k) =
    let n : is_word a.name ≡ true = ground arith in
    let p : is_word a.pass ≡ true = ground arith in
    let w : all_words xs ≡ true = ground arith in
    rw
      (
        user_matches-line name pass a.name a.pass t n p e,
        find_user-Lines name pass (i + 1) xs ls w k,
      )
      (some_if _ (pos i) (find_account name pass (i + 1) xs))

name_matches :
    (name n t : Text)
    → is_word n ≡ true
    → is_equivalent_strings
        (some name)
        (first_of_strtok (strtok (n ++ colon ∷ t)))
        (some [])
        (some [])
      ≡ some (text_eq name n)
unfolding is_equivalent_strings
name_matches name n t h =
    rw (strtok-name n t h)
      (elim (Bool-cases (text_eq name n)) [ inl z ↦ rw z refl | inr z ↦ rw z refl ])

-- The result of the search for a name.
search_of : Text → ℕ → List Account → Search
search_of name i xs = if has_name name xs then taken else free_id (i + length xs)

find_name-Lines :
    (name : Text) (i : ℕ) (xs : List Account) (ls : List Text)
    → all_words xs ≡ true
    → Lines xs ls
    → find_name (λ _. some name) i ls ≡ some (search_of name i xs)
unfolding find_name search_of has_name all_words
find_name-Lines name i [] [] h no_lines = let z : i + 0 ≡ i = omega arith in rw z refl
find_name-Lines name i [] (l ∷ ls) h k = elim k [ ]
find_name-Lines name i (a ∷ xs) [] h k = elim k [ ]
find_name-Lines name i (a ∷ xs) (l ∷ ls) h (more_lines (is_line {t} e) k) =
    let n : is_word a.name ≡ true = ground arith in
    let w : all_words xs ≡ true = ground arith in
    let z : i + 1 + length xs ≡ i + suc (length xs) = omega arith in
    rw (name_matches name a.name t n, find_name-Lines name (i + 1) xs ls w k)
      (elim (Bool-cases (text_eq name a.name)) [ inl y ↦ rw y refl | inr y ↦ rw (y, z) refl ])

userdata_of-more :
    (a x : Account) (xs : List Account)
    → userdata_of (a ∷ xs) ++ newline ∷ account_line x ≡ userdata_of (a ∷ (xs ++ x ∷ []))
unfolding userdata_of
userdata_of-more a x [] = refl
userdata_of-more a x (b ∷ xs) =
    append_assoc (account_line a) (newline ∷ userdata_of (b ∷ xs)) (newline ∷ account_line x)
    ∙ ap (λ (s : Text). account_line a ++ newline ∷ s) (userdata_of-more b x xs)

-- validate_user on the file of a list of accounts, with plain names and passwords, does not crash and
-- returns the number of the first account with the name and the password, from 1 on, or -1.
pub validate_user_lem :
    (name pass : Text) (xs : List Account)
    → all_words xs ≡ true
    → validate_user (some name) (some pass) (some (userdata_of xs))
      ≡ some (find_account name pass 1 xs)
unfolding validate_user
validate_user_lem name pass xs h = find_user-Lines name pass 1 xs _ h (get_lines-Lines xs h)

-- What register does to a list of accounts.
unfoldable pub register_account : Account → List Account → ℤ × Text
register_account x xs =
    if has_name x.name xs
    then (negsuc 0, userdata_of xs)
    else (pos (1 + length xs), userdata_of (xs ++ x ∷ []))

appended :
    (x : Account) (xs : List Account)
    → (if 1 + length xs == 1
        then userdata_of xs ++ account_line x
        else userdata_of xs ++ newline ∷ account_line x)
      ≡ userdata_of (xs ++ x ∷ [])
unfolding userdata_of
appended x [] = refl
appended x (a ∷ xs) =
    let z : (1 + suc (length xs) == 1) ≡ false =
      ==-false (1 + suc (length xs)) 1 (λ e. omega (arith, e)) in
    rw z (userdata_of-more a x xs)

add_account-search :
    (x : Account) (xs : List Account)
    → add_account (λ _. some x.name) (λ _. some x.pass) (userdata_of xs) (search_of x.name 1 xs)
      ≡ register_account x xs
unfolding register_account search_of
add_account-search x xs = elim (Bool-cases (has_name x.name xs)) [
  | inl e ↦ rw e refl
  | inr e ↦ rw e (ap (λ (s : Text). (pos (1 + length xs), s)) (appended x xs))
]

-- validate_register on the file of a list of accounts, with plain names and passwords, where the freed
-- memory of the name and the password that it was given holds those of `x` at each read, does not
-- crash: if the name of `x` is in the list it returns -1 and leaves the file as it is, otherwise it
-- returns the number after the last and the file is that of the list with `x` at its end.
pub validate_register_lem :
    (freed : ℕ → Text → Text) (name pass : Text) (x : Account) (xs : List Account)
    → ((k : ℕ) → freed k name ≡ x.name)
    → ((k : ℕ) → freed k pass ≡ x.pass)
    → all_words xs ≡ true
    → validate_register freed (some name) (some pass) (some (userdata_of xs))
      ≡ some (register_account x xs)
unfolding validate_register
validate_register_lem freed name pass x xs holds_name holds_pass h =
    let n : after_free freed (some name) ≡ (λ _. some x.name) = λ i k. some (holds_name k i) in
    let p : after_free freed (some pass) ≡ (λ _. some x.pass) = λ i k. some (holds_pass k i) in
    ap
      (λ (v : ℕ → Option Text). do
        found ← find_name v 1 (get_lines (userdata_of xs))
        some (add_account v (after_free freed (some pass)) (userdata_of xs) found))
      n
    ∙ ap
        (λ (v : ℕ → Option Text). do
          found ← find_name (λ _. some x.name) 1 (get_lines (userdata_of xs))
          some (add_account (λ _. some x.name) v (userdata_of xs) found))
        p
    ∙ rw (find_name-Lines x.name 1 xs _ h (get_lines-Lines xs h))
        (ap (λ (q : ℤ × Text). some q) (add_account-search x xs))

text_eq_refl : (s : Text) → text_eq s s ≡ true
unfolding text_eq
text_eq_refl [] = refl
text_eq_refl (c ∷ s) = ground (arith, text_eq_refl s)

all_words-append :
    (x : Account) (xs : List Account)
    → is_word x.name ≡ true
    → is_word x.pass ≡ true
    → all_words xs ≡ true
    → all_words (xs ++ x ∷ []) ≡ true
unfolding all_words
all_words-append x [] n p h = ground arith
all_words-append x (a ∷ xs) n p h = ground (arith, all_words-append x xs n p)

find_account-added :
    (x : Account) (i : ℕ) (xs : List Account)
    → has_name x.name xs ≡ false
    → find_account x.name x.pass i (xs ++ x ∷ []) ≡ pos (i + length xs)
unfolding find_account has_name
find_account-added x i [] h =
    let z : i + 0 ≡ i = omega arith in rw (text_eq_refl x.name, text_eq_refl x.pass, z) refl
find_account-added x i (a ∷ xs) h =
    let ne : text_eq x.name a.name ≡ false = ground arith in
    let rest : has_name x.name xs ≡ false = rw ne at h in
    let z : i + 1 + length xs ≡ i + suc (length xs) = omega arith in
    rw (ne, find_account-added x (i + 1) xs rest, z) refl

-- On the file of a list of accounts with plain names and passwords, where the freed memory of the name
-- and the password that validate_register is given holds a plain new name and a plain password, those
-- of `x`, at each read: it returns a number, and validate_user with the name and the password of `x`,
-- on the file that it leaves, returns that number.
pub register-login :
    (freed : ℕ → Text → Text) (name pass : Text) (x : Account) (xs : List Account)
    → ((k : ℕ) → freed k name ≡ x.name)
    → ((k : ℕ) → freed k pass ≡ x.pass)
    → is_word x.name ≡ true
    → is_word x.pass ≡ true
    → all_words xs ≡ true
    → has_name x.name xs ≡ false
    → (n : ℕ) × (userdata : Text) × (validate_register freed
          (some name)
          (some pass)
          (some (userdata_of xs))
        ≡ some (pos n, userdata))
      × (validate_user (some x.name) (some x.pass) (some userdata) ≡ some (pos n))
unfolding register_account
register-login freed name pass x xs holds_name holds_pass n p h new = (
  1 + length xs,
  userdata_of (xs ++ x ∷ []),
  rw new at (validate_register_lem freed name pass x xs holds_name holds_pass h),
  validate_user_lem x.name x.pass (xs ++ x ∷ []) (all_words-append x xs n p h)
      ∙ ap (λ (k : ℤ). some k) (find_account-added x 1 xs new),
)
