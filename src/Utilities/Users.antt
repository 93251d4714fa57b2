-- ===== src/Utilities/Users.antt =====
-- src/utilities.c, lines 68 to 193 and 415 to 476: the accounts of userdata.txt.
--
-- `name` and `pass` are what parson returns for the fields of the payload, `none` for NULL. The
-- file is `none` if it does not exist. A result `none` is a crash, a read through NULL.
use lprog_hw.Prelude.{
  ℕ, ◌+◌, Bool, true, false, ◌==◌, Option, none, some, List, [], ◌∷◌, ◌++◌, if◌then◌else◌,
}
use lprog_hw.Prelude.Int.{ℤ, pos, negsuc, negate, ◌==ℤ◌}
use lprog_hw.Utilities.Text.{
  Text, ◌>>=◌, newline, colon, get_lines, strtok, second_token, terminate_null, print_int,
  is_equivalent_strings,
}

abbrev pub map_text : (Text → Text) → Option Text → Option (Option Text)
map_text f none = none
map_text f (some s) = some (some (f s))

abbrev pub first_of_strtok : Option (Text × Text) → Option Text
first_of_strtok none = none
first_of_strtok (some (t, r)) = some t

abbrev pub rest_of_strtok : Option (Text × Text) → Text
rest_of_strtok none = []
rest_of_strtok (some (t, r)) = r

-- One round of the loop of validate_user.
unfoldable pub user_matches : Option Text → Option Text → Text → Option Bool
unfolding strtok second_token terminate_null is_equivalent_strings
user_matches name pass line = do
  let username = first_of_strtok (strtok line)
  password ← map_text terminate_null (second_token (rest_of_strtok (strtok line)))
  is_equivalent_strings name username pass password

-- The loop, from the line with number `user_id`: the number of the first line that fits, or -1.
unfoldable pub find_user : Option Text → Option Text → ℕ → List Text → Option ℤ
unfolding user_matches
find_user name pass user_id [] = some (negsuc 0)
find_user name pass user_id (l ∷ ls) = do
  val ← user_matches name pass l
  let rest = find_user name pass (user_id + 1) ls
  if val then some (pos user_id) else rest

unfoldable pub validate_user : Option Text → Option Text → Option Text → Option ℤ
unfolding find_user get_lines
validate_user name pass none = some (negsuc 1)
validate_user name pass (some userdata) = find_user name pass 1 (get_lines userdata)

-- The result of the loop of validate_register: the name was found, or the number after the last line.
pub data Search : Type 0 where
  taken : Search
  free_id : ℕ → Search

-- The name is read anew at each line, by the line's number.
unfoldable pub find_name : (ℕ → Option Text) → ℕ → List Text → Option Search
unfolding strtok is_equivalent_strings
find_name name user_id [] = some (free_id user_id)
find_name name user_id (l ∷ ls) = do
  val ← is_equivalent_strings (name user_id) (first_of_strtok (strtok l)) (some []) (some [])
  let rest = find_name name (user_id + 1) ls
  if val then some taken else rest

-- "%s" of a null pointer prints "(null)" in the C library that the program is built for.
abbrev pub print_text : Option Text → Text
print_text (some s) = s
print_text none = b'(' ∷ b'n' ∷ b'u' ∷ b'l' ∷ b'l' ∷ b')' ∷ []

abbrev pub account : Option Text → Option Text → Text
account name pass = print_text name ++ colon ∷ print_text pass

-- The file is opened for appending, which creates it.
abbrev pub contents : Option Text → Text
contents none = []
contents (some s) = s

abbrev pub add_account : (ℕ → Option Text) → (ℕ → Option Text) → Text → Search → ℤ × Text
add_account name pass userdata taken = (negsuc 0, userdata)
add_account name pass userdata (free_id n) = (
  pos n,
  (if n == 1
      then userdata ++ account (name n) (pass n)
      else userdata ++ newline ∷ account (name n) (pass n)),
)

-- What is read at a pointer into the JSON value after it was freed: at line `k` of the file, or after the
-- lines before it.
abbrev pub after_free : (ℕ → Text → Text) → Option Text → ℕ → Option Text
after_free freed none k = none
after_free freed (some s) k = some (freed k s)

-- json_value_free comes first: `name` and `pass` are read in freed memory, where `freed` tells what is
-- there in place of a string at each time.
unfoldable pub validate_register :
    (ℕ → Text → Text) → Option Text → Option Text → Option Text → Option (ℤ × Text)
unfolding find_name get_lines
validate_register freed name pass userdata = do
  found ← find_name (after_free freed name) 1 (get_lines (contents userdata))
  some (add_account (after_free freed name) (after_free freed pass) (contents userdata) found)

-- strstr(line, "\n") != NULL
unfoldable pub has_newline : Text → Bool
has_newline [] = false
has_newline (c ∷ s) = if c == newline then true else has_newline s

-- What addFileToUser writes for the user's own line: the newline is overwritten and set again.
unfoldable pub add_file : ℤ → Text → Text
unfolding has_newline terminate_null print_int
add_file file_id line =
    if has_newline line
    then terminate_null line ++ colon ∷ (print_int file_id ++ newline ∷ [])
    else line ++ colon ∷ print_int file_id

unfoldable pub add_file_lines : ℤ → ℤ → ℕ → List Text → Text
unfolding add_file
add_file_lines file_id user_id i [] = []
add_file_lines file_id user_id i (l ∷ ls) =
    (if pos i ==ℤ user_id then add_file file_id l else l)
    ++ add_file_lines file_id user_id (i + 1) ls

-- addFileToUser: -3 if there is no userdata.txt
unfoldable pub add_file_to_user : ℤ → ℤ → Option Text → ℤ × Option Text
unfolding add_file_lines get_lines
add_file_to_user file_id user_id none = (negate 3, none)
add_file_to_user file_id user_id (some userdata) =
    (pos 0, some (add_file_lines file_id user_id 1 (get_lines userdata)))
