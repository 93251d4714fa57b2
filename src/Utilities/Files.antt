-- ===== src/Utilities/Files.antt =====
-- src/utilities.c, lines 195 to 413: the list of documents in files.txt, and the documents.
--
-- `none` is a crash, a read through NULL. Renaming files.txt and opening files that exist is taken
-- to succeed; `creatable` says for which names creat does.
use lprog_hw.Prelude.{
  ℕ, ◌+◌, Bool, true, false, ◌==◌, Option, none, some, List, [], ◌∷◌, ◌++◌, if◌then◌else◌, length,
  ltb,
}
use lprog_hw.Prelude.Int.{ℤ, pos, negsuc, negate, increment, ◌==ℤ◌}
use lprog_hw.Utilities.Text.{
  Text, ◌>>=◌, newline, colon, text_eq, get_lines, strtok, second_token, terminate_null, atoi,
  print_int, is_equivalent_strings,
}
use lprog_hw.Utilities.Users.{contents, first_of_strtok, rest_of_strtok}

-- The directory of the server: files.txt, and the documents by name.
pub record Folder : Type 0 where
  pub files : Option Text
  pub documents : List (Text × Text)
  pub creatable : Text → Bool

unfoldable pub remove_document : Text → List (Text × Text) → List (Text × Text)
unfolding text_eq
remove_document name [] = []
remove_document name ((n, d) ∷ ds) =
    if text_eq n name then remove_document name ds else (n, d) ∷ remove_document name ds

unfoldable pub has_document : Text → List (Text × Text) → Bool
unfolding text_eq
has_document name [] = false
has_document name ((n, d) ∷ ds) = if text_eq n name then true else has_document name ds

-- atoi(strtok(line, ":")), and strtok(NULL, ":") after it
unfoldable pub line_id : Text → Option ℤ
unfolding strtok atoi
line_id line = do t ← first_of_strtok (strtok line); some (atoi t)

unfoldable pub line_name : Text → Option Text
unfolding strtok second_token
line_name line = second_token (rest_of_strtok (strtok line))

-- The result of the loop of createFile: the name was found, or the id of the last line, 0 without one.
pub data Scan : Type 0 where
  present : Scan
  last_id : ℤ → Scan

unfoldable pub scan_files : Text → ℤ → List Text → Option Scan
unfolding line_id line_name is_equivalent_strings
scan_files filename file_id [] = some (last_id file_id)
scan_files filename file_id (l ∷ ls) = do
  id ← line_id l
  val ← is_equivalent_strings (line_name l) (some filename) (some []) (some [])
  let rest = scan_files filename id ls
  if val then some present else rest

abbrev pub entry : ℤ → Text → Text
entry id filename = print_int id ++ colon ∷ filename

-- The line is written before creat is called, and stays if creat fails (stdio writes it at the latest when
-- the process exits); creat truncates a document of that name.
abbrev pub add_entry : Text → Folder → Scan → ℤ × Folder
add_entry filename d present = (negsuc 0, record d { files = some (contents d.files) })
add_entry filename d (last_id n) =
    let id = increment n in
    let files = some (
      contents d.files
      ++ (if n ==ℤ pos 0 then entry id filename else newline ∷ entry id filename)) in
    if d.creatable filename
    then (
      id,
      record d { files = files; documents = (filename, []) ∷ remove_document filename d.documents },
    )
    else (negate 3, record d { files = files })

unfoldable pub create_file : Text → Folder → Option (ℤ × Folder)
unfolding scan_files get_lines print_int remove_document
create_file filename d = do
  found ← scan_files filename (pos 0) (get_lines (contents d.files))
  some (add_entry filename d found)

-- The loop of getFileName; the inner `none` is the result NULL.
unfoldable pub find_file : ℤ → List Text → Option (Option Text)
unfolding line_id line_name terminate_null
find_file file_id [] = some none
find_file file_id (l ∷ ls) = do
  id ← line_id l
  let rest = find_file file_id ls
  if id ==ℤ file_id then (do fn ← line_name l; some (some (terminate_null fn))) else rest

-- Without files.txt, fileno reads through NULL.
unfoldable pub get_file_name : ℤ → Folder → Option (Option Text)
unfolding find_file get_lines
get_file_name file_id d = do files ← d.files; find_file file_id (get_lines files)

-- The lines that deleteFile writes back; `count` lines came before, of `lines_number`.
unfoldable pub keep_lines : ℤ → ℕ → ℕ → List Text → Option Text
unfolding line_id terminate_null
keep_lines file_id lines_number count [] = some []
keep_lines file_id lines_number count (l ∷ ls) = do
  id ← line_id l
  rest ← keep_lines file_id lines_number (count + 1) ls
  some (
      if id ==ℤ file_id
      then rest
      else (if count + 1 == lines_number then terminate_null l else l) ++ rest)

-- remove(filename): NULL and a name with no document are errors.
abbrev pub unlink_document : Option Text → Folder → ℤ × Folder
unlink_document none d = (negsuc 0, d)
unlink_document (some name) d =
    if has_document name d.documents
    then (pos 0, record d { documents = remove_document name d.documents })
    else (negsuc 0, d)

unfoldable pub delete_file : ℤ → Folder → Option (ℤ × Folder)
unfolding get_file_name keep_lines get_lines has_document remove_document
delete_file file_id d = do
  filename ← get_file_name file_id d
  files ← d.files
  let lines = get_lines files
  kept ← keep_lines file_id (length lines) 0 lines
  some (unlink_document filename (record d { files = some kept }))

-- The bytes that getFileList allocates.
abbrev pub list_size : ℕ
list_size = 1024

-- getFileList, into a buffer that starts with `junk`, what malloc left in it. What does not fit with the 0
-- behind it is written past the end, a crash.
unfoldable pub get_file_list : Text → Folder → Option Text
get_file_list junk d = do
  files ← d.files
  if ltb (length (junk ++ files)) list_size then some (junk ++ files) else none
