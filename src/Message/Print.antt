-- ===== src/Message/Print.antt =====
-- src/msg.c, lines 121 to 183: print_msg, as the text that it prints.
use lprog_hw.Prelude.{Option, none, some, [], ◌∷◌, ◌++◌}
use lprog_hw.Utilities.Text.{Text, newline, print_int}
use lprog_hw.Message.{
  Message, MsgType, msg_failed, msg_ok, login, register, quit, file_request, file_response,
  file_list, create_file, delete_file, insert, insert_line, delete, move_cursor, add_cursor,
  delete_cursor, type_of,
}
use Prim.Native.Char.{code}
use Prim.Native.String.{String}

-- The bytes of a C string.
abbrev bytes : String → Text
bytes String.[] = []
bytes (String.◌∷◌ c s) = code c ∷ bytes s

-- What the switch prints; there is no case for CREATE_FILE.
abbrev pub type_name : Option MsgType → String
type_name (some msg_failed) = "MSG_FAILED"
type_name (some msg_ok) = "MSG_OK"
type_name (some login) = "LOGIN"
type_name (some register) = "REGISTER"
type_name (some quit) = "QUIT"
type_name (some file_request) = "FILE_REQUEST"
type_name (some file_response) = "FILE_RESPONSE"
type_name (some file_list) = "FILE_LIST"
type_name (some create_file) = "-"
type_name (some delete_file) = "DELETE_FILE"
type_name (some insert) = "INSERT"
type_name (some insert_line) = "INSERT_LINE"
type_name (some delete) = "DELETE"
type_name (some move_cursor) = "MOVE_CURSOR"
type_name (some add_cursor) = "ADD_CURSOR"
type_name (some delete_cursor) = "DELETE_CURSOR"
type_name none = "-"

-- A line: a tab, a name with a colon, a tab, and the value.
abbrev field_line : String → Text → Text
field_line name value = 9 ∷ (bytes name ++ b':' ∷ 9 ∷ (value ++ newline ∷ []))

-- `none` where the payload is NULL, which "%s" must not be given.
unfoldable pub print_msg : Message → Option Text
unfolding type_of print_int
print_msg msg = elim msg.payload [
  | none ↦ none
  | some payload ↦ some (
      bytes "MSG:"
      ++ newline
        ∷ (field_line "type" (bytes (type_name (type_of msg.type)))
            ++ (field_line "user_id" (print_int msg.user_id)
                ++ (field_line "file_id" (print_int msg.file_id)
                    ++ (field_line "file_version" (print_int msg.file_version)
                        ++ (field_line "payload" payload ++ (bytes "MSG_END!" ++ newline ∷ [])))))))
]
