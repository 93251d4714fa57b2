-- ===== src/Message.antt =====
-- src/msg.c and include/msg.h: messages, and their JSON form on the wire.
pub mod Wire
pub mod Rows
pub mod Print
mod Examples
use lprog_hw.Prelude.{ℕ, zero, suc, ◌≡◌, refl, Bool, true, false, Option, none, some, List, [], ◌∷◌}
use lprog_hw.Prelude.Int.{ℤ, pos, negsuc}
use lprog_hw.Utilities.Text.{Text}
use lprog_hw.Json.{Json, JsonPath}

-- enum MSG_TYPE
pub data MsgType : Type 0 where
  msg_failed msg_ok login register quit file_request file_response file_list create_file : MsgType
  delete_file insert insert_line delete move_cursor add_cursor delete_cursor : MsgType

-- The value of the enumerator.
unfoldable pub code : MsgType → ℕ
code msg_failed = 0
code msg_ok = 1
code login = 2
code register = 3
code quit = 4
code file_request = 5
code file_response = 6
code file_list = 7
code create_file = 8
code delete_file = 9
code insert = 10
code insert_line = 11
code delete = 12
code move_cursor = 13
code add_cursor = 14
code delete_cursor = 15

abbrev all_types : List MsgType
all_types =
    msg_failed ∷ msg_ok ∷ login ∷ register ∷ quit ∷ file_request ∷ file_response ∷ file_list
    ∷ create_file ∷ delete_file ∷ insert ∷ insert_line ∷ delete ∷ move_cursor ∷ add_cursor
    ∷ delete_cursor ∷ []

abbrev nth_type : List MsgType → ℕ → Option MsgType
nth_type [] n = none
nth_type (t ∷ ts) zero = some t
nth_type (t ∷ ts) (suc n) = nth_type ts n

-- The case of a switch over `type` that a value of the field selects; `none` is the default.
unfoldable pub type_of : ℤ → Option MsgType
type_of (pos n) = nth_type all_types n
type_of (negsuc n) = none

-- struct message; `type` holds any int, as it does when it comes from the wire.
pub record Message : Type 0 where
  pub type : ℤ
  pub user_id : ℤ
  pub file_id : ℤ
  pub file_version : ℤ
  pub payload : Option Text

unfoldable pub create_msg : MsgType → ℤ → ℤ → ℤ → Option Text → Message
unfolding code
create_msg type user_id file_id file_version payload = record {
  type = pos (code type);
  user_id = user_id;
  file_id = file_id;
  file_version = file_version;
  payload = payload;
}

abbrev pub key : Text → JsonPath
key name = name ∷ []

abbrev pub type_key : Text
type_key = b't' ∷ b'y' ∷ b'p' ∷ b'e' ∷ []

abbrev pub user_id_key : Text
user_id_key = b'u' ∷ b's' ∷ b'e' ∷ b'r' ∷ b'_' ∷ b'i' ∷ b'd' ∷ []

abbrev pub file_id_key : Text
file_id_key = b'f' ∷ b'i' ∷ b'l' ∷ b'e' ∷ b'_' ∷ b'i' ∷ b'd' ∷ []

abbrev pub file_version_key : Text
file_version_key =
    b'f' ∷ b'i' ∷ b'l' ∷ b'e' ∷ b'_' ∷ b'v' ∷ b'e' ∷ b'r' ∷ b's' ∷ b'i' ∷ b'o' ∷ b'n' ∷ []

abbrev pub payload_key : Text
payload_key = b'p' ∷ b'a' ∷ b'y' ∷ b'l' ∷ b'o' ∷ b'a' ∷ b'd' ∷ []

-- `none` is a crash: strlen of NULL, where the payload is no string.
abbrev pub read_payload : Bool → Option Text → Option (Option Text)
read_payload false s = some none
read_payload true none = none
read_payload true (some s) = some (some s)

module _ {J : Type 0} ⦃json : Json J⦄ where
  abbrev pub with_payload : J → Option Text → J
  with_payload j none = j
  with_payload j (some s) = json.set_string j (key payload_key) s

  -- The object that serialize_msg builds.
  unfoldable pub msg_object : Message → J
  msg_object msg =
      let j = json.set_number json.object (key type_key) msg.type in
      let j = json.set_number j (key user_id_key) msg.user_id in
      let j = json.set_number j (key file_id_key) msg.file_id in
      let j = json.set_number j (key file_version_key) msg.file_version in
      with_payload j msg.payload

  abbrev pub message_of : J → Option Text → Message
  message_of j payload = record {
    type = json.get_number j (key type_key);
    user_id = json.get_number j (key user_id_key);
    file_id = json.get_number j (key file_id_key);
    file_version = json.get_number j (key file_version_key);
    payload = payload;
  }

  abbrev pub message_if : J → Option (Option Text) → Option Message
  message_if j none = none
  message_if j (some payload) = some (message_of j payload)

  unfoldable pub object_msg : J → Option Message
  object_msg j =
      message_if j
        (read_payload (json.has_value j (key payload_key)) (json.get_string j (key payload_key)))

module _ (J : Type 0) ⦃json : Json J⦄ where
  unfoldable pub serialize_msg : Message → Text
  unfolding msg_object
  serialize_msg msg = json.print (msg_object msg)

  unfoldable pub deserialize_msg : Text → Option Message
  unfolding object_msg
  deserialize_msg s = object_msg (json.parse s)

-- A type that create_msg was given is the one that the receiver's switch sees.
pub type_of-code : (t : MsgType) → type_of (pos (code t)) ≡ some t
unfolding code type_of
type_of-code msg_failed = refl
type_of-code _ = refl
