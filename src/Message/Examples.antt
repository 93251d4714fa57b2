-- ===== src/Message/Examples.antt =====
-- The theorem on src/msg.c applied to an INSERT message of user 3.
use lprog_hw.Prelude.{◌≡◌, refl, none, some, [], ◌∷◌, List}
use lprog_hw.Prelude.Int.{pos}
use lprog_hw.Json.{is_ascii}
use lprog_hw.Message.{Message, insert, create_msg, serialize_msg, deserialize_msg}
use lprog_hw.Message.Rows.{Row, rows_json, rows_laws}
use lprog_hw.Message.Print.{print_msg}
use lprog_hw.Message.Wire.{IsSendable, serialize_msg-deserialize_msg}

abbrev typed : Message
typed = create_msg insert (pos 3) (pos 1) (pos 0) (some (b'x' ∷ []))

typed-IsSendable : IsSendable (some (b'x' ∷ []))
unfolding is_ascii
typed-IsSendable = refl

serialize_msg-deserialize_msg_example :
    deserialize_msg (List Row) (serialize_msg (List Row) typed) ≡ some typed
unfolding create_msg
serialize_msg-deserialize_msg_example =
    serialize_msg-deserialize_msg rows_laws typed typed-IsSendable

-- A message without a payload cannot be printed.
prints_no_null : print_msg (record typed { payload = none }) ≡ none
unfolding print_msg
prints_no_null = refl
