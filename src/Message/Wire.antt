-- ===== src/Message/Wire.antt =====
-- serialize_msg and deserialize_msg of src/msg.c, one after the other.
use lprog_hw.Prelude.{
  ℕ, ◌≡◌, refl, ap, ◌∙◌, ◌≢◌, true, false, Option, none, some, [], ◌∷◌, zero, suc, arith,
}
use lprog_hw.Utilities.Text.{Text}
use lprog_hw.Json.{Json, JsonPath, JsonLaws, is_ascii}
use lprog_hw.Message.{
  Message, key, type_key, user_id_key, file_id_key, file_version_key, payload_key, read_payload,
  with_payload, msg_object, object_msg, serialize_msg, deserialize_msg,
}

-- What a payload is on the wire: bytes of ASCII, or no payload.
abbrev pub IsSendable : Option Text → Type 0
IsSendable none = Unit
IsSendable (some s) = is_ascii s ≡ true

abbrev nth : ℕ → Text → ℕ
nth i [] = 0
nth zero (c ∷ s) = c
nth (suc i) (c ∷ s) = nth i s

differ : {a b : Text} (i : ℕ) → nth i a ≢ nth i b → a ≢ b
differ i ne e = ne (ap (nth i) e)

module _ {J : Type 0} ⦃json : Json J⦄ (laws : JsonLaws J) where
  abbrev numbers : Message → J
  numbers msg =
      json.set_number
        (json.set_number
          (json.set_number (json.set_number json.object (key type_key) msg.type) (key user_id_key)
            msg.user_id)
          (key file_id_key) msg.file_id)
        (key file_version_key) msg.file_version

  payload_apart :
      (j : J) (p : Option Text) (a : Text)
      → a ≢ payload_key
      → json.get_number (with_payload j p) (a ∷ []) ≡ json.get_number j (a ∷ [])
  payload_apart j none a ne = refl
  payload_apart j (some s) a ne = laws.number_kept_string j a payload_key s ne

  payload_read :
      (j : J) (p : Option Text)
      → IsSendable p
      → json.has_value j (key payload_key) ≡ false
      → read_payload
          (json.has_value (with_payload j p) (key payload_key))
          (json.get_string (with_payload j p) (key payload_key))
        ≡ some p
  payload_read j none ok e = rw e refl
  payload_read j (some s) ok e =
      rw (laws.value_set j payload_key s ok, laws.string_set j payload_key s ok) refl

  type_got : (msg : Message) → json.get_number (numbers msg) (key type_key) ≡ msg.type
  type_got msg =
      laws.number_kept _ type_key file_version_key _ (differ 0 (λ z. omega (arith, z)))
      ∙ laws.number_kept _ type_key file_id_key _ (differ 0 (λ z. omega (arith, z)))
      ∙ laws.number_kept _ type_key user_id_key _ (differ 0 (λ z. omega (arith, z)))
      ∙ laws.number_set _ type_key _

  user_id_got : (msg : Message) → json.get_number (numbers msg) (key user_id_key) ≡ msg.user_id
  user_id_got msg =
      laws.number_kept _ user_id_key file_version_key _ (differ 0 (λ z. omega (arith, z)))
      ∙ laws.number_kept _ user_id_key file_id_key _ (differ 0 (λ z. omega (arith, z)))
      ∙ laws.number_set _ user_id_key _

  file_id_got : (msg : Message) → json.get_number (numbers msg) (key file_id_key) ≡ msg.file_id
  file_id_got msg =
      laws.number_kept _ file_id_key file_version_key _ (differ 5 (λ z. omega (arith, z)))
      ∙ laws.number_set _ file_id_key _

  no_payload : (msg : Message) → json.has_value (numbers msg) (key payload_key) ≡ false
  no_payload msg =
      laws.value_kept _ payload_key file_version_key _ (differ 0 (λ z. omega (arith, z)))
      ∙ laws.value_kept _ payload_key file_id_key _ (differ 0 (λ z. omega (arith, z)))
      ∙ laws.value_kept _ payload_key user_id_key _ (differ 0 (λ z. omega (arith, z)))
      ∙ laws.value_kept _ payload_key type_key _ (differ 0 (λ z. omega (arith, z)))
      ∙ laws.value_none payload_key

  -- What is read of an object that has the values of the one that serialize_msg built.
  read_back :
      (j : J) (msg : Message)
      → IsSendable msg.payload
      → ((p : JsonPath)
          → json.get_number j p ≡ json.get_number (with_payload (numbers msg) msg.payload) p)
      → ((p : JsonPath)
          → json.get_string j p ≡ json.get_string (with_payload (numbers msg) msg.payload) p)
      → ((p : JsonPath)
          → json.has_value j p ≡ json.has_value (with_payload (numbers msg) msg.payload) p)
      → object_msg j ≡ some msg
  unfolding object_msg
  read_back j msg ok num str has =
      let got : (a : Text)
          → a ≢ payload_key
          → json.get_number j (key a) ≡ json.get_number (numbers msg) (key a) =
        λ a ne. num (key a) ∙ payload_apart (numbers msg) msg.payload a ne in
      rw
        (
          has (key payload_key),
          str (key payload_key),
          payload_read (numbers msg) msg.payload ok (no_payload msg),
          got type_key (differ 0 (λ z. omega (arith, z))),
          type_got msg,
          got user_id_key (differ 0 (λ z. omega (arith, z))),
          user_id_got msg,
          got file_id_key (differ 0 (λ z. omega (arith, z))),
          file_id_got msg,
          got file_version_key (differ 0 (λ z. omega (arith, z))),
          laws.number_set _ file_version_key msg.file_version,
        )
        refl

  -- With the laws of the JSON library, deserialize_msg of what serialize_msg wrote is the message, for
  -- every message without a payload or with one of ASCII bytes.
  pub serialize_msg-deserialize_msg :
      (msg : Message) → IsSendable msg.payload → deserialize_msg J (serialize_msg J msg) ≡ some msg
  unfolding serialize_msg deserialize_msg msg_object
  serialize_msg-deserialize_msg msg ok =
      read_back _ msg ok (laws.number_printed _) (laws.string_printed _) (laws.value_printed _)
