-- ===== src/Json.antt =====
-- parson (src/parson.c, include/parson.h), a library copied into the program: it is an interface
-- here, with the behaviour that parson.h documents for the calls that the program makes.
use lprog_hw.Prelude.{
  Bool, true, false, ◌&&◌, if◌then◌else◌, ltb, Option, some, List, [], ◌∷◌, ◌≡◌, ◌≢◌,
}
use lprog_hw.Prelude.Int.{ℤ}
use lprog_hw.Utilities.Text.{Text}

-- A dotted path: "lines.3.next" is `"lines" ∷ "3" ∷ "next" ∷ []`.
abbrev pub JsonPath : Type 0
JsonPath = List Text

pub record Json (J : Type 0) : Type 0 where
  -- json_value_init_object
  pub object : J
  -- json_object_set_number and json_object_dotset_number, and so for strings
  pub set_number : J → JsonPath → ℤ → J
  pub set_string : J → JsonPath → Text → J
  -- 0 where there is no number
  pub get_number : J → JsonPath → ℤ
  -- `none` is NULL
  pub get_string : J → JsonPath → Option Text
  pub has_value : J → JsonPath → Bool
  -- json_serialize_to_string, json_parse_string
  pub print : J → Text
  pub parse : Text → J

-- Bytes that are one character each in UTF-8, and end no string.
unfoldable pub is_ascii : Text → Bool
is_ascii [] = true
is_ascii (c ∷ s) = if ltb 0 c && ltb c 128 then is_ascii s else false

-- What parson.h documents of objects, by keys without dots: a value that was set is the one that is read,
-- other keys keep theirs, and an object that is printed and parsed has the same values. A string is set
-- only if it is UTF-8.
pub record JsonLaws (J : Type 0) ⦃json : Json J⦄ : Type 0 where
  pub number_set :
      (j : J) (a : Text) (n : ℤ) → json.get_number (json.set_number j (a ∷ []) n) (a ∷ []) ≡ n
  pub number_kept :
      (j : J) (a b : Text) (n : ℤ)
      → a ≢ b
      → json.get_number (json.set_number j (b ∷ []) n) (a ∷ []) ≡ json.get_number j (a ∷ [])
  pub number_kept_string :
      (j : J) (a b s : Text)
      → a ≢ b
      → json.get_number (json.set_string j (b ∷ []) s) (a ∷ []) ≡ json.get_number j (a ∷ [])
  pub string_set :
      (j : J) (a s : Text)
      → is_ascii s ≡ true
      → json.get_string (json.set_string j (a ∷ []) s) (a ∷ []) ≡ some s
  pub string_kept :
      (j : J) (a b s : Text)
      → a ≢ b
      → json.get_string (json.set_string j (b ∷ []) s) (a ∷ []) ≡ json.get_string j (a ∷ [])
  pub value_set :
      (j : J) (a s : Text)
      → is_ascii s ≡ true
      → json.has_value (json.set_string j (a ∷ []) s) (a ∷ []) ≡ true
  pub value_kept :
      (j : J) (a b : Text) (n : ℤ)
      → a ≢ b
      → json.has_value (json.set_number j (b ∷ []) n) (a ∷ []) ≡ json.has_value j (a ∷ [])
  pub value_none : (a : Text) → json.has_value json.object (a ∷ []) ≡ false
  pub number_printed :
      (j : J) (p : JsonPath) → json.get_number (json.parse (json.print j)) p ≡ json.get_number j p
  pub string_printed :
      (j : J) (p : JsonPath) → json.get_string (json.parse (json.print j)) p ≡ json.get_string j p
  pub value_printed :
      (j : J) (p : JsonPath) → json.has_value (json.parse (json.print j)) p ≡ json.has_value j p
