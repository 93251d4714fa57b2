-- ===== src/Utilities/Examples.antt =====
-- The theorems on the accounts of src/utilities.c applied to a file of two accounts.
use lprog_hw.Prelude.{ℕ, ◌≡◌, refl, some, List, [], ◌∷◌, true, false, ◌==◌, if◌then◌else◌}
use lprog_hw.Prelude.Int.{pos}
use lprog_hw.Utilities.Text.{Text, text_eq}
use lprog_hw.Utilities.Users.{validate_user, validate_register}
use lprog_hw.Utilities.Accounts.{
  Account, is_word, is_plain_text, all_words, has_name, userdata_of, find_account,
}
use lprog_hw.Utilities.Registry.{
  register_account, validate_user_lem, validate_register_lem, register-login,
}

abbrev ann : Account
ann = record { name = b'a' ∷ b'n' ∷ []; pass = b'x' ∷ [] }

abbrev bob : Account
bob = record { name = b'b' ∷ b'o' ∷ []; pass = b'y' ∷ [] }

abbrev eve : Account
eve = record { name = b'e' ∷ []; pass = b'z' ∷ [] }

abbrev accounts : List Account
accounts = ann ∷ bob ∷ []

words : all_words accounts ≡ true
unfolding all_words is_word is_plain_text
words = refl

is_word-eve : is_word eve.name ≡ true
unfolding is_word is_plain_text
is_word-eve = refl

is_word-pass : is_word eve.pass ≡ true
unfolding is_word is_plain_text
is_word-pass = refl

eve_is_new : has_name eve.name accounts ≡ false
unfolding has_name text_eq
eve_is_new = refl

validate_user_example :
    validate_user (some bob.name) (some bob.pass) (some (userdata_of accounts))
    ≡ some (find_account bob.name bob.pass 1 accounts)
validate_user_example = validate_user_lem bob.name bob.pass accounts words

-- The number of bob is 2.
bob_found : find_account bob.name bob.pass 1 accounts ≡ pos 2
unfolding find_account text_eq
bob_found = refl

-- In the freed memory of "e" and "z" stands another name, and the same password.
abbrev overwritten : ℕ → Text → Text
overwritten k [] = []
overwritten k (c ∷ s) = if c == b'e' then b'b' ∷ b'o' ∷ [] else c ∷ s

-- In this memory all is as it was.
abbrev intact : ℕ → Text → Text
intact k t = t

abbrev bob_z : Account
bob_z = record { name = b'b' ∷ b'o' ∷ []; pass = b'z' ∷ [] }

validate_register_example :
    validate_register overwritten (some eve.name) (some eve.pass) (some (userdata_of accounts))
    ≡ some (register_account bob_z accounts)
validate_register_example =
    validate_register_lem overwritten eve.name eve.pass bob_z accounts (λ k. refl) (λ k. refl) words

register-login_example :
    (n : ℕ) × (userdata : Text) × (validate_register intact
        (some eve.name)
        (some eve.pass)
        (some (userdata_of accounts))
      ≡ some (pos n, userdata))
    × (validate_user (some eve.name) (some eve.pass) (some userdata) ≡ some (pos n))
register-login_example =
    register-login intact eve.name eve.pass eve accounts (λ k. refl) (λ k. refl) is_word-eve
      is_word-pass words eve_is_new
