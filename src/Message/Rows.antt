-- ===== src/Message/Rows.antt =====
-- A small JSON library that has the laws: an object is the list of what was set in it, the last first. A
-- row is a value, one cell, and its path. It is used for examples only.
use lprog_hw.Prelude.{
  ℕ, zero, suc, ◌≡◌, refl, sym, ap, ◌∙◌, ◌≢◌, inl, inr, Bool, true, false, Bool-cases, ==-sound,
  ◌&&◌, Option, none, some, List, [], ◌∷◌, arith, if◌then◌else◌,
}
use lprog_hw.Prelude.Int.{ℤ, pos, negsuc}
use lprog_hw.Utilities.Text.{Text, text_eq}
use lprog_hw.Json.{Json, JsonPath, JsonLaws}

abbrev pub Row : Type 0
Row = List Text

abbrev path_eq : JsonPath → JsonPath → Bool
path_eq [] [] = true
path_eq [] (b ∷ q) = false
path_eq (a ∷ p) [] = false
path_eq (a ∷ p) (b ∷ q) = text_eq a b && path_eq p q

abbrev lookup : List Row → JsonPath → Option Text
lookup [] p = none
lookup ([] ∷ j) p = lookup j p
lookup ((v ∷ q) ∷ j) p = if path_eq q p then some v else lookup j p

-- A cell is a number, 0 n or 1 n, or a string, 2 and its bytes.
abbrev number_of : Option Text → ℤ
number_of (some (zero ∷ n ∷ [])) = pos n
number_of (some (suc zero ∷ n ∷ [])) = negsuc n
number_of _ = pos 0

abbrev string_of : Option Text → Option Text
string_of (some (suc (suc c) ∷ s)) = some s
string_of _ = none

abbrev is_there : Option Text → Bool
is_there none = false
is_there (some v) = true

abbrev number_cell : ℤ → Text
number_cell (pos n) = 0 ∷ n ∷ []
number_cell (negsuc n) = 1 ∷ n ∷ []

-- Printed, a row begins with 1, a cell ends with 0, and a byte is two more.
abbrev print_cell : Text → Text → Text
print_cell [] rest = 0 ∷ rest
print_cell (c ∷ s) rest = suc (suc c) ∷ print_cell s rest

abbrev print_row : Row → Text → Text
print_row [] rest = 1 ∷ rest
print_row (v ∷ r) rest = print_cell v (print_row r rest)

abbrev print_rows : List Row → Text
print_rows [] = []
print_rows (r ∷ j) = print_row r (print_rows j)

abbrev push_cell : List Row → List Row
push_cell [] = []
push_cell (r ∷ j) = ([] ∷ r) ∷ j

abbrev push_byte : ℕ → List Row → List Row
push_byte c [] = []
push_byte c ([] ∷ j) = [] ∷ j
push_byte c ((v ∷ r) ∷ j) = ((c ∷ v) ∷ r) ∷ j

abbrev parse_rows : Text → List Row
parse_rows [] = []
parse_rows (zero ∷ s) = push_cell (parse_rows s)
parse_rows (suc zero ∷ s) = [] ∷ parse_rows s
parse_rows (suc (suc c) ∷ s) = push_byte c (parse_rows s)

instance abbrev pub rows_json : Json (List Row)
rows_json = record {
  object = [];
  set_number = λ j p n. (number_cell n ∷ p) ∷ j;
  set_string = λ j p s. ((2 ∷ s) ∷ p) ∷ j;
  get_number = λ j p. number_of (lookup j p);
  get_string = λ j p. string_of (lookup j p);
  has_value = λ j p. is_there (lookup j p);
  print = print_rows;
  parse = parse_rows;
}

parsed_cell :
    (v : Text) (r : Row) (j : List Row) (rest : Text)
    → parse_rows rest ≡ r ∷ j
    → parse_rows (print_cell v rest) ≡ (v ∷ r) ∷ j
parsed_cell [] r j rest e = rw e refl
parsed_cell (c ∷ v) r j rest e = rw (parsed_cell v r j rest e) refl

parsed_row :
    (r : Row) (j : List Row) (rest : Text)
    → parse_rows rest ≡ j
    → parse_rows (print_row r rest) ≡ r ∷ j
parsed_row [] j rest e = rw e refl
parsed_row (v ∷ r) j rest e = parsed_cell v r j (print_row r rest) (parsed_row r j rest e)

parsed_rows : (j : List Row) → parse_rows (print_rows j) ≡ j
parsed_rows [] = refl
parsed_rows (r ∷ j) = parsed_row r j (print_rows j) (parsed_rows j)

same_text : (a : Text) → text_eq a a ≡ true
unfolding text_eq
same_text [] = refl
same_text (c ∷ a) = ground (arith, same_text a)

other_text : (a b : Text) → a ≢ b → text_eq a b ≡ false
unfolding text_eq
other_text a b ne = elim (Bool-cases (text_eq a b)) [
  | inl e ↦ absurd (ne (equal a b e))
  | inr e ↦ e
]
  where
    equal : (a b : Text) → text_eq a b ≡ true → a ≡ b
    equal [] [] e = refl
    equal [] (d ∷ b) e = cc e
    equal (c ∷ a) [] e = cc e
    equal (c ∷ a) (d ∷ b) e = cc (equal a b (ground (arith, e)), ==-sound c d (ground (arith, e)))

lookup_self : (a v : Text) (j : List Row) → lookup ((v ∷ a ∷ []) ∷ j) (a ∷ []) ≡ some v
lookup_self a v j = rw (same_text a) refl

lookup_other :
    (a b v : Text) (j : List Row) → a ≢ b → lookup ((v ∷ b ∷ []) ∷ j) (a ∷ []) ≡ lookup j (a ∷ [])
lookup_other a b v j ne = rw (other_text b a (λ e. ne (sym e))) refl

number_read : (n : ℤ) → number_of (some (number_cell n)) ≡ n
number_read (pos n) = refl
number_read (negsuc n) = refl

pub rows_laws : JsonLaws (List Row)
rows_laws = record {
  number_set = λ j a n. ap number_of (lookup_self a (number_cell n) j) ∙ number_read n;
  number_kept = λ j a b n ne. ap number_of (lookup_other a b (number_cell n) j ne);
  number_kept_string = λ j a b s ne. ap number_of (lookup_other a b (2 ∷ s) j ne);
  string_set = λ j a s ok. ap string_of (lookup_self a (2 ∷ s) j);
  string_kept = λ j a b s ne. ap string_of (lookup_other a b (2 ∷ s) j ne);
  value_set = λ j a s ok. ap is_there (lookup_self a (2 ∷ s) j);
  value_kept = λ j a b n ne. ap is_there (lookup_other a b (number_cell n) j ne);
  value_none = λ a. refl;
  number_printed = λ j p. ap (λ (j : List Row). number_of (lookup j p)) (parsed_rows j);
  string_printed = λ j p. ap (λ (j : List Row). string_of (lookup j p)) (parsed_rows j);
  value_printed = λ j p. ap (λ (j : List Row). is_there (lookup j p)) (parsed_rows j);
}
