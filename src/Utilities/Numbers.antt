-- ===== src/Utilities/Numbers.antt =====
-- What atoi reads of a number that the "%d" of sprintf wrote, in src/utilities.c, src/server.c and
-- src/editor.c.
use lprog_hw.Prelude.{
  ℕ, zero, suc, ◌≤◌, ◌<◌, ◌≡◌, refl, ap, ◌∙◌, ◌+◌, ◌*◌, ◌/◌, ◌%◌, true, false, [], ◌∷◌, arith, ltb,
  ltb→lt, ◌==◌, Bool-cases, inl, inr,
}
use lprog_hw.Prelude.Int.{ℤ, pos, negsuc, negate}
use lprog_hw.Utilities.Text.{Text, digits_value, print_digits, atoi, print_int, is_digit, is_space}

tenth : (n : ℕ) → (n / 10) * 10 + n % 10 ≡ n
tenth n = omega arith

tenth_below : (n fuel : ℕ) → 10 ≤ n → n < suc fuel → n / 10 < fuel
tenth_below n fuel h k = omega arith

-- One more digit.
digits_value-digit :
    (a d : ℕ) (s : Text) → d < 10 → digits_value a ((b'0' + d) ∷ s) ≡ digits_value (a * 10 + d) s
unfolding digits_value
digits_value-digit a d s h = ground arith

-- The digits of a number are read back as that number.
digits_value-print_digits :
    (fuel n : ℕ) (acc : Text)
    → n < fuel
    → digits_value 0 (print_digits fuel n acc) ≡ digits_value n acc
unfolding print_digits
digits_value-print_digits zero n acc h = omega (arith, h)
digits_value-print_digits (suc fuel) n acc h = elim (Bool-cases (ltb n 10)) [
  | inl z ↦
      rw z (digits_value-digit 0 n acc (ltb→lt n 10 z) ∙ ap (λ a. digits_value a acc) (omega arith))
  | inr z ↦
      let big : 10 ≤ n = ground arith in
      rw z (
        digits_value-print_digits fuel (n / 10) ((b'0' + n % 10) ∷ acc) (tenth_below n fuel big h)
        ∙ digits_value-digit (n / 10) (n % 10) acc (omega arith)
        ∙ ap (λ a. digits_value a acc) (tenth n))
]

FirstDigit : Text → Type 0
FirstDigit [] = ⊥
FirstDigit (c ∷ s) = is_digit c ≡ true

print_digits-FirstDigit :
    (fuel n : ℕ) (acc : Text) → n < fuel → FirstDigit (print_digits fuel n acc)
unfolding print_digits FirstDigit
print_digits-FirstDigit zero n acc h = absurd (omega (arith, h))
print_digits-FirstDigit (suc fuel) n acc h = elim (Bool-cases (ltb n 10)) [
  | inl z ↦ rw z (digit n (ltb→lt n 10 z))
  | inr z ↦
      let big : 10 ≤ n = ground arith in
      rw z
        (print_digits-FirstDigit fuel (n / 10) ((b'0' + n % 10) ∷ acc) (tenth_below n fuel big h))
]
  where
    digit : (n : ℕ) → n < 10 → is_digit (b'0' + n) ≡ true
    digit n h = ground arith

-- atoi of a text that begins with a digit
atoi-FirstDigit : (t : Text) → FirstDigit t → atoi t ≡ pos (digits_value 0 t)
unfolding atoi FirstDigit
atoi-FirstDigit [] h = absurd h
atoi-FirstDigit (c ∷ s) h =
    let space : is_space c ≡ false = ground arith in
    let minus : (c == b'-') ≡ false = ground arith in
    let plus : (c == b'+') ≡ false = ground arith in rw (space, minus, plus) refl

-- The number that atoi reads in what "%d" wrote of a number is that number.
pub atoi-print_int : (z : ℤ) → atoi (print_int z) ≡ z
unfolding print_int atoi
atoi-print_int (pos n) =
    atoi-FirstDigit (print_digits (n + 1) n []) (print_digits-FirstDigit (n + 1) n [] (omega arith))
    ∙ ap pos (digits_value-print_digits (n + 1) n [] (omega arith))
atoi-print_int (negsuc n) =
    minus (print_digits (n + 2) (n + 1) [])
    ∙ ap negate (digits_value-print_digits (n + 2) (n + 1) [] (omega arith))
    ∙ ap negate (next n)
  where
    next : (n : ℕ) → n + 1 ≡ suc n
    next n = omega arith

    minus : (t : Text) → atoi (b'-' ∷ t) ≡ negate (digits_value 0 t)
    minus t = refl
