-- ===== src/Js/Text/Decimal.antt =====
-- `Number(String(n))`.
use Prim.Native.String.{[], ◌∷◌, ◌++◌}
use text.Mathlib.TextLemmas.{nil-append, cons-append}
use sunbird_devops.Base.{
  ℕ, zero, suc, ◌+◌, ◌-◌, ◌*◌, ◌/◌, ◌%◌, ◌<◌, Char, code, String, ◌≡◌, refl, ◌∙◌, ap, true, false,
  some, arith, ltb, Bool-cases, inl, inr,
}
use sunbird_devops.Js.Text.{
  is_digit, is_blank, digits_from, to_number, char_text, digit_text, decimal_from, decimal,
}

-- A digit's text is one character.
abbrev IsSingle : ℕ → Type 0
IsSingle d = (c : Char) × (digit_text d ≡ c ∷ []) × (code c ≡ 48 + d)

digit_text-IsSingle : (d : ℕ) → d < 10 → IsSingle d
unfolding char_text
digit_text-IsSingle zero h = ("0", refl, omega arith)
digit_text-IsSingle (suc zero) h = ("1", refl, omega arith)
digit_text-IsSingle (suc (suc zero)) h = ("2", refl, omega arith)
digit_text-IsSingle (suc (suc (suc zero))) h = ("3", refl, omega arith)
digit_text-IsSingle (suc (suc (suc (suc zero)))) h = ("4", refl, omega arith)
digit_text-IsSingle (suc (suc (suc (suc (suc zero))))) h = ("5", refl, omega arith)
digit_text-IsSingle (suc (suc (suc (suc (suc (suc zero)))))) h = ("6", refl, omega arith)
digit_text-IsSingle (suc (suc (suc (suc (suc (suc (suc zero))))))) h = ("7", refl, omega arith)
digit_text-IsSingle (suc (suc (suc (suc (suc (suc (suc (suc zero)))))))) h =
    ("8", refl, omega arith)
digit_text-IsSingle (suc (suc (suc (suc (suc (suc (suc (suc (suc zero))))))))) h =
    ("9", refl, omega arith)
digit_text-IsSingle (suc (suc (suc (suc (suc (suc (suc (suc (suc (suc d)))))))))) h =
    absurd (omega arith)

one-append : (c : Char) (s : String) → (c ∷ []) ++ s ≡ c ∷ s
one-append c s = cons-append c [] s ∙ ap (λ t. c ∷ t) (nil-append s)

digits_from-digit :
    (k : ℕ) (c : Char) (s : String) (d : ℕ)
    → d < 10
    → code c ≡ 48 + d
    → digits_from k (c ∷ s) ≡ digits_from (10 * k + d) s
unfolding digits_from
digits_from-digit k c s d h e =
    let digit : is_digit (code c) ≡ true = ground (arith, h, e) in
    let same : 10 * k + (code c - 48) ≡ 10 * k + d = omega (arith, e) in
    rw digit (ap (λ m. digits_from m s) same)

digits_from-digit_text :
    (k d : ℕ) (s : String) → d < 10 → digits_from k (digit_text d ++ s) ≡ digits_from (10 * k + d) s
digits_from-digit_text k d s h =
    let (c, text, value) = digit_text-IsSingle d h in
    ap (λ t. digits_from k (t ++ s)) text
    ∙ ap (digits_from k) (one-append c s)
    ∙ digits_from-digit k c s d h value

-- With more fuel than the number, its digits are read back before any text.
digits_from-decimal_from :
    (fuel n : ℕ) (s : String) → n < fuel → digits_from 0 (decimal_from fuel n s) ≡ digits_from n s
unfolding decimal_from
digits_from-decimal_from zero n s h = absurd (omega arith)
digits_from-decimal_from (suc fuel) n s h = elim (Bool-cases (ltb n 10)) [
  | inl small ↦ rw small (
      let same : 10 * 0 + n ≡ n = omega arith in
      digits_from-digit_text 0 n s (ground (arith, small)) ∙ ap (λ m. digits_from m s) same)
  | inr large ↦ rw large (
      let rest : n / 10 < fuel = ground (arith, large, h) in
      let whole : 10 * (n / 10) + n % 10 ≡ n = omega arith in
      digits_from-decimal_from fuel (n / 10) (digit_text (n % 10) ++ s) rest
      ∙ digits_from-digit_text (n / 10) (n % 10) s (omega arith)
      ∙ ap (λ m. digits_from m s) whole)
]

-- The first character is a digit.
abbrev BeginsWithDigit : String → Type 0
BeginsWithDigit s = (c : Char) × (t : String) × (s ≡ c ∷ t) × (is_digit (code c) ≡ true)

decimal_from-BeginsWithDigit :
    (fuel n : ℕ) (s : String) → n < fuel → BeginsWithDigit (decimal_from fuel n s)
unfolding decimal_from
decimal_from-BeginsWithDigit zero n s h = absurd (omega arith)
decimal_from-BeginsWithDigit (suc fuel) n s h = elim (Bool-cases (ltb n 10)) [
  | inl small ↦
      let digit : n < 10 = ground (arith, small) in
      let (c, text, value) = digit_text-IsSingle n digit in
      rw small (c, s, ap (λ t. t ++ s) text ∙ one-append c s, ground (arith, value, digit))
  | inr large ↦ rw large (
      decimal_from-BeginsWithDigit fuel (n / 10) (digit_text (n % 10) ++ s)
        (ground (arith, large, h)))
]

pub decimal-BeginsWithDigit : (n : ℕ) → BeginsWithDigit (decimal n)
unfolding decimal
decimal-BeginsWithDigit n = decimal_from-BeginsWithDigit (suc n) n "" (omega arith)

to_number_of_digit : (s : String) → BeginsWithDigit s → to_number s ≡ digits_from 0 s
unfolding to_number
to_number_of_digit s (c, t, e, digit) =
    let solid : is_blank (code c) ≡ false = ground (arith, digit) in rw e (rw solid (rw digit refl))

-- `Number` reads every natural number back from its decimal text.
pub to_number-decimal : (n : ℕ) → to_number (decimal n) ≡ some n
unfolding digits_from
to_number-decimal n =
    to_number_of_digit (decimal n) (decimal-BeginsWithDigit n)
    ∙ unfold decimal in digits_from-decimal_from (suc n) n "" (omega arith)
