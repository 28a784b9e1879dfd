-- ===== src/Js/Thousandths.antt =====
-- `v * 1000`, for what a configuration holds. A text is read with its sign and a fraction, of which
-- three digits count, so that the product is a whole number.
mod Tests
use Prim.Native.String.{[], ◌∷◌}
use sunbird_devops.Base.{
  ℕ, ◌+◌, ◌*◌, ◌-◌, ◌/◌, Char, code, String, Bool, Option, none, some, ◌||◌, ◌&&◌, leb, eqb,
  if◌then◌else◌,
}
use sunbird_devops.Js.Int.{ℤ, pos, sub_ℕ, thousand}
use sunbird_devops.Js.Text.{to_number, is_digit}
use sunbird_devops.Js.Value.{Value, str, number}

-- The digits of a fraction, the first of which counts this much.
digits_worth : ℕ → String → ℕ
digits_worth n [] = 0
digits_worth n (c ∷ s) =
    let more = digits_worth (n / 10) s in if is_digit (code c) then n * (code c - 48) + more else 0

fraction_worth : String → ℕ
fraction_worth [] = 0
fraction_worth (c ∷ s) =
    let later = fraction_worth s in if eqb (code c) b'.' then digits_worth 100 s else later

-- a text that begins with a digit
unsigned : String → Option ℕ
unsigned [] = none
unsigned (c ∷ s) =
    if is_digit (code c)
    then elim (to_number (c ∷ s)) as (λ _. Option ℕ) [
      | some n ↦ some (1000 * n + fraction_worth s)
      | none ↦ none
    ]
    else none

negated : Option ℕ → Option ℤ
negated none = none
negated (some n) = some (sub_ℕ 0 n)

kept : Option ℕ → Option ℤ
kept none = none
kept (some n) = some (pos n)

-- for a text; `none` is NaN
unfoldable pub text_thousand : String → Option ℤ
unfolding digits_worth fraction_worth unsigned negated kept
text_thousand [] = some (pos 0)
text_thousand (c ∷ s) =
    let rest = text_thousand s in
    if eqb (code c) 32 || leb 9 (code c) && leb (code c) 13
    then rest
    else if eqb (code c) b'-'
    then negated (unsigned s)
    else if eqb (code c) b'+'
    then kept (unsigned s)
    else kept (unsigned (c ∷ s))

scaled : Option ℤ → Option ℤ
scaled none = none
scaled (some n) = some (thousand n)

-- for any value
unfoldable pub times_thousand : Value → Option ℤ
unfolding scaled text_thousand
times_thousand (str s) = text_thousand s
times_thousand v = scaled (number v)
