-- ===== src/Js/Text.antt =====
-- The methods of `String` that the scripts call. A text is its sequence of code points, which are
-- its UTF-16 units outside the supplementary planes; letters change case in ASCII only.
mod Tests
pub mod Decimal
use Prim.Native.String.{[], ◌∷◌, ◌++◌}
use mathlib.Core.List
use sunbird_devops.Base.{
  ℕ, zero, suc, ◌+◌, ◌-◌, ◌*◌, Char, code, String, Bool, true, false, not, ◌&&◌, ◌||◌, Option, none,
  some, List, ◌==◌, leb, ltb, eqb, ◌/◌, ◌%◌, if◌then◌else◌,
}

-- the rest of the text behind a prefix
unfoldable pub strip_prefix : String → String → Option String
strip_prefix [] s = some s
strip_prefix (p ∷ ps) [] = none
strip_prefix (p ∷ ps) (c ∷ s) =
    let rest = strip_prefix ps s in if eqb (code p) (code c) then rest else none

-- `s.replace(pattern, by)` at a non-empty text pattern: the first occurrence
unfoldable pub replace_first : String → String → String → String
replace_first pattern by [] = []
replace_first pattern by (c ∷ s) = elim (strip_prefix pattern (c ∷ s)) [
  | some rest ↦ by ++ rest
  | none ↦ c ∷ replace_first pattern by s
]

-- `s.indexOf(pattern)`, where `none` is -1
unfoldable pub index_of : String → String → Option ℕ
index_of pattern [] = elim (strip_prefix pattern []) [ some _ ↦ some 0 | none ↦ none ]
index_of pattern (c ∷ s) = elim (strip_prefix pattern (c ∷ s)) [
  | some _ ↦ some 0
  | none ↦ elim (index_of pattern s) [ some i ↦ some (suc i) | none ↦ none ]
]

-- `s.includes(pattern)`
unfoldable pub includes : String → String → Bool
unfolding index_of
includes pattern s = elim (index_of pattern s) [ some _ ↦ true | none ↦ false ]

-- `s.slice(n, s.length)`
unfoldable pub slice_from : ℕ → String → String
slice_from zero s = s
slice_from (suc n) [] = []
slice_from (suc n) (c ∷ s) = slice_from n s

-- `s.split('?')[0]`, for any separator
unfoldable pub before : ℕ → String → String
before sep [] = []
before sep (c ∷ s) = let rest = before sep s in if eqb (code c) sep then [] else c ∷ rest

-- `s.split(' ')`, for any separator
unfoldable pub split_from : ℕ → String → String → List String
split_from sep cur [] = List.◌∷◌ cur List.[]
split_from sep cur (c ∷ s) =
    let closed = List.◌∷◌ cur (split_from sep [] s) in
    let longer = split_from sep (cur ++ (c ∷ [])) s in if eqb (code c) sep then closed else longer

-- `a.indexOf(t) != -1`
unfoldable pub has_text : List String → String → Bool
has_text List.[] t = false
has_text (List.◌∷◌ x xs) t = x == t || has_text xs t

-- A letter of `from` becomes the one of `to` at its place.
unfoldable pub translate : String → String → Char → Char
translate (x ∷ from) (y ∷ to) c = if eqb (code x) (code c) then y else translate from to c
translate _ _ c = c

unfoldable pub map_text : (Char → Char) → String → String
map_text f [] = []
map_text f (c ∷ s) = f c ∷ map_text f s

abbrev pub upper_letters : String
upper_letters = "ABCDEFGHIJKLMNOPQRSTUVWXYZ"

abbrev pub lower_letters : String
lower_letters = "abcdefghijklmnopqrstuvwxyz"

-- `s.toLowerCase()`
unfoldable pub to_lower : String → String
unfolding map_text translate
to_lower = map_text (translate upper_letters lower_letters)

-- `s.toUpperCase()`
unfoldable pub to_upper : String → String
unfolding map_text translate
to_upper = map_text (translate lower_letters upper_letters)

abbrev pub is_digit : ℕ → Bool
is_digit c = leb b'0' c && leb c b'9'

abbrev is_word : ℕ → Bool
is_word c = is_digit c || leb b'a' c && leb c b'z' || leb b'A' c && leb c b'Z' || eqb c b'_'

abbrev starts_word : String → Bool
starts_word [] = false
starts_word (c ∷ s) = is_word (code c)

-- `s.replace(/\bword\b/g, "")` at a word; `inside` says that a word character stands before, and
-- `skip` counts the characters of a match that are still to be passed over.
remove_word_from : String → ℕ → Bool → String → String
remove_word_from word n inside [] = []
remove_word_from word (suc n) inside (c ∷ s) = remove_word_from word n true s
remove_word_from word zero inside (c ∷ s) =
    let kept = c ∷ remove_word_from word zero (is_word (code c)) s in
    let cut = λ (n : ℕ). remove_word_from word n true s in
    elim (strip_prefix word (c ∷ s)) [
      | none ↦ kept
      | some rest ↦
          if inside || starts_word rest then kept else cut (Prim.Native.String.count word - 1)
    ]

unfoldable pub remove_word : String → String → String
unfolding remove_word_from strip_prefix
remove_word word s = remove_word_from word 0 false s

abbrev is_blank : ℕ → Bool
is_blank c = eqb c 32 || leb 9 c && leb c 13

only_blanks : String → Bool
only_blanks [] = true
only_blanks (c ∷ s) = is_blank (code c) && only_blanks s

-- what may follow the integral part of a number: a fraction, which does not bear on a comparison
-- with a whole number, and blanks
fraction : Bool → String → Bool
fraction dot [] = true
fraction dot (c ∷ s) =
    let more = fraction dot s in
    if is_digit (code c)
    then dot && more
    else if eqb (code c) b'.'
    then not dot && fraction true s
    else only_blanks (c ∷ s)

digits_from : ℕ → String → Option ℕ
digits_from n [] = some n
digits_from n (c ∷ s) =
    let more = digits_from (10 * n + (code c - 48)) s in
    if is_digit (code c) then more else if fraction false (c ∷ s) then some n else none

-- `Number(s)`, rounded down: `none` is NaN. Signs, exponents and the prefixes 0x, 0o and 0b are
-- not modelled (`none`).
unfoldable pub to_number : String → Option ℕ
unfolding digits_from fraction only_blanks
to_number [] = some 0
to_number (c ∷ s) =
    if is_blank (code c)
    then to_number s
    else if is_digit (code c)
    then digits_from 0 (c ∷ s)
    else none

char_text : ℕ → String → String
char_text n [] = []
char_text zero (c ∷ s) = c ∷ []
char_text (suc n) (c ∷ s) = char_text n s

abbrev digit_text : ℕ → String
digit_text d = char_text d "0123456789"

-- The digits of a number before a text, on fuel: the quotient by 10 falls, so more fuel than the
-- number is enough.
decimal_from : ℕ → ℕ → String → String
decimal_from zero n s = s
decimal_from (suc fuel) n s =
    let more = decimal_from fuel (n / 10) (digit_text (n % 10) ++ s) in
    if ltb n 10 then digit_text n ++ s else more

-- `String(n)`
unfoldable pub decimal : ℕ → String
unfolding decimal_from char_text
decimal n = decimal_from (suc n) n ""
