-- ===== src/Page/Password.antt =====
-- `validatePassword` and `matchPassword` of telemetry_service.js: the bodies that `setTimeout` runs
-- once a key press has reached its field.
pub mod Form
pub mod Outcome
pub mod Guard
use sunbird_devops.Web.Dom.{Element}
use Prim.Native.String.{[], ◌∷◌}
use sunbird_devops.Base.{
  Option, Option, ℕ, ◌+◌, code, String, Bool, true, false, not, ◌&&◌, ◌||◌, none, some, ◌==◌, leb,
  eqb, if◌then◌else◌, ⊤,
}
use sunbird_devops.Js.Text.{replace_first}
use sunbird_devops.Web.Store.{get_item}
use sunbird_devops.State.{pure, Error, M, ok, raise, when, ◌>>=◌, ◌>>◌}
use sunbird_devops.Page.Elements.{require_element, with_class}

-- a character of the text passes a test: (?=.*[…])
unfoldable pub some_char : (ℕ → Bool) → String → Bool
some_char p [] = false
some_char p (c ∷ s) = p (code c) || some_char p s

unfoldable pub every_char : (ℕ → Bool) → String → Bool
every_char p [] = true
every_char p (c ∷ s) = p (code c) && every_char p s

abbrev pub is_digit_code : ℕ → Bool
is_digit_code c = leb b'0' c && leb c b'9'

abbrev pub is_lower_code : ℕ → Bool
is_lower_code c = leb b'a' c && leb c b'z'

abbrev pub is_upper_code : ℕ → Bool
is_upper_code c = leb b'A' c && leb c b'Z'

-- the class [~.,)(}{\[!"#$%&'()*+,-./:;<=>?@[^_`{|}~\]]: the printable ASCII signs but the backslash
abbrev pub is_special_code : ℕ → Bool
is_special_code c =
    leb b'!' c && leb c b'/'
    || leb b':' c && leb c b'@'
    || eqb c b'['
    || leb b']' c && leb c b'`'
    || leb b'{' c && leb c b'~'

-- \s
abbrev pub is_space_code : ℕ → Bool
is_space_code c =
    leb 9 c && leb c 13
    || eqb c 32
    || eqb c 160
    || eqb c 5760
    || leb 8192 c && leb c 8202
    || eqb c 8232
    || eqb c 8233
    || eqb c 8239
    || eqb c 8287
    || eqb c 12288
    || eqb c 65279

-- the length of a text in UTF-16 units
unfoldable pub units : String → ℕ
units [] = 0
units (c ∷ s) = (if leb 65536 (code c) then 2 else 1) + units s

-- `specRegex.test(text)`, for a text with no line break, which the value of an input has not:
-- ^(?=.*[0-9])(?=.*[a-z])(?=.*[A-Z])(?=.*[…])(?=\S+$).{8,}
unfoldable pub is_strong : String → Bool
unfolding some_char every_char units
is_strong s =
    some_char is_digit_code s
    && some_char is_lower_code s
    && some_char is_upper_code s
    && some_char is_special_code s
    && every_char (λ c. not (is_space_code c)) s
    && leb 8 (units s)

-- `document.getElementById(id).value`
read_found : Option Element → M String
read_found none = raise Error.null_property
read_found (some e) = pure e.value

unfoldable pub read_value : String → M String
unfolding read_found
read_value id w = read_found (get_item id w.doc) w

-- The fields of an element are written in some branches only, so that it is missing shows there.
abbrev pub set_disabled : Bool → M ⊤
set_disabled b = require_element "login" (λ e. record e { disabled = b })

abbrev pub swap_class : String → String → String → M ⊤
swap_class id old new = require_element id (with_class (λ c. replace_first old new c))

-- the branch of a strong password
accept : Bool → M ⊤
accept same = do
  swap_class "passwd-error-msg" "passwderr" "passwdchk"
  when same (do swap_class "passwd-match-error-msg" "show" "hide"; set_disabled false)

-- `validatePassword`
unfoldable pub validate_password : M ⊤
unfolding accept
validate_password = do
  text ← read_value "password-new"
  text2 ← read_value "password-confirm"
  if is_strong text
      then accept (text == text2)
      else swap_class "passwd-error-msg" "passwdchk" "passwderr"
  when (not (text == text2)) (set_disabled true)

-- the two branches of `matchPassword`
agree : String → M ⊤
agree text2 =
    when (is_strong text2)
      (do swap_class "passwd-match-error-msg" "show" "hide"; set_disabled false)

differ : M ⊤
differ = do swap_class "passwd-match-error-msg" "hide" "show"; set_disabled true

-- `matchPassword`
unfoldable pub match_password : M ⊤
unfolding agree differ
match_password = do
  text ← read_value "password-new"
  text2 ← read_value "password-confirm"
  if text == text2 then agree text2 else differ
