-- ===== src/Login/Password.antt =====
-- `validatePassword` and `matchPassword` of login.js.
pub mod Strength
use Prim.Native.String.{[], ◌∷◌}
use sunbird_devops.Base.{
  ℕ, code, String, Bool, false, true, not, ◌&&◌, ◌||◌, ◌==◌, leb, eqb, if◌then◌else◌, ⊤,
}
use sunbird_devops.State.{M, when, ◌>>=◌, ◌>>◌}
use sunbird_devops.Page.Password.{
  some_char, every_char, is_digit_code, is_lower_code, is_upper_code, is_space_code, units,
  read_value, set_disabled, swap_class,
}

-- the class [!"#$%&'()*+,-./:;<=>?@[^_`{|}~]: the printable ASCII signs but the backslash and ]
abbrev pub is_sign_code : ℕ → Bool
is_sign_code c =
    leb b'!' c && leb c b'/'
    || leb b':' c && leb c b'@'
    || eqb c b'['
    || leb b'^' c && leb c b'`'
    || leb b'{' c && leb c b'~'

abbrev begins_with : ℕ → String → Bool
begins_with n [] = false
begins_with n (c ∷ s) = eqb (code c) n

-- `specRegex.test(text)`. In the quoted pattern the backslash before ] only quotes it for the
-- string, so the pattern is the class above and then a ].
unfoldable pub has_sign_first : String → Bool
has_sign_first [] = false
has_sign_first (c ∷ s) = is_sign_code (code c) && begins_with b']' s

abbrev no_spaces : String → Bool
no_spaces = every_char (λ c. not (is_space_code c))

-- The five other tests, of which the one for spaces is on a text of its own.
unfoldable pub is_accepted : String → String → Bool
unfolding some_char every_char units has_sign_first
is_accepted spaces s =
    leb 8 (units s)
    && no_spaces spaces
    && some_char is_lower_code s
    && some_char is_upper_code s
    && some_char is_digit_code s
    && not (has_sign_first s)

-- the branch of an accepted password
accept : Bool → M ⊤
accept same = do
  swap_class "passwd-error-msg" "passwderr" "passwdchk"
  when same (do swap_class "passwd-match-error-msg" "show" "hide"; set_disabled false)

-- `validatePassword`
unfoldable pub validate_password : M ⊤
unfolding accept
validate_password = do
  text ← read_value "password-new"
  text2 ← read_value "password-confirm"
  if is_accepted text text
      then accept (text == text2)
      else swap_class "passwd-error-msg" "passwdchk" "passwderr"
  when (not (text == text2)) (set_disabled true)

-- the two branches of `matchPassword`
agree : String → String → M ⊤
agree text text2 =
    when (is_accepted text text2)
      (do swap_class "passwd-match-error-msg" "show" "hide"; set_disabled false)

differ : M ⊤
differ = do swap_class "passwd-match-error-msg" "hide" "show"; set_disabled true

-- `matchPassword`
unfoldable pub match_password : M ⊤
unfolding agree differ
match_password = do
  text ← read_value "password-new"
  text2 ← read_value "password-confirm"
  if text == text2 then agree text text2 else differ
