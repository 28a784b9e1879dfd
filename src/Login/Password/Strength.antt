-- ===== src/Login/Password/Strength.antt =====
-- What the checks of the two scripts make of one password.
use sunbird_devops.Base.{String, ◌≡◌, false, ◌&&◌, arith}
use sunbird_devops.Page.Password.{is_strong, some_char, is_special_code}
use sunbird_devops.Login.Password.{has_sign_first, is_accepted}

-- Unless a text begins with a sign and a closing bracket, telemetry_service.js calls it strong
-- exactly when login.js accepts it and a sign stands in it.
pub is_strong-is_accepted :
    (s : String)
    → has_sign_first s ≡ false
    → is_strong s ≡ (is_accepted s s && some_char is_special_code s)
unfolding is_strong is_accepted
is_strong-is_accepted s h = ground (arith, h)
