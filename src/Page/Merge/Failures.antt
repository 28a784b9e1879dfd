-- ===== src/Page/Merge/Failures.antt =====
-- The count of wrong passwords while two accounts are merged.
use Prim.Native.String.{◌++◌}
use sunbird_devops.Base.{String, ◌≡◌, refl, some}
use sunbird_devops.Web.Libs.{Libs}
use sunbird_devops.Web.Store.{set_item}
use sunbird_devops.State.{Page}
use sunbird_devops.Page.Session.Persistence.{after_value, get_value_from_session-eq}
use sunbird_devops.Page.Merge.{return_error}

-- the address that the page is left for, up to the user's data
abbrev pub error_url : Page → String → String
error_url w rest =
    w.location.protocol
    ++ ("//" ++ (w.location.host ++ ("/sign-in/sso/auth?status=error&identifierType=" ++ rest)))

pub return_error-assigned :
    (lib : Libs) (w : Page)
    → (rest : String) × ((return_error lib w).1.assigned ≡ some (error_url w rest))
unfolding return_error
return_error-assigned lib w =
    let w1 = after_value lib "identifierType" w in
    let w2 = after_value lib "userId" w1 in
    let w3 = after_value lib "identifierValue" w2 in
    let w4 = after_value lib "tncAccepted" w3 in
    rw (get_value_from_session-eq lib "identifierType" w) (
      rw (get_value_from_session-eq lib "userId" w1) (
        rw (get_value_from_session-eq lib "identifierValue" w2) (
          rw (get_value_from_session-eq lib "tncAccepted" w3)
            (rw (get_value_from_session-eq lib "tncVersion" w4) (_, refl)))))

abbrev pub counted : String → Page → Page
counted n w = record w { session = set_item "passwordFailCount" n w.session }
