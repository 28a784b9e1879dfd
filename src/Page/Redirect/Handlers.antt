-- ===== src/Page/Redirect/Handlers.antt =====
-- Where the handlers that leave the login page go.
use Prim.Native.String.{◌++◌}
use sunbird_devops.Base.{String, ◌≡◌, refl, ◌∙◌, true, Option, some, arith, if◌then◌else◌}
use sunbird_devops.Web.Dom.{Location}
use sunbird_devops.Web.Libs.{Libs}
use sunbird_devops.Web.Store.{get_item}
use sunbird_devops.State.{Page}
use sunbird_devops.Page.Nullable.{truthy_text}
use sunbird_devops.Page.Session.{query}
use sunbird_devops.Page.Session.Persistence.{value_of}
use sunbird_devops.Page.Redirect.Targets.{leave_to-valid}
use sunbird_devops.Page.Redirect.{
  without_merge, site, updated_query, is_app, is_dock, leave_to, forget_password, redirect,
  handle_sso_event, handle_google_auth_event, redirect_to_portal,
}

-- The session url of the page is there and is a URL, and so is the redirect uri.
pub record HasUrls (lib : Libs) (w : Page) (session : Location) (uri : String)
    (application : Location) : Type 0 where
  pub stored : String
  pub is_stored : get_item "session_url" w.session ≡ some stored
  pub is_full : truthy_text (some stored) ≡ true
  pub is_uri : value_of lib "redirect_uri" w ≡ some uri
  pub is_full_uri : truthy_text (some uri) ≡ true
  pub parsed : lib.parse_url stored ≡ some session
  pub parsed_uri : lib.parse_url uri ≡ some application

leave_to-HasUrls :
    (lib : Libs) (w : Page) (session : Location) (uri : String) (application : Location)
    (target : Location → String → Location → Option String → String)
    → HasUrls lib w session uri application
    → (leave_to lib target w).1.assigned
      ≡ some (target session uri application (query lib "client_id" w))
leave_to-HasUrls lib w session uri application target h =
    leave_to-valid lib target w h.stored uri session application h.is_stored h.is_full h.is_uri
      h.is_full_uri h.parsed h.parsed_uri

-- With both URLs there, the mobile and desktop clients are sent to the site that the session began
-- at, and all others to the site of their redirect uri; the sign-in of a state and of Google hand a
-- mobile or desktop client its redirect uri back, with the address to open as its query; and the
-- portal's dock applications start the state sign-in at the session's site.
pub handlers_valid :
    (lib : Libs) (path : String) (w : Page) (session : Location) (uri : String)
    (application : Location)
    → HasUrls lib w session uri application
    → let client = query lib "client_id" w in
      let home = if is_app client then site session else site application in
      let from = path ++ updated_query session in
      ((forget_password lib path w).1.assigned ≡ some (home ++ from))
      × ((redirect lib path w).1.assigned ≡ some (home ++ from))
      × ((handle_sso_event lib w).1.assigned
          ≡ some (
              if is_app client
              then uri ++ ("?ssoUrl=" ++ (site session ++ "/sign-in/sso/select-org"))
              else site application ++ "/sign-in/sso/select-org"))
      × ((handle_google_auth_event lib w).1.assigned
          ≡ some (
              if is_app client
              then uri
                ++ ("?googleRedirectUrl="
                    ++ ((session.protocol
                          ++ ("//" ++ (without_merge session.host ++ "/google/auth")))
                        ++ updated_query session))
              else site application ++ ("/google/auth" ++ updated_query session)))
      × ((redirect_to_portal lib path w).1.assigned
          ≡ some ((if is_dock lib client path uri then site session else home) ++ from))
unfolding forget_password redirect handle_sso_event handle_google_auth_event redirect_to_portal
handlers_valid lib path w session uri application h = (
  leave_to-HasUrls lib w session uri application _ h ∙ ground arith,
  leave_to-HasUrls lib w session uri application _ h ∙ ground arith,
  leave_to-HasUrls lib w session uri application _ h ∙ refl,
  leave_to-HasUrls lib w session uri application _ h ∙ refl,
  leave_to-HasUrls lib w session uri application _ h ∙ ground arith,
)
