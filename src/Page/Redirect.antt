-- ===== src/Page/Redirect.antt =====
-- Leaving the login page: `redirectToLib`, `forgetPassword`, `redirect`, `handleSsoEvent`,
-- `handleGoogleAuthEvent`, `redirectToPortal` and `backToApplication` of telemetry_service.js.
pub mod Targets
pub mod Handlers
pub mod Same
pub mod Journey
use Prim.Native.String.{◌++◌}
use sunbird_devops.Base.{◌+◌, String, Bool, ◌&&◌, ◌||◌, Option, none, some, ◌==◌, if◌then◌else◌, ⊤}
use sunbird_devops.Js.Text.{before, index_of, slice_from, includes}
use sunbird_devops.Web.Dom.{Location}
use sunbird_devops.Web.Libs.{Libs}
use sunbird_devops.Web.Store.{get_item}
use sunbird_devops.State.{Error, M, gets, or_raise, assign_href, when, ◌>>=◌}
use sunbird_devops.Page.Nullable.{truthy_text, text_or_null, is_equal}
use sunbird_devops.Page.Session.{get_value_from_session, query}

-- `redirectToLib`
unfoldable pub redirect_to_lib : M ⊤
redirect_to_lib w =
    assign_href (w.location.protocol ++ ("//" ++ (w.location.host ++ "/resource"))) w

-- `url.protocol + '//' + url.host`
abbrev pub site : Location → String
site url = url.protocol ++ ("//" ++ url.host)

-- `sessionUrlObj.search + '&error_callback=' + sessionUrlObj.href.split('?')[0]`
unfoldable pub updated_query : Location → String
unfolding before
updated_query url = url.search ++ ("&error_callback=" ++ before b'?' url.href)

-- `client_id === 'android' || client_id === 'desktop'`
abbrev pub is_app : Option String → Bool
is_app client = is_equal client "android" || is_equal client "desktop"

-- `host.slice(host.indexOf("merge.") + 6, host.length)`, if "merge." is found
unfoldable pub without_merge : String → String
unfolding index_of slice_from
without_merge host = elim (index_of "merge." host) [
  | none ↦ host
  | some i ↦ slice_from (i + 6) host
]

module _ (lib : Libs) where
  -- The shape that the five handlers share: with no session url or no redirect uri the library
  -- page is opened; otherwise both are parsed, the session url first, and the target is computed
  -- from them, from the redirect uri's text and from the client's id.
  unfoldable pub leave_with :
      (Location → String → Location → Option String → String)
      → (uri client session_url : Option String) → M ⊤
  leave_with target uri client session_url =
      let leave = λ (session : Location).
        or_raise (lib.parse_url (text_or_null uri)) Error.invalid_url >>= λ application.
        assign_href (target session (text_or_null uri) application client) in
      let with_session =
        or_raise (lib.parse_url (text_or_null session_url)) Error.invalid_url >>= λ session.
        if truthy_text uri then leave session else redirect_to_lib in
      if truthy_text session_url then with_session else redirect_to_lib

  unfoldable pub leave_to : (Location → String → Location → Option String → String) → M ⊤
  leave_to target = do
    redirect_uri ← get_value_from_session lib "redirect_uri"
    λ w.
        leave_with target redirect_uri (query lib "client_id" w) (get_item "session_url" w.session)
          w

  -- `forgetPassword`
  unfoldable pub forget_password : String → M ⊤
  forget_password path = leave_to λ session uri application client.
      if is_app client
      then site session ++ (path ++ updated_query session)
      else site application ++ (path ++ updated_query session)

  -- `redirect`
  unfoldable pub redirect : String → M ⊤
  redirect path = leave_to λ session uri application client.
      if is_app client
      then site session ++ (path ++ updated_query session)
      else site application ++ (path ++ updated_query session)

  -- `handleSsoEvent`
  unfoldable pub handle_sso_event : M ⊤
  handle_sso_event = leave_to λ session uri application client.
      if is_app client
      then uri ++ ("?ssoUrl=" ++ (site session ++ "/sign-in/sso/select-org"))
      else site application ++ "/sign-in/sso/select-org"

  -- `handleGoogleAuthEvent`
  unfoldable pub handle_google_auth_event : M ⊤
  handle_google_auth_event = leave_to λ session uri application client.
      if is_app client
      then uri
        ++ ("?googleRedirectUrl="
            ++ ((session.protocol ++ ("//" ++ (without_merge session.host ++ "/google/auth")))
                ++ updated_query session))
      else site application ++ ("/google/auth" ++ updated_query session)

  -- the portal's own sign-in, for the two dock applications
  abbrev pub is_dock : Option String → String → String → Bool
  is_dock client path uri =
      is_equal client "portal"
      && path == "/sign-in/sso/select-org"
      && (includes "dock.sunbirded.org" uri || includes "dockstaging.sunbirded.org" uri)

  -- `redirectToPortal`
  unfoldable pub redirect_to_portal : String → M ⊤
  redirect_to_portal path = leave_to λ session uri application client.
      if is_app client || is_dock client path uri
      then site session ++ (path ++ updated_query session)
      else site application ++ (path ++ updated_query session)

  -- `backToApplication`
  unfoldable pub back_to_application : M ⊤
  back_to_application = do
    redirect_uri ← get_value_from_session lib "redirect_uri"
    when (truthy_text redirect_uri) (assign_href (before b'?' (text_or_null redirect_uri)))
