-- ===== src/Login/Leave.antt =====
-- `forgetPassword`, `redirect`, `handleSsoEvent`, `handleGoogleAuthEvent` and `redirectToPortal` of
-- login.js, statement by statement.
pub mod Agreement
use Prim.Native.String.{◌++◌}
use sunbird_devops.Base.{◌+◌, String, Bool, Option, none, some, ◌||◌, if◌then◌else◌, ⊤}
use sunbird_devops.Js.Text.{before, index_of, slice_from}
use sunbird_devops.Web.Dom.{Location}
use sunbird_devops.Web.Libs.{Libs}
use sunbird_devops.Web.Store.{get_item}
use sunbird_devops.State.{Error, ok, M, or_raise, assign_href, ◌>>=◌}
use sunbird_devops.Page.Nullable.{truthy_text, text_or_null, is_equal}
use sunbird_devops.Page.Session.{query}
use sunbird_devops.Login.Shared.{get_value_from_session, redirect_to_lib}

-- the tail that a handler's query has
abbrev pub error_callback : Location → String
error_callback url = url.search ++ ("&error_callback=" ++ before b'?' url.href)

-- the host of the session's url, behind "merge."
unfoldable pub google_host : String → String
unfolding index_of slice_from
google_host host = elim (index_of "merge." host) [ some i ↦ slice_from (i + 6) host | none ↦ host ]

-- `client_id === 'android' || client_id === 'desktop'`
abbrev pub from_app : Option String → Bool
from_app client = is_equal client "android" || is_equal client "desktop"

module _ (lib : Libs) where
  -- `new URL(text)`
  abbrev new_url : Option String → M Location
  new_url text = or_raise (lib.parse_url (text_or_null text)) Error.invalid_url

  abbrev client_of : M (Option String)
  client_of w = (ok (query lib "client_id" w), w)

  abbrev session_url_of : M (Option String)
  session_url_of w = (ok (get_item "session_url" w.session), w)

  -- `forgetPassword`
  unfoldable pub forget_password : String → M ⊤
  forget_password path = do
    redirect_uri ← get_value_from_session lib "redirect_uri"
    client_id ← client_of
    session_url ← session_url_of
    let go = (do
      session ← new_url session_url
      let leave = (do
        application ← new_url redirect_uri
        if from_app client_id
            then assign_href
                (session.protocol ++ ("//" ++ (session.host ++ (path ++ error_callback session))))
            else assign_href (
                application.protocol
                ++ ("//" ++ (application.host ++ (path ++ error_callback session)))))
      if truthy_text redirect_uri then leave else redirect_to_lib)
    if truthy_text session_url then go else redirect_to_lib

  -- `redirect`
  unfoldable pub redirect : String → M ⊤
  redirect path = do
    redirect_uri ← get_value_from_session lib "redirect_uri"
    client_id ← client_of
    session_url ← session_url_of
    let go = (do
      session ← new_url session_url
      let leave = (do
        application ← new_url redirect_uri
        if from_app client_id
            then assign_href
                (session.protocol ++ ("//" ++ (session.host ++ (path ++ error_callback session))))
            else assign_href (
                application.protocol
                ++ ("//" ++ (application.host ++ (path ++ error_callback session)))))
      if truthy_text redirect_uri then leave else redirect_to_lib)
    if truthy_text session_url then go else redirect_to_lib

  -- `handleSsoEvent`
  unfoldable pub handle_sso_event : M ⊤
  handle_sso_event = do
    redirect_uri ← get_value_from_session lib "redirect_uri"
    client_id ← client_of
    session_url ← session_url_of
    let path : String = "/sign-in/sso/select-org"
    let go = (do
      session ← new_url session_url
      let leave = (do
        application ← new_url redirect_uri
        let sso_url = session.protocol ++ ("//" ++ (session.host ++ path))
        if from_app client_id
            then assign_href (text_or_null redirect_uri ++ ("?ssoUrl=" ++ sso_url))
            else assign_href (application.protocol ++ ("//" ++ (application.host ++ path))))
      if truthy_text redirect_uri then leave else redirect_to_lib)
    if truthy_text session_url then go else redirect_to_lib

  -- `handleGoogleAuthEvent`, whose first `updatedQuery` is not used
  unfoldable pub handle_google_auth_event : M ⊤
  unfolding google_host
  handle_google_auth_event = do
    redirect_uri ← get_value_from_session lib "redirect_uri"
    client_id ← client_of
    session_url ← session_url_of
    let path : String = "/google/auth"
    let go = (do
      session ← new_url session_url
      let leave = (do
        application ← new_url redirect_uri
        let google_url = session.protocol ++ ("//" ++ (google_host session.host ++ path))
        if from_app client_id
            then assign_href (
                text_or_null redirect_uri
                ++ ("?googleRedirectUrl=" ++ (google_url ++ error_callback session)))
            else assign_href (
                application.protocol
                ++ ("//" ++ (application.host ++ (path ++ error_callback session)))))
      if truthy_text redirect_uri then leave else redirect_to_lib)
    if truthy_text session_url then go else redirect_to_lib

  -- `redirectToPortal`
  unfoldable pub redirect_to_portal : String → M ⊤
  redirect_to_portal path = do
    redirect_uri ← get_value_from_session lib "redirect_uri"
    client_id ← client_of
    session_url ← session_url_of
    let go = (do
      session ← new_url session_url
      let leave = (do
        application ← new_url redirect_uri
        if from_app client_id
            then assign_href
                (session.protocol ++ ("//" ++ (session.host ++ (path ++ error_callback session))))
            else assign_href (
                application.protocol
                ++ ("//" ++ (application.host ++ (path ++ error_callback session)))))
      if truthy_text redirect_uri then leave else redirect_to_lib)
    if truthy_text session_url then go else redirect_to_lib
