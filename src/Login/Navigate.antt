-- ===== src/Login/Navigate.antt =====
-- `navigate` of login.js, which logs nothing.
pub mod Agreement
use sunbird_devops.Base.{String, ◌||◌, if◌then◌else◌, ⊤}
use sunbird_devops.Web.Libs.{Libs}
use sunbird_devops.State.{M, pure, ◌>>=◌}
use sunbird_devops.Page.Nullable.{is_equal, at_least_text}
use sunbird_devops.Page.Navigate.{Kind, google, state, self, other}
use sunbird_devops.Login.Shared.{get_value_from_session, url_map}
use sunbird_devops.Login.Leave.{
  redirect, handle_sso_event, handle_google_auth_event, redirect_to_portal,
}

module _ (lib : Libs) where
  -- the branch for versions '1' and '2'
  unfoldable pub navigate_old : Kind → M ⊤
  navigate_old google = redirect lib (url_map google)
  navigate_old self = redirect lib (url_map self)
  navigate_old state = handle_sso_event lib
  navigate_old other = pure tt

  -- the branch for versions from '3'
  unfoldable pub navigate_new : Kind → M ⊤
  navigate_new google = handle_google_auth_event lib
  navigate_new state = redirect_to_portal lib (url_map state)
  navigate_new self = redirect_to_portal lib (url_map self)
  navigate_new other = pure tt

  -- `navigate`
  unfoldable pub navigate : Kind → M ⊤
  unfolding navigate_old navigate_new
  navigate kind = do
    version ← get_value_from_session lib "version"
    if is_equal version "1" || is_equal version "2"
        then navigate_old kind
        else if at_least_text version "3"
        then navigate_new kind
        else pure tt
