-- ===== src/Page/Navigate.antt =====
-- `navigate` and `urlMap` of telemetry_service.js.
pub mod Waiting
pub mod Versions
use sunbird_devops.Base.{String, ◌||◌, if◌then◌else◌, ⊤}
use sunbird_devops.Web.Libs.{Libs}
use sunbird_devops.State.{M, pure, ◌>>=◌, ◌>>◌}
use sunbird_devops.Page.Nullable.{is_equal, at_least_text}
use sunbird_devops.Page.Session.{get_value_from_session}
use sunbird_devops.Page.Events.{log_interact_event}
use sunbird_devops.Page.Redirect.{
  redirect, handle_sso_event, handle_google_auth_event, redirect_to_portal,
}

-- the keys of `urlMap`, and any other type
pub data Kind : Type 0 where
  google state self other : Kind

-- `urlMap[type]`, at the keys that it has
abbrev pub url_map : Kind → String
url_map google = "/google/auth"
url_map state = "/sign-in/sso/select-org"
url_map self = "/signup"
url_map other = "undefined"

-- the name of the click in the telemetry
abbrev pub click_name : Kind → String
click_name google = "google-signin"
click_name state = "state-signin"
click_name self = "sign-up"
click_name other = ""

module _ (lib : Libs) where
  -- the branch for versions '1' and '2'
  unfoldable pub navigate_old : Kind → M ⊤
  navigate_old google = do log_interact_event lib (click_name google); redirect lib (url_map google)
  navigate_old self = do log_interact_event lib (click_name self); redirect lib (url_map self)
  navigate_old state = do log_interact_event lib (click_name state); handle_sso_event lib
  navigate_old other = pure tt

  -- the branch for versions from '3'
  unfoldable pub navigate_new : Kind → M ⊤
  navigate_new google = do log_interact_event lib (click_name google); handle_google_auth_event lib
  navigate_new state = do
    log_interact_event lib (click_name state)
    redirect_to_portal lib (url_map state)
  navigate_new self = do
    log_interact_event lib (click_name self)
    redirect_to_portal lib (url_map self)
  navigate_new other = pure tt

  -- `navigate`
  unfoldable pub navigate : Kind → M ⊤
  unfolding get_value_from_session navigate_old navigate_new
  navigate kind = do
    version ← get_value_from_session lib "version"
    if is_equal version "1" || is_equal version "2"
        then navigate_old kind
        else if at_least_text version "3"
        then navigate_new kind
        else pure tt

  -- The click handlers of `.googleSignInButton` and `.stateSignInButton`.
  unfoldable pub google_button_click : M ⊤
  google_button_click = do log_interact_event lib "google-signin"; redirect lib "/google/auth"

  unfoldable pub state_button_click : M ⊤
  state_button_click = do log_interact_event lib "state-signin"; handle_sso_event lib
