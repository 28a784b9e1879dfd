-- ===== src/Page/Navigate/Waiting.antt =====
-- Clicks on a way to sign in while the organisation is not known.
use sunbird_devops.Base.{
  String, ◌≡◌, refl, ◌∙◌, ap, ◌||◌, Option, Bool-cases, inl, inr, if◌then◌else◌, ⊤,
}
use sunbird_devops.Js.Value.{undefined}
use sunbird_devops.Web.Libs.{Libs}
use sunbird_devops.State.{Page, Error, M, Result, throw, pure, continue_with}
use sunbird_devops.State.Laws.{continue_of_ok, continue_of_throw}
use sunbird_devops.Page.Nullable.{is_equal, at_least_text}
use sunbird_devops.Page.Session.Persistence.{value_of, after_value, get_value_from_session-eq}
use sunbird_devops.Page.Events.{log_interact_event}
use sunbird_devops.Page.Redirect.{
  redirect, handle_sso_event, handle_google_auth_event, redirect_to_portal,
}
use sunbird_devops.Page.Navigate.{
  Kind, google, state, self, other, url_map, click_name, navigate_old, navigate_new, navigate,
}

log_interact_event-unknown :
    (lib : Libs) (id : String) (w : Page)
    → w.org_info ≡ undefined
    → log_interact_event lib id w ≡ (throw Error.null_property, w)
unfolding log_interact_event
log_interact_event-unknown lib id w h = rw h refl

-- A call that leaves the page as it is.
abbrev Stuck : Page → Result ⊤ × Page → Type 0
Stuck w x = x.1 ≡ w

module _ (lib : Libs) (w : Page) (h : w.org_info ≡ undefined) where
  log-Stuck :
      (id : String) (k : M ⊤) → Stuck w (continue_with (λ _. k) (log_interact_event lib id w))
  log-Stuck id k =
      ap (λ x. x.1) (continue_of_throw (λ _. k) (log_interact_event-unknown lib id w h))

  navigate_old-Stuck : (kind : Kind) → Stuck w (navigate_old lib kind w)
  unfolding navigate_old
  navigate_old-Stuck google = log-Stuck (click_name google) (redirect lib (url_map google))
  navigate_old-Stuck self = log-Stuck (click_name self) (redirect lib (url_map self))
  navigate_old-Stuck state = log-Stuck (click_name state) (handle_sso_event lib)
  navigate_old-Stuck other = refl

  navigate_new-Stuck : (kind : Kind) → Stuck w (navigate_new lib kind w)
  unfolding navigate_new
  navigate_new-Stuck google = log-Stuck (click_name google) (handle_google_auth_event lib)
  navigate_new-Stuck state = log-Stuck (click_name state) (redirect_to_portal lib (url_map state))
  navigate_new-Stuck self = log-Stuck (click_name self) (redirect_to_portal lib (url_map self))
  navigate_new-Stuck other = refl

-- what `navigate` does once the version is known
abbrev pub at_version : Libs → Kind → Option String → M ⊤
at_version lib kind version =
    if is_equal version "1" || is_equal version "2"
    then navigate_old lib kind
    else if at_least_text version "3"
    then navigate_new lib kind
    else pure tt

at_version-Stuck :
    (lib : Libs) (kind : Kind) (version : Option String) (w : Page)
    → w.org_info ≡ undefined
    → Stuck w (at_version lib kind version w)
at_version-Stuck lib kind version w h =
    elim (Bool-cases (is_equal version "1" || is_equal version "2")) [
      | inl old ↦ rw old (navigate_old-Stuck lib w h kind)
      | inr later ↦ rw later (elim (Bool-cases (at_least_text version "3")) [
        | inl new ↦ rw new (navigate_new-Stuck lib w h kind)
        | inr none_of_them ↦ rw none_of_them refl
      ])
    ]

-- While the server has not answered with the organisation, a click on any way to sign in, at any
-- version, changes nothing but what `getValueFromSession` notes of the version: the page does not
-- leave, and no event is logged.
pub navigate-without_org :
    (lib : Libs) (kind : Kind) (w : Page)
    → w.org_info ≡ undefined
    → (navigate lib kind w).1 ≡ after_value lib "version" w
navigate-without_org lib kind w h =
    ap (λ x. x.1) step
    ∙ at_version-Stuck lib kind (value_of lib "version" w) (after_value lib "version" w) h
  where
    step :
        navigate lib kind w
        ≡ at_version lib kind (value_of lib "version" w) (after_value lib "version" w)
    step =
        unfold navigate in
        continue_of_ok (at_version lib kind) (get_value_from_session-eq lib "version" w)
