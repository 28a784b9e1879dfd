-- ===== src/Login/Navigate/Agreement.antt =====
-- Clicks on a way to sign in, in login.js and in telemetry_service.js.
use sunbird_devops.Base.{
  String, ◌≡◌, refl, ◌∙◌, sym, ap, false, ◌||◌, Option, Bool-cases, inl, inr, arith, eq_iff,
  if◌then◌else◌, ⊤,
}
use sunbird_devops.Js.Value.{truthy}
use sunbird_devops.Web.Dom.{Location}
use sunbird_devops.Web.Libs.{Libs}
use sunbird_devops.Web.Store.{get_item}
use sunbird_devops.State.{Page, M, pure, continue_with}
use sunbird_devops.State.Laws.{continue_of_ends, continue_of_ok}
use sunbird_devops.Page.Nullable.{text_or_null, is_equal, at_least_text}
use sunbird_devops.Page.Session.{query}
use sunbird_devops.Page.Session.Persistence.{
  value_of, after_value, get_value_from_session-eq, get_value_from_session-other,
}
use sunbird_devops.Page.Events.{is_null, log_interact_event}
use sunbird_devops.Page.Events.Frame.{log_interact_event-IsCalm}
use sunbird_devops.Page.Redirect
use sunbird_devops.Page.Redirect.{is_dock, leave_to}
use sunbird_devops.Page.Redirect.Same.{leave_to-assigned}
use sunbird_devops.Page.Navigate
use sunbird_devops.Page.Navigate.{Kind, google, state, self, other, url_map, click_name}
use sunbird_devops.Page.Navigate.Waiting.{at_version}
use sunbird_devops.Login.Leave.Agreement.{handlers_agree, redirect_to_portal_agree}
use sunbird_devops.Login.Navigate.{navigate_old, navigate_new, navigate}

module _ (lib : Libs) (w : Page) (off : truthy w.tele.enable_validation ≡ false)
    (known : is_null w.org_info ≡ false) where
  -- A handler behind an interact event leaves for where it leaves without it.
  after_log :
      (id : String) (target : Location → String → Location → Option String → String)
      → (continue_with (λ _. leave_to lib target) (log_interact_event lib id w)).1.assigned
        ≡ (leave_to lib target w).1.assigned
  after_log id target =
      let c = log_interact_event-IsCalm lib id w off known in
      ap (λ x. x.1.assigned) (continue_of_ends (leave_to lib target) _ c.ends)
      ∙ leave_to-assigned lib target w _ c.same_location c.same_assigned
          (c.same_session "redirect_uri" (ground (arith, eq_iff "redirect_uri" "FP_T")))
          (c.same_session "session_url" (ground (arith, eq_iff "session_url" "FP_T")))

  old_agree :
      (kind : Kind)
      → (Navigate.navigate_old lib kind w).1.assigned ≡ (navigate_old lib kind w).1.assigned
  unfolding Navigate.navigate_old navigate_old Redirect.redirect Redirect.handle_sso_event
  old_agree google =
      after_log (click_name google) _
      ∙ sym (ap (λ x. x.1.assigned) (handlers_agree lib (url_map google) w).1)
  old_agree self =
      after_log (click_name self) _
      ∙ sym (ap (λ x. x.1.assigned) (handlers_agree lib (url_map self) w).1)
  old_agree state =
      after_log (click_name state) _ ∙ sym (ap (λ x. x.1.assigned) (handlers_agree lib "" w).2)
  old_agree other = refl

  new_agree :
      (kind : Kind)
      → is_dock lib
          (query lib "client_id" w)
          (url_map kind)
          (text_or_null (value_of lib "redirect_uri" w))
        ≡ false
      → (Navigate.navigate_new lib kind w).1.assigned ≡ (navigate_new lib kind w).1.assigned
  unfolding Navigate.navigate_new navigate_new Redirect.redirect_to_portal
      Redirect.handle_google_auth_event
  new_agree google h =
      after_log (click_name google) _ ∙ sym (ap (λ x. x.1.assigned) (handlers_agree lib "" w).3)
  new_agree state h =
      after_log (click_name state) _
      ∙ sym (ap (λ x. x.1.assigned) (redirect_to_portal_agree lib (url_map state) w h))
  new_agree self h =
      after_log (click_name self) _
      ∙ sym (ap (λ x. x.1.assigned) (redirect_to_portal_agree lib (url_map self) w h))
  new_agree other h = refl

-- what `navigate` of login.js does once the version is known
abbrev quiet_at_version : Libs → Kind → Option String → M ⊤
quiet_at_version lib kind version =
    if is_equal version "1" || is_equal version "2"
    then navigate_old lib kind
    else if at_least_text version "3"
    then navigate_new lib kind
    else pure tt

at_version_agree :
    (lib : Libs) (kind : Kind) (version : Option String) (w : Page)
    → truthy w.tele.enable_validation ≡ false
    → is_null w.org_info ≡ false
    → is_dock lib
        (query lib "client_id" w)
        (url_map kind)
        (text_or_null (value_of lib "redirect_uri" w))
      ≡ false
    → (at_version lib kind version w).1.assigned ≡ (quiet_at_version lib kind version w).1.assigned
at_version_agree lib kind version w off known h =
    elim (Bool-cases (is_equal version "1" || is_equal version "2")) [
      | inl old ↦ rw old (old_agree lib w off known kind)
      | inr later ↦ rw later (elim (Bool-cases (at_least_text version "3")) [
        | inl new ↦ rw new (new_agree lib w off known kind h)
        | inr none_of_them ↦ rw none_of_them refl
      ])
    ]

-- If nothing is validated, the organisation is known, and it is not the state sign-in of a dock
-- application, then a click on a way to sign in leaves for the same address in both scripts,
-- whatever the version is: the event that telemetry_service.js logs first changes nothing of it.
pub navigate_agree :
    (lib : Libs) (kind : Kind) (w : Page)
    → truthy w.tele.enable_validation ≡ false
    → is_null w.org_info ≡ false
    → is_dock lib
        (query lib "client_id" w)
        (url_map kind)
        (text_or_null (value_of lib "redirect_uri" w))
      ≡ false
    → (Navigate.navigate lib kind w).1.assigned ≡ (navigate lib kind w).1.assigned
unfolding Navigate.navigate navigate
navigate_agree lib kind w off known h =
    let version = value_of lib "version" w in
    let v = after_value lib "version" w in
    let read = get_value_from_session-eq lib "version" w in
    let same_uri : get_item "redirect_uri" v.session ≡ get_item "redirect_uri" w.session =
      get_value_from_session-other lib "version" "redirect_uri" w
        (ground (arith, eq_iff "version" "redirect_uri"))
        (ground (arith, eq_iff "redirect_uri" "renderingType")) in
    ap (λ x. x.1.assigned) (continue_of_ok (at_version lib kind) read)
    ∙ at_version_agree lib kind version v off known (rw same_uri h)
    ∙ sym (ap (λ x. x.1.assigned) (continue_of_ok (quiet_at_version lib kind) read))
