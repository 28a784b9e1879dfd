-- ===== src/Tests/LoginRuns.antt =====
-- Runs of login.js beside telemetry_service.js, and of longer sessions.
use sunbird_devops.Telemetry.Types.{Envelope, Post}
use sunbird_devops.Telemetry.Dispatch.{finger_print_ready}
use sunbird_devops.Js.Value.Proper.{IsProper, HasProperFields}
use sunbird_devops.Js.Value.{Value}
use sunbird_devops.Page.Events.{org_info_answer, hash_tag, do_login}
use sunbird_devops.Page.Events.Leaving.{click}
use sunbird_devops.Page.Events.Visit.{settled, Alone, visit}
use sunbird_devops.Page.Events.Posted.{page_view}
use sunbird_devops.Page.Events.FirstVisit.{first_visit}
use sunbird_devops.Page.Onload.DeadBlock.{onload_with, show_link, onload-onload_with}
use sunbird_devops.Base.{
  List, ◌++◌, ◌≤◌, String, none, some, [], ◌∷◌, ◌≡◌, refl, eq_iff, arith, ◌&&◌,
}
use sunbird_devops.Js.Value.{obj, end, field, str, num, get}
use sunbird_devops.Js.Int.{pos}
use sunbird_devops.Web.Dom.{Location}
use sunbird_devops.Web.Store.{get_item}
use sunbird_devops.State.{Page, ok}
use sunbird_devops.Page.Session.{get_value_from_session}
use sunbird_devops.Page.Session.Persistence.{open_at}
use sunbird_devops.Page.Session.History.{browse, last_given, browse-last_given, Visit}
use sunbird_devops.Page.Merge.{handle_password_failure}
use sunbird_devops.Page.Merge.Failures.{error_url}
use sunbird_devops.Page.Merge.Count.{failures, failures-count, stored_count}
use sunbird_devops.Page.Navigate.{google}
use sunbird_devops.Page.Password.{is_strong, some_char, is_special_code}
use sunbird_devops.Login.Leave.Agreement.{handlers_agree}
use sunbird_devops.Login.Navigate.Agreement.{navigate_agree}
use sunbird_devops.Login.Onload.Agreement.{onload_agree}
use sunbird_devops.Page.Elements.{hides_google}
use sunbird_devops.Js.Value.{has}
use sunbird_devops.Telemetry.Types.{empty_envelope}
use sunbird_devops.Login.Password.{has_sign_first, is_accepted}
use sunbird_devops.Login.Password.Strength.{is_strong-is_accepted}
use sunbird_devops.Telemetry.Ponyfill.{Source, object_assign}
use sunbird_devops.Telemetry.Ponyfill.Equivalence.{object_assign-assign_all, assign_all}
use sunbird_devops.Telemetry.Sync.Order.{posted}
use sunbird_devops.Telemetry.Sync.Draining.{sync_times, sync_times-drained}
use sunbird_devops.Tests.Fixture.{libs, page, address, query_get}
use sunbird_devops.Login.Leave
use sunbird_devops.Login.Navigate
use sunbird_devops.Login.Onload
use sunbird_devops.Page.Redirect
use sunbird_devops.Page.Navigate as PageNavigate
use sunbird_devops.Page.Onload as PageOnload

-- A page of the application, whose organisation is known.
abbrev ready : Page
ready =
    record (page (address "client_id=android&redirect_uri=https://app.example.org/back&version=1")
      (("session_url", "https://merge.example.org/auth?client_id=android") ∷ []) []) {
        org_info = obj end;
      }

handlers_agree_example :
    (Leave.forget_password libs "/recover" ready ≡ Redirect.forget_password libs "/recover" ready)
    × (Leave.redirect libs "/recover" ready ≡ Redirect.redirect libs "/recover" ready)
    × (Leave.handle_sso_event libs ready ≡ Redirect.handle_sso_event libs ready)
    × (Leave.handle_google_auth_event libs ready ≡ Redirect.handle_google_auth_event libs ready)
    × (Leave.redirect_to_portal libs "/recover" ready ≡ Redirect.redirect libs "/recover" ready)
handlers_agree_example = handlers_agree libs "/recover" ready

navigate_agree_example :
    (PageNavigate.navigate libs google ready).1.assigned
    ≡ (Navigate.navigate libs google ready).1.assigned
unfolding query_get
navigate_agree_example = navigate_agree libs google ready refl refl refl

abbrev refused : Page
refused = page (address "client_id=android&version=1&error_message=Session expired") [] []

onload_agree_example : PageOnload.onload libs refused ≡ Onload.onload libs refused
unfolding query_get PageOnload.string_to_html
onload_agree_example = onload_agree libs refused (unfold hides_google in refl) refl refl

is_strong-is_accepted_example :
    is_strong "Sunbird#1"
    ≡ (is_accepted "Sunbird#1" "Sunbird#1" && some_char is_special_code "Sunbird#1")
is_strong-is_accepted_example = is_strong-is_accepted "Sunbird#1" (unfold has_sign_first in refl)

abbrev visits : List Visit
visits = (address "client_id=portal&version=2", "version") ∷ (address "version=3", "client_id") ∷ []

browse-last_given_example :
    (get_item "version" (browse libs visits ready).session
      ≡ last_given libs "version" visits (get_item "version" ready.session))
    × ((get_value_from_session libs "version"
          (open_at (address "x=1") (browse libs visits ready))).0
        ≡ ok (
            last_given libs "version"
              (visits ++ (address "x=1", "version") ∷ [])
              (get_item "version" ready.session)))
browse-last_given_example =
    browse-last_given libs "version" visits (address "x=1") ready
      (λ e. ground (arith, e, eq_iff "version" "renderingType"))

abbrev pages : List Location
pages = address "a=1" ∷ address "b=2" ∷ address "c=3" ∷ []

failures-count_example :
    (get_item "passwordFailCount" (failures libs pages ready).session ≡ stored_count 3)
    × (1 ≤ 3
        → (rest : String) × ((handle_password_failure libs
              (open_at (address "d=4") (failures libs pages ready))).1.assigned
            ≡ some (error_url (open_at (address "d=4") ready) rest)))
failures-count_example = failures-count libs pages (address "d=4") ready (unfold get_item in refl)

-- A source with an inherited key.
abbrev source : Source
source = record {
  own = field "id" (str "b") (field "ver" (num (pos 2)) end);
  inherited = field "kind" (str "c") end;
}

object_assign-assign_all_example :
    object_assign (some (field "id" (str "a") end)) (some source ∷ none ∷ [])
    ≡ some (assign_all (some source ∷ none ∷ []) (field "id" (str "a") end))
object_assign-assign_all_example =
    object_assign-assign_all (some (field "id" (str "a") end)) (some source ∷ none ∷ [])
      ((unfold has in refl, (unfold has in refl, tt)), tt)

-- Three events wait, and a batch has two.
abbrev backlog : Page
backlog = record ready {
  tele = record ready.tele {
    config = field "batchsize" (num (pos 2)) end;
    queue = empty_envelope ∷ empty_envelope ∷ empty_envelope ∷ [];
  };
}

sync_times-drained_example :
    ((sync_times 2 backlog).tele.queue ≡ [])
    × (posted (sync_times 2 backlog).tele.posts ≡ posted backlog.tele.posts ++ backlog.tele.queue)
sync_times-drained_example = sync_times-drained 2 backlog 2 (unfold get in refl) (omega arith)

-- A freshly loaded page, and an organisation.
abbrev fresh : Page
fresh = page (address "client_id=portal") [] []

abbrev org : Value
org = obj (field "hashTagId" (str "b00bc992ef25f1a9a8d63291e20efc8d") end)

org-IsProper : IsProper org
unfolding IsProper HasProperFields has
org-IsProper = (refl, tt, tt)

abbrev answered : Page
answered = (org_info_answer libs (some org) fresh).1

first_visit_example :
    let u = (finger_print_ready "device" answered).1 in
    (answered.tele.posts ≡ [])
    × (answered.tele.queue ≡ [])
    × (answered.tele.waiting ≡ 1)
    × ((p : Post) × (e : Envelope) × (u.tele.posts ≡ p ∷ [])
        × (p.events ≡ e ∷ [])
        × (u.tele.queue ≡ [])
        × (e.eid ≡ "IMPRESSION")
        × (e.edata ≡ page_view libs "init" fresh)
        × (get "did" e.context ≡ str "device")
        × (get "channel" e.context ≡ hash_tag org))
first_visit_example = first_visit libs org "device" fresh refl org-IsProper (unfold IsProper in tt)

visit_example :
    let x = do_login libs (settled libs org "device" fresh) in
    (x.0 ≡ ok tt)
    × ((a : Post) × (b : Post) × (c : Post) × (x.1.tele.posts ≡ a ∷ b ∷ c ∷ [])
        × Alone a "IMPRESSION" (page_view libs "init" fresh)
        × Alone b "INTERACT" (click "login")
        × Alone c "IMPRESSION" (page_view libs "pageexit" fresh))
    × (x.1.tele.queue ≡ [])
visit_example = visit libs org "device" fresh refl org-IsProper (unfold IsProper in tt) refl refl

onload-onload_with_example :
    PageOnload.onload libs refused ≡ onload_with libs (λ version _. show_link version) refused
onload-onload_with_example = onload-onload_with libs refused
