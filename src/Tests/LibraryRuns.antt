-- ===== src/Tests/LibraryRuns.antt =====
-- Runs of the telemetry library and of single handlers of the page.
use Prim.Native.String.{◌++◌}
use sunbird_devops.Base.{◌<◌, List, some, ◌≡◌, refl, [], ◌∷◌, ◌+◌, arith, eq_iff}
use sunbird_devops.Js.Text.{strip_prefix, split_from, has_text}
use sunbird_devops.Js.Value.{Value, undefined, obj, str, end, get, assign}
use sunbird_devops.Web.Store.{get_item}
use sunbird_devops.Web.Dom.{Element}
use sunbird_devops.State.{Page}
use sunbird_devops.Telemetry.Dispatch.{dispatch, is_valid, route, finger_print_ready}
use sunbird_devops.Telemetry.Api.Calls.{logged, synced, run}
use sunbird_devops.Telemetry.Event.{update_values, get_event}
use sunbird_devops.Telemetry.Api.{prepare, log_event}
use sunbird_devops.Telemetry.Accounting.{load}
use sunbird_devops.Telemetry.Accounting.Methods.{admitted}
use sunbird_devops.Telemetry.Accounting.Runs.{
  Books, here, next, called, finger_print, Entries-AreBalanced,
}
use sunbird_devops.Page.Events.{level_key, get_rollup_data}
use sunbird_devops.Page.Events.Rollup.{get_rollup_data-level}
use sunbird_devops.Page.Elements.{view_password}
use sunbird_devops.Page.Elements.Preview.{view_password-view_password}
use sunbird_devops.Tests.Fixture.{libs, page, address, element}

-- An event is logged and waits for the fingerprint, then it is queued and posted.
abbrev fresh : Page
fresh = page (address "client_id=portal") [] []

abbrev logged_once : Books
logged_once = record {
  page = (run libs (logged "LOG" (obj end) undefined) fresh).1;
  logged = admitted libs (logged "LOG" (obj end) undefined) fresh + 0;
  delivered = 0;
}

abbrev named : Books
named = record logged_once { page = (finger_print_ready "device" logged_once.page).1 }

abbrev posted : Books
posted = record named {
  page = (run libs synced named.page).1;
  logged = admitted libs synced named.page + named.logged;
}

waits : 0 < logged_once.page.tele.waiting
unfolding log_event prepare update_values get_event dispatch is_valid route get assign
waits = omega arith

Entries-AreBalanced_example : posted.logged ≡ load posted.page.tele + posted.delivered
Entries-AreBalanced_example = Entries-AreBalanced libs fresh posted refl (
    next
      (next (next here (called (logged "LOG" (obj end) undefined) refl))
        (finger_print "device" waits refl))
      (called synced refl))

abbrev ids : List Value
ids = str "root" ∷ str "state" ∷ str "district" ∷ []

get_rollup_data-level_example : get (level_key 2) (get_rollup_data ids) ≡ str "district"
get_rollup_data-level_example = get_rollup_data-level ids 2

abbrev field : Element
field = record (element "") { kind = "password" }

abbrev previewing : Page
previewing = page (address "") [] (("password-new", field) ∷ ("eye", element "icon") ∷ [])

view_password-view_password_example :
    let v = (view_password "eye" previewing).1 in
    let u = (view_password "eye" v).1 in
    (get_item "password-new" v.doc ≡ some (record field { kind = "text" }))
    × (get_item "eye" v.doc ≡ some (element ("icon" ++ " slash")))
    × (get_item "password-new" u.doc ≡ some field)
    × (get_item "eye" u.doc ≡ some (element ("icon" ++ " ")))
view_password-view_password_example =
    view_password-view_password "eye" previewing field (element "icon") (unfold get_item in refl)
      (unfold get_item in refl) (λ e. ground (arith, e, eq_iff "password-new" "eye")) refl
      (unfold split_from has_text in refl)
      (unfold strip_prefix in (refl, (refl, (refl, (refl, tt)))))
