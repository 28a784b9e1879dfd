-- ===== src/Tests/FlowRuns.antt =====
-- Runs across several calls: pages that are opened one after the other, and a start with its end.
use sunbird_devops.Base.{arith, eq_iff, ◌≡◌, refl, some, [], ◌∷◌}
use sunbird_devops.Js.Int.{pos}
use sunbird_devops.Js.Text.{to_lower}
use sunbird_devops.Js.Value.{undefined, num, field, end}
use sunbird_devops.Web.Store.{get_item}
use sunbird_devops.State.{Page, Request, Error, throw, ok, on_tele}
use sunbird_devops.Telemetry.Client.{detect_client}
use sunbird_devops.Telemetry.Client.Version.{Lacks, detect_client-Lacks}
use sunbird_devops.Telemetry.Api.{start, end_event}
use sunbird_devops.Page.Startup.{start_up}
use sunbird_devops.Js.Text.{strip_prefix}
use sunbird_devops.Page.Startup.Asking.{start_up-asks}
use sunbird_devops.Page.Startup.Failure.{start_up-no_client}
use sunbird_devops.Page.Session.{get_value_from_session, keep}
use sunbird_devops.Page.Session.Persistence.{open_at, after_value}
use sunbird_devops.Page.Session.Missing.{keep-null}
use sunbird_devops.Page.Navigate.{google, navigate}
use sunbird_devops.Page.Navigate.Waiting.{navigate-without_org}
use sunbird_devops.Page.Navigate.Versions.{navigate-long_version}
use sunbird_devops.Tests.Fixture.{libs, page, address, query_get}

detect_client-Lacks_example :
    Lacks b';' (detect_client "Netscape" "5" "Opera 9.80 (X11; Linux)" "Linux").browserver
    × Lacks b' ' (detect_client "Netscape" "5" "Opera 9.80 (X11; Linux)" "Linux").browserver
detect_client-Lacks_example = detect_client-Lacks "Netscape" "5" "Opera 9.80 (X11; Linux)" "Linux"

abbrev nameless : Page
nameless = page (address "version=3") [] []

start_up-no_client_example :
    ((start_up libs nameless).0 ≡ throw Error.null_property)
    × ((start_up libs nameless).1.requests ≡ [])
    × ((start_up libs nameless).1.session ≡ [])
unfolding query_get
start_up-no_client_example = start_up-no_client libs nameless refl

keep-null_example :
    (get_value_from_session libs "goBackUrl"
      (open_at (address "client_id=portal") (keep libs "goBackUrl" nameless).1)).0
    ≡ ok (some "null")
unfolding query_get
keep-null_example =
    keep-null libs "goBackUrl" (address "client_id=portal") nameless refl (unfold get_item in refl)
      refl

navigate-without_org_example :
    (navigate libs google nameless).1 ≡ after_value libs "version" nameless
navigate-without_org_example = navigate-without_org libs google nameless refl

-- A client whose clock is one minute behind the server's.
abbrev shifted : Page
shifted = on_tele (λ t. record t { config = field "timeDiff" (num (pos 60)) end }) nameless

abbrev begun : Page
begun = (start libs undefined undefined undefined end undefined shifted).1

-- A second start with its end, and five seconds.
abbrev inner : Page
inner =
    (end_event libs end undefined
      (start libs undefined undefined undefined end undefined begun).1).1

abbrev five_later : Page
five_later = record inner { now = 1700000005000 }

-- An Android client on the site for merges.
abbrev android : Page
android =
    page (record (address "client_id=Android&version=3") { origin = "https://merge.example.org" })
      [] []

start_up-asks_example :
    ((start_up libs android).0 ≡ ok tt)
    × ((r : Request) × ((start_up libs android).1.requests ≡ r ∷ [])
        × (r.method ≡ "POST")
        × (r.url ≡ "https://example.org/api/org/v2/search"))
    × (get_item "session_url" (start_up libs android).1.session ≡ some android.location.href)
unfolding query_get to_lower get_item strip_prefix
start_up-asks_example = start_up-asks libs "Android" android refl refl

abbrev tenth : Page
tenth = page (address "client_id=portal&version=10") [] []

navigate-long_version_example :
    navigate libs google tenth ≡ (ok tt, after_value libs "version" tenth)
unfolding query_get
navigate-long_version_example =
    navigate-long_version libs google "1" "0" tenth refl (omega arith)
      (λ e. ground (arith, e, eq_iff "10" "1")) (λ e. ground (arith, e, eq_iff "10" "2"))
