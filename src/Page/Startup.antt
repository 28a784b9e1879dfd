-- ===== src/Page/Startup.antt =====
-- What telemetry_service.js runs at its top level: the choice of `pdataId` and `tenantSlug`, the
-- look at `client_id`, `hostURL`, and the calls of `OnLoad` and `initialize`.
pub mod Host
pub mod Failure
pub mod Asking
use Prim.Native.String.{◌++◌}
use sunbird_devops.Base.{◌+◌, String, not, ◌&&◌, ◌||◌, none, some, ◌==◌, ltb, if◌then◌else◌, ⊤}
use sunbird_devops.Js.Text.{includes, index_of, slice_from, to_lower}
use sunbird_devops.Js.Value.{Value, undefined, null, str, truthy, get, fields}
use sunbird_devops.Web.Dom.{Location}
use sunbird_devops.Web.Libs.{Libs}
use sunbird_devops.State.{Page, Error, M, ok, raise, pure, modify, or_raise, when, ◌>>=◌, ◌>>◌}
use sunbird_devops.Page.Session.{query, initialize}
use sunbird_devops.Page.Events.{on_load}

-- The ladder on `window.location.origin`: `pdataId`, and whether `tenantSlug` is set.
unfoldable pub pdata_of_origin : String → String
unfolding includes
pdata_of_origin origin =
    if includes "diksha.gov.in" origin
    then "prod.diksha.portal"
    else if includes "staging.ntp.net.in" origin
    then "staging.diksha.portal"
    else if includes "staging.sunbirded.org" origin
    then "staging.diksha.portal"
    else if includes "dev.sunbirded.org" origin
    then "dev.sunbird.portal"
    else "preprod.diksha.portal"

unfoldable pub slug_of_origin : String → Value
unfolding includes
slug_of_origin origin =
    let other =
      includes "diksha.gov.in" origin
      || includes "staging.ntp.net.in" origin
      || includes "staging.sunbirded.org" origin in
    if not other && includes "dev.sunbirded.org" origin then str "sunbird" else undefined

-- `hostURL`: an origin behind "merge." is cut to what follows it, if "merge." does not stand first.
unfoldable pub host_of_location : Location → String
unfolding index_of slice_from
host_of_location url = elim (index_of "merge." url.origin) [
  | none ↦ url.origin
  | some i ↦ if ltb 0 i then url.protocol ++ ("//" ++ slice_from (i + 6) url.origin) else url.origin
]

module _ (lib : Libs) where
  -- `if (pdata && pdata['id']) pdataId = pdata['id']`
  abbrev pub use_pdata : Value → M ⊤
  use_pdata pdata =
      let id = get "id" (fields pdata) in
      when (truthy pdata && truthy id) (modify (λ w. record w { pdata_id = id }))

  -- `JSON.parse(…get('pdata'))`: null is parsed as the text "null".
  unfoldable pub read_pdata : M Value
  read_pdata w = elim (query lib "pdata" w) [
    | none ↦ (ok null, w)
    | some s ↦ or_raise (lib.json_parse s) Error.invalid_json w
  ]

  -- `if (client_id.toLowerCase() === 'android') { … }`
  unfoldable pub look_at_client : M ⊤
  unfolding read_pdata to_lower
  look_at_client w = elim (query lib "client_id" w) [
    | none ↦ raise Error.null_property w
    | some client ↦ when (to_lower client == "android") (do pdata ← read_pdata; use_pdata pdata) w
  ]

  abbrev choose_pdata : Page → Page
  choose_pdata w = record w {
    pdata_id = str (pdata_of_origin w.location.origin);
    tenant_slug = slug_of_origin w.location.origin;
  }

  -- The top level, from the choice of `pdataId` down. The functions and handlers that are assigned
  -- below a statement that throws are not there afterwards.
  unfoldable pub start_up : M ⊤
  unfolding pdata_of_origin slug_of_origin host_of_location look_at_client on_load initialize
  start_up = do
    modify choose_pdata
    look_at_client
    modify (λ w. record w { host_url = host_of_location w.location })
    on_load lib
    initialize lib
