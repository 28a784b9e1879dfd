-- ===== src/Page/Events.antt =====
-- The page's own telemetry in telemetry_service.js: `getOrgInfo`, `getAnonymousUserConfig`,
-- `initTelemetryService`, `logLoginImpressionEvent`, `logInteractEvent`, `getRollupData`,
-- `doLogin`, `clearSession`, `OnLoad`, `storeForgotPasswordLocation`, `createTelemetryEvent` and
-- `makeDivUnclickable`. `preventDefault` and the console are not modelled.
pub mod Posted
pub mod Frame
pub mod FirstVisit
pub mod Leaving
pub mod Visit
pub mod Rollup
use Prim.Native.String
use sunbird_devops.Base.{
  ℕ, suc, String, Bool, true, false, Option, none, some, List, [], ◌∷◌, ◌++◌, if◌then◌else◌, ⊤,
}
use sunbird_devops.Js.Int.{pos}
use sunbird_devops.Js.Value.{
  Value, undefined, null, num, str, bool, arr, obj, nil, cons, Fields, end, field, and_then,
  or_else, get, put, fields,
}
use sunbird_devops.Js.Text.{decimal}
use sunbird_devops.Web.Libs.{Libs}
use sunbird_devops.Web.Store.{get_item}
use sunbird_devops.State.{
  Page, Request, Timer, submit_login, go_to, Error, M, ok, raise, modify, on_tele, ◌>>◌,
}
use sunbird_devops.Telemetry.Types.{Tele}
use sunbird_devops.Telemetry.Api
use sunbird_devops.Page.Elements.{require_element}
use sunbird_devops.Page.Session.{store_location}

-- `'l' + (index + 1)`
abbrev pub level_key : ℕ → String
level_key i = Prim.Native.String.◌++◌ "l" (decimal (suc i))

-- `orgIds.forEach`, at an index
unfoldable rollup_from : ℕ → List Value → Fields → Fields
rollup_from i [] rollup = rollup
rollup_from i (id ∷ ids) rollup = rollup_from (suc i) ids (put (level_key i) id rollup)

-- `getRollupData`
unfoldable pub get_rollup_data : List Value → Fields
unfolding rollup_from
get_rollup_data ids = rollup_from 0 ids end

-- `orgInfo && orgInfo.hashTagId`
abbrev pub hash_tag : Value → Value
hash_tag org = and_then org (get "hashTagId" (fields org))

-- `orgInfo && orgInfo.hashTagId && getRollupData([orgInfo.hashTagId])`, and the list itself
abbrev rollup_of : Value → Value
rollup_of org = and_then (hash_tag org) (obj (get_rollup_data (hash_tag org ∷ [])))

abbrev tags_of : Value → Value
tags_of org = and_then (hash_tag org) (arr (cons (hash_tag org) nil))

-- the options of both kinds of event
unfoldable pub event_options : Value → Value → Value
unfolding get_rollup_data
event_options channel org = obj (
    field "context"
      (obj (
        field "env" (str "public") (
          field "channel" channel (
            field "uid" (str "anonymous")
              (field "cdata" (arr nil) (field "rollup" (rollup_of org) end))))))
      (field "object" (obj end) (field "tags" (tags_of org) end)))

abbrev batch_of_one : Tele → Tele
batch_of_one t = record t { config = put "batchsize" (num (pos 1)) t.config }

-- A read of `orgInfo.hashTagId` with no test before it.
abbrev pub is_null : Value → Bool
is_null undefined = true
is_null null = true
is_null _ = false

abbrev add_timer : Timer → M ⊤
add_timer timer = modify (λ w. record w { timers = w.timers ++ timer ∷ [] })

-- `$.ajax`
abbrev request : Request → M ⊤
request r = modify (λ w. record w { requests = w.requests ++ r ∷ [] })

-- `clearSession`
unfoldable pub clear_session : M ⊤
clear_session w =
    request
      (record {
        method = "GET";
        url = Prim.Native.String.◌++◌ w.host_url "/logoff";
        body = undefined;
      })
      w

-- `getOrgInfo`, up to the answer
unfoldable pub get_org_info : Value → M ⊤
get_org_info id w =
    request
      (record {
        method = "POST";
        url = Prim.Native.String.◌++◌ w.host_url "/api/org/v2/search";
        body = obj (
            field "request"
              (obj (
                field "filters"
                  (obj (field "isTenant" (bool true) (field "slug" (or_else id (str "ntp")) end)))
                  end))
              end);
      })
      w

-- `window.__landing_page_config.telemetry.pdata`
abbrev landing_pdata : Value → Value
landing_pdata id =
    obj (field "id" id (field "ver" (str "5.2.0") (field "pid" (str "sunbird-portal") end)))

module _ (lib : Libs) where
  -- `getAnonymousUserConfig`
  unfoldable pub get_anonymous_user_config : Page → Value
  get_anonymous_user_config w = obj (
      field "pdata" (landing_pdata w.pdata_id) (
        field "endpoint" (str "/data/v1/telemetry") (
          field "apislug" (str "/content") (
            field "host" (str w.host_url) (
              field "uid" (str "anonymous") (
                field "sid" (str (lib.uuid w.now))
                  (field "channel" (hash_tag w.org_info) (field "env" (str "public") end))))))))

  -- `initTelemetryService`
  unfoldable pub init_telemetry_service : M ⊤
  unfolding get_anonymous_user_config
  init_telemetry_service w = Api.initialize (get_anonymous_user_config w) w

  -- `logLoginImpressionEvent`
  unfoldable pub log_login_impression_event : String → M ⊤
  unfolding event_options
  log_login_impression_event impression_type w =
      let edata = obj (
        field "type" (str "view") (
          field "pageid" (str "login") (
            field "subtype" (str impression_type) (
              field "uri" (str (lib.encode_uri w.location.href))
                (field "visits" (arr nil) end))))) in
      (do
        modify (on_tele batch_of_one)
        Api.impression lib edata (event_options (hash_tag w.org_info) w.org_info))
        w

  -- `logInteractEvent`
  unfoldable pub log_interact_event : String → M ⊤
  unfolding event_options
  log_interact_event interactid w =
      let edata = obj (
        field "id" (str interactid)
          (field "type" (str "click") (field "pageid" (str "login") end))) in
      let options = event_options (get "hashTagId" (fields w.org_info)) w.org_info in
      if is_null w.org_info then raise Error.null_property w else Api.interact lib edata options w

  -- An interact event, and the impression event of leaving the page.
  unfoldable leave : String → M ⊤
  unfolding log_interact_event log_login_impression_event
  leave interactid = do log_interact_event interactid; log_login_impression_event "pageexit"

  -- `doLogin`, and the click handler of `.loginButton`, whose statements are the same
  unfoldable pub do_login : M ⊤
  unfolding leave
  do_login = do leave "login"; add_timer submit_login

  -- `storeForgotPasswordLocation`, with the link's target
  unfoldable pub store_forgot_password_location : String → M ⊤
  unfolding leave store_location
  store_forgot_password_location target = do
    store_location
    leave "forgot-password"
    add_timer (go_to target)

  -- `createTelemetryEvent`
  unfoldable pub create_telemetry_event : M ⊤
  unfolding leave
  create_telemetry_event = leave "forgot-password"

  -- `if (form !== null) { … }`
  leave_form : String → String → M ⊤
  unfolding leave
  leave_form id interactid w = elim (get_item id w.doc) [
    | none ↦ (ok tt, w)
    | some _ ↦ leave interactid w
  ]

  -- `makeDivUnclickable`. Both elements are looked up before the first is written to; if
  -- `kc-form-wrapper` is missing nothing is written.
  unfoldable pub make_div_unclickable : M ⊤
  unfolding leave_form
  make_div_unclickable = do
    leave_form "kc-reset-password-form" "reset-password-submit"
    leave_form "kc-passwd-update-form" "reset-password-update"
    leave_form "kc-totp-login-form" "otp-submit"
    require_element "kc-form-wrapper" (λ e. record e { display = "block" })
    require_element "kc-form" (λ e. record e { class_name = "unClickable" })

  -- `OnLoad`, up to the answer of the server
  unfoldable pub on_load : M ⊤
  unfolding get_org_info
  on_load w =
      let slug = elim (get_item "tenantSlug" w.session) as (λ _. Value) [
        | none ↦ w.tenant_slug
        | some s ↦ or_else (str s) w.tenant_slug
      ] in
      get_org_info slug w

  -- The two `done` callbacks of the request of `getOrgInfo`; `org` is the first element of
  -- `response.result.response.content` if the response code is "OK".
  unfoldable pub org_info_answer : Option Value → M ⊤
  unfolding init_telemetry_service log_login_impression_event
  org_info_answer org = do
    modify (λ w. elim org [ none ↦ w | some v ↦ record w { org_info = v } ])
    init_telemetry_service
    log_login_impression_event "init"
