-- ===== src/Telemetry/Api.antt =====
-- The methods of `Telemetry` in telemetry_service.js, one for each kind of event. `data` is the
-- event's data and `options` may carry `context`, `object`, `actor`, `tags` and `runningEnv`. The
-- data of `start`, `feedback` and `end` is an object, since they read and write its fields.
pub mod Calls
pub mod LateFingerprint
pub mod Duration
pub mod Nesting
use sunbird_devops.Base.{String, Bool, not, ◌&&◌, List, [], ◌∷◌, if◌then◌else◌, ⊤}
use sunbird_devops.Js.Int.{pos, ◌-ℤ◌}
use sunbird_devops.Js.Value.{
  Value, undefined, thousandths, str, arr, nil, obj, Fields, end, field, truthy, or_else, get, put,
  fields,
}
use sunbird_devops.Web.Libs.{Libs}
use sunbird_devops.State.{M, ok, modify, on_tele, ◌>>◌}
use sunbird_devops.Telemetry.Types.{Envelope, Tele}
use sunbird_devops.Telemetry.Event.{init, update_values, get_event}
use sunbird_devops.Telemetry.Sync.{sync_events}
use sunbird_devops.Telemetry.Dispatch.{dispatch}

-- `initialize`
unfoldable pub initialize : Value → M ⊤
initialize config = modify (on_tele (init config undefined undefined))

-- `instance.updateValues(options); instance.getEvent(eid, data)`: the event is in the envelope.
unfoldable pub prepare : String → Value → Value → M ⊤
prepare eid edata options w =
    modify
      (on_tele (λ t.
        let t' = update_values options t in record t' { envelope = get_event w.now eid edata t' }))
      w

-- `startData.push(JSON.parse(JSON.stringify(startEventObj)))`
abbrev pub push_start : Tele → Tele
push_start t = record t { start_data = t.envelope ∷ t.start_data }

-- `if (options && options.eventVer) assessEvent.ver = options.eventVer`
abbrev pub with_version : Value → Tele → Tele
with_version options t =
    let given = get "eventVer" (fields options) in
    if truthy options && truthy given
    then record t { envelope = record t.envelope { ver = given } }
    else t

-- the content that `start` is called for
abbrev pub with_start_content : Value → Value → Tele → Tele
with_start_content id ver t =
    if truthy id && truthy ver
    then record t { global_object = put "ver" ver (put "id" id t.global_object) }
    else t

-- `if (!Telemetry.initialized && config) instance.init(config, contentId, contentVer)`
abbrev pub start_init : Value → Value → Value → Tele → Tele
start_init config id ver t = if not t.initialized && truthy config then init config id ver t else t

-- `resetContext`, `resetObject`, `resetActor` and `resetTags`
unfoldable pub reset_context : Value → M ⊤
reset_context v = modify (on_tele (λ t. record t { current_context = or_else v (obj end) }))

unfoldable pub reset_object : Value → M ⊤
reset_object v = modify (on_tele (λ t. record t { current_object = or_else v (obj end) }))

unfoldable pub reset_actor : Value → M ⊤
reset_actor v = modify (on_tele (λ t. record t { current_actor = or_else v (obj end) }))

unfoldable pub reset_tags : Value → M ⊤
reset_tags v = modify (on_tele (λ t. record t { current_tags = or_else v (arr nil) }))

-- `syncEvents`
unfoldable pub sync_now : M ⊤
unfolding sync_events
sync_now = sync_events

-- `isInitialized`
unfoldable pub is_initialized : Tele → Bool
is_initialized t = t.initialized

module _ (lib : Libs) where
  unfoldable pub log_event : String → Value → Value → M ⊤
  log_event eid edata options = do prepare eid edata options; dispatch lib

  -- `start`
  unfoldable pub start : Value → Value → Value → Fields → Value → M ⊤
  start config id ver given options w =
      let duration = or_else (get "duration" given) (thousandths (pos w.now)) in
      (do
        modify (on_tele (λ t. start_init config id ver (with_start_content id ver t)))
        prepare "START" (obj (put "duration" duration given)) options
        dispatch lib
        modify (on_tele push_start))
        w

  -- The `end` of the last `start` that has none: its start event's data is taken off the stack.
  unfoldable pub end_of : Envelope → List Envelope → Fields → Value → M ⊤
  end_of begun others given options w =
      let duration = thousandths (pos w.now -ℤ begun.ets) in
      (do
        modify (on_tele (λ t. record t { start_data = others }))
        log_event "END" (obj (put "duration" duration given)) options)
        w

  -- `end`
  unfoldable pub end_event : Fields → Value → M ⊤
  unfolding end_of
  end_event given options w = elim w.tele.start_data [
    | [] ↦ (ok tt, w)
    | begun ∷ others ↦ end_of begun others given options w
  ]

  -- `assess`
  unfoldable pub assess : Value → Value → M ⊤
  assess edata options = do
    prepare "ASSESS" edata options
    modify (on_tele (with_version options))
    dispatch lib

  -- `feedback`
  unfoldable pub feedback : Fields → Value → M ⊤
  feedback given options =
      log_event "FEEDBACK"
        (obj (
          field "rating" (get "rating" given)
            (field "comments" (or_else (get "comments" given) (str "")) end)))
        options

  unfoldable pub impression : Value → Value → M ⊤
  impression edata options = log_event "IMPRESSION" edata options

  unfoldable pub interact : Value → Value → M ⊤
  interact edata options = log_event "INTERACT" edata options

  unfoldable pub response : Value → Value → M ⊤
  response edata options = log_event "RESPONSE" edata options

  unfoldable pub interrupt : Value → Value → M ⊤
  interrupt edata options = log_event "INTERRUPT" edata options

  unfoldable pub share : Value → Value → M ⊤
  share edata options = log_event "SHARE" edata options

  unfoldable pub audit : Value → Value → M ⊤
  audit edata options = log_event "AUDIT" edata options

  unfoldable pub error : Value → Value → M ⊤
  error edata options = log_event "ERROR" edata options

  unfoldable pub heartbeat : Value → Value → M ⊤
  heartbeat edata options = log_event "HEARTBEAT" edata options

  unfoldable pub log : Value → Value → M ⊤
  log edata options = log_event "LOG" edata options

  unfoldable pub search : Value → Value → M ⊤
  search edata options = log_event "SEARCH" edata options

  unfoldable pub metrics : Value → Value → M ⊤
  metrics edata options = log_event "METRICS" edata options

  unfoldable pub exdata : Value → Value → M ⊤
  exdata edata options = log_event "EXDATA" edata options

  unfoldable pub summary : Value → Value → M ⊤
  summary edata options = log_event "SUMMARY" edata options
