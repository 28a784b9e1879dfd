-- ===== src/Telemetry/Event.antt =====
-- The configuration of `Telemetry` and the building of an event: `instance.init`,
-- `updateConfigurations`, `updateValues`, `getUpdatedValue` and `getEvent` of telemetry_service.js.
-- The objects of a configuration and of the options are copied: that the caller could change them
-- afterwards is not modelled.
pub mod Laws
pub mod Globals
use sunbird_devops.Base.{ℕ, String, true, none, some, if◌then◌else◌}
use sunbird_devops.Js.Int.{ℤ, pos, geb_ℤ, ◌+ℤ◌, thousand}
use sunbird_devops.Js.Thousandths.{times_thousand}
use sunbird_devops.Js.Value.{
  Value, num, str, arr, obj, nil, Items, Fields, end, field, truthy, or_else, is_defined, number,
  get, put, assign, assign_items, fields, items,
}
use sunbird_devops.Telemetry.Types.{Envelope, Tele, Dispatcher}
use sunbird_devops.Telemetry.Sync.{version}

-- `config.k && (target = config.k)`
abbrev set_if : Value → Value → Value
set_if given old = if truthy given then given else old

-- `config.k && (target.k = config.k)`
abbrev pub put_if : String → Fields → Fields → Fields
put_if k config target =
    let given = get k config in if truthy given then put k given target else target

-- `updateConfigurations`
unfoldable pub update_configurations : Fields → Tele → Tele
update_configurations config t = record t {
  global_object =
      let given = get "object" config in if truthy given then fields given else t.global_object;
  global_context = put_if "pdata" config (
      put_if "cdata" config (
        put_if "did" config (
          put_if "sid" config (
            put_if "rollup" config
              (put_if "env" config (put_if "channel" config t.global_context))))));
}

-- `config.batchsize ? (config.batchsize > 1000 ? 1000 : config.batchsize) : _defaultValue.batchsize`
unfoldable pub batch_size : Value → Value → Value
batch_size given default =
    let most = λ (n : ℤ). if geb_ℤ (pos 1000) n then given else num (pos 1000) in
    if truthy given then elim (number given) [ some n ↦ most n | none ↦ given ] else default

-- `contentId && (telemetryInstance._globalObject.id = contentId)`, and so for `contentVer`
abbrev pub with_content : Value → Value → Fields → Fields
with_content id ver object =
    let named = if truthy id then put "id" id object else object in
    if truthy ver then put "ver" ver named else named

-- `instance.init`
unfoldable pub init : Value → Value → Value → Tele → Tele
unfolding update_configurations batch_size
init config id ver t =
    let given =
      put "batchsize"
        (batch_size (get "batchsize" (fields config)) (get "batchsize" t.default_value))
        (fields config) in
    let merged = assign t.default_value given in
    if t.initialized
    then t
    else update_configurations given (record t {
      global_object = with_content id ver t.global_object;
      running_env = set_if (get "runningEnv" given) t.running_env;
      enable_validation =
          let asked = get "enableValidation" given in
          if is_defined asked then asked else t.enable_validation;
      default_value = merged;
      config = merged;
      initialized = true;
      dispatcher =
          if truthy (get "dispatcher" merged) then Dispatcher.custom else Dispatcher.library;
    })

-- `updateValues`
unfoldable pub update_values : Value → Tele → Tele
update_values options t =
    let o = fields options in
    if truthy options
    then record t {
      current_context = set_if (get "context" o) t.current_context;
      current_object = set_if (get "object" o) t.current_object;
      current_actor = set_if (get "actor" o) t.current_actor;
      current_tags = set_if (get "tags" o) t.current_tags;
      running_env = set_if (get "runningEnv" o) t.running_env;
    }
    else t

-- `getUpdatedValue`, one case of its `switch` each
unfoldable pub updated_context : Tele → Fields
updated_context t = fields (or_else t.current_context (obj end))

unfoldable pub updated_object : Tele → Fields
updated_object t = fields (or_else t.current_object (obj end))

unfoldable pub updated_actor : Tele → Fields
updated_actor t = fields (or_else t.current_actor (obj end))

unfoldable pub updated_tags : Tele → Items
updated_tags t = items (or_else t.current_tags (arr nil))

-- `(Telemetry.config.timeDiff*1000) || 0`
unfoldable pub time_shift : Fields → ℤ
unfolding times_thousand
time_shift config = elim (times_thousand (get "timeDiff" config)) [ some n ↦ n | none ↦ pos 0 ]

-- `getEvent` at a time
unfoldable pub get_event : ℕ → String → Value → Tele → Envelope
unfolding updated_context updated_object updated_actor updated_tags time_shift
get_event now eid edata t = record {
  eid = eid;
  ets = pos now +ℤ time_shift t.config;
  ver = str version;
  mid = "";
  actor =
      assign
        (field "id" (or_else (get "uid" t.config) (str "anonymous"))
          (field "type" (str "User") end))
        (updated_actor t);
  context = assign (assign end t.global_context) (updated_context t);
  object = assign (assign end t.global_object) (updated_object t);
  tags = assign_items (assign_items nil (items (get "tags" t.config))) (updated_tags t);
  edata = edata;
}
