-- ===== src/Telemetry/Types.antt =====
-- The data of `Telemetry` and `TelemetrySyncManager` in
-- ansible/artifacts/sunbird/login/resources/js/telemetry_service.js.
use sunbird_devops.Base.{ℕ, String, Bool, false, Option, none, List, []}
use sunbird_devops.Js.Int.{ℤ, pos}
use sunbird_devops.Js.Value.{
  Value, undefined, bool, num, str, arr, obj, nil, Items, Fields, end, field,
}

-- `telemetryEnvelop`, the one object that every event is written into. `ets` is the time of the
-- event in milliseconds; before the first event it is the empty text, here 0.
pub record Envelope : Type 0 where
  pub eid : String
  pub ets : ℤ
  pub ver : Value
  pub mid : String
  pub actor : Fields
  pub context : Fields
  pub object : Fields
  pub tags : Items
  pub edata : Value

abbrev pub empty_envelope : Envelope
empty_envelope = record {
  eid = "";
  ets = pos 0;
  ver = str "";
  mid = "";
  actor = end;
  context = end;
  object = end;
  tags = nil;
  edata = str "";
}

-- `_defaultValue`
abbrev pub initial_default : Fields
initial_default = field "uid" (str "anonymous") (
    field "authtoken" (str "") (
      field "batchsize" (num (pos 20)) (
        field "host" (str "https://api.ekstep.in")
          (field "endpoint" (str "/data/v3/telemetry") (field "apislug" (str "/action") end)))))

-- `_globalContext`
abbrev pub initial_context : Fields
initial_context = field "channel" (str "in.ekstep") (
    field "pdata"
      (obj (field "id" (str "in.ekstep") (field "ver" (str "1.0") (field "pid" (str "") end))))
      (field "env" (str "contentplayer") (
        field "sid" (str "")
          (field "did" (str "") (field "cdata" (arr nil) (field "rollup" (obj end) end))))))

-- `config.dispatcher`, if there is one, or `libraryDispatcher`
pub data Dispatcher : Type 0 where
  library custom : Dispatcher

-- A request of `TelemetrySyncManager.syncEvents` that the server has not answered. Its url is the
-- first three fields joined; `authorization` is the token behind "Bearer ".
pub record Post : Type 0 where
  pub host : Value
  pub apislug : Value
  pub endpoint : Value
  pub authorization : Option Value
  pub ver : Value
  pub ets : ℕ
  pub events : List Envelope

-- The variables of `Telemetry` and `TelemetrySyncManager`. `finger_print_id` is `none` while it is
-- undefined; `start_data` has its last element first; `waiting` counts the calls of `getFingerPrint` whose callback has not run, each of
-- which holds the shared envelope; `handed` is what a custom dispatcher was given.
pub record Tele : Type 0 where
  pub initialized : Bool
  pub config : Fields
  pub finger_print_id : Option String
  pub dispatcher : Dispatcher
  pub default_value : Fields
  pub envelope : Envelope
  pub global_context : Fields
  pub global_object : Fields
  pub running_env : Value
  pub enable_validation : Value
  pub current_context : Value
  pub current_object : Value
  pub current_actor : Value
  pub current_tags : Value
  pub start_data : List Envelope
  pub waiting : ℕ
  pub queue : List Envelope
  pub posts : List Post
  pub handed : List Envelope

-- the state that the script sets up when it is loaded
abbrev pub initial_tele : Tele
initial_tele = record {
  initialized = false;
  config = end;
  finger_print_id = none;
  dispatcher = Dispatcher.library;
  default_value = initial_default;
  envelope = empty_envelope;
  global_context = initial_context;
  global_object = end;
  running_env = str "client";
  enable_validation = bool false;
  current_context = undefined;
  current_object = undefined;
  current_actor = undefined;
  current_tags = undefined;
  start_data = [];
  waiting = 0;
  queue = [];
  posts = [];
  handed = [];
}
