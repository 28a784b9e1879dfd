-- ===== src/Telemetry/Dispatch.antt =====
-- `instance._dispatch` of telemetry_service.js: the event in the shared envelope is given an id,
-- is validated and is handed to the dispatcher, at once or when the device's fingerprint is there.
pub mod Kept
pub mod Frame
use sunbird_devops.Base.{
  ◌+◌, ◌-◌, String, Bool, true, false, not, ◌||◌, Option, none, some, [], ◌∷◌, ◌++◌, ◌==◌,
  if◌then◌else◌, ⊤,
}
use Prim.Native.String
use sunbird_devops.Js.Text.{to_lower}
use sunbird_devops.Js.Value.{Value, str, truthy, get, put}
use sunbird_devops.Web.Libs.{Libs}
use sunbird_devops.State.{Error, ok, M, modify, on_tele, or_raise, when, ◌>>=◌, ◌>>◌}
use sunbird_devops.Telemetry.Types.{Envelope, Dispatcher}
use sunbird_devops.Telemetry.Sync.{send_telemetry}

-- `v === t`, for a text `t`
abbrev pub is_text : String → Value → Bool
is_text t (str s) = s == t
is_text t _ = false

-- `getActorId`
unfoldable pub get_actor_id : Value → Value → Value
get_actor_id actor_id device_id =
    if not (truthy actor_id) || is_text "anonymous" actor_id then device_id else actor_id

-- The two assignments before `dispatcher.dispatch(message)`, to `context.did` and to `actor.id`.
unfoldable pub identify : Value → Envelope → Envelope
unfolding get_actor_id
identify did e = record e {
  context = put "did" did e.context;
  actor = put "id" (get_actor_id (get "id" e.actor) did) e.actor;
}

-- `dispatcher.dispatch(message)`: the library's dispatcher fires `TelemetryEvent`, and its one
-- listener runs before the call returns.
unfoldable pub hand_by : Dispatcher → Envelope → M ⊤
hand_by Dispatcher.library e = send_telemetry e
hand_by Dispatcher.custom e = modify (on_tele (λ t. record t { handed = t.handed ++ e ∷ [] }))

unfoldable pub hand_over : Envelope → M ⊤
hand_over e w = hand_by w.tele.dispatcher e w

-- `message` is the shared envelope, so what is written to it stays in the state.
abbrev write_message : Envelope → M ⊤
write_message e = modify (on_tele (λ t. record t { envelope = e }))

abbrev send_message : M ⊤
send_message w = hand_over w.tele.envelope w

abbrev pub known_device : Option String → Bool
known_device none = false
known_device (some id) = not (id == "")

abbrev device_text : Option String → String
device_text none = ""
device_text (some id) = id

-- The branches on the running environment, the device id and the fingerprint.
unfoldable pub route : M ⊤
route w =
    let t = w.tele in
    let did = get "did" t.envelope.context in
    let device = str (device_text t.finger_print_id) in
    let own = record t.envelope {
      actor = put "id" (get_actor_id (get "id" t.envelope.actor) did) t.envelope.actor;
    } in
    let wait = modify (on_tele (λ s. record s { waiting = s.waiting + 1 })) in
    if not (is_text "client" t.running_env)
    then send_message w
    else if truthy did
    then (write_message own >> send_message) w
    else if known_device t.finger_print_id
    then (write_message (identify device t.envelope) >> send_message) w
    else wait w

-- The callback that `_dispatch` gives to `getFingerPrint`, run on a result.
unfoldable pub finger_print_ready : String → M ⊤
finger_print_ready result = do
  modify (
      on_tele (λ t. record t {
        envelope = identify (str result) t.envelope;
        finger_print_id = some result;
        waiting = t.waiting - 1;
      }))
  send_message

module _ (lib : Libs) where
  -- `message.mid = message.eid + ':' + CryptoJS.MD5(JSON.stringify(message)).toString()`
  abbrev pub with_mid : Envelope → Envelope
  with_mid e = record e {
    mid = Prim.Native.String.◌++◌ e.eid (Prim.Native.String.◌++◌ ":" (lib.digest e));
  }

  abbrev pub schema_id : String → String
  schema_id eid = Prim.Native.String.◌++◌ "http://api.ekstep.org/telemetry/" (to_lower eid)

  -- the check of an event, if it is asked for
  unfoldable pub is_valid : M Bool
  is_valid w =
      let e = w.tele.envelope in
      if truthy w.tele.enable_validation
      then or_raise (lib.validate (schema_id e.eid) e) Error.no_validator w
      else (ok true, w)

  -- `_dispatch`, on the message that stands in the shared envelope
  unfoldable pub dispatch : M ⊤
  dispatch = do
    modify (on_tele (λ t. record t { envelope = with_mid t.envelope }))
    valid ← is_valid
    when valid route
