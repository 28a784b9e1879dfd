-- ===== src/Telemetry/Api/Calls.antt =====
-- The calls of the methods of `Telemetry`.
use sunbird_devops.Base.{String, ⊤}
use sunbird_devops.Js.Value.{Value, Fields}
use sunbird_devops.Web.Libs.{Libs}
use sunbird_devops.State.{M}
use sunbird_devops.Telemetry.Api.{
  log_event, start, end_event, assess, feedback, initialize, reset_context, reset_object,
  reset_actor, reset_tags, sync_now,
}

-- A call of a method. `logged` is a call of the methods that only log, one for each kind of event.
pub data Call : Type 0 where
  initialized : (config : Value) → Call
  started : (config id ver : Value) (given : Fields) (options : Value) → Call
  ended : (given : Fields) (options : Value) → Call
  assessed : (edata options : Value) → Call
  rated : (given : Fields) (options : Value) → Call
  logged : (eid : String) (edata options : Value) → Call
  context_reset : (value : Value) → Call
  object_reset : (value : Value) → Call
  actor_reset : (value : Value) → Call
  tags_reset : (value : Value) → Call
  synced : Call

abbrev pub run : Libs → Call → M ⊤
run lib (initialized config) = initialize config
run lib (started config id ver given options) = start lib config id ver given options
run lib (ended given options) = end_event lib given options
run lib (assessed edata options) = assess lib edata options
run lib (rated given options) = feedback lib given options
run lib (logged eid edata options) = log_event lib eid edata options
run lib (context_reset value) = reset_context value
run lib (object_reset value) = reset_object value
run lib (actor_reset value) = reset_actor value
run lib (tags_reset value) = reset_tags value
run lib synced = sync_now
