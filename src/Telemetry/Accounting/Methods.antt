-- ===== src/Telemetry/Accounting/Methods.antt =====
-- What a call of a method adds to the events that are held.
use sunbird_devops.Base.{
  ℕ, ◌+◌, String, ◌≡◌, refl, ◌∙◌, List, [], ◌∷◌, Bool, true, false, not, ◌&&◌, arith, ⊤,
  if◌then◌else◌,
}
use sunbird_devops.Js.Int.{pos, ◌-ℤ◌}
use sunbird_devops.Js.Value.{
  Value, undefined, thousandths, obj, Fields, truthy, get, put, or_else, fields, field, str, end,
}
use sunbird_devops.Web.Libs.{Libs}
use sunbird_devops.State.{Page, Result, ok, throw, modify, on_tele, continue_with}
use sunbird_devops.Telemetry.Types.{Envelope, Tele}
use sunbird_devops.Telemetry.Event.{get_event, update_configurations, init, update_values}
use sunbird_devops.Telemetry.Sync.Conservation.{sync_events-count}
use sunbird_devops.Telemetry.Dispatch.{dispatch}
use sunbird_devops.Telemetry.Api.{
  prepare, push_start, with_version, with_start_content, start_init, log_event, start, end_of,
  end_event, assess, feedback, initialize, reset_context, reset_object, reset_actor, reset_tags,
  sync_now,
}
use sunbird_devops.Telemetry.Api.Calls.{
  Call, initialized, started, ended, assessed, rated, logged, context_reset, object_reset,
  actor_reset, tags_reset, synced, run,
}
use sunbird_devops.Telemetry.Accounting.{
  load_of, dispatch-load_of, load, every, passes, dispatch-load,
}

if-load_of :
    (p : Envelope → Bool) (b : Bool) (x y t : Tele)
    → load_of p x ≡ load_of p t
    → load_of p y ≡ load_of p t
    → load_of p (if b then x else y) ≡ load_of p t
if-load_of p true x y t h k = h
if-load_of p false x y t h k = k

if-load :
    (b : Bool) (x y t : Tele)
    → load x ≡ load t
    → load y ≡ load t
    → load (if b then x else y) ≡ load t
if-load = if-load_of every

update_values-load_of :
    (p : Envelope → Bool) (o : Value) (t : Tele) → load_of p (update_values o t) ≡ load_of p t
unfolding update_values
update_values-load_of p o t = if-load_of p (truthy o) _ t t refl refl

update_values-load : (o : Value) (t : Tele) → load (update_values o t) ≡ load t
update_values-load = update_values-load_of every

init-load : (config id ver : Value) (t : Tele) → load (init config id ver t) ≡ load t
unfolding init update_configurations
init-load config id ver t = if-load t.initialized t _ t refl refl

start_init-load :
    (config id ver : Value) (t : Tele)
    → load (start_init config id ver (with_start_content id ver t)) ≡ load t
start_init-load config id ver t =
    let named = with_start_content id ver t in
    let same : load named ≡ load t = if-load (truthy id && truthy ver) _ t t refl refl in
    if-load (not named.initialized && truthy config) (init config id ver named) named t
      (init-load config id ver named ∙ same) same

with_version-load : (o : Value) (t : Tele) → load (with_version o t) ≡ load t
with_version-load o t = if-load (truthy o && truthy (get "eventVer" (fields o))) _ t t refl refl

-- what `feedback` logs
abbrev rating : Fields → Value
rating given = obj (
    field "rating" (get "rating" given)
      (field "comments" (or_else (get "comments" given) (str "")) end))

module _ (lib : Libs) where
  -- the page on which `start` dispatches its event
  abbrev start_page : Value → Value → Value → Fields → Value → Page → Page
  start_page config id ver given o w =
      let duration = or_else (get "duration" given) (thousandths (pos w.now)) in
      (prepare "START" (obj (put "duration" duration given)) o
        (on_tele (λ t. start_init config id ver (with_start_content id ver t)) w)).1

  -- the page on which `end` does
  abbrev end_page : Envelope → List Envelope → Fields → Value → Page → Page
  end_page begun others given o w =
      let duration = thousandths (pos w.now -ℤ begun.ets) in
      (prepare "END" (obj (put "duration" duration given)) o
        (on_tele (λ t. record t { start_data = others }) w)).1

  -- 1 if a call logs an event that passes.
  abbrev pub admitted : Call → Page → ℕ
  admitted (started config id ver given o) w = passes lib (start_page config id ver given o w)
  admitted (ended given o) w = elim w.tele.start_data as (λ _. ℕ) [
    | [] ↦ 0
    | begun ∷ others ↦ passes lib (end_page begun others given o w)
  ]
  admitted (assessed edata o) w =
      passes lib (on_tele (with_version o) (prepare "ASSESS" edata o w).1)
  admitted (rated given o) w = passes lib (prepare "FEEDBACK" (rating given) o w).1
  admitted (logged eid edata o) w = passes lib (prepare eid edata o w).1
  admitted _ w = 0

  log_event-load_of :
      (p : Envelope → Bool) (eid : String) (edata o : Value) (w : Page)
      → ((e : Envelope) → e.eid ≡ eid → p e ≡ true)
      → load_of p (log_event lib eid edata o w).1.tele
        ≡ passes lib (prepare eid edata o w).1 + load_of p w.tele
  unfolding log_event prepare get_event
  log_event-load_of p eid edata o w passed = omega (
    arith,
    dispatch-load_of p lib (prepare eid edata o w).1 passed,
    update_values-load_of p o w.tele,
  )

  log_event-load :
      (eid : String) (edata o : Value) (w : Page)
      → load (log_event lib eid edata o w).1.tele
        ≡ passes lib (prepare eid edata o w).1 + load w.tele
  log_event-load eid edata o w = log_event-load_of every eid edata o w (λ e same. refl)

  -- the last statement of `start`, on what the dispatch came to
  pushed-load :
      (x : Result ⊤ × Page)
      → load (continue_with (λ _. modify (on_tele push_start)) x).1.tele ≡ load x.1.tele
  pushed-load (ok a, v) = refl
  pushed-load (throw e, v) = refl

  start-load :
      (config id ver : Value) (given : Fields) (o : Value) (w : Page)
      → load (start lib config id ver given o w).1.tele
        ≡ passes lib (start_page config id ver given o w) + load w.tele
  unfolding start prepare
  start-load config id ver given o w =
      let v = start_page config id ver given o w in
      let begun = start_init config id ver (with_start_content id ver w.tele) in
      omega (
        arith,
        pushed-load (dispatch lib v),
        dispatch-load lib v,
        update_values-load o begun,
        start_init-load config id ver w.tele,
      )

  pub end_event-load_of :
      (p : Envelope → Bool) (given : Fields) (o : Value) (w : Page)
      → ((e : Envelope) → e.eid ≡ "END" → p e ≡ true)
      → load_of p (end_event lib given o w).1.tele ≡ admitted (ended given o) w + load_of p w.tele
  unfolding end_event end_of
  end_event-load_of p given o w passed = cases w.tele.start_data refl
    where
      cases :
          (starts : List Envelope)
          → w.tele.start_data ≡ starts
          → load_of p (end_event lib given o w).1.tele
            ≡ admitted (ended given o) w + load_of p w.tele
      cases [] e = rw e (omega arith)
      cases (begun ∷ others) e =
          let duration = thousandths (pos w.now -ℤ begun.ets) in
          rw e (
            log_event-load_of p "END" (obj (put "duration" duration given)) o
              (on_tele (λ t. record t { start_data = others }) w) passed)

  end_event-load :
      (given : Fields) (o : Value) (w : Page)
      → load (end_event lib given o w).1.tele ≡ admitted (ended given o) w + load w.tele
  end_event-load given o w = end_event-load_of every given o w (λ e same. refl)

  assess-load :
      (edata o : Value) (w : Page)
      → load (assess lib edata o w).1.tele ≡ admitted (assessed edata o) w + load w.tele
  unfolding assess prepare
  assess-load edata o w =
      let v = (prepare "ASSESS" edata o w).1 in
      omega (
        arith,
        dispatch-load lib (on_tele (with_version o) v),
        with_version-load o v.tele,
        update_values-load o w.tele,
      )

  pub run-load : (c : Call) (w : Page) → load (run lib c w).1.tele ≡ admitted c w + load w.tele
  unfolding initialize reset_context reset_object reset_actor reset_tags sync_now feedback
  run-load (initialized config) w = omega (arith, init-load config undefined undefined w.tele)
  run-load (started config id ver given o) w = start-load config id ver given o w
  run-load (ended given o) w = end_event-load given o w
  run-load (assessed edata o) w = assess-load edata o w
  run-load (rated given o) w = log_event-load "FEEDBACK" (rating given) o w
  run-load (logged eid edata o) w = log_event-load eid edata o w
  run-load (context_reset value) w = omega arith
  run-load (object_reset value) w = omega arith
  run-load (actor_reset value) w = omega arith
  run-load (tags_reset value) w = omega arith
  run-load synced w = omega (arith, sync_events-count every w)
