-- ===== src/Telemetry/Api/Duration.antt =====
-- A `start` and the `end` that takes it off the stack.
use sunbird_devops.Base.{sym, arith, ◌≡◌, refl, ◌∙◌, ap, List, ◌∷◌, Bool-cases, inl, inr, ⊤}
use sunbird_devops.Js.Int.{pos, ◌+ℤ◌, ◌-ℤ◌}
use sunbird_devops.Js.Value.{
  Value, thousandths, thousandths, obj, Fields, truthy, get, put, fields, or_else,
}
use sunbird_devops.Js.Value.Laws.{get-put_self}
use sunbird_devops.Web.Libs.{Libs}
use sunbird_devops.State.{Page, Result, ok, throw, modify, on_tele, continue_with}
use sunbird_devops.Telemetry.Types.{Envelope, Tele}
use sunbird_devops.Telemetry.Event.{update_values, get_event, time_shift, init}
use sunbird_devops.Telemetry.Dispatch.{dispatch}
use sunbird_devops.Telemetry.Dispatch.Kept.{Kept, dispatch-Kept}
use sunbird_devops.Telemetry.Api.{
  prepare, push_start, start_init, with_start_content, start, log_event, end_of, end_event,
}

pub update_values-starts :
    (o : Value) (t : Tele)
    → ((update_values o t).start_data ≡ t.start_data) × ((update_values o t).config ≡ t.config)
unfolding update_values
update_values-starts o t = elim (Bool-cases (truthy o)) [
  | inl given ↦ rw given (refl, refl)
  | inr missing ↦ rw missing (refl, refl)
]

pub init-starts : (c id ver : Value) (t : Tele) → (init c id ver t).start_data ≡ t.start_data
unfolding init
init-starts c id ver t = elim (Bool-cases t.initialized) [
  | inl done ↦ rw done refl
  | inr fresh ↦ rw fresh refl
]

start_init-starts :
    (c id ver : Value) (t : Tele)
    → (start_init c id ver (with_start_content id ver t)).start_data ≡ t.start_data
unfolding init
start_init-starts c id ver t = ground arith

-- the last statement of `start`, on what the dispatch came to
abbrev push_after : Result ⊤ × Page → Result ⊤ × Page
push_after x = continue_with (λ _. modify (on_tele push_start)) x

push_after-top :
    (w : Page) (x : Result ⊤ × Page)
    → Kept w x.1
    → (push_after x).0 ≡ ok tt
    → (e : Envelope) × ((push_after x).1.tele.start_data ≡ e ∷ w.tele.start_data)
      × (e.ets ≡ w.tele.envelope.ets)
      × ((push_after x).1.tele.config ≡ w.tele.config)
push_after-top w (ok a, v) k h =
    (v.tele.envelope, ap (λ l. v.tele.envelope ∷ l) k.same_starts, k.same_ets, k.same_config)
push_after-top w (throw e, v) k h = ground (arith, h)

pub start-top :
    (lib : Libs) (config id ver : Value) (given : Fields) (o : Value) (w : Page)
    → (start lib config id ver given o w).0 ≡ ok tt
    → let after = (start lib config id ver given o w).1.tele in
      (e : Envelope) × (after.start_data ≡ e ∷ w.tele.start_data)
      × (e.ets ≡ pos w.now +ℤ time_shift after.config)
unfolding start prepare get_event
start-top lib config id ver given o w h =
    let begun = start_init config id ver (with_start_content id ver w.tele) in
    let duration = or_else (get "duration" given) (thousandths (pos w.now)) in
    let v = (prepare "START" (obj (put "duration" duration given)) o (on_tele (λ t. begun) w)).1 in
    let (e, starts, ets, same) = push_after-top v (dispatch lib v) (dispatch-Kept lib v) h in
    (
      e,
      starts
          ∙ ap (λ l. e ∷ l)
              ((update_values-starts o begun).0 ∙ start_init-starts config id ver w.tele),
      ets ∙ ap (λ c. pos w.now +ℤ time_shift c) (sym same),
    )

pub end_event-top :
    (lib : Libs) (given : Fields) (o : Value) (e : Envelope) (others : List Envelope) (w : Page)
    → w.tele.start_data ≡ e ∷ others
    → let after = (end_event lib given o w).1.tele in
      (after.envelope.eid ≡ "END")
      × (after.start_data ≡ others)
      × (get "duration" (fields after.envelope.edata) ≡ thousandths (pos w.now -ℤ e.ets))
unfolding end_event end_of log_event prepare get_event
end_event-top lib given o e others w h =
    let v = on_tele (λ t. record t { start_data = others }) w in
    let d = thousandths (pos w.now -ℤ e.ets) in
    let k = dispatch-Kept lib (prepare "END" (obj (put "duration" d given)) o v).1 in
    rw h (
      k.same_eid,
      k.same_starts ∙ (update_values-starts o v.tele).0,
      ap (λ x. get "duration" (fields x)) k.same_edata ∙ get-put_self "duration" d given,
    )

-- If `start` does not throw, then an `end` that finds the same stack of starts later, whatever
-- happened between them, logs an END event whose duration is the time of the `end` less that of the
-- `start` moved by `timeDiff`, and leaves the stack as it was before the `start`.
pub start-end_event :
    (lib : Libs) (config id ver : Value) (given : Fields) (o : Value) (given' : Fields) (o' : Value)
    (w v : Page)
    → (start lib config id ver given o w).0 ≡ ok tt
    → v.tele.start_data ≡ (start lib config id ver given o w).1.tele.start_data
    → let shift = time_shift (start lib config id ver given o w).1.tele.config in
      let after = (end_event lib given' o' v).1.tele in
      (after.envelope.eid ≡ "END")
      × (after.start_data ≡ w.tele.start_data)
      × (get "duration" (fields after.envelope.edata)
          ≡ thousandths (pos v.now -ℤ (pos w.now +ℤ shift)))
start-end_event lib config id ver given o given' o' w v h k =
    let (e, starts, ets) = start-top lib config id ver given o w h in
    let (eid, left, duration) = end_event-top lib given' o' e w.tele.start_data v (k ∙ starts) in
    (eid, left, duration ∙ ap (λ t. thousandths (pos v.now -ℤ t)) ets)
