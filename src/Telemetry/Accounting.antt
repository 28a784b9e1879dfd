-- ===== src/Telemetry/Accounting.antt =====
-- How many events `Telemetry` and `TelemetrySyncManager` hold, whatever is called.
pub mod Methods
pub mod Runs
use sunbird_devops.Base.{
  ℕ, suc, ◌+◌, ◌<◌, String, ◌≡◌, refl, ap, Bool, true, false, Option, none, some, [], ◌∷◌, ◌==◌,
  length, length-append, Bool-cases, inl, inr, arith, if◌then◌else◌,
}
use sunbird_devops.Js.Value.{Value, truthy, get}
use sunbird_devops.Web.Libs.{Libs}
use sunbird_devops.State.{Page, Error, on_tele, when, or_raise, continue_with}
use sunbird_devops.Telemetry.Types.{Envelope, Tele, Dispatcher}
use sunbird_devops.Telemetry.Sync.{sync_events, enqueue, is_due, send_telemetry}
use sunbird_devops.Telemetry.Sync.Conservation.{
  count_if, count_if-append, count_held, send_telemetry-count,
}
use sunbird_devops.Telemetry.Dispatch.{
  identify, is_text, known_device, hand_by, hand_over, route, is_valid, with_mid, schema_id,
  dispatch, finger_print_ready,
}

-- all the events of the queue and the open requests
abbrev pub every : Envelope → Bool
every e = true

-- The events of a kind
abbrev pub of_kind : String → Envelope → Bool
of_kind eid e = e.eid == eid

-- What has been logged and is not delivered: events in the queue and in open requests, events that
-- a custom dispatcher was given, and calls that wait for the fingerprint. Of the events, those that
-- pass the test.
abbrev pub load_of : (Envelope → Bool) → Tele → ℕ
load_of p t = count_held p t + count_if p t.handed + t.waiting

abbrev pub load : Tele → ℕ
load = load_of every

-- 1 if the event in the envelope passes: nothing is validated, or the validator of its kind takes it.
abbrev pub passes : Libs → Page → ℕ
passes lib w =
    let e = with_mid lib w.tele.envelope in
    if truthy w.tele.enable_validation
    then elim (lib.validate (schema_id lib e.eid) e) as (λ _. ℕ) [ some true ↦ 1 | _ ↦ 0 ]
    else 1

send_telemetry-others :
    (e : Envelope) (w : Page)
    → ((send_telemetry e w).1.tele.handed ≡ w.tele.handed)
      × ((send_telemetry e w).1.tele.waiting ≡ w.tele.waiting)
unfolding send_telemetry enqueue sync_events
send_telemetry-others e w = elim (Bool-cases (is_due e (enqueue e w))) [
  | inl due ↦ rw due (refl, refl)
  | inr not_due ↦ rw not_due (refl, refl)
]

identify-eid : (did : Value) (e : Envelope) → (identify did e).eid ≡ e.eid
unfolding identify
identify-eid did e = refl

module _ (p : Envelope → Bool) where
  hand_by-load :
      (d : Dispatcher) (e : Envelope) (w : Page)
      → p e ≡ true
      → load_of p (hand_by d e w).1.tele ≡ suc (load_of p w.tele)
  unfolding hand_by
  hand_by-load Dispatcher.library e w passed =
      let (handed, waiting) = send_telemetry-others e w in
      ground (arith, send_telemetry-count p e w, ap (count_if p) handed, waiting, passed)
  hand_by-load Dispatcher.custom e w passed =
      ground (arith, count_if-append p w.tele.handed (e ∷ []), passed)

  -- All events of this one's kind pass, whatever else is written into them.
  abbrev Passes : Envelope → Type 0
  Passes e = (e' : Envelope) → e'.eid ≡ e.eid → p e' ≡ true

  route-load :
      (w : Page) → Passes w.tele.envelope → load_of p (route w).1.tele ≡ suc (load_of p w.tele)
  unfolding route hand_over
  route-load w passed = elim (Bool-cases (is_text "client" w.tele.running_env)) [
    | inr server ↦ rw server (hand_by-load w.tele.dispatcher w.tele.envelope w (passed _ refl))
    | inl client ↦ rw client (elim (Bool-cases (truthy (get "did" w.tele.envelope.context))) [
      | inl did ↦ rw did (hand_by-load w.tele.dispatcher _ _ (passed _ refl))
      | inr unnamed ↦ rw unnamed (elim (Bool-cases (known_device w.tele.finger_print_id)) [
        | inl known ↦ rw known (hand_by-load w.tele.dispatcher _ _ (passed _ (identify-eid _ _)))
        | inr unknown ↦ rw unknown (omega arith)
      ])
    ])
  ]

  -- the rest of `_dispatch`, behind the validator's answer
  checked-load :
      (w : Page) (answer : Option Bool)
      → Passes w.tele.envelope
      → load_of p
          (continue_with (λ valid. when valid route) (or_raise answer Error.no_validator w)).1.tele
        ≡ (elim answer as (λ _. ℕ) [ some true ↦ 1 | _ ↦ 0 ]) + load_of p w.tele
  checked-load w none passed = omega arith
  checked-load w (some true) passed = omega (arith, route-load w passed)
  checked-load w (some false) passed = omega arith

  pub dispatch-load_of :
      (lib : Libs) (w : Page)
      → Passes (with_mid lib w.tele.envelope)
      → load_of p (dispatch lib w).1.tele ≡ passes lib w + load_of p w.tele
  unfolding dispatch is_valid
  dispatch-load_of lib w passed =
      let named = on_tele (λ t. record t { envelope = with_mid lib t.envelope }) w in
      elim (Bool-cases (truthy w.tele.enable_validation)) [
        | inl on ↦ rw on (checked-load named _ passed)
        | inr off ↦ rw off (checked-load named (some true) passed)
      ]

pub dispatch-load :
    (lib : Libs) (w : Page) → load (dispatch lib w).1.tele ≡ passes lib w + load w.tele
dispatch-load lib w = dispatch-load_of every lib w (λ e same. refl)

-- A callback of the fingerprint ends one wait.
pub finger_print_ready-load :
    (r : String) (w : Page)
    → 0 < w.tele.waiting
    → load (finger_print_ready r w).1.tele ≡ load w.tele
unfolding finger_print_ready hand_over
finger_print_ready-load r w waits =
    omega (arith, waits, hand_by-load every w.tele.dispatcher _ _ refl)
