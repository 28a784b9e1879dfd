-- ===== src/Telemetry/Dispatch/Kept.antt =====
-- What `_dispatch` leaves alone, whichever way it ends.
use sunbird_devops.Base.{
  ℕ, ◌+◌, ◌≡◌, refl, ◌∙◌, ap, Bool, true, false, Option, none, some, Bool-cases, inl, inr,
}
use sunbird_devops.Js.Value.{truthy, get}
use sunbird_devops.Web.Libs.{Libs}
use sunbird_devops.State.{Page, Error, on_tele, when, continue_with, or_raise}
use sunbird_devops.Telemetry.Types.{Envelope, Dispatcher}
use sunbird_devops.Telemetry.Sync.Batches.{send_telemetry-rest}
use sunbird_devops.Telemetry.Dispatch.{
  is_text, known_device, hand_by, hand_over, identify, route, is_valid, with_mid, dispatch,
}

-- Neither the stack of starts nor the configuration changes, and the envelope keeps its event.
pub record Kept (w : Page) (v : Page) : Type 0 where
  pub same_starts : v.tele.start_data ≡ w.tele.start_data
  pub same_config : v.tele.config ≡ w.tele.config
  pub same_eid : v.tele.envelope.eid ≡ w.tele.envelope.eid
  pub same_ets : v.tele.envelope.ets ≡ w.tele.envelope.ets
  pub same_edata : v.tele.envelope.edata ≡ w.tele.envelope.edata

pub Kept-refl : {w : Page} → Kept w w
Kept-refl = record {
  same_starts = refl;
  same_config = refl;
  same_eid = refl;
  same_ets = refl;
  same_edata = refl;
}

pub hand_by-Kept : (d : Dispatcher) (e : Envelope) (w : Page) → Kept w (hand_by d e w).1
unfolding hand_by
hand_by-Kept Dispatcher.library e w =
    let (envelope, _, config, starts, _) = send_telemetry-rest e w in
    record {
      same_starts = starts;
      same_config = config;
      same_eid = ap (λ (x : Envelope). x.eid) envelope;
      same_ets = ap (λ (x : Envelope). x.ets) envelope;
      same_edata = ap (λ (x : Envelope). x.edata) envelope;
    }
hand_by-Kept Dispatcher.custom e w = record {
  same_starts = refl;
  same_config = refl;
  same_eid = refl;
  same_ets = refl;
  same_edata = refl;
}

pub Kept-trans : {w v u : Page} → Kept w v → Kept v u → Kept w u
Kept-trans k l = record {
  same_starts = l.same_starts ∙ k.same_starts;
  same_config = l.same_config ∙ k.same_config;
  same_eid = l.same_eid ∙ k.same_eid;
  same_ets = l.same_ets ∙ k.same_ets;
  same_edata = l.same_edata ∙ k.same_edata;
}

-- Sending from a page that differs in its envelope's actor, context or id only.
send_from : (w v : Page) → Kept w v → Kept w (hand_by v.tele.dispatcher v.tele.envelope v).1
send_from w v k = Kept-trans k (hand_by-Kept v.tele.dispatcher v.tele.envelope v)

rewritten :
    (w : Page) (e : Envelope)
    → e.eid ≡ w.tele.envelope.eid
    → e.ets ≡ w.tele.envelope.ets
    → e.edata ≡ w.tele.envelope.edata
    → Kept w (on_tele (λ t. record t { envelope = e }) w)
rewritten w e eid ets edata = record {
  same_starts = refl;
  same_config = refl;
  same_eid = eid;
  same_ets = ets;
  same_edata = edata;
}

waiting-Kept : (w : Page) (n : ℕ) → Kept w (on_tele (λ t. record t { waiting = n }) w)
waiting-Kept w n = record {
  same_starts = refl;
  same_config = refl;
  same_eid = refl;
  same_ets = refl;
  same_edata = refl;
}

route-Kept : (w : Page) → Kept w (route w).1
unfolding route hand_over identify
route-Kept w = elim (Bool-cases (is_text "client" w.tele.running_env)) [
  | inr server ↦ rw server (send_from w w Kept-refl)
  | inl client ↦ rw client (elim (Bool-cases (truthy (get "did" w.tele.envelope.context))) [
    | inl named ↦ rw named (send_from w _ (rewritten w _ refl refl refl))
    | inr unnamed ↦ rw unnamed (elim (Bool-cases (known_device w.tele.finger_print_id)) [
      | inl known ↦ rw known (send_from w _ (rewritten w _ refl refl refl))
      | inr unknown ↦ rw unknown (waiting-Kept w (w.tele.waiting + 1))
    ])
  ])
]

-- the rest of `_dispatch`, behind the validator's answer
checked-Kept :
    (w : Page) (answer : Option Bool)
    → Kept w (continue_with (λ valid. when valid route) (or_raise answer Error.no_validator w)).1
checked-Kept w none = Kept-refl
checked-Kept w (some true) = route-Kept w
checked-Kept w (some false) = Kept-refl

pub dispatch-Kept : (lib : Libs) (w : Page) → Kept w (dispatch lib w).1
unfolding dispatch is_valid
dispatch-Kept lib w =
    let named = on_tele (λ t. record t { envelope = with_mid lib t.envelope }) w in
    let renamed : Kept w named = rewritten w (with_mid lib w.tele.envelope) refl refl refl in
    elim (Bool-cases (truthy w.tele.enable_validation)) [
      | inl on ↦ rw on (Kept-trans renamed (checked-Kept named _))
      | inr off ↦ rw off (Kept-trans renamed (checked-Kept named (some true)))
    ]
