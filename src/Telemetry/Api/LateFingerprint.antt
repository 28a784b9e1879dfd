-- ===== src/Telemetry/Api/LateFingerprint.antt =====
-- Events that are logged before the device's fingerprint is there.
use sunbird_devops.Telemetry.Event.{update_values, get_event}
use sunbird_devops.Telemetry.Sync.{send_telemetry}
use sunbird_devops.Base.{◌+◌, String, ◌≡◌, ◌∙◌, refl, ap, Bool, true, false}
use sunbird_devops.Js.Value.{Value, truthy, get}
use sunbird_devops.Web.Libs.{Libs}
use sunbird_devops.State.{Page, ok, on_tele}
use sunbird_devops.Telemetry.Types.{Envelope, Dispatcher}
use sunbird_devops.Telemetry.Dispatch.{
  hand_by, is_text, known_device, hand_over, is_valid, route, dispatch, finger_print_ready,
  with_mid,
}
use sunbird_devops.Telemetry.Api.{update_values, get_event, prepare, log_event}

-- The event in the envelope has to wait for the fingerprint: nothing is validated, the page runs
-- in a client, the event names no device, and no fingerprint is known.
pub record HoldsBack (w : Page) : Type 0 where
  pub unchecked : truthy w.tele.enable_validation ≡ false
  pub client : is_text "client" w.tele.running_env ≡ true
  pub no_device : truthy (get "did" w.tele.envelope.context) ≡ false
  pub unknown : known_device w.tele.finger_print_id ≡ false
  pub standard : w.tele.dispatcher ≡ Dispatcher.library

-- A test on an event, of its kind and its data.
abbrev pub is_event : (String → Value → Bool) → Envelope → Bool
is_event p e = p e.eid e.edata

abbrev pub held_back : Libs → Page → Page
held_back lib w =
    on_tele (λ t. record t { envelope = with_mid lib t.envelope; waiting = t.waiting + 1 }) w

dispatch-held_back :
    (lib : Libs) (w : Page) → HoldsBack w → dispatch lib w ≡ (ok tt, held_back lib w)
unfolding dispatch is_valid route
dispatch-held_back lib w h = rw (h.unchecked) (rw (h.client) (rw (h.no_device) (rw (h.unknown))))

pub hand_over-library :
    (e : Envelope) (w : Page)
    → w.tele.dispatcher ≡ Dispatcher.library
    → hand_over e w ≡ send_telemetry e w
unfolding hand_over hand_by
hand_over-library e w h = ap (λ d. hand_by d e w) h

-- Two events that are logged one after the other, and then the callback of each.
abbrev pub log_two : Libs → String → Value → Value → String → Value → Value → Page → Page
log_two lib e1 d1 o1 e2 d2 o2 w = (log_event lib e2 d2 o2 (log_event lib e1 d1 o1 w).1).1

abbrev pub both_ready : String → Page → Page
both_ready r w = (finger_print_ready r (finger_print_ready r w).1).1

pub log_event-held_back :
    (lib : Libs) (eid : String) (d o : Value) (w : Page)
    → HoldsBack (prepare eid d o w).1
    → (log_event lib eid d o w).1 ≡ held_back lib (prepare eid d o w).1
unfolding log_event
log_event-held_back lib eid d o w h = ap (λ x. x.1) (step ∙ dispatch-held_back lib _ h)
  where
    step : log_event lib eid d o w ≡ dispatch lib (prepare eid d o w).1
    step = unfold prepare in refl
