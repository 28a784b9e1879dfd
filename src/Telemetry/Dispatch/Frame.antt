-- ===== src/Telemetry/Dispatch/Frame.antt =====
-- What logging an event leaves alone on the page: everything but the session's "FP_T" and the
-- library's own variables.
use sunbird_devops.Base.{String, ◌≡◌, ◌≢◌, refl, false, Bool-cases, inl, inr, arith, eq_iff, ⊤}
use sunbird_devops.Js.Value.{truthy, get}
use sunbird_devops.Web.Libs.{Libs}
use sunbird_devops.Web.Store.{get_item, get_item-set_item}
use sunbird_devops.State.{Page, Result, ok, on_tele}
use sunbird_devops.Telemetry.Types.{Envelope, Tele, Dispatcher}
use sunbird_devops.Telemetry.Sync.{enqueue, is_due, sync_events, send_telemetry, finger_print_text}
use sunbird_devops.Telemetry.Dispatch.{
  is_text, known_device, hand_by, hand_over, route, is_valid, dispatch, with_mid,
}

-- A call that ends well, and leaves the page's address and its session, but for "FP_T", as they
-- were on a page.
pub record IsCalm (w : Page) (x : Result ⊤ × Page) : Type 0 where
  pub ends : x.0 ≡ ok tt
  pub same_location : x.1.location ≡ w.location
  pub same_assigned : x.1.assigned ≡ w.assigned
  pub same_session : (k : String) → k ≢ "FP_T" → get_item k x.1.session ≡ get_item k w.session

-- A change of the library's variables alone.
pub IsCalm-tele : (w : Page) (t : Tele) → IsCalm w (ok tt, record w { tele = t })
IsCalm-tele w t = record {
  ends = refl;
  same_location = refl;
  same_assigned = refl;
  same_session = λ k ne. refl;
}

-- The variables of the library may differ before, too.
pub IsCalm-from :
    (w : Page) (t : Tele) (x : Result ⊤ × Page) → IsCalm (record w { tele = t }) x → IsCalm w x
IsCalm-from w t x c = record {
  ends = c.ends;
  same_location = c.same_location;
  same_assigned = c.same_assigned;
  same_session = c.same_session;
}

enqueue-session :
    (e : Envelope) (w : Page) (k : String)
    → k ≢ "FP_T"
    → get_item k (enqueue e w).session ≡ get_item k w.session
unfolding enqueue
enqueue-session e w k ne = ground (
  arith,
  ne,
  eq_iff "FP_T" k,
  get_item-set_item "FP_T" k (finger_print_text w.tele.finger_print_id) w.session,
)

enqueued :
    (e : Envelope) (w : Page) (t : Tele) → IsCalm w (ok tt, record (enqueue e w) { tele = t })
enqueued e w t = record {
  ends = refl;
  same_location = unfold enqueue in refl;
  same_assigned = unfold enqueue in refl;
  same_session = λ k ne. enqueue-session e w k ne;
}

send_telemetry-IsCalm : (e : Envelope) (w : Page) → IsCalm w (send_telemetry e w)
unfolding send_telemetry sync_events
send_telemetry-IsCalm e w = elim (Bool-cases (is_due e (enqueue e w))) [
  | inl due ↦ rw due (enqueued e w _)
  | inr not_due ↦ rw not_due (enqueued e w (enqueue e w).tele)
]

hand_by-IsCalm : (d : Dispatcher) (e : Envelope) (w : Page) → IsCalm w (hand_by d e w)
unfolding hand_by
hand_by-IsCalm Dispatcher.library e w = send_telemetry-IsCalm e w
hand_by-IsCalm Dispatcher.custom e w = IsCalm-tele w _

hand_over-IsCalm :
    (e : Envelope) (w : Page) (t : Tele) → IsCalm w (hand_over e (record w { tele = t }))
unfolding hand_over
hand_over-IsCalm e w t = IsCalm-from w t _ (hand_by-IsCalm t.dispatcher e (record w { tele = t }))

route-IsCalm : (w : Page) → IsCalm w (route w)
unfolding route
route-IsCalm w = elim (Bool-cases (is_text "client" w.tele.running_env)) [
  | inr server ↦ rw server (hand_over-IsCalm w.tele.envelope w w.tele)
  | inl client ↦ rw client (elim (Bool-cases (truthy (get "did" w.tele.envelope.context))) [
    | inl named ↦ rw named (hand_over-IsCalm _ w _)
    | inr unnamed ↦ rw unnamed (elim (Bool-cases (known_device w.tele.finger_print_id)) [
      | inl known ↦ rw known (hand_over-IsCalm _ w _)
      | inr unknown ↦ rw unknown (IsCalm-tele w _)
    ])
  ])
]

-- With validation off, `_dispatch` neither throws nor touches the page.
pub dispatch-IsCalm :
    (lib : Libs) (w : Page) → truthy w.tele.enable_validation ≡ false → IsCalm w (dispatch lib w)
unfolding dispatch is_valid
dispatch-IsCalm lib w off =
    let named = on_tele (λ t. record t { envelope = with_mid lib t.envelope }) w in
    rw off (IsCalm-from w named.tele _ (route-IsCalm named))
