-- ===== src/Page/Events/Frame.antt =====
-- Logging leaves the page where it is.
use sunbird_devops.Base.{String, ◌≡◌, refl, false, Bool-cases, inl, inr}
use sunbird_devops.Js.Value.{Value, truthy}
use sunbird_devops.Web.Libs.{Libs}
use sunbird_devops.State.{Page}
use sunbird_devops.Telemetry.Types.{Tele}
use sunbird_devops.Telemetry.Event.{update_values}
use sunbird_devops.Telemetry.Dispatch.Frame.{IsCalm, IsCalm-from, dispatch-IsCalm}
use sunbird_devops.Telemetry.Api.{prepare, log_event, interact}
use sunbird_devops.Page.Events.{is_null, log_interact_event}

update_values-validation :
    (o : Value) (t : Tele) → (update_values o t).enable_validation ≡ t.enable_validation
unfolding update_values
update_values-validation o t = elim (Bool-cases (truthy o)) [
  | inl given ↦ rw given refl
  | inr missing ↦ rw missing refl
]

pub log_event-IsCalm :
    (lib : Libs) (eid : String) (edata o : Value) (w : Page)
    → truthy w.tele.enable_validation ≡ false
    → IsCalm w (log_event lib eid edata o w)
unfolding log_event prepare
log_event-IsCalm lib eid edata o w off =
    IsCalm-from w (prepare eid edata o w).1.tele _
      (dispatch-IsCalm lib (prepare eid edata o w).1 (rw (update_values-validation o w.tele) off))

pub log_interact_event-IsCalm :
    (lib : Libs) (id : String) (w : Page)
    → truthy w.tele.enable_validation ≡ false
    → is_null w.org_info ≡ false
    → IsCalm w (log_interact_event lib id w)
unfolding log_interact_event interact
log_interact_event-IsCalm lib id w off known = rw known (log_event-IsCalm lib "INTERACT" _ _ w off)
