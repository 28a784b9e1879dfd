-- ===== src/Page/Events/Leaving.antt =====
-- The events of a click that leaves the page: an interact event, and the impression of leaving.
use mathlib.Core.List.{append_assoc, append-nil}
use sunbird_devops.Base.{sym, List, ⊤}
use sunbird_devops.State.{Result, Timer, continue_with, go_to}
use sunbird_devops.Web.Store.{set_item}
use sunbird_devops.Page.Session.{store_location}
use sunbird_devops.Page.Events.{create_telemetry_event, store_forgot_password_location}
use sunbird_devops.Base.{String, ◌≡◌, refl, ◌∙◌, ap, false, [], ◌∷◌, ◌++◌}
use sunbird_devops.Js.Value.{Value, str, obj, end, field}
use sunbird_devops.Web.Libs.{Libs}
use sunbird_devops.State.{ok, Page, submit_login}
use sunbird_devops.State.Laws.{continue_of_ends}
use sunbird_devops.Telemetry.Types.{Envelope, Post}
use sunbird_devops.Telemetry.Api.{interact}
use sunbird_devops.Page.Events.{
  log_login_impression_event, is_null, log_interact_event, leave, do_login, add_timer,
}
use sunbird_devops.Page.Events.Posted.{
  IsPrompt, Sends, page_view, log_event-Sends, log_login_impression_event-Sends,
}

-- the data of the event of a click
abbrev pub click : String → Value
click id = obj (field "id" (str id) (field "type" (str "click") (field "pageid" (str "login") end)))

log_interact_event-Sends :
    (lib : Libs) (id : String) (w : Page)
    → IsPrompt w
    → is_null w.org_info ≡ false
    → Sends "INTERACT" (click id) w (log_interact_event lib id w)
unfolding log_interact_event interact
log_interact_event-Sends lib id w p known = rw known (log_event-Sends lib "INTERACT" _ _ w p)

-- The click, then the leaving, each alone in its batch.
abbrev pub Departs : Libs → String → Page → Page → Type 0
Departs lib id w v =
    (c : Post) × (d : Post) × (e : Envelope) × (f : Envelope) × (v.tele.posts
      ≡ w.tele.posts ++ (c ∷ d ∷ []))
    × (c.events ≡ e ∷ [])
    × (d.events ≡ f ∷ [])
    × (e.eid ≡ "INTERACT")
    × (e.edata ≡ click id)
    × (f.eid ≡ "IMPRESSION")
    × (f.edata ≡ page_view lib "pageexit" w)

-- The call ends well, logs both events and leaves nothing in the queue, and sets these timers.
abbrev pub Leaves : Libs → String → List Timer → Page → Result ⊤ × Page → Type 0
Leaves lib id timers w x =
    (x.0 ≡ ok tt) × Departs lib id w x.1 × (x.1.tele.queue ≡ []) × (x.1.timers ≡ w.timers ++ timers)

leave-Leaves :
    (lib : Libs) (id : String) (w : Page)
    → IsPrompt w
    → is_null w.org_info ≡ false
    → Leaves lib id [] w (leave lib id w)
unfolding leave
leave-Leaves lib id w p known =
    let a = log_interact_event-Sends lib id w p known in
    let v = (log_interact_event lib id w).1 in
    let b =
      log_login_impression_event-Sends lib "pageexit" v a.prompt.unchecked a.prompt.known
        a.prompt.standard a.prompt.empty in
    let (c, e, posts, events, queue, name, content) = a.posting in
    let (d, f, posts2, events2, queue2, name2, content2) = b.posting in
    rw
      (continue_of_ends (log_login_impression_event lib "pageexit") (log_interact_event lib id w)
        a.ends)
      (
        b.ends,
        (
          c,
          d,
          e,
          f,
          posts2 ∙ ap (λ l. l ++ (d ∷ [])) posts ∙ append_assoc w.tele.posts (c ∷ []) (d ∷ []),
          events,
          events2,
          name,
          content,
          name2,
          content2 ∙ ap (λ l. page_view lib "pageexit" (record w { location = l })) a.same_location,
        ),
        queue2,
        b.same_timers ∙ a.same_timers ∙ sym (append-nil w.timers),
      )

-- A timer behind both events.
then_timer :
    (lib : Libs) (id : String) (timer : Timer) (w : Page)
    → Leaves lib id [] w (leave lib id w)
    → Leaves lib id (timer ∷ []) w (continue_with (λ _. add_timer timer) (leave lib id w))
then_timer lib id timer w (ends, departs, queue, timers) =
    rw (continue_of_ends (add_timer timer) (leave lib id w) ends)
      (refl, departs, queue, ap (λ l. l ++ timer ∷ []) (timers ∙ append-nil w.timers))

-- If nothing is validated, the fingerprint is known, the library's dispatcher is in use, the queue is
-- empty, the batches hold one event and the organisation is known, then `doLogin`,
-- `createTelemetryEvent` and `storeForgotPasswordLocation` each end well and post two events, each
-- alone in its batch: first the click, on "login" or on "forgot-password", then the impression of
-- leaving the page. Nothing stays in the queue. Behind the timers there were, `doLogin` sets the one
-- that submits the form, `storeForgotPasswordLocation` the one that goes to the link's target, and
-- `createTelemetryEvent` none.
pub handlers-Leaves :
    (lib : Libs) (target : String) (w : Page)
    → IsPrompt w
    → is_null w.org_info ≡ false
    → Leaves lib "login" (submit_login ∷ []) w (do_login lib w)
      × Leaves lib "forgot-password" [] w (create_telemetry_event lib w)
      × Leaves lib "forgot-password"
          (go_to target ∷ [])
          w
          (store_forgot_password_location lib target w)
unfolding do_login create_telemetry_event store_forgot_password_location store_location
handlers-Leaves lib target w p known =
    let stored = record w { session = set_item "url" w.location.href w.session } in
    let p' : IsPrompt stored = record {
      unchecked = p.unchecked;
      known = p.known;
      standard = p.standard;
      empty = p.empty;
      single = p.single;
    } in
    (
      then_timer lib "login" submit_login w (leave-Leaves lib "login" w p known),
      leave-Leaves lib "forgot-password" w p known,
      then_timer lib "forgot-password" (go_to target) stored
          (leave-Leaves lib "forgot-password" stored p' known),
    )
