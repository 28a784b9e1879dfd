-- ===== src/Page/Events/FirstVisit.antt =====
-- From the organisation's answer to the first posted event.
pub mod Waiting
use sunbird_devops.Base.{[], ◌+◌, ◌++◌, ◌-◌, String, ◌≡◌, refl, ◌∙◌, ap, some, ◌∷◌}
use sunbird_devops.Js.Int.{pos}
use sunbird_devops.Js.Value.{Value, undefined, num, str, get}
use sunbird_devops.Js.Value.Laws.{get-put, get-put_self}
use sunbird_devops.Js.Value.Proper.{IsProper}
use sunbird_devops.Telemetry.Sync.Batches.{send_telemetry-at_once}
use sunbird_devops.Page.Events.FirstVisit.Waiting.{
  options, ready, noted, noted-HoldsBack, noted-channel, noted-empty,
}
use sunbird_devops.Web.Libs.{Libs}
use sunbird_devops.State.{Page, on_tele}
use sunbird_devops.Telemetry.Types.{Envelope, Post, Dispatcher, initial_tele}
use sunbird_devops.Telemetry.Event.{init}
use sunbird_devops.Telemetry.Dispatch.{identify, finger_print_ready}
use sunbird_devops.Telemetry.Api.{initialize, prepare, log_event, impression}
use sunbird_devops.Telemetry.Api.LateFingerprint.{held_back, log_event-held_back, hand_over-library}
use sunbird_devops.Page.Events.{
  hash_tag, get_anonymous_user_config, batch_of_one, init_telemetry_service,
  log_login_impression_event, org_info_answer,
}
use sunbird_devops.Page.Events.Posted.{page_view}

-- What `identify` writes, and what it leaves alone.
identified :
    (did : Value) (e : Envelope)
    → ((identify did e).eid ≡ e.eid)
      × ((identify did e).edata ≡ e.edata)
      × (get "did" (identify did e).context ≡ did)
      × (get "channel" (identify did e).context ≡ get "channel" e.context)
unfolding identify
identified did e =
    (refl, refl, get-put_self "did" did e.context, get-put "did" "channel" did e.context)

-- The callback of the fingerprint on a page that sends events one by one.
ready-posts :
    (r : String) (v : Page)
    → v.tele.dispatcher ≡ Dispatcher.library
    → get "batchsize" v.tele.config ≡ num (pos 1)
    → v.tele.queue ≡ []
    → let u = (finger_print_ready r v).1 in
      (p : Post) × (u.tele.posts ≡ v.tele.posts ++ p ∷ [])
      × (p.events ≡ identify (str r) v.tele.envelope ∷ [])
      × (u.tele.queue ≡ [])
unfolding finger_print_ready
ready-posts r v standard single empty =
    let e = identify (str r) v.tele.envelope in
    let held =
      on_tele (λ t. record t { envelope = e; finger_print_id = some r; waiting = t.waiting - 1 })
        v in
    let sent = hand_over-library e held standard in
    let (p, posts, events, queue) = send_telemetry-at_once e held single empty in
    (p, ap (λ x. x.1.tele.posts) sent ∙ posts, events, ap (λ x. x.1.tele.queue) sent ∙ queue)

-- a page of the organisation
abbrev pub with_org : Value → Page → Page
with_org org w = record w { org_info = org }

pub answer-log_event :
    (lib : Libs) (org : Value) (w : Page)
    → w.tele ≡ initial_tele
    → let v = with_org org w in
      (org_info_answer lib (some org) w).1
      ≡ (log_event lib "IMPRESSION" (page_view lib "init" v) (options lib v) (ready lib v)).1
unfolding org_info_answer init_telemetry_service initialize log_login_impression_event impression
answer-log_event lib org w fresh =
    let v = with_org org w in
    ap
      (λ t.
        (log_event lib "IMPRESSION" (page_view lib "init" v) (options lib v) (
          on_tele batch_of_one
            (record v { tele = init (get_anonymous_user_config lib v) undefined undefined t }))).1)
      fresh

-- When the server has answered with an organisation on a freshly loaded page, and no object in it
-- or in the `pdataId` repeats a key, nothing has been posted, and one event waits for the
-- fingerprint. When that is there, exactly one request is open, and nothing is queued: it holds the
-- IMPRESSION event of the page, which names the device by the fingerprint and its channel by the
-- organisation's hash tag.
pub first_visit :
    (lib : Libs) (org : Value) (r : String) (w : Page)
    → w.tele ≡ initial_tele
    → IsProper org
    → IsProper w.pdata_id
    → let v = (org_info_answer lib (some org) w).1 in
      let u = (finger_print_ready r v).1 in
      (v.tele.posts ≡ [])
      × (v.tele.queue ≡ [])
      × (v.tele.waiting ≡ 1)
      × ((p : Post) × (e : Envelope) × (u.tele.posts ≡ p ∷ [])
          × (p.events ≡ e ∷ [])
          × (u.tele.queue ≡ [])
          × (e.eid ≡ "IMPRESSION")
          × (e.edata ≡ page_view lib "init" w)
          × (get "did" e.context ≡ str r)
          × (get "channel" e.context ≡ hash_tag org))
first_visit lib org r w fresh proper proper_id =
    let v = with_org org w in
    let n = noted lib v in
    let (posts, queue, waiting, single, eid, edata) = noted-empty lib v in
    let back = noted-HoldsBack lib v proper proper_id in
    let same =
      answer-log_event lib org w fresh
      ∙ log_event-held_back lib "IMPRESSION" (page_view lib "init" v) (options lib v) (ready lib v)
          back in
    let h =
      held_back lib
        (prepare "IMPRESSION" (page_view lib "init" v) (options lib v) (ready lib v)).1 in
    let (p, p_posts, p_events, p_queue) = ready-posts r h back.standard single queue in
    let (same_eid, same_edata, named, same_channel) = identified (str r) h.tele.envelope in
    rw same (
      posts,
      queue,
      ap (λ n. n + 1) waiting,
      (
        p,
        identify (str r) h.tele.envelope,
        p_posts ∙ ap (λ l. l ++ p ∷ []) posts,
        p_events,
        p_queue,
        same_eid ∙ eid,
        same_edata ∙ edata,
        named,
        same_channel ∙ noted-channel lib v,
      ),
    )
