-- ===== src/Page/Events/Visit.antt =====
-- A whole visit: the organisation's answer, the fingerprint, and the click that logs in.
use sunbird_devops.Base.{◌∷◌, ◌++◌, [], ◌-◌, String, ◌≡◌, ◌∙◌, ap, false, not, some, ◌==◌}
use sunbird_devops.Js.Int.{pos}
use sunbird_devops.Js.Value.{Value, num, str, truthy, get}
use sunbird_devops.Js.Value.Proper.{IsProper}
use sunbird_devops.Web.Libs.{Libs}
use sunbird_devops.State.{Page, ok, on_tele}
use sunbird_devops.Telemetry.Types.{Envelope, Post, Dispatcher, initial_tele}
use sunbird_devops.Telemetry.Dispatch.{identify, finger_print_ready}
use sunbird_devops.Telemetry.Api.{prepare}
use sunbird_devops.Telemetry.Api.LateFingerprint.{held_back, log_event-held_back}
use sunbird_devops.Page.Events.{do_login, is_null, org_info_answer}
use sunbird_devops.Page.Events.Leaving.{click, handlers-Leaves}
use sunbird_devops.Page.Events.Posted.{page_view, IsPrompt, hand_over-Sends}
use sunbird_devops.Page.Events.FirstVisit.{first_visit, with_org, answer-log_event}
use sunbird_devops.Page.Events.FirstVisit.Waiting.{options, ready, noted-HoldsBack, noted-empty}

-- A page that is prompt, at the same address and of the same organisation.
record IsIdle (w : Page) (v : Page) : Type 0 where
  prompt : IsPrompt v
  same_location : v.location ≡ w.location
  same_org : v.org_info ≡ w.org_info

ready-IsIdle :
    (r : String) (v : Page)
    → (r == "") ≡ false
    → truthy v.tele.enable_validation ≡ false
    → v.tele.dispatcher ≡ Dispatcher.library
    → v.tele.queue ≡ []
    → get "batchsize" v.tele.config ≡ num (pos 1)
    → IsIdle v (finger_print_ready r v).1
unfolding finger_print_ready
ready-IsIdle r v full unchecked standard empty single =
    let e = identify (str r) v.tele.envelope in
    let held =
      on_tele (λ t. record t { envelope = e; finger_print_id = some r; waiting = t.waiting - 1 })
        v in
    let sent = hand_over-Sends e held (record {
      unchecked = unchecked;
      known = ap not full;
      standard = standard;
      empty = empty;
      single = single;
    }) in
    record { prompt = sent.prompt; same_location = sent.same_location; same_org = sent.same_org }

answered-IsIdle :
    (lib : Libs) (org : Value) (r : String) (w : Page)
    → w.tele ≡ initial_tele
    → IsProper org
    → IsProper w.pdata_id
    → (r == "") ≡ false
    → IsIdle (with_org org w) (finger_print_ready r (org_info_answer lib (some org) w).1).1
unfolding prepare
answered-IsIdle lib org r w fresh proper proper_id full =
    let v = with_org org w in
    let (posts, queue, waiting, single, eid, edata) = noted-empty lib v in
    let back = noted-HoldsBack lib v proper proper_id in
    let same =
      answer-log_event lib org w fresh
      ∙ log_event-held_back lib "IMPRESSION" (page_view lib "init" v) (options lib v) (ready lib v)
          back in
    let h =
      held_back lib
        (prepare "IMPRESSION" (page_view lib "init" v) (options lib v) (ready lib v)).1 in
    let there = ready-IsIdle r h full back.unchecked back.standard queue single in
    rw same (record {
      prompt = there.prompt;
      same_location = there.same_location;
      same_org = there.same_org;
    })

-- the page once the organisation and the fingerprint are there
abbrev pub settled : Libs → Value → String → Page → Page
settled lib org r w = (finger_print_ready r (org_info_answer lib (some org) w).1).1

-- An event of this kind and with this data, alone in its batch.
abbrev pub Alone : Post → String → Value → Type 0
Alone p eid edata = (e : Envelope) × (p.events ≡ e ∷ []) × (e.eid ≡ eid) × (e.edata ≡ edata)

-- On a freshly loaded page, for an organisation that is neither null nor undefined and a fingerprint
-- that is not empty, where no object in the organisation or the `pdataId` repeats a key: when the
-- server has answered with the organisation, then the fingerprint is there, and then `doLogin` is
-- called, the call ends well, the page has posted three batches and no more, and no event waits in
-- the queue. In their order, the batches hold one event each: the impression of the page, the click
-- on "login", and the impression of leaving the page.
pub visit :
    (lib : Libs) (org : Value) (r : String) (w : Page)
    → w.tele ≡ initial_tele
    → IsProper org
    → IsProper w.pdata_id
    → is_null org ≡ false
    → (r == "") ≡ false
    → let x = do_login lib (settled lib org r w) in
      (x.0 ≡ ok tt)
      × ((a : Post) × (b : Post) × (c : Post) × (x.1.tele.posts ≡ a ∷ b ∷ c ∷ [])
          × Alone a "IMPRESSION" (page_view lib "init" w)
          × Alone b "INTERACT" (click "login")
          × Alone c "IMPRESSION" (page_view lib "pageexit" w))
      × (x.1.tele.queue ≡ [])
visit lib org r w fresh proper proper_id known full =
    let u = settled lib org r w in
    let there = answered-IsIdle lib org r w fresh proper proper_id full in
    let (_, _, _, first) = first_visit lib org r w fresh proper proper_id in
    let (a, e, posts, events, _, eid, edata, _, _) = first in
    let (login, _, _) = handlers-Leaves lib "" u there.prompt (ap is_null there.same_org ∙ known) in
    let (ends, departs, queue, _) = login in
    let (b, c, f, g, opened, events_b, events_c, eid_b, edata_b, eid_c, edata_c) = departs in
    (
      ends,
      (
        a,
        b,
        c,
        opened ∙ ap (λ l. l ++ (b ∷ c ∷ [])) posts,
        (e, events, eid, edata),
        (f, events_b, eid_b, edata_b),
        (
          g,
          events_c,
          eid_c,
          edata_c
              ∙ ap (λ l. page_view lib "pageexit" (record w { location = l })) there.same_location,
        ),
      ),
      queue,
    )
