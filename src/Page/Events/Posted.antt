-- ===== src/Page/Events/Posted.antt =====
-- Events that are posted at once, on a device whose fingerprint is known.
use sunbird_devops.Base.{
  sym, ⊤, String, ◌≡◌, refl, ◌∙◌, ap, true, false, [], ◌∷◌, ◌++◌, Bool-cases, inl, inr,
}
use sunbird_devops.Js.Int.{pos}
use sunbird_devops.Js.Value.{Value, num, str, obj, arr, nil, end, field, truthy, get}
use sunbird_devops.Js.Value.Laws.{get-put_self}
use sunbird_devops.Web.Libs.{Libs}
use sunbird_devops.State.{Result, ok, Page, on_tele}
use sunbird_devops.Telemetry.Types.{Envelope, Post, Tele, Dispatcher}
use sunbird_devops.Telemetry.Event.{update_values, get_event}
use sunbird_devops.Telemetry.Sync.{sync_events, enqueue}
use sunbird_devops.Telemetry.Sync.Batches.{send_telemetry-at_once, send_telemetry-single}
use sunbird_devops.Telemetry.Dispatch.{
  is_text, known_device, hand_by, hand_over, identify, route, is_valid, with_mid, dispatch,
}
use sunbird_devops.Page.Events.{batch_of_one, log_login_impression_event}
use sunbird_devops.Telemetry.Api.{prepare, log_event, impression}

-- A page whose events are sent at once: nothing is validated, the fingerprint is known, the
-- library's dispatcher is in use, the queue is empty, and the batches hold one event.
pub record IsPrompt (w : Page) : Type 0 where
  pub unchecked : truthy w.tele.enable_validation ≡ false
  pub known : known_device w.tele.finger_print_id ≡ true
  pub standard : w.tele.dispatcher ≡ Dispatcher.library
  pub empty : w.tele.queue ≡ []
  pub single : get "batchsize" w.tele.config ≡ num (pos 1)

-- A call posts one event, of this kind and with this data, behind the posts of a page.
abbrev pub Posts : String → Value → Page → Page → Type 0
Posts eid edata w v =
    (r : Post) × (e : Envelope) × (v.tele.posts ≡ w.tele.posts ++ r ∷ [])
    × (r.events ≡ e ∷ [])
    × (v.tele.queue ≡ [])
    × (e.eid ≡ eid)
    × (e.edata ≡ edata)

-- A call that ends well, posts one event, and leaves the page as prompt as it was, with its timers,
-- its address and its organisation.
pub record Sends (eid : String) (edata : Value) (w : Page) (x : Result ⊤ × Page) : Type 0 where
  pub ends : x.0 ≡ ok tt
  pub posting : Posts eid edata w x.1
  pub prompt : IsPrompt x.1
  pub same_timers : x.1.timers ≡ w.timers
  pub same_location : x.1.location ≡ w.location
  pub same_org : x.1.org_info ≡ w.org_info

-- What a prompt page does with an event.
hand_over-sync : (e : Envelope) (w : Page) → IsPrompt w → hand_over e w ≡ sync_events (enqueue e w)
unfolding hand_over hand_by
hand_over-sync e w p = ap (λ d. hand_by d e w) p.standard ∙ send_telemetry-single e w p.single

pub hand_over-Sends : (e : Envelope) (w : Page) → IsPrompt w → Sends e.eid e.edata w (hand_over e w)
unfolding sync_events enqueue
hand_over-Sends e w p =
    let (r, posts, events, queue) = send_telemetry-at_once e w p.single p.empty in
    let same = hand_over-sync e w p in
    let sent = send_telemetry-single e w p.single in
    rw same (record {
      ends = refl;
      posting = (
        r,
        e,
        ap (λ x. x.1.tele.posts) (sym sent) ∙ posts,
        events,
        ap (λ x. x.1.tele.queue) (sym sent) ∙ queue,
        refl,
        refl,
      );
      prompt = record {
        unchecked = p.unchecked;
        known = p.known;
        standard = p.standard;
        empty = ap (λ x. x.1.tele.queue) (sym sent) ∙ queue;
        single = p.single;
      };
      same_timers = refl;
      same_location = refl;
      same_org = refl;
    })

-- A page with another envelope is as prompt.
IsPrompt-with :
    (w : Page) (e : Envelope) → IsPrompt w → IsPrompt (on_tele (λ t. record t { envelope = e }) w)
IsPrompt-with w e p = record {
  unchecked = p.unchecked;
  known = p.known;
  standard = p.standard;
  empty = p.empty;
  single = p.single;
}

-- The library's variables may differ before, but for the posts.
Sends-from :
    (eid : String) (edata : Value) (w : Page) (t : Tele) (x : Result ⊤ × Page)
    → t.posts ≡ w.tele.posts
    → Sends eid edata (record w { tele = t }) x
    → Sends eid edata w x
Sends-from eid edata w t x same s =
    let (r, e, posts, events, queue, name, content) = s.posting in
    record {
      ends = s.ends;
      posting = (r, e, posts ∙ ap (λ l. l ++ r ∷ []) same, events, queue, name, content);
      prompt = s.prompt;
      same_timers = s.same_timers;
      same_location = s.same_location;
      same_org = s.same_org;
    }

-- An event that was written to the envelope.
written :
    (w : Page) (e : Envelope)
    → IsPrompt w
    → Sends e.eid e.edata w (hand_over e (on_tele (λ t. record t { envelope = e }) w))
written w e p =
    let v = on_tele (λ t. record t { envelope = e }) w in
    Sends-from e.eid e.edata w v.tele _ refl (hand_over-Sends e v (IsPrompt-with w e p))

route-Sends : (w : Page) → IsPrompt w → Sends w.tele.envelope.eid w.tele.envelope.edata w (route w)
unfolding route identify
route-Sends w p = elim (Bool-cases (is_text "client" w.tele.running_env)) [
  | inr server ↦ rw server (hand_over-Sends w.tele.envelope w p)
  | inl client ↦ rw client (elim (Bool-cases (truthy (get "did" w.tele.envelope.context))) [
    | inl named ↦ rw named (written w _ p)
    | inr unnamed ↦ rw unnamed (rw (p.known) (written w _ p))
  ])
]

dispatch-Sends :
    (lib : Libs) (w : Page)
    → IsPrompt w
    → Sends w.tele.envelope.eid w.tele.envelope.edata w (dispatch lib w)
unfolding dispatch is_valid
dispatch-Sends lib w p =
    let e = with_mid lib w.tele.envelope in
    let v = on_tele (λ t. record t { envelope = e }) w in
    rw (p.unchecked)
      (Sends-from e.eid e.edata w v.tele _ refl (route-Sends v (IsPrompt-with w e p)))

options-IsPrompt : (o : Value) (w : Page) → IsPrompt w → IsPrompt (on_tele (update_values o) w)
unfolding update_values
options-IsPrompt o w p = elim (Bool-cases (truthy o)) [
  | inl given ↦ rw given (record {
    unchecked = p.unchecked;
    known = p.known;
    standard = p.standard;
    empty = p.empty;
    single = p.single;
  })
  | inr missing ↦ rw missing p
]

update_values-posts : (o : Value) (t : Tele) → (update_values o t).posts ≡ t.posts
unfolding update_values
update_values-posts o t = elim (Bool-cases (truthy o)) [
  | inl given ↦ rw given refl
  | inr missing ↦ rw missing refl
]

pub log_event-Sends :
    (lib : Libs) (eid : String) (edata o : Value) (w : Page)
    → IsPrompt w
    → Sends eid edata w (log_event lib eid edata o w)
unfolding log_event prepare get_event
log_event-Sends lib eid edata o w p =
    let v = (prepare eid edata o w).1 in
    Sends-from eid edata w v.tele _ (update_values-posts o w.tele) (
      dispatch-Sends lib v (IsPrompt-with (on_tele (update_values o) w) _ (options-IsPrompt o w p)))

-- the data of the event
abbrev pub page_view : Libs → String → Page → Value
page_view lib kind w = obj (
    field "type" (str "view") (
      field "pageid" (str "login") (
        field "subtype" (str kind)
          (field "uri" (str (lib.encode_uri w.location.href)) (field "visits" (arr nil) end)))))

-- `logLoginImpressionEvent` sends at once whatever the batch size was.
pub log_login_impression_event-Sends :
    (lib : Libs) (kind : String) (w : Page)
    → truthy w.tele.enable_validation ≡ false
    → known_device w.tele.finger_print_id ≡ true
    → w.tele.dispatcher ≡ Dispatcher.library
    → w.tele.queue ≡ []
    → Sends "IMPRESSION" (page_view lib kind w) w (log_login_impression_event lib kind w)
unfolding log_login_impression_event impression
log_login_impression_event-Sends lib kind w unchecked known standard empty =
    let v = on_tele batch_of_one w in
    Sends-from "IMPRESSION" (page_view lib kind w) w v.tele _ refl (
      log_event-Sends lib "IMPRESSION" (page_view lib kind w) _ v (record {
        unchecked = unchecked;
        known = known;
        standard = standard;
        empty = empty;
        single = get-put_self "batchsize" (num (pos 1)) w.tele.config;
      }))
