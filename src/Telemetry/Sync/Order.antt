-- ===== src/Telemetry/Sync/Order.antt =====
-- The order in which `TelemetrySyncManager` posts events.
use mathlib.Core.List.{append-nil, append_assoc}
use sunbird_devops.Base.{
  ◌≡◌, refl, sym, ◌∙◌, ap, List, [], ◌∷◌, ◌++◌, Bool-cases, inl, inr, take-append-drop,
}
use sunbird_devops.State.{Page}
use sunbird_devops.Telemetry.Types.{Envelope, Post, Tele}
use sunbird_devops.Telemetry.Sync.{batch_post, sync_events, enqueue, is_due, send_telemetry}

-- the events of some requests, in order
abbrev pub posted : List Post → List Envelope
posted [] = []
posted (r ∷ rs) = r.events ++ posted rs

-- The events of the open requests and behind them those of the queue.
abbrev pub stream : Tele → List Envelope
stream t = posted t.posts ++ t.queue

-- `sendTelemetry` on one event after the other
abbrev pub send_all : List Envelope → Page → Page
send_all [] w = w
send_all (e ∷ es) w = send_all es (send_telemetry e w).1

pub posted-append : (rs qs : List Post) → posted (rs ++ qs) ≡ posted rs ++ posted qs
posted-append [] qs = refl
posted-append (r ∷ rs) qs =
    ap (λ l. r.events ++ l) (posted-append rs qs)
    ∙ sym (append_assoc r.events (posted rs) (posted qs))

pub sync_events-stream : (w : Page) → stream (sync_events w).1.tele ≡ stream w.tele
unfolding sync_events
sync_events-stream w =
    let t = w.tele in
    let r = batch_post w.now t in
    let rest = (sync_events w).1.tele.queue in
    ap (λ l. l ++ rest)
      (posted-append t.posts (r ∷ []) ∙ ap (λ l. posted t.posts ++ l) (append-nil r.events))
    ∙ append_assoc (posted t.posts) r.events rest
    ∙ ap (λ l. posted t.posts ++ l) (take-append-drop _ t.queue)

enqueue-stream : (e : Envelope) (w : Page) → stream (enqueue e w).tele ≡ stream w.tele ++ e ∷ []
unfolding enqueue
enqueue-stream e w = sym (append_assoc (posted w.tele.posts) w.tele.queue (e ∷ []))

pub send_telemetry-stream :
    (e : Envelope) (w : Page) → stream (send_telemetry e w).1.tele ≡ stream w.tele ++ e ∷ []
unfolding send_telemetry
send_telemetry-stream e w = elim (Bool-cases (is_due e (enqueue e w))) [
  | inl due ↦ rw due (sync_events-stream (enqueue e w) ∙ enqueue-stream e w)
  | inr not_due ↦ rw not_due (enqueue-stream e w)
]

-- While no request is answered, sending events one after the other appends them, in that order, to
-- what the open requests and then the queue hold: batches are posted in the order of their events,
-- and no event overtakes another.
pub send_all-stream :
    (es : List Envelope) (w : Page) → stream (send_all es w).tele ≡ stream w.tele ++ es
send_all-stream [] w = sym (append-nil (stream w.tele))
send_all-stream (e ∷ es) w =
    send_all-stream es (send_telemetry e w).1
    ∙ ap (λ l. l ++ es) (send_telemetry-stream e w)
    ∙ append_assoc (stream w.tele) (e ∷ []) es
