-- ===== src/Telemetry/Sync/Batches.antt =====
-- The size and the order of the batches of `TelemetrySyncManager`.
use sunbird_devops.Base.{
  ℕ, ◌<◌, ◌≡◌, refl, true, false, [], ◌∷◌, ◌++◌, arith, Bool-cases, inl, inr, length, length-append,
  length-drop,
}
use sunbird_devops.Js.Int.{pos}
use sunbird_devops.Js.Value.{num, get}
use sunbird_devops.State.{Page}
use sunbird_devops.Telemetry.Types.{Envelope, Post}
use sunbird_devops.Telemetry.Sync.{batch_post, sync_events, enqueue, is_due, send_telemetry}

not_due-lt :
    (e : Envelope) (w : Page) (b : ℕ)
    → get "batchsize" w.tele.config ≡ num (pos b)
    → is_due e w ≡ false
    → length w.tele.queue < b
unfolding is_due
not_due-lt e w b size h = ground (arith, size)

is_due-one :
    (e : Envelope) (w : Page)
    → get "batchsize" w.tele.config ≡ num (pos 1)
    → 0 < length w.tele.queue
    → is_due e w ≡ true
unfolding is_due
is_due-one e w size h = rw size (ground arith)

send_telemetry-due :
    (e : Envelope) (w : Page)
    → is_due e (enqueue e w) ≡ true
    → send_telemetry e w ≡ sync_events (enqueue e w)
unfolding send_telemetry
send_telemetry-due e w due = rw due

-- If the batch size is a positive number and the queue is shorter than it, `sendTelemetry` leaves
-- the queue shorter than it again.
pub send_telemetry-bounded :
    (e : Envelope) (w : Page) (b : ℕ)
    → get "batchsize" w.tele.config ≡ num (pos b)
    → 0 < b
    → length w.tele.queue < b
    → length (send_telemetry e w).1.tele.queue < b
unfolding send_telemetry sync_events enqueue
send_telemetry-bounded e w b size positive h = elim (Bool-cases (is_due e (enqueue e w))) [
  | inl due ↦ rw due (
      rw size (
        omega (arith, length-drop b (w.tele.queue ++ e ∷ []), length-append w.tele.queue (e ∷ []))))
  | inr not_due ↦ rw not_due (not_due-lt e (enqueue e w) b size not_due)
]

-- With the batch size 1 an event is always due.
pub send_telemetry-single :
    (e : Envelope) (w : Page)
    → get "batchsize" w.tele.config ≡ num (pos 1)
    → send_telemetry e w ≡ sync_events (enqueue e w)
unfolding enqueue
send_telemetry-single e w size =
    send_telemetry-due e w
      (is_due-one e (enqueue e w) size (omega (arith, length-append w.tele.queue (e ∷ []))))

-- With the batch size 1 that the page sets, and an empty queue, an event is posted at once.
pub send_telemetry-at_once :
    (e : Envelope) (w : Page)
    → get "batchsize" w.tele.config ≡ num (pos 1)
    → w.tele.queue ≡ []
    → (r : Post) × ((send_telemetry e w).1.tele.posts ≡ w.tele.posts ++ r ∷ [])
      × (r.events ≡ e ∷ [])
      × ((send_telemetry e w).1.tele.queue ≡ [])
unfolding sync_events enqueue
send_telemetry-at_once e w size empty =
    rw (send_telemetry-single e w size)
      (batch_post w.now (enqueue e w).tele, refl, rw (size, empty), rw (size, empty))

-- `sendTelemetry` leaves the library's other variables alone.
pub send_telemetry-rest :
    (e : Envelope) (w : Page)
    → ((send_telemetry e w).1.tele.envelope ≡ w.tele.envelope)
      × ((send_telemetry e w).1.tele.dispatcher ≡ w.tele.dispatcher)
      × ((send_telemetry e w).1.tele.config ≡ w.tele.config)
      × ((send_telemetry e w).1.tele.start_data ≡ w.tele.start_data)
      × ((send_telemetry e w).1.now ≡ w.now)
unfolding send_telemetry enqueue sync_events
send_telemetry-rest e w = elim (Bool-cases (is_due e (enqueue e w))) [
  | inl due ↦ rw due (refl, refl, refl, refl, refl)
  | inr not_due ↦ rw not_due (refl, refl, refl, refl, refl)
]
