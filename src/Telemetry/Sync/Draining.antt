-- ===== src/Telemetry/Sync/Draining.antt =====
-- Emptying the queue of `TelemetrySyncManager` by calls of `syncEvents`.
use sunbird_devops.Base.{
  sym, ℕ, zero, suc, ◌≤◌, ◌*◌, ◌≡◌, refl, ◌∙◌, ap, List, [], ◌∷◌, ◌++◌, arith, length, drop,
  length-drop,
}
use mathlib.Core.List.{append-nil}
use sunbird_devops.Js.Int.{pos}
use sunbird_devops.Js.Value.{num, get}
use sunbird_devops.State.{Page}
use sunbird_devops.Telemetry.Sync.{sync_events}
use sunbird_devops.Telemetry.Sync.Order.{posted, stream, sync_events-stream}

-- a number of calls of `syncEvents`, one after the other
abbrev pub sync_times : ℕ → Page → Page
sync_times zero w = w
sync_times (suc n) w = sync_times n (sync_events w).1

sync_events-queue :
    (w : Page) (b : ℕ)
    → get "batchsize" w.tele.config ≡ num (pos b)
    → (sync_events w).1.tele.queue ≡ drop b w.tele.queue
unfolding sync_events
sync_events-queue w b size = rw size refl

sync_events-config : (w : Page) → (sync_events w).1.tele.config ≡ w.tele.config
unfolding sync_events
sync_events-config w = refl

empty_of_length : {A : Type 0} (l : List A) → length l ≤ 0 → l ≡ []
empty_of_length [] h = refl
empty_of_length (x ∷ l) h =
    let none_left : ¬ (length (x ∷ l) ≤ 0) = omega arith in elim (none_left h) [ ]

pub sync_times-empty :
    (n : ℕ) (w : Page) (b : ℕ)
    → get "batchsize" w.tele.config ≡ num (pos b)
    → length w.tele.queue ≤ n * b
    → (sync_times n w).tele.queue ≡ []
sync_times-empty zero w b size enough =
    let at_most : length w.tele.queue ≤ 0 = omega arith in empty_of_length w.tele.queue at_most
sync_times-empty (suc n) w b size enough =
    let fewer : length (sync_events w).1.tele.queue ≤ n * b =
      rw (sync_events-queue w b size) (omega (arith, length-drop b w.tele.queue)) in
    sync_times-empty n (sync_events w).1 b (ap (get "batchsize") (sync_events-config w) ∙ size)
      fewer

pub sync_times-stream : (n : ℕ) (w : Page) → stream (sync_times n w).tele ≡ stream w.tele
sync_times-stream zero w = refl
sync_times-stream (suc n) w = sync_times-stream n (sync_events w).1 ∙ sync_events-stream w

-- With a whole number for the batch size, calls of `syncEvents` come to an end with the queue: once
-- they are as many as its length needs, the queue is empty, and the open requests hold the events
-- that they held before and behind them the queue's, in order.
pub sync_times-drained :
    (n : ℕ) (w : Page) (b : ℕ)
    → get "batchsize" w.tele.config ≡ num (pos b)
    → length w.tele.queue ≤ n * b
    → ((sync_times n w).tele.queue ≡ [])
      × (posted (sync_times n w).tele.posts ≡ posted w.tele.posts ++ w.tele.queue)
sync_times-drained n w b size enough =
    let empty = sync_times-empty n w b size enough in
    let all = sync_times-stream n w in
    (
      empty,
      sym (append-nil (posted (sync_times n w).tele.posts))
          ∙ ap (λ l. posted (sync_times n w).tele.posts ++ l) (sym empty)
          ∙ all,
    )
