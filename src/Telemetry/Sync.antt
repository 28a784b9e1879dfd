-- ===== src/Telemetry/Sync.antt =====
-- `TelemetrySyncManager` of telemetry_service.js: the queue of events and its batches.
pub mod Conservation
pub mod Batches
pub mod Order
pub mod Draining
pub mod Refinement
pub mod Delivery
use sunbird_devops.Base.{
  ℕ, zero, String, Bool, false, ◌||◌, Option, none, some, List, [], ◌∷◌, ◌++◌, ◌==◌, length, take,
  drop, if◌then◌else◌, ⊤,
}
use sunbird_devops.Js.Int.{pos, geb_ℤ}
use sunbird_devops.Js.Text.{to_upper}
use sunbird_devops.Js.Value.{Value, str, is_defined, number, get}
use sunbird_devops.Web.Store.{set_item}
use sunbird_devops.State.{Page, M, modify, on_tele, when, ◌>>◌}
use sunbird_devops.Telemetry.Types.{Envelope, Post, Tele}

-- `Telemetry._version`
abbrev pub version : String
version = "3.0"

-- The number of elements that `splice(0, v)` takes.
pub splice_count : Value → ℕ
splice_count v = elim (number v) [ some (pos n) ↦ n | _ ↦ zero ]

-- `n >= v`
unfoldable pub reaches : ℕ → Value → Bool
reaches n v = elim (number v) [ some b ↦ geb_ℤ (pos n) b | none ↦ false ]

-- The batch that `syncEvents` posts now.
pub batch_post : ℕ → Tele → Post
batch_post now t = record {
  host = get "host" t.config;
  apislug = get "apislug" t.config;
  endpoint = get "endpoint" t.config;
  authorization =
      let token = get "authtoken" t.config in if is_defined token then some token else none;
  ver = str version;
  ets = now;
  events = take (splice_count (get "batchsize" t.config)) t.queue;
}

-- `syncEvents`, up to the call of `jQuery.ajax`
unfoldable pub sync_events : M ⊤
unfolding batch_post splice_count
sync_events = modify λ w.
    on_tele
      (λ t. record t {
        queue = drop (splice_count (get "batchsize" t.config)) t.queue;
        posts = t.posts ++ batch_post w.now t ∷ [];
      })
      w

-- `sessionStorage.setItem("FP_T", window.EkTelemetry.fingerPrintId)` writes this text.
abbrev pub finger_print_text : Option String → String
finger_print_text none = "undefined"
finger_print_text (some id) = id

-- The event is put into the queue, and the fingerprint, known or not, into the session.
unfoldable pub enqueue : Envelope → Page → Page
enqueue event w = record w {
  session = set_item "FP_T" (finger_print_text w.tele.finger_print_id) w.session;
  tele = record w.tele { queue = w.tele.queue ++ event ∷ [] };
}

-- the condition under which a batch is posted
unfoldable pub is_due : Envelope → Page → Bool
unfolding reaches
is_due event w =
    to_upper event.eid == "END" || reaches (length w.tele.queue) (get "batchsize" w.tele.config)

-- `sendTelemetry`, the listener of `TelemetryEvent`
unfoldable pub send_telemetry : Envelope → M ⊤
unfolding enqueue is_due sync_events
send_telemetry event w =
    let queued = enqueue event w in when (is_due event queued) sync_events queued

-- `updateEventStack`
unfoldable pub update_event_stack : List Envelope → M ⊤
update_event_stack events = modify (on_tele (λ t. record t { queue = t.queue ++ events }))

-- The `done` and `fail` callbacks of the request that stands between `earlier` and `later`: the
-- answer of the server removes it from the open requests.
unfoldable pub post_done : List Post → List Post → M ⊤
post_done earlier later = modify (on_tele (λ t. record t { posts = earlier ++ later }))

unfoldable pub post_failed : List Post → Post → List Post → M ⊤
unfolding update_event_stack
post_failed earlier p later = do
  modify (on_tele (λ t. record t { posts = earlier ++ later }))
  update_event_stack p.events
