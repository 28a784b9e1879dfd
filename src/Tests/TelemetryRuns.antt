-- ===== src/Tests/TelemetryRuns.antt =====
-- Runs of the telemetry library.
use sunbird_devops.Base.{◌&&◌, Bool, String, ◌<◌, [], ◌∷◌, ◌++◌, ◌≡◌, refl, arith, length, ◌==◌}
use sunbird_devops.Js.Int.{pos}
use sunbird_devops.Js.Text.{to_upper}
use sunbird_devops.Js.Value.{Value, num, str, obj, Fields, end, field, get}
use sunbird_devops.State.{Page, on_tele}
use sunbird_devops.Telemetry.Types.{Envelope, Post, Tele, empty_envelope, initial_tele}
use sunbird_devops.Telemetry.Sync.{
  batch_post, sync_events, enqueue, is_due, send_telemetry, post_failed,
}
use sunbird_devops.Telemetry.Sync.Conservation.{
  Account, send, failed, here, next, IsConserved, Reach-IsConserved,
}
use sunbird_devops.Telemetry.Sync.Batches.{send_telemetry-bounded}
use sunbird_devops.Telemetry.Sync.Order.{stream, send_all, send_all-stream}
use sunbird_devops.Tests.Fixture.{page, address}

abbrev event : Envelope
event = record empty_envelope { eid = "INTERACT" }

abbrev one_by_one : Fields
one_by_one = field "batchsize" (num (pos 1)) end

abbrev pairs : Fields
pairs = field "batchsize" (num (pos 2)) end

abbrev configured : Fields → Page
configured config =
    on_tele (λ t. record t { config = config }) (page (address "client_id=portal") [] [])

abbrev empty_account : Account
empty_account = record { page = configured one_by_one; accepted = []; delivered = [] }

abbrev after_send : Account
after_send = record {
  page = (send_telemetry event (configured one_by_one)).1;
  accepted = event ∷ [];
  delivered = [];
}

abbrev open_post : Post
open_post = batch_post 1700000000000 (enqueue event (configured one_by_one)).tele

abbrev after_failure : Account
after_failure = record after_send { page = (post_failed [] open_post [] after_send.page).1 }

event_is_posted : after_send.page.tele.posts ≡ [] ++ open_post ∷ []
unfolding send_telemetry is_due enqueue sync_events to_upper get
event_is_posted = refl

Reach-IsConserved_example : IsConserved after_failure
Reach-IsConserved_example =
    Reach-IsConserved {a = empty_account} {b = after_failure} (λ p. refl)
      (next (next here (send event refl)) (failed [] [] open_post event_is_posted refl))

send_telemetry-bounded_example : length (send_telemetry event (configured pairs)).1.tele.queue < 2
send_telemetry-bounded_example =
    send_telemetry-bounded event (configured pairs) 2 (unfold get in refl) (omega arith)
      (omega arith)

abbrev held_config : Fields
held_config = field "uid" (str "anonymous") end

-- Clicks on Google and on the sign-up before the fingerprint is known: the second is queued twice.
abbrev a_click : String → Value → Bool
a_click eid edata = eid == "INTERACT" && text_of edata == "self"
  where
    text_of : Value → String
    text_of (str s) = s
    text_of _ = ""

abbrev here_context : Fields
here_context = field "env" (str "public") (field "channel" (str "sunbird") end)

abbrev in_context : Tele
in_context = record initial_tele { current_context = obj here_context }

send_all-stream_example :
    stream (send_all (event ∷ empty_envelope ∷ []) (configured pairs)).tele
    ≡ stream (configured pairs).tele ++ event ∷ empty_envelope ∷ []
send_all-stream_example = send_all-stream (event ∷ empty_envelope ∷ []) (configured pairs)
