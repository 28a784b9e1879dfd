-- ===== src/Tests/SessionRuns.antt =====
-- Runs of the queue and of the page over more than one step.
use sunbird_devops.Base.{some, [], ◌∷◌, ◌≡◌, refl, ◌++◌, arith}
use sunbird_devops.Bag.{of_list, empty, add_all}
use sunbird_devops.Js.Int.{pos}
use sunbird_devops.Js.Text.{to_upper}
use sunbird_devops.Js.Value.{obj, end, field, str, num, get}
use sunbird_devops.State.{Page, submit_login, go_to}
use sunbird_devops.Telemetry.Types.{Envelope, Post, empty_envelope}
use sunbird_devops.Telemetry.Sync.{
  batch_post, sync_events, enqueue, is_due, send_telemetry, post_done, post_failed,
}
use sunbird_devops.Telemetry.Sync.Order.{stream}
use sunbird_devops.Telemetry.Sync.Conservation.{
  Account, Reach, send, sync, done, failed, here, next,
}
use sunbird_devops.Telemetry.Sync.Refinement.{SpecReach, actions, view, Reach-SpecReach}
use sunbird_devops.Telemetry.Sync.Delivery.{Reach-all_delivered}
use sunbird_devops.Page.Events.{do_login, create_telemetry_event, store_forgot_password_location}
use sunbird_devops.Page.Events.Posted.{IsPrompt}
use sunbird_devops.Page.Events.Leaving.{Leaves, handlers-Leaves}
use sunbird_devops.Tests.Fixture.{element, libs, page, address}

abbrev event : Envelope
event = record empty_envelope { eid = "INTERACT" }

-- A page with batches of two events, and an event in its queue.
abbrev waiting : Page
waiting = record (page (address "") [] []) {
  tele = record (page (address "") [] []).tele {
    config = field "batchsize" (num (pos 2)) end;
    queue = event ∷ [];
  };
}

abbrev account : Account
account = record { page = waiting; accepted = event ∷ []; delivered = [] }

-- A second event makes a batch, which the server refuses; what is put back is posted again and
-- delivered.
abbrev sent : Account
sent = record {
  page = (send_telemetry event waiting).1;
  accepted = event ∷ account.accepted;
  delivered = [];
}

abbrev batch : Post
batch = batch_post waiting.now (enqueue event waiting).tele

abbrev refused : Account
refused = record sent { page = (post_failed [] batch [] sent.page).1 }

abbrev posted_again : Account
posted_again = record refused { page = (sync_events refused.page).1 }

abbrev batch_again : Post
batch_again = batch_post refused.page.now refused.page.tele

abbrev delivered : Account
delivered = record posted_again {
  page = (post_done [] [] posted_again.page).1;
  delivered = batch_again.events ++ [];
}

is_open : sent.page.tele.posts ≡ [] ++ batch ∷ []
unfolding send_telemetry is_due enqueue sync_events to_upper get
is_open = refl

is_open_again : posted_again.page.tele.posts ≡ [] ++ batch_again ∷ []
unfolding send_telemetry is_due enqueue sync_events post_failed to_upper get
is_open_again = refl

abbrev refused_and_delivered : Reach account delivered
refused_and_delivered =
    next (next (next (next here (send event refl)) (failed [] [] batch is_open refl)) (sync refl))
      (done [] [] batch_again is_open_again refl)

Reach-SpecReach_example : SpecReach (view account) (actions refused_and_delivered) (view delivered)
Reach-SpecReach_example = Reach-SpecReach {a = account} {b = delivered} refused_and_delivered

Reach-all_delivered_example :
    (c : Account) × Reach refused c
    × (view c ≡ record {
      pending = empty;
      delivered = add_all (stream refused.page.tele) (of_list refused.delivered);
    })
Reach-all_delivered_example = Reach-all_delivered refused 2 size (omega arith)
  where
    size : get "batchsize" refused.page.tele.config ≡ num (pos 2)
    size = unfold to_upper get post_failed send_telemetry is_due enqueue sync_events in refl

-- A page whose events are sent at once.
abbrev opened : Page
opened = page (address "client_id=android") [] []

abbrev prompt : Page
prompt = record opened {
  org_info = obj (field "hashTagId" (str "b00bc992ef25f1a9a8d63291e20efc8d") end);
  tele = record opened.tele {
    config = field "batchsize" (num (pos 1)) end;
    finger_print_id = some "device";
  };
}

prompt-IsPrompt : IsPrompt prompt
prompt-IsPrompt = record {
  unchecked = refl;
  known = refl;
  standard = refl;
  empty = refl;
  single = unfold get in refl;
}

handlers-Leaves_example :
    Leaves libs "login" (submit_login ∷ []) prompt (do_login libs prompt)
    × Leaves libs "forgot-password" [] prompt (create_telemetry_event libs prompt)
    × Leaves libs "forgot-password"
        (go_to "/recover" ∷ [])
        prompt
        (store_forgot_password_location libs "/recover" prompt)
handlers-Leaves_example = handlers-Leaves libs "/recover" prompt prompt-IsPrompt refl

-- A later page of a merge that migrates an account: the sign-in form is shown again, with its
-- error.
abbrev merging : Page
merging =
    page (address "client_id=portal")
      (("automerge", "1") ∷ ("session_url", "https://merge.example.org/auth?automerge=1") ∷ [])
      (("username", element "")
        ∷ ("kc-registration", element "reg")
        ∷ ("error-summary", element "")
        ∷ [])
