-- ===== src/Telemetry/Accounting/Runs.antt =====
-- Every event that passes is accounted for, whatever is called on `Telemetry` and whatever answers
-- come.
use sunbird_devops.Base.{ℕ, ◌+◌, ◌<◌, String, ◌≡◌, refl, List, [], ◌∷◌, ◌++◌, length, arith}
use sunbird_devops.Web.Libs.{Libs}
use sunbird_devops.State.{Page}
use sunbird_devops.Telemetry.Types.{Envelope, Post, initial_tele}
use sunbird_devops.Telemetry.Sync.{update_event_stack, post_done, post_failed}
use sunbird_devops.Telemetry.Sync.Conservation.{count_if, post_done-count, post_failed-count}
use sunbird_devops.Telemetry.Dispatch.{finger_print_ready}
use sunbird_devops.Telemetry.Api.Calls.{Call, run}
use sunbird_devops.Telemetry.Accounting.{load, every, finger_print_ready-load}
use sunbird_devops.Telemetry.Accounting.Methods.{admitted, run-load}

-- The page, with the number of events that passed and of those that the server has taken.
pub record Books : Type 0 where
  pub page : Page
  pub logged : ℕ
  pub delivered : ℕ

-- What can happen: time passes, a method is called, a callback runs that waits for the fingerprint,
-- or the server answers an open request.
pub data Entry (lib : Libs) (a : Books) (b : Books) : Type 0 where
  later : (n : ℕ) → b ≡ record a { page = record a.page { now = n } } → Entry lib a b
  called :
      (c : Call)
      → b ≡ record a { page = (run lib c a.page).1; logged = admitted lib c a.page + a.logged }
      → Entry lib a b
  finger_print :
      (result : String)
      → 0 < a.page.tele.waiting
      → b ≡ record a { page = (finger_print_ready result a.page).1 }
      → Entry lib a b
  done :
      (earlier after : List Post) (r : Post)
      → a.page.tele.posts ≡ earlier ++ r ∷ after
      → b ≡ record a {
        page = (post_done earlier after a.page).1;
        delivered = length r.events + a.delivered;
      }
      → Entry lib a b
  failed :
      (earlier after : List Post) (r : Post)
      → a.page.tele.posts ≡ earlier ++ r ∷ after
      → b ≡ record a { page = (post_failed earlier r after a.page).1 }
      → Entry lib a b

pub data Entries (lib : Libs) (a : Books) : Books → Type 0 where
  here : Entries lib a a
  next : {b c : Books} → Entries lib a b → Entry lib b c → Entries lib a c

abbrev pub AreBalanced : Books → Type 0
AreBalanced a = a.logged ≡ load a.page.tele + a.delivered

count_if-every : (es : List Envelope) → count_if every es ≡ length es
count_if-every [] = refl
count_if-every (e ∷ es) = omega (arith, count_if-every es)

Entry-AreBalanced : {lib : Libs} {a b : Books} → Entry lib a b → AreBalanced a → AreBalanced b
unfolding post_done post_failed update_event_stack
Entry-AreBalanced {lib} {a} {b} s h = elim s [
  | later n e ↦ rw e h
  | called c e ↦ rw e (omega (arith, h, run-load lib c a.page))
  | finger_print result waits e ↦
      rw e (omega (arith, h, finger_print_ready-load result a.page waits))
  | done earlier after r open_post e ↦ rw e (
      omega
        (arith, h, post_done-count every earlier after r a.page open_post, count_if-every r.events))
  | failed earlier after r open_post e ↦
      rw e (omega (arith, h, post_failed-count every earlier after r a.page open_post))
]

-- From the library as it is loaded, whichever methods are called, in any order and with any values,
-- whenever the callbacks run that wait for a fingerprint, and whichever requests fail: the number
-- of events that were logged and, if the library validates, accepted is the number of those that
-- the server has taken, that stand in open requests or in the queue, that a custom dispatcher was
-- given, and that still wait for the fingerprint. The numbers alone are
-- compared, not which events they count.
pub Entries-AreBalanced :
    (lib : Libs) (w : Page) (b : Books)
    → w.tele ≡ initial_tele
    → Entries lib (record { page = w; logged = 0; delivered = 0 }) b
    → b.logged ≡ load b.page.tele + b.delivered
Entries-AreBalanced lib w b fresh entries = reached entries
  where
    reached :
        {c : Books} → Entries lib (record { page = w; logged = 0; delivered = 0 }) c → AreBalanced c
    reached here = rw fresh (omega arith)
    reached (next earlier entry) = Entry-AreBalanced entry (reached earlier)
