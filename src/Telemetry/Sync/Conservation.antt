-- ===== src/Telemetry/Sync/Conservation.antt =====
-- No event is lost or made up between `sendTelemetry` and the server, whichever requests of
-- `syncEvents` fail.
use sunbird_devops.Base.{
  ℕ, zero, suc, ◌+◌, ◌≡◌, ◌∙◌, Bool, List, [], ◌∷◌, ◌++◌, arith, Bool-cases, inl, inr, take, drop,
  if◌then◌else◌,
}
use sunbird_devops.Js.Value.{get}
use sunbird_devops.State.{Page}
use sunbird_devops.Telemetry.Types.{Envelope, Post, Tele}
use sunbird_devops.Telemetry.Sync.{
  splice_count, batch_post, sync_events, enqueue, is_due, send_telemetry, post_done, post_failed,
}

module _ (p : Envelope → Bool) where
  -- how many events of a list pass a test
  abbrev pub count_if : List Envelope → ℕ
  count_if [] = 0
  count_if (e ∷ es) = (if p e then 1 else 0) + count_if es

  -- how many events of open requests do
  abbrev pub count_open : List Post → ℕ
  count_open [] = 0
  count_open (r ∷ rs) = count_if r.events + count_open rs

  -- how many of the queue and the open requests do
  abbrev pub count_held : Tele → ℕ
  count_held t = count_if t.queue + count_open t.posts

  pub count_if-append : (xs ys : List Envelope) → count_if (xs ++ ys) ≡ count_if xs + count_if ys
  count_if-append [] ys = omega arith
  count_if-append (x ∷ xs) ys = omega (arith, count_if-append xs ys)

  count_open-append : (xs ys : List Post) → count_open (xs ++ ys) ≡ count_open xs + count_open ys
  count_open-append [] ys = omega arith
  count_open-append (x ∷ xs) ys = omega (arith, count_open-append xs ys)

  count_if-split :
      (n : ℕ) (xs : List Envelope) → count_if (take n xs) + count_if (drop n xs) ≡ count_if xs
  count_if-split zero xs = omega arith
  count_if-split (suc n) [] = omega arith
  count_if-split (suc n) (x ∷ xs) = omega (arith, count_if-split n xs)

  pub sync_events-count : (w : Page) → count_held (sync_events w).1.tele ≡ count_held w.tele
  unfolding sync_events
  sync_events-count w = omega (
    arith,
    count_open-append w.tele.posts (batch_post w.now w.tele ∷ []),
    count_if-split (splice_count (get "batchsize" w.tele.config)) w.tele.queue,
  )

  enqueue-count :
      (e : Envelope) (w : Page)
      → count_held (enqueue e w).tele ≡ count_if (e ∷ []) + count_held w.tele
  unfolding enqueue
  enqueue-count e w = omega (arith, count_if-append w.tele.queue (e ∷ []))

  pub send_telemetry-count :
      (e : Envelope) (w : Page)
      → count_held (send_telemetry e w).1.tele ≡ count_if (e ∷ []) + count_held w.tele
  unfolding send_telemetry
  send_telemetry-count e w = elim (Bool-cases (is_due e (enqueue e w))) [
    | inl due ↦ rw due (sync_events-count (enqueue e w) ∙ enqueue-count e w)
    | inr not_due ↦ rw not_due (enqueue-count e w)
  ]

  pub post_done-count :
      (earlier later : List Post) (r : Post) (w : Page)
      → w.tele.posts ≡ earlier ++ r ∷ later
      → count_held (post_done earlier later w).1.tele + count_if r.events ≡ count_held w.tele
  unfolding post_done
  post_done-count earlier later r w e =
      rw e (omega (arith, count_open-append earlier (r ∷ later), count_open-append earlier later))

  pub post_failed-count :
      (earlier later : List Post) (r : Post) (w : Page)
      → w.tele.posts ≡ earlier ++ r ∷ later
      → count_held (post_failed earlier r later w).1.tele ≡ count_held w.tele
  unfolding post_failed
  post_failed-count earlier later r w e = rw e (
      omega (
        arith,
        count_open-append earlier (r ∷ later),
        count_open-append earlier later,
        count_if-append w.tele.queue r.events,
      ))

-- The page, with every event that it was given and every event that the server has taken.
pub record Account : Type 0 where
  pub page : Page
  pub accepted : List Envelope
  pub delivered : List Envelope

-- What can happen: an event is sent, a batch is posted, or the server answers one of the open
-- requests.
pub data Step (a : Account) (b : Account) : Type 0 where
  send :
      (e : Envelope)
      → b ≡ record {
        page = (send_telemetry e a.page).1;
        accepted = e ∷ a.accepted;
        delivered = a.delivered;
      }
      → Step a b
  sync : b ≡ record a { page = (sync_events a.page).1 } → Step a b
  done :
      (earlier later : List Post) (r : Post)
      → a.page.tele.posts ≡ earlier ++ r ∷ later
      → b ≡ record a {
        page = (post_done earlier later a.page).1;
        delivered = r.events ++ a.delivered;
      }
      → Step a b
  failed :
      (earlier later : List Post) (r : Post)
      → a.page.tele.posts ≡ earlier ++ r ∷ later
      → b ≡ record a { page = (post_failed earlier r later a.page).1 }
      → Step a b

pub data Reach (a : Account) : Account → Type 0 where
  here : Reach a a
  next : {b c : Account} → Reach a b → Step b c → Reach a c

-- Every event that was accepted is in the queue, in an open request or with the server, as often.
abbrev pub IsConserved : Account → Type 0
IsConserved a =
    (p : Envelope → Bool)
    → count_if p a.accepted ≡ count_held p a.page.tele + count_if p a.delivered

Step-IsConserved : (a b : Account) → Step a b → IsConserved a → IsConserved b
Step-IsConserved a b (send e s) h p = rw s (omega (arith, h p, send_telemetry-count p e a.page))
Step-IsConserved a b (sync s) h p = rw s (omega (arith, h p, sync_events-count p a.page))
Step-IsConserved a b (done earlier later r e s) h p = rw s (
    omega (
      arith,
      h p,
      post_done-count p earlier later r a.page e,
      count_if-append p r.events a.delivered,
    ))
Step-IsConserved a b (failed earlier later r e s) h p =
    rw s (omega (arith, h p, post_failed-count p earlier later r a.page e))

-- In every run of sends, batches, answers and failures, from a state in which no event is missing,
-- each event that was given to `sendTelemetry` is in the queue, in an open request or taken by the
-- server, exactly as often as it was given.
pub Reach-IsConserved : {a b : Account} → IsConserved a → Reach a b → IsConserved b
Reach-IsConserved h here = h
Reach-IsConserved h (next {b} {c} r s) = Step-IsConserved b c s (Reach-IsConserved h r)
