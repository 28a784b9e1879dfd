-- ===== src/Telemetry/Sync/Delivery.antt =====
-- From every state of `TelemetrySyncManager` the server can still be given all events.
use sunbird_devops.Base.{
  ℕ, zero, suc, ◌≤◌, ◌<◌, ◌*◌, ◌≡◌, refl, sym, ◌∙◌, ap, List, [], ◌∷◌, ◌++◌, arith, length,
}
use mathlib.Core.List.{append_assoc}
use sunbird_devops.Bag.{Bag, of_list, empty, add_all, add_all-of_list, add_all-append, add_all_comm}
use sunbird_devops.Js.Int.{pos}
use sunbird_devops.Js.Value.{num, get}
use sunbird_devops.State.{Page}
use sunbird_devops.Telemetry.Types.{Envelope, Post}
use sunbird_devops.Telemetry.Sync.{sync_events, post_done}
use sunbird_devops.Telemetry.Sync.Order.{posted, stream}
use sunbird_devops.Telemetry.Sync.Conservation.{Account, Reach, sync, done, here, next}
use sunbird_devops.Telemetry.Sync.Draining.{sync_times, sync_times-empty, sync_times-stream}
use sunbird_devops.Telemetry.Sync.Refinement.{view}

Reach-trans : {a b c : Account} → Reach a b → Reach b c → Reach a c
Reach-trans r here = r
Reach-trans r (next q s) = next (Reach-trans r q) s

-- the events that were delivered, and those that are not yet
abbrev total : Account → Bag Envelope
total a = add_all (stream a.page.tele) (of_list a.delivered)

-- `syncEvents`, a number of times
abbrev with_page : Account → Page → Account
with_page a w = record a { page = w }

Reach-sync_times : (n : ℕ) (a : Account) → Reach a (with_page a (sync_times n a.page))
Reach-sync_times zero a = here
Reach-sync_times (suc n) a =
    Reach-trans (next here (sync refl)) (Reach-sync_times n (with_page a (sync_events a.page).1))

-- An account in which the server has answered all requests.
record IsAnswered (a : Account) (c : Account) : Type 0 where
  reached : Reach a c
  no_posts : c.page.tele.posts ≡ []
  same_queue : c.page.tele.queue ≡ a.page.tele.queue
  same_total : total c ≡ total a

-- the account behind the answer to the first request
abbrev answer : List Post → Post → Account → Account
answer later r a = record a {
  page = (post_done [] later a.page).1;
  delivered = r.events ++ a.delivered;
}

answer-total :
    (later : List Post) (r : Post) (a : Account)
    → a.page.tele.posts ≡ r ∷ later
    → total (answer later r a) ≡ total a
unfolding post_done
answer-total later r a e =
    let kept = posted later ++ a.page.tele.queue in
    let had = of_list a.delivered in
    ap (add_all kept) (sym (add_all-of_list r.events a.delivered))
    ∙ add_all_comm kept r.events had
    ∙ sym (add_all-append r.events kept had)
    ∙ ap (λ l. add_all l had) (sym (append_assoc r.events (posted later) a.page.tele.queue))
    ∙ ap (λ posts. add_all (posted posts ++ a.page.tele.queue) had) (sym e)

answer_all :
    (posts : List Post) (a : Account) → a.page.tele.posts ≡ posts → (c : Account) × IsAnswered a c
unfolding post_done
answer_all [] a e =
    (a, record { reached = here; no_posts = e; same_queue = refl; same_total = refl })
answer_all (r ∷ later) a e =
    let b = answer later r a in
    let (c, h) = answer_all later b refl in
    (
      c,
      record {
        reached = Reach-trans (next here (done [] later r e refl)) h.reached;
        no_posts = h.no_posts;
        same_queue = h.same_queue;
        same_total = h.same_total ∙ answer-total later r a e;
      },
    )

le-mul : (n b : ℕ) → 0 < b → n ≤ n * b
le-mul zero b h = omega arith
le-mul (suc n) b h = omega (arith, h, le-mul n b h)

-- With a batch size of at least one, whatever has happened, there is a run of `syncEvents` and
-- answers behind which nothing is pending, and the server has, next to what it had, exactly what
-- the queue and the open requests held.
pub Reach-all_delivered :
    (a : Account) (b : ℕ)
    → get "batchsize" a.page.tele.config ≡ num (pos b)
    → 0 < b
    → (c : Account) × Reach a c
      × (view c ≡ record {
        pending = empty;
        delivered = add_all (stream a.page.tele) (of_list a.delivered);
      })
Reach-all_delivered a b size positive =
    let n = length a.page.tele.queue in
    let drained = with_page a (sync_times n a.page) in
    let (c, h) = answer_all drained.page.tele.posts drained refl in
    let no_queue = sync_times-empty n a.page b size (le-mul n b positive) in
    let nothing : stream c.page.tele ≡ [] =
      ap (λ posts. posted posts ++ c.page.tele.queue) h.no_posts ∙ h.same_queue ∙ no_queue in
    let all : of_list c.delivered ≡ add_all (stream a.page.tele) (of_list a.delivered) =
      sym (add_all-of_list [] c.delivered)
      ∙ ap (λ l. add_all l (of_list c.delivered)) (sym nothing)
      ∙ h.same_total
      ∙ ap (λ l. add_all l (of_list a.delivered)) (sync_times-stream n a.page) in
    (
      c,
      Reach-trans (Reach-sync_times n a) h.reached,
      λ i. record { pending = of_list (nothing i); delivered = all i },
    )
