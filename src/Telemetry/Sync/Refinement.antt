-- ===== src/Telemetry/Sync/Refinement.antt =====
-- What `TelemetrySyncManager` promises, without its queue, its batches and its requests.
use sunbird_devops.Base.{◌≡◌, sym, ◌∙◌, ap, List, [], ◌∷◌, ◌++◌}
use sunbird_devops.Bag.{
  Bag, of_list, add_all, add_all-of_list, of_list-append, add_all-append, add_all_comm,
}
use sunbird_devops.Telemetry.Types.{Envelope, Post}
use sunbird_devops.Telemetry.Sync.{update_event_stack, post_done, post_failed}
use sunbird_devops.Telemetry.Sync.Order.{
  posted, stream, posted-append, sync_events-stream, send_telemetry-stream,
}
use sunbird_devops.Telemetry.Sync.Conservation.{
  Account, Step, Reach, send, sync, done, failed, here, next,
}

-- The specification: the events that are still to be delivered, and those that are, in no order.
pub record Spec : Type 0 where
  pub pending : Bag Envelope
  pub delivered : Bag Envelope

-- What a caller and the server can see of a step.
pub data Action : Type 0 where
  accepts : Envelope → Action
  delivers : List Envelope → Action
  nothing : Action

-- The event is accepted, these pending events are delivered, or nothing happens.
abbrev SpecStep : Action → Spec → Spec → Type 0
SpecStep (accepts e) s t = t ≡ record s { pending = add_all (e ∷ []) s.pending }
SpecStep (delivers es) s t =
    (rest : Bag Envelope) × (s.pending ≡ add_all es rest)
    × (t ≡ record { pending = rest; delivered = add_all es s.delivered })
SpecStep nothing s t = t ≡ s

-- A run of the specification with its actions, the last one first.
pub data SpecReach (s : Spec) : List Action → Spec → Type 0 where
  start : SpecReach s [] s
  and_then :
      {actions : List Action} {t u : Spec} (a : Action)
      → SpecReach s actions t
      → SpecStep a t u
      → SpecReach s (a ∷ actions) u

-- A send accepts its event, an answer delivers its request's events, and nothing else is seen.
abbrev action : {a b : Account} → Step a b → Action
action (send e s) = accepts e
action (sync s) = nothing
action (done earlier later r e s) = delivers r.events
action (failed earlier later r e s) = nothing

abbrev pub actions : {a b : Account} → Reach a b → List Action
actions here = []
actions (next r s) = action s ∷ actions r

-- what an account comes to
abbrev pub view : Account → Spec
view a = record { pending = of_list (stream a.page.tele); delivered = of_list a.delivered }

-- A request may stand anywhere among the open ones.
pub posted-request :
    (earlier later : List Post) (r : Post) (b : Bag Envelope)
    → add_all (posted (earlier ++ r ∷ later)) b
      ≡ add_all r.events (add_all (posted (earlier ++ later)) b)
posted-request earlier later r b =
    ap (λ l. add_all l b) (posted-append earlier (r ∷ later))
    ∙ add_all-append (posted earlier) (r.events ++ posted later) b
    ∙ ap (add_all (posted earlier)) (add_all-append r.events (posted later) b)
    ∙ add_all_comm (posted earlier) r.events (add_all (posted later) b)
    ∙ ap (add_all r.events) (sym (add_all-append (posted earlier) (posted later) b))
    ∙ ap (λ l. add_all r.events (add_all l b)) (sym (posted-append earlier later))

abbrev held : List Post → List Envelope → Bag Envelope
held posts queue = of_list (posted posts ++ queue)

held-request :
    (earlier later : List Post) (r : Post) (queue : List Envelope)
    → held (earlier ++ r ∷ later) queue ≡ add_all r.events (held (earlier ++ later) queue)
held-request earlier later r queue =
    sym (add_all-of_list (posted (earlier ++ r ∷ later)) queue)
    ∙ posted-request earlier later r (of_list queue)
    ∙ ap (add_all r.events) (add_all-of_list (posted (earlier ++ later)) queue)

-- What a failed request puts behind the queue.
held-append :
    (posts : List Post) (queue es : List Envelope)
    → held posts (queue ++ es) ≡ add_all es (held posts queue)
held-append posts queue es =
    sym (add_all-of_list (posted posts) (queue ++ es))
    ∙ ap (add_all (posted posts)) (of_list-append queue es)
    ∙ add_all_comm (posted posts) es (of_list queue)
    ∙ ap (add_all es) (add_all-of_list (posted posts) queue)

-- A step that changes the pending events alone.
pending_path :
    (d : Bag Envelope) {p q : Bag Envelope}
    → p ≡ q
    → ◌≡◌ {A = Spec} (record { pending = p; delivered = d }) (record { pending = q; delivered = d })
pending_path d h = λ i. record { pending = h i; delivered = d }

-- A step that changes the delivered events alone.
delivered_path :
    (p : Bag Envelope) {d e : Bag Envelope}
    → d ≡ e
    → ◌≡◌ {A = Spec} (record { pending = p; delivered = d }) (record { pending = p; delivered = e })
delivered_path p h = λ i. record { pending = p; delivered = h i }

Step-SpecStep : (a b : Account) (s : Step a b) → SpecStep (action s) (view a) (view b)
unfolding post_done post_failed update_event_stack
Step-SpecStep a b (send e s) = rw s (
    pending_path (of_list a.delivered)
      (ap of_list (send_telemetry-stream e a.page) ∙ of_list-append (stream a.page.tele) (e ∷ [])))
Step-SpecStep a b (sync s) =
    rw s (pending_path (of_list a.delivered) (ap of_list (sync_events-stream a.page)))
Step-SpecStep a b (done earlier later r e s) = rw s (
  held (earlier ++ later) a.page.tele.queue,
  ap (λ posts. held posts a.page.tele.queue) e ∙ held-request earlier later r a.page.tele.queue,
  delivered_path (held (earlier ++ later) a.page.tele.queue)
      (sym (add_all-of_list r.events a.delivered)),
)
Step-SpecStep a b (failed earlier later r e s) = rw s (
    pending_path (of_list a.delivered) (
      held-append (earlier ++ later) a.page.tele.queue r.events
      ∙ sym (held-request earlier later r a.page.tele.queue)
      ∙ ap (λ posts. held posts a.page.tele.queue) (sym e)))

-- Whatever is sent, posted, answered and refused, in any order, is a run of the specification with
-- one action for each step, in the same order: a send makes its event pending, an answer takes the
-- events of its request from the pending ones and delivers them, and a batch that is posted or
-- refused changes neither what is pending nor what is delivered. What is pending is what the queue
-- and the open requests hold, in any order.
pub Reach-SpecReach : {a b : Account} (r : Reach a b) → SpecReach (view a) (actions r) (view b)
Reach-SpecReach here = start
Reach-SpecReach (next {b} {c} r s) = and_then (action s) (Reach-SpecReach r) (Step-SpecStep b c s)
