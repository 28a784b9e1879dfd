-- ===== src/Telemetry/Api/Nesting.antt =====
-- Starts and ends that nest.
use sunbird_devops.Base.{ℕ, String, ◌≡◌, Bool, true, false, List}
use sunbird_devops.Js.Value.{Value, Fields}
use sunbird_devops.Web.Libs.{Libs}
use sunbird_devops.State.{Page, ok}
use sunbird_devops.Telemetry.Types.{Post}
use sunbird_devops.Telemetry.Sync.{post_done, post_failed}
use sunbird_devops.Telemetry.Dispatch.{finger_print_ready}
use sunbird_devops.Telemetry.Api.{start, end_event}
use sunbird_devops.Telemetry.Api.Calls.{Call, started, ended, run}

-- A call that neither starts nor ends anything.
abbrev pub is_beside : Call → Bool
is_beside (started config id ver given o) = false
is_beside (ended given o) = false
is_beside _ = true

-- What can happen between a start and its end, next to other starts and ends.
pub data Beside (lib : Libs) (w : Page) (v : Page) : Type 0 where
  later : (n : ℕ) → v ≡ record w { now = n } → Beside lib w v
  called : (c : Call) → is_beside c ≡ true → v ≡ (run lib c w).1 → Beside lib w v
  finger_print : (result : String) → v ≡ (finger_print_ready result w).1 → Beside lib w v
  done : (earlier after : List Post) → v ≡ (post_done earlier after w).1 → Beside lib w v
  failed :
      (earlier after : List Post) (r : Post)
      → v ≡ (post_failed earlier r after w).1
      → Beside lib w v

-- A run in which every `start` that ends well has its `end`, and every `end` its `start`.
pub data Nested (lib : Libs) : Page → Page → Type 0 where
  here : {w : Page} → Nested lib w w
  beside : {w u v : Page} → Nested lib w u → Beside lib u v → Nested lib w v
  inside :
      {w u v x : Page} (config id ver : Value) (given : Fields) (o : Value) (given' : Fields)
      (o' : Value)
      → Nested lib w u
      → (start lib config id ver given o u).0 ≡ ok tt
      → Nested lib (start lib config id ver given o u).1 v
      → x ≡ (end_event lib given' o' v).1
      → Nested lib w x
