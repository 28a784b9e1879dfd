-- ===== src/State.antt =====
-- The state of a login page with its scripts loaded, and the calls on it: a state-and-exception
-- monad, where what was written before a throw stays written.
pub mod Laws
pub mod Frame
pub mod Leads
use sunbird_devops.Base.{ℕ, String, Bool, Option, none, some, List, ⊤, if◌then◌else◌}
use sunbird_devops.Js.Value.{Value}
use sunbird_devops.Web.Store.{Store, get_item, set_item}
use sunbird_devops.Web.Dom.{Document, Element, Location}
use sunbird_devops.Telemetry.Types.{Tele}

-- what `setTimeout` holds back: the submission of the login form, and a change of `location.href`
pub data Timer : Type 0 where
  submit_login : Timer
  go_to : String → Timer

-- a request other than those of the telemetry queue, with its method, url and body
pub record Request : Type 0 where
  pub method : String
  pub url : String
  pub body : Value

-- `assigned` is what `window.location.href` was last set to, `none` before that.
pub record Page : Type 0 where
  pub now : ℕ
  pub location : Location
  pub session : Store
  pub storage : Store
  pub doc : Document
  pub assigned : Option String
  pub timers : List Timer
  pub requests : List Request
  pub org_info : Value
  pub host_url : String
  pub pdata_id : Value
  pub tenant_slug : Value
  pub user_agent : String
  pub tele : Tele

-- The exceptions that the scripts can run into: a property of null or undefined, an invalid URL,
-- invalid JSON, a call of a validator that is undefined.
pub data Error : Type 0 where
  null_property invalid_url invalid_json no_validator : Error

pub data Result (A : Type 0) : Type 0 where
  ok : A → Result A
  throw : Error → Result A

abbrev pub M : Type 0 → Type 0
M A = Page → Result A × Page

abbrev pub pure : {A : Type 0} → A → M A
pure a w = (ok a, w)

abbrev pub raise : {A : Type 0} → Error → M A
raise e w = (throw e, w)

-- The rest of a block, on what a call came to.
abbrev pub continue_with : {A B : Type 0} → (A → M B) → Result A × Page → Result B × Page
continue_with f x = elim x.0 [ ok a ↦ f a x.1 | throw e ↦ raise e x.1 ]

infixl 5 ◌>>=◌ ◌>>◌
abbrev pub ◌>>=◌ : {A B : Type 0} → M A → (A → M B) → M B
◌>>=◌ m f w = continue_with f (m w)

abbrev pub ◌>>◌ : {A B : Type 0} → M A → M B → M B
m >> k = m >>= λ _. k

abbrev pub modify : (Page → Page) → M ⊤
modify f w = (ok tt, f w)

abbrev pub gets : {A : Type 0} → (Page → A) → M A
gets f w = (ok (f w), w)

abbrev pub or_raise : {A : Type 0} → Option A → Error → M A
or_raise none e = raise e
or_raise (some a) e = pure a

-- `if (b) m`
abbrev pub when : Bool → M ⊤ → M ⊤
when b m w = if b then m w else (ok tt, w)

abbrev pub on_tele : (Tele → Tele) → Page → Page
on_tele f w = record w { tele = f w.tele }

-- `document.getElementById(id)`
abbrev pub element_by_id : String → M (Option Element)
element_by_id id = gets (λ w. get_item id w.doc)

-- an element's fields written
abbrev pub write_element : String → Element → M ⊤
write_element id e = modify (λ w. record w { doc = set_item id e w.doc })

-- `window.location.href = url`
abbrev pub assign_href : String → M ⊤
assign_href url = modify (λ w. record w { assigned = some url })

-- `sessionStorage.setItem(k, v)`
abbrev pub set_session : String → String → M ⊤
set_session k v = modify (λ w. record w { session = set_item k v w.session })

-- `localStorage.setItem(k, v)`
abbrev pub set_local : String → String → M ⊤
set_local k v = modify (λ w. record w { storage = set_item k v w.storage })
