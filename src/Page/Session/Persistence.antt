-- ===== src/Page/Session/Persistence.antt =====
-- What the session remembers of the addresses that the login pages were opened with.
use sunbird_devops.Base.{
  ⊤, String, ◌≡◌, refl, ◌∙◌, ap, ◌≢◌, true, false, not, Option, none, some, eq_iff, arith,
  if◌then◌else◌, Bool-cases, inl, inr,
}
use sunbird_devops.Web.Dom.{Location}
use sunbird_devops.Web.Libs.{Libs}
use sunbird_devops.Web.Store.{get_item, set_item, get_item-set_item, get_item-set_item_self}
use sunbird_devops.State.{Page, ok, M, set_session, when, continue_with}
use sunbird_devops.Page.Nullable.{truthy_text, text_or_null}
use sunbird_devops.Page.Session.{
  query, from_query, from_session, get_value_from_session, initialize,
}

-- A later page of the same session, at another address.
abbrev pub open_at : Location → Page → Page
open_at url w = record w { location = url }

get_value-given :
    (lib : Libs) (key : String) (w : Page)
    → truthy_text (query lib key w) ≡ true
    → get_value_from_session lib key w ≡ from_query lib key (query lib key w) w
unfolding get_value_from_session
get_value-given lib key w h = rw h

get_value-missing :
    (lib : Libs) (key : String) (w : Page)
    → truthy_text (query lib key w) ≡ false
    → get_value_from_session lib key w ≡ from_session lib key w
unfolding get_value_from_session
get_value-missing lib key w h = rw h

from_session-result :
    (lib : Libs) (key : String) (w : Page)
    → (from_session lib key w).0 ≡ ok (get_item key w.session)
unfolding from_session
from_session-result lib key w = elim (Bool-cases (truthy_text (get_item key w.session))) [
  | inl found ↦ rw found
  | inr missing ↦ rw missing
]

-- `getValueFromSession` never throws, and returns the address's value, if that is not missing or
-- empty, and otherwise the session's.
pub get_value_from_session-result :
    (lib : Libs) (key : String) (w : Page)
    → (get_value_from_session lib key w).0
      ≡ ok (if truthy_text (query lib key w) then query lib key w else get_item key w.session)
get_value_from_session-result lib key w = elim (Bool-cases (truthy_text (query lib key w))) [
  | inl given ↦
      ap (λ x. x.0) (get_value-given lib key w given) ∙ rw given (unfold from_query in refl)
  | inr missing ↦
      ap (λ x. x.0) (get_value-missing lib key w missing)
      ∙ rw missing (from_session-result lib key w)
]

pub get_value_from_session-other :
    (lib : Libs) (key other : String) (w : Page)
    → key ≢ other
    → other ≢ "renderingType"
    → get_item other (get_value_from_session lib key w).1.session ≡ get_item other w.session
unfolding get_value_from_session
get_value_from_session-other lib key other w ne ne' = ground (
  arith,
  eq_iff "renderingType" other,
  eq_iff key other,
  get_item-set_item "renderingType" other "sessionStorage" w.session,
  get_item-set_item key other (text_or_null (query lib key w)) w.session,
  get_item-set_item "renderingType" other "queryParams"
      (set_item key (text_or_null (query lib key w)) w.session),
)

-- `getValueFromSession` changes nothing but the session.
pub get_value_from_session-page :
    (lib : Libs) (key : String) (w : Page)
    → (get_value_from_session lib key w).1
      ≡ record w { session = (get_value_from_session lib key w).1.session }
unfolding get_value_from_session
get_value_from_session-page lib key w = elim (Bool-cases (truthy_text (query lib key w))) [
  | inl given ↦ rw given
  | inr missing ↦ rw missing (elim (Bool-cases (truthy_text (get_item key w.session))) [
    | inl found ↦ rw found
    | inr none_there ↦ rw none_there
  ])
]

abbrev pub value_of : Libs → String → Page → Option String
value_of lib key w =
    if truthy_text (query lib key w) then query lib key w else get_item key w.session

abbrev pub after_value : Libs → String → Page → Page
after_value lib key w = record w { session = (get_value_from_session lib key w).1.session }

-- Both in one equation, to step over a call.
pub get_value_from_session-eq :
    (lib : Libs) (key : String) (w : Page)
    → get_value_from_session lib key w ≡ (ok (value_of lib key w), after_value lib key w)
get_value_from_session-eq lib key w =
    λ i. (get_value_from_session-result lib key w i, get_value_from_session-page lib key w i)

-- The session url of a page after `initialize`.
pub initialize-session_url :
    (lib : Libs) (w : Page)
    → get_item "session_url" (initialize lib w).1.session ≡ (
        if truthy_text (get_item "session_url" w.session)
        then get_item "session_url" w.session
        else some w.location.href)
unfolding initialize
initialize-session_url lib w =
    ap (λ x. get_item "session_url" (continue_with set_url x).1.session)
      (get_value_from_session-eq lib "redirect_uri" w)
    ∙ settled
  where
    set_url : Option String → M ⊤
    set_url _ v =
        when (not (truthy_text (get_item "session_url" v.session)))
          (set_session "session_url" v.location.href) v

    settled : get_item "session_url" (set_url none (after_value lib "redirect_uri" w)).1.session ≡ (
        if truthy_text (get_item "session_url" w.session)
        then get_item "session_url" w.session
        else some w.location.href)
    settled = ground (
      arith,
      get_value_from_session-other lib "redirect_uri" "session_url" w,
      eq_iff "redirect_uri" "session_url",
      eq_iff "session_url" "renderingType",
      get_item-set_item_self "session_url" w.location.href
          (after_value lib "redirect_uri" w).session,
    )

-- The first login page of a session that runs `initialize` fixes the session url: whatever address
-- a later page has, its `initialize` leaves that url as it is.
pub initialize_keeps :
    (lib : Libs) (url : Location) (w : Page)
    → truthy_text (some w.location.href) ≡ true
    → truthy_text (get_item "session_url" w.session) ≡ false
    → get_item "session_url" (initialize lib (open_at url (initialize lib w).1)).1.session
      ≡ some w.location.href
initialize_keeps lib url w full fresh =
    let first : get_item "session_url" (initialize lib w).1.session ≡ some w.location.href =
      initialize-session_url lib w ∙ rw fresh in
    initialize-session_url lib (open_at url (initialize lib w).1) ∙ rw first (rw full)
