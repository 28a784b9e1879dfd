-- ===== src/Page/Session/History.antt =====
-- The values of a session against the history of its pages.
use sunbird_devops.Base.{
  String, ◌≡◌, ◌≢◌, refl, ◌∙◌, ap, true, ◌&&◌, Option, none, some, List, [], ◌∷◌, ◌++◌, ◌==◌,
  eq_iff, eq_refl, sym, arith, Bool-cases, inl, inr, if◌then◌else◌,
}
use sunbird_devops.Web.Dom.{Location}
use sunbird_devops.Web.Libs.{Libs}
use sunbird_devops.Web.Store.{get_item, set_item, get_item-set_item, get_item-set_item_self}
use sunbird_devops.State.{Page, ok}
use sunbird_devops.Page.Nullable.{truthy_text, text_or_null}
use sunbird_devops.Page.Session.{query, from_query, from_session, get_value_from_session}
use sunbird_devops.Page.Session.Persistence.{
  open_at, value_of, get_value_from_session-result, get_value_from_session-other,
}

-- A page of the session: its address, and the key that a script looks up there.
abbrev pub Visit : Type 0
Visit = Location × String

-- What is remembered of a key after a visit, if `old` was before it.
abbrev pub remember : Libs → String → Visit → Option String → Option String
remember lib key visit old =
    let given = lib.query_get visit.0.search key in
    if visit.1 == key && truthy_text given then given else old

-- The value that the history of a session gives a key: the last one that an address gave it when
-- it was looked up.
abbrev pub last_given : Libs → String → List Visit → Option String → Option String
last_given lib key [] old = old
last_given lib key (v ∷ vs) old = last_given lib key vs (remember lib key v old)

-- The pages, one after the other.
abbrev pub browse : Libs → List Visit → Page → Page
browse lib [] w = w
browse lib (v ∷ vs) w = browse lib vs (get_value_from_session lib v.1 (open_at v.0 w)).1

stored_text : (o : Option String) → truthy_text o ≡ true → some (text_or_null o) ≡ o
stored_text none h = ground (arith, h)
stored_text (some s) h = refl

-- The key that is looked up.
pub own-session :
    (lib : Libs) (key : String) (w : Page)
    → key ≢ "renderingType"
    → get_item key (get_value_from_session lib key w).1.session ≡ value_of lib key w
unfolding get_value_from_session from_query from_session
own-session lib key w ne = elim (Bool-cases (truthy_text (query lib key w))) [
  | inl given ↦ rw given (
      ground (
        arith,
        ne,
        eq_iff "renderingType" key,
        stored_text (query lib key w) given,
        get_item-set_item "renderingType" key "queryParams"
            (set_item key (text_or_null (query lib key w)) w.session),
        get_item-set_item_self key (text_or_null (query lib key w)) w.session,
      ))
  | inr missing ↦ rw missing (
      ground (
        arith,
        ne,
        eq_iff "renderingType" key,
        get_item-set_item "renderingType" key "sessionStorage" w.session,
      ))
]

visit-session :
    (lib : Libs) (key : String) (v : Visit) (w : Page)
    → key ≢ "renderingType"
    → get_item key (get_value_from_session lib v.1 (open_at v.0 w)).1.session
      ≡ remember lib key v (get_item key w.session)
visit-session lib key (url, k) w ne = elim (Bool-cases (k == key)) [
  | inl same ↦
      let e : k ≡ key = (eq_iff k key).0 same in
      ap (λ j. get_item key (get_value_from_session lib j (open_at url w)).1.session) e
      ∙ own-session lib key (open_at url w) ne
      ∙ rw same refl
  | inr other ↦
      get_value_from_session-other lib k key (open_at url w)
        (λ p. ground (arith, eq_iff k key, p, other)) ne
      ∙ rw other refl
]

browse-session :
    (lib : Libs) (key : String) (vs : List Visit) (w : Page)
    → key ≢ "renderingType"
    → get_item key (browse lib vs w).session ≡ last_given lib key vs (get_item key w.session)
browse-session lib key [] w ne = refl
browse-session lib key (v ∷ vs) w ne =
    browse-session lib key vs (get_value_from_session lib v.1 (open_at v.0 w)).1 ne
    ∙ ap (last_given lib key vs) (visit-session lib key v w ne)

last_given-append :
    (lib : Libs) (key : String) (vs : List Visit) (v : Visit) (old : Option String)
    → last_given lib key (vs ++ v ∷ []) old ≡ remember lib key v (last_given lib key vs old)
last_given-append lib key [] v old = refl
last_given-append lib key (u ∷ vs) v old = last_given-append lib key vs v (remember lib key u old)

-- For every key but `renderingType`, which `getValueFromSession` writes itself, session storage
-- holds the history: after any number of pages, each looking up a key of its own, the session has
-- for the key what its history gives it, and a further lookup of the key returns the value that the
-- history with that page gives it.
pub browse-last_given :
    (lib : Libs) (key : String) (vs : List Visit) (url : Location) (w : Page)
    → key ≢ "renderingType"
    → (get_item key (browse lib vs w).session ≡ last_given lib key vs (get_item key w.session))
      × ((get_value_from_session lib key (open_at url (browse lib vs w))).0
          ≡ ok (last_given lib key (vs ++ (url, key) ∷ []) (get_item key w.session)))
browse-last_given lib key vs url w ne =
    let held = browse-session lib key vs w ne in
    (
      held,
      get_value_from_session-result lib key (open_at url (browse lib vs w))
          ∙ ap ok (
              ap
                (λ o.
                  if truthy_text (lib.query_get url.search key)
                  then lib.query_get url.search key
                  else o)
                held
              ∙ same_key
              ∙ sym (last_given-append lib key vs (url, key) (get_item key w.session))),
    )
  where
    same_key :
        (if truthy_text (lib.query_get url.search key)
          then lib.query_get url.search key
          else last_given lib key vs (get_item key w.session))
        ≡ remember lib key (url, key) (last_given lib key vs (get_item key w.session))
    same_key = rw (eq_refl key) refl
