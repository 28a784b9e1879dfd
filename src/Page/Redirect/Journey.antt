-- ===== src/Page/Redirect/Journey.antt =====
-- Leaving from a later page of a session: `initialize` on every page, and then one of the handlers.
use Prim.Native.String.{◌++◌}
use sunbird_devops.Base.{
  String, ◌≡◌, refl, ◌∙◌, ap, true, false, not, Option, some, List, [], ◌∷◌, arith, eq_iff,
  if◌then◌else◌, ⊤,
}
use sunbird_devops.Web.Dom.{Location}
use sunbird_devops.Web.Libs.{Libs}
use sunbird_devops.Web.Store.{get_item, get_item-set_item}
use sunbird_devops.State.{Page, M, continue_with, set_session, when}
use sunbird_devops.Page.Nullable.{truthy_text}
use sunbird_devops.Page.Session.{query, initialize}
use sunbird_devops.Page.Session.Persistence.{
  open_at, value_of, after_value, get_value_from_session-eq, initialize-session_url,
}
use sunbird_devops.Page.Session.History.{own-session}
use sunbird_devops.Page.Redirect.{site, updated_query, is_app, redirect, handle_sso_event}
use sunbird_devops.Page.Redirect.Handlers.{handlers_valid}

-- the pages of a session, each of which runs `initialize` when it is loaded
abbrev pub load_all : Libs → List Location → Page → Page
load_all lib [] w = w
load_all lib (u ∷ us) w = load_all lib us (initialize lib (open_at u w)).1

-- The redirect uri of the last address that has one.
abbrev pub latest : Libs → List Location → Option String → Option String
latest lib [] old = old
latest lib (u ∷ us) old =
    let given = lib.query_get u.search "redirect_uri" in
    latest lib us (if truthy_text given then given else old)

initialize-redirect_uri :
    (lib : Libs) (w : Page)
    → get_item "redirect_uri" (initialize lib w).1.session ≡ value_of lib "redirect_uri" w
unfolding initialize
initialize-redirect_uri lib w =
    ap (λ x. get_item "redirect_uri" (continue_with set_url x).1.session)
      (get_value_from_session-eq lib "redirect_uri" w)
    ∙ ground (
      arith,
      get_item-set_item "session_url" "redirect_uri" w.location.href
          (after_value lib "redirect_uri" w).session,
      eq_iff "session_url" "redirect_uri",
    )
    ∙ own-session lib "redirect_uri" w
        (λ e. ground (arith, e, eq_iff "redirect_uri" "renderingType"))
  where
    set_url : Option String → M ⊤
    set_url _ v =
        when (not (truthy_text (get_item "session_url" v.session)))
          (set_session "session_url" v.location.href) v

load_all-redirect_uri :
    (lib : Libs) (us : List Location) (w : Page)
    → get_item "redirect_uri" (load_all lib us w).session
      ≡ latest lib us (get_item "redirect_uri" w.session)
load_all-redirect_uri lib [] w = refl
load_all-redirect_uri lib (u ∷ us) w =
    load_all-redirect_uri lib us (initialize lib (open_at u w)).1
    ∙ ap (latest lib us) (initialize-redirect_uri lib (open_at u w))

load_all-session_url :
    (lib : Libs) (us : List Location) (w : Page)
    → truthy_text (get_item "session_url" w.session) ≡ true
    → get_item "session_url" (load_all lib us w).session ≡ get_item "session_url" w.session
load_all-session_url lib [] w full = refl
load_all-session_url lib (u ∷ us) w full =
    let kept : get_item "session_url" (initialize lib (open_at u w)).1.session
        ≡ get_item "session_url" w.session =
      initialize-session_url lib (open_at u w) ∙ rw full refl in
    load_all-session_url lib us (initialize lib (open_at u w)).1 (ap truthy_text kept ∙ full) ∙ kept

-- A session begins at an address that is a valid URL, while no session url is stored, and all its
-- pages run `initialize` before a further page is opened. If the last redirect uri that one of the
-- addresses gave, or else the one that was stored before, is a valid URL, then `redirect` leaves
-- the further page for a path at the site of the first address, if the client is a mobile or
-- desktop application, or of the redirect uri, if not, with the query of the first address; and
-- `handleSsoEvent` leaves for the redirect uri with the sign-in of the first address's site as a
-- parameter, or for the sign-in of the redirect uri's site.
pub journey :
    (lib : Libs) (path uri : String) (first : Location) (us : List Location) (url : Location)
    (w : Page) (session application : Location)
    → truthy_text (get_item "session_url" w.session) ≡ false
    → truthy_text (some first.href) ≡ true
    → lib.parse_url first.href ≡ some session
    → latest lib (url ∷ []) (latest lib (first ∷ us) (get_item "redirect_uri" w.session)) ≡ some uri
    → truthy_text (some uri) ≡ true
    → lib.parse_url uri ≡ some application
    → let v = open_at url (load_all lib (first ∷ us) w) in
      let client = query lib "client_id" v in
      ((redirect lib path v).1.assigned
        ≡ some (
            (if is_app client then site session else site application)
            ++ (path ++ updated_query session)))
      × ((handle_sso_event lib v).1.assigned
          ≡ some (
              if is_app client
              then uri ++ ("?ssoUrl=" ++ (site session ++ "/sign-in/sso/select-org"))
              else site application ++ "/sign-in/sso/select-org"))
journey lib path uri first us url w session application fresh full parsed given full_uri
      parsed_uri =
    let v = open_at url (load_all lib (first ∷ us) w) in
    let begun : get_item "session_url" (initialize lib (open_at first w)).1.session
        ≡ some first.href =
      initialize-session_url lib (open_at first w) ∙ rw fresh refl in
    let (_, left, sso, _, _) = handlers_valid lib path v session uri application (record {
      stored = first.href;
      is_stored =
          load_all-session_url lib us (initialize lib (open_at first w)).1
            (ap truthy_text begun ∙ full)
          ∙ begun;
      is_full = full;
      is_uri =
          ap (λ old. latest lib (url ∷ []) old) (load_all-redirect_uri lib (first ∷ us) w) ∙ given;
      is_full_uri = full_uri;
      parsed = parsed;
      parsed_uri = parsed_uri;
    }) in
    (left, sso)
