-- ===== src/Login/Leave/Agreement.antt =====
-- The handlers of login.js against those of telemetry_service.js.
use Prim.Native.String.{◌++◌}
use text.Mathlib.TextLemmas.{append_assoc}
use sunbird_devops.Base.{
  Bool-cases, Option-cases, inl, inr, String, ◌≡◌, refl, sym, ◌∙◌, ap, false, Option, arith,
  if◌then◌else◌, ⊤, ◌||◌,
}
use sunbird_devops.Web.Dom.{Location}
use sunbird_devops.Web.Libs.{Libs}
use sunbird_devops.Web.Store.{get_item}
use sunbird_devops.State.Laws.{continue_of_ok}
use sunbird_devops.State.{Page, Error, M, or_raise, assign_href, ◌>>=◌, continue_with}
use sunbird_devops.Page.Nullable.{truthy_text, text_or_null}
use sunbird_devops.Page.Session.{query, get_value_from_session}
use sunbird_devops.Page.Session.Persistence.{value_of, after_value, get_value_from_session-eq}
use sunbird_devops.Page.Redirect.{
  leave_with, leave_to, redirect_to_lib, site, updated_query, is_app, is_dock, without_merge,
}
use sunbird_devops.Page.Redirect
use sunbird_devops.Login.Leave.{error_callback, google_host, from_app}
use sunbird_devops.Login.Leave

-- What a handler's address is made of: the session's and the application's urls, the text of the
-- redirect uri, and the client's id.
abbrev Target : Type 0
Target = Location → String → Location → Option String → String

module _ (lib : Libs) where
  abbrev parse : Option String → M Location
  parse text = or_raise (lib.parse_url (text_or_null text)) Error.invalid_url

  -- The statements of a handler behind its three reads, with its last one as a parameter.
  abbrev nested : (Location → Location → M ⊤) → (uri session_url : Option String) → M ⊤
  nested act uri session_url =
      let go = parse session_url >>= λ session.
      let leave = parse uri >>= λ application. act session application in
      if truthy_text uri then leave else redirect_to_lib in
      if truthy_text session_url then go else redirect_to_lib

  nested-leave_with :
      (target : Target) (act : Location → Location → M ⊤) (uri client session_url : Option String)
      (w : Page)
      → ((s a : Location) → act s a w ≡ assign_href (target s (text_or_null uri) a client) w)
      → nested act uri session_url w ≡ leave_with lib target uri client session_url w
  unfolding leave_with
  nested-leave_with target act uri client session_url w same =
      elim (Bool-cases (truthy_text session_url)) [
        | inr empty ↦ rw empty refl
        | inl full ↦ rw full (elim (Option-cases (lib.parse_url (text_or_null session_url))) [
          | inl broken ↦ rw broken refl
          | inr (s, parsed) ↦ rw parsed (elim (Bool-cases (truthy_text uri)) [
            | inr missing ↦ rw missing refl
            | inl there ↦ rw there (elim (Option-cases (lib.parse_url (text_or_null uri))) [
              | inl broken ↦ rw broken refl
              | inr (a, found) ↦ rw found (same s a)
            ])
          ])
        ])
      ]

  -- A handler of either file on a page: the read of the redirect uri, and then its rest.
  agree_at :
      (target : Target) (act : Option String → Option String → Location → Location → M ⊤) (w : Page)
      → (let uri = value_of lib "redirect_uri" w in
          let client = query lib "client_id" w in
          let v = after_value lib "redirect_uri" w in
          (s a : Location)
          → act uri client s a v ≡ assign_href (target s (text_or_null uri) a client) v)
      → continue_with
          (λ uri v.
            nested (act uri (query lib "client_id" v)) uri (get_item "session_url" v.session) v)
          (get_value_from_session lib "redirect_uri" w)
        ≡ leave_to lib target w
  unfolding leave_to
  agree_at target act w same =
      let v = after_value lib "redirect_uri" w in
      let uri = value_of lib "redirect_uri" w in
      let client = query lib "client_id" v in
      continue_of_ok
        (λ uri v.
          nested (act uri (query lib "client_id" v)) uri (get_item "session_url" v.session) v)
        (get_value_from_session-eq lib "redirect_uri" w)
      ∙ nested-leave_with target (act uri client) uri client (get_item "session_url" v.session) v
          same
      ∙ sym (
          continue_of_ok
            (λ uri v.
              leave_with lib target uri (query lib "client_id" v) (get_item "session_url" v.session)
                v)
            (get_value_from_session-eq lib "redirect_uri" w))

  agree :
      (target : Target) (act : Option String → Option String → Location → Location → M ⊤) (w : Page)
      → ((uri client : Option String) (s a : Location) (v : Page)
          → act uri client s a v ≡ assign_href (target s (text_or_null uri) a client) v)
      → continue_with
          (λ uri v.
            nested (act uri (query lib "client_id" v)) uri (get_item "session_url" v.session) v)
          (get_value_from_session lib "redirect_uri" w)
        ≡ leave_to lib target w
  agree target act w same = agree_at target act w (λ s a. same _ _ s a _)

-- An address is put together from the left, or from the right.
site-append :
    (l : Location) (rest : String) → l.protocol ++ ("//" ++ (l.host ++ rest)) ≡ site l ++ rest
site-append l rest =
    ap (λ t. l.protocol ++ t) (sym (append_assoc "//" l.host rest))
    ∙ sym (append_assoc l.protocol ("//" ++ l.host) rest)

-- The last statement of `forgetPassword`, `redirect` and `redirectToPortal` of login.js.
abbrev go_on : String → Option String → Option String → Location → Location → M ⊤
go_on path uri client s a =
    if from_app client
    then assign_href (s.protocol ++ ("//" ++ (s.host ++ (path ++ error_callback s))))
    else assign_href (a.protocol ++ ("//" ++ (a.host ++ (path ++ error_callback s))))

go_on-assign_href :
    (path : String) (uri client : Option String) (s a : Location) (v : Page)
    → go_on path uri client s a v
      ≡ assign_href
          (if is_app client
            then site s ++ (path ++ updated_query s)
            else site a ++ (path ++ updated_query s))
          v
unfolding updated_query
go_on-assign_href path uri client s a v = elim (Bool-cases (is_app client)) [
  | inl app ↦ rw app (ap (λ t. assign_href t v) (site-append s _))
  | inr web ↦ rw web (ap (λ t. assign_href t v) (site-append a _))
]

sso-assign_href :
    (uri client : Option String) (s a : Location) (v : Page)
    → (if from_app client
          then assign_href (
              text_or_null uri
              ++ ("?ssoUrl=" ++ (s.protocol ++ ("//" ++ (s.host ++ "/sign-in/sso/select-org")))))
          else assign_href (a.protocol ++ ("//" ++ (a.host ++ "/sign-in/sso/select-org"))))
        v
      ≡ assign_href
          (if is_app client
            then text_or_null uri ++ ("?ssoUrl=" ++ (site s ++ "/sign-in/sso/select-org"))
            else site a ++ "/sign-in/sso/select-org")
          v
sso-assign_href uri client s a v = elim (Bool-cases (is_app client)) [
  | inl app ↦
      rw app (ap (λ t. assign_href (text_or_null uri ++ ("?ssoUrl=" ++ t)) v) (site-append s _))
  | inr web ↦ rw web (ap (λ t. assign_href t v) (site-append a _))
]

google-assign_href :
    (uri client : Option String) (s a : Location) (v : Page)
    → (if from_app client
          then assign_href (
              text_or_null uri
              ++ ("?googleRedirectUrl="
                  ++ ((s.protocol ++ ("//" ++ (google_host s.host ++ "/google/auth")))
                      ++ error_callback s)))
          else assign_href
              (a.protocol ++ ("//" ++ (a.host ++ ("/google/auth" ++ error_callback s)))))
        v
      ≡ assign_href
          (if is_app client
            then text_or_null uri
              ++ ("?googleRedirectUrl="
                  ++ ((s.protocol ++ ("//" ++ (without_merge s.host ++ "/google/auth")))
                      ++ updated_query s))
            else site a ++ ("/google/auth" ++ updated_query s))
          v
unfolding updated_query google_host without_merge
google-assign_href uri client s a v = elim (Bool-cases (is_app client)) [
  | inl app ↦ rw app (ground arith)
  | inr web ↦ rw web (ap (λ t. assign_href t v) (site-append a _))
]

-- On every page, and whatever the two urls are, `forgetPassword`, `redirect`, `handleSsoEvent` and
-- `handleGoogleAuthEvent` of login.js come to the same result and page as those of
-- telemetry_service.js, and `redirectToPortal` of login.js does what `redirect` does.
pub handlers_agree :
    (lib : Libs) (path : String) (w : Page)
    → (Leave.forget_password lib path w ≡ Redirect.forget_password lib path w)
      × (Leave.redirect lib path w ≡ Redirect.redirect lib path w)
      × (Leave.handle_sso_event lib w ≡ Redirect.handle_sso_event lib w)
      × (Leave.handle_google_auth_event lib w ≡ Redirect.handle_google_auth_event lib w)
      × (Leave.redirect_to_portal lib path w ≡ Redirect.redirect lib path w)
unfolding Leave.forget_password Leave.redirect Leave.handle_sso_event Leave.handle_google_auth_event
    Leave.redirect_to_portal Redirect.forget_password Redirect.redirect Redirect.handle_sso_event
    Redirect.handle_google_auth_event
handlers_agree lib path w = (
  agree lib _ (go_on path) w (go_on-assign_href path),
  agree lib _ (go_on path) w (go_on-assign_href path),
  agree lib _ _ w sso-assign_href,
  agree lib _ _ w google-assign_href,
  agree lib _ (go_on path) w (go_on-assign_href path),
)

-- `redirectToPortal` of the two files agrees on every page, but for the state sign-in of the two
-- dock applications.
pub redirect_to_portal_agree :
    (lib : Libs) (path : String) (w : Page)
    → is_dock lib (query lib "client_id" w) path (text_or_null (value_of lib "redirect_uri" w))
      ≡ false
    → Leave.redirect_to_portal lib path w ≡ Redirect.redirect_to_portal lib path w
unfolding Leave.redirect_to_portal Redirect.redirect_to_portal
redirect_to_portal_agree lib path w h = agree_at lib _ (go_on path) w (λ s a.
    go_on-assign_href path (value_of lib "redirect_uri" w) (query lib "client_id" w) s a
      (after_value lib "redirect_uri" w)
    ∙ other_site s a)
  where
    other_site :
        (s a : Location)
        → assign_href
            (if is_app (query lib "client_id" w)
              then site s ++ (path ++ updated_query s)
              else site a ++ (path ++ updated_query s))
            (after_value lib "redirect_uri" w)
          ≡ assign_href
              (if is_app (query lib "client_id" w)
                  || is_dock lib
                      (query lib "client_id" w)
                      path
                      (text_or_null (value_of lib "redirect_uri" w))
                then site s ++ (path ++ updated_query s)
                else site a ++ (path ++ updated_query s))
              (after_value lib "redirect_uri" w)
    other_site s a = elim (Bool-cases (is_app (query lib "client_id" w))) [
      | inl app ↦ rw app refl
      | inr web ↦ rw web (rw h refl)
    ]
