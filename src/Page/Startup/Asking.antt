-- ===== src/Page/Startup/Asking.antt =====
-- A login page whose address names a client.
use Prim.Native.String
use sunbird_devops.Base.{
  String, ◌≡◌, refl, sym, ◌∙◌, ap, Bool, true, false, ◌&&◌, Bool-cases, inl, inr, Option, none,
  some, ◌==◌, arith, if◌then◌else◌, [], ◌∷◌, ◌++◌,
}
use sunbird_devops.Js.Text.{to_lower}
use sunbird_devops.Js.Value.{Value, get, fields, truthy}
use sunbird_devops.Web.Libs.{Libs}
use sunbird_devops.Web.Store.{get_item}
use sunbird_devops.State.{Page, Request, Error, ok, or_raise}
use sunbird_devops.State.Laws.{continue_of_ok}
use sunbird_devops.Page.Nullable.{truthy_text}
use sunbird_devops.Page.Session.{query, initialize}
use sunbird_devops.Page.Session.Persistence.{
  after_value, get_value_from_session-eq, initialize-session_url,
}
use sunbird_devops.Page.Events.{on_load}
use sunbird_devops.Page.Startup.{
  host_of_location, read_pdata, use_pdata, look_at_client, choose_pdata, start_up,
}
use sunbird_devops.Page.Startup.Host.{site_asked, host_of_location-site_asked}
use sunbird_devops.Page.Startup.Failure.{after_client}

-- The address of an Android client has a `pdata` that is no JSON.
abbrev pub has_bad_pdata : Libs → String → Page → Bool
has_bad_pdata lib client w =
    to_lower client == "android" && (elim (query lib "pdata" w) as (λ _. Bool) [
      | none ↦ false
      | some s ↦ elim (lib.json_parse s) as (λ _. Bool) [ none ↦ true | some _ ↦ false ]
    ])

-- a page with an id for its events
abbrev with_id : Value → Page → Page
with_id id w = record w { pdata_id = id }

module _ (lib : Libs) where
  initialize-result :
      (w : Page) → ((initialize lib w).0 ≡ ok tt) × ((initialize lib w).1.requests ≡ w.requests)
  unfolding initialize
  initialize-result w =
      let v = after_value lib "redirect_uri" w in
      rw (get_value_from_session-eq lib "redirect_uri" w)
        (elim (Bool-cases (truthy_text (get_item "session_url" v.session))) [
          | inl full ↦ rw full (refl, refl)
          | inr fresh ↦ rw fresh (refl, refl)
        ])

  parsed_json :
      (parsed : Option Value) (w : Page)
      → (elim parsed as (λ _. Bool) [ none ↦ true | some _ ↦ false ]) ≡ false
      → (v : Value) × (or_raise parsed Error.invalid_json w ≡ (ok v, w))
  parsed_json none w good = ground (arith, good)
  parsed_json (some v) w good = (v, refl)

  parsed_pdata :
      (asked : Option String) (w : Page)
      → query lib "pdata" w ≡ asked
      → (elim asked as (λ _. Bool) [
        | none ↦ false
        | some s ↦ elim (lib.json_parse s) as (λ _. Bool) [ none ↦ true | some _ ↦ false ]
      ])
        ≡ false
      → (v : Value) × (read_pdata lib w ≡ (ok v, w))
  unfolding read_pdata
  parsed_pdata none w found good = (Value.null, rw (found, read_pdata) refl)
  parsed_pdata (some s) w found good =
      let (v, e) = parsed_json (lib.json_parse s) w good in (v, rw (found, read_pdata) e)

  used_pdata : (v : Value) (w : Page) → (id : Value) × (use_pdata lib v w ≡ (ok tt, with_id id w))
  used_pdata v w = elim (Bool-cases (truthy v && truthy (get "id" (fields v)))) [
    | inl given ↦ (get "id" (fields v), rw given refl)
    | inr missing ↦ (w.pdata_id, rw missing refl)
  ]

  looked :
      (client : String) (w : Page)
      → query lib "client_id" w ≡ some client
      → has_bad_pdata lib client w ≡ false
      → (id : Value) × (look_at_client lib w ≡ (ok tt, with_id id w))
  unfolding look_at_client
  looked client w named good = elim (Bool-cases (to_lower client == "android")) [
    | inl android ↦
        let (v, e) = parsed_pdata (query lib "pdata" w) w refl (sym (rw android refl) ∙ good) in
        let (id, e2) = used_pdata v w in
        (id, rw (named, look_at_client) (rw android (continue_of_ok (use_pdata lib) e ∙ e2)))
    | inr other ↦ (w.pdata_id, rw (named, look_at_client) (rw other refl))
  ]

-- the page at the call of `initialize`
abbrev asked : Libs → Value → Page → Page
asked lib id w =
    (on_load lib
      (record (with_id id (choose_pdata lib w)) { host_url = host_of_location w.location })).1

-- If the address names a client, and the `pdata` of an Android client is missing or JSON, then the
-- script's top level ends well. It makes one request more, a POST to the search for organisations
-- at the page's origin or, if "merge." stands in that and does not begin it, at the protocol with
-- what follows the first "merge.". The session url is what it was, or the page's address if it was
-- missing or empty.
pub start_up-asks :
    (lib : Libs) (client : String) (w : Page)
    → query lib "client_id" w ≡ some client
    → has_bad_pdata lib client w ≡ false
    → ((start_up lib w).0 ≡ ok tt)
      × ((r : Request) × ((start_up lib w).1.requests ≡ w.requests ++ (r ∷ []))
          × (r.method ≡ "POST")
          × (r.url ≡ Prim.Native.String.◌++◌ (site_asked w.location) "/api/org/v2/search"))
      × (get_item "session_url" (start_up lib w).1.session ≡ (
          if truthy_text (get_item "session_url" w.session)
          then get_item "session_url" w.session
          else some w.location.href))
unfolding start_up on_load
start_up-asks lib client w named good =
    let (id, e) = looked lib client (choose_pdata lib w) named good in
    let u = asked lib id w in
    let all : start_up lib w ≡ initialize lib u = continue_of_ok (λ _ v. after_client lib v) e in
    let (ends, same) = initialize-result lib u in
    (
      ap (λ x. x.0) all ∙ ends,
      (
        _,
        ap (λ x. x.1.requests) all ∙ same,
        refl,
        ap (λ host. Prim.Native.String.◌++◌ host "/api/org/v2/search")
            (host_of_location-site_asked w.location),
      ),
      ap (λ x. get_item "session_url" x.1.session) all ∙ initialize-session_url lib u,
    )
