-- ===== src/Page/Session.antt =====
-- Values that outlive a page: `getValueFromSession`, `getValue`, `initialize`, `storeLocation` and
-- `storeValueForMigration` of telemetry_service.js.
pub mod Persistence
pub mod Missing
pub mod History
use sunbird_devops.Base.{String, not, Option, if◌then◌else◌, ⊤}
use sunbird_devops.Web.Libs.{Libs}
use sunbird_devops.Web.Store.{get_item}
use sunbird_devops.State.{Page, M, pure, gets, set_session, set_local, when, ◌>>=◌, ◌>>◌}
use sunbird_devops.Page.Nullable.{truthy_text, text_or_null}

-- `storeLocation`
unfoldable pub store_location : M ⊤
store_location w = set_session "url" w.location.href w

module _ (lib : Libs) where
  -- `(new URLSearchParams(window.location.search)).get(key)`
  abbrev pub query : String → Page → Option String
  query key w = lib.query_get w.location.search key

  -- The branch of `getValueFromSession` on a value of the query, and the other.
  from_query : String → Option String → M (Option String)
  from_query id value = do
    set_session id (text_or_null value)
    set_session "renderingType" "queryParams"
    pure value

  from_session : String → M (Option String)
  from_session id = do
    value ← gets (λ w. get_item id w.session)
    when (truthy_text value) (set_session "renderingType" "sessionStorage")
    pure value

  unfoldable pub get_value_from_session : String → M (Option String)
  unfolding from_query from_session
  get_value_from_session id w =
      let value = query id w in
      if truthy_text value then from_query id value w else from_session id w

  -- The two branches of `getValue`, which asks `localStorage` and does not write the value to it.
  value_from_query : Option String → M (Option String)
  value_from_query value = do set_local "renderingType" "queryParams"; pure value

  value_from_storage : String → M (Option String)
  value_from_storage id = do
    value ← gets (λ w. get_item id w.storage)
    when (truthy_text value) (set_local "renderingType" "localStorage")
    pure value

  unfoldable pub get_value : String → M (Option String)
  unfolding value_from_query value_from_storage
  get_value id w =
      let value = query id w in
      if truthy_text value then value_from_query value w else value_from_storage id w

  -- `initialize`
  unfoldable pub initialize : M ⊤
  initialize = do
    get_value_from_session "redirect_uri"
    λ w.
        when (not (truthy_text (get_item "session_url" w.session)))
          (set_session "session_url" w.location.href) w

  -- One line of `storeValueForMigration`: the session's value is written back to it.
  unfoldable pub keep : String → M ⊤
  unfolding get_value_from_session
  keep id = do value ← get_value_from_session id; set_session id (text_or_null value)

  unfoldable pub store_value_for_migration : M ⊤
  unfolding keep
  store_value_for_migration = do
    keep "automerge"
    keep "goBackUrl"
    keep "identifierValue"
    keep "identifierType"
    keep "userId"
    keep "tncAccepted"
    keep "tncVersion"
