-- ===== src/Page/Onload.antt =====
-- `window.onload` and `stringToHTML` of telemetry_service.js.
pub mod DeadBlock
pub mod AutoMerge
pub mod Blocks
pub mod Migration
pub mod Back
pub mod Merged
pub mod Return
use Prim.Native.String.{◌++◌}
use sunbird_devops.Base.{String, Bool, false, not, ◌&&◌, Option, [], ◌==◌, if◌then◌else◌, ⊤}
use sunbird_devops.Web.Dom.{Element}
use sunbird_devops.Web.Libs.{Libs}
use sunbird_devops.Web.Store.{get_item, remove_item}
use sunbird_devops.State.{M, pure, modify, gets, set_local, when, ◌>>=◌, ◌>>◌}
use sunbird_devops.Page.Nullable.{truthy_text, text_or_null, is_equal, at_least}
use sunbird_devops.Page.Session.{
  query, get_value_from_session, initialize, store_value_for_migration,
}
use sunbird_devops.Page.Elements.{
  for_element, require_element, show, hide_element, add_version_to_url, toggle_google_sign_in_btn,
}
use sunbird_devops.Page.Merge.{decorate_page, merge_title}

-- The variables `mergeaccountprocess`, `version` and `renderingType` of `window.onload`.
pub record Merging : Type 0 where
  pub process : Option String
  pub version : Option String
  pub from_storage : Bool

-- A page of a merge that an earlier page started.
unfoldable pub mark_merge : M ⊤
mark_merge = do
  hide_element "mergeAccountMessage"
  for_element "error-summary" (λ e. record e { inner_html = e.inner_html ++ "to merge" })

module _ (lib : Libs) where
  -- `stringToHTML`, as text: an empty body is given back itself, and reads as its class.
  unfoldable pub string_to_html : String → String
  string_to_html s =
      let text = lib.text_of s in if text == "" then "[object HTMLBodyElement]" else text

  -- The block on `localStorage`, for a page whose address names no merge process.
  unfoldable pub stored_merge : Option String → M Merging
  unfolding mark_merge
  stored_merge version = do
    process ← gets (λ w. get_item "mergeaccountprocess" w.storage)
    stored ← gets (λ w. get_item "version" w.storage)
    let again = is_equal process "1"
    when again mark_merge
    pure (record {
      process = process;
      version = if again && not (truthy_text version) then stored else version;
      from_storage = again;
    })

  -- The other branch: `localStorage.clear()`.
  unfoldable pub fresh_merge : Option String → Option String → M Merging
  fresh_merge process version = do
    modify (λ w. record w { storage = [] })
    pure (record { process = process; version = version; from_storage = false })

  unfoldable pub find_merge : Option String → M Merging
  unfolding stored_merge fresh_merge
  find_merge version w =
      let process = query lib "mergeaccountprocess" w in
      if truthy_text process then fresh_merge process version w else stored_merge version w

  -- An element shown with a text as its markup.
  abbrev message : String → Element → Element
  message text e = record (show e) { inner_html = text }

  -- The error message of the address, or else its success message.
  unfoldable pub show_messages : M ⊤
  unfolding string_to_html
  show_messages w =
      let error_message = query lib "error_message" w in
      let success_message = query lib "success_message" w in
      if truthy_text error_message
      then require_element "error-msg" (message (string_to_html (text_or_null error_message))) w
      else when (truthy_text success_message)
          (require_element "success-msg" (message (string_to_html (text_or_null success_message))))
          w

  -- The link to the flow for forgotten passwords, by the version; `allowed` is
  -- `isForgetPasswordAllow`.
  unfoldable pub show_forgot_link : Option String → Option String → M ⊤
  unfolding at_least
  show_forgot_link version allowed = do
    let keycloak =
        for_element "fgtKeycloakFlow"
          (λ e. record (show e) { href = e.href ++ ("&version=" ++ text_or_null version) })
    if at_least version 4 then for_element "fgtPortalFlow" show else keycloak
    when (not (truthy_text version) && at_least allowed 4)
        (do hide_element "fgtKeycloakFlow"; for_element "fgtPortalFlow" show)

  -- The link back, from `localStorage` or from the address, which is then stored.
  unfoldable pub go_back : Merging → M ⊤
  go_back m w =
      let stored = text_or_null (get_item "redirectUrl" w.storage) in
      let given = text_or_null (query lib "goBackUrl" w) in
      let keep = (do
        require_element "goBack" (λ e. record e { href = given })
        set_local "mergeaccountprocess" (text_or_null m.process)
        set_local "version" (text_or_null m.version)
        set_local "redirectUrl" given) in
      if m.from_storage
      then require_element "goBack" (λ e. record e { href = stored }) w
      else keep w

  -- The elements of the ordinary sign-in hidden, the title, and the link back shown.
  unfoldable pub title_merge : M ⊤
  title_merge = do
    hide_element "kc-registration"
    hide_element "stateButton"
    hide_element "fgtKeycloakFlow"
    hide_element "fgtPortalFlow"
    for_element "signIn" (merge_title lib)
    for_element "goBack" show

  unfoldable pub show_merge : Merging → M ⊤
  unfolding title_merge go_back
  show_merge m = do
    title_merge
    go_back m
    when (not m.from_storage) (for_element "mergeAccountMessage" show)

  -- What the address says of the merge: if it starts one, the session url is noted anew.
  unfoldable pub note_start : Option String → M ⊤
  unfolding initialize
  note_start here =
      when (truthy_text here) (do
        modify (λ w. record w { session = remove_item "session_url" w.session })
        initialize lib)

  unfoldable pub migrate : Option String → M ⊤
  unfolding note_start decorate_page store_value_for_migration
  migrate here = do note_start here; decorate_page lib; store_value_for_migration lib

  -- The last block, for the merge that migrates an account.
  unfoldable pub auto_merge : M ⊤
  unfolding get_value_from_session migrate
  auto_merge = do
    value ← get_value_from_session lib "automerge"
    here ← gets (query lib "automerge")
    when (is_equal value "1") (migrate here)

  -- `window.onload`
  unfoldable pub onload : M ⊤
  unfolding find_merge show_messages show_forgot_link show_merge auto_merge
  onload = do
    version ← get_value_from_session lib "version"
    allowed ← get_value_from_session lib "version"
    m ← find_merge version
    add_version_to_url m.version
    toggle_google_sign_in_btn lib
    show_messages
    show_forgot_link m.version allowed
    when (is_equal m.process "1") (show_merge m)
    auto_merge
