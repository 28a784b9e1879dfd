-- ===== src/Login/Onload.antt =====
-- `window.onload` and `makeDivUnclickable` of login.js. The blocks of `window.onload` that have the
-- same text in both scripts are those of Page.Onload.
pub mod Agreement
use sunbird_devops.Base.{String, ⊤, if◌then◌else◌}
use sunbird_devops.Web.Dom.{Element}
use sunbird_devops.Web.Libs.{Libs}
use sunbird_devops.State.{M, when, ◌>>=◌, ◌>>◌}
use sunbird_devops.Page.Nullable.{truthy_text, text_or_null, is_equal}
use sunbird_devops.Page.Session.{query}
use sunbird_devops.Page.Elements.{require_element, show}
use sunbird_devops.Login.Shared.{get_value_from_session, add_version_to_url}
use sunbird_devops.Page.Onload.{find_merge, show_forgot_link, show_merge, auto_merge}

-- `makeDivUnclickable`
unfoldable pub make_div_unclickable : M ⊤
make_div_unclickable = do
  require_element "kc-form-wrapper" (λ e. record e { display = "block" })
  require_element "kc-form" (λ e. record e { class_name = "unClickable" })

-- An element shown with a text as its markup.
abbrev pub raw_message : String → Element → Element
raw_message text e = record (show e) { inner_html = text }

module _ (lib : Libs) where
  -- The error message of the address, or else its success message: the value of the query itself.
  unfoldable pub show_messages : M ⊤
  show_messages w =
      let error_message = query lib "error_message" w in
      let success_message = query lib "success_message" w in
      if truthy_text error_message
      then require_element "error-msg" (raw_message (text_or_null error_message)) w
      else when (truthy_text success_message)
          (require_element "success-msg" (raw_message (text_or_null success_message))) w

  -- `window.onload`
  unfoldable pub onload : M ⊤
  unfolding show_messages
  onload = do
    version ← get_value_from_session lib "version"
    allowed ← get_value_from_session lib "version"
    m ← find_merge lib version
    add_version_to_url m.version
    show_messages
    show_forgot_link lib m.version allowed
    when (is_equal m.process "1") (show_merge lib m)
    auto_merge lib
