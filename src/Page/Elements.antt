-- ===== src/Page/Elements.antt =====
-- Showing and hiding elements of the page: `hideElement`, `unHideElement`, `addClass`,
-- `setElementValue`, `addVersionToURL`, `viewPassword`, `isIOS`, `toggleGoogleSignInBtn` and the
-- two focus handlers of telemetry_service.js.
pub mod Hiding
pub mod Showing
pub mod Changed
pub mod Preview
use Prim.Native.String.{◌++◌}
use sunbird_devops.Base.{String, Bool, not, ◌&&◌, ◌||◌, Option, none, some, ◌==◌, if◌then◌else◌, ⊤}
use sunbird_devops.Js.Text.{replace_first, remove_word, split_from, has_text, includes, to_lower}
use sunbird_devops.Web.Dom.{Element}
use sunbird_devops.Web.Libs.{Libs}
use sunbird_devops.Web.Store.{get_item}
use sunbird_devops.State.{Page, Error, M, ok, raise, write_element, when, ◌>>=◌, ◌>>◌}
use sunbird_devops.Page.Nullable.{truthy_text, is_equal, at_least}
use sunbird_devops.Page.Session.{get_value_from_session, query}

-- `if (element) { … }`
abbrev pub for_element : String → (Element → Element) → M ⊤
for_element id f w = elim (get_item id w.doc) [
  | none ↦ (ok tt, w)
  | some e ↦ write_element id (f e) w
]

-- The same without the test: null has no properties.
write_found : String → (Element → Element) → Option Element → M ⊤
write_found id f none = raise Error.null_property
write_found id f (some e) = write_element id (f e)

unfoldable pub require_element : String → (Element → Element) → M ⊤
unfolding write_found
require_element id f w = write_found id f (get_item id w.doc) w

-- `addClass`, on a `class` attribute
unfoldable pub add_class : String → String → String
unfolding has_text split_from
add_class name added =
    if has_text (split_from b' ' "" name) added then name else name ++ (" " ++ added)

abbrev pub with_class : (String → String) → Element → Element
with_class f e = record e { class_name = f e.class_name }

-- `hideElement`
unfoldable pub hide_element : String → M ⊤
unfolding add_class
hide_element id = for_element id (with_class (λ c. add_class c "hide"))

abbrev pub show : Element → Element
show = with_class (λ c. replace_first "hide" "" c)

-- `unHideElement`
unfoldable pub un_hide_element : String → M ⊤
unfolding replace_first
un_hide_element id = for_element id show

-- `setElementValue`
unfoldable pub set_element_value : String → String → M ⊤
set_element_value id value = for_element id (λ e. record e { value = value })

abbrev pub show_word : Element → Element
show_word = with_class (λ c. remove_word "hide" c)

-- `addVersionToURL`
unfoldable pub add_version_to_url : Option String → M ⊤
unfolding remove_word at_least
add_version_to_url version = when (at_least version 1) (do
  for_element "selfSingUp" show_word
  when (at_least version 2) (for_element "stateButton" show_word))

-- The two branches of `viewPassword`, whose button is an element of the page.
unfoldable show_password : String → M ⊤
show_password button = do
  require_element "password-new" (λ e. record e { kind = "text" })
  require_element button (with_class (λ c. add_class c "slash"))

unfoldable conceal_password : String → M ⊤
conceal_password button = do
  require_element "password-new" (λ e. record e { kind = "password" })
  require_element button (with_class (λ c. replace_first "slash" "" c))

-- `viewPassword`
unfoldable pub view_password : String → M ⊤
unfolding show_password conceal_password add_class replace_first
view_password button w = elim (get_item "password-new" w.doc) [
  | none ↦ raise Error.null_property w
  | some e ↦ if e.kind == "password" then show_password button w else conceal_password button w
]

-- `isIOS`: the test of /iPad|iPhone|iPod/
unfoldable pub is_ios : String → Bool
unfolding includes
is_ios agent = includes "iPad" agent || includes "iPhone" agent || includes "iPod" agent

-- `document.querySelector("label[id='…']")` finds an element only if it is a label.
abbrev require_label : String → (Element → Element) → M ⊤
require_label id f w = elim (get_item id w.doc) [
  | none ↦ raise Error.null_property w
  | some e ↦ if e.tag == "label" then write_element id (f e) w else raise Error.null_property w
]

-- The label that is shown, and then the label that is hidden.
swap_labels : String → String → M ⊤
unfolding add_class replace_first
swap_labels shown hidden = do
  require_label shown show
  require_label hidden (with_class (λ c. add_class c "hide"))

module _ (lib : Libs) where
  -- `client_id && isIOS() && ['android', 'ios'].includes(client_id.toLowerCase())`
  unfoldable pub hides_google : Page → Bool
  unfolding is_ios to_lower
  hides_google w =
      let client_id = query lib "client_id" w in
      let client : String = elim client_id [ none ↦ "" | some s ↦ to_lower s ] in
      truthy_text client_id && is_ios w.user_agent && (client == "android" || client == "ios")

  -- `toggleGoogleSignInBtn`
  unfoldable pub toggle_google_sign_in_btn : M ⊤
  unfolding hides_google
  toggle_google_sign_in_btn w =
      when (hides_google w)
        (for_element "googleSignInBtn" (with_class (λ c. lib.class_list_add c "hide"))) w

  -- `inputBoxFocusIn`, on the id of its element
  unfoldable pub input_box_focus_in : String → M ⊤
  unfolding get_value_from_session swap_labels
  input_box_focus_in id = do
    auto_merge ← get_value_from_session lib "automerge"
    when (not (is_equal auto_merge "1") && not (id == "totp"))
        (swap_labels (id ++ "LabelPlaceholder") (id ++ "Label"))

  -- `inputBoxFocusOut`
  unfoldable pub input_box_focus_out : String → M ⊤
  unfolding get_value_from_session swap_labels
  input_box_focus_out id = do
    auto_merge ← get_value_from_session lib "automerge"
    when (not (is_equal auto_merge "1") && not (id == "totp"))
        (swap_labels (id ++ "Label") (id ++ "LabelPlaceholder"))
