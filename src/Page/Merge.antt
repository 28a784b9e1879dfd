-- ===== src/Page/Merge.antt =====
-- Merging accounts: `decoratePage` and `handlePasswordFailure` of telemetry_service.js.
pub mod Failures
pub mod Count
pub mod Dimmed
pub mod Decorated
use Prim.Native.String.{◌++◌}
use sunbird_devops.Base.{
  ℕ, ◌+◌, String, Bool, true, false, Option, none, some, List, [], ◌∷◌, ◌==◌, leb, if◌then◌else◌, ⊤,
}
use sunbird_devops.Js.Text.{decimal, to_number, to_lower}
use sunbird_devops.Web.Dom.{Element}
use sunbird_devops.Web.Libs.{Libs}
use sunbird_devops.Web.Store.{get_item}
use sunbird_devops.State.{M, ok, pure, gets, assign_href, set_session, when, ◌>>=◌, ◌>>◌}
use sunbird_devops.Page.Nullable.{truthy_text, text_or_null, is_equal}
use sunbird_devops.Page.Session.{get_value_from_session}
use sunbird_devops.Page.Elements.{for_element, hide_element, un_hide_element, set_element_value}

-- `for (…) hideElement(elementsToHide[i])`
unfoldable pub hide_all : List String → M ⊤
hide_all [] = pure tt
hide_all (id ∷ ids) = do hide_element id; hide_all ids

abbrev pub merge_hidden : List String
merge_hidden =
    "kc-registration" ∷ "stateButton" ∷ "fgtKeycloakFlow" ∷ "fgtPortalFlow" ∷ "usernameLabel"
    ∷ "usernameLabelPlaceholder" ∷ "username" ∷ []

abbrev wrong_password : String
wrong_password =
    "Invalid Email Address/Mobile number or password. Please try again with valid credentials"

-- `Number(sessionStorage.getItem('passwordFailCount') || 0) + 1`; `none` is NaN
unfoldable pub next_count : Option String → Option ℕ
next_count stored =
    let parsed = elim (to_number (text_or_null stored)) as (λ _. Option ℕ) [
      | some n ↦ some (n + 1)
      | none ↦ none
    ] in
    if truthy_text stored then parsed else some 1

abbrev count_text : Option ℕ → String
count_text none = "NaN"
count_text (some n) = decimal n

-- `passwordFailCount >= 2`
abbrev gives_up : Option ℕ → Bool
gives_up none = false
gives_up (some n) = leb 2 n

module _ (lib : Libs) where
  -- The return to the portal with an error, after the second failure.
  pub return_error : M ⊤
  unfolding get_value_from_session
  return_error = do
    identifier_type ← get_value_from_session lib "identifierType"
    user_id ← get_value_from_session lib "userId"
    identifier_value ← get_value_from_session lib "identifierValue"
    tnc_accepted ← get_value_from_session lib "tncAccepted"
    tnc_version ← get_value_from_session lib "tncVersion"
    url ← gets (λ w. w.location)
    assign_href (
        url.protocol
        ++ ("//"
            ++ (url.host
                ++ ("/sign-in/sso/auth?status=error&identifierType="
                    ++ (text_or_null identifier_type
                        ++ ("&userId="
                            ++ (text_or_null user_id
                                ++ ("&identifierValue="
                                    ++ (text_or_null identifier_value
                                        ++ ("&tncAccepted="
                                            ++ (text_or_null tnc_accepted
                                                ++ ("&tncVersion="
                                                    ++ text_or_null tnc_version))))))))))))

  -- `handlePasswordFailure`
  unfoldable pub handle_password_failure : M ⊤
  unfolding return_error next_count
  handle_password_failure = do
    stored ← gets (λ w. get_item "passwordFailCount" w.session)
    let count = next_count stored
    set_session "passwordFailCount" (count_text count)
    when (gives_up count) return_error

  -- `errorElement.innerText.toLowerCase() === wrongPasswordError.toLowerCase()`
  abbrev is_wrong_password : Element → Bool
  is_wrong_password e = to_lower (lib.text_of e.inner_html) == to_lower wrong_password

  -- What the error summary says; `true` says that it is to be hidden.
  unfoldable pub wrong_password_again : M ⊤
  unfolding handle_password_failure
  wrong_password_again = do un_hide_element "inCorrectPasswordError"; handle_password_failure

  unfoldable pub read_summary : Option Element → M Bool
  unfolding wrong_password_again to_lower
  read_summary none = pure false
  read_summary (some e) = do when (is_wrong_password e) wrong_password_again; pure true

  -- The branch of a page that was shown again.
  unfoldable pub after_failure : M Bool
  unfolding read_summary
  after_failure = do
    un_hide_element "selfSingUp"
    summary ← gets (λ w. get_item "error-summary" w.doc)
    read_summary summary

  -- `element.innerText = text`, with markup for the text
  abbrev pub label_element : String → Element → Element
  label_element text e = record e { inner_html = lib.html_of text }

  -- what `signIn` looks like while accounts are merged
  abbrev pub merge_title : Element → Element
  merge_title e = record e {
    inner_html = lib.html_of "Merge Account";
    class_name = lib.class_list_add e.class_name "fs-22";
  }

  abbrev text_or_empty : Option String → String
  text_or_empty none = ""
  text_or_empty (some s) = s

  -- The texts of the page, and the elements that are shown.
  unfoldable pub label_page : Option String → Option String → M ⊤
  label_page identifier_value go_back_url = do
    for_element "signIn" merge_title
    for_element "login" (label_element "Next")
    set_element_value "username" (text_or_empty identifier_value)
    un_hide_element "migrateAccountMessage"
    un_hide_element "goBack"
    for_element "goBack" (λ e. record e { href = text_or_null go_back_url })

  -- `if (sessionStorage.getItem('renderingType') === 'sessionStorage') { … }`
  unfoldable pub look_for_failure : M Bool
  unfolding after_failure
  look_for_failure w =
      if is_equal (get_item "renderingType" w.session) "sessionStorage"
      then after_failure w
      else (ok false, w)

  -- the elements that are hidden, in the end
  unfoldable pub hide_rest : Bool → M ⊤
  unfolding hide_all
  hide_rest has_error = do hide_all merge_hidden; when has_error (hide_element "error-summary")

  -- `decoratePage('autoMerge')`
  unfoldable pub decorate_page : M ⊤
  unfolding get_value_from_session label_page look_for_failure hide_rest
  decorate_page = do
    identifier_value ← get_value_from_session lib "identifierValue"
    go_back_url ← get_value_from_session lib "goBackUrl"
    label_page identifier_value go_back_url
    has_error ← look_for_failure
    hide_rest has_error
