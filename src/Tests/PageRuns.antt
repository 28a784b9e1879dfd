-- ===== src/Tests/PageRuns.antt =====
-- Runs of the page's script.
use sunbird_devops.Base.{arith, true, some, [], ◌∷◌, ◌≡◌, refl, if◌then◌else◌}
use Prim.Native.String.{String, ◌++◌}
use sunbird_devops.Js.Text.{strip_prefix, replace_first, split_from, has_text}
use sunbird_devops.Web.Dom.{Element, Location, Document}
use sunbird_devops.Web.Store.{set_item, get_item}
use sunbird_devops.State.{Page}
use sunbird_devops.Page.Session.{initialize, query}
use sunbird_devops.Page.Session.Persistence.{open_at, initialize_keeps}
use sunbird_devops.Page.Password.Form.{Form}
use sunbird_devops.Page.Elements.Showing.{un_hide_element-hide_element}
use sunbird_devops.Page.Elements.{hide_element, un_hide_element}
use sunbird_devops.Page.Password.{read_value, validate_password, match_password, is_strong}
use sunbird_devops.Page.Password.Guard.{
  edit_fresh, edit_confirm, none, more, IsGuarded, Edits-IsGuarded,
}
use sunbird_devops.Page.Elements.{require_element}
use sunbird_devops.Page.Password.Form.{set_element}
use sunbird_devops.Web.Store.{set_item}
use sunbird_devops.Base.{ap, arith}
use sunbird_devops.Page.Redirect.{redirect, handle_sso_event, site, updated_query, is_app}
use sunbird_devops.Page.Redirect.Journey.{load_all, journey}
use sunbird_devops.Tests.Fixture.{libs, page, address, element, query_get, parse_url}

abbrev opened : Page
opened = page (address "client_id=android&redirect_uri=https://app.example.org/back") [] []

abbrev later : Location
later = address "client_id=android"

initialize_keeps_example :
    get_item "session_url" (initialize libs (open_at later (initialize libs opened).1)).1.session
    ≡ some opened.location.href
initialize_keeps_example = initialize_keeps libs later opened refl (unfold get_item in refl)

abbrev session_location : Location
session_location = address "client_id=android"

abbrev application_location : Location
application_location = record {
  href = "https://app.example.org/back";
  protocol = "https:";
  host = "app.example.org";
  origin = "https://app.example.org";
  search = "";
}

-- a page of the same session, without a redirect uri
abbrev second : Location
second = address "client_id=android&error=1"

journey_example :
    let v = open_at later (load_all libs (opened.location ∷ second ∷ []) opened) in
    let client = query libs "client_id" v in
    ((redirect libs "/signup" v).1.assigned
      ≡ some (
          (if is_app client then site opened.location else site application_location)
          ++ ("/signup" ++ updated_query opened.location)))
    × ((handle_sso_event libs v).1.assigned
        ≡ some (
            if is_app client
            then "https://app.example.org/back"
              ++ ("?ssoUrl=" ++ (site opened.location ++ "/sign-in/sso/select-org"))
            else site application_location ++ "/sign-in/sso/select-org"))
unfolding query_get parse_url get_item
journey_example =
    journey libs "/signup" "https://app.example.org/back" opened.location (second ∷ []) later opened
      opened.location application_location refl refl refl refl refl refl

abbrev form_elements : Document
form_elements =
    ("password-new", element "")
    ∷ ("password-confirm", element "")
    ∷ ("passwd-error-msg", element "passwdchk")
    ∷ ("passwd-match-error-msg", element "hide")
    ∷ ("login", record (element "") { disabled = true })
    ∷ []

abbrev form_page : Page
form_page = page (address "") [] form_elements

abbrev form : Form form_page
unfolding get_item
form = record {
  fresh = element "";
  confirm = element "";
  error = element "passwdchk";
  mismatch = element "hide";
  button = record (element "") { disabled = true };
  has_fresh = refl;
  has_confirm = refl;
  has_error = refl;
  has_mismatch = refl;
  has_button = refl;
}

abbrev strong : String
strong = "Abcdef1!"

-- The page after the first field was filled, and after the second.
abbrev half_filled : Page
half_filled =
    (validate_password
      (set_element "password-new" (record form.fresh { value = strong }) form_page)).1

abbrev half_form : Form half_filled
unfolding get_item set_item validate_password is_strong read_value require_element replace_first
    strip_prefix form
half_form = record {
  fresh = record (element "") { value = strong };
  confirm = element "";
  error = element "passwdchk";
  mismatch = element "hide";
  button = record (element "") { disabled = true };
  has_fresh = refl;
  has_confirm = refl;
  has_error = refl;
  has_mismatch = refl;
  has_button = refl;
}

abbrev filled : Page
filled =
    (match_password
      (set_element "password-confirm" (record half_form.confirm { value = strong }) half_filled)).1

button_enabled : get_item "login" filled.doc ≡ some (element "")
unfolding get_item set_item validate_password match_password is_strong read_value require_element
    half_form
button_enabled = refl

disabled_at_first : IsGuarded form_page
unfolding form
disabled_at_first f enabled = ground (arith, enabled, ap (λ (e : Element). e.disabled) same)
  where
    same : f.button ≡ form.button
    same = cc (f.has_button, form.has_button)

Edits-IsGuarded_example : IsGuarded filled
Edits-IsGuarded_example =
    Edits-IsGuarded disabled_at_first
      (more (more none (edit_fresh form strong refl)) (edit_confirm half_form strong refl))

abbrev buttons : Page
buttons = page (address "") [] (("login", element "btn") ∷ [])

un_hide_element-hide_element_example :
    get_item "login" (un_hide_element "login" (hide_element "login" buttons).1).1.doc
    ≡ some (record (element "btn") { class_name = "btn" ++ " " })
un_hide_element-hide_element_example =
    un_hide_element-hide_element "login" (element "btn") buttons (unfold get_item in refl)
      (unfold split_from has_text in refl) (unfold strip_prefix in (refl, (refl, (refl, tt))))
