-- ===== src/Login/Shared.antt =====
-- The functions of login.js that have the same text as those of telemetry_service.js, and the call
-- that the script makes when it is loaded.
use sunbird_devops.Base.{String, Option, ⊤}
use sunbird_devops.Web.Libs.{Libs}
use sunbird_devops.State.{M}
use sunbird_devops.Page.Session as Session
use sunbird_devops.Page.Elements as Elements
use sunbird_devops.Page.Merge as Merge
use sunbird_devops.Page.Navigate as Navigate
use sunbird_devops.Page.Redirect as Redirect

-- `getValueFromSession`
abbrev pub get_value_from_session : Libs → String → M (Option String)
get_value_from_session = Session.get_value_from_session

-- `getValue`
abbrev get_value : Libs → String → M (Option String)
get_value = Session.get_value

-- `storeLocation`
abbrev store_location : M ⊤
store_location = Session.store_location

-- `storeValueForMigration`
abbrev store_value_for_migration : Libs → M ⊤
store_value_for_migration = Session.store_value_for_migration

-- `initialize`
abbrev initialize : Libs → M ⊤
initialize = Session.initialize

-- The one call at the top level.
abbrev start_up : Libs → M ⊤
start_up = initialize

-- `addClass`
abbrev add_class : String → String → String
add_class = Elements.add_class

-- `hideElement` and `unHideElement`
abbrev hide_element : String → M ⊤
hide_element = Elements.hide_element

abbrev un_hide_element : String → M ⊤
un_hide_element = Elements.un_hide_element

-- `setElementValue`
abbrev set_element_value : String → String → M ⊤
set_element_value = Elements.set_element_value

-- `addVersionToURL`
abbrev pub add_version_to_url : Option String → M ⊤
add_version_to_url = Elements.add_version_to_url

-- `viewPassword`
abbrev view_password : String → M ⊤
view_password = Elements.view_password

-- `inputBoxFocusIn` and `inputBoxFocusOut`
abbrev input_box_focus_in : Libs → String → M ⊤
input_box_focus_in = Elements.input_box_focus_in

abbrev input_box_focus_out : Libs → String → M ⊤
input_box_focus_out = Elements.input_box_focus_out

-- `handlePasswordFailure` and `decoratePage`
abbrev handle_password_failure : Libs → M ⊤
handle_password_failure = Merge.handle_password_failure

abbrev decorate_page : Libs → M ⊤
decorate_page = Merge.decorate_page

-- `urlMap`
abbrev pub url_map : Navigate.Kind → String
url_map = Navigate.url_map

-- `redirectToLib` and `backToApplication`
abbrev pub redirect_to_lib : M ⊤
redirect_to_lib = Redirect.redirect_to_lib

abbrev back_to_application : Libs → M ⊤
back_to_application = Redirect.back_to_application
