-- ===== src/Login/Onload/Agreement.antt =====
-- `window.onload` of the two scripts.
use sunbird_devops.Base.{
  String, ◌≡◌, refl, ◌∙◌, ap, Bool, true, false, not, ◌&&◌, Option, Bool-cases, Option-cases, inl,
  inr, ⊤, if◌then◌else◌,
}
use sunbird_devops.Web.Dom.{Element, Location}
use sunbird_devops.Web.Libs.{Libs}
use sunbird_devops.Web.Store.{get_item}
use sunbird_devops.State.{◌>>=◌, ◌>>◌, pure, Page, M, when, continue_with}
use sunbird_devops.State.Frame.{
  continue_of_same, SamePlace, SamePlace-refl, SamePlace-trans, SamePlace-continue,
}
use sunbird_devops.Page.Nullable.{truthy_text, text_or_null, is_equal, at_least}
use sunbird_devops.Page.Session.{query, get_value_from_session}
use sunbird_devops.Page.Session.Persistence.{get_value_from_session-page}
use sunbird_devops.Page.Elements.{
  for_element, hide_element, add_version_to_url, show_word, toggle_google_sign_in_btn, hides_google,
}
use sunbird_devops.Page.Onload
use sunbird_devops.Page.Onload.{mark_merge, string_to_html, find_merge}
use sunbird_devops.Login.Onload.{onload, show_messages}

-- Each block up to the messages keeps the page's address and its browser.
get_value-SamePlace :
    (lib : Libs) (key : String) (w : Page) → SamePlace w (get_value_from_session lib key w).1
get_value-SamePlace lib key w =
    rw (get_value_from_session-page lib key w) (record { same_location = refl; same_agent = refl })

for_element-SamePlace :
    (id : String) (f : Element → Element) (w : Page) → SamePlace w (for_element id f w).1
for_element-SamePlace id f w = elim (Option-cases (get_item id w.doc)) [
  | inl missing ↦ rw (for_element, missing) (SamePlace-refl w)
  | inr (e, found) ↦ rw (for_element, found) (record { same_location = refl; same_agent = refl })
]

when-SamePlace : (b : Bool) (m : M ⊤) (w : Page) → SamePlace w (m w).1 → SamePlace w (when b m w).1
when-SamePlace true m w h = h
when-SamePlace false m w h = SamePlace-refl w

then-SamePlace :
    {B : Type 0} (m : M ⊤) (k : M B) (w : Page)
    → SamePlace w (m w).1
    → ((v : Page) → SamePlace v (k v).1)
    → SamePlace w (continue_with (λ _. k) (m w)).1
then-SamePlace m k w h g =
    SamePlace-trans w (m w).1 _ h (SamePlace-continue (λ _. k) (m w) (λ _. g (m w).1))

add_version-SamePlace :
    (version : Option String) (w : Page) → SamePlace w (add_version_to_url version w).1
unfolding add_version_to_url
add_version-SamePlace version w =
    let button = when (at_least version 2) (for_element "stateButton" show_word) in
    when-SamePlace (at_least version 1) (do for_element "selfSingUp" show_word; button) w
      (then-SamePlace (for_element "selfSingUp" show_word) button w
        (for_element-SamePlace "selfSingUp" show_word w)
        (λ v.
          when-SamePlace (at_least version 2) (for_element "stateButton" show_word) v
            (for_element-SamePlace "stateButton" show_word v)))

mark_merge-SamePlace : (w : Page) → SamePlace w (mark_merge w).1
unfolding mark_merge
mark_merge-SamePlace w =
    then-SamePlace (hide_element "mergeAccountMessage") (for_element "error-summary" _) w
      (unfold hide_element in for_element-SamePlace "mergeAccountMessage" _ w)
      (λ v. for_element-SamePlace "error-summary" _ v)

find_merge-SamePlace :
    (lib : Libs) (version : Option String) (w : Page) → SamePlace w (find_merge lib version w).1
unfolding find_merge
find_merge-SamePlace lib version w =
    elim (Bool-cases (truthy_text (query lib "mergeaccountprocess" w))) [
      | inl given ↦ rw given (record { same_location = refl; same_agent = refl })
      | inr missing ↦ rw missing (
          then-SamePlace (when (is_equal (get_item "mergeaccountprocess" w.storage) "1") mark_merge)
            (pure (record {
              process = get_item "mergeaccountprocess" w.storage;
              version =
                  if is_equal (get_item "mergeaccountprocess" w.storage) "1"
                    && not (truthy_text version)
                  then get_item "version" w.storage
                  else version;
              from_storage = is_equal (get_item "mergeaccountprocess" w.storage) "1";
            }))
            w (when-SamePlace _ mark_merge w (mark_merge-SamePlace w)) (λ v. SamePlace-refl v))
    ]

-- The messages of an address are shown alike, if the markup of the ones it has is read as itself.
abbrev IsPlain : Libs → String → Page → Type 0
IsPlain lib key w =
    string_to_html lib (text_or_null (query lib key w)) ≡ text_or_null (query lib key w)

messages_agree :
    (lib : Libs) (w : Page)
    → IsPlain lib "error_message" w
    → IsPlain lib "success_message" w
    → Onload.show_messages lib w ≡ show_messages lib w
unfolding Onload.show_messages show_messages
messages_agree lib w error success = rw (error, success) refl

-- what follows the messages in both
abbrev last_blocks : Libs → Onload.Merging → Option String → M ⊤
last_blocks lib m allowed = do
  Onload.show_forgot_link lib m.version allowed
  when (is_equal m.process "1") (Onload.show_merge lib m)
  Onload.auto_merge lib

-- and what follows the version
abbrev middle : Libs → Onload.Merging → Option String → M ⊤
middle lib m allowed = do
  toggle_google_sign_in_btn lib
  Onload.show_messages lib
  last_blocks lib m allowed

middle_agree :
    (lib : Libs) (m : Onload.Merging) (allowed : Option String) (w : Page)
    → hides_google lib w ≡ false
    → IsPlain lib "error_message" w
    → IsPlain lib "success_message" w
    → middle lib m allowed w ≡ (do show_messages lib; last_blocks lib m allowed) w
unfolding toggle_google_sign_in_btn
middle_agree lib m allowed w visible error success =
    rw visible
      (ap (continue_with (λ _. last_blocks lib m allowed)) (messages_agree lib w error success))

hides_google_same :
    (lib : Libs) (w v : Page) → SamePlace w v → hides_google lib v ≡ hides_google lib w
unfolding hides_google
hides_google_same lib w v k =
    λ i. hides_google lib (record w { location = k.same_location i; user_agent = k.same_agent i })

IsPlain-same :
    (lib : Libs) (key : String) (w v : Page) → SamePlace w v → IsPlain lib key w → IsPlain lib key v
IsPlain-same lib key w v k h =
    let same : query lib key v ≡ query lib key w =
      ap (λ (l : Location). lib.query_get l.search key) k.same_location in
    rw same h

-- `window.onload` up to the version, with what follows as a parameter.
abbrev Middle : Type 0
Middle = Onload.Merging → Option String → M ⊤

module _ (lib : Libs) (mid : Middle) where
  abbrev with_merge : Option String → Onload.Merging → M ⊤
  with_merge allowed m = do add_version_to_url m.version; mid m allowed

  abbrev with_allowed : Option String → Option String → M ⊤
  with_allowed version allowed = find_merge lib version >>= with_merge allowed

  abbrev with_version : Option String → M ⊤
  with_version version = get_value_from_session lib "version" >>= with_allowed version

same_start :
    (lib : Libs) (f g : Middle) (w : Page)
    → ((m : Onload.Merging) (allowed : Option String) (v : Page)
        → SamePlace w v
        → f m allowed v ≡ g m allowed v)
    → (get_value_from_session lib "version" >>= with_version lib f) w
      ≡ (get_value_from_session lib "version" >>= with_version lib g) w
same_start lib f g w h =
    let read = λ (v : Page). get_value_from_session lib "version" v in
    let w1 = (read w).1 in
    let w2 = (read w1).1 in
    let k1 = get_value-SamePlace lib "version" w in
    let k2 = SamePlace-trans w w1 w2 k1 (get_value-SamePlace lib "version" w1) in
    continue_of_same (with_version lib f) (with_version lib g) (read w) (λ version.
      continue_of_same (with_allowed lib f version) (with_allowed lib g version) (read w1)
        (λ allowed.
          let found = find_merge lib version w2 in
          let k3 = SamePlace-trans w w2 found.1 k2 (find_merge-SamePlace lib version w2) in
          continue_of_same (with_merge lib f allowed) (with_merge lib g allowed) found (λ m.
            let shown = add_version_to_url m.version found.1 in
            continue_of_same (λ _. f m allowed) (λ _. g m allowed) shown
              (λ _.
                h m allowed shown.1 (
                  SamePlace-trans w found.1 shown.1 k3
                    (add_version-SamePlace m.version found.1))))))

-- If the Google button is not to be hidden, and the texts of the address's two messages (null for a
-- missing one) hold nothing that reads otherwise as markup, then `window.onload` of login.js leaves every page as
-- `window.onload` of telemetry_service.js does, with the same result.
pub onload_agree :
    (lib : Libs) (w : Page)
    → hides_google lib w ≡ false
    → IsPlain lib "error_message" w
    → IsPlain lib "success_message" w
    → Onload.onload lib w ≡ onload lib w
unfolding Onload.onload onload
onload_agree lib w visible error success =
    same_start lib (middle lib) (λ m allowed. do show_messages lib; last_blocks lib m allowed) w
      (λ m allowed v k.
        middle_agree lib m allowed v (hides_google_same lib w v k ∙ visible)
          (IsPlain-same lib "error_message" w v k error)
          (IsPlain-same lib "success_message" w v k success))
