-- ===== src/Page/Onload/Blocks.antt =====
-- The blocks of `window.onload` before its last leave the session and the address alone.
use Prim.Native.String.{◌++◌}
use sunbird_devops.Base.{
  ⊤, String, ◌≡◌, refl, ◌∙◌, ap, false, not, ◌&&◌, Bool-cases, inl, inr, Option, [], if◌then◌else◌,
}
use sunbird_devops.Web.Dom.{Element, Location}
use sunbird_devops.Web.Libs.{Libs}
use sunbird_devops.Web.Store.{Store, get_item}
use sunbird_devops.State.{Page, M, ok, pure, when, ◌>>◌}
use sunbird_devops.State.Laws.{continue_of_ok}
use sunbird_devops.State.Leads.{Leads, Leads-bind, Leads-when, Leads-if}
use sunbird_devops.Page.Nullable.{truthy_text, text_or_null, is_equal, at_least}
use sunbird_devops.Page.Session.{query}
use sunbird_devops.Page.Elements.{
  for_element, show, show_word, with_class, hide_element, add_version_to_url,
  toggle_google_sign_in_btn, hides_google,
}
use sunbird_devops.Page.Elements.Changed.{changed, with_doc, for_element-changed}
use sunbird_devops.Page.Onload.{
  Merging, fresh_merge, stored_merge, find_merge, mark_merge, show_messages, show_forgot_link,
  show_merge, auto_merge,
}
use sunbird_devops.Page.Onload.DeadBlock.{blocks}

-- A page with this session, at this address.
pub record IsAt (s : Store) (l : Location) (w : Page) : Type 0 where
  pub same_session : w.session ≡ s
  pub same_location : w.location ≡ l

for_element-IsAt :
    {s : Store} {l : Location} (id : String) (f : Element → Element)
    → Leads (IsAt s l) (for_element id f) (IsAt s l)
for_element-IsAt id f w x = (
  tt,
  with_doc w (changed f id w.doc),
  for_element-changed id f w,
  record { same_session = x.same_session; same_location = x.same_location },
)

-- The blocks keep what every change of an element keeps, on a page at an address without messages.
module _ (lib : Libs) (l : Location) {p : Page → Type 0}
    (kept : (id : String) (f : Element → Element) → Leads p (for_element id f) p)
    (located : (w : Page) → p w → w.location ≡ l) where
  add_version_to_url-Leads : (version : Option String) → Leads p (add_version_to_url version) p
  unfolding add_version_to_url
  add_version_to_url-Leads version =
      let second = when (at_least version 2) (for_element "stateButton" show_word) in
      Leads-when (at_least version 1) (do for_element "selfSingUp" show_word; second)
        (Leads-bind (for_element "selfSingUp" show_word) (λ _. second) (kept "selfSingUp" show_word)
          (λ _.
            Leads-when (at_least version 2) (for_element "stateButton" show_word)
              (kept "stateButton" show_word)))

  toggle-Leads : Leads p (toggle_google_sign_in_btn lib) p
  unfolding toggle_google_sign_in_btn
  toggle-Leads w =
      let hide = with_class (λ c. lib.class_list_add c "hide") in
      Leads-when (hides_google lib w) (for_element "googleSignInBtn" hide)
        (kept "googleSignInBtn" hide) w

  show_forgot_link-Leads :
      (version allowed : Option String) → Leads p (show_forgot_link lib version allowed) p
  unfolding show_forgot_link hide_element
  show_forgot_link-Leads version allowed =
      let portal = for_element "fgtPortalFlow" show in
      let with_version : Element → Element =
        λ e. record (show e) { href = e.href ++ ("&version=" ++ text_or_null version) } in
      let keycloak = for_element "fgtKeycloakFlow" with_version in
      let first : M ⊤ = if at_least version 4 then portal else keycloak in
      let closed = not (truthy_text version) && at_least allowed 4 in
      let both = hide_element "fgtKeycloakFlow" >> portal in
      Leads-bind first (λ _. when closed both)
        (Leads-if (at_least version 4) portal keycloak (kept "fgtPortalFlow" show)
          (kept "fgtKeycloakFlow" with_version))
        (λ _. Leads-when closed both (
          Leads-bind (hide_element "fgtKeycloakFlow") (λ _. portal) (kept "fgtKeycloakFlow" _)
            (λ _. kept "fgtPortalFlow" show)))

  -- the block on a stored merge that is under way
  pub mark_merge-Leads : Leads p mark_merge p
  unfolding mark_merge hide_element
  mark_merge-Leads =
      let mark : Element → Element = λ e. record e { inner_html = e.inner_html ++ "to merge" } in
      Leads-bind (hide_element "mergeAccountMessage") (λ _. for_element "error-summary" mark)
        (kept "mergeAccountMessage" _) (λ _. kept "error-summary" mark)

  module _ (no_error : truthy_text (lib.query_get l.search "error_message") ≡ false)
      (no_success : truthy_text (lib.query_get l.search "success_message") ≡ false) where
    show_messages-Leads : Leads p (show_messages lib) p
    unfolding show_messages
    show_messages-Leads w x =
        let asked =
          λ (key : String). ap (λ u. truthy_text (lib.query_get u.search key)) (located w x) in
        rw (asked "error_message" ∙ no_error)
          (rw (asked "success_message" ∙ no_success) (tt, w, refl, x))

    -- What `window.onload` does once the merge is found is to show the merge, if it is under way,
    -- and its last block.
    pub blocks-last :
        (m : Merging) (allowed : Option String) (w : Page)
        → p w
        → (v : Page) × p v
          × (blocks lib (show_forgot_link lib m.version allowed) m w
              ≡ (when (is_equal m.process "1") (show_merge lib m) >> auto_merge lib) v)
    blocks-last m allowed w x =
        let link = show_forgot_link lib m.version allowed in
        let last = when (is_equal m.process "1") (show_merge lib m) >> auto_merge lib in
        let third = link >> last in
        let second = show_messages lib >> third in
        let first = toggle_google_sign_in_btn lib >> second in
        let (_, w1, e1, x1) = add_version_to_url-Leads m.version w x in
        let (_, w2, e2, x2) = toggle-Leads w1 x1 in
        let (_, w3, e3, x3) = show_messages-Leads w2 x2 in
        let (_, w4, e4, x4) = show_forgot_link-Leads m.version allowed w3 x3 in
        (
          w4,
          x4,
          continue_of_ok (λ _. first) e1
              ∙ continue_of_ok (λ _. second) e2
              ∙ continue_of_ok (λ _. third) e3
              ∙ continue_of_ok (λ _. last) e4,
        )

module _ (lib : Libs) (s : Store) (l : Location) where
  at : (w : Page) → IsAt s l w → w.location ≡ l
  at w x = x.same_location

  -- what `find_merge` finds, on a page of this session
  abbrev pub Found : Option String → Merging → Page → Type 0
  Found process m w = (m.process ≡ process) × IsAt s l w

  stored_merge-Found :
      (version : Option String) (w : Page)
      → IsAt s l w
      → (m : Merging) × (v : Page) × (stored_merge lib version w ≡ (ok m, v))
        × Found (get_item "mergeaccountprocess" w.storage) m v
  unfolding stored_merge
  stored_merge-Found version w x =
      let process = get_item "mergeaccountprocess" w.storage in
      let again = is_equal process "1" in
      let stored = get_item "version" w.storage in
      let m : Merging = record {
        process = process;
        version = if again && not (truthy_text version) then stored else version;
        from_storage = again;
      } in
      let (_, v, e, y) =
        Leads-when again mark_merge (mark_merge-Leads lib l for_element-IsAt at) w x in
      (m, v, continue_of_ok (λ _. pure m) e, (refl, y))

  pub find_merge-Found :
      (version : Option String) (w : Page)
      → IsAt s l w
      → let asked = query lib "mergeaccountprocess" w in
        let stored = get_item "mergeaccountprocess" w.storage in
        (m : Merging) × (v : Page) × (find_merge lib version w ≡ (ok m, v))
        × Found (if truthy_text asked then asked else stored) m v
  unfolding find_merge fresh_merge
  find_merge-Found version w x =
      elim (Bool-cases (truthy_text (query lib "mergeaccountprocess" w))) [
        | inl given ↦
            let same : IsAt s l (record w { storage = [] }) = record {
              same_session = x.same_session;
              same_location = x.same_location;
            } in
            rw given (_, record w { storage = [] }, refl, (refl, same))
        | inr missing ↦ rw missing (stored_merge-Found version w x)
      ]

  -- What `window.onload` does once the merge is found, on a page of a session that migrates.
  module _ (no_error : truthy_text (lib.query_get l.search "error_message") ≡ false)
      (no_success : truthy_text (lib.query_get l.search "success_message") ≡ false) where
    pub blocks-auto_merge :
        (m : Merging) (allowed : Option String)
        → is_equal m.process "1" ≡ false
        → (w : Page) → IsAt s l w
        → (v : Page) × IsAt s l v
          × (blocks lib (show_forgot_link lib m.version allowed) m w ≡ auto_merge lib v)
    blocks-auto_merge m allowed other w x =
        let (v, y, e) = blocks-last lib l for_element-IsAt at no_error no_success m allowed w x in
        (v, y, e ∙ rw other refl)
