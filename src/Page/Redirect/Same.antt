-- ===== src/Page/Redirect/Same.antt =====
-- The handlers that leave the page read its address and two values of its session.
use sunbird_devops.Base.{
  String, ◌≡◌, refl, ◌∙◌, sym, ap, Option, Bool-cases, Option-cases, inl, inr, if◌then◌else◌,
}
use sunbird_devops.Web.Dom.{Location}
use sunbird_devops.Web.Libs.{Libs}
use sunbird_devops.Web.Store.{get_item}
use sunbird_devops.State.{Page}
use sunbird_devops.Page.Nullable.{truthy_text, text_or_null}
use sunbird_devops.Page.Session.{query}
use sunbird_devops.Page.Session.Persistence.{value_of, after_value}
use sunbird_devops.Page.Redirect.Targets.{leave_to-eq}
use sunbird_devops.Page.Redirect.{leave_with, leave_to, redirect_to_lib}

module _ (lib : Libs) (target : Location → String → Location → Option String → String) where
  leave_with-assigned :
      (uri client session_url : Option String) (w v : Page)
      → v.location ≡ w.location
      → v.assigned ≡ w.assigned
      → (leave_with lib target uri client session_url v).1.assigned
        ≡ (leave_with lib target uri client session_url w).1.assigned
  unfolding leave_with redirect_to_lib
  leave_with-assigned uri client session_url w v place asked =
      elim (Bool-cases (truthy_text session_url)) [
        | inr empty ↦ rw (empty, place) refl
        | inl full ↦ rw full (elim (Option-cases (lib.parse_url (text_or_null session_url))) [
          | inl broken ↦ rw broken asked
          | inr (s, parsed) ↦ rw parsed (elim (Bool-cases (truthy_text uri)) [
            | inr missing ↦ rw (missing, place) refl
            | inl there ↦ rw there (elim (Option-cases (lib.parse_url (text_or_null uri))) [
              | inl broken ↦ rw broken asked
              | inr (a, found) ↦ rw found refl
            ])
          ])
        ])
      ]

  -- Two pages with the same address and the same two values are left for the same place.
  pub leave_to-assigned :
      (w v : Page)
      → v.location ≡ w.location
      → v.assigned ≡ w.assigned
      → get_item "redirect_uri" v.session ≡ get_item "redirect_uri" w.session
      → get_item "session_url" v.session ≡ get_item "session_url" w.session
      → (leave_to lib target v).1.assigned ≡ (leave_to lib target w).1.assigned
  leave_to-assigned w v place asked uri url =
      let same_query : (key : String) → query lib key v ≡ query lib key w =
        λ key. ap (λ (l : Location). lib.query_get l.search key) place in
      let same_value : value_of lib "redirect_uri" v ≡ value_of lib "redirect_uri" w = λ i.
        if truthy_text (same_query "redirect_uri" i) then same_query "redirect_uri" i else uri i in
      ap (λ x. x.1.assigned) (leave_to-eq lib target v)
      ∙ (λ i.
          (leave_with lib target (same_value i) (same_query "client_id" i) (url i)
            (after_value lib "redirect_uri" v)).1.assigned)
      ∙ leave_with-assigned (value_of lib "redirect_uri" w) (query lib "client_id" w)
          (get_item "session_url" w.session) (after_value lib "redirect_uri" w)
          (after_value lib "redirect_uri" v) place asked
      ∙ sym (ap (λ x. x.1.assigned) (leave_to-eq lib target w))
