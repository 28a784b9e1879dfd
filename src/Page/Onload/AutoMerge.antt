-- ===== src/Page/Onload/AutoMerge.antt =====
-- The last block of `window.onload`, for a merge that migrates an account.
use mathlib.Core.Path.{subst}
use sunbird_devops.Base.{
  ap, String, ◌≡◌, refl, ◌∙◌, true, false, Bool-cases, inl, inr, Option, none, some, All, ◌==◌,
  arith, if◌then◌else◌, eq_iff,
}
use sunbird_devops.Web.Dom.{Document}
use sunbird_devops.Web.Libs.{Libs}
use sunbird_devops.Web.Store.{get_item, set_item, remove_item, get_item-remove_item}
use sunbird_devops.State.{Page, ok, when, ◌>>=◌}
use sunbird_devops.State.Laws.{continue_of_ok}
use sunbird_devops.State.Leads.{Leads, Leads-bind}
use sunbird_devops.Page.Nullable.{truthy_text, text_or_null, is_equal}
use sunbird_devops.Page.Session.{query, initialize, keep, store_value_for_migration}
use sunbird_devops.Page.Session.Persistence.{
  value_of, after_value, get_value_from_session-eq, initialize-session_url,
  get_value_from_session-other,
}
use sunbird_devops.Page.Merge.{decorate_page, merge_hidden}
use sunbird_devops.Page.Merge.Dimmed.{IsHidden}
use sunbird_devops.Page.Merge.Decorated.{
  On, HasUrl, IsDecorated, value-On, set_session-On, decorate_page-Leads,
}
use sunbird_devops.Page.Onload.{note_start, migrate, auto_merge}

module _ (lib : Libs) where
  -- the page after a line of `storeValueForMigration`
  abbrev kept : String → Page → Page
  kept key w = record w {
    session = set_item key (text_or_null (value_of lib key w)) (after_value lib key w).session;
  }

  keep-kept : (key : String) (w : Page) → keep lib key w ≡ (ok tt, kept key w)
  unfolding keep
  keep-kept key w = rw (get_value_from_session-eq lib key w) refl

  kept-On :
      (p : Option String → Document → Type 0) (key : String) (w : Page)
      → (key == "session_url") ≡ false
      → On p w
      → On p (kept key w)
  kept-On p key w ne x =
      set_session-On p key (text_or_null (value_of lib key w)) (after_value lib key w) ne
        (value-On p lib key w ne x)

  store_value_for_migration-Leads :
      (p : Option String → Document → Type 0) → Leads (On p) (store_value_for_migration lib) (On p)
  unfolding store_value_for_migration
  store_value_for_migration-Leads p w x =
      let w1 = kept "automerge" w in
      let w2 = kept "goBackUrl" w1 in
      let w3 = kept "identifierValue" w2 in
      let w4 = kept "identifierType" w3 in
      let w5 = kept "userId" w4 in
      let w6 = kept "tncAccepted" w5 in
      let x3 : On p w3 =
        kept-On p "identifierValue" w2 refl
          (kept-On p "goBackUrl" w1 refl (kept-On p "automerge" w refl x)) in
      let x6 : On p w6 =
        kept-On p "tncAccepted" w5 refl
          (kept-On p "userId" w4 refl (kept-On p "identifierType" w3 refl x3)) in
      rw (keep-kept "automerge" w) (
        rw (keep-kept "goBackUrl" w1) (
          rw (keep-kept "identifierValue" w2) (
            rw (keep-kept "identifierType" w3) (
              rw (keep-kept "userId" w4) (
                rw (keep-kept "tncAccepted" w5) (
                  rw (keep-kept "tncVersion" w6)
                    (tt, _, refl, kept-On p "tncVersion" w6 refl x6)))))))

  initialize-ends : (w : Page) → (initialize lib w).0 ≡ ok tt
  unfolding initialize
  initialize-ends w =
      let v = after_value lib "redirect_uri" w in
      rw (get_value_from_session-eq lib "redirect_uri" w)
        (elim (Bool-cases (truthy_text (get_item "session_url" v.session))) [
          | inl full ↦ rw full refl
          | inr fresh ↦ rw fresh refl
        ])

  -- `initialize` on a page without a session url.
  initialize-HasUrl :
      (w : Page)
      → get_item "session_url" w.session ≡ none
      → HasUrl (some w.location.href) (initialize lib w).1
  initialize-HasUrl w fresh = initialize-session_url lib w ∙ rw fresh refl

  finish-Leads :
      (u : Option String)
      → Leads (HasUrl u) (decorate_page lib >>= λ _. store_value_for_migration lib) (IsDecorated u)
  finish-Leads u =
      Leads-bind (decorate_page lib) (λ _. store_value_for_migration lib)
        (decorate_page-Leads lib u)
        (λ _. store_value_for_migration-Leads (λ v d. (v ≡ u) × All (IsHidden d) merge_hidden))

  -- the session url that is left
  abbrev url_after : Option String → Page → Option String
  url_after here w =
      if truthy_text here then some w.location.href else get_item "session_url" w.session

  abbrev pub merge_url : Page → Option String
  merge_url w = url_after (query lib "automerge" w) w

  note_start-HasUrl :
      (here : Option String) (w : Page)
      → (v : Page) × (note_start lib here w ≡ (ok tt, v)) × HasUrl (url_after here w) v
  unfolding note_start
  note_start-HasUrl here w = elim (Bool-cases (truthy_text here)) [
    | inl given ↦
        let w2 = record w { session = remove_item "session_url" w.session } in
        let v = (initialize lib w2).1 in
        rw given (
          v,
          (λ i. (initialize-ends w2 i, v)),
          initialize-HasUrl w2 (get_item-remove_item "session_url" w.session),
        )
    | inr missing ↦ rw missing (w, refl, refl)
  ]

  migrate-IsDecorated :
      (here : Option String) (w : Page)
      → (v : Page) × (migrate lib here w ≡ (ok tt, v)) × IsDecorated (url_after here w) v
  unfolding migrate
  migrate-IsDecorated here w =
      let finish = decorate_page lib >>= λ _. store_value_for_migration lib in
      let (v, e, x) = note_start-HasUrl here w in
      let (_, u, e2, y) = finish-Leads (url_after here w) v x in
      (u, continue_of_ok (λ _. finish) e ∙ e2, y)

  pub auto_merge-IsDecorated :
      (w : Page)
      → is_equal (value_of lib "automerge" w) "1" ≡ true
      → (v : Page) × (auto_merge lib w ≡ (ok tt, v)) × IsDecorated (merge_url w) v
  unfolding auto_merge
  auto_merge-IsDecorated w on =
      let w1 = after_value lib "automerge" w in
      let here = query lib "automerge" w in
      let same : url_after here w1 ≡ url_after here w =
        ap (λ u. if truthy_text here then some w.location.href else u)
          (get_value_from_session-other lib "automerge" "session_url" w
            (λ e. ground (arith, e, eq_iff "automerge" "session_url"))
            (λ e. ground (arith, e, eq_iff "session_url" "renderingType"))) in
      let (v, e, y) = migrate-IsDecorated here w1 in
      let called : auto_merge lib w ≡ (ok tt, v) =
        continue_of_ok
          (λ value u. when (is_equal value "1") (migrate lib (query lib "automerge" u)) u)
          (get_value_from_session-eq lib "automerge" w)
        ∙ rw on e in
      (v, called, subst (λ u. IsDecorated u v) same y)
