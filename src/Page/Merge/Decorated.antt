-- ===== src/Page/Merge/Decorated.antt =====
-- What `decoratePage` leaves behind.
use mathlib.Core.Path.{subst}
use sunbird_devops.Base.{
  Bool, All, String, ◌≡◌, refl, ◌∙◌, sym, true, false, Bool-cases, inl, inr, Option, none, some,
  ◌==◌, eq_iff, arith,
}
use sunbird_devops.Web.Dom.{Element, Document}
use sunbird_devops.Web.Libs.{Libs}
use sunbird_devops.Web.Store.{get_item, set_item, get_item-set_item}
use sunbird_devops.State.{Page, pure, when, ◌>>=◌}
use sunbird_devops.State.Leads.{Leads, Leads-bind, Leads-when}
use sunbird_devops.Page.Nullable.{is_equal}
use sunbird_devops.Page.Session.Persistence.{
  value_of, after_value, get_value_from_session-eq, get_value_from_session-other,
}
use sunbird_devops.Page.Elements.{hide_element, un_hide_element, set_element_value, show}
use sunbird_devops.Page.Elements.Changed.{changed, with_doc, for_element-changed}
use sunbird_devops.Page.Merge.{
  merge_hidden, hide_rest, decorate_page, return_error, handle_password_failure, next_count,
  count_text, gives_up, label_page, look_for_failure, after_failure, merge_title, label_element,
  text_or_empty, is_wrong_password, read_summary, wrong_password_again,
}
use sunbird_devops.Page.Merge.Dimmed.{
  IsHidden, hide_element-dimmed, dimmed-All, hide_all-dimmed_all, dimmed, dimmed_all,
  dimmed_all-All,
}

-- A property of the session url and the elements.
abbrev pub On : (Option String → Document → Type 0) → Page → Type 0
On p w = p (get_item "session_url" w.session) w.doc

module _ (p : Option String → Document → Type 0) where
  pub value-On :
      (lib : Libs) (key : String) (w : Page)
      → (key == "session_url") ≡ false
      → On p w
      → On p (after_value lib key w)
  value-On lib key w ne =
      subst (λ u. p u w.doc)
        (sym (
          get_value_from_session-other lib key "session_url" w
            (λ e. ground (arith, e, ne, eq_iff key "session_url"))
            (λ e. ground (arith, e, eq_iff "session_url" "renderingType"))))

  pub set_session-On :
      (key value : String) (w : Page)
      → (key == "session_url") ≡ false
      → On p w
      → On p (record w { session = set_item key value w.session })
  set_session-On key value w ne =
      subst (λ u. p u w.doc) (sym (get_item-set_item key "session_url" value w.session ∙ rw ne))

  return_error-Leads : (lib : Libs) → Leads (On p) (return_error lib) (On p)
  unfolding return_error
  return_error-Leads lib w x =
      let w1 = after_value lib "identifierType" w in
      let w2 = after_value lib "userId" w1 in
      let w3 = after_value lib "identifierValue" w2 in
      let w4 = after_value lib "tncAccepted" w3 in
      let w5 = after_value lib "tncVersion" w4 in
      let last : On p w5 = value-On lib "tncVersion" w4 refl (
        value-On lib "tncAccepted" w3 refl (
          value-On lib "identifierValue" w2 refl
            (value-On lib "userId" w1 refl (value-On lib "identifierType" w refl x)))) in
      rw (get_value_from_session-eq lib "identifierType" w) (
        rw (get_value_from_session-eq lib "userId" w1) (
          rw (get_value_from_session-eq lib "identifierValue" w2) (
            rw (get_value_from_session-eq lib "tncAccepted" w3)
              (rw (get_value_from_session-eq lib "tncVersion" w4) (tt, _, refl, last)))))

  handle_password_failure-Leads : (lib : Libs) → Leads (On p) (handle_password_failure lib) (On p)
  unfolding handle_password_failure
  handle_password_failure-Leads lib w x =
      let count = next_count (get_item "passwordFailCount" w.session) in
      Leads-when (gives_up count) (return_error lib) (return_error-Leads lib) _
        (set_session-On "passwordFailCount" (count_text count) w refl x)

-- The session url is this.
abbrev pub HasUrl : Option String → Page → Type 0
HasUrl u w = get_item "session_url" w.session ≡ u

module _ (lib : Libs) (u : Option String) where
  wrong_password_again-Leads : Leads (HasUrl u) (wrong_password_again lib) (HasUrl u)
  unfolding wrong_password_again un_hide_element
  wrong_password_again-Leads w x = rw (for_element-changed "inCorrectPasswordError" show w) (
      handle_password_failure-Leads (λ v _. v ≡ u) lib
        (with_doc w (changed show "inCorrectPasswordError" w.doc)) x)

  read_summary-Leads :
      (summary : Option Element) → Leads (HasUrl u) (read_summary lib summary) (HasUrl u)
  unfolding read_summary
  read_summary-Leads none w x = (false, w, refl, x)
  read_summary-Leads (some e) w x =
      Leads-bind (when (is_wrong_password lib e) (wrong_password_again lib)) (λ _. pure true)
        (Leads-when (is_wrong_password lib e) (wrong_password_again lib) wrong_password_again-Leads)
        (λ _ v y. (true, v, refl, y)) w x

  after_failure-Leads : Leads (HasUrl u) (after_failure lib) (HasUrl u)
  unfolding after_failure un_hide_element
  after_failure-Leads w x =
      let d = changed show "selfSingUp" w.doc in
      rw (for_element-changed "selfSingUp" show w)
        (read_summary-Leads (get_item "error-summary" d) (with_doc w d) x)

  look_for_failure-Leads : Leads (HasUrl u) (look_for_failure lib) (HasUrl u)
  unfolding look_for_failure
  look_for_failure-Leads w x =
      elim (Bool-cases (is_equal (get_item "renderingType" w.session) "sessionStorage")) [
        | inl again ↦ rw again (after_failure-Leads w x)
        | inr fresh ↦ rw fresh (false, w, refl, x)
      ]

  label_page-Leads : (i g : Option String) → Leads (HasUrl u) (label_page lib i g) (HasUrl u)
  unfolding label_page un_hide_element set_element_value
  label_page-Leads i g w x =
      let d1 = changed (merge_title lib) "signIn" w.doc in
      let d2 = changed (label_element lib "Next") "login" d1 in
      let d3 = changed (λ e. record e { value = text_or_empty lib i }) "username" d2 in
      let d4 = changed show "migrateAccountMessage" d3 in
      let d5 = changed show "goBack" d4 in
      rw (for_element-changed "signIn" (merge_title lib) w) (
        rw (for_element-changed "login" (label_element lib "Next") (with_doc w d1)) (
          rw (for_element-changed "username" _ (with_doc w d2)) (
            rw (for_element-changed "migrateAccountMessage" show (with_doc w d3)) (
              rw (for_element-changed "goBack" show (with_doc w d4))
                (rw (for_element-changed "goBack" _ (with_doc w d5)) (tt, _, refl, x))))))

-- What is left of a page that merges accounts: the session url, and the elements that are hidden.
abbrev pub IsDecorated : Option String → Page → Type 0
IsDecorated u = On (λ v d. (v ≡ u) × All (IsHidden d) merge_hidden)

module _ (lib : Libs) (u : Option String) where
  hide_element-Leads : (id : String) → Leads (IsDecorated u) (hide_element id) (IsDecorated u)
  hide_element-Leads id w x = (
    tt,
    with_doc w (dimmed id w.doc),
    hide_element-dimmed id w,
    (x.0, dimmed-All id merge_hidden w.doc x.1),
  )

  hide_rest-Leads : (b : Bool) → Leads (HasUrl u) (hide_rest lib b) (IsDecorated u)
  unfolding hide_rest
  hide_rest-Leads b w x =
      let d = dimmed_all merge_hidden w.doc in
      rw (hide_all-dimmed_all merge_hidden w) (
        Leads-when b (hide_element "error-summary") (hide_element-Leads "error-summary")
          (with_doc w d) (x, dimmed_all-All merge_hidden w.doc))

  pub decorate_page-Leads : Leads (HasUrl u) (decorate_page lib) (IsDecorated u)
  unfolding decorate_page
  decorate_page-Leads w x =
      let w1 = after_value lib "identifierValue" w in
      let w2 = after_value lib "goBackUrl" w1 in
      let i = value_of lib "identifierValue" w in
      let g = value_of lib "goBackUrl" w1 in
      rw (get_value_from_session-eq lib "identifierValue" w) (
        rw (get_value_from_session-eq lib "goBackUrl" w1) (
          Leads-bind (label_page lib i g) (λ _. look_for_failure lib >>= hide_rest lib)
            (label_page-Leads lib u i g)
            (λ _.
              Leads-bind (look_for_failure lib) (hide_rest lib) (look_for_failure-Leads lib u)
                (hide_rest-Leads))
            w2
            (value-On (λ v _. v ≡ u) lib "goBackUrl" w1 refl
              (value-On (λ v _. v ≡ u) lib "identifierValue" w refl x))))
