-- ===== src/Page/Elements/Preview.antt =====
-- Showing a password and concealing it again.
use Prim.Native.String.{◌++◌}
use sunbird_devops.Base.{String, ◌≡◌, ◌≢◌, refl, ◌∙◌, ap, sym, false, some, arith, eq_iff}
use sunbird_devops.Js.Text.{replace_first, split_from, has_text}
use sunbird_devops.Web.Dom.{Element}
use sunbird_devops.Web.Store.{get_item, set_item, get_item-set_item, get_item-set_item_self}
use sunbird_devops.State.{Page, ok, ◌>>◌}
use sunbird_devops.State.Laws.{continue_of_ok}
use sunbird_devops.Page.Elements.{
  add_class, with_class, require_element, show_password, conceal_password, view_password,
}
use sunbird_devops.Page.Elements.Showing.{IsNowhere, replaced_again}
use sunbird_devops.Page.Password.Form.{set_element, require_element-found}

abbrev with_kind : String → Element → Element
with_kind kind e = record e { kind = kind }

-- Two elements of the page are changed one after the other.
change_both :
    (id : String) (f : Element → Element) (e : Element) (other : String) (g : Element → Element)
    (b : Element) (w : Page)
    → get_item id w.doc ≡ some e
    → get_item other w.doc ≡ some b
    → id ≢ other
    → (require_element id f >> require_element other g) w
      ≡ (ok tt, set_element other (g b) (set_element id (f e) w))
change_both id f e other g b w there next differ =
    continue_of_ok (λ _. require_element other g) (require_element-found id f e w there)
    ∙ require_element-found other g b (set_element id (f e) w)
        (ground (arith, get_item-set_item id other (f e) w.doc, eq_iff id other, differ, next))

-- what the two elements are afterwards
changed_both :
    (id : String) (e : Element) (other : String) (b : Element) (w : Page)
    → id ≢ other
    → let d = (set_element other b (set_element id e w)).doc in
      (get_item id d ≡ some e) × (get_item other d ≡ some b)
changed_both id e other b w differ = (
  ground (
    arith,
    get_item-set_item other id b (set_item id e w.doc),
    get_item-set_item_self id e w.doc,
    eq_iff other id,
    differ,
  ),
  get_item-set_item_self other b (set_item id e w.doc),
)

abbrev slashed : Element → Element
slashed = with_class (λ c. add_class c "slash")

abbrev plain : Element → Element
plain = with_class (λ c. replace_first "slash" "" c)

module _ (button : String) (w : Page) (e b : Element)
    (field : get_item "password-new" w.doc ≡ some e) (eye : get_item button w.doc ≡ some b)
    (differ : "password-new" ≢ button) where
  view_password-show :
      e.kind ≡ "password"
      → view_password button w ≡ (
        ok tt,
        set_element button (slashed b) (set_element "password-new" (with_kind "text" e) w),
      )
  unfolding view_password show_password
  view_password-show hidden =
      rw (field, view_password)
        (rw (hidden)
          (change_both "password-new" (with_kind "text") e button slashed b w field eye differ))

  view_password-conceal :
      e.kind ≡ "text"
      → view_password button w ≡ (
        ok tt,
        set_element button (plain b) (set_element "password-new" (with_kind "password" e) w),
      )
  unfolding view_password conceal_password
  view_password-conceal shown =
      rw (field, view_password)
        (rw (shown)
          (change_both "password-new" (with_kind "password") e button plain b w field eye differ))

-- If the field for the new password conceals its text, and "slash" is no class of the button and
-- stands nowhere in its class attribute, then a first `viewPassword` shows the password and adds
-- the class, and a second leaves the field and the button as they were, but for one space behind
-- the button's classes.
pub view_password-view_password :
    (button : String) (w : Page) (e b : Element)
    → get_item "password-new" w.doc ≡ some e
    → get_item button w.doc ≡ some b
    → "password-new" ≢ button
    → e.kind ≡ "password"
    → has_text (split_from b' ' "" b.class_name) "slash" ≡ false
    → IsNowhere "slash" b.class_name
    → let v = (view_password button w).1 in
      let u = (view_password button v).1 in
      (get_item "password-new" v.doc ≡ some (record e { kind = "text" }))
      × (get_item button v.doc ≡ some (record b { class_name = b.class_name ++ " slash" }))
      × (get_item "password-new" u.doc ≡ some e)
      × (get_item button u.doc ≡ some (record b { class_name = b.class_name ++ " " }))
view_password-view_password button w e b field eye differ hidden fresh nowhere =
    let shown = with_kind "text" e in
    let v = set_element button (slashed b) (set_element "password-new" shown w) in
    let first = view_password-show button w e b field eye differ hidden in
    let (field1, eye1) = changed_both "password-new" shown button (slashed b) w differ in
    let second = view_password-conceal button v shown (slashed b) field1 eye1 differ refl in
    let (field2, eye2) =
      changed_both "password-new" (with_kind "password" shown) button (plain (slashed b)) v
        differ in
    let both = ap (λ x. (view_password button x.1).1.doc) first ∙ ap (λ x. x.1.doc) second in
    (
      ap (λ x. get_item "password-new" x.1.doc) first ∙ field1,
      ap (λ x. get_item button x.1.doc) first
          ∙ eye1
          ∙ ap (λ c. some (record b { class_name = c })) (unfold add_class in rw fresh refl),
      ap (get_item "password-new") both
          ∙ field2
          ∙ ap (λ k. some (record e { kind = k })) (sym hidden),
      ap (get_item button) both
          ∙ eye2
          ∙ ap (λ c. some (record b { class_name = c }))
              (replaced_again "s" "lash" b.class_name refl fresh nowhere),
    )
