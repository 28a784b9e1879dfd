-- ===== src/Page/Elements/Changed.antt =====
-- A change of an element, as a function of the document.
use sunbird_devops.Base.{String, ◌≡◌, refl, Option, none, some, ⊤}
use sunbird_devops.Web.Dom.{Element, Document}
use sunbird_devops.Web.Store.{get_item, set_item}
use sunbird_devops.State.{Page, Result, ok, write_element}
use sunbird_devops.Page.Elements.{for_element}

abbrev pub changed_found : (Element → Element) → String → Option Element → Document → Document
changed_found f id none d = d
changed_found f id (some e) d = set_item id (f e) d

-- the document after the element is changed, if it is there
abbrev pub changed : (Element → Element) → String → Document → Document
changed f id d = changed_found f id (get_item id d) d

abbrev pub with_doc : Page → Document → Page
with_doc w d = record w { doc = d }

pub for_element-changed :
    (id : String) (f : Element → Element) (w : Page)
    → for_element id f w ≡ (ok tt, with_doc w (changed f id w.doc))
for_element-changed id f w = written (get_item id w.doc)
  where
    written :
        (found : Option Element)
        → elim found as (λ _. Result ⊤ × Page) [
          | none ↦ (ok tt, w)
          | some e ↦ write_element id (f e) w
        ]
          ≡ (ok tt, with_doc w (changed_found f id found w.doc))
    written none = refl
    written (some e) = refl
