-- ===== src/Page/Merge/Dimmed.antt =====
-- What is hidden while accounts are merged.
use sunbird_devops.Base.{
  String, ◌≡◌, ◌≢◌, refl, ◌∙◌, true, Option, none, some, List, [], ◌∷◌, All, ◌==◌, eq_iff, arith,
  Bool-cases, inl, inr,
}
use sunbird_devops.Js.Text.{split_from, has_text}
use sunbird_devops.Web.Dom.{Element, Document}
use sunbird_devops.Web.Store.{get_item, set_item, get_item-set_item}
use sunbird_devops.State.{Page, ok}
use sunbird_devops.State.Laws.{continue_of_ok}
use sunbird_devops.Page.Elements.{add_class, hide_element, with_class}
use sunbird_devops.Page.Elements.Changed.{changed, changed_found, for_element-changed}
use sunbird_devops.Page.Elements.Hiding.{contains-add_class}
use sunbird_devops.Page.Merge.{hide_all}

-- If the element is there, "hide" is one of its classes.
abbrev pub IsHidden : Document → String → Type 0
IsHidden d id =
    (e : Element)
    → get_item id d ≡ some e
    → has_text (split_from b' ' "" e.class_name) "hide" ≡ true

abbrev dim : Element → Element
dim = with_class (λ c. add_class c "hide")

-- the document after `hideElement`
abbrev pub dimmed : String → Document → Document
dimmed id d = changed dim id d

abbrev pub dimmed_all : List String → Document → Document
dimmed_all [] d = d
dimmed_all (id ∷ ids) d = dimmed_all ids (dimmed id d)

pub hide_element-dimmed :
    (id : String) (w : Page) → hide_element id w ≡ (ok tt, record w { doc = dimmed id w.doc })
unfolding hide_element
hide_element-dimmed id w = for_element-changed id dim w

dim-hidden : (e : Element) → has_text (split_from b' ' "" (dim e).class_name) "hide" ≡ true
dim-hidden e = contains-add_class e.class_name "hide" (refl, (refl, (refl, (refl, tt))))

set_item-IsHidden :
    (id j : String) (e : Element) (d : Document)
    → (id ≢ j → IsHidden d j)
    → IsHidden (set_item id (dim e) d) j
set_item-IsHidden id j e d h f there =
    let written = get_item-set_item id j (dim e) d in
    elim (Bool-cases (id == j)) [
      | inl same ↦ ground (arith, written, there, same, dim-hidden e)
      | inr other ↦
          h (λ k. ground (arith, other, k, eq_iff id j)) f (ground (arith, written, there, other))
    ]

changed_found-IsHidden :
    (id j : String) (found : Option Element) (d : Document)
    → get_item id d ≡ found
    → (id ≢ j → IsHidden d j)
    → IsHidden (changed_found dim id found d) j
changed_found-IsHidden id j none d e h f there = elim (Bool-cases (id == j)) [
  | inl same ↦ ground (arith, e, there, same, eq_iff id j)
  | inr other ↦ h (λ k. ground (arith, other, k, eq_iff id j)) f there
]
changed_found-IsHidden id j (some e) d found h f there = set_item-IsHidden id j e d h f there

pub hide_all-dimmed_all :
    (ids : List String) (w : Page)
    → hide_all ids w ≡ (ok tt, record w { doc = dimmed_all ids w.doc })
unfolding hide_all
hide_all-dimmed_all [] w = refl
hide_all-dimmed_all (id ∷ ids) w =
    continue_of_ok (λ _. hide_all ids) (hide_element-dimmed id w)
    ∙ hide_all-dimmed_all ids (record w { doc = dimmed id w.doc })

pub dimmed-IsHidden : (id j : String) (d : Document) → IsHidden d j → IsHidden (dimmed id d) j
dimmed-IsHidden id j d h = changed_found-IsHidden id j (get_item id d) d refl (λ _. h)

dimmed-IsHidden_self : (id : String) (d : Document) → IsHidden (dimmed id d) id
dimmed-IsHidden_self id d =
    changed_found-IsHidden id id (get_item id d) d refl (λ differ. elim (differ refl) [ ])

pub dimmed-All :
    (id : String) (ids : List String) (d : Document)
    → All (IsHidden d) ids
    → All (IsHidden (dimmed id d)) ids
dimmed-All id [] d h = tt
dimmed-All id (j ∷ ids) d h = (dimmed-IsHidden id j d h.0, dimmed-All id ids d h.1)

dimmed_all-IsHidden :
    (ids : List String) (j : String) (d : Document) → IsHidden d j → IsHidden (dimmed_all ids d) j
dimmed_all-IsHidden [] j d h = h
dimmed_all-IsHidden (id ∷ ids) j d h =
    dimmed_all-IsHidden ids j (dimmed id d) (dimmed-IsHidden id j d h)

pub dimmed_all-All : (ids : List String) (d : Document) → All (IsHidden (dimmed_all ids d)) ids
dimmed_all-All [] d = tt
dimmed_all-All (id ∷ ids) d = (
  dimmed_all-IsHidden ids id (dimmed id d) (dimmed-IsHidden_self id d),
  dimmed_all-All ids (dimmed id d),
)
