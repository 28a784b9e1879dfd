-- ===== src/Page/Onload/Back.antt =====
-- A page of a merge: the link back, and the ways to sign in that a merge has no use for.
use sunbird_devops.Base.{
  List, [], ◌∷◌, All, sym, String, ◌≡◌, refl, ◌∙◌, false, Bool-cases, inl, inr, Option, none, some,
  ◌==◌,
}
use sunbird_devops.Web.Dom.{Element, Document, Location}
use sunbird_devops.Web.Store.{Store, get_item, get_item-set_item}
use sunbird_devops.State.{Page}
use sunbird_devops.State.Leads.{Leads}
use sunbird_devops.Page.Elements.{for_element}
use sunbird_devops.Page.Elements.Changed.{changed_found, changed, with_doc, for_element-changed}
use sunbird_devops.Page.Merge.Dimmed.{IsHidden, dimmed, dimmed_all}

abbrev pub Has : String → Document → Type 0
Has id d = (e : Element) × (get_item id d ≡ some e)

-- The link back is there, and leads to this address.
abbrev pub LeadsBack : String → Document → Type 0
LeadsBack link d = (e : Element) × (get_item "goBack" d ≡ some e) × (e.href ≡ link)

changed_found-Has :
    (id j : String) (f : Element → Element) (found : Option Element) (d : Document)
    → Has j d
    → Has j (changed_found f id found d)
changed_found-Has id j f none d h = h
changed_found-Has id j f (some e) d (x, there) =
    let written = get_item-set_item id j (f e) d in
    elim (Bool-cases (id == j)) [
      | inl same ↦ (f e, written ∙ rw same refl)
      | inr other ↦ (x, written ∙ rw other there)
    ]

changed_found-other :
    (id j : String) (f : Element → Element) (found : Option Element) (d : Document)
    → (id == j) ≡ false
    → get_item j (changed_found f id found d) ≡ get_item j d
changed_found-other id j f none d other = refl
changed_found-other id j f (some e) d other = get_item-set_item id j (f e) d ∙ rw other refl

-- If they are there, the ways of the ordinary sign-in that a merge has no use for are hidden.
abbrev pub ways : List String
ways = "kc-registration" ∷ "stateButton" ∷ "fgtKeycloakFlow" ∷ "fgtPortalFlow" ∷ []

abbrev pub IsShut : Document → Type 0
IsShut d = All (IsHidden d) ways

pub changed_found-All :
    (id : String) (ids : List String) (f : Element → Element) (found : Option Element)
    (d : Document)
    → All (λ j. (id == j) ≡ false) ids
    → All (IsHidden d) ids
    → All (IsHidden (changed_found f id found d)) ids
changed_found-All id [] f found d other h = tt
changed_found-All id (j ∷ ids) f found d other h = (
  λ e there. h.0 e (sym (changed_found-other id j f found d other.0) ∙ there),
  changed_found-All id ids f found d other.1 h.1,
)

pub dimmed_all-Has :
    (ids : List String) (j : String) (d : Document) → Has j d → Has j (dimmed_all ids d)
dimmed_all-Has [] j d h = h
dimmed_all-Has (id ∷ ids) j d h =
    dimmed_all-Has ids j (dimmed id d) (changed_found-Has id j _ (get_item id d) d h)

-- A page with this session and local storage, at this address, that has a link back.
pub record IsReady (s : Store) (l : Location) (t : Store) (w : Page) : Type 0 where
  pub same_session : w.session ≡ s
  pub same_location : w.location ≡ l
  pub same_storage : w.storage ≡ t
  pub has_back : Has "goBack" w.doc

-- The same, where those ways are hidden.
abbrev pub IsTitled : Store → Location → Store → Page → Type 0
IsTitled s l t w = IsReady s l t w × IsShut w.doc

-- The same, where moreover the link back is known.
pub record IsBound (s : Store) (l : Location) (t : Store) (link : String) (w : Page) : Type 0 where
  pub same_session : w.session ≡ s
  pub same_location : w.location ≡ l
  pub same_storage : w.storage ≡ t
  pub leads_back : LeadsBack link w.doc
  pub is_shut : IsShut w.doc

module _ {s : Store} {l : Location} {t : Store} where
  changed-IsReady :
      (id : String) (f : Element → Element) (w : Page)
      → IsReady s l t w
      → IsReady s l t (with_doc w (changed f id w.doc))
  changed-IsReady id f w x = record {
    same_session = x.same_session;
    same_location = x.same_location;
    same_storage = x.same_storage;
    has_back = changed_found-Has id "goBack" f (get_item id w.doc) w.doc x.has_back;
  }

  pub for_element-IsReady :
      (id : String) (f : Element → Element)
      → Leads (IsReady s l t) (for_element id f) (IsReady s l t)
  for_element-IsReady id f w x =
      (tt, with_doc w (changed f id w.doc), for_element-changed id f w, changed-IsReady id f w x)

  pub for_element-IsTitled :
      (id : String) (f : Element → Element)
      → All (λ j. (id == j) ≡ false) ways
      → Leads (IsTitled s l t) (for_element id f) (IsTitled s l t)
  for_element-IsTitled id f others w (x, shut) = (
    tt,
    with_doc w (changed f id w.doc),
    for_element-changed id f w,
    (changed-IsReady id f w x, changed_found-All id ways f (get_item id w.doc) w.doc others shut),
  )

  pub for_element-IsBound :
      {link : String} (id : String) (f : Element → Element)
      → (id == "goBack") ≡ false
      → All (λ j. (id == j) ≡ false) ways
      → Leads (IsBound s l t link) (for_element id f) (IsBound s l t link)
  for_element-IsBound id f other others w x =
      let (e, there, same) = x.leads_back in
      (
        tt,
        with_doc w (changed f id w.doc),
        for_element-changed id f w,
        record {
          same_session = x.same_session;
          same_location = x.same_location;
          same_storage = x.same_storage;
          leads_back =
              (e, changed_found-other id "goBack" f (get_item id w.doc) w.doc other ∙ there, same);
          is_shut = changed_found-All id ways f (get_item id w.doc) w.doc others x.is_shut;
        },
      )
