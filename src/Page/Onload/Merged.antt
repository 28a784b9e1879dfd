-- ===== src/Page/Onload/Merged.antt =====
-- What `window.onload` shows of a merge that is under way.
use mathlib.Core.Path.{subst}
use sunbird_devops.Base.{
  sym, Bool, String, ◌≡◌, refl, ◌∙◌, ap, true, false, not, Bool-cases, inl, inr, some,
  if◌then◌else◌,
}
use sunbird_devops.Web.Dom.{Element, Location}
use sunbird_devops.Web.Libs.{Libs}
use sunbird_devops.Web.Store.{Store, get_item, set_item, get_item-set_item}
use sunbird_devops.State.{set_local, when, ◌>>◌}
use sunbird_devops.State.Laws.{continue_of_ok}
use sunbird_devops.State.Leads.{Leads, Leads-bind, Leads-when}
use sunbird_devops.Page.Session.{query}
use sunbird_devops.Page.Nullable.{text_or_null}
use sunbird_devops.Page.Elements.{for_element, show, hide_element}
use sunbird_devops.Page.Elements.Changed.{with_doc}
use sunbird_devops.Page.Password.Form.{set_element, require_element-found}
use sunbird_devops.Page.Merge.{merge_title}
use sunbird_devops.Page.Merge.Dimmed.{dimmed_all, dimmed_all-All, hide_element-dimmed}
use sunbird_devops.Page.Onload.{set_local, query, Merging, title_merge, go_back, show_merge}
use sunbird_devops.Page.Onload.Back.{
  IsReady, IsTitled, IsBound, ways, changed_found-All, dimmed_all-Has, for_element-IsTitled,
  for_element-IsBound,
}

module _ (lib : Libs) (l : Location) (t : Store) where
  -- where the link back leads, and what local storage holds afterwards
  abbrev pub given_link : String
  given_link = text_or_null (lib.query_get l.search "goBackUrl")

  abbrev pub stored_link : String
  stored_link = text_or_null (get_item "redirectUrl" t)

  abbrev pub link_of : Merging → String
  link_of m = if m.from_storage then stored_link else given_link

  abbrev pub noted : Merging → Store
  noted m =
      let first = set_item "mergeaccountprocess" (text_or_null m.process) t in
      set_item "redirectUrl" given_link (set_item "version" (text_or_null m.version) first)

  abbrev pub storage_of : Merging → Store
  storage_of m = if m.from_storage then t else noted m

  module _ (s : Store) where
    title_merge-IsTitled : Leads (IsReady s l t) (title_merge lib) (IsTitled s l t)
    unfolding title_merge
    title_merge-IsTitled w x =
        let back = for_element "goBack" show in
        let title = for_element "signIn" (merge_title lib) >> back in
        let portal = hide_element "fgtPortalFlow" >> title in
        let keycloak = hide_element "fgtKeycloakFlow" >> portal in
        let states = hide_element "stateButton" >> keycloak in
        let v = with_doc w (dimmed_all ways w.doc) in
        let y : IsReady s l t v = record {
          same_session = x.same_session;
          same_location = x.same_location;
          same_storage = x.same_storage;
          has_back = dimmed_all-Has ways "goBack" w.doc x.has_back;
        } in
        let (a, u, e, z) =
          Leads-bind (for_element "signIn" (merge_title lib)) (λ _. back)
            (for_element-IsTitled "signIn" _ (refl, (refl, (refl, (refl, tt)))))
            (λ _. for_element-IsTitled "goBack" _ (refl, (refl, (refl, (refl, tt))))) v
            (y, dimmed_all-All ways w.doc) in
        (
          a,
          u,
          continue_of_ok (λ _. states) (hide_element-dimmed "kc-registration" w)
              ∙ continue_of_ok (λ _. keycloak) (hide_element-dimmed "stateButton" _)
              ∙ continue_of_ok (λ _. portal) (hide_element-dimmed "fgtKeycloakFlow" _)
              ∙ continue_of_ok (λ _. title) (hide_element-dimmed "fgtPortalFlow" _)
              ∙ e,
          z,
        )

    go_back_stored :
        (m : Merging)
        → m.from_storage ≡ true
        → Leads (IsTitled s l t) (go_back lib m) (IsBound s l t stored_link)
    unfolding go_back
    go_back_stored m again w (x, shut) =
        let (e, there) = x.has_back in
        let link = text_or_null (get_item "redirectUrl" w.storage) in
        let to : Element → Element = λ e. record e { href = link } in
        let v = set_element "goBack" (to e) w in
        let bound : IsBound s l t stored_link v = record {
          same_session = x.same_session;
          same_location = x.same_location;
          same_storage = x.same_storage;
          leads_back = (
            to e,
            get_item-set_item "goBack" "goBack" (to e) w.doc,
            ap (λ u. text_or_null (get_item "redirectUrl" u)) x.same_storage,
          );
          is_shut =
              changed_found-All "goBack" ways to (some e) w.doc (refl, (refl, (refl, (refl, tt))))
                shut;
        } in
        rw again (tt, v, require_element-found "goBack" to e w there, bound)

    go_back_fresh :
        (m : Merging)
        → m.from_storage ≡ false
        → Leads (IsTitled s l t) (go_back lib m) (IsBound s l (noted m) given_link)
    unfolding go_back
    go_back_fresh m first w (x, shut) =
        let (e, there) = x.has_back in
        let link = text_or_null (query lib "goBackUrl" w) in
        let same : link ≡ given_link =
          ap (λ u. text_or_null (lib.query_get u.search "goBackUrl")) x.same_location in
        let to : Element → Element = λ e. record e { href = link } in
        let rest = (do
          set_local "mergeaccountprocess" (text_or_null m.process)
          set_local "version" (text_or_null m.version)
          set_local "redirectUrl" link) in
        let v = (rest (set_element "goBack" (to e) w)).1 in
        let bound : IsBound s l (noted m) given_link v = record {
          same_session = x.same_session;
          same_location = x.same_location;
          same_storage = λ i. noted_from (same i) (x.same_storage i);
          leads_back = (to e, get_item-set_item "goBack" "goBack" (to e) w.doc, same);
          is_shut =
              changed_found-All "goBack" ways to (some e) w.doc (refl, (refl, (refl, (refl, tt))))
                shut;
        } in
        rw first
          (tt, v, continue_of_ok (λ _. rest) (require_element-found "goBack" to e w there), bound)
      where
        noted_from : String → Store → Store
        noted_from link u =
            let first = set_item "mergeaccountprocess" (text_or_null m.process) u in
            set_item "redirectUrl" link (set_item "version" (text_or_null m.version) first)

    go_back-IsBound :
        (m : Merging)
        → Leads (IsTitled s l t) (go_back lib m) (IsBound s l (storage_of m) (link_of m))
    go_back-IsBound m =
        let ends_in = λ (b : Bool).
          IsBound s l (if b then t else noted m) (if b then stored_link else given_link) in
        let goal = λ (b : Bool). Leads (IsTitled s l t) (go_back lib m) (ends_in b) in
        elim (Bool-cases m.from_storage) as (λ _. goal m.from_storage) [
          | inl again ↦ subst goal (sym again) (go_back_stored m again)
          | inr first ↦ subst goal (sym first) (go_back_fresh m first)
        ]

    pub show_merge-IsBound :
        (m : Merging)
        → Leads (IsReady s l t) (show_merge lib m) (IsBound s l (storage_of m) (link_of m))
    unfolding show_merge
    show_merge-IsBound m =
        let message = for_element "mergeAccountMessage" show in
        let last = when (not m.from_storage) message in
        Leads-bind (title_merge lib) (λ _. go_back lib m >> last) title_merge-IsTitled
          (λ _.
            Leads-bind (go_back lib m) (λ _. last) (go_back-IsBound m)
              (λ _. Leads-when (not m.from_storage) message (
                for_element-IsBound "mergeAccountMessage" show refl
                  (refl, (refl, (refl, (refl, tt)))))))
