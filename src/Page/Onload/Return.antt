-- ===== src/Page/Onload/Return.antt =====
-- The link back, on the pages of a merge that `localStorage` remembers.
use mathlib.Core.Path.{sym, subst}
use sunbird_devops.Base.{
  true, [], not, String, ◌≡◌, refl, ◌∙◌, ap, false, Option, some, if◌then◌else◌,
}
use sunbird_devops.Web.Dom.{Location, Document}
use sunbird_devops.Web.Libs.{Libs}
use sunbird_devops.Web.Store.{set_item, Store, get_item}
use sunbird_devops.State.{pure, Page, ok, when}
use sunbird_devops.State.Laws.{continue_of_ok}
use sunbird_devops.Page.Nullable.{text_or_null, truthy_text, is_equal}
use sunbird_devops.Page.Session.{query}
use sunbird_devops.Page.Session.Persistence.{value_of, after_value, get_value_from_session-eq}
use sunbird_devops.Page.Onload.{
  stored_merge, fresh_merge, Merging, migrate, find_merge, show_forgot_link, show_merge, auto_merge,
  onload,
}
use sunbird_devops.Page.Onload.DeadBlock.{blocks, onload_with-merge}
use sunbird_devops.Page.Onload.Blocks.{mark_merge-Leads, blocks-last}
use sunbird_devops.Page.Onload.Migration.{looked, looked-session}
use sunbird_devops.Page.Onload.Back.{Has, LeadsBack, IsReady, for_element-IsReady, IsShut}
use sunbird_devops.Page.Onload.Merged.{storage_of, link_of, show_merge-IsBound}

-- A page as it is opened in such a merge: without messages, no merge that migrates an account, and
-- with the element for the link back.
pub record IsOpened (lib : Libs) (w : Page) : Type 0 where
  pub no_error : truthy_text (query lib "error_message" w) ≡ false
  pub no_success : truthy_text (query lib "success_message" w) ≡ false
  pub no_migration : is_equal (value_of lib "automerge" w) "1" ≡ false
  pub has_back : Has "goBack" w.doc

-- What such a page shows: the link back, and no other way to sign in.
abbrev pub Shown : String → Document → Type 0
Shown link d = LeadsBack link d × IsShut d

module _ (lib : Libs) where
  -- how `window.onload` ends
  abbrev pub EndsBack : Store → String → Page → Type 0
  EndsBack t link w = (v : Page) × (onload lib w ≡ (ok tt, v)) × (v.storage ≡ t) × Shown link v.doc

  auto_merge_ordinary :
      (w : Page)
      → is_equal (value_of lib "automerge" w) "1" ≡ false
      → auto_merge lib w ≡ (ok tt, after_value lib "automerge" w)
  unfolding auto_merge
  auto_merge_ordinary w ordinary =
      continue_of_ok
        (λ value u. when (is_equal value "1") (migrate lib (query lib "automerge" u)) u)
        (get_value_from_session-eq lib "automerge" w)
      ∙ rw ordinary refl

  -- From a page where the merge is found to be under way.
  module _ (w : Page) (o : IsOpened lib w) (t : Store) (m : Merging) (u : Page)
      (found : find_merge lib (value_of lib "version" w) (looked lib w) ≡ (ok m, u))
      (process : m.process ≡ some "1") (ready : IsReady (looked lib w).session w.location t u) where
    found-EndsBack : EndsBack (storage_of lib w.location t m) (link_of lib w.location t m) w
    unfolding onload
    found-EndsBack =
        let s = (looked lib w).session in
        let l = w.location in
        let version = value_of lib "version" w in
        let (v, y, before) =
          blocks-last lib l for_element-IsReady (λ _ x. x.same_location) o.no_error o.no_success m
            version u ready in
        let (_, v2, shown, z) = show_merge-IsBound lib l t s m v y in
        let ordinary : is_equal (value_of lib "automerge" v2) "1" ≡ false =
          ap (λ p. is_equal p "1")
            ((λ i. value_at (z.same_session i) (z.same_location i))
              ∙ ap
                  (λ r.
                    let asked = query lib "automerge" w in if truthy_text asked then asked else r)
                  (looked-session lib "automerge" w refl refl))
          ∙ o.no_migration in
        let all : onload lib w ≡ (ok tt, after_value lib "automerge" v2) =
          onload_with-merge lib (show_forgot_link lib) w
          ∙ continue_of_ok (λ m. blocks lib (show_forgot_link lib m.version version) m) found
          ∙ before
          ∙ continue_of_ok (λ _. auto_merge lib)
              (ap (λ p. when (is_equal p "1") (show_merge lib m) v) process ∙ shown)
          ∙ auto_merge_ordinary v2 ordinary in
        (after_value lib "automerge" v2, all, z.same_storage, (z.leads_back, z.is_shut))
      where
        value_at : Store → Location → Option String
        value_at s l =
            let asked = lib.query_get l.search "automerge" in
            if truthy_text asked then asked else get_item "automerge" s

  -- what local storage keeps of the merge
  abbrev Remembers : String → Store → Type 0
  Remembers link t =
      (get_item "mergeaccountprocess" t ≡ some "1") × (get_item "redirectUrl" t ≡ some link)

  abbrev EndsMerge : String → Page → Type 0
  EndsMerge link w =
      (v : Page) × (onload lib w ≡ (ok tt, v)) × Remembers link v.storage × Shown link v.doc

  abbrev back_url : Page → String
  back_url w = text_or_null (query lib "goBackUrl" w)

  first-EndsMerge :
      (w : Page)
      → IsOpened lib w
      → query lib "mergeaccountprocess" w ≡ some "1"
      → EndsMerge (back_url w) w
  first-EndsMerge w o begins =
      let version = value_of lib "version" w in
      let u = looked lib w in
      let m : Merging = record { process = some "1"; version = version; from_storage = false } in
      let found : find_merge lib version u ≡ (ok m, record u { storage = [] }) =
        unfold find_merge fresh_merge in rw begins refl in
      let ready : IsReady u.session w.location [] (record u { storage = [] }) = record {
        same_session = refl;
        same_location = refl;
        same_storage = refl;
        has_back = o.has_back;
      } in
      let (v, e, same, back) =
        found-EndsBack w o [] m (record u { storage = [] }) found refl ready in
      (
        v,
        e,
        subst (Remembers (back_url w)) (sym same) (unfold get_item set_item in (refl, refl)),
        back,
      )

  later-EndsMerge :
      (link : String) (w : Page)
      → IsOpened lib w
      → truthy_text (query lib "mergeaccountprocess" w) ≡ false
      → Remembers link w.storage
      → EndsMerge link w
  later-EndsMerge link w o silent (process, stored) =
      let version = value_of lib "version" w in
      let t = w.storage in
      let u = looked lib w in
      let kept = get_item "version" t in
      let m : Merging = record {
        process = some "1";
        version = if not (truthy_text version) then kept else version;
        from_storage = true;
      } in
      let ready : IsReady u.session w.location t u = record {
        same_session = refl;
        same_location = refl;
        same_storage = refl;
        has_back = o.has_back;
      } in
      let (_, u2, marked, y) =
        mark_merge-Leads lib w.location for_element-IsReady (λ _ x. x.same_location) u ready in
      let found : find_merge lib version u ≡ (ok m, u2) =
        unfold find_merge stored_merge in
        rw silent (rw process (continue_of_ok (λ _. pure m) marked)) in
      let (v, e, same, back) = found-EndsBack w o t m u2 found refl y in
      (
        v,
        e,
        subst (Remembers link) (sym same) (process, stored),
        subst (λ r. Shown (text_or_null r) v.doc) stored back,
      )

  -- The pages of a merge whose link back has this address.
  pub data IsPage : String → Page → Type 0 where
    first :
        (w : Page)
        → IsOpened lib w
        → query lib "mergeaccountprocess" w ≡ some "1"
        → IsPage (back_url w) w
    later :
        {link : String} {u : Page} (w : Page)
        → IsPage link u
        → IsOpened lib w
        → truthy_text (query lib "mergeaccountprocess" w) ≡ false
        → w.storage ≡ (onload lib u).1.storage
        → IsPage link w

  IsPage-EndsMerge : {link : String} {w : Page} → IsPage link w → EndsMerge link w
  IsPage-EndsMerge (first w o begins) = first-EndsMerge w o begins
  IsPage-EndsMerge {link} (later w before o silent same) =
      let (v, e, memory, _) = IsPage-EndsMerge before in
      let kept = same ∙ ap (λ r. r.1.storage) e in
      later-EndsMerge link w o silent (subst (Remembers link) (sym kept) memory)

  -- A merge begins on a page whose address gives 1 for `mergeaccountprocess`, and further pages
  -- follow whose addresses give no value for it, each with the local storage that `window.onload`
  -- left on the page before. If on each of them the address has neither an error nor a success
  -- message, `getValueFromSession` does not find 1 for automerge, and the element for the link back
  -- is there, then on each `window.onload` ends well; the link back leads to the `goBackUrl` of the
  -- first page's address, or to "null" if that had none; and "hide" is a class of each of the
  -- registration, the state login and the two links for a forgotten password that the page has.
  pub IsPage-Shown :
      {link : String} {w : Page}
      → IsPage link w
      → ((onload lib w).0 ≡ ok tt) × Shown link (onload lib w).1.doc
  IsPage-Shown {link} x =
      let (v, e, _, back) = IsPage-EndsMerge x in
      (ap (λ r. r.0) e, subst (λ r. Shown link r.1.doc) (sym e) back)
