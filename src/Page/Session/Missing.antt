-- ===== src/Page/Session/Missing.antt =====
-- What `storeValueForMigration` makes of a value that is nowhere.
use sunbird_devops.Base.{String, ◌≡◌, refl, ◌∙◌, ap, none, some, false}
use sunbird_devops.Web.Dom.{Location}
use sunbird_devops.Web.Libs.{Libs}
use sunbird_devops.Web.Store.{get_item, get_item-set_item_self}
use sunbird_devops.State.{set_session, Page, ok}
use sunbird_devops.State.Laws.{continue_of_ok}
use sunbird_devops.Page.Nullable.{truthy_text, text_or_null}
use sunbird_devops.Page.Session.{query, get_value_from_session, keep}
use sunbird_devops.Page.Session.Persistence.{
  open_at, value_of, after_value, get_value_from_session-eq, get_value_from_session-result,
}

keep-session :
    (lib : Libs) (key : String) (w : Page)
    → get_item key (keep lib key w).1.session ≡ some (text_or_null (value_of lib key w))
unfolding keep
keep-session lib key w =
    ap (λ x. get_item key x.1.session)
      (continue_of_ok (λ value. set_session key (text_or_null value))
        (get_value_from_session-eq lib key w))
    ∙ get_item-set_item_self key (text_or_null (value_of lib key w)) (after_value lib key w).session

-- If neither the address nor the session has a value for a key, then after the line of
-- `storeValueForMigration` for it, later pages of the session that have none in their address
-- either read the text "null".
pub keep-null :
    (lib : Libs) (key : String) (url : Location) (w : Page)
    → query lib key w ≡ none
    → get_item key w.session ≡ none
    → truthy_text (lib.query_get url.search key) ≡ false
    → (get_value_from_session lib key (open_at url (keep lib key w).1)).0 ≡ ok (some "null")
keep-null lib key url w h k gone =
    let stored : get_item key (keep lib key w).1.session ≡ some "null" =
      keep-session lib key w ∙ rw h (rw k refl) in
    get_value_from_session-result lib key (open_at url (keep lib key w).1) ∙ rw gone (ap ok stored)
