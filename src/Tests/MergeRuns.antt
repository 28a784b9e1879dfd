-- ===== src/Tests/MergeRuns.antt =====
-- Runs over the pages of a merge that localStorage remembers.
use sunbird_devops.Base.{[], ◌∷◌, ◌≡◌, refl}
use sunbird_devops.State.{Page, ok}
use sunbird_devops.Page.Onload.{onload}
use sunbird_devops.Page.Onload.Return.{Shown, IsOpened, first, later, IsPage-Shown}
use sunbird_devops.Web.Dom.{Document}
use sunbird_devops.Web.Store.{get_item}
use sunbird_devops.Tests.Fixture.{element, query_get, libs, page, address}

abbrev elements : Document
elements = ("kc-registration", element "reg") ∷ ("goBack", element "back hide") ∷ []

-- The page that a merge begins on, and the one that is shown after a wrong password.
abbrev begun : Page
begun =
    page (address "mergeaccountprocess=1&version=4&goBackUrl=https://app.example.org/merge") []
      elements

abbrev again : Page
again = record (page (address "client_id=portal") [] elements) {
  storage = (onload libs begun).1.storage;
}

begun-IsOpened : IsOpened libs begun
unfolding query_get get_item
begun-IsOpened = record {
  no_error = refl;
  no_success = refl;
  no_migration = refl;
  has_back = (element "back hide", refl);
}

again-IsOpened : IsOpened libs again
unfolding query_get get_item
again-IsOpened = record {
  no_error = refl;
  no_success = refl;
  no_migration = refl;
  has_back = (element "back hide", refl);
}

IsPage-Shown_example :
    ((onload libs again).0 ≡ ok tt)
    × Shown "https://app.example.org/merge" (onload libs again).1.doc
unfolding query_get
IsPage-Shown_example =
    IsPage-Shown libs (later again (first begun begun-IsOpened refl) again-IsOpened refl refl)
