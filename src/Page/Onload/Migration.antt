-- ===== src/Page/Onload/Migration.antt =====
-- `window.onload` on a page of a merge that migrates an account.
use sunbird_devops.Base.{String, ◌≡◌, ◌∙◌, false, Option, ◌==◌, eq_iff, arith, if◌then◌else◌}
use sunbird_devops.Web.Libs.{Libs}
use sunbird_devops.Web.Store.{Store, get_item}
use sunbird_devops.State.{Page}
use sunbird_devops.Page.Nullable.{truthy_text}
use sunbird_devops.Page.Session.{query}
use sunbird_devops.Page.Session.Persistence.{after_value, get_value_from_session-other}

-- The merge process that the address names, or else the one that `localStorage` does.
abbrev pub merge_process : Libs → Page → Option String
merge_process lib w =
    let asked = query lib "mergeaccountprocess" w in
    if truthy_text asked then asked else get_item "mergeaccountprocess" w.storage

-- After both looks at the version.
abbrev pub looked : Libs → Page → Page
looked lib w = after_value lib "version" (after_value lib "version" w)

pub looked-session :
    (lib : Libs) (key : String) (w : Page)
    → ("version" == key) ≡ false
    → (key == "renderingType") ≡ false
    → get_item key (looked lib w).session ≡ get_item key w.session
looked-session lib key w ne other =
    let same = λ (v : Page).
      get_value_from_session-other lib "version" key v
        (λ e. ground (arith, e, ne, eq_iff "version" key))
        (λ e. ground (arith, e, other, eq_iff key "renderingType")) in
    same (after_value lib "version" w) ∙ same w
