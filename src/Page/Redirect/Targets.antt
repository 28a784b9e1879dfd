-- ===== src/Page/Redirect/Targets.antt =====
-- Where the shared part of the handlers that leave the login page goes.
use sunbird_devops.Base.{
  Bool-cases, inl, inr, String, ◌≡◌, ◌∙◌, ap, true, false, Option, some, eq_iff, arith,
}
use sunbird_devops.Web.Dom.{Location}
use sunbird_devops.Web.Libs.{Libs}
use sunbird_devops.Web.Store.{get_item}
use sunbird_devops.State.Laws.{continue_of_ok}
use sunbird_devops.State.{Page}
use sunbird_devops.Page.Nullable.{truthy_text}
use sunbird_devops.Page.Session.{query}
use sunbird_devops.Page.Session.Persistence.{
  value_of, after_value, get_value_from_session-eq, get_value_from_session-other,
}
use sunbird_devops.Page.Redirect.{leave_with, leave_to, redirect_to_lib}

session_url_after :
    (lib : Libs) (w : Page)
    → get_item "session_url" (after_value lib "redirect_uri" w).session
      ≡ get_item "session_url" w.session
session_url_after lib w =
    get_value_from_session-other lib "redirect_uri" "session_url" w
      (ground (arith, eq_iff "redirect_uri" "session_url"))
      (ground (arith, eq_iff "session_url" "renderingType"))

module _ (lib : Libs) (target : Location → String → Location → Option String → String)
    (w : Page) where
  pub leave_to-eq :
      leave_to lib target w
      ≡ leave_with lib target
          (value_of lib "redirect_uri" w)
          (query lib "client_id" w)
          (get_item "session_url" w.session)
          (after_value lib "redirect_uri" w)
  unfolding leave_to
  leave_to-eq =
      continue_of_ok
        (λ uri v.
          leave_with lib target uri (query lib "client_id" v) (get_item "session_url" v.session) v)
        (get_value_from_session-eq lib "redirect_uri" w)
      ∙ ap
          (λ s.
            leave_with lib target (value_of lib "redirect_uri" w) (query lib "client_id" w) s
              (after_value lib "redirect_uri" w))
          (session_url_after lib w)

  pub leave_to-valid :
      (s u : String) (session application : Location)
      → get_item "session_url" w.session ≡ some s
      → truthy_text (some s) ≡ true
      → value_of lib "redirect_uri" w ≡ some u
      → truthy_text (some u) ≡ true
      → lib.parse_url s ≡ some session
      → lib.parse_url u ≡ some application
      → (leave_to lib target w).1.assigned
        ≡ some (target session u application (query lib "client_id" w))
  unfolding leave_with
  leave_to-valid s u session application hs fs hu fu ps pu =
      ap (λ x. x.1.assigned) leave_to-eq ∙ rw (hs, hu) (rw (fs, ps) (rw (fu, pu)))

  leave_to-lib :
      truthy_text (get_item "session_url" w.session) ≡ false
      → leave_to lib target w ≡ redirect_to_lib (after_value lib "redirect_uri" w)
  unfolding leave_with
  leave_to-lib h = leave_to-eq ∙ rw h

  pub leave_to-lib_uri :
      (s : String) (session : Location)
      → get_item "session_url" w.session ≡ some s
      → lib.parse_url s ≡ some session
      → truthy_text (value_of lib "redirect_uri" w) ≡ false
      → leave_to lib target w ≡ redirect_to_lib (after_value lib "redirect_uri" w)
  unfolding leave_with
  leave_to-lib_uri s session hs ps h = elim (Bool-cases (truthy_text (some s))) [
    | inl full ↦ leave_to-eq ∙ rw hs (rw (full, ps, h))
    | inr empty ↦ leave_to-lib (rw hs empty)
  ]
