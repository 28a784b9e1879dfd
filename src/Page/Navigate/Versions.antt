-- ===== src/Page/Navigate/Versions.antt =====
-- Versions that `navigate` compares as texts.
use Prim.Native.String.{◌∷◌}
use sunbird_devops.Base.{
  String, Char, code, ◌<◌, ◌≡◌, ◌≢◌, refl, ◌∙◌, false, ◌||◌, some, arith, eq_iff,
}
use sunbird_devops.Web.Libs.{Libs}
use sunbird_devops.State.{Page, ok}
use sunbird_devops.State.Laws.{continue_of_ok}
use sunbird_devops.Page.Nullable.{is_equal, at_least_text}
use sunbird_devops.Page.Session.Persistence.{value_of, after_value, get_value_from_session-eq}
use sunbird_devops.Page.Navigate.{Kind, navigate}
use sunbird_devops.Page.Navigate.Waiting.{at_version}

is_old-false :
    (v : String) → v ≢ "1" → v ≢ "2" → (is_equal (some v) "1" || is_equal (some v) "2") ≡ false
is_old-false v one two = ground (arith, eq_iff v "1", eq_iff v "2", one, two)

is_new-false : (c : Char) (s : String) → code c < b'3' → at_least_text (some (c ∷ s)) "3" ≡ false
unfolding at_least_text
is_new-false c s h = ground (arith, h)

-- A version whose first character stands before "3", and which is not "1" or "2", such as "10", is
-- taken for no version at all: whatever was clicked, `navigate` does nothing but note the version.
pub navigate-long_version :
    (lib : Libs) (kind : Kind) (c : Char) (s : String) (w : Page)
    → value_of lib "version" w ≡ some (c ∷ s)
    → code c < b'3'
    → (c ∷ s) ≢ "1"
    → (c ∷ s) ≢ "2"
    → navigate lib kind w ≡ (ok tt, after_value lib "version" w)
unfolding navigate
navigate-long_version lib kind c s w given small one two =
    continue_of_ok (at_version lib kind) (get_value_from_session-eq lib "version" w)
    ∙ rw given (rw (is_old-false (c ∷ s) one two) (rw (is_new-false c s small) refl))
