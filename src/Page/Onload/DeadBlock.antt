-- ===== src/Page/Onload/DeadBlock.antt =====
-- The block of `window.onload` that `isForgetPasswordAllow` guards.
use sunbird_devops.Base.{
  ◌∙◌, none, some, sym, eq_iff, eq_iff, some, arith, inr, inl, Bool-cases, true, String, ◌≡◌, refl,
  ap, Bool, false, not, ◌&&◌, Option, if◌then◌else◌, ⊤,
}
use sunbird_devops.Js.Text.{to_number}
use sunbird_devops.Web.Store.{get_item}
use sunbird_devops.State.{◌>>◌, pure}
use sunbird_devops.State.Laws.{continue_of_ok}
use sunbird_devops.Page.Session.Persistence.{value_of, after_value, get_value_from_session-eq}
use sunbird_devops.Page.Session.History.{own-session}
use Prim.Native.String.{◌++◌}
use sunbird_devops.Web.Libs.{Libs}
use sunbird_devops.State.{Page, Result, ok, throw, M, continue_with, when, ◌>>=◌}
use sunbird_devops.State.Frame.{continue_of_same}
use sunbird_devops.Page.Nullable.{truthy_text, text_or_null, is_equal, at_least}
use sunbird_devops.Page.Session.{get_value_from_session}
use sunbird_devops.Page.Elements.{
  hide_element, for_element, show, add_version_to_url, toggle_google_sign_in_btn,
}
use sunbird_devops.Page.Onload.{
  pure, query, stored_merge, fresh_merge, onload, Merging, find_merge, mark_merge, show_messages,
  show_forgot_link, show_merge, auto_merge,
}

-- The link to the flow for forgotten passwords, by the version alone.
abbrev pub show_link : Option String → M ⊤
show_link version =
    if at_least version 4
    then for_element "fgtPortalFlow" show
    else for_element "fgtKeycloakFlow"
        (λ e. record (show e) { href = e.href ++ ("&version=" ++ text_or_null version) })

-- `window.onload` with another way to show that link, by the version and `isForgetPasswordAllow`.
abbrev Forgot : Type 0
Forgot = Option String → Option String → M ⊤

module _ (lib : Libs) where
  abbrev pub blocks : M ⊤ → Merging → M ⊤
  blocks link m = do
    add_version_to_url m.version
    toggle_google_sign_in_btn lib
    show_messages lib
    link
    when (is_equal m.process "1") (show_merge lib m)
    auto_merge lib

  abbrev pub from_merge : Forgot → Option String → Option String → M ⊤
  from_merge forgot version allowed = do
    m ← find_merge lib version
    blocks (forgot m.version allowed) m

  abbrev pub onload_with : Forgot → M ⊤
  onload_with forgot = do
    version ← get_value_from_session lib "version"
    allowed ← get_value_from_session lib "version"
    from_merge forgot version allowed

-- what the guard of the block says
abbrev is_open : Option String → Option String → Bool
is_open version allowed = not (truthy_text version) && at_least allowed 4

last_skipped : (x : Result ⊤ × Page) (m : M ⊤) → continue_with (λ _. when false m) x ≡ x
last_skipped (ok a, w) m = refl
last_skipped (throw e, w) m = refl

closed_link :
    (lib : Libs) (version allowed : Option String) (w : Page)
    → is_open version allowed ≡ false
    → show_forgot_link lib version allowed w ≡ show_link version w
unfolding show_forgot_link
closed_link lib version allowed w closed = rw closed (
    last_skipped (show_link version w)
      (do hide_element "fgtKeycloakFlow"; for_element "fgtPortalFlow" show))

blocks_agree :
    (lib : Libs) (allowed : Option String) (m : Merging) (w : Page)
    → is_open m.version allowed ≡ false
    → blocks lib (show_forgot_link lib m.version allowed) m w ≡ blocks lib (show_link m.version) m w
blocks_agree lib allowed m w closed =
    ap (λ link. blocks lib link m w) (λ i v. closed_link lib m.version allowed v closed i)

-- A version that is there is kept.
stored_kept :
    (version : Option String) (process stored : Option String)
    → truthy_text version ≡ true
    → (if is_equal process "1" && not (truthy_text version) then stored else version) ≡ version
stored_kept version process stored full = elim (Bool-cases (is_equal process "1")) [
  | inl again ↦ rw (again, full) refl
  | inr fresh ↦ rw fresh refl
]

-- The rest behind the block on a stored merge, of which only the page matters.
stored_rest :
    (f g : Merging → M ⊤) (m : Merging) (x : Result ⊤ × Page)
    → f m x.1 ≡ g m x.1
    → continue_with f (continue_with (λ _. pure m) x)
      ≡ continue_with g (continue_with (λ _. pure m) x)
stored_rest f g m (ok a, w) h = h
stored_rest f g m (throw e, w) h = refl

-- A version that is there is the one that the blocks get.
find_merge-version :
    (lib : Libs) (version : Option String) (f g : Merging → M ⊤) (w : Page)
    → truthy_text version ≡ true
    → ((m : Merging) (v : Page) → m.version ≡ version → f m v ≡ g m v)
    → continue_with f (find_merge lib version w) ≡ continue_with g (find_merge lib version w)
unfolding find_merge fresh_merge stored_merge
find_merge-version lib version f g w full h =
    elim (Bool-cases (truthy_text (query lib "mergeaccountprocess" w))) [
      | inl given ↦ rw given (h _ _ refl)
      | inr missing ↦
          let process = get_item "mergeaccountprocess" w.storage in
          let stored = get_item "version" w.storage in
          let again = is_equal process "1" in
          let m : Merging = record {
            process = process;
            version = if again && not (truthy_text version) then stored else version;
            from_storage = again;
          } in
          let marked : Result ⊤ × Page = when again mark_merge w in
          rw missing
            (stored_rest f g m marked (h m marked.1 (stored_kept version process stored full)))
    ]

-- Without a version there is none to forget the password with.
no_version-is_open :
    (version other : Option String) → truthy_text version ≡ false → is_open other version ≡ false
unfolding at_least to_number
no_version-is_open none other missing = ground arith
no_version-is_open (some s) other missing =
    let empty : s ≡ "" = ground (arith, missing, eq_iff s "") in rw empty (ground arith)

from_merge_agree :
    (lib : Libs) (version : Option String) (w : Page)
    → from_merge lib (show_forgot_link lib) version version w
      ≡ from_merge lib (λ v _. show_link v) version version w
from_merge_agree lib version w =
    let f = λ (m : Merging). blocks lib (show_forgot_link lib m.version version) m in
    let g = λ (m : Merging). blocks lib (show_link m.version) m in
    elim (Bool-cases (truthy_text version)) [
      | inr missing ↦
          let found = find_merge lib version w in
          continue_of_same f g found
            (λ m. blocks_agree lib version m found.1 (no_version-is_open version m.version missing))
      | inl full ↦
          find_merge-version lib version f g w full
            (λ m v same. blocks_agree lib version m v (rw (same, full) refl))
    ]

-- The value that a second look finds.
value_of-twice :
    (lib : Libs) (w : Page)
    → value_of lib "version" (after_value lib "version" w) ≡ value_of lib "version" w
value_of-twice lib w =
    let session : get_item "version" (after_value lib "version" w).session
        ≡ value_of lib "version" w =
      own-session lib "version" w (λ e. ground (arith, e, eq_iff "version" "renderingType")) in
    rw session (ground arith)

-- Both looks at the version find the same.
pub onload_with-merge :
    (lib : Libs) (forgot : Forgot) (w : Page)
    → let version = value_of lib "version" w in
      onload_with lib forgot w
      ≡ from_merge lib forgot version version
          (after_value lib "version" (after_value lib "version" w))
onload_with-merge lib forgot w =
    let version = value_of lib "version" w in
    let v = after_value lib "version" w in
    let rest = λ (version : Option String).
      get_value_from_session lib "version" >>= from_merge lib forgot version in
    continue_of_ok rest (get_value_from_session-eq lib "version" w)
    ∙ continue_of_ok (from_merge lib forgot version) (get_value_from_session-eq lib "version" v)
    ∙ ap (λ allowed. from_merge lib forgot version allowed (after_value lib "version" v))
        (value_of-twice lib w)

-- The block under `!version && isForgetPasswordAllow >= 4` runs for no address and no session:
-- `window.onload` does on every page what it does without that block.
pub onload-onload_with :
    (lib : Libs) (w : Page) → onload lib w ≡ onload_with lib (λ version _. show_link version) w
unfolding onload
onload-onload_with lib w =
    onload_with-merge lib (show_forgot_link lib) w
    ∙ from_merge_agree lib (value_of lib "version" w) _
    ∙ sym (onload_with-merge lib (λ version _. show_link version) w)
