-- ===== src/Page/Password/Guard.antt =====
-- When the button of the form for a new password can be pressed.
use sunbird_devops.Base.{⊤, String, ◌≡◌, ◌∙◌, ap, Bool, true, false, eq_iff, arith}
use sunbird_devops.Web.Dom.{Element}
use sunbird_devops.State.{Page, Result}
use sunbird_devops.Page.Password.{is_strong, validate_password, match_password}
use sunbird_devops.Page.Password.Form.{set_element, set_fresh, set_confirm, Form}
use sunbird_devops.Page.Password.Outcome.{
  Keeps, matched, validated, match_password-Keeps, validate_password-Keeps,
}

-- While the button is enabled, both fields hold the same strong password.
abbrev pub IsGuarded : Page → Type 0
IsGuarded w =
    (f : Form w)
    → f.button.disabled ≡ false
    → (f.fresh.value ≡ f.confirm.value) × (is_strong f.fresh.value ≡ true)

-- The text of one field changes, and the handler of that field runs.
pub data Edit (w : Page) (w' : Page) : Type 0 where
  edit_fresh :
      (f : Form w) (s : String)
      → w' ≡ (validate_password (set_element "password-new" (record f.fresh { value = s }) w)).1
      → Edit w w'
  edit_confirm :
      (f : Form w) (s : String)
      → w' ≡ (match_password (set_element "password-confirm" (record f.confirm { value = s }) w)).1
      → Edit w w'

pub data Edits (w : Page) : Page → Type 0 where
  none : Edits w w
  more : {v u : Page} → Edits w v → Edit v u → Edits w u

-- The state of a kept form is what any view of the page shows.
kept-view :
    {w : Page} (f : Form w) (d : Bool) (x : Result ⊤ × Page) (k : Keeps f d x) (g : Form k.page)
    → (g.button.disabled ≡ d)
      × (g.fresh.value ≡ f.fresh.value)
      × (g.confirm.value ≡ f.confirm.value)
kept-view f d x k g =
    let b : g.button ≡ k.form.button = cc (g.has_button, k.form.has_button) in
    let fresh : g.fresh ≡ f.fresh = cc (g.has_fresh, k.form.has_fresh, k.same_fresh) in
    let confirm : g.confirm ≡ f.confirm = cc (g.has_confirm, k.form.has_confirm, k.same_confirm) in
    (
      ap (λ (e : Element). e.disabled) b ∙ k.sets,
      ap (λ (e : Element). e.value) fresh,
      ap (λ (e : Element). e.value) confirm,
    )

fresh-IsGuarded :
    (w : Page) (f : Form w) (s : String)
    → IsGuarded w
    → IsGuarded (validate_password (set_element "password-new" (record f.fresh { value = s }) w)).1
fresh-IsGuarded w f s h =
    let f1 = set_fresh f (record f.fresh { value = s }) in
    let k = validate_password-Keeps f1 in
    rw (ap (λ x. x.1) k.ends) (λ g enabled.
      ground (arith, kept-view f1 (validated f1) _ k g, enabled, h f, eq_iff s f.confirm.value))

confirm-IsGuarded :
    (w : Page) (f : Form w) (s : String)
    → IsGuarded w
    → IsGuarded
        (match_password (set_element "password-confirm" (record f.confirm { value = s }) w)).1
confirm-IsGuarded w f s h =
    let f1 = set_confirm f (record f.confirm { value = s }) in
    let k = match_password-Keeps f1 in
    rw (ap (λ x. x.1) k.ends) (λ g enabled.
      ground (arith, kept-view f1 (matched f1) _ k g, enabled, h f, eq_iff f.fresh.value s))

-- However the two fields are edited, one at a time and with the field's handler run after each
-- edit, the button is enabled only while both fields hold the same text and that text is a strong
-- password, if that was so at first.
pub Edits-IsGuarded : {w u : Page} → IsGuarded w → Edits w u → IsGuarded u
Edits-IsGuarded h none = h
Edits-IsGuarded h (more {v} r (edit_fresh f s e)) =
    rw e (fresh-IsGuarded v f s (Edits-IsGuarded h r))
Edits-IsGuarded h (more {v} r (edit_confirm f s e)) =
    rw e (confirm-IsGuarded v f s (Edits-IsGuarded h r))
