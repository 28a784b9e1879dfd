-- ===== src/Page/Password/Outcome.antt =====
-- What the two handlers do to the form for a new password, step by step.
use sunbird_devops.Base.{
  String, ◌≡◌, refl, ◌∙◌, Bool, true, false, not, ◌==◌, if◌then◌else◌, Bool-cases, inl, inr, ⊤,
}
use sunbird_devops.Js.Text.{replace_first}
use sunbird_devops.Web.Dom.{Element}
use sunbird_devops.State.Laws.{continue_of_ok}
use sunbird_devops.State.{M, when, continue_with, ◌>>=◌, ◌>>◌, Page, ok, Result}
use sunbird_devops.Page.Elements.{with_class}
use sunbird_devops.Page.Password.{
  is_strong, read_value, swap_class, set_disabled, accept, agree, differ, validate_password,
  match_password,
}
use sunbird_devops.Page.Password.Form.{
  Form, set_element, require_element-found, read_value-found, set_error, set_mismatch, set_button,
}

-- A call that ends well and keeps the form: the fields as they are, the button enabled or not.
pub record Keeps {w : Page} (f : Form w) (disabled : Bool) (x : Result ⊤ × Page) : Type 0 where
  pub page : Page
  pub ends : x ≡ (ok tt, page)
  pub form : Form page
  pub same_fresh : form.fresh ≡ f.fresh
  pub same_confirm : form.confirm ≡ f.confirm
  pub sets : form.button.disabled ≡ disabled

abbrev swapped : String → String → Element → Element
swapped old new = with_class (λ c. replace_first old new c)

abbrev enabled_if : Bool → Element → Element
enabled_if b e = record e { disabled = b }

error-Keeps :
    {w : Page} (f : Form w) (old new : String)
    → Keeps f f.button.disabled (swap_class "passwd-error-msg" old new w)
error-Keeps {w} f old new = record {
  page = set_element "passwd-error-msg" (swapped old new f.error) w;
  ends = require_element-found _ _ f.error w f.has_error;
  form = set_error f (swapped old new f.error);
  same_fresh = refl;
  same_confirm = refl;
  sets = refl;
}

mismatch-Keeps :
    {w : Page} (f : Form w) (old new : String) (b : Bool)
    → Keeps f b ((do swap_class "passwd-match-error-msg" old new; set_disabled b) w)
mismatch-Keeps {w} f old new b =
    let shown = swapped old new f.mismatch in
    let g = set_mismatch f shown in
    record {
      page =
          set_element "login" (enabled_if b g.button)
            (set_element "passwd-match-error-msg" shown w);
      ends =
          continue_of_ok (λ _. set_disabled b)
            (require_element-found _ _ f.mismatch w f.has_mismatch)
          ∙ require_element-found _ _ g.button _ g.has_button;
      form = set_button g (enabled_if b g.button);
      same_fresh = refl;
      same_confirm = refl;
      sets = refl;
    }

skip-Keeps : {w : Page} (f : Form w) (d : Bool) → f.button.disabled ≡ d → Keeps f d (ok tt, w)
skip-Keeps {w} f d h = record {
  page = w;
  ends = refl;
  form = f;
  same_fresh = refl;
  same_confirm = refl;
  sets = h;
}

then-Keeps :
    {w : Page} (f : Form w) (d d' : Bool) (x : Result ⊤ × Page) (m : M ⊤) (h : Keeps f d x)
    → Keeps h.form d' (m h.page)
    → Keeps f d' (continue_with (λ (_ : ⊤). m) x)
then-Keeps f d d' x m h k = record {
  page = k.page;
  ends = continue_of_ok (λ _. m) h.ends ∙ k.ends;
  form = k.form;
  same_fresh = k.same_fresh ∙ h.same_fresh;
  same_confirm = k.same_confirm ∙ h.same_confirm;
  sets = k.sets;
}

along-Keeps :
    {w : Page} (f : Form w) (d : Bool) (x y : Result ⊤ × Page) → x ≡ y → Keeps f d y → Keeps f d x
along-Keeps f d x y p k = record {
  page = k.page;
  ends = p ∙ k.ends;
  form = k.form;
  same_fresh = k.same_fresh;
  same_confirm = k.same_confirm;
  sets = k.sets;
}

abbrev open_form : M ⊤
open_form = do swap_class "passwd-match-error-msg" "show" "hide"; set_disabled false

accept-Keeps :
    {w : Page} (f : Form w) (b : Bool)
    → Keeps f (if b then false else f.button.disabled) (accept b w)
unfolding accept
accept-Keeps {w} f true =
    let h = error-Keeps f "passwderr" "passwdchk" in
    then-Keeps f _ false _ (when true open_form) h (mismatch-Keeps h.form "show" "hide" false)
accept-Keeps {w} f false =
    let h = error-Keeps f "passwderr" "passwdchk" in
    then-Keeps f _ f.button.disabled _ (when false open_form) h
      (skip-Keeps h.form f.button.disabled h.sets)

set_disabled-Keeps : {w : Page} (f : Form w) (b : Bool) → Keeps f b (set_disabled b w)
set_disabled-Keeps {w} f b = record {
  page = set_element "login" (enabled_if b f.button) w;
  ends = require_element-found _ _ f.button w f.has_button;
  form = set_button f (enabled_if b f.button);
  same_fresh = refl;
  same_confirm = refl;
  sets = refl;
}

agree-Keeps :
    {w : Page} (f : Form w) (text : String)
    → Keeps f (if is_strong text then false else f.button.disabled) (agree text w)
unfolding agree
agree-Keeps f text = elim (Bool-cases (is_strong text)) [
  | inl strong ↦ rw strong (mismatch-Keeps f "show" "hide" false)
  | inr weak ↦ rw weak (skip-Keeps f f.button.disabled refl)
]

differ-Keeps : {w : Page} (f : Form w) → Keeps f true (differ w)
unfolding differ
differ-Keeps f = mismatch-Keeps f "hide" "show" true

-- The two fields are read, and the rest runs on what they hold.
reads :
    {w : Page} (f : Form w) (k : String → String → M ⊤)
    → (do text ← read_value "password-new"; text2 ← read_value "password-confirm"; k text text2) w
      ≡ k f.fresh.value f.confirm.value w
reads {w} f k =
    continue_of_ok (λ text. read_value "password-confirm" >>= k text)
      (read_value-found _ f.fresh w f.has_fresh)
    ∙ continue_of_ok (k f.fresh.value) (read_value-found _ f.confirm w f.has_confirm)

-- How `matchPassword` leaves the button.
abbrev pub matched : {w : Page} → Form w → Bool
matched f =
    if f.fresh.value == f.confirm.value
    then (if is_strong f.confirm.value then false else f.button.disabled)
    else true

pub match_password-Keeps : {w : Page} (f : Form w) → Keeps f (matched f) (match_password w)
unfolding match_password
match_password-Keeps {w} f =
    along-Keeps f (matched f) _ _
      (reads f (λ text text2. if text == text2 then agree text2 else differ))
      (elim (Bool-cases (f.fresh.value == f.confirm.value)) [
        | inl same ↦ rw same (agree-Keeps f f.confirm.value)
        | inr other ↦ rw other (differ-Keeps f)
      ])

-- How `validatePassword` does.
abbrev pub validated : {w : Page} → Form w → Bool
validated f =
    if f.fresh.value == f.confirm.value
    then (if is_strong f.fresh.value then false else f.button.disabled)
    else true

abbrev validate_rest : String → String → M ⊤
validate_rest text text2 = do
  if is_strong text
      then accept (text == text2)
      else swap_class "passwd-error-msg" "passwdchk" "passwderr"
  when (not (text == text2)) (set_disabled true)

judge-Keeps :
    {w : Page} (f : Form w) (strong same : Bool)
    → Keeps f (if same then (if strong then false else f.button.disabled) else true) (
        (do
          if strong then accept same else swap_class "passwd-error-msg" "passwdchk" "passwderr"
          when (not same) (set_disabled true))
          w)
judge-Keeps f true true =
    let h = accept-Keeps f true in
    then-Keeps f _ false _ (when false (set_disabled true)) h (skip-Keeps h.form false h.sets)
judge-Keeps f true false =
    let h = accept-Keeps f false in
    then-Keeps f _ true _ (when true (set_disabled true)) h (set_disabled-Keeps h.form true)
judge-Keeps f false true =
    let h = error-Keeps f "passwdchk" "passwderr" in
    then-Keeps f _ f.button.disabled _ (when false (set_disabled true)) h
      (skip-Keeps h.form f.button.disabled h.sets)
judge-Keeps f false false =
    let h = error-Keeps f "passwdchk" "passwderr" in
    then-Keeps f _ true _ (when true (set_disabled true)) h (set_disabled-Keeps h.form true)

pub validate_password-Keeps : {w : Page} (f : Form w) → Keeps f (validated f) (validate_password w)
unfolding validate_password
validate_password-Keeps {w} f =
    along-Keeps f (validated f) _ _ (reads f validate_rest)
      (judge-Keeps f (is_strong f.fresh.value) (f.fresh.value == f.confirm.value))
