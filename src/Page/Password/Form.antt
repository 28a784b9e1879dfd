-- ===== src/Page/Password/Form.antt =====
-- The form for a new password, and the form after one of its elements is replaced.
use sunbird_devops.Base.{String, ◌≡◌, ◌∙◌, some}
use sunbird_devops.Web.Dom.{Element}
use sunbird_devops.Web.Store.{get_item, set_item, get_item-set_item}
use sunbird_devops.State.{Page, ok}
use sunbird_devops.Page.Elements.{require_element}
use sunbird_devops.Page.Password.{read_value}

-- The five elements of the form that the script writes to.
pub record Form (w : Page) : Type 0 where
  pub fresh : Element
  pub confirm : Element
  pub error : Element
  pub mismatch : Element
  pub button : Element
  pub has_fresh : get_item "password-new" w.doc ≡ some fresh
  pub has_confirm : get_item "password-confirm" w.doc ≡ some confirm
  pub has_error : get_item "passwd-error-msg" w.doc ≡ some error
  pub has_mismatch : get_item "passwd-match-error-msg" w.doc ≡ some mismatch
  pub has_button : get_item "login" w.doc ≡ some button

-- An element is replaced.
abbrev pub set_element : String → Element → Page → Page
set_element id e w = record w { doc = set_item id e w.doc }

pub require_element-found :
    (id : String) (f : Element → Element) (e : Element) (w : Page)
    → get_item id w.doc ≡ some e
    → require_element id f w ≡ (ok tt, set_element id (f e) w)
unfolding require_element
require_element-found id f e w h = rw h

pub read_value-found :
    (id : String) (e : Element) (w : Page)
    → get_item id w.doc ≡ some e
    → read_value id w ≡ (ok e.value, w)
unfolding read_value
read_value-found id e w h = rw h

module _ {w : Page} (f : Form w) (e : Element) where
  abbrev pub set_fresh : Form (set_element "password-new" e w)
  set_fresh = record {
    fresh = e;
    confirm = f.confirm;
    error = f.error;
    mismatch = f.mismatch;
    button = f.button;
    has_fresh = get_item-set_item _ _ e w.doc;
    has_confirm = get_item-set_item _ _ e w.doc ∙ f.has_confirm;
    has_error = get_item-set_item _ _ e w.doc ∙ f.has_error;
    has_mismatch = get_item-set_item _ _ e w.doc ∙ f.has_mismatch;
    has_button = get_item-set_item _ _ e w.doc ∙ f.has_button;
  }

  abbrev pub set_confirm : Form (set_element "password-confirm" e w)
  set_confirm = record {
    fresh = f.fresh;
    confirm = e;
    error = f.error;
    mismatch = f.mismatch;
    button = f.button;
    has_fresh = get_item-set_item _ _ e w.doc ∙ f.has_fresh;
    has_confirm = get_item-set_item _ _ e w.doc;
    has_error = get_item-set_item _ _ e w.doc ∙ f.has_error;
    has_mismatch = get_item-set_item _ _ e w.doc ∙ f.has_mismatch;
    has_button = get_item-set_item _ _ e w.doc ∙ f.has_button;
  }

  abbrev pub set_error : Form (set_element "passwd-error-msg" e w)
  set_error = record {
    fresh = f.fresh;
    confirm = f.confirm;
    error = e;
    mismatch = f.mismatch;
    button = f.button;
    has_fresh = get_item-set_item _ _ e w.doc ∙ f.has_fresh;
    has_confirm = get_item-set_item _ _ e w.doc ∙ f.has_confirm;
    has_error = get_item-set_item _ _ e w.doc;
    has_mismatch = get_item-set_item _ _ e w.doc ∙ f.has_mismatch;
    has_button = get_item-set_item _ _ e w.doc ∙ f.has_button;
  }

  abbrev pub set_mismatch : Form (set_element "passwd-match-error-msg" e w)
  set_mismatch = record {
    fresh = f.fresh;
    confirm = f.confirm;
    error = f.error;
    mismatch = e;
    button = f.button;
    has_fresh = get_item-set_item _ _ e w.doc ∙ f.has_fresh;
    has_confirm = get_item-set_item _ _ e w.doc ∙ f.has_confirm;
    has_error = get_item-set_item _ _ e w.doc ∙ f.has_error;
    has_mismatch = get_item-set_item _ _ e w.doc;
    has_button = get_item-set_item _ _ e w.doc ∙ f.has_button;
  }

  abbrev pub set_button : Form (set_element "login" e w)
  set_button = record {
    fresh = f.fresh;
    confirm = f.confirm;
    error = f.error;
    mismatch = f.mismatch;
    button = e;
    has_fresh = get_item-set_item _ _ e w.doc ∙ f.has_fresh;
    has_confirm = get_item-set_item _ _ e w.doc ∙ f.has_confirm;
    has_error = get_item-set_item _ _ e w.doc ∙ f.has_error;
    has_mismatch = get_item-set_item _ _ e w.doc ∙ f.has_mismatch;
    has_button = get_item-set_item _ _ e w.doc;
  }
