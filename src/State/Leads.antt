-- ===== src/State/Leads.antt =====
-- What a block of calls comes to: it ends well, on a page with a property.
use sunbird_devops.Base.{◌≡◌, refl, ◌∙◌, Bool, true, false, ⊤, if◌then◌else◌}
use sunbird_devops.State.{Page, ok, M, when, ◌>>=◌}
use sunbird_devops.State.Laws.{continue_of_ok}

-- From every page with the first property the call ends well, on a page with the second.
abbrev pub Leads : {A : Type 0} → (Page → Type 0) → M A → (Page → Type 0) → Type 0
Leads {A} p m q = (w : Page) → p w → (a : A) × (v : Page) × (m w ≡ (ok a, v)) × q v

module _ {p q r : Page → Type 0} where
  pub Leads-bind :
      {A B : Type 0} (m : M A) (f : A → M B)
      → Leads p m q
      → ((a : A) → Leads q (f a) r)
      → Leads p (m >>= f) r
  Leads-bind m f h k w x =
      let (a, v, e, y) = h w x in let (b, u, e2, z) = k a v y in (b, u, continue_of_ok f e ∙ e2, z)

pub Leads-when : {p : Page → Type 0} (b : Bool) (m : M ⊤) → Leads p m p → Leads p (when b m) p
Leads-when true m h = h
Leads-when false m h = λ w x. (tt, w, refl, x)

pub Leads-if :
    {A : Type 0} {p q : Page → Type 0} (b : Bool) (m k : M A)
    → Leads p m q
    → Leads p k q
    → Leads p (if b then m else k) q
Leads-if true m k h g = h
Leads-if false m k h g = g
