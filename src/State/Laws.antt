-- ===== src/State/Laws.antt =====
-- Stepping through a `do` block while the calls in it stay shut: `(m >>= f) w` is
-- `continue_with f (m w)`.
use sunbird_devops.Base.{◌≡◌, refl, ap, ⊤, arith}
use sunbird_devops.State.{Page, Error, Result, ok, throw, M, continue_with}

module _ {A B : Type 0} (f : A → M B) where
  pub continue_of_eq : {x y : Result A × Page} → x ≡ y → continue_with f x ≡ continue_with f y
  continue_of_eq h = ap (continue_with f) h

  pub continue_of_ok :
      {x : Result A × Page} {a : A} {w : Page} → x ≡ (ok a, w) → continue_with f x ≡ f a w
  continue_of_ok h = ap (continue_with f) h

  pub continue_of_throw :
      {x : Result A × Page} {e : Error} {w : Page}
      → x ≡ (throw e, w)
      → continue_with f x ≡ (throw e, w)
  continue_of_throw h = ap (continue_with f) h

-- A call that ended well is followed by the next.
pub continue_of_ends :
    (k : M ⊤) (x : Result ⊤ × Page) → x.0 ≡ ok tt → continue_with (λ _. k) x ≡ k x.1
continue_of_ends k (ok a, w) h = refl
continue_of_ends k (throw e, w) h = ground (arith, h)
