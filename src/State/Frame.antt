-- ===== src/State/Frame.antt =====
-- What a block of calls leaves alone, call by call.
use sunbird_devops.Base.{◌≡◌, refl, ◌∙◌}
use sunbird_devops.State.{Page, Result, ok, throw, M, continue_with}

-- Two blocks with the same first call agree, if their rests do on the page that it leaves.
pub continue_of_same :
    {A B : Type 0} (f g : A → M B) (x : Result A × Page)
    → ((a : A) → f a x.1 ≡ g a x.1)
    → continue_with f x ≡ continue_with g x
continue_of_same f g (ok a, w) h = h a
continue_of_same f g (throw e, w) h = refl

-- A page at the same address and in the same browser.
pub record SamePlace (w : Page) (v : Page) : Type 0 where
  pub same_location : v.location ≡ w.location
  pub same_agent : v.user_agent ≡ w.user_agent

pub SamePlace-refl : (w : Page) → SamePlace w w
SamePlace-refl w = record { same_location = refl; same_agent = refl }

pub SamePlace-trans : (w v u : Page) → SamePlace w v → SamePlace v u → SamePlace w u
SamePlace-trans w v u h k = record {
  same_location = k.same_location ∙ h.same_location;
  same_agent = k.same_agent ∙ h.same_agent;
}

pub SamePlace-continue :
    {A B : Type 0} (f : A → M B) (x : Result A × Page)
    → ((a : A) → SamePlace x.1 (f a x.1).1)
    → SamePlace x.1 (continue_with f x).1
SamePlace-continue f (ok a, w) h = h a
SamePlace-continue f (throw e, w) h = SamePlace-refl w
