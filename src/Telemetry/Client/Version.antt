-- ===== src/Telemetry/Client/Version.antt =====
-- What `detectClient` cuts off the version.
use Prim.Native.String.{[], ◌∷◌}
use sunbird_devops.Base.{ℕ, String, ◌≡◌, false, code, eqb, Bool-cases, inl, inr}
use sunbird_devops.Js.Text.{before}
use sunbird_devops.Telemetry.Client.{name_client, detect_client}

-- A character does not stand in a text.
abbrev pub Lacks : ℕ → String → Type 0
Lacks sep [] = Unit
Lacks sep (c ∷ s) = (eqb (code c) sep ≡ false) × Lacks sep s

before-Lacks : (sep : ℕ) (s : String) → Lacks sep (before sep s)
unfolding before
before-Lacks sep [] = tt
before-Lacks sep (c ∷ s) = elim (Bool-cases (eqb (code c) sep)) [
  | inl same ↦ rw same tt
  | inr other ↦ rw other (other, before-Lacks sep s)
]

Lacks-before : (sep other : ℕ) (s : String) → Lacks sep s → Lacks sep (before other s)
unfolding before
Lacks-before sep other [] h = tt
Lacks-before sep other (c ∷ s) h = elim (Bool-cases (eqb (code c) other)) [
  | inl same ↦ rw same tt
  | inr differs ↦ rw differs (h.0, Lacks-before sep other s h.1)
]

-- Whatever the user agent is, the version that `detectClient` returns holds no semicolon and no
-- space.
pub detect_client-Lacks :
    (name version agent platform : String)
    → Lacks b';' (detect_client name version agent platform).browserver
      × Lacks b' ' (detect_client name version agent platform).browserver
unfolding detect_client
detect_client-Lacks name version agent platform =
    let found = name_client name version agent in
    (
      Lacks-before b';' b' ' (before b';' found.1) (before-Lacks b';' found.1),
      before-Lacks b' ' (before b';' found.1),
    )
