-- ===== src/Telemetry/Event/Globals.antt =====
-- The global context behind `updateConfigurations`.
use sunbird_devops.Base.{String, ◌≡◌, refl, ◌∙◌, ap, false, ◌==◌, Bool-cases, inl, inr}
use sunbird_devops.Js.Value.{undefined, Fields, truthy, get}
use sunbird_devops.Js.Value.Laws.{get-put}
use sunbird_devops.Telemetry.Event.{put_if}

-- A key that is not the one to be set.
put_if-other :
    (k j : String) (config o : Fields) → (k == j) ≡ false → get j (put_if k config o) ≡ get j o
put_if-other k j config o ne = elim (Bool-cases (truthy (get k config))) [
  | inl given ↦ rw given (get-put k j (get k config) o ∙ rw ne refl)
  | inr missing ↦ rw missing refl
]

-- the globals that `updateConfigurations` leaves
abbrev pub globals : Fields → Fields → Fields
globals c o = put_if "pdata" c (
    put_if "cdata" c
      (put_if "did" c (put_if "sid" c (put_if "rollup" c (put_if "env" c (put_if "channel" c o))))))

pub globals-did : (c o : Fields) → get "did" c ≡ undefined → get "did" (globals c o) ≡ get "did" o
globals-did c o none_given =
    let channel = put_if "channel" c o in
    let env = put_if "env" c channel in
    let rollup = put_if "rollup" c env in
    let sid = put_if "sid" c rollup in
    let skipped : put_if "did" c sid ≡ sid = rw none_given refl in
    put_if-other "pdata" "did" c (put_if "cdata" c (put_if "did" c sid)) refl
    ∙ put_if-other "cdata" "did" c (put_if "did" c sid) refl
    ∙ ap (get "did") skipped
    ∙ put_if-other "sid" "did" c rollup refl
    ∙ put_if-other "rollup" "did" c env refl
    ∙ put_if-other "env" "did" c channel refl
    ∙ put_if-other "channel" "did" c o refl
