-- ===== src/Js/Value/Laws.antt =====
-- Reading an object after its fields were written or assigned.
use sunbird_devops.Base.{◌∙◌, String, ◌≡◌, refl, false, arith, ◌==◌, eq_iff, eq_refl, if◌then◌else◌}
use sunbird_devops.Js.Value.{undefined, Value, Fields, end, field, get, put, has, assign}

pub get-put :
    (k j : String) (v : Value) (o : Fields) → get j (put k v o) ≡ (if k == j then v else get j o)
unfolding get put
get-put k j v end = refl
get-put k j v (field i w o) = ground (arith, eq_iff k j, eq_iff i k, eq_iff i j, get-put k j v o)

pub get-put_self : (k : String) (v : Value) (o : Fields) → get k (put k v o) ≡ v
get-put_self k v o = simp (get-put, eq_refl)

-- No key stands twice, as in every JavaScript object.
abbrev pub HasDistinctKeys : Fields → Type 0
HasDistinctKeys end = Unit
HasDistinctKeys (field k v o) = (has k o ≡ false) × HasDistinctKeys o

-- `Object.assign` takes a key from the source, if the source has it.
pub get-assign :
    (k : String) (target source : Fields)
    → HasDistinctKeys source
    → get k (assign target source) ≡ (if has k source then get k source else get k target)
unfolding get has assign
get-assign k target end h = refl
get-assign k target (field j v source) h =
    ground (arith, get-assign k (put j v target) source h.1, get-put j k v target, eq_iff j k)

get_of_not-has : (k : String) (o : Fields) → has k o ≡ false → get k o ≡ undefined
unfolding get has
get_of_not-has k end h = refl
get_of_not-has k (field j v o) h = ground (arith, get_of_not-has k o)

-- A copy of an object has the same fields.
pub get-assign_empty :
    (k : String) (o : Fields) → HasDistinctKeys o → get k (assign end o) ≡ get k o
unfolding get
get-assign_empty k o h = get-assign k end o h ∙ choice
  where
    choice : (if has k o then get k o else undefined) ≡ get k o
    choice = ground (arith, get_of_not-has k o)

-- A key that the source does not have.
pub assign-other :
    (k : String) (target source : Fields)
    → has k source ≡ false
    → get k (assign target source) ≡ get k target
unfolding has assign
assign-other k target end h = refl
assign-other k target (field j v o) h =
    let others : has k o ≡ false = ground arith in
    let apart : (j == k) ≡ false = ground arith in
    assign-other k (put j v target) o others ∙ get-put j k v target ∙ rw apart refl
