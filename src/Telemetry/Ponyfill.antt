-- ===== src/Telemetry/Ponyfill.antt =====
-- `instance.objectAssign` of telemetry_service.js, which stands in for a missing `Object.assign`.
-- A target is its own fields, in their order, and an array one with indices for keys; null and
-- undefined are `none`. A target that is neither (a number, a text or a Boolean, which `Object`
-- would wrap) and a source that is the target itself are not modelled.
pub mod Equivalence
use sunbird_devops.Base.{String, Bool, Option, none, some, List, [], ◌∷◌, ◌++◌, if◌then◌else◌}
use sunbird_devops.Js.Value.{Value, Fields, end, field, get, put, has}

-- An object that is copied from: its own fields, and those of its prototypes that can be
-- enumerated.
pub record Source : Type 0 where
  pub own : Fields
  pub inherited : Fields

field_keys : Fields → List String
field_keys end = []
field_keys (field k v o) = k ∷ field_keys o

-- the keys among these that the object has not itself
without_own : Fields → List String → List String
without_own own [] = []
without_own own (k ∷ ks) = let rest = without_own own ks in if has k own then rest else k ∷ rest

-- The keys of `for (var key in source)`: its own, and the inherited ones that those do not shadow.
unfoldable pub keys : Source → List String
unfolding field_keys without_own
keys source = field_keys source.own ++ without_own source.own (field_keys source.inherited)

-- `source[key]`
unfoldable pub read : String → Source → Value
unfolding has get
read k source = if has k source.own then get k source.own else get k source.inherited

-- `if (hasOwnProperty.call(source, key)) target[key] = source[key]`, for one key after the other
unfoldable pub copy_keys : List String → Source → Fields → Fields
unfolding has read put
copy_keys [] source target = target
copy_keys (k ∷ ks) source target =
    let own = has k source.own in
    let written = put k (read k source) target in
    copy_keys ks source (if own then written else target)

-- the loop over the sources
unfoldable pub copy_sources : List (Option Source) → Fields → Fields
unfolding copy_keys keys
copy_sources [] target = target
copy_sources (none ∷ sources) target = copy_sources sources target
copy_sources (some source ∷ sources) target =
    copy_sources sources (copy_keys (keys source) source target)

-- `Object.assign` as `objectAssign` defines it; `none` is the exception
unfoldable pub object_assign : Option Fields → List (Option Source) → Option Fields
unfolding copy_sources
object_assign none sources = none
object_assign (some target) sources = some (copy_sources sources target)
