-- ===== src/Telemetry/Ponyfill/Equivalence.antt =====
-- The stand-in for `Object.assign` against `Object.assign` itself.
use sunbird_devops.Base.{
  String, ◌≡◌, ◌∙◌, refl, ap, false, ◌==◌, Option, none, some, List, [], ◌∷◌, ◌++◌, Bool-cases, inl,
  inr, arith, eq_iff, eq_refl, if◌then◌else◌,
}
use sunbird_devops.Js.Value.{Value, Fields, end, field, get, put, has, assign}
use sunbird_devops.Js.Value.Laws.{HasDistinctKeys}
use sunbird_devops.Telemetry.Ponyfill.{
  Source, read, field_keys, without_own, keys, copy_keys, copy_sources, object_assign,
}

-- `Object.assign` with the sources in their order, null and undefined skipped
abbrev pub assign_all : List (Option Source) → Fields → Fields
assign_all [] target = target
assign_all (none ∷ sources) target = assign_all sources target
assign_all (some source ∷ sources) target = assign_all sources (assign target source.own)

abbrev pub HaveDistinctKeys : List (Option Source) → Type 0
HaveDistinctKeys [] = Unit
HaveDistinctKeys (none ∷ sources) = HaveDistinctKeys sources
HaveDistinctKeys (some source ∷ sources) = HasDistinctKeys source.own × HaveDistinctKeys sources

-- what was read before is passed over: its keys are not the others'
abbrev Lacks : String → List String → Type 0
Lacks k [] = Unit
Lacks k (j ∷ js) = ((k == j) ≡ false) × Lacks k js

field_keys-Lacks : (k : String) (o : Fields) → has k o ≡ false → Lacks k (field_keys o)
unfolding has field_keys
field_keys-Lacks k end h = tt
field_keys-Lacks k (field j v o) h =
    let apart : (k == j) ≡ false = ground (arith, eq_iff j k, eq_iff k j) in
    let rest : has k o ≡ false = ground arith in (apart, field_keys-Lacks k o rest)

-- copying own fields alone
abbrev copy_own : List String → Fields → Fields → Fields
copy_own [] o target = target
copy_own (k ∷ ks) o target = copy_own ks o (if has k o then put k (get k o) target else target)

copy_own-field :
    (k : String) (v : Value) (ks : List String) (o target : Fields)
    → Lacks k ks
    → copy_own ks (field k v o) target ≡ copy_own ks o target
unfolding has get
copy_own-field k v [] o target h = refl
copy_own-field k v (j ∷ ks) o target h =
    rw h.0 (copy_own-field k v ks o (if has j o then put j (get j o) target else target) h.1)

copy_own-first :
    (k : String) (v : Value) (ks : List String) (o target : Fields)
    → copy_own (k ∷ ks) (field k v o) target ≡ copy_own ks (field k v o) (put k v target)
unfolding has get
copy_own-first k v ks o target = rw (eq_refl k) refl

copy_own-assign :
    (o target : Fields) → HasDistinctKeys o → copy_own (field_keys o) o target ≡ assign target o
unfolding field_keys assign
copy_own-assign end target h = refl
copy_own-assign (field k v o) target h =
    copy_own-first k v (field_keys o) o target
    ∙ copy_own-field k v (field_keys o) o (put k v target) (field_keys-Lacks k o h.0)
    ∙ copy_own-assign o (put k v target) h.1

-- No inherited key is copied.
copy_keys-without_own :
    (ks : List String) (source : Source) (target : Fields)
    → copy_keys (without_own source.own ks) source target ≡ target
unfolding copy_keys without_own
copy_keys-without_own [] source target = refl
copy_keys-without_own (k ∷ ks) source target = elim (Bool-cases (has k source.own)) [
  | inl own ↦ rw own (copy_keys-without_own ks source target)
  | inr other ↦
      let kept : (if has k source.own then put k (read k source) target else target) ≡ target =
        rw other refl in
      rw other (
        ap (copy_keys (without_own source.own ks) source) kept
        ∙ copy_keys-without_own ks source target)
]

-- What is read under a key of its own is the own field.
own_read :
    (k : String) (source : Source) (target : Fields)
    → (if has k source.own then put k (read k source) target else target)
      ≡ (if has k source.own then put k (get k source.own) target else target)
unfolding read
own_read k source target = elim (Bool-cases (has k source.own)) [
  | inl own ↦ rw own refl
  | inr other ↦ rw other refl
]

copy_keys-append :
    (ks js : List String) (source : Source) (target : Fields)
    → copy_keys (ks ++ js) source target ≡ copy_keys js source (copy_own ks source.own target)
unfolding copy_keys
copy_keys-append [] js source target = refl
copy_keys-append (k ∷ ks) js source target =
    ap (copy_keys (ks ++ js) source) (own_read k source target)
    ∙ copy_keys-append ks js source
        (if has k source.own then put k (get k source.own) target else target)

copy_keys-assign :
    (source : Source) (target : Fields)
    → HasDistinctKeys source.own
    → copy_keys (keys source) source target ≡ assign target source.own
unfolding keys
copy_keys-assign source target h =
    copy_keys-append (field_keys source.own) _ source target
    ∙ copy_keys-without_own (field_keys source.inherited) source _
    ∙ copy_own-assign source.own target h

copy_sources-assign_all :
    (sources : List (Option Source)) (target : Fields)
    → HaveDistinctKeys sources
    → copy_sources sources target ≡ assign_all sources target
unfolding copy_sources
copy_sources-assign_all [] target h = refl
copy_sources-assign_all (none ∷ sources) target h = copy_sources-assign_all sources target h
copy_sources-assign_all (some source ∷ sources) target h =
    rw (copy_keys-assign source target h.0)
      (copy_sources-assign_all sources (assign target source.own) h.1)

-- Where no source has a key of its own twice, the stand-in for `Object.assign` returns, for a target
-- that is an object and any number of sources, null and undefined among them, the object that
-- `Object.assign` makes by writing the own fields of one source after the other, and nothing that a
-- source inherits; and it refuses a target that is null or undefined.
pub object_assign-assign_all :
    (target : Option Fields) (sources : List (Option Source))
    → HaveDistinctKeys sources
    → object_assign target sources
      ≡ elim target [ none ↦ none | some o ↦ some (assign_all sources o) ]
unfolding object_assign
object_assign-assign_all none sources h = refl
object_assign-assign_all (some o) sources h = ap some (copy_sources-assign_all sources o h)
