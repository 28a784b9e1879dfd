-- ===== src/Js/Value/Proper.antt =====
-- Values in which no object has a key twice, as in every value that JavaScript makes and every text
-- that `JSON.stringify` writes.
use sunbird_devops.Base.{
  Bool, String, ◌≡◌, refl, true, false, ◌||◌, ◌==◌, arith, eq_iff, Bool-cases, inl, inr,
  if◌then◌else◌,
}
use sunbird_devops.Js.Value.Laws.{HasDistinctKeys}
use sunbird_devops.Js.Value.{
  Value, undefined, null, bool, num, thousandths, str, obj, arr, Fields, end, field, Items, nil,
  cons, get, put, has, assign, assign_items, fields, items,
}

unfoldable mutual
  pub IsProper : Value → Type 0
  IsProper undefined = Unit
  IsProper null = Unit
  IsProper (bool b) = Unit
  IsProper (num n) = Unit
  IsProper (thousandths n) = Unit
  IsProper (str s) = Unit
  IsProper (obj o) = HasProperFields o
  IsProper (arr l) = HasProperItems l

  pub HasProperFields : Fields → Type 0
  HasProperFields end = Unit
  HasProperFields (field k v o) = (has k o ≡ false) × IsProper v × HasProperFields o

  pub HasProperItems : Items → Type 0
  HasProperItems nil = Unit
  HasProperItems (cons v l) = IsProper v × HasProperItems l

has-put : (k j : String) (v : Value) (o : Fields) → has k (put j v o) ≡ ((j == k) || has k o)
unfolding has put
has-put k j v end = refl
has-put k j v (field i w o) = ground (arith, eq_iff i j, eq_iff i k, eq_iff j k, has-put k j v o)

pub get-IsProper : (k : String) (o : Fields) → HasProperFields o → IsProper (get k o)
unfolding get IsProper HasProperFields
get-IsProper k end h = tt
get-IsProper k (field j v o) h = elim (Bool-cases (j == k)) [
  | inl same ↦ rw same h.1
  | inr other ↦ rw other (get-IsProper k o h.2)
]

pub put-HasProperFields :
    (k : String) (v : Value) (o : Fields)
    → IsProper v
    → HasProperFields o
    → HasProperFields (put k v o)
unfolding put has HasProperFields
put-HasProperFields k v end hv h = (refl, hv, tt)
put-HasProperFields k v (field j u o) hv h = elim (Bool-cases (j == k)) [
  | inl same ↦ rw same (h.0, hv, h.2)
  | inr other ↦
      let lacks : has j (put k v o) ≡ false =
        rw (has-put j k v o) (ground (arith, other, h.0, eq_iff k j, eq_iff j k)) in
      rw other (lacks, h.1, put-HasProperFields k v o hv h.2)
]

pub assign-HasProperFields :
    (target source : Fields)
    → HasProperFields target
    → HasProperFields source
    → HasProperFields (assign target source)
unfolding assign HasProperFields
assign-HasProperFields target end ht hs = ht
assign-HasProperFields target (field k v o) ht hs =
    assign-HasProperFields (put k v target) o (put-HasProperFields k v target hs.1 ht) hs.2

pub assign_items-HasProperItems :
    (target source : Items)
    → HasProperItems target
    → HasProperItems source
    → HasProperItems (assign_items target source)
unfolding assign_items HasProperItems
assign_items-HasProperItems target nil ht hs = ht
assign_items-HasProperItems nil (cons v l) ht hs = hs
assign_items-HasProperItems (cons u t) (cons v l) ht hs =
    (hs.0, assign_items-HasProperItems t l ht.1 hs.1)

pub fields-HasProperFields : (v : Value) → IsProper v → HasProperFields (fields v)
unfolding IsProper HasProperFields
fields-HasProperFields (obj o) h = h
fields-HasProperFields undefined h = tt
fields-HasProperFields null h = tt
fields-HasProperFields (bool b) h = tt
fields-HasProperFields (num n) h = tt
fields-HasProperFields (thousandths n) h = tt
fields-HasProperFields (str s) h = tt
fields-HasProperFields (arr l) h = tt

pub items-HasProperItems : (v : Value) → IsProper v → HasProperItems (items v)
unfolding IsProper HasProperItems
items-HasProperItems (arr l) h = h
items-HasProperItems undefined h = tt
items-HasProperItems null h = tt
items-HasProperItems (bool b) h = tt
items-HasProperItems (num n) h = tt
items-HasProperItems (thousandths n) h = tt
items-HasProperItems (str s) h = tt
items-HasProperItems (obj o) h = tt

-- Either of two values of a conditional.
pub if-IsProper : (b : Bool) (u v : Value) → IsProper u → IsProper v → IsProper (if b then u else v)
if-IsProper true u v hu hv = hu
if-IsProper false u v hu hv = hv

pub if-HasProperFields :
    (b : Bool) (u v : Fields)
    → HasProperFields u
    → HasProperFields v
    → HasProperFields (if b then u else v)
if-HasProperFields true u v hu hv = hu
if-HasProperFields false u v hu hv = hv

pub HasProperFields-HasDistinctKeys : (o : Fields) → HasProperFields o → HasDistinctKeys o
unfolding HasProperFields
HasProperFields-HasDistinctKeys end h = tt
HasProperFields-HasDistinctKeys (field k v o) h = (h.0, HasProperFields-HasDistinctKeys o h.2)
