-- ===== src/Web/Store.antt =====
-- `sessionStorage`, `localStorage` and the elements of the document by id: a map from texts, in
-- order of insertion. A storage area is taken to have room for what is written.
use sunbird_devops.Base.{
  String, ◌≡◌, refl, Option, none, some, List, [], ◌∷◌, arith, ◌==◌, eq_iff, eq_refl, if◌then◌else◌,
}

module _ {ℓ} {V : Type ℓ} where
  -- `getItem(k)`, where `none` is null
  unfoldable pub get_item : String → List (String × V) → Option V
  get_item k [] = none
  get_item k ((j, v) ∷ m) = if j == k then some v else get_item k m

  -- `setItem(k, v)`
  unfoldable pub set_item : String → V → List (String × V) → List (String × V)
  set_item k v [] = (k, v) ∷ []
  set_item k v ((j, w) ∷ m) = if j == k then (j, v) ∷ m else (j, w) ∷ set_item k v m

  -- `removeItem(k)`: of every pair with the key
  unfoldable pub remove_item : String → List (String × V) → List (String × V)
  remove_item k [] = []
  remove_item k ((j, w) ∷ m) = if j == k then remove_item k m else (j, w) ∷ remove_item k m

  pub get_item-set_item :
      (k j : String) (v : V) (m : List (String × V))
      → get_item j (set_item k v m) ≡ (if k == j then some v else get_item j m)
  unfolding get_item set_item
  get_item-set_item k j v [] = refl
  get_item-set_item k j v ((i, w) ∷ m) =
      ground (arith, eq_iff k j, eq_iff i k, eq_iff i j, get_item-set_item k j v m)

  pub get_item-set_item_self :
      (k : String) (v : V) (m : List (String × V)) → get_item k (set_item k v m) ≡ some v
  get_item-set_item_self k v m = simp (get_item-set_item, eq_refl)

  pub get_item-remove_item :
      (k : String) (m : List (String × V)) → get_item k (remove_item k m) ≡ none
  unfolding get_item remove_item
  get_item-remove_item k [] = refl
  get_item-remove_item k ((i, w) ∷ m) = ground (arith, get_item-remove_item k m)

abbrev pub Store : Type 0
Store = List (String × String)
