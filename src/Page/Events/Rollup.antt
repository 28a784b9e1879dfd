-- ===== src/Page/Events/Rollup.antt =====
-- The levels of a rollup.
use Prim.Native.String.{[], ◌∷◌}
use text.Mathlib.TextLemmas.{nil-append, cons-append}
use sunbird_devops.Base.{
  ℕ, zero, suc, ◌+◌, ◌<◌, ◌≤◌, String, ◌≡◌, ◌≢◌, refl, sym, ◌∙◌, ap, Option, some, List, eq_iff,
  arith,
}
use sunbird_devops.Js.Text.{decimal, to_number}
use sunbird_devops.Js.Text.Decimal.{to_number-decimal}
use sunbird_devops.Js.Value.{Value, undefined, Fields, end, get, put}
use sunbird_devops.Js.Value.Laws.{get-put, get-put_self}
use sunbird_devops.Page.Events.{level_key, rollup_from, get_rollup_data}

-- The text behind the letter of a level is its number.
level_key-cons : (i : ℕ) → level_key i ≡ "l" ∷ decimal (suc i)
level_key-cons i =
    cons-append "l" [] (decimal (suc i)) ∙ ap (λ t. "l" ∷ t) (nil-append (decimal (suc i)))

tail : String → String
tail [] = ""
tail (c ∷ s) = s

-- Different levels have different keys.
level_key-injective : (i j : ℕ) → level_key i ≡ level_key j → i ≡ j
unfolding tail
level_key-injective i j h =
    let same : decimal (suc i) ≡ decimal (suc j) =
      ap tail (sym (level_key-cons i) ∙ h ∙ level_key-cons j) in
    let number : ◌≡◌ {A = Option ℕ} (some (suc i)) (some (suc j)) =
      sym (to_number-decimal (suc i)) ∙ ap to_number same ∙ to_number-decimal (suc j) in
    ground (arith, number)

-- The id at an index, or undefined.
abbrev pub id_at : List Value → ℕ → Value
id_at List.[] i = undefined
id_at (List.◌∷◌ id ids) zero = id
id_at (List.◌∷◌ id ids) (suc i) = id_at ids i

-- A key of another level is left alone.
put_other :
    (i j : ℕ) (v : Value) (o : Fields)
    → i ≢ j
    → get (level_key j) (put (level_key i) v o) ≡ get (level_key j) o
put_other i j v o differ =
    let apart : level_key i ≢ level_key j = λ e. differ (level_key-injective i j e) in
    ground
      (arith, get-put (level_key i) (level_key j) v o, eq_iff (level_key i) (level_key j), apart)

-- The levels before the first that is written.
rollup_from-before :
    (n : ℕ) (ids : List Value) (o : Fields) (j : ℕ)
    → j < n
    → get (level_key j) (rollup_from n ids o) ≡ get (level_key j) o
unfolding rollup_from
rollup_from-before n List.[] o j h = refl
rollup_from-before n (List.◌∷◌ id ids) o j h =
    rollup_from-before (suc n) ids (put (level_key n) id o) j (omega (arith, h))
    ∙ put_other n j id o (λ e. omega (arith, e, h))

rollup_from-level :
    (n : ℕ) (ids : List Value) (o : Fields)
    → ((j : ℕ) → n ≤ j → get (level_key j) o ≡ undefined)
    → (i : ℕ) → get (level_key (i + n)) (rollup_from n ids o) ≡ id_at ids i
unfolding rollup_from
rollup_from-level n List.[] o fresh i = fresh (i + n) (omega arith)
rollup_from-level n (List.◌∷◌ id ids) o fresh zero =
    ap (λ k. get (level_key k) (rollup_from (suc n) ids (put (level_key n) id o))) (omega arith)
    ∙ rollup_from-before (suc n) ids (put (level_key n) id o) n (omega arith)
    ∙ get-put_self (level_key n) id o
rollup_from-level n (List.◌∷◌ id ids) o fresh (suc i) =
    ap (λ k. get (level_key k) (rollup_from (suc n) ids (put (level_key n) id o))) (omega arith)
    ∙ rollup_from-level (suc n) ids (put (level_key n) id o)
        (λ j h. put_other n j id o (λ e. omega (arith, e, h)) ∙ fresh j (omega (arith, h))) i

-- `getRollupData` puts each id of its list under the level of its place, from "l1" on, and nothing
-- under any further level: at every index the level holds what the list holds there.
pub get_rollup_data-level :
    (ids : List Value) (i : ℕ)
    → get (Prim.Native.String.◌++◌ "l" (decimal (i + 1))) (get_rollup_data ids) ≡ id_at ids i
unfolding get_rollup_data
get_rollup_data-level ids i =
    let number : i + 1 ≡ suc i = omega arith in
    ap (λ n. get (Prim.Native.String.◌++◌ "l" (decimal n)) (rollup_from 0 ids end)) number
    ∙ ap (λ k. get (level_key k) (rollup_from 0 ids end)) (omega arith)
    ∙ rollup_from-level 0 ids end (λ j h. unfold get in refl) i
