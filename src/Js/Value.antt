-- ===== src/Js/Value.antt =====
-- The dynamic values of JavaScript, as far as the telemetry library handles them.
pub mod Laws
pub mod Proper
use sunbird_devops.Base.{
  zero, String, Bool, true, false, not, ◌||◌, Option, none, some, ◌==◌, if◌then◌else◌,
}
use sunbird_devops.Js.Int.{ℤ, pos}
use sunbird_devops.Js.Text.{to_number}

-- `num` is a whole number and `thousandths n` is n * 0.001.
mutual
  pub data Value : Type 0 where
    undefined null : Value
    bool : Bool → Value
    num thousandths : ℤ → Value
    str : String → Value
    obj : Fields → Value
    arr : Items → Value

  pub data Fields : Type 0 where
    end : Fields
    field : (key : String) (value : Value) (others : Fields) → Fields

  pub data Items : Type 0 where
    nil : Items
    cons : (item : Value) (others : Items) → Items

abbrev is_zero : ℤ → Bool
is_zero (pos zero) = true
is_zero _ = false

-- `!!v`
abbrev pub truthy : Value → Bool
truthy undefined = false
truthy null = false
truthy (bool b) = b
truthy (num n) = not (is_zero n)
truthy (thousandths n) = not (is_zero n)
truthy (str s) = not (s == "")
truthy (arr _) = true
truthy (obj _) = true

-- `a || b`
abbrev pub or_else : Value → Value → Value
or_else a b = if truthy a then a else b

-- `a && b`
abbrev pub and_then : Value → Value → Value
and_then a b = if truthy a then b else a

-- `typeof v !== 'undefined'`
abbrev pub is_defined : Value → Bool
is_defined undefined = false
is_defined _ = true

-- `ToNumber`, for what is compared with a whole number: `none` is NaN. Arrays count as NaN.
abbrev pub number : Value → Option ℤ
number (num n) = some n
number null = some (pos 0)
number (bool b) = some (if b then pos 1 else pos 0)
number (str s) = elim (to_number s) [ some n ↦ some (pos n) | none ↦ none ]
number _ = none

-- `o[k]`, which is `undefined` where the key is missing
unfoldable pub get : String → Fields → Value
get k end = undefined
get k (field j v fs) = if j == k then v else get k fs

-- `o[k] = v`
unfoldable pub put : String → Value → Fields → Fields
put k v end = field k v end
put k v (field j w fs) = if j == k then field j v fs else field j w (put k v fs)

unfoldable pub has : String → Fields → Bool
has k end = false
has k (field j w fs) = j == k || has k fs

-- `Object.assign(target, source)`: the source's own keys in order, each written over the target's
unfoldable pub assign : Fields → Fields → Fields
unfolding put
assign target end = target
assign target (field k v source) = assign (put k v target) source

-- `Object.assign(target, source)` of two arrays: index by index
unfoldable pub assign_items : Items → Items → Items
assign_items target nil = target
assign_items nil source = source
assign_items (cons _ target) (cons v source) = cons v (assign_items target source)

-- the fields of a value that is spread into an object; other values add none
abbrev pub fields : Value → Fields
fields (obj fs) = fs
fields _ = end

abbrev pub items : Value → Items
items (arr xs) = xs
items _ = nil
