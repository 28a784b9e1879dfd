-- ===== src/Page/Elements/Hiding.antt =====
-- A class that an element was given is among its classes.

use Prim.Native.String.{◌++◌, [], ◌∷◌}
use text.Mathlib.TextLemmas.{nil-append, cons-append, append-nil, append_assoc}
use sunbird_devops.Base.{
  String, ◌≡◌, ◌∙◌, ap, true, false, List, Char, eqb, code, eq_refl, arith, Bool-cases, inl, inr,
}
use sunbird_devops.Js.Text.{split_from, has_text}
use sunbird_devops.Page.Elements.{add_class}

-- No space stands in a text.
abbrev pub IsWord : String → Type 0
IsWord [] = Unit
IsWord (c ∷ s) = (eqb (code c) b' ' ≡ false) × IsWord s

push-append : (cur : String) (c : Char) (s : String) → (cur ++ (c ∷ [])) ++ s ≡ cur ++ (c ∷ s)
push-append cur c s =
    append_assoc cur (c ∷ []) s
    ∙ ap (λ t. cur ++ t) (cons-append c [] s ∙ ap (λ t. c ∷ t) (nil-append s))

space-append : (s : String) → " " ++ s ≡ " " ∷ s
space-append s = cons-append " " [] s ∙ ap (λ t. " " ∷ t) (nil-append s)

split_from-IsWord :
    (cur s : String) → IsWord s → split_from b' ' cur s ≡ List.◌∷◌ (cur ++ s) List.[]
unfolding split_from
split_from-IsWord cur [] h = rw append-nil
split_from-IsWord cur (c ∷ s) h =
    rw (h.0) (
      split_from-IsWord (cur ++ (c ∷ [])) s h.1
      ∙ ap (λ t. List.◌∷◌ t List.[]) (push-append cur c s))

has_text-append :
    (cur name word : String)
    → IsWord word
    → has_text (split_from b' ' cur (name ++ (" " ++ word))) word ≡ true
unfolding split_from has_text
has_text-append cur [] word h =
    rw (nil-append, space-append)
      (rw (split_from-IsWord [] word h, nil-append) (ground (arith, eq_refl word)))
has_text-append cur (c ∷ name) word h = rw cons-append (elim (Bool-cases (eqb (code c) b' ')) [
  | inl space ↦ rw space (ground (arith, has_text-append [] name word h))
  | inr other ↦ rw other (has_text-append (cur ++ (c ∷ [])) name word h)
])

pub contains-add_class :
    (name word : String)
    → IsWord word
    → has_text (split_from b' ' "" (add_class name word)) word ≡ true
unfolding add_class
contains-add_class name word h = elim (Bool-cases (has_text (split_from b' ' "" name) word)) [
  | inl old ↦ rw old old
  | inr new ↦ rw new (has_text-append "" name word h)
]
