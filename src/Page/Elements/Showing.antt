-- ===== src/Page/Elements/Showing.antt =====
-- Showing an element again that was hidden.
use Prim.Native.String.{◌++◌, [], ◌∷◌}
use sunbird_devops.Base.{sym}
use text.Mathlib.TextLemmas.{append-nil, nil-append, cons-append}
use sunbird_devops.Base.{
  String, Char, ◌≡◌, refl, ◌∙◌, ap, Bool, false, some, none, ◌||◌, eqb, code, arith,
}
use sunbird_devops.Js.Text.{strip_prefix, replace_first, split_from, has_text}
use sunbird_devops.Web.Dom.{Element}
use sunbird_devops.Web.Store.{get_item, set_item, get_item-set_item_self}
use sunbird_devops.State.{Page, ok}
use sunbird_devops.Page.Elements.{
  for_element, add_class, hide_element, un_hide_element, show, with_class,
}

abbrev has_space : String → Bool
has_space [] = false
has_space (c ∷ s) = eqb (code c) b' ' || has_space s

space-append : (s : String) → " " ++ s ≡ " " ∷ s
space-append s = cons-append " " [] s ∙ ap (λ t. " " ∷ t) (nil-append s)

-- A pattern without spaces that a text does not begin with, it does not begin with either once a
-- space and more follow.
strip_prefix-append :
    (p : Char) (ps : String) (s t : String)
    → has_space (p ∷ ps) ≡ false
    → strip_prefix (p ∷ ps) s ≡ none
    → strip_prefix (p ∷ ps) (s ++ (" " ++ t)) ≡ none
unfolding strip_prefix
strip_prefix-append p ps [] t h k = rw (nil-append, space-append) (ground (arith, h))
strip_prefix-append p [] (c ∷ s) t h k = rw cons-append (ground (arith, h, k))
strip_prefix-append p (q ∷ qs) (c ∷ s) t h k =
    rw cons-append (ground (arith, h, k, strip_prefix-append q qs s t))

-- A pattern occurs nowhere in a text.
abbrev pub IsNowhere : String → String → Type 0
IsNowhere pattern [] = Unit
IsNowhere pattern (c ∷ s) = (strip_prefix pattern (c ∷ s) ≡ none) × IsNowhere pattern s

strip_prefix_self : (s : String) → strip_prefix s s ≡ some ""
unfolding strip_prefix
strip_prefix_self [] = refl
strip_prefix_self (c ∷ s) = ground (arith, strip_prefix_self s)

replace_first-here : (p : Char) (ps by : String) → replace_first (p ∷ ps) by (p ∷ ps) ≡ by
unfolding replace_first
replace_first-here p ps by = rw (replace_first, strip_prefix_self (p ∷ ps)) (append-nil by)

replace_first-later :
    (pattern by : String) (c : Char) (s : String)
    → strip_prefix pattern (c ∷ s) ≡ none
    → replace_first pattern by (c ∷ s) ≡ c ∷ replace_first pattern by s
unfolding replace_first
replace_first-later pattern by c s h = rw (replace_first, h) refl

-- The first occurrence is the one behind the space.
replace_first-append :
    (p : Char) (ps by s : String)
    → has_space (p ∷ ps) ≡ false
    → IsNowhere (p ∷ ps) s
    → replace_first (p ∷ ps) by (s ++ (" " ++ (p ∷ ps))) ≡ s ++ (" " ++ by)
replace_first-append p ps by [] h k =
    let starts : strip_prefix (p ∷ ps) (" " ∷ (p ∷ ps)) ≡ none =
      unfold strip_prefix in ground (arith, h) in
    ap (replace_first (p ∷ ps) by) (nil-append (" " ++ (p ∷ ps)) ∙ space-append (p ∷ ps))
    ∙ replace_first-later (p ∷ ps) by " " (p ∷ ps) starts
    ∙ ap (λ t. " " ∷ t) (replace_first-here p ps by)
    ∙ sym (nil-append (" " ++ by) ∙ space-append by)
replace_first-append p ps by (c ∷ s) h k =
    ap (replace_first (p ∷ ps) by) (cons-append c s (" " ++ (p ∷ ps)))
    ∙ replace_first-later (p ∷ ps) by c (s ++ (" " ++ (p ∷ ps))) (
        ap (strip_prefix (p ∷ ps)) (sym (cons-append c s (" " ++ (p ∷ ps))))
        ∙ strip_prefix-append p ps (c ∷ s) (p ∷ ps) h k.0)
    ∙ ap (λ t. c ∷ t) (replace_first-append p ps by s h k.1)
    ∙ sym (cons-append c s (" " ++ by))

-- A class that `addClass` has added is taken off again, but for its space.
pub replaced_again :
    (p : Char) (ps name : String)
    → has_space (p ∷ ps) ≡ false
    → has_text (split_from b' ' "" name) (p ∷ ps) ≡ false
    → IsNowhere (p ∷ ps) name
    → replace_first (p ∷ ps) "" (add_class name (p ∷ ps)) ≡ name ++ " "
unfolding add_class
replaced_again p ps name word fresh nowhere =
    rw (add_class, fresh)
      (replace_first-append p ps "" name word nowhere ∙ ap (λ t. name ++ t) (append-nil " "))

abbrev with_element : String → Element → Page → Page
with_element id e w = record w { doc = set_item id e w.doc }

for_element-found :
    (id : String) (f : Element → Element) (e : Element) (w : Page)
    → get_item id w.doc ≡ some e
    → for_element id f w ≡ (ok tt, with_element id (f e) w)
for_element-found id f e w h = rw (for_element, h) refl

-- If an element is there, "hide" is not one of its classes, and "hide" stands nowhere in its class
-- attribute, then hiding it and showing it again leaves the element as it was, but for one space
-- behind its classes.
pub un_hide_element-hide_element :
    (id : String) (e : Element) (w : Page)
    → get_item id w.doc ≡ some e
    → has_text (split_from b' ' "" e.class_name) "hide" ≡ false
    → IsNowhere "hide" e.class_name
    → get_item id (un_hide_element id (hide_element id w).1).1.doc
      ≡ some (record e { class_name = e.class_name ++ " " })
un_hide_element-hide_element id e w there fresh nowhere =
    let dim : Element = with_class (λ c. add_class c "hide") e in
    let hidden : hide_element id w ≡ (ok tt, with_element id dim w) =
      unfold hide_element in
      for_element-found id (with_class (λ c. add_class c "hide")) e w there in
    let shown : un_hide_element id (with_element id dim w)
        ≡ (ok tt, with_element id (show dim) (with_element id dim w)) =
      unfold un_hide_element in
      for_element-found id show dim (with_element id dim w) (get_item-set_item_self id dim w.doc) in
    ap (λ x. get_item id (un_hide_element id x.1).1.doc) hidden
    ∙ ap (λ x. get_item id x.1.doc) shown
    ∙ get_item-set_item_self id (show dim) (set_item id dim w.doc)
    ∙ ap (λ c. some (record e { class_name = c }))
        (replaced_again "h" "ide" e.class_name refl fresh nowhere)
