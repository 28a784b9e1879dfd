-- ===== src/Page/Startup/Host.antt =====
-- The site that the organisation is asked for, by what an origin reads.
use Prim.Native.String.{[], ◌∷◌, ◌++◌}
use sunbird_devops.Base.{
  ℕ, suc, ◌+◌, Char, code, eqb, Bool-cases, inl, inr, sym, true, false, ◌≢◌, String, ◌≡◌, refl, ◌∙◌,
  ap, Option, none, some, ltb, arith, if◌then◌else◌,
}
use sunbird_devops.Js.Text.{strip_prefix, index_of, slice_from}
use sunbird_devops.Web.Dom.{Location}
use sunbird_devops.Page.Startup.{host_of_location}

-- what follows the first place where a word stands
abbrev pub after_first : String → String → Option String
after_first word [] = strip_prefix word []
after_first word (c ∷ s) = elim (strip_prefix word (c ∷ s)) [
  | some rest ↦ some rest
  | none ↦ after_first word s
]

-- The origin itself, if it has no "merge." or begins with it; otherwise what follows the first
-- "merge.", with the protocol put before it.
abbrev pub site_asked : Location → String
site_asked url = elim (strip_prefix "merge." url.origin) [
  | some rest ↦ url.origin
  | none ↦ elim (after_first "merge." url.origin) [
    | some rest ↦ url.protocol ++ ("//" ++ rest)
    | none ↦ url.origin
  ]
]

abbrev size : String → ℕ
size [] = 0
size (c ∷ s) = suc (size s)

strip_prefix-slice :
    (word s rest : String) → strip_prefix word s ≡ some rest → slice_from (size word) s ≡ rest
unfolding strip_prefix slice_from
strip_prefix-slice [] s rest h = ground (arith, h)
strip_prefix-slice (p ∷ ps) [] rest h = ground (arith, h)
strip_prefix-slice (p ∷ ps) (c ∷ s) rest h = elim (Bool-cases (eqb (code p) (code c))) [
  | inl same ↦ strip_prefix-slice ps s rest (sym (rw same refl) ∙ h)
  | inr other ↦ ground (arith, h, other)
]

-- Where the word stands, and what follows it.
abbrev Agrees : String → String → Option ℕ → Option String → Type 0
Agrees word s none after = after ≡ none
Agrees word s (some i) after = after ≡ some (slice_from (i + size word) s)

abbrev next_place : Option ℕ → Option ℕ
next_place place = elim place [ some i ↦ some (suc i) | none ↦ none ]

Agrees-next :
    (word s : String) (c : Char) (place : Option ℕ) (after : Option String)
    → Agrees word s place after
    → Agrees word (c ∷ s) (next_place place) after
unfolding slice_from
Agrees-next word s c none after h = h
Agrees-next word s c (some i) after h =
    let more : suc i + size word ≡ suc (i + size word) = omega arith in
    h ∙ ap (λ n. some (slice_from n (c ∷ s))) (sym more)

-- One step of both searches.
Agrees-step :
    (word s : String) (found : Option String) (place : Option ℕ) (after : Option String)
    → strip_prefix word s ≡ found
    → Agrees word s place after
    → Agrees word s
        (elim found as (λ _. Option ℕ) [ some _ ↦ some 0 | none ↦ place ])
        (elim found as (λ _. Option String) [ some rest ↦ some rest | none ↦ after ])
Agrees-step word s none place after e h = h
Agrees-step word s (some rest) place after e h =
    let whole : 0 + size word ≡ size word = omega arith in
    ap some (sym (strip_prefix-slice word s rest e) ∙ ap (λ n. slice_from n s) (sym whole))

after_first-Agrees : (word s : String) → Agrees word s (index_of word s) (after_first word s)
unfolding index_of
after_first-Agrees word [] = cases (strip_prefix word []) refl
  where
    cases :
        (found : Option String)
        → strip_prefix word [] ≡ found
        → Agrees word [] (elim found as (λ _. Option ℕ) [ some _ ↦ some 0 | none ↦ none ]) found
    cases none e = refl
    cases (some rest) e = Agrees-step word [] (some rest) none none e refl
after_first-Agrees word (c ∷ s) =
    Agrees-step word (c ∷ s) (strip_prefix word (c ∷ s)) (next_place (index_of word s))
      (after_first word s) refl
      (Agrees-next word s c (index_of word s) (after_first word s) (after_first-Agrees word s))

-- Where a word stands: at 0 if it begins the text, and elsewhere if not.
abbrev Stands : Option String → Option ℕ → Type 0
Stands (some rest) place = place ≡ some 0
Stands none place = place ≢ some 0

Stands-step :
    (found : Option String) (place : Option ℕ)
    → Stands found (elim found as (λ _. Option ℕ) [ some _ ↦ some 0 | none ↦ next_place place ])
Stands-step (some rest) place = refl
Stands-step none none = λ e. ground (arith, e)
Stands-step none (some i) = λ e. ground (arith, e)

index_of-Stands : (word s : String) → Stands (strip_prefix word s) (index_of word s)
unfolding index_of
index_of-Stands word [] = Stands-step (strip_prefix word []) none
index_of-Stands word (c ∷ s) = Stands-step (strip_prefix word (c ∷ s)) (index_of word s)

settled :
    (url : Location) (found : Option String) (place : Option ℕ) (after : Option String)
    → Stands found place
    → Agrees "merge." url.origin place after
    → (elim place as (λ _. String) [
      | none ↦ url.origin
      | some i ↦
          if ltb 0 i then url.protocol ++ ("//" ++ slice_from (i + 6) url.origin) else url.origin
    ])
      ≡ (elim found as (λ _. String) [
        | some rest ↦ url.origin
        | none ↦ elim after as (λ _. String) [
          | some rest ↦ url.protocol ++ ("//" ++ rest)
          | none ↦ url.origin
        ]
      ])
settled url (some rest) none after h a = refl
settled url (some rest) (some i) after h a =
    let first : ltb 0 i ≡ false = ground (arith, h) in rw first refl
settled url none none after h a = rw a refl
settled url none (some i) after h a =
    let inside : ltb 0 i ≡ true = elim (Bool-cases (ltb 0 i)) [
      | inl positive ↦ positive
      | inr first ↦ elim (h (ap some (ground (arith, first)))) [ ]
    ] in
    rw inside (rw a refl)

pub host_of_location-site_asked : (url : Location) → host_of_location url ≡ site_asked url
unfolding host_of_location
host_of_location-site_asked url =
    settled url (strip_prefix "merge." url.origin) (index_of "merge." url.origin)
      (after_first "merge." url.origin) (index_of-Stands "merge." url.origin)
      (after_first-Agrees "merge." url.origin)
