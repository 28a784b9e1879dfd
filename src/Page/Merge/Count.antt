-- ===== src/Page/Merge/Count.antt =====
-- The count of wrong passwords over any number of pages.
use Prim.Native.String.{◌∷◌}
use sunbird_devops.Base.{
  ◌≤◌, length, false, ◌+◌, [], ◌∷◌, ap, List, ⊤, Char, ℕ, zero, suc, String, ◌≡◌, ◌≢◌, refl, ◌∙◌,
  true, Option, some, none, arith, eq_iff, leb, if◌then◌else◌,
}
use sunbird_devops.Js.Text.{decimal}
use sunbird_devops.Js.Text.Decimal.{to_number-decimal, decimal-BeginsWithDigit}
use sunbird_devops.Web.Dom.{Location}
use sunbird_devops.Web.Libs.{Libs}
use sunbird_devops.Web.Store.{get_item-set_item_self, get_item}
use sunbird_devops.State.{Page, Result, ok}
use sunbird_devops.Page.Nullable.{truthy_text}
use sunbird_devops.Page.Session.Persistence.{
  open_at, after_value, get_value_from_session-eq, get_value_from_session-other,
}
use sunbird_devops.Page.Merge.{return_error, next_count, handle_password_failure}
use sunbird_devops.Page.Merge.Failures.{return_error-assigned, error_url, counted}

-- what the session holds after a number of failures
abbrev pub stored_count : ℕ → Option String
stored_count zero = none
stored_count (suc n) = some (decimal (suc n))

nonempty-text : (c : Char) (t : String) → truthy_text (some (c ∷ t)) ≡ true
nonempty-text c t =
    let differ : ◌≢◌ {A = String} (c ∷ t) "" = λ e. cc e in
    ground (arith, eq_iff (c ∷ t) "", differ)

truthy-decimal : (n : ℕ) → truthy_text (some (decimal n)) ≡ true
truthy-decimal n = let (c, t, e, digit) = decimal-BeginsWithDigit n in rw e (nonempty-text c t)

next_count-stored_count : (n : ℕ) → next_count (stored_count n) ≡ some (suc n)
unfolding next_count
next_count-stored_count zero = refl
next_count-stored_count (suc n) =
    rw (truthy-decimal (suc n)) (rw (to_number-decimal (suc n)) (ground arith))

-- The session's count behind the calls of `getValueFromSession`.
count_after :
    (lib : Libs) (key : String) (w : Page)
    → key ≢ "passwordFailCount"
    → get_item "passwordFailCount" (after_value lib key w).session
      ≡ get_item "passwordFailCount" w.session
count_after lib key w ne =
    get_value_from_session-other lib key "passwordFailCount" w ne
      (ground (arith, eq_iff "passwordFailCount" "renderingType"))

return_error-count :
    (lib : Libs) (w : Page)
    → get_item "passwordFailCount" (return_error lib w).1.session
      ≡ get_item "passwordFailCount" w.session
unfolding return_error
return_error-count lib w =
    let w1 = after_value lib "identifierType" w in
    let w2 = after_value lib "userId" w1 in
    let w3 = after_value lib "identifierValue" w2 in
    let w4 = after_value lib "tncAccepted" w3 in
    rw (get_value_from_session-eq lib "identifierType" w) (
      rw (get_value_from_session-eq lib "userId" w1) (
        rw (get_value_from_session-eq lib "identifierValue" w2) (
          rw (get_value_from_session-eq lib "tncAccepted" w3) (
            rw (get_value_from_session-eq lib "tncVersion" w4) (
              count_after lib "tncVersion" w4
                (ground (arith, eq_iff "tncVersion" "passwordFailCount"))
              ∙ count_after lib "tncAccepted" w3
                  (ground (arith, eq_iff "tncAccepted" "passwordFailCount"))
              ∙ count_after lib "identifierValue" w2
                  (ground (arith, eq_iff "identifierValue" "passwordFailCount"))
              ∙ count_after lib "userId" w1 (ground (arith, eq_iff "userId" "passwordFailCount"))
              ∙ count_after lib "identifierType" w
                  (ground (arith, eq_iff "identifierType" "passwordFailCount")))))))

-- What a failure does behind its count.
abbrev after_count : Libs → ℕ → Page → Result ⊤ × Page
after_count lib n w = if leb 2 (suc n) then return_error lib w else (ok tt, w)

failure_step :
    (lib : Libs) (n : ℕ) (w : Page)
    → get_item "passwordFailCount" w.session ≡ stored_count n
    → handle_password_failure lib w ≡ after_count lib n (counted (decimal (suc n)) w)
unfolding handle_password_failure
failure_step lib n w h = rw h (rw (next_count-stored_count n) refl)

after_count-count :
    (lib : Libs) (n : ℕ) (w : Page)
    → get_item "passwordFailCount" w.session ≡ stored_count (suc n)
    → get_item "passwordFailCount" (after_count lib n w).1.session ≡ stored_count (suc n)
after_count-count lib n w h =
    elim (leb 2 (suc n))
      as (λ b.
        get_item "passwordFailCount" (if b then return_error lib w else (ok tt, w)).1.session
        ≡ stored_count (suc n)) [ true ↦ return_error-count lib w ∙ h | false ↦ h ]

handle_password_failure-count :
    (lib : Libs) (n : ℕ) (w : Page)
    → get_item "passwordFailCount" w.session ≡ stored_count n
    → get_item "passwordFailCount" (handle_password_failure lib w).1.session ≡ stored_count (suc n)
handle_password_failure-count lib n w h = rw (failure_step lib n w h) (
    after_count-count lib n (counted (decimal (suc n)) w)
      (get_item-set_item_self "passwordFailCount" (decimal (suc n)) w.session))

-- wrong passwords, one on each of the pages that are opened at these addresses
abbrev pub failures : Libs → List Location → Page → Page
failures lib [] w = w
failures lib (u ∷ us) w = failures lib us (handle_password_failure lib (open_at u w)).1

failures-stored_count :
    (lib : Libs) (us : List Location) (n : ℕ) (w : Page)
    → get_item "passwordFailCount" w.session ≡ stored_count n
    → get_item "passwordFailCount" (failures lib us w).session ≡ stored_count (length us + n)
failures-stored_count lib [] n w h = let at : n ≡ 0 + n = omega arith in h ∙ ap stored_count at
failures-stored_count lib (u ∷ us) n w h =
    let at : length us + suc n ≡ length (u ∷ us) + n = omega arith in
    failures-stored_count lib us (suc n) (handle_password_failure lib (open_at u w)).1
      (handle_password_failure-count lib n (open_at u w) h)
    ∙ ap stored_count at

-- Any failure but the first leaves.
later_failure :
    (lib : Libs) (n : ℕ) (w : Page)
    → get_item "passwordFailCount" w.session ≡ stored_count (suc n)
    → (rest : String) × ((handle_password_failure lib w).1.assigned ≡ some (error_url w rest))
later_failure lib n w h =
    let at : leb 2 (suc (suc n)) ≡ true = ground arith in
    let (rest, left) = return_error-assigned lib (counted (decimal (suc (suc n))) w) in
    (rest, ap (λ x. x.1.assigned) (failure_step lib (suc n) w h) ∙ rw at left)

-- In a session without a count, the wrong passwords on pages at any addresses are counted exactly,
-- in decimal, and after the first of them every further one, on a page at any address, leaves for
-- the error page of that address's site.
pub failures-count :
    (lib : Libs) (us : List Location) (url : Location) (w : Page)
    → get_item "passwordFailCount" w.session ≡ none
    → (get_item "passwordFailCount" (failures lib us w).session ≡ stored_count (length us))
      × (1 ≤ length us
          → (rest : String) × ((handle_password_failure lib
                (open_at url (failures lib us w))).1.assigned
              ≡ some (error_url (open_at url w) rest)))
failures-count lib [] url w h =
    let none_before : ¬ (1 ≤ 0) = omega arith in (h, λ absurd. elim (none_before absurd) [ ])
failures-count lib (u ∷ us) url w h =
    let at : length (u ∷ us) + 0 ≡ length (u ∷ us) = omega arith in
    let stored = failures-stored_count lib (u ∷ us) 0 w h ∙ ap stored_count at in
    (
      stored,
      λ some_before. later_failure lib (length us) (open_at url (failures lib (u ∷ us) w)) stored,
    )
