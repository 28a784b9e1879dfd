-- ===== src/Bag.antt =====
-- Lists up to order: what a component that promises no order is specified on.
use mathlib.Core.Quot
use mathlib.Core.Quot.{Quot, Quot-set}
use mathlib.Core.List.{Perm, perm_middle, append-nil, append_assoc}
use mathlib.Core.List.Perm
use sunbird_devops.Base.{◌≡◌, refl, sym, ap, List, [], ◌∷◌, ◌++◌}

abbrev pub Bag {ℓ} : Type ℓ → Type ℓ
Bag A = Quot (Perm {A = A})

module _ {ℓ} {A : Type ℓ} where
  abbrev pub of_list : List A → Bag A
  of_list = Quot.mk

  abbrev pub empty : Bag A
  empty = of_list []

  -- the items of a list and of a bag
  unfoldable pub add_all : List A → Bag A → Bag A
  add_all zs =
      Quot.lift Quot-set (λ xs. of_list (zs ++ xs)) (λ xs ys h. Quot.sound (Perm.append_left zs h))

  pub add_all-of_list : (zs xs : List A) → add_all zs (of_list xs) ≡ of_list (zs ++ xs)
  unfolding add_all
  add_all-of_list zs xs = refl

  pub add_all-empty : (zs : List A) → add_all zs empty ≡ of_list zs
  unfolding add_all
  add_all-empty zs = ap of_list (append-nil zs)

  append-perm : (xs ys : List A) → Perm (xs ++ ys) (ys ++ xs)
  append-perm [] ys = rw (append-nil ys) (Perm.refl ys)
  append-perm (x ∷ xs) ys =
      Perm.trans (Perm.cons x (append-perm xs ys)) (Perm.symm (perm_middle ys xs))

  -- In a bag it does not matter what was put in first.
  pub of_list-append : (xs ys : List A) → of_list (xs ++ ys) ≡ add_all ys (of_list xs)
  unfolding add_all
  of_list-append xs ys = Quot.sound (append-perm xs ys)

  pub add_all-append :
      (xs ys : List A) (b : Bag A) → add_all (xs ++ ys) b ≡ add_all xs (add_all ys b)
  unfolding add_all
  add_all-append xs ys = Quot.ind (λ b. Quot-set _ _) (λ zs. ap of_list (append_assoc xs ys zs))

  pub add_all_comm :
      (xs ys : List A) (b : Bag A) → add_all xs (add_all ys b) ≡ add_all ys (add_all xs b)
  unfolding add_all
  add_all_comm xs ys = Quot.ind (λ b. Quot-set _ _) (λ zs. Quot.sound (front xs ys zs))
    where
      front : (xs ys zs : List A) → Perm (xs ++ (ys ++ zs)) (ys ++ (xs ++ zs))
      front xs ys zs =
          rw (sym (append_assoc xs ys zs), sym (append_assoc ys xs zs))
            (Perm.append_right zs (append-perm xs ys))
