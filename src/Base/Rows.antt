-- ===== src/Base/Rows.antt =====
-- A database table as a list of rows, oldest first, and the queries that the services make of it.
use Prim.Native.Nat.{ℕ, zero, suc, ◌+◌}
use mathlib.Core.Path.{◌≡◌, refl, ap}
use mathlib.Core.Logic.{◌⊎◌, inl, inr}
use mathlib.Core.Bool.{Bool, true, false}
use mathlib.Core.Option.{Option, none, some}
use mathlib.Core.List.{List, [], ◌∷◌, ◌++◌}
use native.Mathlib.Omega.{arith}
use callnow.Base.Tests.{Option-cases, if◌then◌else◌, Bool-cases, ltb}

abbrev pub map_option {ℓ κ} : {A : Type ℓ} {B : Type κ} → (A → B) → Option A → Option B
map_option f none = none
map_option f (some a) = some (f a)

module _ {ℓ} {A : Type ℓ} where
  -- `findFirst` and `findUnique`
  abbrev pub find_first : (A → Bool) → List A → Option A
  find_first p [] = none
  find_first p (x ∷ xs) = if p x then some x else find_first p xs

  -- `findMany`
  abbrev pub find_many : (A → Bool) → List A → List A
  find_many p [] = []
  find_many p (x ∷ xs) = if p x then x ∷ find_many p xs else find_many p xs

  -- `count`
  abbrev pub count_where : (A → Bool) → List A → ℕ
  count_where p [] = 0
  count_where p (x ∷ xs) = if p x then suc (count_where p xs) else count_where p xs

  -- `updateMany`; also `update`, once a row is known to be there
  abbrev pub update_where : (A → Bool) → (A → A) → List A → List A
  update_where p f [] = []
  update_where p f (x ∷ xs) = (if p x then f x else x) ∷ update_where p f xs

  -- `deleteMany`
  abbrev pub delete_where : (A → Bool) → List A → List A
  delete_where p [] = []
  delete_where p (x ∷ xs) = if p x then delete_where p xs else x ∷ delete_where p xs

  -- `create`
  abbrev pub insert_row : A → List A → List A
  insert_row x xs = xs ++ x ∷ []

  abbrev pub exists_where : (A → Bool) → List A → Bool
  exists_where p [] = false
  exists_where p (x ∷ xs) = if p x then true else exists_where p xs

  -- the later of two rows by a time stamp
  abbrev pub later : (A → ℕ) → A → Option A → A
  later time x none = x
  later time x (some y) = if ltb (time x) (time y) then y else x

  -- `findMany` with `orderBy: { … : 'desc' }` and `take: 1`
  abbrev pub find_newest : (A → ℕ) → (A → Bool) → List A → Option A
  find_newest time p [] = none
  find_newest time p (x ∷ xs) =
      if p x then some (later time x (find_newest time p xs)) else find_newest time p xs

  abbrev pub length : List A → ℕ
  length [] = 0
  length (x ∷ xs) = suc (length xs)

  pub find_first-holds :
      (p : A → Bool) (xs : List A) (x : A) → find_first p xs ≡ some x → p x ≡ true
  find_first-holds p [] x h = cc
  find_first-holds p (y ∷ xs) x h = ground (arith, find_first-holds p xs x)

  pub find_first-exists :
      (p : A → Bool) (xs : List A) (x : A) → find_first p xs ≡ some x → exists_where p xs ≡ true
  find_first-exists p [] x h = cc
  find_first-exists p (y ∷ xs) x h = ground (arith, find_first-exists p xs x)

  pub find_first-append :
      (p : A → Bool) (xs : List A) (y x : A)
      → find_first p xs ≡ some x
      → find_first p (insert_row y xs) ≡ some x
  find_first-append p [] y x h = cc
  find_first-append p (z ∷ xs) y x h = ground (arith, find_first-append p xs y x)

  pub find_first-append_none :
      (p : A → Bool) (xs : List A) (y : A)
      → find_first p xs ≡ none
      → find_first p (insert_row y xs) ≡ (if p y then some y else none)
  find_first-append_none p [] y h = refl
  find_first-append_none p (x ∷ xs) y h = ground (arith, find_first-append_none p xs y)

  -- An update that leaves the key of a query alone is seen through the query.
  pub find_first-update_where :
      (p q : A → Bool) (f : A → A) (xs : List A) (x : A)
      → ((y : A) → p (f y) ≡ p y)
      → find_first p xs ≡ some x
      → find_first p (update_where q f xs) ≡ some (if q x then f x else x)
  find_first-update_where p q f [] x same h = cc
  find_first-update_where p q f (y ∷ xs) x same h =
      ground (arith, same y, find_first-update_where p q f xs x same)

  pub find_first-update_where-none :
      (p q : A → Bool) (f : A → A) (xs : List A)
      → ((x : A) → p (f x) ≡ p x)
      → find_first p xs ≡ none
      → find_first p (update_where q f xs) ≡ none
  find_first-update_where-none p q f [] same h = refl
  find_first-update_where-none p q f (y ∷ xs) same h =
      ground (arith, same y, find_first-update_where-none p q f xs same)

  pub find_newest-update_where :
      (time : A → ℕ) (p q : A → Bool) (f : A → A) (xs : List A)
      → ((y : A) → p (f y) ≡ p y)
      → ((y : A) → time (f y) ≡ time y)
      → find_newest time p (update_where q f xs)
        ≡ map_option (λ x. if q x then f x else x) (find_newest time p xs)
  find_newest-update_where time p q f [] same still = refl
  find_newest-update_where time p q f (y ∷ xs) same still =
      elim (Option-cases (find_newest time p xs)) [
        | inl empty ↦
            ground (arith, same y, still y, find_newest-update_where time p q f xs same still)
        | inr (z, found) ↦
            ground
              (arith, same y, still y, still z, find_newest-update_where time p q f xs same still)
      ]

  pub exists-insert_last :
      (p : A → Bool) (x : A) (xs : List A) → p x ≡ true → exists_where p (insert_row x xs) ≡ true
  exists-insert_last p x [] h = ground arith
  exists-insert_last p x (y ∷ xs) h = ground (arith, exists-insert_last p x xs h)

  pub count_where-append :
      (p : A → Bool) (xs : List A) (y : A)
      → count_where p (insert_row y xs) ≡ count_where p xs + (if p y then 1 else 0)
  count_where-append p [] y = ground arith
  count_where-append p (x ∷ xs) y = ground (arith, count_where-append p xs y)

  pub length-insert_row : (xs : List A) (y : A) → length (insert_row y xs) ≡ length xs + 1
  length-insert_row [] y = omega arith
  length-insert_row (x ∷ xs) y = omega (arith, length-insert_row xs y)

-- `x` is one of the list
abbrev pub Has : {A : Type 0} → A → List A → Type 0
Has x [] = ⊥
Has x (y ∷ ys) = (y ≡ x) ⊎ Has x ys

module _ {ℓ κ} {A : Type ℓ} (P : A → Type κ) where
  abbrev pub All : List A → Type κ
  All [] = Unit
  All (x ∷ xs) = P x × All xs

  pub All-insert_row : (xs : List A) {y : A} → All xs → P y → All (insert_row y xs)
  All-insert_row [] h p = (p, tt)
  All-insert_row (x ∷ xs) h p = (h.0, All-insert_row xs h.1 p)

  pub All-update_where :
      (q : A → Bool) (f : A → A) (xs : List A)
      → ((x : A) → q x ≡ true → P x → P (f x))
      → All xs
      → All (update_where q f xs)
  All-update_where q f [] step h = tt
  All-update_where q f (x ∷ xs) step h = ground (arith, step x, All-update_where q f xs step h.1)

  pub All-delete_where : (q : A → Bool) (xs : List A) → All xs → All (delete_where q xs)
  All-delete_where q [] h = tt
  All-delete_where q (x ∷ xs) h = ground (arith, All-delete_where q xs h.1)

  pub All-find_first :
      (q : A → Bool) (xs : List A) {x : A} → All xs → find_first q xs ≡ some x → P x
  All-find_first q [] h e = cc
  All-find_first q (y ∷ xs) h e = elim (Bool-cases (q y)) [
    | inl hit ↦ ground arith
    | inr miss ↦ All-find_first q xs h.1 (ground arith)
  ]

module _ {ℓ} {A : Type ℓ} where
  abbrev pub take : ℕ → List A → List A
  take zero xs = []
  take (suc n) [] = []
  take (suc n) (x ∷ xs) = x ∷ take n xs

  abbrev pub drop : ℕ → List A → List A
  drop zero xs = xs
  drop (suc n) [] = []
  drop (suc n) (x ∷ xs) = drop n xs

module _ {ℓ} {A : Type ℓ} where
  pub append_nil : (xs : List A) → xs ++ [] ≡ xs
  append_nil [] = refl
  append_nil (x ∷ xs) = ap (λ ys. x ∷ ys) (append_nil xs)

  pub insert_row-append : (xs : List A) (y : A) (ys : List A) → insert_row y xs ++ ys ≡ xs ++ y ∷ ys
  insert_row-append [] y ys = refl
  insert_row-append (x ∷ xs) y ys = ap (λ zs. x ∷ zs) (insert_row-append xs y ys)
