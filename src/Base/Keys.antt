-- ===== src/Base/Keys.antt =====
-- Rows told apart by a key: a primary key, or a unique column.
use Prim.Native.String.{String}
use mathlib.Core.Path.{◌≡◌, refl, ap}
use mathlib.Core.Logic.{inl, inr}
use mathlib.Core.Bool.{Bool, true, false}
use mathlib.Core.Option.{some}
use mathlib.Core.List.{List, [], ◌∷◌}
use native.Mathlib.Omega.{arith}
use text.Mathlib.Text.{◌==◌}
use text.Mathlib.TextEquality.{eq_iff}
use callnow.Base.Tests.{Bool-cases}
use callnow.Base.Rows.{find_first, update_where, insert_row, exists_where, All}

module _ {ℓ} {A : Type ℓ} (key : A → String) where
  -- no two rows have the same key
  abbrev pub Distinct : List A → Type ℓ
  Distinct [] = Unit
  Distinct (x ∷ xs) = (exists_where (λ y. key y == key x) xs ≡ false) × Distinct xs

  -- every row with the key of `x` is `x`
  abbrev pub Only : A → List A → Type ℓ
  Only x = All (λ y. (key y == key x) ≡ true → y ≡ x)

  Only-absent : (x : A) (xs : List A) → exists_where (λ y. key y == key x) xs ≡ false → Only x xs
  Only-absent x [] h = tt
  Only-absent x (y ∷ xs) h = ((λ e. absurd (ground arith)), Only-absent x xs (ground arith))

  exists-find_first :
      (p : A → Bool) (k : String) (x : A) (xs : List A)
      → find_first p xs ≡ some x
      → exists_where (λ y. key y == k) xs ≡ false
      → (key x == k) ≡ false
  exists-find_first p k x [] e h = cc
  exists-find_first p k x (y ∷ xs) e h = elim (Bool-cases (p y)) [
    | inl hit ↦ ground arith
    | inr miss ↦ exists-find_first p k x xs (ground arith) (ground arith)
  ]

  pub Only-find_first :
      (p : A → Bool) (x : A) (xs : List A) → Distinct xs → find_first p xs ≡ some x → Only x xs
  Only-find_first p x [] d e = tt
  Only-find_first p x (y ∷ xs) d e = elim (Bool-cases (p y)) [
    | inl hit ↦ let same : y ≡ x = ground arith in ((λ h. same), Only-absent x xs (rw same at d.0))
    | inr miss ↦
        let found : find_first p xs ≡ some x = ground arith in
        let apart = exists-find_first p (key y) x xs found d.0 in
        (
          (λ h. absurd (ground (arith, eq_iff (key y) (key x), eq_iff (key x) (key y)))),
          Only-find_first p x xs d.1 found,
        )
  ]

  exists-insert_row :
      (k : String) (x : A) (xs : List A)
      → exists_where (λ y. key y == k) xs ≡ false
      → (key x == k) ≡ false
      → exists_where (λ y. key y == k) (insert_row x xs) ≡ false
  exists-insert_row k x [] h n = ground arith
  exists-insert_row k x (y ∷ xs) h n = ground (arith, exists-insert_row k x xs)

  pub Distinct-insert_row :
      (x : A) (xs : List A)
      → Distinct xs
      → exists_where (λ y. key y == key x) xs ≡ false
      → Distinct (insert_row x xs)
  Distinct-insert_row x [] d h = (refl, tt)
  Distinct-insert_row x (y ∷ xs) d h = (
    exists-insert_row (key y) x xs d.0
        (ground (arith, eq_iff (key y) (key x), eq_iff (key x) (key y))),
    Distinct-insert_row x xs d.1 (ground arith),
  )

  exists-update_where :
      (k : String) (q : A → Bool) (f : A → A) (xs : List A)
      → ((x : A) → key (f x) ≡ key x)
      → exists_where (λ y. key y == k) (update_where q f xs) ≡ exists_where (λ y. key y == k) xs
  exists-update_where k q f [] same = refl
  exists-update_where k q f (y ∷ xs) same =
      ground (arith, same y, exists-update_where k q f xs same)

  pub Distinct-update_where :
      (q : A → Bool) (f : A → A) (xs : List A)
      → ((x : A) → key (f x) ≡ key x)
      → Distinct xs
      → Distinct (update_where q f xs)
  Distinct-update_where q f [] same d = tt
  Distinct-update_where q f (y ∷ xs) same d = (
    ground (arith, same y, exists-update_where (key y) q f xs same),
    Distinct-update_where q f xs same d.1,
  )

-- An update of one row, which a query does not meet before or after, is not seen by the query.
pub find_first-update-Only {ℓ} :
    {A : Type ℓ} (key : A → String) (p : A → Bool) (f : A → A) (x : A) (xs : List A)
    → Only key x xs
    → p x ≡ false
    → p (f x) ≡ false
    → find_first p (update_where (λ y. key y == key x) f xs) ≡ find_first p xs
find_first-update-Only key p f x [] only off off' = refl
find_first-update-Only key p f x (y ∷ xs) only off off' = elim (Bool-cases (key y == key x)) [
  | inl hit ↦
      let same : y ≡ x = only.0 hit in
      ground (
        arith,
        ap p same,
        ap (λ z. p (f z)) same,
        find_first-update-Only key p f x xs only.1 off off',
      )
  | inr miss ↦ ground (arith, find_first-update-Only key p f x xs only.1 off off')
]
