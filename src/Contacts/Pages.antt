-- ===== src/Contacts/Pages.antt =====
-- Pages of a list joined, and what is one of a list that a query answers.
use callnow.Base.{
  ℕ, Bool, List, Result, [], length, take, suc, ◌+◌, ◌≡◌, ◌≤◌, arith, ◌*◌, ◌++◌, ◌∷◌, ap, drop, ok,
  zero, err, refl, find_many, ◌-◌, ◌∙◌, sym, exists_where, true, ◌↔◌, Bool-cases, inl, inr, Has,
}
use callnow.Dialer.Campaigns.{paginate, Page}
use callnow.Contacts.{Contact, FullContact, Store}

-- the first pages, one after the other
abbrev pub join_pages : {A : Type 0} → (ℕ → List A) → ℕ → List A
join_pages page zero = []
join_pages page (suc k) = join_pages page k ++ page (suc k)

module _ {A : Type 0} where
  take-add : (m n : ℕ) (xs : List A) → take (m + n) xs ≡ take m xs ++ take n (drop m xs)
  take-add zero n xs = ap (λ k. take k xs) (omega arith)
  take-add (suc m) zero [] = let total : suc m + zero ≡ suc m = omega arith in rw total refl
  take-add (suc m) (suc n) [] =
      let total : suc m + suc n ≡ suc (m + suc n) = omega arith in rw total refl
  take-add (suc m) n (x ∷ xs) =
      let total : suc m + n ≡ suc (m + n) = omega arith in
      rw total (ap (λ ys. x ∷ ys) (take-add m n xs))

  pub take_all : (n : ℕ) (xs : List A) → length xs ≤ n → take n xs ≡ xs
  take_all zero [] h = refl
  take_all zero (x ∷ xs) h = absurd (omega arith)
  take_all (suc n) [] h = refl
  take_all (suc n) (x ∷ xs) h = ap (λ ys. x ∷ ys) (take_all n xs (omega arith))

  pub length-take : (n : ℕ) (xs : List A) → length (take n xs) ≤ n
  length-take zero xs = omega arith
  length-take (suc n) [] = omega arith
  length-take (suc n) (x ∷ xs) = omega (arith, length-take n xs)

  pub join_pages-paginate :
      (limit n : ℕ) (rows : List A)
      → join_pages (λ k. (paginate k limit rows).rows) n ≡ take (n * limit) rows
  unfolding paginate
  join_pages-paginate limit zero rows =
      let none_left : zero * limit ≡ 0 = omega arith in rw none_left refl
  join_pages-paginate limit (suc n) rows =
      let start : suc n - 1 ≡ n = omega arith in
      let end : suc n * limit ≡ n * limit + limit = omega arith in
      rw (start, end, join_pages-paginate limit n rows) (sym (take-add (n * limit) limit rows))

abbrev pub shown : Result (Page FullContact) × Store → List FullContact
shown (ok p, s) = p.rows
shown (err e, s) = []

abbrev pub total_of : Result (Page FullContact) × Store → ℕ
total_of (ok p, s) = p.total
total_of (err e, s) = 0

-- The order of the rows leaves out none and adds none.
abbrev pub IsOrder : (List Contact → List Contact) → Type 0
IsOrder sort = (c : Contact) (cs : List Contact) → Has c (sort cs) ↔ Has c cs

module _ {A : Type 0} where
  pub find_many-Has :
      (p : A → Bool) (x : A) (xs : List A) → Has x (find_many p xs) → Has x xs × (p x ≡ true)
  find_many-Has p x [] h = absurd h
  find_many-Has p x (y ∷ ys) h = elim (Bool-cases (p y)) [
    | inr miss ↦ let later = find_many-Has p x ys (rw miss at h) in (inr later.0, later.1)
    | inl hit ↦ elim (rw hit at h) [
      | inl same ↦ (inl same, ap p (sym same) ∙ hit)
      | inr more ↦ let later = find_many-Has p x ys more in (inr later.0, later.1)
    ]
  ]

  pub Has-find_many :
      (p : A → Bool) (x : A) (xs : List A) → Has x xs → p x ≡ true → Has x (find_many p xs)
  Has-find_many p x [] h e = absurd h
  Has-find_many p x (y ∷ ys) (inl same) e =
      let hit : p y ≡ true = ap p same ∙ e in rw hit (inl same)
  Has-find_many p x (y ∷ ys) (inr more) e = elim (Bool-cases (p y)) [
    | inl hit ↦ rw hit (inr (Has-find_many p x ys more e))
    | inr miss ↦ rw miss (Has-find_many p x ys more e)
  ]

  pub exists_where-Has :
      (p : A → Bool) (xs : List A) → exists_where p xs ≡ true → (x : A) × Has x xs × (p x ≡ true)
  exists_where-Has p [] h = absurd (ground (arith, h))
  exists_where-Has p (y ∷ ys) h = elim (Bool-cases (p y)) [
    | inl hit ↦ (y, inl refl, hit)
    | inr miss ↦
        let (x, later, holds) = exists_where-Has p ys (rw miss at h) in (x, inr later, holds)
  ]

  pub Has-exists_where :
      (p : A → Bool) (x : A) (xs : List A) → Has x xs → p x ≡ true → exists_where p xs ≡ true
  Has-exists_where p x [] h e = absurd h
  Has-exists_where p x (y ∷ ys) (inl same) e = let hit : p y ≡ true = ap p same ∙ e in rw hit refl
  Has-exists_where p x (y ∷ ys) (inr more) e = elim (Bool-cases (p y)) [
    | inl hit ↦ rw hit refl
    | inr miss ↦ rw miss (Has-exists_where p x ys more e)
  ]
