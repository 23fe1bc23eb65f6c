-- ===== src/Numbers/Lookup.antt =====
-- Whom a lookup of numbers.service.ts names, after any run of the service.
use callnow.Numbers.Cache.{owner_of, get_user_by_number-owner_of}
use callnow.Base.{
  Bool, List, String, Option, All, inl, ◌==◌, ◌∷◌, ◌≡◌, ◌≢◌, Bool-cases, [], false, inr, some, true,
  truthy, ◌⊎◌, Distinct, Has, arith, none, refl, eq_iff, ok,
}
use callnow.Numbers.{
  NumberStatus, PhoneNumber, Provider, Store, cache_get, find_active, get_user_by_number, is_active,
}
use callnow.Numbers.Ownership.{Serves, IsKept, IsKept-IsSound, Serves-IsKept}

-- who has a number by the table: the user of an active row with it, or nobody, where there is none
abbrev pub IsOwner : String → Option String → List PhoneNumber → Type 0
IsOwner number none rows = All (λ n. (n.number ≢ number) ⊎ (n.status ≢ NumberStatus.active)) rows
IsOwner number (some u) rows =
    (n : PhoneNumber) × Has n rows
    × (n.number ≡ number)
    × (n.status ≡ NumberStatus.active)
    × (n.user_id ≡ u)

is_active-active : (x : NumberStatus) → is_active x ≡ true → x ≡ NumberStatus.active
is_active-active NumberStatus.active h = refl
is_active-active NumberStatus.releasing h = cc
is_active-active NumberStatus.released h = cc

is_active-other : (x : NumberStatus) → is_active x ≡ false → x ≢ NumberStatus.active
is_active-other x h = λ e. let so : is_active x ≡ true = rw e refl in cc

IsOwner-later :
    (number : String) (n : PhoneNumber) (rows : List PhoneNumber) (u : Option String)
    → (n.number ≢ number) ⊎ (n.status ≢ NumberStatus.active)
    → IsOwner number u rows
    → IsOwner number u (n ∷ rows)
IsOwner-later number n rows none other h = (other, h)
IsOwner-later number n rows (some u) other (m, there, its_number, on, its_user) =
    (m, inr there, its_number, on, its_user)

owner_of-IsOwner :
    (number : String) (rows : List PhoneNumber) → IsOwner number (owner_of number rows) rows
unfolding find_active
owner_of-IsOwner number [] = tt
owner_of-IsOwner number (n ∷ rows) = elim (Bool-cases (n.number == number)) [
  | inr other ↦
      let apart : n.number ≢ number =
        λ e. absurd (ground (arith, e, other, eq_iff n.number number)) in
      rw other (
        IsOwner-later number n rows (owner_of number rows) (inl apart)
          (owner_of-IsOwner number rows))
  | inl same ↦ elim (Bool-cases (is_active n.status)) [
    | inl on ↦
        rw (same, on)
          (n, inl refl, (eq_iff n.number number).0 same, is_active-active n.status on, refl)
    | inr off ↦
        rw (same, off)
          (IsOwner-later number n rows (owner_of number rows) (inr (is_active-other n.status off))
            (owner_of-IsOwner number rows))
  ]
]

cache_get-empty :
    (n u : String) (cache : List (String × String)) → cache ≡ [] → cache_get n cache ≡ some u → ⊥
unfolding cache_get
cache_get-empty n u [] empty e = cc
cache_get-empty n u (c ∷ cache) empty e = cc

-- Whoever asks for the owner of a number, whether or not Redis answers, is told what the table
-- says: the user of an active row with the number, or nobody if there is none. This holds after any
-- run of provisionings, releases and lookups that starts with an empty cache, as long as Redis
-- answers the releases and the provider sells no number that is active.
pub Serves-lookup :
    (p : Provider) (redis : Bool) (number : String) {s t : Store}
    → s.cache ≡ []
    → All (λ n. truthy n.user_id ≡ true) s.numbers
    → Distinct (λ n. n.id) s.numbers
    → Serves p s t
    → (u : Option String) × ((get_user_by_number p redis number t).0 ≡ ok u)
      × IsOwner number u t.numbers
Serves-lookup p redis number {s} {t} cold users ids run =
    let kept : IsKept s = record {
      fitting = λ n u e. absurd (cache_get-empty n u s.cache cold e);
      users = users;
      ids = ids;
    } in
    let after = IsKept-IsSound t (Serves-IsKept p run kept) in
    (
      owner_of number t.numbers,
      get_user_by_number-owner_of p redis number t after,
      owner_of-IsOwner number t.numbers,
    )
