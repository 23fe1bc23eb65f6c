-- ===== src/Numbers/Ownership.antt =====
-- The cache of owners over a run of the numbers service: provisionings, releases and lookups of
-- numbers.service.ts in any order. Redis answers a release, and the others or not.
use callnow.Numbers.Cache.{
  IsSound, owner_of, cache_get-del, cache_get-set, find_active-set_releasing,
  get_user_by_number-IsSound,
}
use callnow.Base.{
  ℕ, Bool, List, String, exists_where, All, inl, ◌==◌, ◌∷◌, ◌≡◌, Bool-cases, Option-cases, [],
  false, inr, some, true, truthy, ◌&&◌, ◌⊎◌, All-insert_row, Distinct, arith, find_first,
  if◌then◌else◌, insert_row, none, refl, All-find_first, Distinct-insert_row, eq_iff,
  find_first-append, find_first-append_none, eq_refl, leb, sym, ap, map_option, ◌∙◌,
  All-update_where, Distinct-update_where,
}
use callnow.Numbers.{
  NumberStatus, PhoneNumber, Provider, Store, cache_get, find_active, Provisioned,
  get_user_by_number, is_active, provision_number, release_number, find_owned, cache_set,
  new_number, set_releasing, cache_del, plan_of, count_active,
}
use callnow.Plans.{plan_of}

abbrev IsFitting : List (String × String) → List PhoneNumber → Type 0
IsFitting cache rows =
    (number user_id : String)
    → cache_get number cache ≡ some user_id
    → owner_of number rows ≡ some user_id

-- a table with an id for each row and a user for each, and a cache that does not contradict it
pub record IsKept (s : Store) : Type 0 where
  pub fitting : IsFitting s.cache s.numbers
  pub users : All (λ n. truthy n.user_id ≡ true) s.numbers
  pub ids : Distinct (λ n. n.id) s.numbers

owner_of-truthy :
    (number user_id : String) (rows : List PhoneNumber)
    → All (λ n. truthy n.user_id ≡ true) rows
    → owner_of number rows ≡ some user_id
    → truthy user_id ≡ true
unfolding find_active
owner_of-truthy number user_id rows users own = elim (Option-cases (find_active number rows)) [
  | inl nobody ↦ absurd (ground (arith, nobody, own))
  | inr (row, found) ↦
      let full =
        All-find_first (λ n. truthy n.user_id ≡ true)
          (λ n. n.number == number && is_active n.status) rows users found in
      let same : row.user_id ≡ user_id = ground (arith, found, own) in rw same at full
]

pub IsKept-IsSound : (s : Store) → IsKept s → IsSound s
IsKept-IsSound s h = record {
  sound = h.fitting;
  named = λ number user_id own. owner_of-truthy number user_id s.numbers h.users own;
}

-- The provider sells no number that is active already.
abbrev pub IsFree : Provider → String → List PhoneNumber → Type 0
IsFree p number rows =
    (v : Provisioned)
    → p.provision_number number ≡ some v
    → exists_where (λ n. n.number == v.number && is_active n.status) rows ≡ false

pub data Serve (p : Provider) (s : Store) : Store → Type 0 where
  provisioned :
      (redis : Bool) (row_id user_id number : String)
      → exists_where (λ n. n.id == row_id) s.numbers ≡ false
      → truthy user_id ≡ true
      → IsFree p number s.numbers
      → Serve p s (provision_number p redis row_id user_id number s).1
  let_go : (now : ℕ) (user_id id : String) → Serve p s (release_number p true now user_id id s).1
  looked_up : (redis : Bool) (number : String) → Serve p s (get_user_by_number p redis number s).1

pub data Serves (p : Provider) (s : Store) : Store → Type 0 where
  start : Serves p s s
  then_serve : {t u : Store} → Serves p s t → Serve p t u → Serves p s u

set_releasing-users :
    (now : ℕ) (id : String) (rows : List PhoneNumber)
    → All (λ n. truthy n.user_id ≡ true) rows
    → All (λ n. truthy n.user_id ≡ true) (set_releasing now id rows)
unfolding set_releasing
set_releasing-users now id rows h =
    All-update_where (λ n. truthy n.user_id ≡ true) (λ n. n.id == id)
      (λ n. record n { status = NumberStatus.releasing; released_at = some now }) rows
      (λ n hit full. full) h

set_releasing-ids :
    (now : ℕ) (id : String) (rows : List PhoneNumber)
    → Distinct (λ n. n.id) rows
    → Distinct (λ n. n.id) (set_releasing now id rows)
unfolding set_releasing
set_releasing-ids now id rows h =
    Distinct-update_where (λ n. n.id) (λ n. n.id == id)
      (λ n. record n { status = NumberStatus.releasing; released_at = some now }) rows (λ n. refl) h

find_active-insert :
    (number : String) (n : PhoneNumber) (rows : List PhoneNumber) (user_id : String)
    → owner_of number rows ≡ some user_id
    → owner_of number (insert_row n rows) ≡ some user_id
unfolding find_active
find_active-insert number n rows user_id own = elim (Option-cases (find_active number rows)) [
  | inl nobody ↦ absurd (ground (arith, nobody, own))
  | inr (row, found) ↦
      let later =
        find_first-append (λ n. n.number == number && is_active n.status) rows n row found in
      ground (arith, found, own, later)
]

find_first-none :
    {A : Type 0} (q : A → Bool) (xs : List A) → exists_where q xs ≡ false → find_first q xs ≡ none
find_first-none q [] h = refl
find_first-none q (x ∷ xs) h = ground (arith, h, find_first-none q xs)

find_active-new :
    (n : PhoneNumber) (rows : List PhoneNumber)
    → is_active n.status ≡ true
    → exists_where (λ m. m.number == n.number && is_active m.status) rows ≡ false
    → owner_of n.number (insert_row n rows) ≡ some n.user_id
unfolding find_active
find_active-new n rows on free =
    let q = λ (m : PhoneNumber). m.number == n.number && is_active m.status in
    let last = find_first-append_none q rows n (find_first-none q rows free) in
    ground (arith, last, on, eq_refl n.number)

module _ (p : Provider) where
  provision-after :
      (redis : Bool) (row_id user_id number : String) (s : Store)
      → let t = (provision_number p redis row_id user_id number s).1 in
        ((t.numbers ≡ s.numbers) × (t.cache ≡ s.cache))
        ⊎ ((v : Provisioned) × (p.provision_number number ≡ some v)
            × (t.numbers ≡ insert_row (new_number p redis row_id user_id v) s.numbers)
            × (t.cache ≡ (if redis then cache_set v.number user_id s.cache else s.cache)))
  unfolding provision_number
  provision-after redis row_id user_id number s = elim (Option-cases (p.provision_number number)) [
    | inl failed ↦ inl (ground arith, ground arith)
    | inr (v, sold) ↦ elim (Option-cases (plan_of user_id s.subscriptions s.plans)) [
      | inl none_active ↦ inl (ground arith, ground arith)
      | inr (plan, known) ↦
          elim (Bool-cases (leb plan.max_numbers (count_active user_id s.numbers))) [
            | inl full ↦ inl (ground arith, ground arith)
            | inr room ↦ inr (v, sold, ground arith, ground arith)
          ]
    ]
  ]

  release-after :
      (now : ℕ) (user_id id : String) (s : Store)
      → let t = (release_number p true now user_id id s).1 in
        ((t.numbers ≡ s.numbers) × (t.cache ≡ s.cache))
        ⊎ ((row : PhoneNumber) × (find_owned id user_id s.numbers ≡ some row)
            × (t.numbers ≡ set_releasing now id s.numbers)
            × (t.cache ≡ cache_del row.number s.cache))
  unfolding release_number
  release-after now user_id id s = elim (Option-cases (find_owned id user_id s.numbers)) [
    | inl missing ↦ inl (ground arith, ground arith)
    | inr (row, found) ↦ elim (Bool-cases (is_active row.status)) [
      | inl on ↦ elim (Bool-cases (p.release_number row.provider_sid)) [
        | inl done ↦ inr (row, found, ground arith, ground arith)
        | inr failed ↦ inl (ground arith, ground arith)
      ]
      | inr off ↦ inl (ground arith, ground arith)
    ]
  ]

  lookup-numbers :
      (redis : Bool) (number : String) (s : Store)
      → (get_user_by_number p redis number s).1.numbers ≡ s.numbers
  unfolding get_user_by_number
  lookup-numbers redis number s = elim (Option-cases (find_active number s.numbers)) [
    | inl nobody ↦ ground (arith, nobody)
    | inr (row, found) ↦ ground (arith, found)
  ]

  insert-IsFitting :
      (redis : Bool) (row_id user_id : String) (v : Provisioned) (s : Store)
      → IsFitting s.cache s.numbers
      → exists_where (λ n. n.number == v.number && is_active n.status) s.numbers ≡ false
      → IsFitting
          (if redis then cache_set v.number user_id s.cache else s.cache)
          (insert_row (new_number p redis row_id user_id v) s.numbers)
  insert-IsFitting redis row_id user_id v s h free number u e =
      let fresh = new_number p redis row_id user_id v in
      let mine = find_active-new fresh s.numbers refl free in
      let set = cache_get-set v.number number user_id s.cache in
      elim (Bool-cases redis) [
        | inr away ↦ find_active-insert number fresh s.numbers u (h number u (rw away at e))
        | inl there ↦ elim (Bool-cases (v.number == number)) [
          | inl same ↦
              let so : v.number ≡ number = (eq_iff v.number number).0 same in
              let who : user_id ≡ u = ground (arith, e, set, same, there) in
              rw (sym so, sym who) mine
          | inr other ↦
              find_active-insert number fresh s.numbers u
                (h number u (ground (arith, e, set, other, there)))
        ]
      ]

  Serve-IsKept : {s t : Store} → Serve p s t → IsKept s → IsKept t
  Serve-IsKept {s} (provisioned redis row_id user_id number fresh named free) h =
      elim (provision-after redis row_id user_id number s) [
        | inl (rows, cache) ↦ record {
          fitting = rw (rows, cache) h.fitting;
          users = rw rows h.users;
          ids = rw rows h.ids;
        }
        | inr (v, sold, rows, cache) ↦ record {
          fitting =
              rw (rows, cache) (insert-IsFitting redis row_id user_id v s h.fitting (free v sold));
          users = rw rows (All-insert_row (λ n. truthy n.user_id ≡ true) s.numbers h.users named);
          ids = rw rows (Distinct-insert_row (λ n. n.id) _ s.numbers h.ids fresh);
        }
      ]
  Serve-IsKept {s} (let_go now user_id id) h = elim (release-after now user_id id s) [
    | inl (rows, cache) ↦ record {
      fitting = rw (rows, cache) h.fitting;
      users = rw rows h.users;
      ids = rw rows h.ids;
    }
    | inr (row, found, rows, cache) ↦ record {
      fitting =
          rw (rows, cache)
            (λ number u e. elim (Bool-cases (row.number == number)) [
              | inl same ↦ absurd (ground (arith, e, same, cache_get-del row.number number s.cache))
              | inr other ↦
                  let still =
                    find_active-set_releasing now id user_id number s.numbers row h.ids found
                      other in
                  let before =
                    h.fitting number u
                      (ground (arith, e, other, cache_get-del row.number number s.cache)) in
                  ap (map_option (λ n. n.user_id)) still ∙ before
            ]);
      users = rw rows (set_releasing-users now id s.numbers h.users);
      ids = rw rows (set_releasing-ids now id s.numbers h.ids);
    }
  ]
  Serve-IsKept {s} (looked_up redis number) h =
      let rows = lookup-numbers redis number s in
      let after = get_user_by_number-IsSound p redis number s (IsKept-IsSound s h) in
      record { fitting = after.sound; users = rw rows h.users; ids = rw rows h.ids }

  pub Serves-IsKept : {s t : Store} → Serves p s t → IsKept s → IsKept t
  Serves-IsKept start h = h
  Serves-IsKept (then_serve before last) h = Serve-IsKept last (Serves-IsKept before h)
