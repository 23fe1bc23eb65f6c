-- ===== src/Numbers/Lifecycle.antt =====
-- A number's life: active, releasing, released. numbers.service.ts, `provisionNumber` and
-- `releaseNumber`, and the daily run of number-grace-period.job.ts.
use Prim.Native.String.{String}
use callnow.Numbers.{
  active, NumberStatus, PhoneNumber, Provider, Store, releasing, provision_number, release_number,
  grace_period_run, find_owned, released, Provisioned, is_active, new_number, set_releasing,
  plan_of, count_active, is_expired,
}
use callnow.Base.{
  String, List, ℕ, ◌≡◌, Bool, Option, ◌≤◌, exists_where, find_first, ◌==◌, false, Distinct, some,
  ◌⊎◌, find_first-holds, inl, insert_row, update_where, arith, find_first-append, if◌then◌else◌,
  inr, true, ◌&&◌, Distinct-insert_row, Only-find_first, Option-cases, find_first-update_where,
  All-find_first, Bool-cases, Distinct-update_where, ap, eq_iff, leb, refl, find_many,
}
use callnow.Plans.{plan_of}

abbrev pub stage : NumberStatus → ℕ
stage active = 0
stage releasing = 1
stage released = 2

-- the requests that change a number, and the daily run
pub data Step (p : Provider) (s : Store) : Store → Type 0 where
  provision :
      (redis : Bool) (row_id user_id number : String)
      → exists_where (λ n. n.id == row_id) s.numbers ≡ false
      → Step p s (provision_number p redis row_id user_id number s).1
  release :
      (redis : Bool) (now : ℕ) (user_id id : String)
      → Step p s (release_number p redis now user_id id s).1
  grace_run : (redis : Bool) (now : ℕ) → Step p s (grace_period_run p redis now s).1

pub data Reach (p : Provider) (s : Store) : Store → Type 0 where
  here : Reach p s s
  next : {t u : Store} → Reach p s t → Step p t u → Reach p s u

-- the row with an id
unfoldable pub find_id : String → List PhoneNumber → Option PhoneNumber
find_id id = find_first (λ n. n.id == id)

-- What a row may become: it keeps its number and owner, and its stage does not fall.
abbrev pub Follows : PhoneNumber → PhoneNumber → Type 0
Follows n m = (m.number ≡ n.number) × (m.user_id ≡ n.user_id) × (stage n.status ≤ stage m.status)

pub find_id-update :
    (q : PhoneNumber → Bool) (f : PhoneNumber → PhoneNumber) (id : String) (rows : List PhoneNumber)
    (n : PhoneNumber)
    → ((m : PhoneNumber) → (f m).id ≡ m.id)
    → find_id id rows ≡ some n
    → find_id id (update_where q f rows) ≡ some (if q n then f n else n)
unfolding find_id
find_id-update q f id rows n same e =
    find_first-update_where (λ n. n.id == id) q f rows n (λ m. ap (λ i. i == id) (same m)) e

find_id-insert_row :
    (id : String) (rows : List PhoneNumber) (n m : PhoneNumber)
    → find_id id rows ≡ some n
    → find_id id (insert_row m rows) ≡ some n
unfolding find_id
find_id-insert_row id rows n m e = find_first-append (λ n. n.id == id) rows m n e

-- where ids are distinct, the first row with an id is the row that its owner finds
find_owned-find_id :
    (id user_id : String) (rows : List PhoneNumber) (row n : PhoneNumber)
    → Distinct (λ m. m.id) rows
    → find_owned id user_id rows ≡ some row
    → find_id id rows ≡ some n
    → n ≡ row
unfolding find_owned find_id
find_owned-find_id id user_id rows row n d own e =
    let hit = find_first-holds (λ m. m.id == id && m.user_id == user_id) rows row own in
    let there = find_first-holds (λ m. m.id == id) rows n e in
    let only =
      Only-find_first (λ m. m.id) (λ m. m.id == id && m.user_id == user_id) row rows d own in
    All-find_first (λ m. (m.id == row.id) ≡ true → m ≡ row) (λ m. m.id == id) rows only e
      (ground (arith, eq_iff row.id id, eq_iff n.id id, eq_iff n.id row.id))

set_releasing-Follows :
    (now : ℕ) (key user_id id : String) (rows : List PhoneNumber) (row n : PhoneNumber)
    → Distinct (λ m. m.id) rows
    → find_owned key user_id rows ≡ some row
    → is_active row.status ≡ true
    → find_id id rows ≡ some n
    → (m : PhoneNumber) × (find_id id (set_releasing now key rows) ≡ some m) × Follows n m
unfolding set_releasing find_id
set_releasing-Follows now key user_id id rows row n d own on e =
    let set = λ (m : PhoneNumber). record m { status = releasing; released_at = some now } in
    let after = find_id-update (λ m. m.id == key) set id rows n (λ m. refl) e in
    let there = find_first-holds (λ m. m.id == id) rows n e in
    elim (Bool-cases (n.id == key)) [
      | inl hit ↦
          let same_id : id ≡ key = ground (arith, eq_iff n.id id, eq_iff n.id key) in
          let same : n ≡ row = find_owned-find_id key user_id rows row n d own (rw same_id at e) in
          (set n, rw hit at after, (refl, refl, ground (arith, ap (λ m. m.status) same)))
      | inr miss ↦ (n, rw miss at after, (refl, refl, omega arith))
    ]

module _ (p : Provider) where
  -- what a release does to the table
  release-numbers :
      (redis : Bool) (now : ℕ) (user_id id : String) (s : Store)
      → ((release_number p redis now user_id id s).1.numbers ≡ s.numbers)
        ⊎ ((row : PhoneNumber) × (find_owned id user_id s.numbers ≡ some row)
            × (is_active row.status ≡ true)
            × ((release_number p redis now user_id id s).1.numbers
                ≡ set_releasing now id s.numbers))
  unfolding release_number
  release-numbers redis now user_id id s = elim (Option-cases (find_owned id user_id s.numbers)) [
    | inl missing ↦ inl (ground arith)
    | inr (row, found) ↦ elim (Bool-cases (is_active row.status)) [
      | inl on ↦ elim (Bool-cases (p.release_number row.provider_sid)) [
        | inl done ↦ inr (row, found, on, ground arith)
        | inr failed ↦ inl (ground arith)
      ]
      | inr off ↦ inl (ground arith)
    ]
  ]

  provision-numbers :
      (redis : Bool) (row_id user_id number : String) (s : Store)
      → ((provision_number p redis row_id user_id number s).1.numbers ≡ s.numbers)
        ⊎ ((v : Provisioned) × ((provision_number p redis row_id user_id number s).1.numbers
              ≡ insert_row (new_number p redis row_id user_id v) s.numbers))
  unfolding provision_number
  provision-numbers redis row_id user_id number s =
      elim (Option-cases (p.provision_number number)) [
        | inl failed ↦ inl (ground arith)
        | inr (v, sold) ↦ elim (Option-cases (plan_of user_id s.subscriptions s.plans)) [
          | inl none_active ↦ inl (ground arith)
          | inr (plan, known) ↦
              elim (Bool-cases (leb plan.max_numbers (count_active user_id s.numbers))) [
                | inl full ↦ inl (ground arith)
                | inr room ↦ inr (v, ground arith)
              ]
        ]
      ]

  -- Ids stay distinct.
  Step-Distinct :
      {s t : Store} → Step p s t → Distinct (λ n. n.id) s.numbers → Distinct (λ n. n.id) t.numbers
  Step-Distinct {s} (provision redis row_id user_id number fresh) d =
      elim (provision-numbers redis row_id user_id number s) [
        | inl same ↦ rw same d
        | inr (v, added) ↦ rw added (Distinct-insert_row (λ n. n.id) _ s.numbers d fresh)
      ]
  Step-Distinct {s} (release redis now user_id id) d =
      elim (release-numbers redis now user_id id s) [
        | inl same ↦ rw same d
        | inr (row, found, on, set) ↦
            rw set (
              unfold set_releasing in Distinct-update_where (λ n. n.id) _ _ s.numbers (λ n. refl) d)
      ]
  Step-Distinct {s} (grace_run redis now) d =
      unfold grace_period_run in Distinct-update_where (λ n. n.id) _ _ s.numbers (λ n. refl) d

  Step-Follows :
      {s t : Store} (id : String) (n : PhoneNumber)
      → Step p s t
      → Distinct (λ n. n.id) s.numbers
      → find_id id s.numbers ≡ some n
      → (m : PhoneNumber) × (find_id id t.numbers ≡ some m) × Follows n m
  Step-Follows {s} id n (provision redis row_id user_id number fresh) d e =
      elim (provision-numbers redis row_id user_id number s) [
        | inl same ↦ (n, rw same e, ground arith)
        | inr (v, added) ↦ (n, rw added (find_id-insert_row id s.numbers n _ e), ground arith)
      ]
  Step-Follows {s} id n (release redis now user_id key) d e =
      elim (release-numbers redis now user_id key s) [
        | inl same ↦ (n, rw same e, ground arith)
        | inr (row, found, on, set) ↦
            let (m, there, follows) =
              set_releasing-Follows now key user_id id s.numbers row n d found on e in
            (m, rw set there, follows)
      ]
  Step-Follows {s} id n (grace_run redis now) d e =
      let q = λ (m : PhoneNumber).
        exists_where (λ k. k.id == m.id) (find_many (is_expired p redis now) s.numbers) in
      let after =
        find_id-update q (λ m. record m { status = released }) id s.numbers n (λ m. refl) e in
      (
        if q n then record n { status = released } else n,
        unfold grace_period_run in after,
        (ground arith, ground arith, ground arith),
      )

  Reach-both :
      {s t : Store} (id : String) (n : PhoneNumber)
      → Reach p s t
      → Distinct (λ m. m.id) s.numbers
      → find_id id s.numbers ≡ some n
      → Distinct (λ m. m.id) t.numbers
        × ((m : PhoneNumber) × (find_id id t.numbers ≡ some m) × Follows n m)
  Reach-both id n here d e = (d, (n, e, (refl, refl, omega arith)))
  Reach-both id n (next r step) d e =
      let (d', (m, there, follows)) = Reach-both id n r d e in
      let (k, last, on) = Step-Follows id m step d' there in
      (Step-Distinct step d', (k, last, (ground arith, ground arith, omega arith)))

  -- Over any sequence of provisionings, releases and daily runs, a row that is there stays there,
  -- keeps its number and its owner, and its status only moves on, from active to releasing to
  -- released. The ids of the rows are distinct, and a provisioning draws a new one.
  pub Reach-Follows :
      {s t : Store} (id : String) (n : PhoneNumber)
      → Reach p s t
      → Distinct (λ m. m.id) s.numbers
      → find_id id s.numbers ≡ some n
      → (m : PhoneNumber) × (find_id id t.numbers ≡ some m) × Follows n m
  Reach-Follows id n r d e = (Reach-both id n r d e).1
