-- ===== src/Numbers/Laws.antt =====
-- The limit on numbers, and who owns them: numbers.service.ts, `provisionNumber` and `releaseNumber`.
use callnow.Numbers.{
  Provider, count_active, PhoneNumber, Plan, provision_number, release_number, Store, find_owned,
  is_active, plan_of, new_number,
}
use callnow.Base.{
  Option, Bool, String, List, false, ℕ, insert_row, some, ◌≤◌, arith, leb, none, ◌≡◌, Option-cases,
  is_ok, true, ◌+◌, err, if◌then◌else◌, inl, bad_request, inr, ◌==◌, eq_iff, plan_limit_exceeded,
  ◌&&◌, count_where-append,
}
use callnow.Plans.{Plan, plan_of}

count_active-insert_row :
    (u : String) (n : PhoneNumber) (rows : List PhoneNumber)
    → count_active u (insert_row n rows)
      ≡ count_active u rows + (if n.user_id == u && is_active n.status then 1 else 0)
unfolding count_active
count_active-insert_row u n rows =
    count_where-append (λ m. m.user_id == u && is_active m.status) rows n

-- the limit of a plan; none allows nothing
abbrev pub or_zero : Option Plan → ℕ
or_zero none = 0
or_zero (some plan) = plan.max_numbers

abbrev pub is_owned_active : Option PhoneNumber → Bool
is_owned_active none = false
is_owned_active (some n) = is_active n.status

module _ (p : Provider) (redis : Bool) where
  -- A user whose active numbers fit a plan still fits it after any provisioning by anyone, for the
  -- plan that the user's subscription names: the limit is never passed, error paths included.
  pub provision_number-limit :
      (row_id user_id number u : String) (s : Store) (plan : Plan)
      → plan_of u s.subscriptions s.plans ≡ some plan
      → count_active u s.numbers ≤ plan.max_numbers
      → count_active u (provision_number p redis row_id user_id number s).1.numbers
        ≤ plan.max_numbers
  unfolding provision_number
  provision_number-limit row_id user_id number u s plan known fits =
      elim (Option-cases (p.provision_number number)) [
        | inl failed ↦ ground arith
        | inr (v, sold) ↦ ground (
          arith,
          eq_iff user_id u,
          count_active-insert_row u (new_number p redis row_id user_id v) s.numbers,
        )
      ]

  -- At the plan's limit, or with no plan, the request is refused with PLAN_LIMIT_EXCEEDED before
  -- the provider is asked, and nothing is written.
  pub provision_number-refused :
      (row_id user_id number : String) (s : Store)
      → leb (or_zero (plan_of user_id s.subscriptions s.plans)) (count_active user_id s.numbers)
        ≡ true
      → provision_number p redis row_id user_id number s
        ≡ (err (bad_request plan_limit_exceeded), s)
  unfolding provision_number
  provision_number-refused row_id user_id number s full = ground arith

  -- A release is made only by the owner of a number that is active; any other request changes no
  -- row, asks the provider for nothing, and leaves the cache alone.
  pub release_number-guard :
      (now : ℕ) (user_id id : String) (s : Store)
      → is_owned_active (find_owned id user_id s.numbers) ≡ false
      → (is_ok (release_number p redis now user_id id s).0 ≡ false)
        × ((release_number p redis now user_id id s).1 ≡ s)
  unfolding release_number
  release_number-guard now user_id id s h = ground arith
