-- ===== src/Numbers/Grace.antt =====
-- The daily run of number-grace-period.job.ts over the table that numbers.service.ts writes.
use Prim.Native.String.{String, []}
use callnow.Numbers.{
  PhoneNumber, Provider, find_owned, set_releasing, Store, release_number, grace_period_run,
  releasing, is_expired, released,
}
use callnow.Numbers.Lifecycle.{find_id, find_id-update}
use callnow.Base.{
  String, Bool, List, count_where, Distinct, exists_where, ℕ, ◌==◌, ◌&&◌, ◌++◌, ◌∷◌, ◌≡◌, [], false,
  some, true, ◌+◌, arith, find_many, ok, ◌≤◌, Bool-cases, eq_refl, if◌then◌else◌, map, refl, inl,
  insert_row, inr, find_first-holds, eq_iff,
}
use callnow.Numbers.Cache.{release_number-after}

exists-find_many_none :
    (p : PhoneNumber → Bool) (id : String) (rows : List PhoneNumber)
    → exists_where (λ k. k.id == id) rows ≡ false
    → exists_where (λ k. k.id == id) (find_many p rows) ≡ false
exists-find_many_none p id [] e = refl
exists-find_many_none p id (m ∷ rows) e = ground (arith, exists-find_many_none p id rows)

-- Where ids are distinct, a row's id is among the selected rows exactly when the row is selected.
exists-find_many :
    (p : PhoneNumber → Bool) (id : String) (rows : List PhoneNumber) (n : PhoneNumber)
    → Distinct (λ m. m.id) rows
    → find_id id rows ≡ some n
    → exists_where (λ k. k.id == n.id) (find_many p rows) ≡ p n
unfolding find_id
exists-find_many p id [] n d e = cc
exists-find_many p id (m ∷ rows) n d e = elim (Bool-cases (m.id == id)) [
  | inl hit ↦
      let same : m ≡ n = ground arith in
      rw (← same) (ground (arith, eq_refl m.id, exists-find_many_none p m.id rows))
  | inr miss ↦
      let there = find_first-holds (λ k. k.id == id) rows n (ground arith) in
      ground
        (arith, eq_iff m.id n.id, eq_iff n.id id, eq_iff m.id id, exists-find_many p id rows n d.1)
]

-- the row that was set to releasing, among the rows that the later run selects
exists-expired :
    (p : PhoneNumber → Bool) (now : ℕ) (key user_id : String) (rows : List PhoneNumber)
    (row : PhoneNumber)
    → find_owned key user_id rows ≡ some row
    → p (record row { status = releasing; released_at = some now }) ≡ true
    → exists_where (λ n. p n && n.provider_sid == row.provider_sid) (set_releasing now key rows)
      ≡ true
unfolding find_owned set_releasing
exists-expired p now key user_id [] row own over = cc
exists-expired p now key user_id (n ∷ rows) row own over =
    elim (Bool-cases (n.id == key && n.user_id == user_id)) [
      | inl hit ↦
          let same : n ≡ row = ground arith in
          let key_hit : n.id == key ≡ true = ground arith in
          rw (key_hit, same, over) (ground (arith, eq_refl row.provider_sid))
      | inr miss ↦ ground (arith, exists-expired p now key user_id rows row)
    ]

count-append :
    (k : String) (xs ys : List String)
    → count_where (λ x. x == k) (xs ++ ys)
      ≡ count_where (λ x. x == k) xs + count_where (λ x. x == k) ys
count-append k [] ys = omega arith
count-append k (x ∷ xs) ys = ground (arith, count-append k xs ys)

count-map :
    (p : PhoneNumber → Bool) (k : String) (rows : List PhoneNumber)
    → exists_where (λ n. p n && n.provider_sid == k) rows ≡ true
    → 1 ≤ count_where (λ x. x == k) (map (λ n. n.provider_sid) (find_many p rows))
count-map p k [] e = cc
count-map p k (n ∷ rows) e = ground (arith, count-map p k rows)

one_here : (k : String) → count_where (λ x. x == k) (k ∷ []) ≡ 1
one_here k = ground (arith, eq_refl k)

module _ (p : Provider) where
  -- The daily run moves exactly the rows that are releasing and whose seven days are over: such a
  -- row is released afterwards, and any other row is as it was.
  pub grace_period_run-find_id :
      (redis : Bool) (now : ℕ) (id : String) (s : Store) (n : PhoneNumber)
      → Distinct (λ m. m.id) s.numbers
      → find_id id s.numbers ≡ some n
      → find_id id (grace_period_run p redis now s).1.numbers
        ≡ some (if is_expired p redis now n then record n { status = released } else n)
  unfolding grace_period_run
  grace_period_run-find_id redis now id s n d e =
      let after =
        find_id-update
          (λ m. exists_where (λ k. k.id == m.id) (find_many (is_expired p redis now) s.numbers))
          (λ m. record m { status = released }) id s.numbers n (λ m. refl) e in
      rw (exists-find_many (is_expired p redis now) id s.numbers n d e) at after

  -- The provider is asked to release a number twice: when its owner releases it, and again by the
  -- daily run that finds its seven days over.
  pub released_twice :
      (redis : Bool) (now later : ℕ) (user_id id : String) (s : Store) (at : ℕ) (row : PhoneNumber)
      → (release_number p redis now user_id id s).0 ≡ ok at
      → find_owned id user_id s.numbers ≡ some row
      → now + 604800000 ≤ later
      → 2
        ≤ count_where
            (λ sid. sid == row.provider_sid)
            (grace_period_run p redis later
              (release_number p redis now user_id id s).1).1.released_sids
  released_twice redis now later user_id id s at row done own over =
      rw (release_number-after p now redis user_id id s at row done own) (
        unfold grace_period_run in
        omega (
          arith,
          count-append row.provider_sid (insert_row row.provider_sid s.released_sids) (
              map (λ n. n.provider_sid)
                (find_many (is_expired p redis later) (set_releasing now id s.numbers))),
          count-append row.provider_sid s.released_sids (row.provider_sid ∷ []),
          one_here row.provider_sid,
          count-map (is_expired p redis later) row.provider_sid (set_releasing now id s.numbers) (
              exists-expired (is_expired p redis later) now id user_id s.numbers row own
                (ground arith)),
        ))
