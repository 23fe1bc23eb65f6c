-- ===== src/Numbers/Cache.antt =====
-- The cache of owners: numbers.service.ts, `getUserByNumber` against the table of numbers.
use Prim.Native.String.{String}
use callnow.Numbers.{
  Provider, cache_get, Store, cache_del, cache_set, PhoneNumber, get_user_by_number, find_active,
  del, release_number, set_releasing, setex, find_owned, redis_get, is_active, releasing,
}
use callnow.Base.{
  String, Bool, List, ◌≡◌, Option, if◌then◌else◌, ok, some, Option-cases, map_option, truthy, ◌==◌,
  inl, none, true, arith, inr, [], eq_iff, ◌∷◌, refl, Bool-cases, ℕ, false, truthy?, Distinct,
  eq_refl, insert_row, find_first-holds, ◌&&◌, find_first-update-Only, Only-find_first,
}

pub cache_get-set :
    (k j v : String) (m : List (String × String))
    → cache_get j (cache_set k v m) ≡ (if k == j then some v else cache_get j m)
unfolding cache_get cache_set
cache_get-set k j v [] = refl
cache_get-set k j v ((i, w) ∷ m) =
    ground (arith, eq_iff k j, eq_iff i k, eq_iff i j, cache_get-set k j v m)

pub cache_get-del :
    (k j : String) (m : List (String × String))
    → cache_get j (cache_del k m) ≡ (if k == j then none else cache_get j m)
unfolding cache_get cache_del
cache_get-del k j [] = ground arith
cache_get-del k j ((i, w) ∷ m) =
    ground (arith, eq_iff k j, eq_iff i k, eq_iff i j, cache_get-del k j m)

-- the owner that the table gives
abbrev pub owner_of : String → List PhoneNumber → Option String
owner_of number rows = map_option (λ n. n.user_id) (find_active number rows)

-- Every cached owner is the owner that the table gives.
pub record IsSound (s : Store) : Type 0 where
  pub sound :
      (number user_id : String)
      → cache_get number s.cache ≡ some user_id
      → owner_of number s.numbers ≡ some user_id
  pub named :
      (number user_id : String) → owner_of number s.numbers ≡ some user_id → truthy user_id ≡ true

module _ (p : Provider) (redis : Bool) where
  -- While the cache is sound, a lookup answers what the table says, whether or not Redis answers.
  pub get_user_by_number-owner_of :
      (number : String) (s : Store)
      → IsSound s
      → (get_user_by_number p redis number s).0 ≡ ok (owner_of number s.numbers)
  unfolding get_user_by_number
  get_user_by_number-owner_of number s h = elim (Option-cases (cache_get number s.cache)) [
    | inl missing ↦ ground arith
    | inr (u, hit) ↦ let e = h.sound number u hit in ground (arith, h.named number u e)
  ]

  setex-IsSound :
      (number user_id : String) (s : Store)
      → owner_of number s.numbers ≡ some user_id
      → IsSound s
      → IsSound (setex p redis number user_id s)
  setex-IsSound number user_id s own h = record {
    sound = λ n u e.
        ground (arith, eq_iff number n, h.sound n u, cache_get-set number n user_id s.cache);
    named = h.named;
  }

  del-IsSound : (number : String) (s : Store) → IsSound s → IsSound (del p redis number s)
  del-IsSound number s h = record {
    sound = λ n u e. ground (arith, h.sound n u, cache_get-del number n s.cache);
    named = h.named;
  }

  -- A lookup keeps the cache sound, whether or not Redis answers.
  pub get_user_by_number-IsSound :
      (number : String) (s : Store) → IsSound s → IsSound (get_user_by_number p redis number s).1
  unfolding get_user_by_number
  get_user_by_number-IsSound number s h = elim (Bool-cases (truthy? (redis_get p redis number s))) [
    | inl cached ↦ rw (cached, get_user_by_number) h
    | inr missed ↦ elim (Option-cases (find_active number s.numbers)) [
      | inl unowned ↦ rw (missed, get_user_by_number, unowned) h
      | inr (row, found) ↦
          rw (missed, get_user_by_number, found)
            (setex-IsSound number row.user_id s (ground arith) h)
    ]
  ]

-- The table once a number is set to releasing: its rows are found no more, and other numbers' rows
-- as before.
pub find_active-set_releasing :
    (now : ℕ) (id user_id number : String) (rows : List PhoneNumber) (row : PhoneNumber)
    → Distinct (λ n. n.id) rows
    → find_owned id user_id rows ≡ some row
    → (row.number == number) ≡ false
    → find_active number (set_releasing now id rows) ≡ find_active number rows
unfolding find_active set_releasing find_owned
find_active-set_releasing now id user_id number rows row d found other =
    let hit = find_first-holds (λ n. n.id == id && n.user_id == user_id) rows row found in
    let same : row.id ≡ id = ground (arith, eq_iff row.id id) in
    rw same at (
      find_first-update-Only (λ n. n.id) (λ n. n.number == number && is_active n.status)
        (λ n. record n { status = releasing; released_at = some now }) row rows
        (Only-find_first (λ n. n.id) (λ n. n.id == id && n.user_id == user_id) row rows d found)
        (ground arith) (ground arith))

module _ (p : Provider) where
  pub release_number-after :
      (now : ℕ) (redis : Bool) (user_id id : String) (s : Store) (at : ℕ) (row : PhoneNumber)
      → (release_number p redis now user_id id s).0 ≡ ok at
      → find_owned id user_id s.numbers ≡ some row
      → (release_number p redis now user_id id s).1 ≡ record s {
        released_sids = insert_row row.provider_sid s.released_sids;
        numbers = set_releasing now id s.numbers;
        cache = if redis then cache_del row.number s.cache else s.cache;
      }
  unfolding release_number
  release_number-after now redis user_id id s at row done found = ground arith

  -- After a release for which Redis answers, a lookup of the number answers that nobody has it, if
  -- no other active row has it.
  pub release-lookup :
      (now : ℕ) (redis : Bool) (user_id id : String) (s : Store) (at : ℕ) (row : PhoneNumber)
      → (release_number p true now user_id id s).0 ≡ ok at
      → find_owned id user_id s.numbers ≡ some row
      → find_active row.number (set_releasing now id s.numbers) ≡ none
      → (get_user_by_number p redis row.number (release_number p true now user_id id s).1).0
        ≡ ok none
  unfolding get_user_by_number
  release-lookup now redis user_id id s at row done found last =
      rw (release_number-after now true user_id id s at row done found)
        (ground (arith, eq_refl row.number, cache_get-del row.number row.number s.cache))

  -- If Redis does not answer while a cached number is released, the owner's entry stays, and a
  -- later lookup for which Redis answers still names the old owner.
  pub release_stale :
      (now : ℕ) (user_id id owner : String) (s : Store) (at : ℕ) (row : PhoneNumber)
      → (release_number p false now user_id id s).0 ≡ ok at
      → find_owned id user_id s.numbers ≡ some row
      → cache_get row.number s.cache ≡ some owner
      → truthy owner ≡ true
      → (get_user_by_number p true row.number (release_number p false now user_id id s).1).0
        ≡ ok (some owner)
  unfolding get_user_by_number
  release_stale now user_id id owner s at row done found cached named =
      rw (release_number-after now false user_id id s at row done found) (ground arith)
