-- ===== src/Access/Throttle.antt =====
-- backend/src/common/throttler/redis-throttler-storage.service.ts: the count of a client's requests.
-- Redis keeps a count and the moment at which it expires; a count that has expired is gone.
use callnow.Base.{
  ℕ, Bool, List, Option, String, if◌then◌else◌, eqb, false, none, some, true, ◌<◌, ◌∷◌, ◌≡◌, [],
  arith, ltb, ◌+◌, ◌-◌, ◌==◌, ◌||◌, eq_refl, is_none, length, ◌≤◌, ◌∙◌, ap,
}

pub record Entry : Type 0 where
  pub count : ℕ
  pub expires_at : Option ℕ

pub record ThrottlerRecord : Type 0 where
  pub is_blocked : Bool
  pub time_to_expire : ℕ
  pub time_to_block_expire : ℕ
  pub total_hits : ℕ

abbrev pub Cache : Type 0
Cache = List (String × Entry)

abbrev pub is_live : ℕ → Option ℕ → Bool
is_live now none = true
is_live now (some t) = ltb now t

unfoldable pub find_entry : ℕ → String → Cache → Option Entry
find_entry now key [] = none
find_entry now key ((k, e) ∷ rest) =
    if k == key
    then (if is_live now e.expires_at then some e else none)
    else find_entry now key rest

unfoldable pub set_entry : String → Entry → Cache → Cache
set_entry key e [] = (key, e) ∷ []
set_entry key e ((k, f) ∷ rest) = if k == key then (k, e) ∷ rest else (k, f) ∷ set_entry key e rest

-- `incr`
abbrev pub incremented : Option Entry → Entry
incremented none = record { count = 1; expires_at = none }
incremented (some e) = record e { count = e.count + 1 }

-- `pttl`: the time that is left, `none` for -1
abbrev pub time_left : ℕ → Option ℕ → Option ℕ
time_left now none = none
time_left now (some t) = some (t - now)

-- `if (totalHits === 1 || currentTtl === -1)`
abbrev pub with_expiry : ℕ → ℕ → Entry → Entry
with_expiry now ttl e =
    if eqb e.count 1 || is_none e.expires_at then record e { expires_at = some (now + ttl) } else e

-- `currentTtl > 0 ? currentTtl : ttl`
abbrev pub effective_ttl : Option ℕ → ℕ → ℕ
effective_ttl none ttl = ttl
effective_ttl (some t) ttl = if ltb 0 t then t else ttl

-- `answers` says whether Redis ran the transaction; the limit is not read.
unfoldable pub increment : Bool → ℕ → String → ℕ → ℕ → Cache → ThrottlerRecord × Cache
increment answers now key ttl limit cache =
    let e = incremented (find_entry now key cache) in
    if answers
    then (
      record {
        is_blocked = false;
        time_to_expire = effective_ttl (time_left now e.expires_at) ttl;
        time_to_block_expire = 0;
        total_hits = e.count;
      },
      set_entry key (with_expiry now ttl e) cache,
    )
    else (
      record { is_blocked = false; time_to_expire = ttl; time_to_block_expire = 0; total_hits = 1 },
      cache,
    )

-- the cache after a run of a client's requests at the given moments
unfoldable pub hits : String → ℕ → ℕ → List ℕ → Cache → Cache
hits key ttl limit [] cache = cache
hits key ttl limit (t ∷ ts) cache = hits key ttl limit ts (increment true t key ttl limit cache).1

find_entry-set_entry :
    (now : ℕ) (key : String) (e : Entry) (cache : Cache)
    → find_entry now key (set_entry key e cache)
      ≡ (if is_live now e.expires_at then some e else none)
unfolding find_entry set_entry
find_entry-set_entry now key e [] = ground (arith, eq_refl key)
find_entry-set_entry now key e ((k, f) ∷ rest) = ground (arith, find_entry-set_entry now key e rest)

-- every request of the run comes before a moment
abbrev pub AllBefore : ℕ → List ℕ → Type 0
AllBefore t [] = Unit
AllBefore t (x ∷ xs) = (x < t) × AllBefore t xs

abbrev pub InWindow : String → ℕ → ℕ → Cache → Type 0
InWindow key n until cache =
    (t : ℕ)
    → t < until
    → find_entry t key cache ≡ some (record { count = n; expires_at = some until })

increment-InWindow :
    (key : String) (ttl limit until n t : ℕ) (cache : Cache)
    → 1 ≤ n
    → t < until
    → InWindow key n until cache
    → InWindow key (n + 1) until (increment true t key ttl limit cache).1
unfolding increment
increment-InWindow key ttl limit until n t cache some_hits early there later late =
    let e = incremented (find_entry t key cache) in
    let stored = find_entry-set_entry later key (with_expiry t ttl e) cache in
    let found = there t early in
    let same : with_expiry t ttl e ≡ record { count = n + 1; expires_at = some until } =
      ground (arith, found) in
    stored ∙ ground (arith, same)

hits-InWindow :
    (key : String) (ttl limit until n : ℕ) (ts : List ℕ) (cache : Cache)
    → 1 ≤ n
    → AllBefore until ts
    → InWindow key n until cache
    → InWindow key (n + length ts) until (hits key ttl limit ts cache)
unfolding hits
hits-InWindow key ttl limit until n [] cache some_hits before there t early =
    there t early ∙ ap (λ m. some (record { count = m; expires_at = some until })) (omega arith)
hits-InWindow key ttl limit until n (x ∷ ts) cache some_hits before there t early =
    hits-InWindow key ttl limit until (n + 1) ts (increment true x key ttl limit cache).1
      (omega arith) before.1
      (increment-InWindow key ttl limit until n x cache some_hits before.0 there) t early
    ∙ ap (λ m. some (record { count = m; expires_at = some until })) (omega arith)

-- The requests of a client within the window of the first are all counted, and none of them is ever
-- reported as blocked, however many more than the limit they are.
pub increment-never_blocked :
    (key : String) (ttl limit first now : ℕ) (ts : List ℕ) (cache : Cache)
    → find_entry first key cache ≡ none
    → AllBefore (first + ttl) ts
    → now < first + ttl
    → let last = (increment true now key ttl limit (hits key ttl limit (first ∷ ts) cache)).0 in
      (last.total_hits ≡ length ts + 2) × (last.is_blocked ≡ false)
unfolding hits increment
increment-never_blocked key ttl limit first now ts cache fresh before here =
    let begun : InWindow key 1 (first + ttl) (increment true first key ttl limit cache).1 =
      λ t early.
        find_entry-set_entry t key
          (with_expiry first ttl (incremented (find_entry first key cache))) cache
        ∙ ground (arith, fresh) in
    let counted =
      hits-InWindow key ttl limit (first + ttl) 1 ts (increment true first key ttl limit cache).1
        (omega arith) before begun now here in
    (ground (arith, counted), ground arith)
