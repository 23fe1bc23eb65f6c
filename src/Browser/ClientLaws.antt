-- ===== src/Browser/ClientLaws.antt =====
-- Requests that the server refuses while a session is renewed (frontend/src/lib/api.ts), and the
-- session after a login (frontend/src/store/authStore.ts).
use Prim.Native.Nat.{ℕ, suc}
use callnow.Base.{
  List, ℕ, length, ◌+◌, ◌≡◌, Option, if◌then◌else◌, some, ◌++◌, ◌∷◌, [], arith, false, suc,
  Option-cases, refl, true, inl, none, inr, zero, Bool, String, map_option, eqb,
}
use callnow.Browser.Client.{
  Client, on_error, settle_all, take_waiting, ApiRequest, ClientEvent, Effect, emit, reject,
  send_again, fails, post_refresh, refresh_answered, go_to_login, after_refresh, happen, happen_all,
  initial_client, answer_refresh, log_in, set_auth, AuthState, is_authenticated,
}
use callnow.Browser.{Json, field_of, object, field, boolean, str, no_fields, undefined}

-- how often the requests with an id are answered, fail, and are in a list
unfoldable pub answers_to : ℕ → List Effect → ℕ
answers_to i [] = 0
answers_to i (send_again j ∷ es) = (if eqb j i then 1 else 0) + answers_to i es
answers_to i (reject j ∷ es) = (if eqb j i then 1 else 0) + answers_to i es
answers_to i (post_refresh j ∷ es) = answers_to i es
answers_to i (go_to_login ∷ es) = answers_to i es

unfoldable pub failures_of : ℕ → List ClientEvent → ℕ
failures_of i [] = 0
failures_of i (fails status r ∷ es) = (if eqb r.id i then 1 else 0) + failures_of i es
failures_of i (refresh_answered n succeeds ∷ es) = failures_of i es

unfoldable pub waiting_for : ℕ → List ApiRequest → ℕ
waiting_for i [] = 0
waiting_for i (r ∷ rs) = (if eqb r.id i then 1 else 0) + waiting_for i rs

-- One refresh is under way, or none; and while there is none, no request waits.
abbrev pub IsOrderly : Client → Type 0
IsOrderly c =
    (length c.refreshing ≡ (if c.is_refreshing then 1 else 0))
    × (c.is_refreshing ≡ false → length c.failed_queue ≡ 0)

length-append : (xs : List ApiRequest) (y : ApiRequest) → length (xs ++ (y ∷ [])) ≡ length xs + 1
length-append [] y = refl
length-append (x ∷ xs) y = omega (arith, length-append xs y)

take_waiting-length :
    (n : ℕ) (rs others : List ApiRequest) (r : ApiRequest)
    → take_waiting n rs ≡ some (r, others)
    → length rs ≡ length others + 1
unfolding take_waiting
take_waiting-length n [] others r found = ground arith
take_waiting-length zero (x ∷ rs) others r found = ground arith
take_waiting-length (suc n) (x ∷ rs) others r found = elim (Option-cases (take_waiting n rs)) [
  | inl nothing ↦ ground arith
  | inr ((y, ys), there) ↦
      let shorter = take_waiting-length n rs ys y there in ground (arith, shorter)
]

-- the requests with an id
module _ (i : ℕ) where
  -- those that failed and have been answered, or are not yet
  unfoldable pub accounted : Client → ℕ
  accounted c = answers_to i c.effects + waiting_for i c.failed_queue + waiting_for i c.refreshing

  answers_to-append :
      (es fs : List Effect) → answers_to i (es ++ fs) ≡ answers_to i es + answers_to i fs
  unfolding answers_to
  answers_to-append [] fs = omega arith
  answers_to-append (send_again j ∷ es) fs = omega (arith, answers_to-append es fs)
  answers_to-append (reject j ∷ es) fs = omega (arith, answers_to-append es fs)
  answers_to-append (post_refresh j ∷ es) fs = answers_to-append es fs
  answers_to-append (go_to_login ∷ es) fs = answers_to-append es fs

  waiting_for-append :
      (rs : List ApiRequest) (r : ApiRequest)
      → waiting_for i (rs ++ (r ∷ [])) ≡ waiting_for i rs + (if eqb r.id i then 1 else 0)
  unfolding waiting_for
  waiting_for-append [] r = omega arith
  waiting_for-append (x ∷ rs) r = omega (arith, waiting_for-append rs r)

  answers_to-sent :
      (rs : List ApiRequest) → answers_to i (settle_all send_again rs) ≡ waiting_for i rs
  unfolding answers_to settle_all waiting_for
  answers_to-sent [] = refl
  answers_to-sent (r ∷ rs) = omega (arith, answers_to-sent rs)

  answers_to-rejected :
      (rs : List ApiRequest) → answers_to i (settle_all reject rs) ≡ waiting_for i rs
  unfolding answers_to settle_all waiting_for
  answers_to-rejected [] = refl
  answers_to-rejected (r ∷ rs) = omega (arith, answers_to-rejected rs)

  take_waiting-waiting_for :
      (n : ℕ) (rs others : List ApiRequest) (r : ApiRequest)
      → take_waiting n rs ≡ some (r, others)
      → waiting_for i rs ≡ waiting_for i others + (if eqb r.id i then 1 else 0)
  unfolding take_waiting waiting_for
  take_waiting-waiting_for n [] others r found = ground arith
  take_waiting-waiting_for zero (x ∷ rs) others r found = ground arith
  take_waiting-waiting_for (suc n) (x ∷ rs) others r found =
      elim (Option-cases (take_waiting n rs)) [
        | inl nothing ↦ ground arith
        | inr ((y, ys), there) ↦
            let fewer = take_waiting-waiting_for n rs ys y there in ground (arith, fewer)
      ]

  Kept : ℕ → Client → Client → Type 0
  Kept n c d = IsOrderly d × (accounted d ≡ accounted c + n)

  on_error-Kept :
      (status : Option ℕ) (r : ApiRequest) (c : Client)
      → IsOrderly c
      → Kept (if eqb r.id i then 1 else 0) c (on_error status r c)
  unfolding on_error emit accounted answers_to waiting_for Kept
  on_error-Kept none r c orderly =
      (orderly, omega (arith, answers_to-append c.effects (reject r.id ∷ [])))
  on_error-Kept (some status) r c orderly =
      let again = record r { retry = true } in
      let rejected = answers_to-append c.effects (reject r.id ∷ []) in
      let posted = answers_to-append c.effects (post_refresh r.id ∷ []) in
      let longer = waiting_for-append c.failed_queue r in
      let begun = waiting_for-append c.refreshing again in
      let one_more = length-append c.refreshing again in
      (
        (ground (arith, one_more, orderly.0), λ idle. ground (arith, orderly.1, idle)),
        ground (arith, rejected, posted, longer, begun),
      )

  after_refresh-Kept :
      (succeeds : Bool) (r : ApiRequest) (others : List ApiRequest) (c : Client)
      → length c.refreshing ≡ length others + 1
      → waiting_for i c.refreshing ≡ waiting_for i others + (if eqb r.id i then 1 else 0)
      → IsOrderly c
      → Kept 0 c (after_refresh succeeds r (record c { refreshing = others }))
  unfolding after_refresh emit accounted answers_to waiting_for Kept
  after_refresh-Kept true r others c shorter fewer orderly =
      let sent =
        answers_to-append c.effects (send_again r.id ∷ settle_all send_again c.failed_queue) in
      (
        (ground (arith, shorter, orderly.0), λ idle. refl),
        omega (arith, sent, answers_to-sent c.failed_queue, fewer),
      )
  after_refresh-Kept false r others c shorter fewer orderly =
      let last = go_to_login ∷ reject r.id ∷ [] in
      let sent = answers_to-append c.effects (settle_all reject c.failed_queue ++ last) in
      (
        (ground (arith, shorter, orderly.0), λ idle. refl),
        omega (
          arith,
          sent,
          answers_to-append (settle_all reject c.failed_queue) last,
          answers_to-rejected c.failed_queue,
          fewer,
        ),
      )

  answer_refresh-Kept :
      (n : ℕ) (succeeds : Bool) (c : Client) (taken : Option (ApiRequest × List ApiRequest))
      → take_waiting n c.refreshing ≡ taken
      → IsOrderly c
      → Kept 0 c (answer_refresh succeeds taken c)
  unfolding Kept
  answer_refresh-Kept n succeeds c none nobody orderly = (orderly, omega arith)
  answer_refresh-Kept n succeeds c (some (r, others)) there orderly =
      after_refresh-Kept succeeds r others c (take_waiting-length n c.refreshing others r there)
        (take_waiting-waiting_for n c.refreshing others r there) orderly

  happen_all-Kept :
      (es : List ClientEvent) (c : Client)
      → IsOrderly c
      → Kept (failures_of i es) c (happen_all es c)
  unfolding happen_all happen failures_of Kept
  happen_all-Kept [] c orderly = (orderly, omega arith)
  happen_all-Kept (fails status r ∷ es) c orderly =
      let first = on_error-Kept status r c orderly in
      let later = happen_all-Kept es (on_error status r c) first.0 in
      (later.0, omega (arith, first.1, later.1))
  happen_all-Kept (refresh_answered n succeeds ∷ es) c orderly =
      let first = answer_refresh-Kept n succeeds c (take_waiting n c.refreshing) refl orderly in
      let later = happen_all-Kept es (happen (refresh_answered n succeeds) c) first.0 in
      (later.0, omega (arith, first.1, later.1))

-- Whatever fails and in whatever order, at most one refresh is under way, and a request waits only
-- while one is. Each request is answered, sent again or rejected, once for each time that it failed,
-- but for those that wait and the one that asked for the refresh: for every id, its answers, and
-- those of its failures that are not yet answered, are as many as its failures.
pub happen_all-accounts :
    (i : ℕ) (es : List ClientEvent)
    → let c = happen_all es initial_client in
      IsOrderly c
      × (answers_to i c.effects + waiting_for i c.failed_queue + waiting_for i c.refreshing
          ≡ failures_of i es)
unfolding Kept accounted answers_to failures_of waiting_for
happen_all-accounts i es =
    let kept = happen_all-Kept i es initial_client (refl, λ idle. refl) in
    (kept.0, omega (arith, kept.1))

-- the answer of a login that needs the second factor
abbrev pub two_factor_answer : String → Json
two_factor_answer login_token =
    object (field "requires2fa" (boolean true) (field "loginToken" (str login_token) no_fields))

-- A login that the server answers with a token for the second factor ends the session that there
-- was, leaves the browser with no user and not authenticated, and keeps nothing of the token: two
-- such answers leave the same session.
pub log_in-two_factor :
    (login_token other : String) (s : AuthState)
    → (map_option is_authenticated (log_in (two_factor_answer login_token) s) ≡ some false)
      × (map_option (λ t. t.user) (log_in (two_factor_answer login_token) s) ≡ some undefined)
      × (log_in (two_factor_answer login_token) s ≡ log_in (two_factor_answer other) s)
unfolding log_in set_auth field_of
log_in-two_factor login_token other s = (refl, refl, refl)
