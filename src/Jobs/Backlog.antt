-- ===== src/Jobs/Backlog.antt =====
-- What one run, and many, of the job for scheduled messages leave to do.
use callnow.Base.{
  zero, ℕ, List, String, count_where, Bool, find_many, length, exists_where, ◌≡◌, false, min, suc,
  ◌==◌, All, Distinct, update_where, ◌&&◌, true, ◌∷◌, arith, is_some, ◌+◌, Bool-cases, [], eq_iff,
  inl, refl, inr, Option, Option-cases, some, ◌∙◌, none, ◌-◌, ◌*◌, Distinct-update_where,
  length-insert_row,
}
use callnow.Messaging.{Message, Store, Carrier}
use callnow.Jobs.Scheduled.{
  is_due, run, conversation_of, send_all, set_settled, settle, to_send, send_pending,
}

module _ {A : Type 0} (key : A → String) (p : A → Bool) (f : A → A) where
  exists-weaken :
      (k : String) (xs : List A)
      → exists_where (λ y. key y == k && p y) xs ≡ true
      → exists_where (λ y. key y == k) xs ≡ true
  exists-weaken k [] h = h
  exists-weaken k (x ∷ xs) h = ground (arith, exists-weaken k xs)

  count_where-absent :
      (k : String) (xs : List A)
      → exists_where (λ y. key y == k) xs ≡ false
      → count_where p (update_where (λ y. key y == k) f xs) ≡ count_where p xs
  count_where-absent k [] h = refl
  count_where-absent k (x ∷ xs) h = ground (arith, count_where-absent k xs)

  -- An update of the one row with a key, which takes a property from it, lowers the count by one.
  count_where-update_one :
      (k : String) (xs : List A)
      → ((x : A) → p (f x) ≡ false)
      → Distinct key xs
      → exists_where (λ y. key y == k && p y) xs ≡ true
      → count_where p (update_where (λ y. key y == k) f xs) + 1 ≡ count_where p xs
  count_where-update_one k [] off d h = absurd (ground arith)
  count_where-update_one k (x ∷ xs) off d h = elim (Bool-cases (key x == k)) [
    | inl hit ↦
        let same : key x ≡ k = ground (arith, eq_iff (key x) k) in
        let absent : exists_where (λ y. key y == k) xs ≡ false = rw same at d.0 in
        elim (Bool-cases (p x)) [
          | inl on ↦ ground (arith, off x, count_where-absent k xs absent)
          | inr not_on ↦ absurd (ground (arith, exists-weaken k xs))
        ]
    | inr miss ↦ ground (arith, count_where-update_one k xs off d.1)
  ]

  exists-update_other :
      (j k : String) (xs : List A)
      → ((x : A) → key (f x) ≡ key x)
      → (j == k) ≡ false
      → exists_where (λ y. key y == j && p y) (update_where (λ y. key y == k) f xs)
        ≡ exists_where (λ y. key y == j && p y) xs
  exists-update_other j k [] same apart = refl
  exists-update_other j k (x ∷ xs) same apart =
      ground (arith, same x, eq_iff (key x) j, eq_iff (key x) k, exists-update_other j k xs same)

abbrev pub count_due : ℕ → Store → ℕ
count_due now s = count_where (is_due now) s.messages

-- What the query may answer: `min 100` of the rows that are due, each once, with its conversation.
pub record IsAnswer (now : ℕ) (s : Store) (ms : List Message) : Type 0 where
  pub limit : length ms ≡ min 100 (count_due now s)
  pub due : All (λ m. exists_where (λ y. y.id == m.id && is_due now y) s.messages ≡ true) ms
  pub once : Distinct (λ m. m.id) ms
  pub linked : All (λ m. is_some (conversation_of m s.conversations) ≡ true) ms

-- some number of runs, each with what the query answers it
pub data Runs (carrier : Carrier) (now : ℕ) : ℕ → Store → Store → Type 0 where
  stop : {s : Store} → Runs carrier now 0 s s
  then_run :
      {n : ℕ} {s s' : Store} (pick : List Message → List Message)
      → IsAnswer now s (pick (find_many (is_due now) s.messages))
      → Runs carrier now n (run carrier now pick s) s'
      → Runs carrier now (suc n) s s'

settle-due : (now : ℕ) (sid : Option String) (m : Message) → is_due now (settle sid m) ≡ false
unfolding is_due settle
settle-due now none m = elim (Option-cases m.scheduled_at) [
  | inl a ↦ ground arith
  | inr (t, b) ↦ ground arith
]
settle-due now (some sid) m = elim (Option-cases m.scheduled_at) [
  | inl a ↦ ground arith
  | inr (t, b) ↦ ground arith
]

settle-id : (sid : Option String) (m : Message) → (settle sid m).id ≡ m.id
unfolding settle
settle-id none m = refl
settle-id (some sid) m = refl

-- the rows that the query answered and that are left to send, once one of them is sent
later_due :
    (now : ℕ) (sid : Option String) (k : String) (rows ms : List Message)
    → exists_where (λ m. m.id == k) ms ≡ false
    → All (λ m. exists_where (λ y. y.id == m.id && is_due now y) rows ≡ true) ms
    → All (λ m. exists_where (λ y. y.id == m.id && is_due now y) (set_settled sid k rows) ≡ true) ms
unfolding set_settled
later_due now sid k rows [] apart due = tt
later_due now sid k rows (m ∷ ms) apart due = (
  exists-update_other (λ y. y.id) (is_due now) (settle sid) m.id k rows (settle-id sid)
        (ground arith)
      ∙ due.0,
  later_due now sid k rows ms (ground arith) due.1,
)

module _ (carrier : Carrier) (now : ℕ) where
  send_all-count_due :
      (ms : List Message) (s : Store)
      → Distinct (λ m. m.id) s.messages
      → All (λ m. exists_where (λ y. y.id == m.id && is_due now y) s.messages ≡ true) ms
      → Distinct (λ m. m.id) ms
      → All (λ m. is_some (conversation_of m s.conversations) ≡ true) ms
      → let after = send_all carrier ms s in
        (count_due now after + length ms ≡ count_due now s)
        × (length after.outbox ≡ length s.outbox + length ms)
        × Distinct (λ m. m.id) after.messages
  unfolding send_all set_settled
  send_all-count_due [] s keys due once linked = (omega arith, omega arith, keys)
  send_all-count_due (m ∷ ms) s keys due once linked =
      elim (Option-cases (conversation_of m s.conversations)) [
        | inl absent ↦ absurd (ground (arith, linked.0))
        | inr (c, found) ↦
            let sid = carrier.send_message (to_send c m) in
            let by_key = λ (y : Message). y.id == m.id in
            let fewer =
              count_where-update_one (λ y. y.id) (is_due now) (settle sid) m.id s.messages
                (settle-due now sid) keys due.0 in
            let rest =
              send_all-count_due ms (send_pending carrier m (some c) s)
                (Distinct-update_where (λ y. y.id) by_key (settle sid) s.messages (settle-id sid)
                  keys)
                (later_due now sid m.id s.messages ms once.0 due.1) once.1 linked.1 in
            let written = length-insert_row s.outbox (to_send c m) in
            rw (found, send_all)
              (omega (arith, fewer, rest.0), omega (arith, written, rest.1), rest.2)
      ]

-- After any number of runs of the job at one time, the backlog of due messages is smaller by a
-- hundred for each run, or empty; and the provider was asked to send once for each message that
-- left it, whether or not it failed.
pub runs-drained :
    (carrier : Carrier) (now n : ℕ) (s s' : Store)
    → Distinct (λ m. m.id) s.messages
    → Runs carrier now n s s'
    → (count_due now s' ≡ count_due now s - 100 * n)
      × (length s'.outbox + count_due now s' ≡ length s.outbox + count_due now s)
unfolding run
runs-drained carrier now zero s s' keys (stop) = (omega arith, refl)
runs-drained carrier now (suc n) s s' keys (then_run pick answer runs) =
    let ms = pick (find_many (is_due now) s.messages) in
    let one = send_all-count_due carrier now ms s keys answer.due answer.once answer.linked in
    let more = runs-drained carrier now n (run carrier now pick s) s' one.2 runs in
    (omega (arith, one.0, answer.limit, more.0), omega (arith, one.0, one.1, more.1))
