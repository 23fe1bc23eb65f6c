-- ===== src/Messaging/Laws.antt =====
-- backend/src/messaging/messaging.service.ts: what sending asks for, what it writes, and what the
-- quota counts.
use callnow.Base.{
  ℕ, List, String, Option, Bool, is_some, some, ◌≡◌, none, ok, true, Option-cases, insert_row,
  length, if◌then◌else◌, inl, ◌++◌, ◌≤◌, Bool-cases, [], arith, ◌∷◌, false, inr, ltb, ◌+◌, ap, sym,
  eq_refl, refl, suc, ◌∙◌, append_nil, insert_row-append, Result-cases,
}
use callnow.Messaging.{Store, Message, SendMessage, Carrier, find_conversation}
use callnow.Messaging.Service.{
  send_message, send_group_message, send_each, over_quota, outgoing, count_of, increment,
}
use callnow.Numbers.{find_own_active}

-- Who sends a message, now or later, owns the active from-number and has sent fewer than 2000
-- messages by the counter, when Redis answers; one message row is added, and the rows before stay.
pub send_message-guard :
    (carrier : Carrier) (redis : Bool) (now : ℕ) (cid mid user_id : String) (dto : SendMessage)
    (s : Store) (m : Message)
    → (send_message carrier redis now cid mid user_id dto s).0 ≡ ok m
    → (is_some (find_own_active dto.from_number user_id s.numbers.numbers) ≡ true)
      × (over_quota (if redis then count_of user_id s.counts else none) ≡ false)
      × ((send_message carrier redis now cid mid user_id dto s).1.messages
          ≡ insert_row m s.messages)
unfolding send_message
send_message-guard carrier redis now cid mid user_id dto s m e =
    elim (Option-cases dto.scheduled_at) [
      | inl at_once ↦ (ground arith, ground arith, ground arith)
      | inr (at, later) ↦ (ground arith, ground arith, ground arith)
    ]

abbrev pub counted_so_far : Option ℕ → ℕ
counted_so_far none = 0
counted_so_far (some n) = n

count_of-increment :
    (user_id : String) (counts : List (String × ℕ))
    → count_of user_id (increment user_id counts)
      ≡ some (counted_so_far (count_of user_id counts) + 1)
unfolding count_of increment
count_of-increment user_id [] = ground (arith, eq_refl user_id)
count_of-increment user_id ((k, n) ∷ counts) = ground (arith, count_of-increment user_id counts)

-- A message that is sent at once reaches the provider once and counts once against the quota.
pub send_message-counted :
    (carrier : Carrier) (now : ℕ) (cid mid user_id : String) (dto : SendMessage) (s : Store)
    (m : Message)
    → dto.scheduled_at ≡ none
    → (send_message carrier true now cid mid user_id dto s).0 ≡ ok m
    → let after = (send_message carrier true now cid mid user_id dto s).1 in
      (after.outbox ≡ insert_row (outgoing carrier true dto) s.outbox)
      × (count_of user_id after.counts ≡ some (counted_so_far (count_of user_id s.counts) + 1))
unfolding send_message
send_message-counted carrier now cid mid user_id dto s m at_once e =
    let counted = count_of-increment user_id s.counts in
    elim (Option-cases (find_conversation user_id dto.from_number dto.to_number s.conversations)) [
      | inl new ↦ (ground arith, ground (arith, counted))
      | inr (c, found) ↦ (ground arith, ground (arith, counted))
    ]

-- A scheduled message is stored and neither sent nor counted: no call of the service ever counts it.
pub send_message-scheduled :
    (carrier : Carrier) (redis : Bool) (now : ℕ) (cid mid user_id : String) (dto : SendMessage)
    (s : Store)
    → is_some dto.scheduled_at ≡ true
    → let after = (send_message carrier redis now cid mid user_id dto s).1 in
      (after.outbox ≡ s.outbox) × (after.counts ≡ s.counts)
unfolding send_message
send_message-scheduled carrier redis now cid mid user_id dto s scheduled =
    elim (Option-cases dto.scheduled_at) [
      | inl at_once ↦ absurd (ground arith)
      | inr (at, later) ↦ (ground arith, ground arith)
    ]

send_each-length :
    (carrier : Carrier) (redis : Bool) (now : ℕ) (user_id : String) (dto : SendMessage)
    (recipients : List (String × String × String)) (s : Store) (ms : List Message)
    → (send_each carrier redis now user_id dto recipients s).0 ≡ ok ms
    → (length ms ≡ length recipients)
      × ((send_each carrier redis now user_id dto recipients s).1.messages ≡ s.messages ++ ms)
unfolding send_each
send_each-length carrier redis now user_id dto [] s ms e =
    let none_made : [] ≡ ms = ground arith in rw (sym none_made) (refl, sym (append_nil s.messages))
send_each-length carrier redis now user_id dto ((to, cid, mid) ∷ rest) s ms e =
    let first = send_message carrier redis now cid mid user_id (record dto { to_number = to }) s in
    let step = send_each carrier redis now user_id dto rest in
    elim (Result-cases first.0) [
      | inl refused ↦ absurd (ground arith)
      | inr (m, made) ↦ elim (Result-cases (step first.1).0) [
        | inl refused ↦ absurd (ground arith)
        | inr (more, made_more) ↦
            let whole : m ∷ more ≡ ms = ground arith in
            let guarded =
              send_message-guard carrier redis now cid mid user_id (record dto { to_number = to }) s
                m made in
            let others =
              send_each-length carrier redis now user_id dto rest first.1 more made_more in
            let written : (send_each carrier redis now user_id dto ((to, cid, mid) ∷ rest)
                  s).1.messages
                ≡ insert_row m s.messages ++ more =
              ground (arith, guarded, others) in
            rw (sym whole) (ap suc others.0, written ∙ insert_row-append s.messages m more)
      ]
    ]

-- A group message that succeeds has at most ten recipients, and adds one message for each.
pub send_group_message-length :
    (carrier : Carrier) (redis : Bool) (now : ℕ) (user_id : String) (dto : SendMessage)
    (recipients : List (String × String × String)) (s : Store) (ms : List Message)
    → (send_group_message carrier redis now user_id dto (some recipients) s).0 ≡ ok ms
    → (length recipients ≤ 10)
      × (length ms ≡ length recipients)
      × ((send_group_message carrier redis now user_id dto (some recipients) s).1.messages
          ≡ s.messages ++ ms)
unfolding send_group_message
send_group_message-length carrier redis now user_id dto recipients s ms e =
    elim (Bool-cases (ltb 10 (length recipients))) [
      | inl many ↦ absurd (ground arith)
      | inr few ↦
          let each =
            send_each-length carrier redis now user_id dto recipients s ms (ground arith) in
          (ground arith, each.0, ground (arith, each))
    ]
