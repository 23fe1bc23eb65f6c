-- ===== src/Billing/Usage.antt =====
-- backend/src/billing: the counters of a month, the limits of a plan, and the change of plan.
use callnow.Base.{
  ℕ, List, String, Option, some, suc, none, zero, ◌≡◌, insert_row, ◌+◌, Option-cases,
  find_first-append_none, find_first-update_where, inl, ◌==◌, inr, ◌&&◌, eqb, ◌∙◌, arith, eq_refl,
  refl, is_ok, not, ltb, leb, map_option, find_first, ok, find_first-holds,
}
use callnow.Plans.{Plan, plan_of, find_subscription, Subscription, SubscriptionStatus, find_plan}
use callnow.Billing.{
  Store, Period, Resource, UsageRecord, increment, check_limit, upgrade_plan, find_usage, Counter,
  bump, new_record, add_one, sms_sent, sms_received, numbers_held, find_subscription, subscribe,
  Subscription, SubscriptionStatus, find_plan, month,
}

abbrev pub sent_in : Option UsageRecord → ℕ
sent_in none = 0
sent_in (some r) = r.sms_sent

find_usage-bump :
    (counter : Counter) (user_id : String) (start : ℕ) (rows : List UsageRecord) (r : UsageRecord)
    → find_usage user_id start rows ≡ some r
    → find_usage user_id start (bump counter r.id rows) ≡ some (add_one counter r)
unfolding find_usage bump
find_usage-bump sms_sent user_id start rows r found =
    find_first-update_where (λ x. x.user_id == user_id && eqb x.period_start start)
      (λ x. x.id == r.id) (add_one sms_sent) rows r (λ x. refl) found
    ∙ rw (eq_refl r.id) refl
find_usage-bump sms_received user_id start rows r found =
    find_first-update_where (λ x. x.user_id == user_id && eqb x.period_start start)
      (λ x. x.id == r.id) (add_one sms_received) rows r (λ x. refl) found
    ∙ rw (eq_refl r.id) refl
find_usage-bump numbers_held user_id start rows r found =
    find_first-update_where (λ x. x.user_id == user_id && eqb x.period_start start)
      (λ x. x.id == r.id) (add_one numbers_held) rows r (λ x. refl) found
    ∙ rw (eq_refl r.id) refl

find_usage-new_record :
    (p : Period) (user_id : String) (rows : List UsageRecord)
    → find_usage user_id p.start rows ≡ none
    → find_usage user_id p.start (insert_row (new_record p user_id) rows)
      ≡ some (new_record p user_id)
unfolding find_usage new_record
find_usage-new_record p user_id rows absent =
    find_first-append_none (λ x. x.user_id == user_id && eqb x.period_start p.start) rows
      (new_record p user_id) absent
    ∙ ground (arith, eq_refl user_id)

-- the plan is looked up after the count and changes nothing more
increment-found :
    (p : Period) (user_id : String) (s : Store) (r : UsageRecord)
    → find_usage user_id p.start s.usage ≡ some r
    → (increment p user_id Counter.sms_sent s).1
      ≡ record s { usage = bump Counter.sms_sent r.id s.usage }
unfolding increment
increment-found p user_id s r found =
    let counted = find_usage-bump Counter.sms_sent user_id p.start s.usage r found in
    elim (Option-cases (plan_of user_id s.subscriptions s.plans)) [
      | inl unplanned ↦ ground arith
      | inr (plan, planned) ↦ ground (arith, counted)
    ]

increment-new :
    (p : Period) (user_id : String) (s : Store)
    → find_usage user_id p.start s.usage ≡ none
    → (increment p user_id Counter.sms_sent s).1 ≡ record s {
      usage = bump Counter.sms_sent p.row_id (insert_row (new_record p user_id) s.usage);
    }
unfolding increment new_record
increment-new p user_id s absent =
    let r = new_record p user_id in
    let counted =
      find_usage-bump Counter.sms_sent user_id p.start (insert_row r s.usage) r
        (find_usage-new_record p user_id s.usage absent) in
    elim (Option-cases (plan_of user_id s.subscriptions s.plans)) [
      | inl unplanned ↦ ground arith
      | inr (plan, planned) ↦ ground (arith, counted)
    ]

-- what one increment does to the count of the month, and what it leaves alone
increment-sent_in :
    (p : Period) (user_id : String) (s : Store)
    → let after = (increment p user_id Counter.sms_sent s).1 in
      (sent_in (find_usage user_id p.start after.usage)
        ≡ sent_in (find_usage user_id p.start s.usage) + 1)
      × (plan_of user_id after.subscriptions after.plans ≡ plan_of user_id s.subscriptions s.plans)
unfolding new_record
increment-sent_in p user_id s = elim (Option-cases (find_usage user_id p.start s.usage)) [
  | inl absent ↦
      let r = new_record p user_id in
      let counted =
        find_usage-bump Counter.sms_sent user_id p.start (insert_row r s.usage) r
          (find_usage-new_record p user_id s.usage absent) in
      rw (increment-new p user_id s absent, counted, absent) (refl, refl)
  | inr (r, found) ↦
      rw
        (
          increment-found p user_id s r found,
          find_usage-bump Counter.sms_sent user_id p.start s.usage r found,
          found,
        )
        (refl, refl)
]

-- messages counted one after the other
unfoldable pub sends : Period → String → ℕ → Store → Store
sends p user_id zero s = s
sends p user_id (suc n) s = (increment p user_id Counter.sms_sent (sends p user_id n s)).1

sends-sent_in :
    (p : Period) (user_id : String) (n : ℕ) (s : Store)
    → let after = sends p user_id n s in
      (sent_in (find_usage user_id p.start after.usage)
        ≡ sent_in (find_usage user_id p.start s.usage) + n)
      × (plan_of user_id after.subscriptions after.plans ≡ plan_of user_id s.subscriptions s.plans)
unfolding sends
sends-sent_in p user_id zero s = (omega arith, refl)
sends-sent_in p user_id (suc n) s =
    let before = sends-sent_in p user_id n s in
    let last = increment-sent_in p user_id (sends p user_id n s) in
    (omega (arith, before.0, last.0), last.1 ∙ before.1)

check_limit-sent_in :
    (p : Period) (user_id : String) (s : Store) (plan : Plan)
    → plan_of user_id s.subscriptions s.plans ≡ some plan
    → is_ok (check_limit p user_id Resource.sms s).0
      ≡ not (
          ltb 0 plan.included_sms
          && leb plan.included_sms (sent_in (find_usage user_id p.start s.usage)))
unfolding check_limit new_record
check_limit-sent_in p user_id s plan planned =
    elim (Option-cases (find_usage user_id p.start s.usage)) [
      | inl absent ↦ ground arith
      | inr (r, found) ↦ ground arith
    ]

-- After a run of messages of one month, the next is refused exactly when the plan includes a number
-- of messages, and the messages counted before the run and in it have reached that number.
pub check_limit-sends :
    (p : Period) (user_id : String) (n : ℕ) (s : Store) (plan : Plan)
    → plan_of user_id s.subscriptions s.plans ≡ some plan
    → is_ok (check_limit p user_id Resource.sms (sends p user_id n s)).0
      ≡ not (
          ltb 0 plan.included_sms
          && leb plan.included_sms (sent_in (find_usage user_id p.start s.usage) + n))
check_limit-sends p user_id n s plan planned =
    let run = sends-sent_in p user_id n s in
    rw run.0 at (check_limit-sent_in p user_id (sends p user_id n s) plan (run.1 ∙ planned))

find_subscription-subscribe :
    (now : ℕ) (user_id plan_id : String) (rows : List Subscription)
    → map_option (λ b. b.plan_id) (find_subscription user_id (subscribe now user_id plan_id rows))
      ≡ some plan_id
unfolding find_subscription subscribe
find_subscription-subscribe now user_id plan_id rows =
    elim (Option-cases (find_first (λ b. b.user_id == user_id) rows)) [
      | inl absent ↦
          let fresh : Subscription = record {
            user_id = user_id;
            plan_id = plan_id;
            stripe_subscription_id = none;
            status = SubscriptionStatus.active;
            period_start = some now;
            period_end = some (now + month);
            canceled_at = none;
          } in
          ground (
            arith,
            eq_refl user_id,
            find_first-append_none (λ b. b.user_id == user_id) rows fresh absent,
          )
      | inr (b, found) ↦
          let renew : Subscription → Subscription = λ b. record b {
            plan_id = plan_id;
            status = SubscriptionStatus.active;
            period_start = some now;
            period_end = some (now + month);
          } in
          ground (
            arith,
            find_first-holds (λ b. b.user_id == user_id) rows b found,
            find_first-update_where (λ b. b.user_id == user_id) (λ b. b.user_id == user_id) renew
                rows b (λ b. refl) found,
          )
    ]

-- After a change of plan that is answered, the user's plan is the one that was asked for.
pub upgrade_plan-plan_of :
    (now : ℕ) (user_id plan_id : String) (s : Store) (plan : Plan)
    → (upgrade_plan now user_id plan_id s).0 ≡ ok plan
    → let after = (upgrade_plan now user_id plan_id s).1 in
      plan_of user_id after.subscriptions after.plans ≡ some plan
unfolding upgrade_plan plan_of
upgrade_plan-plan_of now user_id plan_id s plan e =
    let named = find_subscription-subscribe now user_id plan_id s.subscriptions in
    elim (Option-cases (find_plan plan_id s.plans)) [
      | inl missing ↦ absurd (ground arith)
      | inr (p, found) ↦
          elim (Option-cases
            (find_subscription user_id (subscribe now user_id plan_id s.subscriptions))) [
              | inl none_there ↦ absurd (ground arith)
              | inr (b, there) ↦ ground arith
            ]
    ]
