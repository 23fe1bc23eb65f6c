-- ===== src/Billing/StripeLaws.antt =====
-- What the webhook for Stripe lets through, and whom an event is taken to be about.
use callnow.Base.{
  ℕ, String, Option, List, ◌≡◌, some, true, err, insert_row, none, bad_request, is_some, ◌∷◌, arith,
  forbidden, ◌+◌, map_option, truthy, ok, find_first-update_where, find_first-append_none,
  find_first-holds, eq_refl, find_first-exists, refl, inl, inr, Option-cases, Result-cases, Result,
  if◌then◌else◌, Bool, ◌&&◌,
}
use callnow.Billing.Stripe.{
  handle_checkout_completed, handle_invoice_paid, handle_stripe_webhook,
  handle_subscription_deleted, EventObject, StripeRequest, find_customer, StripeEvent, null,
  paid_invoice, free_plan, pro_plan, cancel, dispatch, activated, of_user, activate,
  new_subscription,
}
use callnow.Billing.Account.{Ledger}
use callnow.Plans.{Subscription, find_subscription, SubscriptionStatus, find_plan}
use callnow.Billing.{month}

-- the event that the Stripe library vouches for, under a secret that is set
abbrev pub genuine_event :
    (StripeRequest → String → String → Option StripeEvent)
    → String
    → StripeRequest
    → Option StripeEvent
genuine_event construct_event secret r = elim r.signature [
  | none ↦ none
  | some signature ↦
      if truthy secret && truthy signature then construct_event r signature secret else none
]

-- the answer in production and the tables after it
abbrev pub webhook_outcome : ℕ → String → Ledger → Option StripeEvent → Result Bool × Ledger
webhook_outcome now id s none = (err (bad_request forbidden), s)
webhook_outcome now id s (some e) = (ok true, (dispatch now id e s).1)

-- In production a request whose signature the Stripe library accepts, under a secret that is set, is
-- answered with success whatever the handler of its event does, and what that handler wrote stays;
-- every other request is refused, and nothing is written.
pub handle_stripe_webhook-signed :
    (construct_event : StripeRequest → String → String → Option StripeEvent) (secret : String)
    (now : ℕ) (id : String) (r : StripeRequest) (s : Ledger)
    → handle_stripe_webhook construct_event true secret now id r s
      ≡ webhook_outcome now id s (genuine_event construct_event secret r)
unfolding handle_stripe_webhook
handle_stripe_webhook-signed construct_event secret now id r s = elim (Option-cases r.signature) [
  | inl unsigned ↦ ground (arith, unsigned)
  | inr (signature, signed) ↦ elim (Option-cases (construct_event r signature secret)) [
    | inl forged ↦ ground (arith, signed, forged)
    | inr (e, genuine) ↦ elim (Result-cases (dispatch now id e s).0) [
      | inl failed ↦ ground (arith, signed, genuine, failed)
      | inr (x, done) ↦ ground (arith, signed, genuine, done)
    ]
  ]
]

-- A checkout whose customer is null, as long as the first user has no Stripe customer and no
-- subscription, gives that user the paid plan.
pub handle_checkout_completed-null :
    (now : ℕ) (o : EventObject) (s : Ledger) (user_id : String)
    (rest : List (String × Option String))
    → o.customer ≡ null
    → s.customers ≡ (user_id, none) ∷ rest
    → find_subscription user_id s.billing.subscriptions ≡ none
    → is_some (find_plan pro_plan s.billing.plans) ≡ true
    → let after = (handle_checkout_completed now o s).1 in
      map_option (λ b. b.plan_id) (find_subscription user_id after.billing.subscriptions)
      ≡ some pro_plan
unfolding handle_checkout_completed find_customer activated find_subscription
handle_checkout_completed-null now o s user_id rest nobody first new planned =
    let row =
      find_first-append_none (of_user user_id) s.billing.subscriptions
        (new_subscription now o.subscription user_id) new in
    ground (arith, row, eq_refl user_id)

-- A paid invoice that Stripe reports again is stored again.
pub handle_invoice_paid-repeated :
    (now later : ℕ) (id id' : String) (o : EventObject) (s : Ledger) (u : String × Option String)
    → find_customer o.customer s.customers ≡ some u
    → let once = (handle_invoice_paid now id o s).1 in
      let twice = (handle_invoice_paid later id' o once).1 in
      twice.invoices
      ≡ insert_row
          (paid_invoice later id' u.0 o)
          (insert_row (paid_invoice now id u.0 o) s.invoices)
unfolding handle_invoice_paid
handle_invoice_paid-repeated now later id id' o s u found = ground arith

-- A user who pays for a plan after a subscription is on record keeps the plan of that record.
pub handle_checkout_completed-same_plan :
    (now : ℕ) (o : EventObject) (s : Ledger) (u : String × Option String) (b : Subscription)
    → find_customer o.customer s.customers ≡ some u
    → find_subscription u.0 s.billing.subscriptions ≡ some b
    → find_subscription u.0 (handle_checkout_completed now o s).1.billing.subscriptions
      ≡ some (record b {
        stripe_subscription_id = o.subscription;
        status = SubscriptionStatus.active;
        period_start = some now;
        period_end = some (now + month);
      })
unfolding handle_checkout_completed activated find_subscription
handle_checkout_completed-same_plan now o s u b found there =
    let kept =
      find_first-update_where (of_user u.0) (of_user u.0) (activate now o.subscription)
        s.billing.subscriptions b (λ x. refl) there in
    let of_u = find_first-holds (of_user u.0) s.billing.subscriptions b there in
    rw (found, there) (ground (arith, kept, of_u))

-- A subscription that ends is on the free plan, canceled, whatever it was before.
pub handle_subscription_deleted-free :
    (now : ℕ) (o : EventObject) (s : Ledger) (u : String × Option String) (b : Subscription)
    → find_customer o.customer s.customers ≡ some u
    → find_subscription u.0 s.billing.subscriptions ≡ some b
    → is_some (find_plan free_plan s.billing.plans) ≡ true
    → find_subscription u.0 (handle_subscription_deleted now o s).1.billing.subscriptions
      ≡ some (cancel now b)
unfolding handle_subscription_deleted find_subscription
handle_subscription_deleted-free now o s u b found there planned =
    let kept =
      find_first-update_where (of_user u.0) (of_user u.0) (cancel now) s.billing.subscriptions b
        (λ x. refl) there in
    let of_u = find_first-holds (of_user u.0) s.billing.subscriptions b there in
    let some_row = find_first-exists (of_user u.0) s.billing.subscriptions b there in
    ground (arith, kept, of_u, some_row)
