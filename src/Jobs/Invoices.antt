-- ===== src/Jobs/Invoices.antt =====
-- backend/src/jobs/invoice-generation.job.ts and usage-alert.job.ts. The first and the last day of
-- the month before, and the ids of the new rows, are arguments; prices are in cents.
use callnow.Base.{
  ℕ, Bool, Option, String, List, find_many, ltb, true, ◌≡◌, count_where, false, none, some, ◌&&◌,
  ◌+◌, ◌∷◌, arith, insert_row, leb, ◌==◌, ◌||◌, [], count_where-append, map, ◌*◌, ◌∙◌, ap, refl,
}
use callnow.Billing.Account.{Ledger, Invoice}
use callnow.Plans.{Subscription, SubscriptionStatus, Plan, find_plan}
use callnow.Billing.{UsageRecord, Store, find_usage}

abbrev pub is_active : SubscriptionStatus → Bool
is_active SubscriptionStatus.active = true
is_active SubscriptionStatus.canceled = false
is_active SubscriptionStatus.past_due = false
is_active SubscriptionStatus.trialing = false

-- `sub.plan?.monthlyPrice || 0`
abbrev pub price_of : Option Plan → ℕ
price_of none = 0
price_of (some plan) = plan.monthly_price

module _ (now start end : ℕ) (id_of : Subscription → String) where
  unfoldable pub open_invoice : List Plan → Subscription → Invoice
  open_invoice plans b = record {
    id = id_of b;
    user_id = b.user_id;
    stripe_invoice_id = none;
    amount = price_of (find_plan b.plan_id plans);
    currency = "USD";
    status = "open";
    period_start = start;
    period_end = end;
    pdf_url = none;
    paid_at = none;
    created_at = now;
  }

  -- the loop
  unfoldable pub add_invoices : List Plan → List Subscription → List Invoice → List Invoice
  add_invoices plans [] invoices = invoices
  add_invoices plans (b ∷ bs) invoices =
      add_invoices plans bs (insert_row (open_invoice plans b) invoices)

  unfoldable pub generate_invoices : Ledger → Ledger
  generate_invoices s = record s {
    invoices =
        add_invoices s.billing.plans (find_many (λ b. is_active b.status) s.billing.subscriptions)
          s.invoices;
  }

-- `(used / included) * 100 >= 80`, where something is included
abbrev pub is_near : ℕ → ℕ → Bool
is_near used included = ltb 0 included && leb (80 * included) (100 * used)

abbrev pub near_limit : Option Plan → Option UsageRecord → Bool
near_limit none r = false
near_limit (some plan) none = false
near_limit (some plan) (some r) =
    is_near r.sms_sent plan.included_sms || is_near r.minutes_used plan.included_minutes

-- the users whom the job warns of, for the month that starts at `start`; the warning is a log
unfoldable pub usage_alerts : ℕ → Store → List String
usage_alerts start s =
    map (λ b. b.user_id)
      (find_many
        (λ b. near_limit (find_plan b.plan_id s.plans) (find_usage b.user_id start s.usage))
        s.subscriptions)

-- how many invoices a user has
abbrev pub invoices_of : String → List Invoice → ℕ
invoices_of user_id = count_where (λ i. i.user_id == user_id)

module _ (now start end : ℕ) (id_of : Subscription → String) where
  add_invoices-count :
      (user_id : String) (plans : List Plan) (bs : List Subscription) (rows : List Invoice)
      → invoices_of user_id (add_invoices now start end id_of plans bs rows)
        ≡ invoices_of user_id rows + count_where (λ b. b.user_id == user_id) bs
  unfolding add_invoices open_invoice
  add_invoices-count user_id plans [] rows = omega arith
  add_invoices-count user_id plans (b ∷ bs) rows =
      let row = open_invoice now start end id_of plans b in
      ground (
        arith,
        add_invoices-count user_id plans bs (insert_row row rows),
        count_where-append (λ i. i.user_id == user_id) rows row,
      )

  count_where-find_many :
      {A : Type 0} (p q : A → Bool) (xs : List A)
      → count_where p (find_many q xs) ≡ count_where (λ x. q x && p x) xs
  count_where-find_many p q [] = refl
  count_where-find_many p q (x ∷ xs) = ground (arith, count_where-find_many p q xs)

  -- Each run of the job adds one invoice for each active subscription of a user, even when the
  -- month has been invoiced before.
  pub generate_invoices-count :
      (user_id : String) (s : Ledger)
      → invoices_of user_id (generate_invoices now start end id_of s).invoices
        ≡ invoices_of user_id s.invoices
          + count_where (λ b. is_active b.status && b.user_id == user_id) s.billing.subscriptions
  unfolding generate_invoices
  generate_invoices-count user_id s =
      add_invoices-count user_id s.billing.plans
        (find_many (λ b. is_active b.status) s.billing.subscriptions) s.invoices
      ∙ ap (λ n. invoices_of user_id s.invoices + n)
          (count_where-find_many (λ b. b.user_id == user_id) (λ b. is_active b.status)
            s.billing.subscriptions)
