-- ===== src/Billing/Account.antt =====
-- backend/src/billing/billing.service.ts: what a user sees of the account.
use Prim.Native.String
use Prim.Native.String.{String}
use callnow.Base.{
  ℕ, List, String, if◌then◌else◌, insert_row, Action, Option, eqb, find_first, gets, some, ◌>>=◌,
  find_many, or_text, require, ◌==◌, ◌≡◌, fault, none, ◌&&◌, pure, ok, arith, bad_request,
  not_found,
}
use callnow.Billing.{
  Store, Period, UsageRecord, check_limit, Plan, find_usage, get_or_create_record, plan_of,
  Resource,
}
use callnow.Plans.{Plan, plan_of}
use callnow.Telephony.{to_lower_case}

pub record Invoice : Type 0 where
  pub id : String
  pub user_id : String
  pub stripe_invoice_id : Option String
  pub amount : ℕ
  pub currency : String
  pub status : String
  pub period_start : ℕ
  pub period_end : ℕ
  pub pdf_url : Option String
  pub paid_at : Option ℕ
  pub created_at : ℕ

-- `customers` has the users' ids with their column `stripe_customer_id`, in the order of the table.
pub record Ledger : Type 0 where
  pub billing : Store
  pub customers : List (String × Option String)
  pub invoices : List Invoice

abbrev pub add_invoice : Invoice → Ledger → Ledger
add_invoice i s = record s { invoices = insert_row i s.invoices }

abbrev pub used_or_default : ℕ → ℕ → ℕ
used_or_default n d = if eqb n 0 then d else n

-- the object that `getCurrentUsage` returns, but for the period's two dates
pub record CurrentUsage : Type 0 where
  pub plan : String
  pub minutes_used : ℕ
  pub minutes_included : ℕ
  pub sms_used : ℕ
  pub sms_included : ℕ
  pub mms_used : ℕ
  pub mms_included : ℕ
  pub numbers_held : ℕ
  pub numbers_allowed : ℕ

-- `plan?.name || 'Free'`, and so on
unfoldable pub shown_usage : UsageRecord → Option Plan → CurrentUsage
shown_usage r none = record {
  plan = "Free";
  minutes_used = r.minutes_used;
  minutes_included = 100;
  sms_used = r.sms_sent;
  sms_included = 50;
  mms_used = r.mms_sent;
  mms_included = 0;
  numbers_held = r.numbers_held;
  numbers_allowed = 1;
}
shown_usage r (some plan) = record {
  plan = or_text (some plan.name) "Free";
  minutes_used = r.minutes_used;
  minutes_included = used_or_default plan.included_minutes 100;
  sms_used = r.sms_sent;
  sms_included = used_or_default plan.included_sms 50;
  mms_used = r.mms_sent;
  mms_included = plan.included_mms;
  numbers_held = r.numbers_held;
  numbers_allowed = used_or_default plan.max_numbers 1;
}

unfoldable pub get_current_usage : Period → String → Action Store CurrentUsage
get_current_usage p user_id = do
  r ← get_or_create_record p user_id
  plan ← gets (λ s. plan_of user_id s.subscriptions s.plans)
  pure (shown_usage r plan)

-- `sort` orders the rows, newest first.
unfoldable pub get_invoices : (List Invoice → List Invoice) → String → Action Ledger (List Invoice)
get_invoices sort user_id = gets (λ s. sort (find_many (λ i. i.user_id == user_id) s.invoices))

unfoldable pub find_invoice : String → String → List Invoice → Option Invoice
find_invoice id user_id = find_first (λ i. i.id == id && i.user_id == user_id)

-- A missing invoice is a plain `Error`, which leaves as a server error.
unfoldable pub get_invoice_pdf : String → String → Action Ledger (Option String)
get_invoice_pdf user_id id = do
  i ← require (λ s. find_invoice id user_id s.invoices) fault
  pure i.pdf_url

-- The address of a checkout is made of the plan's name, whose letters are ASCII. Nothing is written.
unfoldable pub create_checkout_session : String → Action Store String
create_checkout_session plan_id = do
  plan ← require (λ s. find_first (λ p. p.id == plan_id) s.plans) (bad_request not_found)
  pure (String.◌++◌ "https://checkout.voicelink.io/" (to_lower_case plan.name))

-- A plan without messages of its own is unlimited for the check of the limit, and is shown to the
-- user with 50.
pub get_current_usage-unlimited :
    (p : Period) (user_id : String) (s : Store) (plan : Plan) (r : UsageRecord)
    → find_usage user_id p.start s.usage ≡ some r
    → plan_of user_id s.subscriptions s.plans ≡ some plan
    → plan.included_sms ≡ 0
    → ((check_limit p user_id Resource.sms s).0 ≡ ok tt)
      × ((get_current_usage p user_id s).0 ≡ ok (shown_usage r (some plan)))
      × ((shown_usage r (some plan)).sms_included ≡ 50)
unfolding get_current_usage check_limit shown_usage
get_current_usage-unlimited p user_id s plan r used planned empty =
    (ground arith, ground arith, ground arith)
