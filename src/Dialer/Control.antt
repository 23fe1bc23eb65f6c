-- ===== src/Dialer/Control.antt =====
-- backend/src/dialer/dialer.service.ts: starting, pausing, resuming and stopping a campaign, and the
-- progress that the Go service reports; backend/src/dialer/internal/dialer-callback.controller.ts.
use Prim.Native.String.{len}
use callnow.Base.{
  ℕ, Option, String, Bool, List, insert_row, Action, false, true, require, some, update_required,
  update_where, ◌>>=◌, ◌>>◌, fault, map, modify, none, throw_if, truthy, ◌==◌, find_many,
  if◌then◌else◌, not, not_found_exception, pure, ◌&&◌, eqb, not_found, unauthorized_exception,
  unauthorized, bad_request, number_not_owned, gets, plan_limit_exceeded, or_throw,
}
use callnow.Dialer.{
  Store, ContactStatus, Event, Request, Plan, Progress, Campaign, CampaignContact, CampaignStatus,
  Lead, pending, completed, paused, running, stopped,
}
use callnow.Plans.{Plan, plan_of}
use callnow.Dialer.Campaigns.{find_campaign}
use callnow.Numbers.{find_own_active}
use callnow.Dialer.Text.{strip_bearer, utf16_length}

unfoldable pub set_running : ℕ → String → List Campaign → List Campaign
set_running now id =
    update_where (λ c. c.id == id) (λ c. record c { status = running; started_at = some now })

unfoldable pub set_paused : ℕ → String → List Campaign → List Campaign
set_paused now id =
    update_where (λ c. c.id == id) (λ c. record c { status = paused; paused_at = some now })

unfoldable pub set_resumed : String → List Campaign → List Campaign
set_resumed id = update_where (λ c. c.id == id) (λ c. record c { status = running })

unfoldable pub set_stopped : ℕ → String → List Campaign → List Campaign
set_stopped now id =
    update_where (λ c. c.id == id) (λ c. record c { status = stopped; completed_at = some now })

unfoldable pub set_completed : ℕ → String → List Campaign → Option (List Campaign)
set_completed now id =
    update_required (λ c. c.id == id)
      (λ c. record c { status = completed; completed_at = some now })

unfoldable pub set_progress : String → Progress → List Campaign → Option (List Campaign)
set_progress id p =
    update_required (λ c. c.id == id)
      (λ c. record c {
        dialed = p.dialed;
        answered = p.answered;
        failed = p.failed;
        busy = p.busy;
        no_answer = p.no_answer;
      })

abbrev pub is_pending : ContactStatus → Bool
is_pending pending = true
is_pending _ = false

unfoldable pub pending_leads : String → List CampaignContact → List Lead
pending_leads id contacts =
    map (λ c. record { phone = c.phone; name = c.name; notes = c.notes })
      (find_many (λ c. c.campaign_id == id && is_pending c.status) contacts)

abbrev pub allows_dialer : Option Plan → Bool
allows_dialer none = false
allows_dialer (some plan) = plan.power_dialer_enabled

-- `post` says whether the Go service answers a request; if not, axios throws.
module _ (post : Request → Bool) where
  abbrev pub send : Request → Action Store (Unit {0})
  send r = do
    modify (λ s. record s { requests = insert_row r s.requests })
    throw_if (not (post r)) fault

  unfoldable pub start_campaign : ℕ → String → String → Action Store CampaignStatus
  start_campaign now user_id id = do
    campaign ← require (λ s. find_campaign id user_id s.campaigns) (not_found_exception not_found)
    require (λ s. find_own_active campaign.from_number user_id s.numbers)
        (bad_request number_not_owned)
    plan ← gets (λ s. plan_of user_id s.subscriptions s.plans)
    throw_if (not (allows_dialer plan)) (bad_request plan_limit_exceeded)
    leads ← gets (λ s. pending_leads id s.contacts)
    send (Request.create campaign leads)
    modify (λ s. record s { campaigns = set_running now id s.campaigns })
    pure running

  -- `verifyOwnership`
  abbrev pub verify_ownership : String → String → Action Store Campaign
  verify_ownership user_id id =
      require (λ s. find_campaign id user_id s.campaigns) (not_found_exception not_found)

  unfoldable pub pause_campaign : ℕ → String → String → Action Store CampaignStatus
  pause_campaign now user_id id = do
    verify_ownership user_id id
    send (Request.pause id)
    modify (λ s. record s { campaigns = set_paused now id s.campaigns })
    pure paused

  unfoldable pub resume_campaign : String → String → Action Store CampaignStatus
  resume_campaign user_id id = do
    verify_ownership user_id id
    send (Request.resume id)
    modify (λ s. record s { campaigns = set_resumed id s.campaigns })
    pure running

  unfoldable pub stop_campaign : ℕ → String → String → Action Store CampaignStatus
  stop_campaign now user_id id = do
    verify_ownership user_id id
    send (Request.stop id)
    modify (λ s. record s { campaigns = set_stopped now id s.campaigns })
    pure stopped

abbrev pub emit : Event → Store → Store
emit e s = record s { events = insert_row e s.events }

-- The service's own `update`s are rejected when the campaign is not there.
unfoldable pub handle_progress_callback : ℕ → String → Progress → Action Store Bool
handle_progress_callback now id p = do
  counted ← require (λ s. set_progress id p s.campaigns) fault
  modify (λ s. record s { campaigns = counted })
  modify (emit (Event.progress id p))
  if eqb p.remaining 0
      then (do
        done ← require (λ s. set_completed now id s.campaigns) fault
        modify (λ s. record s { campaigns = done })
        modify (emit (Event.complete id p))
        pure true)
      else pure true

-- The comparison of the token with the configured key: `none` where `timingSafeEqual` throws,
-- because the two have one length in UTF-16 units and different lengths in bytes.
unfoldable pub token_matches : String → String → Option Bool
token_matches token key =
    if truthy token && truthy key && eqb (utf16_length token) (utf16_length key)
    then (if eqb (len token) (len key) then some (token == key) else none)
    else some false

abbrev pub matches : String → Option String → Option Bool
matches key none = some false
matches key (some header) = token_matches (strip_bearer header) key

-- `key` is the internal API key of the configuration, and `header` the request's `authorization`.
unfoldable pub handle_progress : String → Option String → ℕ → String → Progress → Action Store Bool
unfolding handle_progress_callback
handle_progress key header now id p = do
  valid ← or_throw (matches key header) fault
  throw_if (not valid) (unauthorized_exception unauthorized)
  handle_progress_callback now id p
