-- ===== src/Dialer/ControlLaws.antt =====
-- dialer.service.ts: what starting a campaign asks of the store and of the Go service, and what a
-- progress callback does to the campaigns; internal/dialer-callback.controller.ts.
use callnow.Base.{
  ℕ, String, Option, Bool, is_ok, map_option, ◌≡◌, false, ok, some, arith, is_some, insert_row,
  none, true, refl, Option-cases, inl, inr, is_text, List, update_where, ◌==◌, ◌∷◌, ◌≢◌, Bool-cases,
  ◌⊎◌, [], eq_iff,
}
use callnow.Dialer.{
  Store, Request, Campaign, CampaignStatus, Progress, Plan, ContactStatus, CampaignContact, Lead,
}
use callnow.Dialer.Control.{
  start_campaign, handle_progress, token_matches, set_running, pending_leads, is_pending,
}
use callnow.Dialer.Campaigns.{find_campaign}
use callnow.Plans.{plan_of, Plan}
use callnow.Numbers.{find_own_active}
use callnow.Dialer.Text.{strip_bearer}

-- The leads of a campaign, in the order of the table: the number, the name and the notes of each of
-- its contacts that is pending, and of no other.
abbrev pub IsLeads : String → List CampaignContact → List Lead → Type 0
IsLeads id [] leads = leads ≡ []
IsLeads id (c ∷ cs) leads =
    ((c.campaign_id ≡ id)
      × (c.status ≡ ContactStatus.pending)
      × ((rest : List Lead) × (leads
            ≡ record { phone = c.phone; name = c.name; notes = c.notes } ∷ rest)
          × IsLeads id cs rest))
    ⊎ (((c.campaign_id ≢ id) ⊎ (c.status ≢ ContactStatus.pending)) × IsLeads id cs leads)

is_pending-true : (x : ContactStatus) → is_pending x ≡ true → x ≡ ContactStatus.pending
is_pending-true ContactStatus.pending h = refl
is_pending-true ContactStatus.dialing h = cc
is_pending-true ContactStatus.answered h = cc
is_pending-true ContactStatus.no_answer h = cc
is_pending-true ContactStatus.busy h = cc
is_pending-true ContactStatus.failed h = cc
is_pending-true ContactStatus.on_dnc h = cc

is_pending-false : (x : ContactStatus) → is_pending x ≡ false → x ≢ ContactStatus.pending
is_pending-false x h = λ e. let so : is_pending x ≡ true = rw e refl in cc

pending_leads-IsLeads :
    (id : String) (contacts : List CampaignContact)
    → IsLeads id contacts (pending_leads id contacts)
unfolding pending_leads
pending_leads-IsLeads id [] = refl
pending_leads-IsLeads id (c ∷ cs) = elim (Bool-cases (c.campaign_id == id)) [
  | inr other ↦ rw (other) (
      inr
        (inl (λ e. absurd (ground (arith, eq_iff c.campaign_id id))), pending_leads-IsLeads id cs))
  | inl own ↦ elim (Bool-cases (is_pending c.status)) [
    | inl waits ↦
        rw (own, waits)
          (inl (
            (eq_iff c.campaign_id id).0 own,
            is_pending-true c.status waits,
            (pending_leads id cs, refl, pending_leads-IsLeads id cs),
          ))
    | inr called ↦
        rw (own, called) (inr (inr (is_pending-false c.status called), pending_leads-IsLeads id cs))
  ]
]

-- the conditions under which a campaign starts
pub record Startable (post : Request → Bool) (user_id id : String) (s : Store) : Type 0 where
  pub campaign : Campaign
  pub plan : Plan
  pub leads : List Lead
  pub found : find_campaign id user_id s.campaigns ≡ some campaign
  pub number_active : is_some (find_own_active campaign.from_number user_id s.numbers) ≡ true
  pub planned : plan_of user_id s.subscriptions s.plans ≡ some plan
  pub allowed : plan.power_dialer_enabled ≡ true
  pub listed : IsLeads id s.contacts leads
  pub posted : post (Request.create campaign leads) ≡ true

-- A campaign that starts is the user's own, its number is the user's and active, the plan has the
-- dialer, the Go service was asked once, with the campaign and its pending leads, and answered; and
-- the campaign is running, from now on. Nothing else in the store changes.
pub start_campaign-Startable :
    (post : Request → Bool) (now : ℕ) (user_id id : String) (s : Store) (status : CampaignStatus)
    → (start_campaign post now user_id id s).0 ≡ ok status
    → (c : Startable post user_id id s) × ((start_campaign post now user_id id s).1 ≡ record s {
      campaigns =
          update_where
            (λ k. k.id == id)
            (λ k. record k { status = CampaignStatus.running; started_at = some now })
            s.campaigns;
      requests = insert_row (Request.create c.campaign c.leads) s.requests;
    })
unfolding start_campaign set_running
start_campaign-Startable post now user_id id s status e =
    elim (Option-cases (find_campaign id user_id s.campaigns)) [
      | inl missing ↦ absurd (ground arith)
      | inr (campaign, found) ↦ elim (Option-cases (plan_of user_id s.subscriptions s.plans)) [
        | inl unplanned ↦ absurd (ground arith)
        | inr (plan, planned) ↦ (
          record {
            campaign = campaign;
            plan = plan;
            leads = pending_leads id s.contacts;
            found = found;
            number_active = ground arith;
            planned = planned;
            allowed = ground arith;
            listed = pending_leads-IsLeads id s.contacts;
            posted = ground arith;
          },
          ground arith,
        )
      ]
    ]

-- When the start is refused, for whatever reason, no campaign changes.
pub start_campaign-refused :
    (post : Request → Bool) (now : ℕ) (user_id id : String) (s : Store)
    → is_ok (start_campaign post now user_id id s).0 ≡ false
    → (start_campaign post now user_id id s).1.campaigns ≡ s.campaigns
unfolding start_campaign
start_campaign-refused post now user_id id s e = ground arith

-- A progress callback whose header does not carry the internal key is refused and changes nothing.
pub handle_progress-unauthorized :
    (key : String) (header : Option String) (now : ℕ) (id : String) (p : Progress) (s : Store)
    → is_text (map_option strip_bearer header) key ≡ false
    → (is_ok (handle_progress key header now id p s).0 ≡ false)
      × ((handle_progress key header now id p s).1 ≡ s)
unfolding handle_progress token_matches
handle_progress-unauthorized key none now id p s other = (refl, refl)
handle_progress-unauthorized key (some header) now id p s other = (ground arith, ground arith)
