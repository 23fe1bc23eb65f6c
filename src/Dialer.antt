-- ===== src/Dialer.antt =====
-- The data of backend/src/dialer: campaigns, their contacts and the do-not-call list, with the
-- columns of backend/prisma/schema.prisma that the services use, the requests to the Go dialer
-- service and the events for the browser. Times are milliseconds. A record of the CSV file, which
-- the library csv-parse reads, is the list of its columns and cells.
pub mod Text
pub mod CsvValidator
pub mod Campaigns
pub mod Control
pub mod Dnc
pub mod Export
pub mod Cells
pub mod ValidatorLaws
pub mod Upload
pub mod ControlLaws
pub mod ProgressLaws
mod Examples
use callnow.Base.{ℕ, List, String, Option}
use callnow.Numbers.{PhoneNumber}
use callnow.Plans.{Plan, Subscription}

pub data CampaignStatus : Type 0 where
  draft running paused completed stopped : CampaignStatus

pub record Campaign : Type 0 where
  pub id : String
  pub user_id : String
  pub name : String
  pub status : CampaignStatus
  pub from_number : String
  pub concurrency : ℕ
  pub delay_seconds : ℕ
  pub retry_max : ℕ
  pub voicemail_drop_url : Option String
  pub calling_hours_start : Option String
  pub calling_hours_end : Option String
  pub calling_hours_timezone : Option String
  pub total_contacts : ℕ
  pub dialed : ℕ
  pub answered : ℕ
  pub failed : ℕ
  pub busy : ℕ
  pub no_answer : ℕ
  pub scheduled_at : Option ℕ
  pub started_at : Option ℕ
  pub paused_at : Option ℕ
  pub completed_at : Option ℕ
  pub created_at : ℕ

-- `on_dnc` is the text `dnc`.
pub data ContactStatus : Type 0 where
  pending dialing answered no_answer busy failed on_dnc : ContactStatus

pub record CampaignContact : Type 0 where
  pub campaign_id : String
  pub phone : String
  pub name : Option String
  pub notes : Option String
  pub status : ContactStatus
  pub attempts : ℕ
  pub call_duration : Option ℕ
  pub last_attempted_at : Option ℕ

pub record DncEntry : Type 0 where
  pub id : String
  pub user_id : String
  pub phone : String
  pub source : String
  pub reason : Option String
  pub created_at : ℕ

-- what the Go service reports
pub record Progress : Type 0 where
  pub dialed : ℕ
  pub answered : ℕ
  pub failed : ℕ
  pub busy : ℕ
  pub no_answer : ℕ
  pub remaining : ℕ

-- a contact in the body of `POST /campaigns`
pub record Lead : Type 0 where
  pub phone : String
  pub name : Option String
  pub notes : Option String

-- The requests to the Go service; `create` carries the settings of a campaign and its leads.
pub data Request : Type 0 where
  create : Campaign → List Lead → Request
  pause resume stop : String → Request

pub data Event : Type 0 where
  progress complete : String → Progress → Event

pub record Store : Type 0 where
  pub campaigns : List Campaign
  pub contacts : List CampaignContact
  pub dnc : List DncEntry
  pub numbers : List PhoneNumber
  pub subscriptions : List Subscription
  pub plans : List Plan
  pub requests : List Request
  pub events : List Event

pub record CreateCampaign : Type 0 where
  pub name : String
  pub from_number : String
  pub concurrency : Option ℕ
  pub delay_seconds : Option ℕ
  pub retry_max : Option ℕ
  pub voicemail_drop_url : Option String
  pub calling_hours_start : Option String
  pub calling_hours_end : Option String
  pub calling_hours_timezone : Option String
  pub scheduled_at : Option ℕ

abbrev pub Row : Type 0
Row = List (String × String)
