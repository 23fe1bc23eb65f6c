-- ===== src/Dialer/Campaigns.antt =====
-- backend/src/dialer/dialer.service.ts: `createCampaign` and the reads of campaigns.
use callnow.Base.{
  ℕ, List, Option, String, Action, some, take, Bool, [], drop, find_first, gets, if◌then◌else◌, map,
  none, require, eqb, find_many, not_found_exception, truthy, ◌-◌, ◌==◌, ◌>>=◌, ◌>>◌, not_found,
  ◌&&◌, ◌*◌, bad_request, length, not, validation_error, modify, insert_row, ◌++◌, pure,
}
use callnow.Dialer.{Store, Campaign, CreateCampaign, DncEntry, Row, CampaignContact, draft, pending}
use callnow.Dialer.CsvValidator.{Report, column_of, phone_of, cell, validate, has_phone}
use callnow.Dialer.Text.{is_e164}

-- `dto.x || d` on a number
abbrev pub or_number : Option ℕ → ℕ → ℕ
or_number none d = d
or_number (some n) d = if eqb n 0 then d else n

-- `record.name || null`
abbrev pub or_null : Option String → Option String
or_null none = none
or_null (some s) = if truthy s then some s else none

abbrev pub default_column : Option String → String
default_column none = "phone"
default_column (some c) = c

unfoldable pub dnc_phones : String → List DncEntry → List String
dnc_phones user_id entries = map (λ e. e.phone) (find_many (λ e. e.user_id == user_id) entries)

-- the filter of the records: `phone && e164Regex.test(phone) && !dncPhones.has(phone)`
unfoldable pub is_callable : List String → String → Row → Bool
is_callable dnc column r =
    let phone = phone_of column r in truthy phone && is_e164 phone && not (has_phone phone dnc)

unfoldable pub new_contact : String → String → Row → CampaignContact
new_contact campaign_id column r = record {
  campaign_id = campaign_id;
  phone = phone_of column r;
  name = or_null (cell "name" r);
  notes = or_null (cell "notes" r);
  status = pending;
  attempts = 0;
  call_duration = none;
  last_attempted_at = none;
}

unfoldable pub new_contacts : String → List String → List Row → List CampaignContact
new_contacts campaign_id dnc records =
    let column = default_column (column_of records) in
    map (new_contact campaign_id column) (find_many (is_callable dnc column) records)

unfoldable pub new_campaign : ℕ → String → String → CreateCampaign → ℕ → Campaign
new_campaign now id user_id dto total = record {
  id = id;
  user_id = user_id;
  name = dto.name;
  status = draft;
  from_number = dto.from_number;
  concurrency = or_number dto.concurrency 1;
  delay_seconds = or_number dto.delay_seconds 0;
  retry_max = or_number dto.retry_max 0;
  voicemail_drop_url = dto.voicemail_drop_url;
  calling_hours_start = dto.calling_hours_start;
  calling_hours_end = dto.calling_hours_end;
  calling_hours_timezone = dto.calling_hours_timezone;
  total_contacts = total;
  dialed = 0;
  answered = 0;
  failed = 0;
  busy = 0;
  no_answer = 0;
  scheduled_at = dto.scheduled_at;
  started_at = none;
  paused_at = none;
  completed_at = none;
  created_at = now;
}

abbrev pub records_of : Option (List Row) → List Row
records_of none = []
records_of (some records) = records

-- `parsed` is what csv-parse makes of the uploaded file, and `id` the new row's.
unfoldable pub create_campaign :
    ℕ → String → String → CreateCampaign → Option (List Row) → Action Store (Campaign × Report)
create_campaign now id user_id dto parsed = do
  report ← require (λ s. validate parsed (dnc_phones user_id s.dnc)) (bad_request validation_error)
  modify (λ s. record s {
    campaigns = insert_row (new_campaign now id user_id dto report.valid) s.campaigns;
  })
  modify (λ s. record s {
    contacts = s.contacts ++ new_contacts id (dnc_phones user_id s.dnc) (records_of parsed);
  })
  pure (new_campaign now id user_id dto report.valid, report)

unfoldable pub find_campaign : String → String → List Campaign → Option Campaign
find_campaign id user_id = find_first (λ c. c.id == id && c.user_id == user_id)

-- a page of rows and `meta`
pub record Page (A : Type 0) : Type 0 where
  pub rows : List A
  pub page : ℕ
  pub limit : ℕ
  pub total : ℕ

-- `skip: (page - 1) * limit, take: limit`, from page 1 on
unfoldable pub paginate : {A : Type 0} → ℕ → ℕ → List A → Page A
paginate page limit rows = record {
  rows = take limit (drop ((page - 1) * limit) rows);
  page = page;
  limit = limit;
  total = length rows;
}

-- `sort` orders the rows, newest first; the order among equal times is the database's.
unfoldable pub list_campaigns :
    (List Campaign → List Campaign) → String → ℕ → ℕ → Action Store (Page Campaign)
list_campaigns sort user_id page limit =
    gets (λ s. paginate page limit (sort (find_many (λ c. c.user_id == user_id) s.campaigns)))

unfoldable pub get_campaign : String → String → Action Store Campaign
get_campaign user_id id =
    require (λ s. find_campaign id user_id s.campaigns) (not_found_exception not_found)

unfoldable pub get_campaign_results : String → String → ℕ → ℕ → Action Store (Page CampaignContact)
unfolding get_campaign
get_campaign_results user_id id page limit = do
  get_campaign user_id id
  gets (λ s. paginate page limit (find_many (λ c. c.campaign_id == id) s.contacts))
