-- ===== src/Dialer/Export.antt =====
-- backend/src/dialer/dialer.service.ts: `exportCampaignResults`. The file is the list of its code
-- points; the characters that the patterns look for are single units of UTF-16.
use callnow.Base.{
  ℕ, List, String, Option, Bool, Action, [], eqb, if◌then◌else◌, some, ◌>>◌, ◌∷◌, exists_where,
  map_option, none, ◌++◌, ◌>>=◌, ◌||◌, gets, find_many, ◌==◌, pure, map,
}
use callnow.Dialer.{
  Store, CampaignContact, ContactStatus, pending, dialing, answered, no_answer, busy, failed,
  on_dnc,
}
use callnow.Dialer.Campaigns.{get_campaign}
use callnow.Dialer.Text.{codes, decimal}

-- `/^[=\+\-@\t\r]/`
abbrev pub is_formula : ℕ → Bool
is_formula c = eqb c b'=' || eqb c b'+' || eqb c b'-' || eqb c b'@' || eqb c 9 || eqb c 13

-- `/[",\n\r]/`
abbrev pub is_special : ℕ → Bool
is_special c = eqb c 34 || eqb c b',' || eqb c 10 || eqb c 13

-- the apostrophe before a text that a spreadsheet would read as a formula
unfoldable pub neutralize : List ℕ → List ℕ
neutralize [] = []
neutralize (c ∷ s) = if is_formula c then 39 ∷ c ∷ s else c ∷ s

-- `str.replace(/"/g, '""')`
unfoldable pub double_quotes : List ℕ → List ℕ
double_quotes [] = []
double_quotes (c ∷ s) = let rest = double_quotes s in if eqb c 34 then 34 ∷ 34 ∷ rest else c ∷ rest

unfoldable pub quote_if_special : List ℕ → List ℕ
quote_if_special s = if exists_where is_special s then 34 ∷ double_quotes s ++ 34 ∷ [] else s

-- `sanitizeCell`
unfoldable pub sanitize_cell : Option (List ℕ) → List ℕ
sanitize_cell none = []
sanitize_cell (some s) = quote_if_special (neutralize s)

abbrev pub status_text : ContactStatus → String
status_text pending = "pending"
status_text dialing = "dialing"
status_text answered = "answered"
status_text no_answer = "no-answer"
status_text busy = "busy"
status_text failed = "failed"
status_text on_dnc = "dnc"

-- `cells.join(separator)`
unfoldable pub join : ℕ → List (List ℕ) → List ℕ
join separator [] = []
join separator (cell ∷ []) = cell
join separator (cell ∷ next ∷ cells) = cell ++ separator ∷ join separator (next ∷ cells)

-- `iso` is `toISOString`.
module _ (iso : ℕ → List ℕ) where
  unfoldable pub export_row : CampaignContact → List ℕ
  unfolding sanitize_cell join
  export_row c = join b',' (
      sanitize_cell (some (codes c.phone))
      ∷ sanitize_cell (map_option codes c.name)
      ∷ sanitize_cell (map_option codes c.notes)
      ∷ sanitize_cell (some (codes (status_text c.status)))
      ∷ sanitize_cell (some (decimal c.attempts))
      ∷ sanitize_cell (map_option decimal c.call_duration)
      ∷ sanitize_cell (map_option iso c.last_attempted_at)
      ∷ [])

  unfoldable pub export_campaign_results : String → String → Action Store (List ℕ)
  unfolding get_campaign export_row
  export_campaign_results user_id id = do
    get_campaign user_id id
    contacts ← gets (λ s. find_many (λ c. c.campaign_id == id) s.contacts)
    pure (
        codes "phone,name,notes,status,attempts,call_duration,last_attempted_at"
        ++ 10 ∷ join 10 (map export_row contacts))
