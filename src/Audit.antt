-- ===== src/Audit.antt =====
-- backend/src/audit/audit.service.ts: the log of what was done, and its pages for an administrator.
use callnow.Base.{
  ℕ, Bool, List, String, Option, Action, if◌then◌else◌, some, true, ◌&&◌, eqb, modify, truthy, gets,
  insert_row, is_text, none, find_many,
}
use callnow.Dialer.Campaigns.{Page, paginate}

-- `details` is the text of its JSON.
pub record AuditLog : Type 0 where
  pub user_id : Option String
  pub action : String
  pub resource_type : Option String
  pub resource_id : Option String
  pub details : String
  pub ip_address : Option String
  pub user_agent : Option String

abbrev non_empty : Option String → Option String
non_empty none = none
non_empty (some s) = if truthy s then some s else none

-- `x || null` of the address and the browser; `accepted` is false where the database refuses the row,
-- which is only printed.
unfoldable log_action : Bool → AuditLog → Action (List AuditLog) (Unit {0})
log_action accepted entry =
    let row = record entry {
      ip_address = non_empty entry.ip_address;
      user_agent = non_empty entry.user_agent;
    } in
    modify (λ s. if accepted then insert_row row s else s)

pub record AuditQuery : Type 0 where
  pub user_id : Option String
  pub action : Option String
  pub resource_type : Option String
  pub page : ℕ
  pub limit : ℕ

-- `if (x) where.k = x`
abbrev is_asked : Option String → Option String → Bool
is_asked none column = true
is_asked (some s) column = if truthy s then is_text column s else true

unfoldable is_logged : AuditQuery → AuditLog → Bool
is_logged q l =
    is_asked q.user_id l.user_id
    && is_asked q.action (some l.action)
    && is_asked q.resource_type l.resource_type

abbrev or_default : ℕ → ℕ → ℕ
or_default n d = if eqb n 0 then d else n

-- `sort` is the database's, newest first.
unfoldable query_logs :
    (List AuditLog → List AuditLog) → AuditQuery → Action (List AuditLog) (Page AuditLog)
unfolding is_logged
query_logs sort q =
    gets (λ s.
      paginate (or_default q.page 1) (or_default q.limit 50) (sort (find_many (is_logged q) s)))
