-- ===== src/Dialer/Dnc.antt =====
-- backend/src/dialer/dialer.service.ts: the do-not-call list.
use callnow.Base.{
  ℕ, List, String, Action, Bool, Option, delete_where, ◌>>=◌, ◌>>◌, exists_where, find_first, gets,
  require, ◌==◌, not_found_exception, throw_if, ◌&&◌, fault, find_many, not_found, modify,
  insert_row, pure, none,
}
use callnow.Dialer.{Store, DncEntry}
use callnow.Dialer.Campaigns.{Page, paginate}

-- The pair of user and telephone number is unique.
unfoldable pub has_entry : String → String → List DncEntry → Bool
has_entry user_id phone = exists_where (λ e. e.user_id == user_id && e.phone == phone)

unfoldable pub find_entry : String → String → List DncEntry → Option DncEntry
find_entry id user_id = find_first (λ e. e.id == id && e.user_id == user_id)

unfoldable pub remove_entry : String → List DncEntry → List DncEntry
remove_entry id = delete_where (λ e. e.id == id)

abbrev pub new_entry : ℕ → String → String → String → String → DncEntry
new_entry now id user_id phone source = record {
  id = id;
  user_id = user_id;
  phone = phone;
  source = source;
  reason = none;
  created_at = now;
}

unfoldable pub add_dnc : ℕ → String → String → String → Action Store DncEntry
add_dnc now id user_id phone = do
  taken ← gets (λ s. has_entry user_id phone s.dnc)
  throw_if taken fault
  modify (λ s. record s { dnc = insert_row (new_entry now id user_id phone "manual") s.dnc })
  pure (new_entry now id user_id phone "manual")

unfoldable pub list_dnc :
    (List DncEntry → List DncEntry) → String → ℕ → ℕ → Action Store (Page DncEntry)
list_dnc sort user_id page limit =
    gets (λ s. paginate page limit (sort (find_many (λ e. e.user_id == user_id) s.dnc)))

unfoldable pub remove_dnc : String → String → Action Store (Unit {0})
remove_dnc user_id id = do
  require (λ s. find_entry id user_id s.dnc) (not_found_exception not_found)
  modify (λ s. record s { dnc = remove_entry id s.dnc })
