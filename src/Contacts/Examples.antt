-- ===== src/Contacts/Examples.antt =====
-- Runs of the contacts service on a small store.
use callnow.Base.{
  List, String, [], ◌∷◌, none, some, refl, ◌≡◌, ℕ, ◌+◌, length, count_where, arith, false, ◌≤◌, suc,
  map, ◌↔◌, if◌then◌else◌, ◌++◌, eqb, Has,
}
use callnow.Contacts.{Contact, Store}
use callnow.Contacts.Import.{CsvRow, ImportResult, import_contacts, import_rows, phone_of_row}
use callnow.Contacts.Laws.{owned_by, import_contacts-accounts}
use callnow.Contacts.Listing.{list_contacts, is_listed}
use callnow.Dialer.Campaigns.{paginate}
use callnow.Contacts.Pages.{join_pages, shown, total_of}
use callnow.Contacts.ListingLaws.{IsFit, list_contacts-pages}

abbrev ann : Contact
ann = record { id = "c1"; user_id = "u1"; name = "Ann"; email = none; notes = none; tags = [] }

abbrev tables : Store
tables = record {
  contacts = ann ∷ record ann { id = "c2"; user_id = "u2"; name = "Bob" } ∷ [];
  phones =
      record { contact_id = "c1"; number = "+15550001"; label = "mobile" }
      ∷ record { contact_id = "c2"; number = "+15550001"; label = "home" }
      ∷ [];
}

abbrev csv_row : CsvRow
csv_row = record {
  phone = none;
  phonenumber = none;
  number = some "+15550007";
  mobile = none;
  name = some "=1+1";
  email = none;
  notes = none;
  tags = some "a, b";
  label = none;
}

abbrev csv_rows : List CsvRow
csv_rows = csv_row ∷ record csv_row { number = none } ∷ []

abbrev imported_one : ImportResult
imported_one = record { imported = 1; skipped = 1; total = 2 }

abbrev new_id : ℕ → String
new_id n = "c9"

import_contacts-accounts_example :
    let after = (import_contacts (λ csv. some csv_rows) new_id "u1" 20 "…" tables).1 in
    (1 + 1 ≡ 2)
    × (imported_one.total ≡ 2)
    × (length after.contacts ≡ 3)
    × (count_where (owned_by "u1") after.contacts ≡ 2)
    × (length after.phones ≡ 3)
unfolding import_contacts import_rows phone_of_row
import_contacts-accounts_example =
    import_contacts-accounts (λ csv. some csv_rows) new_id "u1" 20 "…" csv_rows tables imported_one
      (omega arith) refl refl

list_contacts-pages_example :
    let page = λ (k : ℕ).
      list_contacts (λ q name. false) (λ cs. cs) "u1" (some "") none (some k) (some 1) tables in
    (Has ann (map (λ f. f.contact) (join_pages (λ k. shown (page k)) 2))
      ↔ (Has ann tables.contacts × IsFit (λ q name. false) "u1" (some "") none tables.phones ann))
    × ((k : ℕ)
        → (length (shown (page (suc k))) ≤ 1)
          × (total_of (page (suc k)) ≡ length (join_pages (λ k. shown (page k)) 2)))
unfolding list_contacts paginate is_listed
list_contacts-pages_example =
    list_contacts-pages (λ q name. false) (λ k cs. cs) "u1" (some "") none 1 2 tables ann
      (λ k cs. refl) (λ c cs. (λ h. h, λ h. h)) (omega arith)

abbrev namesakes : Store
namesakes = record tables { contacts = ann ∷ record ann { id = "c3" } ∷ [] }

abbrev turn : List Contact → List Contact
turn [] = []
turn (c ∷ cs) = cs ++ c ∷ []

-- Where the database turns two equal names round between the pages, one is shown twice and the other
-- not at all.
unsteady_order :
    join_pages
      (λ k.
        map
          (λ f. f.contact.id)
          (shown (
            list_contacts
              (λ q name. false)
              (if eqb k 2 then turn else (λ cs. cs))
              "u1"
              none
              none
              (some k)
              (some 1)
              namesakes)))
      2
    ≡ "c1" ∷ "c1" ∷ []
unfolding list_contacts paginate is_listed
unsteady_order = refl
