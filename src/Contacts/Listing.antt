-- ===== src/Contacts/Listing.antt =====
-- backend/src/contacts/contacts.service.ts: `listContacts`, as contacts.controller.ts calls it. The
-- match of names without regard to case and the order by name are the database's.
use Prim.Native.String.{String}
use callnow.Base.{
  ℕ, Bool, List, String, Option, some, ◌==◌, Action, none, true, ◌&&◌, ◌||◌, exists_where,
  if◌then◌else◌, truthy, gets, map, find_many,
}
use callnow.Contacts.{Contact, ContactPhone, FullContact, Store, phones_of}
use callnow.Dialer.Campaigns.{Page, paginate}
use callnow.Dialer.Text.{includes_text}

-- the name, or one of the numbers
unfoldable pub has_search : (String → String → Bool) → String → List ContactPhone → Contact → Bool
has_search has_name q phones c =
    has_name q c.name || exists_where (λ p. p.contact_id == c.id && includes_text q p.number) phones

abbrev pub is_found : (String → String → Bool) → Option String → List ContactPhone → Contact → Bool
is_found has_name none phones c = true
is_found has_name (some q) phones c = if truthy q then has_search has_name q phones c else true

abbrev pub is_tagged : Option String → Contact → Bool
is_tagged none c = true
is_tagged (some tag) c = if truthy tag then exists_where (λ t. t == tag) c.tags else true

unfoldable pub is_listed :
    (String → String → Bool)
    → String
    → Option String
    → Option String
    → List ContactPhone
    → Contact
    → Bool
is_listed has_name user_id search tag phones c =
    c.user_id == user_id && is_found has_name search phones c && is_tagged tag c

abbrev pub with_phones : List ContactPhone → Contact → FullContact
with_phones phones c = record { contact = c; phones = phones_of c.id phones }

-- `page ? +page : 1`
abbrev pub given_or : ℕ → Option ℕ → ℕ
given_or d none = d
given_or d (some n) = n

-- Pages count from 1; the database refuses a page 0. `sort` is the order that the database gives the
-- rows at this call: equal names may come in another order at the next.
unfoldable pub list_contacts :
    (String → String → Bool)
    → (List Contact → List Contact)
    → String
    → Option String
    → Option String
    → Option ℕ
    → Option ℕ
    → Action Store (Page FullContact)
list_contacts has_name sort user_id search tag page limit = gets (λ s.
    paginate (given_or 1 page) (given_or 50 limit) (
      map (with_phones s.phones)
        (sort (find_many (is_listed has_name user_id search tag s.phones) s.contacts))))
