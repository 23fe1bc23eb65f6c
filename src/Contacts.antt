-- ===== src/Contacts.antt =====
-- backend/src/contacts/contacts.service.ts, with the columns of backend/prisma/schema.prisma that it
-- uses. A row for a telephone number has its contact's id; the ids of numbers and the times of
-- change are left out, and the ids of new contacts are arguments.
pub mod Import
pub mod Laws
pub mod MatchLaws
pub mod Listing
pub mod Pages
pub mod ListingLaws
mod Examples
use callnow.Base.{
  ℕ, List, Option, String, Action, Bool, [], find_first, find_many, or_text, some, update_where,
  delete_where, gets, if◌then◌else◌, none, ◌==◌, ◌>>=◌, ◌>>◌, modify, require, truthy, ◌&&◌, ◌++◌,
  exists_where, insert_row, map, not_found_exception, not_found, pure,
}

pub record Contact : Type 0 where
  pub id : String
  pub user_id : String
  pub name : String
  pub email : Option String
  pub notes : Option String
  pub tags : List String

pub record ContactPhone : Type 0 where
  pub contact_id : String
  pub number : String
  pub label : String

pub record Store : Type 0 where
  pub contacts : List Contact
  pub phones : List ContactPhone

pub record PhoneDto : Type 0 where
  pub number : String
  pub label : Option String

-- `CreateContactDto`
pub record CreateContact : Type 0 where
  pub name : String
  pub email : Option String
  pub notes : Option String
  pub tags : Option (List String)
  pub phones : Option (List PhoneDto)

-- `UpdateContactDto`
pub record UpdateContact : Type 0 where
  pub name : Option String
  pub email : Option String
  pub notes : Option String
  pub tags : Option (List String)
  pub phones : Option (List PhoneDto)

-- a contact with `include: { phones: true }`
pub record FullContact : Type 0 where
  pub contact : Contact
  pub phones : List ContactPhone

unfoldable pub phones_of : String → List ContactPhone → List ContactPhone
phones_of id = find_many (λ p. p.contact_id == id)

unfoldable pub find_own_contact : String → String → List Contact → Option Contact
find_own_contact id user_id = find_first (λ c. c.id == id && c.user_id == user_id)

unfoldable pub new_phone : String → PhoneDto → ContactPhone
new_phone id p = record { contact_id = id; number = p.number; label = or_text p.label "mobile" }

abbrev pub or_none : {A : Type 0} → Option (List A) → List A
or_none none = []
or_none (some xs) = xs

abbrev pub new_contact : String → String → CreateContact → Contact
new_contact id user_id dto = record {
  id = id;
  user_id = user_id;
  name = dto.name;
  email = dto.email;
  notes = dto.notes;
  tags = or_none dto.tags;
}

unfoldable pub create_contact : String → String → CreateContact → Action Store FullContact
create_contact id user_id dto = do
  modify (λ s. record s {
    contacts = insert_row (new_contact id user_id dto) s.contacts;
    phones = s.phones ++ map (new_phone id) (or_none dto.phones);
  })
  phones ← gets (λ s. phones_of id s.phones)
  pure (record { contact = new_contact id user_id dto; phones = phones })

-- `x !== undefined && { … }`
abbrev pub given : {A : Type 0} → Option A → A → A
given none a = a
given (some b) a = b

abbrev pub given_text : Option String → Option String → Option String
given_text none a = a
given_text (some b) a = some b

unfoldable pub changed : UpdateContact → Contact → Contact
changed dto c = record c {
  name = given dto.name c.name;
  email = given_text dto.email c.email;
  notes = given_text dto.notes c.notes;
  tags = given dto.tags c.tags;
}

-- the old numbers go and the new ones come, where the request has numbers
unfoldable pub replaced : String → Option (List PhoneDto) → List ContactPhone → List ContactPhone
unfolding new_phone
replaced id none phones = phones
replaced id (some ps) phones =
    delete_where (λ p. p.contact_id == id) phones ++ map (new_phone id) ps

unfoldable pub set_changed : String → UpdateContact → List Contact → List Contact
unfolding changed
set_changed id dto = update_where (λ c. c.id == id) (changed dto)

unfoldable pub update_contact : String → String → UpdateContact → Action Store FullContact
update_contact user_id id dto = do
  c ← require (λ s. find_own_contact id user_id s.contacts) (not_found_exception not_found)
  modify (λ s. record s { phones = replaced id dto.phones s.phones })
  modify (λ s. record s { contacts = set_changed id dto s.contacts })
  phones ← gets (λ s. phones_of id s.phones)
  pure (record { contact = changed dto c; phones = phones })

-- The numbers go with the contact, by the foreign key.
unfoldable pub delete_contact : String → String → Action Store (Unit {0})
delete_contact user_id id = do
  require (λ s. find_own_contact id user_id s.contacts) (not_found_exception not_found)
  modify (λ s. record s {
    contacts = delete_where (λ c. c.id == id) s.contacts;
    phones = delete_where (λ p. p.contact_id == id) s.phones;
  })

abbrev pub is_contact_of : String → String → Contact → Bool
is_contact_of id user_id c = c.id == id && c.user_id == user_id

-- `contact: { userId }`
unfoldable pub find_phone : String → String → Store → Option ContactPhone
find_phone number user_id s =
    find_first
      (λ p. p.number == number && exists_where (is_contact_of p.contact_id user_id) s.contacts)
      s.phones

abbrev pub name_or_null : Option Contact → Option String
name_or_null none = none
name_or_null (some c) = if truthy c.name then some c.name else none

unfoldable pub find_contact : String → List Contact → Option Contact
find_contact id = find_first (λ c. c.id == id)

abbrev pub phone_name : Option ContactPhone → List Contact → Option String
phone_name none contacts = none
phone_name (some p) contacts = name_or_null (find_contact p.contact_id contacts)

unfoldable pub match_contact : String → String → Action Store (Option String)
match_contact number user_id = gets (λ s. phone_name (find_phone number user_id s) s.contacts)
