-- ===== src/Contacts/Import.antt =====
-- backend/src/contacts/contacts.service.ts: `importContacts`. The CSV parser is csv-parse's: it answers
-- the records of a text, at most ten thousand, or `none` where it throws.
use Prim.Native.String
use Prim.Native.Char.{code, Char}
use callnow.Base.{
  ℕ, Option, String, ◌*◌, Bool, List, if◌then◌else◌, insert_row, or_text, some, Action, [], false,
  truthy, ◌∷◌, eqb, map, none, ok, ◌+◌, length, pure, ◌||◌, ltb, throw, fault, ◌>>=◌, or_throw,
}
use callnow.Contacts.{Contact, ContactPhone, Store}
use Prim.Native.String.{String, [], ◌∷◌}
use callnow.Dialer.Text.{trim}

-- the columns of a record that are read
pub record CsvRow : Type 0 where
  pub phone : Option String
  pub phonenumber : Option String
  pub number : Option String
  pub mobile : Option String
  pub name : Option String
  pub email : Option String
  pub notes : Option String
  pub tags : Option String
  pub label : Option String

pub record ImportResult : Type 0 where
  pub imported : ℕ
  pub skipped : ℕ
  pub total : ℕ

-- `row.phone || row.phonenumber || row.number || row.mobile`
unfoldable pub phone_of_row : CsvRow → String
phone_of_row r = or_text r.phone (or_text r.phonenumber (or_text r.number (or_text r.mobile "")))

-- `/^[=\+\-@\t\r]/`
unfoldable pub is_formula : String → Bool
is_formula String.[] = false
is_formula (String.◌∷◌ c s) =
    eqb (code c) b'='
    || eqb (code c) b'+'
    || eqb (code c) b'-'
    || eqb (code c) b'@'
    || eqb (code c) 9
    || eqb (code c) 13

abbrev pub quote_formula : String → String
quote_formula s = if is_formula s then String.◌++◌ "'" s else s

unfoldable pub sanitize_string : Option String → Option String
sanitize_string none = none
sanitize_string (some s) = if truthy s then some (quote_formula s) else none

abbrev pub onto_first : Char → List String → List String
onto_first c [] = String.◌∷◌ c "" ∷ []
onto_first c (w ∷ ws) = String.◌∷◌ c w ∷ ws

-- `s.split(',')`
unfoldable pub split_commas : String → List String
split_commas String.[] = "" ∷ []
split_commas (String.◌∷◌ c s) =
    let rest = split_commas s in if eqb (code c) b',' then "" ∷ rest else onto_first c rest

unfoldable pub tags_of : Option String → List String
tags_of none = []
tags_of (some s) = if truthy s then map trim (split_commas s) else []

unfoldable pub contact_of_row : String → String → CsvRow → Contact
contact_of_row id user_id r = record {
  id = id;
  user_id = user_id;
  name = or_text (sanitize_string r.name) "Unknown";
  email = sanitize_string r.email;
  notes = sanitize_string r.notes;
  tags = tags_of r.tags;
}

unfoldable pub phone_row : String → CsvRow → ContactPhone
phone_row id r = record {
  contact_id = id;
  number = phone_of_row r;
  label = or_text r.label "mobile";
}

abbrev pub add_row : String → String → CsvRow → Store → Store
add_row id user_id r s = record s {
  contacts = insert_row (contact_of_row id user_id r) s.contacts;
  phones = insert_row (phone_row id r) s.phones;
}

-- the loop, from the counts so far; `id_of` has the id for the contact of a line
unfoldable pub import_rows : (ℕ → String) → String → List CsvRow → ℕ → ℕ → Store → (ℕ × ℕ) × Store
import_rows id_of user_id [] imported skipped s = ((imported, skipped), s)
import_rows id_of user_id (r ∷ rs) imported skipped s =
    if truthy (phone_of_row r)
    then import_rows id_of user_id rs (imported + 1) skipped
        (add_row (id_of (imported + skipped)) user_id r s)
    else import_rows id_of user_id rs imported (skipped + 1) s

abbrev pub max_size : ℕ
max_size = 5 * 1024 * 1024

abbrev pub import_parsed : (ℕ → String) → String → List CsvRow → Action Store ImportResult
import_parsed id_of user_id rs s =
    let (counts, after) = import_rows id_of user_id rs 0 0 s in
    (ok (record { imported = counts.0; skipped = counts.1; total = length rs }), after)

-- `size` is the buffer's length, 0 where there is none; too large a buffer is a plain `Error`.
unfoldable pub import_contacts :
    (String → Option (List CsvRow)) → (ℕ → String) → String → ℕ → String → Action Store ImportResult
import_contacts parse id_of user_id size csv =
    if eqb size 0
    then pure (record { imported = 0; skipped = 0; total = 0 })
    else if ltb max_size size
    then throw fault
    else (do rs ← or_throw (parse csv) fault; import_parsed id_of user_id rs)
