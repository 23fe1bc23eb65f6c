-- ===== src/Telephony/Payload.antt =====
-- The body of a webhook that comes as JSON, as backend/src/telephony reads it: a value with lists,
-- and what JavaScript makes of a property, of a list's first element, of a condition and of
-- `String(x)`.
use Prim.Native.String
use Prim.Native.String.{String}
use callnow.Base.{
  Bool, String, if◌then◌else◌, Option, false, ℕ, ◌==◌, not, some, ◌||◌, eqb, none, truthy, true,
}
use callnow.Dialer.Text.{decimal_text, decimal}

mutual
  pub data Payload : Type 0 where
    missing nothing : Payload
    flag : Bool → Payload
    number : ℕ → Payload
    string : String → Payload
    items : Items → Payload
    entries : Entries → Payload

  pub data Items : Type 0 where
    no_items : Items
    item : Payload → Items → Items

  pub data Entries : Type 0 where
    no_entries : Entries
    entry : String → Payload → Entries → Entries

unfoldable pub entry_of : String → Entries → Payload
entry_of k no_entries = missing
entry_of k (entry j v es) = if j == k then v else entry_of k es

unfoldable pub has_entry : String → Entries → Bool
has_entry k no_entries = false
has_entry k (entry j v es) = j == k || has_entry k es

-- `x?.k`, of a name that only objects have
abbrev pub property : String → Payload → Payload
property k (entries es) = entry_of k es
property k missing = missing
property k nothing = missing
property k (flag b) = missing
property k (number n) = missing
property k (string s) = missing
property k (items xs) = missing

-- `x?.[0]`: the first character of a text has none of the properties that are read of it.
abbrev pub first_item : Payload → Payload
first_item (items no_items) = missing
first_item (items (item x xs)) = x
first_item (entries es) = entry_of "0" es
first_item missing = missing
first_item nothing = missing
first_item (flag b) = missing
first_item (number n) = missing
first_item (string s) = missing

abbrev pub is_set : Payload → Bool
is_set missing = false
is_set nothing = false
is_set (flag b) = b
is_set (number n) = not (eqb n 0)
is_set (string s) = truthy s
is_set (items xs) = true
is_set (entries es) = true

-- `x || y`
abbrev pub or_else : Payload → Payload → Payload
or_else x y = if is_set x then x else y

-- `k in x`: `none` where it throws, of a value that is no object
abbrev pub has_property : String → Payload → Option Bool
has_property k (entries es) = some (has_entry k es)
has_property k (items xs) = some false
has_property k missing = none
has_property k nothing = none
has_property k (flag b) = none
has_property k (number n) = none
has_property k (string s) = none

-- `String(x)`: a list shows its elements between commas, and null and undefined as nothing.
unfoldable mutual
  pub to_text : Payload → String
  to_text missing = "undefined"
  to_text nothing = "null"
  to_text (flag b) = if b then "true" else "false"
  to_text (number n) = decimal_text (decimal n)
  to_text (string s) = s
  to_text (items xs) = join_items xs
  to_text (entries es) = "[object Object]"

  pub join_items : Items → String
  join_items no_items = ""
  join_items (item x no_items) = element_text x
  join_items (item x (item y ys)) =
      String.◌++◌ (element_text x) (String.◌++◌ "," (join_items (item y ys)))

  pub element_text : Payload → String
  element_text missing = ""
  element_text nothing = ""
  element_text (flag b) = if b then "true" else "false"
  element_text (number n) = decimal_text (decimal n)
  element_text (string s) = s
  element_text (items xs) = join_items xs
  element_text (entries es) = "[object Object]"

-- `typeof body === 'object' && body !== null ? body : {}`
abbrev pub object_body : Payload → Payload
object_body (entries es) = entries es
object_body (items xs) = items xs
object_body missing = entries no_entries
object_body nothing = entries no_entries
object_body (flag b) = entries no_entries
object_body (number n) = entries no_entries
object_body (string s) = entries no_entries
