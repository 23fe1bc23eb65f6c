-- ===== src/Telephony/TelnyxClient.antt =====
-- backend/src/telephony/providers/telnyx.provider.ts: what the provider for Telnyx asks of its HTTP
-- interface. The answers are the HTTP client's, `none` where it throws; the requests are kept in the
-- order in which they are made. Without a key most operations answer by themselves.
use Prim.Native.String
use Prim.Native.String.{String, []}
use callnow.Telephony.Payload.{nothing}
use callnow.Base.{
  ℕ, Bool, List, String, Option, Action, map_option, some, ◌==◌, ◌∷◌, [], false, if◌then◌else◌,
  none, or_text, ◌>>◌, ◌||◌, eqb, modify, pure, true, insert_row, or_throw, ◌>>=◌, fault, require,
}
use callnow.Telephony.Payload.{
  Items, Payload, entries, items, missing, no_items, or_else, property, string, entry, entry_of,
  first_item, flag, item, number, to_text, no_entries,
}
use callnow.Numbers.{Capabilities}
use callnow.Telephony.{to_lower_case}
use callnow.Telephony.Telnyx.{or_throws}
use callnow.Dialer.Text.{includes_text}

pub data HttpRequest : Type 0 where
  get delete : String → HttpRequest
  get_with post patch : String → Payload → HttpRequest

-- the client, and the fields of the provider
pub record TelnyxClient : Type 0 where
  pub answer : HttpRequest → Option Payload
  pub api_key : String
  pub connection_id : Option String

abbrev pub Log : Type 0
Log = List HttpRequest

abbrev pub request : TelnyxClient → HttpRequest → Action Log Payload
request client r = do modify (insert_row r); require (λ s. client.answer r) fault

abbrev pub optional_text : Option String → Payload
optional_text none = missing
optional_text (some s) = string s

-- `${a}${b}`
abbrev pub join : String → String → String
join a b = String.◌++◌ a b

abbrev pub texts : List String → Items
texts [] = no_items
texts (s ∷ ss) = item (string s) (texts ss)

-- `NumberSearchParams`
pub record NumberSearch : Type 0 where
  pub country_code : String
  pub area_code : Option String
  pub capabilities : List String
  pub limit : Option ℕ

-- `AvailableNumber`; the monthly cost is the text that `parseFloat` reads.
pub record AvailableNumber : Type 0 where
  pub number : Payload
  pub locality : Payload
  pub region : Payload
  pub country_code : String
  pub capabilities : Capabilities
  pub monthly_cost : String

abbrev pub limit_or : Option ℕ → ℕ → ℕ
limit_or none d = d
limit_or (some n) d = if eqb n 0 then d else n

-- `f.name?.toLowerCase().includes(feat)`: `none` where it throws
abbrev pub name_includes : String → Payload → Option Bool
name_includes feature missing = some false
name_includes feature nothing = some false
name_includes feature (string s) = some (includes_text feature (to_lower_case s))
name_includes feature (flag b) = none
name_includes feature (number n) = none
name_includes feature (items xs) = none
name_includes feature (entries es) = none

-- `x.k`, which throws of null and undefined
abbrev pub member_of : String → Payload → Option Payload
member_of k missing = none
member_of k nothing = none
member_of k (entries es) = some (entry_of k es)
member_of k (flag b) = some missing
member_of k (number n) = some missing
member_of k (string s) = some missing
member_of k (items xs) = some missing

abbrev pub bind_option : {A B : Type 0} → Option A → (A → Option B) → Option B
bind_option none f = none
bind_option (some a) f = f a

abbrev pub feature_named : String → Payload → Option Bool
feature_named feature f = bind_option (member_of "name" f) (name_includes feature)

-- `features.some(…)`
unfoldable pub has_feature : String → Items → Option Bool
has_feature feature no_items = some false
has_feature feature (item f fs) = or_throws (feature_named feature f) (has_feature feature fs)

abbrev pub has_feature_of : String → Payload → Option Bool
has_feature_of feature (items fs) = has_feature feature fs
has_feature_of feature missing = none
has_feature_of feature nothing = none
has_feature_of feature (flag b) = none
has_feature_of feature (number n) = none
has_feature_of feature (string s) = none
has_feature_of feature (entries es) = none

-- `hasFeature('voice') || true`, and so on
abbrev pub capabilities_of : Bool → Bool → Bool → Capabilities
capabilities_of voice sms mms = record {
  voice = voice || true;
  sms = sms || true;
  mms = mms || false;
}

abbrev pub feature_capabilities : Payload → Option Capabilities
feature_capabilities features = bind_option (has_feature_of "voice" features) (λ voice.
    bind_option (has_feature_of "sms" features)
      (λ sms. map_option (capabilities_of voice sms) (has_feature_of "mms" features)))

abbrev pub available_with : String → Payload → Capabilities → AvailableNumber
available_with country_code x caps = record {
  number = property "phone_number" x;
  locality =
      or_else (property "region_name" (first_item (property "region_information" x))) (string "");
  region =
      or_else (property "region_type" (first_item (property "region_information" x))) (string "");
  country_code = country_code;
  capabilities = caps;
  monthly_cost =
      to_text (or_else (property "upfront_cost" (property "cost_information" x)) (string "1.0"));
}

abbrev pub available_of : String → Payload → Option AvailableNumber
available_of country_code x = bind_option (member_of "features" x) (λ features.
    map_option (available_with country_code x)
      (feature_capabilities (or_else features (items no_items))))

abbrev pub add_available :
    Option AvailableNumber → Option (List AvailableNumber) → Option (List AvailableNumber)
add_available found rest = bind_option found (λ n. map_option (λ ns. n ∷ ns) rest)

unfoldable pub available_numbers : String → Items → Option (List AvailableNumber)
available_numbers country_code no_items = some []
available_numbers country_code (item x xs) =
    add_available (available_of country_code x) (available_numbers country_code xs)

-- `data.map(…)`, which only a list has
abbrev pub available_list : String → Payload → Option (List AvailableNumber)
available_list country_code (items xs) = available_numbers country_code xs
available_list country_code missing = none
available_list country_code nothing = none
available_list country_code (flag b) = none
available_list country_code (number n) = none
available_list country_code (string s) = none
available_list country_code (entries es) = none

abbrev pub mock_number : String → String → String → AvailableNumber
mock_number country_code area_code ending = record {
  number = string (join "+1" (join area_code ending));
  locality = string "San Francisco";
  region = string "CA";
  country_code = country_code;
  capabilities = record { voice = true; sms = true; mms = true };
  monthly_cost = "1.0";
}

abbrev pub mock_numbers : String → String → List AvailableNumber
mock_numbers country_code area_code =
    mock_number country_code area_code "5550101" ∷ mock_number country_code area_code "5550102" ∷ []

abbrev pub search_request : String → NumberSearch → HttpRequest
search_request country_code params = get_with "/available_phone_numbers" (
    entries (
      entry "filter[country_code]" (string country_code) (
        entry "filter[national_destination_code]" (optional_text params.area_code)
          (entry "page[size]" (number (limit_or params.limit 20)) no_entries))))

unfoldable pub search_telnyx_numbers :
    TelnyxClient → NumberSearch → Action Log (List AvailableNumber)
search_telnyx_numbers client params =
    let country_code = or_text (some params.country_code) "US" in
    if client.api_key == ""
    then pure (mock_numbers country_code (or_text params.area_code "415"))
    else (do
      response ← request client (search_request country_code params)
      or_throw (available_list country_code (or_else (property "data" response) (items no_items)))
          fault)
