-- ===== src/Telephony/ClientExamples.antt =====
-- A search through a Telnyx that knows one number, which has no features.
use callnow.Telephony.Payload.{
  item, items, string, entries, entry, no_items, no_entries, Payload, entry_of, to_text,
}
use callnow.Base.{some, true, false, none, All, ◌∷◌, [], ◌≡◌, refl}
use callnow.Telephony.TelnyxClient.{
  AvailableNumber, TelnyxClient, search_telnyx_numbers, available_numbers, has_feature,
}
use callnow.Telephony.Search.{search_available_telnyx, IsOffered, search_available_telnyx-IsOffered}

abbrev bare_number : Payload
bare_number = entries (entry "phone_number" (string "+15550009") no_entries)

abbrev keyed_client : TelnyxClient
keyed_client = record {
  answer = λ r. some (entries (entry "data" (items (item bare_number no_items)) no_entries));
  api_key = "KEY";
  connection_id = none;
}

abbrev offered : AvailableNumber
offered = record {
  number = string "+15550009";
  locality = string "";
  region = string "";
  country_code = "GB";
  capabilities = record { voice = true; sms = true; mms = false };
  monthly_cost = "1.0";
}

search_available_telnyx-IsOffered_example :
    All IsOffered (offered ∷ [])
    × (search_available_telnyx keyed_client "GB" none none []
        ≡ search_available_telnyx keyed_client "GB" none (some "mms") [])
unfolding search_available_telnyx search_telnyx_numbers available_numbers entry_of has_feature
    to_text
search_available_telnyx-IsOffered_example =
    search_available_telnyx-IsOffered keyed_client "GB" none (some "mms") none [] (offered ∷ [])
      refl
