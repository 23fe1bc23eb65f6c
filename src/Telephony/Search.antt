-- ===== src/Telephony/Search.antt =====
-- backend/src/numbers/numbers.service.ts: `searchAvailableNumbers`, and what a provider makes of it.
use callnow.Telephony.Payload.{Payload, Items, no_items, item, or_else, items, property}
use callnow.Telephony.Payload.{missing, nothing, flag, number, string, entries, items}
use callnow.Base.{
  Bool, List, String, Option, [], some, ◌≡◌, Action, All, if◌then◌else◌, true, truthy, map, none,
  sym, ap, ok, refl, ◌||◌, ◌∷◌, false, ◌∙◌, or_text, result_of, Bool-cases, fault, Option-cases,
  ◌==◌, inl, arith, inr,
}
use callnow.Telephony.TelnyxClient.{
  AvailableNumber, NumberSearch, available_numbers, search_telnyx_numbers, TelnyxClient,
  available_of, Log, bind_option, capabilities_of, feature_capabilities, has_feature_of, member_of,
  available_with, available_list, search_request, mock_numbers,
}
use callnow.Telephony.Payload.{Payload, Items, item}
use callnow.Telephony.{to_lower_case}
use callnow.Dialer.Text.{trim}
use callnow.Contacts.Import.{split_commas}
use callnow.Numbers.{Capabilities}
use callnow.Telephony.TelnyxLaws.{map_option-eq-some}

abbrev pub capability_list : Option String → List String
capability_list none = []
capability_list (some s) =
    if truthy s then map (λ c. to_lower_case (trim c)) (split_commas s) else []

-- what the service passes to its provider
unfoldable pub search_of : String → Option String → Option String → NumberSearch
search_of country_code area_code capabilities = record {
  country_code = country_code;
  area_code = area_code;
  capabilities = capability_list capabilities;
  limit = some 20;
}

unfoldable pub search_available_telnyx :
    TelnyxClient → String → Option String → Option String → Action Log (List AvailableNumber)
unfolding search_of search_telnyx_numbers
search_available_telnyx client country_code area_code capabilities =
    search_telnyx_numbers client (search_of country_code area_code capabilities)

abbrev pub IsOffered : AvailableNumber → Type 0
IsOffered n = (n.capabilities.voice ≡ true) × (n.capabilities.sms ≡ true)

bind_option-eq-some :
    {A B : Type 0} (o : Option A) (f : A → Option B) (b : B)
    → bind_option o f ≡ some b
    → (a : A) × (o ≡ some a) × (f a ≡ some b)
bind_option-eq-some none f b h = cc
bind_option-eq-some (some a) f b h = (a, refl, h)

or_true : (b : Bool) → (b || true) ≡ true
or_true true = refl
or_true false = refl

feature_capabilities-offers :
    (features : Payload) (caps : Capabilities)
    → feature_capabilities features ≡ some caps
    → (caps.voice ≡ true) × (caps.sms ≡ true)
feature_capabilities-offers features caps e =
    let (voice, heard, e1) = bind_option-eq-some (has_feature_of "voice" features) _ caps e in
    let (sms, read, e2) = bind_option-eq-some (has_feature_of "sms" features) _ caps e1 in
    let (mms, seen, same) =
      map_option-eq-some (capabilities_of voice sms) (has_feature_of "mms" features) caps e2 in
    (ap (λ c. c.voice) (sym same) ∙ or_true voice, ap (λ c. c.sms) (sym same) ∙ or_true sms)

available_of-IsOffered :
    (country_code : String) (x : Payload) (n : AvailableNumber)
    → available_of country_code x ≡ some n
    → IsOffered n
available_of-IsOffered country_code x n e =
    let (features, has, e1) = bind_option-eq-some (member_of "features" x) _ n e in
    let (caps, known, same) =
      map_option-eq-some (available_with country_code x)
        (feature_capabilities (or_else features (items no_items))) n e1 in
    let offers = feature_capabilities-offers (or_else features (items no_items)) caps known in
    (
      ap (λ m. m.capabilities.voice) (sym same) ∙ offers.0,
      ap (λ m. m.capabilities.sms) (sym same) ∙ offers.1,
    )

available_numbers-IsOffered :
    (country_code : String) (xs : Items) (ns : List AvailableNumber)
    → available_numbers country_code xs ≡ some ns
    → All IsOffered ns
unfolding available_numbers
available_numbers-IsOffered country_code no_items ns e = let same : [] ≡ ns = cc in rw (sym same) tt
available_numbers-IsOffered country_code (item x xs) ns e =
    let (n, first, e1) = bind_option-eq-some (available_of country_code x) _ ns e in
    let (later, rest, same) =
      map_option-eq-some (λ ms. n ∷ ms) (available_numbers country_code xs) ns e1 in
    rw (sym same) (
      available_of-IsOffered country_code x n first,
      available_numbers-IsOffered country_code xs later rest,
    )

available_list-IsOffered :
    (country_code : String) (found : Payload) (ns : List AvailableNumber)
    → result_of (available_list country_code found) fault ≡ ok ns
    → All IsOffered ns
available_list-IsOffered country_code (items xs) ns e =
    elim (Option-cases (available_numbers country_code xs)) [
      | inl failed ↦ absurd (ground (arith, failed))
      | inr (ms, listed) ↦
          let same : ms ≡ ns = ground (arith, listed) in
          rw (sym same) (available_numbers-IsOffered country_code xs ms listed)
    ]
available_list-IsOffered country_code missing ns e = cc
available_list-IsOffered country_code nothing ns e = cc
available_list-IsOffered country_code (flag b) ns e = cc
available_list-IsOffered country_code (number n) ns e = cc
available_list-IsOffered country_code (string s) ns e = cc
available_list-IsOffered country_code (entries es) ns e = cc

-- A search through Telnyx offers every number as one for calls and messages, whatever features
-- Telnyx says that the number has; and what is offered, and asked of Telnyx, is the same whatever
-- capabilities the user asks for.
pub search_available_telnyx-IsOffered :
    (client : TelnyxClient) (country_code : String) (area_code capabilities others : Option String)
    (log : Log) (ns : List AvailableNumber)
    → (search_available_telnyx client country_code area_code capabilities log).0 ≡ ok ns
    → All IsOffered ns
      × (search_available_telnyx client country_code area_code others log
          ≡ search_available_telnyx client country_code area_code capabilities log)
unfolding search_available_telnyx search_telnyx_numbers search_of
search_available_telnyx-IsOffered client country_code area_code capabilities others log ns e =
    let country = or_text (some country_code) "US" in
    let r = search_request country (search_of country_code area_code capabilities) in
    (
      elim (Bool-cases (client.api_key == "")) [
        | inl unkeyed ↦
            let same : mock_numbers country (or_text area_code "415") ≡ ns =
              ground (arith, unkeyed, e) in
            rw (sym same) ((refl, refl), ((refl, refl), tt))
        | inr keyed ↦ elim (Option-cases (client.answer r)) [
          | inl silent ↦ absurd (ground (arith, keyed, silent, e))
          | inr (response, answered) ↦
              available_list-IsOffered country (or_else (property "data" response) (items no_items))
                ns (ground (arith, keyed, answered, e))
        ]
      ],
      refl,
    )
