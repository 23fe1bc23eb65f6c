-- ===== src/Telephony/TelnyxRequests.antt =====
-- backend/src/telephony/providers/telnyx.provider.ts: the requests that buy and release a number, send
-- a message and start a call, the token for the browser, and the address of a recording.
use Prim.Native.String.{String, ◌∷◌}
use callnow.Telephony.Payload.{number}
use callnow.Base.{
  ℕ, Bool, List, String, Option, Action, false, some, if◌then◌else◌, true, ◌∷◌, [], catch_with,
  ◌==◌, pure, ◌>>◌, or_text, ◌>>=◌, ◌/◌, ◌+◌, truthy?,
}
use callnow.Telephony.TelnyxClient.{
  TelnyxClient, join, Log, request, delete, get, patch, post, optional_text, texts,
}
use callnow.Telephony.Payload.{
  Payload, Entries, entries, string, entry, no_entries, number, items, property, item, to_text,
  no_items, or_else, first_item, is_set,
}
use callnow.Numbers.{Capabilities}
use callnow.Dialer.Text.{decimal_text, decimal}

-- `WebhookConfig`
pub record WebhookConfig : Type 0 where
  pub base_url : String
  pub provider : String

abbrev pub webhook_url : WebhookConfig → String → String
webhook_url config path = join config.base_url (join "/webhooks/" (join config.provider path))

-- a warning is all that is left of a request that fails
abbrev pub settled : Action Log Payload → Action Log (Unit {0})
settled m = catch_with (m >> pure tt) (λ e. pure tt)

unfoldable pub configure_telnyx_webhooks :
    TelnyxClient → String → WebhookConfig → Action Log (Unit {0})
configure_telnyx_webhooks client sid config =
    if client.api_key == ""
    then pure tt
    else settled (
        request client (
          patch (join "/phone_numbers/" sid) (
            entries (
              entry "connection_id" (optional_text client.connection_id)
                (entry "webhook_url" (string (webhook_url config "/voice")) no_entries)))))

-- `ProvisionedNumber`
pub record ProvisionedNumber : Type 0 where
  pub provider_sid : Payload
  pub number : String
  pub friendly_name : String
  pub country_code : String
  pub capabilities : Capabilities

abbrev pub provisioned_as : String → String → Payload → ProvisionedNumber
provisioned_as bought friendly_name sid = record {
  provider_sid = sid;
  number = bought;
  friendly_name = friendly_name;
  country_code = "US";
  capabilities = record { voice = true; sms = true; mms = true };
}

-- `${prefix}${Date.now()}`
abbrev pub stamped : String → ℕ → Payload
stamped prefix now = string (join prefix (decimal_text (decimal now)))

unfoldable pub provision_telnyx_number :
    TelnyxClient → ℕ → String → WebhookConfig → Action Log ProvisionedNumber
unfolding configure_telnyx_webhooks
provision_telnyx_number client now bought config =
    if client.api_key == ""
    then pure (provisioned_as bought "Telnyx Number (Simulated)" (stamped "tnyx_num_" now))
    else (do
      response ← request client (
          post "/number_orders" (
            entries (
              entry "phone_numbers"
                (items (item (entries (entry "phone_number" (string bought) no_entries)) no_items))
                no_entries)))
      let sid = or_else (property "id" (property "data" response)) (stamped "tnyx_order_" now)
      configure_telnyx_webhooks client (to_text sid) config
      pure (provisioned_as bought "Telnyx Voice & SMS Number" sid))

unfoldable pub release_telnyx_number : TelnyxClient → String → Action Log (Unit {0})
release_telnyx_number client sid =
    if client.api_key == ""
    then pure tt
    else (request client (delete (join "/phone_numbers/" sid)) >> pure tt)

-- `SendMessageParams`
pub record SendParams : Type 0 where
  pub from : String
  pub to : String
  pub body : String
  pub media_urls : List String
  pub status_callback : Option String

-- `if (x) payload.k = …`
abbrev pub entry_if : Bool → String → Payload → Entries → Entries
entry_if b k v es = if b then entry k v es else es

-- the sid and the status of a message or a call
pub record Sent : Type 0 where
  pub provider_sid : Payload
  pub status : Payload

abbrev pub some_urls : List String → Bool
some_urls [] = false
some_urls (u ∷ us) = true

unfoldable pub send_telnyx_message : TelnyxClient → ℕ → SendParams → Action Log Sent
send_telnyx_message client now params =
    if client.api_key == ""
    then pure (record { provider_sid = stamped "tnyx_msg_" now; status = string "queued" })
    else (do
      response ← request client (
          post "/messages" (
            entries (
              entry "from" (string params.from) (
                entry "to" (string params.to) (
                  entry "text" (string params.body) (
                    entry_if (some_urls params.media_urls) "media_urls"
                      (items (texts params.media_urls))
                      (entry_if (truthy? params.status_callback) "webhook_url"
                        (optional_text params.status_callback) no_entries)))))))
      let fields = property "data" response
      pure (record {
        provider_sid = or_else (property "id" fields) (stamped "tnyx_msg_" now);
        status = or_else (property "status" (first_item (property "to" fields))) (string "queued");
      }))

-- `OutboundCallParams`, as far as they are read
pub record CallParams : Type 0 where
  pub from : String
  pub to : String
  pub client_identity : Option String
  pub status_callback : Option String
  pub recorded : Bool
  pub timeout : Option ℕ
  pub machine_detection : Option String

unfoldable pub initiate_telnyx_call : TelnyxClient → ℕ → CallParams → Action Log Sent
initiate_telnyx_call client now params =
    if client.api_key == ""
    then pure (record { provider_sid = stamped "tnyx_call_" now; status = string "initiated" })
    else (do
      response ← request client (
          post "/calls" (
            entries (
              entry "to" (string params.to) (
                entry "from" (string params.from) (
                  entry "connection_id" (optional_text client.connection_id) (
                    entry_if (truthy? params.status_callback) "webhook_url"
                      (optional_text params.status_callback)
                      (entry_if params.recorded "record_type" (string "record-from-answer") (
                        entry_if (truthy? params.machine_detection) "answering_machine_detection"
                          (string "detect_words") no_entries))))))))
      let fields = property "data" response
      pure (record {
        provider_sid =
            or_else (property "call_control_id" fields)
              (or_else (property "call_leg_id" fields) (stamped "tnyx_call_" now));
        status =
            if is_set (property "call_session_id" fields)
            then string "initiated"
            else string "queued";
      }))

-- the libraries that a token is made with: `JSON.stringify`, the encoding and the signature
pub record Encoding : Type 0 where
  pub stringify : Payload → String
  pub base64url : String → String
  pub hmac : String → String → String

-- the token and its seconds
unfoldable pub generate_telnyx_token : Encoding → TelnyxClient → ℕ → String → String × ℕ
generate_telnyx_token e client now identity =
    let head = e.base64url (
      e.stringify
        (entries (entry "alg" (string "HS256") (entry "typ" (string "JWT") no_entries)))) in
    let body = e.base64url (
      e.stringify (
        entries (
          entry "sub" (string identity) (
            entry "provider" (string "telnyx") (
              entry "iat" (number (now / 1000))
                (entry "exp" (number (now / 1000 + 3600)) no_entries)))))) in
    let signed = join head (join "." body) in
    let secret = or_text (some client.api_key) "telnyx-dev-secret" in
    (join signed (join "." (e.hmac secret signed)), 3600)

-- The address and the text of the seconds, which `parseInt` reads.
unfoldable pub get_telnyx_recording : TelnyxClient → String → Action Log (String × String)
get_telnyx_recording client sid =
    if client.api_key == ""
    then pure (join "https://mock.telnyx.com/recordings/" (join sid ".mp3"), "30")
    else (do
      response ← request client (get (join "/recordings/" sid))
      let fields = property "data" response
      pure (
        to_text (
            or_else (property "mp3" (property "download_urls" fields))
              (or_else (property "wav" (property "download_urls" fields)) (string ""))),
        to_text (or_else (property "duration_secs" fields) (string "0")),
      ))
