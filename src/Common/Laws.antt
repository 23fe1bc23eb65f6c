-- ===== src/Common/Laws.antt =====
-- An answer on its way from a service to the user or to a provider.
use callnow.Calling
use callnow.Telephony.Payload.{string, entries, Payload, entry_of, Entries}
use Prim.Native.String.{String}
use callnow.Base.{
  Bool, Code, Error, String, Option, truthy, ℕ, bad_request, true, some, ◌≡◌,
  unauthorized_exception, not_found_exception, forbidden_exception, ok, fault, none, refl,
  if◌then◌else◌,
}
use callnow.Common.{
  catch_exception, respond, Payload, entry, entry_of, failure, no_entries, success_envelope,
  failure_text, transform, Entries,
}
use callnow.Calling.{Control}
use callnow.Numbers.{Provider}
use callnow.Calling.Voice.{VoiceBody, InboundCall, handle_inbound_call}

abbrev pub code_of : Error → Option Code
code_of (bad_request code) = some code
code_of (unauthorized_exception code) = some code
code_of (not_found_exception code) = some code
code_of (forbidden_exception code) = some code
code_of fault = none

abbrev pub told_field : Option String → Entries
told_field none = no_entries
told_field (some k) = if truthy k then entry "field" (string k) no_entries else no_entries

-- an error as a service throws it: its code, its message and the field that it names, if any
abbrev pub told : String → String → Option String → Payload
told code message named =
    entries (entry "code" (string code) (entry "message" (string message) (told_field named)))

failure_text-hidden : (raw : Option String) → failure_text true raw ≡ "Internal server error"
failure_text-hidden none = refl
failure_text-hidden (some s) = refl

-- What a failure says stays on the server in production: two failures are answered in the same
-- words, with status 500.
pub catch_exception-failure :
    (raw other : Option String)
    → (catch_exception true (failure raw) ≡ catch_exception true (failure other))
      × ((catch_exception true (failure raw)).0 ≡ 500)
unfolding catch_exception
catch_exception-failure raw other =
    rw (failure_text-hidden raw, failure_text-hidden other) (refl, refl)

-- A voice webhook never answers XML to the provider: whatever the XML for the call is, and whatever
-- the call, the body is an object with the XML as one of its fields.
pub respond-wrapped :
    (xml : Control → String) (is_prod : Bool) (status : ℕ) (message : String)
    (named : Option String) (p : Provider) (redis : Bool) (now : ℕ) (id path : String)
    (b : VoiceBody) (c : InboundCall) (s : callnow.Calling.Store) (answered : Control)
    → (handle_inbound_call p redis now id path b c s).0 ≡ ok answered
    → (respond is_prod status
        (λ k. string (xml k))
        message
        named
        (handle_inbound_call p redis now id path b c s).0).1
      ≡ success_envelope (string (xml answered))
unfolding respond transform
respond-wrapped xml is_prod status message named p redis now id path b c s answered ran =
    rw ran refl
