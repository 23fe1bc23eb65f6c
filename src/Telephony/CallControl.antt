-- ===== src/Telephony/CallControl.antt =====
-- What a provider is told to do with a call (`CallControlAction` of backend/src/telephony/interfaces),
-- and the XML that providers/telnyx.provider.ts makes of it.
use Prim.Native.String.{String}
use callnow.Base.{ℕ, String, Option, some, if◌then◌else◌, truthy, none, or_text}
use callnow.Telephony.TelnyxClient.{join, limit_or}
use callnow.Dialer.Text.{decimal_text, decimal}

pub data ActionType : Type 0 where
  dial_client dial_number reject hangup redirect empty : ActionType

-- `CallControlAction`
pub record CallControl : Type 0 where
  pub action_type : ActionType
  pub client_id : Option String
  pub dialled_number : Option String
  pub timeout : Option ℕ
  pub voicemail_redirect : Option String
  pub redirect_url : Option String

abbrev pub xml_start : String
xml_start = "<?xml version=\"1.0\" encoding=\"UTF-8\"?>"

abbrev pub response_xml : String → String
response_xml inner = join xml_start (join "<Response>" (join inner "</Response>"))

abbrev pub empty_xml : String
empty_xml = join xml_start "<Response/>"

abbrev pub dial_xml : CallControl → String → String → String
dial_xml action tag target = response_xml (
    join "<Dial timeout=\"" (
      join (decimal_text (decimal (limit_or action.timeout 30))) (
        join "\" action=\"" (
          join (or_text action.voicemail_redirect "")
            (join "\"><" (join tag (join ">" (join target (join "</" (join tag "></Dial>"))))))))))

-- the verb where the text that it needs is there
abbrev pub verb_if : Option String → (String → String) → String
verb_if none verb = empty_xml
verb_if (some target) verb = if truthy target then verb target else empty_xml

unfoldable pub telnyx_call_control : CallControl → String
telnyx_call_control action = elim action.action_type [
  | dial_client ↦ verb_if action.client_id (dial_xml action "Client")
  | dial_number ↦ verb_if action.dialled_number (dial_xml action "Number")
  | reject ↦ response_xml "<Reject/>"
  | hangup ↦ response_xml "<Hangup/>"
  | redirect ↦
      verb_if action.redirect_url (λ url. response_xml (join "<Redirect>" (join url "</Redirect>")))
  | empty ↦ empty_xml
]
