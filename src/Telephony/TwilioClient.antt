-- ===== src/Telephony/TwilioClient.antt =====
-- backend/src/telephony/providers/twilio.provider.ts: what the provider for Twilio asks of the Twilio
-- library. Its answers are arguments, `none` where it throws; the requests are kept in the order in
-- which they are made. The library writes the XML of a list of verbs.
use Prim.Native.String.{String}
use callnow.Base.{ℕ, Bool, List, String, Option, Action, ◌>>◌, modify, insert_row, fault, require}

-- The options of a search; the area code is the text that `parseInt` reads.
pub record SearchOptions : Type 0 where
  pub limit : ℕ
  pub area_code : Option String
  pub sms_enabled : Bool
  pub mms_enabled : Bool
  pub voice_enabled : Bool

-- a number that the library lists; the rent is a text
pub record TwilioNumber : Type 0 where
  pub phone_number : String
  pub locality : Option String
  pub region : Option String
  pub iso_country : Option String
  pub sms_enabled : Option Bool
  pub voice_enabled : Option Bool
  pub mms_enabled : Option Bool
  pub monthly_rental_amount : Option String

-- a number that was bought
pub record IncomingNumber : Type 0 where
  pub sid : String
  pub phone_number : String
  pub friendly_name : String
  pub iso_country : Option String
  pub voice : Option Bool
  pub sms : Option Bool
  pub mms : Option Bool

-- the three addresses for webhooks, each with the method POST
pub record WebhookUrls : Type 0 where
  pub voice_url : String
  pub sms_url : String
  pub status_callback : String

pub record MessageOptions : Type 0 where
  pub from : String
  pub to : String
  pub body : String
  pub media_url : Option (List String)
  pub status_callback : Option String

pub data Target : Type 0 where
  client_target number_target : String → Target

-- the verbs of an answer to a call
pub data Verb : Type 0 where
  dial : ℕ → Option String → Target → Verb
  reject_call hang_up_call say_nothing : Verb
  redirect_to : String → Verb

pub record CallOptions : Type 0 where
  pub from : String
  pub to : String
  pub twiml : List Verb
  pub status_callback : Option String
  pub status_callback_events : List String
  pub recorded : Bool
  pub machine_detection : Option String

pub data TwilioRequest : Type 0 where
  list_local : String → SearchOptions → TwilioRequest
  create_number : String → WebhookUrls → TwilioRequest
  update_number : String → WebhookUrls → TwilioRequest
  remove_number : String → TwilioRequest
  create_message : MessageOptions → TwilioRequest
  create_call : CallOptions → TwilioRequest
  fetch_recording list_transcriptions : String → TwilioRequest

-- the library, and the fields of the provider
pub record TwilioClient : Type 0 where
  pub found : TwilioRequest → Option (List TwilioNumber)
  pub bought : TwilioRequest → Option IncomingNumber
  pub done : TwilioRequest → Option (Unit {0})
  pub sent : TwilioRequest → Option (String × Option String)
  pub recording : TwilioRequest → Option (String × Option String)
  pub transcriptions : TwilioRequest → Option (List (Option String))
  pub to_jwt : String → String → String → String → ℕ → Option String → String
  pub account_sid : String
  pub api_key : String
  pub api_secret : String
  pub twiml_app_sid : Option String

-- a request, which throws on when the library throws
abbrev pub asks :
    {A : Type 0} → (TwilioRequest → Option A) → TwilioRequest → Action (List TwilioRequest) A
asks answer r = do modify (insert_row r); require (λ s. answer r) fault
