-- ===== src/Common/Examples.antt =====
-- Answers of the backend, as they are sent and as the client reads them.
use callnow.Telephony.Payload.{has_entry, entry_of}
use callnow.Telephony.Payload.{number, flag, items, entries, Payload, entry_of}
use callnow.Common.{
  catch_exception, transform, error_body, has_entry, nothing, some, true, entry_of, http,
  message_only, error_envelope, entry, no_items, no_entries,
}
use callnow.Base.{some, true, ◌≡◌, refl, none}
use callnow.Common.Laws.{told}

abbrev no_data : Unit {0} → Payload
no_data x = nothing

-- Any status below 500 that the filter has no word for is told as an internal error.
bad_json :
    (catch_exception true (http 400 (message_only "Unexpected token") "Unexpected token")).1
    ≡ error_envelope (told "INTERNAL_ERROR" "Unexpected token" none)
unfolding catch_exception error_body
bad_json = refl

page :
    transform (entries (entry "data" (items no_items) (entry "meta" (number 1) no_entries)))
    ≡ entries (
        entry "success"
          (flag true)
          (entry "data" (items no_items) (entry "meta" (number 1) no_entries)))
unfolding transform has_entry entry_of
page = refl
