-- ===== src/Common.antt =====
-- backend/src/common: the envelope of every answer. `catch_exception` is the filter of
-- filters/http-exception.filter.ts, `transform` the interceptor of interceptors/transform.interceptor.ts
-- and `extract_api_error` what frontend/src/lib/api.ts makes of an error.
use Prim.Native.String
use Prim.Native.String.{String}
use Prim.Native.Nat.{ℕ}
use callnow.Base.{
  Bool, Code, Error, Option, String, ℕ, Result, bad_request, if◌then◌else◌, some, validation_error,
  eqb, none, ok, rate_limited, unauthorized_exception, err, false, not_found_exception, true,
  unauthorized, ◌&&◌, forbidden_exception, not_found, fault, forbidden, plan_limit_exceeded,
  number_not_owned,
}
use callnow.Telephony.Payload.{
  missing, nothing, no_items, Entries, Items, Payload, entries, entry, item, items, nothing, flag,
  has_entry, is_set, string, no_entries, number, or_else, to_text, entry_of, property,
}
pub mod Laws
mod Examples

-- what `getResponse` of an exception of the framework gives
pub data ExceptionBody : Type 0 where
  message_only : String → ExceptionBody
  fields : Entries → ExceptionBody

-- `failure` is any other error, with its message if it is an Error.
pub data Exception : Type 0 where
  http : ℕ → ExceptionBody → String → Exception
  failure : Option String → Exception

abbrev pub status_to_code : ℕ → String
status_to_code status =
    if eqb status 401
    then "UNAUTHORIZED"
    else (if eqb status 403
        then "FORBIDDEN"
        else (if eqb status 404
            then "NOT_FOUND"
            else (if eqb status 422
                then "VALIDATION_ERROR"
                else (if eqb status 429
                    then "RATE_LIMITED"
                    else (if eqb status 502 then "PROVIDER_ERROR" else "INTERNAL_ERROR")))))

-- `messages.map((m) => String(m))`
unfoldable pub texts : Items → Items
texts no_items = no_items
texts (item x xs) = item (string (to_text x)) (texts xs)

abbrev pub message_of : Payload → String → Payload
message_of (items xs) message = items (texts xs)
message_of missing message = string message
message_of nothing message = string message
message_of (flag b) message = if b then flag b else string message
message_of (number n) message = or_else (number n) (string message)
message_of (string s) message = or_else (string s) (string message)
message_of (entries es) message = entries es

abbrev pub with_field : Payload → Entries
with_field x = if is_set x then entry "field" x no_entries else no_entries

unfoldable pub error_body : ℕ → ExceptionBody → String → Payload
error_body status (message_only text) message =
    entries
      (entry "code" (string (status_to_code status)) (entry "message" (string text) no_entries))
error_body status (fields resp) message = entries (
    entry "code" (or_else (entry_of "code" resp) (string (status_to_code status))) (
      entry "message" (message_of (entry_of "message" resp) message)
        (with_field (entry_of "field" resp))))

abbrev pub failure_text : Bool → Option String → String
failure_text is_prod none = "Internal server error"
failure_text is_prod (some raw) = if is_prod then "Internal server error" else raw

abbrev pub error_envelope : Payload → Payload
error_envelope error = entries (entry "success" (flag false) (entry "error" error no_entries))

-- the status and the body of the answer to an exception
unfoldable pub catch_exception : Bool → Exception → ℕ × Payload
unfolding error_body
catch_exception is_prod (http status body message) =
    (status, error_envelope (error_body status body message))
catch_exception is_prod (failure raw) = (
  500,
  error_envelope (
      entries (
        entry "code" (string "INTERNAL_ERROR")
          (entry "message" (string (failure_text is_prod raw)) no_entries))),
)

abbrev pub success_envelope : Payload → Payload
success_envelope x = entries (entry "success" (flag true) (entry "data" x no_entries))

abbrev pub transform_object : Entries → Payload
transform_object es =
    if has_entry "success" es
    then entries es
    else (if has_entry "data" es && has_entry "meta" es
        then entries (
            entry "success" (flag true)
              (entry "data" (entry_of "data" es) (entry "meta" (entry_of "meta" es) no_entries)))
        else success_envelope (entries es))

-- what is sent for what a handler returns
unfoldable pub transform : Payload → Payload
transform missing = success_envelope nothing
transform nothing = success_envelope nothing
transform (flag b) = success_envelope (flag b)
transform (number n) = success_envelope (number n)
transform (string s) = success_envelope (string s)
transform (items xs) = success_envelope (items xs)
transform (entries es) = transform_object es

abbrev pub unknown_error : String → Payload
unknown_error message =
    entries (entry "code" (string "UNKNOWN") (entry "message" (string message) no_entries))

-- The body of the answer is absent where none came; `message` is the error's own, if it is an Error.
unfoldable pub extract_api_error : Option Payload → Option String → Payload
extract_api_error none none = unknown_error "An unexpected error occurred. Please try again."
extract_api_error none (some message) = unknown_error message
extract_api_error (some body) none =
    or_else (property "error" body)
      (unknown_error "An unexpected error occurred. Please try again.")
extract_api_error (some body) (some message) =
    or_else (property "error" body) (unknown_error message)

-- the exceptions of the services, by the code that they carry
abbrev pub code_text : Code → String
code_text validation_error = "VALIDATION_ERROR"
code_text rate_limited = "RATE_LIMITED"
code_text unauthorized = "UNAUTHORIZED"
code_text not_found = "NOT_FOUND"
code_text forbidden = "FORBIDDEN"
code_text plan_limit_exceeded = "PLAN_LIMIT_EXCEEDED"
code_text number_not_owned = "NUMBER_NOT_OWNED"

-- `field: …`, which register names
abbrev pub field_entry : Option String → Entries
field_entry none = no_entries
field_entry (some k) = entry "field" (string k) no_entries

-- an exception with `{ code, message }` or `{ code, message, field }`, as the services make them
abbrev pub coded : ℕ → Code → String → Option String → Exception
coded status code message named =
    http status
      (fields (
        entry "code" (string (code_text code))
          (entry "message" (string message) (field_entry named))))
      message

abbrev pub exception_of : Error → String → Option String → Exception
exception_of (bad_request code) message named = coded 400 code message named
exception_of (unauthorized_exception code) message named = coded 401 code message named
exception_of (not_found_exception code) message named = coded 404 code message named
exception_of (forbidden_exception code) message named = coded 403 code message named
exception_of fault message named = failure (some message)

-- what goes back over HTTP, from the result of a handler: `status` is the route's, `shown` gives the
-- value as it is sent, `message` is the text of the exception and `named` the field that it names
unfoldable pub respond :
    {A : Type 0} → Bool → ℕ → (A → Payload) → String → Option String → Result A → ℕ × Payload
unfolding catch_exception transform
respond is_prod status shown message named (ok a) = (status, transform (shown a))
respond is_prod status shown message named (err e) =
    catch_exception is_prod (exception_of e message named)
