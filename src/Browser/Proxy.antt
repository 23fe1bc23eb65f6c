-- ===== src/Browser/Proxy.antt =====
-- frontend/src/lib/proxy.ts: the server side of the frontend, between the browser, which holds the
-- tokens in cookies, and the backend. Its cookie store is written in the same words as the
-- Set-Cookie headers, which stand for both.
use Prim.Native.String
use Prim.Native.String.{len, slice, String, []}
use text.Mathlib.Text.{starts_with}
use callnow.Browser.{
  Json, null, str, undefined, object, field, no_fields, boolean, is_truthy, num, field_of, spread,
}
use callnow.Base.{
  Bool, Option, String, ℕ, List, if◌then◌else◌, some, ◌||◌, none, truthy?, ◌&&◌, ◌++◌, ◌==◌, [],
  not, or_text, ◌∷◌, true, false,
}
use callnow.Telephony.{or_default}
use callnow.Dialer.Text.{decimal_text, decimal}

-- `access_token=…; HttpOnly; SameSite=Lax; Max-Age=…; Path=/; Secure`
pub record SetCookie : Type 0 where
  pub name : String
  pub value : String
  pub max_age : ℕ
  pub is_secure : Bool

abbrev pub access_ttl : ℕ
access_ttl = 900

abbrev pub refresh_ttl : ℕ
refresh_ttl = 2592000

pub record ProxyOptions : Type 0 where
  pub method : String
  pub body : Json
  pub authorization : Option String

-- what is sent to the backend
pub record Forwarded : Type 0 where
  pub path : String
  pub method : String
  pub authorization : Option String
  pub body : Option Json

-- what is answered to the browser: the body of the backend as it is, and its status
pub record ProxyResponse : Type 0 where
  pub status : ℕ
  pub body : Json
  pub set_cookies : List SetCookie

-- `` `${x}` ``, of a value that is no list
abbrev pub interpolated : Json → String
interpolated undefined = "undefined"
interpolated null = "null"
interpolated (boolean true) = "true"
interpolated (boolean false) = "false"
interpolated (num n) = decimal_text (decimal n)
interpolated (str s) = s
interpolated (object fs) = "[object Object]"

-- `x?.k`
abbrev pub get_optional : String → Json → Json
get_optional k undefined = undefined
get_optional k null = undefined
get_optional k (boolean b) = undefined
get_optional k (num n) = undefined
get_optional k (str s) = undefined
get_optional k (object fs) = field_of k fs

-- `AUTH_ENDPOINTS.some((ep) => path.startsWith(ep))`
abbrev pub is_auth_endpoint : String → Bool
is_auth_endpoint path =
    starts_with path "/auth/login"
    || starts_with path "/auth/refresh"
    || starts_with path "/auth/google"
    || starts_with path "/auth/2fa/verify"
    || starts_with path "/auth/login/phone"

-- A header that was made of no token is taken away.
abbrev pub without_stale : Option String → Option String
without_stale none = none
without_stale (some h) = if h == "Bearer null" || h == "Bearer undefined" then none else some h

-- the header that goes out: the caller's, or else the cookie's token
unfoldable pub authorization_of : Option String → Option String → Option String
authorization_of token header =
    if truthy? token && not (truthy? (without_stale header))
    then some (String.◌++◌ "Bearer " (or_text token ""))
    else without_stale header

-- `cookieStore.get("refresh_token")?.value || options.body?.refreshToken`
abbrev pub refresh_token_of : Option String → Json → Json
refresh_token_of token body =
    if truthy? token then str (or_text token "") else get_optional "refreshToken" body

-- the body, which gets the refresh token on its way to /auth/refresh
unfoldable pub body_of : Option String → String → Json → Json
body_of token path body =
    if path == "/auth/refresh" && is_truthy (refresh_token_of token body)
    then spread body (field "refreshToken" (refresh_token_of token body) no_fields)
    else body

-- the way out, with the two cookies that the request brings
unfoldable pub forward : Option String → Option String → String → ProxyOptions → Forwarded
unfolding authorization_of body_of
forward access refresh path o =
    let sent = body_of refresh path o.body in
    record {
      path = path;
      method = o.method;
      authorization = authorization_of access o.authorization;
      body = if is_truthy sent && not (o.method == "GET") then some sent else none;
    }

abbrev pub cookie_of : Bool → String → ℕ → Json → List SetCookie
cookie_of is_secure name ttl token =
    if is_truthy token
    then record { name = name; value = interpolated token; max_age = ttl; is_secure = is_secure }
      ∷ []
    else []

abbrev pub removal : Bool → String → SetCookie
removal is_secure name = record { name = name; value = ""; max_age = 0; is_secure = is_secure }

unfoldable pub token_cookies : Bool → String → Json → List SetCookie
token_cookies is_secure path body =
    let tokens = get_optional "data" body in
    if is_auth_endpoint path && is_truthy tokens
    then cookie_of is_secure "access_token" access_ttl (get_optional "accessToken" tokens)
      ++ cookie_of is_secure "refresh_token" refresh_ttl (get_optional "refreshToken" tokens)
    else []

unfoldable pub logout_cookies : Bool → String → List SetCookie
logout_cookies is_secure path =
    if path == "/auth/logout"
    then removal is_secure "access_token" ∷ removal is_secure "refresh_token" ∷ []
    else []

-- the way back; an answer that is no JSON makes the call reject, and nothing is set
unfoldable pub answer : Bool → String → ℕ → Option Json → Option ProxyResponse
unfolding token_cookies logout_cookies
answer is_secure path status none = none
answer is_secure path status (some body) = some (record {
  status = status;
  body = body;
  set_cookies = token_cookies is_secure path body ++ logout_cookies is_secure path;
})

-- the token in the header of a request to the frontend
abbrev pub get_auth_token : Option String → Option String
get_auth_token none = none
get_auth_token (some auth) =
    if starts_with auth "Bearer " then some (slice auth 7 (len auth)) else none

-- frontend/src/app/api/auth/logout/route.ts: the header that the route makes of the request's
abbrev pub logout_header : Option String → Option String
logout_header auth = some (String.◌++◌ "Bearer " (or_default (get_auth_token auth) "null"))

unfoldable pub logout_route : Option String → Option String → Option String → Json → Forwarded
unfolding forward
logout_route access refresh auth body =
    forward access refresh "/auth/logout"
      (record { method = "POST"; body = body; authorization = logout_header auth })
