-- ===== src/Browser/ProxyLaws.antt =====
-- A session through the proxy (frontend/src/lib/proxy.ts): what the browser keeps in its cookies.
use text.Mathlib.TextPositions.{len-append, slice-append_right, starts_with-append}
use Prim.Native.String
use Prim.Native.String.{len, slice, String, ◌∷◌}
use callnow.Browser.{
  Json, null, str, undefined, object, field, no_fields, boolean, num, is_truthy, merge, field_of,
}
use callnow.Base.{
  String, Option, some, ◌≡◌, List, if◌then◌else◌, none, true, ◌==◌, ◌∷◌, [], eqb, refl, Bool, ℕ,
  false, truthy, ap, arith, ◌∙◌, inl, ◌⊎◌, inr,
}
use callnow.Browser.Proxy.{
  get_auth_token, get_optional, SetCookie, Forwarded, ProxyResponse, answer, forward, token_cookies,
  logout_cookies, authorization_of, is_auth_endpoint, access_ttl, body_of, refresh_ttl, removal,
}

is_truthy_of_field :
    (k : String) (j : Json) (s : String) → get_optional k j ≡ str s → is_truthy j ≡ true
is_truthy_of_field k undefined s h = cc
is_truthy_of_field k null s h = cc
is_truthy_of_field k (boolean b) s h = cc
is_truthy_of_field k (num n) s h = cc
is_truthy_of_field k (str t) s h = cc
is_truthy_of_field k (object fs) s h = refl

get_auth_token-bearer : (s : String) → get_auth_token (some (String.◌++◌ "Bearer " s)) ≡ some s
get_auth_token-bearer s =
    let cut : slice (String.◌++◌ "Bearer " s) 7 (len (String.◌++◌ "Bearer " s)) ≡ s =
      ap (λ n. slice (String.◌++◌ "Bearer " s) 7 n) (len-append "Bearer " s)
      ∙ slice-append_right "Bearer " s in
    rw (starts_with-append "Bearer " s) (ap some cut)

-- the cookies of a session
session_cookies : Bool → String → String → List SetCookie
session_cookies is_secure a r =
    record { name = "access_token"; value = a; max_age = access_ttl; is_secure = is_secure }
    ∷ record { name = "refresh_token"; value = r; max_age = refresh_ttl; is_secure = is_secure }
    ∷ []

module _ (is_secure : Bool) (path : String) (body : Json) (a r : String)
    (at : is_auth_endpoint path ≡ true) (other : (path == "/auth/logout") ≡ false)
    (ha : get_optional "accessToken" (get_optional "data" body) ≡ str a)
    (hr : get_optional "refreshToken" (get_optional "data" body) ≡ str r) (full_a : truthy a ≡ true)
    (full_r : truthy r ≡ true) where
  token_cookies-session : token_cookies is_secure path body ≡ session_cookies is_secure a r
  unfolding token_cookies session_cookies
  token_cookies-session =
      let there = is_truthy_of_field "accessToken" (get_optional "data" body) a ha in
      rw (at, there, ha, hr, full_a, full_r) refl

  answer-session :
      (status : ℕ)
      → answer is_secure path status (some body)
        ≡ some
            (record { status = status; body = body; set_cookies = session_cookies is_secure a r })
  unfolding answer logout_cookies session_cookies
  answer-session status = rw (token_cookies-session, other) refl

-- The header of a request for which the browser names no token: none at all, or one that a route
-- makes of the missing token.
abbrev pub IsTokenless : Option String → Type 0
IsTokenless header =
    (header ≡ none) ⊎ (header ≡ some "Bearer null") ⊎ (header ≡ some "Bearer undefined")

authorization_of-bearer :
    (a : String) (header : Option String)
    → truthy a ≡ true
    → IsTokenless header
    → authorization_of (some a) header ≡ some (String.◌++◌ "Bearer " a)
unfolding authorization_of
authorization_of-bearer a header full (inl missing) = rw missing (ground (arith, full))
authorization_of-bearer a header full (inr (inl made)) = rw made (ground (arith, full))
authorization_of-bearer a header full (inr (inr made)) = rw made (ground (arith, full))

body_of-refresh :
    (r : String)
    → truthy r ≡ true
    → body_of (some r) "/auth/refresh" (object no_fields)
      ≡ object (field "refreshToken" (str r) no_fields)
unfolding body_of merge field_of
body_of-refresh r full = rw (full, full) refl

-- The browser keeps a cookie until it is removed or runs out; what it holds is read by name.
module _ {Jar : Type 0} (read : String → Jar → Option String) (keep : SetCookie → Jar → Jar) where
  abbrev pub Keeps : Type 0
  Keeps =
      (n : String) (c : SetCookie) (j : Jar)
      → read n (keep c j)
        ≡ (if c.name == n then (if eqb c.max_age 0 then none else some c.value) else read n j)

  unfoldable pub keep_all : List SetCookie → Jar → Jar
  keep_all [] j = j
  keep_all (c ∷ cs) j = keep_all cs (keep c j)

  -- the browser after an answer
  abbrev pub after : Option ProxyResponse → Jar → Jar
  after none j = j
  after (some r) j = keep_all r.set_cookies j

  -- a request of the browser, with the header that the route gives the proxy
  abbrev pub request : Jar → Option String → String → String → Json → Forwarded
  request j header method path body =
      forward (read "access_token" j) (read "refresh_token" j) path
        (record { method = method; body = body; authorization = header })

  -- After an answer that hands out a session, every request that goes through the proxy, with no
  -- header or with one that its route made of a missing token, goes on under the access token, which
  -- can be read off the header again; and a refresh with an empty body goes on with the refresh
  -- token.
  pub answer-request :
      (is_secure : Bool) (path : String) (status : ℕ) (body : Json) (a r : String) (j : Jar)
      (header : Option String) (method next : String) (sent : Json)
      → Keeps
      → IsTokenless header
      → is_auth_endpoint path ≡ true
      → (path == "/auth/logout") ≡ false
      → get_optional "accessToken" (get_optional "data" body) ≡ str a
      → get_optional "refreshToken" (get_optional "data" body) ≡ str r
      → truthy a ≡ true
      → truthy r ≡ true
      → let j' = after (answer is_secure path status (some body)) j in
        (get_auth_token (request j' header method next sent).authorization ≡ some a)
        × ((request j' header "POST" "/auth/refresh" (object no_fields)).body
            ≡ some (object (field "refreshToken" (str r) no_fields)))
  unfolding keep_all forward session_cookies
  answer-request is_secure path status body a r j header method next sent keeps tokenless at other
        ha hr full_a full_r =
      let cs = session_cookies is_secure a r in
      let access_cookie : SetCookie = record {
        name = "access_token";
        value = a;
        max_age = access_ttl;
        is_secure = is_secure;
      } in
      let refresh_cookie : SetCookie = record {
        name = "refresh_token";
        value = r;
        max_age = refresh_ttl;
        is_secure = is_secure;
      } in
      let kept = answer-session is_secure path body a r at other ha hr full_a full_r status in
      let access : read "access_token" (keep_all cs j) ≡ some a =
        keeps "access_token" refresh_cookie (keep access_cookie j)
        ∙ keeps "access_token" access_cookie j in
      let refresh : read "refresh_token" (keep_all cs j) ≡ some r =
        keeps "refresh_token" refresh_cookie (keep access_cookie j) in
      (
        rw (kept, access, authorization_of-bearer a header full_a tokenless)
            (get_auth_token-bearer a),
        rw (kept, refresh, body_of-refresh r full_r) refl,
      )

  -- After the answer to a logout, whatever it is, a request of the browser carries no token.
  pub answer-logout :
      (is_secure : Bool) (status : ℕ) (body : Json) (j : Jar) (method next : String) (sent : Json)
      → Keeps
      → let j' = after (answer is_secure "/auth/logout" status (some body)) j in
        ((request j' none method next sent).authorization ≡ none) × (read "refresh_token" j' ≡ none)
  unfolding answer token_cookies logout_cookies keep_all forward authorization_of
  answer-logout is_secure status body j method next sent keeps =
      let first = removal is_secure "access_token" in
      let second = removal is_secure "refresh_token" in
      let gone = keeps "access_token" second (keep first j) ∙ keeps "access_token" first j in
      (rw gone refl, keeps "refresh_token" second (keep first j))
