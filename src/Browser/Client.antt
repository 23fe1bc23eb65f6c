-- ===== src/Browser/Client.antt =====
-- frontend/src/lib/api.ts: what the browser does with a request that the server refuses, and
-- frontend/src/store/authStore.ts: the session. Requests go on by themselves between the events: the
-- functions that wait for the answer to a refresh are the list `refreshing`.
use text.Mathlib.Text.{starts_with}
use Prim.Native.Nat.{ℕ, suc}
use Prim.Native.String.{String, [], ◌∷◌}
use callnow.Browser.Events.{and_then}
use callnow.Browser.{Json, null, is_truthy, get}
use callnow.Base.{
  Bool, List, Option, String, false, ℕ, [], if◌then◌else◌, none, some, true, ◌++◌, ◌==◌, ◌||◌, ◌∷◌,
  eqb, map_option, ◌&&◌, not, zero,
}

pub record AuthState : Type 0 where
  pub user : Json
  pub access_token : Json
  pub refresh_token : Json
  pub is_loading : Bool

abbrev pub initial_auth : AuthState
initial_auth = record { user = null; access_token = null; refresh_token = null; is_loading = true }

pub record AuthTokens : Type 0 where
  pub access_token : Json
  pub refresh_token : Json

unfoldable pub set_auth : Json → AuthTokens → AuthState → AuthState
set_auth user tokens s = record s {
  user = user;
  access_token = tokens.access_token;
  refresh_token = tokens.refresh_token;
  is_loading = false;
}

unfoldable pub set_tokens : AuthTokens → AuthState → AuthState
set_tokens tokens s = record s {
  access_token = tokens.access_token;
  refresh_token = tokens.refresh_token;
}

unfoldable pub set_user : Json → AuthState → AuthState
set_user user s = record s { user = user }

unfoldable pub logout_session : AuthState → AuthState
logout_session s = record {
  user = null;
  access_token = null;
  refresh_token = null;
  is_loading = false;
}

-- `res.data.accessToken` and `res.data.refreshToken`, with `none` where the read throws
abbrev pub tokens_of : Json → Option AuthTokens
tokens_of body = and_then (get "accessToken" body) (λ access_token.
    and_then (get "refreshToken" body) (λ refresh_token.
      some (record { access_token = access_token; refresh_token = refresh_token })))

-- `login`, `loginWithGoogle` and `loginWithPhone` once the request is answered with `res.data`
unfoldable pub log_in : Json → AuthState → Option AuthState
log_in body s =
    and_then (get "user" body)
      (λ user. map_option (λ tokens. set_auth user tokens s) (tokens_of body))

-- `refreshSession` once the request is answered
unfoldable pub refresh_session : Json → AuthState → Option AuthState
refresh_session body s = and_then (tokens_of body) (λ tokens.
    map_option
      (λ user. if is_truthy user then set_user user (set_tokens tokens s) else set_tokens tokens s)
      (get "user" body))

abbrev pub is_authenticated : AuthState → Bool
is_authenticated s = is_truthy s.access_token

-- a request, with the mark `_retry`
pub record ApiRequest : Type 0 where
  pub id : ℕ
  pub url : String
  pub retry : Bool

-- what the client does, in the order in which it does it
pub data Effect : Type 0 where
  post_refresh : ℕ → Effect
  send_again : ℕ → Effect
  reject : ℕ → Effect
  go_to_login : Effect

pub record Client : Type 0 where
  pub is_refreshing : Bool
  pub failed_queue : List ApiRequest
  pub refreshing : List ApiRequest
  pub session : AuthState
  pub effects : List Effect

abbrev pub initial_client : Client
initial_client = record {
  is_refreshing = false;
  failed_queue = [];
  refreshing = [];
  session = initial_auth;
  effects = [];
}

-- `includes`
unfoldable pub includes : String → String → Bool
includes word String.[] = word == ""
includes word (String.◌∷◌ c s) = starts_with (String.◌∷◌ c s) word || includes word s

abbrev pub is_auth_url : String → Bool
is_auth_url url =
    includes "/auth/login" url || includes "/auth/register" url || includes "/auth/refresh" url

-- `processQueue`: each request that waits is sent again, or rejected.
unfoldable pub settle_all : (ℕ → Effect) → List ApiRequest → List Effect
settle_all how [] = []
settle_all how (r ∷ rs) = how r.id ∷ settle_all how rs

unfoldable pub emit : List Effect → Client → Client
emit es c = record c { effects = c.effects ++ es }

-- The interceptor, up to its first wait. The status is absent when no answer came.
unfoldable pub on_error : Option ℕ → ApiRequest → Client → Client
unfolding emit
on_error none r c = emit (reject r.id ∷ []) c
on_error (some status) r c =
    if eqb status 401 && not r.retry
    then (if is_auth_url r.url
        then emit (reject r.id ∷ []) c
        else (if c.is_refreshing
            then record c { failed_queue = c.failed_queue ++ (r ∷ []) }
            else emit (post_refresh r.id ∷ []) (record c {
              is_refreshing = true;
              refreshing = c.refreshing ++ (record r { retry = true } ∷ []);
            })))
    else emit (reject r.id ∷ []) c

-- The answer to the refresh of `r`, a success or not. A request that waits goes on after the function
-- has ended, so `r` is sent again first, and `finally` comes before anything else can happen.
unfoldable pub after_refresh : Bool → ApiRequest → Client → Client
unfolding emit
after_refresh succeeds r c =
    if succeeds
    then emit (send_again r.id ∷ settle_all send_again c.failed_queue)
        (record c { failed_queue = []; is_refreshing = false })
    else emit (settle_all reject c.failed_queue ++ (go_to_login ∷ reject r.id ∷ []))
        (record c { failed_queue = []; is_refreshing = false; session = logout_session c.session })

-- the function that waits at a place of the list, and those that go on waiting
unfoldable pub take_waiting : ℕ → List ApiRequest → Option (ApiRequest × List ApiRequest)
take_waiting n [] = none
take_waiting zero (r ∷ rs) = some (r, rs)
take_waiting (suc n) (r ∷ rs) = map_option (λ p. (p.0, r ∷ p.1)) (take_waiting n rs)

-- what may happen to the client: a request fails, or a refresh is answered
pub data ClientEvent : Type 0 where
  fails : Option ℕ → ApiRequest → ClientEvent
  refresh_answered : ℕ → Bool → ClientEvent

abbrev pub answer_refresh : Bool → Option (ApiRequest × List ApiRequest) → Client → Client
answer_refresh succeeds none c = c
answer_refresh succeeds (some (r, others)) c =
    after_refresh succeeds r (record c { refreshing = others })

unfoldable pub happen : ClientEvent → Client → Client
happen (fails status r) c = on_error status r c
happen (refresh_answered n succeeds) c = answer_refresh succeeds (take_waiting n c.refreshing) c

unfoldable pub happen_all : List ClientEvent → Client → Client
happen_all [] c = c
happen_all (e ∷ es) c = happen_all es (happen e c)
