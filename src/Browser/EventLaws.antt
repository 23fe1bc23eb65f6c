-- ===== src/Browser/EventLaws.antt =====
-- From a service's event to the browser: who gets the packet, and what its handler does with it.
use Prim.Native.String
use callnow.Base.{
  ℕ, String, Option, ◌≡◌, [], truthy, none, true, some, ◌++◌, ◌⊎◌, map, ◌∷◌, find_many, or_text,
  refl, Option-cases, inl, arith, inr, exists-insert_last, ◌==◌, eq_refl, Bool-cases, false,
  is_text, ◌↔◌, ◌≢◌, ap, eq_iff, ◌∙◌, sym,
}
use callnow.Browser.{Json, str, undefined, field_of, object, field, num, no_fields}
use callnow.Browser.Events.{
  Stores, on_event, on_call_inbound, on_call_status, on_message_new, active_sid,
}
use callnow.Browser.Gateways.{
  Server, Socket, emit_call_event, emit_campaign_progress, emit_message_event, handle_connection,
  emit_to, handle_dialer_connection, envelope, handle_campaign_subscribe, verified_user,
  handshake_token, message_json, is_in, user_room, campaign_room,
}
use callnow.Auth.{Claims}
use callnow.Browser.Messages.{add_message}
use callnow.Browser.Calls.{set_call_status, set_incoming_call}
use callnow.Messaging.{Message, message_new}
use callnow.Calling.{call_inbound, call_status}
use callnow.Browser.{object}

-- Every packet for a new message makes the browser's handler throw: it shows no message and counts
-- none.
pub on_event-message_new :
    (user_id : String) (m : Message) (server : Server) (s : Stores)
    → ((emit_message_event (message_new user_id m) server).sent
        ≡ server.sent
          ++ map
              (λ c. (c.id, "message:new", envelope "message:new" (message_json m)))
              (find_many (is_in (user_room user_id)) server.sockets))
      × (on_event "message:new" (envelope "message:new" (message_json m)) s ≡ none)
unfolding emit_message_event emit_to on_event on_message_new envelope add_message field_of
on_event-message_new user_id m server s = (refl, refl)

-- A packet for a call that comes in opens the overlay of the browser for a call without a sid and
-- without numbers.
pub on_event-call_inbound :
    (user_id sid from to : String) (server : Server) (s : Stores)
    → (packet : Json) × ((emit_call_event (call_inbound user_id sid from to) server).sent
        ≡ server.sent
          ++ map
              (λ c. (c.id, "call:inbound", packet))
              (find_many (is_in (user_room user_id)) server.sockets))
      × (on_event "call:inbound" packet s
          ≡ some (record s {
            calls = record s.calls {
              incoming_call =
                  some (record { call_sid = undefined; from = undefined; to = undefined });
              is_call_overlay_open = true;
            };
          }))
unfolding emit_call_event emit_to on_event on_call_inbound envelope set_incoming_call field_of
on_event-call_inbound user_id sid from to server s = (_, refl, refl)

-- A packet for the status of a call changes nothing in a browser whose call has a sid, or that has
-- no call.
pub on_event-call_status :
    (user_id : Option String) (sid status x : String) (duration : Option ℕ) (server : Server)
    (s : Stores)
    → (s.calls.active_call ≡ none) ⊎ (active_sid s.calls.active_call ≡ str x)
    → (packet : Json) × ((emit_call_event (call_status user_id sid status duration) server).sent
        ≡ server.sent
          ++ map
              (λ c. (c.id, "call:status", packet))
              (find_many (is_in (user_room (or_text user_id "null"))) server.sockets))
      × (on_event "call:status" packet s ≡ some s)
unfolding emit_call_event emit_to on_event on_call_status envelope field_of set_call_status
on_event-call_status user_id sid status x duration server s idle = elim idle [
  | inl no_call ↦ (_, refl, rw (no_call) refl)
  | inr call ↦ (_, refl, rw (call) refl)
]

verified_user-truthy :
    (verify : String → Option Claims) (token : Option String) (u : String)
    → verified_user verify token ≡ some u
    → truthy u ≡ true
verified_user-truthy verify none u e = cc
verified_user-truthy verify (some token) u e = elim (Option-cases (verify token)) [
  | inl forged ↦ absurd (ground arith)
  | inr (claims, genuine) ↦ ground arith
]

abbrev pub connect : (String → Option Claims) → Option String → Option String → Socket → Socket
connect verify token header c =
    handle_dialer_connection verify token header (handle_connection verify token header c)

-- The token of a handshake: the one of its `auth`, or else the header's.
abbrev pub Presents : Option String → Option String → String → Type 0
Presents token header t =
    ((token ≡ some t) × (t ≢ ""))
    ⊎ (((token ≡ none) ⊎ (token ≡ some "")) × (header ≡ some t) × (t ≢ ""))

-- a token that the library verifies, for a user, that waits for no second factor
pub record IsTokenOf (verify : String → Option Claims) (token header : Option String) (u : String)
    : Type 0 where
  pub shown : String
  pub claims : Claims
  pub presents : Presents token header shown
  pub genuine : verify shown ≡ some claims
  pub complete : claims.step ≢ some "2fa"
  pub owned : claims.sub ≡ u
  pub named : u ≢ ""

-- the socket is in the user's room and in no other, or it is in none
abbrev pub IsIn : String → Socket → Type 0
IsIn u c = (c.connected ≡ true) × (c.user_id ≡ some u) × (c.rooms ≡ String.◌++◌ "user:" u ∷ [])

abbrev pub IsOut : Socket → Type 0
IsOut c = (c.connected ≡ false) × (c.user_id ≡ none) × (c.rooms ≡ [])

full-truthy : (s : String) → s ≢ "" → truthy s ≡ true
full-truthy s full = elim (Bool-cases (truthy s)) [
  | inl yes_so ↦ yes_so
  | inr blank ↦ absurd (full ((eq_iff s "").0 (ground (arith, blank))))
]

truthy-full : (s : String) → truthy s ≡ true → s ≢ ""
truthy-full s full = λ e. let blank : truthy s ≡ false = rw e refl in cc

is_text-step : (step : Option String) → step ≢ some "2fa" → is_text step "2fa" ≡ false
is_text-step none other = refl
is_text-step (some s) other = elim (Bool-cases (s == "2fa")) [
  | inl same ↦ absurd (other (ap some ((eq_iff s "2fa").0 same)))
  | inr apart ↦ apart
]

step-is_text : (step : Option String) → is_text step "2fa" ≡ false → step ≢ some "2fa"
step-is_text none h = λ e. cc
step-is_text (some s) h = λ e. absurd (ground (arith, h, e, eq_iff s "2fa"))

Presents-handshake_token :
    (token header : Option String) (t : String)
    → Presents token header t
    → (handshake_token token header ≡ some t) × (truthy t ≡ true)
Presents-handshake_token token header t (inl (given, full)) =
    let so = full-truthy t full in (rw (given, so) refl, so)
Presents-handshake_token token header t (inr (inl absent, given, full)) =
    (rw (absent, given) refl, full-truthy t full)
Presents-handshake_token token header t (inr (inr empty, given, full)) =
    (rw (empty, given) refl, full-truthy t full)

handshake_token-Presents :
    (token header : Option String) (t : String)
    → handshake_token token header ≡ some t
    → truthy t ≡ true
    → Presents token header t
handshake_token-Presents none header t h full = inr (inl refl, h, truthy-full t full)
handshake_token-Presents (some s) header t h full = elim (Bool-cases (truthy s)) [
  | inl there ↦ let same : some s ≡ some t = ground (arith, there) in inl (same, truthy-full t full)
  | inr blank ↦
      let empty : s ≡ "" = (eq_iff s "").0 (ground (arith, blank)) in
      inr (inr (ap some empty), ground (arith, blank), truthy-full t full)
]

verified_user-IsTokenOf :
    (verify : String → Option Claims) (token header : Option String) (u : String)
    → IsTokenOf verify token header u
    → verified_user verify (handshake_token token header) ≡ some u
verified_user-IsTokenOf verify token header u h =
    let presented = Presents-handshake_token token header h.shown h.presents in
    let step = is_text-step h.claims.step h.complete in
    let full = full-truthy u h.named in
    rw (presented.0, presented.1, h.genuine, step, h.owned, full) refl

IsTokenOf-verified_user :
    (verify : String → Option Claims) (token header : Option String) (u : String)
    → verified_user verify (handshake_token token header) ≡ some u
    → IsTokenOf verify token header u
IsTokenOf-verified_user verify token header u known =
    elim (Option-cases (handshake_token token header)) [
      | inl nobody ↦ absurd (ground (arith, nobody))
      | inr (t, shown) ↦ elim (Bool-cases (truthy t)) [
        | inr blank ↦ absurd (ground (arith, shown, blank))
        | inl full ↦ elim (Option-cases (verify t)) [
          | inl forged ↦ absurd (ground (arith, shown, full, forged))
          | inr (claims, genuine) ↦ record {
            shown = t;
            claims = claims;
            presents = handshake_token-Presents token header t shown full;
            genuine = genuine;
            complete = step-is_text claims.step (ground (arith, shown, full, genuine));
            owned = ground (arith, shown, full, genuine);
            named =
                truthy-full u (verified_user-truthy verify (handshake_token token header) u known);
          }
        ]
      ]
    ]

-- A new socket stays connected exactly if its handshake brings a token that the library verifies, for
-- a user, and that waits for no second factor; it is then in that user's room and in no other, and
-- else it is disconnected, for no user and in no room.
pub connect-verified :
    (verify : String → Option Claims) (token header : Option String) (c : Socket) (u : String)
    → c.rooms ≡ []
    → c.user_id ≡ none
    → c.connected ≡ true
    → let after = connect verify token header c in
      (IsIn u after ↔ IsTokenOf verify token header u)
      × (IsOut after ⊎ ((v : String) × IsIn v after))
unfolding handle_connection handle_dialer_connection user_room
connect-verified verify token header c u alone unknown live =
    elim (Option-cases (verified_user verify (handshake_token token header))) [
      | inl refused ↦ (
        (
          λ inside. absurd (ground (arith, inside)),
          λ h.
              let known = verified_user-IsTokenOf verify token header u h in
              absurd (ground (arith, known)),
        ),
        inl (ground arith, ground arith, ground arith),
      )
      | inr (v, known) ↦
          let named = verified_user-truthy verify (handshake_token token header) v known in
          (
            (
              λ inside.
                  let same : v ≡ u = ground (arith, named, inside) in
                  IsTokenOf-verified_user verify token header u (known ∙ ap some same),
              λ h.
                  let known_so = verified_user-IsTokenOf verify token header u h in
                  let same : v ≡ u = ground (arith, known_so) in
                  rw (sym same)
                    (ground (arith, named), ground (arith, named), ground (arith, named)),
            ),
            inr (v, (ground (arith, named), ground (arith, named), ground (arith, named))),
          )
    ]

-- A connected socket that asks for a campaign gets its progress, whoever owns the campaign.
pub handle_campaign_subscribe-unchecked :
    (campaign_id : String) (dialed answered failed remaining : ℕ) (c : Socket)
    → truthy campaign_id ≡ true
    → c.connected ≡ true
    → (packet : Json) × ((emit_campaign_progress campaign_id dialed answered failed remaining
          (record {
            sockets = handle_campaign_subscribe (some campaign_id) c ∷ [];
            sent = [];
          })).sent
        ≡ (c.id, "campaign:progress", packet) ∷ [])
unfolding emit_campaign_progress emit_to envelope handle_campaign_subscribe
handle_campaign_subscribe-unchecked campaign_id dialed answered failed remaining c named live = (
  envelope "campaign:progress" (
      object (
        field "campaignId" (str campaign_id) (
          field "dialed" (num dialed) (
            field "answered" (num answered)
              (field "failed" (num failed) (field "remaining" (num remaining) no_fields)))))),
  ground (
    arith,
    exists-insert_last (λ r. r == campaign_room campaign_id) (campaign_room campaign_id) c.rooms
        (eq_refl (campaign_room campaign_id)),
  ),
)
