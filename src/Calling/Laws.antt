-- ===== src/Calling/Laws.antt =====
-- What the voice webhooks leave in the tables.
use callnow.Base.{
  ℕ, String, Bool, ◌≡◌, some, ok, ◌≤◌, true, err, fault, ◌==◌, ◌⊎◌, false, ◌*◌, arith, ◌-◌, eq_refl,
  inl, ◌+◌, find_first-update_where, inr, ◌<◌, is_text, refl, List, Option-cases, is_ok, Bool-cases,
  truthy?, Result-cases, ap, truthy,
}
use callnow.Calling.{
  Call, Store, find_call, has_sid, outbound, reject, Direction, inbound, create_call,
}
use callnow.Calling.Status.{
  handle_call_status, report_status, round_seconds, cost_of, set_call, is_missed,
}
use callnow.Calling.Voice.{
  handle_inbound_call, VoicemailBody, VoiceBody, InboundCall, handle_pstn_inbound, lookup_owner,
  handle_client_outbound, or_blank, is_client_outbound, caller_of,
}
use callnow.Numbers.{Provider, get_user_by_number, redis_get, find_active}
use callnow.Messaging.{inbound}

abbrev pub rate_of : Direction → ℕ
rate_of outbound = 1300
rate_of inbound = 850

Direction-cases : (d : Direction) → (d ≡ inbound) ⊎ (d ≡ outbound)
Direction-cases inbound = inl refl
Direction-cases outbound = inr refl

-- A call that is reported completed gets its length in whole seconds, to the nearest half second,
-- and a cost within half a millionth of a dollar of $0.013 a minute if it went out and of $0.0085 a
-- minute if it came in: six times the cost in millionths is within 3 of 1300 or 850 a second.
pub report_status-bounds :
    (now started : ℕ) (c : Call)
    → c.started_at ≡ some started
    → started ≤ now
    → let d = report_status now "completed" c in
      let rate = rate_of c.direction in
      let seconds = d.duration_seconds in
      (seconds * 1000 ≤ now - started + 500)
      × (now - started < seconds * 1000 + 500)
      × (d.cost ≡ some (cost_of c.direction seconds))
      × (cost_of c.direction seconds * 6 ≤ seconds * rate + 3)
      × (seconds * rate < cost_of c.direction seconds * 6 + 3)
      × (d.ended_at ≡ some now)
      × (d.status ≡ "completed")
unfolding report_status round_seconds cost_of
report_status-bounds now started c begun forward = elim (Direction-cases c.direction) [
  | inl coming ↦ ground arith
  | inr going ↦ ground arith
]

-- a report leaves the sid alone
report_status-sid :
    (now : ℕ) (status : String) (c : Call)
    → (report_status now status c).provider_call_sid ≡ c.provider_call_sid
unfolding report_status
report_status-sid now status c = elim (Option-cases c.started_at) [
  | inl unknown ↦ ground arith
  | inr (t, known) ↦ ground arith
]

pub set_call-find_call :
    (now : ℕ) (sid status : String) (calls : List Call) (c : Call)
    → find_call sid calls ≡ some c
    → find_call sid (set_call now status c.id calls) ≡ some (report_status now status c)
unfolding find_call set_call report_status
set_call-find_call now sid status calls c found =
    let kept =
      find_first-update_where (λ x. is_text x.provider_call_sid sid) (λ x. x.id == c.id)
        (report_status now status) calls c
        (λ x. ap (λ o. is_text o sid) (report_status-sid now status x)) found in
    ground (arith, eq_refl c.id, kept)

-- The status of a call follows the last report, whatever came before: a report of a call under way
-- reopens a call that is completed, while its end, its length and its cost stay.
pub handle_call_status-reopens :
    (now : ℕ) (id sid status : String) (b : VoicemailBody) (s : Store) (c : Call)
    → find_call sid s.calls ≡ some c
    → status == "completed" ≡ false
    → is_missed status ≡ false
    → let after = handle_call_status now id sid status b s in
      (after.0 ≡ ok true) × (find_call sid after.1.calls ≡ some (record c { status = status }))
unfolding handle_call_status report_status
handle_call_status-reopens now id sid status b s c found under_way answered =
    let row = set_call-find_call now sid status s.calls c found in
    rw (found, answered) (refl, ground (arith, row))

-- what the webhook leaves alone of the tables when it refuses
pub lookup_owner-frame :
    (p : Provider) (redis : Bool) (number : String) (s : Store)
    → let after = lookup_owner p redis number s in
      (is_ok after.0 ≡ true)
      × (after.1.calls ≡ s.calls)
      × (after.1.events ≡ s.events)
      × (after.1.users ≡ s.users)
unfolding lookup_owner get_user_by_number
lookup_owner-frame p redis number s =
    elim (Bool-cases (truthy? (redis_get p redis number s.numbers))) [
      | inl cached ↦ ground arith
      | inr missed ↦ elim (Option-cases (find_active number s.numbers.numbers)) [
        | inl unowned ↦ ground arith
        | inr (row, found) ↦ ground arith
      ]
    ]

-- A second webhook for a call that is recorded is refused, and leaves the calls and the events.
pub handle_inbound_call-recorded :
    (p : Provider) (redis : Bool) (now : ℕ) (id path : String) (b : VoiceBody) (n : InboundCall)
    (s : Store)
    → has_sid (some n.provider_call_sid) s.calls ≡ true
    → let after = handle_inbound_call p redis now id path b n s in
      ((after.0 ≡ err fault) ⊎ (after.0 ≡ ok reject))
      × (after.1.calls ≡ s.calls)
      × (after.1.events ≡ s.events)
unfolding handle_inbound_call handle_pstn_inbound handle_client_outbound create_call
handle_inbound_call-recorded p redis now id path b n s there =
    let inwards = lookup_owner-frame p redis n.to s in
    let outwards = lookup_owner-frame p redis (or_blank b.from) s in
    elim (Bool-cases (is_client_outbound (caller_of b n))) [
      | inl client ↦ elim (Bool-cases (truthy (or_blank b.from))) [
        | inl named ↦ elim (Result-cases (lookup_owner p redis (or_blank b.from) s).0) [
          | inl failed ↦ ground (arith, outwards)
          | inr (o, looked_up) ↦ ground arith
        ]
        | inr unnamed ↦ ground arith
      ]
      | inr pstn ↦ elim (Result-cases (lookup_owner p redis n.to s).0) [
        | inl failed ↦ ground (arith, inwards)
        | inr (o, looked_up) ↦ elim (Option-cases o) [
          | inl unowned ↦ ground arith
          | inr (owner, owned) ↦ elim (Bool-cases (truthy owner)) [
            | inl named ↦ ground arith
            | inr unnamed ↦ ground arith
          ]
        ]
      ]
    ]
