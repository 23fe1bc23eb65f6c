-- ===== src/Calling/Lifecycle.antt =====
-- A call from the first webhook to the report of its end, and recordings of calls that nobody owns.
use callnow.Base.{
  ℕ, Bool, String, some, ◌≡◌, false, ok, true, none, truthy, ◌-◌, err, insert_row, fault, arith,
  List, Option-cases, inl, eq_refl, find_first-append_none, is_text, inr, ap, refl,
}
use callnow.Calling.{
  Call, create_call, create_voicemail, Store, inbound, is_user, has_sid, find_call, dial_client,
  call_inbound, call_status,
}
use callnow.Numbers.{Provider}
use callnow.Calling.Voice.{
  handle_pstn_inbound, lookup_owner, InboundCall, VoicemailBody, new_call, voicemail_path,
}
use callnow.Calling.Status.{handle_call_status, round_seconds, cost_of, set_call, report_status}
use callnow.Numbers.Cache.{IsSound, owner_of, get_user_by_number-owner_of}
use callnow.Calling.Laws.{lookup_owner-frame, set_call-find_call}

-- the row of a call that rings
abbrev pub ringing : Provider → Bool → ℕ → String → String → InboundCall → Call
ringing p redis now id owner n =
    new_call p redis now id (some owner) n n.from n.to inbound "ringing"

lookup_owner-owner_of :
    (p : Provider) (redis : Bool) (number : String) (s : Store)
    → IsSound s.numbers
    → (lookup_owner p redis number s).0 ≡ ok (owner_of number s.numbers.numbers)
unfolding lookup_owner
lookup_owner-owner_of p redis number s sound =
    get_user_by_number-owner_of p redis number s.numbers sound

-- A call to a number whose owner the table of numbers gives, with a sound cache and a sid that is
-- new, rings that owner: one row is added, one event goes to the owner's browser, and the answer
-- dials the owner with their own voicemail behind.
pub handle_pstn_inbound-rings :
    (p : Provider) (redis : Bool) (now : ℕ) (id path owner : String) (n : InboundCall) (s : Store)
    → IsSound s.numbers
    → owner_of n.to s.numbers.numbers ≡ some owner
    → has_sid (some n.provider_call_sid) s.calls ≡ false
    → is_user owner s.users ≡ true
    → let after = handle_pstn_inbound p redis now id path n s in
      (after.0 ≡ ok (dial_client owner 30 (voicemail_path path owner)))
      × (after.1.calls ≡ insert_row (ringing p redis now id owner n) s.calls)
      × (after.1.events ≡ insert_row (call_inbound owner n.provider_call_sid n.from n.to) s.events)
unfolding handle_pstn_inbound create_call
handle_pstn_inbound-rings p redis now id path owner n s sound owned new known =
    let looked_up = lookup_owner-owner_of p redis n.to s sound in
    let frame = lookup_owner-frame p redis n.to s in
    let named = sound.named n.to owner owned in (ground arith, ground arith, ground arith)

insert_row-find_call :
    (c : Call) (sid : String) (calls : List Call)
    → c.provider_call_sid ≡ some sid
    → has_sid (some sid) calls ≡ false
    → find_call sid (insert_row c calls) ≡ some c
unfolding find_call has_sid
insert_row-find_call c sid calls named new = elim (Option-cases (find_call sid calls)) [
  | inl fresh ↦ ground (
    arith,
    eq_refl sid,
    find_first-append_none (λ x. is_text x.provider_call_sid sid) calls c fresh,
  )
  | inr (d, there) ↦ absurd (ground arith)
]

-- A call that rings at `now` and is reported completed at `later` is then on record under its sid,
-- with the owner of its number, the time that passed, rounded to seconds, and the inbound rate.
pub call_lifecycle :
    (p : Provider) (redis : Bool) (now later : ℕ) (id path owner vid : String) (n : InboundCall)
    (b : VoicemailBody) (s : Store)
    → IsSound s.numbers
    → owner_of n.to s.numbers.numbers ≡ some owner
    → has_sid (some n.provider_call_sid) s.calls ≡ false
    → is_user owner s.users ≡ true
    → let rung = handle_pstn_inbound p redis now id path n s in
      let over = handle_call_status later vid n.provider_call_sid "completed" b rung.1 in
      (over.0 ≡ ok true)
      × (find_call n.provider_call_sid over.1.calls
          ≡ some (record (ringing p redis now id owner n) {
            status = "completed";
            ended_at = some later;
            duration_seconds = round_seconds (later - now);
            cost = some (cost_of inbound (round_seconds (later - now)));
          }))
      × (over.1.events
          ≡ insert_row
              (call_status
                (some owner)
                n.provider_call_sid
                "completed"
                (some (round_seconds (later - now))))
              (insert_row (call_inbound owner n.provider_call_sid n.from n.to) s.events))
unfolding handle_call_status report_status
call_lifecycle p redis now later id path owner vid n b s sound owned new known =
    let rung = handle_pstn_inbound-rings p redis now id path owner n s sound owned new known in
    let row = ringing p redis now id owner n in
    let recorded : find_call n.provider_call_sid
          (handle_pstn_inbound p redis now id path n s).1.calls
        ≡ some row =
      ground (arith, rung, insert_row-find_call row n.provider_call_sid s.calls refl new) in
    let ended =
      set_call-find_call later n.provider_call_sid "completed"
        (handle_pstn_inbound p redis now id path n s).1.calls row recorded in
    rw (recorded) (
      refl,
      ended,
      ap
          (λ es.
            insert_row
              (call_status (some owner) n.provider_call_sid "completed"
                (some (round_seconds (later - now))))
              es)
          rung.2,
    )

-- A recording for a call whose user is gone, or for a voicemail without a user, is lost where no
-- user is called 'unknown': the query is refused, and no voicemail is added. The status of the call
-- is written before.
pub handle_call_status-ownerless :
    (now : ℕ) (id sid url : String) (seconds : ℕ) (b : VoicemailBody) (s : Store) (c : Call)
    → is_user "unknown" s.users ≡ false
    → find_call sid s.calls ≡ some c
    → c.user_id ≡ none
    → b.recording_url ≡ some url
    → truthy url ≡ true
    → b.recording_duration ≡ some seconds
    → let after = handle_call_status now id sid "no-answer" b s in
      (after.0 ≡ err fault)
      × (after.1.voicemails ≡ s.voicemails)
      × (after.1.calls ≡ set_call now "no-answer" c.id s.calls)
unfolding handle_call_status create_voicemail
handle_call_status-ownerless now id sid url seconds b s c unknown found gone recorded there read =
    (ground arith, ground arith, ground arith)
