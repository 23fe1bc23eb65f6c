-- ===== src/Dialer/ProgressLaws.antt =====
-- dialer.service.ts, `handleProgressCallback`: what a report of the Go service does to its campaign.
use callnow.Base.{
  ℕ, List, String, Option, find_first, if◌then◌else◌, ◌≡◌, eqb, some, ◌==◌, is_ok, update_required,
  find_first-holds, true, insert_row, update_where, find_first-exists, refl,
  find_first-update_where, ap, Bool-cases, arith, inl, inr,
}
use callnow.Dialer.{Campaign, Progress, Store, Event, completed}
use callnow.Dialer.Control.{handle_progress_callback, set_progress, set_completed}

unfoldable pub find_id : String → List Campaign → Option Campaign
find_id id = find_first (λ c. c.id == id)

-- an update of the campaign with an id, through the query by id
find_id-update_required :
    (f : Campaign → Campaign) (id : String) (rows : List Campaign) (c : Campaign)
    → ((d : Campaign) → (f d).id ≡ d.id)
    → find_id id rows ≡ some c
    → (rows' : List Campaign) × (update_required (λ d. d.id == id) f rows ≡ some rows')
      × (find_id id rows' ≡ some (f c))
unfolding find_id
find_id-update_required f id rows c same found =
    let hit = find_first-holds (λ d. d.id == id) rows c found in
    (
      update_where (λ d. d.id == id) f rows,
      rw (find_first-exists (λ d. d.id == id) rows c found) refl,
      rw hit at (
          find_first-update_where (λ d. d.id == id) (λ d. d.id == id) f rows c
            (λ d. ap (λ i. i == id) (same d)) found),
    )

abbrev pub count_progress : Progress → Campaign → Campaign
count_progress p c = record c {
  dialed = p.dialed;
  answered = p.answered;
  failed = p.failed;
  busy = p.busy;
  no_answer = p.no_answer;
}

-- the campaign as a report leaves it
abbrev pub reported : ℕ → Progress → Campaign → Campaign
reported now p c =
    if eqb p.remaining 0
    then record (count_progress p c) { status = completed; completed_at = some now }
    else count_progress p c

-- the handler, once its two updates are known
callback-written :
    (now : ℕ) (id : String) (p : Progress) (s : Store) (counted done : List Campaign)
    → set_progress id p s.campaigns ≡ some counted
    → set_completed now id counted ≡ some done
    → let after = handle_progress_callback now id p s in
      (is_ok after.0 ≡ true)
      × (after.1.campaigns ≡ (if eqb p.remaining 0 then done else counted))
      × (after.1.events ≡ (
          if eqb p.remaining 0
          then insert_row (Event.complete id p) (insert_row (Event.progress id p) s.events)
          else insert_row (Event.progress id p) s.events))
unfolding handle_progress_callback
callback-written now id p s counted done e f = (ground arith, ground arith, ground arith)

-- A report on a campaign that is there is answered; the campaign has the counts of the report, and is
-- completed exactly if no call remains; the browser is told of the progress and then, in that case,
-- of the completion.
pub handle_progress_callback-reported :
    (now : ℕ) (id : String) (p : Progress) (s : Store) (c : Campaign)
    → find_id id s.campaigns ≡ some c
    → let after = handle_progress_callback now id p s in
      (is_ok after.0 ≡ true)
      × (find_id id after.1.campaigns ≡ some (reported now p c))
      × (after.1.events ≡ (
          if eqb p.remaining 0
          then insert_row (Event.complete id p) (insert_row (Event.progress id p) s.events)
          else insert_row (Event.progress id p) s.events))
unfolding set_progress set_completed
handle_progress_callback-reported now id p s c found =
    let counted = find_id-update_required (count_progress p) id s.campaigns c (λ d. refl) found in
    let done =
      find_id-update_required (λ d. record d { status = completed; completed_at = some now }) id
        counted.0 (count_progress p c) (λ d. refl) counted.2 in
    let run = callback-written now id p s counted.0 done.0 counted.1 done.1 in
    elim (Bool-cases (eqb p.remaining 0)) [
      | inl over ↦ (run.0, rw (run.1, over) done.2, run.2)
      | inr more ↦ (run.0, rw (run.1, more) counted.2, run.2)
    ]
