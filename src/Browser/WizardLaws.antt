-- ===== src/Browser/WizardLaws.antt =====
-- The steps to a campaign (frontend/src/app/(dashboard)/dialer/new/page.tsx) against what the server
-- then does with the file (backend/src/dialer/csv-validator.ts).
use Prim.Native.String.{String, ◌∷◌}
use callnow.Base.{
  List, String, Option, Bool, insert_row, ℕ, ◌≡◌, ◌+◌, ◌∷◌, [], ap, length, refl, arith, Bool-cases,
  length-insert_row, ◌≤◌, some, truthy, ◌<◌, ◌∙◌, inr, leb, sym, inl, true, ltb, ◌&&◌, not, dec_lt,
  false, none, All,
}
use callnow.Browser.Wizard.{
  LeadReport, LeadRow, is_valid_e164, check_lead, check_leads, Wizard, add_lead_row, lead_report,
  type_name, choose_file, find_lead_column, choose_number, handle_file, parse_error, parse_complete,
  press_next, press_back, press_step, can_next, blank_leads, load_numbers, ends_with,
  initial_wizard,
}
use callnow.Dialer.CsvValidator.{
  InvalidRow, Report, check_row, check_rows, phone_of, column_of, phone_empty, validate,
  invalid_e164, has_phone, blank_report,
}
use callnow.Dialer.Text.{is_e164, utf16_length, trim}
use callnow.Dialer.{Row}
use callnow.Dialer.ValidatorLaws.{validate-Valid}

-- the line numbers of two lists of refused rows
unfoldable pub lead_lines : List LeadRow → List ℕ
lead_lines [] = []
lead_lines (r ∷ rs) = r.row ∷ lead_lines rs

unfoldable pub invalid_lines : List InvalidRow → List ℕ
invalid_lines [] = []
invalid_lines (r ∷ rs) = r.row ∷ invalid_lines rs

lead_lines-append :
    (xs : List LeadRow) (x : LeadRow)
    → lead_lines (insert_row x xs) ≡ insert_row x.row (lead_lines xs)
unfolding lead_lines
lead_lines-append [] x = refl
lead_lines-append (y ∷ ys) x = ap (λ l. y.row ∷ l) (lead_lines-append ys x)

invalid_lines-append :
    (xs : List InvalidRow) (x : InvalidRow)
    → invalid_lines (insert_row x xs) ≡ insert_row x.row (invalid_lines xs)
unfolding invalid_lines
invalid_lines-append [] x = refl
invalid_lines-append (y ∷ ys) x = ap (λ l. y.row ∷ l) (invalid_lines-append ys x)

-- what the two reports say alike
pub record Agrees (l : LeadReport) (r : Report) : Type 0 where
  pub same_total : l.total ≡ r.total
  pub same_valid : l.valid ≡ r.valid + r.dnc_skipped
  pub counted : l.invalid ≡ length r.invalid
  pub same_lines : lead_lines l.invalid_rows ≡ invalid_lines r.invalid

Agrees-refused :
    (a : LeadRow) (b : InvalidRow) (l : LeadReport) (r : Report)
    → a.row ≡ b.row
    → Agrees l r
    → Agrees (add_lead_row a l) (record r { invalid = insert_row b r.invalid })
Agrees-refused a b l r same h = record {
  same_total = h.same_total;
  same_valid = h.same_valid;
  counted = omega (arith, h.counted, length-insert_row r.invalid b);
  same_lines =
      lead_lines-append l.invalid_rows a
      ∙ ap (λ n. insert_row n (lead_lines l.invalid_rows)) same
      ∙ ap (insert_row b.row) h.same_lines
      ∙ sym (invalid_lines-append r.invalid b);
}

Agrees-counted :
    (l : LeadReport) (r : Report)
    → Agrees l r
    → Agrees (record l { valid = l.valid + 1 }) (record r { dnc_skipped = r.dnc_skipped + 1 })
      × Agrees (record l { valid = l.valid + 1 }) (record r { valid = r.valid + 1 })
Agrees-counted l r h = (
  record {
    same_total = h.same_total;
    same_valid = omega (arith, h.same_valid);
    counted = h.counted;
    same_lines = h.same_lines;
  },
  record {
    same_total = h.same_total;
    same_valid = omega (arith, h.same_valid);
    counted = h.counted;
    same_lines = h.same_lines;
  },
)

-- The browser's library and the server's pattern judge the number of a record alike.
abbrev pub SameVerdict : (String → Option Bool) → String → Row → Type 0
SameVerdict is_valid column x =
    is_valid_e164 is_valid (phone_of column x) ≡ is_e164 (phone_of column x)

module _ (is_valid : String → Option Bool) (dnc : List String) (column : String) where
  check_lead-Agrees :
      (row : ℕ) (x : Row) (l : LeadReport) (r : Report)
      → SameVerdict is_valid column x
      → Agrees l r
      → Agrees (check_lead is_valid column row x l) (check_row dnc column row x r)
  unfolding check_lead check_row
  check_lead-Agrees row x l r same h =
      let p = phone_of column x in
      elim (Bool-cases (truthy p)) [
        | inr empty ↦ rw empty (
            Agrees-refused (record { row = row; phone = "—"; reason = "Empty phone field" })
              (record { row = row; reason = phone_empty }) l r refl h)
        | inl full ↦ elim (Bool-cases (is_e164 p)) [
          | inr wrong ↦
              rw (full, same, wrong)
                (Agrees-refused
                  (record {
                    row = row;
                    phone = p;
                    reason = "Invalid international format (E.164 required, e.g. +14155551234)";
                  })
                  (record { row = row; reason = invalid_e164 p }) l r refl h)
          | inl right ↦ elim (Bool-cases (has_phone p dnc)) [
            | inl blocked ↦ rw (full, same, right, blocked) (Agrees-counted l r h).0
            | inr free ↦ rw (full, same, right, free) (Agrees-counted l r h).1
          ]
        ]
      ]

  check_leads-Agrees :
      (row : ℕ) (xs : List Row) (l : LeadReport) (r : Report)
      → All (SameVerdict is_valid column) xs
      → Agrees l r
      → Agrees (check_leads is_valid column row xs l) (check_rows dnc column row xs r)
  unfolding check_leads check_rows
  check_leads-Agrees row [] l r same h = h
  check_leads-Agrees row (x ∷ xs) l r same h =
      check_leads-Agrees (row + 1) xs (check_lead is_valid column row x l)
        (check_row dnc column row x r) same.1 (check_lead-Agrees row x l r same.0 h)

-- The browser's report and the server's agree: where both have read the same records, find the same
-- column of telephone numbers, and the browser's library judges each number of the file as the
-- server's pattern does, a file that the server accepts was shown with the same total, with as many refused rows, at the
-- same lines, and its callable leads are those that the server counts, blocked ones included.
pub lead_report-validate :
    (is_valid : String → Option Bool) (headers dnc : List String) (rows : List Row)
    (column : String) (r : Report)
    → All (SameVerdict is_valid column) rows
    → find_lead_column headers ≡ some column
    → column_of rows ≡ some column
    → validate (some rows) dnc ≡ some r
    → Agrees (lead_report is_valid headers rows) r
unfolding lead_report lead_lines invalid_lines
lead_report-validate is_valid headers dnc rows column r same named found accepted =
    let v = validate-Valid (some rows) dnc r accepted in
    let records : v.records ≡ rows = cc in
    let named_so : v.column ≡ column = cc in
    let made : r ≡ check_rows dnc column 2 rows (blank_report (length rows)) = cc in
    let start : Agrees (blank_leads (length rows)) (blank_report (length rows)) = record {
      same_total = refl;
      same_valid = refl;
      counted = refl;
      same_lines = refl;
    } in
    rw (named, made) (check_leads-Agrees is_valid dnc column 2 rows _ _ same start)

-- what the steps that are done have asked for: a name, and a number to call from
abbrev pub IsReady : Wizard → Type 0
IsReady w =
    (1 ≤ w.step)
    × (w.step ≤ 4)
    × (1 < w.step → leb 2 (utf16_length (trim w.name)) ≡ true)
    × (3 < w.step → truthy w.from_number ≡ true)

-- what may happen on the page
pub data PageEvent : Type 0 where
  typed chosen picked failed : String → PageEvent
  parsed : String → LeadReport → PageEvent
  next_pressed back_pressed : PageEvent
  step_pressed : ℕ → PageEvent

unfoldable pub happens : PageEvent → Wizard → Wizard
happens (typed text) = type_name text
happens (chosen file) = choose_file file
happens (picked number) = choose_number number
happens (failed text) = parse_error
happens (parsed text report) = parse_complete text report
happens next_pressed = press_next
happens back_pressed = press_back
happens (step_pressed k) = press_step k

happens-IsReady : (e : PageEvent) (w : Wizard) → IsReady w → IsReady (happens e w)
unfolding happens type_name choose_file handle_file choose_number parse_error parse_complete
    press_next press_back press_step can_next
happens-IsReady (typed text) w h = ground (arith, h)
happens-IsReady (chosen file) w h = ground (arith, h)
happens-IsReady (picked number) w h = ground (arith, h)
happens-IsReady (failed text) w h = h
happens-IsReady (parsed text report) w h = h
happens-IsReady next_pressed w h =
    elim (Bool-cases (ltb w.step 4 && can_next w && not w.submitting)) [
      | inl moved ↦ rw moved (
        omega arith,
        ground (arith, moved),
        λ later. elim (dec_lt 1 w.step) [
          | yes past ↦ h.2 past
          | no first ↦ ground (arith, moved, first, h)
        ],
        λ last. ground (arith, moved, last, h),
      )
      | inr held ↦ rw held h
    ]
happens-IsReady back_pressed w h = ground (arith, h)
happens-IsReady (step_pressed k) w h = ground (arith, h)

unfoldable pub happens_all : List PageEvent → Wizard → Wizard
happens_all [] w = w
happens_all (e ∷ es) w = happens_all es (happens e w)

happens_all-kept : (es : List PageEvent) (w : Wizard) → IsReady w → IsReady (happens_all es w)
unfolding happens_all
happens_all-kept [] w h = h
happens_all-kept (e ∷ es) w h = happens_all-kept es (happens e w) (happens-IsReady e w h)

-- Once the user's numbers are there, whatever is done on the page, the step is one of the four,
-- beyond the first the campaign has a name of two characters, and at the last a number to call from.
pub happens_all-IsReady :
    (number : Option String) (es : List PageEvent)
    → IsReady (happens_all es (load_numbers number initial_wizard))
unfolding load_numbers
happens_all-IsReady none es =
    happens_all-kept es initial_wizard
      (omega arith, omega arith, λ later. absurd (omega arith), λ last. absurd (omega arith))
happens_all-IsReady (some number) es =
    happens_all-kept es (record initial_wizard { from_number = number })
      (omega arith, omega arith, λ later. absurd (omega arith), λ last. absurd (omega arith))

-- The report that opens the third step may be that of another file: when a second file is chosen
-- before the first is read, the first report lets the second file pass, unread.
pub press_next-stale :
    (first second text : String) (report : LeadReport) (w : Wizard)
    → w.step ≡ 2
    → w.submitting ≡ false
    → ends_with first ".csv" ≡ true
    → ends_with second ".csv" ≡ true
    → 0 < report.valid
    → let chosen_twice = choose_file second (choose_file first w) in
      let after = press_next (parse_complete text report chosen_twice) in
      (after.step ≡ 3) × (after.csv_file ≡ some second) × (after.validation ≡ some report)
unfolding choose_file handle_file parse_complete press_next can_next
press_next-stale first second text report w at idle one two full =
    ground (arith, at, idle, one, two)
