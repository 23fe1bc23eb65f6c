-- ===== src/Browser/Wizard.antt =====
-- frontend/src/app/(dashboard)/dialer/new/page.tsx: the four steps to a new campaign, with the check
-- of the file in the browser. Papa Parse and libphonenumber-js are arguments, by what they answer.
use Prim.Native.Char.{code}
use Prim.Native.String.{len, String, [], ◌∷◌, slice}
use Prim.Native.Nat.{ℕ}
use callnow.Base.{
  Bool, Option, String, false, if◌then◌else◌, none, ℕ, ◌+◌, List, [], eqb, insert_row, leb, ltb,
  some, truthy, ◌++◌, ◌||◌, length, true, ◌&&◌, ◌∷◌, not, ◌-◌, ◌==◌,
}
use callnow.Dialer.Text.{lower_equals, is_space, trim, digit_count, utf16_length}
use callnow.Dialer.{Row}
use callnow.Dialer.CsvValidator.{phone_of}

-- `phone.replace(/[\s\-()]/g, "")`
unfoldable pub without_separators : String → String
without_separators String.[] = ""
without_separators (String.◌∷◌ c s) =
    let rest = without_separators s in
    if is_space (code c) || eqb (code c) b'-' || eqb (code c) b'(' || eqb (code c) b')'
    then rest
    else String.◌∷◌ c rest

-- `\d{6,14}$`
abbrev pub in_range : Option ℕ → Bool
in_range none = false
in_range (some n) = leb 6 n && leb n 14

abbrev pub digits_after_plus : String → Bool
digits_after_plus String.[] = false
digits_after_plus (String.◌∷◌ c s) =
    leb b'1' (code c) && leb (code c) b'9' && in_range (digit_count s)

-- `/^\+[1-9]\d{6,14}$/`
abbrev pub is_long_e164 : String → Bool
is_long_e164 String.[] = false
is_long_e164 (String.◌∷◌ c s) = eqb (code c) b'+' && digits_after_plus s

abbrev pub or_pattern : Option Bool → String → Bool
or_pattern (some valid) phone = valid
or_pattern none phone = is_long_e164 (without_separators phone)

-- `is_valid` is the library's verdict on a text, `none` where it throws.
unfoldable pub is_valid_e164 : (String → Option Bool) → String → Bool
unfolding without_separators
is_valid_e164 is_valid phone = if truthy phone then or_pattern (is_valid phone) phone else false

pub record LeadRow : Type 0 where
  pub row : ℕ
  pub phone : String
  pub reason : String

pub record LeadReport : Type 0 where
  pub total : ℕ
  pub valid : ℕ
  pub invalid : ℕ
  pub dnc_skipped : ℕ
  pub invalid_rows : List LeadRow

abbrev pub is_lead_column : String → Bool
is_lead_column h =
    lower_equals h "phone"
    || lower_equals h "phonenumber"
    || lower_equals h "mobile"
    || lower_equals h "number"

-- `headers.find(…)`
unfoldable pub find_lead_column : List String → Option String
unfolding lower_equals
find_lead_column [] = none
find_lead_column (h ∷ hs) = if is_lead_column h then some h else find_lead_column hs

abbrev pub blank_leads : ℕ → LeadReport
blank_leads total = record {
  total = total;
  valid = 0;
  invalid = 0;
  dnc_skipped = 0;
  invalid_rows = [];
}

abbrev pub add_lead_row : LeadRow → LeadReport → LeadReport
add_lead_row r report = record report {
  invalid = report.invalid + 1;
  invalid_rows = insert_row r report.invalid_rows;
}

-- without a column every row is invalid
unfoldable pub headless_rows : ℕ → List Row → List LeadRow
headless_rows row [] = []
headless_rows row (r ∷ rs) =
    record { row = row; phone = "N/A"; reason = "No 'phone' or 'mobile' header detected" }
    ∷ headless_rows (row + 1) rs

module _ (is_valid : String → Option Bool) (column : String) where
  unfoldable pub check_lead : ℕ → Row → LeadReport → LeadReport
  check_lead row r report =
      let phone = phone_of column r in
      if not (truthy phone)
      then add_lead_row (record { row = row; phone = "—"; reason = "Empty phone field" }) report
      else (if not (is_valid_e164 is_valid phone)
          then add_lead_row
              (record {
                row = row;
                phone = phone;
                reason = "Invalid international format (E.164 required, e.g. +14155551234)";
              })
              report
          else record report { valid = report.valid + 1 })

  unfoldable pub check_leads : ℕ → List Row → LeadReport → LeadReport
  check_leads row [] report = report
  check_leads row (r ∷ rs) report = check_leads (row + 1) rs (check_lead row r report)

abbrev pub lead_report_with : (String → Option Bool) → Option String → List Row → LeadReport
lead_report_with is_valid none rows = record (blank_leads (length rows)) {
  invalid = length rows;
  invalid_rows = headless_rows 2 rows;
}
lead_report_with is_valid (some column) rows =
    check_leads is_valid column 2 rows (blank_leads (length rows))

-- the report on what Papa Parse has read
unfoldable pub lead_report : (String → Option Bool) → List String → List Row → LeadReport
lead_report is_valid headers rows = lead_report_with is_valid (find_lead_column headers) rows

-- the page: the file that is chosen, by its name, and what is known of it
pub record Wizard : Type 0 where
  pub step : ℕ
  pub name : String
  pub csv_file : Option String
  pub validation : Option LeadReport
  pub parsing : Bool
  pub from_number : String
  pub submitting : Bool
  pub toasts : List String

abbrev pub initial_wizard : Wizard
initial_wizard = record {
  step = 1;
  name = "";
  csv_file = none;
  validation = none;
  parsing = false;
  from_number = "";
  submitting = false;
  toasts = [];
}

abbrev pub toast : String → Wizard → Wizard
toast text w = record w { toasts = w.toasts ++ (text ∷ []) }

-- `endsWith`
abbrev pub ends_with : String → String → Bool
ends_with s end = leb (len end) (len s) && slice s (len s - len end) (len s) == end

-- `handleFile`, up to the end of the parse
unfoldable pub handle_file : String → Wizard → Wizard
handle_file file w =
    if ends_with file ".csv"
    then record w { csv_file = some file; parsing = true }
    else toast "Please upload a .csv file" w

-- `complete`; the text of the toast is left to the screen
unfoldable pub parse_complete : String → LeadReport → Wizard → Wizard
parse_complete text report w = toast text (record w { validation = some report; parsing = false })

unfoldable pub parse_error : Wizard → Wizard
parse_error w = toast "Failed to parse CSV file" (record w { parsing = false })

abbrev pub has_leads : Option LeadReport → Bool
has_leads none = false
has_leads (some report) = ltb 0 report.valid

unfoldable pub can_next : Wizard → Bool
can_next w =
    if eqb w.step 1
    then leb 2 (utf16_length (trim w.name))
    else (if eqb w.step 2
        then not w.parsing && has_leads w.validation
        else (if eqb w.step 3 then truthy w.from_number else true))

-- the buttons: Next is there before the last step
unfoldable pub press_next : Wizard → Wizard
press_next w =
    if ltb w.step 4 && can_next w && not w.submitting then record w { step = w.step + 1 } else w

unfoldable pub press_back : Wizard → Wizard
press_back w = if ltb 1 w.step && not w.submitting then record w { step = w.step - 1 } else w

-- a click on a step that is done
unfoldable pub press_step : ℕ → Wizard → Wizard
press_step k w = if ltb 0 k && ltb k w.step then record w { step = k } else w

-- The fields of a step are on the screen at that step.
unfoldable pub type_name : String → Wizard → Wizard
type_name text w = if eqb w.step 1 then record w { name = text } else w

unfoldable pub choose_file : String → Wizard → Wizard
choose_file file w = if eqb w.step 2 then handle_file file w else w

unfoldable pub choose_number : String → Wizard → Wizard
choose_number number w = if eqb w.step 3 then record w { from_number = number } else w

-- the answer to the request for the user's numbers: the first active one with voice is chosen
unfoldable pub load_numbers : Option String → Wizard → Wizard
load_numbers none w = w
load_numbers (some number) w = record w { from_number = number }

-- `handleSubmit`: what is sent, if anything is
pub record Submission : Type 0 where
  pub name : String
  pub from_number : String
  pub file : String

abbrev pub submission_of : Option String → Wizard → Option Submission
submission_of none w = none
submission_of (some file) w =
    if truthy (trim w.name)
    then some (record { name = trim w.name; from_number = w.from_number; file = file })
    else none

unfoldable pub handle_submit : Wizard → Option Submission
handle_submit w = submission_of w.csv_file w
