-- ===== src/Browser/WizardExamples.antt =====
-- Runs of the page that makes a campaign, of the overlay of a call and of the rules for a password.
use callnow.Browser.{str}
use Prim.Native.String.{String, []}
use callnow.Base.{
  List, String, Option, [], Bool, some, ◌∷◌, ◌≡◌, arith, refl, true, if◌then◌else◌, leb,
}
use callnow.Browser.Wizard.{
  is_valid_e164, press_next, initial_wizard, load_numbers, choose_file, type_name, can_next,
  find_lead_column, handle_file, lead_report,
}
use callnow.Dialer.CsvValidator.{
  Report, invalid_e164, validate, check_rows, column_of, find_column, checked, phone_of, cell,
  has_phone,
}
use callnow.Browser.WizardLaws.{
  IsReady, happens_all, PageEvent, happens, typed, happens_all-IsReady, next_pressed, chosen,
  Agrees, lead_report-validate,
}
use callnow.Dialer.Text.{is_e164, trim, utf16_length, trim_start, trim_end}
use callnow.Dialer.{Row}
use callnow.Browser.Overlay.{Overlay, seconds, seconds-declined}
use callnow.Browser.Calls.{decline_call, initial_calls}
use callnow.Browser.Forms.{
  dto_accepts, any_char, char_count, form_accepts, strength_label, strength, is_upper,
  dto_accepts-form,
}

-- a library that judges a number by its length, which is not the server's pattern
abbrev by_length : String → Option Bool
by_length s = some (leb 9 (utf16_length s))

abbrev leads : List Row
leads =
    (("Name", "Ann") ∷ ("Mobile", "+14155550123") ∷ [])
    ∷ (("Name", "Bob") ∷ ("Mobile", "555") ∷ [])
    ∷ (("Name", "Cid") ∷ ("Mobile", "+14155550199") ∷ [])
    ∷ []

abbrev server_report : Report
server_report = record {
  total = 3;
  valid = 1;
  invalid = record { row = 3; reason = invalid_e164 "555" } ∷ [];
  dnc_skipped = 1;
}

lead_report-validate_example :
    Agrees (lead_report by_length ("Name" ∷ "Mobile" ∷ []) leads) server_report
unfolding validate check_rows find_lead_column column_of find_column checked phone_of cell is_e164
    has_phone is_valid_e164 utf16_length trim trim_start trim_end
lead_report-validate_example =
    lead_report-validate by_length ("Name" ∷ "Mobile" ∷ []) ("+14155550199" ∷ []) leads "Mobile"
      server_report (refl, (refl, (refl, tt))) refl refl refl

abbrev three_steps : List PageEvent
three_steps = typed "Spring" ∷ next_pressed ∷ chosen "leads.csv" ∷ next_pressed ∷ []

happens_all-IsReady_example :
    IsReady (happens_all three_steps (load_numbers (some "+14155550100") initial_wizard))
happens_all-IsReady_example = happens_all-IsReady (some "+14155550100") three_steps

three_steps_shown :
    (happens_all three_steps (load_numbers (some "+14155550100") initial_wizard)).step ≡ 2
unfolding happens_all happens load_numbers type_name press_next can_next choose_file handle_file
    trim utf16_length
three_steps_shown = refl

abbrev shown_call : Overlay
shown_call = record {
  time_left = 30;
  calls = record initial_calls {
    incoming_call =
        some (record { call_sid = str "CA1"; from = str "+14155550123"; to = str "+14155550100" });
    is_call_overlay_open = true;
  };
}

seconds-declined_example :
    (seconds 12 shown_call ≡ record shown_call { time_left = 18 })
    × (seconds 30 shown_call ≡ record { time_left = 30; calls = initial_calls })
unfolding decline_call
seconds-declined_example = seconds-declined 12 shown_call refl (omega arith)

dto_accepts-form_example :
    (form_accepts "Secret.123" ≡ true)
    × (strength_label (strength "Secret.123")
        ≡ (if any_char is_upper "Secret.123" then "Strong" else "Good"))
unfolding dto_accepts any_char char_count
dto_accepts-form_example = dto_accepts-form "Secret.123" refl
