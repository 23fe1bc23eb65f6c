-- ===== src/Dialer/CsvValidator.antt =====
-- backend/src/dialer/csv-validator.ts: the check of a CSV file before a campaign is made from it.
use callnow.Base.{
  ℕ, List, Option, String, [], Bool, if◌then◌else◌, insert_row, none, some, ◌∷◌, eqb, exists_where,
  length, not, ◌+◌, ◌==◌, ◌||◌, ltb, truthy,
}
use callnow.Dialer.{Row}
use callnow.Dialer.Text.{lower_equals, trim, is_e164}

-- The texts `Phone number is empty` and `Invalid E.164 format: …`
pub data Reason : Type 0 where
  phone_empty : Reason
  invalid_e164 : String → Reason

pub record InvalidRow : Type 0 where
  pub row : ℕ
  pub reason : Reason

pub record Report : Type 0 where
  pub total : ℕ
  pub valid : ℕ
  pub invalid : List InvalidRow
  pub dnc_skipped : ℕ

-- `record[column]`
unfoldable pub cell : String → Row → Option String
cell column [] = none
cell column ((k, v) ∷ row) = if k == column then some v else cell column row

abbrev pub is_phone_column : String → Bool
is_phone_column h =
    lower_equals h "phone"
    || lower_equals h "phonenumber"
    || lower_equals h "number"
    || lower_equals h "mobile"
    || lower_equals h "tel"

-- `Object.keys(row).find(…)`
unfoldable pub find_column : Row → Option String
unfolding lower_equals
find_column [] = none
find_column ((k, v) ∷ row) = if is_phone_column k then some k else find_column row

-- `dncPhones.has(phone)`
unfoldable pub has_phone : String → List String → Bool
has_phone phone = exists_where (λ p. p == phone)

-- `records[i][phoneCol]?.trim() || ''`
unfoldable pub phone_of : String → Row → String
unfolding trim
phone_of column row = elim (cell column row) [ none ↦ "" | some v ↦ trim v ]

module _ (dnc : List String) (column : String) where
  abbrev pub add_invalid : ℕ → Reason → Report → Report
  add_invalid row reason report = record report {
    invalid = insert_row (record { row = row; reason = reason }) report.invalid;
  }

  -- One round of the loop; `row` is the number of the line in the file.
  unfoldable pub check_row : ℕ → Row → Report → Report
  check_row row r report =
      let phone = phone_of column r in
      if not (truthy phone)
      then add_invalid row phone_empty report
      else if not (is_e164 phone)
      then add_invalid row (invalid_e164 phone) report
      else if has_phone phone dnc
      then record report { dnc_skipped = report.dnc_skipped + 1 }
      else record report { valid = report.valid + 1 }

  -- The loop, from the line number of its first record on.
  unfoldable pub check_rows : ℕ → List Row → Report → Report
  unfolding check_row
  check_rows row [] report = report
  check_rows row (r ∷ rs) report = check_rows (row + 1) rs (check_row row r report)

abbrev pub blank_report : ℕ → Report
blank_report total = record { total = total; valid = 0; invalid = []; dnc_skipped = 0 }

-- `none` where csv-parse throws; every refusal is a VALIDATION_ERROR.
unfoldable pub checked : List String → List Row → Option String → Option Report
checked dnc records none = none
checked dnc records (some column) =
    let report = check_rows dnc column 2 records (blank_report (length records)) in
    if eqb report.valid 0 then none else some report

unfoldable pub column_of : List Row → Option String
column_of [] = none
column_of (r ∷ rs) = find_column r

unfoldable pub validate : Option (List Row) → List String → Option Report
validate none dnc = none
validate (some records) dnc =
    if eqb (length records) 0
    then none
    else if ltb 100000 (length records)
    then none
    else checked dnc records (column_of records)
