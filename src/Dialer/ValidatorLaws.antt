-- ===== src/Dialer/ValidatorLaws.antt =====
-- csv-validator.ts: what its report counts.
use Prim.Native.String.{String, ◌∷◌}
use Prim.Native.Nat.{ℕ}
use callnow.Base.{
  List, Option, String, ℕ, ◌+◌, ◌≡◌, ◌≤◌, if◌then◌else◌, length, some, ◌∷◌, arith, find_many, ◌∙◌,
  Option-cases, [], length-insert_row, inl, refl, inr, none, ap,
}
use callnow.Dialer.CsvValidator.{
  validate, InvalidRow, check_row, check_rows, checked, Report, blank_report, column_of,
}
use callnow.Dialer.{Row}
use callnow.Dialer.CsvValidator.{phone_empty, invalid_e164, phone_of}
use callnow.Dialer.Campaigns.{is_callable}

-- the do-not-call list and the column of the telephone numbers
module _ (dnc : List String) (column : String) where
  check_row-valid :
      (row : ℕ) (r : Row) (report : Report)
      → (check_row dnc column row r report).valid
        ≡ report.valid + (if is_callable dnc column r then 1 else 0)
  unfolding check_row is_callable
  check_row-valid row r report = ground arith

  check_row-sum :
      (row : ℕ) (r : Row) (report : Report)
      → let after = check_row dnc column row r report in
        after.valid + length after.invalid + after.dnc_skipped
        ≡ report.valid + length report.invalid + report.dnc_skipped + 1
  unfolding check_row
  check_row-sum row r report =
      let blank : InvalidRow = record { row = row; reason = phone_empty } in
      let wrong : InvalidRow = record { row = row; reason = invalid_e164 (phone_of column r) } in
      ground (arith, length-insert_row report.invalid blank, length-insert_row report.invalid wrong)

  -- The rows that the loop counts as valid are those that the campaign keeps.
  pub check_rows-valid :
      (row : ℕ) (rs : List Row) (report : Report)
      → (check_rows dnc column row rs report).valid
        ≡ report.valid + length (find_many (is_callable dnc column) rs)
  unfolding check_rows
  check_rows-valid row [] report = omega arith
  check_rows-valid row (r ∷ rs) report = ground (
    arith,
    check_row-valid row r report,
    check_rows-valid (row + 1) rs (check_row dnc column row r report),
  )

  check_rows-sum :
      (row : ℕ) (rs : List Row) (report : Report)
      → let after = check_rows dnc column row rs report in
        after.valid + length after.invalid + after.dnc_skipped
        ≡ report.valid + length report.invalid + report.dnc_skipped + length rs
  unfolding check_rows
  check_rows-sum row [] report = omega arith
  check_rows-sum row (r ∷ rs) report = omega (
    arith,
    check_row-sum row r report,
    check_rows-sum (row + 1) rs (check_row dnc column row r report),
  )

  check_rows-total :
      (row : ℕ) (rs : List Row) (report : Report)
      → (check_rows dnc column row rs report).total ≡ report.total
  unfolding check_rows
  check_rows-total row [] report = refl
  check_rows-total row (r ∷ rs) report =
      check_rows-total (row + 1) rs (check_row dnc column row r report)
      ∙ unfold check_row in ground arith

-- what a check that succeeds has found
pub record Valid (parsed : Option (List Row)) (dnc : List String) (report : Report) : Type 0 where
  pub records : List Row
  pub column : String
  pub read : parsed ≡ some records
  pub named : column_of records ≡ some column
  pub small : length records ≤ 100000
  pub made : report ≡ check_rows dnc column 2 records (blank_report (length records))
  pub some_valid : 1 ≤ report.valid

pub validate-Valid :
    (parsed : Option (List Row)) (dnc : List String) (report : Report)
    → validate parsed dnc ≡ some report
    → Valid parsed dnc report
unfolding validate checked
validate-Valid none dnc report e = absurd (ground arith)
validate-Valid (some records) dnc report e = elim (Option-cases (column_of records)) [
  | inl missing ↦ absurd (ground arith)
  | inr (column, named) ↦ record {
    records = records;
    column = column;
    read = refl;
    named = named;
    small = ground arith;
    made = ground arith;
    some_valid = ground arith;
  }
]

-- A report accounts for every record of the file, once: as many are valid, on the do-not-call list or
-- listed as invalid as the file has records, and the total is their number; and a file that is
-- accepted has from 1 to 100,000 records, one valid at least.
pub validate-accounts :
    (records : List Row) (dnc : List String) (report : Report)
    → validate (some records) dnc ≡ some report
    → (report.valid + length report.invalid + report.dnc_skipped ≡ length records)
      × (report.total ≡ length records)
      × (length records ≤ 100000)
      × (1 ≤ report.valid)
validate-accounts records dnc report e =
    let v = validate-Valid (some records) dnc report e in
    let read : v.records ≡ records = cc in
    let total = check_rows-total dnc v.column 2 v.records (blank_report (length v.records)) in
    let sum = check_rows-sum dnc v.column 2 v.records (blank_report (length v.records)) in
    (
      ap (λ r. r.valid + length r.invalid + r.dnc_skipped) v.made
          ∙ sum
          ∙ omega (arith, ap length read),
      ap (λ r. r.total) v.made ∙ total ∙ ap length read,
      omega (arith, ap length read, v.small),
      v.some_valid,
    )
