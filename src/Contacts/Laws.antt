-- ===== src/Contacts/Laws.antt =====
-- What the import of contacts adds.
use Prim.Native.String
use Prim.Native.String.append
use callnow.Base.{
  ℕ, Bool, String, List, Option, ◌==◌, ◌≡◌, false, All, Option-cases, ◌+◌, [], inl, length, ok,
  some, ◌∷◌, ◌≤◌, Bool-cases, arith, count_where, inr, refl, truthy, All-insert_row,
  length-insert_row, count_where-append, insert_row, eq_refl, ltb, ap, sym, ◌∙◌,
}
use callnow.Contacts.{Contact, Store}
use Prim.Native.String.{String, [], ◌∷◌}
use callnow.Contacts.Import.{
  contact_of_row, import_contacts, import_rows, is_formula, quote_formula, sanitize_string, CsvRow,
  ImportResult, phone_of_row, add_row, phone_row, import_parsed, max_size,
}

abbrev pub owned_by : String → Contact → Bool
owned_by user_id c = c.user_id == user_id

import_rows-counts :
    (id_of : ℕ → String) (user_id : String) (rs : List CsvRow) (imported skipped : ℕ) (s : Store)
    → let (counts, after) = import_rows id_of user_id rs imported skipped s in
      (counts.0 + counts.1 ≡ imported + skipped + length rs)
      × (length after.contacts + imported ≡ length s.contacts + counts.0)
      × (count_where (owned_by user_id) after.contacts + imported
          ≡ count_where (owned_by user_id) s.contacts + counts.0)
      × (length after.phones + imported ≡ length s.phones + counts.0)
unfolding import_rows contact_of_row
import_rows-counts id_of user_id [] imported skipped s = (omega arith, refl, refl, refl)
import_rows-counts id_of user_id (r ∷ rs) imported skipped s =
    elim (Bool-cases (truthy (phone_of_row r))) [
      | inl has_phone ↦
          let id = id_of (imported + skipped) in
          let more =
            import_rows-counts id_of user_id rs (imported + 1) skipped (add_row id user_id r s) in
          let contact = length-insert_row s.contacts (contact_of_row id user_id r) in
          let phone = length-insert_row s.phones (phone_row id r) in
          let own : count_where (owned_by user_id)
                (insert_row (contact_of_row id user_id r) s.contacts)
              ≡ count_where (owned_by user_id) s.contacts + 1 =
            ground (
              arith,
              count_where-append (owned_by user_id) s.contacts (contact_of_row id user_id r),
              eq_refl user_id,
            ) in
          rw has_phone (
            omega (arith, more.0),
            omega (arith, more.1, contact),
            omega (arith, more.2, own),
            omega (arith, more.3, phone),
          )
      | inr no_phone ↦
          let more = import_rows-counts id_of user_id rs imported (skipped + 1) s in
          rw no_phone (omega (arith, more.0), more.1, more.2, more.3)
    ]

abbrev pub result_counts : (ℕ → String) → String → List CsvRow → Store → ImportResult
result_counts id_of user_id rs s = record {
  imported = (import_rows id_of user_id rs 0 0 s).0.0;
  skipped = (import_rows id_of user_id rs 0 0 s).0.1;
  total = length rs;
}

-- An import counts every record once, as imported or as skipped, and adds as many contacts, all of
-- the user's, and as many numbers, as it says it imported.
pub import_contacts-accounts :
    (parse : String → Option (List CsvRow)) (id_of : ℕ → String) (user_id : String) (size : ℕ)
    (csv : String) (rs : List CsvRow) (s : Store) (r : ImportResult)
    → 1 ≤ size
    → parse csv ≡ some rs
    → (import_contacts parse id_of user_id size csv s).0 ≡ ok r
    → let after = (import_contacts parse id_of user_id size csv s).1 in
      (r.imported + r.skipped ≡ length rs)
      × (r.total ≡ length rs)
      × (length after.contacts ≡ length s.contacts + r.imported)
      × (count_where (owned_by user_id) after.contacts
          ≡ count_where (owned_by user_id) s.contacts + r.imported)
      × (length after.phones ≡ length s.phones + r.imported)
unfolding import_contacts
import_contacts-accounts parse id_of user_id size csv rs s r some_bytes parsed done =
    let counts = import_rows-counts id_of user_id rs 0 0 s in
    let ran : import_contacts parse id_of user_id size csv s ≡ import_parsed id_of user_id rs s =
      elim (Bool-cases (ltb max_size size)) [
        | inl large ↦ absurd (ground arith)
        | inr fits ↦ ground arith
      ] in
    let made : ok (result_counts id_of user_id rs s) ≡ ok r = ap (λ x. x.0) (sym ran) ∙ done in
    let same : result_counts id_of user_id rs s ≡ r = ground arith in
    rw (ran, sym same)
      (
        omega (arith, counts.0),
        refl,
        omega (arith, counts.1),
        omega (arith, counts.2),
        omega (arith, counts.3),
      )

-- a cell that a spreadsheet would take for a formula
abbrev pub IsSafe : Contact → Type 0
IsSafe c = is_formula c.name ≡ false

quoted-safe : (s : String) → is_formula (String.◌++◌ "'" s) ≡ false
unfolding is_formula
quoted-safe s = ap is_formula (append.cons "'" "" s)

quote_formula-safe : (s : String) → is_formula (quote_formula s) ≡ false
quote_formula-safe s = elim (Bool-cases (is_formula s)) [
  | inl formula ↦ rw formula (quoted-safe s)
  | inr plain ↦ rw plain plain
]

contact_of_row-IsSafe : (id user_id : String) (r : CsvRow) → IsSafe (contact_of_row id user_id r)
unfolding contact_of_row sanitize_string is_formula
contact_of_row-IsSafe id user_id r = elim (Option-cases r.name) [
  | inl unnamed ↦ rw (unnamed) refl
  | inr (name, named) ↦ elim (Bool-cases (truthy name)) [
    | inl there ↦ elim (Bool-cases (truthy (quote_formula name))) [
      | inl kept ↦ rw (named, there, kept) (quote_formula-safe name)
      | inr lost ↦ rw (named, there, lost) refl
    ]
    | inr empty ↦ rw (named, empty) refl
  ]
]

-- Whatever a file says, no imported contact has a name that a spreadsheet would take for a formula.
pub import_rows-IsSafe :
    (id_of : ℕ → String) (user_id : String) (rs : List CsvRow) (imported skipped : ℕ) (s : Store)
    → All IsSafe s.contacts
    → All IsSafe (import_rows id_of user_id rs imported skipped s).1.contacts
unfolding import_rows
import_rows-IsSafe id_of user_id [] imported skipped s safe = safe
import_rows-IsSafe id_of user_id (r ∷ rs) imported skipped s safe =
    elim (Bool-cases (truthy (phone_of_row r))) [
      | inl has_phone ↦
          let id = id_of (imported + skipped) in
          rw has_phone (
            import_rows-IsSafe id_of user_id rs (imported + 1) skipped (add_row id user_id r s)
              (All-insert_row IsSafe s.contacts safe (contact_of_row-IsSafe id user_id r)))
      | inr no_phone ↦
          rw no_phone (import_rows-IsSafe id_of user_id rs imported (skipped + 1) s safe)
    ]
