-- ===== src/Dialer/Cells.antt =====
-- What a reader of the exported file makes of a cell: a reader by the rules of RFC 4180, against
-- `sanitizeCell` of dialer.service.ts.
use callnow.Base.{ℕ, List, Option, Bool, [], eqb, false, some, ◌∷◌, ◌≡◌, none, true, ◌||◌}
use callnow.Dialer.Export.{is_formula}

abbrev ends_cell : ℕ → Bool
ends_cell c = eqb c b',' || eqb c 10 || eqb c 13

abbrev pub put : ℕ → Option (List ℕ × List ℕ) → Option (List ℕ × List ℕ)
put c none = none
put c (some (cell, rest)) = some (c ∷ cell, rest)

-- A cell without quotes goes on to the next comma or line end.
unfoldable pub read_plain : List ℕ → Option (List ℕ × List ℕ)
read_plain [] = some ([], [])
read_plain (c ∷ s) = elim (ends_cell c) [ true ↦ some ([], c ∷ s) | false ↦ put c (read_plain s) ]

-- A cell in quotes goes on to a quote that no other quote follows; the flag is set after a quote.
unfoldable pub read_quoted : Bool → List ℕ → Option (List ℕ × List ℕ)
read_quoted true [] = some ([], [])
read_quoted false [] = none
read_quoted true (c ∷ s) = elim (eqb c 34) [
  | true ↦ put c (read_quoted false s)
  | false ↦ some ([], c ∷ s)
]
read_quoted false (c ∷ s) = elim (eqb c 34) [
  | true ↦ read_quoted true s
  | false ↦ put c (read_quoted false s)
]

unfoldable pub read_cell : List ℕ → Option (List ℕ × List ℕ)
unfolding read_plain read_quoted
read_cell [] = some ([], [])
read_cell (c ∷ s) = elim (eqb c 34) [ true ↦ read_quoted false s | false ↦ read_plain (c ∷ s) ]

-- what may follow a cell in the file
abbrev pub EndsCell : List ℕ → Type 0
EndsCell [] = Unit {0}
EndsCell (c ∷ s) = ends_cell c ≡ true

abbrev pub or_empty : Option (List ℕ) → List ℕ
or_empty none = []
or_empty (some s) = s

abbrev pub starts_formula : List ℕ → Bool
starts_formula [] = false
starts_formula (c ∷ s) = is_formula c
