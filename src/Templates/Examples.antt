-- ===== src/Templates/Examples.antt =====
-- A concrete template: "Hi {a}, {{b}}" with a value for `a` alone.
use callnow.Base.{
  ℕ, Bool, List, Option, false, if◌then◌else◌, ◌∷◌, [], eqb, some, none, ◌≡◌, inr, refl, arith,
}
use callnow.Templates.Laws.{Piece, fill, character, spell, variable, stray, interpolate-spell}
use callnow.Templates.{interpolate}

abbrev letter_a : List ℕ → Bool
letter_a [] = false
letter_a (c ∷ s) = eqb c b'a'

abbrev bob : List ℕ
bob = b'B' ∷ b'o' ∷ b'b' ∷ []

abbrev bindings : List ℕ → Option (List ℕ)
bindings key = if letter_a key then some bob else none

abbrev greeting : List Piece
greeting =
    character b'H'
    ∷ variable (b'a' ∷ [])
    ∷ character b','
    ∷ stray []
    ∷ variable (b'b' ∷ [])
    ∷ character b'}'
    ∷ []

interpolate-spell_example :
    interpolate bindings (spell greeting)
    ≡ b'H' ∷ b'B' ∷ b'o' ∷ b'b' ∷ b',' ∷ b'{' ∷ b'{' ∷ b'b' ∷ b'}' ∷ b'}' ∷ []
unfolding fill spell
interpolate-spell_example = interpolate-spell bindings greeting (
  omega arith,
  (
    refl,
    (omega arith, tt),
    (omega arith, (tt, (omega arith, inr refl), (refl, (omega arith, tt), (omega arith, tt)))),
  ),
)
