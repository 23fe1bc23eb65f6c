-- ===== src/Templates/Laws.antt =====
-- A template as the pieces that it is written from, and the text that each piece becomes.
use callnow.Base.{
  Bool-cases, Option-cases, ◌≤◌, ◌≢◌, ℕ, Bool, List, Option, true, ◌++◌, ◌∷◌, All, [], false, some,
  ◌≡◌, ap, append_nil, none, ◌⊎◌, insert_row, refl, sym, ◌∙◌, inl, insert_row-append, inr, arith,
}
use callnow.Templates.{interpolate, replace_keys, value_or_match, is_word}

-- A piece is a character, a variable in its braces, or a brace that no variable follows: `stray`
-- has the word characters after that brace.
pub data Piece : Type 0 where
  character : ℕ → Piece
  variable stray : List ℕ → Piece

unfoldable pub spell : List Piece → List ℕ
spell [] = []
spell (character c ∷ ps) = c ∷ spell ps
spell (variable key ∷ ps) = b'{' ∷ key ++ b'}' ∷ spell ps
spell (stray key ∷ ps) = b'{' ∷ key ++ spell ps

-- what a variable becomes
abbrev pub filled : List ℕ → Option (List ℕ) → List ℕ
filled key none = b'{' ∷ key ++ b'}' ∷ []
filled key (some value) = value

-- the text with the values put in
unfoldable pub fill : (List ℕ → Option (List ℕ)) → List Piece → List ℕ
fill variables [] = []
fill variables (character c ∷ ps) = c ∷ fill variables ps
fill variables (variable key ∷ ps) = filled key (variables key) ++ fill variables ps
fill variables (stray key ∷ ps) = b'{' ∷ key ++ fill variables ps

-- a letter, a digit or an underscore of ASCII
abbrev pub IsWord : ℕ → Type 0
IsWord c =
    ((97 ≤ c) × (c ≤ 122)) ⊎ ((65 ≤ c) × (c ≤ 90)) ⊎ ((48 ≤ c) × (c ≤ 57)) ⊎ (◌≡◌ {A = ℕ} c 95)

is_word-IsWord : (c : ℕ) → IsWord c → is_word c ≡ true
is_word-IsWord c (inl letter) = ground arith
is_word-IsWord c (inr (inl letter)) = ground arith
is_word-IsWord c (inr (inr (inl digit))) = ground arith
is_word-IsWord c (inr (inr (inr line))) = ground arith

IsWord-is_word : (c : ℕ) → is_word c ≡ true → IsWord c
IsWord-is_word c word = ground arith

is_word-other : (c : ℕ) → ¬ IsWord c → is_word c ≡ false
is_word-other c other = elim (Bool-cases (is_word c)) [
  | inl word ↦ absurd (other (IsWord-is_word c word))
  | inr none_such ↦ none_such
]

value_or_match-filled :
    (variables : List ℕ → Option (List ℕ)) (key : List ℕ)
    → value_or_match variables key ≡ filled key (variables key)
value_or_match-filled variables key = elim (Option-cases (variables key)) [
  | inl absent ↦ ground (arith, absent)
  | inr (value, there) ↦ ground (arith, there)
]

abbrev pub is_empty : List ℕ → Bool
is_empty [] = true
is_empty (c ∷ s) = false

-- what may follow a stray brace and its word characters
abbrev pub NoKeyEnd : List ℕ → List ℕ → Type 0
NoKeyEnd key [] = Unit {0}
NoKeyEnd key (c ∷ s) = (¬ IsWord c) × ((c ≢ b'}') ⊎ (is_empty key ≡ true))

abbrev pub IsSpelt : List Piece → Type 0
IsSpelt [] = Unit {0}
IsSpelt (character c ∷ ps) = (c ≢ b'{') × IsSpelt ps
IsSpelt (variable key ∷ ps) = (is_empty key ≡ false) × (All IsWord key) × IsSpelt ps
IsSpelt (stray key ∷ ps) = (All IsWord key) × NoKeyEnd key (spell ps) × IsSpelt ps

-- Word characters after a brace are all kept.
replace_keys-word :
    (variables : List ℕ → Option (List ℕ)) (key word rest : List ℕ)
    → All IsWord word
    → replace_keys variables (some key) (word ++ rest)
      ≡ replace_keys variables (some (key ++ word)) rest
unfolding replace_keys
replace_keys-word variables key [] rest h = rw (append_nil key) refl
replace_keys-word variables key (c ∷ word) rest h =
    rw (is_word-IsWord c h.0, replace_keys)
      (replace_keys-word variables (insert_row c key) word rest h.1
        ∙ ap (λ k. replace_keys variables (some k) rest) (insert_row-append key c word))

replace_keys-variable :
    (variables : List ℕ → Option (List ℕ)) (key rest : List ℕ)
    → is_empty key ≡ false
    → replace_keys variables (some key) (b'}' ∷ rest)
      ≡ value_or_match variables key ++ replace_keys variables none rest
unfolding replace_keys
replace_keys-variable variables [] rest h = cc
replace_keys-variable variables (c ∷ key) rest h = refl

replace_keys-stray :
    (variables : List ℕ → Option (List ℕ)) (key rest : List ℕ)
    → NoKeyEnd key rest
    → replace_keys variables (some key) rest ≡ b'{' ∷ key ++ replace_keys variables none rest
unfolding replace_keys
replace_keys-stray variables key [] h = ap (λ k. b'{' ∷ k) (sym (append_nil key))
replace_keys-stray variables [] (c ∷ rest) h = ground (arith, is_word-other c h.0)
replace_keys-stray variables (d ∷ key) (c ∷ rest) (h, inl other) =
    ground (arith, is_word-other c h, other)
replace_keys-stray variables (d ∷ key) (c ∷ rest) (h, inr none_yet) = cc

-- Interpolation puts in each variable's value, leaves a variable without one as it stands, braces
-- and all, and changes nothing else: whatever characters and variables a template is written from,
-- with braces that open no variable among them, the result is written from their values.
pub interpolate-spell :
    (variables : List ℕ → Option (List ℕ)) (ps : List Piece)
    → IsSpelt ps
    → interpolate variables (spell ps) ≡ fill variables ps
unfolding interpolate replace_keys spell fill
interpolate-spell variables [] h = refl
interpolate-spell variables (character c ∷ ps) h =
    ground (arith, interpolate-spell variables ps h.1)
interpolate-spell variables (variable key ∷ ps) h =
    replace_keys-word variables [] key (b'}' ∷ spell ps) h.1
    ∙ replace_keys-variable variables key (spell ps) h.0
    ∙ ap (λ s. value_or_match variables key ++ s) (interpolate-spell variables ps h.2)
    ∙ ap (λ s. s ++ fill variables ps) (value_or_match-filled variables key)
interpolate-spell variables (stray key ∷ ps) h =
    replace_keys-word variables [] key (spell ps) h.0
    ∙ replace_keys-stray variables key (spell ps) h.1
    ∙ ap (λ s. b'{' ∷ key ++ s) (interpolate-spell variables ps h.2)
