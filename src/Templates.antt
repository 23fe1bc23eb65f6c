-- ===== src/Templates.antt =====
-- backend/src/templates/templates.service.ts: the texts that a user keeps for messages, and their
-- variables. A text is the list of its code points where it is searched.
pub mod Laws
mod Examples
use callnow.Base.{
  ℕ, Bool, List, String, Option, Action, false, find_first, is_none, leb, none, some, gets, ◌&&◌,
  ◌==◌, ◌>>=◌, ◌>>◌, ◌∷◌, eqb, find_many, modify, require, ◌++◌, ◌||◌, [], insert_row,
  not_found_exception, true, not_found, pure, delete_where, update_where,
}
use callnow.Contacts.{given, or_none}

pub record Template : Type 0 where
  pub id : String
  pub user_id : String
  pub name : String
  pub body : String
  pub variables : List String

-- `CreateTemplateDto`
pub record CreateTemplate : Type 0 where
  pub name : String
  pub body : String
  pub variables : Option (List String)

-- `UpdateTemplateDto`
pub record UpdateTemplate : Type 0 where
  pub name : Option String
  pub body : Option String
  pub variables : Option (List String)

abbrev new_template : String → String → CreateTemplate → Template
new_template id user_id dto = record {
  id = id;
  user_id = user_id;
  name = dto.name;
  body = dto.body;
  variables = or_none dto.variables;
}

unfoldable create_template : String → String → CreateTemplate → Action (List Template) Template
create_template id user_id dto = do
  modify (insert_row (new_template id user_id dto))
  pure (new_template id user_id dto)

-- `sort` is the database's, by name
unfoldable list_templates :
    (List Template → List Template) → String → Action (List Template) (List Template)
list_templates sort user_id = gets (λ s. sort (find_many (λ t. t.user_id == user_id) s))

unfoldable find_own_template : String → String → List Template → Option Template
find_own_template id user_id = find_first (λ t. t.id == id && t.user_id == user_id)

unfoldable changed_template : UpdateTemplate → Template → Template
changed_template dto t = record t {
  name = given dto.name t.name;
  body = given dto.body t.body;
  variables = given dto.variables t.variables;
}

unfoldable update_template : String → String → UpdateTemplate → Action (List Template) Template
unfolding find_own_template changed_template
update_template user_id id dto = do
  t ← require (find_own_template id user_id) (not_found_exception not_found)
  modify (update_where (λ t. t.id == id) (changed_template dto))
  pure (changed_template dto t)

unfoldable delete_template : String → String → Action (List Template) String
unfolding find_own_template
delete_template user_id id = do
  require (find_own_template id user_id) (not_found_exception not_found)
  modify (delete_where (λ t. t.id == id))
  pure "Template deleted"

-- `\w`
abbrev pub is_word : ℕ → Bool
is_word c =
    (leb b'a' c && leb c b'z')
    || (leb b'A' c && leb c b'Z')
    || (leb b'0' c && leb c b'9')
    || eqb c b'_'

-- `variables[key] ?? match`
abbrev pub value_or_match : (List ℕ → Option (List ℕ)) → List ℕ → List ℕ
value_or_match variables key = elim (variables key) [
  | none ↦ b'{' ∷ key ++ b'}' ∷ []
  | some value ↦ value
]

abbrev is_key_end : List ℕ → ℕ → Bool
is_key_end [] c = false
is_key_end (d ∷ key) c = eqb c b'}'

-- `replace(/\{(\w+)\}/g, …)`, read from left to right: after a brace the word characters so far are
-- kept, and written out again where they end otherwise than by the closing brace.
unfoldable pub replace_keys : (List ℕ → Option (List ℕ)) → Option (List ℕ) → List ℕ → List ℕ
replace_keys variables none [] = []
replace_keys variables (some key) [] = b'{' ∷ key
replace_keys variables none (c ∷ s) = elim (eqb c b'{') [
  | true ↦ replace_keys variables (some []) s
  | false ↦ c ∷ replace_keys variables none s
]
replace_keys variables (some key) (c ∷ s) = elim (is_word c) [
  | true ↦ replace_keys variables (some (insert_row c key)) s
  | false ↦ elim (is_key_end key c) [
    | true ↦ value_or_match variables key ++ replace_keys variables none s
    | false ↦ b'{' ∷ key ++ elim (eqb c b'{') [
      | true ↦ replace_keys variables (some []) s
      | false ↦ c ∷ replace_keys variables none s
    ]
  ]
]

unfoldable pub interpolate : (List ℕ → Option (List ℕ)) → List ℕ → List ℕ
unfolding replace_keys
interpolate variables template = replace_keys variables none template
