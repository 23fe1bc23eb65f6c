-- ===== src/Contacts/MatchLaws.antt =====
-- What an update of a contact leaves, and whose contact a number is matched to.
use callnow.Base.{
  Bool, String, List, ◌==◌, ◌≡◌, false, find_many, Distinct, Option-cases, delete_where, map, ◌++◌,
  [], if◌then◌else◌, inl, ok, some, ◌∷◌, Bool-cases, arith, inr, eq_iff, refl, exists_where,
  eq_refl, true, ap, find_first, ◌∙◌, append_nil, find_first-holds, ◌&&◌,
}
use callnow.Contacts.{
  Contact, Store, match_contact, phones_of, update_contact, find_phone, new_phone, replaced,
  ContactPhone, PhoneDto, UpdateContact, find_contact, FullContact, find_own_contact, is_contact_of,
  name_or_null,
}
use Prim.Native.String.{String, [], ◌∷◌}

module _ {A : Type 0} (p : A → Bool) where
  find_many-append : (xs ys : List A) → find_many p (xs ++ ys) ≡ find_many p xs ++ find_many p ys
  find_many-append [] ys = refl
  find_many-append (x ∷ xs) ys = ground (arith, find_many-append xs ys)

  find_many-delete_where : (xs : List A) → find_many p (delete_where p xs) ≡ []
  find_many-delete_where [] = refl
  find_many-delete_where (x ∷ xs) = ground (arith, find_many-delete_where xs)

phones_of-append :
    (j : String) (xs ys : List ContactPhone)
    → phones_of j (xs ++ ys) ≡ phones_of j xs ++ phones_of j ys
unfolding phones_of
phones_of-append j = find_many-append (λ p. p.contact_id == j)

phones_of-delete_where :
    (id : String) (phones : List ContactPhone)
    → phones_of id (delete_where (λ p. p.contact_id == id) phones) ≡ []
unfolding phones_of
phones_of-delete_where id = find_many-delete_where (λ p. p.contact_id == id)

phones_of-map :
    (j id : String) (ps : List PhoneDto)
    → phones_of j (map (new_phone id) ps) ≡ (if id == j then map (new_phone id) ps else [])
unfolding phones_of new_phone
phones_of-map j id [] = ground arith
phones_of-map j id (p ∷ ps) = ground (arith, phones_of-map j id ps)

phones_of-delete_other :
    (j id : String) (phones : List ContactPhone)
    → (id == j) ≡ false
    → phones_of j (delete_where (λ p. p.contact_id == id) phones) ≡ phones_of j phones
unfolding phones_of
phones_of-delete_other j id [] apart = refl
phones_of-delete_other j id (p ∷ phones) apart =
    ground
      (arith, eq_iff p.contact_id id, eq_iff p.contact_id j, phones_of-delete_other j id phones)

replaced-phones_of :
    (j id : String) (ps : List PhoneDto) (phones : List ContactPhone)
    → phones_of j (replaced id (some ps) phones)
      ≡ (if id == j then map (new_phone id) ps else phones_of j phones)
unfolding replaced
replaced-phones_of j id ps phones =
    phones_of-append j (delete_where (λ p. p.contact_id == id) phones) (map (new_phone id) ps)
    ∙ elim (Bool-cases (id == j)) [
      | inl same ↦
          ground (arith, eq_iff id j, phones_of-delete_where id phones, phones_of-map j id ps)
      | inr other ↦
          rw (phones_of-delete_other j id phones other, phones_of-map j id ps, other)
            (append_nil (phones_of j phones))
    ]

-- An update with numbers leaves the contact with these numbers alone, and every other contact with
-- the numbers it had.
pub update_contact-phones_of :
    (user_id id j : String) (dto : UpdateContact) (ps : List PhoneDto) (s : Store) (c : FullContact)
    → dto.phones ≡ some ps
    → (update_contact user_id id dto s).0 ≡ ok c
    → (c.phones ≡ map (new_phone id) ps)
      × (phones_of j (update_contact user_id id dto s).1.phones
          ≡ (if id == j then map (new_phone id) ps else phones_of j s.phones))
unfolding update_contact
update_contact-phones_of user_id id j dto ps s c given_phones done =
    elim (Option-cases (find_own_contact id user_id s.contacts)) [
      | inl missing ↦ absurd (ground arith)
      | inr (old, own) ↦
          let numbers = replaced-phones_of j id ps s.phones in
          let own_numbers = replaced-phones_of id id ps s.phones in
          (
            ground (arith, given_phones, own_numbers, eq_refl id),
            ground (arith, given_phones, numbers),
          )
    ]

exists-weaker :
    (k user_id : String) (rows : List Contact)
    → exists_where (is_contact_of k user_id) rows ≡ true
    → exists_where (λ x. x.id == k) rows ≡ true
exists-weaker k user_id [] one = one
exists-weaker k user_id (x ∷ rows) one = ground (arith, exists-weaker k user_id rows)

unique_owner :
    (k user_id : String) (rows : List Contact) (c : Contact)
    → Distinct (λ x. x.id) rows
    → exists_where (is_contact_of k user_id) rows ≡ true
    → find_first (λ x. x.id == k) rows ≡ some c
    → c.user_id ≡ user_id
unique_owner k user_id [] c keys one first = cc
unique_owner k user_id (x ∷ rows) c keys one first = elim (Bool-cases (x.id == k)) [
  | inl hit ↦
      let same : x ≡ c = ground arith in
      elim (Bool-cases (x.user_id == user_id)) [
        | inl own ↦ ground (arith, eq_iff x.user_id user_id)
        | inr foreign ↦ absurd (ground (arith, eq_iff x.id k, exists-weaker k user_id rows))
      ]
  | inr miss ↦ unique_owner k user_id rows c keys.1 (ground arith) (ground arith)
]

find_phone-owned :
    (number user_id : String) (s : Store) (p : ContactPhone)
    → find_phone number user_id s ≡ some p
    → exists_where (is_contact_of p.contact_id user_id) s.contacts ≡ true
unfolding find_phone
find_phone-owned number user_id s p found = ground (
  arith,
  find_first-holds
      (λ x. x.number == number && exists_where (is_contact_of x.contact_id user_id) s.contacts)
      s.phones p found,
)

found_by_id :
    (id : String) (rows : List Contact) (c : Contact)
    → find_contact id rows ≡ some c
    → find_first (λ x. x.id == id) rows ≡ some c
unfolding find_contact
found_by_id id rows c found = found

find_contact-id :
    (id : String) (rows : List Contact) (c : Contact) → find_contact id rows ≡ some c → c.id ≡ id
find_contact-id id rows c found =
    (eq_iff c.id id).0 (find_first-holds (λ x. x.id == id) rows c (found_by_id id rows c found))

-- A number is matched only to a contact of the user who asks, where ids are unique.
pub match_contact-owner :
    (number user_id name : String) (s : Store)
    → Distinct (λ c. c.id) s.contacts
    → (match_contact number user_id s).0 ≡ ok (some name)
    → (c : Contact) × (find_contact c.id s.contacts ≡ some c)
      × (c.user_id ≡ user_id)
      × (c.name ≡ name)
unfolding match_contact
match_contact-owner number user_id name s keys matched =
    elim (Option-cases (find_phone number user_id s)) [
      | inl unknown ↦ absurd (ground arith)
      | inr (p, found) ↦ elim (Option-cases (find_contact p.contact_id s.contacts)) [
        | inl gone ↦ absurd (ground arith)
        | inr (c, there) ↦
            let named : name_or_null (some c) ≡ some name = ground arith in
            let of_user = find_phone-owned number user_id s p found in
            let by_id = find_contact-id p.contact_id s.contacts c there in
            (
              c,
              ap (λ i. find_contact i s.contacts) by_id ∙ there,
              unique_owner p.contact_id user_id s.contacts c keys of_user
                  (found_by_id p.contact_id s.contacts c there),
              ground arith,
            )
      ]
    ]
