-- ===== src/Contacts/ListingLaws.antt =====
-- What the pages of a list of contacts come to.
use callnow.Base.{
  ℕ, Bool, List, [], length, suc, ◌≡◌, ◌≤◌, arith, ◌*◌, ◌∷◌, ap, drop, refl, find_many, ◌-◌, ◌∙◌,
  sym, true, ◌↔◌, ◌⊎◌, Bool-cases, inl, inr, Option, String, eq_iff, map, none, some, truthy, false,
  ◌==◌, eq_refl, ◌&&◌, Has,
}
use callnow.Dialer.Campaigns.{paginate}
use callnow.Contacts.{Contact, Store, ContactPhone}
use callnow.Contacts.Listing.{
  is_listed, list_contacts, has_search, is_found, is_tagged, with_phones,
}
use callnow.Dialer.Text.{includes_text}
use callnow.Contacts.Pages.{
  Has-exists_where, IsOrder, exists_where-Has, total_of, join_pages, shown, find_many-Has,
  join_pages-paginate, Has-find_many, take_all, length-take,
}

-- the search of a request: none or empty, a part of the name, or a part of one of the numbers
abbrev pub Searched :
    (String → String → Bool) → Option String → List ContactPhone → Contact → Type 0
Searched has_name search phones c =
    (search ≡ none)
    ⊎ (search ≡ some "")
    ⊎ ((q : String) × (search ≡ some q)
        × ((has_name q c.name ≡ true)
            ⊎ ((p : ContactPhone) × Has p phones
                × (p.contact_id ≡ c.id)
                × (includes_text q p.number ≡ true))))

abbrev pub Tagged : Option String → Contact → Type 0
Tagged tag c = (tag ≡ none) ⊎ (tag ≡ some "") ⊎ ((t : String) × (tag ≡ some t) × Has t c.tags)

-- what the list of a user is to show
pub record IsFit (has_name : String → String → Bool) (user_id : String) (search tag : Option String)
    (phones : List ContactPhone) (c : Contact) : Type 0 where
  pub owned : c.user_id ≡ user_id
  pub searched : Searched has_name search phones c
  pub tagged : Tagged tag c

is_text_blank : (s : String) → truthy s ≡ false → s ≡ ""
is_text_blank s h = (eq_iff s "").0 (ground (arith, h))

module _ (has_name : String → String → Bool) (phones : List ContactPhone) (c : Contact) where
  has_search-Searched :
      (q : String)
      → has_search has_name q phones c ≡ true
      → (has_name q c.name ≡ true)
        ⊎ ((p : ContactPhone) × Has p phones
            × (p.contact_id ≡ c.id)
            × (includes_text q p.number ≡ true))
  unfolding has_search
  has_search-Searched q h = elim (Bool-cases (has_name q c.name)) [
    | inl name ↦ inl name
    | inr other ↦
        let (p, there, holds) =
          exists_where-Has (λ p. p.contact_id == c.id && includes_text q p.number) phones
            (ground (arith, other, h)) in
        inr (p, there, (eq_iff p.contact_id c.id).0 (ground (arith, holds)), ground (arith, holds))
  ]

  is_found-Searched :
      (search : Option String)
      → is_found has_name search phones c ≡ true
      → Searched has_name search phones c
  is_found-Searched none h = inl refl
  is_found-Searched (some q) h = elim (Bool-cases (truthy q)) [
    | inr blank ↦ inr (inl (ap some (is_text_blank q blank)))
    | inl full ↦ inr (inr (q, refl, has_search-Searched q (rw full at h)))
  ]

  Searched-is_found :
      (search : Option String)
      → Searched has_name search phones c
      → is_found has_name search phones c ≡ true
  unfolding has_search
  Searched-is_found search (inl absent) = rw absent refl
  Searched-is_found search (inr (inl empty)) = rw empty refl
  Searched-is_found search (inr (inr (q, given, inl name))) = rw given (ground (arith, name))
  Searched-is_found search (inr (inr (q, given, inr (p, there, own, part)))) =
      let some_number =
        Has-exists_where (λ p. p.contact_id == c.id && includes_text q p.number) p phones there
          (ground (arith, (eq_iff p.contact_id c.id).1 own, part)) in
      rw given (ground (arith, some_number))

is_tagged-Tagged : (tag : Option String) (c : Contact) → is_tagged tag c ≡ true → Tagged tag c
is_tagged-Tagged none c h = inl refl
is_tagged-Tagged (some t) c h = elim (Bool-cases (truthy t)) [
  | inr blank ↦ inr (inl (ap some (is_text_blank t blank)))
  | inl full ↦
      let (u, there, same) = exists_where-Has (λ u. u == t) c.tags (rw full at h) in
      let so : u ≡ t = (eq_iff u t).0 same in inr (inr (t, refl, rw so at there))
]

Tagged-is_tagged : (tag : Option String) (c : Contact) → Tagged tag c → is_tagged tag c ≡ true
Tagged-is_tagged tag c (inl absent) = rw absent refl
Tagged-is_tagged tag c (inr (inl empty)) = rw empty refl
Tagged-is_tagged tag c (inr (inr (t, given, there))) =
    let found = Has-exists_where (λ u. u == t) t c.tags there (eq_refl t) in
    rw given (ground (arith, found))

is_listed-IsFit :
    (has_name : String → String → Bool) (user_id : String) (search tag : Option String)
    (phones : List ContactPhone) (c : Contact)
    → (is_listed has_name user_id search tag phones c ≡ true)
      ↔ IsFit has_name user_id search tag phones c
unfolding is_listed
is_listed-IsFit has_name user_id search tag phones c = (
  λ h. record {
    owned = (eq_iff c.user_id user_id).0 (ground (arith, h));
    searched = is_found-Searched has_name phones c search (ground (arith, h));
    tagged = is_tagged-Tagged tag c (ground (arith, h));
  },
  λ f.
      let own = (eq_iff c.user_id user_id).1 f.owned in
      let found = Searched-is_found has_name phones c search f.searched in
      let tagged = Tagged-is_tagged tag c f.tagged in ground (arith, own, found, tagged),
)

map_contact :
    (phones : List ContactPhone) (cs : List Contact)
    → map (λ f. f.contact) (map (with_phones phones) cs) ≡ cs
map_contact phones [] = refl
map_contact phones (c ∷ cs) = ap (λ ds. c ∷ ds) (map_contact phones cs)

pages_of_rows :
    (has_name : String → String → Bool) (sort : List Contact → List Contact) (user_id : String)
    (search tag : Option String) (limit n : ℕ) (s : Store)
    → let page =
        λ (k : ℕ). list_contacts has_name sort user_id search tag (some k) (some limit) s in
      total_of (page 1) ≤ n * limit
      → join_pages (λ k. shown (page k)) n
        ≡ map
            (with_phones s.phones)
            (sort (find_many (is_listed has_name user_id search tag s.phones) s.contacts))
unfolding list_contacts paginate
pages_of_rows has_name sort user_id search tag limit n s enough =
    let rows =
      map (with_phones s.phones)
        (sort (find_many (is_listed has_name user_id search tag s.phones) s.contacts)) in
    join_pages-paginate limit n rows ∙ take_all (n * limit) rows enough

pages_of_order :
    (has_name : String → String → Bool) (sort : List Contact → List Contact) (user_id : String)
    (search tag : Option String) (limit n : ℕ) (s : Store) (c : Contact)
    → IsOrder sort
    → let page =
        λ (k : ℕ). list_contacts has_name sort user_id search tag (some k) (some limit) s in
      total_of (page 1) ≤ n * limit
      → (Has c (map (λ f. f.contact) (join_pages (λ k. shown (page k)) n))
          ↔ (Has c s.contacts × IsFit has_name user_id search tag s.phones c))
        × ((k : ℕ)
            → (length (shown (page (suc k))) ≤ limit)
              × (total_of (page (suc k)) ≡ length (join_pages (λ k. shown (page k)) n)))
unfolding list_contacts paginate
pages_of_order has_name sort user_id search tag limit n s c complete enough =
    let listed = is_listed has_name user_id search tag s.phones in
    let found = find_many listed s.contacts in
    let joined = pages_of_rows has_name sort user_id search tag limit n s enough in
    let contacts = ap (map (λ f. f.contact)) joined ∙ map_contact s.phones (sort found) in
    let fit = is_listed-IsFit has_name user_id search tag s.phones c in
    (
      (
        λ h.
            let there =
              find_many-Has listed c s.contacts ((complete c found).0 (rw contacts at h)) in
            (there.0, fit.0 there.1),
        λ h. rw contacts ((complete c found).1 (Has-find_many listed c s.contacts h.0 (fit.1 h.1))),
      ),
      λ k. (
        length-take limit (drop ((suc k - 1) * limit) (map (with_phones s.phones) (sort found))),
        ap length (sym joined),
      ),
    )

-- Leafing through the contacts, as long as the database keeps to one order for all the pages, shows a
-- contact exactly if it is in the table, is the user's and fits the search and the tag, once the pages
-- are enough for the total that they name; no page is longer than its limit, and every page names the
-- number of the contacts that are shown in all.
pub list_contacts-pages :
    (has_name : String → String → Bool) (order : ℕ → List Contact → List Contact) (user_id : String)
    (search tag : Option String) (limit n : ℕ) (s : Store) (c : Contact)
    → ((k : ℕ) (cs : List Contact) → order k cs ≡ order 0 cs)
    → IsOrder (order 0)
    → let page =
        λ (k : ℕ). list_contacts has_name (order k) user_id search tag (some k) (some limit) s in
      total_of (page 1) ≤ n * limit
      → (Has c (map (λ f. f.contact) (join_pages (λ k. shown (page k)) n))
          ↔ (Has c s.contacts × IsFit has_name user_id search tag s.phones c))
        × ((k : ℕ)
            → (length (shown (page (suc k))) ≤ limit)
              × (total_of (page (suc k)) ≡ length (join_pages (λ k. shown (page k)) n)))
unfolding list_contacts paginate
list_contacts-pages has_name order user_id search tag limit n s c steady complete enough =
    let same : order ≡ (λ k. order 0) = λ i k cs. steady k cs i in
    rw same (
      pages_of_order has_name (order 0) user_id search tag limit n s c complete (rw same at enough))
