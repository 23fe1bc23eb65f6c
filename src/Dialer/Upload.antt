-- ===== src/Dialer/Upload.antt =====
-- A campaign that is made from a file: dialer.service.ts, `createCampaign`, which reads the file a
-- second time, against csv-validator.ts.
use Prim.Native.Nat.{ℕ, suc}
use callnow.Base.{
  ℕ, String, Option, List, ◌≡◌, ok, ◌++◌, length, All, true, false, Bool, map, find_many, ◌∷◌,
  Bool-cases, Option-cases, ap, arith, inl, refl, suc, [], inr, ◌∙◌, some, sym,
}
use callnow.Dialer.{CreateCampaign, Row, Store, Campaign, CampaignContact, pending}
use callnow.Dialer.CsvValidator.{Report, has_phone, validate, blank_report}
use callnow.Dialer.Campaigns.{
  create_campaign, dnc_phones, is_callable, new_campaign, new_contact, new_contacts, records_of,
}
use callnow.Dialer.Text.{is_e164}
use callnow.Dialer.ValidatorLaws.{validate-Valid, check_rows-valid, Valid}

length-map : {A B : Type 0} (f : A → B) (xs : List A) → length (map f xs) ≡ length xs
length-map f [] = refl
length-map f (x ∷ xs) = ap suc (length-map f xs)

-- Rows that a filter keeps satisfy it, and what is made of them has what follows.
All-map-find_many :
    {A B : Type 0} (P : B → Type 0) (p : A → Bool) (f : A → B) (xs : List A)
    → ((x : A) → p x ≡ true → P (f x))
    → All P (map f (find_many p xs))
All-map-find_many P p f [] step = tt
All-map-find_many P p f (x ∷ xs) step = elim (Bool-cases (p x)) [
  | inl hit ↦ rw hit (step x hit, All-map-find_many P p f xs step)
  | inr miss ↦ rw miss (All-map-find_many P p f xs step)
]

-- what a new contact of a campaign is, against the owner's do-not-call list
abbrev pub IsCallable : String → List String → CampaignContact → Type 0
IsCallable id dnc k =
    (k.campaign_id ≡ id)
    × (is_e164 k.phone ≡ true)
    × (has_phone k.phone dnc ≡ false)
    × (k.status ≡ pending)

new_contact-IsCallable :
    (id column : String) (dnc : List String) (r : Row)
    → is_callable dnc column r ≡ true
    → IsCallable id dnc (new_contact id column r)
unfolding is_callable new_contact
new_contact-IsCallable id column dnc r h = (refl, ground arith, ground arith, refl)

-- what the second reading of an accepted file adds
new_contacts-accepted :
    (id : String) (parsed : Option (List Row)) (dnc : List String) (report : Report)
    (v : Valid parsed dnc report)
    → new_contacts id dnc (records_of parsed)
      ≡ map (new_contact id v.column) (find_many (is_callable dnc v.column) v.records)
unfolding new_contacts
new_contacts-accepted id parsed dnc report v = rw (v.read, v.named) refl

accepted-count :
    (parsed : Option (List Row)) (dnc : List String) (report : Report) (v : Valid parsed dnc report)
    → length (find_many (is_callable dnc v.column) v.records) ≡ report.valid
accepted-count parsed dnc report v =
    let counted = check_rows-valid dnc v.column 2 v.records (blank_report (length v.records)) in
    omega (arith, counted, ap (λ r. r.valid) v.made)

-- what the handler returns and writes, once the file is accepted
create_campaign-accepted :
    (now : ℕ) (id user_id : String) (dto : CreateCampaign) (parsed : Option (List Row)) (s : Store)
    (campaign : Campaign) (report : Report)
    → (create_campaign now id user_id dto parsed s).0 ≡ ok (campaign, report)
    → (validate parsed (dnc_phones user_id s.dnc) ≡ some report)
      × (campaign.total_contacts ≡ report.valid)
      × ((create_campaign now id user_id dto parsed s).1.contacts
          ≡ s.contacts ++ new_contacts id (dnc_phones user_id s.dnc) (records_of parsed))
unfolding create_campaign new_campaign
create_campaign-accepted now id user_id dto parsed s campaign report e =
    elim (Option-cases (validate parsed (dnc_phones user_id s.dnc))) [
      | inl refused ↦ absurd (ground arith)
      | inr (made, checked) ↦ (ground arith, ground arith, ground arith)
    ]

-- When a campaign is made, its count of contacts, which the validator made, is the number of contacts
-- that the second reading of the file adds; other rows stay, and each new contact is pending, with
-- an E.164 number that is not on the owner's do-not-call list.
pub create_campaign-total :
    (now : ℕ) (id user_id : String) (dto : CreateCampaign) (parsed : Option (List Row)) (s : Store)
    (campaign : Campaign) (report : Report)
    → (create_campaign now id user_id dto parsed s).0 ≡ ok (campaign, report)
    → (added : List CampaignContact) × ((create_campaign now id user_id dto parsed s).1.contacts
        ≡ s.contacts ++ added)
      × (length added ≡ campaign.total_contacts)
      × All (IsCallable id (dnc_phones user_id s.dnc)) added
create_campaign-total now id user_id dto parsed s campaign report e =
    let dnc = dnc_phones user_id s.dnc in
    let a = create_campaign-accepted now id user_id dto parsed s campaign report e in
    let v = validate-Valid parsed dnc report a.0 in
    let rows = find_many (is_callable dnc v.column) v.records in
    (
      map (new_contact id v.column) rows,
      a.2 ∙ ap (λ added. s.contacts ++ added) (new_contacts-accepted id parsed dnc report v),
      length-map (new_contact id v.column) rows ∙ accepted-count parsed dnc report v ∙ sym a.1,
      All-map-find_many (IsCallable id dnc) (is_callable dnc v.column) (new_contact id v.column)
          v.records (new_contact-IsCallable id v.column dnc),
    )
