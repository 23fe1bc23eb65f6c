-- ===== src/Browser/Forms.antt =====
-- What a password must be: in the browser (frontend/src/app/(auth)/register/_components/RegisterForm.tsx
-- and frontend/src/app/(auth)/reset-password/page.tsx) and on the server
-- (backend/src/auth/dto/register.dto.ts and reset-password.dto.ts).
use Prim.Native.Char.{code}
use Prim.Native.String.{String}
use Prim.Native.Nat.{ℕ}
use callnow.Base.{
  Bool, String, ℕ, eqb, false, if◌then◌else◌, leb, ◌≡◌, ◌≤◌, arith, true, ◌&&◌, ◌+◌, ◌||◌, not,
  refl,
}
use callnow.Dialer.Text.{utf16_length, is_digit}

-- `/[…]/.test(s)`
unfoldable pub any_char : (ℕ → Bool) → String → Bool
any_char p String.[] = false
any_char p (String.◌∷◌ c s) = p (code c) || any_char p s

abbrev pub is_upper : ℕ → Bool
is_upper c = leb b'A' c && leb c b'Z'

abbrev pub is_alphanumeric : ℕ → Bool
is_alphanumeric c = is_digit c || is_upper c || (leb b'a' c && leb c b'z')

-- `[!@#$%^&*(),.?":{}|<>]`
abbrev pub is_listed : ℕ → Bool
is_listed c =
    eqb c 33
    || eqb c 64
    || eqb c 35
    || eqb c 36
    || eqb c 37
    || eqb c 94
    || eqb c 38
    || eqb c 42
    || eqb c 40
    || eqb c 41
    || eqb c 44
    || eqb c 46
    || eqb c 63
    || eqb c 34
    || eqb c 58
    || eqb c 123
    || eqb c 125
    || eqb c 124
    || eqb c 60
    || eqb c 62

-- the form's rules, where a length counts UTF-16 units
unfoldable pub form_accepts : String → Bool
form_accepts s =
    leb 8 (utf16_length s) && any_char is_digit s && any_char (λ c. not (is_alphanumeric c)) s

-- the length as class-validator counts it
unfoldable pub char_count : String → ℕ
char_count String.[] = 0
char_count (String.◌∷◌ c s) = 1 + char_count s

-- the server's rules, where a length counts a pair of surrogates once
unfoldable pub dto_accepts : String → Bool
dto_accepts s = leb 8 (char_count s) && any_char is_digit s && any_char is_listed s

abbrev pub points : Bool → ℕ
points b = if b then 25 else 0

-- the score of `passwordStrength`
unfoldable pub strength : String → ℕ
strength s =
    points (leb 8 (utf16_length s))
    + points (any_char is_digit s)
    + points (any_char (λ c. not (is_alphanumeric c)) s)
    + points (any_char is_upper s)

abbrev pub strength_label : ℕ → String
strength_label score =
    if leb score 25
    then "Weak"
    else (if leb score 50 then "Fair" else (if leb score 75 then "Good" else "Strong"))

any_char_mono :
    (p q : ℕ → Bool) (s : String)
    → ((c : ℕ) → p c ≡ true → q c ≡ true)
    → any_char p s ≡ true
    → any_char q s ≡ true
unfolding any_char
any_char_mono p q String.[] sub h = h
any_char_mono p q (String.◌∷◌ c s) sub h = ground (arith, sub (code c), any_char_mono p q s sub)

is_listed-other : (c : ℕ) → is_listed c ≡ true → not (is_alphanumeric c) ≡ true
is_listed-other c h = ground arith

char_count-le-utf16_length : (s : String) → char_count s ≤ utf16_length s
unfolding utf16_length char_count
char_count-le-utf16_length String.[] = omega arith
char_count-le-utf16_length (String.◌∷◌ c s) = ground (arith, char_count-le-utf16_length s)

-- A password that the server takes passes the form, and is shown there as Good or Strong, the
-- latter exactly if it has a capital letter.
pub dto_accepts-form :
    (s : String)
    → dto_accepts s ≡ true
    → (form_accepts s ≡ true)
      × (strength_label (strength s) ≡ (if any_char is_upper s then "Strong" else "Good"))
unfolding dto_accepts form_accepts strength
dto_accepts-form s h =
    let other = any_char_mono is_listed (λ c. not (is_alphanumeric c)) s is_listed-other in
    ground (arith, other, char_count-le-utf16_length s)

-- The form takes passwords that the server refuses: seven letters or digits, one a digit, before a
-- hyphen, which the server does not count as a special character.
form_accepts_more : (form_accepts "abcdef1-" ≡ true) × (dto_accepts "abcdef1-" ≡ false)
unfolding form_accepts dto_accepts any_char utf16_length char_count
form_accepts_more = (refl, refl)
