-- ===== src/Browser.antt =====
-- What the browser makes of the server's events: the gateways of the backend, and the stores and
-- the socket of frontend/src. Values that come over the socket are untyped, as they are there: a
-- field that is missing reads as undefined, and a field of undefined or null throws.
pub mod Gateways
pub mod Messages
pub mod Calls
pub mod Events
pub mod Client
pub mod Proxy
pub mod Voice
pub mod DialPad
pub mod Wizard
pub mod Overlay
pub mod Forms
pub mod MessageLaws
pub mod CallLaws
pub mod ClientLaws
pub mod ProxyLaws
pub mod VoiceLaws
pub mod DialPadLaws
pub mod WizardLaws
pub mod EventLaws
mod Examples
mod VoiceExamples
mod WizardExamples
use callnow.Base.{
  ℕ, Bool, Option, String, false, if◌then◌else◌, none, some, true, not, ◌==◌, eqb, truthy,
}

mutual
  pub data Json : Type 0 where
    undefined null : Json
    boolean : Bool → Json
    num : ℕ → Json
    str : String → Json
    object : Fields → Json

  pub data Fields : Type 0 where
    no_fields : Fields
    field : String → Json → Fields → Fields

unfoldable pub field_of : String → Fields → Json
field_of k no_fields = undefined
field_of k (field j v fs) = if j == k then v else field_of k fs

-- `x.k`, with `none` where it throws
abbrev pub get : String → Json → Option Json
get k undefined = none
get k null = none
get k (boolean b) = some undefined
get k (num n) = some undefined
get k (str s) = some undefined
get k (object fs) = some (field_of k fs)

unfoldable pub set_field : String → Json → Fields → Fields
set_field k v no_fields = field k v no_fields
set_field k v (field j w fs) = if j == k then field j v fs else field j w (set_field k v fs)

unfoldable pub merge : Fields → Fields → Fields
unfolding set_field
merge fs no_fields = fs
merge fs (field k v gs) = merge (set_field k v fs) gs

-- `{ ...x, ...fields }`, of anything but a str
abbrev pub spread : Json → Fields → Json
spread undefined gs = object gs
spread null gs = object gs
spread (boolean b) gs = object gs
spread (num n) gs = object gs
spread (str s) gs = object gs
spread (object fs) gs = object (merge fs gs)

abbrev pub is_truthy : Json → Bool
is_truthy undefined = false
is_truthy null = false
is_truthy (boolean b) = b
is_truthy (num n) = not (eqb n 0)
is_truthy (str s) = truthy s
is_truthy (object fs) = true

-- `x === y`, of values that come from different packets
abbrev pub same : Json → Json → Bool
same undefined undefined = true
same null null = true
same (boolean true) (boolean b) = b
same (boolean false) (boolean b) = not b
same (num n) (num m) = eqb n m
same (str s) (str t) = s == t
same x y = false

abbrev pub or_null : Option String → Json
or_null none = null
or_null (some s) = str s
