-- ===== src/Value.antt =====
-- The values of JavaScript that the policies of typescript/src inspect: what a JSON text can hold,
-- `undefined`, and values that no policy supports (a class instance, a function, an object with a
-- symbol, a getter or a hidden property). A number that is not a safe integer is `inexact`.
use stripe_entitlements_fast.Base.{ℤ, String, Bool, true, false, not, str_eq, if◌then◌else◌, eq_ℤ}

mutual
  pub data Value : Type 0 where
    undefined null inexact exotic : Value
    boolean : Bool → Value
    integer : ℤ → Value
    text : String → Value
    array : Items → Value
    object : Fields → Value

  pub data Items : Type 0 where
    end_items : Items
    item : Value → Items → Items

  -- the own properties of an object, in their order
  pub data Fields : Type 0 where
    end_fields : Fields
    field : String → Value → Fields → Fields

-- `isSupportedRecord`
abbrev pub is_record : Value → Bool
is_record (object _) = true
is_record _ = false

-- `isAbsent`
abbrev pub is_absent : Value → Bool
is_absent undefined = true
is_absent null = true
is_absent _ = false

-- the own property of a name, or another value
abbrev pub field_or : Fields → String → Value → Value
field_or end_fields name other = other
field_or (field n v fs) name other =
    let rest = field_or fs name other in if str_eq n name then v else rest

-- `value[name]` of a supported record
abbrev pub get : Value → String → Value
get (object fs) name = field_or fs name undefined
get _ name = undefined

-- `ownValueOrDefault`
abbrev pub own_or : Value → String → Value → Value
own_or (object fs) name other = field_or fs name other
own_or _ name other = other

-- `=== text`, `=== true`, and `=== n` of a safe integer
abbrev pub is_text : String → Value → Bool
is_text s (text t) = str_eq t s
is_text s _ = false

abbrev pub is_true : Value → Bool
is_true (boolean b) = b
is_true _ = false

abbrev pub is_false : Value → Bool
is_false (boolean b) = not b
is_false _ = false

abbrev pub is_integer : ℤ → Value → Bool
is_integer n (integer m) = eq_ℤ m n
is_integer n _ = false
