-- ===== src/RateLimit/Validation.antt =====
-- rateLimits/rateLimitValidation.ts: the optional limits of a request body.
use gatehouse.Common.{
  ℕ, ◌≤◌, ◌≡◌, refl, Text, trim, digits_value, Option, none, some, [], ◌∷◌, leb, ◌==◌,
  if◌then◌else◌, arith, ◌&&◌,
}
use gatehouse.RateLimit.Limiter.{AppRoleLimits}

abbrev pub hard_ceiling_per_minute : ℕ
hard_ceiling_per_minute = 10000

abbrev pub hard_ceiling_per_hour : ℕ
hard_ceiling_per_hour = 100000

abbrev pub hard_ceiling_per_day : ℕ
hard_ceiling_per_day = 1000000

abbrev pub hard_floor : ℕ
hard_floor = 1

-- A member of a JSON body. Numbers that are no whole number from 0 on are told apart only so far as
-- the code does: a negative whole number is below the floor, any other number is unusable.
pub data Field : Type 0 where
  missing : Field
  null : Field
  text : Text → Field
  whole : ℕ → Field
  negative : Field
  unusable_number : Field
  other : Field

pub data Coerced : Type 0 where
  unset : Coerced
  number : ℕ → Coerced
  below_zero : Coerced
  invalid : Coerced

-- `Number` on a text that matches `/^-?\d+$/`. One too long for a double is far above each ceiling.
abbrev of_digits : Option ℕ → Coerced
of_digits none = invalid
of_digits (some n) = number n

abbrev of_negative : Option ℕ → Coerced
of_negative none = invalid
of_negative (some n) = if n == 0 then number 0 else below_zero

unfoldable pub coerce_text : Text → Coerced
coerce_text [] = unset
coerce_text (c ∷ []) = of_digits (digits_value 0 (c ∷ []))
coerce_text (c ∷ d ∷ s) =
    if c == b'-'
    then of_negative (digits_value 0 (d ∷ s))
    else of_digits (digits_value 0 (c ∷ d ∷ s))

unfoldable pub coerce_optional_int : Field → Coerced
unfolding coerce_text
coerce_optional_int missing = unset
coerce_optional_int null = unset
coerce_optional_int (text t) = coerce_text (trim t)
coerce_optional_int (whole n) = number n
coerce_optional_int negative = below_zero
coerce_optional_int unusable_number = invalid
coerce_optional_int other = invalid

-- The message of a refused axis names the axis and its ceiling.
pub data AxisName : Type 0 where
  rate_limit_per_minute rate_limit_per_hour rate_limit_per_day : AxisName

pub data Validated {ℓ} (A : Type ℓ) : Type ℓ where
  valid : A → Validated A
  error : AxisName → ℕ → Validated A

infixl 5 ◌>>=◌
abbrev pub ◌>>=◌ {ℓ κ} : {A : Type ℓ} {B : Type κ} → Validated A → (A → Validated B) → Validated B
valid a >>= f = f a
error name ceiling >>= f = error name ceiling

abbrev in_range : AxisName → ℕ → Coerced → Validated (Option ℕ)
in_range name ceiling unset = valid none
in_range name ceiling (number n) =
    if leb hard_floor n && leb n ceiling then valid (some n) else error name ceiling
in_range name ceiling below_zero = error name ceiling
in_range name ceiling invalid = error name ceiling

unfoldable pub validate_axis : AxisName → Field → ℕ → Validated (Option ℕ)
validate_axis name raw ceiling = in_range name ceiling (coerce_optional_int raw)

pub record RawInput : Type 0 where
  pub per_minute : Field
  pub per_hour : Field
  pub per_day : Field

unfoldable pub validate_app_role_limits : RawInput → Validated AppRoleLimits
validate_app_role_limits input = do
  minute ← validate_axis rate_limit_per_minute input.per_minute hard_ceiling_per_minute
  hour ← validate_axis rate_limit_per_hour input.per_hour hard_ceiling_per_hour
  day ← validate_axis rate_limit_per_day input.per_day hard_ceiling_per_day
  valid (record { per_minute = minute; per_hour = hour; per_day = day })

abbrev pub Between : ℕ → Option ℕ → Type 0
Between ceiling none = Unit {0}
Between ceiling (some n) = (hard_floor ≤ n) × (n ≤ ceiling)

pub record IsInRange (limits : AppRoleLimits) : Type 0 where
  pub minute : Between hard_ceiling_per_minute limits.per_minute
  pub hour : Between hard_ceiling_per_hour limits.per_hour
  pub day : Between hard_ceiling_per_day limits.per_day

-- The body that asks for given limits, as numbers.
abbrev pub field_of : Option ℕ → Field
field_of none = null
field_of (some n) = whole n

abbrev pub body_of : AppRoleLimits → RawInput
body_of limits = record {
  per_minute = field_of limits.per_minute;
  per_hour = field_of limits.per_hour;
  per_day = field_of limits.per_day;
}

validate_axis-Between :
    (name : AxisName) (raw : Field) (ceiling : ℕ) (o : Option ℕ)
    → validate_axis name raw ceiling ≡ valid o
    → Between ceiling o
unfolding validate_axis
validate_axis-Between name raw ceiling none e = tt
validate_axis-Between name raw ceiling (some n) e = ground arith

validate_axis-field_of :
    (name : AxisName) (ceiling : ℕ) (o : Option ℕ)
    → Between ceiling o
    → validate_axis name (field_of o) ceiling ≡ valid o
unfolding validate_axis coerce_optional_int
validate_axis-field_of name ceiling none b = refl
validate_axis-field_of name ceiling (some n) b = ground arith

validate_inversion :
    (input : RawInput) (limits : AppRoleLimits)
    → validate_app_role_limits input ≡ valid limits
    → (validate_axis rate_limit_per_minute input.per_minute hard_ceiling_per_minute
        ≡ valid limits.per_minute)
      × (validate_axis rate_limit_per_hour input.per_hour hard_ceiling_per_hour
          ≡ valid limits.per_hour)
      × (validate_axis rate_limit_per_day input.per_day hard_ceiling_per_day ≡ valid limits.per_day)
unfolding validate_app_role_limits
validate_inversion input limits e = ground arith

-- Whatever the body, accepted limits lie between the floor and the ceilings, and to ask again for
-- just these limits is accepted and gives them back.
pub validate-IsInRange :
    (input : RawInput) (limits : AppRoleLimits)
    → validate_app_role_limits input ≡ valid limits
    → IsInRange limits × (validate_app_role_limits (body_of limits) ≡ valid limits)
unfolding validate_app_role_limits
validate-IsInRange input limits e =
    let (m, h, d) = validate_inversion input limits e in
    let minute = validate_axis-Between _ _ _ _ m in
    let hour = validate_axis-Between _ _ _ _ h in
    let day = validate_axis-Between _ _ _ _ d in
    (
      record { minute = minute; hour = hour; day = day },
      rw (
        validate_axis-field_of rate_limit_per_minute _ _ minute,
        validate_axis-field_of rate_limit_per_hour _ _ hour,
        validate_axis-field_of rate_limit_per_day _ _ day,
      ),
    )
