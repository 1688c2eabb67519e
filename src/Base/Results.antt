-- ===== src/Base/Results.antt =====
-- The exceptions that services raise, and computations that may raise one.
use Prim.Native.String.{String}
use mathlib.Core.Path.{◌≡◌, refl}
use mathlib.Core.Logic.{◌⊎◌, inl, inr}
use mathlib.Core.Bool.{Bool, true, false}

-- A refused permission; a refused value with the field that is named (the empty text where none is);
-- a missing object; a conflict with the stored history; a missing configuration.
pub data Error : Type 0 where
  permission_denied : String → Error
  validation_error : String → String → Error
  not_found conflict unconfigured : String → Error

-- How a service ends: with an exception, or with a value.
pub data Result {κ} (B : Type κ) : Type κ where
  err : Error → Result B
  ok : B → Result B

-- `if not condition: raise e`
abbrev pub check : Bool → Error → Result (Unit {0})
check condition e = elim condition [ true ↦ ok tt | false ↦ err e ]

pub Result-cases {κ} :
    {B : Type κ} (r : Result B) → ((b : B) × (r ≡ ok b)) ⊎ ((e : Error) × (r ≡ err e))
Result-cases (err e) = inr (e, refl)
Result-cases (ok b) = inl (b, refl)

-- An exception ends the block.
infixl 5 ◌>>=◌
abbrev pub ◌>>=◌ {κ μ} : {B : Type κ} {C : Type μ} → Result B → (B → Result C) → Result C
err e >>= next = err e
ok b >>= next = next b

-- A block that ended well passed its first step.
pub >>=-eq-ok {κ μ} :
    {B : Type κ} {C : Type μ} (first : Result B) (next : B → Result C) {c : C}
    → (first >>= next) ≡ ok c
    → (b : B) × (first ≡ ok b) × (next b ≡ ok c)
>>=-eq-ok (err e) next h = cc
>>=-eq-ok (ok b) next h = (b, refl, h)

infixl 5 ◌>>◌
abbrev pub ◌>>◌ {μ} : {C : Type μ} → Result (Unit {0}) → Result C → Result C
passed >> next = passed >>= λ _. next
