-- ===== src/Base/Outcome.antt =====
-- common/Result.h: a value or an error with an HTTP status. `Result<void>` is `Result Unit`; passing
-- an error on, `failure(x.error())`, is the bind.
use Prim.Native.Nat.{ℕ}
use Prim.Native.String.{String}
use mathlib.Core.Path.{◌≡◌, refl}
use mathlib.Core.Logic.{◌⊎◌, inl, inr}
use mathlib.Core.Bool.{Bool, true, false}
use web_cloud_disk.Base.Texts.{Bytes, codes}

pub record AppError : Type 0 where
  pub status_code : ℕ
  pub message : Bytes

pub data Result {ℓ} (A : Type ℓ) : Type ℓ where
  success : A → Result A
  failure : AppError → Result A

-- `failure(status_code, "text")`.
abbrev pub fail {ℓ} : {A : Type ℓ} → ℕ → String → Result A
fail n s = failure (record { status_code = n; message = codes s })

abbrev pub is_ok {ℓ} : {A : Type ℓ} → Result A → Bool
is_ok (success a) = true
is_ok (failure e) = false

infixl 5 ◌>>=◌ ◌>>◌
abbrev pub ◌>>=◌ {ℓ κ} : {A : Type ℓ} {B : Type κ} → Result A → (A → Result B) → Result B
success a >>= f = f a
failure e >>= f = failure e

abbrev pub ◌>>◌ {ℓ} : {B : Type ℓ} → Result (Unit {0}) → Result B → Result B
m >> k = m >>= λ _. k

-- `if (test) return failure(n, "text");`
abbrev pub reject_if : Bool → ℕ → String → Result (Unit {0})
reject_if true n s = fail n s
reject_if false n s = success tt

pub Result-cases {ℓ} :
    {A : Type ℓ} (r : Result A) → ((a : A) × (r ≡ success a)) ⊎ ((e : AppError) × (r ≡ failure e))
Result-cases (success a) = inl (a, refl)
Result-cases (failure e) = inr (e, refl)
