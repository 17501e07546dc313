-- ===== src/Base/Http.antt =====
-- What a request handler answers: a value, or an `HTTPException` with its status code. The text of
-- the detail is left out.
use Prim.Native.Nat.{ℕ}
use mathlib.Core.Path.{◌≡◌, refl}
use mathlib.Core.Logic.{◌⊎◌, inl, inr}
use mathlib.Core.Bool.{Bool, true, false}
use edtech_back.Base.Tests.{if◌then◌else◌}

pub data Outcome (A : Type 0) : Type 0 where
  ok : A → Outcome A
  http_error : ℕ → Outcome A

pub Outcome-cases :
    {A : Type 0} (o : Outcome A) → ((code : ℕ) × (o ≡ http_error code)) ⊎ ((a : A) × (o ≡ ok a))
Outcome-cases (ok a) = inr (a, refl)
Outcome-cases (http_error code) = inl (code, refl)

-- What both branches of a guard have.
pub guard-either :
    {A : Type 0} (P : A → Type 0) (b : Bool) {x y : A}
    → (b ≡ true → P x)
    → (b ≡ false → P y)
    → P (if b then x else y)
guard-either P true h k = h refl
guard-either P false h k = k refl
