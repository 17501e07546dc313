-- ===== src/Base/Ids.antt =====
-- Sets of identifiers, as the lists of their members.
use Prim.Native.Nat.{ℕ}
use mathlib.Core.Path.{◌≡◌, refl}
use mathlib.Core.Bool.{Bool, false, not, ◌&&◌, ◌||◌}
use mathlib.Core.List.{List, [], ◌∷◌, ◌++◌}
use native.Mathlib.Omega.{arith}
use edtech_back.Base.Tests.{◌==◌}
use edtech_back.Base.Table.{select}

-- `id in ids`
unfoldable pub contains : ℕ → List ℕ → Bool
contains id [] = false
contains id (x ∷ xs) = x == id || contains id xs

-- `dict.fromkeys(ids)`, or `set(ids)`: each member once
unfoldable pub distinct : List ℕ → List ℕ
distinct [] = []
distinct (x ∷ xs) = x ∷ select (λ y. not (y == x)) (distinct xs)

pub contains-append :
    (id : ℕ) (xs ys : List ℕ) → contains id (xs ++ ys) ≡ (contains id xs || contains id ys)
unfolding contains
contains-append id [] ys = refl
contains-append id (x ∷ xs) ys = ground (arith, contains-append id xs ys)

-- A test that equal identifiers pass alike.
pub contains-select :
    (p : ℕ → Bool) (id : ℕ) (xs : List ℕ) → contains id (select p xs) ≡ (contains id xs && p id)
unfolding contains select
contains-select p id [] = refl
contains-select p id (x ∷ xs) = ground (arith, contains-select p id xs)

pub contains-distinct : (id : ℕ) (xs : List ℕ) → contains id (distinct xs) ≡ contains id xs
unfolding contains distinct
contains-distinct id [] = refl
contains-distinct id (x ∷ xs) =
    ground (arith, contains-select (λ y. not (y == x)) id (distinct xs), contains-distinct id xs)
