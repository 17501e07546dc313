-- ===== src/Base/Every.antt =====
-- What `all` says of the lists that are made from a list.
use Prim.Native.Nat.{ℕ, zero, suc}
use mathlib.Core.Path.{◌≡◌, refl}
use mathlib.Core.Bool.{Bool, true, ◌&&◌}
use mathlib.Core.List.{List, [], ◌∷◌, ◌++◌}
use native.Mathlib.Omega.{arith}
use edtech_back.Base.Table.{select, delete_where, update_where}
use edtech_back.Base.Lists.{all, take}

module _ {A : Type 0} (p : A → Bool) where
  pub all-append : (xs ys : List A) → all p (xs ++ ys) ≡ (all p xs && all p ys)
  unfolding all
  all-append [] ys = refl
  all-append (x ∷ xs) ys = ground (arith, all-append xs ys)

  pub all-take : (n : ℕ) (xs : List A) → all p xs ≡ true → all p (take n xs) ≡ true
  unfolding all
  all-take zero xs h = refl
  all-take (suc n) [] h = refl
  all-take (suc n) (x ∷ xs) h = ground (arith, all-take n xs)

  pub all-imp :
      (q : A → Bool)
      → ((a : A) → p a ≡ true → q a ≡ true)
      → (xs : List A) → all p xs ≡ true
      → all q xs ≡ true
  unfolding all
  all-imp q h [] e = refl
  all-imp q h (x ∷ xs) e = ground (arith, h x, all-imp q h xs)

  -- What passes a test passes every weaker one.
  pub all-select :
      (q : A → Bool)
      → ((a : A) → q a ≡ true → p a ≡ true)
      → (xs : List A) → all p (select q xs) ≡ true
  unfolding all select
  all-select q h [] = refl
  all-select q h (x ∷ xs) = ground (arith, h x, all-select q h xs)

  pub all-delete_where :
      (m : A → Bool) (xs : List A) → all p xs ≡ true → all p (delete_where m xs) ≡ true
  unfolding all delete_where
  all-delete_where m [] h = refl
  all-delete_where m (x ∷ xs) h = ground (arith, all-delete_where m xs)

  pub all-update_where :
      (m : A → Bool) (f : A → A)
      → ((a : A) → p a ≡ true → p (f a) ≡ true)
      → (xs : List A) → all p xs ≡ true
      → all p (update_where m f xs) ≡ true
  unfolding all update_where
  all-update_where m f h [] e = refl
  all-update_where m f h (x ∷ xs) e = ground (arith, h x, all-update_where m f h xs)

  pub all-select_kept : (q : A → Bool) (xs : List A) → all p xs ≡ true → all p (select q xs) ≡ true
  unfolding all select
  all-select_kept q [] h = refl
  all-select_kept q (x ∷ xs) h = ground (arith, all-select_kept q xs)

  pub all-append_one :
      (xs : List A) (x : A) → all p xs ≡ true → p x ≡ true → all p (xs ++ x ∷ []) ≡ true
  unfolding all
  all-append_one xs x h e = rw (all-append xs (x ∷ []), h, e) refl

pub select-same :
    {A : Type 0} (p q : A → Bool)
    → ((a : A) → p a ≡ q a)
    → (xs : List A) → select p xs ≡ select q xs
unfolding select
select-same p q h [] = refl
select-same p q h (x ∷ xs) = rw (h x, select-same p q h xs) refl
