-- ===== src/Base/Table.antt =====
-- A database table as the list of its rows, in the order of insertion.
use Prim.Native.Nat.{ℕ, ◌+◌, ◌≤◌}
use mathlib.Core.Path.{◌≡◌, refl, subst}
use mathlib.Core.Logic.{inl, inr}
use mathlib.Core.Bool.{Bool, true, false}
use mathlib.Core.Option
use mathlib.Core.Option.{Option, none, some}
use mathlib.Core.List.{List, [], ◌∷◌, ◌++◌}
use native.Mathlib.Omega.{arith}
use edtech_back.Base.Tests.{if◌then◌else◌, Bool-cases}
use edtech_back.Base.Lists.{length, All, any, all}

module _ {ℓ} {A : Type ℓ} where
  -- `db.scalar(select(A).where(p))`, and `db.get` where `p` tests the primary key
  unfoldable pub find : (A → Bool) → List A → Option A
  find p [] = none
  find p (x ∷ xs) = if p x then some x else find p xs

  -- `db.scalars(select(A).where(p))`
  unfoldable pub select : (A → Bool) → List A → List A
  select p [] = []
  select p (x ∷ xs) = let rest = select p xs in if p x then x ∷ rest else rest

  -- an `UPDATE ... WHERE p`, or the assignments to the attributes of the rows that `p` selects
  unfoldable pub update_where : (A → Bool) → (A → A) → List A → List A
  update_where p f [] = []
  update_where p f (x ∷ xs) = (if p x then f x else x) ∷ update_where p f xs

  -- `DELETE ... WHERE p`
  unfoldable pub delete_where : (A → Bool) → List A → List A
  delete_where p [] = []
  delete_where p (x ∷ xs) = let rest = delete_where p xs in if p x then rest else x ∷ rest

  -- `select(func.count(...)).where(p)`
  unfoldable pub count_where : (A → Bool) → List A → ℕ
  count_where p [] = 0
  count_where p (x ∷ xs) = (if p x then 1 else 0) + count_where p xs

  pub find_sound : (p : A → Bool) (xs : List A) {a : A} → find p xs ≡ some a → p a ≡ true
  unfolding find
  find_sound p [] h = cc
  find_sound p (x ∷ xs) h = elim (Bool-cases (p x)) [
    | inl t ↦ ground arith
    | inr f ↦ find_sound p xs (ground arith)
  ]

  -- Updating the rows that a query selects, and then running the query again.
  pub find-update_where :
      (p : A → Bool) (f : A → A)
      → ((a : A) → p a ≡ true → p (f a) ≡ true)
      → (xs : List A) → find p (update_where p f xs) ≡ Option.map f (find p xs)
  unfolding find update_where
  find-update_where p f keep [] = refl
  find-update_where p f keep (x ∷ xs) = ground (arith, keep x, find-update_where p f keep xs)

  pub find-append_none :
      (p : A → Bool) (xs ys : List A) → find p xs ≡ none → find p (xs ++ ys) ≡ find p ys
  unfolding find
  find-append_none p [] ys h = refl
  find-append_none p (x ∷ xs) ys h = ground (arith, find-append_none p xs ys)

  pub count-select : (p : A → Bool) (xs : List A) → length (select p xs) ≡ count_where p xs
  unfolding select count_where
  count-select p [] = refl
  count-select p (x ∷ xs) = ground (arith, count-select p xs)

  pub find-select :
      (q p : A → Bool) (xs : List A) {a : A}
      → find q xs ≡ some a
      → p a ≡ true
      → find q (select p xs) ≡ some a
  unfolding find select
  find-select q p [] h t = cc
  find-select q p (x ∷ xs) {a} h t = elim (Bool-cases (q x)) [
    | inl same ↦ ground arith
    | inr other ↦ ground (arith, find-select q p xs {a = a} (ground arith) t)
  ]

  pub select-update_where :
      (q m : A → Bool) (f : A → A)
      → ((a : A) → q a ≡ true → m a ≡ false)
      → ((a : A) → q (f a) ≡ q a)
      → (xs : List A) → select q (update_where m f xs) ≡ select q xs
  unfolding select update_where
  select-update_where q m f away keep [] = refl
  select-update_where q m f away keep (x ∷ xs) =
      ground (arith, away x, keep x, select-update_where q m f away keep xs)

  pub any-update_where-false :
      (p m : A → Bool) (f : A → A)
      → ((a : A) → (if m a then p (f a) else p a) ≡ false)
      → (xs : List A) → any p (update_where m f xs) ≡ false
  unfolding any update_where
  any-update_where-false p m f none_left [] = refl
  any-update_where-false p m f none_left (x ∷ xs) =
      ground (arith, none_left x, any-update_where-false p m f none_left xs)

  any_self_from :
      (xs ys : List A)
      → ((f : A → Bool) → any f ys ≡ true → any f xs ≡ true)
      → All (λ a. (f : A → Bool) → f a ≡ true → any f xs ≡ true) ys
  unfolding any
  any_self_from xs [] up = tt
  any_self_from xs (y ∷ ys) up =
      (λ f h. up f (ground arith), any_self_from xs ys (λ f h. up f (ground arith)))

  -- Whatever test a row of a table passes, some row passes it.
  pub any_self : (xs : List A) → All (λ a. (f : A → Bool) → f a ≡ true → any f xs ≡ true) xs
  any_self xs = any_self_from xs xs (λ f h. h)

module _ {ℓ κ μ} {A : Type ℓ} where
  pub All-imp :
      (P : A → Type κ) (Q : A → Type μ)
      → ((a : A) → P a → Q a)
      → (xs : List A) → All P xs
      → All Q xs
  All-imp P Q h [] p = tt
  All-imp P Q h (x ∷ xs) p = (h x p.0, All-imp P Q h xs p.1)

module _ {ℓ} {A : Type ℓ} where
  pub count-update_where :
      (p m : A → Bool) (f : A → A)
      → ((a : A) → p (f a) ≡ p a)
      → (xs : List A) → count_where p (update_where m f xs) ≡ count_where p xs
  unfolding count_where update_where
  count-update_where p m f same [] = refl
  count-update_where p m f same (x ∷ xs) = ground (arith, same x, count-update_where p m f same xs)

  pub count-update_where_le :
      (p m : A → Bool) (f : A → A)
      → ((a : A) → p (f a) ≡ false)
      → (xs : List A) → count_where p (update_where m f xs) ≤ count_where p xs
  unfolding count_where update_where
  count-update_where_le p m f gone [] = omega arith
  count-update_where_le p m f gone (x ∷ xs) =
      ground (arith, gone x, count-update_where_le p m f gone xs)

  pub count-append_one :
      (p : A → Bool) (xs : List A) (x : A)
      → count_where p (xs ++ x ∷ []) ≡ count_where p xs + (if p x then 1 else 0)
  unfolding count_where
  count-append_one p [] x = ground arith
  count-append_one p (y ∷ ys) x = ground (arith, count-append_one p ys x)

  pub count_where-find-none : (p : A → Bool) (xs : List A) → find p xs ≡ none → count_where p xs ≡ 0
  unfolding count_where find
  count_where-find-none p [] h = refl
  count_where-find-none p (x ∷ xs) h = ground (arith, count_where-find-none p xs)

  -- What is selected survives a deletion of other rows.
  pub select-delete_where :
      (q m : A → Bool) (xs : List A)
      → All (λ a. q a ≡ true → m a ≡ false) xs
      → select q (delete_where m xs) ≡ select q xs
  unfolding select delete_where
  select-delete_where q m [] h = refl
  select-delete_where q m (x ∷ xs) h = ground (arith, h.0, select-delete_where q m xs h.1)

  all_self_from :
      (xs ys : List A)
      → ((f : A → Bool) → all f xs ≡ true → all f ys ≡ true)
      → All (λ a. (f : A → Bool) → all f xs ≡ true → f a ≡ true) ys
  unfolding all
  all_self_from xs [] down = tt
  all_self_from xs (y ∷ ys) down = (
    λ f h. let whole = down f h in ground arith,
    all_self_from xs ys (λ f h. let whole = down f h in ground arith),
  )

  -- A test that all rows of a table pass is passed by each.
  pub all_self : (xs : List A) → All (λ a. (f : A → Bool) → all f xs ≡ true → f a ≡ true) xs
  all_self xs = all_self_from xs xs (λ f h. h)

  pub find-append_some :
      (p : A → Bool) (xs ys : List A) {a : A} → find p xs ≡ some a → find p (xs ++ ys) ≡ some a
  unfolding find
  find-append_some p [] ys h = cc
  find-append_some p (x ∷ xs) ys {a} h = ground (arith, find-append_some p xs ys {a = a})

  -- the first row that passes a test, after an update that keeps the test
  pub find-update_where_any :
      (q p : A → Bool) (f : A → A)
      → ((a : A) → q (f a) ≡ q a)
      → (xs : List A)
      → find q (update_where p f xs) ≡ Option.map (λ a. if p a then f a else a) (find q xs)
  unfolding find update_where
  find-update_where_any q p f keep [] = refl
  find-update_where_any q p f keep (x ∷ xs) =
      ground (arith, keep x, find-update_where_any q p f keep xs)

module _ {ℓ κ} {A : Type ℓ} where
  pub All-append_one :
      (P : A → Type κ) (xs : List A) (x : A) → All P xs → P x → All P (xs ++ x ∷ [])
  All-append_one P [] x h p = (p, tt)
  All-append_one P (y ∷ ys) x h p = (h.0, All-append_one P ys x h.1 p)

  pub update_where-All :
      (P : A → Type κ) (m : A → Bool) (f : A → A)
      → ((a : A) → P a → P (f a))
      → (xs : List A) → All P xs
      → All P (update_where m f xs)
  unfolding update_where
  update_where-All P m f keep [] h = tt
  update_where-All P m f keep (x ∷ xs) h = elim (Bool-cases (m x)) [
    | inl hit ↦ rw hit (keep x h.0, update_where-All P m f keep xs h.1)
    | inr miss ↦ rw miss (h.0, update_where-All P m f keep xs h.1)
  ]

  -- what holds of every row holds of the one that a query finds
  pub find-All :
      (P : A → Type κ) (m : A → Bool) (xs : List A) {a : A} → All P xs → find m xs ≡ some a → P a
  unfolding find
  find-All P m [] {a} h e = absurd (ground arith)
  find-All P m (x ∷ xs) {a} h e = elim (Bool-cases (m x)) [
    | inl hit ↦ subst P (ground arith) h.0
    | inr miss ↦ find-All P m xs {a = a} h.1 (ground arith)
  ]

module _ {ℓ} {A : Type ℓ} where
  -- what a query selects passes its test
  pub select-All : (p : A → Bool) (xs : List A) → All (λ a. p a ≡ true) (select p xs)
  unfolding select
  select-All p [] = tt
  select-All p (x ∷ xs) = elim (Bool-cases (p x)) [
    | inl hit ↦ rw hit (hit, select-All p xs)
    | inr miss ↦ rw miss (select-All p xs)
  ]
