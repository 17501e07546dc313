-- ===== src/Base/Stripped.antt =====
-- What `strip` leaves at the ends of a text, and what a cut leaves of it.
use Prim.Native.Nat.{ℕ, zero, suc}
use mathlib.Core.Path.{◌≡◌, refl, ap}
use mathlib.Core.Logic.{◌⊎◌, inl, inr}
use mathlib.Core.Bool.{Bool, false}
use mathlib.Core.List.{[], ◌∷◌, ◌++◌, reverse, reverse-cons, reverse-append, reverse-reverse}
use native.Mathlib.Omega.{arith}
use edtech_back.Base.Tests.{Bool-cases}
use edtech_back.Base.Texts.{Text, is_space, lstrip, strip}
use edtech_back.Base.Lists.{length, take}

abbrev pub starts_with_space : Text → Bool
starts_with_space [] = false
starts_with_space (c ∷ s) = is_space c

abbrev pub ends_with_space : Text → Bool
ends_with_space s = starts_with_space (reverse s)

lstrip-starts : (s : Text) → starts_with_space (lstrip s) ≡ false
unfolding lstrip
lstrip-starts [] = refl
lstrip-starts (c ∷ s) = ground (arith, lstrip-starts s)

lstrip-last :
    (s : Text) (c : ℕ) → is_space c ≡ false → (t : Text) × (lstrip (s ++ c ∷ []) ≡ t ++ c ∷ [])
unfolding lstrip
lstrip-last [] c h = ([], rw h refl)
lstrip-last (d ∷ s) c h = elim (Bool-cases (is_space d)) [
  | inl space ↦ let (t, e) = lstrip-last s c h in (t, rw space e)
  | inr other ↦ (d ∷ s, rw other refl)
]

-- what is stripped on the right still starts as it did
starts-rstrip :
    (s : Text)
    → starts_with_space s ≡ false
    → starts_with_space (reverse (lstrip (reverse s))) ≡ false
starts-rstrip [] h = unfold lstrip in refl
starts-rstrip (c ∷ s) h =
    let (t, e) = lstrip-last (reverse s) c h in
    rw (reverse-cons c s, e, reverse-append t (c ∷ [])) h

pub strip-starts : (s : Text) → starts_with_space (strip s) ≡ false
unfolding strip
strip-starts s = starts-rstrip (lstrip s) (lstrip-starts s)

pub strip-ends : (s : Text) → ends_with_space (strip s) ≡ false
unfolding strip
strip-ends s =
    rw (reverse-reverse (lstrip (reverse (lstrip s)))) (lstrip-starts (reverse (lstrip s)))

pub take-starts :
    (n : ℕ) (s : Text) → starts_with_space s ≡ false → starts_with_space (take n s) ≡ false
take-starts zero s h = refl
take-starts (suc n) [] h = refl
take-starts (suc n) (c ∷ s) h = h

-- a text that is cut off has the length of the bound
pub take-cut : (n : ℕ) (s : Text) → (length (take n s) ≡ n) ⊎ (take n s ≡ s)
take-cut zero s = inl refl
take-cut (suc n) [] = inr refl
take-cut (suc n) (c ∷ s) = elim (take-cut n s) [
  | inl e ↦ inl (ground arith)
  | inr e ↦ inr (ap (λ t. c ∷ t) e)
]
