-- ===== src/Base/Scan.antt =====
-- Loops that look for the first index that passes a test, upwards and downwards.
use Prim.Native.Nat.{ℕ, zero, suc, ◌+◌, ◌≤◌, ◌<◌}
use mathlib.Core.Path.{◌≡◌, refl, ap, ◌∙◌}
use mathlib.Core.Logic.{inl, inr}
use mathlib.Core.Bool.{Bool, true, false}
use mathlib.Core.Option.{Option, none, some}
use native.Mathlib.Omega.{arith}
use native.Mathlib.Decide.{dec_lt}
use kernel_patches.Base.Tests.{if◌then◌else◌, Bool-cases}

module _ (p : ℕ → Bool) where
  -- `for (i = lo; i < lo + n; i++) if (p(i)) break;`
  unfoldable pub first_up : (n lo : ℕ) → Option ℕ
  first_up zero lo = none
  first_up (suc n) lo = let rest = first_up n (lo + 1) in if p lo then some lo else rest

  -- `for (i = lo + n - 1; i >= lo; i--) if (p(i)) break;`
  unfoldable pub first_down : (n lo : ℕ) → Option ℕ
  first_down zero lo = none
  first_down (suc n) lo = let rest = first_down n lo in if p (lo + n) then some (lo + n) else rest

  -- The lowest index of a range that passes, or none.
  abbrev pub IsLowest : (lo hi : ℕ) → Option ℕ → Type 0
  IsLowest lo hi none = (j : ℕ) → lo ≤ j → j < hi → p j ≡ false
  IsLowest lo hi (some k) =
      (lo ≤ k) × (k < hi) × (p k ≡ true) × ((j : ℕ) → lo ≤ j → j < k → p j ≡ false)

  -- The highest.
  abbrev pub IsHighest : (lo hi : ℕ) → Option ℕ → Type 0
  IsHighest lo hi none = (j : ℕ) → lo ≤ j → j < hi → p j ≡ false
  IsHighest lo hi (some k) =
      (lo ≤ k) × (k < hi) × (p k ≡ true) × ((j : ℕ) → k < j → j < hi → p j ≡ false)

  IsLowest-step :
      (lo hi : ℕ) (r : Option ℕ)
      → p lo ≡ false
      → lo < hi
      → IsLowest (lo + 1) hi r
      → IsLowest lo hi r
  IsLowest-step lo hi none e l h = λ j a b. elim (dec_lt lo j) [
    | yes g ↦ h j (omega arith) b
    | no g ↦ let e' : p j ≡ p lo = ap p (omega arith) in e' ∙ e
  ]
  IsLowest-step lo hi (some k) e l (a, b, c, d) = (
    omega arith,
    b,
    c,
    λ j u w. elim (dec_lt lo j) [
      | yes g ↦ d j (omega arith) w
      | no g ↦ let e' : p j ≡ p lo = ap p (omega arith) in e' ∙ e
    ],
  )

  IsHighest-step :
      (lo hi : ℕ) (r : Option ℕ) → p hi ≡ false → IsHighest lo hi r → IsHighest lo (suc hi) r
  IsHighest-step lo hi none e h = λ j a b. elim (dec_lt j hi) [
    | yes g ↦ h j a g
    | no g ↦ let e' : p j ≡ p hi = ap p (omega arith) in e' ∙ e
  ]
  IsHighest-step lo hi (some k) e (a, b, c, d) = (
    a,
    omega arith,
    c,
    λ j u w. elim (dec_lt j hi) [
      | yes g ↦ d j u g
      | no g ↦ let e' : p j ≡ p hi = ap p (omega arith) in e' ∙ e
    ],
  )

  pub first_up_lem : (n lo hi : ℕ) → lo + n ≡ hi → IsLowest lo hi (first_up n lo)
  unfolding first_up
  first_up_lem zero lo hi e = λ j a b. absurd (omega arith)
  first_up_lem (suc n) lo hi e = elim (Bool-cases (p lo)) [
    | inl t ↦ rw t (omega arith, omega arith, t, λ j a b. absurd (omega arith))
    | inr f ↦ rw f (
        IsLowest-step lo hi (first_up n (lo + 1)) f (omega arith)
          (first_up_lem n (lo + 1) hi (omega arith)))
  ]

  pub first_down_lem : (n lo hi : ℕ) → lo + n ≡ hi → IsHighest lo hi (first_down n lo)
  unfolding first_down
  first_down_lem zero lo hi e = λ j a b. absurd (omega arith)
  first_down_lem (suc n) lo hi e =
      let e' : hi ≡ suc (lo + n) = omega arith in
      elim (Bool-cases (p (lo + n))) [
        | inl t ↦ rw t (omega arith, omega arith, t, λ j a b. absurd (omega arith))
        | inr f ↦
            rw (f, e')
              (IsHighest-step lo (lo + n) (first_down n lo) f (first_down_lem n lo (lo + n) refl))
      ]

  pub first_up-true : (n lo i : ℕ) → first_up n lo ≡ some i → p i ≡ true
  first_up-true n lo i e =
      let l : IsLowest lo (lo + n) (some i) = rw e at (first_up_lem n lo (lo + n) refl) in l.2

  pub first_down-true : (n lo i : ℕ) → first_down n lo ≡ some i → p i ≡ true
  first_down-true n lo i e =
      let l : IsHighest lo (lo + n) (some i) = rw e at (first_down_lem n lo (lo + n) refl) in l.2
