-- ===== src/Base/Count.antt =====
-- How many numbers below a bound pass a test.
use Prim.Native.Nat.{ℕ, zero, suc, ◌+◌, ◌≤◌, ◌<◌}
use mathlib.Core.Path.{◌≡◌, sym, ap, ◌∙◌}
use mathlib.Core.Logic.{inl, inr}
use mathlib.Core.Bool.{Bool, true, false}
use native.Mathlib.Omega.{arith}
use kernel_patches.Base.Tests.{if◌then◌else◌, eq-cases}

abbrev pub count : (ℕ → Bool) → (n : ℕ) → ℕ
count p zero = 0
count p (suc n) = if p n then count p n + 1 else count p n

pub count_le : (p : ℕ → Bool) (n : ℕ) → count p n ≤ n
count_le p zero = omega arith
count_le p (suc n) = ground (arith, count_le p n)

module _ (p q : ℕ → Bool) (sub : (j : ℕ) → p j ≡ true → q j ≡ true) where
  pub count_mono : (n : ℕ) → count p n ≤ count q n
  count_mono zero = omega arith
  count_mono (suc n) = ground (arith, count_mono n, sub n)

  -- One that passes only the second test makes a difference.
  pub count_lt : (n k : ℕ) → k < n → p k ≡ false → q k ≡ true → count p n < count q n
  count_lt zero k l e f = absurd (omega arith)
  count_lt (suc n) k l e f = elim (eq-cases k n) [
    | inl same ↦
        let e' : p n ≡ false = ap p (sym same) ∙ e in
        let f' : q n ≡ true = ap q (sym same) ∙ f in ground (arith, count_mono n)
    | inr ne ↦ ground (arith, count_lt n k (omega arith) e f, sub n)
  ]
