-- ===== src/Base/Pigeonhole.antt =====
-- No injection sends the numbers up to `n` below `n`.
use Prim.Native.Nat.{ℕ, zero, suc, ◌≤◌, ◌<◌}
use mathlib.Core.Path.{◌≡◌}
use native.Mathlib.Omega.{arith}
use native.Mathlib.Decide.{dec_lt}
use kernel_patches.Base.Tests.{◌==◌, if◌then◌else◌}

abbrev pub IsInjective : ℕ → (ℕ → ℕ) → Type 0
IsInjective n g = (i j : ℕ) → i ≤ n → j ≤ n → g i ≡ g j → i ≡ j

-- The value `n` gives way to that of the last argument.
abbrev replaced : ℕ → (ℕ → ℕ) → ℕ → ℕ
replaced n g k = if g k == n then g (suc n) else g k

replaced-IsInjective : (n : ℕ) (g : ℕ → ℕ) → IsInjective (suc n) g → IsInjective n (replaced n g)
replaced-IsInjective n g inj i j a b e = ground (arith, inj i j, inj i (suc n), inj j (suc n))

replaced_lt :
    (n : ℕ) (g : ℕ → ℕ)
    → IsInjective (suc n) g
    → ((k : ℕ) → k ≤ suc n → g k < suc n)
    → (k : ℕ) → k ≤ n
    → replaced n g k < n
replaced_lt n g inj low k a = ground (arith, inj k (suc n), low k, low (suc n))

pub pigeonhole : (n : ℕ) (g : ℕ → ℕ) → IsInjective n g → ((k : ℕ) → k ≤ n → g k < n) → ⊥
pigeonhole zero g inj low =
    absurd (elim (dec_lt (g 0) 0) [ yes l ↦ omega arith | no l ↦ l (low 0 (omega arith)) ])
pigeonhole (suc n) g inj low =
    pigeonhole n (replaced n g) (replaced-IsInjective n g inj) (replaced_lt n g inj low)
