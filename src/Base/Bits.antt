-- ===== src/Base/Bits.antt =====
-- C's bit operations on unsigned words, by recursion on the bit number: `(w >> k) & 1`,
-- `w | (1 << k)`, `w & ~(1 << k)` and `w >> k`; and their laws.
use Prim.Native.Nat.{ℕ, zero, suc, ◌+◌, ◌*◌, ◌/◌, ◌%◌, ◌^◌, ◌≤◌, ◌<◌}
use mathlib.Core.Path.{◌≡◌, refl}
use mathlib.Core.Logic.{◌≢◌, inl, inr}
use mathlib.Core.Bool.{Bool, true, false}
use native.Mathlib.Nat.{pow-suc}
use native.Mathlib.Omega.{arith}
use kernel_patches.Base.Tests.{◌==◌, if◌then◌else◌, Bool-cases}

-- Bit `k` of a word, `(w >> k) & 1`.
unfoldable pub bit : ℕ → ℕ → Bool
bit zero w = w % 2 == 1
bit (suc k) w = bit k (w / 2)

-- `w | (1 << k)`.
unfoldable pub or_bit : ℕ → ℕ → ℕ
or_bit zero w = w / 2 * 2 + 1
or_bit (suc k) w = or_bit k (w / 2) * 2 + w % 2

-- `w & ~(1 << k)`.
unfoldable pub and_not_bit : ℕ → ℕ → ℕ
and_not_bit zero w = w / 2 * 2
and_not_bit (suc k) w = and_not_bit k (w / 2) * 2 + w % 2

-- `w >> k`.
unfoldable pub shr : ℕ → ℕ → ℕ
shr w zero = w
shr w (suc k) = shr (w / 2) k

pub bit-zero : (k : ℕ) → bit k 0 ≡ false
unfolding bit
bit-zero zero = refl
bit-zero (suc k) = bit-zero k

pub bit-or_bit : (k j w : ℕ) → bit j (or_bit k w) ≡ (if k == j then true else bit j w)
unfolding bit or_bit
bit-or_bit zero zero w = ground arith
bit-or_bit zero (suc j) w = let e : (w / 2 * 2 + 1) / 2 ≡ w / 2 = omega arith in rw e (ground arith)
bit-or_bit (suc k) zero w = ground arith
bit-or_bit (suc k) (suc j) w =
    let e : (or_bit k (w / 2) * 2 + w % 2) / 2 ≡ or_bit k (w / 2) = omega arith in
    rw e (ground (arith, bit-or_bit k j (w / 2)))

pub bit-and_not_bit : (k j w : ℕ) → bit j (and_not_bit k w) ≡ (if k == j then false else bit j w)
unfolding bit and_not_bit
bit-and_not_bit zero zero w = ground arith
bit-and_not_bit zero (suc j) w = let e : w / 2 * 2 / 2 ≡ w / 2 = omega arith in rw e (ground arith)
bit-and_not_bit (suc k) zero w = ground arith
bit-and_not_bit (suc k) (suc j) w =
    let e : (and_not_bit k (w / 2) * 2 + w % 2) / 2 ≡ and_not_bit k (w / 2) = omega arith in
    rw e (ground (arith, bit-and_not_bit k j (w / 2)))

-- Bit `j` of `w >> a` is bit `j + a` of `w`.
pub bit-shr : (w a j : ℕ) → bit j (shr w a) ≡ bit (j + a) w
unfolding bit shr
bit-shr w zero j = let e : j + 0 ≡ j = omega arith in rw e
bit-shr w (suc a) j = let e : j + suc a ≡ suc (j + a) = omega arith in rw e (bit-shr (w / 2) a j)

-- A word below `2 ^ n` has no bit from `n` on.
pub bit-ge : (n k w : ℕ) → w < 2 ^ n → n ≤ k → bit k w ≡ false
unfolding bit
bit-ge zero k w h l = let e : w ≡ 0 = omega arith in rw e (bit-zero k)
bit-ge (suc n) zero w h l = absurd (omega arith)
bit-ge (suc n) (suc k) w h l = bit-ge n k (w / 2) (omega (arith, pow-suc 2 n)) (omega arith)

pub or_bit-lt : (n k w : ℕ) → w < 2 ^ n → k < n → or_bit k w < 2 ^ n
unfolding or_bit
or_bit-lt zero k w h l = absurd (omega arith)
or_bit-lt (suc n) zero w h l = omega (arith, pow-suc 2 n)
or_bit-lt (suc n) (suc k) w h l =
    let ih = or_bit-lt n k (w / 2) (omega (arith, pow-suc 2 n)) (omega arith) in
    omega (arith, pow-suc 2 n, ih)

pub and_not_bit-le : (k w : ℕ) → and_not_bit k w ≤ w
unfolding and_not_bit
and_not_bit-le zero w = omega arith
and_not_bit-le (suc k) w = omega (arith, and_not_bit-le k (w / 2))

pub shr-lt : (n a w : ℕ) → w < 2 ^ n → shr w a < 2 ^ n
unfolding shr
shr-lt n zero w h = h
shr-lt n (suc a) w h = shr-lt n a (w / 2) (omega arith)

-- A word that is not zero has a bit set: the lowest, by `lowest` on `n` bits.
unfoldable pub lowest : ℕ → ℕ → ℕ
lowest zero w = 0
lowest (suc n) w = let rest = lowest n (w / 2) in if w % 2 == 1 then 0 else suc rest

pub bit-lowest : (n w : ℕ) → w < 2 ^ n → w ≢ 0 → bit (lowest n w) w ≡ true
unfolding lowest bit
bit-lowest zero w h ne = absurd (omega arith)
bit-lowest (suc n) w h ne = elim (Bool-cases (w % 2 == 1)) [
  | inl odd ↦ rw odd odd
  | inr even ↦ rw even (bit-lowest n (w / 2) (omega (arith, pow-suc 2 n)) (ground arith))
]

pub lowest_least : (n w j : ℕ) → w < 2 ^ n → bit j w ≡ true → lowest n w ≤ j
unfolding lowest bit
lowest_least zero w j h b = omega arith
lowest_least (suc n) w zero h b = rw b (omega arith)
lowest_least (suc n) w (suc j) h b =
    ground (arith, lowest_least n (w / 2) j (omega (arith, pow-suc 2 n)) b)
