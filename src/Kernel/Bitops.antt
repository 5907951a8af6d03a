-- ===== src/Kernel/Bitops.antt =====
-- The kernel's single-word bit operations that xvmalloc calls (`test_bit`, `__set_bit`,
-- `__clear_bit`, `__ffs`), with the behaviour that the kernel documents for them on a 32-bit word.
use kernel_patches.Base.{
  ℕ, ◌^◌, ◌≤◌, ◌<◌, ◌≡◌, ◌≢◌, refl, Bool, true, false, ◌==◌, if◌then◌else◌, bit, or_bit,
  and_not_bit, lowest, bit-or_bit, bit-and_not_bit, or_bit-lt, and_not_bit-le, bit-lowest,
  lowest_least, arith,
}

pub record Bitops : Type 0 where
  pub test_bit : ℕ → ℕ → Bool
  pub set_bit : ℕ → ℕ → ℕ
  pub clear_bit : ℕ → ℕ → ℕ
  pub ffs : ℕ → ℕ
  pub test_bit_lem : (k w : ℕ) → test_bit k w ≡ bit k w
  pub bit-set_bit : (k j w : ℕ) → bit j (set_bit k w) ≡ (if k == j then true else bit j w)
  pub bit-clear_bit : (k j w : ℕ) → bit j (clear_bit k w) ≡ (if k == j then false else bit j w)
  pub set_bit-lt : (k w : ℕ) → w < 2 ^ 32 → k < 32 → set_bit k w < 2 ^ 32
  pub clear_bit-lt : (k w : ℕ) → w < 2 ^ 32 → clear_bit k w < 2 ^ 32
  pub bit-ffs : (w : ℕ) → w < 2 ^ 32 → w ≢ 0 → bit (ffs w) w ≡ true
  pub ffs_least : (w j : ℕ) → w < 2 ^ 32 → bit j w ≡ true → ffs w ≤ j

pub clear_bit_bound : (k w : ℕ) → w < 2 ^ 32 → and_not_bit k w < 2 ^ 32
clear_bit_bound k w h = omega (arith, and_not_bit-le k w)

-- A word-level implementation that meets the interface.
abbrev pub word_bitops : Bitops
word_bitops = record {
  test_bit = bit;
  set_bit = or_bit;
  clear_bit = and_not_bit;
  ffs = lowest 32;
  test_bit_lem = λ k w. refl;
  bit-set_bit = bit-or_bit;
  bit-clear_bit = bit-and_not_bit;
  set_bit-lt = or_bit-lt 32;
  clear_bit-lt = clear_bit_bound;
  bit-ffs = bit-lowest 32;
  ffs_least = lowest_least 32;
}
