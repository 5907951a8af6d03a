-- ===== src/Base/Wrap.antt =====
-- A counter that wraps around.
use Prim.Native.Nat.{ℕ, zero, suc, ◌+◌, ◌-◌, ◌%◌, ◌<◌}
use mathlib.Core.Path.{◌≡◌, refl, ap, ◌∙◌}
use native.Mathlib.Omega.{arith}
use native.Mathlib.Decide.{dec_lt}
use native.Mathlib.Nat.{mod_self, mod-eq_of_lt, mod-lt}
use kernel_patches.Base.Tests.{ltb, ◌==◌, if◌then◌else◌}

-- What `last` is after `k + 1` increments.
abbrev pub next : (m k last : ℕ) → ℕ
next m zero last = (last + 1) % m
next m (suc k) last = next m k ((last + 1) % m)

succ_mod : (m a : ℕ) → a < m → (a + 1) % m ≡ (if a + 1 == m then 0 else a + 1)
succ_mod m a h = elim (dec_lt (a + 1) m) [
  | yes l ↦ ground (arith, mod-eq_of_lt l)
  | no g ↦ let e : a + 1 ≡ m = omega arith in ground (arith, e, mod_self m)
]

next_succ : (m k last : ℕ) → next m (suc k) last ≡ (next m k last + 1) % m
next_succ m zero last = refl
next_succ m (suc k) last = next_succ m k ((last + 1) % m)

next_lem :
    (m k last : ℕ)
    → k < m
    → let a = (last + 1) % m in next m k last ≡ (if ltb (a + k) m then a + k else a + k - m)
next_lem m zero last h = ground (arith, mod-lt (last + 1) h)
next_lem m (suc k) last h =
    let a = (last + 1) % m in
    let small : a < m = mod-lt (last + 1) (omega arith) in
    next_succ m k last
    ∙ ap (λ x. (x + 1) % m) (next_lem m k last (omega arith))
    ∙ succ_mod m (if ltb (a + k) m then a + k else a + k - m) (ground arith)
    ∙ ground arith

pub next_injective : (m last i j : ℕ) → i < m → j < m → next m i last ≡ next m j last → i ≡ j
next_injective m last i j a b e =
    let small : (last + 1) % m < m = mod-lt (last + 1) (omega arith) in
    ground (arith, next_lem m i last a, next_lem m j last b)
