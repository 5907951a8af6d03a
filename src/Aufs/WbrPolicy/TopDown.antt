-- ===== src/Aufs/WbrPolicy/TopDown.antt =====
-- The policies top-down-parent and bottom-up-parent: their choice, and when there is none.
use kernel_patches.Base.{
  ℕ, ◌+◌, ◌-◌, ◌≤◌, ◌≡◌, inl, inr, refl, sym, true, false, Option, none, some, subst, ◌↔◌, first_up,
  first_down, first_up_lem, first_down_lem, IsLowest, IsHighest, Bool-cases, arith,
}
use native.Mathlib.Decide.{dec_lt}
use kernel_patches.Aufs.{SuperBlock, DInfo}
use kernel_patches.Aufs.WbrPolicy.{
  Kernel, writable, au_wbr_bu, usable_parent, tdp_parent, bup_parent, au_wbr_create_tdp,
  au_wbr_copyup_bup,
}
use kernel_patches.Aufs.WbrPolicy.Select.{au_wbr_bu_lem, usable-writable}

-- The choice among the branches up to `hi`: the entry's own branch `s` if it may be written, else
-- the topmost of `lo` to `s` where the parent is usable, else the nearest writable one above `s`.
pub data TdpChoice (k : Kernel) (sb : SuperBlock) (parent : DInfo) (lo s : ℕ)
    : Option ℕ → Type 0 where
  own : writable sb s ≡ true → TdpChoice k sb parent lo s (some s)
  top :
      (i : ℕ)
      → writable sb s ≡ false
      → IsLowest (usable_parent k sb parent) lo s (some i)
      → TdpChoice k sb parent lo s (some i)
  bottom_up :
      (r : Option ℕ)
      → writable sb s ≡ false
      → IsLowest (usable_parent k sb parent) lo s none
      → IsHighest (writable sb) 0 s r
      → TdpChoice k sb parent lo s r

-- From the entry's branch `s` up to the parent's first, `lo`, then above that.
pub data BupChoice (k : Kernel) (sb : SuperBlock) (parent : DInfo) (lo s : ℕ)
    : Option ℕ → Type 0 where
  nearest :
      (i : ℕ)
      → IsHighest (usable_parent k sb parent) lo (s + 1) (some i)
      → BupChoice k sb parent lo s (some i)
  above :
      (r : Option ℕ)
      → IsHighest (usable_parent k sb parent) lo (s + 1) none
      → IsHighest (writable sb) 0 lo r
      → BupChoice k sb parent lo s r

module _ (k : Kernel) (sb : SuperBlock) (dentry parent : DInfo) (lo s : ℕ)
    (at_parent : parent.bstart ≡ some lo) (at_entry : dentry.bstart ≡ some s) (le : lo ≤ s) where
  tdp_parent-eq : tdp_parent k sb parent s ≡ first_up (usable_parent k sb parent) (s - lo) lo
  unfolding tdp_parent
  tdp_parent-eq = ground arith

  tdp_parent_lem : IsLowest (usable_parent k sb parent) lo s (tdp_parent k sb parent s)
  tdp_parent_lem =
      subst (IsLowest (usable_parent k sb parent) lo s) (sym tdp_parent-eq)
        (first_up_lem (usable_parent k sb parent) (s - lo) lo s (omega arith))

  choice :
      (r : Option ℕ)
      → writable sb s ≡ false
      → tdp_parent k sb parent s ≡ r
      → IsLowest (usable_parent k sb parent) lo s r
      → TdpChoice k sb parent lo s (au_wbr_create_tdp k sb dentry parent)
  unfolding au_wbr_create_tdp
  choice none f eq low =
      subst (TdpChoice k sb parent lo s) (ground arith)
        (bottom_up (au_wbr_bu sb s) f low (au_wbr_bu_lem sb s))
  choice (some i) f eq low = subst (TdpChoice k sb parent lo s) (ground arith) (top i f low)

  -- For an entry on branch `s` and a parent from branch `lo` on, not below `s`, top-down-parent
  -- chooses `s` if it may be written; else the topmost branch from `lo` to above `s` on which the
  -- parent exists and may be written; else the nearest writable branch above `s`, if there is one.
  pub au_wbr_create_tdp_lem : TdpChoice k sb parent lo s (au_wbr_create_tdp k sb dentry parent)
  unfolding au_wbr_create_tdp
  au_wbr_create_tdp_lem = elim (Bool-cases (writable sb s)) [
    | inl w ↦ subst (TdpChoice k sb parent lo s) (ground arith) (own w)
    | inr f ↦ choice (tdp_parent k sb parent s) f refl tdp_parent_lem
  ]

  bup_parent-eq :
      bup_parent k sb parent s lo ≡ first_down (usable_parent k sb parent) (s + 1 - lo) lo
  unfolding bup_parent
  bup_parent-eq = refl

  bup_choice :
      (r : Option ℕ)
      → bup_parent k sb parent s lo ≡ r
      → IsHighest (usable_parent k sb parent) lo (s + 1) r
      → BupChoice k sb parent lo s (au_wbr_copyup_bup k sb dentry parent)
  unfolding au_wbr_copyup_bup
  bup_choice none eq high =
      subst (BupChoice k sb parent lo s) (ground arith)
        (above (au_wbr_bu sb lo) high (au_wbr_bu_lem sb lo))
  bup_choice (some i) eq high = subst (BupChoice k sb parent lo s) (ground arith) (nearest i high)

  -- For an entry on branch `s` and a parent from branch `lo` on, not below `s`, bottom-up-parent
  -- chooses the nearest branch from `s` up to `lo` on which the parent exists and may be written;
  -- failing that the nearest writable branch above `lo`, if there is one.
  pub au_wbr_copyup_bup_lem : BupChoice k sb parent lo s (au_wbr_copyup_bup k sb dentry parent)
  au_wbr_copyup_bup_lem = bup_choice (bup_parent k sb parent s lo) refl (
      subst (IsHighest (usable_parent k sb parent) lo (s + 1)) (sym bup_parent-eq)
        (first_down_lem (usable_parent k sb parent) (s + 1 - lo) lo (s + 1) (omega arith)))

-- For an entry on branch `s` and a parent from a branch not below `s`, top-down-parent fails
-- exactly if every branch from the first to `s` is read-only.
pub au_wbr_create_tdp_fails :
    (k : Kernel) (sb : SuperBlock) (dentry parent : DInfo) (lo s : ℕ)
    → parent.bstart ≡ some lo
    → dentry.bstart ≡ some s
    → lo ≤ s
    → (au_wbr_create_tdp k sb dentry parent ≡ none) ↔ ((j : ℕ) → j ≤ s → writable sb j ≡ false)
au_wbr_create_tdp_fails k sb dentry parent lo s hp he le =
    go (au_wbr_create_tdp k sb dentry parent)
      (au_wbr_create_tdp_lem k sb dentry parent lo s hp he le)
  where
    go :
        (r : Option ℕ)
        → TdpChoice k sb parent lo s r
        → (r ≡ none) ↔ ((j : ℕ) → j ≤ s → writable sb j ≡ false)
    go r (own w) = ((λ e. cc), λ all. absurd (cc (w, all s (omega arith))))
    go r (top i f (a, b, c, d)) =
        ((λ e. cc), λ all. cc (usable-writable k sb parent i c, all i (omega arith)))
    go r (bottom_up none f low high) = (
      (λ _ j h. elim (dec_lt j s) [
        | yes l ↦ high j (omega arith) l
        | no g ↦ let e : j ≡ s = omega arith in rw e f
      ]),
      λ _. refl,
    )
    go r (bottom_up (some i) f low (a, b, c, d)) = ((λ e. cc), λ all. cc (c, all i (omega arith)))
