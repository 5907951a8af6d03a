-- ===== src/Aufs/WbrPolicy/Select.antt =====
-- What the loops of the branch policies select.
use kernel_patches.Base.{ℕ, ◌≡◌, true, first_down_lem, IsHighest, arith}
use kernel_patches.Aufs.{SuperBlock, DInfo}
use kernel_patches.Aufs.WbrPolicy.{Kernel, writable, au_wbr_bu, usable_parent}

-- au_wbr_bu started at index `n - 1` chooses the highest index below `n` whose branch may be
-- written, and none exactly if there is no such branch.
pub au_wbr_bu_lem : (sb : SuperBlock) (n : ℕ) → IsHighest (writable sb) 0 n (au_wbr_bu sb n)
unfolding au_wbr_bu
au_wbr_bu_lem sb n = first_down_lem (writable sb) n 0 n (omega arith)

module _ (k : Kernel) (sb : SuperBlock) (parent : DInfo) where
  pub usable-writable : (i : ℕ) → usable_parent k sb parent i ≡ true → writable sb i ≡ true
  unfolding usable_parent
  usable-writable i u = ground arith
