-- ===== src/Aufs/Branches/Valid.antt =====
-- What holds of a super block's branches (aufs/fs/aufs/branch.c) between two operations.
use kernel_patches.Base.{
  ℕ, ◌-◌, ◌≤◌, ◌<◌, ◌≡◌, Bool, true, false, not, ◌&&◌, Option, none, some, ◌==◌, if◌then◌else◌,
}
use kernel_patches.Aufs.{HDentry}
use kernel_patches.Aufs.Dinfo.{same_dentry}
use kernel_patches.Aufs.Iinfo.{HInode}
use kernel_patches.Aufs.Branches.{BrInfo, SbInfo, largest}

-- A branch with its root's hidden dentry and hidden inode, which has the branch's id.
abbrev pub matches : Option BrInfo → Option HDentry → Option HInode → Bool
matches (some br) (some d) (some h) = not (br.br_id == 0) && (br.br_id == h.hi_id)
matches _ _ _ = false

abbrev pub is_gone : Option BrInfo → Option HDentry → Option HInode → Bool
is_gone none none none = true
is_gone _ _ _ = false

abbrev pub id_of : Option BrInfo → ℕ
id_of none = 0
id_of (some br) = br.br_id

-- The ends of a range over all of `n` branches.
abbrev pub first_end : (n : ℕ) → Option ℕ
first_end n = if n == 0 then none else some 0

abbrev pub last_end : (n : ℕ) → Option ℕ
last_end n = if n == 0 then none else some (n - 1)

-- All places up to the last branch hold a branch, the root's hidden dentry and hidden inode, all places
-- after it hold nothing; ids and dentries occur once.
pub record IsBranches (branch_max : ℕ) (sb : SbInfo) : Type 0 where
  pub here :
      (i : ℕ)
      → i < sb.nbranch
      → matches (sb.si_branch i) (sb.root.hdentry i) (sb.root_inode.hinode i) ≡ true
  pub gone :
      (i : ℕ)
      → sb.nbranch ≤ i
      → is_gone (sb.si_branch i) (sb.root.hdentry i) (sb.root_inode.hinode i) ≡ true
  pub distinct :
      (i j : ℕ)
      → i < sb.nbranch
      → j < sb.nbranch
      → id_of (sb.si_branch i) ≡ id_of (sb.si_branch j)
      → i ≡ j
  pub own :
      (i j : ℕ)
      → i < sb.nbranch
      → j < sb.nbranch
      → same_dentry (sb.root.hdentry i) (sb.root.hdentry j) ≡ true
      → i ≡ j
  pub root_bstart : sb.root.bstart ≡ first_end sb.nbranch
  pub root_bend : sb.root.bend ≡ last_end sb.nbranch
  pub inode_bstart : sb.root_inode.bstart ≡ first_end sb.nbranch
  pub inode_bend : sb.root_inode.bend ≡ last_end sb.nbranch
  pub few : sb.nbranch ≤ branch_max
  pub size : sb.maxbytes ≡ largest sb.si_branch sb.nbranch
