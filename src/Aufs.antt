-- ===== src/Aufs.antt =====
-- The aufs union file system, aufs/fs/aufs: branches, the super block's part of the branch
-- policies, and what aufs keeps for a dentry. A branch index that the source keeps as -1 (or as
-- -EROFS, where it is a policy's result) is `none`. Locks are not modelled: a call runs to its end
-- with the locks that the source takes.
pub mod Tight
pub mod Dinfo
pub mod Iinfo
pub mod Xino
pub mod Vdir
pub mod Empty
pub mod Branches
pub mod Refresh
pub mod WbrPolicy
pub mod Opts
use kernel_patches.Base.{ℕ, Bool, true, false, not, ◌||◌, Option, none, some}

-- The branch permissions of branch.h.
pub data BrPerm : Type 0 where
  rw ro rr rw_no_link_wh rowh rrwh : BrPerm

unfoldable pub au_br_writable : BrPerm → Bool
au_br_writable rw = true
au_br_writable rw_no_link_wh = true
au_br_writable _ = false

-- The parts of `struct au_branch` that the policies read: MS_RDONLY of the branch's own super
-- block, its permission, and the free bytes last measured.
pub record Branch : Type 0 where
  pub ms_rdonly : Bool
  pub perm : BrPerm
  pub wbr_bytes : ℕ

unfoldable pub au_br_rdonly : Branch → Bool
unfolding au_br_writable
au_br_rdonly br = br.ms_rdonly || not (au_br_writable br.perm)

-- `struct au_wbr_mfs`.
pub record WbrMfs : Type 0 where
  pub jiffy : ℕ
  pub expire : ℕ
  pub bindex : Option ℕ
  pub rr_bytes : ℕ
  pub rr_watermark : ℕ

-- `rr_next` is the atomic counter si_wbr_rr_next, read as `unsigned int`.
pub record SuperBlock : Type 0 where
  pub bend : ℕ
  pub branch : ℕ → Branch
  pub dirperm1 : Bool
  pub rr_next : ℕ
  pub mfs : WbrMfs

-- A dentry on a branch: an identity, and its inode unless it is negative.
pub record HDentry : Type 0 where
  pub ident : ℕ
  pub inode : Option ℕ

-- `struct au_dinfo`.
pub record DInfo : Type 0 where
  pub bstart : Option ℕ
  pub bend : Option ℕ
  pub bwh : Option ℕ
  pub bdiropq : Option ℕ
  pub hdentry : ℕ → Option HDentry
