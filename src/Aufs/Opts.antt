-- ===== src/Aufs/Opts.antt =====
-- aufs/fs/aufs/opts.c: what mount options do once they are parsed. In the configuration of the model
-- inotify, delegation and shown whiteouts are compiled in; AuOpt_XINODIR is 0.
pub mod Simple
pub mod Apply
pub mod Branches
pub mod Flags
use kernel_patches.Base.{
  ℕ, ◌*◌, ◌+◌, Bool, true, false, ◌&&◌, ◌||◌, Option, none, some, List, [], ◌∷◌, ◌==◌, leb,
  if◌then◌else◌, update,
}
use kernel_patches.Aufs.{BrPerm, HDentry, SuperBlock}
use kernel_patches.Aufs.Branches.{SbInfo, Error, einval}
use kernel_patches.Aufs.Branches.Add.{AddBranch, au_br_add}
use kernel_patches.Aufs.Branches.Delete.{au_br_del}
use kernel_patches.Aufs.Branches.Change.{au_br_whable, au_br_mod}
use kernel_patches.Aufs.WbrPolicy.{
  CreatePolicy, CopyupPolicy, tdp, round_robin_policy, mfsrr, mfsrrv, wbr_create_init,
}

-- `struct au_opt_del` and `struct au_opt_mod`, with the other arguments of au_br_del and au_br_mod;
-- `do_refresh` is what the variable of that name holds before it is set.
pub record DelBranch : Type 0 where
  pub h_root : HDentry
  pub busy : Option Error
  pub rewh : Bool

pub record ModBranch : Type 0 where
  pub h_root : HDentry
  pub perm : BrPerm
  pub is_rdonly : Bool
  pub alloc : Bool
  pub init_wh : Option Error
  pub files_ro : Option Error
  pub do_refresh : Bool

-- `struct au_opt_wbr_create`, with what the old policy's `fin` returns.
pub record CreateOpt : Type 0 where
  pub wbr_create : CreatePolicy
  pub mfs_second : ℕ
  pub mfsrr_watermark : ℕ
  pub fin : Option Error

-- The bits of si_mntflags, by number.
abbrev pub bit_xino : ℕ
bit_xino = 0

abbrev pub bit_trunc_xino : ℕ
bit_trunc_xino = 2

abbrev pub bit_udba_none : ℕ
bit_udba_none = 3

abbrev pub bit_udba_reval : ℕ
bit_udba_reval = 4

abbrev pub bit_udba_inotify : ℕ
bit_udba_inotify = 5

abbrev pub bit_shwh : ℕ
bit_shwh = 6

abbrev pub bit_plink : ℕ
bit_plink = 7

abbrev pub bit_warn_perm : ℕ
bit_warn_perm = 8

abbrev pub bit_dirperm1 : ℕ
bit_dirperm1 = 9

abbrev pub bit_dlgt : ℕ
bit_dlgt = 10

abbrev pub bit_coo_none : ℕ
bit_coo_none = 11

abbrev pub bit_coo_leaf : ℕ
bit_coo_leaf = 12

abbrev pub bit_coo_all : ℕ
bit_coo_all = 13

abbrev pub bit_always_diropq : ℕ
bit_always_diropq = 14

abbrev pub bit_refrof : ℕ
bit_refrof = 15

abbrev pub bit_verbose : ℕ
bit_verbose = 16

abbrev pub bit_sum : ℕ
bit_sum = 17

abbrev pub bit_sum_w : ℕ
bit_sum_w = 18

pub data Udba : Type 0 where
  udba_none udba_reval udba_inotify : Udba

pub data Coo : Type 0 where
  coo_none coo_leaf coo_all : Coo

abbrev pub udba_bit : Udba → ℕ
udba_bit udba_none = bit_udba_none
udba_bit udba_reval = bit_udba_reval
udba_bit udba_inotify = bit_udba_inotify

abbrev pub coo_bit : Coo → ℕ
coo_bit coo_none = bit_coo_none
coo_bit coo_leaf = bit_coo_leaf
coo_bit coo_all = bit_coo_all

-- AuOptMask_UDBA and AuOptMask_COO.
abbrev pub in_mask_udba : ℕ → Bool
in_mask_udba b = b == bit_udba_none || b == bit_udba_reval || b == bit_udba_inotify

abbrev pub in_mask_coo : ℕ → Bool
in_mask_coo b = b == bit_coo_none || b == bit_coo_leaf || b == bit_coo_all

-- `struct au_opt`; the truncation of a xino file and au_xino_set come with their result.
pub data Opt : Type 0 where
  opt_udba : Udba → Opt
  opt_plink opt_noplink opt_list_plink opt_clean_plink : Opt
  opt_diropq_a opt_diropq_w opt_dlgt opt_nodlgt opt_warn_perm opt_nowarn_perm : Opt
  opt_refrof opt_norefrof opt_verbose opt_noverbose opt_sum opt_wsum opt_nosum : Opt
  opt_wbr_create : CreateOpt → Opt
  opt_wbr_copyup : CopyupPolicy → Opt
  opt_coo : Coo → Opt
  opt_dirwh opt_rdcache : ℕ → Opt
  opt_trunc_xino opt_notrunc_xino opt_dirperm1 opt_nodirperm1 opt_shwh opt_noshwh : Opt
  opt_trunc_xino_path opt_itrunc_xino : Option Error → Opt
  opt_trunc_xib opt_notrunc_xib : Opt
  opt_append opt_prepend opt_add : AddBranch → Opt
  opt_del opt_idel : DelBranch → Opt
  opt_mod opt_imod : ModBranch → Opt
  opt_xino : Option Error → Opt
  opt_noxino : Opt

-- The mount: what the options change, in the super block, whose parts are the branches `sb` and the
-- policies' `wbr`, and in `struct au_opts`.
pub record Mount : Type 0 where
  pub sb : SbInfo
  pub si_mntflags : ℕ → Bool
  pub si_wbr_create : CreatePolicy
  pub si_wbr_copyup : CopyupPolicy
  pub wbr : SuperBlock
  pub si_dirwh : ℕ
  pub si_rdcache : ℕ
  pub given_udba : ℕ → Bool
  pub remount : Bool
  pub refresh_dir : Bool
  pub refresh_nondir : Bool
  pub trunc_xib : Bool

-- The sign of a handler's result.
pub data Handled : Type 0 where
  processed unprocessed : Handled
  failed : Error → Handled

abbrev pub set_bit : Mount → (b : ℕ) → Bool → Mount
set_bit m b v = record m { si_mntflags = update m.si_mntflags b v }

-- `flags &= ~mask; flags |= b`.
unfoldable pub choose : (flags mask : ℕ → Bool) → (b : ℕ) → ℕ → Bool
choose flags mask b j = if mask j then j == b else flags j
