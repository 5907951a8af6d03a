-- ===== src/Aufs/WbrPolicy.antt =====
-- aufs/fs/aufs/wbr_policy.c: which writable branch a new entry is created on, or copied up to.
-- A policy's result is `some bindex`, or `none` for -EROFS. `dentry` is the entry, `parent` its
-- directory; the mount flag dirperm1 is in the super block. Code of the kernel comes as a record.
pub mod Select
pub mod TopDown
pub mod RoundRobin
pub mod FreeSpace
pub mod Create
use kernel_patches.Base.{
  ℕ, zero, suc, ◌+◌, ◌-◌, ◌*◌, ◌%◌, ◌^◌, min, Bool, true, false, not, ◌&&◌, ◌||◌, Option, none,
  some, ◌==◌, ltb, leb, if◌then◌else◌, first_up, first_down,
}
use kernel_patches.Aufs.{Branch, au_br_rdonly, SuperBlock, WbrMfs, HDentry, DInfo}
use kernel_patches.Aufs.Dinfo.{au_h_dptr, au_dbtaildir}

-- What statfs says of a branch: the root dentry on NFS may be missing, and the call may fail.
pub data Statfs : Type 0 where
  no_arg failed : Statfs
  avail : (bavail bsize : ℕ) → Statfs

-- The kernel: permission to write and search an inode, free space, the clock.
pub record Kernel : Type 0 where
  pub h_perm : ℕ → Bool
  pub statfs : ℕ → Statfs
  pub jiffies : ℕ
  pub time_after : ℕ → ℕ → Bool

-- EROFS.
abbrev erofs : ℕ
erofs = 30

unfoldable pub writable : SuperBlock → ℕ → Bool
writable sb bindex = not (au_br_rdonly (sb.branch bindex))

-- au_wbr_bu from `n - 1` down; `n` is 0 for an index of -1.
unfoldable pub au_wbr_bu : SuperBlock → (n : ℕ) → Option ℕ
au_wbr_bu sb n = first_down (writable sb) n 0

module _ (k : Kernel) where
  -- The parent directory exists on the branch, which may be written.
  unfoldable pub usable_parent : SuperBlock → DInfo → ℕ → Bool
  unfolding writable
  usable_parent sb parent bindex = elim (au_h_dptr parent bindex) [
    | none ↦ false
    | some h_parent ↦ elim (h_parent.inode) [
      | none ↦ false
      | some h_dir ↦ writable sb bindex && (not sb.dirperm1 || k.h_perm h_dir)
    ]
  ]

  -- The loop over the branches above `bstart` on which the parent may be.
  unfoldable pub tdp_parent : SuperBlock → DInfo → (bstart : ℕ) → Option ℕ
  tdp_parent sb parent bstart = elim (parent.bstart) [
    | none ↦ none
    | some lo ↦ first_up (usable_parent sb parent) (bstart - lo) lo
  ]

  -- An entry without a start is a bug that the source reports.
  unfoldable pub au_wbr_create_tdp : SuperBlock → (dentry parent : DInfo) → Option ℕ
  unfolding tdp_parent
  au_wbr_create_tdp sb dentry parent = elim (dentry.bstart) [
    | none ↦ none
    | some bstart ↦ if writable sb bstart then some bstart else elim (tdp_parent sb parent bstart) [
      | some bindex ↦ some bindex
      | none ↦ au_wbr_bu sb bstart
    ]
  ]

  -- The free space of one branch, with the best so far.
  unfoldable pub measure : SuperBlock → (bindex bavail : ℕ) → SuperBlock × ℕ
  measure sb bindex bavail = elim (k.statfs bindex) [
    | no_arg ↦ (sb, bavail)
    | failed ↦ (sb, bavail)
    | avail f_bavail f_bsize ↦
        let b = f_bavail * f_bsize % 2 ^ 64 in
        let branch =
          λ (i : ℕ). if bindex == i then record (sb.branch i) { wbr_bytes = b } else sb.branch i in
        if leb bavail b
        then (
          record sb {
            branch = branch;
            mfs = record (sb.mfs) { bindex = some bindex; jiffy = k.jiffies };
          },
          b,
        )
        else (record sb { branch = branch }, bavail)
  ]

  -- One round: a read-only branch is passed over.
  unfoldable pub mfs_round : SuperBlock → (bindex bavail : ℕ) → SuperBlock × ℕ
  unfolding measure
  mfs_round sb bindex bavail = if writable sb bindex then measure sb bindex bavail else (sb, bavail)

  unfoldable pub mfs_loop : (n bindex : ℕ) → SuperBlock → (bavail : ℕ) → SuperBlock × ℕ
  unfolding mfs_round
  mfs_loop zero bindex sb bavail = (sb, bavail)
  mfs_loop (suc n) bindex sb bavail =
      let (sb1, bavail1) = mfs_round sb bindex bavail in mfs_loop n (bindex + 1) sb1 bavail1

  unfoldable pub au_mfs : SuperBlock → SuperBlock
  unfolding mfs_loop
  au_mfs sb =
      let start = record sb { mfs = record (sb.mfs) { bindex = none; rr_bytes = 0 } } in
      let (sb1, bavail) = mfs_loop (sb.bend + 1) 0 start 0 in
      record sb1 { mfs = record (sb1.mfs) { rr_bytes = bavail } }

-- The exception to the policies other than tdp: a whiteout of the entry or an opaque parent. Here
-- `none` is -1, and a branch that is read-only makes no exception.
unfoldable pub wbr_exp_index : (bwh bdiropq : Option ℕ) → Option ℕ
wbr_exp_index (some bwh) (some bdiropq) = some (min bdiropq bwh)
wbr_exp_index (some bwh) none = some bwh
wbr_exp_index none bdiropq = bdiropq

unfoldable pub au_wbr_create_exp : SuperBlock → (dentry parent : DInfo) → Option ℕ
unfolding wbr_exp_index
au_wbr_create_exp sb dentry parent = elim (wbr_exp_index dentry.bwh parent.bdiropq) [
  | none ↦ none
  | some bindex ↦ if writable sb bindex then some bindex else none
]

-- atomic_set of `-err`.
unfoldable pub au_wbr_create_init_rr : SuperBlock → SuperBlock
au_wbr_create_init_rr sb = elim (au_wbr_bu sb (sb.bend + 1)) [
  | none ↦ record sb { rr_next = erofs }
  | some bindex ↦ record sb { rr_next = (2 ^ 32 - bindex) % 2 ^ 32 }
]

abbrev pub dec32 : ℕ → ℕ
dec32 n = (n + 2 ^ 32 - 1) % 2 ^ 32

-- `atomic_dec_return(next) + 1`, once more if that is 0: the value used, and the counter left.
unfoldable pub rr_take : ℕ → ℕ × ℕ
rr_take next = if next == 0 then (dec32 next, dec32 (dec32 next)) else (next, dec32 next)

-- At most `n` tries; for a directory the counter is only read.
unfoldable pub rr_loop : SuperBlock → (isdir : Bool) → (n next : ℕ) → Option ℕ × ℕ
unfolding rr_take
rr_loop sb isdir zero next = (none, next)
rr_loop sb isdir (suc n) next =
    let (u, next1) = if isdir then (next, next) else rr_take next in
    let rest = rr_loop sb isdir n next1 in
    let bindex = u % (sb.bend + 1) in if writable sb bindex then (some bindex, next1) else rest

unfoldable pub round_robin : SuperBlock → (isdir : Bool) → Option ℕ × SuperBlock
unfolding rr_loop
round_robin sb isdir =
    let (err, next) = rr_loop sb isdir (sb.bend + 1) sb.rr_next in
    (err, record sb { rr_next = next })

unfoldable pub au_wbr_create_rr :
    SuperBlock → (dentry parent : DInfo) → (isdir : Bool) → Option ℕ × SuperBlock
unfolding round_robin
au_wbr_create_rr sb dentry parent isdir = elim (au_wbr_create_exp sb dentry parent) [
  | some bindex ↦ (some bindex, sb)
  | none ↦ round_robin sb isdir
]

module _ (k : Kernel) where
  -- The last choice has expired, or cannot be used.
  unfoldable pub mfs_stale : SuperBlock → Bool
  mfs_stale sb =
      k.time_after k.jiffies ((sb.mfs.jiffy + sb.mfs.expire) % 2 ^ 32)
      || elim (sb.mfs.bindex) [ none ↦ true | some bindex ↦ not (writable sb bindex) ]

  unfoldable pub refresh_mfs : SuperBlock → SuperBlock
  unfolding mfs_stale
  refresh_mfs sb = if mfs_stale sb then au_mfs k sb else sb

  unfoldable pub au_wbr_create_mfs : SuperBlock → (dentry parent : DInfo) → Option ℕ × SuperBlock
  unfolding refresh_mfs
  au_wbr_create_mfs sb dentry parent = elim (au_wbr_create_exp sb dentry parent) [
    | some bindex ↦ (some bindex, sb)
    | none ↦ ((refresh_mfs sb).mfs.bindex, refresh_mfs sb)
  ]

  unfoldable pub au_wbr_create_mfsrr :
      SuperBlock → (dentry parent : DInfo) → (isdir : Bool) → Option ℕ × SuperBlock
  au_wbr_create_mfsrr sb dentry parent isdir =
      let (err, sb1) = au_wbr_create_mfs sb dentry parent in
      elim err [
        | none ↦ (none, sb1)
        | some bindex ↦
            if ltb sb1.mfs.rr_bytes sb1.mfs.rr_watermark
            then au_wbr_create_rr sb1 dentry parent isdir
            else (some bindex, sb1)
      ]

  -- The parent exists on the branch, which is not read-only; the permission is asked for under
  -- dirperm1 alone, which is what tells the two loops of au_wbr_create_pmfs apart.
  unfoldable pub pmfs_loop : SuperBlock → (parent : DInfo) → (n bindex : ℕ) → (b err : ℕ) → ℕ
  pmfs_loop sb parent zero bindex b err = err
  pmfs_loop sb parent (suc n) bindex b err =
      let bytes = (sb.branch bindex).wbr_bytes in
      let better = usable_parent k sb parent bindex && ltb b bytes in
      pmfs_loop sb parent n (bindex + 1) (if better then bytes else b)
        (if better then bindex else err)

  unfoldable pub same_index : Option ℕ → Option ℕ → Bool
  same_index none none = true
  same_index (some a) (some b) = a == b
  same_index _ _ = false

  -- The number of rounds of `for (bindex = bstart; bindex <= bend; bindex++)` and its start, for a
  -- parent that is on some branch.
  unfoldable pub pmfs_best : SuperBlock → (parent : DInfo) → (err : ℕ) → ℕ
  unfolding pmfs_loop
  pmfs_best sb parent err = elim (parent.bstart) [
    | none ↦ err
    | some lo ↦ elim (au_dbtaildir parent) [
      | none ↦ err
      | some hi ↦ pmfs_loop sb parent (hi + 1 - lo) lo (sb.branch err).wbr_bytes err
    ]
  ]

  unfoldable pub au_wbr_create_pmfs : SuperBlock → (dentry parent : DInfo) → Option ℕ × SuperBlock
  unfolding same_index pmfs_best
  au_wbr_create_pmfs sb dentry parent = elim (au_wbr_create_tdp k sb dentry parent) [
    | none ↦ (none, sb)
    | some err ↦
        if same_index parent.bstart (au_dbtaildir parent)
        then (some err, sb)
        else (let (e2, sb1) = au_wbr_create_mfs sb dentry parent in
            elim e2 [ none ↦ (some err, sb1) | some _ ↦ (some (pmfs_best sb1 parent err), sb1) ])
  ]

  -- Copyup: top down, bottom up from the entry's branch to the parent's first, or bottom up.
  unfoldable pub au_wbr_copyup_tdp : SuperBlock → (dentry parent : DInfo) → Option ℕ
  au_wbr_copyup_tdp sb dentry parent = au_wbr_create_tdp k sb dentry parent

  unfoldable pub bup_parent : SuperBlock → (parent : DInfo) → (bstart lo : ℕ) → Option ℕ
  bup_parent sb parent bstart lo = first_down (usable_parent k sb parent) (bstart + 1 - lo) lo

  unfoldable pub au_wbr_copyup_bup : SuperBlock → (dentry parent : DInfo) → Option ℕ
  unfolding bup_parent
  au_wbr_copyup_bup sb dentry parent = elim (parent.bstart) [
    | none ↦ none
    | some lo ↦ elim (dentry.bstart) [
      | none ↦ au_wbr_bu sb lo
      | some bstart ↦ elim (bup_parent sb parent bstart lo) [
        | some bindex ↦ some bindex
        | none ↦ au_wbr_bu sb lo
      ]
    ]
  ]

unfoldable pub au_wbr_copyup_bu : SuperBlock → (dentry : DInfo) → Option ℕ
au_wbr_copyup_bu sb dentry = elim (dentry.bstart) [
  | none ↦ none
  | some bstart ↦ au_wbr_bu sb (bstart + 1)
]

unfoldable pub au_wbr_create_init_mfs : SuperBlock → SuperBlock
au_wbr_create_init_mfs sb = record sb { mfs = record (sb.mfs) { jiffy = 0; bindex = none } }

unfoldable pub au_wbr_create_init_mfsrr : SuperBlock → SuperBlock
au_wbr_create_init_mfsrr sb = au_wbr_create_init_rr (au_wbr_create_init_mfs sb)

-- The entries of au_wbr_create_ops and au_wbr_copyup_ops; a `v` adds only that the option shows.
pub data CreatePolicy : Type 0 where
  tdp round_robin_policy mfs mfsv mfsrr mfsrrv pmfs pmfsv : CreatePolicy

pub data CopyupPolicy : Type 0 where
  copyup_tdp copyup_bup copyup_bu : CopyupPolicy

unfoldable pub wbr_create :
    CreatePolicy
    → Kernel
    → SuperBlock
    → (dentry parent : DInfo) → (isdir : Bool) → Option ℕ × SuperBlock
wbr_create tdp k sb dentry parent isdir = (au_wbr_create_tdp k sb dentry parent, sb)
wbr_create round_robin_policy k sb dentry parent isdir = au_wbr_create_rr sb dentry parent isdir
wbr_create mfs k sb dentry parent isdir = au_wbr_create_mfs k sb dentry parent
wbr_create mfsv k sb dentry parent isdir = au_wbr_create_mfs k sb dentry parent
wbr_create mfsrr k sb dentry parent isdir = au_wbr_create_mfsrr k sb dentry parent isdir
wbr_create mfsrrv k sb dentry parent isdir = au_wbr_create_mfsrr k sb dentry parent isdir
wbr_create pmfs k sb dentry parent isdir = au_wbr_create_pmfs k sb dentry parent
wbr_create pmfsv k sb dentry parent isdir = au_wbr_create_pmfs k sb dentry parent

unfoldable pub wbr_create_init : CreatePolicy → SuperBlock → SuperBlock
wbr_create_init tdp sb = sb
wbr_create_init round_robin_policy sb = au_wbr_create_init_rr sb
wbr_create_init mfsrr sb = au_wbr_create_init_mfsrr sb
wbr_create_init mfsrrv sb = au_wbr_create_init_mfsrr sb
wbr_create_init _ sb = au_wbr_create_init_mfs sb

unfoldable pub wbr_copyup : CopyupPolicy → Kernel → SuperBlock → (dentry parent : DInfo) → Option ℕ
wbr_copyup copyup_tdp k sb dentry parent = au_wbr_copyup_tdp k sb dentry parent
wbr_copyup copyup_bup k sb dentry parent = au_wbr_copyup_bup k sb dentry parent
wbr_copyup copyup_bu k sb dentry parent = au_wbr_copyup_bu sb dentry
