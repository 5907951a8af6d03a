-- ===== src/Aufs/Branches/Add.antt =====
-- aufs/fs/aufs/branch.c: adding a branch. AUFS_BRANCH_MAX is an argument.
pub mod Arrays
pub mod Insert
pub mod Result
use kernel_patches.Base.{
  ℕ, zero, suc, ◌+◌, ◌-◌, ◌%◌, ◌^◌, max, Bool, true, false, not, ◌&&◌, ◌||◌, Option, none, some,
  ◌==◌, ltb, leb, if◌then◌else◌, first_up, update,
}
use kernel_patches.Aufs.{
  BrPerm, rw, ro, rr, rw_no_link_wh, rowh, rrwh, au_br_writable, HDentry, DInfo,
}
use kernel_patches.Aufs.Dinfo.{au_find_dbindex, au_h_dptr}
use kernel_patches.Aufs.Iinfo.{HInode, IInfo}
use kernel_patches.Aufs.Branches.{
  BrInfo, SbInfo, Error, einval, enospc, edom, enoent, enomem, ebusy, eio, is_index, au_new_br_id,
  put_branch,
}

-- `struct au_opt_add`, with what the kernel says of the directory: `i_nlink`, whether it is read-only,
-- whether its file system is one that test_add refuses, and which hidden dentries it overlaps. A
-- negative index is `none`. `alloc`, `init_wh` and `xino` are the results of the allocations, of
-- au_wbr_init and of au_xino_br.
pub record AddBranch : Type 0 where
  pub bindex : Option ℕ
  pub perm : BrPerm
  pub dentry : HDentry
  pub inode : HInode
  pub is_rdonly : Bool
  pub refused : Bool
  pub overlaps : HDentry → Bool
  pub add_maxbytes : ℕ
  pub alloc : Bool
  pub init_wh : Option Error
  pub xino : Option Error

unfoldable pub test_br : (perm : BrPerm) → (is_rdonly : Bool) → Option Error
test_br perm is_rdonly = if au_br_writable perm && is_rdonly then some einval else none

-- The loop over the branches that are there.
unfoldable pub overlapped : SbInfo → AddBranch → Option ℕ
overlapped sb add =
    first_up (λ bindex. elim (au_h_dptr sb.root bindex) [ none ↦ false | some d ↦ add.overlaps d ])
      sb.nbranch 0

-- What test_add says: add the branch, ignore it, or an error.
pub data Verdict : Type 0 where
  go_on ignore : Verdict
  refuse : Error → Verdict

unfoldable pub test_dir : SbInfo → AddBranch → Verdict
test_dir sb add =
    if add.inode.nlink == 0
    then refuse enoent
    else if add.refused
    then refuse einval
    else elim (test_br add.perm add.is_rdonly) [
      | some e ↦ refuse e
      | none ↦ elim (overlapped sb add) [ none ↦ go_on | some bindex ↦ refuse einval ]
    ]

-- What au_br_init makes of the addition.
pub data Added : Type 0 where
  made : BrInfo → Added
  stopped : Error → Added

-- `memmove(f + i + 1, f + i, n - i)`: room for one at `i`, below `n`.
unfoldable pub memmove_up {ℓ} : {A : Type ℓ} → (ℕ → A) → (i n : ℕ) → ℕ → A
memmove_up f i n j = if ltb i j && leb j n then f (j - 1) else f j

-- An end of -1 is `none`.
unfoldable pub next_end : Option ℕ → Option ℕ
next_end none = some 0
next_end (some e) = some (e + 1)

-- The branch, the root's hidden dentry and the root inode's hidden inode go in at the index.
unfoldable pub insert_branch : SbInfo → AddBranch → BrInfo → (bindex : ℕ) → SbInfo
insert_branch sb add br bindex =
    let n = sb.nbranch in
    let hi : HInode = record (add.inode) { hi_id = br.br_id } in
    record {
      si_branch = update (memmove_up sb.si_branch bindex n) bindex (some br);
      nbranch = n + 1;
      si_last_br_id = br.br_id;
      si_generation = sb.si_generation;
      root = record (sb.root) {
        hdentry = update (memmove_up sb.root.hdentry bindex n) bindex (some (add.dentry));
        bstart = if n == 0 then some 0 else sb.root.bstart;
        bend = next_end sb.root.bend;
      };
      root_inode = record (sb.root_inode) {
        hinode = update (memmove_up sb.root_inode.hinode bindex n) bindex (some hi);
        bstart = if n == 0 then some 0 else sb.root_inode.bstart;
        bend = next_end sb.root_inode.bend;
      };
      maxbytes = max sb.maxbytes add.add_maxbytes;
    }

-- The branch of an addition with its id; br_wbr is allocated for a writable one.
unfoldable pub new_branch : SbInfo → AddBranch → (id : ℕ) → BrInfo
new_branch sb add id = record {
  br_id = id;
  br_perm = add.perm;
  wbr = if au_br_writable add.perm then some true else none;
  br_count = 0;
  br_generation = sb.si_generation;
  s_maxbytes = add.add_maxbytes;
}

module _ (branch_max : ℕ) where
  unfoldable pub test_add : SbInfo → AddBranch → (remount : Bool) → Verdict
  test_add sb add remount =
      if ltb 0 sb.nbranch && is_index (au_find_dbindex sb.root (some (add.dentry)))
      then (if remount then ignore else refuse einval)
      else if leb branch_max sb.nbranch
      then refuse enospc
      else elim add.bindex [
        | none ↦ refuse edom
        | some bindex ↦
            if leb branch_max bindex
            then refuse enospc
            else if ltb sb.nbranch bindex
            then refuse edom
            else test_dir sb add
      ]

  -- au_br_init, with the allocations of alloc_addbr before it: the branch, or an error; `none` is out
  -- of fuel.
  unfoldable pub au_br_init : (w : ℕ) → SbInfo → AddBranch → Option Added
  au_br_init w sb add =
      let writable = au_br_writable add.perm in
      if not add.alloc
      then some (stopped enomem)
      else elim (if writable then add.init_wh else none) [
        | some e ↦ some (stopped e)
        | none ↦ elim add.xino [
          | some e ↦ some (stopped e)
          | none ↦ elim (au_new_br_id w sb) [
            | none ↦ none
            | some id ↦ some (made (new_branch sb add id))
          ]
        ]
      ]

  -- `none` is out of fuel.
  unfoldable pub au_br_add :
      (w : ℕ) → SbInfo → AddBranch → (remount : Bool) → Option (Option Error × SbInfo)
  au_br_add w sb add remount = elim (test_add sb add remount) [
    | refuse e ↦ some (some e, sb)
    | ignore ↦ some (none, sb)
    | go_on ↦ elim (au_br_init w sb add) [
      | none ↦ none
      | some (stopped e) ↦ some (some e, sb)
      | some (made br) ↦ elim add.bindex [
        | none ↦ some (some edom, sb)
        | some bindex ↦ some (none, insert_branch sb add br bindex)
      ]
    ]
  ]
