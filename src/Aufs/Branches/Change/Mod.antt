-- ===== src/Aufs/Branches/Change/Mod.antt =====
-- au_br_mod (aufs/fs/aufs/branch.c): all its outcomes.
use kernel_patches.Base.{ℕ, ◌≡◌, ◌≢◌, ◌⊎◌, Bool, true, false, ◌||◌, Option, none, some, arith}
use kernel_patches.Aufs.{BrPerm, HDentry, au_br_writable}
use kernel_patches.Aufs.Dinfo.{same_dentry, au_find_dbindex}
use kernel_patches.Aufs.Branches.{BrInfo, SbInfo, Error, put_branch}
use kernel_patches.Aufs.Branches.Valid.{IsBranches}
use kernel_patches.Aufs.Branches.Add.{test_br}
use kernel_patches.Aufs.Branches.Change.{need_sigen_inc, change_perm, au_br_mod}

abbrev is_allocated : Option Bool → Bool
is_allocated none = false
is_allocated (some wh) = true

-- br_wbr is allocated for a writable branch and for no other.
abbrev pub HasWbr : BrInfo → Type 0
HasWbr br = is_allocated br.wbr ≡ au_br_writable br.br_perm

-- What becomes of the branch: the new permission with the br_wbr that it needs, or an error with the
-- old one, where br_wbr is gone only if it is au_br_mod_files_ro that failed.
pub record Changed (br : BrInfo) (perm : BrPerm) (do_update : Bool) (files_ro : Option Error)
    (err : Option Error) (update_flag : Bool) (t : BrInfo) : Type 0 where
  pub id : t.br_id ≡ br.br_id
  pub size : t.s_maxbytes ≡ br.s_maxbytes
  pub result :
      ((err ≡ none)
        × (t.br_perm ≡ perm)
        × (update_flag ≡ (do_update || need_sigen_inc br.br_perm perm))
        × HasWbr t)
      ⊎ ((err ≢ none) × (t.br_perm ≡ br.br_perm) × (update_flag ≡ do_update) × HasWbr t)
      ⊎ ((err ≢ none)
          × (err ≡ files_ro)
          × (update_flag ≡ do_update)
          × (t.br_perm ≡ br.br_perm)
          × (au_br_writable br.br_perm ≡ true)
          × (au_br_writable perm ≡ false)
          × (t.wbr ≡ none))

pub record ModLem (branch_max : ℕ) (sb : SbInfo) (h_root : HDentry) (perm : BrPerm)
    (remount do_update : Bool) (files_ro : Option Error) (r : Option Error × Bool × SbInfo)
    : Type 0 where
  pub valid : IsBranches branch_max r.2
  pub result :
      ((r.2 ≡ sb)
        × (r.1 ≡ do_update)
        × ((r.0 ≢ none)
            ⊎ ((remount ≡ true) × (au_find_dbindex sb.root (some h_root) ≡ none))
            ⊎ ((b : ℕ) × (br : BrInfo) × (sb.si_branch b ≡ some br) × (br.br_perm ≡ perm))))
      ⊎ ((b : ℕ) × (br t : BrInfo) × (sb.si_branch b ≡ some br)
          × (same_dentry (sb.root.hdentry b) (some h_root) ≡ true)
          × (r.2 ≡ put_branch sb b t)
          × Changed br perm do_update files_ro r.0 r.1 t)

module _ (br : BrInfo) (perm : BrPerm) (alloc do_update : Bool)
    (init_wh files_ro : Option Error) where
  abbrev made : Option Error × BrInfo
  made = change_perm br perm alloc init_wh files_ro

  pub made_same :
      (made.1.br_id ≡ br.br_id)
      × (made.1.s_maxbytes ≡ br.s_maxbytes)
      × (made.1.br_perm ≡ br.br_perm)
  unfolding change_perm
  made_same = (ground arith, ground arith, ground arith)

module _ (branch_max : ℕ) (sb : SbInfo) (h_root : HDentry) (perm : BrPerm)
    (is_rdonly remount do_update alloc : Bool) (init_wh files_ro : Option Error)
    (v : IsBranches branch_max sb) where
  abbrev Outcome : Option Error × Bool × SbInfo → Type 0
  Outcome r = ModLem branch_max sb h_root perm remount do_update files_ro r

  abbrev result : Option Error × Bool × SbInfo
  result = au_br_mod sb h_root perm is_rdonly remount do_update alloc init_wh files_ro

  module _ (b : ℕ) (e : au_find_dbindex sb.root (some h_root) ≡ some b) (br : BrInfo)
      (there : sb.si_branch b ≡ some br) (ok : test_br perm is_rdonly ≡ none) (wf : HasWbr br) where
    abbrev changed : Option Error × BrInfo
    changed = change_perm br perm alloc init_wh files_ro
