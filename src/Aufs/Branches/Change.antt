-- ===== src/Aufs/Branches/Change.antt =====
-- aufs/fs/aufs/branch.c: changing the permission of a branch.
pub mod Mod
pub mod Keep
use kernel_patches.Base.{
  ℕ, zero, suc, ◌+◌, ◌-◌, ◌%◌, ◌^◌, max, Bool, true, false, not, ◌&&◌, ◌||◌, Option, none, some,
  ◌==◌, ltb, leb, if◌then◌else◌, first_up, update,
}
use kernel_patches.Aufs.{
  BrPerm, rw, ro, rr, rw_no_link_wh, rowh, rrwh, au_br_writable, HDentry, DInfo,
}
use kernel_patches.Aufs.Dinfo.{au_find_dbindex, au_h_dptr}
use kernel_patches.Aufs.Iinfo.{HInode, IInfo}
use kernel_patches.Aufs.Branches.{
  BrInfo, SbInfo, Error, einval, enospc, edom, enoent, enomem, ebusy, eio, is_index, au_new_br_id,
  put_branch,
}
use kernel_patches.Aufs.Branches.Add.{test_br}

-- Permissions by their number.
abbrev pub perm_number : BrPerm → ℕ
perm_number rw = 0
perm_number ro = 1
perm_number rr = 2
perm_number rw_no_link_wh = 3
perm_number rowh = 4
perm_number rrwh = 5

unfoldable pub same_perm : BrPerm → BrPerm → Bool
same_perm a b = perm_number a == perm_number b

unfoldable pub au_br_whable : BrPerm → Bool
au_br_whable rw = true
au_br_whable rowh = true
au_br_whable rrwh = true
au_br_whable _ = false

unfoldable pub need_sigen_inc : (old new : BrPerm) → Bool
need_sigen_inc old new =
    (au_br_whable old && not (au_br_whable new)) || (au_br_whable new && not (au_br_whable old))

-- au_br_init_wh makes the whiteout bases where br_wbr is allocated.
abbrev pub with_wh : Option Bool → Option Bool
with_wh none = none
with_wh (some wh) = some true

-- Changing the permission, with the results of the allocation, of au_br_init_wh or au_wbr_init, and
-- of au_br_mod_files_ro: an error, and the branch with its br_wbr.
unfoldable pub change_perm :
    BrInfo
    → (perm : BrPerm) → (alloc : Bool) → (init_wh files_ro : Option Error) → Option Error × BrInfo
change_perm br perm alloc init_wh files_ro =
    if au_br_writable br.br_perm
    then elim init_wh [
      | some e ↦ (some e, br)
      | none ↦
          if au_br_writable perm
          then (none, record br { wbr = with_wh br.wbr })
          else (files_ro, record br { wbr = none })
    ]
    else if au_br_writable perm
    then (if not alloc then (some enomem, record br { wbr = none }) else elim init_wh [
      | some e ↦ (some e, record br { wbr = none })
      | none ↦ (none, record br { wbr = some true })
    ])
    else (none, br)

unfoldable pub au_br_mod :
    SbInfo
    → (h_root : HDentry) → (perm : BrPerm) → (is_rdonly remount do_update alloc : Bool)
    → (init_wh files_ro : Option Error) → Option Error × Bool × SbInfo
au_br_mod sb h_root perm is_rdonly remount do_update alloc init_wh files_ro =
    elim (au_find_dbindex sb.root (some h_root)) [
      | none ↦ (if remount then none else some enoent, do_update, sb)
      | some bindex ↦ elim (test_br perm is_rdonly) [
        | some e ↦ (some e, do_update, sb)
        | none ↦ elim (sb.si_branch bindex) [
          | none ↦ (none, do_update, sb)
          | some br ↦
              let (err, changed) = change_perm br perm alloc init_wh files_ro in
              if same_perm br.br_perm perm then (none, do_update, sb) else elim err [
                | some e ↦ (some e, do_update, put_branch sb bindex changed)
                | none ↦ (
                  none,
                  do_update || need_sigen_inc br.br_perm perm,
                  put_branch sb bindex (record changed { br_perm = perm }),
                )
              ]
        ]
      ]
    ]
