-- ===== src/Aufs/Branches/Delete.antt =====
-- aufs/fs/aufs/branch.c: deleting a branch.
pub mod Remove
pub mod Result
use kernel_patches.Base.{
  ℕ, zero, suc, ◌+◌, ◌-◌, ◌%◌, ◌^◌, max, Bool, true, false, not, ◌&&◌, ◌||◌, Option, none, some,
  ◌==◌, ltb, leb, if◌then◌else◌, first_up, update,
}
use kernel_patches.Aufs.{
  BrPerm, rw, ro, rr, rw_no_link_wh, rowh, rrwh, au_br_writable, HDentry, DInfo,
}
use kernel_patches.Aufs.Dinfo.{au_find_dbindex, au_h_dptr}
use kernel_patches.Aufs.Iinfo.{HInode, IInfo}
use kernel_patches.Aufs.Branches.{
  BrInfo, SbInfo, Error, einval, enospc, edom, enoent, enomem, ebusy, eio, is_index, au_new_br_id,
  put_branch, largest,
}

-- `memmove(f + i, f + i + 1, n - i)`: the one at `i` is overwritten.
unfoldable pub memmove_down {ℓ} : {A : Type ℓ} → (ℕ → A) → (i n : ℕ) → ℕ → A
memmove_down f i n j = if leb i j && ltb j n then f (j + 1) else f j

-- An end of -1 is `none`.
unfoldable pub prev_end : Option ℕ → Option ℕ
prev_end none = none
prev_end (some e) = if e == 0 then none else some (e - 1)

unfoldable pub remove_branch : SbInfo → BrInfo → (bindex : ℕ) → SbInfo
remove_branch sb br bindex =
    let bend = sb.nbranch - 1 in
    let branches = update (memmove_down sb.si_branch bindex bend) bend none in
    record {
      si_branch = branches;
      nbranch = bend;
      si_last_br_id = sb.si_last_br_id;
      si_generation = sb.si_generation;
      root = record (sb.root) {
        hdentry = update (memmove_down sb.root.hdentry bindex bend) bend none;
        bend = prev_end sb.root.bend;
      };
      root_inode = record (sb.root_inode) {
        hinode = update (memmove_down sb.root_inode.hinode bindex bend) bend none;
        bend = prev_end sb.root_inode.bend;
      };
      maxbytes = if sb.maxbytes == br.s_maxbytes then largest branches bend else sb.maxbytes;
    }

-- Whether the branch has whiteout bases: `br->br_wbr && br->br_wbr->wbr_whbase`.
abbrev pub has_wh : BrInfo → Bool
has_wh br = elim (br.wbr) [ none ↦ false | some wh ↦ wh ]

-- br_wbr after au_br_init_wh was called again; it frees it for a branch that is not writable.
abbrev pub again : BrInfo → (rewh : Bool) → Option Bool
again br rewh = if rewh && not (au_br_writable br.br_perm) then none else some rewh

-- `struct au_opt_del` with what the rest of the system says: `busy` is test_children_busy, `rewh`
-- whether au_br_init_wh makes the whiteout bases again.
unfoldable pub au_br_del :
    SbInfo
    → (h_root : HDentry) → (remount : Bool) → (busy : Option Error) → (rewh : Bool)
    → Option Error × SbInfo
au_br_del sb h_root remount busy rewh = elim (au_find_dbindex sb.root (some h_root)) [
  | none ↦ (if remount then none else some enoent, sb)
  | some bindex ↦ elim (sb.si_branch bindex) [
    | none ↦ (some ebusy, sb)
    | some br ↦
        let reverted : SbInfo = record sb {
          si_branch = update sb.si_branch bindex (some (record br { wbr = again br rewh }));
        } in
        if sb.nbranch == 1
        then (some ebusy, sb)
        else if not (br.br_count == 0)
        then (some ebusy, sb)
        else elim busy [
          | some e ↦ (some e, if has_wh br then reverted else sb)
          | none ↦ (none, remove_branch sb br bindex)
        ]
  ]
]
