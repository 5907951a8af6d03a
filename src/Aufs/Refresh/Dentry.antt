-- ===== src/Aufs/Refresh/Dentry.antt =====
-- au_refresh_hinode (aufs/fs/aufs/inode.c): after au_refresh_hinode_self, the inodes of a dentry's hidden
-- dentries become hidden inodes.
pub mod Rounds
pub mod Held
use kernel_patches.Base.{
  ℕ, zero, suc, ◌+◌, ◌-◌, Bool, true, false, not, ◌&&◌, Option, none, some, ◌==◌, ltb,
  if◌then◌else◌, update,
}
use kernel_patches.Aufs.{HDentry, DInfo}
use kernel_patches.Aufs.Dinfo.{au_h_dptr}
use kernel_patches.Aufs.Iinfo.{HInode, IInfo, au_update_brange}
use kernel_patches.Aufs.Branches.{SbInfo, Error, estale}
use kernel_patches.Aufs.Refresh.{InodeState, au_refresh_hinode_self}

-- The inode of a hidden dentry that is there and positive.
unfoldable pub h_inode_at : DInfo → ℕ → Option ℕ
unfolding au_h_dptr
h_inode_at dentry bindex = elim (au_h_dptr dentry bindex) [ none ↦ none | some hd ↦ hd.inode ]

-- `ii_bstart <= bindex && bindex <= ii_bend`, and the two comparisons that widen the range, where an
-- end of -1 is `none`.
abbrev pub in_range : IInfo → ℕ → Bool
in_range d bindex =
    elim (d.bstart) [ none ↦ true | some s ↦ not (ltb bindex s) ]
    && elim (d.bend) [ none ↦ false | some e ↦ not (ltb e bindex) ]

abbrev pub widen_start : Option ℕ → ℕ → Option ℕ
widen_start none bindex = none
widen_start (some s) bindex = if ltb bindex s then some bindex else some s

abbrev pub widen_end : Option ℕ → ℕ → Option ℕ
widen_end none bindex = some bindex
widen_end (some e) bindex = if ltb e bindex then some bindex else some e

-- The id of the branch at an index; one that is not there has none.
abbrev pub au_sbr_id : SbInfo → ℕ → ℕ
au_sbr_id sb bindex = elim (sb.si_branch bindex) [ none ↦ 0 | some br ↦ br.br_id ]

-- The link counts are the kernel's.
module _ (i_nlink : ℕ → ℕ) (sb : SbInfo) (dentry : DInfo) where
  -- The two ends and au_set_h_iptr.
  unfoldable pub take_inode : IInfo → (bindex i : ℕ) → IInfo
  unfolding update
  take_inode d bindex i = record {
    bstart = widen_start d.bstart bindex;
    bend = widen_end d.bend bindex;
    hinode =
        update d.hinode bindex
          (some (record { ident = i; nlink = i_nlink i; hi_id = au_sbr_id sb bindex }));
  }

  -- The hidden inode that is in the way, or that is the one already.
  unfoldable pub present : IInfo → (bindex : ℕ) → Option HInode
  present d bindex = if in_range d bindex then d.hinode bindex else none

  -- The loop over `n` branches from `lo`: an error, the range with its hidden inodes, and `update`.
  unfoldable pub hdentry_loop : (n lo : ℕ) → IInfo → (count : ℕ) → Option Error × IInfo × ℕ
  unfolding take_inode present h_inode_at
  hdentry_loop zero lo d count = (none, d, count)
  hdentry_loop (suc n) lo d count =
      let rest = hdentry_loop n (lo + 1) d count in
      elim (h_inode_at dentry lo) [
        | none ↦ rest
        | some i ↦
            let more = hdentry_loop n (lo + 1) (take_inode d lo i) (count + 1) in
            elim (present d lo) [
              | none ↦ more
              | some hi ↦ if hi.ident == i then rest else (some estale, d, count)
            ]
      ]

  -- The rounds from au_dbstart to au_dbend.
  unfoldable pub hdentry_rounds : IInfo → Option Error × IInfo × ℕ
  unfolding hdentry_loop
  hdentry_rounds d = elim (dentry.bstart) [
    | none ↦ (none, d, 0)
    | some s ↦ elim (dentry.bend) [ none ↦ (none, d, 0) | some e ↦ hdentry_loop (e + 1 - s) s d 0 ]
  ]

  unfoldable pub au_refresh_hinode :
      (fuel : ℕ) → (alloc : Bool) → InodeState → Option (Option Error × InodeState)
  unfolding au_refresh_hinode_self hdentry_rounds au_update_brange
  au_refresh_hinode fuel alloc ino = elim (au_refresh_hinode_self sb fuel alloc ino) [
    | none ↦ none
    | some (some e, ino1) ↦ some (some e, ino1)
    | some (none, ino1) ↦
        let (err, d, count) = hdentry_rounds ino1.iinfo in
        let ranged = record ino1 { iinfo = au_update_brange d false } in
        elim err [
          | some e ↦ some (some e, ranged)
          | none ↦ some (
            none,
            record ranged {
              i_version =
                  if not (count == 0) && ino1.isdir then ino1.i_version + 1 else ino1.i_version;
              ii_generation = sb.si_generation;
            },
          )
        ]
  ]
