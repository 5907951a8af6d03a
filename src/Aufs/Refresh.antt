-- ===== src/Aufs/Refresh.antt =====
-- au_refresh_hinode_self (aufs/fs/aufs/inode.c): an inode's hidden inodes move to their branches'
-- new indices after branches were added or deleted.
pub mod Rounds
pub mod Loop
pub mod Self
pub mod Follow
pub mod Compose
pub mod Dentry
use kernel_patches.Base.{
  ℕ, zero, suc, ◌+◌, ◌*◌, min, max, Bool, true, false, not, ◌&&◌, Option, none, some, ◌==◌, ltb,
  leb, if◌then◌else◌, update,
}
use kernel_patches.Aufs.Iinfo.{HInode, IInfo, has_hinode, au_update_brange}
use kernel_patches.Aufs.Branches.{SbInfo, Error, enomem, au_br_index}

-- The loop's state: ii_hinode, ii_bstart and ii_bend, `bindex` with `p`, and `update`.
pub record Walk : Type 0 where
  pub hinode : ℕ → Option HInode
  pub first : ℕ
  pub last : ℕ
  pub bindex : ℕ
  pub update_count : ℕ

-- `tmp = *q; *q = *p; *p = tmp;`
unfoldable pub swap : (ℕ → Option HInode) → (p q : ℕ) → ℕ → Option HInode
unfolding update
swap f p q = update (update f q (f p)) p (f q)

module _ (new_index : HInode → Option ℕ) where
  -- A round of the loop, with its `bindex++`; `bindex--` before it is to stay.
  unfoldable pub step : Walk → Walk
  unfolding swap
  step s = elim (s.hinode s.bindex) [
    | none ↦ record s { bindex = s.bindex + 1 }
    | some h ↦ elim (new_index h) [
      | none ↦ record s {
        hinode = update s.hinode s.bindex none;
        update_count = s.update_count + 1;
        bindex = s.bindex + 1;
      }
      | some new_bindex ↦
          if new_bindex == s.bindex then record s { bindex = s.bindex + 1 } else record s {
            hinode = swap s.hinode s.bindex new_bindex;
            first = min s.first new_bindex;
            last = max s.last new_bindex;
            bindex = if has_hinode (s.hinode new_bindex) then s.bindex else s.bindex + 1;
          }
    ]
  ]

  -- `none` is out of fuel.
  unfoldable pub refresh_loop : (fuel : ℕ) → Walk → Option Walk
  unfolding step
  refresh_loop zero s = none
  refresh_loop (suc fuel) s =
      let rest = refresh_loop fuel (step s) in if ltb s.last s.bindex then some s else rest

-- The inode: its `struct au_iinfo`, whether it is a directory, i_version, and ii_generation.
pub record InodeState : Type 0 where
  pub iinfo : IInfo
  pub isdir : Bool
  pub i_version : ℕ
  pub ii_generation : ℕ

-- au_kzrealloc on ii_hinode: the part that is new is zeroed; a smaller size leaves the array.
unfoldable pub au_kzrealloc : (ℕ → Option HInode) → (nused new_sz : ℕ) → ℕ → Option HInode
au_kzrealloc f nused new_sz j =
    if leb new_sz nused then f j else if leb nused j && ltb j new_sz then none else f j

-- The work after the allocation, `bstart` and `bend` being the inode's range.
unfoldable pub refresh_from :
    SbInfo → (fuel : ℕ) → InodeState → (bstart bend : ℕ) → Option (Option Error × InodeState)
unfolding refresh_loop au_kzrealloc au_update_brange au_br_index
refresh_from sb fuel ino bstart bend =
    let s : Walk = record {
      hinode = au_kzrealloc ino.iinfo.hinode (bend + 1) sb.nbranch;
      first = bstart;
      last = bend;
      bindex = bstart;
      update_count = 0;
    } in
    elim (refresh_loop (λ h. au_br_index sb h.hi_id) fuel s) [
      | none ↦ none
      | some t ↦ some (
        none,
        record {
          iinfo =
              au_update_brange
                (record { bstart = some t.first; bend = some t.last; hinode = t.hinode }) false;
          isdir = ino.isdir;
          i_version =
              if not (t.update_count == 0) && ino.isdir then ino.i_version + 1 else ino.i_version;
          ii_generation = sb.si_generation;
        },
      )
    ]

-- `alloc` is whether an allocation succeeds. An inode without a range has no first hidden inode to
-- read: `none`, as out of fuel.
unfoldable pub au_refresh_hinode_self :
    SbInfo → (fuel : ℕ) → (alloc : Bool) → InodeState → Option (Option Error × InodeState)
unfolding refresh_from
au_refresh_hinode_self sb fuel alloc ino = elim (ino.iinfo.bstart) [
  | none ↦ none
  | some bstart ↦ elim (ino.iinfo.bend) [
    | none ↦ none
    | some bend ↦
        if ltb (bend + 1) sb.nbranch && not alloc
        then some (some enomem, ino)
        else refresh_from sb fuel ino bstart bend
  ]
]
