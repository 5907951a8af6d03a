-- ===== src/Aufs/Refresh/Compose.antt =====
-- au_br_add and au_br_del (aufs/fs/aufs/branch.c), each with the refresh of an inode by
-- au_refresh_hinode_self (aufs/fs/aufs/inode.c).
use kernel_patches.Base.{
  ℕ, ◌+◌, ◌*◌, ◌^◌, ◌<◌, ◌≡◌, ◌≢◌, ◌⊎◌, inl, inr, ap, sym, subst, ◌∙◌, max, Bool, true, Option,
  none, some, arith,
}
use kernel_patches.Aufs.{HDentry}
use kernel_patches.Aufs.Dinfo.{au_find_dbindex}
use kernel_patches.Aufs.Branches.{SbInfo, Error}
use kernel_patches.Aufs.Branches.Valid.{IsBranches}
use kernel_patches.Aufs.Branches.Add.{AddBranch, au_br_add}
use kernel_patches.Aufs.Branches.Add.Result.{au_br_add_lem}
use kernel_patches.Aufs.Branches.Delete.{au_br_del}
use kernel_patches.Aufs.Branches.Delete.Result.{au_br_del_lem}
use kernel_patches.Aufs.Refresh.{InodeState, au_refresh_hinode_self}
use kernel_patches.Aufs.Refresh.Self.{IsRefreshable, IsRefreshed, au_refresh_hinode_self_lem}
use kernel_patches.Aufs.Refresh.Follow.{
  IsPlaced, FollowsUp, FollowsUp_lem, FollowsDown, FollowsDown_lem, same_moves,
}

-- A refresh where there is memory.
refresh_lem :
    (sb : SbInfo) (ino : InodeState) (fuel : ℕ) (s : IsRefreshable ino.iinfo)
    → 2 * max (s.end + 1) sb.nbranch < fuel
    → (out : InodeState) × (au_refresh_hinode_self sb fuel true ino ≡ some (none, out))
      × IsRefreshed sb ino out
refresh_lem sb ino fuel s l =
    let (q, e, c) = au_refresh_hinode_self_lem sb ino fuel true s l in
    elim c [
      | inl (_, _, k, _) ↦ absurd (ground arith)
      | inr (k, w) ↦ (q.1, e ∙ ap (λ x. some (x, q.1)) k, w)
    ]

-- A branch is added to a well-formed super block in which there is an id left, and then an inode with
-- every hidden inode at its branch's index is refreshed, with memory and rounds enough: both
-- come to an end. If the branches did not change, the hidden inodes are where they were; otherwise
-- there is none at the new branch's index, each is at its branch's new index, and
-- again all are where au_br_index finds their branch.
pub add_then_refresh :
    (branch_max w : ℕ) (sb : SbInfo) (add : AddBranch) (remount : Bool)
    → IsBranches branch_max sb
    → sb.nbranch + 1 < 2 ^ w
    → (ino : InodeState) (fuel : ℕ) (s : IsRefreshable ino.iinfo)
    → 2 * (max (s.end + 1) (sb.nbranch + 1)) < fuel
    → IsPlaced sb ino.iinfo
    → (r : Option Error × SbInfo) × (au_br_add branch_max w sb add remount ≡ some r)
      × (out : InodeState) × (au_refresh_hinode_self r.1 fuel true ino ≡ some (none, out))
      × (((r.1 ≡ sb) × ((j : ℕ) → out.iinfo.hinode j ≡ ino.iinfo.hinode j))
          ⊎ ((b : ℕ) × (add.bindex ≡ some b) × FollowsUp r.1 b ino.iinfo out.iinfo))
add_then_refresh branch_max w sb add remount v room ino fuel s l placed =
    let (r, e, c) = au_br_add_lem branch_max w sb add remount v room in
    elim c.result [
      | inl (same, _) ↦
          let (out, f, k) =
            refresh_lem r.1 ino fuel s (ground (arith, ap (λ (x : SbInfo). x.nbranch) same)) in
          let placed' = subst (λ x. IsPlaced x ino.iinfo) (sym same) placed in
          (r, e, out, f, inl (same, same_moves r.1 ino out placed' k))
      | inr (_, n) ↦
          let (out, f, k) = refresh_lem r.1 ino fuel s (ground (arith, n.more)) in
          (
            r,
            e,
            out,
            f,
            inr (
              n.place,
              n.asked,
              FollowsUp_lem branch_max w sb r.1 add c.valid n ino out placed k,
            ),
          )
    ]

-- A branch is deleted from a well-formed super block, and then an inode with every hidden inode at
-- its branch's index is refreshed, with memory and rounds enough: that comes to an end. If the
-- branch was deleted, each hidden inode of another branch is at its branch's new index, and all are
-- where au_br_index finds their branch; otherwise there was an error, or
-- the super block is the same.
pub del_then_refresh :
    (branch_max : ℕ) (sb : SbInfo) (h_root : HDentry) (remount : Bool) (busy : Option Error)
    (rewh : Bool)
    → IsBranches branch_max sb
    → (ino : InodeState) (fuel : ℕ) (s : IsRefreshable ino.iinfo)
    → 2 * (max (s.end + 1) sb.nbranch) < fuel
    → IsPlaced sb ino.iinfo
    → let r = au_br_del sb h_root remount busy rewh in
      (out : InodeState) × (au_refresh_hinode_self r.1 fuel true ino ≡ some (none, out))
      × ((r.1 ≡ sb)
          ⊎ (r.0 ≢ none)
          ⊎ ((b : ℕ) × (au_find_dbindex sb.root (some h_root) ≡ some b)
              × FollowsDown r.1 b ino.iinfo out.iinfo))
del_then_refresh branch_max sb h_root remount busy rewh v ino fuel s l placed =
    let r = au_br_del sb h_root remount busy rewh in
    let c = au_br_del_lem branch_max sb h_root remount busy rewh v in
    elim c.result [
      | inl (same, _) ↦
          let (out, f, k) =
            refresh_lem r.1 ino fuel s (ground (arith, ap (λ (x : SbInfo). x.nbranch) same)) in
          (out, f, inl same)
      | inr (inl (b, br, wh, there, has, fails, err, same)) ↦
          let (out, f, k) =
            refresh_lem r.1 ino fuel s (ground (arith, ap (λ (x : SbInfo). x.nbranch) same)) in
          (out, f, inr (inl (λ z. fails (sym err ∙ z))))
      | inr (inr (_, _, n)) ↦
          let (out, f, k) = refresh_lem r.1 ino fuel s (ground (arith, n.less)) in
          (
            out,
            f,
            inr (
                inr (
                  n.place,
                  n.at,
                  FollowsDown_lem branch_max sb r.1 h_root v c.valid n ino out placed k,
                )),
          )
    ]
