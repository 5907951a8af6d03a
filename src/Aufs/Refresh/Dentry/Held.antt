-- ===== src/Aufs/Refresh/Dentry/Held.antt =====
-- What au_refresh_hinode (aufs/fs/aufs/inode.c) makes of an inode and its dentry.
use kernel_patches.Base.{
  ℕ, ◌+◌, ◌-◌, ◌*◌, ◌≤◌, ◌<◌, ◌≡◌, ◌⊎◌, inl, inr, refl, ap, sym, ◌∙◌, max, Bool, true, false, not,
  ◌&&◌, Option, none, some, ◌==◌, if◌then◌else◌, arith,
}
use kernel_patches.Aufs.{DInfo}
use kernel_patches.Aufs.Iinfo.{HInode, IInfo, au_update_brange}
use kernel_patches.Aufs.Branches.{SbInfo, Error, enomem, estale, au_br_index}
use kernel_patches.Aufs.Refresh.{InodeState, au_refresh_hinode_self}
use kernel_patches.Aufs.Refresh.Self.{
  IsRefreshable, IsRefreshed, brange-hinode, au_refresh_hinode_self_lem,
}
use kernel_patches.Aufs.Refresh.Dentry.{h_inode_at, hdentry_loop, hdentry_rounds, au_refresh_hinode}
use kernel_patches.Aufs.Refresh.Dentry.Rounds.{
  holds, some-none, rounds_error, rounds_other, rounds_held,
}

-- The inode after au_refresh_hinode: the inode of every hidden dentry is a hidden inode; on the other
-- branches the old hidden inodes are at their branches' indices, and nothing else is.
pub record IsHeld (sb : SbInfo) (dentry : DInfo) (s e : ℕ) (ino t : InodeState) : Type 0 where
  pub held :
      (j i : ℕ) → s ≤ j → j ≤ e → h_inode_at dentry j ≡ some i → holds i (t.iinfo.hinode j) ≡ true
  pub kept :
      (i k : ℕ) (h : HInode)
      → (k < s) ⊎ (e < k) ⊎ (h_inode_at dentry k ≡ none)
      → ino.iinfo.hinode i ≡ some h
      → au_br_index sb h.hi_id ≡ some k
      → t.iinfo.hinode k ≡ some h
  pub only :
      (j : ℕ) (h : HInode)
      → (j < s) ⊎ (e < j) ⊎ (h_inode_at dentry j ≡ none)
      → t.iinfo.hinode j ≡ some h
      → (au_br_index sb h.hi_id ≡ some j) × ((i : ℕ) × (ino.iinfo.hinode i ≡ some h))
  pub generation : t.ii_generation ≡ sb.si_generation

module _ (i_nlink : ℕ → ℕ) (sb : SbInfo) (dentry : DInfo) (s e : ℕ) (hs : dentry.bstart ≡ some s)
    (he : dentry.bend ≡ some e) (range : s ≤ e) where
  rounds_lem :
      (d : IInfo)
      → hdentry_rounds i_nlink sb dentry d ≡ hdentry_loop i_nlink sb dentry (e + 1 - s) s d 0
  unfolding hdentry_rounds
  rounds_lem d = ground arith

  outside :
      (j : ℕ)
      → (j < s) ⊎ (e < j) ⊎ (h_inode_at dentry j ≡ none)
      → (j < s) ⊎ (s + (e + 1 - s) ≤ j) ⊎ (h_inode_at dentry j ≡ none)
  outside j (inl l) = inl l
  outside j (inr (inl l)) = inr (inl (omega arith))
  outside j (inr (inr f)) = inr (inr f)

  module _ (ino mid : InodeState) (w : IsRefreshed sb ino mid) where
    abbrev rs : Option Error × IInfo × ℕ
    rs = hdentry_rounds i_nlink sb dentry mid.iinfo

    rs-entry :
        (j : ℕ)
        → rs.1.hinode j ≡ (hdentry_loop i_nlink sb dentry (e + 1 - s) s mid.iinfo 0).1.hinode j
    rs-entry j = ap (λ (r : Option Error × IInfo × ℕ). r.1.hinode j) (rounds_lem mid.iinfo)

    rs-error : rs.0 ≡ (hdentry_loop i_nlink sb dentry (e + 1 - s) s mid.iinfo 0).0
    rs-error = ap (λ (r : Option Error × IInfo × ℕ). r.0) (rounds_lem mid.iinfo)

    abbrev out : InodeState
    out = record mid {
      iinfo = au_update_brange rs.1 false;
      i_version = if not (rs.2 == 0) && mid.isdir then mid.i_version + 1 else mid.i_version;
      ii_generation = sb.si_generation;
    }

    same_entry :
        (j : ℕ)
        → (j < s) ⊎ (e < j) ⊎ (h_inode_at dentry j ≡ none)
        → out.iinfo.hinode j ≡ mid.iinfo.hinode j
    same_entry j o =
        brange-hinode rs.1 j
        ∙ rs-entry j
        ∙ rounds_other i_nlink sb dentry (e + 1 - s) s mid.iinfo 0 j (outside j o)

    out-IsHeld : rs.0 ≡ none → IsHeld sb dentry s e ino out
    out-IsHeld ok = record {
      held = λ j i a b f.
          ap (holds i) (brange-hinode rs.1 j ∙ rs-entry j)
          ∙ rounds_held i_nlink sb dentry (e + 1 - s) s mid.iinfo 0 j i a (omega arith) f
              (sym rs-error ∙ ok);
      kept = λ i k h o f g. same_entry k o ∙ w.kept i k h f g;
      only = λ j h o f. w.only j h (sym (same_entry j o) ∙ f);
      generation = refl;
    }

  -- For an inode with a range and no two hidden inodes on a branch, and a dentry with a range, fuel of more
  -- than twice the entries of the larger array is enough for au_refresh_hinode: it fails without memory, and then
  -- changes nothing, or with ESTALE, or every inode of a hidden dentry of the range is a hidden
  -- inode at the same index, and at the other indices there are exactly the old hidden inodes whose
  -- branch's index that is.
  pub au_refresh_hinode_lem :
      (ino : InodeState) (fuel : ℕ) (alloc : Bool) (v : IsRefreshable ino.iinfo)
      → 2 * max (v.end + 1) sb.nbranch < fuel
      → (r : Option Error × InodeState) × (au_refresh_hinode i_nlink sb dentry fuel alloc ino
          ≡ some r)
        × (((r.0 ≡ some enomem) × (r.1 ≡ ino) × (alloc ≡ false))
            ⊎ (r.0 ≡ some estale)
            ⊎ ((r.0 ≡ none) × IsHeld sb dentry s e ino r.1))
  unfolding au_refresh_hinode
  au_refresh_hinode_lem ino fuel alloc v l =
      let (q, f, c) = au_refresh_hinode_self_lem sb ino fuel alloc v l in finish q f c
    where
      finish :
          (q : Option Error × InodeState)
          → au_refresh_hinode_self sb fuel alloc ino ≡ some q
          → ((q.0 ≡ some enomem) × (q.1 ≡ ino) × (alloc ≡ false) × (v.end + 1 < sb.nbranch))
            ⊎ ((q.0 ≡ none) × IsRefreshed sb ino q.1)
          → (r : Option Error × InodeState) × (au_refresh_hinode i_nlink sb dentry fuel alloc ino
              ≡ some r)
            × (((r.0 ≡ some enomem) × (r.1 ≡ ino) × (alloc ≡ false))
                ⊎ (r.0 ≡ some estale)
                ⊎ ((r.0 ≡ none) × IsHeld sb dentry s e ino r.1))
      finish (some err, t) f (inr (z, w)) = absurd (some-none z)
      finish (none, t) f (inl (z, _, _, _)) = absurd (some-none (sym z))
      finish (some err, t) f (inl (z, same, no_mem, _)) =
          ((some err, t), rw (au_refresh_hinode, f) refl, inl (z, same, no_mem))
      finish (none, t) f (inr (_, w)) =
          let error = rs-error ino t w in
          let r = rs ino t w in
          elim (rounds_error i_nlink sb dentry (e + 1 - s) s t.iinfo 0) [
            | inl ok ↦ (
              (none, out ino t w),
              rw (au_refresh_hinode, f, error ∙ ok) refl,
              inr (inr (refl, out-IsHeld ino t w (error ∙ ok))),
            )
            | inr stale ↦ (
              (some estale, record t { iinfo = au_update_brange r.1 false }),
              rw (au_refresh_hinode, f, error ∙ stale) refl,
              inr (inl refl),
            )
          ]
