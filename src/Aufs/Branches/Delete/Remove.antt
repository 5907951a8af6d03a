-- ===== src/Aufs/Branches/Delete/Remove.antt =====
-- au_br_del (aufs/fs/aufs/branch.c): the arrays after one is deleted.
use kernel_patches.Base.{
  ℕ, suc, ◌+◌, ◌-◌, ◌≤◌, ◌<◌, ◌≡◌, ◌≢◌, inl, inr, refl, ap, sym, subst, ◌∙◌, max, true, none, some,
  ltb, if◌then◌else◌, eq-cases, update, arith,
}
use kernel_patches.Aufs.{HDentry}
use kernel_patches.Aufs.Dinfo.{same_dentry, au_find_dbindex}
use kernel_patches.Aufs.Branches.{BrInfo, SbInfo, largest}
use kernel_patches.Aufs.Branches.Valid.{IsBranches, matches, is_gone, id_of}
use kernel_patches.Aufs.Branches.Sizes.{
  removed_lem, removed_last, removed_beyond, largest_inserted, bytes,
}
use kernel_patches.Aufs.Branches.Delete.{memmove_down, prev_end, remove_branch}

-- The place of another branch after that at `b` went.
abbrev pub moved_down : (b i : ℕ) → ℕ
moved_down b i = if ltb i b then i else i - 1

-- The place that an entry comes from.
abbrev from : (b j : ℕ) → ℕ
from b j = if ltb j b then j else j + 1

-- The branch of a dentry is out; it had no open files, and was not the only one.
pub record IsRemoved (sb : SbInfo) (h_root : HDentry) (t : SbInfo) : Type 0 where
  pub place : ℕ
  pub br : BrInfo
  pub inside : place < sb.nbranch
  pub branch : sb.si_branch place ≡ some br
  pub dentry : same_dentry (sb.root.hdentry place) (some h_root) ≡ true
  pub at : au_find_dbindex sb.root (some h_root) ≡ some place
  pub unused : br.br_count ≡ 0
  pub less : t.nbranch + 1 ≡ sb.nbranch
  pub left : 0 < t.nbranch
  pub old_branch :
      (i : ℕ) → i < sb.nbranch → i ≢ place → t.si_branch (moved_down place i) ≡ sb.si_branch i
  pub old_dentry :
      (i : ℕ) → i < sb.nbranch → i ≢ place → t.root.hdentry (moved_down place i) ≡ sb.root.hdentry i
  pub old_inode :
      (i : ℕ)
      → i < sb.nbranch
      → i ≢ place
      → t.root_inode.hinode (moved_down place i) ≡ sb.root_inode.hinode i

removed_from :
    {A : Type 0} (f : ℕ → A) (b n : ℕ) (v : A) (j : ℕ)
    → j < n
    → update (memmove_down f b n) n v j ≡ f (from b j)
removed_from f b n v j l = removed_lem f b n v j l ∙ ground arith

removed_moved :
    {A : Type 0} (f : ℕ → A) (b n : ℕ) (v : A) (i : ℕ)
    → i ≤ n
    → b ≤ n
    → i ≢ b
    → update (memmove_down f b n) n v (moved_down b i) ≡ f i
removed_moved f b n v i l h ne =
    removed_from f b n v (moved_down b i) (ground arith) ∙ ap f (ground arith)

module _ (branch_max : ℕ) (sb : SbInfo) (v : IsBranches branch_max sb) (br : BrInfo) (b : ℕ)
    (inside : b < sb.nbranch) (there : sb.si_branch b ≡ some br) (more : sb.nbranch ≢ 1) where
  abbrev t : SbInfo
  t = remove_branch sb br b

  abbrev last : ℕ
  last = sb.nbranch - 1

  t-nbranch : t.nbranch ≡ last
  unfolding remove_branch
  t-nbranch = refl

  t-branch : (j : ℕ) → j < last → t.si_branch j ≡ sb.si_branch (from b j)
  unfolding remove_branch
  t-branch j = removed_from sb.si_branch b last none j

  t-dentry : (j : ℕ) → j < last → t.root.hdentry j ≡ sb.root.hdentry (from b j)
  unfolding remove_branch
  t-dentry j = removed_from sb.root.hdentry b last none j

  t-inode : (j : ℕ) → j < last → t.root_inode.hinode j ≡ sb.root_inode.hinode (from b j)
  unfolding remove_branch
  t-inode j = removed_from sb.root_inode.hinode b last none j

  t_here :
      (j : ℕ)
      → j < t.nbranch
      → matches (t.si_branch j) (t.root.hdentry j) (t.root_inode.hinode j) ≡ true
  t_here j l =
      let small : j < last = omega (arith, t-nbranch) in
      rw (t-branch j small, t-dentry j small, t-inode j small) (v.here (from b j) (ground arith))

  t_gone :
      (j : ℕ)
      → t.nbranch ≤ j
      → is_gone (t.si_branch j) (t.root.hdentry j) (t.root_inode.hinode j) ≡ true
  unfolding remove_branch
  t_gone j l = elim (eq-cases last j) [
    | inl e ↦
        subst (λ k. is_gone (t.si_branch k) (t.root.hdentry k) (t.root_inode.hinode k) ≡ true) e
          (rw
            (
              removed_last sb.si_branch b last none,
              removed_last sb.root.hdentry b last none,
              removed_last sb.root_inode.hinode b last none,
            )
            refl)
    | inr ne ↦
        let a : last < j = omega arith in
        rw
          (
            removed_beyond sb.si_branch b last none j a,
            removed_beyond sb.root.hdentry b last none j a,
            removed_beyond sb.root_inode.hinode b last none j a,
          )
          (v.gone j (omega arith))
  ]

  t_distinct :
      (i j : ℕ)
      → i < t.nbranch
      → j < t.nbranch
      → id_of (t.si_branch i) ≡ id_of (t.si_branch j)
      → i ≡ j
  t_distinct i j li lj e =
      let si : i < last = omega (arith, t-nbranch) in
      let sj : j < last = omega (arith, t-nbranch) in
      let same =
        v.distinct (from b i) (from b j) (ground arith) (ground arith)
          (sym (ap id_of (t-branch i si)) ∙ e ∙ ap id_of (t-branch j sj)) in
      ground arith

  t_own :
      (i j : ℕ)
      → i < t.nbranch
      → j < t.nbranch
      → same_dentry (t.root.hdentry i) (t.root.hdentry j) ≡ true
      → i ≡ j
  t_own i j li lj e =
      let si : i < last = omega (arith, t-nbranch) in
      let sj : j < last = omega (arith, t-nbranch) in
      let same =
        v.own (from b i) (from b j) (ground arith) (ground arith)
          (rw (t-dentry i si, t-dentry j sj) at e) in
      ground arith

  -- The old largest s_maxbytes is the larger of that of the branch and that of the others.
  largest_removed :
      largest sb.si_branch sb.nbranch
      ≡ max (largest (update (memmove_down sb.si_branch b last) last none) last) br.s_maxbytes
  largest_removed =
      let g = update (memmove_down sb.si_branch b last) last none in
      let old : (j : ℕ) → j < last → g j ≡ sb.si_branch (from b j) =
        removed_from sb.si_branch b last none in
      let big =
        largest_inserted g sb.si_branch b last last (omega arith) (omega arith)
          (λ j l a. sym (old j (omega arith) ∙ ap sb.si_branch (ground arith)))
          (λ j l a. sym (old (j - 1) (omega arith) ∙ ap sb.si_branch (ground arith))) in
      let own : bytes (sb.si_branch b) ≡ br.s_maxbytes = ap bytes there in
      let count : largest sb.si_branch sb.nbranch ≡ largest sb.si_branch (suc last) =
        ap (largest sb.si_branch) (omega arith) in
      omega (arith, big, own, count)

  t_size : t.maxbytes ≡ largest t.si_branch t.nbranch
  unfolding remove_branch
  t_size = ground (arith, largest_removed, v.size)

  pub remove_branch-IsBranches : IsBranches branch_max t
  unfolding remove_branch prev_end
  remove_branch-IsBranches = record {
    here = t_here;
    gone = t_gone;
    distinct = t_distinct;
    own = t_own;
    root_bstart = ground (arith, v.root_bstart);
    root_bend = ground (arith, v.root_bend);
    inode_bstart = ground (arith, v.inode_bstart);
    inode_bend = ground (arith, v.inode_bend);
    few = omega (arith, v.few);
    size = t_size;
  }

  pub remove_branch-IsRemoved :
      (h_root : HDentry)
      → same_dentry (sb.root.hdentry b) (some h_root) ≡ true
      → au_find_dbindex sb.root (some h_root) ≡ some b
      → br.br_count ≡ 0
      → IsRemoved sb h_root t
  unfolding remove_branch
  remove_branch-IsRemoved h_root e at c = record {
    place = b;
    br = br;
    inside = inside;
    branch = there;
    dentry = e;
    at = at;
    unused = c;
    less = omega arith;
    left = omega arith;
    old_branch = λ i l ne. removed_moved sb.si_branch b last none i (omega arith) (omega arith) ne;
    old_dentry =
        λ i l ne. removed_moved sb.root.hdentry b last none i (omega arith) (omega arith) ne;
    old_inode =
        λ i l ne. removed_moved sb.root_inode.hinode b last none i (omega arith) (omega arith) ne;
  }
