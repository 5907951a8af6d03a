-- ===== src/Aufs/Branches/Add/Insert.antt =====
-- au_br_add (aufs/fs/aufs/branch.c): the arrays after an addition.
use kernel_patches.Base.{
  ℕ, suc, ◌+◌, ◌≤◌, ◌<◌, ◌≡◌, ◌≢◌, inl, inr, refl, ap, sym, subst, ◌∙◌, true, false, Option, some,
  ◌==◌, Bool-cases, update, arith,
}
use kernel_patches.Aufs.{HDentry}
use kernel_patches.Aufs.Dinfo.{same_dentry}
use kernel_patches.Aufs.Iinfo.{HInode}
use kernel_patches.Aufs.Branches.{BrInfo, SbInfo, largest}
use kernel_patches.Aufs.Branches.Ids.{IsNewId}
use kernel_patches.Aufs.Branches.Valid.{IsBranches, matches, is_gone, id_of}
use kernel_patches.Aufs.Branches.Sizes.{inserted_beyond, largest_inserted, bytes}
use kernel_patches.Aufs.Branches.Add.{AddBranch, memmove_up, insert_branch, next_end}
use kernel_patches.Aufs.Branches.Add.Arrays.{
  moved_up, from, inserted_other, inserted_self, inserted_moved, inserted_unique,
}

-- The branch that au_br_add puts in.
pub record IsInserted (w : ℕ) (sb : SbInfo) (add : AddBranch) (t : SbInfo) : Type 0 where
  pub place : ℕ
  pub br : BrInfo
  pub asked : add.bindex ≡ some place
  pub inside : place ≤ sb.nbranch
  pub fresh : IsNewId w sb br.br_id
  pub perm : br.br_perm ≡ add.perm
  pub branch : t.si_branch place ≡ some br
  pub dentry : t.root.hdentry place ≡ some (add.dentry)
  pub inode : t.root_inode.hinode place ≡ some (record (add.inode) { hi_id = br.br_id })
  pub more : t.nbranch ≡ sb.nbranch + 1
  pub old_branch : (i : ℕ) → i < sb.nbranch → t.si_branch (moved_up place i) ≡ sb.si_branch i
  pub old_dentry : (i : ℕ) → i < sb.nbranch → t.root.hdentry (moved_up place i) ≡ sb.root.hdentry i
  pub old_inode :
      (i : ℕ) → i < sb.nbranch → t.root_inode.hinode (moved_up place i) ≡ sb.root_inode.hinode i

same_dentry_comm : (a b : Option HDentry) → same_dentry a b ≡ same_dentry b a
unfolding same_dentry
same_dentry_comm a b = ground arith

id_unused :
    (w : ℕ) (sb : SbInfo) (id : ℕ)
    → IsNewId w sb id
    → (i : ℕ) → i < sb.nbranch
    → matches (sb.si_branch i) (sb.root.hdentry i) (sb.root_inode.hinode i) ≡ true
    → id_of (sb.si_branch i) ≢ id
id_unused w sb id fresh i l m = ground (arith, fresh.unused i l)

module _ (branch_max w : ℕ) (sb : SbInfo) (v : IsBranches branch_max sb) (add : AddBranch)
    (br : BrInfo) (b : ℕ) (inside : b ≤ sb.nbranch) (room : sb.nbranch < branch_max)
    (fresh : IsNewId w sb br.br_id) (bytes_eq : br.s_maxbytes ≡ add.add_maxbytes)
    (new : (i : ℕ)
      → i < sb.nbranch
      → same_dentry (sb.root.hdentry i) (some (add.dentry)) ≡ false) where
  abbrev t : SbInfo
  t = insert_branch sb add br b

  abbrev hi : HInode
  hi = record (add.inode) { hi_id = br.br_id }

  t-branch : (j : ℕ) → j ≤ sb.nbranch → b ≢ j → t.si_branch j ≡ sb.si_branch (from b j)
  unfolding insert_branch
  t-branch j = inserted_other sb.si_branch b sb.nbranch (some br) j inside

  t-dentry : (j : ℕ) → j ≤ sb.nbranch → b ≢ j → t.root.hdentry j ≡ sb.root.hdentry (from b j)
  unfolding insert_branch
  t-dentry j = inserted_other sb.root.hdentry b sb.nbranch (some (add.dentry)) j inside

  t-inode :
      (j : ℕ) → j ≤ sb.nbranch → b ≢ j → t.root_inode.hinode j ≡ sb.root_inode.hinode (from b j)
  unfolding insert_branch
  t-inode j = inserted_other sb.root_inode.hinode b sb.nbranch (some hi) j inside

  b-branch : t.si_branch b ≡ some br
  unfolding insert_branch
  b-branch = inserted_self sb.si_branch b sb.nbranch (some br) inside

  b-dentry : t.root.hdentry b ≡ some (add.dentry)
  unfolding insert_branch
  b-dentry = inserted_self sb.root.hdentry b sb.nbranch (some (add.dentry)) inside

  b-inode : t.root_inode.hinode b ≡ some hi
  unfolding insert_branch
  b-inode = inserted_self sb.root_inode.hinode b sb.nbranch (some hi) inside

  t-nbranch : t.nbranch ≡ sb.nbranch + 1
  unfolding insert_branch
  t-nbranch = refl

  t_here :
      (j : ℕ)
      → j < t.nbranch
      → matches (t.si_branch j) (t.root.hdentry j) (t.root_inode.hinode j) ≡ true
  t_here j l = elim (Bool-cases (b == j)) [
    | inl e ↦
        let same : b ≡ j = ground arith in
        subst (λ k. matches (t.si_branch k) (t.root.hdentry k) (t.root_inode.hinode k) ≡ true) same
          (rw (b-branch, b-dentry, b-inode) (ground (arith, fresh.nonzero)))
    | inr e ↦
        let small : j ≤ sb.nbranch = omega (arith, t-nbranch) in
        let ne : b ≢ j = ground arith in
        rw (t-branch j small ne, t-dentry j small ne, t-inode j small ne)
          (v.here (from b j) (ground arith))
  ]

  t_gone :
      (j : ℕ)
      → t.nbranch ≤ j
      → is_gone (t.si_branch j) (t.root.hdentry j) (t.root_inode.hinode j) ≡ true
  unfolding insert_branch
  t_gone j l =
      let n = sb.nbranch in
      let a : n < j = omega arith in
      rw
        (
          inserted_beyond sb.si_branch b n (some br) j inside a,
          inserted_beyond sb.root.hdentry b n (some (add.dentry)) j inside a,
          inserted_beyond sb.root_inode.hinode b n (some hi) j inside a,
        )
        (v.gone j (omega arith))

  t_distinct :
      (i j : ℕ)
      → i < t.nbranch
      → j < t.nbranch
      → id_of (t.si_branch i) ≡ id_of (t.si_branch j)
      → i ≡ j
  unfolding insert_branch
  t_distinct i j li lj =
      let other : (i : ℕ) → i < sb.nbranch → id_of (sb.si_branch i) ≢ br.br_id =
        λ i l. id_unused w sb br.br_id fresh i l (v.here i l) in
      inserted_unique (λ a b. id_of a ≡ id_of b) sb.si_branch b sb.nbranch (some br) inside
        v.distinct other (λ i l e. other i l (sym e)) i j (omega arith) (omega arith)

  t_own :
      (i j : ℕ)
      → i < t.nbranch
      → j < t.nbranch
      → same_dentry (t.root.hdentry i) (t.root.hdentry j) ≡ true
      → i ≡ j
  unfolding insert_branch
  t_own i j li lj =
      inserted_unique (λ a b. same_dentry a b ≡ true) sb.root.hdentry b sb.nbranch
        (some (add.dentry)) inside v.own (λ i l e. ground (arith, new i l))
        (λ i l e. ground (arith, new i l, same_dentry_comm (sb.root.hdentry i) (some (add.dentry))))
        i j (omega arith) (omega arith)

  t_size : t.maxbytes ≡ largest t.si_branch t.nbranch
  unfolding insert_branch
  t_size =
      let n = sb.nbranch in
      let g = update (memmove_up sb.si_branch b n) b (some br) in
      let old : (j : ℕ) → j ≤ n → b ≢ j → g j ≡ sb.si_branch (from b j) =
        λ j. inserted_other sb.si_branch b n (some br) j inside in
      let big =
        largest_inserted sb.si_branch g b n n inside (omega arith)
          (λ j l a. old j l (omega arith) ∙ ap sb.si_branch (ground arith))
          (λ j l a. old j l (omega arith) ∙ ap sb.si_branch (ground arith)) in
      let last : bytes (g b) ≡ br.s_maxbytes =
        ap bytes (inserted_self sb.si_branch b n (some br) inside) in
      let count : largest g (n + 1) ≡ largest g (suc n) = ap (largest g) (omega arith) in
      omega (arith, big, last, count, v.size, bytes_eq)

  pub insert_branch-IsBranches : IsBranches branch_max t
  unfolding insert_branch next_end
  insert_branch-IsBranches = record {
    here = t_here;
    gone = t_gone;
    distinct = t_distinct;
    own = t_own;
    root_bstart = ground (arith, v.root_bstart);
    root_bend = ground (arith, v.root_bend);
    inode_bstart = ground (arith, v.inode_bstart);
    inode_bend = ground (arith, v.inode_bend);
    few = omega arith;
    size = t_size;
  }

  pub insert_branch-IsInserted : add.bindex ≡ some b → br.br_perm ≡ add.perm → IsInserted w sb add t
  unfolding insert_branch
  insert_branch-IsInserted e p = record {
    place = b;
    br = br;
    asked = e;
    inside = inside;
    fresh = fresh;
    perm = p;
    branch = b-branch;
    dentry = b-dentry;
    inode = b-inode;
    more = refl;
    old_branch = λ i l. inserted_moved sb.si_branch b sb.nbranch (some br) i inside l;
    old_dentry = λ i l. inserted_moved sb.root.hdentry b sb.nbranch (some (add.dentry)) i inside l;
    old_inode = λ i l. inserted_moved sb.root_inode.hinode b sb.nbranch (some hi) i inside l;
  }
