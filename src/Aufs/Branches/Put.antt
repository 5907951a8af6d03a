-- ===== src/Aufs/Branches/Put.antt =====
-- A branch's own fields change (aufs/fs/aufs/branch.c): the branches stay well-formed.
use kernel_patches.Base.{
  ℕ, zero, suc, ◌≡◌, ◌≢◌, inl, inr, refl, ap, sym, ◌∙◌, Option, some, eq-cases, update, update_self,
  update_ne, arith,
}
use kernel_patches.Aufs.Branches.{BrInfo, SbInfo, put_branch, largest}
use kernel_patches.Aufs.Branches.Valid.{IsBranches, matches, is_gone, id_of}
use kernel_patches.Aufs.Branches.Sizes.{bytes, largest-suc}

module _ (f : ℕ → Option BrInfo) (b : ℕ) (old br : BrInfo) (there : f b ≡ some old) where
  put_other : (j : ℕ) → b ≢ j → update f b (some br) j ≡ f j
  put_other j ne = update_ne f b (some br) j (ground arith)

  -- What does not tell the old from the new.
  put_same :
      {A : Type 0} (g : Option BrInfo → A) (j : ℕ)
      → g (some br) ≡ g (some old)
      → g (update f b (some br) j) ≡ g (f j)
  put_same g j e = elim (eq-cases b j) [
    | inl same ↦
        ap (λ k. g (update f b (some br) k)) (sym same)
        ∙ ap g (update_self f b (some br))
        ∙ e
        ∙ ap g (sym there)
        ∙ ap (λ k. g (f k)) same
    | inr ne ↦ ap g (put_other j ne)
  ]

  largest_put :
      (n : ℕ) → br.s_maxbytes ≡ old.s_maxbytes → largest (update f b (some br)) n ≡ largest f n
  unfolding largest
  largest_put zero e = refl
  largest_put (suc n) e =
      let here : bytes (update f b (some br) n) ≡ bytes (f n) = put_same bytes n e in
      omega (arith, largest_put n e, here, largest-suc f n, largest-suc (update f b (some br)) n)

pub put_branch-IsBranches :
    (branch_max : ℕ) (sb : SbInfo) (b : ℕ) (old br : BrInfo)
    → IsBranches branch_max sb
    → sb.si_branch b ≡ some old
    → br.br_id ≡ old.br_id
    → br.s_maxbytes ≡ old.s_maxbytes
    → IsBranches branch_max (put_branch sb b br)
put_branch-IsBranches branch_max sb b old br v there id bytes_eq =
    let f = sb.si_branch in
    record {
      here = λ i l.
          put_same f b old br there (λ x. matches x (sb.root.hdentry i) (sb.root_inode.hinode i)) i
            (ground arith)
          ∙ v.here i l;
      gone = λ i l.
          put_same f b old br there (λ x. is_gone x (sb.root.hdentry i) (sb.root_inode.hinode i)) i
            (ground arith)
          ∙ v.gone i l;
      distinct = λ i j li lj e.
          v.distinct i j li lj
            (sym (put_same f b old br there id_of i id) ∙ e ∙ put_same f b old br there id_of j id);
      own = v.own;
      root_bstart = v.root_bstart;
      root_bend = v.root_bend;
      inode_bstart = v.inode_bstart;
      inode_bend = v.inode_bend;
      few = v.few;
      size = v.size ∙ sym (largest_put f b old br there sb.nbranch bytes_eq);
    }
