-- ===== src/Aufs/Branches/Lookup.antt =====
-- au_find_dbindex on the root of a well-formed super block (aufs/fs/aufs/branch.c).
use kernel_patches.Base.{
  ℕ, ◌+◌, ◌-◌, ◌<◌, ◌≡◌, ◌⊎◌, inl, inr, ap, sym, subst, ◌∙◌, Bool, true, false, Option, none, some,
  first_up, first_up_lem, IsLowest, eq-cases, Option-cases, arith,
}
use kernel_patches.Aufs.{HDentry, DInfo}
use kernel_patches.Aufs.Dinfo.{au_h_dptr, same_dentry, au_find_dbindex}
use kernel_patches.Aufs.Branches.{BrInfo, SbInfo}
use kernel_patches.Aufs.Branches.Valid.{IsBranches}

-- A search over a range.
find_lem :
    (d : DInfo) (h : Option HDentry) (s e : ℕ)
    → d.bstart ≡ some s
    → d.bend ≡ some e
    → au_find_dbindex d h ≡ first_up (λ i. same_dentry (au_h_dptr d i) h) (e + 1 - s) s
unfolding au_find_dbindex
find_lem d h s e hs he = ground arith

dptr_from_zero : (d : DInfo) (i : ℕ) → d.bstart ≡ some 0 → au_h_dptr d i ≡ d.hdentry i
unfolding au_h_dptr
dptr_from_zero d i hs = ground arith

-- A dentry that au_find_dbindex does not find is no root's hidden dentry.
pub not_found :
    (branch_max : ℕ) (sb : SbInfo) (h : HDentry)
    → IsBranches branch_max sb
    → (sb.nbranch ≡ 0) ⊎ (au_find_dbindex sb.root (some h) ≡ none)
    → (i : ℕ) → i < sb.nbranch
    → same_dentry (sb.root.hdentry i) (some h) ≡ false
not_found branch_max sb h v (inl z) i l = absurd (omega arith)
not_found branch_max sb h v (inr e) i l =
    let n = sb.nbranch in
    let p : ℕ → Bool = λ j. same_dentry (au_h_dptr sb.root j) (some h) in
    let s : sb.root.bstart ≡ some 0 = ground (arith, v.root_bstart) in
    let t : sb.root.bend ≡ some (n - 1) = ground (arith, v.root_bend) in
    let none_here = sym (find_lem sb.root (some h) 0 (n - 1) s t) ∙ e in
    let low : IsLowest p 0 n none =
      subst (IsLowest p 0 n) none_here (first_up_lem p (n - 1 + 1 - 0) 0 n (omega arith)) in
    ap (λ x. same_dentry x (some h)) (sym (dptr_from_zero sb.root i s)) ∙ low i (omega arith) l

-- A dentry that it finds is that of the branch.
pub found :
    (branch_max : ℕ) (sb : SbInfo) (h : HDentry) (b : ℕ)
    → IsBranches branch_max sb
    → au_find_dbindex sb.root (some h) ≡ some b
    → (b < sb.nbranch) × (same_dentry (sb.root.hdentry b) (some h) ≡ true)
unfolding au_find_dbindex
found branch_max sb h b v e = elim (eq-cases sb.nbranch 0) [
  | inl z ↦ absurd (ground (arith, v.root_bstart))
  | inr ne ↦
      let n = sb.nbranch in
      let p : ℕ → Bool = λ j. same_dentry (au_h_dptr sb.root j) (some h) in
      let s : sb.root.bstart ≡ some 0 = ground (arith, v.root_bstart) in
      let t : sb.root.bend ≡ some (n - 1) = ground (arith, v.root_bend) in
      let here = sym (find_lem sb.root (some h) 0 (n - 1) s t) ∙ e in
      let low : IsLowest p 0 n (some b) =
        subst (IsLowest p 0 n) here (first_up_lem p (n - 1 + 1 - 0) 0 n (omega arith)) in
      (low.1, ap (λ x. same_dentry x (some h)) (sym (dptr_from_zero sb.root b s)) ∙ low.2)
]

-- A branch that is there.
pub branch_here :
    (branch_max : ℕ) (sb : SbInfo) (b : ℕ)
    → IsBranches branch_max sb
    → b < sb.nbranch
    → (br : BrInfo) × (sb.si_branch b ≡ some br)
branch_here branch_max sb b v l = elim (Option-cases (sb.si_branch b)) [
  | inl e ↦ absurd (ground (arith, v.here b l))
  | inr r ↦ r
]
