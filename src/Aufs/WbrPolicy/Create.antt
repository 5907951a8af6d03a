-- ===== src/Aufs/WbrPolicy/Create.antt =====
-- All policies: what they choose may be written.
use kernel_patches.Base.{
  ℕ, zero, suc, ◌+◌, ◌-◌, ◌≡◌, inl, inr, subst, ◌∙◌, Bool, true, ◌&&◌, some, Option-cases,
  if◌then◌else◌, ltb, first_up-true, first_down-true, first_up, arith,
}
use kernel_patches.Aufs.{SuperBlock, DInfo}
use kernel_patches.Aufs.Dinfo.{au_dbtaildir}
use kernel_patches.Aufs.WbrPolicy.{
  Kernel, writable, au_wbr_bu, usable_parent, tdp_parent, au_wbr_create_tdp, au_mfs,
  au_wbr_create_exp, round_robin, au_wbr_create_rr, mfs_stale, refresh_mfs, au_wbr_create_mfs,
  au_wbr_create_mfsrr, pmfs_loop, pmfs_best, au_wbr_create_pmfs, bup_parent, au_wbr_copyup_tdp,
  au_wbr_copyup_bup, au_wbr_copyup_bu, CreatePolicy, CopyupPolicy, wbr_create, wbr_copyup, tdp,
  round_robin_policy, mfs, mfsv, mfsrr, mfsrrv, pmfs, pmfsv, copyup_tdp, copyup_bup, copyup_bu,
}
use kernel_patches.Aufs.WbrPolicy.Select.{usable-writable}
use kernel_patches.Aufs.WbrPolicy.RoundRobin.{rr_loop-writable}
use kernel_patches.Aufs.WbrPolicy.FreeSpace.{au_mfs_lem, IsBest}

bu-writable : (sb : SuperBlock) (n i : ℕ) → au_wbr_bu sb n ≡ some i → writable sb i ≡ true
unfolding au_wbr_bu
bu-writable sb n i e = first_down-true (writable sb) n 0 i e

exp-writable :
    (sb : SuperBlock) (dentry parent : DInfo) (i : ℕ)
    → au_wbr_create_exp sb dentry parent ≡ some i
    → writable sb i ≡ true
unfolding au_wbr_create_exp
exp-writable sb dentry parent i e = ground arith

rr-writable :
    (sb : SuperBlock) (dentry parent : DInfo) (isdir : Bool) (i : ℕ)
    → (au_wbr_create_rr sb dentry parent isdir).0 ≡ some i
    → writable sb i ≡ true
unfolding au_wbr_create_rr round_robin
rr-writable sb dentry parent isdir i e =
    ground
      (arith, exp-writable sb dentry parent i, rr_loop-writable sb isdir (sb.bend + 1) sb.rr_next i)

module _ (k : Kernel) where
  tdp_parent-writable :
      (sb : SuperBlock) (parent : DInfo) (s i : ℕ)
      → tdp_parent k sb parent s ≡ some i
      → writable sb i ≡ true
  unfolding tdp_parent
  tdp_parent-writable sb parent s i e = elim (Option-cases parent.bstart) [
    | inl z ↦ ground arith
    | inr (lo, at_lo) ↦
        let f : first_up (usable_parent k sb parent) (s - lo) lo ≡ some i = ground arith in
        usable-writable k sb parent i (first_up-true (usable_parent k sb parent) (s - lo) lo i f)
  ]

  tdp-writable :
      (sb : SuperBlock) (dentry parent : DInfo) (i : ℕ)
      → au_wbr_create_tdp k sb dentry parent ≡ some i
      → writable sb i ≡ true
  unfolding au_wbr_create_tdp
  tdp-writable sb dentry parent i e = elim (Option-cases dentry.bstart) [
    | inl z ↦ ground arith
    | inr (s, at_s) ↦ ground (arith, at_s, tdp_parent-writable sb parent s i, bu-writable sb s i)
  ]

  refresh-writable : (sb : SuperBlock) (j : ℕ) → writable (refresh_mfs k sb) j ≡ writable sb j
  unfolding refresh_mfs
  refresh-writable sb j = ground (arith, (au_mfs_lem k sb).0 j)

  mfs_chosen : (sb : SuperBlock) (i : ℕ) → (au_mfs k sb).mfs.bindex ≡ some i → writable sb i ≡ true
  mfs_chosen sb i e =
      let b : IsBest k sb (sb.bend + 1) (some i) (au_mfs k sb).mfs.rr_bytes =
        subst (λ c. IsBest k sb (sb.bend + 1) c (au_mfs k sb).mfs.rr_bytes) e (au_mfs_lem k sb).1 in
      ground (arith, b.1)

  mfs-writable :
      (sb : SuperBlock) (dentry parent : DInfo) (i : ℕ)
      → (au_wbr_create_mfs k sb dentry parent).0 ≡ some i
      → writable sb i ≡ true
  unfolding au_wbr_create_mfs mfs_stale
  mfs-writable sb dentry parent i e =
      ground (arith, exp-writable sb dentry parent i, mfs_chosen sb i)

  mfs_same :
      (sb : SuperBlock) (dentry parent : DInfo) (j : ℕ)
      → writable (au_wbr_create_mfs k sb dentry parent).1 j ≡ writable sb j
  unfolding au_wbr_create_mfs
  mfs_same sb dentry parent j = ground (arith, refresh-writable sb j)

  mfsrr-writable :
      (sb : SuperBlock) (dentry parent : DInfo) (isdir : Bool) (i : ℕ)
      → (au_wbr_create_mfsrr k sb dentry parent isdir).0 ≡ some i
      → writable sb i ≡ true
  unfolding au_wbr_create_mfsrr
  mfsrr-writable sb dentry parent isdir i e = ground (
    arith,
    mfs-writable sb dentry parent i,
    mfs_same sb dentry parent i,
    rr-writable (au_wbr_create_mfs k sb dentry parent).1 dentry parent isdir i,
  )

  pmfs_loop-writable :
      (sb : SuperBlock) (parent : DInfo) (n bindex b err : ℕ)
      → writable sb err ≡ true
      → writable sb (pmfs_loop k sb parent n bindex b err) ≡ true
  unfolding pmfs_loop
  pmfs_loop-writable sb parent zero bindex b err w = w
  pmfs_loop-writable sb parent (suc n) bindex b err w =
      pmfs_loop-writable sb parent n (bindex + 1) _ _ better
    where
      better :
          writable sb (
            if usable_parent k sb parent bindex && ltb b (sb.branch bindex).wbr_bytes
            then bindex
            else err)
          ≡ true
      better = ground (arith, usable-writable k sb parent bindex, w)

  pmfs_best-writable :
      (sb : SuperBlock) (parent : DInfo) (err : ℕ)
      → writable sb err ≡ true
      → writable sb (pmfs_best k sb parent err) ≡ true
  unfolding pmfs_best
  pmfs_best-writable sb parent err w = elim (Option-cases parent.bstart) [
    | inl z ↦ ground arith
    | inr (lo, at_lo) ↦ elim (Option-cases (au_dbtaildir parent)) [
      | inl z ↦ ground arith
      | inr (hi, at_hi) ↦
          ground
            (arith, pmfs_loop-writable sb parent (hi + 1 - lo) lo (sb.branch err).wbr_bytes err w)
    ]
  ]

  pmfs-writable :
      (sb : SuperBlock) (dentry parent : DInfo) (i : ℕ)
      → (au_wbr_create_pmfs k sb dentry parent).0 ≡ some i
      → writable sb i ≡ true
  unfolding au_wbr_create_pmfs
  pmfs-writable sb dentry parent i e = elim (Option-cases (au_wbr_create_tdp k sb dentry parent)) [
    | inl z ↦ ground arith
    | inr (t, at_t) ↦
        let sb1 = (au_wbr_create_mfs k sb dentry parent).1 in
        let w : writable sb t ≡ true = tdp-writable sb dentry parent t at_t in
        let w1 : writable sb1 t ≡ true = mfs_same sb dentry parent t ∙ w in
        ground (arith, w, mfs_same sb dentry parent i, pmfs_best-writable sb1 parent t w1)
  ]

  bup-writable :
      (sb : SuperBlock) (dentry parent : DInfo) (i : ℕ)
      → au_wbr_copyup_bup k sb dentry parent ≡ some i
      → writable sb i ≡ true
  unfolding au_wbr_copyup_bup bup_parent
  bup-writable sb dentry parent i e = elim (Option-cases parent.bstart) [
    | inl z ↦ ground arith
    | inr (lo, at_lo) ↦ elim (Option-cases dentry.bstart) [
      | inl z ↦ ground (arith, bu-writable sb lo i)
      | inr (s, at_s) ↦ ground (
        arith,
        bu-writable sb lo i,
        first_down-true (usable_parent k sb parent) (s + 1 - lo) lo i,
        usable-writable k sb parent i,
      )
    ]
  ]

  -- Whatever branch any create policy chooses may be written.
  pub wbr_create-writable :
      (policy : CreatePolicy) (sb : SuperBlock) (dentry parent : DInfo) (isdir : Bool) (i : ℕ)
      → (wbr_create policy k sb dentry parent isdir).0 ≡ some i
      → writable sb i ≡ true
  unfolding wbr_create
  wbr_create-writable tdp sb dentry parent isdir i e = tdp-writable sb dentry parent i e
  wbr_create-writable round_robin_policy sb dentry parent isdir i e =
      rr-writable sb dentry parent isdir i e
  wbr_create-writable mfs sb dentry parent isdir i e = mfs-writable sb dentry parent i e
  wbr_create-writable mfsv sb dentry parent isdir i e = mfs-writable sb dentry parent i e
  wbr_create-writable mfsrr sb dentry parent isdir i e = mfsrr-writable sb dentry parent isdir i e
  wbr_create-writable mfsrrv sb dentry parent isdir i e = mfsrr-writable sb dentry parent isdir i e
  wbr_create-writable pmfs sb dentry parent isdir i e = pmfs-writable sb dentry parent i e
  wbr_create-writable pmfsv sb dentry parent isdir i e = pmfs-writable sb dentry parent i e

  -- Whatever branch any copyup policy chooses may be written.
  pub wbr_copyup-writable :
      (policy : CopyupPolicy) (sb : SuperBlock) (dentry parent : DInfo) (i : ℕ)
      → wbr_copyup policy k sb dentry parent ≡ some i
      → writable sb i ≡ true
  unfolding wbr_copyup au_wbr_copyup_tdp au_wbr_copyup_bu
  wbr_copyup-writable copyup_tdp sb dentry parent i e = tdp-writable sb dentry parent i e
  wbr_copyup-writable copyup_bup sb dentry parent i e = bup-writable sb dentry parent i e
  wbr_copyup-writable copyup_bu sb dentry parent i e = elim (Option-cases dentry.bstart) [
    | inl z ↦ ground arith
    | inr (s, at_s) ↦ ground (arith, bu-writable sb (s + 1) i)
  ]
