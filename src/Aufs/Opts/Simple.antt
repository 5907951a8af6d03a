-- ===== src/Aufs/Opts/Simple.antt =====
-- aufs/fs/aufs/opts.c: the options that au_opt_simple handles.
use kernel_patches.Base.{ℕ, ◌*◌, true, false, Option, none, some, List, [], ◌∷◌, update}
use kernel_patches.Aufs.{SuperBlock}
use kernel_patches.Aufs.Branches.{Error}
use kernel_patches.Aufs.WbrPolicy.{tdp, round_robin_policy, mfsrr, mfsrrv, wbr_create_init}
use kernel_patches.Aufs.Opts.{
  CreateOpt, bit_trunc_xino, bit_shwh, bit_plink, bit_warn_perm, bit_dirperm1, bit_dlgt,
  bit_always_diropq, bit_refrof, bit_verbose, bit_sum, bit_sum_w, udba_bit, coo_bit, in_mask_udba,
  in_mask_coo, Opt, Mount, Handled, set_bit, choose, opt_udba, opt_plink, opt_noplink,
  opt_list_plink, opt_clean_plink, opt_diropq_a, opt_diropq_w, opt_dlgt, opt_nodlgt, opt_warn_perm,
  opt_nowarn_perm, opt_refrof, opt_norefrof, opt_verbose, opt_noverbose, opt_sum, opt_wsum,
  opt_nosum, opt_wbr_create, opt_wbr_copyup, opt_coo, opt_dirwh, opt_rdcache, opt_trunc_xino,
  opt_notrunc_xino, opt_dirperm1, opt_nodirperm1, opt_shwh, opt_noshwh, opt_trunc_xino_path,
  opt_itrunc_xino, opt_trunc_xib, opt_notrunc_xib, processed, unprocessed, failed,
}

-- mfsrr_watermark and mfs_expire of the new policy.
unfoldable pub set_mfs : (hz : ℕ) → CreateOpt → SuperBlock → SuperBlock
set_mfs hz create wbr =
    let second = record (wbr.mfs) { expire = create.mfs_second * hz } in
    let both = record second { rr_watermark = create.mfsrr_watermark } in
    elim (create.wbr_create) [
      | tdp ↦ wbr
      | round_robin_policy ↦ wbr
      | mfsrr ↦ record wbr { mfs = both }
      | mfsrrv ↦ record wbr { mfs = both }
      | _ ↦ record wbr { mfs = second }
    ]

-- The error of `fin` does not keep the policy from being set.
unfoldable pub set_wbr_create : (hz : ℕ) → CreateOpt → Mount → Handled × Mount
unfolding set_mfs
set_wbr_create hz create m =
    let set = record m {
      si_wbr_create = create.wbr_create;
      wbr = wbr_create_init create.wbr_create (set_mfs hz create m.wbr);
    } in
    elim (create.fin) [ none ↦ (processed, set) | some e ↦ (failed e, set) ]

abbrev pub handled : Option Error → Handled
handled none = processed
handled (some e) = failed e

-- Releasing and listing the pseudo links is not modelled.
unfoldable pub au_opt_simple : (hz : ℕ) → Opt → Mount → Handled × Mount
unfolding choose set_wbr_create
au_opt_simple hz (opt_udba u) m = (
  processed,
  record m {
    si_mntflags = choose m.si_mntflags in_mask_udba (udba_bit u);
    given_udba = update m.given_udba (udba_bit u) true;
  },
)
au_opt_simple hz opt_plink m = (processed, set_bit m bit_plink true)
au_opt_simple hz opt_noplink m = (processed, set_bit m bit_plink false)
au_opt_simple hz opt_list_plink m = (processed, m)
au_opt_simple hz opt_clean_plink m = (processed, m)
au_opt_simple hz opt_diropq_a m = (processed, set_bit m bit_always_diropq true)
au_opt_simple hz opt_diropq_w m = (processed, set_bit m bit_always_diropq false)
au_opt_simple hz opt_dlgt m = (processed, set_bit m bit_dlgt true)
au_opt_simple hz opt_nodlgt m = (processed, set_bit m bit_dlgt false)
au_opt_simple hz opt_warn_perm m = (processed, set_bit m bit_warn_perm true)
au_opt_simple hz opt_nowarn_perm m = (processed, set_bit m bit_warn_perm false)
au_opt_simple hz opt_refrof m = (processed, set_bit m bit_refrof true)
au_opt_simple hz opt_norefrof m = (processed, set_bit m bit_refrof false)
au_opt_simple hz opt_verbose m = (processed, set_bit m bit_verbose true)
au_opt_simple hz opt_noverbose m = (processed, set_bit m bit_verbose false)
au_opt_simple hz opt_sum m = (processed, set_bit m bit_sum true)
-- There is no `break`: the case of nosum follows.
au_opt_simple hz opt_wsum m = (
  processed,
  set_bit (set_bit (set_bit (set_bit m bit_sum false) bit_sum_w true) bit_sum false) bit_sum_w
      false,
)
au_opt_simple hz opt_nosum m = (processed, set_bit (set_bit m bit_sum false) bit_sum_w false)
au_opt_simple hz (opt_wbr_create create) m = set_wbr_create hz create m
au_opt_simple hz (opt_wbr_copyup policy) m = (processed, record m { si_wbr_copyup = policy })
au_opt_simple hz (opt_coo c) m =
    (processed, record m { si_mntflags = choose m.si_mntflags in_mask_coo (coo_bit c) })
au_opt_simple hz (opt_dirwh n) m = (processed, record m { si_dirwh = n })
au_opt_simple hz (opt_rdcache n) m = (processed, record m { si_rdcache = n * hz })
au_opt_simple hz opt_trunc_xino m = (processed, set_bit m bit_trunc_xino true)
au_opt_simple hz opt_notrunc_xino m = (processed, set_bit m bit_trunc_xino false)
au_opt_simple hz opt_dirperm1 m = (processed, set_bit m bit_dirperm1 true)
au_opt_simple hz opt_nodirperm1 m = (processed, set_bit m bit_dirperm1 false)
au_opt_simple hz opt_shwh m = (processed, set_bit m bit_shwh true)
au_opt_simple hz opt_noshwh m = (processed, set_bit m bit_shwh false)
au_opt_simple hz (opt_trunc_xino_path r) m = (handled r, m)
au_opt_simple hz (opt_itrunc_xino r) m = (handled r, m)
au_opt_simple hz opt_trunc_xib m = (processed, record m { trunc_xib = true })
au_opt_simple hz opt_notrunc_xib m = (processed, record m { trunc_xib = false })
au_opt_simple hz _ m = (unprocessed, m)

-- The loop of au_opts_mount over the simple options, and its error.
unfoldable pub simple_loop : (hz : ℕ) → List Opt → Mount → Option Error × Mount
unfolding au_opt_simple
simple_loop hz [] m = (none, m)
simple_loop hz (opt ∷ opts) m =
    let r = au_opt_simple hz opt m in
    let rest = simple_loop hz opts r.1 in elim (r.0) [ failed e ↦ (some e, r.1) | _ ↦ rest ]
