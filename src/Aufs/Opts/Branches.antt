-- ===== src/Aufs/Opts/Branches.antt =====
-- The options for branches and au_opts_mount's two loops (aufs/fs/aufs/opts.c).
use kernel_patches.Base.{
  ℕ, ◌+◌, ◌^◌, ◌<◌, ◌≡◌, ◌≢◌, ◌⊎◌, inl, inr, refl, sym, subst, ◌∙◌, Bool, true, false, ◌||◌, Option,
  none, some, List, [], ◌∷◌, ◌==◌, Bool-cases, Option-cases, update, arith,
}
use kernel_patches.Aufs.Branches.{SbInfo, Error, einval}
use kernel_patches.Aufs.Branches.Valid.{IsBranches}
use kernel_patches.Aufs.Branches.Add.{AddBranch, au_br_add}
use kernel_patches.Aufs.Branches.Add.Result.{au_br_add_lem}
use kernel_patches.Aufs.Branches.Delete.{au_br_del}
use kernel_patches.Aufs.Branches.Delete.Result.{au_br_del_lem}
use kernel_patches.Aufs.Branches.Change.{au_br_whable, au_br_mod}
use kernel_patches.Aufs.Branches.Change.Keep.{au_br_mod-IsBranches}
use kernel_patches.Aufs.Opts.{
  DelBranch, ModBranch, Opt, Udba, Coo, udba_reval, Mount, Handled, processed, unprocessed, failed,
  opt_append, opt_prepend, opt_add, opt_del, opt_idel, opt_mod, opt_imod, set_bit, choose,
  in_mask_udba, bit_xino, bit_dlgt, bit_udba_reval,
}
use kernel_patches.Aufs.Opts.Apply.{
  opt_add_at, opt_delete, opt_modify, au_opt_br, br_loop, mount_branches,
}
use kernel_patches.Aufs.Opts.Simple.{simple_loop}
use kernel_patches.Aufs.Opts.Flags.{
  IsChosen, last_udba, last_coo, Handled-cases, simple_loop-sb, simple_loop-IsChosen,
}

module _ (branch_max w : ℕ) (room : branch_max + 1 < 2 ^ w) where
  -- The branches stay well-formed, and the flags as they were.
  abbrev Keeps : (m t : Mount) → Type 0
  Keeps m t = IsBranches branch_max t.sb × (t.si_mntflags ≡ m.si_mntflags)

  add_result :
      (add : AddBranch) (m : Mount) (r : Option Error × SbInfo)
      → au_br_add branch_max w m.sb add m.remount ≡ some r
      → IsBranches branch_max r.1
      → (q : Handled × Mount) × (opt_add_at branch_max w add m ≡ some q) × Keeps m q.1
  unfolding opt_add_at
  add_result add m (none, t) e v = (
    (
      processed,
      record m {
        sb = t;
        refresh_dir = true;
        refresh_nondir = m.refresh_nondir || au_br_whable add.perm;
      },
    ),
    rw (opt_add_at, e) refl,
    (v, refl),
  )
  add_result add m (some f, t) e v =
      ((failed f, record m { sb = t }), rw (opt_add_at, e) refl, (v, refl))

  opt_add_at-Keeps :
      (add : AddBranch) (m : Mount)
      → IsBranches branch_max m.sb
      → (r : Handled × Mount) × (opt_add_at branch_max w add m ≡ some r) × Keeps m r.1
  opt_add_at-Keeps add m v =
      let (r, e, c) = au_br_add_lem branch_max w m.sb add m.remount v (omega (arith, v.few)) in
      add_result add m r e c.valid

  opt_delete-Keeps :
      (del : DelBranch) (m : Mount)
      → IsBranches branch_max m.sb
      → Keeps m (opt_delete branch_max w del m).1
  unfolding opt_delete
  opt_delete-Keeps del m v =
      let c = au_br_del_lem branch_max m.sb del.h_root m.remount del.busy del.rewh v in
      elim (Option-cases (au_br_del m.sb del.h_root m.remount del.busy del.rewh).0) [
        | inl k ↦ rw (opt_delete, k) (c.valid, refl)
        | inr (f, k) ↦ rw (opt_delete, k) (c.valid, refl)
      ]

  opt_modify-Keeps :
      (mod_br : ModBranch) (m : Mount)
      → IsBranches branch_max m.sb
      → Keeps m (opt_modify branch_max w mod_br m).1
  unfolding opt_modify
  opt_modify-Keeps mod_br m v =
      let c =
        au_br_mod-IsBranches branch_max m.sb mod_br.h_root mod_br.perm mod_br.is_rdonly m.remount
          mod_br.do_refresh mod_br.alloc mod_br.init_wh mod_br.files_ro v in
      elim (Option-cases
        (au_br_mod m.sb mod_br.h_root mod_br.perm mod_br.is_rdonly m.remount mod_br.do_refresh
          mod_br.alloc mod_br.init_wh mod_br.files_ro).0) [
            | inl k ↦ rw (opt_modify, k) (c, refl)
            | inr (f, k) ↦ rw (opt_modify, k) (c, refl)
          ]

  au_opt_br-Keeps :
      (opt : Opt) (m : Mount)
      → IsBranches branch_max m.sb
      → (r : Handled × Mount) × (au_opt_br branch_max w opt m ≡ some r) × Keeps m r.1
  unfolding au_opt_br
  au_opt_br-Keeps (opt_append add) m v =
      opt_add_at-Keeps (record add { bindex = some m.sb.nbranch }) m v
  au_opt_br-Keeps (opt_prepend add) m v = opt_add_at-Keeps (record add { bindex = some 0 }) m v
  au_opt_br-Keeps (opt_add add) m v = opt_add_at-Keeps add m v
  au_opt_br-Keeps (opt_del del) m v =
      (opt_delete branch_max w del m, refl, opt_delete-Keeps del m v)
  au_opt_br-Keeps (opt_idel del) m v =
      (opt_delete branch_max w del m, refl, opt_delete-Keeps del m v)
  au_opt_br-Keeps (opt_mod mod_br) m v =
      (opt_modify branch_max w mod_br m, refl, opt_modify-Keeps mod_br m v)
  au_opt_br-Keeps (opt_imod mod_br) m v =
      (opt_modify branch_max w mod_br m, refl, opt_modify-Keeps mod_br m v)
  au_opt_br-Keeps _ m v = ((unprocessed, m), refl, (v, refl))

  br_loop-Keeps :
      (opts : List Opt) (m : Mount)
      → IsBranches branch_max m.sb
      → (r : Option Error × Mount) × (br_loop branch_max w opts m ≡ some r) × Keeps m r.1
  unfolding br_loop
  br_loop-Keeps [] m v = ((none, m), refl, (v, refl))
  br_loop-Keeps (opt ∷ opts) m v =
      let (r, e, (v1, same1)) = au_opt_br-Keeps opt m v in
      let (q, f, (v2, same2)) = br_loop-Keeps opts r.1 v1 in
      elim (Handled-cases r.0) [
        | inl (err, k) ↦ ((some err, r.1), rw (br_loop, e, k) refl, (v1, same1))
        | inr (inl k) ↦ (q, rw (br_loop, e, k) f, (v2, same2 ∙ same1))
        | inr (inr k) ↦ (q, rw (br_loop, e, k) f, (v2, same2 ∙ same1))
      ]

failure : (e : Error) → some e ≢ none
failure e q = ground arith

-- The flags while the options for branches are worked on.
reval-IsChosen :
    (m : Mount) (u : Udba) (c : Coo)
    → IsChosen u c m.si_mntflags
    → let off = set_bit (set_bit m bit_xino false) bit_dlgt false in
      IsChosen udba_reval c (choose off.si_mntflags in_mask_udba bit_udba_reval)
unfolding choose update
reval-IsChosen m u c v = record {
  udba = λ b e. ground (arith, v.udba b e);
  coo = λ b e. ground (arith, v.coo b e);
  sum_w = ground (arith, v.sum_w);
}

-- For a maximum of branches that leaves an id of `w` bits over, well-formed branches, and flags in which
-- one UDBA and one COO flag is set and SUM_W is not: with whatever options, au_opts_mount comes to the
-- test that there is a branch, or to an error before it, and the branches are well-formed. Without an
-- error there is a branch, and of the flags kept for the end of au_opts_mount exactly one UDBA and one
-- COO flag is set, that of the last option for it or the old one; in the super block the UDBA flag
-- is UDBA_REVAL then. SUM_W is not set in either, whether or not the option wsum is given.
pub mount_branches_lem :
    (branch_max w hz : ℕ) (opts : List Opt) (m : Mount) (u : Udba) (c : Coo)
    → branch_max + 1 < 2 ^ w
    → IsBranches branch_max m.sb
    → IsChosen u c m.si_mntflags
    → (r : Option Error × (ℕ → Bool) × Mount) × (mount_branches branch_max w hz opts m ≡ some r)
      × IsBranches branch_max r.2.sb
      × ((r.0 ≢ none)
          ⊎ ((0 < r.2.sb.nbranch)
              × IsChosen (last_udba opts u) (last_coo opts c) r.1
              × IsChosen udba_reval (last_coo opts c) r.2.si_mntflags))
unfolding mount_branches
mount_branches_lem branch_max w hz opts m u c room v flags =
    let s = simple_loop hz opts m in
    let m1 = s.1 in
    let off = set_bit (set_bit m1 bit_xino false) bit_dlgt false in
    let reval = record off { si_mntflags = choose off.si_mntflags in_mask_udba bit_udba_reval } in
    let v1 = subst (IsBranches branch_max) (sym (simple_loop-sb hz opts m)) v in
    elim (Option-cases s.0) [
      | inr (e, k) ↦
          ((some e, m1.si_mntflags, m1), rw (mount_branches, k) refl, v1, inl (failure e))
      | inl k ↦
          let chosen = simple_loop-IsChosen hz opts u c m flags k in
          let (q, f, (v2, same)) = br_loop-Keeps branch_max w room opts reval v1 in
          elim (Option-cases q.0) [
            | inr (e, n) ↦ (
              (some e, m1.si_mntflags, q.1),
              rw (mount_branches, k, f, n) refl,
              v2,
              inl (failure e),
            )
            | inl n ↦ elim (Bool-cases (q.1.sb.nbranch == 0)) [
              | inl z ↦ (
                (some einval, m1.si_mntflags, q.1),
                rw (mount_branches, k, f, n, z) refl,
                v2,
                inl (failure einval),
              )
              | inr z ↦ (
                (none, m1.si_mntflags, q.1),
                rw (mount_branches, k, f, n, z) refl,
                v2,
                inr (
                  ground arith,
                  chosen,
                  subst (IsChosen udba_reval (last_coo opts c)) (sym same)
                      (reval-IsChosen m1 (last_udba opts u) (last_coo opts c) chosen),
                ),
              )
            ]
          ]
    ]
