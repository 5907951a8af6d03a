-- ===== src/Aufs/Opts/Apply.antt =====
-- aufs/fs/aufs/opts.c: the options for branches, and au_opts_mount up to the test that there is a branch.
use kernel_patches.Base.{
  ℕ, Bool, true, false, ◌||◌, Option, none, some, List, [], ◌∷◌, ◌==◌, if◌then◌else◌,
}
use kernel_patches.Aufs.Branches.{Error, einval}
use kernel_patches.Aufs.Branches.Add.{AddBranch, au_br_add}
use kernel_patches.Aufs.Branches.Delete.{au_br_del}
use kernel_patches.Aufs.Branches.Change.{au_br_whable, au_br_mod}
use kernel_patches.Aufs.Opts.{
  DelBranch, ModBranch, bit_xino, bit_udba_reval, bit_dlgt, in_mask_udba, Opt, Mount, Handled,
  set_bit, choose, opt_append, opt_prepend, opt_add, opt_del, opt_idel, opt_mod, opt_imod,
  processed, unprocessed, failed,
}
use kernel_patches.Aufs.Opts.Simple.{simple_loop}

module _ (branch_max w : ℕ) where
  -- A branch is added at its index; `none` is out of fuel.
  unfoldable pub opt_add_at : AddBranch → Mount → Option (Handled × Mount)
  opt_add_at add m = elim (au_br_add branch_max w m.sb add m.remount) [
    | none ↦ none
    | some (some e, sb) ↦ some (failed e, record m { sb = sb })
    | some (none, sb) ↦ some (
      processed,
      record m {
        sb = sb;
        refresh_dir = true;
        refresh_nondir = m.refresh_nondir || au_br_whable add.perm;
      },
    )
  ]

  unfoldable pub opt_delete : DelBranch → Mount → Handled × Mount
  opt_delete del m =
      let (err, sb) = au_br_del m.sb del.h_root m.remount del.busy del.rewh in
      elim err [
        | some e ↦ (failed e, record m { sb = sb })
        | none ↦ (
          processed,
          record m { sb = sb; trunc_xib = true; refresh_dir = true; refresh_nondir = true },
        )
      ]

  unfoldable pub opt_modify : ModBranch → Mount → Handled × Mount
  opt_modify mod_br m =
      let (err, do_refresh, sb) =
        au_br_mod m.sb mod_br.h_root mod_br.perm mod_br.is_rdonly m.remount mod_br.do_refresh
          mod_br.alloc mod_br.init_wh mod_br.files_ro in
      elim err [
        | some e ↦ (failed e, record m { sb = sb })
        | none ↦ (
          processed,
          record m {
            sb = sb;
            refresh_dir = m.refresh_dir || do_refresh;
            refresh_nondir = m.refresh_nondir || do_refresh;
          },
        )
      ]

  unfoldable pub au_opt_br : Opt → Mount → Option (Handled × Mount)
  unfolding opt_add_at opt_delete opt_modify
  au_opt_br (opt_append add) m = opt_add_at (record add { bindex = some m.sb.nbranch }) m
  au_opt_br (opt_prepend add) m = opt_add_at (record add { bindex = some 0 }) m
  au_opt_br (opt_add add) m = opt_add_at add m
  au_opt_br (opt_del del) m = some (opt_delete del m)
  au_opt_br (opt_idel del) m = some (opt_delete del m)
  au_opt_br (opt_mod mod_br) m = some (opt_modify mod_br m)
  au_opt_br (opt_imod mod_br) m = some (opt_modify mod_br m)
  au_opt_br _ m = some (unprocessed, m)

  -- The loop of au_opts_mount over the options for branches.
  unfoldable pub br_loop : List Opt → Mount → Option (Option Error × Mount)
  unfolding au_opt_br
  br_loop [] m = some (none, m)
  br_loop (opt ∷ opts) m = elim (au_opt_br opt m) [
    | none ↦ none
    | some (h, m1) ↦
        let rest = br_loop opts m1 in elim h [ failed e ↦ some (some e, m1) | _ ↦ rest ]
  ]

  -- au_opts_mount up to the test for branches: the simple options, then, with xino, dlgt and inotify
  -- off, those for branches. The flags as the simple options left them are the `tmp` of the source.
  unfoldable pub mount_branches :
      (hz : ℕ) → List Opt → Mount → Option (Option Error × (ℕ → Bool) × Mount)
  unfolding simple_loop br_loop
  mount_branches hz opts m =
      let (err, m1) = simple_loop hz opts m in
      let off = set_bit (set_bit m1 bit_xino false) bit_dlgt false in
      let reval = record off { si_mntflags = choose off.si_mntflags in_mask_udba bit_udba_reval } in
      elim err [
        | some e ↦ some (some e, m1.si_mntflags, m1)
        | none ↦ elim (br_loop opts reval) [
          | none ↦ none
          | some (some e, m2) ↦ some (some e, m1.si_mntflags, m2)
          | some (none, m2) ↦
              if m2.sb.nbranch == 0
              then some (some einval, m1.si_mntflags, m2)
              else some (none, m1.si_mntflags, m2)
        ]
      ]
