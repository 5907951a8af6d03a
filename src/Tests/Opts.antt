-- ===== src/Tests/Opts.antt =====
-- Options of a mount that has no branches yet.
use kernel_patches.Base.{
  ℕ, ◌<◌, ◌≡◌, ◌≢◌, ◌⊎◌, refl, Bool, true, false, Option, none, some, List, [], ◌∷◌, ◌==◌, ◌||◌,
  first_up, update, arith,
}
use kernel_patches.Aufs.{rw, au_br_writable}
use kernel_patches.Aufs.Dinfo.{au_find_dbindex}
use kernel_patches.Aufs.Branches.{SbInfo, Error, largest, au_new_br_id}
use kernel_patches.Aufs.Branches.Valid.{IsBranches}
use kernel_patches.Aufs.Branches.Add.{
  AddBranch, memmove_up, insert_branch, au_br_add, test_add, test_dir, test_br, overlapped,
  au_br_init, new_branch,
}
use kernel_patches.Aufs.WbrPolicy.{tdp, copyup_tdp}
use kernel_patches.Aufs.Opts.{
  Opt, Mount, coo_none, coo_all, udba_reval, udba_inotify, opt_udba, opt_wsum, opt_coo, opt_append,
}
use kernel_patches.Aufs.Opts.Apply.{mount_branches}
use kernel_patches.Aufs.Opts.Flags.{IsChosen, last_udba, last_coo}
use kernel_patches.Aufs.Opts.Branches.{mount_branches_lem}

abbrev no_branches : SbInfo
no_branches = record {
  si_branch = λ j. none;
  nbranch = 0;
  si_last_br_id = 0;
  si_generation = 0;
  root = record { bstart = none; bend = none; bwh = none; bdiropq = none; hdentry = λ j. none };
  root_inode = record { bstart = none; bend = none; hinode = λ j. none };
  maxbytes = 0;
}

no_branches-size : no_branches.maxbytes ≡ largest no_branches.si_branch no_branches.nbranch
unfolding largest
no_branches-size = refl

no_branches-IsBranches : IsBranches 127 no_branches
no_branches-IsBranches = record {
  here = λ i l. absurd (omega arith);
  gone = λ i l. refl;
  distinct = λ i j li lj e. absurd (omega arith);
  own = λ i j li lj e. absurd (omega arith);
  root_bstart = refl;
  root_bend = refl;
  inode_bstart = refl;
  inode_bend = refl;
  few = omega arith;
  size = no_branches-size;
}

-- AuOpt_Def without the pseudo links.
abbrev default_flags : ℕ → Bool
default_flags j = j == 0 || j == 4 || j == 8 || j == 11

abbrev new_mount : Mount
new_mount = record {
  sb = no_branches;
  si_mntflags = default_flags;
  si_wbr_create = tdp;
  si_wbr_copyup = copyup_tdp;
  wbr = record {
    bend = 0;
    branch = λ j. record { ms_rdonly = false; perm = rw; wbr_bytes = 0 };
    dirperm1 = false;
    rr_next = 0;
    mfs = record { jiffy = 0; expire = 0; bindex = none; rr_bytes = 0; rr_watermark = 0 };
  };
  si_dirwh = 0;
  si_rdcache = 0;
  given_udba = λ j. false;
  remount = false;
  refresh_dir = false;
  refresh_nondir = false;
  trunc_xib = false;
}

new_mount-IsChosen : IsChosen udba_reval coo_none new_mount.si_mntflags
new_mount-IsChosen = record { udba = λ b e. ground arith; coo = λ b e. ground arith; sum_w = refl }

abbrev home : AddBranch
home = record {
  bindex = none;
  perm = rw;
  dentry = record { ident = 5; inode = some 5 };
  inode = record { ident = 5; nlink = 2; hi_id = 0 };
  is_rdonly = false;
  refused = false;
  overlaps = λ h. false;
  add_maxbytes = 1000;
  alloc = true;
  init_wh = none;
  xino = none;
}

abbrev options : List Opt
options = opt_udba udba_inotify ∷ opt_append home ∷ opt_wsum ∷ opt_coo coo_all ∷ []

abbrev branches_of : Option (Option Error × (ℕ → Bool) × Mount) → Option ℕ
branches_of none = none
branches_of (some (err, tmp, m)) = elim err [ none ↦ some m.sb.nbranch | some e ↦ none ]

one_branch : branches_of (mount_branches 127 8 100 options new_mount) ≡ some 1
unfolding mount_branches au_br_add test_add au_find_dbindex first_up test_dir test_br au_br_writable
    overlapped au_br_init au_new_br_id insert_branch update memmove_up new_branch
one_branch = refl

mount_branches_lem_example :
    (r : Option Error × (ℕ → Bool) × Mount) × (mount_branches 127 8 100 options new_mount ≡ some r)
    × IsBranches 127 r.2.sb
    × ((r.0 ≢ none)
        ⊎ ((0 < r.2.sb.nbranch)
            × IsChosen (last_udba options udba_reval) (last_coo options coo_none) r.1
            × IsChosen udba_reval (last_coo options coo_none) r.2.si_mntflags))
mount_branches_lem_example =
    mount_branches_lem 127 8 100 options new_mount udba_reval coo_none (omega arith)
      no_branches-IsBranches new_mount-IsChosen
