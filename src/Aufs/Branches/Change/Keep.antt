-- ===== src/Aufs/Branches/Change/Keep.antt =====
-- au_br_mod (aufs/fs/aufs/branch.c) keeps the branches well-formed, whatever their br_wbr.
use kernel_patches.Base.{
  ℕ, ◌≡◌, inl, inr, refl, sym, subst, Bool, false, ◌||◌, Option, none, some, if◌then◌else◌,
  Bool-cases, Option-cases,
}
use kernel_patches.Aufs.{BrPerm, HDentry}
use kernel_patches.Aufs.Dinfo.{au_find_dbindex}
use kernel_patches.Aufs.Branches.{BrInfo, SbInfo, Error, enoent, put_branch}
use kernel_patches.Aufs.Branches.Valid.{IsBranches}
use kernel_patches.Aufs.Branches.Lookup.{found, branch_here}
use kernel_patches.Aufs.Branches.Put.{put_branch-IsBranches}
use kernel_patches.Aufs.Branches.Add.{test_br}
use kernel_patches.Aufs.Branches.Change.{same_perm, need_sigen_inc, change_perm, au_br_mod}
use kernel_patches.Aufs.Branches.Change.Mod.{made_same}

module _ (branch_max : ℕ) (sb : SbInfo) (h_root : HDentry) (perm : BrPerm)
    (is_rdonly remount do_update alloc : Bool) (init_wh files_ro : Option Error)
    (v : IsBranches branch_max sb) where
  abbrev Kept : Option Error × Bool × SbInfo → Type 0
  Kept r = IsBranches branch_max r.2

  abbrev result : Option Error × Bool × SbInfo
  result = au_br_mod sb h_root perm is_rdonly remount do_update alloc init_wh files_ro

  same_lem : (r : Option Error × Bool × SbInfo) → result ≡ r → r.2 ≡ sb → Kept result
  same_lem r path e = subst Kept (sym path) (subst (IsBranches branch_max) (sym e) v)

  module _ (b : ℕ) (e : au_find_dbindex sb.root (some h_root) ≡ some b) (br : BrInfo)
      (there : sb.si_branch b ≡ some br) (ok : test_br perm is_rdonly ≡ none) where
    abbrev changed : Option Error × BrInfo
    changed = change_perm br perm alloc init_wh files_ro

    put_lem :
        (r : Option Error × Bool × SbInfo) (t : BrInfo)
        → result ≡ r
        → r.2 ≡ put_branch sb b t
        → t.br_id ≡ br.br_id
        → t.s_maxbytes ≡ br.s_maxbytes
        → Kept result
    put_lem r t path f id size = subst Kept (sym path) (
        subst (IsBranches branch_max) (sym f)
          (put_branch-IsBranches branch_max sb b br t v there id size))

    changed_lem : same_perm br.br_perm perm ≡ false → Kept result
    unfolding au_br_mod
    changed_lem differ =
        let (id, size, _) = made_same br perm alloc do_update init_wh files_ro in
        elim (Option-cases changed.0) [
          | inl k ↦
              let t = record (changed.1) { br_perm = perm } in
              put_lem (none, do_update || need_sigen_inc br.br_perm perm, put_branch sb b t) t
                (rw (au_br_mod, e, ok, there, differ, k) refl) refl id size
          | inr (f, k) ↦
              put_lem (some f, do_update, put_branch sb b changed.1) changed.1
                (rw (au_br_mod, e, ok, there, differ, k) refl) refl id size
        ]

  pub au_br_mod-IsBranches : Kept result
  unfolding au_br_mod
  au_br_mod-IsBranches = elim (Option-cases (au_find_dbindex sb.root (some h_root))) [
    | inl e ↦
        same_lem (if remount then none else some enoent, do_update, sb) (rw (au_br_mod, e) refl)
          refl
    | inr (b, e) ↦ elim (Option-cases (test_br perm is_rdonly)) [
      | inr (f, bad) ↦ same_lem (some f, do_update, sb) (rw (au_br_mod, e, bad) refl) refl
      | inl ok ↦
          let (inside, _) = found branch_max sb h_root b v e in
          let (br, there) = branch_here branch_max sb b v inside in
          elim (Bool-cases (same_perm br.br_perm perm)) [
            | inr differ ↦ changed_lem b e br there ok differ
            | inl same ↦
                same_lem (none, do_update, sb) (rw (au_br_mod, e, ok, there, same) refl) refl
          ]
    ]
  ]
