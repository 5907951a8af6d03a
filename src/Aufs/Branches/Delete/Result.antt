-- ===== src/Aufs/Branches/Delete/Result.antt =====
-- au_br_del (aufs/fs/aufs/branch.c): all its outcomes.
use kernel_patches.Base.{
  ℕ, ◌≡◌, ◌≢◌, ◌⊎◌, inl, inr, refl, sym, subst, Bool, true, false, Option, none, some, ◌==◌,
  Bool-cases, Option-cases, arith,
}
use kernel_patches.Aufs.{HDentry}
use kernel_patches.Aufs.Dinfo.{au_find_dbindex}
use kernel_patches.Aufs.Branches.{BrInfo, SbInfo, Error, ebusy, enoent, put_branch}
use kernel_patches.Aufs.Branches.Valid.{IsBranches}
use kernel_patches.Aufs.Branches.Lookup.{found, branch_here}
use kernel_patches.Aufs.Branches.Put.{put_branch-IsBranches}
use kernel_patches.Aufs.Branches.Delete.{has_wh, again, au_br_del}
use kernel_patches.Aufs.Branches.Delete.Remove.{
  IsRemoved, remove_branch-IsBranches, remove_branch-IsRemoved,
}

-- What au_br_del leaves: the super block as it was, with an error unless a remount has nothing to
-- delete; that with the branch's whiteout bases made again, or not, when a child was busy; or one
-- without the branch.
pub record DelLem (branch_max : ℕ) (sb : SbInfo) (h_root : HDentry) (remount : Bool)
    (busy : Option Error) (r : Option Error × SbInfo) : Type 0 where
  pub valid : IsBranches branch_max r.1
  pub result :
      ((r.1 ≡ sb)
        × ((r.0 ≢ none) ⊎ (remount ≡ true) × (au_find_dbindex sb.root (some h_root) ≡ none)))
      ⊎ ((b : ℕ) × (br : BrInfo) × (wh : Option Bool) × (sb.si_branch b ≡ some br)
          × (has_wh br ≡ true)
          × (busy ≢ none)
          × (r.0 ≡ busy)
          × (r.1 ≡ put_branch sb b (record br { wbr = wh })))
      ⊎ ((r.0 ≡ none) × (busy ≡ none) × IsRemoved sb h_root r.1)

some_ne : (e : Error) → some e ≢ none
some_ne e q = ground arith

module _ (branch_max : ℕ) (sb : SbInfo) (h_root : HDentry) (remount : Bool) (busy : Option Error)
    (rewh : Bool) (v : IsBranches branch_max sb) where
  abbrev Outcome : Option Error × SbInfo → Type 0
  Outcome r = DelLem branch_max sb h_root remount busy r

  abbrev result : Option Error × SbInfo
  result = au_br_del sb h_root remount busy rewh

  failed_lem : (e : Error) → result ≡ (some e, sb) → Outcome result
  failed_lem e path =
      subst Outcome (sym path) (record { valid = v; result = inl (refl, inl (some_ne e)) })

  missing_lem : au_find_dbindex sb.root (some h_root) ≡ none → Outcome result
  unfolding au_br_del
  missing_lem e = elim (Bool-cases remount) [
    | inr r ↦ failed_lem enoent (rw (au_br_del, e, r) refl)
    | inl r ↦
        let path : result ≡ (none, sb) = rw (au_br_del, e, r) refl in
        subst Outcome (sym path) (record { valid = v; result = inl (refl, inr (r, e)) })
  ]

  module _ (b : ℕ) (e : au_find_dbindex sb.root (some h_root) ≡ some b) (br : BrInfo)
      (there : sb.si_branch b ≡ some br) where
    busy_lem :
        (f : Error)
        → busy ≡ some f
        → (sb.nbranch == 1) ≡ false
        → (br.br_count == 0) ≡ true
        → Outcome result
    unfolding au_br_del
    busy_lem f k one count = elim (Bool-cases (has_wh br)) [
      | inr wh ↦ failed_lem f (rw (au_br_del, e, there, k, one, count, wh) refl)
      | inl wh ↦
          let reverted = record br { wbr = again br rewh } in
          subst Outcome (sym (rw (au_br_del, e, there, k, one, count, wh) refl)) (record {
            valid = put_branch-IsBranches branch_max sb b br reverted v there refl refl;
            result = inr (
                inl (
                  b,
                  br,
                  again br rewh,
                  there,
                  wh,
                  subst (λ x. x ≢ none) (sym k) (some_ne f),
                  sym k,
                  refl,
                ));
          })
    ]

    found_lem : Outcome result
    unfolding au_br_del
    found_lem = elim (Bool-cases (sb.nbranch == 1)) [
      | inl one ↦ failed_lem ebusy (rw (au_br_del, e, there, one) refl)
      | inr one ↦ elim (Bool-cases (br.br_count == 0)) [
        | inr count ↦ failed_lem ebusy (rw (au_br_del, e, there, one, count) refl)
        | inl count ↦ elim (Option-cases busy) [
          | inr (f, k) ↦ busy_lem f k one count
          | inl k ↦
              let (inside, same) = found branch_max sb h_root b v e in
              let more : sb.nbranch ≢ 1 = ground arith in
              subst Outcome (sym (rw (au_br_del, e, there, one, count, k) refl)) (record {
                valid = remove_branch-IsBranches branch_max sb v br b inside there more;
                result = inr (
                    inr (
                      refl,
                      k,
                      remove_branch-IsRemoved branch_max sb v br b inside there more h_root same e
                          (ground arith),
                    ));
              })
        ]
      ]
    ]

-- Deleting a branch of a well-formed super block leaves a well-formed one. Either nothing changes but
-- the whiteout bases of a branch that turns out to be busy, and this is an error unless a remount
-- finds no such branch, or the branch of the dentry, which no file was open on and which was not the
-- only one, is out, and the others keep their order and their dentries and inodes.
pub au_br_del_lem :
    (branch_max : ℕ) (sb : SbInfo) (h_root : HDentry) (remount : Bool) (busy : Option Error)
    (rewh : Bool)
    → IsBranches branch_max sb
    → DelLem branch_max sb h_root remount busy (au_br_del sb h_root remount busy rewh)
au_br_del_lem branch_max sb h_root remount busy rewh v =
    elim (Option-cases (au_find_dbindex sb.root (some h_root))) [
      | inl e ↦ missing_lem branch_max sb h_root remount busy rewh v e
      | inr (b, e) ↦
          let (inside, _) = found branch_max sb h_root b v e in
          let (br, there) = branch_here branch_max sb b v inside in
          found_lem branch_max sb h_root remount busy rewh v b e br there
    ]
