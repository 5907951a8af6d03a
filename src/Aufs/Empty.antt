-- ===== src/Aufs/Empty.antt =====
-- aufs/fs/aufs/dir.c: whether a directory is empty, test_empty_cb, do_test_empty, sio_test_empty and
-- au_test_empty. A step says whether it succeeded, with the whiteouts found and the allocations.
pub mod Covered
pub mod Visible
use kernel_patches.Base.{
  ℕ, zero, suc, ◌+◌, ◌-◌, Bool, true, false, not, ◌&&◌, ◌||◌, Option, none, some, List, [], ◌∷◌,
  ◌==◌, if◌then◌else◌,
}
use kernel_patches.Aufs.{DInfo}
use kernel_patches.Aufs.Dinfo.{has_inode, au_h_dptr, au_dbtaildir}
use kernel_patches.Aufs.Vdir.{
  Name, Wh, Nhash, au_nhash_test_known_wh, add_wh, wh_target, HEntry, HDir, done, failed, no_seek,
  batch,
}

-- The kernel: `h_open` is au_h_open on a branch, `gone` whether inotify is used and the directory
-- has no link there, `permits` the permission test and `au_wkq_wait` whether the work queue takes
-- the call.
pub record EmptyEnv : Type 0 where
  pub full_name_hash : Name → ℕ
  pub kmalloc : ℕ → Bool
  pub h_open : ℕ → Option HDir
  pub gone : ℕ → Bool
  pub permits : ℕ → Bool
  pub au_wkq_wait : ℕ → Bool

-- "." or "..".
unfoldable pub is_dot : Name → Bool
is_dot (x ∷ []) = x == 46
is_dot (x ∷ y ∷ []) = (x == 46) && (y == 46)
is_dot _ = false

abbrev pub Found : Type 0
Found = Bool × Nhash Wh × ℕ

module _ (k : EmptyEnv) where
  unfoldable pub test_empty_cb :
      Nhash Wh → (allocs : ℕ) → (whonly : Bool) → (bindex : ℕ) → HEntry → Found
  test_empty_cb w allocs whonly bindex e =
      if is_dot e.h_name then (true, w, allocs) else elim (wh_target e.h_name) [
        | none ↦
            (not (whonly && not (au_nhash_test_known_wh k.full_name_hash w e.h_name)), w, allocs)
        | some name ↦
            let wh : Wh = record {
              wh_name = name;
              wh_bindex = bindex;
              wh_ino = e.h_ino;
              wh_type = e.d_type;
            } in
            if au_nhash_test_known_wh k.full_name_hash w name
            then (true, w, allocs)
            else if k.kmalloc allocs
            then (true, add_wh k.full_name_hash w wh, allocs + 1)
            else (false, w, allocs + 1)
      ]

  -- One call of vfsub_readdir, which stops at the first entry that fails.
  unfoldable pub test_all :
      Nhash Wh → (allocs : ℕ) → (whonly : Bool) → (bindex : ℕ) → List HEntry → Found
  test_all w allocs whonly bindex [] = (true, w, allocs)
  test_all w allocs whonly bindex (e ∷ es) =
      let (ok, w1, a1) = test_empty_cb w allocs whonly bindex e in
      let rest = test_all w1 a1 whonly bindex es in if ok then rest else (false, w1, a1)

  unfoldable pub test_hdir : Nhash Wh → (allocs : ℕ) → (whonly : Bool) → (bindex : ℕ) → HDir → Found
  test_hdir w allocs whonly bindex done = (true, w, allocs)
  test_hdir w allocs whonly bindex failed = (false, w, allocs)
  test_hdir w allocs whonly bindex no_seek = (false, w, allocs)
  test_hdir w allocs whonly bindex (batch [] rest) = (true, w, allocs)
  test_hdir w allocs whonly bindex (batch (e ∷ es) rest) =
      let (ok, w1, a1) = test_all w allocs whonly bindex (e ∷ es) in
      let more = test_hdir w1 a1 whonly bindex rest in if ok then more else (false, w1, a1)

  unfoldable pub do_test_empty : Nhash Wh → (allocs : ℕ) → (whonly : Bool) → (bindex : ℕ) → Found
  do_test_empty w allocs whonly bindex = elim (k.h_open bindex) [
    | none ↦ (false, w, allocs)
    | some d ↦ if k.gone bindex then (true, w, allocs) else test_hdir w allocs whonly bindex d
  ]

  unfoldable pub sio_test_empty : Nhash Wh → (allocs : ℕ) → (whonly : Bool) → (bindex : ℕ) → Found
  sio_test_empty w allocs whonly bindex =
      if k.permits bindex || k.au_wkq_wait bindex
      then do_test_empty w allocs whonly bindex
      else (false, w, allocs)

  -- `n` branches from `bindex` on; those where the dentry has no inode are passed over.
  unfoldable pub test_branches :
      (Nhash Wh → ℕ → ℕ → Found) → DInfo → Nhash Wh → (allocs n bindex : ℕ) → Found
  test_branches test d w allocs zero bindex = (true, w, allocs)
  test_branches test d w allocs (suc n) bindex =
      let (ok, w1, a1) =
        if has_inode (au_h_dptr d bindex) then test w allocs bindex else (true, w, allocs) in
      let rest = test_branches test d w1 a1 n (bindex + 1) in if ok then rest else (false, w1, a1)

  -- A directory's dentry has a range; without one nothing is tested.
  unfoldable pub au_test_empty : DInfo → Nhash Wh → (allocs : ℕ) → Found
  au_test_empty d w allocs = elim d.bstart [
    | none ↦ (true, w, allocs)
    | some bstart ↦ elim (au_dbtaildir d) [
      | none ↦ (true, w, allocs)
      | some btail ↦
          test_branches (λ v a b. sio_test_empty v a true b) d w allocs (btail + 1 - bstart) bstart
    ]
  ]

  -- The whiteouts of the first branch are looked at, its names are not.
  unfoldable pub au_test_empty_lower : DInfo → (allocs : ℕ) → Found
  au_test_empty_lower d allocs = elim d.bstart [
    | none ↦ (true, (λ _. []), allocs)
    | some bstart ↦ elim (au_dbtaildir d) [
      | none ↦ (true, (λ _. []), allocs)
      | some btail ↦
          let (ok, w, a) = do_test_empty (λ _. []) (allocs + 1) false bstart in
          let rest =
            test_branches (λ v c b. do_test_empty v c true b) d w a (btail - bstart) (bstart + 1) in
          if not (k.kmalloc allocs)
          then (false, (λ _. []), allocs + 1)
          else if ok
          then rest
          else (false, w, a)
    ]
  ]
