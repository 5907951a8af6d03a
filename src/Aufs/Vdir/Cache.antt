-- ===== src/Aufs/Vdir/Cache.antt =====
-- The merged directory that an inode keeps, the copy of it that an open file reads, and reading it:
-- alloc_vdir, reinit_vdir, read_vdir, copy_vdir, au_vdir_init, seek_vdir and au_vdir_fill_de of
-- aufs/fs/aufs/vdir.c. A position is an offset into a block; an entry of no bytes is the end mark.
use kernel_patches.Base.{
  ℕ, zero, suc, ◌+◌, ◌-◌, Bool, true, false, not, ◌&&◌, ◌||◌, Option, none, some, [], ◌==◌, ltb,
  if◌then◌else◌,
}
use kernel_patches.Aufs.Xino.{XinoInfo}
use kernel_patches.Aufs.Vdir.{Vdir, HDir}
use kernel_patches.Aufs.Vdir.Read.{ReadEnv, append_deblk, au_do_read_vdir}

-- A directory's inode and an open file of it, with the numbers and the count of allocations.
pub record DirFile : Type 0 where
  pub i_version : ℕ
  pub ivdir : Option Vdir
  pub f_pos : ℕ
  pub f_version : ℕ
  pub fvdir_cache : Option Vdir
  pub xino : XinoInfo
  pub allocs : ℕ

abbrev pub empty_vdir : Vdir
empty_vdir = record {
  vd_deblk = λ _. [];
  vd_nblk = 0;
  vd_last_i = 0;
  vd_last_p = 0;
  vd_version = 0;
  vd_jiffy = 0;
}

-- Every block but the first is freed.
unfoldable pub reinit_vdir : Vdir → Vdir
reinit_vdir v = record {
  vd_deblk = λ _. [];
  vd_nblk = if ltb 1 v.vd_nblk then 1 else v.vd_nblk;
  vd_last_i = 0;
  vd_last_p = 0;
  vd_version = 0;
  vd_jiffy = 0;
}

module _ (k : ReadEnv) where
  unfoldable pub alloc_vdir : (allocs : ℕ) → Option Vdir × ℕ
  alloc_vdir allocs =
      let (ok, v, a) = append_deblk k empty_vdir (allocs + 2) in
      if not (k.kmalloc allocs)
      then (none, allocs + 1)
      else if not (k.kmalloc (allocs + 1))
      then (none, allocs + 2)
      else if ok
      then (some v, a)
      else (none, a)

  -- The blocks after the first, each an allocation, until one fails.
  unfoldable pub copy_blocks : (n allocs : ℕ) → Bool × ℕ
  copy_blocks zero allocs = (true, allocs)
  copy_blocks (suc n) allocs =
      let rest = copy_blocks n (allocs + 1) in
      if k.kmalloc allocs then rest else (false, allocs + 1)

  -- The target has one block; its position stays.
  unfoldable pub copy_vdir : (tgt src : Vdir) → (allocs : ℕ) → Bool × Vdir × ℕ
  copy_vdir tgt src allocs =
      let grows = ltb tgt.vd_nblk src.vd_nblk in
      let (ok, a) = copy_blocks (src.vd_nblk - 1) (if grows then allocs + 1 else allocs) in
      if grows && not (k.kmalloc allocs)
      then (false, reinit_vdir tgt, allocs + 1)
      else if ok
      then (
        true,
        record tgt {
          vd_deblk = src.vd_deblk;
          vd_nblk = src.vd_nblk;
          vd_version = src.vd_version;
          vd_jiffy = src.vd_jiffy;
        },
        a,
      )
      else (false, reinit_vdir tgt, a)

module _ (k : ReadEnv) (time_after : ℕ → ℕ → Bool) (rdcache : ℕ) (shwh : Bool) (bstart bend : ℕ)
    (files : ℕ → Option HDir) where
  -- Whether the inode's directory is out of date.
  unfoldable pub expired : DirFile → Vdir → Bool
  expired s v = not (s.i_version == v.vd_version) || time_after k.jiffies (v.vd_jiffy + rdcache)

  -- Reading into `v`. An allocated directory is given up if that fails; one that the inode has
  -- stays as it is then.
  unfoldable pub reread : DirFile → (allocated : Bool) → Vdir → (allocs : ℕ) → Bool × DirFile
  reread s allocated v allocs =
      let (ok, r) = au_do_read_vdir k v s.xino allocs shwh bstart bend files in
      let fresh : Vdir = record (r.vdir) {
        vd_version = s.i_version;
        vd_last_i = 0;
        vd_last_p = 0;
      } in
      let t : DirFile = record s { xino = r.xino; allocs = r.allocs } in
      if ok
      then (true, record t { ivdir = some fresh })
      else if allocated
      then (false, t)
      else (false, record t { ivdir = some (r.vdir) })

  unfoldable pub read_vdir : DirFile → (may_read : Bool) → Bool × DirFile
  read_vdir s may_read =
      let (new, a) = alloc_vdir k s.allocs in
      elim s.ivdir [
        | none ↦ elim new [ none ↦ (false, record s { allocs = a }) | some v ↦ reread s true v a ]
        | some v ↦
            if may_read && expired s v then reread s false (reinit_vdir v) s.allocs else (true, s)
      ]

  -- The copy for the file, into `tgt`. Without a directory of the inode it stays as it is.
  unfoldable pub refresh_cache : DirFile → (allocated : Bool) → (tgt : Vdir) → Bool × DirFile
  refresh_cache s allocated tgt = elim s.ivdir [
    | none ↦ (false, s)
    | some src ↦
        let (ok, v, a) = copy_vdir k tgt src s.allocs in
        if ok
        then (true, record s { fvdir_cache = some v; f_version = s.i_version; allocs = a })
        else if allocated
        then (false, record s { allocs = a })
        else (false, record s { fvdir_cache = some v; allocs = a })
  ]

  unfoldable pub init_cache : DirFile → Bool × DirFile
  init_cache s =
      let (new, a) = alloc_vdir k s.allocs in
      elim s.fvdir_cache [
        | none ↦ elim new [
          | none ↦ (false, record s { allocs = a })
          | some v ↦ refresh_cache (record s { allocs = a }) true v
        ]
        | some v ↦
            if (s.f_pos == 0) && not (v.vd_version == s.f_version)
            then refresh_cache s false (reinit_vdir v)
            else (true, s)
      ]

  unfoldable pub au_vdir_init : DirFile → Bool × DirFile
  au_vdir_init s =
      let (ok, s1) = read_vdir s (s.f_pos == 0) in
      let rest = init_cache s1 in if ok then rest else (false, s1)
