-- ===== src/Aufs/Vdir/Open.antt =====
-- Opening a directory for the first time: au_vdir_init of aufs/fs/aufs/vdir.c.
use kernel_patches.Base.{
  ℕ, zero, suc, ◌+◌, ◌-◌, ◌≡◌, refl, sym, ap, subst, ◌∙◌, Bool, true, false, not, ◌&&◌, Option,
  none, some, List, [], ◌==◌, ltb, if◌then◌else◌, inl, inr, Bool-cases, Option-cases, update, arith,
}
use kernel_patches.Aufs.Xino.{XinoInfo}
use kernel_patches.Aufs.Vdir.{De, Vdir, HDir}
use kernel_patches.Aufs.Vdir.Read.{ReadEnv, append_deblk, au_do_read_vdir}
use kernel_patches.Aufs.Vdir.Success.{readable, au_do_read_vdir-succeeds}
use kernel_patches.Aufs.Vdir.Cache.{
  DirFile, empty_vdir, alloc_vdir, copy_blocks, copy_vdir, reread, read_vdir, refresh_cache,
  init_cache, au_vdir_init,
}

-- A directory of one block, without entries.
abbrev pub first_vdir : Vdir
first_vdir = record empty_vdir { vd_deblk = update (λ _. []) 0 []; vd_nblk = 0 + 1 }

alloc_vdir-first_vdir :
    (k : ReadEnv) (a : ℕ) (v : Vdir) → (alloc_vdir k a).0 ≡ some v → first_vdir ≡ v
unfolding alloc_vdir append_deblk
alloc_vdir-first_vdir k a v e =
    let one : k.kmalloc a ≡ true = ground arith in
    let two : k.kmalloc (a + 1) ≡ true = ground arith in
    let three : k.kmalloc (a + 2) ≡ true = ground arith in
    let four : k.kmalloc (a + 2 + 1) ≡ true = ground arith in
    let path : (alloc_vdir k a).0 ≡ some first_vdir =
      rw (alloc_vdir, one, two, append_deblk, three, four) refl in
    cc (path, e)

-- The entries of a copy are the source's.
abbrev SameBlocks : (v w : Vdir) → Type 0
SameBlocks v w = (v.vd_deblk ≡ w.vd_deblk) × (v.vd_nblk ≡ w.vd_nblk)

copy_vdir-SameBlocks :
    (k : ReadEnv) (tgt src : Vdir) (a : ℕ)
    → (copy_vdir k tgt src a).0 ≡ true
    → SameBlocks src ((copy_vdir k tgt src a).1)
unfolding copy_vdir
copy_vdir-SameBlocks k tgt src a ok =
    let grows = ltb tgt.vd_nblk src.vd_nblk in
    let blocks = copy_blocks k (src.vd_nblk - 1) (if grows then a + 1 else a) in
    elim (Bool-cases (grows && not (k.kmalloc a))) [
      | inl bad ↦ absurd (ground arith)
      | inr good ↦ let fine : blocks.0 ≡ true = ground arith in rw (good, fine) ((refl, refl))
    ]

module _ (k : ReadEnv) (time_after : ℕ → ℕ → Bool) (rdcache bstart bend : ℕ)
    (files : ℕ → Option HDir) where
  -- A directory with a property of its blocks and their number.
  abbrev pub HasBlocks : ((ℕ → List De) → ℕ → Type 0) → Option Vdir → Type 0
  HasBlocks p o = (v : Vdir) × (o ≡ some v) × p v.vd_deblk v.vd_nblk

  -- What reading into an empty directory gives.
  abbrev pub Reads : ((ℕ → List De) → ℕ → Type 0) → Type 0
  Reads p =
      (x : XinoInfo) (a : ℕ)
      → (au_do_read_vdir k first_vdir x a false bstart bend files).0 ≡ true
      → p ((au_do_read_vdir k first_vdir x a false bstart bend files).1.vdir.vd_deblk)
          ((au_do_read_vdir k first_vdir x a false bstart bend files).1.vdir.vd_nblk)

  read_vdir-fvdir_cache :
      (s : DirFile) (may_read : Bool)
      → (read_vdir k time_after rdcache false bstart bend files s may_read).1.fvdir_cache
        ≡ s.fvdir_cache
  unfolding read_vdir reread
  read_vdir-fvdir_cache s may_read = ground arith

  module _ (p : (ℕ → List De) → ℕ → Type 0) where
    reread-HasBlocks :
        (s : DirFile) (v : Vdir) (a : ℕ)
        → first_vdir ≡ v
        → Reads p
        → (reread k time_after rdcache false bstart bend files s true v a).0 ≡ true
        → HasBlocks p ((reread k time_after rdcache false bstart bend files s true v a).1.ivdir)
    unfolding reread
    reread-HasBlocks s v a empty reads ok =
        let r = au_do_read_vdir k v s.xino a false bstart bend files in
        let fine : r.0 ≡ true = ground arith in
        let fresh : Vdir = record (r.1.vdir) {
          vd_version = s.i_version;
          vd_last_i = 0;
          vd_last_p = 0;
        } in
        let same = ap (λ w. au_do_read_vdir k w s.xino a false bstart bend files) empty in
        let good = reads s.xino a (ap (λ x. x.0) same ∙ fine) in
        (fresh, ground arith, subst (λ x. p (x.1.vdir.vd_deblk) (x.1.vdir.vd_nblk)) same good)

    read_vdir-HasBlocks :
        (s : DirFile) (may_read : Bool)
        → s.ivdir ≡ none
        → Reads p
        → (read_vdir k time_after rdcache false bstart bend files s may_read).0 ≡ true
        → HasBlocks p ((read_vdir k time_after rdcache false bstart bend files s may_read).1.ivdir)
    unfolding read_vdir
    read_vdir-HasBlocks s may_read closed reads ok =
        elim (Option-cases ((alloc_vdir k s.allocs).0)) [
          | inl full ↦ absurd (ground arith)
          | inr (v, new) ↦
              let a = (alloc_vdir k s.allocs).1 in
              let path : read_vdir k time_after rdcache false bstart bend files s may_read
                  ≡ reread k time_after rdcache false bstart bend files s true v a =
                simp (read_vdir, closed, new) refl in
              let empty = alloc_vdir-first_vdir k s.allocs v new in
              subst (λ x. HasBlocks p (x.1.ivdir)) (sym path)
                (reread-HasBlocks s v a empty reads (ap (λ p. p.0) (sym path) ∙ ok))
        ]

    refresh_cache-HasBlocks :
        (s : DirFile) (allocated : Bool) (tgt : Vdir)
        → HasBlocks p s.ivdir
        → (refresh_cache k time_after rdcache false bstart bend files s allocated tgt).0 ≡ true
        → HasBlocks p (
            (refresh_cache k time_after rdcache false bstart bend files s allocated
              tgt).1.fvdir_cache)
    unfolding refresh_cache
    refresh_cache-HasBlocks s allocated tgt (src, has, names) ok =
        let copy = copy_vdir k tgt src s.allocs in
        let fine : copy.0 ≡ true = ground arith in
        let same = copy_vdir-SameBlocks k tgt src s.allocs fine in
        (
          copy.1,
          ground arith,
          subst (λ n. p (copy.1.vd_deblk) n) (same.1) (subst (λ f. p f src.vd_nblk) (same.0) names),
        )

    init_cache-HasBlocks :
        (s : DirFile)
        → s.fvdir_cache ≡ none
        → HasBlocks p s.ivdir
        → (init_cache k time_after rdcache false bstart bend files s).0 ≡ true
        → HasBlocks p ((init_cache k time_after rdcache false bstart bend files s).1.fvdir_cache)
    unfolding init_cache
    init_cache-HasBlocks s closed listed ok = elim (Option-cases ((alloc_vdir k s.allocs).0)) [
      | inl full ↦ absurd (ground arith)
      | inr (v, new) ↦
          let t : DirFile = record s { allocs = (alloc_vdir k s.allocs).1 } in
          let path : init_cache k time_after rdcache false bstart bend files s
              ≡ refresh_cache k time_after rdcache false bstart bend files t true v =
            simp (init_cache, closed, new) refl in
          subst (λ x. HasBlocks p (x.1.fvdir_cache)) (sym path)
            (refresh_cache-HasBlocks t true v listed (ap (λ p. p.0) (sym path) ∙ ok))
    ]

    -- What reading gives, the file has after a first au_vdir_init.
    pub au_vdir_init-HasBlocks :
        (s : DirFile)
        → s.ivdir ≡ none
        → s.fvdir_cache ≡ none
        → Reads p
        → (au_vdir_init k time_after rdcache false bstart bend files s).0 ≡ true
        → HasBlocks p ((au_vdir_init k time_after rdcache false bstart bend files s).1.fvdir_cache)
    unfolding au_vdir_init
    au_vdir_init-HasBlocks s closed empty reads ok =
        let r = read_vdir k time_after rdcache false bstart bend files s (s.f_pos == 0) in
        let fine : r.0 ≡ true = ground arith in
        let path : au_vdir_init k time_after rdcache false bstart bend files s
            ≡ init_cache k time_after rdcache false bstart bend files (r.1) =
          simp (au_vdir_init, fine) refl in
        let listed = read_vdir-HasBlocks s (s.f_pos == 0) closed reads fine in
        subst (λ x. HasBlocks p (x.1.fvdir_cache)) (sym path)
          (init_cache-HasBlocks (r.1) (read_vdir-fvdir_cache s (s.f_pos == 0) ∙ empty) listed
            (ap (λ p. p.0) (sym path) ∙ ok))

  module _ (allocates : (n : ℕ) → k.kmalloc n ≡ true) (number : (k.iunique == 0) ≡ false) where
    alloc_vdir-succeeds : (a : ℕ) → (v : Vdir) × ((alloc_vdir k a).0 ≡ some v)
    unfolding alloc_vdir append_deblk
    alloc_vdir-succeeds a = (
      record empty_vdir { vd_deblk = update (λ _. []) 0 []; vd_nblk = 0 + 1 },
      rw
          (
            alloc_vdir,
            append_deblk,
            allocates a,
            allocates (a + 1),
            allocates (a + 2),
            allocates (a + 2 + 1),
          )
          refl,
    )

    copy_blocks-succeeds : (n a : ℕ) → (copy_blocks k n a).0 ≡ true
    unfolding copy_blocks
    copy_blocks-succeeds zero a = refl
    copy_blocks-succeeds (suc n) a = ground (arith, allocates a, copy_blocks-succeeds n (a + 1))

    copy_vdir-succeeds : (tgt src : Vdir) (a : ℕ) → (copy_vdir k tgt src a).0 ≡ true
    unfolding copy_vdir
    copy_vdir-succeeds tgt src a =
        let start = if ltb tgt.vd_nblk src.vd_nblk then a + 1 else a in
        let copied = copy_blocks-succeeds (src.vd_nblk - 1) start in ground (arith, allocates a)

    init_cache-succeeds :
        (s : DirFile)
        → s.fvdir_cache ≡ none
        → HasBlocks (λ f n. Unit) s.ivdir
        → (init_cache k time_after rdcache false bstart bend files s).0 ≡ true
    unfolding init_cache refresh_cache
    init_cache-succeeds s closed (src, has, names) =
        let (v, new) = alloc_vdir-succeeds s.allocs in
        let copied = copy_vdir-succeeds v src ((alloc_vdir k s.allocs).1) in
        simp (init_cache, closed, new, refresh_cache, has, copied) refl

    -- When neither the inode nor the file has a merged directory yet, every allocation succeeds,
    -- iunique gives a number, external inode numbers are off, and the branches' directories can be
    -- read to their ends, then au_vdir_init succeeds without the option shwh.
    pub au_vdir_init-succeeds :
        (s : DirFile)
        → s.ivdir ≡ none
        → s.fvdir_cache ≡ none
        → s.xino.opt_xino ≡ false
        → ((c : ℕ) (h : HDir) → files c ≡ some h → readable h ≡ true)
        → (au_vdir_init k time_after rdcache false bstart bend files s).0 ≡ true
    unfolding au_vdir_init read_vdir reread
    au_vdir_init-succeeds s closed empty off can_read =
        let may = s.f_pos == 0 in
        let (v, new) = alloc_vdir-succeeds s.allocs in
        let a = (alloc_vdir k s.allocs).1 in
        let done =
          au_do_read_vdir-succeeds k allocates number v s.xino a bstart bend files can_read off in
        let r = read_vdir k time_after rdcache false bstart bend files s may in
        let fine : r.0 ≡ true = simp (read_vdir, closed, new, reread, done) refl in
        let listed = read_vdir-HasBlocks (λ f n. Unit) s may closed (λ x b e. tt) fine in
        let cache = read_vdir-fvdir_cache s may ∙ empty in
        simp (au_vdir_init, fine) (init_cache-succeeds (r.1) cache listed)
