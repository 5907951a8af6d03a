-- ===== src/Aufs/Vdir/Success.antt =====
-- When reading the branches of aufs/fs/aufs/vdir.c succeeds: with allocations, without external
-- inode numbers, and with directories that can be read.
use kernel_patches.Base.{
  ℕ, zero, suc, ◌+◌, ◌-◌, ◌≡◌, refl, ap, ◌∙◌, Bool, true, false, Option, none, some, List, [], ◌∷◌,
  length, ◌==◌, inl, inr, Bool-cases, Option-cases, arith,
}
use kernel_patches.Aufs.Xino.{XinoInfo, au_ino, au_xino_read, au_xino_write, au_xino_new_ino}
use kernel_patches.Aufs.Vdir.{
  De, Vdir, Name, wh_target, HEntry, HDir, done, failed, no_seek, batch, calc_size,
}
use kernel_patches.Aufs.Vdir.Read.{
  Reading, ReadEnv, append_deblk, place_de, make_room, end_block, append_de, au_nhash_append_wh,
  shadowed, fill_name, fill_wh, note_time, fillvdir, fill_all, read_hdir, read_branch,
  read_branches, au_do_read_vdir,
}

-- Whether a directory can be read to its end.
abbrev pub readable : HDir → Bool
readable done = true
readable failed = false
readable no_seek = false
readable (batch [] rest) = true
readable (batch (e ∷ es) rest) = readable rest

-- A step that succeeds, and leaves external inode numbers off.
abbrev Succeeds : Bool × Reading → Type 0
Succeeds r = (r.0 ≡ true) × (r.1.xino.opt_xino ≡ false)

module _ (k : ReadEnv) (allocates : (n : ℕ) → k.kmalloc n ≡ true)
    (number : (k.iunique == 0) ≡ false) where
  append_deblk-succeeds : (v : Vdir) (a : ℕ) → (append_deblk k v a).0 ≡ true
  unfolding append_deblk
  append_deblk-succeeds v a = ground (arith, allocates a, allocates (a + 1))

  append_de-Succeeds :
      (s : Reading) (b : ℕ) (de : De) → s.xino.opt_xino ≡ false → Succeeds (append_de k s b de)
  unfolding append_de make_room end_block
  append_de-Succeeds s b de off =
      let sz = calc_size (length de.de_name) in
      let room = make_room k s.vdir sz s.allocs in
      let placed = place_de k (room.1) de in
      let first = append_deblk-succeeds s.vdir s.allocs in
      let second = append_deblk-succeeds placed (room.2 + 1) in
      let space = allocates (room.2) in
      let fine : room.0 ≡ true = ground arith in
      let ends : (end_block k placed (room.2 + 1)).0 ≡ true = ground arith in
      (ground arith, ground arith)

  au_ino-off :
      (x : XinoInfo) (b h : ℕ)
      → x.opt_xino ≡ false
      → au_ino k.io x b h k.iunique ≡ (some (k.iunique), x)
  unfolding au_ino au_xino_read au_xino_write au_xino_new_ino
  au_ino-off x b h off = rw (off, number) refl

  fill_name-Succeeds :
      (s : Reading) (b : ℕ) (e : HEntry) → s.xino.opt_xino ≡ false → Succeeds (fill_name k s b e)
  unfolding fill_name
  fill_name-Succeeds s b e off = elim (Bool-cases (shadowed k s b e.h_name)) [
    | inl hid ↦ rw hid ((refl, off))
    | inr new ↦
        let de : De = record { de_ino = k.iunique; de_type = e.d_type; de_name = e.h_name } in
        let numbered = au_ino k.io s.xino b e.h_ino k.iunique in
        let result = au_ino-off s.xino b e.h_ino off in
        let given : numbered.0 ≡ some (k.iunique) = ap (λ p. p.0) result in
        let still : numbered.1.opt_xino ≡ false = ap (λ p. p.1.opt_xino) result ∙ off in
        rw (new, given) (append_de-Succeeds (record s { xino = numbered.1 }) b de still)
  ]

  fill_wh-Succeeds :
      (s : Reading) (b : ℕ) (e : HEntry) (name : Name)
      → s.xino.opt_xino ≡ false
      → Succeeds (fill_wh k s false b e name)
  unfolding fill_wh au_nhash_append_wh
  fill_wh-Succeeds s b e name off = ground (arith, allocates s.allocs)

  note_time-Succeeds : (r : Bool × Reading) → Succeeds r → Succeeds (note_time k r)
  unfolding note_time
  note_time-Succeeds (true, t) h = h
  note_time-Succeeds (false, t) h = h

  fillvdir-Succeeds :
      (s : Reading) (b : ℕ) (e : HEntry)
      → s.xino.opt_xino ≡ false
      → Succeeds (fillvdir k s false b e)
  unfolding fillvdir
  fillvdir-Succeeds s b e off = elim (Option-cases (wh_target e.h_name)) [
    | inl nothing ↦
        rw (fillvdir, nothing)
          (note_time-Succeeds (fill_name k s b e) (fill_name-Succeeds s b e off))
    | inr (name, target) ↦
        rw (fillvdir, target)
          (note_time-Succeeds (fill_wh k s false b e name) (fill_wh-Succeeds s b e name off))
  ]

  fill_all-Succeeds :
      (s : Reading) (b : ℕ) (es : List HEntry)
      → s.xino.opt_xino ≡ false
      → Succeeds (fill_all k s false b es)
  unfolding fill_all
  fill_all-Succeeds s b [] off = (refl, off)
  fill_all-Succeeds s b (e ∷ es) off =
      let one = fillvdir-Succeeds s b e off in
      let rest = fill_all-Succeeds ((fillvdir k s false b e).1) b es (one.1) in
      rw (fill_all, one.0) rest

  read_hdir-Succeeds :
      (s : Reading) (b : ℕ) (d : HDir)
      → readable d ≡ true
      → s.xino.opt_xino ≡ false
      → Succeeds (read_hdir k s false b d)
  unfolding read_hdir
  read_hdir-Succeeds s b done h off = (refl, off)
  read_hdir-Succeeds s b failed h off = absurd (ground arith)
  read_hdir-Succeeds s b no_seek h off = absurd (ground arith)
  read_hdir-Succeeds s b (batch [] rest) h off = (refl, off)
  read_hdir-Succeeds s b (batch (e ∷ es) rest) h off =
      let one = fill_all-Succeeds s b (e ∷ es) off in
      let more = read_hdir-Succeeds ((fill_all k s false b (e ∷ es)).1) b rest h (one.1) in
      rw (read_hdir, one.0) more

  read_branch-Succeeds :
      (s : Reading) (b : ℕ) (d : Option HDir)
      → ((h : HDir) → d ≡ some h → readable h ≡ true)
      → s.xino.opt_xino ≡ false
      → Succeeds (read_branch k s false b d)
  unfolding read_branch
  read_branch-Succeeds s b none h off = (refl, off)
  read_branch-Succeeds s b (some d) h off = read_hdir-Succeeds s b d (h d refl) off

  read_branches-Succeeds :
      (s : Reading) (n b : ℕ) (files : ℕ → Option HDir)
      → ((c : ℕ) (h : HDir) → files c ≡ some h → readable h ≡ true)
      → s.xino.opt_xino ≡ false
      → Succeeds (read_branches k s false n b files)
  unfolding read_branches
  read_branches-Succeeds s zero b files h off = (refl, off)
  read_branches-Succeeds s (suc n) b files h off =
      let one = read_branch-Succeeds s b (files b) (h b) off in
      let rest =
        read_branches-Succeeds ((read_branch k s false b (files b)).1) n (b + 1) files h (one.1) in
      rw (read_branches, one.0) rest

  -- If every allocation succeeds, iunique gives a number, external inode numbers are off, and the
  -- branches' directories can be read to their ends, then au_do_read_vdir succeeds without shwh.
  pub au_do_read_vdir-succeeds :
      (v : Vdir) (x : XinoInfo) (allocs bstart bend : ℕ) (files : ℕ → Option HDir)
      → ((c : ℕ) (h : HDir) → files c ≡ some h → readable h ≡ true)
      → x.opt_xino ≡ false
      → (au_do_read_vdir k v x allocs false bstart bend files).0 ≡ true
  unfolding au_do_read_vdir
  au_do_read_vdir-succeeds v x allocs bstart bend files h off =
      let start : Reading = record {
        vdir = v;
        delist = λ _ _. [];
        whlist = λ _ _. [];
        xino = x;
        allocs = allocs + 2;
      } in
      let fine = read_branches-Succeeds start (bend + 1 - bstart) bstart files h off in
      rw (au_do_read_vdir, allocates allocs, allocates (allocs + 1), fine.0) refl
