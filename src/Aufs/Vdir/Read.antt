-- ===== src/Aufs/Vdir/Read.antt =====
-- Reading the branches' directories: append_de, fillvdir and au_do_read_vdir of
-- aufs/fs/aufs/vdir.c, with CONFIG_AUFS_SHWH. A step says whether it succeeded.
use kernel_patches.Base.{
  ℕ, zero, suc, ◌+◌, ◌-◌, Bool, true, false, not, ◌&&◌, ◌||◌, Option, none, some, List, [], ◌∷◌,
  ◌++◌, length, ltb, if◌then◌else◌, update,
}
use kernel_patches.Aufs.Xino.{XinoInfo, au_ino}
use kernel_patches.Aufs.Vdir.{
  Name, De, Wh, Vdir, Nhash, au_size_deblk, au_size_nhash, calc_size, set_deblk_end, test_known,
  au_nhash_test_known_wh, add_name, add_wh, wh_target, HEntry, HDir, done, failed, no_seek, batch,
}

-- What reading works on: the merged directory, for each branch the names and the whiteouts found,
-- the inode numbers, and the count of allocations.
pub record Reading : Type 0 where
  pub vdir : Vdir
  pub delist : ℕ → Nhash Name
  pub whlist : ℕ → Nhash Wh
  pub xino : XinoInfo
  pub allocs : ℕ

-- The kernel, and the part of it that au_ino calls.
pub record ReadEnv : Type 0 where
  pub full_name_hash : Name → ℕ
  pub kmalloc : ℕ → Bool
  pub io : ℕ → Bool
  pub iunique : ℕ
  pub jiffies : ℕ

-- A test for the branches below `n`.
unfoldable pub any_below : (n : ℕ) → (ℕ → Bool) → Bool
any_below zero p = false
any_below (suc n) p = any_below n p || p n

module _ (k : ReadEnv) where
  -- Two allocations; the first may succeed and the second fail.
  unfoldable pub append_deblk : Vdir → (allocs : ℕ) → Bool × Vdir × ℕ
  append_deblk v allocs =
      if not (k.kmalloc allocs)
      then (false, v, allocs + 1)
      else if not (k.kmalloc (allocs + 1))
      then (false, v, allocs + 2)
      else (
        true,
        record v {
          vd_deblk = update v.vd_deblk v.vd_nblk [];
          vd_nblk = v.vd_nblk + 1;
          vd_last_i = v.vd_nblk;
          vd_last_p = 0;
        },
        allocs + 2,
      )

  -- The entry goes to the end of the last block, which has room for it.
  unfoldable pub place_de : Vdir → De → Vdir
  place_de v de =
      let last = v.vd_nblk - 1 in
      record v {
        vd_deblk = update v.vd_deblk last (v.vd_deblk last ++ (de ∷ []));
        vd_last_p = v.vd_last_p + calc_size (length de.de_name);
      }

  -- A new block at the start if the entry does not fit, and at the end if no end mark does.
  unfoldable pub make_room : Vdir → (sz allocs : ℕ) → Bool × Vdir × ℕ
  make_room v sz allocs =
      if ltb (au_size_deblk - v.vd_last_p) sz then append_deblk v allocs else (true, v, allocs)

  unfoldable pub end_block : Vdir → (allocs : ℕ) → Bool × Vdir × ℕ
  end_block v allocs =
      if set_deblk_end v.vd_last_p then (true, v, allocs) else append_deblk v allocs

  unfoldable pub append_de : Reading → (bindex : ℕ) → De → Bool × Reading
  append_de s bindex de =
      let (room, v1, a1) = make_room s.vdir (calc_size (length de.de_name)) s.allocs in
      let v2 = place_de v1 de in
      let names = update s.delist bindex (add_name k.full_name_hash (s.delist bindex) de.de_name) in
      let (ok, v3, a3) = end_block v2 (a1 + 1) in
      if not room
      then (false, record s { vdir = v1; allocs = a1 })
      else if not (k.kmalloc a1)
      then (false, record s { vdir = v1; allocs = a1 + 1 })
      else (ok, record s { vdir = v3; delist = names; allocs = a3 })

  unfoldable pub au_nhash_append_wh : Reading → (bindex : ℕ) → Wh → Bool × Reading
  au_nhash_append_wh s bindex wh =
      if k.kmalloc s.allocs
      then (
        true,
        record s {
          whlist = update s.whlist bindex (add_wh k.full_name_hash (s.whlist bindex) wh);
          allocs = s.allocs + 1;
        },
      )
      else (false, record s { allocs = s.allocs + 1 })

  -- A name that is not a whiteout is passed over if a branch above has it or hides it.
  unfoldable pub shadowed : Reading → (bend : ℕ) → Name → Bool
  shadowed s bend name = any_below bend λ bindex.
      test_known k.full_name_hash (s.delist bindex) name
      || au_nhash_test_known_wh k.full_name_hash (s.whlist bindex) name

  unfoldable pub fill_name : Reading → (bend : ℕ) → HEntry → Bool × Reading
  fill_name s bend e =
      let (r, x) = au_ino k.io s.xino bend e.h_ino k.iunique in
      let s1 = record s { xino = x } in
      if shadowed s bend e.h_name then (true, s) else elim r [
        | none ↦ (false, s1)
        | some ino ↦
            append_de s1 bend (record { de_ino = ino; de_type = e.d_type; de_name = e.h_name })
      ]

  -- The loop over the branches above asks for the list of the branch itself each time.
  unfoldable pub fill_wh : Reading → (shwh : Bool) → (bend : ℕ) → HEntry → Name → Bool × Reading
  fill_wh s shwh bend e name =
      let known =
        any_below bend λ _. au_nhash_test_known_wh k.full_name_hash (s.whlist bend) name in
      let (r, x) = if shwh then au_ino k.io s.xino bend e.h_ino k.iunique else (some 1, s.xino) in
      let s1 = record s { xino = x } in
      if known then (true, s) else elim r [
        | none ↦ (false, s1)
        | some ino ↦
            au_nhash_append_wh s1 bend
              (record { wh_name = name; wh_bindex = bend; wh_ino = ino; wh_type = e.d_type })
      ]

  -- The time is noted if nothing failed.
  unfoldable pub note_time : Bool × Reading → Bool × Reading
  note_time r =
      if r.0
      then (true, record (r.1) { vdir = record (r.1.vdir) { vd_jiffy = k.jiffies } })
      else (false, r.1)

  unfoldable pub fillvdir : Reading → (shwh : Bool) → (bend : ℕ) → HEntry → Bool × Reading
  fillvdir s shwh bend e = elim (wh_target e.h_name) [
    | none ↦ note_time (fill_name s bend e)
    | some name ↦ note_time (fill_wh s shwh bend e name)
  ]

  -- One call of vfsub_readdir, which stops at the first entry that fails.
  unfoldable pub fill_all : Reading → (shwh : Bool) → (bend : ℕ) → List HEntry → Bool × Reading
  fill_all s shwh bend [] = (true, s)
  fill_all s shwh bend (e ∷ es) =
      let (ok, s1) = fillvdir s shwh bend e in
      let rest = fill_all s1 shwh bend es in if ok then rest else (false, s1)

  -- Calls until one hands over nothing.
  unfoldable pub read_hdir : Reading → (shwh : Bool) → (bend : ℕ) → HDir → Bool × Reading
  read_hdir s shwh bend done = (true, s)
  read_hdir s shwh bend failed = (false, s)
  read_hdir s shwh bend no_seek = (false, s)
  read_hdir s shwh bend (batch [] rest) = (true, s)
  read_hdir s shwh bend (batch (e ∷ es) rest) =
      let (ok, s1) = fill_all s shwh bend (e ∷ es) in
      let more = read_hdir s1 shwh bend rest in if ok then more else (false, s1)

  -- A branch without a file is passed over.
  unfoldable pub read_branch : Reading → (shwh : Bool) → (bindex : ℕ) → Option HDir → Bool × Reading
  read_branch s shwh bindex none = (true, s)
  read_branch s shwh bindex (some d) = read_hdir s shwh bindex d

  -- `n` branches from `bindex` on.
  unfoldable pub read_branches :
      Reading → (shwh : Bool) → (n bindex : ℕ) → (ℕ → Option HDir) → Bool × Reading
  read_branches s shwh zero bindex files = (true, s)
  read_branches s shwh (suc n) bindex files =
      let (ok, s1) = read_branch s shwh bindex (files bindex) in
      let rest = read_branches s1 shwh n (bindex + 1) files in if ok then rest else (false, s1)

  -- The whiteouts of one chain, under their own names. `ok` is how the chains before it ended.
  unfoldable pub show_chain : Reading → (bindex : ℕ) → (ok : Bool) → List Wh → Bool × Reading
  show_chain s bindex ok [] = (ok, s)
  show_chain s bindex ok (w ∷ ws) =
      let name = 46 ∷ 119 ∷ 104 ∷ 46 ∷ w.wh_name in
      let (fine, s1) =
        append_de s bindex (record { de_ino = w.wh_ino; de_type = w.wh_type; de_name = name }) in
      let rest = show_chain s1 bindex fine ws in if fine then rest else (false, s1)

  -- A failure ends the chain, not the loop over the chains.
  unfoldable pub show_heads : Reading → (bindex : ℕ) → (ok : Bool) → (n i : ℕ) → Bool × Reading
  show_heads s bindex ok zero i = (ok, s)
  show_heads s bindex ok (suc n) i =
      let (fine, s1) = show_chain s bindex ok (s.whlist bindex i) in
      show_heads s1 bindex fine n (i + 1)

  unfoldable pub handle_branches : Reading → (n bindex : ℕ) → Bool × Reading
  handle_branches s zero bindex = (true, s)
  handle_branches s (suc n) bindex =
      let (ok, s1) = show_heads s bindex true au_size_nhash 0 in
      let rest = handle_branches s1 n (bindex + 1) in if ok then rest else (false, s1)

  -- The name buffer is an allocation.
  unfoldable pub au_handle_shwh : Reading → (bstart bend : ℕ) → Bool × Reading
  au_handle_shwh s bstart bend =
      if k.kmalloc s.allocs
      then handle_branches (record s { allocs = s.allocs + 1 }) (bend + 1 - bstart) bstart
      else (false, record s { allocs = s.allocs + 1 })

  unfoldable pub au_do_read_vdir :
      Vdir
      → XinoInfo
      → (allocs : ℕ) → (shwh : Bool) → (bstart bend : ℕ) → (ℕ → Option HDir)
      → Bool × Reading
  au_do_read_vdir v x allocs shwh bstart bend files =
      let start : Reading = record {
        vdir = v;
        delist = λ _ _. [];
        whlist = λ _ _. [];
        xino = x;
        allocs = allocs + 2;
      } in
      let (ok, s) = read_branches start shwh (bend + 1 - bstart) bstart files in
      if not (k.kmalloc allocs)
      then (false, record start { allocs = allocs + 1 })
      else if not (k.kmalloc (allocs + 1))
      then (false, start)
      else if ok && shwh
      then au_handle_shwh s bstart bend
      else (ok, s)
