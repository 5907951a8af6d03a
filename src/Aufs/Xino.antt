-- ===== src/Aufs/Xino.antt =====
-- aufs/fs/aufs/xino.c: inode numbers. The xib is a bitmap of the numbers in use, kept in a file of
-- which one page is in memory; the xino file of a branch holds, for the inode numbers of the
-- branch, the number that aufs gives. Reading and writing files is the kernel's: the argument `io`
-- says which of the calls, counted by the state, succeed. A call that fails changes nothing else.
-- `ino_t` and `unsigned long` have 32 bits.
pub mod Bitmap
pub mod Find
pub mod Numbers
pub mod Unique
pub mod Release
pub mod Lost
use kernel_patches.Base.{
  ℕ, zero, suc, ◌+◌, ◌-◌, ◌*◌, ◌/◌, ◌%◌, ◌^◌, max, Bool, true, false, not, ◌&&◌, Option, none, some,
  ◌==◌, ltb, leb, if◌then◌else◌, first_up, update,
}

-- `PAGE_SIZE * BITS_PER_BYTE`.
abbrev pub page_bits : ℕ
page_bits = 32768

abbrev pub aufs_first_ino : ℕ
aufs_first_ino = 11

-- The part of the super block that deals with numbers. `opt_xino` is the mount option. The xib's
-- size is counted in pages, since it is only written in pages, that of a branch's file in entries.
-- Branches on one file system may share a file.
pub record XinoInfo : Type 0 where
  pub opt_xino : Bool
  pub xib_buf : ℕ → Bool
  pub xib_last_pindex : ℕ
  pub xib_next_bit : ℕ
  pub xib_pages : ℕ → ℕ → Bool
  pub xib_npages : ℕ
  pub xi_file : ℕ → ℕ
  pub xi_entries : ℕ → ℕ → ℕ
  pub xi_size : ℕ → ℕ
  pub io_calls : ℕ

unfoldable pub xib_calc_ino : (pindex bit : ℕ) → ℕ
xib_calc_ino pindex bit = (aufs_first_ino + pindex * page_bits + bit) % 2 ^ 32

unfoldable pub xib_calc_bit : ℕ → ℕ × ℕ
xib_calc_bit ino = ((ino - aufs_first_ino) / page_bits, (ino - aufs_first_ino) % page_bits)

-- `find_first_zero_bit(p, page_bits)`; `none` is page_bits.
unfoldable pub find_first_zero_bit : (ℕ → Bool) → Option ℕ
find_first_zero_bit p = first_up (λ i. not (p i)) page_bits 0

-- Au_LOFF_MAX / sizeof(struct au_xino_entry) - 1.
abbrev pub max_entry : ℕ
max_entry = (2 ^ 63 - 1) / 4 - 1

-- What a search of the pages ends with: a free bit of the page in the buffer, none, or an error.
pub data Search : Type 0 where
  found : (bit : ℕ) → Search
  full failed : Search

module _ (io : ℕ → Bool) where
  -- The buffer to a page of the file.
  unfoldable pub write_xib : XinoInfo → ℕ → Bool × XinoInfo
  write_xib s pindex =
      if io s.io_calls
      then (
        true,
        record s {
          xib_pages = update s.xib_pages pindex s.xib_buf;
          xib_npages = max s.xib_npages (pindex + 1);
          io_calls = s.io_calls + 1;
        },
      )
      else (false, record s { io_calls = s.io_calls + 1 })

  -- A page of the file to the buffer.
  unfoldable pub read_xib : XinoInfo → ℕ → Bool × XinoInfo
  read_xib s pindex =
      if io s.io_calls
      then (true, record s { xib_buf = s.xib_pages pindex; io_calls = s.io_calls + 1 })
      else (false, record s { io_calls = s.io_calls + 1 })

  -- The second half of xib_pindex: the page is read, or is new.
  unfoldable pub load_xib : XinoInfo → ℕ → Bool × XinoInfo
  load_xib s pindex =
      if leb (pindex + 1) s.xib_npages
      then read_xib s pindex
      else write_xib (record s { xib_buf = λ _. false }) pindex

  unfoldable pub xib_pindex : XinoInfo → ℕ → Bool × XinoInfo
  xib_pindex s pindex =
      let (wrote, s1) = write_xib s s.xib_last_pindex in
      let (loaded, s2) = load_xib s1 pindex in
      if pindex == s.xib_last_pindex
      then (true, s)
      else if wrote
      then (if loaded then (true, record s2 { xib_last_pindex = pindex }) else (false, s2))
      else (false, s1)

  unfoldable pub au_xino_do_write : XinoInfo → (file h_ino ino : ℕ) → Bool × XinoInfo
  au_xino_do_write s file h_ino ino =
      if ltb max_entry h_ino
      then (false, s)
      else if io s.io_calls
      then (
        true,
        record s {
          xi_entries = update s.xi_entries file (update (s.xi_entries file) h_ino ino);
          xi_size = update s.xi_size file (max (s.xi_size file) (h_ino + 1));
          io_calls = s.io_calls + 1;
        },
      )
      else (false, record s { io_calls = s.io_calls + 1 })

  -- The shortening of a file that au_xino_write may start in the background is left out.
  unfoldable pub au_xino_write : XinoInfo → (bindex h_ino ino : ℕ) → Bool × XinoInfo
  au_xino_write s bindex h_ino ino =
      if s.opt_xino then au_xino_do_write s (s.xi_file bindex) h_ino ino else (true, s)

  -- The number, 0 if there is none, or `none` for an error.
  unfoldable pub au_xino_read : XinoInfo → (bindex h_ino : ℕ) → Option ℕ × XinoInfo
  au_xino_read s bindex h_ino =
      let file = s.xi_file bindex in
      if not s.opt_xino
      then (some 0, s)
      else if ltb max_entry h_ino
      then (none, s)
      else if ltb (s.xi_size file) (h_ino + 1)
      then (some 0, s)
      else (
        if io s.io_calls then some (s.xi_entries file h_ino) else none,
        record s { io_calls = s.io_calls + 1 },
      )

  -- A number is given up.
  unfoldable pub clear_ino : XinoInfo → (ino : ℕ) → Bool × XinoInfo
  clear_ino s ino =
      let (pindex, bit) = xib_calc_bit ino in
      let (ok, s1) = xib_pindex s pindex in
      if ok
      then (true, record s1 { xib_buf = update s1.xib_buf bit false; xib_next_bit = bit })
      else (false, s1)

  unfoldable pub au_xino_write0 : XinoInfo → (bindex h_ino ino : ℕ) → Bool × XinoInfo
  au_xino_write0 s bindex h_ino ino =
      let (ok, s1) = if ino == 0 then (true, s) else clear_ino s ino in
      if not s.opt_xino
      then (true, s)
      else if ok
      then au_xino_write s1 bindex h_ino 0
      else (false, s1)

  -- The pages below `n`, downwards.
  unfoldable pub search_down : (n : ℕ) → XinoInfo → Search × XinoInfo
  search_down zero s = (full, s)
  search_down (suc n) s =
      let (ok, s1) = xib_pindex s n in
      let rest = search_down n s1 in
      if ok
      then elim (find_first_zero_bit s1.xib_buf) [ some bit ↦ (found bit, s1) | none ↦ rest ]
      else (failed, s1)

  -- `n` pages from `ul` on.
  unfoldable pub search_up : (n ul : ℕ) → XinoInfo → Search × XinoInfo
  search_up zero ul s = (full, s)
  search_up (suc n) ul s =
      let (ok, s1) = xib_pindex s ul in
      let rest = search_up n (ul + 1) s1 in
      if ok
      then elim (find_first_zero_bit s1.xib_buf) [ some bit ↦ (found bit, s1) | none ↦ rest ]
      else (failed, s1)

  -- The buffer, the pages below, and then those above with one more than the file has.
  unfoldable pub search_others : XinoInfo → Search × XinoInfo
  search_others s =
      let pindex = s.xib_last_pindex in
      let (r, s1) = search_down pindex s in
      elim r [
        | found bit ↦ (found bit, s1)
        | failed ↦ (failed, s1)
        | full ↦ search_up (s1.xib_npages - pindex) (pindex + 1) s1
      ]

  unfoldable pub search_xib : XinoInfo → Search × XinoInfo
  search_xib s =
      let free_bit = s.xib_next_bit in
      if ltb free_bit page_bits && not (s.xib_buf free_bit)
      then (found free_bit, s)
      else elim (find_first_zero_bit s.xib_buf) [
        | some bit ↦ (found bit, s)
        | none ↦ search_others s
      ]

  -- 0 is an error, `none` a BUG; `iunique` is what the kernel's function of that name gives.
  unfoldable pub au_xino_new_ino : XinoInfo → (iunique : ℕ) → Option ℕ × XinoInfo
  au_xino_new_ino s iunique =
      let (r, s1) = search_xib s in
      if not s.opt_xino then (some iunique, s) else elim r [
        | found bit ↦ (
          some (xib_calc_ino s1.xib_last_pindex bit),
          record s1 { xib_buf = update s1.xib_buf bit true; xib_next_bit = s1.xib_next_bit + 1 },
        )
        | failed ↦ (some 0, s1)
        | full ↦ (none, s1)
      ]

  -- `au_ino` of vdir.c: the number of an inode on a branch, a new one if it has none. `none` is an
  -- error.
  unfoldable pub au_ino : XinoInfo → (bindex h_ino iunique : ℕ) → Option ℕ × XinoInfo
  au_ino s bindex h_ino iunique =
      let (r, s1) = au_xino_read s bindex h_ino in
      let (new, s2) = au_xino_new_ino s1 iunique in
      elim r [
        | none ↦ (none, s1)
        | some old ↦
            if old == 0
            then elim new [
              | none ↦ (none, s2)
              | some ino ↦
                  let (ok, s3) = au_xino_write s2 bindex h_ino ino in
                  if ino == 0 then (none, s2) else if ok then (some ino, s3) else (none, s3)
            ]
            else (some old, s1)
      ]
