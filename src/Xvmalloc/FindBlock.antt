-- ===== src/Xvmalloc/FindBlock.antt =====
-- find_block of xvmalloc.c: the search of the two-level bitmap for a free list whose blocks are
-- large enough.
use kernel_patches.Base.{ℕ, ◌+◌, ◌*◌, ◌/◌, ◌%◌, not, ◌&&◌, ◌==◌, if◌then◌else◌, shr}
use kernel_patches.Kernel.Bitops.{Bitops}
use kernel_patches.Xvmalloc.{Loc, XvPool, bits_per_long, get_index}

-- The returned index and the two out parameters.
pub record Found : Type 0 where
  pub index : ℕ
  pub place : Loc

module _ (b : Bitops) (pool : XvPool) where
  -- The head of the list with that index.
  abbrev pub found_at : ℕ → Found
  found_at slindex = record { index = slindex; place = pool.freelist slindex }

  -- The last part: the first level's words behind `flindex`.
  unfoldable pub find_next_chunk : ℕ → Loc → Found
  find_next_chunk flindex place =
      let flbitmap = shr pool.flbitmap (flindex + 1) in
      let flindex1 = flindex + (b.ffs flbitmap + 1) in
      if flbitmap == 0
      then record { index = 0; place = place }
      else found_at (flindex1 * bits_per_long + b.ffs (pool.slbitmap flindex1))

  unfoldable pub find_block : ℕ → Loc → Found
  unfolding find_next_chunk
  find_block size place =
      let slindex = get_index size in
      let flindex = slindex / bits_per_long in
      let slbitmap = pool.slbitmap flindex in
      let slbitstart = slindex % bits_per_long in
      let rest = shr slbitmap (slbitstart + 1) in
      if pool.flbitmap == 0
      then record { index = 0; place = place }
      else if b.test_bit slbitstart slbitmap
      then found_at slindex
      else if not (slbitstart + 1 == bits_per_long) && not (rest == 0)
      then found_at (slindex + (b.ffs rest + 1))
      else find_next_chunk flindex place
