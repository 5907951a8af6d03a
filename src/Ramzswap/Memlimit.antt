-- ===== src/Ramzswap/Memlimit.antt =====
-- The memory limit of ramzswap.c: what writes may add to the compressed size.
use kernel_patches.Base.{
  ℕ, ◌+◌, ◌^◌, ◌≤◌, ◌<◌, ◌≡◌, inl, inr, ◌∙◌, true, some, Option-cases, List, length, arith,
}
use kernel_patches.Kernel.Bitops.{Bitops}
use kernel_patches.Xvmalloc.{page_size, stat_inc}
use kernel_patches.Ramzswap.{Lzo, Ramzswap, Bio, Reply, set_page_flag, index_of}
use kernel_patches.Ramzswap.Slots.{clear_zero, drop_old}
use kernel_patches.Ramzswap.Requests.{
  memstore, store_compressed, compress_page, write_page, ramzswap_write, forward_write,
  count_failed_write, max_cpage_size,
}

module _ (b : Bitops) (lzo : Lzo) (s : Ramzswap) (index : ℕ) (page : List ℕ) (fresh : ℕ)
    (backing : s.backing_swap ≡ true) (page_le : page_size ≤ s.memlimit)
    (word : s.memlimit < 2 ^ 32) (below : s.stats.compr_size ≤ s.memlimit) where
  store_compressed-compr_size :
      (c : List ℕ)
      → s.stats.compr_size + length c ≤ s.memlimit
      → (store_compressed b s index c page fresh).1.stats.compr_size ≤ s.memlimit
  unfolding store_compressed memstore forward_write count_failed_write
  store_compressed-compr_size c fits = ground arith

  compress_page-compr_size :
      s.stats.compr_size + page_size ≤ s.memlimit
      → (compress_page b lzo s index page fresh).1.stats.compr_size ≤ s.memlimit
  unfolding compress_page forward_write count_failed_write max_cpage_size
  compress_page-compr_size fits = elim (Option-cases (lzo.compress page)) [
    | inl n ↦ ground arith
    | inr (c, at_c) ↦ ground (arith, store_compressed-compr_size c)
  ]

  write_page-compr_size : (write_page b lzo s index page fresh).1.stats.compr_size ≤ s.memlimit
  unfolding write_page forward_write set_page_flag
  write_page-compr_size = ground (arith, compress_page-compr_size)

clear_zero-limits :
    (s : Ramzswap) (index : ℕ)
    → let r = clear_zero s index in
      (r.backing_swap ≡ s.backing_swap)
      × (r.memlimit ≡ s.memlimit)
      × (r.stats.compr_size ≡ s.stats.compr_size)
unfolding clear_zero
clear_zero-limits s index = ground arith

-- With a backing device, a memory limit of at least a page that is a 32-bit size, and a table entry
-- that stores no page: ramzswap_write does not stop in a BUG_ON, and leaves the compressed size
-- within the memory limit if it was within it, whatever the page and the compressor's answer.
pub ramzswap_write-compr_size :
    (b : Bitops) (lzo : Lzo) (s : Ramzswap) (bio : Bio) (fresh : ℕ)
    → s.backing_swap ≡ true
    → page_size ≤ s.memlimit
    → s.memlimit < 2 ^ 32
    → s.stats.compr_size ≤ s.memlimit
    → (s.table (index_of bio)).pagenum ≡ 0
    → (r : Reply × Ramzswap) × (ramzswap_write b lzo s bio fresh ≡ some r)
      × (r.1.stats.compr_size ≤ s.memlimit)
unfolding ramzswap_write drop_old
ramzswap_write-compr_size b lzo s bio fresh backing page_le word below empty =
    let counted : Ramzswap = record s {
      stats = record (s.stats) { num_writes = stat_inc s.stats.num_writes };
    } in
    let s1 = clear_zero counted (index_of bio) in
    let (same_backing, same_limit, same_size) = clear_zero-limits counted (index_of bio) in
    let bound =
      write_page-compr_size b lzo s1 (index_of bio) bio.bv_page fresh (same_backing ∙ backing)
        (omega (arith, same_limit, page_le)) (omega (arith, same_limit, word))
        (omega (arith, same_limit, same_size, below)) in
    (
      write_page b lzo s1 (index_of bio) bio.bv_page fresh,
      ground (arith, empty),
      omega (arith, bound, same_limit),
    )
