-- ===== src/Ramzswap/Requests.antt =====
-- ramzswap_read, ramzswap_write and ramzswap_make_request of ramzswap.c. `fresh` is the page that
-- the kernel's allocator has for the request, or 0; a request allocates at most one. `none` is a
-- BUG_ON.
use kernel_patches.Base.{
  ℕ, ◌+◌, ◌*◌, ◌/◌, ◌%◌, ◌^◌, Bool, true, false, not, ◌&&◌, ◌||◌, Option, none, some, List, length,
  ◌==◌, ltb, leb, if◌then◌else◌,
}
use kernel_patches.Kernel.Bitops.{Bitops}
use kernel_patches.Xvmalloc.{loc, page_size, sub32, stat_inc, stat_dec, update, u16}
use kernel_patches.Xvmalloc.Alloc.{ok, enomem, xv_malloc}
use kernel_patches.Xvmalloc.Free.{xv_get_object_size}
use kernel_patches.Ramzswap.{
  Lzo, Ramzswap, Bio, Direction, read, write, Reply, completed, io_error, forwarded,
  rzs_uncompressed, rzs_zero, test_page_flag, set_page_flag, page_zero_filled, zeros, copy_to,
  copy_from, place_of, index_of, add32,
}
use kernel_patches.Ramzswap.Slots.{drop_old}

-- In bounds, aligned to a page and one page long.
unfoldable pub valid_swap_request : Ramzswap → Bio → Bool
valid_swap_request s bio = not (
    leb (s.disksize / 2 ^ 9) bio.bi_sector
    || not (bio.bi_sector % 8 == 0)
    || not (bio.bi_vcnt == 1)
    || not (bio.bi_size == page_size)
    || not (bio.bv_offset == 0))

-- The limit on a compressed page that ramzswap_init sets.
unfoldable pub max_cpage_size : (backing_swap : Bool) → ℕ
max_cpage_size true = page_size / 2
max_cpage_size false = page_size / 4 * 3

unfoldable pub handle_zero_page : Ramzswap → Reply × Ramzswap
handle_zero_page s = (completed (zeros page_size), s)

unfoldable pub handle_uncompressed_page : Ramzswap → ℕ → Reply × Ramzswap
unfolding copy_from
handle_uncompressed_page s index = (completed (copy_from s.bytes (place_of s index) page_size), s)

unfoldable pub handle_ramzswap_fault : Ramzswap → Reply × Ramzswap
handle_ramzswap_fault s =
    if s.backing_swap
    then (
      forwarded,
      record s {
        stats = record (s.stats) {
          num_reads = stat_dec s.stats.num_reads;
          bdev_num_reads = stat_inc s.stats.bdev_num_reads;
        };
      },
    )
    else (completed (zeros page_size), s)

module _ (lzo : Lzo) where
  unfoldable pub decompress_page : Ramzswap → ℕ → Reply × Ramzswap
  decompress_page s index =
      let a = place_of s index in
      let src = copy_from s.bytes a (xv_get_object_size s.mem_pool.mem a) in
      elim (lzo.decompress_safe src page_size) [
        | some page ↦ (completed page, s)
        | none ↦ (
          io_error,
          record s { stats = record (s.stats) { failed_reads = stat_inc s.stats.failed_reads } },
        )
      ]

  unfoldable pub ramzswap_read : Ramzswap → Bio → Reply × Ramzswap
  unfolding handle_zero_page handle_uncompressed_page handle_ramzswap_fault decompress_page
  ramzswap_read s0 bio =
      let s = record s0 { stats = record (s0.stats) { num_reads = stat_inc s0.stats.num_reads } } in
      let index = index_of bio in
      if test_page_flag s index rzs_zero
      then handle_zero_page s
      else if (s.table index).pagenum == 0
      then handle_ramzswap_fault s
      else if test_page_flag s index rzs_uncompressed
      then handle_uncompressed_page s index
      else decompress_page s index

unfoldable pub forward_write : Ramzswap → Reply × Ramzswap
forward_write s = (
  forwarded,
  record s { stats = record (s.stats) { bdev_num_writes = stat_inc s.stats.bdev_num_writes } },
)

unfoldable pub count_failed_write : Ramzswap → Ramzswap
count_failed_write s = record s {
  stats = record (s.stats) { failed_writes = stat_inc s.stats.failed_writes };
}

-- From `memstore:` on; the object's page number is in the table already.
unfoldable pub memstore :
    Ramzswap → (index offset : ℕ) → (src : List ℕ) → (clen : ℕ) → (page : List ℕ) → Reply × Ramzswap
unfolding copy_to
memstore s index offset src clen page =
    let entry = record (s.table index) { offset = u16 offset } in
    let good = if ltb clen (page_size / 2 + 1) then 1 else 0 in
    (
      completed page,
      record s {
        table = update s.table index entry;
        bytes = copy_to s.bytes (loc entry.pagenum entry.offset) src;
        stats = record (s.stats) {
          compr_size = add32 s.stats.compr_size clen;
          pages_stored = add32 s.stats.pages_stored 1;
          good_compress = add32 s.stats.good_compress good;
        };
      },
    )

-- A page that does not compress well, without a backing device.
unfoldable pub store_uncompressed :
    Ramzswap → (index : ℕ) → (page : List ℕ) → (fresh : ℕ) → Reply × Ramzswap
unfolding memstore set_page_flag
store_uncompressed s index page fresh =
    let flagged = set_page_flag s index rzs_uncompressed in
    let s1 = record flagged {
      table = update flagged.table index (record (flagged.table index) { pagenum = fresh });
      stats = record (s.stats) { pages_expand = add32 s.stats.pages_expand 1 };
    } in
    if fresh == 0 then (io_error, count_failed_write s) else memstore s1 index 0 page page_size page

module _ (b : Bitops) where
  -- GFP_NOIO and __GFP_HIGHMEM let the pool grow.
  unfoldable pub store_compressed :
      Ramzswap → (index : ℕ) → (c page : List ℕ) → (fresh : ℕ) → Reply × Ramzswap
  unfolding memstore
  store_compressed s index c page fresh =
      let r = xv_malloc b s.mem_pool (length c) false fresh in
      let s1 = record s {
        mem_pool = r.state;
        table = update s.table index (record (s.table index) { pagenum = r.place.pagenum });
      } in
      elim (r.status) [
        | ok ↦ memstore s1 index r.place.offset c (length c) page
        | enomem ↦
            if s.backing_swap
            then forward_write (count_failed_write s1)
            else (io_error, count_failed_write s1)
      ]

  module _ (lzo : Lzo) where
    -- A page that is not all zeros, by what the compressor makes of it.
    unfoldable pub compress_page :
        Ramzswap → (index : ℕ) → (page : List ℕ) → (fresh : ℕ) → Reply × Ramzswap
    unfolding store_uncompressed store_compressed
    compress_page s index page fresh = elim (lzo.compress page) [
      | none ↦ (io_error, count_failed_write s)
      | some c ↦
          if ltb (max_cpage_size s.backing_swap) (length c)
          then (if s.backing_swap then forward_write s else store_uncompressed s index page fresh)
          else store_compressed s index c page fresh
    ]

    -- After the old page is gone.
    unfoldable pub write_page :
        Ramzswap → (index : ℕ) → (page : List ℕ) → (fresh : ℕ) → Reply × Ramzswap
    unfolding compress_page set_page_flag
    write_page s index page fresh =
        let flagged = set_page_flag s index rzs_zero in
        if page_zero_filled page
        then (
          completed page,
          record flagged { stats = record (s.stats) { pages_zero = add32 s.stats.pages_zero 1 } },
        )
        else if s.backing_swap && ltb (sub32 s.memlimit page_size) s.stats.compr_size
        then forward_write s
        else compress_page s index page fresh

    unfoldable pub ramzswap_write : Ramzswap → Bio → (fresh : ℕ) → Option (Reply × Ramzswap)
    ramzswap_write s0 bio fresh =
        let s = record s0 {
          stats = record (s0.stats) { num_writes = stat_inc s0.stats.num_writes };
        } in
        elim (drop_old b s (index_of bio)) [
          | none ↦ none
          | some s1 ↦ some (write_page s1 (index_of bio) bio.bv_page fresh)
        ]

    unfoldable pub ramzswap_make_request :
        Ramzswap → Direction → Bio → (fresh : ℕ) → Option (Reply × Ramzswap)
    unfolding valid_swap_request ramzswap_read ramzswap_write
    ramzswap_make_request s direction bio fresh =
        if valid_swap_request s bio
        then elim direction [
          | read ↦ some (ramzswap_read lzo s bio)
          | write ↦ ramzswap_write s bio fresh
        ]
        else some (
          io_error,
          record s { stats = record (s.stats) { invalid_io = stat_inc s.stats.invalid_io } },
        )
