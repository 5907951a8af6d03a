-- ===== src/Ramzswap/Reads.antt =====
-- What ramzswap_read answers for each kind of table entry, and an entry without its zero flag.
use kernel_patches.Base.{ℕ, ◌≡◌, ◌≢◌, ap, true, false, some, List, bit-and_not_bit, arith}
use kernel_patches.Xvmalloc.{page_size, update}
use kernel_patches.Xvmalloc.Free.{xv_get_object_size}
use kernel_patches.Ramzswap.{
  Lzo, Ramzswap, Bio, completed, forwarded, rzs_uncompressed, rzs_zero, test_page_flag,
  clear_page_flag, zeros, copy_from, place_of, index_of,
}
use kernel_patches.Ramzswap.Slots.{clear_zero}
use kernel_patches.Ramzswap.Requests.{handle_ramzswap_fault, decompress_page, ramzswap_read}

module _ (lzo : Lzo) (s : Ramzswap) (bio : Bio) where
  pub read_zero :
      test_page_flag s (index_of bio) rzs_zero ≡ true
      → (ramzswap_read lzo s bio).0 ≡ completed (zeros page_size)
  unfolding ramzswap_read test_page_flag
  read_zero z = ground arith

  module _ (nz : test_page_flag s (index_of bio) rzs_zero ≡ false) where
    pub read_uncompressed :
        (s.table (index_of bio)).pagenum ≢ 0
        → test_page_flag s (index_of bio) rzs_uncompressed ≡ true
        → (ramzswap_read lzo s bio).0
          ≡ completed (copy_from s.bytes (place_of s (index_of bio)) page_size)
    unfolding ramzswap_read test_page_flag
    read_uncompressed ne u = ground arith

    pub read_compressed :
        (page : List ℕ)
        → (s.table (index_of bio)).pagenum ≢ 0
        → test_page_flag s (index_of bio) rzs_uncompressed ≡ false
        → lzo.decompress_safe
            (copy_from s.bytes
              (place_of s (index_of bio))
              (xv_get_object_size s.mem_pool.mem (place_of s (index_of bio))))
            page_size
          ≡ some page
        → (ramzswap_read lzo s bio).0 ≡ completed page
    unfolding ramzswap_read test_page_flag decompress_page
    read_compressed page ne u e = ground arith

    pub read_fault :
        (s.table (index_of bio)).pagenum ≡ 0
        → s.backing_swap ≡ true
        → (ramzswap_read lzo s bio).0 ≡ forwarded
    unfolding ramzswap_read test_page_flag handle_ramzswap_fault
    read_fault z bk = ground arith

pub read_sector :
    (lzo : Lzo) (s : Ramzswap) (bio next : Bio)
    → next.bi_sector ≡ bio.bi_sector
    → ramzswap_read lzo s next ≡ ramzswap_read lzo s bio
unfolding ramzswap_read
read_sector lzo s bio next e =
    ap (λ sector. ramzswap_read lzo s (record bio { bi_sector = sector })) e

pub clear_zero_lem :
    (s : Ramzswap) (index : ℕ)
    → let r = clear_zero s index in
      (r.mem_pool ≡ s.mem_pool)
      × (r.backing_swap ≡ s.backing_swap)
      × ((r.table index).pagenum ≡ (s.table index).pagenum)
      × (test_page_flag r index rzs_zero ≡ false)
      × (test_page_flag r index rzs_uncompressed ≡ test_page_flag s index rzs_uncompressed)
unfolding clear_zero clear_page_flag test_page_flag update
clear_zero_lem s index = ground (
  arith,
  bit-and_not_bit rzs_zero rzs_zero (s.table index).flags,
  bit-and_not_bit rzs_zero rzs_uncompressed (s.table index).flags,
)
