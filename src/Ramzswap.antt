-- ===== src/Ramzswap.antt =====
-- The compressed swap device, compcache/compcache-0.5.4/ramzswap.c and ramzswap.h: its page table,
-- statistics and requests. STATS is on. A request runs to its end with the driver's lock; the block
-- layer's completion calls are the reply. A page is the list of its 4096 bytes.
pub mod Slots
pub mod Requests
pub mod Setup
pub mod Bytes
pub mod Reads
pub mod RoundTrip
pub mod Forward
pub mod Limits
pub mod Memlimit
use kernel_patches.Base.{
  ℕ, zero, suc, ◌+◌, ◌-◌, ◌/◌, ◌%◌, ◌^◌, ◌<◌, ◌≡◌, Bool, true, false, ◌&&◌, Option, none, some,
  List, [], ◌∷◌, length, ◌==◌, if◌then◌else◌, bit, or_bit, and_not_bit,
}
use kernel_patches.Xvmalloc.{Loc, loc, Xv, update}

-- The compressor: what it makes of a page, and back with at most so many bytes of room. The laws are
-- lzo's: what was compressed is not empty, and decompresses to what it was made of.
pub record Lzo : Type 0 where
  pub compress : List ℕ → Option (List ℕ)
  pub decompress_safe : List ℕ → (room : ℕ) → Option (List ℕ)
  pub decompress-compress :
      (page c : List ℕ) → compress page ≡ some c → decompress_safe c (length page) ≡ some page
  pub compress_pos : (page c : List ℕ) → compress page ≡ some c → 0 < length c

-- `struct table`.
pub record Table : Type 0 where
  pub pagenum : ℕ
  pub offset : ℕ
  pub flags : ℕ

-- `enum rzs_pageflags`, as bit numbers.
abbrev pub rzs_uncompressed : ℕ
rzs_uncompressed = 0

abbrev pub rzs_zero : ℕ
rzs_zero = 1

-- `struct ramzswap_stats`.
pub record RamzswapStats : Type 0 where
  pub compr_size : ℕ
  pub num_reads : ℕ
  pub num_writes : ℕ
  pub failed_reads : ℕ
  pub failed_writes : ℕ
  pub invalid_io : ℕ
  pub notify_free : ℕ
  pub pages_zero : ℕ
  pub pages_stored : ℕ
  pub good_compress : ℕ
  pub pages_expand : ℕ
  pub bdev_num_reads : ℕ
  pub bdev_num_writes : ℕ

-- `struct ramzswap`, the statistics, and the bytes of the pages that hold objects. `backing_swap`
-- says whether there is a backing device.
pub record Ramzswap : Type 0 where
  pub mem_pool : Xv
  pub bytes : ℕ → ℕ → ℕ
  pub table : ℕ → Table
  pub memlimit : ℕ
  pub disksize : ℕ
  pub backing_swap : Bool
  pub stats : RamzswapStats

-- The parts of `struct bio` that are read, with the bytes of its page.
pub data Direction : Type 0 where
  read write : Direction

pub record Bio : Type 0 where
  pub bi_sector : ℕ
  pub bi_vcnt : ℕ
  pub bi_size : ℕ
  pub bv_offset : ℕ
  pub bv_page : List ℕ

-- How a request ends: with the page as it then is, with BIO_IO_ERROR, or sent on to the backing
-- device.
pub data Reply : Type 0 where
  completed : List ℕ → Reply
  io_error forwarded : Reply

-- `stat_inc` on the u32 counters, and `size_t` arithmetic.
abbrev pub add32 : ℕ → ℕ → ℕ
add32 a b = (a + b) % 2 ^ 32

-- The flags of a page.
unfoldable pub test_page_flag : Ramzswap → ℕ → ℕ → Bool
test_page_flag s index flag = bit flag (s.table index).flags

unfoldable pub set_page_flag : Ramzswap → ℕ → ℕ → Ramzswap
set_page_flag s index flag = record s {
  table =
      update s.table index (record (s.table index) { flags = or_bit flag (s.table index).flags });
}

unfoldable pub clear_page_flag : Ramzswap → ℕ → ℕ → Ramzswap
clear_page_flag s index flag = record s {
  table =
      update s.table index
        (record (s.table index) { flags = and_not_bit flag (s.table index).flags });
}

-- The source tests eight bytes at a time.
unfoldable pub page_zero_filled : List ℕ → Bool
page_zero_filled [] = true
page_zero_filled (x ∷ xs) = (x == 0) && page_zero_filled xs

-- `memset(user_mem, 0, n)`.
unfoldable pub zeros : ℕ → List ℕ
zeros zero = []
zeros (suc n) = 0 ∷ zeros n

-- `memcpy` to and from the object at an offset of a page.
unfoldable pub copy_to : (ℕ → ℕ → ℕ) → Loc → List ℕ → ℕ → ℕ → ℕ
unfolding update
copy_to m a [] = m
copy_to m a (x ∷ xs) =
    copy_to (update m a.pagenum (update (m a.pagenum) a.offset x)) (loc a.pagenum (a.offset + 1)) xs

unfoldable pub copy_from : (ℕ → ℕ → ℕ) → Loc → ℕ → List ℕ
copy_from m a zero = []
copy_from m a (suc n) = m a.pagenum a.offset ∷ copy_from m (loc a.pagenum (a.offset + 1)) n

-- The place of the object of a table entry, and the request's index.
abbrev pub place_of : Ramzswap → ℕ → Loc
place_of s index = loc (s.table index).pagenum (s.table index).offset

abbrev pub index_of : Bio → ℕ
index_of bio = bio.bi_sector / 8
