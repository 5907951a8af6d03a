-- ===== src/Xvmalloc.antt =====
-- The xvmalloc allocator,
-- compcache/compcache-0.5.4/sub-projects/allocators/xvmalloc-kmod/xvmalloc.c and xvmalloc_int.h:
-- constants, data layout, header accessors and free-list indices. The operations are in the
-- children. `ulong` has 32 bits and a page 4096 bytes, as on the ARM devices that this is built for.
pub mod FreeList
pub mod FindBlock
pub mod Alloc
pub mod Free
pub mod Index
pub mod Bitmaps
pub mod Search
pub mod Chain
pub mod Unlink
pub mod Lists
pub mod Grow
pub mod Malloc
unfoldable pub use kernel_patches.Base.{update}
use kernel_patches.Base.{
  ℕ, ◌+◌, ◌-◌, ◌*◌, ◌/◌, ◌%◌, ◌^◌, Bool, ◌&&◌, Option, ◌==◌, ltb, if◌then◌else◌, bit_or, bit,
  or_bit, and_not_bit,
}

abbrev pub page_size : ℕ
page_size = 4096

abbrev pub page_shift : ℕ
page_shift = 12

abbrev pub xv_align : ℕ
xv_align = 4

abbrev pub xv_min_alloc_size : ℕ
xv_min_alloc_size = 32

abbrev pub xv_max_alloc_size : ℕ
xv_max_alloc_size = page_size - xv_align

abbrev pub fl_delta : ℕ
fl_delta = 8

abbrev pub num_free_lists : ℕ
num_free_lists = (xv_max_alloc_size - xv_min_alloc_size) / fl_delta + 1

abbrev pub bits_per_long : ℕ
bits_per_long = 32

-- Stores into `u16` fields, and `u32` arithmetic.
abbrev pub u16 : ℕ → ℕ
u16 x = x % 2 ^ 16

abbrev pub sub32 : ℕ → ℕ → ℕ
sub32 a b = (a + 2 ^ 32 - b) % 2 ^ 32

-- `stat_inc` and `stat_dec`, on 64 bits.
abbrev pub stat_inc : ℕ → ℕ
stat_inc value = (value + 1) % 2 ^ 64

abbrev pub stat_dec : ℕ → ℕ
stat_dec value = (value + 2 ^ 64 - 1) % 2 ^ 64

-- `ALIGN(x, a)` of the kernel's headers, for the powers of two used here.
abbrev pub align : ℕ → ℕ → ℕ
align x a = (x + (a - 1)) / a * a

-- A <pagenum, offset> pair; also `struct freelist_entry`. Page number 0 is the null pointer.
pub record Loc : Type 0 where
  pub pagenum : ℕ
  pub offset : ℕ

abbrev pub loc : ℕ → ℕ → Loc
loc p o = record { pagenum = p; offset = o }

abbrev pub loc_eq : Loc → Loc → Bool
loc_eq a b = (a.pagenum == b.pagenum) && (a.offset == b.offset)

-- `struct link_free`.
pub record LinkFree : Type 0 where
  pub prev : Loc
  pub next : Loc

-- `struct block_header`: `prev` holds the previous block's offset and, in its two low bits, flags.
pub record BlockHeader : Type 0 where
  pub size : ℕ
  pub prev : ℕ
  pub link : LinkFree

-- The block headers in the pages that the kernel maps, by place. Headers that are in use lie at
-- least a header apart, and a link is read only in a block that is large enough to hold it.
abbrev pub Mem : Type 0
Mem = Loc → BlockHeader

unfoldable pub store : Mem → Loc → BlockHeader → Mem
store m a h b = if loc_eq a b then h else m b

pub record XvPool : Type 0 where
  pub flbitmap : ℕ
  pub slbitmap : ℕ → ℕ
  pub freelist : ℕ → Loc
  pub total_pages : ℕ

-- The pool, and the pages that it lives in.
pub record Xv : Type 0 where
  pub pool : XvPool
  pub mem : Mem

-- `enum blockflags`, as bit numbers.
abbrev pub block_free : ℕ
block_free = 0

abbrev pub prev_free : ℕ
prev_free = 1

unfoldable pub test_flag : BlockHeader → ℕ → Bool
test_flag h flag = bit flag h.prev

unfoldable pub set_flag : BlockHeader → ℕ → BlockHeader
set_flag h flag = record h { prev = or_bit flag h.prev }

unfoldable pub clear_flag : BlockHeader → ℕ → BlockHeader
clear_flag h flag = record h { prev = and_not_bit flag h.prev }

-- `PREV_MASK` keeps all but the two low bits, `FLAGS_MASK` those two.
unfoldable pub get_blockprev : BlockHeader → ℕ
get_blockprev h = h.prev / 4 * 4

unfoldable pub set_blockprev : BlockHeader → ℕ → BlockHeader
set_blockprev h new_offset = record h { prev = bit_or (u16 new_offset) (h.prev % 4) }

-- A change of the header at a place.
abbrev pub at : Mem → Loc → (BlockHeader → BlockHeader) → Mem
at m a f = store m a (f (m a))

-- `BLOCK_NEXT`: the place behind a block.
abbrev pub block_next : Mem → Loc → Loc
block_next m a = loc a.pagenum (a.offset + (m a).size + xv_align)

unfoldable pub get_index_for_insert : ℕ → ℕ
get_index_for_insert size =
    let size1 = if ltb xv_max_alloc_size size then xv_max_alloc_size else size in
    sub32 (size1 / fl_delta * fl_delta) xv_min_alloc_size / fl_delta

unfoldable pub get_index : ℕ → ℕ
get_index size =
    let size1 = if ltb size xv_min_alloc_size then xv_min_alloc_size else size in
    sub32 (align size1 fl_delta) xv_min_alloc_size / fl_delta
