-- ===== src/Ramzswap/Limits.antt =====
-- The limits of ramzswap.c: valid requests stay in the page table, and the sizes that the module
-- parameters give.
use kernel_patches.Base.{
  ℕ, ◌*◌, ◌/◌, ◌%◌, ◌^◌, ◌≤◌, ◌<◌, ◌≡◌, true, some, ◌==◌, if◌then◌else◌, arith,
}
use kernel_patches.Xvmalloc.{page_size}
use kernel_patches.Ramzswap.{Ramzswap, Bio, index_of}
use kernel_patches.Ramzswap.Requests.{valid_swap_request}
use kernel_patches.Ramzswap.Setup.{ramzswap_set_disksize, ramzswap_set_memlimit}

-- For a disk size of whole pages, the table index of every request that valid_swap_request lets pass
-- is below the number of table entries.
pub valid_swap_request-index_of :
    (s : Ramzswap) (bio : Bio)
    → s.disksize % page_size ≡ 0
    → valid_swap_request s bio ≡ true
    → index_of bio < s.disksize / page_size
unfolding valid_swap_request
valid_swap_request-index_of s bio whole valid = ground (arith, whole, valid)

-- The disk size set without a backing device is of whole pages, and is not larger than asked for
-- with disksize_kb, if that is not 0, nor than a quarter of the memory, if it is.
pub ramzswap_set_disksize_lem :
    (disksize_kb totalram_bytes : ℕ)
    → let size = ramzswap_set_disksize disksize_kb totalram_bytes in
      (size % page_size ≡ 0)
      × (size ≤ (if disksize_kb == 0 then totalram_bytes / 4 else disksize_kb * 2 ^ 10))
unfolding ramzswap_set_disksize
ramzswap_set_disksize_lem disksize_kb totalram_bytes = ground arith

-- A memory limit that ramzswap_set_memlimit sets is of whole pages, at least one page and not above
-- the disk size, for every memlimit_kb and memory size.
pub ramzswap_set_memlimit_lem :
    (memlimit_kb disksize totalram_bytes memlimit : ℕ)
    → ramzswap_set_memlimit memlimit_kb disksize totalram_bytes ≡ some memlimit
    → (memlimit % page_size ≡ 0) × (page_size ≤ memlimit) × (memlimit ≤ disksize)
unfolding ramzswap_set_memlimit
ramzswap_set_memlimit_lem memlimit_kb disksize totalram_bytes memlimit e = ground (arith, e)
