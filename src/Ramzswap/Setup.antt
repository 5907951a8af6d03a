-- ===== src/Ramzswap/Setup.antt =====
-- The module parameters of ramzswap.c: ramzswap_set_disksize and ramzswap_set_memlimit, and the swap
-- header made without a backing device. `size_t` and `unsigned long` have 32 bits.
use kernel_patches.Base.{ℕ, ◌*◌, ◌/◌, ◌%◌, ◌^◌, Option, none, some, ◌||◌, ◌==◌, ltb, if◌then◌else◌}
use kernel_patches.Xvmalloc.{page_size, sub32}

-- `& PAGE_MASK`.
abbrev pub page_mask : ℕ → ℕ
page_mask n = n / page_size * page_size

unfoldable pub ramzswap_set_disksize : (disksize_kb totalram_bytes : ℕ) → ℕ
ramzswap_set_disksize disksize_kb totalram_bytes = page_mask (
    if disksize_kb == 0
    then 25 * (totalram_bytes / 100) % 2 ^ 32
    else disksize_kb * 2 ^ 10 % 2 ^ 32)

-- `none` is BUG_ON of a limit of 0.
unfoldable pub ramzswap_set_memlimit : (memlimit_kb disksize totalram_bytes : ℕ) → Option ℕ
ramzswap_set_memlimit memlimit_kb disksize totalram_bytes =
    let memlimit = memlimit_kb * 2 ^ 10 % 2 ^ 32 in
    let mempart = 15 * (totalram_bytes / 100) % 2 ^ 32 in
    let default = if ltb disksize mempart then disksize else mempart in
    let chosen =
      page_mask (if (memlimit == 0) || ltb disksize memlimit then default else memlimit) in
    if chosen == 0 then none else some chosen

-- The swap header's fields.
pub record SwapHeader : Type 0 where
  pub version : ℕ
  pub last_page : ℕ
  pub nr_badpages : ℕ

unfoldable pub setup_swap_header : (disksize : ℕ) → SwapHeader
setup_swap_header disksize = record {
  version = 1;
  last_page = sub32 (disksize / page_size) 1;
  nr_badpages = 0;
}
