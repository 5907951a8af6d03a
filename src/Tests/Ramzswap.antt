-- ===== src/Tests/Ramzswap.antt =====
-- ramzswap with an empty pool: a page of ones, and a request that goes to the backing device.
use kernel_patches.Base.{
  ℕ, zero, suc, ◌%◌, ◌≤◌, ◌<◌, ◌≡◌, refl, true, false, Option, none, some, List, [], ◌∷◌, length,
  leb, bit, if◌then◌else◌, arith,
}
use kernel_patches.Kernel.Bitops.{word_bitops}
use kernel_patches.Xvmalloc.{page_size}
use kernel_patches.Ramzswap.{
  Lzo, RamzswapStats, Ramzswap, Bio, Reply, completed, forwarded, test_page_flag, set_page_flag,
  clear_page_flag, page_zero_filled,
}
use kernel_patches.Ramzswap.Slots.{clear_zero, drop_old}
use kernel_patches.Ramzswap.Requests.{ramzswap_read, ramzswap_write, write_page, forward_write}
use kernel_patches.Ramzswap.Setup.{ramzswap_set_memlimit}
use kernel_patches.Ramzswap.RoundTrip.{ramzswap_write-read}
use kernel_patches.Ramzswap.Memlimit.{ramzswap_write-compr_size}
use kernel_patches.Ramzswap.Forward.{ramzswap_write-forwarded}
use kernel_patches.Ramzswap.Limits.{ramzswap_set_memlimit_lem}
use kernel_patches.Tests.Xvmalloc.{empty_pool, no_lists, empty_pool-IsListed}

-- A compressor that writes a byte and then the page.
abbrev stored_compress : List ℕ → Option (List ℕ)
stored_compress page = some (17 ∷ page)

abbrev stored_decompress : List ℕ → ℕ → Option (List ℕ)
stored_decompress [] room = none
stored_decompress (x ∷ xs) room = if leb (length xs) room then some xs else none

stored_round_trip :
    (page c : List ℕ)
    → stored_compress page ≡ some c
    → stored_decompress c (length page) ≡ some page
stored_round_trip page [] e = ground arith
stored_round_trip page (x ∷ xs) e = ground arith

stored_pos : (page c : List ℕ) → stored_compress page ≡ some c → 0 < length c
stored_pos page [] e = ground arith
stored_pos page (x ∷ xs) e = omega arith

abbrev stored_lzo : Lzo
stored_lzo = record {
  compress = stored_compress;
  decompress_safe = stored_decompress;
  decompress-compress = stored_round_trip;
  compress_pos = stored_pos;
}

unfoldable ones : ℕ → List ℕ
ones zero = []
ones (suc n) = 1 ∷ ones n

length-ones : (n : ℕ) → length (ones n) ≡ n
unfolding ones
length-ones zero = refl
length-ones (suc n) = omega (arith, length-ones n)

abbrev no_stats : RamzswapStats
no_stats = record {
  compr_size = 0;
  num_reads = 0;
  num_writes = 0;
  failed_reads = 0;
  failed_writes = 0;
  invalid_io = 0;
  notify_free = 0;
  pages_zero = 0;
  pages_stored = 0;
  good_compress = 0;
  pages_expand = 0;
  bdev_num_reads = 0;
  bdev_num_writes = 0;
}

abbrev device : Ramzswap
device = record {
  mem_pool = empty_pool;
  bytes = λ _ _. 0;
  table = λ _. record { pagenum = 0; offset = 0; flags = 0 };
  memlimit = 8192;
  disksize = 40960;
  backing_swap = false;
  stats = no_stats;
}

abbrev request : List ℕ → Bio
request page = record { bi_sector = 16; bi_vcnt = 1; bi_size = 4096; bv_offset = 0; bv_page = page }

ramzswap_write-read_example :
    (r : Reply × Ramzswap) × (ramzswap_write word_bitops stored_lzo device (request (ones 4096)) 7
      ≡ some r)
    × (r.0 ≡ completed (ones 4096))
    × ((ramzswap_read stored_lzo r.1 (request [])).0 ≡ completed (ones 4096))
unfolding test_page_flag bit
ramzswap_write-read_example =
    ramzswap_write-read word_bitops stored_lzo device no_lists (request (ones 4096)) (request []) 7
      (17 ∷ ones 4096) empty_pool-IsListed (omega arith) (λ i h. refl) (length-ones 4096) refl refl
      (refl, refl) refl

-- A device with a backing device, at its memory limit.
abbrev full_device : Ramzswap
full_device = record device { backing_swap = true; stats = record no_stats { compr_size = 8000 } }

abbrev full_device_sent : Ramzswap
full_device_sent = record full_device {
  stats = record no_stats { compr_size = 8000; num_writes = 1; bdev_num_writes = 1 };
}

full_device_run :
    ramzswap_write word_bitops stored_lzo full_device (request (1 ∷ [])) 0
    ≡ some (forwarded, full_device_sent)
unfolding ramzswap_write drop_old clear_zero clear_page_flag test_page_flag write_page set_page_flag
    page_zero_filled forward_write bit
full_device_run = refl

ramzswap_write-forwarded_example :
    (ramzswap_read stored_lzo full_device_sent (request [])).0 ≡ forwarded
ramzswap_write-forwarded_example =
    ramzswap_write-forwarded word_bitops stored_lzo full_device full_device_sent (request (1 ∷ []))
      (request []) 0 full_device_run refl

ramzswap_set_memlimit_lem_example :
    (14999552 % page_size ≡ 0) × (page_size ≤ 14999552) × (14999552 ≤ 40000000)
unfolding ramzswap_set_memlimit
ramzswap_set_memlimit_lem_example = ramzswap_set_memlimit_lem 0 40000000 100000000 14999552 refl

ramzswap_write-compr_size_example :
    (r : Reply × Ramzswap) × (ramzswap_write word_bitops stored_lzo full_device (request (1 ∷ [])) 7
      ≡ some r)
    × (r.1.stats.compr_size ≤ 8192)
ramzswap_write-compr_size_example =
    ramzswap_write-compr_size word_bitops stored_lzo full_device (request (1 ∷ [])) 7 refl
      (omega arith) (omega arith) (omega arith) refl
