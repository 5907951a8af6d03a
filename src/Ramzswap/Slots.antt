-- ===== src/Ramzswap/Slots.antt =====
-- ramzswap_free_page and the notifications of ramzswap.c: a table entry gives up what it holds.
use kernel_patches.Base.{ℕ, ◌+◌, ◌/◌, Option, none, some, ◌==◌, ltb, if◌then◌else◌}
use kernel_patches.Kernel.Bitops.{Bitops}
use kernel_patches.Xvmalloc.{page_size, sub32, stat_inc, update}
use kernel_patches.Xvmalloc.Free.{bug, kept, page_freed, xv_free, xv_get_object_size}
use kernel_patches.Ramzswap.{
  Ramzswap, rzs_uncompressed, rzs_zero, test_page_flag, clear_page_flag, place_of,
}

-- RZS_ZERO goes, and the count of zero pages with it.
unfoldable pub clear_zero : Ramzswap → ℕ → Ramzswap
unfolding clear_page_flag test_page_flag
clear_zero s index =
    let cleared = clear_page_flag s index rzs_zero in
    if test_page_flag s index rzs_zero
    then record cleared { stats = record (s.stats) { pages_zero = sub32 s.stats.pages_zero 1 } }
    else s

-- The part from `out:` on.
unfoldable pub empty_slot : Ramzswap → (index clen : ℕ) → Ramzswap
empty_slot s index clen = record s {
  stats = record (s.stats) {
    compr_size = sub32 s.stats.compr_size clen;
    pages_stored = sub32 s.stats.pages_stored 1;
  };
  table = update s.table index (record (s.table index) { pagenum = 0; offset = 0 });
}

-- An uncompressed page goes back to the kernel.
unfoldable pub free_uncompressed : Ramzswap → ℕ → Ramzswap
unfolding empty_slot clear_page_flag
free_uncompressed s index =
    let cleared = clear_page_flag s index rzs_uncompressed in
    empty_slot
      (record cleared { stats = record (s.stats) { pages_expand = sub32 s.stats.pages_expand 1 } })
      index page_size

module _ (b : Bitops) where
  -- A compressed one goes back to the pool. `none` is a BUG_ON of xv_free.
  unfoldable pub free_compressed : Ramzswap → ℕ → Option Ramzswap
  unfolding empty_slot
  free_compressed s index =
      let clen = xv_get_object_size s.mem_pool.mem (place_of s index) in
      let good = if ltb clen (page_size / 2 + 1) then 1 else 0 in
      let stats = record (s.stats) { good_compress = sub32 s.stats.good_compress good } in
      elim (xv_free b s.mem_pool (place_of s index)) [
        | bug ↦ none
        | kept pool ↦ some (empty_slot (record s { mem_pool = pool; stats = stats }) index clen)
        | page_freed page pool ↦
            some (empty_slot (record s { mem_pool = pool; stats = stats }) index clen)
      ]

  unfoldable pub ramzswap_free_page : Ramzswap → ℕ → Option Ramzswap
  unfolding clear_zero free_uncompressed free_compressed
  ramzswap_free_page s index =
      if (s.table index).pagenum == 0
      then some (clear_zero s index)
      else if test_page_flag s index rzs_uncompressed
      then some (free_uncompressed s index)
      else free_compressed s index

  -- The swap notification of a kernel with CONFIG_SWAP_NOTIFIERS.
  unfoldable pub ramzswap_slot_free_notify : Ramzswap → ℕ → Option Ramzswap
  unfolding ramzswap_free_page
  ramzswap_slot_free_notify s index = elim (ramzswap_free_page s index) [
    | none ↦ none
    | some s1 ↦
        some
          (record s1 { stats = record (s1.stats) { notify_free = stat_inc s1.stats.notify_free } })
  ]

  -- The one of a kernel with CONFIG_SWAP_FREE_NOTIFY, which asks first whether a page is stored.
  unfoldable pub ramzswap_free_notify : Ramzswap → ℕ → Option Ramzswap
  unfolding ramzswap_slot_free_notify
  ramzswap_free_notify s index =
      if (s.table index).pagenum == 0 then some s else ramzswap_slot_free_notify s index

  -- What ramzswap_write does first.
  unfoldable pub drop_old : Ramzswap → ℕ → Option Ramzswap
  drop_old s index =
      let freed = if (s.table index).pagenum == 0 then some s else ramzswap_free_page s index in
      elim freed [ none ↦ none | some s1 ↦ some (clear_zero s1 index) ]
