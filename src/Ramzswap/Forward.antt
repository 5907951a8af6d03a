-- ===== src/Ramzswap/Forward.antt =====
-- With a backing device: a page that a write sends on to it is asked for there by the next read.
use kernel_patches.Base.{
  ℕ, ◌≡◌, inl, inr, sym, ap, subst, ◌∙◌, Bool, true, false, none, some, Option-cases, Bool-cases,
  List, length, ◌==◌, arith,
}
use kernel_patches.Kernel.Bitops.{Bitops}
use kernel_patches.Xvmalloc.{Xv, update, stat_inc}
use kernel_patches.Xvmalloc.Alloc.{enomem, xv_malloc, finish_malloc}
use kernel_patches.Ramzswap.{Lzo, Ramzswap, Bio, forwarded, rzs_zero, test_page_flag, index_of}
use kernel_patches.Ramzswap.Slots.{
  empty_slot, clear_zero, free_uncompressed, free_compressed, ramzswap_free_page, drop_old,
}
use kernel_patches.Ramzswap.Requests.{
  ramzswap_read, memstore, store_uncompressed, store_compressed, compress_page, write_page,
  ramzswap_write, forward_write, count_failed_write,
}
use kernel_patches.Ramzswap.Reads.{clear_zero_lem, read_fault, read_sector}

-- An entry for which reads go to the backing device.
abbrev Forwards : Ramzswap → ℕ → Type 0
Forwards s index =
    (s.backing_swap ≡ true)
    × ((s.table index).pagenum ≡ 0)
    × (test_page_flag s index rzs_zero ≡ false)

free_uncompressed-pagenum :
    (s : Ramzswap) (index : ℕ) → ((free_uncompressed s index).table index).pagenum ≡ 0
unfolding free_uncompressed empty_slot update
free_uncompressed-pagenum s index = ground arith

cleared_zero :
    (s s1 : Ramzswap) (index : ℕ)
    → (s.table index).pagenum ≡ 0
    → some (clear_zero s index) ≡ some s1
    → ((s1.table index).pagenum ≡ 0) × (test_page_flag s1 index rzs_zero ≡ false)
cleared_zero s s1 index z e =
    let (_, _, p, no_zero, _) = clear_zero_lem s index in
    let same : clear_zero s index ≡ s1 = ground arith in
    subst
      (λ (r : Ramzswap). ((r.table index).pagenum ≡ 0) × (test_page_flag r index rzs_zero ≡ false))
      same (p ∙ z, no_zero)

malloc_failed :
    (b : Bitops) (s : Xv) (size : ℕ) (nowait : Bool) (fresh : ℕ)
    → (xv_malloc b s size nowait fresh).status ≡ enomem
    → (xv_malloc b s size nowait fresh).place.pagenum ≡ 0
unfolding xv_malloc finish_malloc
malloc_failed b s size nowait fresh e = ground arith

module _ (b : Bitops) where
  free_compressed-pagenum :
      (s s1 : Ramzswap) (index : ℕ)
      → free_compressed b s index ≡ some s1
      → (s1.table index).pagenum ≡ 0
  unfolding free_compressed empty_slot update
  free_compressed-pagenum s s1 index e = ground arith

  free_page-pagenum :
      (s s1 : Ramzswap) (index : ℕ)
      → ramzswap_free_page b s index ≡ some s1
      → (s1.table index).pagenum ≡ 0
  unfolding ramzswap_free_page
  free_page-pagenum s s1 index e = ground (
    arith,
    (clear_zero_lem s index).2,
    free_compressed-pagenum s s1 index,
    free_uncompressed-pagenum s index,
  )

  drop_old_lem :
      (s s1 : Ramzswap) (index : ℕ)
      → drop_old b s index ≡ some s1
      → ((s1.table index).pagenum ≡ 0) × (test_page_flag s1 index rzs_zero ≡ false)
  unfolding drop_old
  drop_old_lem s s1 index e = elim (Bool-cases ((s.table index).pagenum == 0)) [
    | inl z ↦
        let cleared : drop_old b s index ≡ some (clear_zero s index) = rw (z, drop_old) in
        cleared_zero s s1 index (ground arith) (sym cleared ∙ e)
    | inr f ↦ elim (Option-cases (ramzswap_free_page b s index)) [
      | inl n ↦ let no_result : drop_old b s index ≡ none = rw (f, n, drop_old) in cc (no_result, e)
      | inr (s2, at_s2) ↦
          let cleared : drop_old b s index ≡ some (clear_zero s2 index) = rw (f, at_s2, drop_old) in
          cleared_zero s2 s1 index (free_page-pagenum s s2 index at_s2) (sym cleared ∙ e)
    ]
  ]

  module _ (lzo : Lzo) (s : Ramzswap) (index : ℕ) (page : List ℕ) (fresh : ℕ)
      (empty : (s.table index).pagenum ≡ 0)
      (no_zero : test_page_flag s index rzs_zero ≡ false) where
    store_compressed_forwarded :
        (c : List ℕ)
        → (store_compressed b s index c page fresh).0 ≡ forwarded
        → Forwards (store_compressed b s index c page fresh).1 index
    unfolding store_compressed forward_write count_failed_write memstore test_page_flag update
    store_compressed_forwarded c e =
        ground (arith, malloc_failed b s.mem_pool (length c) false fresh)

    write_page_forwarded :
        (write_page b lzo s index page fresh).0 ≡ forwarded
        → Forwards (write_page b lzo s index page fresh).1 index
    unfolding write_page compress_page forward_write count_failed_write store_uncompressed memstore
        test_page_flag
    write_page_forwarded e = elim (Option-cases (lzo.compress page)) [
      | inl n ↦ ground arith
      | inr (c, at_c) ↦ ground (arith, store_compressed_forwarded c)
    ]

-- If ramzswap_write sends a page on to the backing device, whatever the table entry held and for
-- whatever reason, the next ramzswap_read of that sector is sent on as well: no page from before
-- the write is read.
pub ramzswap_write-forwarded :
    (b : Bitops) (lzo : Lzo) (s s1 : Ramzswap) (bio next : Bio) (fresh : ℕ)
    → ramzswap_write b lzo s bio fresh ≡ some (forwarded, s1)
    → next.bi_sector ≡ bio.bi_sector
    → (ramzswap_read lzo s1 next).0 ≡ forwarded
unfolding ramzswap_write
ramzswap_write-forwarded b lzo s s1 bio next fresh e same =
    let counted : Ramzswap = record s {
      stats = record (s.stats) { num_writes = stat_inc s.stats.num_writes };
    } in
    elim (Option-cases (drop_old b counted (index_of bio))) [
      | inl n ↦
          let no_result : ramzswap_write b lzo s bio fresh ≡ none = rw (n, ramzswap_write) in
          cc (no_result, e)
      | inr (s2, at_s2) ↦
          let r = write_page b lzo s2 (index_of bio) bio.bv_page fresh in
          let result : ramzswap_write b lzo s bio fresh ≡ some r = rw (at_s2, ramzswap_write) in
          let (z, no_zero) = drop_old_lem b counted s2 (index_of bio) at_s2 in
          let is : some r ≡ some (forwarded, s1) = sym result ∙ e in
          let (reply, state) : (r.0 ≡ forwarded) × (r.1 ≡ s1) = ground arith in
          let (backing, z1, no_zero1) =
            subst (λ (w : Ramzswap). Forwards w (index_of bio)) state
              (write_page_forwarded b lzo s2 (index_of bio) bio.bv_page fresh z no_zero reply) in
          ap (λ w. w.0) (read_sector lzo s1 bio next same)
          ∙ read_fault lzo s1 bio no_zero1 z1 backing
    ]
