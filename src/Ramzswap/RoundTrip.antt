-- ===== src/Ramzswap/RoundTrip.antt =====
-- What is written to ramzswap is read back.
use kernel_patches.Base.{
  ℕ, ◌+◌, ◌%◌, ◌^◌, ◌≤◌, ◌<◌, ◌≡◌, ◌≢◌, inl, inr, refl, sym, ap, subst, ◌∙◌, Bool, true, false,
  some, Bool-cases, List, length, ◌==◌, ltb, if◌then◌else◌, bit, or_bit, bit-or_bit, arith,
}
use kernel_patches.Kernel.Bitops.{Bitops}
use kernel_patches.Xvmalloc.{Loc, loc, page_size, update, stat_inc, u16}
use kernel_patches.Xvmalloc.Lists.{IsListed, update_self}
use kernel_patches.Xvmalloc.Grow.{Unlisted}
use kernel_patches.Xvmalloc.Alloc.{ok, xv_malloc}
use kernel_patches.Xvmalloc.Malloc.{xv_malloc_serves}
use kernel_patches.Xvmalloc.Free.{xv_get_object_size}
use kernel_patches.Ramzswap.{
  Lzo, Ramzswap, Table, Bio, Reply, completed, rzs_uncompressed, rzs_zero, test_page_flag,
  set_page_flag, page_zero_filled, zeros, copy_to, copy_from, place_of, index_of,
}
use kernel_patches.Ramzswap.Bytes.{copy_from-copy_to, zero_filled-zeros}
use kernel_patches.Ramzswap.Slots.{clear_zero, drop_old}
use kernel_patches.Ramzswap.Requests.{
  ramzswap_read, memstore, store_uncompressed, store_compressed, max_cpage_size, compress_page,
  write_page, ramzswap_write,
}
use kernel_patches.Ramzswap.Reads.{
  read_zero, read_uncompressed, read_compressed, read_sector, clear_zero_lem,
}

-- An entry that holds nothing.
abbrev pub IsEmpty : Ramzswap → ℕ → Type 0
IsEmpty s index = ((s.table index).pagenum ≡ 0) × (test_page_flag s index rzs_uncompressed ≡ false)

-- A reply of success, and the same page on the next read.
abbrev ReadsBack : Lzo → Bio → List ℕ → Reply × Ramzswap → Type 0
ReadsBack lzo bio page r = (r.0 ≡ completed page) × ((ramzswap_read lzo r.1 bio).0 ≡ completed page)

module _ (lzo : Lzo) (s : Ramzswap) (bio : Bio) (page : List ℕ)
    (full : length page ≡ page_size) where
  memstore_uncompressed :
      test_page_flag s (index_of bio) rzs_zero ≡ false
      → (s.table (index_of bio)).pagenum ≢ 0
      → test_page_flag s (index_of bio) rzs_uncompressed ≡ true
      → ReadsBack lzo bio page (memstore s (index_of bio) 0 page page_size page)
  unfolding memstore test_page_flag update
  memstore_uncompressed z ne u = (
    refl,
    read_uncompressed lzo (memstore s (index_of bio) 0 page page_size page).1 bio (ground arith)
          (ground arith) (ground arith)
        ∙ ap completed stored,
  )
    where
      stored :
          copy_from
            (memstore s (index_of bio) 0 page page_size page).1.bytes
            (place_of (memstore s (index_of bio) 0 page page_size page).1 (index_of bio))
            page_size
          ≡ page
      stored =
          rw (update_self s.table (index_of bio) (record (s.table (index_of bio)) { offset = 0 })) (
            ap
              (copy_from (copy_to s.bytes (loc (s.table (index_of bio)).pagenum 0) page)
                (loc (s.table (index_of bio)).pagenum 0))
              (sym full)
            ∙ copy_from-copy_to s.bytes (loc (s.table (index_of bio)).pagenum 0) page)

  memstore_compressed :
      (c : List ℕ) (offset : ℕ)
      → lzo.compress page ≡ some c
      → offset < 2 ^ 16
      → xv_get_object_size s.mem_pool.mem (loc (s.table (index_of bio)).pagenum offset) ≡ length c
      → test_page_flag s (index_of bio) rzs_zero ≡ false
      → (s.table (index_of bio)).pagenum ≢ 0
      → test_page_flag s (index_of bio) rzs_uncompressed ≡ false
      → ReadsBack lzo bio page (memstore s (index_of bio) offset c (length c) page)
  unfolding memstore test_page_flag update
  memstore_compressed c offset e small size z ne u = (
    refl,
    read_compressed lzo (memstore s (index_of bio) offset c (length c) page).1 bio (ground arith)
        page (ground arith) (ground arith) decompressed,
  )
    where
      a : Loc
      a = loc (s.table (index_of bio)).pagenum offset

      whole : u16 offset ≡ offset
      whole = omega (arith, small)

      r : Ramzswap
      r = (memstore s (index_of bio) offset c (length c) page).1

      decompressed :
          lzo.decompress_safe
            (copy_from r.bytes
              (place_of r (index_of bio))
              (xv_get_object_size r.mem_pool.mem (place_of r (index_of bio))))
            page_size
          ≡ some page
      decompressed =
          rw
            (
              update_self s.table (index_of bio)
                  (record (s.table (index_of bio)) { offset = u16 offset }),
              whole,
              size,
              copy_from-copy_to s.bytes a c,
              sym full,
            )
            (lzo.decompress-compress page c e)

module _ (lzo : Lzo) (s : Ramzswap) (bio : Bio) (page : List ℕ) (full : length page ≡ page_size)
    (fresh : ℕ) (ne : fresh ≢ 0) (z : test_page_flag s (index_of bio) rzs_zero ≡ false) where
  store_uncompressed_lem : ReadsBack lzo bio page (store_uncompressed s (index_of bio) page fresh)
  unfolding store_uncompressed set_page_flag test_page_flag update
  store_uncompressed_lem =
      let index = index_of bio in
      let t : Table = record (s.table index) {
        flags = or_bit rzs_uncompressed (s.table index).flags;
      } in
      let s1 : Ramzswap = record s {
        table =
            update (update s.table index t) index
              (record (update s.table index t index) { pagenum = fresh });
        stats = record (s.stats) { pages_expand = (s.stats.pages_expand + 1) % 2 ^ 32 };
      } in
      let given : (fresh == 0) ≡ false = ground arith in
      rw given (
        memstore_uncompressed lzo s1 bio page full
          (ground (arith, bit-or_bit rzs_uncompressed rzs_zero (s.table index).flags))
          (ground arith)
          (ground (arith, bit-or_bit rzs_uncompressed rzs_uncompressed (s.table index).flags)))

  -- The state in which an object that was allocated is filled.
  abbrev allocated : Bitops → List ℕ → Ramzswap
  allocated b c = record s {
    mem_pool = (xv_malloc b s.mem_pool (length c) false fresh).state;
    table = update s.table (index_of bio) (record (s.table (index_of bio)) {
      pagenum = (xv_malloc b s.mem_pool (length c) false fresh).place.pagenum;
    });
  }

  store_compressed-served :
      (b : Bitops) (c : List ℕ)
      → (xv_malloc b s.mem_pool (length c) false fresh).status ≡ ok
      → store_compressed b s (index_of bio) c page fresh
        ≡ memstore
            (allocated b c)
            (index_of bio)
            (xv_malloc b s.mem_pool (length c) false fresh).place.offset
            c
            (length c)
            page
  unfolding store_compressed
  store_compressed-served b c e = rw (e, store_compressed)

  store_compressed_lem :
      (b : Bitops) (lists : ℕ → List Loc) (c : List ℕ)
      → IsListed s.mem_pool lists
      → Unlisted lists (loc fresh 0)
      → lzo.compress page ≡ some c
      → length c ≤ 4088
      → test_page_flag s (index_of bio) rzs_uncompressed ≡ false
      → ReadsBack lzo bio page (store_compressed b s (index_of bio) c page fresh)
  unfolding test_page_flag
  store_compressed_lem b lists c v out e small u =
      let index = index_of bio in
      let (served, at_page, at_offset, size) =
        xv_malloc_serves b s.mem_pool lists (length c) fresh v (lzo.compress_pos page c e) small ne
          out in
      let r = xv_malloc b s.mem_pool (length c) false fresh in
      let s1 : Ramzswap = allocated b c in
      let here : s1.table index ≡ record (s.table index) { pagenum = r.place.pagenum } =
        update_self s.table index (record (s.table index) { pagenum = r.place.pagenum }) in
      subst (ReadsBack lzo bio page) (sym (store_compressed-served b c served)) (
        memstore_compressed lzo s1 bio page full c r.place.offset e (omega (arith, at_offset))
          (rw here size) (rw here z) (rw here at_page) (rw here u))

  module _ (b : Bitops) (lists : ℕ → List Loc) (v : IsListed s.mem_pool lists)
      (out : Unlisted lists (loc fresh 0)) (c : List ℕ) (e : lzo.compress page ≡ some c)
      (no_backing : s.backing_swap ≡ false)
      (u : test_page_flag s (index_of bio) rzs_uncompressed ≡ false) where
    compress_page_lem : ReadsBack lzo bio page (compress_page b lzo s (index_of bio) page fresh)
    unfolding compress_page
    compress_page_lem = elim (Bool-cases (ltb (max_cpage_size false) (length c))) [
      | inl large ↦ subst (ReadsBack lzo bio page) (sym (chosen true large)) store_uncompressed_lem
      | inr small ↦
          subst (ReadsBack lzo bio page) (sym (chosen false small))
            (store_compressed_lem b lists c v out e (limit small) u)
    ]
      where
        chosen :
            (large : Bool)
            → ltb (max_cpage_size false) (length c) ≡ large
            → compress_page b lzo s (index_of bio) page fresh ≡ (
                if large
                then store_uncompressed s (index_of bio) page fresh
                else store_compressed b s (index_of bio) c page fresh)
        chosen large is = ground (arith, e, is)

        limit : ltb (max_cpage_size false) (length c) ≡ false → length c ≤ 4088
        limit small = unfold max_cpage_size in ground arith

    zero_page_lem :
        page_zero_filled page ≡ true
        → ReadsBack lzo bio page (write_page b lzo s (index_of bio) page fresh)
    unfolding write_page set_page_flag test_page_flag
    zero_page_lem filled =
        let whole : page ≡ zeros page_size = zero_filled-zeros page filled ∙ ap zeros full in
        let t : Table = record (s.table (index_of bio)) {
          flags = or_bit rzs_zero (s.table (index_of bio)).flags;
        } in
        let zero_page_state : Ramzswap = record s {
          table = update s.table (index_of bio) t;
          stats = record (s.stats) { pages_zero = (s.stats.pages_zero + 1) % 2 ^ 32 };
        } in
        let flag_set : bit rzs_zero (update s.table (index_of bio) t (index_of bio)).flags ≡ true =
          rw (update_self s.table (index_of bio) t)
            (bit-or_bit rzs_zero rzs_zero (s.table (index_of bio)).flags) in
        rw (filled, write_page)
          (refl, read_zero lzo zero_page_state bio flag_set ∙ ap completed (sym whole))

    write_page_lem : ReadsBack lzo bio page (write_page b lzo s (index_of bio) page fresh)
    unfolding write_page
    write_page_lem = elim (Bool-cases (page_zero_filled page)) [
      | inl filled ↦ zero_page_lem filled
      | inr other ↦ subst (ReadsBack lzo bio page) (sym (ground (arith, other))) compress_page_lem
    ]

-- Without a backing device, for a pool that holds its lists, a fresh page that is in none of them, a
-- page of 4096 bytes that the compressor can handle and an empty table entry: ramzswap_write
-- succeeds, and the next ramzswap_read of that sector returns the page that was written, be it all
-- zeros, stored compressed or stored as it is.
pub ramzswap_write-read :
    (b : Bitops) (lzo : Lzo) (s : Ramzswap) (lists : ℕ → List Loc) (bio next : Bio) (fresh : ℕ)
    (c : List ℕ)
    → IsListed s.mem_pool lists
    → fresh ≢ 0
    → Unlisted lists (loc fresh 0)
    → length bio.bv_page ≡ page_size
    → lzo.compress bio.bv_page ≡ some c
    → s.backing_swap ≡ false
    → IsEmpty s (index_of bio)
    → next.bi_sector ≡ bio.bi_sector
    → (r : Reply × Ramzswap) × (ramzswap_write b lzo s bio fresh ≡ some r)
      × (r.0 ≡ completed bio.bv_page)
      × ((ramzswap_read lzo r.1 next).0 ≡ completed bio.bv_page)
unfolding ramzswap_write drop_old test_page_flag
ramzswap_write-read b lzo s lists bio next fresh c v ne out full e no_backing (empty, raw) same =
    let counted : Ramzswap = record s {
      stats = record (s.stats) { num_writes = stat_inc s.stats.num_writes };
    } in
    let (pool, backing, _, no_zero, not_raw) = clear_zero_lem counted (index_of bio) in
    let s1 = clear_zero counted (index_of bio) in
    let (done, back) =
      write_page_lem lzo s1 bio bio.bv_page full fresh ne no_zero b lists
        (subst (λ p. IsListed p lists) (sym pool) v) out c e (backing ∙ no_backing)
        (not_raw ∙ raw) in
    (
      write_page b lzo s1 (index_of bio) bio.bv_page fresh,
      ground (arith, empty),
      done,
      ap (λ r. r.0)
            (read_sector lzo (write_page b lzo s1 (index_of bio) bio.bv_page fresh).1 bio next same)
          ∙ back,
    )
