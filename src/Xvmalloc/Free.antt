-- ===== src/Xvmalloc/Free.antt =====
-- xv_free, xv_get_object_size and xv_get_total_size_bytes of xvmalloc.c.
use kernel_patches.Base.{ℕ, ◌+◌, ◌-◌, ◌*◌, ◌%◌, ◌^◌, ◌&&◌, not, ◌==◌, ltb, if◌then◌else◌}
use kernel_patches.Kernel.Bitops.{Bitops}
use kernel_patches.Xvmalloc.{
  Loc, loc, Mem, at, XvPool, Xv, block_free, prev_free, test_flag, set_flag, get_blockprev,
  set_blockprev, block_next, page_size, page_shift, xv_align, xv_min_alloc_size, sub32, align,
  stat_dec, get_index_for_insert,
}
use kernel_patches.Xvmalloc.FreeList.{insert_block, remove_block}
use kernel_patches.Xvmalloc.Alloc.{set_size}

-- How a call of xv_free ends: in BUG_ON, with the block in the pool again, or with its page given
-- back to the kernel.
pub data Freed : Type 0 where
  bug : Freed
  kept : Xv → Freed
  page_freed : (pagenum : ℕ) → Xv → Freed

-- A block on its way into the pool: its header's place and the offset that the code has computed.
pub record Merge : Type 0 where
  pub state : Xv
  pub block : Loc
  pub offset : ℕ

module _ (b : Bitops) where
  -- A free neighbour leaves its free list, if it is large enough to be on one.
  unfoldable pub take_neighbour : Xv → (a block : Loc) → Xv
  take_neighbour s a block =
      let size = (s.mem block).size in
      if ltb size xv_min_alloc_size then s else remove_block b s a block (get_index_for_insert size)

  unfoldable pub merge_next : Xv → Loc → Xv
  unfolding take_neighbour set_size
  merge_next s block =
      let tmp = block_next s.mem block in
      let s1 = take_neighbour s tmp tmp in
      let sum = (s1.mem block).size + ((s1.mem tmp).size + xv_align) in
      if not (tmp.offset == page_size) && test_flag (s.mem tmp) block_free
      then record s1 { mem = at s1.mem block (set_size sum) }
      else s

  unfoldable pub merge_prev : Xv → Loc → Merge
  unfolding take_neighbour set_size
  merge_prev s block =
      let tmp = loc block.pagenum (get_blockprev (s.mem block)) in
      let offset = sub32 (sub32 block.offset (s.mem tmp).size) xv_align in
      let s1 = take_neighbour s (loc block.pagenum offset) tmp in
      let sum = (s1.mem tmp).size + ((s1.mem block).size + xv_align) in
      if test_flag (s.mem block) prev_free
      then record {
        state = record s1 { mem = at s1.mem tmp (set_size sum) };
        block = tmp;
        offset = offset;
      }
      else record { state = s; block = block; offset = block.offset }

  -- The merged block goes back to the kernel if it fills its page, else into the pool.
  unfoldable pub put_block : Merge → Freed
  put_block m =
      let s = m.state in
      let block = m.block in
      let page = block.pagenum in
      let s1 = record s { mem = at s.mem block (λ h. set_flag h block_free) } in
      let s2 =
        if ltb (s1.mem block).size xv_min_alloc_size
        then s1
        else insert_block b s1 (loc page m.offset) block in
      let flagged =
        at s2.mem (block_next s2.mem block) λ h. set_blockprev (set_flag h prev_free) m.offset in
      if (s.mem block).size == page_size - xv_align
      then page_freed page
          (record s { pool = record (s.pool) { total_pages = stat_dec s.pool.total_pages } })
      else if m.offset + (s2.mem block).size + xv_align == page_size
      then kept s2
      else kept (record s2 { mem = flagged })

  unfoldable pub xv_free : Xv → Loc → Freed
  unfolding merge_next merge_prev put_block set_size
  xv_free s place =
      let block = loc place.pagenum (sub32 place.offset xv_align) in
      let aligned = at s.mem block λ h. set_size (align h.size xv_align) h in
      if test_flag (s.mem block) block_free
      then bug
      else put_block (merge_prev (merge_next (record s { mem = aligned }) block) block)

unfoldable pub xv_get_object_size : Mem → Loc → ℕ
xv_get_object_size m obj = (m (loc obj.pagenum (sub32 obj.offset xv_align))).size

-- `total_pages << PAGE_SHIFT` on 64 bits.
unfoldable pub xv_get_total_size_bytes : XvPool → ℕ
xv_get_total_size_bytes pool = pool.total_pages * 2 ^ page_shift % 2 ^ 64
