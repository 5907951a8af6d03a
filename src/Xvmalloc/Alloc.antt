-- ===== src/Xvmalloc/Alloc.antt =====
-- xv_malloc, grow_pool and xv_create_pool of xvmalloc.c. The kernel's page allocator is an
-- argument: the number of the page that `alloc_page` returns, or 0 if it fails. That page comes
-- with whatever headers `mem` has there. Calls run one at a time.
use kernel_patches.Base.{ℕ, ◌+◌, ◌-◌, Bool, ◌||◌, ◌==◌, ltb, if◌then◌else◌}
use kernel_patches.Kernel.Bitops.{Bitops}
use kernel_patches.Xvmalloc.{
  Loc, loc, BlockHeader, at, XvPool, Xv, block_free, prev_free, set_flag, clear_flag, set_blockprev,
  block_next, page_size, xv_align, xv_min_alloc_size, xv_max_alloc_size, u16, sub32, align,
  stat_inc,
}
use kernel_patches.Xvmalloc.FreeList.{insert_block, remove_block_head}
use kernel_patches.Xvmalloc.FindBlock.{Found, find_block}

pub data Status : Type 0 where
  ok enomem : Status

-- What xv_malloc returns, with the two out parameters and the new state.
pub record Malloc : Type 0 where
  pub status : Status
  pub place : Loc
  pub state : Xv

unfoldable pub set_size : ℕ → BlockHeader → BlockHeader
set_size n h = record h { size = u16 n }

-- `kzalloc` clears the pool; null if it fails.
unfoldable pub xv_create_pool : XvPool
xv_create_pool = record {
  flbitmap = 0;
  slbitmap = λ _. 0;
  freelist = λ _. loc 0 0;
  total_pages = 0;
}

-- The header of a page that is one free block.
unfoldable pub whole_page : BlockHeader → BlockHeader
unfolding set_size
whole_page h =
    set_blockprev (clear_flag (set_flag (set_size (page_size - xv_align) h) block_free) prev_free) 0

module _ (b : Bitops) where
  unfoldable pub grow_pool : Xv → (fresh : ℕ) → Status × Xv
  unfolding whole_page
  grow_pool s fresh = if fresh == 0 then (enomem, s) else (
    ok,
    insert_block b
        (record {
          pool = record (s.pool) { total_pages = stat_inc s.pool.total_pages };
          mem = at s.mem (loc fresh 0) whole_page;
        })
        (loc fresh 0) (loc fresh 0),
  )

  -- The rest of a block behind an allocation of `size` bytes becomes a free block of its own.
  unfoldable pub split_rest : Xv → Loc → (size tmpsize : ℕ) → Xv
  unfolding set_size
  split_rest s a size tmpsize =
      let tmpoffset = a.offset + size + xv_align in
      let tmp = loc a.pagenum tmpoffset in
      let mem = at s.mem tmp λ h.
        set_blockprev
          (clear_flag (set_flag (set_size (sub32 tmpsize xv_align) h) block_free) prev_free)
          a.offset in
      let s1 = record s { mem = mem } in
      let s2 = if ltb (mem tmp).size xv_min_alloc_size then s1 else insert_block b s1 tmp tmp in
      if tmpoffset + xv_align + (s2.mem tmp).size == page_size
      then s2
      else record s2 { mem = at s2.mem (block_next s2.mem tmp) (λ h. set_blockprev h tmpoffset) }

  -- From the block found to the block handed out.
  unfoldable pub take_block : Xv → Found → (size origsize : ℕ) → Xv
  unfolding split_rest set_size
  take_block s found size origsize =
      let a = found.place in
      let s1 = remove_block_head b s a found.index in
      let tmpoffset = a.offset + size + xv_align in
      let tmpsize = sub32 (s1.mem a).size size in
      let s2 =
        if tmpsize == 0
        then (if tmpoffset == page_size then s1 else record s1 {
          mem = at s1.mem (loc a.pagenum tmpoffset) (λ h. clear_flag h prev_free);
        })
        else split_rest s1 a size tmpsize in
      record s2 { mem = at s2.mem a (λ h. clear_flag (set_size origsize h) block_free) }

  -- What follows a search: failure if it found nothing, else the block.
  unfoldable pub finish_malloc : Xv → Found → (size origsize : ℕ) → Malloc
  unfolding take_block
  finish_malloc s found size origsize =
      if found.place.pagenum == 0
      then record { status = enomem; place = found.place; state = s }
      else record {
        status = ok;
        place = loc found.place.pagenum (found.place.offset + xv_align);
        state = take_block s found size origsize;
      }

  -- `nowait` is `flags & GFP_NOWAIT`.
  unfoldable pub xv_malloc : Xv → (size : ℕ) → (nowait : Bool) → (fresh : ℕ) → Malloc
  xv_malloc s origsize nowait fresh =
      let size = align origsize xv_align in
      let found = find_block b s.pool size (loc 0 0) in
      let (grown, s1) = grow_pool s fresh in
      let again = finish_malloc s1 (find_block b s1.pool size (loc 0 0)) size origsize in
      if (origsize == 0) || ltb xv_max_alloc_size origsize
      then record { status = enomem; place = loc 0 0; state = s }
      else if found.place.pagenum == 0
      then (if nowait
          then record { status = enomem; place = found.place; state = s }
          else elim grown [
            | enomem ↦ record { status = enomem; place = found.place; state = s1 }
            | ok ↦ again
          ])
      else finish_malloc s found size origsize
